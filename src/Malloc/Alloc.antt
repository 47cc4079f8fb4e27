-- ===== src/Malloc/Alloc.antt =====
-- `malloc` of kernel/malloc.c on a well-formed heap.
use beeros.Prelude.{
  ℕ, ◌+◌, ◌^◌, ◌≤◌, ◌<◌, ◌≡◌, refl, sym, ◌∙◌, ◌≢◌, ◌⊎◌, inl, inr, List, [], ◌∷◌, arith, true, false,
  Bool-cases, ◌==◌, leb, ltb, if◌then◌else◌,
}
use beeros.Prelude.Slice.{update}
use beeros.Memory.{load64, store64, store64-elsewhere, load64-store64}
use beeros.Malloc.{Heap, top, header_size, class_size, class_of, classes, reuse, carve, malloc}
use beeros.Malloc.Classes.{class_of-IsLeast, class_of-too_large}
use beeros.Malloc.Layout.{IsBlock, In, Distinct, View, IsHeap, Live, first_free}
use beeros.Malloc.Steps.{reuse-IsHeap, grown, grown-IsHeap, grown_fresh}

-- A successful call: the pointer, its block and class, and what becomes of the other blocks. Only
-- the block's header is written.
pub record Allocated (n : ℕ) (v v' : View) (h : Heap) (r : ℕ × Heap) (b c : ℕ) : Type 0 where
  pub valid : IsHeap r.1 v'
  pub pointer : r.0 ≡ b + header_size
  pub plain : load64 r.1.mem (b + 8) ≡ 0
  pub fits : n ≤ class_size c
  pub live : Live v' b c
  pub fresh : (k : ℕ) → Live v b k → ⊥
  pub kept : (d k : ℕ) → Live v d k → Live v' d k
  pub frame : (a : ℕ) → (a < b) ⊎ (b + header_size ≤ a) → r.1.mem a ≡ h.mem a

-- A refused call: nothing changes but `errno` and a first break.
pub record Refused (n : ℕ) (v : View) (h : Heap) (r : ℕ × Heap) : Type 0 where
  pub valid : IsHeap r.1 v
  pub null : r.0 ≡ 0
  pub enomem : r.1.enomem ≡ true
  pub same : r.1.mem ≡ h.mem
  pub why :
      (2 ^ 31 < n)
      ⊎ ((v.free (class_of n) ≡ []) × (h.heap_end < top h + (16 + class_size (class_of n))))

-- A block of one class is on no other class's free list.
update-kept :
    (v : View) (c : ℕ) (l : List ℕ)
    → ((d : ℕ) → In d l → In d (v.free c))
    → (d k : ℕ) → Live v d k
    → Live (record v { free = update v.free c l }) d k
update-kept v c l sub d k (i, out) = (
  i,
  elim (Bool-cases (c == k)) [
    | inl same ↦ let p : c ≡ k = ground arith in rw same (λ j. out (rw (← p) (sub d j)))
    | inr other ↦ rw other out
  ],
)

module _ {h : Heap} {v : View} (ok : IsHeap h v) (n : ℕ) where
  reuse-Allocated :
      (b : ℕ) (l : List ℕ)
      → n ≤ 2 ^ 31
      → v.free (class_of n) ≡ b ∷ l
      → Allocated n v
          (record v { free = update v.free (class_of n) l })
          h
          (reuse (class_of n) b h)
          b
          (class_of n)
  unfolding reuse
  reuse-Allocated b l small e =
      let c = class_of n in
      let (lt, fits, _) = class_of-IsLeast n small in
      let i : IsBlock b c v.blocks = ok.listed b c lt (rw e (inl refl)) in
      let all : Distinct (b ∷ l) = rw e at (ok.distinct c lt) in
      let self : (c == c) ≡ true = ground arith in
      record {
        valid = reuse-IsHeap ok c b l lt e;
        pointer = refl;
        plain = load64-store64 h.mem (b + 8) 0 (omega arith);
        fits = fits;
        live = (i, rw self all.0);
        fresh = λ k (j, out).
            let same : c ≡ k = sym (ok.headers b c i) ∙ ok.headers b k j in
            out (rw (← same, e) (inl refl));
        kept = update-kept v c l (λ d j. rw e (inr j));
        frame = λ a apart. store64-elsewhere h.mem (b + 8) 0 a (ground arith);
      }

  carve-Allocated :
      n ≤ 2 ^ 31
      → top h + (16 + class_size (class_of n)) ≤ h.heap_end
      → Allocated n v
          (record v { blocks = (top h, class_of n) ∷ v.blocks })
          h
          (carve (class_of n) h)
          (top h)
          (class_of n)
  unfolding carve grown
  carve-Allocated small room =
      let c = class_of n in
      let (lt, fits, _) = class_of-IsLeast n small in
      let fit : ltb h.heap_end (top h + (16 + class_size c)) ≡ false = ground arith in
      rw fit (record {
        valid = grown-IsHeap ok c lt room;
        pointer = refl;
        plain = load64-store64 _ (top h + 8) 0 (omega arith);
        fits = fits;
        live = (inl (refl, refl), λ j. grown_fresh ok c lt room c (ok.listed (top h) c lt j));
        fresh = λ k (j, _). grown_fresh ok c lt room k j;
        kept = λ d k (j, out). (inr j, out);
        frame = λ a apart.
            store64-elsewhere (store64 h.mem (top h) c) (top h + 8) 0 a (ground arith)
            ∙ store64-elsewhere h.mem (top h) c a (ground arith);
      })

  refused-IsHeap : IsHeap (record h { brk = top h; enomem = true }) v
  refused-IsHeap =
      let e : top (record h { brk = top h; enomem = true }) ≡ top h = ground (arith, ok.start) in
      record {
        start = ok.start;
        room = rw e ok.room;
        carved = rw e ok.carved;
        headers = ok.headers;
        chains = ok.chains;
        listed = ok.listed;
        distinct = ok.distinct;
      }

  no_class-Refused : 2 ^ 31 < n → Refused n v h (0, record h { enomem = true })
  no_class-Refused big = record {
    valid = record {
      start = ok.start;
      room = ok.room;
      carved = ok.carved;
      headers = ok.headers;
      chains = ok.chains;
      listed = ok.listed;
      distinct = ok.distinct;
    };
    null = refl;
    enomem = refl;
    same = refl;
    why = inl big;
  }

  carve-Refused :
      v.free (class_of n) ≡ []
      → h.heap_end < top h + (16 + class_size (class_of n))
      → Refused n v h (carve (class_of n) h)
  unfolding carve
  carve-Refused none_free full =
      let fit : ltb h.heap_end (top h + (16 + class_size (class_of n))) ≡ true = ground arith in
      rw fit (record {
        valid = refused-IsHeap;
        null = refl;
        enomem = refl;
        same = refl;
        why = inr (none_free, full);
      })

  with_class :
      n ≤ 2 ^ 31
      → ((h.free_lists (class_of n) ≡ 0) × (v.free (class_of n) ≡ []))
        ⊎ ((b : ℕ) × (l : List ℕ) × (h.free_lists (class_of n) ≡ b)
            × (b ≢ 0)
            × (v.free (class_of n) ≡ b ∷ l))
      → let r =
          if h.free_lists (class_of n) == 0
          then carve (class_of n) h
          else reuse (class_of n) (h.free_lists (class_of n)) h in
        Refused n v h r ⊎ ((v' : View) × (b : ℕ) × (c : ℕ) × Allocated n v v' h r b c)
  with_class small (inl (null, empty)) =
      let e : (h.free_lists (class_of n) == 0) ≡ true = ground arith in
      rw e (elim (Bool-cases (leb (top h + (16 + class_size (class_of n))) h.heap_end)) [
        | inl room ↦ inr (_, _, _, carve-Allocated small (ground arith))
        | inr full ↦ inl (carve-Refused empty (ground arith))
      ])
  with_class small (inr (b, l, first, ne, e)) =
      let e' : (b == 0) ≡ false = ground arith in
      rw (first, e') (inr (_, _, _, reuse-Allocated b l small e))

  -- On a well-formed heap `malloc` keeps it well-formed. It answers a pointer just past the header
  -- of a block that no client held, that holds at least `n` bytes and whose `offset` is 0, and every
  -- block that a client held stays held, with no byte changed outside that header; or it answers
  -- NULL with `errno` set and memory unchanged, and this only if `n` is above 2 GiB, or the free
  -- list of its class is empty and the heap has no room for another block of that class.
  pub malloc_lem :
      Refused n v h (malloc n h)
      ⊎ ((v' : View) × (b : ℕ) × (c : ℕ) × Allocated n v v' h (malloc n h) b c)
  unfolding malloc
  malloc_lem = elim (Bool-cases (leb n (2 ^ 31))) [
    | inr big ↦
        let none_fits : leb classes (class_of n) ≡ true = ground (arith, class_of-too_large n) in
        inl (rw none_fits (no_class-Refused (ground arith)))
    | inl small ↦
        let (lt, _, _) = class_of-IsLeast n (ground arith) in
        let exists : leb classes (class_of n) ≡ false = ground arith in
        rw exists (with_class (ground arith) (first_free ok (class_of n) lt))
  ]
