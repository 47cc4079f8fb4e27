-- ===== src/Malloc/Realloc.antt =====
-- `realloc` of kernel/malloc.c: what becomes of the bytes.
use beeros.Prelude.{
  ℕ, ◌+◌, ◌-◌, ◌≤◌, ◌<◌, ◌≡◌, refl, ap, ◌∙◌, sym, ◌≢◌, ◌⊎◌, inl, inr, arith, true, false, ◌==◌, ltb,
  leb, Bool-cases,
}
use beeros.Memory.{load64, store64, load64-ext, store64-elsewhere}
use beeros.Malloc.{
  Heap, top, header_size, class_size, header_of, malloc, free, usable, memcpy, moved, realloc,
}
use beeros.Malloc.Classes.{class_size_bounds}
use beeros.Malloc.Layout.{View, IsHeap, Live, IsBlock-apart}
use beeros.Malloc.Alloc.{Allocated, Refused, malloc_lem}
use beeros.Malloc.Free.{bounds, client_write, released, free_lem}

-- The byte lies in the payload of the block.
abbrev pub Inside : ℕ → ℕ → ℕ → Type 0
Inside b c a = (b + header_size ≤ a) × (a < b + header_size + class_size c)

-- Two blocks of one heap, in hands, with different headers, do not overlap.
pub Live-apart :
    {h : Heap} {v : View}
    → IsHeap h v
    → (b c d k : ℕ) → b ≢ d
    → Live v b c
    → Live v d k
    → (b + header_size + class_size c ≤ d) ⊎ (d + header_size + class_size k ≤ b)
Live-apart {h} {v} ok b c d k ne live other =
    elim (IsBlock-apart h.heap_start v.blocks (top h) b c d k ok.carved ok.start.1 live.0 other.0) [
      | inl (p, q) ↦ absurd (ne p)
      | inr apart ↦ apart
    ]

free-outside :
    (p b : ℕ) (h : Heap) (a : ℕ)
    → header_of p h ≡ b
    → (a < b + 8) ⊎ (b + 24 ≤ a)
    → (free p h).mem a ≡ h.mem a
unfolding free
free-outside p b h a at apart = elim (Bool-cases (p == 0)) [
  | inl null ↦ rw null refl
  | inr some_block ↦
      rw (some_block, at)
        (store64-elsewhere (store64 h.mem (b + 8) 0) (b + header_size)
            (h.free_lists (load64 h.mem b)) a (ground arith)
          ∙ store64-elsewhere h.mem (b + 8) 0 a (ground arith))
]

-- What `realloc` of `p`, in block (b, c), with `have` bytes behind it, answers if it moves.
pub record Moved (n p have b c : ℕ) (v : View) (h : Heap) (r : ℕ × Heap) : Type 0 where
  pub view : View
  pub block : ℕ × ℕ
  pub pointer : r.0 ≡ block.0 + header_size
  pub fresh : (k : ℕ) → Live v block.0 k → ⊥
  pub fits : n ≤ class_size block.1
  pub valid : IsHeap r.1 (released view b c)
  pub held : Live (released view b c) block.0 block.1
  pub given_back : Live (released view b c) b c → ⊥
  pub bytes : (i : ℕ) → i < have → r.1.mem (r.0 + i) ≡ h.mem (p + i)
  pub others : (d k : ℕ) → d ≢ b → Live v d k → Live (released view b c) d k
  pub other_bytes : (d k a : ℕ) → d ≢ b → Live v d k → Inside d k a → r.1.mem a ≡ h.mem a

module _ {h : Heap} {v : View} (ok : IsHeap h v) (b c p : ℕ) (live : Live v b c) (not_null : p ≢ 0)
    (at : header_of p h ≡ b) (inside : Inside b c p) where
  usable_lem : usable p h ≡ b + header_size + class_size c - p
  unfolding usable
  usable_lem =
      let (_, _, lt, _, _) = bounds ok b c live in
      rw (at, ok.headers b c live.0) (omega (arith, class_size_bounds c lt, inside))

  module _ {n : ℕ} {v' : View} {q b' c' : ℕ} {h' : Heap} (a : Allocated n v v' h (q, h') b' c')
      (more : b + header_size + class_size c - p < n) where
    have : ℕ
    have = b + header_size + class_size c - p

    copied : Heap
    unfolding have
    copied = record h' { mem = memcpy h'.mem q p have }

    other_block : b' ≢ b
    other_block e = a.fresh c (rw e live)

    -- The copy stays inside the new block.
    copied-elsewhere :
        (x : ℕ)
        → (x < b' + header_size) ⊎ (b' + header_size + class_size c' ≤ x)
        → copied.mem x ≡ h'.mem x
    unfolding copied
    copied-elsewhere x apart = ground (arith, a.pointer, a.fits, more)

    copied-IsHeap : IsHeap copied v'
    unfolding copied
    copied-IsHeap = client_write a.valid b' c' a.live copied.mem copied-elsewhere

    -- A block that was held before keeps its header and its bytes.
    kept_bytes :
        (d k x : ℕ)
        → Live v d k
        → d ≤ x
        → x < d + header_size + class_size k
        → copied.mem x ≡ h.mem x
    kept_bytes d k x held low high =
        let differ : b' ≢ d = λ e. a.fresh k (rw e held) in
        let apart = Live-apart a.valid b' c' d k differ a.live (a.kept d k held) in
        copied-elsewhere x (ground arith) ∙ a.frame x (ground arith)

    copied-header : header_of p copied ≡ b
    unfolding header_of
    copied-header =
        let same : load64 copied.mem (p - header_size + 8) ≡ load64 h.mem (p - header_size + 8) =
          load64-ext h.mem copied.mem (p - header_size + 8)
            (λ x low high. kept_bytes b c x live (omega (arith, inside)) (omega (arith, inside))) in
        rw same at

    copied_byte :
        (i : ℕ) → i < b + header_size + class_size c - p → copied.mem (q + i) ≡ h'.mem (p + i)
    unfolding copied have
    copied_byte i lt =
        let from_start : leb q (q + i) ≡ true = ground arith in
        let to_end : ltb (q + i) (q + (b + header_size + class_size c - p)) ≡ true = ground arith in
        let place : p + (q + i - q) ≡ p + i = omega arith in
        rw from_start (rw to_end (ap h'.mem place))

    same_byte : (i : ℕ) → i < b + header_size + class_size c - p → h'.mem (p + i) ≡ h.mem (p + i)
    same_byte i lt =
        let new_apart = Live-apart a.valid b' c' b c other_block a.live (a.kept b c live) in
        a.frame (p + i) (ground (arith, new_apart, inside))

    realloc-Moved : Moved n p (b + header_size + class_size c - p) b c v h (q, free p copied)
    unfolding copied have
    realloc-Moved =
        let (_, _, lt, _, _) = bounds ok b c live in
        let (_, some_room, _) = class_size_bounds c lt in
        let (freed, gone, still) =
          free_lem copied-IsHeap b c (a.kept b c live) p not_null copied-header in
        let new_apart = Live-apart a.valid b' c' b c other_block a.live (a.kept b c live) in
        record {
          view = v';
          block = (b', c');
          pointer = a.pointer;
          fresh = a.fresh;
          fits = a.fits;
          valid = freed;
          held = still b' c' other_block a.live;
          given_back = gone;
          bytes = λ i lt'.
              free-outside p b copied (q + i) copied-header
                (ground (arith, a.pointer, a.fits, more, new_apart, some_room, lt'))
              ∙ copied_byte i lt'
              ∙ same_byte i lt';
          others = λ d k ne held. still d k ne (a.kept d k held);
          other_bytes = λ d k x ne held in_block.
              let apart = Live-apart ok b c d k (λ e. ne (sym e)) live held in
              free-outside p b copied x copied-header (ground (arith, apart, in_block, some_room))
              ∙ kept_bytes d k x held (omega (arith, in_block)) (omega (arith, in_block));
        }

  -- The call that has to move, on what `malloc` answers.
  moved_outcome :
      (n : ℕ) (r : ℕ × Heap)
      → b + header_size + class_size c - p < n
      → Refused n v h r ⊎ ((v' : View) × (b' : ℕ) × (c' : ℕ) × Allocated n v v' h r b' c')
      → let have = b + header_size + class_size c - p in
        Refused n v h (moved p have r) ⊎ Moved n p have b c v h (moved p have r)
  unfolding moved copied have
  moved_outcome n (q, h') more (inl refused) =
      let none : (q == 0) ≡ true = ground (arith, refused.null) in
      rw none (
        inl (record {
          valid = refused.valid;
          null = refl;
          enomem = refused.enomem;
          same = refused.same;
          why = refused.why;
        }))
  moved_outcome n (q, h') more (inr (v', b', c', a)) =
      let some_block : (q == 0) ≡ false = ground (arith, a.pointer) in
      rw some_block (inr (realloc-Moved a more))

  -- On a well-formed heap realloc of a pointer into a held block, with some bytes behind it up to
  -- the block's end: if n bytes fit there, it answers the pointer and changes nothing. Otherwise it
  -- is refused as malloc of n is, with the block still held and memory unchanged; or it answers a
  -- block that no client held, of n bytes or more, whose first bytes are those that stood behind
  -- the pointer; the old block is given back, and all other held blocks keep their bytes.
  pub realloc_lem :
      (n : ℕ)
      → let have = b + header_size + class_size c - p in
        ((n ≤ have) × (realloc p n h ≡ (p, h)))
        ⊎ ((have < n) × (Refused n v h (realloc p n h) ⊎ Moved n p have b c v h (realloc p n h)))
  unfolding realloc
  realloc_lem n =
      let some_pointer : (p == 0) ≡ false = ground arith in
      elim (Bool-cases (leb n (b + header_size + class_size c - p))) [
        | inl fits ↦ inl (ground arith, rw (some_pointer, usable_lem, fits) refl)
        | inr more ↦
            let short : b + header_size + class_size c - p < n = ground arith in
            inr (
              short,
              rw (some_pointer, usable_lem, more)
                  (moved_outcome n (malloc n h) short (malloc_lem ok n)),
            )
      ]
