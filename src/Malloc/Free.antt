-- ===== src/Malloc/Free.antt =====
-- `free` of kernel/malloc.c on a well-formed heap, and what a client may write.
use beeros.Prelude.{
  ℕ, ◌+◌, ◌%◌, ◌≤◌, ◌<◌, ◌^◌, ◌≡◌, refl, ◌∙◌, ◌≢◌, ◌⊎◌, inl, inr, ◌∷◌, arith, true, false,
  Bool-cases, ◌==◌,
}
use beeros.Prelude.Slice.{update}
use beeros.Memory.{Memory, load64, store64, load64-store64, load64-store64_ne, load64-ext}
use beeros.Malloc.{Heap, top, header_size, class_size, classes, header_of, free}
use beeros.Malloc.Classes.{class_size_bounds}
use beeros.Malloc.Layout.{
  IsBlock, In, Distinct, Chain, View, IsHeap, Live, IsBlock-bounds, IsBlock-apart, Chain-frame,
  offset_apart, link_apart, first_free,
}

-- The view after a block goes on its class's free list.
abbrev pub released : View → ℕ → ℕ → View
released v b c = record v { free = update v.free c (b ∷ v.free c) }

module _ {h : Heap} {v : View} (ok : IsHeap h v) (b c : ℕ) (live : Live v b c) where
  pub bounds :
      (h.heap_start ≤ b)
      × (b + header_size + class_size c ≤ top h)
      × (c < classes)
      × (b % 16 ≡ 0)
      × (top h % 16 ≡ 0)
  bounds = IsBlock-bounds h.heap_start v.blocks (top h) b c ok.carved ok.start.1 live.0

  -- No free block is the block.
  free_apart :
      (d k : ℕ)
      → k < classes
      → In d (v.free k)
      → (b + header_size + class_size c ≤ d) ⊎ (d + header_size + class_size k ≤ b)
  free_apart d k lt i =
      let j = ok.listed d k lt i in
      elim (IsBlock-apart h.heap_start v.blocks (top h) b c d k ok.carved ok.start.1 live.0 j) [
        | inl (p, q) ↦ absurd (live.1 (rw (p, q) i))
        | inr apart ↦ apart
      ]

  -- A client that holds a block may write anything into its payload: the heap stays well-formed.
  pub client_write :
      (m : Memory)
      → ((a : ℕ) → (a < b + header_size) ⊎ (b + header_size + class_size c ≤ a) → m a ≡ h.mem a)
      → IsHeap (record h { mem = m }) v
  client_write m same = record {
    start = ok.start;
    room = ok.room;
    carved = ok.carved;
    headers =
        λ d k i. load64-ext h.mem m d (λ a lo hi. same a (header d k i a lo hi)) ∙ ok.headers d k i;
    chains = λ k lt.
        Chain-frame h.mem m _ _
          (λ d i. load64-ext h.mem m (d + header_size) λ a lo hi. same a (link d k lt i a lo hi))
          (ok.chains k lt);
    listed = ok.listed;
    distinct = ok.distinct;
  }
    where
      header :
          (d k : ℕ)
          → IsBlock d k v.blocks
          → (a : ℕ) → d ≤ a
          → a < d + 8
          → (a < b + header_size) ⊎ (b + header_size + class_size c ≤ a)
      header d k i a lo hi =
          elim (IsBlock-apart h.heap_start v.blocks (top h) b c d k ok.carved ok.start.1 live.0 i) [
            | inl same ↦ inl (omega arith)
            | inr (inl above) ↦ inr (omega arith)
            | inr (inr below) ↦ inl (omega arith)
          ]

      link :
          (d k : ℕ)
          → k < classes
          → In d (v.free k)
          → (a : ℕ) → d + header_size ≤ a
          → a < d + header_size + 8
          → (a < b + header_size) ⊎ (b + header_size + class_size c ≤ a)
      link d k lt i a lo hi = elim (free_apart d k lt i) [
        | inl above ↦ inr (omega arith)
        | inr below ↦ inl (omega (arith, class_size_bounds k lt))
      ]

  free_mem : Memory
  free_mem = store64 (store64 h.mem (b + 8) 0) (b + header_size) (h.free_lists c)

  -- A free list's first link is NULL or a block below 2^63.
  head_small : h.free_lists c < 2 ^ 64
  head_small = elim (first_free ok c (bounds.2)) [
    | inl (null, _) ↦ omega arith
    | inr (d, l, first, _, e) ↦ omega (
      arith,
      ok.room,
      IsBlock-bounds h.heap_start v.blocks (top h) d c ok.carved ok.start.1
          (ok.listed d c bounds.2 (rw e (inl refl))),
    )
  ]

  free_link : load64 free_mem (b + header_size) ≡ h.free_lists c
  unfolding free_mem
  free_link = load64-store64 _ (b + header_size) _ head_small

  free_header : (d k : ℕ) → IsBlock d k v.blocks → load64 free_mem d ≡ load64 h.mem d
  unfolding free_mem
  free_header d k i =
      load64-store64_ne _ (b + header_size) d _ (link_apart ok d k b c i live.0).0
      ∙ load64-store64_ne h.mem (b + 8) d 0 (offset_apart ok d k b c i live.0).0

  free_other :
      (d k : ℕ)
      → k < classes
      → In d (v.free k)
      → load64 free_mem (d + header_size) ≡ load64 h.mem (d + header_size)
  unfolding free_mem
  free_other d k lt i =
      load64-store64_ne _ (b + header_size) (d + header_size) _
        (ground (arith, free_apart d k lt i, class_size_bounds k lt, class_size_bounds c bounds.2))
      ∙ load64-store64_ne h.mem (b + 8) (d + header_size) 0 (
          ground (arith, free_apart d k lt i, class_size_bounds k lt, class_size_bounds c bounds.2))

  freed : Heap
  freed = record h { mem = free_mem; free_lists = update h.free_lists c b }

  freed-IsHeap : IsHeap freed (released v b c)
  unfolding freed
  freed-IsHeap = record {
    start = ok.start;
    room = ok.room;
    carved = ok.carved;
    headers = λ d k i. free_header d k i ∙ ok.headers d k i;
    chains = chains;
    listed = listed;
    distinct = distinct;
  }
    where
      frame : (k : ℕ) → k < classes → Chain free_mem (h.free_lists k) (v.free k)
      frame k lt = Chain-frame h.mem free_mem _ _ (λ d i. free_other d k lt i) (ok.chains k lt)

      chains :
          (k : ℕ)
          → k < classes
          → Chain free_mem (update h.free_lists c b k) (update v.free c (b ∷ v.free c) k)
      chains k lt = elim (Bool-cases (c == k)) [
        | inl same ↦
            rw same (refl, omega (arith, ok.start, bounds), rw free_link (frame c bounds.2))
        | inr other ↦ rw other (frame k lt)
      ]

      listed :
          (d k : ℕ) → k < classes → In d (update v.free c (b ∷ v.free c) k) → IsBlock d k v.blocks
      listed d k lt = elim (Bool-cases (c == k)) [
        | inl same ↦ let p : c ≡ k = ground arith in rw same (λ i. in_class d k p i)
        | inr other ↦ rw other (ok.listed d k lt)
      ]
        where
          in_class : (d k : ℕ) → c ≡ k → In d (b ∷ v.free c) → IsBlock d k v.blocks
          in_class d k p (inl e) = rw (e, ← p) live.0
          in_class d k p (inr i) = rw (← p) (ok.listed d c bounds.2 i)

      distinct : (k : ℕ) → k < classes → Distinct (update v.free c (b ∷ v.free c) k)
      distinct k lt = elim (Bool-cases (c == k)) [
        | inl same ↦ rw same (live.1, ok.distinct c bounds.2)
        | inr other ↦ rw other (ok.distinct k lt)
      ]

  -- `free` of a pointer into a block that a client holds puts the block on its class's free list
  -- and keeps the heap well-formed; every other block that a client holds stays held.
  pub free_lem :
      (p : ℕ)
      → p ≢ 0
      → header_of p h ≡ b
      → IsHeap (free p h) (released v b c)
        × (Live (released v b c) b c → ⊥)
        × ((d k : ℕ) → d ≢ b → Live v d k → Live (released v b c) d k)
  unfolding free
  free_lem p ne at =
      let cls : load64 h.mem b ≡ c = ok.headers b c live.0 in
      let not_null : (p == 0) ≡ false = ground arith in
      let self : (c == c) ≡ true = ground arith in
      (
        rw (at, not_null, cls) (unfold freed free_mem in freed-IsHeap),
        λ (i, out). out (rw self (inl refl)),
        other,
      )
    where
      other : (d k : ℕ) → d ≢ b → Live v d k → Live (released v b c) d k
      other d k ne' (i, out) = (
        i,
        elim (Bool-cases (c == k)) [
          | inl same ↦
              let p' : c ≡ k = ground arith in
              rw same (λ j. elim j [ inl e ↦ ne' e | inr j' ↦ out (rw (← p') j') ])
          | inr differ ↦ rw differ out
        ],
      )
