-- ===== src/Malloc/Steps.antt =====
-- The two ways in which `malloc` of kernel/malloc.c gets a block, on a well-formed heap: the head of
-- a free list, and new memory at the break.
use beeros.Prelude.{ℕ, ◌+◌, ◌≤◌, ◌<◌, ◌≡◌, refl, ◌∙◌, inl, inr, List, ◌∷◌, arith, Bool-cases, ◌==◌}
use beeros.Prelude.Slice.{update}
use beeros.Memory.{load64, store64, load64-store64, load64-store64_ne}
use beeros.Malloc.{Heap, top, class_size, classes, reuse}
use beeros.Malloc.Classes.{class_size_bounds}
use beeros.Malloc.Layout.{
  IsBlock, In, Distinct, Chain, View, IsHeap, IsBlock-bounds, Chain-frame, offset_apart,
}

module _ {h : Heap} {v : View} (ok : IsHeap h v) (c b : ℕ) (l : List ℕ) (lt : c < classes)
    (e : v.free c ≡ b ∷ l) where
  pub block : IsBlock b c v.blocks
  block = ok.listed b c lt (rw e (inl refl))

  pub reuse-IsHeap : IsHeap (reuse c b h).1 (record v { free = update v.free c l })
  unfolding reuse
  reuse-IsHeap = record {
    start = ok.start;
    room = ok.room;
    carved = ok.carved;
    headers = λ d k i.
        load64-store64_ne h.mem (b + 8) d 0 (offset_apart ok d k b c i block).0 ∙ ok.headers d k i;
    chains = chains;
    listed = listed;
    distinct = distinct;
  }
    where
      chain : Chain h.mem (h.free_lists c) (b ∷ l)
      chain = rw e at (ok.chains c lt)

      frame :
          (k p : ℕ) (bs : List ℕ)
          → k < classes
          → ((d : ℕ) → In d bs → IsBlock d k v.blocks)
          → Chain h.mem p bs
          → Chain (store64 h.mem (b + 8) 0) p bs
      frame k p bs lt' blocks = Chain-frame h.mem _ p bs λ d i.
          load64-store64_ne h.mem (b + 8) (d + 16) 0 (offset_apart ok d k b c (blocks d i) block).1

      chains :
          (k : ℕ)
          → k < classes
          → Chain
              (store64 h.mem (b + 8) 0)
              (update h.free_lists c (load64 h.mem (b + 16)) k)
              (update v.free c l k)
      chains k lt' = elim (Bool-cases (c == k)) [
        | inl same ↦ rw same (frame c _ l lt (λ d i. ok.listed d c lt (rw e (inr i))) chain.2)
        | inr other ↦ rw other (frame k _ _ lt' (λ d i. ok.listed d k lt' i) (ok.chains k lt'))
      ]

      listed : (d k : ℕ) → k < classes → In d (update v.free c l k) → IsBlock d k v.blocks
      listed d k lt' = elim (Bool-cases (c == k)) [
        | inl same ↦
            let p : c ≡ k = ground arith in rw same (λ i. ok.listed d k lt' (rw (← p, e) (inr i)))
        | inr other ↦ rw other (ok.listed d k lt')
      ]

      distinct : (k : ℕ) → k < classes → Distinct (update v.free c l k)
      distinct k lt' = elim (Bool-cases (c == k)) [
        | inl same ↦ let all : Distinct (b ∷ l) = rw e at (ok.distinct c lt) in rw same all.1
        | inr other ↦ rw other (ok.distinct k lt')
      ]

module _ {h : Heap} {v : View} (ok : IsHeap h v) (c : ℕ) (lt : c < classes)
    (room : top h + (16 + class_size c) ≤ h.heap_end) where
  unfoldable pub grown : Heap
  grown = record h {
    brk = top h + (16 + class_size c);
    mem = store64 (store64 h.mem (top h) c) (top h + 8) 0;
  }

  -- What lies below the break keeps its words.
  grown_same : (a : ℕ) → a + 8 ≤ top h → load64 grown.mem a ≡ load64 h.mem a
  unfolding grown
  grown_same a le =
      load64-store64_ne (store64 h.mem (top h) c) (top h + 8) a 0 (omega arith)
      ∙ load64-store64_ne h.mem (top h) a c (omega arith)

  old_block : (b k : ℕ) → IsBlock b k v.blocks → b + 32 ≤ top h
  old_block b k i =
      let (_, hi, lt', _, _) =
        IsBlock-bounds h.heap_start v.blocks (top h) b k ok.carved ok.start.1 i in
      omega (arith, class_size_bounds k lt')

  top-grown : top grown ≡ top h + (16 + class_size c)
  unfolding grown
  top-grown = ground arith

  grown_headers : (b k : ℕ) → IsBlock b k ((top h, c) ∷ v.blocks) → load64 grown.mem b ≡ k
  unfolding grown
  grown_headers b k (inl (p, q)) =
      rw (p, q)
        (load64-store64_ne (store64 h.mem (top h) c) (top h + 8) (top h) 0 (omega arith)
          ∙ load64-store64 h.mem (top h) c (omega arith))
  grown_headers b k (inr i) = grown_same b (omega (arith, old_block b k i)) ∙ ok.headers b k i

  pub grown-IsHeap : IsHeap grown (record v { blocks = (top h, c) ∷ v.blocks })
  unfolding grown
  grown-IsHeap = record {
    start = ok.start;
    room = omega (arith, top-grown);
    carved = (omega (arith, top-grown), lt, ok.carved);
    headers = grown_headers;
    chains = λ k lt'.
        Chain-frame h.mem _ _ _
          (λ d i. grown_same (d + 16) (omega (arith, old_block d k (ok.listed d k lt' i))))
          (ok.chains k lt');
    listed = λ b k lt' i. inr (ok.listed b k lt' i);
    distinct = ok.distinct;
  }

  -- The block at the old break is new.
  pub grown_fresh : (k : ℕ) → IsBlock (top h) k v.blocks → ⊥
  grown_fresh k i = absurd (omega (arith, old_block (top h) k i))
