-- ===== src/Malloc/Calloc.antt =====
-- `calloc` of kernel/malloc.c: a block of zeros.
use beeros.Prelude.{
  ℕ, ◌+◌, ◌*◌, ◌≤◌, ◌<◌, ◌≡◌, refl, ◌∙◌, ◌≢◌, ◌⊎◌, inl, inr, arith, true, false, ◌==◌, leb,
  Bool-cases,
}
use beeros.Malloc.{Heap, header_size, class_size, malloc, size_mod, memset0, cleared, calloc}
use beeros.Malloc.Layout.{View, IsHeap, Live}
use beeros.Malloc.Alloc.{Allocated, Refused, malloc_lem}
use beeros.Malloc.Free.{client_write}
use beeros.Malloc.Realloc.{Inside, Live-apart}

-- What `calloc` answers if it does: a block of zeros.
pub record Cleared (n : ℕ) (v v' : View) (h : Heap) (r : ℕ × Heap) (b c : ℕ) : Type 0 where
  pub valid : IsHeap r.1 v'
  pub pointer : r.0 ≡ b + header_size
  pub fits : n ≤ class_size c
  pub live : Live v' b c
  pub fresh : (k : ℕ) → Live v b k → ⊥
  pub zeros : (i : ℕ) → i < n → r.1.mem (r.0 + i) ≡ 0
  pub kept : (d k : ℕ) → Live v d k → Live v' d k
  pub other_bytes : (d k a : ℕ) → Live v d k → Inside d k a → r.1.mem a ≡ h.mem a

module _ {h : Heap} {v : View} (ok : IsHeap h v) where
  calloc-Cleared :
      {n : ℕ} {v' : View} {q b c : ℕ} {h' : Heap}
      → Allocated n v v' h (q, h') b c
      → Cleared n v v' h (q, record h' { mem = memset0 h'.mem q n }) b c
  calloc-Cleared {n} {v'} {q} {b} {c} {h'} a =
      let outside : (x : ℕ)
          → (x < b + header_size) ⊎ (b + header_size + class_size c ≤ x)
          → memset0 h'.mem q n x ≡ h'.mem x =
        λ x apart. ground (arith, a.pointer, a.fits) in
      record {
        valid = client_write a.valid b c a.live (memset0 h'.mem q n) outside;
        pointer = a.pointer;
        fits = a.fits;
        live = a.live;
        fresh = a.fresh;
        zeros = λ i lt. ground arith;
        kept = a.kept;
        other_bytes = λ d k x held in_block.
            let differ : b ≢ d = λ e. a.fresh k (rw e held) in
            let apart = Live-apart a.valid b c d k differ a.live (a.kept d k held) in
            outside x (ground (arith, apart, in_block))
            ∙ a.frame x (ground (arith, apart, in_block));
      }

  cleared_outcome :
      (n : ℕ) (r : ℕ × Heap)
      → Refused n v h r ⊎ ((v' : View) × (b : ℕ) × (c : ℕ) × Allocated n v v' h r b c)
      → Refused n v h (cleared n r)
        ⊎ ((v' : View) × (b : ℕ) × (c : ℕ) × Cleared n v v' h (cleared n r) b c)
  unfolding cleared
  cleared_outcome n (q, h') (inl refused) =
      let none : (q == 0) ≡ true = ground (arith, refused.null) in rw none (inl refused)
  cleared_outcome n (q, h') (inr (v', b, c, a)) =
      let some_block : (q == 0) ≡ false = ground (arith, a.pointer) in
      rw some_block (inr (v', b, c, calloc-Cleared a))

  -- On a well-formed heap calloc of a product that wraps at 2^64 answers NULL with errno set and
  -- leaves memory as it was. Of one that does not, it is refused as malloc of the product is, or
  -- answers a block that no client held, with as many zeros, and all held blocks keep their bytes.
  pub calloc_lem :
      (count size : ℕ)
      → ((size_mod ≤ count * size)
          × ((calloc count size h).0 ≡ 0)
          × ((calloc count size h).1 ≡ record h { enomem = true }))
        ⊎ ((count * size < size_mod)
            × (Refused (count * size) v h (calloc count size h)
                ⊎ ((v' : View) × (b : ℕ) × (c : ℕ) × Cleared
                      (count * size)
                      v
                      v'
                      h
                      (calloc count size h)
                      b
                      c)))
  unfolding calloc
  calloc_lem count size = elim (Bool-cases (leb size_mod (count * size))) [
    | inl wraps ↦ inl (ground (arith, wraps), rw wraps refl, rw wraps refl)
    | inr fits ↦ inr (
      ground (arith, fits),
      rw fits
          (cleared_outcome (count * size) (malloc (count * size) h) (malloc_lem ok (count * size))),
    )
  ]
