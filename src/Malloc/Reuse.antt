-- ===== src/Malloc/Reuse.antt =====
-- `malloc` after `free`, and `aligned_alloc` of a size that wraps, in kernel/malloc.c.
use beeros.Prelude.{
  ℕ, ◌+◌, ◌%◌, ◌≤◌, ◌<◌, ◌^◌, ◌≡◌, ◌≢◌, ◌⊎◌, inl, inr, arith, true, false, ◌==◌, leb,
}
use beeros.Malloc.{
  Heap, header_size, class_size, class_of, classes, header_of, malloc, free, align, aligned,
  align_up, aligned_alloc, size_mod, reuse,
}
use beeros.Malloc.Classes.{class_size_bounds}
use beeros.Malloc.Layout.{View, IsHeap, Live}
use beeros.Malloc.Alloc.{Allocated, Refused, malloc_lem}
use beeros.Malloc.Free.{bounds}
use beeros.Malloc.Aligned.{align_up_bounds}

-- `malloc` after `free` of a block of the class that it looks for answers that very block.
pub malloc-free :
    {h : Heap} {v : View} (b c p n : ℕ)
    → IsHeap h v
    → Live v b c
    → p ≢ 0
    → header_of p h ≡ b
    → class_of n ≡ c
    → (malloc n (free p h)).0 ≡ b + header_size
unfolding malloc free reuse
malloc-free {h} {v} b c p n ok live ne at same =
    let (_, _, lt, _, _) = bounds ok b c live in
    let not_null : (p == 0) ≡ false = ground arith in
    let has_class : leb classes c ≡ false = ground arith in
    let self : (c == c) ≡ true = ground arith in
    let block_not_null : (b == 0) ≡ false = ground (arith, ok.start, bounds ok b c live) in
    rw (same, at, not_null, ok.headers b c live.0, has_class, self, block_not_null)

aligned_pointer : (al base : ℕ) (h : Heap) → base ≢ 0 → (aligned al (base, h)).0 ≡ align_up al base
unfolding aligned
aligned_pointer al base h ne = ground arith

-- For an alignment above 16 and at most 2^31: where the sum `n + align` wraps at 2^64 and `malloc`
-- grants what is left of it, `aligned_alloc` answers a pointer that is not NULL, behind the start of
-- the block that `malloc` gave; that block holds fewer than `n` bytes, and the `n` bytes from the
-- pointer on do not end inside it.
pub aligned_alloc_wraps :
    {h : Heap} {v : View} (al n : ℕ)
    → IsHeap h v
    → align < al
    → al ≤ 2 ^ 31
    → n < size_mod
    → size_mod ≤ n + al
    → (malloc ((n + al) % size_mod) h).0 ≢ 0
    → ((aligned_alloc al n h).0 ≢ 0)
      × ((v' : View) × (b : ℕ) × (c : ℕ) × Allocated
            ((n + al) % size_mod)
            v
            v'
            h
            (malloc ((n + al) % size_mod) h)
            b
            c
          × (b + header_size ≤ (aligned_alloc al n h).0)
          × (class_size c < n)
          × (b + header_size + class_size c < (aligned_alloc al n h).0 + n))
unfolding aligned_alloc
aligned_alloc_wraps {h} {v} al n ok big small lt wrap granted =
    let m = (n + al) % size_mod in
    let above : leb al align ≡ false = ground arith in
    rw above (go (malloc m h).0 (malloc m h).1 granted (malloc_lem ok m))
  where
    go :
        (base : ℕ) (h' : Heap)
        → base ≢ 0
        → Refused ((n + al) % size_mod) v h (base, h')
          ⊎ ((v' : View) × (b : ℕ) × (c : ℕ) × Allocated
                ((n + al) % size_mod)
                v
                v'
                h
                (base, h')
                b
                c)
        → ((aligned al (base, h')).0 ≢ 0)
          × ((v' : View) × (b : ℕ) × (c : ℕ) × Allocated ((n + al) % size_mod) v v' h (base, h') b c
              × (b + header_size ≤ (aligned al (base, h')).0)
              × (class_size c < n)
              × (b + header_size + class_size c < (aligned al (base, h')).0 + n))
    go base h' ne (inl r) = absurd (ne r.null)
    go base h' ne (inr (v', b, c, a)) =
        let (_, _, lt', _, _) = bounds a.valid b c a.live in
        let (_, _, cap) = class_size_bounds c lt' in
        let at : (aligned al (base, h')).0 ≡ align_up al base = aligned_pointer al base h' ne in
        let (lo, _) = align_up_bounds al base (omega arith) in
        let above : b + header_size ≤ (aligned al (base, h')).0 = omega (arith, a.pointer) in
        let short : class_size c < n = omega arith in
        (omega arith, (v', b, c, a, above, short, omega arith))
