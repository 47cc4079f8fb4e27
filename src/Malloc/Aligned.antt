-- ===== src/Malloc/Aligned.antt =====
-- `aligned_alloc`, `calloc` and `realloc` of kernel/malloc.c.
use native.Mathlib.Nat.{mul-mod_left, pow-suc}
use beeros.Prelude.{
  ℕ, zero, suc, ◌+◌, ◌-◌, ◌*◌, ◌/◌, ◌%◌, ◌≤◌, ◌<◌, ◌^◌, ◌≡◌, refl, ◌⊎◌, inl, inr, arith, true,
  false, ◌==◌, leb,
}
use beeros.Memory.{load64, store64, load64-store64, store64-elsewhere}
use beeros.Malloc.{
  Heap, header_size, class_size, header_of, malloc, align_up, aligned, aligned_alloc, size_mod,
}
use beeros.Malloc.Layout.{View, IsHeap, Live}
use beeros.Malloc.Alloc.{Allocated, Refused, malloc_lem}
use beeros.Malloc.Free.{client_write, bounds}

pub align_up_bounds : (al x : ℕ) → 0 < al → (x ≤ align_up al x) × (align_up al x < x + al)
align_up_bounds al x h = omega arith

align_up-mod : (al x : ℕ) → 0 < al → align_up al x % al ≡ 0
align_up-mod al x h = mul-mod_left ((x + al - 1) / al) al

align_up_16 : (k x : ℕ) → align_up (32 * k) x % 16 ≡ 0
align_up_16 k x = omega arith

-- What `aligned_alloc` answers: an aligned pointer into the block, from which `free` and
-- `realloc` find the block's header, with `n` bytes of the block behind it.
pub record AlignedAt (al n : ℕ) (v : View) (r : ℕ × Heap) (b c : ℕ) : Type 0 where
  pub valid : IsHeap r.1 v
  pub on_boundary : r.0 % al ≡ 0
  pub header : header_of r.0 r.1 ≡ b
  pub inside : b + header_size ≤ r.0
  pub room : r.0 + n ≤ b + header_size + class_size c

header_of-plain : (h : Heap) (b : ℕ) → load64 h.mem (b + 8) ≡ 0 → header_of (b + header_size) h ≡ b
unfolding header_of
header_of-plain h b plain = let e : b + header_size - header_size ≡ b = omega arith in rw (e, plain)

header_of-offset :
    (h : Heap) (b p : ℕ)
    → b + 32 ≤ p
    → load64 h.mem (p - 8) ≡ p - (b + header_size)
    → header_of p h ≡ b
unfolding header_of
header_of-offset h b p le off =
    let e : p - header_size + 8 ≡ p - 8 = omega arith in rw (e, off) (ground arith)

module _ {h : Heap} {v : View} (ok : IsHeap h v) (b c k n al : ℕ) (live : Live v b c)
    (plain : load64 h.mem (b + 8) ≡ 0) (is : al ≡ 32 * k) (pos : 0 < al)
    (fits : n + al ≤ class_size c) where
  base : ℕ
  base = b + header_size

  aligned-inside :
      (align_up al base ≡ base)
      ⊎ ((b + 32 ≤ align_up al base) × (align_up al base + n ≤ base + class_size c))
  unfolding base
  aligned-inside =
      let (lo, hi) = align_up_bounds al (b + 16) pos in
      let m16 : align_up al (b + 16) % 16 ≡ 0 = rw is (align_up_16 k (b + 16)) in
      let (_, _, _, b16, _) = bounds ok b c live in ground arith

  not_null : (b + header_size == 0) ≡ false
  not_null = ground arith

  aligned_same : align_up al base ≡ base → AlignedAt al n v (aligned al (base, h)) b c
  unfolding aligned base
  aligned_same same =
      let at : (align_up al (b + 16) == b + 16) ≡ true = ground arith in
      rw (not_null, at)
        (record {
          valid = ok;
          on_boundary = align_up-mod al (b + 16) pos;
          header = rw same (header_of-plain h b plain);
          inside = omega arith;
          room = omega arith;
        })

  aligned_moved :
      (p : ℕ)
      → p ≡ align_up al base
      → b + 32 ≤ p
      → p + n ≤ base + class_size c
      → AlignedAt al n v (aligned al (base, h)) b c
  unfolding aligned base
  aligned_moved p e lo hi =
      let other : (p == b + 16) ≡ false = ground arith in
      let (_, below, _, _, _) = bounds ok b c live in
      rw (not_null, ← e, other)
        (record {
          valid =
              client_write ok b c live (store64 h.mem (p - 8) (p - (b + 16)))
                (λ a out. store64-elsewhere h.mem (p - 8) (p - (b + 16)) a (omega arith));
          on_boundary = rw e (align_up-mod al (b + 16) pos);
          header =
              header_of-offset _ b p lo
                (load64-store64 h.mem (p - 8) (p - (b + 16)) (omega (arith, ok.room)));
          inside = omega arith;
          room = hi;
        })

  aligned-AlignedAt : AlignedAt al n v (aligned al (base, h)) b c
  aligned-AlignedAt = elim aligned-inside [
    | inl same ↦ aligned_same same
    | inr (lo, hi) ↦ aligned_moved (align_up al base) refl lo hi
  ]

two_pow_pos : (k : ℕ) → 0 < 2 ^ k
two_pow_pos zero = omega arith
two_pow_pos (suc k) = rw pow-suc (omega (arith, two_pow_pos k))

-- The answers of `aligned_alloc`, as they follow from those of `malloc`.
abbrev pub AlignedAnswer : ℕ → ℕ → View → Heap → ℕ × Heap → Type 0
AlignedAnswer al n v h r =
    Refused (n + al) v h r
    ⊎ ((v' : View) × (b : ℕ) × (c : ℕ) × AlignedAt al n v' r b c
        × Live v' b c
        × ((j : ℕ) → Live v b j → ⊥)
        × ((d j : ℕ) → Live v d j → Live v' d j))

after_malloc :
    (k n : ℕ) (v : View) (h : Heap) (base : ℕ) (h' : Heap)
    → let al = 32 * 2 ^ k in
      Refused (n + al) v h (base, h')
        ⊎ ((v' : View) × (b : ℕ) × (c : ℕ) × Allocated (n + al) v v' h (base, h') b c)
      → AlignedAnswer al n v h (aligned al (base, h'))
unfolding aligned
after_malloc k n v h base h' (inl r) =
    let e : (base == 0) ≡ true = ground (arith, r.null) in
    rw e
      (inl (record { valid = r.valid; null = refl; enomem = r.enomem; same = r.same; why = r.why }))
after_malloc k n v h base h' (inr (v', b, c, a)) = inr (
  v',
  b,
  c,
  rw (a.pointer) (
      unfold base in
      aligned-AlignedAt a.valid b c (2 ^ k) n (32 * 2 ^ k) a.live a.plain refl
        (omega (arith, two_pow_pos k)) a.fits),
  a.live,
  a.fresh,
  a.kept,
)

module _ {h : Heap} {v : View} (ok : IsHeap h v) (k n : ℕ)
    (no_wrap : n + 32 * 2 ^ k < size_mod) where
  -- For an alignment 2^(k+5), above the allocator's own, and a sum `n + align` that does not wrap:
  -- `aligned_alloc` answers a pointer on the boundary with `n` bytes behind it, inside a block that
  -- no client held and from which `free` finds the block again, keeps the heap well-formed and every
  -- held block held; or NULL, memory unchanged.
  pub aligned_alloc_lem : AlignedAnswer (32 * 2 ^ k) n v h (aligned_alloc (32 * 2 ^ k) n h)
  unfolding aligned_alloc
  aligned_alloc_lem =
      let above : leb (32 * 2 ^ k) 16 ≡ false = ground (arith, two_pow_pos k) in
      let sum : (n + 32 * 2 ^ k) % size_mod ≡ n + 32 * 2 ^ k = omega arith in
      let r = malloc (n + 32 * 2 ^ k) h in
      rw (above, sum) (after_malloc k n v h r.0 r.1 (malloc_lem ok (n + 32 * 2 ^ k)))
