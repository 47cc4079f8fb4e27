-- ===== src/Malloc/Classes.antt =====
-- The size classes of kernel/malloc.c: `class_of` finds the least class that is large enough.
use native.Mathlib.Nat.{pow-suc}
use beeros.Prelude.{
  ℕ, zero, suc, ◌+◌, ◌-◌, ◌*◌, ◌%◌, ◌^◌, ◌≤◌, ◌<◌, ◌≡◌, refl, ◌∙◌, ap, ◌⊎◌, inl, inr, arith, ltb,
  leb, tests, Bool-cases, true,
}
use beeros.Malloc.{size_mod, classes, small_count, small_max, large_class, class_of, class_size}

-- `size` doubled `j` times.
doubled : ℕ → ℕ → ℕ
doubled zero size = size
doubled (suc j) size = doubled j (size * 2)

doubled-pow : (j size : ℕ) → doubled j size ≡ size * 2 ^ j
unfolding doubled
doubled-pow zero size = omega arith
doubled-pow (suc j) size = rw (doubled-pow j (size * 2), pow-suc) (omega arith)

doubled-le : (j size : ℕ) → size ≤ doubled j size
unfolding doubled
doubled-le zero size = omega arith
doubled-le (suc j) size = omega (arith, doubled-le j (size * 2))

-- `j` is the least number of doublings of `size` that reaches `n`.
record IsLeast (n size j : ℕ) : Type 0 where
  reaches : n ≤ doubled j size
  least : (i : ℕ) → n ≤ doubled i size → j ≤ i

IsLeast-zero : (n size : ℕ) → n ≤ size → IsLeast n size 0
unfolding doubled
IsLeast-zero n size h = record { reaches = h; least = λ i _. omega arith }

IsLeast-suc : (n size j : ℕ) → size < n → IsLeast n (size * 2) j → IsLeast n size (suc j)
unfolding doubled
IsLeast-suc n size j h l = record { reaches = l.reaches; least = least }
  where
    least : (i : ℕ) → n ≤ doubled i size → suc j ≤ i
    least zero le = absurd (omega arith)
    least (suc i) le = omega (arith, l.least i le)

large_class_lem :
    (rounds n c size : ℕ)
    → doubled rounds size < size_mod
    → n ≤ doubled rounds size
    → (j : ℕ) × (large_class rounds n c size ≡ c + j) × (j ≤ rounds) × IsLeast n size j
unfolding large_class doubled
large_class_lem zero n c size lim h = (0, ground arith, omega arith, IsLeast-zero n size h)
large_class_lem (suc k) n c size lim h =
    let fits : size * 2 % size_mod ≡ size * 2 = omega (arith, doubled-le k (size * 2)) in
    let (j, e, le, l) = large_class_lem k n (c + 1) (size * 2) lim h in
    elim (Bool-cases (ltb size n)) [
      | inl more ↦ (
        suc j,
        rw (more, fits, large_class) (e ∙ omega arith),
        omega arith,
        IsLeast-suc n size j (omega (tests, more)) l,
      )
      | inr enough ↦ (
        0,
        rw (enough, enough, large_class) (omega arith),
        omega arith,
        IsLeast-zero n size (ground arith),
      )
    ]

-- Past the last class the loop answers `CLASSES`.
large_class-too_large :
    (rounds n c size : ℕ)
    → doubled rounds size < size_mod
    → doubled rounds size < n
    → large_class rounds n c size ≡ classes
unfolding large_class doubled
large_class-too_large zero n c size lim h = ground arith
large_class-too_large (suc k) n c size lim h =
    let fits : size * 2 % size_mod ≡ size * 2 = omega (arith, doubled-le k (size * 2)) in
    let more : ltb size n ≡ true = omega (tests, doubled-le k (size * 2)) in
    rw (more, fits, large_class) (large_class-too_large k n (c + 1) (size * 2) lim h)

doubled_mono : (i j size : ℕ) → i ≤ j → doubled i size ≤ doubled j size
unfolding doubled
doubled_mono zero j size h = doubled-le j size
doubled_mono (suc i) zero size h = absurd (omega arith)
doubled_mono (suc i) (suc j) size h = doubled_mono i j (size * 2) (omega arith)

max_size : doubled 19 4096 ≡ 2 ^ 31
unfolding doubled
max_size = refl

class_size-small : (c : ℕ) → c < small_count → class_size c ≡ (c + 1) * 16
unfolding class_size
class_size-small c h = ground arith

class_size-large : (j : ℕ) → j < 20 → class_size (small_count + j) ≡ doubled j 4096
unfolding class_size
class_size-large j h =
    let e : small_count + j - small_count ≡ j = omega arith in
    let bound : doubled j 4096 < size_mod = omega (arith, doubled_mono j 19 4096, max_size) in
    rw (e, ← doubled-pow j 4096) (ground arith)

class_size_cases :
    (c : ℕ)
    → c < classes
    → ((c < small_count) × (class_size c ≡ (c + 1) * 16))
      ⊎ ((j : ℕ) × (c ≡ small_count + j) × (j < 20) × (class_size c ≡ doubled j 4096))
class_size_cases c h = elim (Bool-cases (ltb c small_count)) [
  | inl small ↦ inl (omega (tests, small), class_size-small c (omega (tests, small)))
  | inr large ↦
      let le : small_count ≤ c = ground arith in
      let e : c ≡ small_count + (c - small_count) = omega arith in
      inr (
        c - small_count,
        e,
        omega arith,
        ap class_size e ∙ class_size-large (c - small_count) (omega arith),
      )
]

class_of-small :
    (n : ℕ)
    → n ≤ small_max
    → (class_of n < small_count) × (n ≤ (class_of n + 1) * 16) × (class_of n * 16 ≤ n - 1)
unfolding class_of
class_of-small n h = ground arith

class_of-large : (n : ℕ) → small_max < n → class_of n ≡ large_class 19 n small_count 4096
unfolding class_of
class_of-large n h = ground arith

-- A class that holds more than 2 KiB is a large one.
least_of_large :
    (n j : ℕ)
    → small_max < n
    → IsLeast n 4096 j
    → (c : ℕ) → c < classes
    → n ≤ class_size c
    → small_count + j ≤ c
least_of_large n j large l c hc le = elim (class_size_cases c hc) [
  | inl (small, e) ↦ absurd (omega arith)
  | inr (i, e, hi, size) ↦ omega (arith, l.least i (omega arith))
]

-- `class_of` answers the least class whose blocks hold `n` bytes: one that holds them, that exists,
-- and below which no class holds them.
pub class_of-IsLeast :
    (n : ℕ)
    → n ≤ 2 ^ 31
    → (class_of n < classes)
      × (n ≤ class_size (class_of n))
      × ((c : ℕ) → c < classes → n ≤ class_size c → class_of n ≤ c)
class_of-IsLeast n h = elim (Bool-cases (leb n small_max)) [
  | inl small ↦
      let (lt, fits, least) = class_of-small n (omega (tests, small)) in
      (
        omega arith,
        omega (arith, class_size-small (class_of n) lt),
        λ c hc le. elim (class_size_cases c hc) [
          | inl (_, e) ↦ omega arith
          | inr (_, e, _, _) ↦ omega arith
        ],
      )
  | inr large ↦
      let big : small_max < n = ground arith in
      let (j, e, le, l) =
        large_class_lem 19 n small_count 4096 (omega (arith, max_size)) (omega (arith, max_size)) in
      let c : class_of n ≡ small_count + j = class_of-large n big ∙ e in
      (
        omega arith,
        rw (c, class_size-large j (omega arith)) l.reaches,
        rw c (least_of_large n j big l),
      )
]

-- A request above 2 GiB has no class.
pub class_of-too_large : (n : ℕ) → 2 ^ 31 < n → class_of n ≡ classes
class_of-too_large n h =
    class_of-large n (omega arith)
    ∙ large_class-too_large 19 n small_count 4096 (omega (arith, max_size))
        (omega (arith, max_size))

doubled-aligned : (j size : ℕ) → size % 16 ≡ 0 → doubled j size % 16 ≡ 0
unfolding doubled
doubled-aligned zero size h = h
doubled-aligned (suc j) size h = doubled-aligned j (size * 2) (omega arith)

-- Every block is a positive multiple of 16 bytes, and at most 2 GiB.
pub class_size_bounds :
    (c : ℕ) → c < classes → (class_size c % 16 ≡ 0) × (16 ≤ class_size c) × (class_size c ≤ 2 ^ 31)
class_size_bounds c h = elim (class_size_cases c h) [
  | inl (small, e) ↦ omega arith
  | inr (j, _, hj, e) ↦ omega (
    arith,
    doubled-aligned j 4096 refl,
    doubled-le j 4096,
    doubled_mono j 19 4096 (omega arith),
    max_size,
  )
]
