-- ===== src/Clz.antt =====
-- kernel/libgcc_shim.c: counting leading zeros by halves, against counting them one by one.
use native.Mathlib.Nat.{
  pow-suc, mul_assoc, div-lt_iff_lt-mul, mod-eq_of_lt, mul-lt-mul_of_pos_right, mul-le-mul_right,
  one-le-pow,
}
use beeros.Prelude.{
  ℕ, zero, suc, ◌+◌, ◌-◌, ◌*◌, ◌/◌, ◌%◌, ◌^◌, ◌≤◌, ◌<◌, ◌≡◌, refl, ap, ◌∙◌, sym, inl, inr, Bool,
  true, false, arith, ltb, ◌==◌, if◌then◌else◌, Bool-cases, ltb→lt,
}
mod Tests

-- `if (!(x & mask)) { n += k; x <<= k; }` in a word of `w` bits, where the mask has the word's
-- highest `k` bits. `n` is `counted`, and `x` what is left.
pub record Count : Type 0 where
  pub counted : ℕ
  pub left : ℕ

unfoldable pub halve : ℕ → ℕ → Count → Count
halve w k c =
    if c.left / 2 ^ (w - k) == 0
    then record { counted = c.counted + k; left = c.left * 2 ^ k % 2 ^ w }
    else c

-- The last test, without its shift.
unfoldable pub last_bit : ℕ → Count → ℕ
last_bit w c = if c.left / 2 ^ (w - 1) == 0 then c.counted + 1 else c.counted

unfoldable pub clzsi2 : ℕ → ℕ
clzsi2 x =
    if x == 0
    then 32
    else last_bit 32
        (halve 32 2 (halve 32 4 (halve 32 8 (halve 32 16 (record { counted = 0; left = x })))))

unfoldable pub clzdi2 : ℕ → ℕ
clzdi2 x =
    if x == 0
    then 64
    else last_bit 64 (
        halve 64 2
          (halve 64 4 (halve 64 8 (halve 64 16 (halve 64 32 (record { counted = 0; left = x }))))))

-- The reference: the zeros from the highest of `w` bits down.
abbrev pub leading_zeros : ℕ → ℕ → ℕ
leading_zeros zero x = 0
leading_zeros (suc w) x = let rest = leading_zeros w x in if x / 2 ^ w == 0 then rest + 1 else 0

-- `x` shifted until the highest bits that are clear are at most `w - a` many.
record Shifted (w x a : ℕ) (c : Count) : Type 0 where
  pub shifted : c.left ≡ x * 2 ^ c.counted
  pub low : 2 ^ a ≤ c.left
  pub high : c.left < 2 ^ w

pow_plus : (n k : ℕ) → 2 ^ (n + k) ≡ 2 ^ n * 2 ^ k
pow_plus n zero =
    let e : n + 0 ≡ n = omega arith in
    let one : 2 ^ n ≡ 2 ^ n * 1 = omega arith in ap (λ m. 2 ^ m) e ∙ one
pow_plus n (suc k) =
    let e : n + suc k ≡ suc (n + k) = omega arith in
    ap (λ m. 2 ^ m) e
    ∙ pow-suc 2 (n + k)
    ∙ ap (λ m. m * 2) (pow_plus n k)
    ∙ mul_assoc (2 ^ n) (2 ^ k) 2
    ∙ ap (λ m. 2 ^ n * m) (sym (pow-suc 2 k))

-- The test is whether the number lies below the bit.
below_bit : (x j : ℕ) → (x / 2 ^ j == 0) ≡ true → x < 2 ^ j
below_bit x j clear =
    let none : x / 2 ^ j < 1 = ground arith in
    omega (arith, (div-lt_iff_lt-mul (one-le-pow j 2 (omega arith))).0 none)

from_bit : (x j : ℕ) → (x / 2 ^ j == 0) ≡ false → 2 ^ j ≤ x
from_bit x j set = elim (Bool-cases (ltb x (2 ^ j))) [
  | inl below ↦
      let small : x < 1 * 2 ^ j = ground (arith, ltb→lt x (2 ^ j) below) in
      let none : x / 2 ^ j < 1 = (div-lt_iff_lt-mul (one-le-pow j 2 (omega arith))).1 small in
      absurd (ground (arith, none, set))
  | inr above ↦ ground (arith, above)
]

halve-Shifted :
    (w x a k : ℕ) (c : Count) → w ≡ a + k + k → Shifted w x a c → Shifted w x (a + k) (halve w k c)
unfolding halve
halve-Shifted w x a k c e ok = elim (Bool-cases (c.left / 2 ^ (w - k) == 0)) [
  | inl clear ↦
      let top : 2 ^ (w - k) * 2 ^ k ≡ 2 ^ w =
        sym (pow_plus (w - k) k) ∙ ap (λ m. 2 ^ m) (omega arith) in
      let fits : c.left * 2 ^ k < 2 ^ w = omega (
        arith,
        top,
        mul-lt-mul_of_pos_right (below_bit c.left (w - k) clear) (one-le-pow k 2 (omega arith)),
      ) in
      let same : c.left * 2 ^ k % 2 ^ w ≡ c.left * 2 ^ k = mod-eq_of_lt fits in
      rw (clear, same)
        (record {
          shifted =
              ap (λ m. m * 2 ^ k) ok.shifted
              ∙ mul_assoc x (2 ^ c.counted) (2 ^ k)
              ∙ ap (λ m. x * m) (sym (pow_plus c.counted k));
          low = omega (arith, pow_plus a k, mul-le-mul_right (2 ^ k) ok.low);
          high = fits;
        })
  | inr set ↦
      let place : w - k ≡ a + k = omega (arith, e) in
      rw set (record {
        shifted = ok.shifted;
        low = omega (arith, from_bit c.left (w - k) set, ap (λ m. 2 ^ m) place);
        high = ok.high;
      })
]

last_bit-halve : (w : ℕ) (c : Count) → last_bit w c ≡ (halve w 1 c).counted
unfolding last_bit halve
last_bit-halve w c = elim (Bool-cases (c.left / 2 ^ (w - 1) == 0)) [
  | inl clear ↦ rw clear refl
  | inr set ↦ rw set refl
]

double : (x n : ℕ) → x * 2 ^ suc n ≡ 2 * (x * 2 ^ n)
double x n = omega (arith, ap (λ (m : ℕ). x * m) (pow-suc 2 n))

at_least : (x n : ℕ) → x ≤ x * 2 ^ n
at_least x zero = omega arith
at_least x (suc n) = omega (arith, double x n, at_least x n)

-- The number of shifts that brings the highest bit to the top is the number of leading zeros.
leading_zeros_unique :
    (w x n : ℕ) → x * 2 ^ n < 2 ^ w → 2 ^ w ≤ 2 * (x * 2 ^ n) → n ≡ leading_zeros w x
leading_zeros_unique zero x n high low = absurd (omega (arith, high, low))
leading_zeros_unique (suc w) x zero high low =
    let above : (x / 2 ^ w == 0) ≡ false = elim (Bool-cases (x / 2 ^ w == 0)) [
      | inl clear ↦ absurd (omega (arith, below_bit x w clear, pow-suc 2 w, low))
      | inr set ↦ set
    ] in
    rw above refl
leading_zeros_unique (suc w) x (suc n) high low = elim (Bool-cases (x / 2 ^ w == 0)) [
  | inl clear ↦
      let rest =
        leading_zeros_unique w x n (omega (arith, double x n, pow-suc 2 w, high))
          (omega (arith, double x n, pow-suc 2 w, low)) in
      rw clear (omega (arith, rest))
  | inr set ↦ absurd (omega (arith, from_bit x w set, at_least x n, double x n, pow-suc 2 w, high))
]

leading-Shifted :
    (w x : ℕ) (c : Count) → Shifted (suc w) x w c → c.counted ≡ leading_zeros (suc w) x
leading-Shifted w x c ok =
    leading_zeros_unique (suc w) x c.counted (omega (arith, ok.shifted, ok.high))
      (omega (arith, ok.shifted, ok.low, pow-suc 2 w))

started : (w x : ℕ) → 0 < x → x < 2 ^ w → Shifted w x 0 (record { counted = 0; left = x })
started w x positive small = record { shifted = omega arith; low = omega arith; high = small }

clzsi2_lem : (x : ℕ) → x < 2 ^ 32 → clzsi2 x ≡ leading_zeros 32 x
unfolding clzsi2
clzsi2_lem x small = elim (Bool-cases (x == 0)) [
  | inl none ↦ let e : x ≡ 0 = ground arith in rw none (rw e refl)
  | inr some_bit ↦
      let s0 = started 32 x (ground arith) small in
      let s1 = halve-Shifted 32 x 0 16 _ refl s0 in
      let s2 = halve-Shifted 32 x 16 8 _ refl s1 in
      let s3 = halve-Shifted 32 x 24 4 _ refl s2 in
      let s4 = halve-Shifted 32 x 28 2 _ refl s3 in
      let s5 = halve-Shifted 32 x 30 1 _ refl s4 in
      rw some_bit (last_bit-halve 32 _ ∙ leading-Shifted 31 x _ s5)
]

clzdi2_lem : (x : ℕ) → x < 2 ^ 64 → clzdi2 x ≡ leading_zeros 64 x
unfolding clzdi2
clzdi2_lem x small = elim (Bool-cases (x == 0)) [
  | inl none ↦ let e : x ≡ 0 = ground arith in rw none (rw e refl)
  | inr some_bit ↦
      let s0 = started 64 x (ground arith) small in
      let s1 = halve-Shifted 64 x 0 32 _ refl s0 in
      let s2 = halve-Shifted 64 x 32 16 _ refl s1 in
      let s3 = halve-Shifted 64 x 48 8 _ refl s2 in
      let s4 = halve-Shifted 64 x 56 4 _ refl s3 in
      let s5 = halve-Shifted 64 x 60 2 _ refl s4 in
      let s6 = halve-Shifted 64 x 62 1 _ refl s5 in
      rw some_bit (last_bit-halve 64 _ ∙ leading-Shifted 63 x _ s6)
]

-- On words of their width the two functions count what counting bit by bit counts; of 0 all bits.
pub clz_lem :
    (x y : ℕ)
    → x < 2 ^ 32
    → y < 2 ^ 64
    → (clzsi2 x ≡ leading_zeros 32 x) × (clzdi2 y ≡ leading_zeros 64 y)
clz_lem x y small small' = (clzsi2_lem x small, clzdi2_lem y small')
