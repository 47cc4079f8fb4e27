-- ===== src/Prelude/Bits.antt =====
-- The bits of a word, by halving: `p & (1 << n)`, `p | (1 << n)` and `p & ~(1 << n)`.
use Prim.Native.Nat.{ℕ, zero, suc, ◌+◌, ◌*◌, ◌/◌, ◌%◌, ◌^◌, ◌<◌}
use mathlib.Core.Path.{◌≡◌, refl}
use mathlib.Core.Bool.{Bool, false, not, ◌&&◌, ◌||◌}
use native.Mathlib.Omega.{arith}
use native.Mathlib.Nat.{pow-suc}
use beeros.Prelude.Tests.{◌==◌}

abbrev pub bit : ℕ → ℕ → Bool
bit p zero = p % 2 == 1
bit p (suc n) = bit (p / 2) n

abbrev pub set_bit : ℕ → ℕ → ℕ
set_bit p zero = p / 2 * 2 + 1
set_bit p (suc n) = set_bit (p / 2) n * 2 + p % 2

abbrev pub clear_bit : ℕ → ℕ → ℕ
clear_bit p zero = p / 2 * 2
clear_bit p (suc n) = clear_bit (p / 2) n * 2 + p % 2

==_suc : (m n : ℕ) → (suc m == suc n) ≡ (m == n)
==_suc m n = ground arith

pub bit-set_bit : (p n m : ℕ) → bit (set_bit p n) m ≡ ((m == n) || bit p m)
bit-set_bit p zero zero = ground arith
bit-set_bit p zero (suc m) =
    let half : (p / 2 * 2 + 1) / 2 ≡ p / 2 = omega arith in
    let other : (suc m == 0) ≡ false = ground arith in rw (half, other) refl
bit-set_bit p (suc n) zero = ground arith
bit-set_bit p (suc n) (suc m) =
    let half : (set_bit (p / 2) n * 2 + p % 2) / 2 ≡ set_bit (p / 2) n = omega arith in
    rw (half, ==_suc m n) (bit-set_bit (p / 2) n m)

pub bit-clear_bit : (p n m : ℕ) → bit (clear_bit p n) m ≡ (not (m == n) && bit p m)
bit-clear_bit p zero zero = ground arith
bit-clear_bit p zero (suc m) =
    let half : p / 2 * 2 / 2 ≡ p / 2 = omega arith in
    let other : (suc m == 0) ≡ false = ground arith in rw (half, other) refl
bit-clear_bit p (suc n) zero = ground arith
bit-clear_bit p (suc n) (suc m) =
    let half : (clear_bit (p / 2) n * 2 + p % 2) / 2 ≡ clear_bit (p / 2) n = omega arith in
    rw (half, ==_suc m n) (bit-clear_bit (p / 2) n m)

pub set_bit-bound : (w p n : ℕ) → p < 2 ^ w → n < w → set_bit p n < 2 ^ w
set_bit-bound zero p n below lt = absurd (omega arith)
set_bit-bound (suc w) p zero below lt = omega (arith, pow-suc 2 w)
set_bit-bound (suc w) p (suc n) below lt =
    omega (arith, pow-suc 2 w, set_bit-bound w (p / 2) n (omega (arith, pow-suc 2 w)) (omega arith))

pub clear_bit-bound : (w p n : ℕ) → p < 2 ^ w → n < w → clear_bit p n < 2 ^ w
clear_bit-bound zero p n below lt = absurd (omega arith)
clear_bit-bound (suc w) p zero below lt = omega (arith, pow-suc 2 w)
clear_bit-bound (suc w) p (suc n) below lt =
    omega
      (arith, pow-suc 2 w, clear_bit-bound w (p / 2) n (omega (arith, pow-suc 2 w)) (omega arith))
