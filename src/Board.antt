-- ===== src/Board.antt =====
-- The drivers of the two boards: Riscv is platform/virt-riscv/hal/uart.c and timer.c, Aarch64 the
-- same files of platform/virt-aarch64/hal.
use native.Mathlib.Nat.{mul-div-le, mod-add-div', mod-lt}
use beeros.Prelude.{
  ℕ, ◌+◌, ◌*◌, ◌/◌, ◌%◌, ◌≤◌, ◌<◌, ◌≡◌, Option, none, some, List, [], ◌∷◌, if◌then◌else◌, arith,
}
use beeros.Prelude.Bits.{bit}
pub mod Riscv
pub mod Aarch64
mod Tests

-- A write of a register, by its offset.
abbrev pub RegWrite : Type 0
RegWrite = ℕ × ℕ

-- The loops that wait for a flag, over what the register reads: none where the readings end first.
unfoldable pub wait_set : ℕ → List ℕ → Option (List ℕ)
wait_set k [] = none
wait_set k (r ∷ later) = let rest = wait_set k later in if bit r k then some later else rest

unfoldable pub wait_clear : ℕ → List ℕ → Option (List ℕ)
wait_clear k [] = none
wait_clear k (r ∷ later) = let rest = wait_clear k later in if bit r k then rest else some later

-- A quotient rounds down.
pub quotient_bounds : (n m : ℕ) → 0 < m → (m * (n / m) ≤ n) × (n < m * (n / m + 1))
quotient_bounds n m positive =
    let above : m * (n / m + 1) ≡ m * (n / m) + m = omega arith in
    (mul-div-le n m, omega (arith, above, mod-add-div' n m, mod-lt n positive))
