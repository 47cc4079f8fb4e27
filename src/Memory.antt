-- ===== src/Memory.antt =====
-- Byte-addressed memory, with the little-endian 64-bit words that the C code reads and writes
-- through `uint64_t*` and `void**`.
use beeros.Prelude.{ℕ, ◌+◌, ◌-◌, ◌*◌, ◌/◌, ◌%◌, ◌^◌, ◌≤◌, ◌<◌, ◌≡◌, ◌⊎◌, arith, ltb, if◌then◌else◌}

abbrev pub Memory : Type 0
Memory = ℕ → ℕ

unfoldable pub load64 : Memory → ℕ → ℕ
load64 m p =
    m p
    + 256
      * (m (p + 1)
          + 256
            * (m (p + 2)
                + 256
                  * (m (p + 3)
                      + 256
                        * (m (p + 4) + 256 * (m (p + 5) + 256 * (m (p + 6) + 256 * m (p + 7)))))))

unfoldable pub store64 : Memory → ℕ → ℕ → Memory
store64 m p v a = if ltb a p then m a else if ltb a (p + 8) then v / 256 ^ (a - p) % 256 else m a

byte_of_store64 :
    (m : Memory) (p v k a : ℕ) → a ≡ p + k → k < 8 → store64 m p v a ≡ v / 256 ^ k % 256
unfolding store64
byte_of_store64 m p v k a e h = let d : a - p ≡ k = omega arith in rw d (ground arith)

pub load64-store64 : (m : Memory) (p v : ℕ) → v < 2 ^ 64 → load64 (store64 m p v) p ≡ v
unfolding load64
load64-store64 m p v h = omega (
  arith,
  byte_of_store64 m p v 0 p (omega arith) (omega arith),
  byte_of_store64 m p v 1 (p + 1) (omega arith) (omega arith),
  byte_of_store64 m p v 2 (p + 2) (omega arith) (omega arith),
  byte_of_store64 m p v 3 (p + 3) (omega arith) (omega arith),
  byte_of_store64 m p v 4 (p + 4) (omega arith) (omega arith),
  byte_of_store64 m p v 5 (p + 5) (omega arith) (omega arith),
  byte_of_store64 m p v 6 (p + 6) (omega arith) (omega arith),
  byte_of_store64 m p v 7 (p + 7) (omega arith) (omega arith),
)

pub store64-elsewhere : (m : Memory) (p v a : ℕ) → (a < p) ⊎ (p + 8 ≤ a) → store64 m p v a ≡ m a
unfolding store64
store64-elsewhere m p v a h = ground arith

pub load64-store64_ne :
    (m : Memory) (p q v : ℕ) → (q + 8 ≤ p) ⊎ (p + 8 ≤ q) → load64 (store64 m p v) q ≡ load64 m q
unfolding load64
load64-store64_ne m p q v h = omega (
  arith,
  store64-elsewhere m p v q (omega arith),
  store64-elsewhere m p v (q + 1) (omega arith),
  store64-elsewhere m p v (q + 2) (omega arith),
  store64-elsewhere m p v (q + 3) (omega arith),
  store64-elsewhere m p v (q + 4) (omega arith),
  store64-elsewhere m p v (q + 5) (omega arith),
  store64-elsewhere m p v (q + 6) (omega arith),
  store64-elsewhere m p v (q + 7) (omega arith),
)

pub load64-ext :
    (m m' : Memory) (p : ℕ) → ((a : ℕ) → p ≤ a → a < p + 8 → m' a ≡ m a) → load64 m' p ≡ load64 m p
unfolding load64
load64-ext m m' p same = omega (
  arith,
  same p (omega arith) (omega arith),
  same (p + 1) (omega arith) (omega arith),
  same (p + 2) (omega arith) (omega arith),
  same (p + 3) (omega arith) (omega arith),
  same (p + 4) (omega arith) (omega arith),
  same (p + 5) (omega arith) (omega arith),
  same (p + 6) (omega arith) (omega arith),
  same (p + 7) (omega arith) (omega arith),
)
