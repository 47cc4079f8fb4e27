-- ===== src/Board/Aarch64.antt =====
-- platform/virt-aarch64/hal/uart.c and timer.c: the PL011, without receive interrupts, and the timer.
use beeros.Prelude.{
  ℕ, ◌+◌, ◌*◌, ◌/◌, ◌%◌, ◌^◌, ◌≤◌, ◌<◌, ◌≡◌, not, Option, none, some, List, [], ◌∷◌, arith,
  if◌then◌else◌,
}
use native.Mathlib.Nat.{div-lt_iff_lt-mul, mul-suc}
use beeros.Prelude.Bits.{bit}
use beeros.Board.{RegWrite, wait_clear, quotient_bounds}

abbrev pub pl011_clock : ℕ
pl011_clock = 24000000

-- 64 times the divisor.
unfoldable pub divisor64 : ℕ → ℕ
divisor64 baud = (4 * pl011_clock + baud / 2) % 2 ^ 32 / baud

-- `fr` is what the flag register reads while the transmitter drains.
unfoldable pub uart_init : ℕ → List ℕ → Option (List RegWrite)
uart_init baud fr = elim (wait_clear 3 fr) [
  | none ↦ none
  | some _ ↦ some (
      (0x030, 0)
      ∷ (0x02c, 0)
      ∷ (0x024, divisor64 baud / 64)
      ∷ (0x028, divisor64 baud % 64)
      ∷ (0x02c, 0x70)
      ∷ (0x030, 0x0301)
      ∷ [])
]

unfoldable pub uart_putc : ℕ → List ℕ → Option RegWrite
uart_putc c fr = elim (wait_clear 5 fr) [ none ↦ none | some _ ↦ some (0, c % 256) ]

unfoldable pub uart_getc : ℕ → List ℕ → Option ℕ
uart_getc dr fr = elim (wait_clear 4 fr) [ none ↦ none | some _ ↦ some (dr % 256) ]

unfoldable pub uart_getc_nonblock : ℕ → ℕ → Option ℕ
uart_getc_nonblock dr fr = if not (bit fr 4) then some (dr % 256) else none

unfoldable pub uart_rx_irq_enable : ℕ
uart_rx_irq_enable = 0

unfoldable pub timer_read_us : (cnt freq : ℕ) → ℕ
timer_read_us cnt freq = cnt / (freq / 1000000)

-- For a rate from 23 to 2^31 the divisor in 64ths is 4 times the clock by the rate, rounded to the
-- nearest, and its two parts fit the registers.
pub divisor64_lem :
    (baud : ℕ)
    → 23 ≤ baud
    → baud ≤ 2 ^ 31
    → let d = divisor64 baud in
      (2 * (baud * d) ≤ 8 * pl011_clock + baud)
      × (8 * pl011_clock < 2 * (baud * d) + baud + 2)
      × (d / 64 < 2 ^ 16)
      × (d % 64 < 64)
unfolding divisor64
divisor64_lem baud low high =
    let n : ℕ = 4 * pl011_clock + baud / 2 in
    let whole : n % 2 ^ 32 ≡ n = omega arith in
    let (below, above) = quotient_bounds n baud (omega arith) in
    let fits : n / baud < 64 * 2 ^ 16 =
      (div-lt_iff_lt-mul {k = baud} {x = n} (omega arith)).1 (omega arith) in
    rw whole (
      omega (arith, below),
      omega (arith, above, mul-suc baud (n / baud)),
      omega (arith, fits),
      omega arith,
    )
