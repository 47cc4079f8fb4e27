-- ===== src/Board/Riscv.antt =====
-- platform/virt-riscv/hal/uart.c and timer.c: the NS16550A, its receive interrupt, and the timer.
use beeros.Prelude.{
  ℕ, ◌+◌, ◌*◌, ◌/◌, ◌%◌, ◌^◌, ◌≤◌, ◌<◌, ◌≡◌, refl, inl, inr, true, ◌&&◌, ◌||◌, Option, none, some,
  List, [], ◌∷◌, arith, ◌==◌, if◌then◌else◌, Bool-cases, ltb, ltb→lt,
}
use native.Mathlib.Nat.{div-lt_iff_lt-mul}
use beeros.Prelude.Bits.{bit}
use beeros.Prelude.Int.{pos}
use beeros.Console.{Console, init}
use beeros.Irq.{uart_irq}
use beeros.Irq.Plic.{Plic, plic_enable, is_enabled, plic_enable_source}
use beeros.Board.{RegWrite, wait_set, wait_clear, quotient_bounds}

abbrev pub uart0_clock : ℕ
uart0_clock = 3686400

unfoldable pub divisor : ℕ → ℕ
divisor baud = uart0_clock / (16 * baud % 2 ^ 32)

unfoldable pub uart_init : ℕ → List RegWrite
uart_init baud =
    (3, 0x80)
    ∷ (0, divisor baud % 256)
    ∷ (1, divisor baud / 256 % 256)
    ∷ (3, 0x03)
    ∷ (2, 0xc7)
    ∷ (4, 0x0b)
    ∷ (1, 0x00)
    ∷ []

unfoldable pub uart_putc : ℕ → List ℕ → Option RegWrite
uart_putc c lsr = elim (wait_set 5 lsr) [ none ↦ none | some _ ↦ some (0, c % 256) ]

unfoldable pub uart_getc : ℕ → List ℕ → Option ℕ
uart_getc rbr lsr = elim (wait_set 0 lsr) [ none ↦ none | some _ ↦ some rbr ]

unfoldable pub uart_getc_nonblock : ℕ → ℕ → Option ℕ
uart_getc_nonblock rbr lsr = if bit lsr 0 then some rbr else none

-- What is left over is dropped first; `lsr` is what the line status reads. Then the interrupts are
-- switched on, and the answer is 1.
unfoldable pub uart_rx_irq_enable : List ℕ → Plic → Option (ℕ × RegWrite × Plic)
uart_rx_irq_enable lsr p = elim (wait_clear 0 lsr) [
  | none ↦ none
  | some _ ↦ some (1, (1, 0x05), plic_enable (pos uart_irq) (pos 1) p)
]

-- 10 MHz.
unfoldable pub timer_read_us : ℕ → ℕ
timer_read_us t = t / 10

-- What the writes make of the device: the first two registers are the divisor while the highest bit
-- of the line control is set.
pub record Ns16550 : Type 0 where
  pub line_control : ℕ
  pub divisor_low : ℕ
  pub divisor_high : ℕ
  pub interrupts : ℕ

abbrev pub written : RegWrite → Ns16550 → Ns16550
written (off, v) d =
    if off == 3
    then record d { line_control = v }
    else if (off == 0) && bit d.line_control 7
    then record d { divisor_low = v }
    else if (off == 1) && bit d.line_control 7
    then record d { divisor_high = v }
    else if off == 1
    then record d { interrupts = v }
    else d

abbrev pub device : List RegWrite → Ns16550 → Ns16550
device [] d = d
device (w ∷ ws) d = device ws (written w d)

-- After uart_init, for a rate from 4 to 230400: eight bits, no parity, one stop bit; no interrupts;
-- and the divisor, which is not 0, is the clock divided by 16 times the rate, rounded down.
pub uart_init_lem :
    (baud : ℕ) (d : Ns16550)
    → 4 ≤ baud
    → baud ≤ 230400
    → let d' = device (uart_init baud) d in
      let rate = d'.divisor_low + 256 * d'.divisor_high in
      (d'.line_control ≡ 3)
      × (d'.interrupts ≡ 0)
      × (0 < rate)
      × (16 * baud * rate ≤ uart0_clock)
      × (uart0_clock < 16 * baud * (rate + 1))
unfolding uart_init divisor
uart_init_lem baud d low high =
    let whole : 16 * baud % 2 ^ 32 ≡ 16 * baud = omega arith in
    let q : ℕ = uart0_clock / (16 * baud) in
    let (below, above) = quotient_bounds uart0_clock (16 * baud) (omega arith) in
    let fits : q < 65536 = (div-lt_iff_lt-mul {k = 16 * baud} (omega arith)).1 (omega arith) in
    let some_rate : 0 < q = elim (Bool-cases (ltb 0 q)) [
      | inl yes_some ↦ ltb→lt 0 q yes_some
      | inr none_left ↦
          let one : q < 1 = ground arith in
          absurd (
            omega
              (arith, (div-lt_iff_lt-mul {k = 16 * baud} {x = uart0_clock} (omega arith)).0 one))
    ] in
    let rate : q % 256 + 256 * (q / 256 % 256) ≡ q = omega arith in
    rw whole (rw rate (refl, refl, some_rate, below, above))

-- Once no byte is left, uart_rx_irq_enable and console_init of what it answers put the console under
-- interrupts, and let the UART's source through besides those that were.
pub init-uart_rx_irq_enable :
    (lsr : List ℕ) (rest : List ℕ) (p : Plic) (s : Console)
    → wait_clear 0 lsr ≡ some rest
    → (p' : Plic) × ((uart_rx_irq_enable lsr p ≡ some (1, (1, 0x05), p'))
        × (((init 1 s).irq_mode ≡ true)
            × ((m : ℕ) → m ≤ 1023 → is_enabled m p' ≡ ((m == uart_irq) || is_enabled m p))))
unfolding uart_rx_irq_enable init
init-uart_rx_irq_enable lsr rest p s drained = (
  plic_enable (pos uart_irq) (pos 1) p,
  (
    rw (uart_rx_irq_enable, drained) refl,
    (refl, (plic_enable_source uart_irq (pos 1) p (omega arith) (omega arith)).sources),
  ),
)
