-- ===== src/Board/Tests.antt =====
-- The drivers of the two boards at the rate that the kernel sets.
use beeros.Prelude.{◌≡◌, refl, some, [], ◌∷◌}
use beeros.Board.{wait_set, wait_clear}
use beeros.Board.Riscv
use beeros.Board.Aarch64

abbrev off : Riscv.Ns16550
off = record { line_control = 0; divisor_low = 0; divisor_high = 0; interrupts = 1 }

riscv_divisor : Riscv.divisor 115200 ≡ 2
unfolding Riscv.divisor
riscv_divisor = refl

aarch64_divisor : Aarch64.divisor64 115200 ≡ 833
unfolding Aarch64.divisor64
aarch64_divisor = refl

-- The rate that is set at boot divides the clock.
exact_rate : (Riscv.device (Riscv.uart_init 115200) off).divisor_low ≡ 2
unfolding Riscv.uart_init Riscv.divisor
exact_rate = refl

-- The second reading has the flag.
putc_run : Riscv.uart_putc 65 (0x00 ∷ 0x20 ∷ []) ≡ some (0, 65)
unfolding Riscv.uart_putc wait_set
putc_run = refl

getc_run : Aarch64.uart_getc 0x141 (0x10 ∷ 0x00 ∷ []) ≡ some 65
unfolding Aarch64.uart_getc wait_clear
getc_run = refl
