-- ===== src/Console.antt =====
-- kernel/console.c, the receive side: the ring that the UART's interrupt handler fills and the
-- reader empties, and the interrupt keys. `Capture` has the capture streams.
use beeros.Prelude.{
  ℕ, zero, suc, ◌+◌, ◌-◌, ◌%◌, ◌^◌, Bool, true, false, not, ◌&&◌, ◌||◌, Option, none, some, ltb,
  leb, ◌==◌, if◌then◌else◌,
}
use beeros.Prelude.Slice.{update}
use beeros.Beerlang.{Value, Reply, value, error, nil, boolean, fixnum, truthy}
use beeros.Prelude.Int.{pos}
use mathlib.Core.List.{List, [], ◌∷◌}
pub mod Ring
pub mod Session
pub mod Race
pub mod Capture
mod Tests

abbrev pub u32_mod : ℕ
u32_mod = 2 ^ 32

abbrev pub ring_size : ℕ
ring_size = 256

-- `uint32_t` subtraction.
abbrev pub sub32 : ℕ → ℕ → ℕ
sub32 a b = (a + u32_mod - b) % u32_mod

-- The file's static variables. `& (RING_SIZE - 1)` is `% ring_size`; `interrupts` counts the calls
-- of `vm_request_interrupt`.
pub record Console : Type 0 where
  pub ring : ℕ → ℕ
  pub ring_head : ℕ
  pub ring_tail : ℕ
  pub drop_before : ℕ
  pub drop : Bool
  pub irq_mode : Bool
  pub reading : Bool
  pub ctrl_c_interrupts : Bool
  pub interrupts : ℕ

-- The test that `console_rx` begins with.
unfoldable pub is_interrupt_key : ℕ → Bool → Console → Bool
is_interrupt_key b is_break s =
    is_break || (b == 0x1c || (b == 0x03 && (s.ctrl_c_interrupts && not s.reading)))

unfoldable pub rx : ℕ → Bool → Console → Console
rx b is_break s =
    if is_interrupt_key b is_break s
    then record s { drop_before = s.ring_head; drop = true; interrupts = s.interrupts + 1 }
    else if leb ring_size (sub32 s.ring_head s.ring_tail)
    then s
    else record s {
      ring = update s.ring (s.ring_head % ring_size) b;
      ring_head = (s.ring_head + 1) % u32_mod;
    }

-- `(int32_t)(d - t) > 0`
abbrev pub ahead : ℕ → ℕ → Bool
ahead d t = ltb 0 (sub32 d t) && ltb (sub32 d t) (2 ^ 31)

-- The tail behind the bytes to be dropped.
abbrev pub after_drop : Console → ℕ
after_drop s = if s.drop && ahead s.drop_before s.ring_tail then s.drop_before else s.ring_tail

-- `polled` is what `uart_getc_nonblock` answers, which is asked only without receive interrupts.
unfoldable pub getc_nonblock : Option ℕ → Console → Option ℕ × Console
getc_nonblock polled s =
    let t = after_drop s in
    if not s.irq_mode
    then (polled, s)
    else if t == s.ring_head
    then (none, record s { drop = false; ring_tail = t })
    else (some (s.ring (t % ring_size)), record s { drop = false; ring_tail = (t + 1) % u32_mod })

pub set_reading : Bool → Console → Console
set_reading r s = record s { reading = r }

-- `enabled` is what `uart_rx_irq_enable` answers.
unfoldable pub init : ℕ → Console → Console
init enabled s = record s { irq_mode = not (enabled == 0) }

-- The natives of `beer.tty` over this state.
pub native_uart_byte : Option ℕ → Console → Reply × Console
native_uart_byte polled s =
    let (c, s') = getc_nonblock polled s in
    (elim c [ none ↦ value nil | some b ↦ value (fixnum (pos (b % 256))) ], s')

pub native_ctrl_c_set : List Value → Console → Reply × Console
native_ctrl_c_set (v ∷ []) s = (value nil, record s { ctrl_c_interrupts = truthy v })
native_ctrl_c_set _ s = (error "ctrl-c-interrupts!: takes one argument", s)

pub native_ctrl_c_get : Console → Reply
native_ctrl_c_get s = value (boolean (s.ctrl_c_interrupts && not s.reading))
