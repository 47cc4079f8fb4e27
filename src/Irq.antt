-- ===== src/Irq.antt =====
-- kernel/mem_natives.c, the interrupts: the handler that trap.S calls, the word of pending
-- interrupts, and the natives over it; with uart_rx_isr of platform/virt-riscv/hal/uart.c, which the
-- handler calls. `Traps`, `Pending`, `Wait`, `Take` and `Handlers` have the theorems, `Mmio` the natives on
-- memory, `Plic` the interrupt controller.
use Prim.Native.String.{String}
use beeros.Prelude.{
  ℕ, zero, suc, ◌+◌, ◌*◌, ◌/◌, ◌%◌, ◌^◌, ◌<◌, Bool, true, false, not, ◌&&◌, Option, none, some,
  List, [], ◌∷◌, ◌++◌, ltb, leb, ◌==◌, if◌then◌else◌,
}
use beeros.Prelude.Slice.{update}
use beeros.Prelude.Bits.{bit, set_bit, clear_bit}
use beeros.Prelude.Int.{pos, negsuc, to_u64, int_of}
use beeros.Beerlang.{Value, nil, boolean, fixnum}
use beeros.Console.{Console, rx}
mod Traps
mod Pending
mod Wait
mod Take
mod Tally
mod Handlers
pub mod Plic
pub mod Mmio
mod Tests

abbrev pub max_irqs : ℕ
max_irqs = 64

abbrev pub uart_irq : ℕ
uart_irq = 10

-- The file's static variables, the console that the UART's interrupt feeds, and the values written
-- to the claim register of the interrupt controller, in their order. `calls` are the calls of
-- `object_retain` (true) and `object_release` (false).
pub record Irqs : Type 0 where
  pub handlers : ℕ → Value
  pub pending : ℕ
  pub completed : List ℕ
  pub calls : List (Bool × Value)
  pub console : Console

-- What the handler finds: the saved registers and mtval, what `plic_claim` answers, and what the
-- UART's line status and receive register read at each turn. When `serial` ends there is no more
-- data.
pub record Trap : Type 0 where
  pub mcause : ℕ
  pub mepc : ℕ
  pub mtval : ℕ
  pub ra : ℕ
  pub claimed : ℕ
  pub serial : List (ℕ × ℕ)

pub uart_rx_isr : List (ℕ × ℕ) → Console → Console
uart_rx_isr [] c = c
uart_rx_isr ((lsr, b) ∷ rest) c =
    let rest' = uart_rx_isr rest (rx b (bit lsr 4) c) in if bit lsr 0 then rest' else c

-- The calls of `uart_puts` and `uart_putc`.
pub data Put : Type 0 where
  puts : String → Put
  putc : ℕ → Put

abbrev pub hex_char : ℕ → ℕ
hex_char d = if ltb d 10 then 48 + d else 87 + d

-- The lowest `n` digits.
pub hex_puts : ℕ → ℕ → List Put
hex_puts v zero = []
hex_puts v (suc n) = putc (hex_char (v / 2 ^ (4 * n) % 16)) ∷ hex_puts v n

pub put_hex : ℕ → List Put
put_hex v = hex_puts v 16

pub report : Trap → List Put
report t =
    (puts "\r\n[beeros] fatal trap: mcause=0x" ∷ put_hex t.mcause)
    ++ (puts " mepc=0x" ∷ put_hex t.mepc)
    ++ (puts " mtval=0x" ∷ put_hex t.mtval)
    ++ (puts " ra=0x" ∷ put_hex t.ra)
    ++ (puts "\r\n" ∷ [])

-- `halted` is the endless loop after a fatal trap; `waiting` a loop that has not ended yet.
pub data Outcome : Type 0 where
  halted : List Put → Outcome
  waiting : Irqs → Outcome
  resumed : Irqs → Outcome

-- What follows the claim.
unfoldable pub serve_uart : Trap → Irqs → Irqs
serve_uart t s =
    if t.claimed == uart_irq then record s { console = uart_rx_isr t.serial s.console } else s

unfoldable pub acknowledge : ℕ → Irqs → Irqs
acknowledge irq s =
    if ltb 0 irq && ltb irq max_irqs
    then record s { pending = set_bit s.pending irq; completed = s.completed ++ (irq ∷ []) }
    else s

pub dispatch : Trap → Irqs → Irqs
dispatch t s = acknowledge t.claimed (serve_uart t s)

pub mem_trap_handler : Trap → Irqs → Outcome
mem_trap_handler t s = if not (bit t.mcause 63) then halted (report t) else resumed (dispatch t s)

-- The index that the natives take: `(int)untag_fixnum(v)`, if it is a fixnum and in range.
pub irq_index : Value → Option ℕ
irq_index (fixnum i) = elim (int_of (to_u64 i)) [
  | pos n ↦ if ltb n max_irqs then some n else none
  | negsuc n ↦ none
]
irq_index _ = none

-- beerlang's `is_pointer` tells which values are counted.
module _ (is_pointer : Value → Bool) where
  pub counted : Bool → Value → List (Bool × Value)
  counted retain v = if is_pointer v then (retain, v) ∷ [] else []

  pub native_mem_irq_register : List Value → Irqs → Value × Irqs
  native_mem_irq_register (v ∷ h ∷ _) s = elim (irq_index v) [
    | none ↦ (nil, s)
    | some n ↦ (
      nil,
      record s {
        handlers = update s.handlers n h;
        calls = s.calls ++ counted false (s.handlers n) ++ counted true h;
      },
    )
  ]
  native_mem_irq_register _ s = (nil, s)

  pub native_mem_irq_handler : List Value → Irqs → Value × Irqs
  native_mem_irq_handler (v ∷ _) s = elim (irq_index v) [
    | none ↦ (nil, s)
    | some n ↦ (s.handlers n, record s { calls = s.calls ++ counted true (s.handlers n) })
  ]
  native_mem_irq_handler _ s = (nil, s)

pub native_mem_irq_pending : List Value → Irqs → Value
native_mem_irq_pending (v ∷ _) s = elim (irq_index v) [
  | none ↦ boolean false
  | some n ↦ boolean (bit s.pending n)
]
native_mem_irq_pending _ s = boolean false

-- Traps that arrive one after the other.
pub trap_all : List Trap → Irqs → Outcome
trap_all [] s = resumed s
trap_all (t ∷ ts) s = elim (mem_trap_handler t s) [
  | halted out ↦ halted out
  | waiting s' ↦ waiting s'
  | resumed s' ↦ trap_all ts s'
]

-- `irq_pending &= ~(1ULL << n)` loads the word and stores it again: `between` are the traps that
-- arrive in between.
pub consume : ℕ → List Trap → Irqs → Outcome
consume n between s = elim (trap_all between s) [
  | halted out ↦ halted out
  | waiting s' ↦ waiting s'
  | resumed s' ↦ resumed (record s' { pending = clear_bit s.pending n })
]

-- What happens while a task waits: a trap, or another task's `irq-wait!` takes its interrupt, with
-- the traps that arrive meanwhile.
pub data Event : Type 0 where
  trap : Trap → Event
  taken : ℕ → List Trap → Event

pub event : Event → Irqs → Outcome
event (trap t) s = mem_trap_handler t s
event (taken n between) s = consume n between s

pub events : List Event → Irqs → Outcome
events [] s = resumed s
events (e ∷ es) s = elim (event e s) [
  | halted out ↦ halted out
  | waiting s' ↦ waiting s'
  | resumed s' ↦ events es s'
]

-- The loop of `irq-wait!`: at each turn the scheduler runs a tick or the processor waits, and the
-- events of the round happen. Where the rounds end it is still waiting.
pub wait_turns : ℕ → List (List Event) → Irqs → Outcome
wait_turns n [] s = if bit s.pending n then resumed s else waiting s
wait_turns n (round ∷ rounds) s = if bit s.pending n then resumed s else elim (events round s) [
  | halted out ↦ halted out
  | waiting s' ↦ waiting s'
  | resumed s' ↦ wait_turns n rounds s'
]

pub native_mem_irq_wait : List Value → List (List Event) → List Trap → Irqs → Outcome
native_mem_irq_wait (v ∷ _) rounds between s = elim (irq_index v) [
  | none ↦ resumed s
  | some n ↦ elim (wait_turns n rounds s) [
    | halted out ↦ halted out
    | waiting s' ↦ waiting s'
    | resumed s' ↦ consume n between s'
  ]
]
native_mem_irq_wait _ rounds between s = resumed s

-- The state that `mem_register_natives` sets up.
pub mem_register_natives : Irqs → Irqs
mem_register_natives s = record s { handlers = λ n. nil; pending = 0 }
