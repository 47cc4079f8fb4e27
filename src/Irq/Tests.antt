-- ===== src/Irq/Tests.antt =====
-- Runs of the interrupt handling of kernel/mem_natives.c, and its theorems at these.
use beeros.Prelude.{
  Bool, ℕ, ◌+◌, ◌-◌, ◌^◌, ◌≤◌, ◌<◌, ◌≡◌, ◌⊎◌, ◌++◌, refl, true, false, List, [], ◌∷◌, arith,
}
use beeros.Prelude.Int.{ℤ, pos, negsuc, int_of}
use beeros.Prelude.Bits.{bit}
use beeros.Memory.{Memory}
use beeros.Beerlang.{Value, nil, fixnum, other}
use beeros.Console.{Console}
use beeros.Irq.{
  max_irqs, mem_register_natives, Irqs, Trap, halted, resumed, report, trap_all, Event, trap, taken,
  events, mem_trap_handler, native_mem_irq_wait, native_mem_irq_register, native_mem_irq_handler,
  counted, irq_index,
}
use beeros.Irq.Traps.{no_traps, next}
use beeros.Irq.Pending.{IsQuiet, nothing, interrupt, take, Served, events-Served}
use beeros.Irq.Wait.{no_rounds, also, here, later}
use beeros.Irq.Take.{Waited, native_mem_irq_wait-Waited, native_mem_irq_wait-loses}
use beeros.Irq.Tally.{tally, slots, handed}
use beeros.Irq.Handlers.{Use, register, look_up, uses, uses-Balanced}
use beeros.Irq.Plic.{OutOfRange, Plic, Enabled, plic_enable, plic_enable-Enabled}
use beeros.Irq.Mmio.{
  Written, native_mem_read8, native_mem_read16, native_mem_read32, native_mem_read64,
  native_mem_write8, native_mem_write16, native_mem_write32, native_mem_write64,
  native_mem_read-write,
}

abbrev quiet_console : Console
quiet_console = record {
  ring = λ _. 0;
  ring_head = 0;
  ring_tail = 0;
  drop_before = 0;
  drop = false;
  irq_mode = true;
  reading = false;
  ctrl_c_interrupts = true;
  interrupts = 0;
}

-- Interrupt 3 is pending.
abbrev three_pending : Irqs
three_pending = record {
  handlers = λ _. nil;
  pending = 8;
  completed = [];
  calls = [];
  console = quiet_console;
}

abbrev claim_trap : ℕ → List (ℕ × ℕ) → Trap
claim_trap irq serial = record {
  mcause = 2 ^ 63 + 11;
  mepc = 0x80000000;
  mtval = 0;
  ra = 0x80000100;
  claimed = irq;
  serial = serial;
}

abbrev claim : ℕ → List (ℕ × ℕ) → Event
claim irq serial = trap (claim_trap irq serial)

-- The UART with two bytes, a disk, the UART's interrupt taken while another
-- one comes, and a source that is out of range.
abbrev busy : List Event
busy =
    claim 10 ((0x61, 104) ∷ (0x61, 105) ∷ (0x60, 0) ∷ [])
    ∷ claim 1 []
    ∷ taken 10 (claim_trap 2 [] ∷ [])
    ∷ claim 70 []
    ∷ []

abbrev busy-IsQuiet : IsQuiet busy
busy-IsQuiet =
    interrupt refl
      (interrupt refl (take (omega arith) (next refl no_traps) (interrupt refl nothing)))

-- A load fault stops the kernel, with its registers on the console.
abbrev load_fault : Trap
load_fault = record { mcause = 5; mepc = 0x80000abc; mtval = 0; ra = 0; claimed = 0; serial = [] }

load_fault_halts : mem_trap_handler load_fault three_pending ≡ halted (report load_fault)
unfolding mem_trap_handler
load_fault_halts = refl

events-Served_example :
    (s' : Irqs) × ((events busy three_pending ≡ resumed s') × Served busy three_pending s')
events-Served_example = events-Served busy-IsQuiet three_pending (omega arith)

-- irq-wait! for interrupt 1: the first round only has the UART.
abbrev rounds : List (List Event)
rounds = (claim 10 [] ∷ []) ∷ busy ∷ []

native_mem_irq_wait-Waited_example :
    (s' : Irqs) × ((native_mem_irq_wait (fixnum (pos 1) ∷ []) rounds [] three_pending ≡ resumed s')
      × Waited 1 rounds three_pending s')
native_mem_irq_wait-Waited_example =
    native_mem_irq_wait-Waited (omega arith) (omega arith)
      (also (interrupt refl nothing) (also busy-IsQuiet no_rounds)) (later (here refl))
      three_pending (omega arith)

-- Interrupt 3 is taken while the disk's interrupt 1 arrives.
native_mem_irq_wait-loses_example :
    (u s' : Irqs) × ((trap_all (claim_trap 1 [] ∷ []) three_pending ≡ resumed u)
      × ((bit u.pending 1 ≡ true)
          × ((native_mem_irq_wait (fixnum (pos 3) ∷ []) [] (claim_trap 1 [] ∷ []) three_pending
                ≡ resumed s')
              × (((xs ys : List ℕ) × (s'.completed ≡ [] ++ (xs ++ (1 ∷ ys))))
                  × (bit s'.pending 1 ≡ false)))))
native_mem_irq_wait-loses_example =
    native_mem_irq_wait-loses 3 1 [] (omega arith) (omega arith) (omega arith) (next refl no_traps)
      three_pending (omega arith) refl refl refl

abbrev off : Plic
off = record { regs = λ _. 0; mie = 0 }

plic_enable-Enabled_example :
    ((n : ℕ) × ((pos 33 ≡ pos n)
        × ((0 < n) × (n ≤ 1023) × Enabled n (pos 1) off (plic_enable (pos 33) (pos 1) off))))
    ⊎ (OutOfRange (pos 33) × (plic_enable (pos 33) (pos 1) off ≡ off))
plic_enable-Enabled_example = plic_enable-Enabled (pos 33) (pos 1) off

abbrev untag : Value → ℤ
untag (fixnum i) = i
untag _ = pos 0

abbrev zeros : Memory
zeros a = 0

-- -2 is written; what each width reads back.
abbrev at_1000 : List Value
at_1000 = fixnum (pos 1000) ∷ []

abbrev minus_two : List Value
minus_two = fixnum (pos 1000) ∷ fixnum (negsuc 1) ∷ []

read_back_16 :
    native_mem_read16 untag fixnum at_1000 (native_mem_write16 untag fixnum minus_two zeros).1
    ≡ fixnum (pos 65534)
unfolding native_mem_read16 native_mem_write16
read_back_16 = refl

read_back_64 :
    native_mem_read64 untag fixnum at_1000 (native_mem_write64 untag fixnum minus_two zeros).1
    ≡ fixnum (negsuc 1)
unfolding native_mem_read64 native_mem_write64
read_back_64 = refl

native_mem_read-write_example :
    let p : ℕ = 1000 in
    let w : ℕ = 2 ^ 64 - 2 in
    let m8 = (native_mem_write8 untag fixnum minus_two zeros).1 in
    let m16 = (native_mem_write16 untag fixnum minus_two zeros).1 in
    let m32 = (native_mem_write32 untag fixnum minus_two zeros).1 in
    let m64 = (native_mem_write64 untag fixnum minus_two zeros).1 in
    Written fixnum 1 p w zeros m8 (native_mem_read8 untag fixnum at_1000 m8)
    × Written fixnum 2 p w zeros m16 (native_mem_read16 untag fixnum at_1000 m16)
    × Written fixnum 4 p w zeros m32 (native_mem_read32 untag fixnum at_1000 m32)
    × Written fixnum 8 p w zeros m64 (native_mem_read64 untag fixnum at_1000 m64)
native_mem_read-write_example =
    native_mem_read-write untag fixnum (fixnum (pos 1000)) (fixnum (negsuc 1)) zeros

-- A handler that was registered for interrupt 5 is found again.
handler_found :
    (native_mem_irq_handler
      (λ _. true)
      (fixnum (pos 5) ∷ [])
      (native_mem_irq_register
        (λ _. true)
        (fixnum (pos 5) ∷ fixnum (pos 42) ∷ [])
        three_pending).1).0
    ≡ fixnum (pos 42)
unfolding native_mem_irq_handler native_mem_irq_register irq_index counted int_of
handler_found = refl

-- Objects are counted, other values are not.
abbrev is_object : Value → Bool
is_object (other k) = true
is_object _ = false

-- A handler that is looked up and then replaced by another.
abbrev two_handlers : List Use
two_handlers =
    register (fixnum (pos 5) ∷ other 1 ∷ [])
    ∷ look_up (fixnum (pos 5) ∷ [])
    ∷ register (fixnum (pos 5) ∷ other 2 ∷ [])
    ∷ look_up (fixnum (pos 6) ∷ [])
    ∷ []

uses-Balanced_example :
    let (answers, s) = uses is_object two_handlers (mem_register_natives three_pending) in
    tally true is_object s.calls
    ≡ tally false is_object s.calls + slots is_object s.handlers max_irqs + handed is_object answers
uses-Balanced_example =
    uses-Balanced is_object is_object (λ v e. e) refl two_handlers three_pending refl
