-- ===== src/Console/Tests.antt =====
-- Runs of kernel/console.c's input, and its theorems at these.
use beeros.Prelude.{◌-◌, ◌^◌, ◌≡◌, refl, true, false, none, some, List, [], ◌∷◌, arith}
use beeros.Console.{Console, is_interrupt_key, rx, getc_nonblock, set_reading}
use beeros.Console.Ring.{IsValid}
use beeros.Console.Race.{Gaps, getc_steps, take_byte, traps}
use beeros.Console.Race.Traps.{History, Follows, Marks}
use beeros.Console.Race.Reads.{InOrder, getc_steps-InOrder}
use beeros.Console.Session.{Event, received, asked, reads, run, spec_run, spec_of, run_refines}

-- Just before the indices wrap.
abbrev idle : Console
idle = record {
  ring = λ _. 0;
  ring_head = 2 ^ 32 - 1;
  ring_tail = 2 ^ 32 - 1;
  drop_before = 0;
  drop = false;
  irq_mode = true;
  reading = false;
  ctrl_c_interrupts = true;
  interrupts = 0;
}

-- Two bytes typed ahead, Ctrl-C, a third byte, and three reads.
abbrev script : List Event
script =
    received 97 false
    ∷ received 98 false
    ∷ received 3 false
    ∷ received 99 false
    ∷ asked
    ∷ asked
    ∷ []

script_output : (run script idle).0 ≡ some 99 ∷ none ∷ []
unfolding run rx getc_nonblock is_interrupt_key
script_output = refl

-- While a line is read Ctrl-C is a byte like any other.
reading_output : (run (reads true ∷ script) idle).0 ≡ some 97 ∷ some 98 ∷ []
unfolding run rx getc_nonblock is_interrupt_key set_reading
reading_output = refl

idle-IsValid : IsValid idle
idle-IsValid = record {
  interrupt_driven = refl;
  words = (omega arith, omega arith, omega arith);
  count = omega arith;
  mark = λ e. cc;
}

run_refines_example :
    (((run script idle).0, spec_of (run script idle).1) ≡ spec_run script (spec_of idle))
    × IsValid (run script idle).1
run_refines_example = run_refines script idle-IsValid

-- A byte was typed; Ctrl-\ comes after the reader has looked at the flag, and another byte before it
-- compares the indices.
abbrev one_typed : Console
one_typed = rx 97 false idle

abbrev late_key : Gaps
late_key = record {
  flag_read = (0x1c, false) ∷ [];
  flag_cleared = [];
  mark_read = (98, false) ∷ [];
  head_read = [];
  byte_read = [];
}

abbrev typed_history : History
typed_history = record { log = λ i. 97; head = 2 ^ 32; key = 0 }

one_typed-Follows : Follows one_typed typed_history (2 ^ 32 - 1)
unfolding rx is_interrupt_key
one_typed-Follows = record {
  heads = refl;
  tails = refl;
  order = omega arith;
  bytes = λ i low high. let only : i ≡ 2 ^ 32 - 1 = omega (arith, low, high) in rw only refl;
  marks = refl;
  key_order = omega arith;
}

one_typed-Marks : Marks one_typed typed_history (2 ^ 32 - 1)
unfolding rx is_interrupt_key
one_typed-Marks = record { pending = λ e. cc; obeyed = λ e. omega arith }

getc_steps-InOrder_example :
    InOrder
      (2 ^ 32 - 1)
      typed_history
      (getc_steps late_key one_typed).0
      (getc_steps late_key one_typed).1
getc_steps-InOrder_example = getc_steps-InOrder late_key one_typed-Follows one_typed-Marks

-- It answers the byte from before the key; the next read drops what came before the key.
late_key_answer : (getc_steps late_key one_typed).0 ≡ some 97
unfolding getc_steps take_byte traps rx is_interrupt_key
late_key_answer = refl
