-- ===== src/Repl/Tests.antt =====
-- Runs of the functions of kernel/repl_uart.c, and instances of the theorems about them.
use beeros.Prelude.{arith, ℕ, ◌-◌, ◌≡◌, refl, Bool, true, false, some, List, [], ◌∷◌, ◌++◌}
use beeros.Prelude.Int.{negsuc, ◌+ℤ◌}
use beeros.Repl.{
  Turn, typed, idle, line, scan, scan_step, is_open, is_close, is_form_complete, uart_readline,
  uart_print_int, digits, reverse_onto, read_turns,
}
use beeros.Console.{Console, rx, getc_nonblock, is_interrupt_key}
use beeros.Console.Ring.{IsValid}
use beeros.Console.Session.{Event, received, asked, run, step, spec_of}
use beeros.Repl.Input.{turns_of, byte, poll, nothing, uart_readline-run}
use beeros.Repl.Forms.{All, is_text, is_form_complete-Ends}
use beeros.Repl.Line.{IsLine, uart_readline-IsLine}

-- `(f [1`
abbrev open_form : List ℕ
open_form = 40 ∷ 102 ∷ 32 ∷ 91 ∷ 49 ∷ []

open_form-run : is_form_complete (open_form ++ (10 ∷ 0 ∷ [])) ≡ some false
unfolding is_form_complete scan scan_step is_open is_close ◌+ℤ◌
open_form-run = refl

closed_form-run : is_form_complete (open_form ++ (93 ∷ 41 ∷ 10 ∷ 0 ∷ [])) ≡ some true
unfolding is_form_complete scan scan_step is_open is_close ◌+ℤ◌
closed_form-run = refl

-- `a`, backspace, `b`, return.
abbrev turns : List Turn
turns = typed 97 ∷ typed 127 ∷ idle ∷ typed 98 ∷ typed 13 ∷ []

readline-run : uart_readline 4096 turns ≡ (line (98 ∷ 10 ∷ []), 97 ∷ 8 ∷ 32 ∷ 8 ∷ 98 ∷ 13 ∷ 10 ∷ [])
unfolding uart_readline read_turns reverse_onto
readline-run = refl

print-run : uart_print_int (negsuc 419) ≡ 45 ∷ 52 ∷ 50 ∷ 48 ∷ []
unfolding uart_print_int digits reverse_onto
print-run = refl

open_form-text : All is_text open_form
unfolding All is_text
open_form-text = (refl, (refl, (refl, (refl, (refl, tt)))))

is_form_complete-Ends_example :
    (b : Bool) × ((rest : List ℕ) → is_form_complete (open_form ++ (10 ∷ 0 ∷ rest)) ≡ some b)
is_form_complete-Ends_example = is_form_complete-Ends open_form open_form-text

uart_readline-IsLine_example : IsLine (4096 - 1) (uart_readline 4096 turns).0
uart_readline-IsLine_example = uart_readline-IsLine 4096 turns

-- An idle console that is being read from.
abbrev ready : Console
ready = record {
  ring = λ _. 0;
  ring_head = 0;
  ring_tail = 0;
  drop_before = 0;
  drop = false;
  irq_mode = true;
  reading = true;
  ctrl_c_interrupts = true;
  interrupts = 0;
}

ready-IsValid : IsValid ready
ready-IsValid = record {
  interrupt_driven = refl;
  words = (omega arith, omega arith, omega arith);
  count = omega arith;
  mark = λ e. cc;
}

-- `h`, a poll, a poll that finds nothing, `i` and return, and two polls.
abbrev typing : List Event
typing =
    received 104 false ∷ asked ∷ asked ∷ received 105 false ∷ received 13 false ∷ asked ∷ asked ∷ []

typing_read : (spec_of (run typing ready).1).pending.queue ≡ []
unfolding run step rx getc_nonblock is_interrupt_key
typing_read = refl

uart_readline-run_example :
    uart_readline 4096 (turns_of (run typing ready).0)
    ≡ (line (104 ∷ 105 ∷ 10 ∷ []), 104 ∷ 105 ∷ 13 ∷ 10 ∷ [])
uart_readline-run_example =
    uart_readline-run typing (104 ∷ 105 ∷ []) 4096 ready-IsValid refl
      (byte refl refl (poll (poll (byte refl refl (byte refl refl (poll (poll nothing))))))) refl
      (omega arith) typing_read (refl, (refl, tt)) (omega arith)
