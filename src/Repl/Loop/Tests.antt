-- ===== src/Repl/Loop/Tests.antt =====
-- Sessions with the loop of kernel/repl_uart.c, and its theorems at these.
use beeros.Prelude.{ℕ, ◌≡◌, refl, Bool, true, false, none, some, List, [], ◌∷◌, arith}
use beeros.Prelude.Int.{pos, ◌+ℤ◌}
use beeros.Repl.{
  typed, line, scan, scan_step, is_open, is_close, is_form_complete, uart_readline, reverse_onto,
  read_turns,
}
use beeros.Repl.Loop.{
  off, text, forms, result, interrupted, Repl, Round, again, evaluate, run_repl, run_forms,
  retain_unit, prompt_of, numbered,
}
use beeros.Repl.Loop.Bounds.{InBounds, run_repl-InBounds, handed_texts}
use beeros.Beerlang.{Value, boolean, fixnum, other}
use beeros.Repl.Loop.Editor.{
  Attempt, unreadable, uncompiled, compiled, Ran, interrupt, vm_error, result_string, Editor, reads,
}
use beeros.Repl.Loop.Editor.GivesUp.{GivesUp}
use beeros.Repl.Loop.Editor.Calls.{Balanced, reads-Sound}
use beeros.Repl.Loop.Gather.{typed_line, complete, Gathers, last, more, begins, run_repl-Gathers}

-- A call that does not compile at first, then compiles, and an editor that fails.
abbrev fresh_editor : Editor
fresh_editor = record { enabled = some (some (boolean true)); code = none; calls = [] }

abbrev edits : List (Attempt × Ran)
edits =
    (compiled true (other 1 ∷ fixnum (pos 2) ∷ []), result_string (49 ∷ []))
    ∷ (unreadable, interrupt)
    ∷ (unreadable, vm_error)
    ∷ (uncompiled true, result_string (50 ∷ []))
    ∷ []

abbrev is_object : Value → Bool
is_object (other k) = true
is_object _ = false

reads-Sound_example :
    let (answers, e) = reads is_object 4096 edits fresh_editor in GivesUp answers × Balanced e
reads-Sound_example = reads-Sound is_object 4096 edits fresh_editor refl refl

abbrev fresh : Repl
fresh = record { accum = []; line_number = 1; units = 0 }

-- `(a`, then `b)`.
abbrev first_line : Round
first_line = record {
  edit = off;
  turns = typed 40 ∷ typed 97 ∷ typed 13 ∷ [];
  behind = 0 ∷ [];
  read = forms [];
}

abbrev second_line : Round
second_line = record {
  edit = off;
  turns = typed 98 ∷ typed 41 ∷ typed 13 ∷ [];
  behind = 0 ∷ [];
  read = forms (result ∷ []);
}

-- The editor answers `1`, and the form is interrupted.
abbrev edited_line : Round
edited_line = record {
  edit = text (49 ∷ []);
  turns = [];
  behind = [];
  read = forms (interrupted ∷ result ∷ []);
}

abbrev session : List Round
session = first_line ∷ second_line ∷ []

abbrev whole_text : List ℕ
whole_text = 40 ∷ 97 ∷ 10 ∷ 98 ∷ 41 ∷ 10 ∷ []

first_typed : typed_line first_line ≡ line (40 ∷ 97 ∷ 10 ∷ [])
unfolding uart_readline read_turns reverse_onto
first_typed = refl

second_typed : typed_line second_line ≡ line (98 ∷ 41 ∷ 10 ∷ [])
unfolding uart_readline read_turns reverse_onto
second_typed = refl

first_incomplete : complete (40 ∷ 97 ∷ 10 ∷ []) first_line ≡ some false
unfolding is_form_complete scan scan_step is_open is_close ◌+ℤ◌
first_incomplete = refl

second_complete : complete whole_text second_line ≡ some true
unfolding is_form_complete scan scan_step is_open is_close ◌+ℤ◌
second_complete = refl

abbrev session-Gathers : Gathers [] session whole_text (forms (result ∷ []))
session-Gathers =
    more first_line first_typed first_incomplete (last second_line second_typed second_complete)

run_repl-Gathers_example :
    let done = run_repl session fresh in
    (done.0 ≡ (evaluate (forms (result ∷ [])) (record fresh { accum = whole_text })).0)
    × ((after : Repl) × ((done.0 ≡ again after)
          × ((after.accum ≡ []) × (prompt_of after ≡ numbered after.line_number))))
    × (handed_texts done.1 ≡ whole_text ∷ [])
run_repl-Gathers_example =
    run_repl-Gathers fresh (begins refl first_typed refl refl) session-Gathers (omega arith)

after_session :
    (evaluate (forms (result ∷ [])) (record fresh { accum = whole_text })).0
    ≡ again (record { accum = []; line_number = 2; units = 1 })
unfolding evaluate run_forms retain_unit
after_session = refl

run_repl-InBounds_example : InBounds (run_repl (edited_line ∷ session) fresh)
run_repl-InBounds_example =
    run_repl-InBounds (edited_line ∷ session) fresh
      (record { fits = omega arith; retained = omega arith })
