-- ===== src/Repl/Loop/Bounds.antt =====
-- kernel/repl_uart.c, run_repl: what the loop holds and what the reader is given stay within bounds.
use beeros.Prelude.{
  ℕ, ◌+◌, ◌≤◌, ◌<◌, ◌≡◌, refl, ap, inl, inr, Bool, true, false, ◌&&◌, Option, none, some, List, [],
  ◌∷◌, ◌++◌, arith, leb, Bool-cases, length, length-append,
}
use beeros.Repl.{Answer, line, dropped, waiting, uart_readline, is_form_complete}
use beeros.Repl.Loop.{
  input_size, accum_size, max_units, Edit, off, uncompilable, stopped, failed, no_string, text,
  Form, not_compiled, interrupted, error, result, no_result, Read, no_reader, read_error, forms,
  Out, reading, prompt, echo, disabled, line_dropped, too_long, handed, no_memory, bad_text,
  bad_form, recover, error_printed, result_printed, goodbye, Repl, Round, Next, again, ended, waits,
  overran, lineedit_read, retain_unit, run_forms, emptied, evaluate, accumulate, c_string, trimmed,
  is_exit, is_nil, accept, prompt_of, following, after_line, read_line, after_edit, turn, run_repl,
}

-- The texts that the reader is given.
abbrev pub handed_texts : List Out → List (List ℕ)
handed_texts [] = []
handed_texts (handed t ∷ os) = t ∷ handed_texts os
handed_texts (_ ∷ os) = handed_texts os

abbrev pub AreShort : List (List ℕ) → Type 0
AreShort [] = Unit {0}
AreShort (t ∷ ts) = (length t < accum_size) × AreShort ts

pub record IsValid (r : Repl) : Type 0 where
  pub fits : length r.accum < accum_size
  pub retained : r.units ≤ max_units

abbrev pub EndsValid : Next → Type 0
EndsValid (again r) = IsValid r
EndsValid (ended r) = IsValid r
EndsValid waits = Unit {0}
EndsValid overran = Unit {0}

-- The loop is left in a valid state, and the reader was given texts that fit.
pub record InBounds (p : Next × List Out) : Type 0 where
  pub state : EndsValid p.0
  pub texts : AreShort (handed_texts p.1)

pub handed_texts-append :
    (xs ys : List Out) → handed_texts (xs ++ ys) ≡ handed_texts xs ++ handed_texts ys
handed_texts-append [] ys = refl
handed_texts-append (handed t ∷ xs) ys = ap (λ l. t ∷ l) (handed_texts-append xs ys)
handed_texts-append (reading b ∷ xs) ys = handed_texts-append xs ys
handed_texts-append (prompt b ∷ xs) ys = handed_texts-append xs ys
handed_texts-append (echo b ∷ xs) ys = handed_texts-append xs ys
handed_texts-append (disabled ∷ xs) ys = handed_texts-append xs ys
handed_texts-append (line_dropped ∷ xs) ys = handed_texts-append xs ys
handed_texts-append (too_long ∷ xs) ys = handed_texts-append xs ys
handed_texts-append (no_memory ∷ xs) ys = handed_texts-append xs ys
handed_texts-append (bad_text ∷ xs) ys = handed_texts-append xs ys
handed_texts-append (bad_form ∷ xs) ys = handed_texts-append xs ys
handed_texts-append (recover ∷ xs) ys = handed_texts-append xs ys
handed_texts-append (error_printed ∷ xs) ys = handed_texts-append xs ys
handed_texts-append (result_printed ∷ xs) ys = handed_texts-append xs ys
handed_texts-append (goodbye ∷ xs) ys = handed_texts-append xs ys

append-AreShort : (xs ys : List (List ℕ)) → AreShort xs → AreShort ys → AreShort (xs ++ ys)
append-AreShort [] ys hx hy = hy
append-AreShort (x ∷ xs) ys (h, hx) hy = (h, append-AreShort xs ys hx hy)

following-InBounds :
    (before : List Out) (p : Next × List Out)
    → handed_texts before ≡ []
    → InBounds p
    → InBounds (following before p)
following-InBounds before (next, outs) none_handed ok = record {
  state = ok.state;
  texts = rw (handed_texts-append before outs, none_handed) ok.texts;
}

pub run_forms-handed : (fs : List Form) (units : ℕ) → handed_texts (run_forms fs units).1 ≡ []
unfolding run_forms
run_forms-handed [] units = refl
run_forms-handed (not_compiled ∷ fs) units = run_forms-handed fs units
run_forms-handed (interrupted ∷ fs) units = refl
run_forms-handed (error ∷ fs) units = run_forms-handed fs (retain_unit units)
run_forms-handed (result ∷ fs) units = run_forms-handed fs (retain_unit units)
run_forms-handed (no_result ∷ fs) units = run_forms-handed fs (retain_unit units)

retain_unit-bound : (units : ℕ) → units ≤ max_units → retain_unit units ≤ max_units
unfolding retain_unit
retain_unit-bound units le = ground arith

run_forms-bound :
    (fs : List Form) (units : ℕ) → units ≤ max_units → (run_forms fs units).0 ≤ max_units
unfolding run_forms
run_forms-bound [] units le = le
run_forms-bound (not_compiled ∷ fs) units le = run_forms-bound fs units le
run_forms-bound (interrupted ∷ fs) units le = retain_unit-bound units le
run_forms-bound (error ∷ fs) units le = run_forms-bound fs _ (retain_unit-bound units le)
run_forms-bound (result ∷ fs) units le = run_forms-bound fs _ (retain_unit-bound units le)
run_forms-bound (no_result ∷ fs) units le = run_forms-bound fs _ (retain_unit-bound units le)

evaluate-InBounds : (read : Read) {r : Repl} → IsValid r → InBounds (evaluate read r)
unfolding evaluate
evaluate-InBounds no_reader ok = record {
  state = record { fits = omega arith; retained = ok.retained };
  texts = (ok.fits, tt);
}
evaluate-InBounds read_error ok = record {
  state = record { fits = omega arith; retained = ok.retained };
  texts = (ok.fits, tt);
}
evaluate-InBounds (forms fs) {r} ok = record {
  state = record { fits = omega arith; retained = run_forms-bound fs r.units ok.retained };
  texts = (ok.fits, rw (run_forms-handed fs r.units) tt);
}

emptied-IsValid : {r : Repl} → IsValid r → IsValid (emptied r)
emptied-IsValid ok = record { fits = omega arith; retained = ok.retained }

module _ (round : Round) {r : Repl} (ok : IsValid r) where
  checked-InBounds :
      (complete : Option Bool) {r' : Repl}
      → IsValid r'
      → InBounds (elim complete as (λ x. Next × List Out) [
        | none ↦ (overran, [])
        | some false ↦ (again r', [])
        | some true ↦ evaluate round.read r'
      ])
  checked-InBounds none ok' = record { state = tt; texts = tt }
  checked-InBounds (some false) ok' = record { state = ok'; texts = tt }
  checked-InBounds (some true) ok' = evaluate-InBounds round.read ok'

  accumulate-InBounds :
      (whole_form : Bool) (input : List ℕ) → InBounds (accumulate whole_form input round r)
  unfolding accumulate
  accumulate-InBounds whole_form input =
      let r' : Repl = record r { accum = r.accum ++ input } in
      elim (Bool-cases (leb accum_size (length r.accum + length input))) [
        | inl over ↦ rw over (record { state = emptied-IsValid ok; texts = tt })
        | inr room ↦
            let ok' : IsValid r' = record {
              fits = ground (arith, length-append r.accum input);
              retained = ok.retained;
            } in
            rw room (elim (Bool-cases whole_form) [
              | inl whole ↦ rw whole (evaluate-InBounds round.read ok')
              | inr part ↦
                  rw part (checked-InBounds (is_form_complete (r'.accum ++ (0 ∷ round.behind))) ok')
            ])
      ]

  accept-InBounds :
      (whole_form : Bool) (input : List ℕ) → InBounds (accept whole_form input round r)
  unfolding accept
  accept-InBounds whole_form input =
      elim (Bool-cases (is_nil r.accum && is_exit (trimmed (c_string input)))) [
        | inl leaves ↦ rw leaves (record { state = ok; texts = tt })
        | inr stays ↦
            rw stays (elim (Bool-cases (is_nil r.accum && is_nil (trimmed (c_string input)))) [
              | inl blank ↦ rw blank (record { state = ok; texts = tt })
              | inr full ↦ rw full (accumulate-InBounds whole_form input)
            ])
      ]

  after_line-InBounds : (answer : Answer) → InBounds (after_line answer round r)
  unfolding after_line
  after_line-InBounds waiting = record { state = tt; texts = tt }
  after_line-InBounds dropped = record { state = emptied-IsValid ok; texts = tt }
  after_line-InBounds (line []) = record { state = ok; texts = tt }
  after_line-InBounds (line (c ∷ l)) =
      following-InBounds (reading false ∷ []) _ refl (accept-InBounds false (c ∷ l))

  read_line-InBounds : InBounds (read_line round r)
  unfolding read_line
  read_line-InBounds =
      following-InBounds (prompt (prompt_of r) ∷ echo (uart_readline input_size round.turns).1 ∷ [])
        _ refl (after_line-InBounds (uart_readline input_size round.turns).0)

  after_edit-InBounds : (edited : Option (List ℕ)) → InBounds (after_edit edited round r)
  unfolding after_edit
  after_edit-InBounds none = read_line-InBounds
  after_edit-InBounds (some []) = record { state = ok; texts = tt }
  after_edit-InBounds (some (c ∷ l)) =
      following-InBounds (reading false ∷ []) _ refl (accept-InBounds true (c ∷ l))

lineedit_read-handed : (max : ℕ) (e : Edit) → handed_texts (lineedit_read max e).1 ≡ []
unfolding lineedit_read
lineedit_read-handed max off = refl
lineedit_read-handed max uncompilable = refl
lineedit_read-handed max stopped = refl
lineedit_read-handed max failed = refl
lineedit_read-handed max no_string = refl
lineedit_read-handed max (text s) = elim (Bool-cases (leb max (length s))) [
  | inl over ↦ rw over refl
  | inr fits ↦ rw fits refl
]

turn-InBounds : (round : Round) {r : Repl} → IsValid r → InBounds (turn round r)
unfolding turn
turn-InBounds round {r} ok =
    let edited = lineedit_read input_size round.edit in
    elim (Bool-cases (is_nil r.accum)) [
      | inl start ↦ rw start (
          following-InBounds (reading true ∷ edited.1) _
            (lineedit_read-handed input_size round.edit) (after_edit-InBounds round ok edited.0))
      | inr inside ↦
          rw inside (following-InBounds (reading true ∷ []) _ refl (read_line-InBounds round ok))
    ]

-- The rounds after one.
rest-InBounds :
    (rounds : List Round) (p : Next × List Out)
    → InBounds p
    → ((r : Repl) → IsValid r → InBounds (run_repl rounds r))
    → InBounds (elim p.0 as (λ x. Next × List Out) [
      | again r ↦ following p.1 (run_repl rounds r)
      | ended r ↦ (ended r, p.1)
      | waits ↦ (waits, p.1)
      | overran ↦ (overran, p.1)
    ])
rest-InBounds rounds (again r, outs) ok later =
    let rest = later r ok.state in
    record {
      state = rest.state;
      texts = rw (handed_texts-append outs (run_repl rounds r).1) (
          append-AreShort (handed_texts outs) (handed_texts (run_repl rounds r).1) ok.texts
            rest.texts);
    }
rest-InBounds rounds (ended r, outs) ok later = record { state = ok.state; texts = ok.texts }
rest-InBounds rounds (waits, outs) ok later = record { state = tt; texts = ok.texts }
rest-InBounds rounds (overran, outs) ok later = record { state = tt; texts = ok.texts }

-- Whatever is typed, edited and evaluated, from a state in bounds: the gathered text stays below
-- 65536 bytes and at most 256 compiled units are kept, and every text that the reader is given has
-- fewer than 65536 bytes.
pub run_repl-InBounds : (rounds : List Round) (r : Repl) → IsValid r → InBounds (run_repl rounds r)
unfolding run_repl
run_repl-InBounds [] r ok = record { state = ok; texts = tt }
run_repl-InBounds (round ∷ rounds) r ok =
    rest-InBounds rounds (turn round r) (turn-InBounds round ok) (run_repl-InBounds rounds)
