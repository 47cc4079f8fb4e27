-- ===== src/Repl/Loop/Gather.antt =====
-- kernel/repl_uart.c, run_repl: lines that are typed one after the other reach the reader as one text.
use beeros.Prelude.{
  ℕ, ◌+◌, ◌≤◌, ◌<◌, ◌≡◌, refl, ap, ◌∙◌, sym, inl, inr, Bool, true, false, Option, some, List, [],
  ◌∷◌, ◌++◌, arith, leb, if◌then◌else◌, Bool-cases, length, length-append,
}
use mathlib.Core.List.{append-nil}
use beeros.Repl.{Answer, line, uart_readline, is_form_complete}
use beeros.Repl.Loop.{
  input_size, accum_size, off, Read, no_reader, read_error, forms, Out, reading, prompt, echo, Repl,
  Round, Next, again, ended, waits, overran, lineedit_read, evaluate, accumulate, c_string, trimmed,
  is_exit, is_nil, accept, numbered, dots, prompt_of, following, after_line, read_line, after_edit,
  turn, run_repl,
}
use beeros.Repl.Loop.Bounds.{handed_texts, handed_texts-append, run_forms-handed}

-- The line that is typed in a round.
abbrev pub typed_line : Round → Answer
typed_line round = (uart_readline input_size round.turns).0

abbrev pub complete : List ℕ → Round → Option Bool
complete accum round = is_form_complete (accum ++ (0 ∷ round.behind))

-- From what is gathered the lines of the rounds make up `total`, which is complete only with the
-- last of them; `read` is how the reader then fares.
pub data Gathers : List ℕ → List Round → List ℕ → Read → Type 0 where
  last :
      {accum l : List ℕ} {c : ℕ} (round : Round)
      → typed_line round ≡ line (c ∷ l)
      → complete (accum ++ (c ∷ l)) round ≡ some true
      → Gathers accum (round ∷ []) (accum ++ (c ∷ l)) round.read
  more :
      {accum l total : List ℕ} {c : ℕ} {rounds : List Round} {read : Read} (round : Round)
      → typed_line round ≡ line (c ∷ l)
      → complete (accum ++ (c ∷ l)) round ≡ some false
      → Gathers (accum ++ (c ∷ l)) rounds total read
      → Gathers accum (round ∷ rounds) total read

-- A form is begun by a line that is neither blank nor one that leaves, and goes on whatever the
-- line; the editor is only asked at the beginning.
pub data Goes (accum : List ℕ) : List Round → Type 0 where
  inside : {rounds : List Round} → is_nil accum ≡ false → Goes accum rounds
  begins :
      {round : Round} {rounds : List Round} {l : List ℕ}
      → round.edit ≡ off
      → typed_line round ≡ line l
      → is_exit (trimmed (c_string l)) ≡ false
      → is_nil (trimmed (c_string l)) ≡ false
      → Goes accum (round ∷ rounds)

length-Gathers :
    {accum total : List ℕ} {rounds : List Round} {read : Read}
    → Gathers accum rounds total read
    → length accum ≤ length total
length-Gathers {accum} (last {l = l} {c = c} round typed done) =
    omega (arith, length-append accum (c ∷ l))
length-Gathers {accum} (more {l = l} {c = c} round typed partial rest) =
    omega (arith, length-append accum (c ∷ l), length-Gathers rest)

module _ (round : Round) (r : Repl) (c : ℕ) (l : List ℕ)
    (typed : typed_line round ≡ line (c ∷ l)) where
  line_before : List Out
  line_before =
      reading true
      ∷ prompt (prompt_of r)
      ∷ echo (uart_readline input_size round.turns).1
      ∷ reading false
      ∷ []

  silent : (p : Next × List Out) → handed_texts line_before ++ handed_texts p.1 ≡ handed_texts p.1
  unfolding line_before
  silent p = refl

  read_line-accept :
      following (reading true ∷ []) (read_line round r)
      ≡ following line_before (accept false (c ∷ l) round r)
  unfolding read_line after_line line_before
  read_line-accept = rw typed refl

  accept_inside :
      is_nil r.accum ≡ false → accept false (c ∷ l) round r ≡ accumulate false (c ∷ l) round r
  unfolding accept
  accept_inside started = rw started refl

  accept_begins :
      is_exit (trimmed (c_string (c ∷ l))) ≡ false
      → is_nil (trimmed (c_string (c ∷ l))) ≡ false
      → accept false (c ∷ l) round r ≡ accumulate false (c ∷ l) round r
  unfolding accept
  accept_begins stays full = elim (Bool-cases (is_nil r.accum)) [
    | inl first ↦ rw (first, stays, full) refl
    | inr started ↦ rw started refl
  ]

  edited : round.edit ≡ off → turn round r ≡ following (reading true ∷ []) (read_line round r)
  unfolding turn lineedit_read after_edit
  edited no_edit = elim (Bool-cases (is_nil r.accum)) [
    | inl first ↦ rw (first, no_edit) refl
    | inr started ↦ rw started refl
  ]

  turn_lem :
      {rounds : List Round}
      → Goes r.accum (round ∷ rounds)
      → turn round r ≡ following line_before (accumulate false (c ∷ l) round r)
  unfolding turn
  turn_lem (inside h) = rw h (read_line-accept ∙ ap (following line_before) (accept_inside h))
  turn_lem (begins {l = l'} no_edit same stays full) =
      let e : l' ≡ c ∷ l = cc in
      let accepted : accept false (c ∷ l) round r ≡ accumulate false (c ∷ l) round r =
        accept_begins (ap (λ k. is_exit (trimmed (c_string k))) (sym e) ∙ stays)
          (ap (λ k. is_nil (trimmed (c_string k))) (sym e) ∙ full) in
      edited no_edit ∙ read_line-accept ∙ ap (following line_before) accepted

  -- What `accumulate` does with room for the line: while the form is not complete, and once it is.
  gathered :
      length (r.accum ++ (c ∷ l)) < accum_size
      → complete (r.accum ++ (c ∷ l)) round ≡ some false
      → accumulate false (c ∷ l) round r ≡ (again (record r { accum = r.accum ++ (c ∷ l) }), [])
  unfolding accumulate
  gathered small partial =
      let room : leb accum_size (length r.accum + length (c ∷ l)) ≡ false =
        ground (arith, length-append r.accum (c ∷ l)) in
      rw (room, partial) refl

  evaluated :
      length (r.accum ++ (c ∷ l)) < accum_size
      → complete (r.accum ++ (c ∷ l)) round ≡ some true
      → accumulate false (c ∷ l) round r
        ≡ evaluate round.read (record r { accum = r.accum ++ (c ∷ l) })
  unfolding accumulate
  evaluated small done =
      let room : leb accum_size (length r.accum + length (c ∷ l)) ≡ false =
        ground (arith, length-append r.accum (c ∷ l)) in
      rw (room, done) refl

evaluate-handed : (read : Read) (r : Repl) → handed_texts (evaluate read r).1 ≡ r.accum ∷ []
unfolding evaluate
evaluate-handed no_reader r = refl
evaluate-handed read_error r = refl
evaluate-handed (forms fs) r = ap (λ l. r.accum ∷ l) (run_forms-handed fs r.units)

evaluate_again :
    (read : Read) (r : Repl) → (r' : Repl) × (((evaluate read r).0 ≡ again r') × (r'.accum ≡ []))
unfolding evaluate
evaluate_again no_reader r = (_, (refl, refl))
evaluate_again read_error r = (_, (refl, refl))
evaluate_again (forms fs) r = (_, (refl, refl))

numbered_prompt : (r : Repl) → r.accum ≡ [] → prompt_of r ≡ numbered r.line_number
numbered_prompt r empty = ap (λ l. if is_nil l then numbered r.line_number else dots) empty

not_nil : (xs : List ℕ) (c : ℕ) (l : List ℕ) → is_nil (xs ++ (c ∷ l)) ≡ false
not_nil [] c l = refl
not_nil (x ∷ xs) c l = refl

-- The rounds that follow one.
then_rounds : List Round → Next × List Out → Next × List Out
then_rounds rounds (next, outs) = elim next [
  | again r' ↦ following outs (run_repl rounds r')
  | ended r' ↦ (ended r', outs)
  | waits ↦ (waits, outs)
  | overran ↦ (overran, outs)
]

-- One round of the loop that goes on with `r'`.
run_repl-again :
    (round : Round) (rounds : List Round) (r r' : Repl) (outs : List Out)
    → turn round r ≡ (again r', outs)
    → run_repl (round ∷ rounds) r ≡ following outs (run_repl rounds r')
unfolding run_repl then_rounds
run_repl-again round rounds r r' outs e = ap (then_rounds rounds) e

-- Lines typed at the serial console that make up a text of fewer than 65536 bytes, complete only
-- with the last of them, the first neither blank nor one that leaves: the reader is given exactly
-- that text, once; and the loop goes on in the state that evaluating the text leaves, in which nothing
-- is left to gather and the next prompt shows a line number.
pub run_repl-Gathers :
    {total : List ℕ} {rounds : List Round} {read : Read} (r : Repl)
    → Goes r.accum rounds
    → Gathers r.accum rounds total read
    → length total < accum_size
    → let done = run_repl rounds r in
      (done.0 ≡ (evaluate read (record r { accum = total })).0)
      × ((after : Repl) × ((done.0 ≡ again after)
            × ((after.accum ≡ []) × (prompt_of after ≡ numbered after.line_number))))
      × (handed_texts done.1 ≡ total ∷ [])
unfolding run_repl
run_repl-Gathers r goes (last {l = l} {c = c} round typed complete_now) small =
    let total = r.accum ++ (c ∷ l) in
    let r' : Repl = record r { accum = total } in
    let (r'', (next, empty)) = evaluate_again round.read r' in
    let accumulated = evaluated round r c l typed small complete_now in
    let turned : turn round r ≡ following (line_before round r c l typed) (evaluate round.read r') =
      turn_lem round r c l typed goes
      ∙ ap (following (line_before round r c l typed)) accumulated in
    let outs = line_before round r c l typed ++ (evaluate round.read r').1 in
    let ran : run_repl (round ∷ []) r ≡ (again r'', outs ++ []) =
      run_repl-again round [] r r'' outs (turned ∙ ap (λ n. (n, outs)) next) in
    (
      ap (λ p. p.0) ran ∙ sym next,
      (r'', (ap (λ p. p.0) ran, (empty, numbered_prompt r'' empty))),
      ap (λ p. handed_texts p.1) ran
          ∙ ap handed_texts (append-nil outs)
          ∙ handed_texts-append (line_before round r c l typed) (evaluate round.read r').1
          ∙ silent round r c l typed (evaluate round.read r')
          ∙ evaluate-handed round.read r',
    )
run_repl-Gathers r goes (more {l = l} {total} {c = c} {rounds} {read} round typed partial rest)
      small =
    let r' : Repl = record r { accum = r.accum ++ (c ∷ l) } in
    let bound = length-Gathers rest in
    let (then_state, (after, (then_again, then_empty)), then_handed) =
      run_repl-Gathers r' (inside (not_nil r.accum c l)) rest small in
    let turned : turn round r ≡ (again r', line_before round r c l typed ++ []) =
      turn_lem round r c l typed goes
      ∙ ap (following (line_before round r c l typed))
          (gathered round r c l typed (omega (arith, bound, small)) partial) in
    let ran = run_repl-again round rounds r r' _ turned in
    (
      ap (λ p. p.0) ran ∙ then_state,
      (after, (ap (λ p. p.0) ran ∙ then_again, then_empty)),
      ap (λ p. handed_texts p.1) ran
          ∙ handed_texts-append (line_before round r c l typed ++ []) (run_repl rounds r').1
          ∙ ap (λ t. t ++ handed_texts (run_repl rounds r').1)
              (ap handed_texts (append-nil (line_before round r c l typed)))
          ∙ silent round r c l typed (run_repl rounds r')
          ∙ then_handed,
    )
