-- ===== src/Repl/Loop.antt =====
-- kernel/repl_uart.c: run_repl, the loop that gathers lines into a form and has it run, with
-- lineedit_read and retain_unit. What beerlang does with a form enters as its outcome. `Bounds` and `Gather` have
-- the theorems.
use beeros.Prelude.{
  ℕ, zero, suc, ◌+◌, Bool, true, false, ◌&&◌, ◌||◌, Option, none, some, List, [], ◌∷◌, ◌++◌, ltb,
  leb, ◌==◌, if◌then◌else◌, length, list_equal,
}
use beeros.Repl.{Turn, Answer, line, dropped, waiting, uart_readline, is_form_complete}
pub mod Bounds
mod Editor
mod Gather
mod Tests

abbrev pub input_size : ℕ
input_size = 4096

abbrev pub accum_size : ℕ
accum_size = 65536

abbrev pub max_units : ℕ
max_units = 256

-- How a run of the line editor goes: it is not loaded or not enabled, its call does not compile, an
-- interrupt key stops it, it fails, it answers no string, or a string.
pub data Edit : Type 0 where
  off : Edit
  uncompilable : Edit
  stopped : Edit
  failed : Edit
  no_string : Edit
  text : List ℕ → Edit

-- How a compiled form ends: interrupted, with an error, with a value or without.
pub data Form : Type 0 where
  not_compiled : Form
  interrupted : Form
  error : Form
  result : Form
  no_result : Form

pub data Read : Type 0 where
  no_reader : Read
  read_error : Read
  forms : List Form → Read

pub data Prompt : Type 0 where
  numbered : ℕ → Prompt
  dots : Prompt

-- What the loop prints and calls, in its order; `handed` is what `reader_new` is given.
pub data Out : Type 0 where
  reading : Bool → Out
  prompt : Prompt → Out
  echo : List ℕ → Out
  disabled : Out
  line_dropped : Out
  too_long : Out
  handed : List ℕ → Out
  no_memory : Out
  bad_text : Out
  bad_form : Out
  recover : Out
  error_printed : Out
  result_printed : Out
  goodbye : Out

-- The variables of the loop, and `n_compiled_units`.
pub record Repl : Type 0 where
  pub accum : List ℕ
  pub line_number : ℕ
  pub units : ℕ

-- What one turn of the loop meets; `behind` are the bytes of `accum` behind the terminator.
pub record Round : Type 0 where
  pub edit : Edit
  pub turns : List Turn
  pub behind : List ℕ
  pub read : Read

-- `waits` is still reading a line, `overran` the scan of `accum` past its end.
pub data Next : Type 0 where
  again : Repl → Next
  ended : Repl → Next
  waits : Next
  overran : Next

-- `none` is -1: use uart_readline.
unfoldable pub lineedit_read : ℕ → Edit → Option (List ℕ) × List Out
lineedit_read max off = (none, [])
lineedit_read max uncompilable = (none, disabled ∷ [])
lineedit_read max stopped = (some [], line_dropped ∷ [])
lineedit_read max failed = (none, disabled ∷ [])
lineedit_read max no_string = (none, disabled ∷ [])
lineedit_read max (text s) = if leb max (length s) then (some [], too_long ∷ []) else (some s, [])

unfoldable pub retain_unit : ℕ → ℕ
retain_unit n = if ltb n max_units then n + 1 else n

-- The loop over the forms.
unfoldable pub run_forms : List Form → ℕ → ℕ × List Out
run_forms [] units = (units, [])
run_forms (not_compiled ∷ fs) units =
    let (units', outs) = run_forms fs units in (units', bad_form ∷ outs)
run_forms (interrupted ∷ fs) units = (retain_unit units, recover ∷ [])
run_forms (error ∷ fs) units =
    let (units', outs) = run_forms fs (retain_unit units) in (units', error_printed ∷ outs)
run_forms (result ∷ fs) units =
    let (units', outs) = run_forms fs (retain_unit units) in (units', result_printed ∷ outs)
run_forms (no_result ∷ fs) units = run_forms fs (retain_unit units)

-- `accum_len = 0`
abbrev pub emptied : Repl → Repl
emptied r = record r { accum = [] }

unfoldable pub evaluate : Read → Repl → Next × List Out
evaluate no_reader r = (again (emptied r), handed r.accum ∷ no_memory ∷ [])
evaluate read_error r = (
  again (record r { accum = []; line_number = r.line_number + 1 }),
  handed r.accum ∷ bad_text ∷ [],
)
evaluate (forms fs) r =
    let (units, outs) = run_forms fs r.units in
    (
      again (record { accum = []; line_number = r.line_number + 1; units = units }),
      handed r.accum ∷ outs,
    )

-- The line joins what there is; `whole_form` says that the editor has checked it.
unfoldable pub accumulate : Bool → List ℕ → Round → Repl → Next × List Out
accumulate whole_form input round r =
    let r' = record r { accum = r.accum ++ input } in
    if leb accum_size (length r.accum + length input)
    then (again (emptied r), too_long ∷ [])
    else if whole_form
    then evaluate round.read r'
    else elim (is_form_complete (r'.accum ++ (0 ∷ round.behind))) [
      | none ↦ (overran, [])
      | some false ↦ (again r', [])
      | some true ↦ evaluate round.read r'
    ]

-- Up to the terminator, and without the white space at the end.
abbrev pub c_string : List ℕ → List ℕ
c_string [] = []
c_string (c ∷ l) = let rest = c_string l in if c == 0 then [] else c ∷ rest

abbrev pub before_space : ℕ → List ℕ → List ℕ
before_space c [] = if leb c 32 then [] else c ∷ []
before_space c (d ∷ l) = c ∷ d ∷ l

abbrev pub trimmed : List ℕ → List ℕ
trimmed [] = []
trimmed (c ∷ l) = before_space c (trimmed l)

-- "(exit)" and "exit"
abbrev pub is_exit : List ℕ → Bool
is_exit l =
    list_equal l (40 ∷ 101 ∷ 120 ∷ 105 ∷ 116 ∷ 41 ∷ []) || list_equal l (101 ∷ 120 ∷ 105 ∷ 116 ∷ [])

abbrev pub is_nil : List ℕ → Bool
is_nil [] = true
is_nil (c ∷ l) = false

-- A line that is not empty.
unfoldable pub accept : Bool → List ℕ → Round → Repl → Next × List Out
accept whole_form input round r =
    let trim = trimmed (c_string input) in
    if is_nil r.accum && is_exit trim
    then (ended r, goodbye ∷ [])
    else if is_nil r.accum && is_nil trim
    then (again r, [])
    else accumulate whole_form input round r

abbrev pub prompt_of : Repl → Prompt
prompt_of r = if is_nil r.accum then numbered r.line_number else dots

abbrev pub following : List Out → Next × List Out → Next × List Out
following before (next, outs) = (next, before ++ outs)

-- What follows an answer of uart_readline, and one of the editor.
unfoldable pub after_line : Answer → Round → Repl → Next × List Out
after_line waiting round r = (waits, [])
after_line dropped round r = (again (emptied r), reading false ∷ [])
after_line (line []) round r = (again r, reading false ∷ [])
after_line (line (c ∷ l)) round r = following (reading false ∷ []) (accept false (c ∷ l) round r)

unfoldable pub read_line : Round → Repl → Next × List Out
read_line round r =
    let (answer, chars) = uart_readline input_size round.turns in
    following (prompt (prompt_of r) ∷ echo chars ∷ []) (after_line answer round r)

unfoldable pub after_edit : Option (List ℕ) → Round → Repl → Next × List Out
after_edit none round r = read_line round r
after_edit (some []) round r = (again r, reading false ∷ [])
after_edit (some (c ∷ l)) round r = following (reading false ∷ []) (accept true (c ∷ l) round r)

-- One turn of the loop.
unfoldable pub turn : Round → Repl → Next × List Out
turn round r =
    let (edited, outs) = lineedit_read input_size round.edit in
    if is_nil r.accum
    then following (reading true ∷ outs) (after_edit edited round r)
    else following (reading true ∷ []) (read_line round r)

-- The loop; where the rounds end it goes on.
unfoldable pub run_repl : List Round → Repl → Next × List Out
run_repl [] r = (again r, [])
run_repl (round ∷ rounds) r =
    let (next, outs) = turn round r in
    elim next [
      | again r' ↦ following outs (run_repl rounds r')
      | ended r' ↦ (ended r', outs)
      | waits ↦ (waits, outs)
      | overran ↦ (overran, outs)
    ]
