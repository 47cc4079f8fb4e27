-- ===== src/Repl/Loop/Editor.antt =====
-- kernel/repl_uart.c: lineedit_enabled, lineedit_compile and lineedit_disable, and what they make of
-- lineedit_read over many lines. What the reader, the compiler and the editor's task come to enters
-- from outside, for each call.
pub mod GivesUp
pub mod Calls
use mathlib.Core.Path.{subst}
use mathlib.Core.Bool.{false≢true}
use beeros.Prelude.{
  ℕ, zero, suc, ◌+◌, ◌*◌, ◌≡◌, refl, sym, ap, ◌∙◌, Bool, true, false, not, Option, none, some, List,
  [], ◌∷◌, ◌++◌, ◌==◌, if◌then◌else◌, arith, Bool-cases, inl, inr, length, leb,
}
use beeros.Beerlang.{Value, nil, boolean, truthy}
use beeros.Repl.Loop.{
  Edit, off, uncompilable, stopped, failed, no_string, text, Out, disabled, line_dropped, too_long,
  lineedit_read, input_size,
}

-- What the attempt to compile the call comes to; the Booleans are `is_pointer(form)`.
pub data Attempt : Type 0 where
  no_reader : Attempt
  unreadable : Attempt
  uncompiled : Bool → Attempt
  compiled : Bool → List Value → Attempt

-- The calls of the runtime that make or free something.
pub data Call : Type 0 where
  reader_new : Call
  reader_free : Call
  compiler_new : Call
  compiler_free : Call
  compile : Call
  compiled_code_free : Call
  form_release : Call
  malloc : ℕ → Call
  object_make_immortal : Value → Call

-- How the editor's task ends.
pub data Ran : Type 0 where
  interrupt : Ran
  vm_error : Ran
  result_other : Ran
  result_string : List ℕ → Ran

-- `enabled` is the var enabled? of beer.lineedit: no namespace, no var, or its value. `code` is the
-- compiled call with its constants, once there is one.
pub record Editor : Type 0 where
  pub enabled : Option (Option Value)
  pub code : Option (List Value)
  pub calls : List Call

unfoldable pub lineedit_enabled : Editor → Bool
lineedit_enabled e = elim e.enabled [
  | none ↦ false
  | some var ↦ elim var [ none ↦ false | some v ↦ truthy v ]
]

abbrev pub released : Bool → List Call
released form = if form then form_release ∷ [] else []

-- namespace_define of enabled?, where there is the namespace.
pub lineedit_disable : Editor → Editor
lineedit_disable e = record e {
  enabled = elim e.enabled [ none ↦ none | some v ↦ some (some (boolean false)) ];
}

-- What the run of the task comes to, and whether it disables the editor.
pub ran : Ran → Edit
ran interrupt = stopped
ran vm_error = failed
ran result_other = no_string
ran (result_string s) = text s

abbrev pub disables : Edit → Bool
disables uncompilable = true
disables failed = true
disables no_string = true
disables off = false
disables stopped = false
disables (text s) = false

-- beerlang's `is_pointer` tells which constants are objects.
module _ (is_pointer : Value → Bool) where
  pub immortals : List Value → List Call
  immortals [] = []
  immortals (v ∷ vs) =
      let rest = immortals vs in if is_pointer v then object_make_immortal v ∷ rest else rest

  -- The calls of an attempt, and the code that it leaves.
  pub attempt : Attempt → Option (List Value) × List Call
  attempt no_reader = (none, [])
  attempt unreadable = (none, reader_new ∷ reader_free ∷ [])
  attempt (uncompiled form) = (
    none,
    (reader_new ∷ reader_free ∷ compiler_new ∷ compile ∷ compiler_free ∷ [])
        ++ (released form ++ (compiled_code_free ∷ [])),
  )
  attempt (compiled form consts) = (
    some consts,
    (reader_new ∷ reader_free ∷ compiler_new ∷ compile ∷ compiler_free ∷ [])
        ++ (released form
            ++ (malloc ((if length consts == 0 then 1 else length consts) * 8) ∷ immortals consts)),
  )

  pub lineedit_compile : Attempt → Editor → Bool × Editor
  lineedit_compile a e = elim e.code [
    | some consts ↦ (true, e)
    | none ↦
        let (code, calls) = attempt a in
        (
          elim code [ none ↦ false | some consts ↦ true ],
          record e { code = code; calls = e.calls ++ calls },
        )
  ]

  -- How lineedit_read goes.
  pub edit : Attempt → Ran → Editor → Edit × Editor
  edit a r e =
      let (ok, e') = lineedit_compile a e in
      if not (lineedit_enabled e)
      then (off, e)
      else if not ok
      then (uncompilable, lineedit_disable e')
      else (ran r, if disables (ran r) then lineedit_disable e' else e')

  -- The calls of lineedit_read, one after the other, with nobody setting enabled? in between.
  pub reads : ℕ → List (Attempt × Ran) → Editor → List (Option (List ℕ) × List Out) × Editor
  reads max [] e = ([], e)
  reads max ((a, r) ∷ rest) e =
      let (how, e') = edit a r e in
      let (answers, e'') = reads max rest e' in (lineedit_read max how ∷ answers, e'')
