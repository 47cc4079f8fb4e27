-- ===== src/Repl.antt =====
-- kernel/repl_uart.c: the parts of the REPL that do not call beerlang: reading a line, telling
-- whether a form is complete, and printing a number.
use beeros.Prelude.{
  ℕ, zero, suc, ◌+◌, ◌-◌, ◌/◌, ◌%◌, ◌≤◌, Bool, true, false, not, ◌&&◌, ◌||◌, Option, none, some,
  List, [], ◌∷◌, ◌++◌, ltb, leb, ◌==◌, if◌then◌else◌, length,
}
use beeros.Prelude.Int.{ℤ, pos, negsuc, ◌+ℤ◌, ltb_ℤ}
pub mod Forms
pub mod Line
mod Loop
pub mod Input
mod Tests

-- Where `is_form_complete` stands: `escaped` is after a backslash in a string.
pub data Mode : Type 0 where
  code string escaped comment : Mode

pub record Scan : Type 0 where
  pub mode : Mode
  pub depth : ℤ
  pub has_content : Bool

is_open : ℕ → Bool
is_open c = c == 40 || (c == 91 || c == 123)

is_close : ℕ → Bool
is_close c = c == 41 || (c == 93 || c == 125)

-- The loop's body for a byte other than 0.
unfoldable pub scan_step : Scan → ℕ → Scan
unfolding is_open is_close
scan_step s c = elim s.mode [
  | string ↦
      if c == 92
      then record s { mode = escaped }
      else if c == 34
      then record s { mode = code }
      else s
  | escaped ↦ record s { mode = string }
  | comment ↦ if c == 10 then record s { mode = code } else s
  | code ↦
      if c == 34
      then record s { mode = string; has_content = true }
      else if c == 59
      then record s { mode = comment }
      else if is_open c
      then record s { depth = s.depth +ℤ pos 1; has_content = true }
      else if is_close c
      then record s { depth = s.depth +ℤ negsuc 0 }
      else if ltb 32 c
      then record s { has_content = true }
      else s
]

-- The loop over the bytes from `src` to the end of its array; `none` has left the array. The loop
-- that skips a comment stops at the terminator, and the `p++` of the outer one then passes it.
unfoldable pub scan : Scan → List ℕ → Option Bool
scan s [] = none
scan s (c ∷ rest) =
    let later = scan (scan_step s c) rest in
    let past = scan (record s { mode = code }) rest in
    if c == 0
    then elim s.mode [ comment ↦ past | _ ↦ some (s.has_content && not (ltb_ℤ (pos 0) s.depth)) ]
    else later

abbrev pub start : Scan
start = record { mode = code; depth = pos 0; has_content = false }

pub is_form_complete : List ℕ → Option Bool
is_form_complete src = scan start src

-- One turn of the loop of `uart_readline`: an interrupt was asked for, a character was there, or
-- there was none and a scheduler tick ran.
pub data Turn : Type 0 where
  interrupted : Turn
  typed : ℕ → Turn
  idle : Turn

-- `waiting` says that the turns ended first.
pub data Answer : Type 0 where
  line : List ℕ → Answer
  dropped : Answer
  waiting : Answer

reverse_onto : List ℕ → List ℕ → List ℕ
reverse_onto [] l = l
reverse_onto (c ∷ cs) l = reverse_onto cs (c ∷ l)

-- The answer, and the echo; `room` is `max - 1 - i`, and `buf` has the last character first.
unfoldable pub read_turns : ℕ → List ℕ → List Turn → Answer × List ℕ
unfolding reverse_onto
read_turns zero buf turns = (line (reverse_onto buf []), [])
read_turns (suc room) buf [] = (waiting, [])
read_turns (suc room) buf (interrupted ∷ turns) = (dropped, 13 ∷ 10 ∷ [])
read_turns (suc room) buf (idle ∷ turns) = read_turns (suc room) buf turns
read_turns (suc room) [] (typed c ∷ turns) =
    let ignored = read_turns (suc room) [] turns in
    let (answer, echo) = read_turns room (c ∷ []) turns in
    if c == 13
    then (line (10 ∷ []), 13 ∷ 10 ∷ [])
    else if c == 127 || (c == 8 || ltb c 32)
    then ignored
    else (answer, c ∷ echo)
read_turns (suc room) (d ∷ buf) (typed c ∷ turns) =
    let ignored = read_turns (suc room) (d ∷ buf) turns in
    let (erased, echo') = read_turns (suc (suc room)) buf turns in
    let (answer, echo) = read_turns room (c ∷ d ∷ buf) turns in
    if c == 13
    then (line (reverse_onto (d ∷ buf) (10 ∷ [])), 13 ∷ 10 ∷ [])
    else if c == 127 || c == 8
    then (erased, 8 ∷ 32 ∷ 8 ∷ echo')
    else if ltb c 32
    then ignored
    else (answer, c ∷ echo)

pub uart_readline : ℕ → List Turn → Answer × List ℕ
uart_readline max turns = read_turns (max - 1) [] turns

-- The digits of `uart_print_int`, the last one first, by fuel.
pub digits : ℕ → ℕ → List ℕ
digits zero n = []
digits (suc fuel) n = let rest = digits fuel (n / 10) in if n == 0 then [] else (48 + n % 10) ∷ rest

-- For an `int` other than INT_MIN, of which `-n` is no `int`.
pub uart_print_int : ℤ → List ℕ
unfolding reverse_onto
uart_print_int (pos n) = if n == 0 then 48 ∷ [] else reverse_onto (digits 10 n) []
uart_print_int (negsuc n) = 45 ∷ reverse_onto (digits 10 (n + 1)) []
