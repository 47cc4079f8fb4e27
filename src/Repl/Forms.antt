-- ===== src/Repl/Forms.antt =====
-- kernel/repl_uart.c: what the answer of `is_form_complete` depends on.
use beeros.Prelude.{
  ℕ, ◌≡◌, refl, Bool, true, false, some, List, [], ◌∷◌, ◌++◌, ltb, ◌==◌, arith, ◌&&◌, ◌||◌,
}
use beeros.Prelude.Int.{ℤ, pos}
use beeros.Repl.{
  Mode, Scan, code, string, escaped, comment, scan_step, scan, start, is_open, is_close,
  is_form_complete,
}

-- All bytes of the list pass the test.
unfoldable pub All : (ℕ → Bool) → List ℕ → Type 0
All test [] = Unit {0}
All test (c ∷ l) = (test c ≡ true) × All test l

unfoldable pub is_text : ℕ → Bool
is_text c = ltb 0 c

unfoldable pub is_comment_text : ℕ → Bool
is_comment_text c = ltb 0 c && (ltb c 10 || ltb 10 c)

-- A line's end closes a comment, so the terminator after it ends the loop.
Ends : Scan → (List ℕ → List ℕ) → Type 0
Ends s text = (b : Bool) × ((rest : List ℕ) → scan s (text rest) ≡ some b)

line_end-Ends :
    (m : Mode) (d : ℤ) (c : Bool)
    → Ends (record { mode = m; depth = d; has_content = c }) (λ rest. 10 ∷ 0 ∷ rest)
unfolding Ends scan scan_step is_open is_close
line_end-Ends code d c = (_, λ rest. refl)
line_end-Ends string d c = (_, λ rest. refl)
line_end-Ends escaped d c = (_, λ rest. refl)
line_end-Ends comment d c = (_, λ rest. refl)

text-Ends : (l : List ℕ) (s : Scan) → All is_text l → Ends s (λ rest. l ++ (10 ∷ 0 ∷ rest))
unfolding Ends All is_text scan
text-Ends [] s h = line_end-Ends s.mode s.depth s.has_content
text-Ends (c ∷ l) s (h, hs) =
    let (b, later) = text-Ends l (scan_step s c) hs in
    let other : (c == 0) ≡ false = ground arith in (b, λ rest. rw other (later rest))

-- For a text without zero bytes that ends with a line feed and a terminator, `is_form_complete`
-- gives an answer, and the same one whatever lies after the terminator.
pub is_form_complete-Ends :
    (l : List ℕ)
    → All is_text l
    → (b : Bool) × ((rest : List ℕ) → is_form_complete (l ++ (10 ∷ 0 ∷ rest)) ≡ some b)
unfolding Ends is_form_complete
is_form_complete-Ends l h = text-Ends l start h

in_comment : ℤ → Bool → Scan
in_comment d c = record { mode = comment; depth = d; has_content = c }

comment-scan :
    (l rest : List ℕ) (d : ℤ) (c : Bool)
    → All is_comment_text l
    → scan (in_comment d c) (l ++ (0 ∷ rest))
      ≡ scan (record { mode = code; depth = d; has_content = c }) rest
unfolding in_comment All is_comment_text scan scan_step
comment-scan [] rest d c h = refl
comment-scan (b ∷ l) rest d c (h, hs) =
    let other : (b == 0) ≡ false = ground arith in
    let inside : (b == 10) ≡ false = ground arith in rw (other, inside) (comment-scan l rest d c hs)

-- A text that is one comment, with no line feed before its terminator, is judged by what lies
-- after the terminator.
pub is_form_complete-comment :
    (l rest : List ℕ)
    → All is_comment_text l
    → is_form_complete (59 ∷ l ++ (0 ∷ rest)) ≡ is_form_complete rest
unfolding is_form_complete in_comment scan scan_step
is_form_complete-comment l rest h = comment-scan l rest (pos 0) false h
