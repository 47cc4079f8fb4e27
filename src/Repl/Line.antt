-- ===== src/Repl/Line.antt =====
-- kernel/repl_uart.c: what `uart_readline` stores, and the digits of `uart_print_int`.
use beeros.Prelude.{
  ℕ, zero, suc, ◌+◌, ◌-◌, ◌*◌, ◌/◌, ◌%◌, ◌^◌, ◌≤◌, ◌<◌, ◌≡◌, refl, ap, ◌∙◌, Bool, true, false, not,
  ◌&&◌, ◌||◌, List, [], ◌∷◌, ◌++◌, ltb, ◌==◌, if◌then◌else◌, length, arith, Bool-cases, inl, inr,
  ◌⊎◌,
}
use native.Mathlib.Nat.{pow-suc}
use beeros.Prelude.Int.{pos}
use beeros.Repl.{
  Turn, interrupted, typed, idle, Answer, line, dropped, waiting, reverse_onto, read_turns,
  uart_readline, digits, uart_print_int,
}

-- A character that is stored: no control character.
unfoldable pub is_stored : ℕ → Bool
is_stored c = ltb 31 c && not (c == 127)

unfoldable pub Stored : List ℕ → Type 0
Stored [] = Unit {0}
Stored (c ∷ l) = (is_stored c ≡ true) × Stored l

-- The line has at most `n` characters: stored ones, and at most one line feed, which is the last.
unfoldable pub IsLine : ℕ → Answer → Type 0
IsLine n (line l) =
    (length l ≤ n) × ((Stored l) ⊎ ((text : List ℕ) × Stored text × (l ≡ text ++ (10 ∷ []))))
IsLine n dropped = Unit {0}
IsLine n waiting = Unit {0}

reverse_onto-Stored : (l m : List ℕ) → Stored l → Stored m → Stored (reverse_onto l m)
unfolding reverse_onto Stored
reverse_onto-Stored [] m hl hm = hm
reverse_onto-Stored (c ∷ l) m (h, hl) hm = reverse_onto-Stored l (c ∷ m) hl (h, hm)

length-reverse_onto : (l m : List ℕ) → length (reverse_onto l m) ≡ length l + length m
unfolding reverse_onto
length-reverse_onto [] m = omega arith
length-reverse_onto (c ∷ l) m = omega (arith, length-reverse_onto l (c ∷ m))

reverse_onto-append : (l m k : List ℕ) → reverse_onto l (m ++ k) ≡ reverse_onto l m ++ k
unfolding reverse_onto
reverse_onto-append [] m k = refl
reverse_onto-append (c ∷ l) m k = reverse_onto-append l (c ∷ m) k

full : (n : ℕ) (buf : List ℕ) → length buf ≡ n → Stored buf → IsLine n (line (reverse_onto buf []))
unfolding IsLine
full n buf size stored = (
  rw (length-reverse_onto buf []) (omega arith),
  inl (reverse_onto-Stored buf [] stored (unfold Stored in tt)),
)

ended :
    (n : ℕ) (buf : List ℕ)
    → length buf < n
    → Stored buf
    → IsLine n (line (reverse_onto buf (10 ∷ [])))
unfolding IsLine
ended n buf size stored = (
  rw (length-reverse_onto buf (10 ∷ [])) (omega arith),
  inr (
    reverse_onto buf [],
    reverse_onto-Stored buf [] stored (unfold Stored in tt),
    reverse_onto-append buf [] (10 ∷ []),
  ),
)

choose_IsLine :
    (n : ℕ) (first second : Bool) (a b c : Answer × List ℕ)
    → IsLine n a.0
    → IsLine n b.0
    → (first ≡ false → second ≡ false → IsLine n c.0)
    → IsLine n (if first then a else (if second then b else c)).0
choose_IsLine n true second a b c ha hb hc = ha
choose_IsLine n false true a b c ha hb hc = hb
choose_IsLine n false false a b c ha hb hc = hc refl refl

kept : (c : ℕ) → (c == 127 || (c == 8 || ltb c 32)) ≡ false → is_stored c ≡ true
unfolding is_stored
kept c h = ground arith

kept' : (c : ℕ) → (c == 127 || c == 8) ≡ false → ltb c 32 ≡ false → is_stored c ≡ true
unfolding is_stored
kept' c h low = ground arith

read_turns-IsLine :
    (n room : ℕ) (buf : List ℕ) (turns : List Turn)
    → length buf + room ≡ n
    → Stored buf
    → IsLine n (read_turns room buf turns).0
unfolding read_turns Stored
read_turns-IsLine n zero buf turns size stored = full n buf (omega arith) stored
read_turns-IsLine n (suc room) buf [] size stored = unfold IsLine in tt
read_turns-IsLine n (suc room) buf (interrupted ∷ turns) size stored = unfold IsLine in tt
read_turns-IsLine n (suc room) buf (idle ∷ turns) size stored =
    read_turns-IsLine n (suc room) buf turns size stored
read_turns-IsLine n (suc room) [] (typed c ∷ turns) size stored =
    choose_IsLine n (c == 13) (c == 127 || (c == 8 || ltb c 32)) _ _ _
      (ended n [] (omega arith) stored) (read_turns-IsLine n (suc room) [] turns size stored)
      (λ e k. read_turns-IsLine n room (c ∷ []) turns (omega arith) (kept c k, stored))
read_turns-IsLine n (suc room) (d ∷ buf) (typed c ∷ turns) size (h, stored) =
    choose_IsLine n (c == 13) (c == 127 || c == 8) _ _ _
      (ended n (d ∷ buf) (omega arith) (h, stored))
      (read_turns-IsLine n (suc (suc room)) buf turns (omega arith) stored)
      (λ e k.
        inner (ltb c 32) (read_turns (suc room) (d ∷ buf) turns)
          (read_turns room (c ∷ d ∷ buf) turns)
          (read_turns-IsLine n (suc room) (d ∷ buf) turns size (h, stored))
          (λ low.
            read_turns-IsLine n room (c ∷ d ∷ buf) turns (omega arith)
              (kept' c k low, (h, stored))))
  where
    inner :
        (low : Bool) (b a : Answer × List ℕ)
        → IsLine n b.0
        → (low ≡ false → IsLine n a.0)
        → IsLine n (if low then b else (a.0, c ∷ a.1)).0
    inner true b a hb ha = hb
    inner false b a hb ha = ha refl

-- Whatever is typed, `uart_readline` stores at most `max - 1` characters: no control character
-- among them but one line feed, and that as the last.
pub uart_readline-IsLine :
    (max : ℕ) (turns : List Turn) → IsLine (max - 1) (uart_readline max turns).0
unfolding uart_readline
uart_readline-IsLine max turns =
    read_turns-IsLine (max - 1) (max - 1) [] turns (omega arith) (unfold Stored in tt)

-- The number that a text of digits stands for, read from the left after `acc`.
pub read_number : ℕ → List ℕ → ℕ
read_number acc [] = acc
read_number acc (c ∷ l) = read_number (acc * 10 + (c - 48)) l

zero_of : (n : ℕ) → (n == 0) ≡ true → 0 ≡ n
zero_of n e = ground arith

digits_value :
    (fuel n : ℕ) (m : List ℕ)
    → n < 10 ^ fuel
    → read_number 0 (reverse_onto (digits fuel n) m) ≡ read_number n m
unfolding digits reverse_onto read_number
digits_value zero n m small = ap (λ k. read_number k m) (omega arith)
digits_value (suc fuel) n m small =
    let step : 10 ^ suc fuel ≡ 10 * 10 ^ fuel = pow-suc 10 fuel ∙ omega arith in
    let rest = digits_value fuel (n / 10) ((48 + n % 10) ∷ m) (omega arith) in
    let whole : n / 10 * 10 + (48 + n % 10 - 48) ≡ n = omega arith in
    go (n == 0) refl (rest ∙ ap (λ k. read_number k m) whole)
  where
    go :
        (z : Bool)
        → (n == 0) ≡ z
        → read_number 0 (reverse_onto (digits fuel (n / 10)) ((48 + n % 10) ∷ m)) ≡ read_number n m
        → read_number 0 (reverse_onto (if z then [] else (48 + n % 10) ∷ digits fuel (n / 10)) m)
          ≡ read_number n m
    go true e h = ap (λ k. read_number k m) (zero_of n e)
    go false e h = h

-- Reading back what `uart_print_int` prints of an `int` from 0 on gives that number.
pub read_number-uart_print_int : (n : ℕ) → n < 2 ^ 31 → read_number 0 (uart_print_int (pos n)) ≡ n
unfolding uart_print_int
read_number-uart_print_int n small = elim (Bool-cases (n == 0)) [
  | inl none_left ↦ rw none_left (unfold read_number in zero_of n none_left)
  | inr some_left ↦ rw some_left (digits_value 10 n [] (omega arith) ∙ (unfold read_number in refl))
]
