-- ===== src/Irq/Tally.antt =====
-- kernel/mem_natives.c: counting the references that the calls of the runtime take and give back.
use beeros.Prelude.{
  ℕ, zero, suc, ◌+◌, ◌≤◌, ◌<◌, ◌≡◌, refl, ap, Bool, true, false, List, [], ◌∷◌, ◌++◌, ◌==◌,
  if◌then◌else◌, arith, Bool-cases, inl, inr,
}
use native.Mathlib.Decide.{ℕ_discrete}
use beeros.Prelude.Slice.{update}
use beeros.Beerlang.{Value}

abbrev pub one_if : Bool → ℕ
one_if b = if b then 1 else 0

abbrev pub same_bool : Bool → Bool → Bool
same_bool true b = b
same_bool false true = false
same_bool false false = true

-- The calls of object_retain (true) or object_release (false) on the values that `p` picks.
unfoldable pub tally : Bool → (Value → Bool) → List (Bool × Value) → ℕ
tally kind p [] = 0
tally kind p ((k, v) ∷ calls) =
    let rest = tally kind p calls in if same_bool kind k then one_if (p v) + rest else rest

-- The values that `p` picks in the first `n` slots, and in a list.
unfoldable pub slots : (Value → Bool) → (ℕ → Value) → ℕ → ℕ
slots p handlers zero = 0
slots p handlers (suc n) = one_if (p (handlers n)) + slots p handlers n

unfoldable pub handed : (Value → Bool) → List Value → ℕ
handed p [] = 0
handed p (v ∷ vs) = one_if (p v) + handed p vs

pub tally-append :
    (kind : Bool) (p : Value → Bool) (a b : List (Bool × Value))
    → tally kind p (a ++ b) ≡ tally kind p a + tally kind p b
unfolding tally
tally-append kind p [] b = omega arith
tally-append kind p ((k, v) ∷ a) b = elim (Bool-cases (same_bool kind k)) [
  | inl this ↦ rw this (omega (arith, tally-append kind p a b))
  | inr that ↦ rw that (tally-append kind p a b)
]

slots-there :
    (p : Value → Bool) (f : ℕ → Value) (i n : ℕ) (v : Value)
    → n ≤ i
    → slots p (update f i v) n ≡ slots p f n
unfolding slots
slots-there p f i zero v le = refl
slots-there p f i (suc n) v le =
    let e : (i == n) ≡ false = ground arith in
    rw e (ap (λ k. one_if (p (f n)) + k) (slots-there p f i n v (omega arith)))

pub slots-update :
    (p : Value → Bool) (f : ℕ → Value) (i n : ℕ) (v : Value)
    → i < n
    → slots p (update f i v) n + one_if (p (f i)) ≡ slots p f n + one_if (p v)
unfolding slots
slots-update p f i zero v lt = absurd (omega arith)
slots-update p f i (suc n) v lt = elim (ℕ_discrete i n) [
  | yes same ↦
      let here : (i == n) ≡ true = ground arith in
      let below = slots-there p f i n v (omega arith) in
      let old : one_if (p (f i)) ≡ one_if (p (f n)) = ap (λ k. one_if (p (f k))) same in
      rw here (omega (arith, below, old))
  | no unlike ↦
      let there : (i == n) ≡ false = ground arith in
      let below = slots-update p f i n v (omega arith) in rw there (omega (arith, below))
]
