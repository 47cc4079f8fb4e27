-- ===== src/Repl/Loop/Editor/GivesUp.antt =====
-- kernel/repl_uart.c: a line editor that fails is not asked again.
use mathlib.Core.Path.{subst}
use mathlib.Core.Bool.{false≢true}
use beeros.Prelude.{
  ℕ, ◌≡◌, refl, sym, Bool, true, false, not, Option, none, some, List, [], ◌∷◌, if◌then◌else◌,
  Bool-cases, inl, inr, length, leb,
}
use beeros.Beerlang.{Value, boolean, truthy}
use beeros.Repl.Loop.{
  Edit, off, uncompilable, stopped, failed, no_string, text, Out, disabled, lineedit_read,
}
use beeros.Repl.Loop.Editor.{
  Attempt, Ran, Editor, lineedit_enabled, lineedit_compile, lineedit_disable, ran, disables, edit,
  reads,
}

gives_up : List Out → Bool
gives_up [] = false
gives_up (disabled ∷ outs) = true
gives_up (o ∷ outs) = gives_up outs

-- Every line is left to uart_readline, with nothing printed.
AllOff : List (Option (List ℕ) × List Out) → Type 0
AllOff [] = Unit
AllOff ((answer, outs) ∷ rest) = (answer ≡ none) × (outs ≡ []) × AllOff rest

-- Once the editor has been given up, that line and every later one is left to uart_readline.
pub GivesUp : List (Option (List ℕ) × List Out) → Type 0
GivesUp [] = Unit
GivesUp ((answer, outs) ∷ rest) =
    if gives_up outs then (answer ≡ none) × AllOff rest else GivesUp rest

disable-enabled : (e : Editor) → lineedit_enabled (lineedit_disable e) ≡ false
unfolding lineedit_enabled lineedit_disable
disable-enabled e = go e.enabled
  where
    go :
        (o : Option (Option Value))
        → (elim (elim o as (λ x. Option (Option Value)) [
          | none ↦ none
          | some v ↦ some (some (boolean false))
        ])
            as (λ x. Bool) [
              | none ↦ false
              | some var ↦ elim var [ none ↦ false | some v ↦ truthy v ]
            ])
          ≡ false
    go none = refl
    go (some v) = unfold truthy in refl

module _ (is_pointer : Value → Bool) where
  edit-off :
      (a : Attempt) (r : Ran) (e : Editor)
      → lineedit_enabled e ≡ false
      → edit is_pointer a r e ≡ (off, e)
  unfolding edit
  edit-off a r e off_now = rw off_now refl

  edit-disables :
      (a : Attempt) (r : Ran) (e : Editor)
      → disables (edit is_pointer a r e).0 ≡ true
      → lineedit_enabled (edit is_pointer a r e).1 ≡ false
  unfolding edit
  edit-disables a r e =
      go (lineedit_enabled e) (lineedit_compile is_pointer a e).0
        (lineedit_compile is_pointer a e).1 (ran r)
    where
      go :
          (on ok : Bool) (e' : Editor) (how : Edit)
          → let x : Edit × Editor =
              if not on
              then (off, e)
              else if not ok
              then (uncompilable, lineedit_disable e')
              else (how, if disables how then lineedit_disable e' else e') in
            disables x.0 ≡ true → lineedit_enabled x.1 ≡ false
      go false ok e' how h = absurd (false≢true h)
      go true false e' how h = disable-enabled e'
      go true true e' how h = rw h (disable-enabled e')

  reads-AllOff :
      (max : ℕ) (rest : List (Attempt × Ran)) (e : Editor)
      → lineedit_enabled e ≡ false
      → AllOff (reads is_pointer max rest e).0
  unfolding reads AllOff edit lineedit_read
  reads-AllOff max [] e off_now = tt
  reads-AllOff max ((a, r) ∷ rest) e off_now =
      subst
        (λ x.
          ((lineedit_read max x.0).0 ≡ none)
          × ((lineedit_read max x.0).1 ≡ [])
          × AllOff (reads is_pointer max rest x.1).0)
        (sym (edit-off a r e off_now)) (refl, refl, reads-AllOff max rest e off_now)

  pub reads-GivesUp :
      (max : ℕ) (rest : List (Attempt × Ran)) (e : Editor) → GivesUp (reads is_pointer max rest e).0
  unfolding reads GivesUp
  reads-GivesUp max [] e = tt
  reads-GivesUp max ((a, r) ∷ rest) e =
      go (edit is_pointer a r e).0 (edit is_pointer a r e).1 (edit-disables a r e)
        (reads-GivesUp max rest (edit is_pointer a r e).1)
    where
      go :
          (how : Edit) (e' : Editor)
          → (disables how ≡ true → lineedit_enabled e' ≡ false)
          → GivesUp (reads is_pointer max rest e').0
          → if gives_up (lineedit_read max how).1
            then ((lineedit_read max how).0 ≡ none) × AllOff (reads is_pointer max rest e').0
            else GivesUp (reads is_pointer max rest e').0
      go off e' given later = unfold lineedit_read in unfold gives_up in later
      go uncompilable e' given later =
          unfold lineedit_read in unfold gives_up in (refl, reads-AllOff max rest e' (given refl))
      go failed e' given later =
          unfold lineedit_read in unfold gives_up in (refl, reads-AllOff max rest e' (given refl))
      go no_string e' given later =
          unfold lineedit_read in unfold gives_up in (refl, reads-AllOff max rest e' (given refl))
      go stopped e' given later = unfold lineedit_read in unfold gives_up in later
      go (text s) e' given later =
          unfold lineedit_read in
          unfold gives_up in
          elim (Bool-cases (leb max (length s))) [
            | inl long ↦ rw long later
            | inr short ↦ rw short later
          ]
