-- ===== src/Prelude/Slice.antt =====
-- Arrays as functions from an index, and the list of the values in a range of indices.
use Prim.Native.Nat.{ℕ, zero, suc, ◌+◌, ◌<◌}
use mathlib.Core.Path.{◌≡◌, refl, ap, ap₂, ◌∙◌}
use mathlib.Core.List.{List, [], ◌∷◌, ◌++◌}
use native.Mathlib.Omega.{arith}
use beeros.Prelude.Tests.{◌==◌, if◌then◌else◌}
use beeros.Prelude.Lists.{length, take, drop}

module _ {ℓ} {A : Type ℓ} where
  -- `f[p] = v`
  abbrev pub update : (ℕ → A) → ℕ → A → ℕ → A
  update f p v q = if p == q then v else f q

  -- the `n` values of `f` from index `i` on
  abbrev pub slice : (ℕ → A) → ℕ → ℕ → List A
  slice f i zero = []
  slice f i (suc n) = f i ∷ slice f (i + 1) n

  pub length-slice : (f : ℕ → A) (i n : ℕ) → length (slice f i n) ≡ n
  length-slice f i zero = refl
  length-slice f i (suc n) = ap suc (length-slice f (i + 1) n)

  pub slice-ext :
      (f g : ℕ → A) (i j n : ℕ)
      → ((k : ℕ) → k < n → f (i + k) ≡ g (j + k))
      → slice f i n ≡ slice g j n
  slice-ext f g i j zero h = refl
  slice-ext f g i j (suc n) h =
      ap₂ ◌∷◌ (ap f (omega arith) ∙ h 0 (omega arith) ∙ ap g (omega arith)) (
        slice-ext f g (i + 1) (j + 1) n
          (λ k hk. ap f (omega arith) ∙ h (k + 1) (omega arith) ∙ ap g (omega arith)))

  pub slice-snoc : (f : ℕ → A) (i n : ℕ) → slice f i (suc n) ≡ slice f i n ++ (f (i + n) ∷ [])
  slice-snoc f i zero = ap (λ k. f k ∷ []) (omega arith)
  slice-snoc f i (suc n) =
      ap (λ l. f i ∷ l)
        (slice-snoc f (i + 1) n ∙ ap (λ k. slice f (i + 1) n ++ (f k ∷ [])) (omega arith))

  pub drop-slice : (f : ℕ → A) (i d n : ℕ) → drop d (slice f i (d + n)) ≡ slice f (i + d) n
  drop-slice f i zero n = ap₂ (slice f) (omega arith) (omega arith)
  drop-slice f i (suc d) n =
      let e : suc d + n ≡ suc (d + n) = omega arith in
      ap (λ k. drop (suc d) (slice f i k)) e
      ∙ drop-slice f (i + 1) d n
      ∙ ap (λ k. slice f k n) (omega arith)

  pub take-slice : (f : ℕ → A) (i d n : ℕ) → take d (slice f i (d + n)) ≡ slice f i d
  take-slice f i zero n = refl
  take-slice f i (suc d) n =
      let e : suc d + n ≡ suc (d + n) = omega arith in
      ap (λ k. take (suc d) (slice f i k)) e ∙ ap (λ l. f i ∷ l) (take-slice f (i + 1) d n)
