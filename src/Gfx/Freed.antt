-- ===== src/Gfx/Freed.antt =====
-- kernel/gfx.c: what `gfx_surface_free` makes of the owner map.
use native.Mathlib.Decide.{ℕ_discrete}
use beeros.Prelude.{
  ℕ, zero, suc, ◌+◌, ◌*◌, ◌≤◌, ◌<◌, ◌≡◌, ◌≢◌, refl, sym, ap, ◌∙◌, Bool, true, false, not, ◌||◌,
  Option, none, some, ◌==◌, ltb, if◌then◌else◌, arith, lt→ltb,
}
use beeros.Prelude.Slice.{update}
use beeros.Prelude.Int.{pos}
use beeros.Gfx.Paint.{repeat}
use beeros.Gfx.Surface.{
  Gfx, Target, gfx_width, gfx_height, disowned, gfx_surface_free, without, freed, surfaces_max,
}

module _ (id : ℕ) where
  clear : ℕ → (ℕ → ℕ) → ℕ → ℕ
  clear i o = if o i == id then update o i 0 else o

  clear-there : (i j : ℕ) (o : ℕ → ℕ) → j ≢ i → clear i o j ≡ o j
  unfolding clear
  clear-there i j o other = go (o i == id)
    where
      go : (b : Bool) → (if b then update o i 0 else o) j ≡ o j
      go true = ground arith
      go false = refl

  clear-here : (i : ℕ) (o : ℕ → ℕ) → clear i o i ≡ (if o i == id then 0 else o i)
  unfolding clear
  clear-here i o = go (o i == id)
    where
      go : (b : Bool) → (if b then update o i 0 else o) i ≡ (if b then 0 else o i)
      go true = ground arith
      go false = refl

  sweep-before : (i n j : ℕ) (o : ℕ → ℕ) → j < i → repeat i n clear o j ≡ o j
  unfolding repeat
  sweep-before i zero j o h = refl
  sweep-before i (suc n) j o h =
      sweep-before (i + 1) n j (clear i o) (omega arith) ∙ clear-there i j o (omega arith)

  sweep-inside :
      (i n j : ℕ) (o : ℕ → ℕ)
      → i ≤ j
      → j < i + n
      → repeat i n clear o j ≡ (if o j == id then 0 else o j)
  unfolding repeat
  sweep-inside i zero j o lo hi = absurd (omega arith)
  sweep-inside i (suc n) j o lo hi = elim (ℕ_discrete i j) [
    | yes same ↦
        sweep-before (i + 1) n j (clear i o) (omega arith)
        ∙ ap (clear i o) (sym same)
        ∙ clear-here i o
        ∙ ap (λ k. if o k == id then 0 else o k) same
    | no other ↦
        sweep-inside (i + 1) n j (clear i o) (omega arith) (omega arith)
        ∙ ap (λ v. if v == id then 0 else v) (clear-there i j o (omega arith))
  ]

-- The owner of a point.
abbrev pub owner_of : ℕ → Gfx → Option ℕ
owner_of k g = elim g.owner [ none ↦ none | some o ↦ some (o k) ]

-- Freeing a surface in use, other than the screen, gives its points of the owner map back to the
-- desktop, and leaves every other point to its owner.
pub gfx_surface_free-owner :
    (g : Gfx) (i : ℕ) (t : Target) (owner : ℕ → ℕ) (k : ℕ)
    → 0 < i
    → i < surfaces_max
    → g.surfaces i ≡ some t
    → g.owner ≡ some owner
    → k < gfx_width g * gfx_height g
    → owner_of k (gfx_surface_free (pos i) g) ≡ some (if owner k == i then 0 else owner k)
unfolding gfx_surface_free
gfx_surface_free-owner g i t owner k some_i small here map inside =
    let n : ℕ = gfx_width g * gfx_height g in
    let other : (i == 0) ≡ false = ground arith in
    let within : ltb i surfaces_max ≡ true = lt→ltb i surfaces_max small in
    ap (λ b. owner_of k (if b || not (ltb i surfaces_max) then g else freed i g)) other
    ∙ ap (λ b. owner_of k (if not b then g else freed i g)) within
    ∙ ap (λ o. owner_of k (elim o as (λ x. Gfx) [ none ↦ g | some t' ↦ without i g ])) here
    ∙ ap
        (λ o.
          elim (elim o as (λ x. Option (ℕ → ℕ)) [ none ↦ none | some f ↦ some (disowned i n f) ])
            as (λ x. Option ℕ) [ none ↦ none | some f ↦ some (f k) ])
        map
    ∙ ap some
        (unfold disowned in unfold clear in sweep-inside i 0 n k owner (omega arith) (omega arith))
