-- ===== src/Gfx/Picks.antt =====
-- kernel/gfx.c: the pixels that the loops of gfx_present and gfx_fill_owned pick by the owner map.
use mathlib.Core.Path.{ap₂}
use beeros.Prelude.{
  ℕ, ◌+◌, ◌-◌, ◌*◌, ◌<◌, ◌≡◌, refl, ap, ◌∙◌, inl, inr, true, false, Option, none, some, ◌==◌,
  if◌then◌else◌, arith, Bool-cases,
}
use beeros.Prelude.Int.{pos_part}
use beeros.Gfx.Paint.{or_else}
use beeros.Gfx.Clip.{Rect, clip}
use beeros.Gfx.Draw.{owned}
use beeros.Gfx.Region.{is_inside, painted, painted-inside, painted-outside, clip-start}

module _ (id : ℕ) (owner : ℕ → ℕ) (w_max h_max : ℕ) (a : Rect) (value : ℕ → ℕ → ℕ) (px : ℕ → ℕ)
    (p q : ℕ) (in_w : p < w_max) (in_h : q < h_max) where
  unfoldable pub own_pick : ℕ → ℕ → Option ℕ
  own_pick = owned id owner w_max (clip a w_max h_max).1 value

  own_pick-at :
      is_inside a p q ≡ true
      → own_pick (q - pos_part (clip a w_max h_max).1.y) (p - pos_part (clip a w_max h_max).1.x) ≡ (
          if owner (q * w_max + p) == id
          then some (
              value (q - pos_part (clip a w_max h_max).1.y) (p - pos_part (clip a w_max h_max).1.x))
          else none)
  unfolding own_pick
  own_pick-at inside =
      let (x_lo, y_lo) = clip-start a w_max h_max p q in_w in_h inside in
      let b_x : ℕ = pos_part (clip a w_max h_max).1.x in
      let b_y : ℕ = pos_part (clip a w_max h_max).1.y in
      let row : b_y + (q - b_y) ≡ q = omega arith in
      let column : b_x + (p - b_x) ≡ p = omega arith in
      ap (λ k. if owner k == id then some (value (q - b_y) (p - b_x)) else none)
        (ap₂ (λ v u. v * w_max + u) row column)

  pub painted-unowned :
      (owner (q * w_max + p) == id) ≡ false
      → painted a w_max h_max own_pick px (q * w_max + p) ≡ px (q * w_max + p)
  painted-unowned other = elim (Bool-cases (is_inside a p q)) [
    | inl inside ↦
        painted-inside a w_max h_max own_pick px p q in_w in_h inside
        ∙ ap (λ o. or_else o (px (q * w_max + p))) (own_pick-at inside)
        ∙ rw other refl
    | inr outside ↦ painted-outside a w_max h_max own_pick px p q in_w in_h outside
  ]

  pub painted-owned :
      (owner (q * w_max + p) == id) ≡ true
      → is_inside a p q ≡ true
      → painted a w_max h_max own_pick px (q * w_max + p)
        ≡ value (q - pos_part (clip a w_max h_max).1.y) (p - pos_part (clip a w_max h_max).1.x)
  painted-owned same inside =
      painted-inside a w_max h_max own_pick px p q in_w in_h inside
      ∙ ap (λ o. or_else o (px (q * w_max + p))) (own_pick-at inside)
      ∙ rw same refl
