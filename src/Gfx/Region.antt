-- ===== src/Gfx/Region.antt =====
-- kernel/gfx.c: what painting a clipped rectangle does to each pixel of its area.
use beeros.Prelude.{
  ℕ, ◌+◌, ◌-◌, ◌*◌, ◌≤◌, ◌<◌, ◌≡◌, refl, sym, ap, ◌∙◌, ◌⊎◌, inl, inr, Bool, true, false, not, ◌&&◌,
  Option, if◌then◌else◌, arith, Bool-cases,
}
use mathlib.Core.Bool.{false≢true}
use mathlib.Core.Path.{ap₂}
use native.Mathlib.Decide.{dec_lt}
use beeros.Prelude.Int.{ℤ, pos, pos_part, ◌+ℤ◌, ltb_ℤ}
use beeros.Gfx.Paint.{paint-inside, paint-outside, or_else}
use beeros.Gfx.Clip.{Rect, clip, Within, clip_points, clip-fits, both, together}
use beeros.Gfx.Draw.{paint_rect}

-- Whether the number `p` lies in the stretch of `w` numbers from `x` on.
abbrev pub is_within : ℤ → ℤ → ℕ → Bool
is_within x w p = not (ltb_ℤ (pos p) x) && ltb_ℤ (pos p) (x +ℤ w)

abbrev pub is_inside : Rect → ℕ → ℕ → Bool
is_inside a p q = is_within a.x a.w p && is_within a.y a.h q

is_within-Within : (x w : ℤ) (p : ℕ) → is_within x w p ≡ true → Within x w p
unfolding Within
is_within-Within x w p h = ground arith

Within-is_within : (x w : ℤ) (p : ℕ) → Within x w p → is_within x w p ≡ true
unfolding Within
Within-is_within x w p h = ground arith

module _ (a : Rect) (w_max h_max : ℕ) (pick : ℕ → ℕ → Option ℕ) (px : ℕ → ℕ) where
  -- The pixels after the rectangle, clipped, has been painted.
  unfoldable pub painted : ℕ → ℕ
  painted = let (ok, b) = clip a w_max h_max in if not ok then px else paint_rect w_max b pick px

  pub painted-inside :
      (p q : ℕ)
      → p < w_max
      → q < h_max
      → is_inside a p q ≡ true
      → painted (q * w_max + p) ≡ (
          let (ok, b) = clip a w_max h_max in
          or_else (pick (q - pos_part b.y) (p - pos_part b.x)) (px (q * w_max + p)))
  unfolding painted
  painted-inside p q in_w in_h h =
      let (in_x, in_y) = both _ _ h in
      let (ok, x_lo, x_hi, y_lo, y_hi) =
        (clip_points a w_max h_max p q in_w in_h).0
          (is_within-Within a.x a.w p in_x, is_within-Within a.y a.h q in_y) in
      let (fits, _) = clip-fits a w_max h_max ok in
      let b_x : ℕ = pos_part (clip a w_max h_max).1.x in
      let b_y : ℕ = pos_part (clip a w_max h_max).1.y in
      let row : q ≡ b_y + (q - b_y) = omega arith in
      let column : p ≡ b_x + (p - b_x) = omega arith in
      let e : q * w_max + p ≡ (b_y + (q - b_y)) * w_max + (b_x + (p - b_x)) =
        ap₂ (λ v u. v * w_max + u) row column in
      rw ok (
        ap (paint_rect w_max (clip a w_max h_max).1 pick px) e
        ∙ paint-inside w_max b_x b_y _ pick fits _ px (q - b_y) (p - b_x) (omega arith)
            (omega arith)
        ∙ ap (λ i. or_else (pick (q - b_y) (p - b_x)) (px i)) (sym e))

  pub painted-outside :
      (p q : ℕ)
      → p < w_max
      → q < h_max
      → is_inside a p q ≡ false
      → painted (q * w_max + p) ≡ px (q * w_max + p)
  unfolding painted
  painted-outside p q in_w in_h h = elim (Bool-cases (clip a w_max h_max).0) [
    | inr none_left ↦ rw none_left refl
    | inl ok ↦
        let (fits, _) = clip-fits a w_max h_max ok in
        rw ok (paint-outside w_max _ _ _ pick fits _ px p q in_w (apart ok p q in_w in_h h))
  ]
    where
      apart :
          let (ok, b) = clip a w_max h_max in
          ok ≡ true
          → (p q : ℕ) → p < w_max
          → q < h_max
          → is_inside a p q ≡ false
          → (q < pos_part b.y)
            ⊎ (pos_part b.y + pos_part b.h ≤ q)
            ⊎ (p < pos_part b.x)
            ⊎ (pos_part b.x + pos_part b.w ≤ p)
      apart ok p q in_w in_h h =
          let b = (clip a w_max h_max).1 in
          elim (dec_lt q (pos_part b.y)) [
            | yes above ↦ inl above
            | no not_above ↦ elim (dec_lt q (pos_part b.y + pos_part b.h)) [
              | no under ↦ inr (inl (omega arith))
              | yes not_under ↦ elim (dec_lt p (pos_part b.x)) [
                | yes left ↦ inr (inr (inl left))
                | no not_left ↦ elim (dec_lt p (pos_part b.x + pos_part b.w)) [
                  | no right ↦ inr (inr (inr (omega arith)))
                  | yes not_right ↦
                      let (in_x, in_y) =
                        (clip_points a w_max h_max p q in_w in_h).1
                          (ok, omega arith, omega arith, omega arith, omega arith) in
                      absurd (
                        false≢true (
                          sym h
                          ∙ together _ _ (Within-is_within a.x a.w p in_x)
                              (Within-is_within a.y a.h q in_y)))
                ]
              ]
            ]
          ]

-- The clipped rectangle begins at or before every point of the area that lies inside.
pub clip-start :
    (a : Rect) (w_max h_max p q : ℕ)
    → p < w_max
    → q < h_max
    → is_inside a p q ≡ true
    → (pos_part (clip a w_max h_max).1.x ≤ p) × (pos_part (clip a w_max h_max).1.y ≤ q)
clip-start a w_max h_max p q in_w in_h h =
    let (in_x, in_y) = both _ _ h in
    let (ok, x_lo, x_hi, y_lo, y_hi) =
      (clip_points a w_max h_max p q in_w in_h).0
        (is_within-Within a.x a.w p in_x, is_within-Within a.y a.h q in_y) in
    (x_lo, y_lo)
