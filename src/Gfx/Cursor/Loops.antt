-- ===== src/Gfx/Cursor/Loops.antt =====
-- kernel/gfx.c: the points that the loops of the drawing functions store at.
use mathlib.Core.Bool.{false≢true}
use beeros.Prelude.{
  ℕ, ◌+◌, ◌*◌, ◌%◌, ◌<◌, ◌≡◌, refl, sym, Bool, true, false, not, ◌&&◌, ◌||◌, Option, arith,
}
use beeros.Prelude.Int.{ℤ, pos, pos_part, ◌+ℤ◌, ltb_ℤ, int_laws}
use beeros.Gfx.Paint.{below}
use beeros.Gfx.Clip.{Rect, clip, Within, clip-fits, clip-whole}
use beeros.Gfx.Draw.{rect, paint_rect, blit_bits_loops, u32_mod}
use beeros.Gfx.Cursor.Confined.{
  Confined, paint-Confined, repeat-Confined, if-Confined, option-Confined, update-Confined,
  nothing-Confined,
}
use beeros.Gfx.Cursor.Misses.{In}

-- A rectangle that has been clipped is painted on its points only.
pub clipped-Confined :
    (a : Rect) (w h : ℕ) (pick : ℕ → ℕ → Option ℕ)
    → (clip a w h).0 ≡ true
    → Confined (In w h (clip a w h).1) (paint_rect w (clip a w h).1 pick)
clipped-Confined a w h pick ok =
    let b : Rect = (clip a w h).1 in
    let (fits_w, fits_h) = clip-fits a w h ok in
    let (whole_x, whole_w, whole_y, whole_h) = clip-whole a w h ok in
    paint-Confined w (pos_part b.x) (pos_part b.y) (pos_part b.w) (pos_part b.h) pick
      (λ r c tall wide.
        unfold In in
        (
          pos_part b.x + c,
          pos_part b.y + r,
          omega arith,
          omega arith,
          inside b.x b.w c whole_x whole_w wide,
          inside b.y b.h r whole_y whole_h tall,
          omega arith,
        ))
  where
    inside :
        (x w : ℤ) (c : ℕ)
        → x ≡ pos (pos_part x)
        → w ≡ pos (pos_part w)
        → c < pos_part w
        → Within x w (pos_part x + c)
    inside x w c e e' lt = unfold Within in grind int_laws

pub not_or : (a b : Bool) → (a || not b) ≡ false → (a ≡ false) × (b ≡ true)
not_or false true e = (refl, refl)
not_or false false e = (refl, sym e)
not_or true b e = absurd (false≢true (sym e))

pub not_and : (a b : Bool) → (not a && b) ≡ true → (a ≡ false) × (b ≡ true)
not_and false true e = (refl, refl)
not_and false false e = (refl, e)
not_and true b e = absurd (false≢true e)

pub not-false : (ok : Bool) → not ok ≡ false → ok ≡ true
not-false true e = refl
not-false false e = sym e

-- A coordinate that the loops of a scaled picture reach, once it is known to be on the surface.
pub placed :
    (x : ℤ) (k s total max : ℕ)
    → k + s < total
    → ltb_ℤ (x +ℤ pos k +ℤ pos s) (pos 0) ≡ false
    → ltb_ℤ (x +ℤ pos k +ℤ pos s) (pos max) ≡ true
    → (pos_part (x +ℤ pos k +ℤ pos s) < max) × Within x (pos total) (pos_part (x +ℤ pos k +ℤ pos s))
unfolding Within
placed x k s total max h lo hi = (grind int_laws, (grind int_laws, grind int_laws))

pub scaled : (c n scale s : ℕ) → c < n → s < scale → c * scale % u32_mod + s < n * scale
scaled c n scale s lt lt' = let b = below c n scale lt in omega arith

-- The loops over a bitmap store into its rectangle only; their products wrap at 2^32, downwards.
pub blit_bits-Confined :
    (t_w t_h : ℕ) (x y : ℤ) (bits : ℕ → ℕ) (w h stride scale fg : ℕ) (bg : ℤ)
    → Confined (In t_w t_h (rect x y (pos (w * scale)) (pos (h * scale)))) (
        blit_bits_loops
          (record { pixels = λ i. 0; w = t_w; h = t_h })
          x
          y
          bits
          w
          h
          stride
          scale
          fg
          bg)
unfolding blit_bits_loops In
blit_bits-Confined t_w t_h x y bits w h stride scale fg bg = repeat-Confined 0 h _ λ r r_lo r_hi.
    repeat-Confined 0 scale _ λ sy sy_lo sy_hi.
      if-Confined _ _ _ (λ off. nothing-Confined)
        λ on_y. repeat-Confined 0 w _ λ c c_lo c_hi. option-Confined _ _ λ color.
          repeat-Confined 0 scale _ λ sx sx_lo sx_hi.
            if-Confined _ _ _
              (λ on_x.
                let (below_y, above_y) = not_or _ _ on_y in
                let (below_x, above_x) = not_and _ _ on_x in
                let (p_in, in_x) =
                  placed x _ sx (w * scale) t_w (scaled c w scale sx (omega arith) (omega arith))
                    below_x above_x in
                let (q_in, in_y) =
                  placed y _ sy (h * scale) t_h (scaled r h scale sy (omega arith) (omega arith))
                    below_y above_y in
                update-Confined _ color (_, _, p_in, q_in, in_x, in_y, refl))
              (λ off. nothing-Confined)
