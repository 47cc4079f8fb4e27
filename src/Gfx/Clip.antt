-- ===== src/Gfx/Clip.antt =====
-- kernel/gfx.c: `clip`. The 64-bit coordinates are integers: those that the natives pass are
-- fixnums, whose sums fit.
use beeros.Prelude.{
  arith, ℕ, suc, ◌+◌, ◌≤◌, ◌<◌, ◌≡◌, refl, Bool, true, false, ◌&&◌, if◌then◌else◌, ◌↔◌,
}
use mathlib.Core.Bool.{false≢true}
use beeros.Prelude.Int.{ℤ, pos, pos_part, ◌+ℤ◌, ◌-ℤ◌, ◌≤ℤ◌, ltb_ℤ, int_laws}

pub record Rect : Type 0 where
  pub x : ℤ
  pub y : ℤ
  pub w : ℤ
  pub h : ℤ

-- One axis: a start and a length, cut at 0 and at `max`.
cut_low : ℤ → ℤ → ℤ × ℤ
cut_low x w = if ltb_ℤ x (pos 0) then (pos 0, w +ℤ x) else (x, w)

cut_high : ℕ → ℤ × ℤ → ℤ × ℤ
cut_high max (x, w) = (x, if ltb_ℤ (pos max) (x +ℤ w) then pos max -ℤ x else w)

cut : ℕ → ℤ → ℤ → ℤ × ℤ
cut max x w = cut_high max (cut_low x w)

pub clip : Rect → ℕ → ℕ → Bool × Rect
clip a w_max h_max =
    let (x, w) = cut w_max a.x a.w in
    let (y, h) = cut h_max a.y a.h in
    (ltb_ℤ (pos 0) w && ltb_ℤ (pos 0) h, record { x = x; y = y; w = w; h = h })

-- The number `p` lies in the stretch of `w` numbers from `x` on.
unfoldable pub Within : ℤ → ℤ → ℕ → Type 0
Within x w p = (x ≤ℤ pos p) × (pos (suc p) ≤ℤ x +ℤ w)

module _ (max : ℕ) (x w : ℤ) where
  cut-start :
      ltb_ℤ (pos 0) (cut max x w).1 ≡ true → (cut max x w).0 ≡ pos (pos_part (cut max x w).0)
  unfolding cut cut_low cut_high
  cut-start h = grind int_laws

  cut-length :
      ltb_ℤ (pos 0) (cut max x w).1 ≡ true → (cut max x w).1 ≡ pos (pos_part (cut max x w).1)
  unfolding cut cut_low cut_high
  cut-length h = grind int_laws

  cut-fits :
      ltb_ℤ (pos 0) (cut max x w).1 ≡ true
      → pos_part (cut max x w).0 + pos_part (cut max x w).1 ≤ max
  unfolding cut cut_low cut_high
  cut-fits h = grind int_laws

  cut-Within :
      (p : ℕ)
      → p < max
      → Within x w p
      → (pos_part (cut max x w).0 ≤ p)
        × (p < pos_part (cut max x w).0 + pos_part (cut max x w).1)
        × (ltb_ℤ (pos 0) (cut max x w).1 ≡ true)
  unfolding cut cut_low cut_high Within
  cut-Within p small h = grind int_laws

  Within-cut :
      (p : ℕ)
      → ltb_ℤ (pos 0) (cut max x w).1 ≡ true
      → pos_part (cut max x w).0 ≤ p
      → p < pos_part (cut max x w).0 + pos_part (cut max x w).1
      → Within x w p
  unfolding cut cut_low cut_high Within
  Within-cut p h lo hi = grind int_laws

pub both : (a b : Bool) → (a && b) ≡ true → (a ≡ true) × (b ≡ true)
both true b h = (refl, h)
both false b h = absurd (false≢true h)

pub together : (a b : Bool) → a ≡ true → b ≡ true → (a && b) ≡ true
together a b h k = rw (h, k) refl

-- A point of the area lies in the rectangle just if `clip` answers true and leaves it.
pub clip_points :
    (a : Rect) (w_max h_max p q : ℕ)
    → p < w_max
    → q < h_max
    → let (ok, b) = clip a w_max h_max in
      (Within a.x a.w p × Within a.y a.h q) ↔ (
        (ok ≡ true)
        × (pos_part b.x ≤ p)
        × (p < pos_part b.x + pos_part b.w)
        × (pos_part b.y ≤ q)
        × (q < pos_part b.y + pos_part b.h))
unfolding clip
clip_points a w_max h_max p q in_w in_h = (
  λ (h, k).
      let (x_lo, x_hi, some_w) = cut-Within w_max a.x a.w p in_w h in
      let (y_lo, y_hi, some_h) = cut-Within h_max a.y a.h q in_h k in
      (together _ _ some_w some_h, x_lo, x_hi, y_lo, y_hi),
  λ (ok, x_lo, x_hi, y_lo, y_hi).
      let (some_w, some_h) = both _ _ ok in
      (Within-cut w_max a.x a.w p some_w x_lo x_hi, Within-cut h_max a.y a.h q some_h y_lo y_hi),
)

pub clip-fits :
    (a : Rect) (w_max h_max : ℕ)
    → let (ok, b) = clip a w_max h_max in
      ok ≡ true → (pos_part b.x + pos_part b.w ≤ w_max) × (pos_part b.y + pos_part b.h ≤ h_max)
unfolding clip
clip-fits a w_max h_max h =
    let (some_w, some_h) = both _ _ h in
    (cut-fits w_max a.x a.w some_w, cut-fits h_max a.y a.h some_h)

-- What is left after the cut starts and extends at numbers.
pub clip-whole :
    (a : Rect) (w_max h_max : ℕ)
    → let (ok, b) = clip a w_max h_max in
      ok ≡ true
      → (b.x ≡ pos (pos_part b.x))
        × (b.w ≡ pos (pos_part b.w))
        × (b.y ≡ pos (pos_part b.y))
        × (b.h ≡ pos (pos_part b.h))
unfolding clip
clip-whole a w_max h_max h =
    let (some_w, some_h) = both _ _ h in
    (
      cut-start w_max a.x a.w some_w,
      cut-length w_max a.x a.w some_w,
      cut-start h_max a.y a.h some_h,
      cut-length h_max a.y a.h some_h,
    )

cut-some : (max : ℕ) (x w : ℤ) → ltb_ℤ (pos 0) (cut max x w).1 ≡ true → 0 < pos_part (cut max x w).1
unfolding cut cut_low cut_high
cut-some max x w h = grind int_laws

-- The points of the area that lie in the rectangle.
pub Shared : Rect → (w_max h_max : ℕ) → ℕ → ℕ → Type 0
Shared a w_max h_max p q = (p < w_max) × (q < h_max) × Within a.x a.w p × Within a.y a.h q

-- Where `clip` answers true, the first point that it leaves is shared.
clip-first :
    (a : Rect) (w_max h_max : ℕ)
    → let (ok, b) = clip a w_max h_max in
      ok ≡ true → Shared a w_max h_max (pos_part b.x) (pos_part b.y)
unfolding clip Shared
clip-first a w_max h_max ok =
    let (some_w, some_h) = both _ _ ok in
    let wide = cut-some w_max a.x a.w some_w in
    let tall = cut-some h_max a.y a.h some_h in
    (
      omega (arith, cut-fits w_max a.x a.w some_w, wide),
      omega (arith, cut-fits h_max a.y a.h some_h, tall),
      Within-cut w_max a.x a.w _ some_w (omega arith) (omega (arith, wide)),
      Within-cut h_max a.y a.h _ some_h (omega arith) (omega (arith, tall)),
    )

-- `clip` answers true if and only if the rectangle and the area share a point; and a point is
-- shared just if `clip` answers true and the rectangle that it leaves has the point.
pub clip-Within :
    (a : Rect) (w_max h_max p q : ℕ)
    → let (ok, b) = clip a w_max h_max in
      ((ok ≡ true) ↔ ((x y : ℕ) × Shared a w_max h_max x y))
      × (Shared a w_max h_max p q ↔ (
          (ok ≡ true)
          × (pos_part b.x ≤ p)
          × (p < pos_part b.x + pos_part b.w)
          × (pos_part b.y ≤ q)
          × (q < pos_part b.y + pos_part b.h)))
unfolding Shared
clip-Within a w_max h_max p q = (
  (
    λ ok. (_, _, clip-first a w_max h_max ok),
    λ (x, y, (in_w, in_h, in_x, in_y)).
        ((clip_points a w_max h_max x y in_w in_h).0 (in_x, in_y)).0,
  ),
  (
    λ (in_w, in_h, in_x, in_y). (clip_points a w_max h_max p q in_w in_h).0 (in_x, in_y),
    λ (ok, x_lo, x_hi, y_lo, y_hi).
        let (wide, tall) = clip-fits a w_max h_max ok in
        let in_w : p < w_max = omega (arith, wide, x_hi) in
        let in_h : q < h_max = omega (arith, tall, y_hi) in
        let (in_x, in_y) =
          (clip_points a w_max h_max p q in_w in_h).1 (ok, x_lo, x_hi, y_lo, y_hi) in
        (in_w, in_h, in_x, in_y),
  ),
)
