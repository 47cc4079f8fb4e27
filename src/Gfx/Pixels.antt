-- ===== src/Gfx/Pixels.antt =====
-- kernel/gfx.c: what the drawing functions and the owner map do to each pixel.
use beeros.Prelude.{
  ℕ, ◌+◌, ◌*◌, ◌<◌, ◌≡◌, ◌≢◌, refl, sym, ap, ◌∙◌, inl, inr, Bool, true, false, not, ◌&&◌, Option,
  none, some, ◌==◌, if◌then◌else◌, arith, Bool-cases, lt→ltb,
}
use mathlib.Core.Bool.{false≢true}
use beeros.Prelude.Slice.{update}
use beeros.Prelude.Int.{ℤ, pos}
use beeros.Gfx.Clip.{Rect, clip}
use beeros.Gfx.Surface.{
  Target, Gfx, set_pixels, target, surfaces_max, cursor_hide_for, cursor_show_again,
}
use beeros.Gfx.Draw.{rect, paint_rect, pixels_of, drawn, gfx_fill_rect_on}
use beeros.Gfx.Region.{is_inside, painted, painted-inside, painted-outside}

-- Pixel (p, q) of surface `i`.
unfoldable pub pixel : ℕ → ℕ → ℕ → Gfx → Option ℕ
pixel i p q g = elim (g.surfaces i) [ none ↦ none | some t ↦ some (t.pixels (q * t.w + p)) ]

-- A write to surface `i` does not meet the cursor.
unfoldable pub is_quiet : ℕ → Gfx → Bool
is_quiet i g = not (i == 0 && g.cursor.is_shown)

pub target-surface :
    (i : ℕ) (t : Target) (g : Gfx)
    → i < surfaces_max
    → g.surfaces i ≡ some t
    → target (pos i) g ≡ some (i, t)
unfolding target
target-surface i t g small here = rw (lt→ltb i surfaces_max small, here) refl

pub drawn-quiet :
    (i : ℕ) (b : Rect) (write : (ℕ → ℕ) → ℕ → ℕ) (g : Gfx)
    → is_quiet i g ≡ true
    → drawn i b write g ≡ set_pixels i (write (pixels_of i g)) g
unfolding drawn is_quiet
drawn-quiet i b write g quiet = go (i == 0) refl g.cursor.is_shown refl
  where
    go :
        (screen : Bool)
        → (i == 0) ≡ screen
        → (shown : Bool) → g.cursor.is_shown ≡ shown
        → drawn i b write g ≡ set_pixels i (write (pixels_of i g)) g
    go false e shown k = rw (drawn, e) (unfold cursor_show_again in refl)
    go true e true k = absurd (false≢true (sym (rw (e, k) refl) ∙ quiet))
    go true e false k =
        rw (drawn, e) (unfold cursor_hide_for in rw k (unfold cursor_show_again in refl))

update-here : {A : Type 0} (f : ℕ → A) (i : ℕ) (v : A) → update f i v i ≡ v
update-here f i v = ground arith

update-there : {A : Type 0} (f : ℕ → A) (i j : ℕ) (v : A) → j ≢ i → update f i v j ≡ f j
update-there f i j v other = ground arith

module _ (i : ℕ) (t : Target) (g : Gfx) (here : g.surfaces i ≡ some t) where
  pub set_pixels-some :
      (px : ℕ → ℕ)
      → set_pixels i px g
        ≡ record g { surfaces = update g.surfaces i (some (record t { pixels = px })) }
  set_pixels-some px =
      ap
        (λ o. elim o as (λ x. Gfx) [
          | none ↦ g
          | some u ↦ record g { surfaces = update g.surfaces i (some (record u { pixels = px })) }
        ])
        here

  pub pixels_of-some : pixels_of i g ≡ t.pixels
  pixels_of-some = ap (λ o. elim o as (λ x. ℕ → ℕ) [ none ↦ λ q. 0 | some u ↦ u.pixels ]) here

  pixel-set_pixels :
      (p q : ℕ) (px : ℕ → ℕ) → pixel i p q (set_pixels i px g) ≡ some (px (q * t.w + p))
  unfolding pixel
  pixel-set_pixels p q px =
      ap (pixel i p q) (set_pixels-some px)
      ∙ ap (λ o. elim o as (λ x. Option ℕ) [ none ↦ none | some u ↦ some (u.pixels (q * u.w + p)) ])
          (update-here g.surfaces i (some (record t { pixels = px })))

  -- A write that does not meet the cursor: each pixel of the surface afterwards.
  pixel-drawn :
      (p q : ℕ) (b : Rect) (write : (ℕ → ℕ) → ℕ → ℕ)
      → is_quiet i g ≡ true
      → pixel i p q (drawn i b write g) ≡ some (write t.pixels (q * t.w + p))
  pixel-drawn p q b write quiet =
      ap (pixel i p q) (drawn-quiet i b write g quiet)
      ∙ pixel-set_pixels p q (write (pixels_of i g))
      ∙ ap (λ px. some (write px (q * t.w + p))) pixels_of-some

  pub pixel-painted :
      (a : Rect) (pick : ℕ → ℕ → Option ℕ) (p q : ℕ)
      → is_quiet i g ≡ true
      → let (ok, b) = clip a t.w t.h in
        pixel i p q (if not ok then g else drawn i b (paint_rect t.w b pick) g)
        ≡ some (painted a t.w t.h pick t.pixels (q * t.w + p))
  unfolding painted
  pixel-painted a pick p q quiet = elim (Bool-cases (clip a t.w t.h).0) [
    | inl ok ↦ rw ok (pixel-drawn p q _ _ quiet)
    | inr none_left ↦ rw none_left (
        unfold pixel in
        ap (λ o. elim o as (λ x. Option ℕ) [ none ↦ none | some u ↦ some (u.pixels (q * u.w + p)) ])
          here)
  ]

  -- On a surface below 64, with no cursor in the way, filling a rectangle gives the colour to
  -- exactly those pixels of the surface that lie in it, wherever it reaches, and leaves the others.
  pub gfx_fill_rect_on-pixel :
      (x y w h : ℤ) (color p q : ℕ)
      → i < surfaces_max
      → is_quiet i g ≡ true
      → p < t.w
      → q < t.h
      → pixel i p q (gfx_fill_rect_on (pos i) x y w h color g)
        ≡ some (if is_inside (rect x y w h) p q then color else t.pixels (q * t.w + p))
  unfolding gfx_fill_rect_on
  gfx_fill_rect_on-pixel x y w h color p q small quiet in_w in_h =
      let a = rect x y w h in
      let fill : ℕ → ℕ → Option ℕ = λ r c. some color in
      rw (gfx_fill_rect_on, target-surface i t g small here)
        (pixel-painted a fill p q quiet
          ∙ ap some (elim (Bool-cases (is_inside a p q)) [
            | inl inside ↦
                painted-inside a t.w t.h fill t.pixels p q in_w in_h inside ∙ rw inside refl
            | inr outside ↦
                painted-outside a t.w t.h fill t.pixels p q in_w in_h outside ∙ rw outside refl
          ]))
