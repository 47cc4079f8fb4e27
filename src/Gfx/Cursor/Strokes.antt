-- ===== src/Gfx/Cursor/Strokes.antt =====
-- kernel/gfx.c: the drawing functions on a screen with the cursor.
use mathlib.Core.Path.{subst, subst₂}
use native.Mathlib.Decide.{ℕ_discrete}
use beeros.Prelude.{
  ℕ, ◌*◌, ◌<◌, ◌≡◌, ◌≢◌, refl, sym, ap, ◌∙◌, Bool, true, false, not, Option, none, some, ◌==◌,
  if◌then◌else◌, arith, Bool-cases, inl, inr, ltb,
}
use beeros.Prelude.Int.{ℤ, pos, negsuc}
use beeros.Gfx.Clip.{Rect, clip}
use beeros.Gfx.Surface.{Target, Gfx, target, surfaces_max}
use beeros.Gfx.Draw.{
  drawn, rect, paint_rect, gfx_fill_rect_on, gfx_blit_pixels_on, gfx_blit_bits_on, blit_bits_loops,
}
use beeros.Gfx.Pixels.{target-surface}
use beeros.Gfx.Cursor.Confined.{Confined}
use beeros.Gfx.Cursor.Covers.{Covers, under}
use beeros.Gfx.Cursor.Misses.{In}
use beeros.Gfx.Cursor.Moves.{drawn-Covers, drawn-other-Covers}
use beeros.Gfx.Cursor.Loops.{clipped-Confined, not-false, blit_bits-Confined}

-- A drawing function that works on the surface of an id, if there is one.
abbrev pub on_target : ℤ → (ℕ → Target → Gfx → Gfx) → Gfx → Gfx
on_target id body g = elim (target id g) [ none ↦ g | some (i, t) ↦ body i t g ]

on_target-none :
    (id : ℤ) (body : ℕ → Target → Gfx → Gfx) (g : Gfx)
    → target id g ≡ none
    → on_target id body g ≡ g
on_target-none id body g e =
    ap (λ o. elim o as (λ v. Gfx) [ none ↦ g | some (i, t) ↦ body i t g ]) e

on_target-some :
    (id : ℤ) (i : ℕ) (t : Target) (body : ℕ → Target → Gfx → Gfx) (g : Gfx)
    → target id g ≡ some (i, t)
    → on_target id body g ≡ body i t g
on_target-some id i t body g e =
    ap (λ o. elim o as (λ v. Gfx) [ none ↦ g | some (i, t) ↦ body i t g ]) e

target-large : (i : ℕ) (g : Gfx) → ltb i surfaces_max ≡ false → target (pos i) g ≡ none
unfolding target
target-large i g e = rw e refl

target-none : (i : ℕ) (g : Gfx) → g.surfaces i ≡ none → target (pos i) g ≡ none
unfolding target
target-none i g e = elim (Bool-cases (ltb i surfaces_max)) [
  | inl small ↦ rw (small, e) refl
  | inr large ↦ rw large refl
]

pub if-Covers :
    (s : Bool) {g g' b b' : Gfx}
    → (s ≡ true → Covers g b)
    → (s ≡ false → Covers g' b')
    → Covers (if s then g else g') (if s then b else b')
if-Covers true yes_s no_s = yes_s refl
if-Covers false yes_s no_s = no_s refl

pub unless-Covers :
    (ok : Bool) {g g' b b' : Gfx}
    → Covers g b
    → (ok ≡ true → Covers g' b')
    → Covers (if not ok then g else g') (if not ok then b else b')
unless-Covers true skip go = go refl
unless-Covers false skip go = skip

module _ {g b : Gfx} (c : Covers g b) where
  abbrev pub bare_t : Target
  bare_t = record c.t { pixels = under c.t g.cursor c.t.pixels }

  at_other :
      (i : ℕ) (body : ℕ → Target → Gfx → Gfx)
      → i < surfaces_max
      → i ≢ 0
      → (o : Option Target) → g.surfaces i ≡ o
      → ((u : Target) → i ≢ 0 → g.surfaces i ≡ some u → Covers (body i u g) (body i u b))
      → Covers (on_target (pos i) body g) (on_target (pos i) body b)
  at_other i body small other none e h =
      subst₂ Covers (sym (on_target-none (pos i) body g (target-none i g e)))
        (sym (on_target-none (pos i) body b (target-none i b (c.others i other ∙ e)))) c
  at_other i body small other (some u) e h =
      subst₂ Covers (sym (on_target-some (pos i) i u body g (target-surface i u g small e)))
        (sym
          (on_target-some (pos i) i u body b (target-surface i u b small (c.others i other ∙ e))))
        (h u other e)

  pub on_target-Covers :
      (id : ℤ) (body : ℕ → Target → Gfx → Gfx)
      → (id ≡ pos 0 → Covers (body 0 c.t g) (body 0 bare_t b))
      → ((i : ℕ) (u : Target) → i ≢ 0 → g.surfaces i ≡ some u → Covers (body i u g) (body i u b))
      → Covers (on_target id body g) (on_target id body b)
  on_target-Covers (negsuc n) body on_screen on_other =
      subst₂ Covers (sym (on_target-none (negsuc n) body g (unfold target in refl)))
        (sym (on_target-none (negsuc n) body b (unfold target in refl))) c
  on_target-Covers (pos i) body on_screen on_other = elim (Bool-cases (ltb i surfaces_max)) [
    | inr large ↦
        subst₂ Covers (sym (on_target-none (pos i) body g (target-large i g large)))
          (sym (on_target-none (pos i) body b (target-large i b large))) c
    | inl small ↦ elim (ℕ_discrete i 0) [
      | no other ↦ at_other i body (ground arith) other (g.surfaces i) refl (on_other i)
      | yes here ↦
          subst (λ k. Covers (on_target (pos k) body g) (on_target (pos k) body b)) (sym here)
            (subst₂ Covers
              (sym (
                on_target-some (pos 0) 0 c.t body g
                  (target-surface 0 c.t g (omega arith) c.screen)))
              (sym (
                on_target-some (pos 0) 0 bare_t body b
                  (target-surface 0 bare_t b (omega arith) c.bare)))
              (on_screen (ap pos here)))
    ]
  ]

  module _ (id : ℤ) (skip : ℕ → ℕ → Bool) (a : ℕ → ℕ → Rect) (f : ℕ → ℕ → (ℕ → ℕ) → ℕ → ℕ) where
    -- Drawing with a function that reads the size of the surface only.
    pub stroke : Gfx → Gfx
    stroke = on_target id λ i t s. if skip t.w t.h then s else drawn i (a t.w t.h) (f t.w t.h) s

    pub stroke-Covers :
        (skip c.t.w c.t.h ≡ false → Confined (In c.t.w c.t.h (a c.t.w c.t.h)) (f c.t.w c.t.h))
        → Covers (stroke g) (stroke b)
    unfolding stroke
    stroke-Covers confined =
        on_target-Covers id (λ i t s. if skip t.w t.h then s else drawn i (a t.w t.h) (f t.w t.h) s)
          (λ at.
            if-Covers (skip c.t.w c.t.h) (λ e. c)
              (λ e. drawn-Covers c (a c.t.w c.t.h) (f c.t.w c.t.h) (confined e)))
          (λ i u other at.
            if-Covers (skip u.w u.h) (λ e. c)
              (λ e. drawn-other-Covers c i (a u.w u.h) (f u.w u.h) other))

  module _ (id x y : ℤ) where
    pub gfx_fill_rect_on-Covers :
        (w h : ℤ) (color : ℕ)
        → Covers (gfx_fill_rect_on id x y w h color g) (gfx_fill_rect_on id x y w h color b)
    unfolding gfx_fill_rect_on stroke
    gfx_fill_rect_on-Covers w h color =
        let a = rect x y w h in
        stroke-Covers id (λ t_w t_h. not (clip a t_w t_h).0) (λ t_w t_h. (clip a t_w t_h).1)
          (λ t_w t_h. paint_rect t_w (clip a t_w t_h).1 (λ r c. some color))
          (λ kept. clipped-Confined a c.t.w c.t.h _ (not-false _ kept))

    pub gfx_blit_pixels_on-Covers :
        (source : ℤ → ℕ) (w h stride key : ℤ)
        → Covers
            (gfx_blit_pixels_on id x y source w h stride key g)
            (gfx_blit_pixels_on id x y source w h stride key b)
    unfolding gfx_blit_pixels_on stroke
    gfx_blit_pixels_on-Covers source w h stride key =
        let a = rect x y w h in
        stroke-Covers id (λ t_w t_h. not (clip a t_w t_h).0) (λ t_w t_h. (clip a t_w t_h).1) _
          (λ kept. clipped-Confined a c.t.w c.t.h _ (not-false _ kept))

    pub gfx_blit_bits_on-Covers :
        (bits : ℕ → ℕ) (w h stride scale fg : ℕ) (bg : ℤ)
        → Covers
            (gfx_blit_bits_on id x y bits w h stride scale fg bg g)
            (gfx_blit_bits_on id x y bits w h stride scale fg bg b)
    unfolding gfx_blit_bits_on blit_bits_loops stroke
    gfx_blit_bits_on-Covers bits w h stride scale fg bg =
        stroke-Covers id (λ t_w t_h. scale == 0)
          (λ t_w t_h. rect x y (pos (w * scale)) (pos (h * scale)))
          (λ t_w t_h.
            blit_bits_loops (record { pixels = λ i. 0; w = t_w; h = t_h }) x y bits w h stride scale
              fg bg)
          (λ kept. blit_bits-Confined c.t.w c.t.h x y bits w h stride scale fg bg)
