-- ===== src/Gfx/Cursor/Moves.antt =====
-- kernel/gfx.c: each way to draw on a screen with the cursor, against a screen without one.
use mathlib.Core.Path.{subst, subst₂}
use native.Mathlib.Decide.{ℕ_discrete}
use beeros.Prelude.{
  ℕ, ◌≡◌, ◌≢◌, refl, sym, ap, ◌∙◌, Bool, true, false, not, ◌&&◌, Option, none, some, ◌==◌,
  if◌then◌else◌, arith, Bool-cases, inl, inr, ◌⊎◌,
}
use beeros.Prelude.Slice.{update}
use beeros.Prelude.Int.{ℤ}
use beeros.Gfx.Clip.{Rect}
use beeros.Gfx.Surface.{
  Target, Gfx, set_pixels, cursor_hide_for, cursor_draw, cursor_restore, cursor_show_again,
  gfx_cursor,
}
use beeros.Gfx.Draw.{pixels_of, drawn}
use beeros.Gfx.Pixels.{is_quiet, drawn-quiet, set_pixels-some, pixels_of-some}
use beeros.Gfx.Cells.{update-here, update-there}
use beeros.Gfx.Cursor.Confined.{Confined}
use beeros.Gfx.Cursor.Covers.{
  Covers, Bared, cursor_restore-some, cursor_restore-Bared, Covers-Bared, Bared-Covers,
  cursor_draw-Covers,
}
use beeros.Gfx.Cursor.Written.{set_pixels-Covers, hidden-Covers}
use beeros.Gfx.Cursor.Misses.{In, misses, misses-apart}

hide_choice :
    {A : Type 0} (shown miss : Bool) (x y : A)
    → (shown ≡ true → miss ≡ true) × ((if not shown then x else if miss then x else y) ≡ x)
      ⊎ (shown ≡ true) × ((if not shown then x else if miss then x else y) ≡ y)
hide_choice true true x y = inl (λ e. refl, refl)
hide_choice true false x y = inr (refl, refl)
hide_choice false true x y = inl (λ e. refl, refl)
hide_choice false false x y = inl (λ e. e, refl)

-- The two outcomes of cursor_hide_for.
pub hide_cases :
    (a : Rect) (g : Gfx)
    → (g.cursor.is_shown ≡ true → misses a g.cursor ≡ true)
        × (cursor_hide_for a.x a.y a.w a.h g ≡ (false, g))
      ⊎ (g.cursor.is_shown ≡ true) × (cursor_hide_for a.x a.y a.w a.h g ≡ (true, cursor_restore g))
unfolding cursor_hide_for misses
hide_cases a g =
    hide_choice g.cursor.is_shown (misses a g.cursor) (false, g) (true, cursor_restore g)

-- A write after the cursor may have been hidden, and what follows it.
pub finish : ((ℕ → ℕ) → ℕ → ℕ) → Bool × Gfx → Gfx
finish f (hid, g) = cursor_show_again hid (set_pixels 0 (f (pixels_of 0 g)) g)

drawn-finish :
    (a : Rect) (f : (ℕ → ℕ) → ℕ → ℕ) (g : Gfx)
    → drawn 0 a f g ≡ finish f (cursor_hide_for a.x a.y a.w a.h g)
unfolding drawn finish
drawn-finish a f g = refl

and_false : (a : Bool) → not (a && false) ≡ true
and_false true = refl
and_false false = refl

set_pixels-none : (i : ℕ) (px : ℕ → ℕ) (g : Gfx) → g.surfaces i ≡ none → set_pixels i px g ≡ g
set_pixels-none i px g e =
    ap
      (λ o. elim o as (λ x. Gfx) [
        | none ↦ g
        | some t ↦ record g { surfaces = update g.surfaces i (some (record t { pixels = px })) }
      ])
      e

written_surface :
    (i : ℕ) (t : Target) (g : Gfx) (f : (ℕ → ℕ) → ℕ → ℕ)
    → g.surfaces i ≡ some t
    → set_pixels i (f (pixels_of i g)) g
      ≡ record g { surfaces = update g.surfaces i (some (record t { pixels = f t.pixels })) }
written_surface i t g f e =
    set_pixels-some i t g e (f (pixels_of i g))
    ∙ ap {A = ℕ → ℕ}
        (λ px. record g { surfaces = update g.surfaces i (some (record t { pixels = f px })) })
        (pixels_of-some i t g e)

-- The cursor put at (x, y), once it has been taken off.
shown_at : ℤ → ℤ → Bool → Gfx → Gfx
shown_at x y show g =
    let g' : Gfx = record g { cursor = record g.cursor { x = x; y = y; is_shown = show } } in
    if show then cursor_draw g' else g'

gfx_cursor-some :
    (g : Gfx) (t : Target)
    → g.surfaces 0 ≡ some t
    → (x y : ℤ) (show : Bool)
    → gfx_cursor x y show g ≡ shown_at x y show (if g.cursor.is_shown then cursor_restore g else g)
unfolding gfx_cursor shown_at
gfx_cursor-some g t e x y show =
    ap
      (λ o. elim o as (λ v. Gfx) [
        | none ↦ g
        | some u ↦
            let g' = if g.cursor.is_shown then cursor_restore g else g in
            let g'' : Gfx = record g' {
              cursor = record g'.cursor { x = x; y = y; is_shown = show };
            } in
            if show then cursor_draw g'' else g''
      ])
      e

moved-Bared :
    (x y : ℤ) (show : Bool) {g b : Gfx}
    → Bared g b
    → Bared (record g { cursor = record g.cursor { x = x; y = y; is_shown = show } }) b
moved-Bared x y show c = record {
  t = c.t;
  screen = c.screen;
  bare = c.bare;
  others = c.others;
  owner = c.owner;
  hidden = c.hidden;
  small = c.small;
}

shown_at-Covers : (x y : ℤ) (show : Bool) {g b : Gfx} → Bared g b → Covers (shown_at x y show g) b
unfolding shown_at
shown_at-Covers x y true c = cursor_draw-Covers (moved-Bared x y true c) refl
shown_at-Covers x y false c = Bared-Covers (moved-Bared x y false c) refl

-- A write to another surface than the screen.
other_quiet : (i : ℕ) (g : Gfx) → i ≢ 0 → is_quiet i g ≡ true
unfolding is_quiet
other_quiet i g other = let e : (i == 0) ≡ false = ground arith in rw e refl

pub gfx_cursor-hidden :
    (g : Gfx) (t : Target) (x y : ℤ)
    → g.surfaces 0 ≡ some t
    → (gfx_cursor x y false g).cursor.is_shown ≡ false
gfx_cursor-hidden g t x y e =
    ap (λ v. v.cursor.is_shown) (gfx_cursor-some g t e x y false) ∙ (unfold shown_at in refl)

module _ {g b : Gfx} (c : Covers g b) where
  pub restored-shown : g.cursor.is_shown ≡ true → (cursor_restore g).cursor.is_shown ≡ true
  restored-shown shown = ap (λ x. x.cursor.is_shown) (cursor_restore-some g c.t c.screen) ∙ shown

  -- The bare screen has no cursor to hide.
  pub bare-drawn :
      (i : ℕ) (a : Rect) (f : (ℕ → ℕ) → ℕ → ℕ) → drawn i a f b ≡ set_pixels i (f (pixels_of i b)) b
  bare-drawn i a f = drawn-quiet i a f b (unfold is_quiet in rw c.hidden (and_false (i == 0)))

  finish-kept :
      (a : Rect) (f : (ℕ → ℕ) → ℕ → ℕ)
      → Confined (In c.t.w c.t.h a) f
      → (g.cursor.is_shown ≡ true → misses a g.cursor ≡ true)
      → Covers (finish f (false, g)) (set_pixels 0 (f (pixels_of 0 b)) b)
  unfolding finish cursor_show_again
  finish-kept a f confined miss =
      set_pixels-Covers c (In c.t.w c.t.h a) f confined
        (λ shown k i lt at. misses-apart c.t g.cursor a k i (miss shown) lt at)

  finish-hidden :
      (f : (ℕ → ℕ) → ℕ → ℕ) (g' : Gfx)
      → Bared g' b
      → g'.cursor.is_shown ≡ true
      → Covers (finish f (true, g')) (set_pixels 0 (f (pixels_of 0 b)) b)
  unfolding finish cursor_show_again
  finish-hidden f g' bared shown = hidden-Covers bared shown f

  -- Drawing in a rectangle of the screen.
  pub drawn-Covers :
      (a : Rect) (f : (ℕ → ℕ) → ℕ → ℕ)
      → Confined (In c.t.w c.t.h a) f
      → Covers (drawn 0 a f g) (drawn 0 a f b)
  drawn-Covers a f confined =
      subst₂ Covers (sym (drawn-finish a f g)) (sym (bare-drawn 0 a f)) (elim (hide_cases a g) [
        | inl (miss, e) ↦
            subst (λ x. Covers (finish f x) (set_pixels 0 (f (pixels_of 0 b)) b)) (sym e)
              (finish-kept a f confined miss)
        | inr (shown, e) ↦
            subst (λ x. Covers (finish f x) (set_pixels 0 (f (pixels_of 0 b)) b)) (sym e)
              (finish-hidden f (cursor_restore g) (cursor_restore-Bared c shown)
                (restored-shown shown))
      ])

  pub replace_surface-Covers :
      (i : ℕ) (o : Option Target)
      → i ≢ 0
      → Covers
          (record g { surfaces = update g.surfaces i o })
          (record b { surfaces = update b.surfaces i o })
  replace_surface-Covers i o other = record {
    t = c.t;
    screen = update-there g.surfaces i 0 o (λ e. other (sym e)) ∙ c.screen;
    bare = update-there b.surfaces i 0 o (λ e. other (sym e)) ∙ c.bare;
    others = λ j not_0. elim (ℕ_discrete i j) [
      | yes here ↦
          ap (λ k. update b.surfaces i o k) (sym here)
          ∙ update-here b.surfaces i o
          ∙ sym (update-here g.surfaces i o)
          ∙ ap (λ k. update g.surfaces i o k) here
      | no there ↦
          update-there b.surfaces i j o (λ e. there (sym e))
          ∙ c.others j not_0
          ∙ sym (update-there g.surfaces i j o (λ e. there (sym e)))
    ];
    owner = c.owner;
    hidden = c.hidden;
    small = c.small;
  }

  set_pixels-other :
      (i : ℕ) (f : (ℕ → ℕ) → ℕ → ℕ)
      → i ≢ 0
      → (o : Option Target) → g.surfaces i ≡ o
      → Covers (set_pixels i (f (pixels_of i g)) g) (set_pixels i (f (pixels_of i b)) b)
  set_pixels-other i f other none e =
      subst₂ Covers (sym (set_pixels-none i _ g e))
        (sym (set_pixels-none i _ b (c.others i other ∙ e))) c
  set_pixels-other i f other (some t) e =
      let e' : b.surfaces i ≡ some t = c.others i other ∙ e in
      subst₂ Covers (sym (written_surface i t g f e)) (sym (written_surface i t b f e'))
        (replace_surface-Covers i (some (record t { pixels = f t.pixels })) other)

  -- Drawing on another surface.
  pub drawn-other-Covers :
      (i : ℕ) (a : Rect) (f : (ℕ → ℕ) → ℕ → ℕ) → i ≢ 0 → Covers (drawn i a f g) (drawn i a f b)
  drawn-other-Covers i a f other =
      subst₂ Covers (sym (drawn-quiet i a f g (other_quiet i g other))) (sym (bare-drawn i a f))
        (set_pixels-other i f other (g.surfaces i) refl)

  pub replace_owner-Covers :
      (o : Option (ℕ → ℕ)) → Covers (record g { owner = o }) (record b { owner = o })
  replace_owner-Covers o = record {
    t = c.t;
    screen = c.screen;
    bare = c.bare;
    others = c.others;
    owner = refl;
    hidden = c.hidden;
    small = c.small;
  }

  -- Moving, showing and hiding the cursor.
  pub gfx_cursor-Covers : (x y : ℤ) (show : Bool) → Covers (gfx_cursor x y show g) b
  gfx_cursor-Covers x y show =
      subst (λ v. Covers v b) (sym (gfx_cursor-some g c.t c.screen x y show))
        (elim (Bool-cases g.cursor.is_shown) [
          | inl shown ↦
              subst (λ v. Covers (shown_at x y show v) b)
                (sym (ap (λ s. if s then cursor_restore g else g) shown))
                (shown_at-Covers x y show (cursor_restore-Bared c shown))
          | inr off ↦
              subst (λ v. Covers (shown_at x y show v) b)
                (sym (ap (λ s. if s then cursor_restore g else g) off))
                (shown_at-Covers x y show (Covers-Bared c off))
        ])
