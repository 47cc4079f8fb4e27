-- ===== src/Gfx/Cursor/Commands.antt =====
-- kernel/gfx.c: any sequence of its operations, with a cursor and without one.
use native.Mathlib.Decide.{ℕ_discrete}
use beeros.Prelude.{
  ℕ, ◌+◌, ◌*◌, ◌≤◌, ◌<◌, ◌≡◌, ◌≢◌, refl, sym, ap, ◌∙◌, Bool, false, some, List, [], ◌∷◌,
}
use beeros.Prelude.Int.{ℤ, pos}
use beeros.Gfx.Surface.{Target, Gfx, gfx_cursor, gfx_surface_new, gfx_surface_free}
use beeros.Gfx.Draw.{
  u32_mod, gfx_set_pixel, gfx_fill_rect_on, gfx_blit_bits_on, gfx_copy_rect_on, gfx_own,
  gfx_present, gfx_fill_owned, gfx_blit_pixels_on, gfx_blit_surface,
}
use beeros.Gfx.Cursor.Covers.{Covers, under-hidden}
use beeros.Gfx.Cursor.Moves.{gfx_cursor-Covers, gfx_cursor-hidden}
use beeros.Gfx.Cursor.Strokes.{
  gfx_fill_rect_on-Covers, gfx_blit_pixels_on-Covers, gfx_blit_bits_on-Covers,
}
use beeros.Gfx.Cursor.Screen.{
  gfx_set_pixel-Covers, gfx_own-Covers, gfx_fill_owned-Covers, gfx_present-Covers,
}
use beeros.Gfx.Cursor.Slots.{gfx_surface_new-Covers, gfx_surface_free-Covers}
use beeros.Gfx.Cursor.Copies.{gfx_blit_surface-Covers}
use beeros.Gfx.Cursor.Rows.{gfx_copy_rect_on-Covers}

-- A call of an operation of gfx.c.
pub data Command : Type 0 where
  set_pixel : (x y color : ℕ) → Command
  fill_rect : (id x y w h : ℤ) → (color : ℕ) → Command
  blit_bits : (id x y : ℤ) → (bits : ℕ → ℕ) → (w h stride scale fg : ℕ) → (bg : ℤ) → Command
  copy_rect : (id : ℤ) → (sx sy w h dx dy : ℕ) → Command
  blit_pixels : (id x y : ℤ) → (source : ℤ → ℕ) → (w h stride key : ℤ) → Command
  blit_surface : (src sx sy w h dst dx dy scale : ℤ) → Command
  own : (id x y w h : ℤ) → Command
  present : (id sx sy w h dx dy : ℤ) → Command
  fill_owned : (id x y w h : ℤ) → (color : ℕ) → Command
  surface_new : (granted : Bool) → (w h : ℕ) → Command
  surface_free : (id : ℤ) → Command
  cursor : (x y : ℤ) → (show : Bool) → Command

pub call : Command → Gfx → Gfx
call (set_pixel x y color) g = gfx_set_pixel x y color g
call (fill_rect id x y w h color) g = gfx_fill_rect_on id x y w h color g
call (blit_bits id x y bits w h stride scale fg bg) g =
    gfx_blit_bits_on id x y bits w h stride scale fg bg g
call (copy_rect id sx sy w h dx dy) g = gfx_copy_rect_on id sx sy w h dx dy g
call (blit_pixels id x y source w h stride key) g =
    gfx_blit_pixels_on id x y source w h stride key g
call (blit_surface src sx sy w h dst dx dy scale) g =
    gfx_blit_surface src sx sy w h dst dx dy scale g
call (own id x y w h) g = gfx_own id x y w h g
call (present id sx sy w h dx dy) g = gfx_present id sx sy w h dx dy g
call (fill_owned id x y w h color) g = gfx_fill_owned id x y w h color g
call (surface_new granted w h) g = (gfx_surface_new granted w h g).1
call (surface_free id) g = gfx_surface_free id g
call (cursor x y show) g = gfx_cursor x y show g

-- A machine that has no cursor.
pub call_bare : Command → Gfx → Gfx
call_bare (cursor x y show) g = g
call_bare (set_pixel x y color) g = call (set_pixel x y color) g
call_bare (fill_rect id x y w h color) g = call (fill_rect id x y w h color) g
call_bare (blit_bits id x y bits w h stride scale fg bg) g =
    call (blit_bits id x y bits w h stride scale fg bg) g
call_bare (copy_rect id sx sy w h dx dy) g = call (copy_rect id sx sy w h dx dy) g
call_bare (blit_pixels id x y source w h stride key) g =
    call (blit_pixels id x y source w h stride key) g
call_bare (blit_surface src sx sy w h dst dx dy scale) g =
    call (blit_surface src sx sy w h dst dx dy scale) g
call_bare (own id x y w h) g = call (own id x y w h) g
call_bare (present id sx sy w h dx dy) g = call (present id sx sy w h dx dy) g
call_bare (fill_owned id x y w h color) g = call (fill_owned id x y w h color) g
call_bare (surface_new granted w h) g = call (surface_new granted w h) g
call_bare (surface_free id) g = call (surface_free id) g

pub run : (Command → Gfx → Gfx) → List Command → Gfx → Gfx
run step [] g = g
run step (x ∷ xs) g = run step xs (step x g)

-- No sum of a copy wraps at 2^32, and no picture is taken of the screen itself, where the cursor
-- would be on it.
unfoldable pub Plain : Command → Type 0
Plain (copy_rect id sx sy w h dx dy) =
    (sx + w < u32_mod) × (dx + w < u32_mod) × (sy + h < u32_mod) × (dy + h < u32_mod)
Plain (blit_surface src sx sy w h dst dx dy scale) = src ≢ pos 0
Plain (set_pixel x y color) = Unit
Plain (fill_rect id x y w h color) = Unit
Plain (blit_bits id x y bits w h stride scale fg bg) = Unit
Plain (blit_pixels id x y source w h stride key) = Unit
Plain (own id x y w h) = Unit
Plain (present id sx sy w h dx dy) = Unit
Plain (fill_owned id x y w h color) = Unit
Plain (surface_new granted w h) = Unit
Plain (surface_free id) = Unit
Plain (cursor x y show) = Unit

unfoldable pub AllPlain : List Command → Type 0
AllPlain [] = Unit
AllPlain (x ∷ xs) = Plain x × AllPlain xs

call-Covers : (x : Command) {g b : Gfx} → Plain x → Covers g b → Covers (call x g) (call_bare x b)
unfolding call call_bare Plain
call-Covers (set_pixel x y color) p c = gfx_set_pixel-Covers c x y color
call-Covers (fill_rect id x y w h color) p c = gfx_fill_rect_on-Covers c id x y w h color
call-Covers (blit_bits id x y bits w h stride scale fg bg) p c =
    gfx_blit_bits_on-Covers c id x y bits w h stride scale fg bg
call-Covers (copy_rect id sx sy w h dx dy) (x_in, x_in', y_in, y_in') c =
    gfx_copy_rect_on-Covers c id sx sy w h dx dy x_in x_in' y_in y_in'
call-Covers (blit_pixels id x y source w h stride key) p c =
    gfx_blit_pixels_on-Covers c id x y source w h stride key
call-Covers (blit_surface src sx sy w h dst dx dy scale) p c =
    gfx_blit_surface-Covers c sx sy w h dx dy scale src dst p
call-Covers (own id x y w h) p c = gfx_own-Covers c id x y w h
call-Covers (present id sx sy w h dx dy) p c = gfx_present-Covers c id sx sy w h dx dy
call-Covers (fill_owned id x y w h color) p c = gfx_fill_owned-Covers c id x y w h color
call-Covers (surface_new granted w h) p c = gfx_surface_new-Covers c granted w h
call-Covers (surface_free id) p c = gfx_surface_free-Covers c id
call-Covers (cursor x y show) p c = gfx_cursor-Covers c x y show

run-Covers :
    (xs : List Command) {g b : Gfx}
    → AllPlain xs
    → Covers g b
    → Covers (run call xs g) (run call_bare xs b)
unfolding run AllPlain
run-Covers [] p c = c
run-Covers (x ∷ xs) (p, ps) c = run-Covers xs ps (call-Covers x p c)

-- Without its cursor, a screen with the cursor hidden is as it stands.
start-Covers :
    (g : Gfx) (t : Target)
    → g.surfaces 0 ≡ some t
    → g.cursor.is_shown ≡ false
    → t.h * t.w ≤ u32_mod
    → Covers g g
start-Covers g t e off small = record {
  t = t;
  screen = e;
  bare =
      e ∙ ap (λ px. some (record t { pixels = px })) (sym (under-hidden t g.cursor t.pixels off));
  others = λ j other. refl;
  owner = refl;
  hidden = off;
  small = small;
}

-- The surfaces and the owner map of two states are the same.
pub SameView : Gfx → Gfx → Type 0
SameView g b = ((i : ℕ) → g.surfaces i ≡ b.surfaces i) × (g.owner ≡ b.owner)

Covers-SameView : {g b : Gfx} → Covers g b → g.cursor.is_shown ≡ false → SameView g b
unfolding SameView
Covers-SameView {g} {b} c off = (
  λ i. elim (ℕ_discrete i 0) [
    | no other ↦ sym (c.others i other)
    | yes here ↦
        ap g.surfaces here
        ∙ c.screen
        ∙ ap (λ px. some (record c.t { pixels = px }))
            (sym (under-hidden c.t g.cursor c.t.pixels off))
        ∙ sym c.bare
        ∙ ap b.surfaces (sym here)
  ],
  sym c.owner,
)

-- From a screen whose indices have 32 bits and whose cursor is hidden, let any operations of gfx.c
-- follow each other, the cursor shown, moved and drawn over in between; no sum of a copy wraps, and
-- the screen is not copied to a surface. Once the cursor is hidden again, every surface and the
-- owner map are what the same calls leave where the cursor is never shown.
pub cursor-SameView :
    (g : Gfx) (t : Target) (xs : List Command) (x y : ℤ)
    → g.surfaces 0 ≡ some t
    → g.cursor.is_shown ≡ false
    → t.h * t.w ≤ u32_mod
    → AllPlain xs
    → SameView (gfx_cursor x y false (run call xs g)) (run call_bare xs g)
cursor-SameView g t xs x y e off small plain =
    let c : Covers (run call xs g) (run call_bare xs g) =
      run-Covers xs plain (start-Covers g t e off small) in
    Covers-SameView (gfx_cursor-Covers c x y false) (gfx_cursor-hidden _ c.t x y c.screen)
