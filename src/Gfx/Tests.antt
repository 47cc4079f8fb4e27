-- ===== src/Gfx/Tests.antt =====
-- A small screen with one surface, and instances of the theorems about kernel/gfx.c.
use beeros.Prelude.{
  ℕ, zero, suc, ◌+◌, ◌-◌, ◌*◌, ◌/◌, ◌%◌, ◌≤◌, ◌<◌, ◌≡◌, refl, true, false, Option, none, some, List,
  [], ◌∷◌, ◌==◌, if◌then◌else◌, arith, ◌↔◌,
}
use beeros.Prelude.Int.{pos, negsuc, pos_part, ◌+ℤ◌, ◌-ℤ◌, ◌*ℤ◌}
use beeros.Gfx.Clip.{clip, Shared, clip-Within}
use beeros.Gfx.Surface.{Target, Gfx, gfx_cursor}
use beeros.Gfx.Draw.{rect, gfx_fill_rect_on, gfx_own, gfx_owner_at, gfx_present}
use beeros.Gfx.Region.{is_inside}
use beeros.Gfx.Pixels.{pixel, is_quiet, gfx_fill_rect_on-pixel}
use beeros.Gfx.Owner.{gfx_owner_at-own, gfx_present-unowned}
use beeros.Gfx.Natives.{bitmap_outside, pixels_outside}
use beeros.Gfx.Cursor.Commands.{
  Command, fill_rect, cursor, copy_rect, blit_surface, call, call_bare, run, AllPlain, Plain,
  SameView, cursor-SameView,
}
use beeros.Gfx.Buffers.{bitmap_outside-reads}

abbrev screen : Target
screen = record { pixels = λ i. i; w = 8; h = 6 }

abbrev window : Target
window = record { pixels = λ i. 100 + i; w = 4; h = 4 }

abbrev surfaces : ℕ → Option Target
surfaces zero = some screen
surfaces (suc zero) = some window
surfaces _ = none

-- The left half of the screen belongs to the desktop, the right half to surface 1.
abbrev map : ℕ → ℕ
map i = if i % 8 == 5 then 1 else 0

abbrev desk : Gfx
desk = record {
  surfaces = surfaces;
  owner = some map;
  cursor = record { x = pos 0; y = pos 0; is_shown = false; saved = λ i. 0 };
}

quiet : is_quiet 0 desk ≡ true
unfolding is_quiet
quiet = refl

clip-Within_example :
    let a = rect (negsuc 1) (pos 4) (pos 5) (pos 9) in
    let (ok, b) = clip a 8 6 in
    ((ok ≡ true) ↔ ((x y : ℕ) × Shared a 8 6 x y))
    × (Shared a 8 6 2 5 ↔ (
        (ok ≡ true)
        × (pos_part b.x ≤ 2)
        × (2 < pos_part b.x + pos_part b.w)
        × (pos_part b.y ≤ 5)
        × (5 < pos_part b.y + pos_part b.h)))
clip-Within_example = clip-Within (rect (negsuc 1) (pos 4) (pos 5) (pos 9)) 8 6 2 5

gfx_fill_rect_on-pixel_example :
    pixel 0 2 5 (gfx_fill_rect_on (pos 0) (negsuc 1) (pos 4) (pos 5) (pos 9) 77 desk)
    ≡ some (if is_inside (rect (negsuc 1) (pos 4) (pos 5) (pos 9)) 2 5 then 77 else 5 * 8 + 2)
gfx_fill_rect_on-pixel_example =
    gfx_fill_rect_on-pixel 0 screen desk refl (negsuc 1) (pos 4) (pos 5) (pos 9) 77 2 5
      (omega arith) quiet (omega arith) (omega arith)

gfx_owner_at-own_example :
    gfx_owner_at (pos 6) (pos 3) (gfx_own (pos 1) (pos 4) (pos 2) (pos 3) (pos 3) desk) ≡ (
      if is_inside (rect (pos 4) (pos 2) (pos 3) (pos 3)) 6 3
      then pos 1
      else gfx_owner_at (pos 6) (pos 3) desk)
gfx_owner_at-own_example =
    gfx_owner_at-own desk map refl 6 3 (omega arith) (omega arith) 1 (pos 4) (pos 2) (pos 3) (pos 3)
      (omega arith)

gfx_present-unowned_example :
    pixel 0 4 3 (gfx_present (pos 1) (pos 0) (pos 0) (pos 4) (pos 4) (pos 3) (pos 2) desk)
    ≡ some (3 * 8 + 4)
gfx_present-unowned_example =
    gfx_present-unowned desk map refl screen refl quiet 4 3 (omega arith) (omega arith) 1 (pos 0)
      (pos 0) (pos 4) (pos 4) (pos 3) (pos 2) (λ e. ground (e, arith))

bitmap_inside : bitmap_outside (pos 10) 3 2 16 ≡ false
unfolding bitmap_outside
bitmap_inside = refl

pixels_inside : pixels_outside (pos 8) (pos 3) (pos 2) (pos 16) 36 ≡ false
unfolding pixels_outside ◌+ℤ◌ ◌-ℤ◌ ◌*ℤ◌
pixels_inside = refl

bitmap_outside-reads_example :
    (bitmap_outside (pos 10) 3 2 16 ≡ false) × (16 ≤ 10 + ((3 - 1) * 2 + (17 - 1) / 8))
bitmap_outside-reads_example =
    bitmap_outside-reads 10 3 2 16 17 (omega arith) refl (omega arith) (omega arith)

-- The cursor is shown, drawn under, moved, scrolled away and drawn under again.
abbrev session : List Command
session =
    cursor (pos 2) (pos 1) true
    ∷ fill_rect (pos 0) (negsuc 1) (pos 4) (pos 5) (pos 9) 77
    ∷ cursor (negsuc 2) (pos 3) true
    ∷ copy_rect (pos 0) 0 1 8 5 0 0
    ∷ blit_surface (pos 1) (pos 0) (pos 0) (pos 4) (pos 4) (pos 0) (pos 3) (pos 2) (pos 2)
    ∷ []

session-AllPlain : AllPlain session
unfolding AllPlain Plain
session-AllPlain = (
  tt,
  (
    tt,
    (tt, ((omega arith, omega arith, omega arith, omega arith), ((λ e. ground (e, arith)), tt))),
  ),
)

cursor-SameView_example :
    SameView (gfx_cursor (pos 0) (pos 0) false (run call session desk)) (run call_bare session desk)
cursor-SameView_example =
    cursor-SameView desk screen session (pos 0) (pos 0) refl refl (omega arith) session-AllPlain
