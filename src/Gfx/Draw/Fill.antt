-- ===== src/Gfx/Draw/Fill.antt =====
-- kernel/gfx.c: filling rectangles, and how a write to a surface puts the cursor out of its way.
use beeros.Prelude.{
  ℕ, ◌+◌, ◌*◌, ◌%◌, ◌^◌, false, not, ◌||◌, Option, none, some, ltb, ◌==◌, if◌then◌else◌,
}
use beeros.Prelude.Slice.{update}
use beeros.Prelude.Int.{ℤ, pos, pos_part}
use beeros.Gfx.Paint.{paint}
use beeros.Gfx.Clip.{Rect, clip}
use beeros.Gfx.Surface.{Gfx, set_pixels, cursor_hide_for, cursor_show_again, target}

abbrev pub u32_mod : ℕ
u32_mod = 2 ^ 32

abbrev pub rect : (x y w h : ℤ) → Rect
rect x y w h = record { x = x; y = y; w = w; h = h }

-- The loops of a drawing function over the clipped rectangle `b` of a surface `stride` wide.
abbrev pub paint_rect : ℕ → Rect → (ℕ → ℕ → Option ℕ) → (ℕ → ℕ) → ℕ → ℕ
paint_rect stride b pick px =
    paint stride (pos_part b.x) (pos_part b.y) (pos_part b.w) (pos_part b.h) pick px

-- The pixels of surface `i` now: hiding the cursor may have changed those of the screen.
abbrev pub pixels_of : ℕ → Gfx → ℕ → ℕ
pixels_of i g = elim (g.surfaces i) [ none ↦ λ q. 0 | some t ↦ t.pixels ]

-- A write to surface `i` inside rectangle `b`, with the cursor hidden meanwhile where `i` is the
-- screen.
unfoldable pub drawn : ℕ → Rect → ((ℕ → ℕ) → ℕ → ℕ) → Gfx → Gfx
drawn i b write g =
    let (hid, g') = if i == 0 then cursor_hide_for b.x b.y b.w b.h g else (false, g) in
    cursor_show_again hid (set_pixels i (write (pixels_of i g')) g')

unfoldable pub gfx_fill_rect_on : ℤ → (x y w h : ℤ) → ℕ → Gfx → Gfx
gfx_fill_rect_on id x y w h color g = elim (target id g) [
  | none ↦ g
  | some (i, t) ↦
      let (ok, b) = clip (rect x y w h) t.w t.h in
      if not ok then g else drawn i b (paint_rect t.w b (λ r c. some color)) g
]

unfoldable pub gfx_fill_rect : (x y w h : ℕ) → ℕ → Gfx → Gfx
gfx_fill_rect x y w h color g = gfx_fill_rect_on (pos 0) (pos x) (pos y) (pos w) (pos h) color g

unfoldable pub gfx_set_pixel : ℕ → ℕ → ℕ → Gfx → Gfx
gfx_set_pixel x y color g = elim (g.surfaces 0) [
  | none ↦ g
  | some t ↦
      if not (ltb x t.w) || not (ltb y t.h)
      then g
      else drawn 0 (rect (pos x) (pos y) (pos 1) (pos 1))
          (λ px. update px ((y * t.w + x) % u32_mod) color) g
]
