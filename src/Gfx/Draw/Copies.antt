-- ===== src/Gfx/Draw/Copies.antt =====
-- kernel/gfx.c: moving a rectangle within a surface, and drawing pixels and surfaces on surfaces.
use beeros.Prelude.{
  ℕ, ◌+◌, ◌-◌, ◌*◌, ◌/◌, ◌%◌, ◌^◌, false, not, ◌&&◌, ◌||◌, none, some, ltb, ◌==◌, if◌then◌else◌,
}
use beeros.Prelude.Slice.{update}
use beeros.Prelude.Int.{ℤ, pos, negsuc, pos_part, ◌+ℤ◌, ◌-ℤ◌, ◌*ℤ◌, ltb_ℤ}
use beeros.Gfx.Paint.{repeat, paint_row}
use beeros.Gfx.Clip.{Rect, clip}
use beeros.Gfx.Surface.{Target, Gfx, set_pixels, cursor_hide_for, cursor_show_again, target}
use beeros.Gfx.Draw.Fill.{u32_mod, rect, paint_rect, pixels_of, drawn}

-- The sizes that `gfx_copy_rect_on` cuts, in 32 bits: `maxx + w > t->w` wraps.
unfoldable pub copy_extent : ℕ → ℕ → ℕ → ℕ
copy_extent start size max = if ltb max ((start + size) % u32_mod) then max - start else size

-- `memmove` of one row: `w * 4` bytes, in 32 bits.
unfoldable pub move_row : Target → (sx sy w dx dy r : ℕ) → (ℕ → ℕ) → ℕ → ℕ
move_row t sx sy w dx dy r px =
    paint_row ((dy + r) * t.w % u32_mod + dx) (w * 4 % u32_mod / 4)
      (λ k. some (px ((sy + r) * t.w % u32_mod + sx + k))) px

unfoldable pub copy_rows : Target → (sx sy w h dx dy : ℕ) → (ℕ → ℕ) → ℕ → ℕ
copy_rows t sx sy w h dx dy px =
    repeat 0 h (λ i p. move_row t sx sy w dx dy (if ltb sy dy then h - 1 - i else i) p) px

unfoldable pub gfx_copy_rect_on : ℤ → (sx sy w h dx dy : ℕ) → Gfx → Gfx
gfx_copy_rect_on id sx sy w h dx dy g = elim (target id g) [
  | none ↦ g
  | some (i, t) ↦
      if not (ltb sx t.w) || (not (ltb sy t.h) || (not (ltb dx t.w) || not (ltb dy t.h)))
      then g
      else let w' = copy_extent (if ltb dx sx then sx else dx) w t.w in
        let h' = copy_extent (if ltb dy sy then sy else dy) h t.h in
        let (hid, g1) =
          if i == 0 then cursor_hide_for (pos sx) (pos sy) (pos w') (pos h') g else (false, g) in
        let (hid', g2) =
          if i == 0 then cursor_hide_for (pos dx) (pos dy) (pos w') (pos h') g1 else (false, g1) in
        cursor_show_again (hid || hid')
          (set_pixels i (copy_rows t sx sy w' h' dx dy (pixels_of i g2)) g2)
]

-- `source` is the 32-bit pixel at a byte offset from `px`.
unfoldable pub gfx_blit_pixels_on : ℤ → (x y : ℤ) → (ℤ → ℕ) → (w h stride key : ℤ) → Gfx → Gfx
gfx_blit_pixels_on id x y source w h stride key g = elim (target id g) [
  | none ↦ g
  | some (i, t) ↦
      let (ok, b) = clip (rect x y w h) t.w t.h in
      let start = (b.y -ℤ y) *ℤ stride +ℤ (b.x -ℤ x) *ℤ pos 4 in
      let pixel : ℕ → ℕ → ℕ = λ r c. source (start +ℤ pos r *ℤ stride +ℤ pos (c * 4)) in
      if not ok
      then g
      else drawn i b
          (paint_rect t.w b (λ r c. elim key [
            | negsuc k ↦ some (pixel r c)
            | pos k ↦ if pixel r c % 2 ^ 24 == k % u32_mod then none else some (pixel r c)
          ]))
          g
]

-- One line `py` of `gfx_blit_surface`, from row `row` of the source.
unfoldable pub blit_line : Target → ℤ → ℕ → ℕ → ℕ → (ℕ → ℕ) → (ℕ → ℕ) → ℕ → ℕ
blit_line d dx py w scale row px =
    if scale == 1
    then (let c0 = pos_part (if ltb_ℤ dx (pos 0) then pos 0 -ℤ dx else pos 0) in
        let c1 = if ltb_ℤ (pos d.w) (dx +ℤ pos w) then pos d.w -ℤ dx else pos w in
        if ltb_ℤ (pos c0) c1
        then paint_row (py * d.w + pos_part (dx +ℤ pos c0)) (pos_part c1 - c0)
            (λ k. some (row (c0 + k))) px
        else px)
    else repeat 0 w
        (λ c. repeat 0 scale λ m p.
          let at = dx +ℤ pos (c * scale) +ℤ pos m in
          if not (ltb_ℤ at (pos 0)) && ltb_ℤ at (pos d.w)
          then update p (py * d.w + pos_part at) (row c)
          else p)
        px

unfoldable pub blit_surface_loops : Target → Rect → Target → (dx dy : ℤ) → ℕ → (ℕ → ℕ) → ℕ → ℕ
blit_surface_loops s a d dx dy scale px =
    repeat 0 (pos_part a.h)
      (λ r. repeat 0 scale λ k p.
        let py = dy +ℤ pos (r * scale) +ℤ pos k in
        if ltb_ℤ py (pos 0) || not (ltb_ℤ py (pos d.h))
        then p
        else blit_line d dx (pos_part py) (pos_part a.w) scale
            (λ c. s.pixels ((pos_part a.y + r) * s.w + (pos_part a.x + c))) p)
      px

unfoldable pub gfx_blit_surface : ℤ → (sx sy w h : ℤ) → ℤ → (dx dy scale : ℤ) → Gfx → Gfx
gfx_blit_surface src sx sy w h dst dx dy scale g = elim (target src g) [
  | none ↦ g
  | some (i, s) ↦ elim (target dst g) [
    | none ↦ g
    | some (j, d) ↦
        let (ok, a) = clip (rect sx sy w h) s.w s.h in
        let n = pos_part scale in
        if i == j || (ltb_ℤ scale (pos 1) || not ok)
        then g
        else let b = rect dx dy (a.w *ℤ scale) (a.h *ℤ scale) in
          let (hid, g') = if j == 0 then cursor_hide_for b.x b.y b.w b.h g else (false, g) in
          let now : Target = elim (g'.surfaces i) [ none ↦ s | some t ↦ t ] in
          cursor_show_again hid
            (set_pixels j (blit_surface_loops now a d dx dy n (pixels_of j g')) g')
  ]
]

pub gfx_copy_rect : (sx sy w h dx dy : ℕ) → Gfx → Gfx
gfx_copy_rect sx sy w h dx dy g = gfx_copy_rect_on (pos 0) sx sy w h dx dy g
