-- ===== src/Gfx/Cursor/Extents.antt =====
-- kernel/gfx.c: the rows that gfx_copy_rect_on moves, within the two rectangles it hides the cursor for.
use beeros.Prelude.{
  ℕ, zero, suc, ◌+◌, ◌-◌, ◌*◌, ◌%◌, ◌≤◌, ◌<◌, ◌≡◌, refl, ap, ◌∙◌, Option, some, if◌then◌else◌,
  arith, inl, inr, ◌⊎◌, ltb,
}
use beeros.Prelude.Int.{pos, int_laws}
use beeros.Gfx.Paint.{below}
use beeros.Gfx.Clip.{Rect, Within}
use beeros.Gfx.Surface.{Target}
use beeros.Gfx.Draw.{rect, u32_mod}
use beeros.Gfx.Cursor.Confined.{Confined, repeat-Confined}
use beeros.Gfx.Cursor.Misses.{In}
use beeros.Gfx.Paint.{repeat, put, paint_row}
use beeros.Gfx.Draw.{copy_extent, move_row, copy_rows}
use beeros.Gfx.Cursor.Confined.{Agree, paint_row-Confined}

-- The points of either rectangle.
unfoldable pub Either : (w h : ℕ) → Rect → Rect → ℕ → Type 0
Either w h a a' i = In w h a i ⊎ In w h a' i

run_congr :
    (base i n : ℕ) (pick pick' : ℕ → Option ℕ) (px : ℕ → ℕ)
    → ((k : ℕ) → i ≤ k → k < i + n → pick k ≡ pick' k)
    → repeat i n (λ c p. put (pick c) (base + c) p) px
      ≡ repeat i n (λ c p. put (pick' c) (base + c) p) px
unfolding repeat
run_congr base i zero pick pick' px h = refl
run_congr base i (suc n) pick pick' px h =
    ap (λ o. repeat (i + 1) n (λ c p. put (pick c) (base + c) p) (put o (base + i) px))
      (h i (omega arith) (omega arith))
    ∙ run_congr base (i + 1) n pick pick' _ (λ k lo hi. h k (omega arith) (omega arith))

-- A row that is read at `src` and stored at `base`.
row-Confined :
    {R : ℕ → Type 0} (base src n : ℕ)
    → ((k : ℕ) → k < n → R (base + k))
    → ((k : ℕ) → k < n → R (src + k))
    → Confined R (λ px. paint_row base n (λ k. some (px (src + k))) px)
unfolding paint_row Agree
row-Confined base src n to from = record {
  reads = λ px px' h i e.
      (paint_row-Confined base n (λ k. some (px (src + k))) to).reads px px' h i e
      ∙ ap (λ f. f i)
          (run_congr base 0 n _ _ px' (λ k lo hi. ap some (h (src + k) (from k (omega arith)))));
  writes = λ px. (paint_row-Confined base n (λ k. some (px (src + k))) to).writes px;
}

-- The sizes that are cut to the screen.
pub extent_fits :
    (start size max : ℕ)
    → start < max
    → start + size < u32_mod
    → start + copy_extent start size max ≤ max
unfolding copy_extent
extent_fits start size max lt no_wrap = ground arith

module _ (t : Target) (sx sy w h dx dy : ℕ) where
  abbrev pub from : Rect
  from = rect (pos sx) (pos sy) (pos w) (pos h)

  abbrev pub to : Rect
  to = rect (pos dx) (pos dy) (pos w) (pos h)

  -- Pixel (x + k, y + r) of a rectangle on the screen.
  row_point :
      (x y r k : ℕ)
      → t.h * t.w ≤ u32_mod
      → x + w ≤ t.w
      → y + h ≤ t.h
      → r < h
      → k < w
      → In t.w t.h (rect (pos x) (pos y) (pos w) (pos h)) ((y + r) * t.w % u32_mod + x + k)
  unfolding In Within
  row_point x y r k small fits_x fits_y r_lt k_lt =
      let b = below (y + r) t.h t.w (omega arith) in
      (
        x + k,
        y + r,
        omega arith,
        omega arith,
        (grind int_laws, grind int_laws),
        (grind int_laws, grind int_laws),
        omega arith,
      )

  pub copy_rows-Confined :
      t.h * t.w ≤ u32_mod
      → sx + w ≤ t.w
      → dx + w ≤ t.w
      → sy + h ≤ t.h
      → dy + h ≤ t.h
      → Confined (Either t.w t.h from to) (copy_rows t sx sy w h dx dy)
  unfolding copy_rows move_row Either
  copy_rows-Confined small sx_in dx_in sy_in dy_in = repeat-Confined 0 h _ λ i lo hi.
      row-Confined _ _ _
        (λ k lt. inr (row_point dx dy _ k small dx_in dy_in (turn i (omega arith)) (omega arith)))
        (λ k lt. inl (row_point sx sy _ k small sx_in sy_in (turn i (omega arith)) (omega arith)))
    where
      turn : (i : ℕ) → i < h → (if ltb sy dy then h - 1 - i else i) < h
      turn i lt = ground arith
