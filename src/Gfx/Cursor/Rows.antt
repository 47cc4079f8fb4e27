-- ===== src/Gfx/Cursor/Rows.antt =====
-- kernel/gfx.c: gfx_copy_rect_on with the cursor on the screen, which it hides for both rectangles.
use mathlib.Core.Path.{subst, subst₂}
use mathlib.Core.Bool.{false≢true}
use beeros.Prelude.{
  ℕ, ◌+◌, ◌≤◌, ◌<◌, ◌≡◌, ◌≢◌, refl, sym, ap, ◌∙◌, Bool, true, false, not, ◌||◌, ◌==◌, if◌then◌else◌,
  arith, inl, inr, ltb,
}
use beeros.Prelude.Int.{ℤ, pos}
use beeros.Gfx.Clip.{Rect}
use beeros.Gfx.Surface.{Target, Gfx}
use beeros.Gfx.Draw.{drawn, rect, u32_mod}
use beeros.Gfx.Cursor.Confined.{Confined}
use beeros.Gfx.Cursor.Covers.{Covers}
use beeros.Gfx.Cursor.Moves.{drawn-other-Covers}
use beeros.Gfx.Cursor.Strokes.{if-Covers, on_target-Covers}
use beeros.Gfx.Surface.{set_pixels, cursor_hide_for, cursor_show_again, cursor_restore}
use beeros.Gfx.Draw.{pixels_of, copy_extent, move_row, copy_rows, gfx_copy_rect_on}
use beeros.Gfx.Cursor.Covers.{
  cursor_restore-some, cursor_restore-Bared, cursor_restore_twice-Bared, Bared,
}
use beeros.Gfx.Cursor.Written.{set_pixels-Covers, hidden-Covers}
use beeros.Gfx.Cursor.Misses.{misses-apart}
use beeros.Gfx.Cursor.Moves.{hide_cases, restored-shown}
use beeros.Gfx.Cursor.Extents.{Either, extent_fits, copy_rows-Confined}

-- A write after the cursor may have been hidden for two rectangles.
finish : ((ℕ → ℕ) → ℕ → ℕ) → Bool → Bool × Gfx → Gfx
finish f hid (hid', v) = cursor_show_again (hid || hid') (set_pixels 0 (f (pixels_of 0 v)) v)

finish_both : ((ℕ → ℕ) → ℕ → ℕ) → Rect → Bool × Gfx → Gfx
finish_both f a (hid, v) = finish f hid (cursor_hide_for a.x a.y a.w a.h v)

-- The copy on the screen.
copy_on_screen : ((ℕ → ℕ) → ℕ → ℕ) → Rect → Rect → Gfx → Gfx
copy_on_screen f a a' v = finish_both f a' (cursor_hide_for a.x a.y a.w a.h v)

module _ {g b : Gfx} (c : Covers g b) (f : (ℕ → ℕ) → ℕ → ℕ) (a a' : Rect) where
  bare : Gfx
  bare = set_pixels 0 (f (pixels_of 0 b)) b

  -- The bare screen has no cursor to hide.
  hide-bare : (r : Rect) → cursor_hide_for r.x r.y r.w r.h b ≡ (false, b)
  hide-bare r = elim (hide_cases r b) [
    | inl (miss, e) ↦ e
    | inr (shown, e) ↦ absurd (false≢true (sym c.hidden ∙ shown))
  ]

  copy-bare : copy_on_screen f a a' b ≡ bare
  unfolding copy_on_screen finish_both bare
  copy-bare =
      ap (finish_both f a') (hide-bare a)
      ∙ ap (finish f false) (hide-bare a')
      ∙ (unfold finish in unfold cursor_show_again in refl)

  -- Once it has been hidden.
  hidden_finish :
      (hid hid' : Bool) (v : Gfx)
      → (hid || hid') ≡ true
      → Bared v b
      → v.cursor.is_shown ≡ true
      → Covers (finish f hid (hid', v)) bare
  unfolding finish bare
  hidden_finish hid hid' v some_hid bared shown =
      rw some_hid (unfold cursor_show_again in hidden-Covers bared shown f)

  copy_on_screen-Covers :
      Confined (Either c.t.w c.t.h a a') f
      → Covers (copy_on_screen f a a' g) (copy_on_screen f a a' b)
  unfolding copy_on_screen
  copy_on_screen-Covers confined =
      subst (λ v. Covers (copy_on_screen f a a' g) v) (sym copy-bare)
        (elim (hide_cases a g) [
          | inl (miss, e) ↦
              subst (λ p. Covers (finish_both f a' p) bare) (sym e)
                (unfold finish_both in
                  elim (hide_cases a' g) [
                    | inl (miss', e') ↦
                        subst (λ p. Covers (finish f false p) bare) (sym e')
                          (unfold finish in
                            unfold bare in
                            unfold cursor_show_again in
                            set_pixels-Covers c (Either c.t.w c.t.h a a') f confined
                              (λ shown k i lt at.
                                unfold Either in
                                λ inside. elim inside [
                                  | inl here ↦
                                      misses-apart c.t g.cursor a k i (miss shown) lt at here
                                  | inr there ↦
                                      misses-apart c.t g.cursor a' k i (miss' shown) lt at there
                                ]))
                    | inr (shown, e') ↦
                        subst (λ p. Covers (finish f false p) bare) (sym e')
                          (hidden_finish false true (cursor_restore g) refl
                            (cursor_restore-Bared c shown) (restored-shown c shown))
                  ])
          | inr (shown, e) ↦
              subst (λ p. Covers (finish_both f a' p) bare) (sym e)
                (unfold finish_both in
                  elim (hide_cases a' (cursor_restore g)) [
                    | inl (miss', e') ↦
                        subst (λ p. Covers (finish f true p) bare) (sym e')
                          (hidden_finish true false (cursor_restore g) refl
                            (cursor_restore-Bared c shown) (restored-shown c shown))
                    | inr (shown', e') ↦
                        subst (λ p. Covers (finish f true p) bare) (sym e')
                          (hidden_finish true true (cursor_restore (cursor_restore g)) refl
                            (cursor_restore_twice-Bared c shown)
                            (let r = cursor_restore-Bared c shown in
                              ap (λ x. x.cursor.is_shown)
                                (cursor_restore-some (cursor_restore g) r.t r.screen)
                              ∙ shown'))
                  ])
        ])

abbrev starts_outside : (sx sy dx dy : ℕ) → Target → Bool
starts_outside sx sy dx dy t =
    not (ltb sx t.w) || (not (ltb sy t.h) || (not (ltb dx t.w) || not (ltb dy t.h)))

-- The end of gfx_copy_rect_on, once the sizes have been cut.
copy_at : (sx sy dx dy : ℕ) → ℕ → Target → ℕ → ℕ → Gfx → Gfx
copy_at sx sy dx dy i t w h v =
    let (hid, g1) =
      if i == 0 then cursor_hide_for (pos sx) (pos sy) (pos w) (pos h) v else (false, v) in
    let (hid', g2) =
      if i == 0 then cursor_hide_for (pos dx) (pos dy) (pos w) (pos h) g1 else (false, g1) in
    cursor_show_again (hid || hid') (set_pixels i (copy_rows t sx sy w h dx dy (pixels_of i g2)) g2)

copy_at-drawn :
    (sx sy dx dy i : ℕ) (t : Target) (w h : ℕ) (v : Gfx)
    → i ≢ 0
    → copy_at sx sy dx dy i t w h v
      ≡ drawn i (rect (pos sx) (pos sy) (pos w) (pos h)) (copy_rows t sx sy w h dx dy) v
unfolding copy_at drawn
copy_at-drawn sx sy dx dy i t w h v other =
    let e : (i == 0) ≡ false = ground arith in
    rw (copy_at, drawn, e) (unfold cursor_show_again in refl)

module _ {g b : Gfx} (c : Covers g b) (id : ℤ) (sx sy w h dx dy : ℕ) where
  -- Where the sums do not wrap, what the code compares are the rectangles' ends.
  cut_fits :
      (p q size max : ℕ)
      → p < max
      → q < max
      → p + size < u32_mod
      → q + size < u32_mod
      → let size' = copy_extent (if ltb q p then p else q) size max in
        (p + size' ≤ max) × (q + size' ≤ max)
  cut_fits p q size max lt lt' no_wrap no_wrap' =
      let start : ℕ = if ltb q p then p else q in
      let fits = extent_fits start size max (ground arith) (ground arith) in
      (ground (arith, fits), ground (arith, fits))

  pub gfx_copy_rect_on-Covers :
      sx + w < u32_mod
      → dx + w < u32_mod
      → sy + h < u32_mod
      → dy + h < u32_mod
      → Covers (gfx_copy_rect_on id sx sy w h dx dy g) (gfx_copy_rect_on id sx sy w h dx dy b)
  unfolding gfx_copy_rect_on copy_at copy_rows move_row
  gfx_copy_rect_on-Covers x_fits x_fits' y_fits y_fits' =
      on_target-Covers c id
        (λ i t v.
          if starts_outside sx sy dx dy t
          then v
          else copy_at sx sy dx dy i t (copy_extent (if ltb dx sx then sx else dx) w t.w)
              (copy_extent (if ltb dy sy then sy else dy) h t.h) v)
        (λ at.
          if-Covers (starts_outside sx sy dx dy c.t) (λ e. c)
            (λ e.
              let w' = copy_extent (if ltb dx sx then sx else dx) w c.t.w in
              let h' = copy_extent (if ltb dy sy then sy else dy) h c.t.h in
              let (x_in, y_in, x_in', y_in') : (sx < c.t.w)
                  × (sy < c.t.h)
                  × (dx < c.t.w)
                  × (dy < c.t.h) =
                (ground arith, ground arith, ground arith, ground arith) in
              let (wide, wide') = cut_fits sx dx w c.t.w x_in x_in' x_fits x_fits' in
              let (tall, tall') = cut_fits sy dy h c.t.h y_in y_in' y_fits y_fits' in
              on_screen w' h' wide wide' tall tall'))
        (λ i u other at.
          if-Covers (starts_outside sx sy dx dy u) (λ e. c)
            (λ e.
              subst₂ Covers (sym (copy_at-drawn sx sy dx dy i u _ _ g other))
                (sym (copy_at-drawn sx sy dx dy i u _ _ b other))
                (drawn-other-Covers c i _ _ other)))
    where
      on_screen :
          (w' h' : ℕ)
          → sx + w' ≤ c.t.w
          → dx + w' ≤ c.t.w
          → sy + h' ≤ c.t.h
          → dy + h' ≤ c.t.h
          → Covers (copy_at sx sy dx dy 0 c.t w' h' g) (copy_at sx sy dx dy 0 c.t w' h' b)
      on_screen w' h' wide wide' tall tall' =
          unfold copy_at in
          unfold copy_on_screen in
          unfold finish_both in
          unfold finish in
          copy_on_screen-Covers c (copy_rows c.t sx sy w' h' dx dy)
            (rect (pos sx) (pos sy) (pos w') (pos h')) (rect (pos dx) (pos dy) (pos w') (pos h'))
            (copy_rows-Confined c.t sx sy w' h' dx dy c.small wide wide' tall tall')
