-- ===== src/Gfx/Cursor/Copies.antt =====
-- kernel/gfx.c: gfx_blit_surface onto a screen with the cursor on it.
use mathlib.Core.Path.{subst₂, ap₂}
use mathlib.Core.Bool.{false≢true}
use beeros.Prelude.{
  ℕ, ◌+◌, ◌-◌, ◌*◌, ◌<◌, ◌≡◌, ◌≢◌, refl, sym, ap, ◌∙◌, Bool, true, false, not, ◌||◌, Option, none,
  some, ◌==◌, if◌then◌else◌, arith, inl, inr,
}
use beeros.Prelude.Int.{ℤ, pos, pos_part, ◌+ℤ◌, ◌-ℤ◌, ◌*ℤ◌, ltb_ℤ, int_laws}
use beeros.Gfx.Paint.{below}
use beeros.Gfx.Clip.{Rect, clip, Within, clip-whole}
use beeros.Gfx.Surface.{Target, Gfx}
use beeros.Gfx.Draw.{drawn, rect}
use beeros.Gfx.Cursor.Confined.{
  Confined, repeat-Confined, if-Confined, update-Confined, nothing-Confined,
}
use beeros.Gfx.Cursor.Covers.{Covers}
use beeros.Gfx.Cursor.Misses.{In}
use beeros.Gfx.Cursor.Moves.{drawn-Covers, drawn-other-Covers}
use beeros.Gfx.Cursor.Strokes.{on_target, if-Covers, bare_t, on_target-Covers}
use beeros.Gfx.Surface.{set_pixels, cursor_hide_for, cursor_show_again}
use beeros.Gfx.Draw.{pixels_of, blit_line, blit_surface_loops, gfx_blit_surface}
use beeros.Gfx.Cells.{update-there}
use beeros.Gfx.Cursor.Confined.{paint_row-Confined}
use beeros.Gfx.Cursor.Covers.{cursor_restore-some}
use beeros.Gfx.Cursor.Moves.{hide_cases}
use beeros.Gfx.Cursor.Loops.{placed, not_or, not_and}

mul_pos : (m n : ℕ) → pos m *ℤ pos n ≡ pos (m * n)
unfolding ◌*ℤ◌
mul_pos m n = ground arith

mul_parts :
    (a s : ℤ) → a ≡ pos (pos_part a) → s ≡ pos (pos_part s) → a *ℤ s ≡ pos (pos_part a * pos_part s)
mul_parts a s h k = ap₂ ◌*ℤ◌ h k ∙ mul_pos (pos_part a) (pos_part s)

-- The columns that a line of scale 1 copies.
row_placed :
    (dx : ℤ) (w max k : ℕ)
    → let c0 = pos_part (if ltb_ℤ dx (pos 0) then pos 0 -ℤ dx else pos 0) in
      let c1 = if ltb_ℤ (pos max) (dx +ℤ pos w) then pos max -ℤ dx else pos w in
      ltb_ℤ (pos c0) c1 ≡ true
      → k < pos_part c1 - c0
      → (pos_part (dx +ℤ pos c0) + k < max) × Within dx (pos w) (pos_part (dx +ℤ pos c0) + k)
unfolding Within
row_placed dx w max k h lt = (grind int_laws, (grind int_laws, grind int_laws))

module _ (d : Target) (dx dy : ℤ) (w h scale : ℕ) where
  abbrev pub area : Rect
  area = rect dx dy (pos (w * scale)) (pos (h * scale))

  -- A line that is on the surface and inside the picture.
  blit_line-Confined :
      (py : ℕ) (row : ℕ → ℕ)
      → py < d.h
      → Within dy (pos (h * scale)) py
      → Confined (In d.w d.h area) (blit_line d dx py w scale row)
  unfolding blit_line In
  blit_line-Confined py row q_in in_y =
      if-Confined (scale == 1) _ _
        (λ one.
          if-Confined _ _ _
            (λ some_left. paint_row-Confined _ _ _ (λ k lt.
              let (p_in, in_x) = row_placed dx w d.w k some_left lt in
              let s1 : scale ≡ 1 = ground arith in
              let w1 : w * 1 ≡ w = omega arith in
              let e : w * scale ≡ w = ap (λ n. w * n) s1 ∙ w1 in
              (_, _, p_in, q_in, rw e in_x, in_y, omega arith)))
            (λ nothing. nothing-Confined))
        (λ more. repeat-Confined 0 w _ λ c c_lo c_hi. repeat-Confined 0 scale _ λ m m_lo m_hi.
          if-Confined _ _ _
            (λ on_x.
              let (below_x, above_x) = not_and _ _ on_x in
              let (p_in, in_x) =
                placed dx (c * scale) m (w * scale) d.w
                  (let b = below c w scale (omega arith) in omega arith) below_x above_x in
              update-Confined _ _ (_, _, p_in, q_in, in_x, in_y, refl))
            (λ off. nothing-Confined))

  pub blit_surface-Confined :
      (s : Target) (a : Rect)
      → pos_part a.w ≡ w
      → pos_part a.h ≡ h
      → Confined (In d.w d.h area) (blit_surface_loops s a d dx dy scale)
  unfolding blit_surface_loops
  blit_surface-Confined s a e_w e_h = repeat-Confined 0 (pos_part a.h) _ λ r r_lo r_hi.
      repeat-Confined 0 scale _ λ k k_lo k_hi.
        if-Confined _ _ _ (λ off. nothing-Confined)
          λ on_y.
            let (below_y, above_y) = not_or _ _ on_y in
            let (q_in, in_y) =
              placed dy (r * scale) k (h * scale) d.h
                (let b = below r h scale (omega (arith, e_h)) in omega arith) below_y above_y in
            rw e_w (blit_line-Confined _ _ q_in in_y)

-- What gfx_blit_surface does once the cursor is hidden or not: it reads surface `i`, which is `s`.
abbrev blit_after : ℕ → Target → ℕ → (Target → (ℕ → ℕ) → ℕ → ℕ) → Bool × Gfx → Gfx
blit_after i s j f (hid, v) =
    let now : Target = elim (v.surfaces i) [ none ↦ s | some t ↦ t ] in
    cursor_show_again hid (set_pixels j (f now (pixels_of j v)) v)

abbrev hide_on : ℕ → Rect → Gfx → Bool × Gfx
hide_on j r v = if j == 0 then cursor_hide_for r.x r.y r.w r.h v else (false, v)

blit_after-drawn :
    (i : ℕ) (s : Target) (j : ℕ) (r : Rect) (f : Target → (ℕ → ℕ) → ℕ → ℕ) (v : Gfx)
    → (hide_on j r v).1.surfaces i ≡ some s
    → blit_after i s j f (hide_on j r v) ≡ drawn j r (f s) v
unfolding drawn
blit_after-drawn i s j r f v e =
    ap {A = Option Target}
      (λ o.
        let (hid, v') = hide_on j r v in
        let now : Target = elim o [ none ↦ s | some t ↦ t ] in
        cursor_show_again hid (set_pixels j (f now (pixels_of j v')) v'))
      e

-- Hiding the cursor leaves the other surfaces.
hide_on-surface :
    (i : ℕ) (j : ℕ) (r : Rect) (v : Gfx) (t : Target)
    → v.surfaces 0 ≡ some t
    → i ≢ 0
    → (hide_on j r v).1.surfaces i ≡ v.surfaces i
hide_on-surface i j r v t screen other = go (j == 0)
  where
    go :
        (at_screen : Bool)
        → (if at_screen then cursor_hide_for r.x r.y r.w r.h v else (false, v)).1.surfaces i
          ≡ v.surfaces i
    go false = refl
    go true = elim (hide_cases r v) [
      | inl (miss, e) ↦ ap (λ p. p.1.surfaces i) e
      | inr (shown, e) ↦
          ap (λ p. p.1.surfaces i) e
          ∙ ap (λ x. x.surfaces i) (cursor_restore-some v t screen)
          ∙ update-there v.surfaces 0 i _ other
    ]

go_facts : (a b ok : Bool) → (a || (b || not ok)) ≡ false → (b ≡ false) × (ok ≡ true)
go_facts false b ok e = not_or b ok e
go_facts true b ok e = absurd (false≢true (sym e))

-- The part of gfx_blit_surface that follows the search for the two surfaces.
blit_to : (sx sy w h dx dy scale : ℤ) → ℕ → Target → ℕ → Target → Gfx → Gfx
blit_to sx sy w h dx dy scale i s j d v =
    let (ok, a) = clip (rect sx sy w h) s.w s.h in
    let r : Rect = rect dx dy (a.w *ℤ scale) (a.h *ℤ scale) in
    if i == j || (ltb_ℤ scale (pos 1) || not ok)
    then v
    else blit_after i s j (λ now px. blit_surface_loops now a d dx dy (pos_part scale) px)
        (hide_on j r v)

module _ {g b : Gfx} (c : Covers g b) (sx sy w h dx dy scale : ℤ) where
  picture :
      (d s : Target) (same : Bool)
      → let (ok, a) = clip (rect sx sy w h) s.w s.h in
        (same || (ltb_ℤ scale (pos 1) || not ok)) ≡ false
        → Confined
            (In d.w d.h (rect dx dy (a.w *ℤ scale) (a.h *ℤ scale)))
            (blit_surface_loops s a d dx dy (pos_part scale))
  picture d s same go =
      let a : Rect = (clip (rect sx sy w h) s.w s.h).1 in
      let (large, ok) = go_facts same _ _ go in
      let (whole_x, whole_w, whole_y, whole_h) = clip-whole (rect sx sy w h) s.w s.h ok in
      let whole : scale ≡ pos (pos_part scale) = ground arith in
      subst₂
        (λ u v.
          Confined (In d.w d.h (rect dx dy u v)) (blit_surface_loops s a d dx dy (pos_part scale)))
        (sym (mul_parts a.w scale whole_w whole)) (sym (mul_parts a.h scale whole_h whole))
        (blit_surface-Confined d dx dy (pos_part a.w) (pos_part a.h) (pos_part scale) s a refl refl)

  -- From a surface that is not the screen.
  from_other :
      (i : ℕ) (s : Target) (dst : ℤ)
      → i ≢ 0
      → g.surfaces i ≡ some s
      → Covers
          (on_target dst (blit_to sx sy w h dx dy scale i s) g)
          (on_target dst (blit_to sx sy w h dx dy scale i s) b)
  unfolding blit_to blit_surface_loops blit_line
  from_other i s dst other e =
      let a : Rect = (clip (rect sx sy w h) s.w s.h).1 in
      let r : Rect = rect dx dy (a.w *ℤ scale) (a.h *ℤ scale) in
      let n : ℕ = pos_part scale in
      on_target-Covers c dst (blit_to sx sy w h dx dy scale i s)
        (λ at.
          if-Covers _ (λ e'. c)
            (λ go.
              subst₂ Covers
                (sym (
                  blit_after-drawn i s 0 r (λ now. blit_surface_loops now a c.t dx dy n) g
                    (hide_on-surface i 0 r g c.t c.screen other ∙ e)))
                (sym (
                  blit_after-drawn i s 0 r (λ now. blit_surface_loops now a c.t dx dy n) b
                    (hide_on-surface i 0 r b (bare_t c) c.bare other ∙ c.others i other ∙ e)))
                (drawn-Covers c r (blit_surface_loops s a c.t dx dy n)
                  (picture c.t s (i == 0) go))))
        (λ j u other_j at.
          if-Covers _ (λ e'. c)
            (λ go.
              subst₂ Covers
                (sym (
                  blit_after-drawn i s j r (λ now. blit_surface_loops now a u dx dy n) g
                    (hide_on-surface i j r g c.t c.screen other ∙ e)))
                (sym (
                  blit_after-drawn i s j r (λ now. blit_surface_loops now a u dx dy n) b
                    (hide_on-surface i j r b (bare_t c) c.bare other ∙ c.others i other ∙ e)))
                (drawn-other-Covers c j r (blit_surface_loops s a u dx dy n) other_j)))

  pub gfx_blit_surface-Covers :
      (src dst : ℤ)
      → src ≢ pos 0
      → Covers
          (gfx_blit_surface src sx sy w h dst dx dy scale g)
          (gfx_blit_surface src sx sy w h dst dx dy scale b)
  unfolding gfx_blit_surface blit_to
  gfx_blit_surface-Covers src dst not_screen =
      on_target-Covers c src (λ i s v. on_target dst (blit_to sx sy w h dx dy scale i s) v)
        (λ at. absurd (not_screen at)) (λ i u other at. from_other i u dst other at)
