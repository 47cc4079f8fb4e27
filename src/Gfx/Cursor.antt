-- ===== src/Gfx/Cursor.antt =====
-- kernel/gfx.c: what the loops of cursor_draw and cursor_restore do to the pixels of the screen.
pub mod Confined
pub mod Covers
pub mod Written
pub mod Misses
pub mod Moves
pub mod Loops
pub mod Strokes
pub mod Screen
pub mod Slots
pub mod Copies
pub mod Extents
pub mod Rows
pub mod Commands
use beeros.Prelude.{
  ℕ, zero, suc, ◌+◌, ◌*◌, ◌/◌, ◌%◌, ◌≤◌, ◌<◌, ◌≡◌, ◌≢◌, refl, sym, ap, ◌∙◌, Bool, true, false, not,
  ◌||◌, Option, none, some, ◌==◌, if◌then◌else◌, arith, Bool-cases, inl, inr,
}
use mathlib.Core.Path.{subst, fun_ext}
use native.Mathlib.Decide.{dec_lt}
use beeros.Prelude.Slice.{update}
use beeros.Prelude.Int.{ℤ, pos, pos_part, ◌+ℤ◌, ltb_ℤ, int_laws}
use beeros.Gfx.Art.{cursor_ink}
use beeros.Gfx.Paint.{repeat, put, or_else, put-there, below}
use beeros.Gfx.Surface.{
  Target, Cursor, cur_w, cur_h, cursor_cell, draw_cell, cursor_drawn, restore_cell, cursor_restored,
}
use beeros.Gfx.Cells.{
  hit, Distinct, picked, restore_at, draw_at, Restored, Drawn, grid-induct, none-some,
  some_injective, restore_at-Restored, draw_at-Drawn, Drawn-picked, Restored-none, Drawn-none,
  update-here, update-there,
}

-- The cells of the cursor on the screen, numbered row by row.
pub cell : Target → Cursor → ℕ → Option ℕ
cell t cur k = cursor_cell t cur (k / cur_w) (k % cur_w)

cell-number :
    (t : Target) (cur : Cursor) (r c : ℕ)
    → c < cur_w
    → cell t cur (r * cur_w + c) ≡ cursor_cell t cur r c
unfolding cell
cell-number t cur r c lt =
    let row : (r * cur_w + c) / cur_w ≡ r = omega arith in
    let column : (r * cur_w + c) % cur_w ≡ c = omega arith in rw (row, column) refl

-- The point of the screen under cell (r, c).
pub On : Target → Cursor → ℕ → ℕ → ℕ → Type 0
On t cur r c i =
    (p q : ℕ) × (p < t.w)
    × (q < t.h)
    × (cur.x +ℤ pos c ≡ pos p)
    × (cur.y +ℤ pos r ≡ pos q)
    × (i ≡ q * t.w + p)

pub cursor_cell-On :
    (t : Target) (cur : Cursor) (r c i : ℕ) → cursor_cell t cur r c ≡ some i → On t cur r c i
unfolding cursor_cell On
cursor_cell-On t cur r c i h =
    go
      (ltb_ℤ (cur.x +ℤ pos c) (pos 0)
        || (ltb_ℤ (cur.y +ℤ pos r) (pos 0)
            || (not (ltb_ℤ (cur.x +ℤ pos c) (pos t.w)) || not (ltb_ℤ (cur.y +ℤ pos r) (pos t.h)))))
      refl h
  where
    go :
        (b : Bool)
        → (ltb_ℤ (cur.x +ℤ pos c) (pos 0)
            || (ltb_ℤ (cur.y +ℤ pos r) (pos 0)
                || (not (ltb_ℤ (cur.x +ℤ pos c) (pos t.w))
                    || not (ltb_ℤ (cur.y +ℤ pos r) (pos t.h)))))
          ≡ b
        → (if b then none else some (pos_part (cur.y +ℤ pos r) * t.w + pos_part (cur.x +ℤ pos c)))
          ≡ some i
        → On t cur r c i
    go true e h' = absurd (none-some h')
    go false e h' =
        unfold On in
        (
          pos_part (cur.x +ℤ pos c),
          pos_part (cur.y +ℤ pos r),
          ground arith,
          ground arith,
          ground arith,
          ground arith,
          sym (some_injective h'),
        )

-- A point of an area is determined by its index.
pub same_point : (w p q p' q' : ℕ) → p < w → p' < w → q * w + p ≡ q' * w + p' → (p ≡ p') × (q ≡ q')
same_point w p q p' q' lt lt' e = elim (dec_lt q q') [
  | yes up ↦ let b = below q q' w up in absurd (omega arith)
  | no not_up ↦ elim (dec_lt q' q) [
    | yes down ↦ let b = below q' q w down in absurd (omega arith)
    | no not_down ↦
        let same : q ≡ q' = omega arith in
        let rows : q * w ≡ q' * w = ap (λ v. v * w) same in (omega arith, same)
  ]
]

same_offset : (a : ℤ) (c d p : ℕ) → a +ℤ pos c ≡ pos p → a +ℤ pos d ≡ pos p → c ≡ d
unfolding ◌+ℤ◌
same_offset a c d p h k = ground arith

cell-Distinct : (t : Target) (cur : Cursor) → Distinct (cell t cur)
unfolding Distinct cell On
cell-Distinct t cur j k i hj hk =
    let (p, q, p_in, q_in, p_at, q_at, e) = cursor_cell-On t cur _ _ i hj in
    let (p', q', p_in', q_in', p_at', q_at', e') = cursor_cell-On t cur _ _ i hk in
    let (same_p, same_q) = same_point t.w p q p' q' p_in p_in' (sym e ∙ e') in
    let columns : j % cur_w ≡ k % cur_w = same_offset cur.x _ _ p p_at (rw same_p p_at') in
    let rows : j / cur_w ≡ k / cur_w = same_offset cur.y _ _ q q_at (rw same_q q_at') in
    omega (arith, columns, rows)

restore_cell-at :
    (t : Target) (cur : Cursor) (r c : ℕ) (px : ℕ → ℕ)
    → c < cur_w
    → restore_cell t cur r c px
      ≡ restore_at (cell t cur (r * cur_w + c)) (cur.saved (r * cur_w + c)) px
unfolding restore_cell
restore_cell-at t cur r c px lt = rw (cell-number t cur r c lt) (go (cursor_cell t cur r c))
  where
    go :
        (o : Option ℕ)
        → Path
            (ℕ → ℕ)
            (elim o [ none ↦ px | some i ↦ update px i (cur.saved (r * cur_w + c)) ])
            (restore_at o (cur.saved (r * cur_w + c)) px)
    go none = unfold restore_at in refl
    go (some i) = unfold restore_at in refl

draw_cell-at :
    (t : Target) (cur : Cursor) (r c : ℕ) (s : (ℕ → ℕ) × (ℕ → ℕ))
    → c < cur_w
    → draw_cell t cur r c s
      ≡ draw_at (cell t cur (r * cur_w + c)) (cursor_ink r c) (r * cur_w + c) s
unfolding draw_cell
draw_cell-at t cur r c (px, saved) lt = rw (cell-number t cur r c lt) (go (cursor_cell t cur r c))
  where
    go :
        (o : Option ℕ)
        → Path
            ((ℕ → ℕ) × (ℕ → ℕ))
            (elim o [
              | none ↦ (px, saved)
              | some i ↦ (put (cursor_ink r c) i px, update saved (r * cur_w + c) (px i))
            ])
            (draw_at o (cursor_ink r c) (r * cur_w + c) (px, saved))
    go none = unfold draw_at in refl
    go (some i) = unfold draw_at in refl

picked_twice :
    (saved : ℕ → ℕ) (w : Option ℕ) (old : ℕ)
    → picked saved w (picked saved w old) ≡ picked saved w old
unfolding picked
picked_twice saved none old = refl
picked_twice saved (some k) old = refl

module _ (t : Target) (cur : Cursor) (px : ℕ → ℕ) where
  pub restored-picked :
      (i : ℕ)
      → cursor_restored t cur px i ≡ picked cur.saved (hit (cell t cur) (cur_h * cur_w) i) (px i)
  unfolding cursor_restored
  restored-picked =
      unfold Restored in
      grid-induct (Restored (cell t cur) cur.saved px) cur_h cur_w (restore_cell t cur) px
        (λ r c px' lt so.
          subst (Restored (cell t cur) cur.saved px (suc (r * cur_w + c)))
            (sym (restore_cell-at t cur r c px' lt))
            (restore_at-Restored (cell t cur) cur.saved px (r * cur_w + c) px' so))
        (Restored-none (cell t cur) cur.saved px)

  cursor_drawn-Drawn :
      (saved : ℕ → ℕ) → Drawn (cell t cur) px (cur_h * cur_w) (cursor_drawn t cur (px, saved))
  unfolding cursor_drawn
  cursor_drawn-Drawn saved =
      grid-induct (Drawn (cell t cur) px) cur_h cur_w (draw_cell t cur) (px, saved)
        (λ r c s lt so.
          subst (Drawn (cell t cur) px (suc (r * cur_w + c))) (sym (draw_cell-at t cur r c s lt)) (
            draw_at-Drawn (cell t cur) (cursor_ink r c) px (r * cur_w + c) s (cell-Distinct t cur)
              so))
        (Drawn-none (cell t cur) px saved)

  -- Restoring what has been drawn gives back what was there.
  pub restored-drawn :
      (saved : ℕ → ℕ) (i : ℕ)
      → let (px', saved') = cursor_drawn t cur (px, saved) in
        picked saved' (hit (cell t cur) (cur_h * cur_w) i) (px' i) ≡ px i
  restored-drawn saved i =
      Drawn-picked (cell t cur) px (cur_h * cur_w) _ (cursor_drawn-Drawn saved) i

module _ (t : Target) (cur : Cursor) (px : ℕ → ℕ) where
  -- Drawing the cursor and restoring what it covers leaves the screen as it was.
  pub cursor_restored-drawn :
      (saved : ℕ → ℕ)
      → let (px', saved') = cursor_drawn t cur (px, saved) in
        cursor_restored t (record cur { saved = saved' }) px' ≡ px
  unfolding cell cursor_cell
  cursor_restored-drawn saved =
      fun_ext (λ i. restored-picked t _ _ i ∙ restored-drawn t cur px saved i)

  pub cursor_restored_twice :
      cursor_restored t cur (cursor_restored t cur px) ≡ cursor_restored t cur px
  cursor_restored_twice = fun_ext (λ i.
      restored-picked t cur _ i
      ∙ ap (picked cur.saved (hit (cell t cur) (cur_h * cur_w) i)) (restored-picked t cur px i)
      ∙ picked_twice cur.saved (hit (cell t cur) (cur_h * cur_w) i) (px i)
      ∙ sym (restored-picked t cur px i))
