-- ===== src/Gfx/Cursor/Misses.antt =====
-- kernel/gfx.c: the test with which cursor_hide_for lets the cursor stand.
use beeros.Prelude.{
  ℕ, suc, ◌+◌, ◌*◌, ◌/◌, ◌%◌, ◌<◌, ◌≡◌, refl, sym, ap, ◌∙◌, Bool, true, false, ◌||◌, some, arith,
  inl, inr, ◌⊎◌,
}
use beeros.Prelude.Int.{ℤ, pos, ◌+ℤ◌, ◌≤ℤ◌, int_laws}
use beeros.Gfx.Clip.{Rect, Within}
use beeros.Gfx.Surface.{cur_w, cur_h, leb_ℤ, Target, Cursor}
use beeros.Gfx.Cursor.{cell, On, cursor_cell-On, same_point}

-- The indices of the points of a rectangle, on an area of `w` by `h`.
unfoldable pub In : (w h : ℕ) → Rect → ℕ → Type 0
In w h a i = (p q : ℕ) × (p < w) × (q < h) × Within a.x a.w p × Within a.y a.h q × (i ≡ q * w + p)

-- The test of cursor_hide_for.
unfoldable pub misses : Rect → Cursor → Bool
misses a cur =
    leb_ℤ (cur.x +ℤ pos cur_w) a.x
    || (leb_ℤ (cur.y +ℤ pos cur_h) a.y || (leb_ℤ (a.x +ℤ a.w) cur.x || leb_ℤ (a.y +ℤ a.h) cur.y))

or_cases : (a b : Bool) → (a || b) ≡ true → (a ≡ true) ⊎ (b ≡ true)
or_cases true b h = inl refl
or_cases false b h = inr h

-- On one axis: the rectangle starts after the cursor, or ends before it.
starts_after :
    (at x : ℤ) (c p n : ℕ)
    → leb_ℤ (at +ℤ pos n) x ≡ true
    → c < n
    → at +ℤ pos c ≡ pos p
    → ¬ (x ≤ℤ pos p)
starts_after at x c p n h lt e lo = grind int_laws

ends_before :
    (at stop : ℤ) (c p : ℕ) → leb_ℤ stop at ≡ true → at +ℤ pos c ≡ pos p → ¬ (pos (suc p) ≤ℤ stop)
ends_before at stop c p h e hi = grind int_laws

miss_points :
    (a : Rect) (cur : Cursor) (p q r c : ℕ)
    → misses a cur ≡ true
    → r < cur_h
    → c < cur_w
    → cur.x +ℤ pos c ≡ pos p
    → cur.y +ℤ pos r ≡ pos q
    → Within a.x a.w p
    → ¬ Within a.y a.h q
unfolding misses Within
miss_points a cur p q r c h r_lt c_lt ep eq (x_lo, x_hi) (y_lo, y_hi) = elim (or_cases _ _ h) [
  | inl left ↦ starts_after cur.x a.x c p cur_w left c_lt ep x_lo
  | inr h' ↦ elim (or_cases _ _ h') [
    | inl above ↦ starts_after cur.y a.y r q cur_h above r_lt eq y_lo
    | inr h'' ↦ elim (or_cases _ _ h'') [
      | inl right ↦ ends_before cur.x (a.x +ℤ a.w) c p right ep x_hi
      | inr under ↦ ends_before cur.y (a.y +ℤ a.h) r q under eq y_hi
    ]
  ]
]

pub misses-apart :
    (t : Target) (cur : Cursor) (a : Rect) (k i : ℕ)
    → misses a cur ≡ true
    → k < cur_h * cur_w
    → cell t cur k ≡ some i
    → ¬ In t.w t.h a i
unfolding In On cell
misses-apart t cur a k i h lt at (p, q, p_in, q_in, in_x, in_y, e) =
    let (p', q', p_in', q_in', p_at, q_at, e') = cursor_cell-On t cur _ _ i at in
    let (same_p, same_q) = same_point t.w p q p' q' p_in p_in' (sym e ∙ e') in
    miss_points a cur p q (k / cur_w) (k % cur_w) h (omega arith) (omega arith)
      (p_at ∙ ap pos (sym same_p)) (q_at ∙ ap pos (sym same_q)) in_x in_y
