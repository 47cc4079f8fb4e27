-- ===== src/Gfx/Cursor/Confined.antt =====
-- kernel/gfx.c: drawing that reads and writes the pixels of a region only.
use mathlib.Core.Path.{subst, fun_ext}
use native.Mathlib.Decide.{ℕ_discrete}
use beeros.Prelude.{
  ℕ, zero, suc, ◌+◌, ◌*◌, ◌≤◌, ◌<◌, ◌≡◌, ◌≢◌, refl, sym, ◌∙◌, Bool, true, false, Option, none, some,
  if◌then◌else◌, arith,
}
use beeros.Prelude.Slice.{update}
use beeros.Gfx.Paint.{repeat, put, paint_row, paint}
use beeros.Gfx.Surface.{Target, Cursor, cur_w, cur_h, cursor_restored}
use beeros.Gfx.Cells.{hit, picked, hit-cell, update-there}
use beeros.Gfx.Cursor.{cell, restored-picked}

unfoldable pub Agree : (ℕ → Type 0) → (ℕ → ℕ) → (ℕ → ℕ) → Type 0
Agree R px px' = (i : ℕ) → R i → px i ≡ px' i

-- What `f` leaves at an index depends on the pixel there and on the region only, and outside of
-- the region it changes nothing.
pub record Confined (R : ℕ → Type 0) (f : (ℕ → ℕ) → ℕ → ℕ) : Type 0 where
  pub reads : (px px' : ℕ → ℕ) → Agree R px px' → (i : ℕ) → px i ≡ px' i → f px i ≡ f px' i
  pub writes : (px : ℕ → ℕ) (i : ℕ) → ¬ R i → f px i ≡ px i

module _ {R : ℕ → Type 0} where
  pub nothing-Confined : Confined R (λ px. px)
  nothing-Confined = record { reads = λ px px' h i e. e; writes = λ px i out. refl }

  pub both-Confined :
      (f g : (ℕ → ℕ) → ℕ → ℕ) → Confined R f → Confined R g → Confined R (λ px. g (f px))
  unfolding Agree
  both-Confined f g a b = record {
    reads = λ px px' h i e.
        b.reads (f px) (f px') (λ j inside. a.reads px px' h j (h j inside)) i
          (a.reads px px' h i e);
    writes = λ px i out. b.writes (f px) i out ∙ a.writes px i out;
  }

  pub update-Confined : (j v : ℕ) → R j → Confined R (λ px. update px j v)
  update-Confined j v inside = record {
    reads = λ px px' h i e. ground (arith, e);
    writes = λ px i out. elim (ℕ_discrete i j) [
      | yes here ↦ absurd (out (subst R (sym here) inside))
      | no other ↦ update-there px j i v other
    ];
  }

  pub put-Confined : (o : Option ℕ) (j : ℕ) → R j → Confined R (put o j)
  put-Confined none j inside = nothing-Confined
  put-Confined (some v) j inside = update-Confined j v inside

  pub if-Confined :
      (b : Bool) (f g : (ℕ → ℕ) → ℕ → ℕ)
      → (b ≡ true → Confined R f)
      → (b ≡ false → Confined R g)
      → Confined R (λ px. if b then f px else g px)
  if-Confined true f g yes_f no_g = yes_f refl
  if-Confined false f g yes_f no_g = no_g refl

  pub option-Confined :
      (o : Option ℕ) (f : ℕ → (ℕ → ℕ) → ℕ → ℕ)
      → ((v : ℕ) → Confined R (f v))
      → Confined R (λ px. elim o [ none ↦ px | some v ↦ f v px ])
  option-Confined none f h = nothing-Confined
  option-Confined (some v) f h = h v

  pub repeat-Confined :
      (i n : ℕ) (body : ℕ → (ℕ → ℕ) → ℕ → ℕ)
      → ((k : ℕ) → i ≤ k → k < i + n → Confined R (body k))
      → Confined R (repeat i n body)
  unfolding repeat
  repeat-Confined i zero body h = nothing-Confined
  repeat-Confined i (suc n) body h =
      both-Confined (body i) (repeat (i + 1) n body) (h i (omega arith) (omega arith))
        (repeat-Confined (i + 1) n body (λ k lo hi. h k (omega arith) (omega arith)))

  pub paint_row-Confined :
      (base w : ℕ) (pick : ℕ → Option ℕ)
      → ((c : ℕ) → c < w → R (base + c))
      → Confined R (paint_row base w pick)
  unfolding paint_row
  paint_row-Confined base w pick h =
      repeat-Confined 0 w _ (λ c lo hi. put-Confined (pick c) (base + c) (h c (omega arith)))

  pub paint-Confined :
      (stride x y w h : ℕ) (pick : ℕ → ℕ → Option ℕ)
      → ((r c : ℕ) → r < h → c < w → R ((y + r) * stride + x + c))
      → Confined R (paint stride x y w h pick)
  unfolding paint
  paint-Confined stride x y w h pick inside =
      repeat-Confined 0 h _
        λ r lo hi. paint_row-Confined _ w (pick r) (λ c lt. inside r c (omega arith) lt)

module _ (t : Target) (cur : Cursor) (px : ℕ → ℕ) where
  -- Off the cursor nothing is restored.
  restored-off :
      (i : ℕ)
      → ((k : ℕ) → k < cur_h * cur_w → cell t cur k ≢ some i)
      → cursor_restored t cur px i ≡ px i
  restored-off i off = restored-picked t cur px i ∙ go (hit (cell t cur) (cur_h * cur_w) i) refl
    where
      go :
          (w : Option ℕ) → hit (cell t cur) (cur_h * cur_w) i ≡ w → picked cur.saved w (px i) ≡ px i
      go none e = unfold picked in refl
      go (some k) e =
          let (at, lt) = hit-cell (cell t cur) (cur_h * cur_w) i k e in absurd (off k lt at)

  module _ (R : ℕ → Type 0)
      (apart : (k i : ℕ) → k < cur_h * cur_w → cell t cur k ≡ some i → ¬ R i) where
    restored-Agree : Agree R (cursor_restored t cur px) px
    unfolding Agree
    restored-Agree j inside = restored-off j (λ k lt at. apart k j lt at inside)

    -- Drawing apart from the cursor commutes with restoring what the cursor covers.
    pub cursor_restored-write :
        (f : (ℕ → ℕ) → ℕ → ℕ)
        → Confined R f
        → f (cursor_restored t cur px) ≡ cursor_restored t cur (f px)
    cursor_restored-write f c =
        fun_ext
          λ i. go i (hit (cell t cur) (cur_h * cur_w) i) refl ∙ sym (restored-picked t cur (f px) i)
      where
        go :
            (i : ℕ) (w : Option ℕ)
            → hit (cell t cur) (cur_h * cur_w) i ≡ w
            → f (cursor_restored t cur px) i
              ≡ picked cur.saved (hit (cell t cur) (cur_h * cur_w) i) (f px i)
        go i none e = rw e (
            unfold picked in
            c.reads _ px restored-Agree i
              (restored-picked t cur px i ∙ rw e (unfold picked in refl)))
        go i (some k) e =
            let (at, lt) = hit-cell (cell t cur) (cur_h * cur_w) i k e in
            rw e (
              unfold picked in
              c.writes _ i (apart k i lt at)
              ∙ restored-picked t cur px i
              ∙ rw e (unfold picked in refl))
