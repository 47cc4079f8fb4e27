-- ===== src/Gfx/Cursor/Written.antt =====
-- kernel/gfx.c: a write to the screen, with the cursor taken off or out of the way, and without one.
use mathlib.Core.Path.{subst₂}
use beeros.Prelude.{ℕ, ◌*◌, ◌<◌, ◌≡◌, ◌≢◌, sym, ap, ◌∙◌, true, some, Bool-cases, inl, inr}
use beeros.Gfx.Surface.{cur_w, cur_h, Target, Gfx, set_pixels, cursor_draw}
use beeros.Gfx.Draw.{pixels_of}
use beeros.Gfx.Pixels.{set_pixels-some, pixels_of-some}
use beeros.Gfx.Cells.{update-here, update-there}
use beeros.Gfx.Cursor.{cell}
use beeros.Gfx.Cursor.Confined.{Confined, cursor_restored-write}
use beeros.Gfx.Cursor.Covers.{
  cursor_draw-Covers, under, Covers, Bared, with_screen, under-shown, under-hidden, restored-size,
}

written-some :
    (g : Gfx) (t : Target) (f : (ℕ → ℕ) → ℕ → ℕ)
    → g.surfaces 0 ≡ some t
    → set_pixels 0 (f (pixels_of 0 g)) g ≡ with_screen g (record t { pixels = f t.pixels })
written-some g t f e =
    set_pixels-some 0 t g e (f (pixels_of 0 g))
    ∙ ap (λ px. with_screen g (record t { pixels = f px })) (pixels_of-some 0 t g e)

-- Replacing surface 0 leaves the others.
others-with :
    (g b : Gfx) (t t' : Target)
    → ((j : ℕ) → j ≢ 0 → b.surfaces j ≡ g.surfaces j)
    → (j : ℕ) → j ≢ 0
    → (with_screen b t').surfaces j ≡ (with_screen g t).surfaces j
others-with g b t t' h j other =
    update-there b.surfaces 0 j (some t') other
    ∙ h j other
    ∙ sym (update-there g.surfaces 0 j (some t) other)

module _ {g b : Gfx} where
  pub set_pixels-Bared :
      Bared g b
      → (f : (ℕ → ℕ) → ℕ → ℕ)
      → Bared (set_pixels 0 (f (pixels_of 0 g)) g) (set_pixels 0 (f (pixels_of 0 b)) b)
  set_pixels-Bared c f =
      let t' : Target = record c.t { pixels = f c.t.pixels } in
      subst₂ Bared (sym (written-some g c.t f c.screen)) (sym (written-some b c.t f c.bare))
        (record {
          t = t';
          screen = update-here g.surfaces 0 (some t');
          bare = update-here b.surfaces 0 (some t');
          others = others-with g b t' t' c.others;
          owner = c.owner;
          hidden = c.hidden;
          small = c.small;
        })

  pub set_pixels-Covers :
      (c : Covers g b) (R : ℕ → Type 0) (f : (ℕ → ℕ) → ℕ → ℕ)
      → Confined R f
      → (g.cursor.is_shown ≡ true
          → (k i : ℕ) → k < cur_h * cur_w
          → cell c.t g.cursor k ≡ some i
          → ¬ R i)
      → Covers (set_pixels 0 (f (pixels_of 0 g)) g) (set_pixels 0 (f (pixels_of 0 b)) b)
  set_pixels-Covers c R f confined apart =
      let px : ℕ → ℕ = under c.t g.cursor c.t.pixels in
      let b_t : Target = record c.t { pixels = px } in
      let t' : Target = record c.t { pixels = f c.t.pixels } in
      let same : f px ≡ under t' g.cursor (f c.t.pixels) = elim (Bool-cases g.cursor.is_shown) [
        | inl shown ↦
            ap f (under-shown c.t g.cursor c.t.pixels shown)
            ∙ cursor_restored-write c.t g.cursor c.t.pixels R (apart shown) f confined
            ∙ sym (under-shown t' g.cursor _ shown ∙ restored-size c.t g.cursor _ _)
        | inr off ↦
            ap f (under-hidden c.t g.cursor c.t.pixels off)
            ∙ sym (under-hidden t' g.cursor (f c.t.pixels) off)
      ] in
      subst₂ Covers (sym (written-some g c.t f c.screen)) (sym (written-some b b_t f c.bare))
        (record {
          t = t';
          screen = update-here g.surfaces 0 (some t');
          bare =
              update-here b.surfaces 0 (some (record c.t { pixels = f px }))
              ∙ ap (λ q. some (record c.t { pixels = q })) same;
          others = others-with g b t' (record c.t { pixels = f px }) c.others;
          owner = c.owner;
          hidden = c.hidden;
          small = c.small;
        })

  -- A write while the cursor is off, which is drawn again over it.
  pub hidden-Covers :
      Bared g b
      → g.cursor.is_shown ≡ true
      → (f : (ℕ → ℕ) → ℕ → ℕ)
      → Covers
          (cursor_draw (set_pixels 0 (f (pixels_of 0 g)) g))
          (set_pixels 0 (f (pixels_of 0 b)) b)
  hidden-Covers c shown f =
      cursor_draw-Covers (set_pixels-Bared c f)
        (ap (λ x. x.cursor.is_shown) (written-some g c.t f c.screen) ∙ shown)
