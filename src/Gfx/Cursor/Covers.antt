-- ===== src/Gfx/Cursor/Covers.antt =====
-- kernel/gfx.c: a screen with the cursor on it against the same screen without one.
use mathlib.Core.Path.{subst}
use beeros.Prelude.{
  ℕ, ◌*◌, ◌≤◌, ◌≡◌, ◌≢◌, refl, sym, ap, ◌∙◌, true, false, none, some, if◌then◌else◌,
}
use beeros.Prelude.Slice.{update}
use beeros.Gfx.Surface.{
  Target, Cursor, Gfx, set_pixels, cursor_cell, cursor_drawn, cursor_restored, restore_cell,
  cursor_draw, cursor_restore,
}
use beeros.Gfx.Draw.{u32_mod}
use beeros.Gfx.Pixels.{set_pixels-some}
use beeros.Gfx.Cells.{update-here, update-there}
use beeros.Gfx.Cursor.{cursor_restored-drawn, cursor_restored_twice}

-- The pixels of the screen without the cursor.
pub under : Target → Cursor → (ℕ → ℕ) → ℕ → ℕ
under t cur px = if cur.is_shown then cursor_restored t cur px else px

pub under-shown :
    (t : Target) (cur : Cursor) (px : ℕ → ℕ)
    → cur.is_shown ≡ true
    → under t cur px ≡ cursor_restored t cur px
unfolding under
under-shown t cur px e = ap (λ b. if b then cursor_restored t cur px else px) e

pub under-hidden :
    (t : Target) (cur : Cursor) (px : ℕ → ℕ) → cur.is_shown ≡ false → under t cur px ≡ px
unfolding under
under-hidden t cur px e = ap (λ b. if b then cursor_restored t cur px else px) e

-- `b` has no cursor, and is what `g` is under its cursor. The indices of the screen have 32 bits.
pub record Covers (g b : Gfx) : Type 0 where
  pub t : Target
  pub screen : g.surfaces 0 ≡ some t
  pub bare : b.surfaces 0 ≡ some (record t { pixels = under t g.cursor t.pixels })
  pub others : (j : ℕ) → j ≢ 0 → b.surfaces j ≡ g.surfaces j
  pub owner : b.owner ≡ g.owner
  pub hidden : b.cursor.is_shown ≡ false
  pub small : t.h * t.w ≤ u32_mod

-- `g` has the cursor taken off.
pub record Bared (g b : Gfx) : Type 0 where
  pub t : Target
  pub screen : g.surfaces 0 ≡ some t
  pub bare : b.surfaces 0 ≡ some t
  pub others : (j : ℕ) → j ≢ 0 → b.surfaces j ≡ g.surfaces j
  pub owner : b.owner ≡ g.owner
  pub hidden : b.cursor.is_shown ≡ false
  pub small : t.h * t.w ≤ u32_mod

-- Both with the pixels of one surface replaced.
abbrev pub with_screen : Gfx → Target → Gfx
with_screen g t = record g { surfaces = update g.surfaces 0 (some t) }

-- The size of the screen is all that the cursor's loops read of it.
pub restored-size :
    (t : Target) (cur : Cursor) (q px : ℕ → ℕ)
    → cursor_restored (record t { pixels = q }) cur px ≡ cursor_restored t cur px
unfolding cursor_restored restore_cell cursor_cell
restored-size t cur q px = refl

pub cursor_restore-some :
    (g : Gfx) (t : Target)
    → g.surfaces 0 ≡ some t
    → cursor_restore g ≡ with_screen g (record t { pixels = cursor_restored t g.cursor t.pixels })
unfolding cursor_restore
cursor_restore-some g t e =
    ap
      (λ o. elim o as (λ x. Gfx) [
        | none ↦ g
        | some u ↦ set_pixels 0 (cursor_restored u g.cursor u.pixels) g
      ])
      e
    ∙ set_pixels-some 0 t g e (cursor_restored t g.cursor t.pixels)

cursor_draw-some :
    (g : Gfx) (t : Target)
    → g.surfaces 0 ≡ some t
    → let (px, saved) = cursor_drawn t g.cursor (t.pixels, g.cursor.saved) in
      cursor_draw g ≡ record (with_screen g (record t { pixels = px })) {
        cursor = record g.cursor { saved = saved };
      }
unfolding cursor_draw
cursor_draw-some g t e =
    ap
      (λ o. elim o as (λ x. Gfx) [
        | none ↦ g
        | some u ↦
            let (px, saved) = cursor_drawn u g.cursor (u.pixels, g.cursor.saved) in
            record (set_pixels 0 px g) { cursor = record g.cursor { saved = saved } }
      ])
      e
    ∙ ap {A = Gfx}
        (λ x. record x {
          cursor = record g.cursor {
            saved = (cursor_drawn t g.cursor (t.pixels, g.cursor.saved)).1;
          };
        })
        (set_pixels-some 0 t g e (cursor_drawn t g.cursor (t.pixels, g.cursor.saved)).0)

module _ {g b : Gfx} where
  pub cursor_restore-Bared : Covers g b → g.cursor.is_shown ≡ true → Bared (cursor_restore g) b
  cursor_restore-Bared c shown =
      subst (λ x. Bared x b) (sym (cursor_restore-some g c.t c.screen))
        (record {
          t = record c.t { pixels = cursor_restored c.t g.cursor c.t.pixels };
          screen = update-here g.surfaces 0 _;
          bare =
              c.bare
              ∙ ap (λ px. some (record c.t { pixels = px }))
                  (under-shown c.t g.cursor c.t.pixels shown);
          others = λ j other. c.others j other ∙ sym (update-there g.surfaces 0 j _ other);
          owner = c.owner;
          hidden = c.hidden;
          small = c.small;
        })

  pub Covers-Bared : Covers g b → g.cursor.is_shown ≡ false → Bared g b
  Covers-Bared c off = record {
    t = c.t;
    screen = c.screen;
    bare =
        c.bare
        ∙ ap (λ px. some (record c.t { pixels = px })) (under-hidden c.t g.cursor c.t.pixels off);
    others = c.others;
    owner = c.owner;
    hidden = c.hidden;
    small = c.small;
  }

  pub Bared-Covers : Bared g b → g.cursor.is_shown ≡ false → Covers g b
  Bared-Covers c off = record {
    t = c.t;
    screen = c.screen;
    bare =
        c.bare
        ∙ ap (λ px. some (record c.t { pixels = px }))
            (sym (under-hidden c.t g.cursor c.t.pixels off));
    others = c.others;
    owner = c.owner;
    hidden = c.hidden;
    small = c.small;
  }

  pub cursor_draw-Covers : Bared g b → g.cursor.is_shown ≡ true → Covers (cursor_draw g) b
  cursor_draw-Covers c shown =
      let (px, saved) : (ℕ → ℕ) × (ℕ → ℕ) =
        cursor_drawn c.t g.cursor (c.t.pixels, g.cursor.saved) in
      let cur : Cursor = record g.cursor { saved = saved } in
      let back : under (record c.t { pixels = px }) cur px ≡ c.t.pixels =
        under-shown (record c.t { pixels = px }) cur px shown
        ∙ restored-size c.t cur px px
        ∙ cursor_restored-drawn c.t g.cursor c.t.pixels g.cursor.saved in
      subst (λ x. Covers x b) (sym (cursor_draw-some g c.t c.screen))
        (record {
          t = record c.t { pixels = px };
          screen = update-here g.surfaces 0 _;
          bare = c.bare ∙ ap (λ q. some (record c.t { pixels = q })) (sym back);
          others = λ j other. c.others j other ∙ sym (update-there g.surfaces 0 j _ other);
          owner = c.owner;
          hidden = c.hidden;
          small = c.small;
        })

  -- Hiding it once more changes nothing.
  pub cursor_restore_twice-Bared :
      Covers g b → g.cursor.is_shown ≡ true → Bared (cursor_restore (cursor_restore g)) b
  cursor_restore_twice-Bared c shown =
      let px : ℕ → ℕ = cursor_restored c.t g.cursor c.t.pixels in
      let once : Target = record c.t { pixels = px } in
      let twice : Target = record c.t { pixels = cursor_restored once g.cursor px } in
      let e : cursor_restore (cursor_restore g) ≡ with_screen (with_screen g once) twice =
        ap cursor_restore (cursor_restore-some g c.t c.screen)
        ∙ cursor_restore-some (with_screen g once) once (update-here g.surfaces 0 (some once)) in
      let same : px ≡ cursor_restored once g.cursor px =
        sym (restored-size c.t g.cursor px px ∙ cursor_restored_twice c.t g.cursor c.t.pixels) in
      subst (λ x. Bared x b) (sym e)
        (record {
          t = twice;
          screen = update-here (with_screen g once).surfaces 0 (some twice);
          bare =
              c.bare
              ∙ ap (λ q. some (record c.t { pixels = q }))
                  (under-shown c.t g.cursor c.t.pixels shown ∙ same);
          others = λ j other.
              c.others j other
              ∙ sym (
                  update-there (with_screen g once).surfaces 0 j (some twice) other
                  ∙ update-there g.surfaces 0 j (some once) other);
          owner = c.owner;
          hidden = c.hidden;
          small = c.small;
        })
