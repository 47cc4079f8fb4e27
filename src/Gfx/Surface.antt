-- ===== src/Gfx/Surface.antt =====
-- kernel/gfx.c: the screen, the surfaces, the owner map and the mouse cursor.
use beeros.Prelude.{
  ℕ, zero, suc, ◌+◌, ◌-◌, ◌*◌, Bool, true, false, not, ◌||◌, Option, none, some, ltb, ◌==◌,
  if◌then◌else◌,
}
use beeros.Prelude.Slice.{update}
use beeros.Prelude.Int.{ℤ, pos, negsuc, pos_part, ◌+ℤ◌, ltb_ℤ}
use beeros.Gfx.Art.{cursor_ink}
use beeros.Gfx.Paint.{repeat, put}

abbrev pub surfaces_max : ℕ
surfaces_max = 64

abbrev pub cur_w : ℕ
cur_w = 11

abbrev pub cur_h : ℕ
cur_h = 16

-- `Target`, with the pixels that its pointer leads to.
pub record Target : Type 0 where
  pub pixels : ℕ → ℕ
  pub w : ℕ
  pub h : ℕ

pub record Cursor : Type 0 where
  pub x : ℤ
  pub y : ℤ
  pub is_shown : Bool
  pub saved : ℕ → ℕ

-- The state of the module. `none` is a null pointer. `g_fb`, `g_w` and `g_h` name the pixels and the
-- size of surface 0, which `gfx_init` gives the same values.
pub record Gfx : Type 0 where
  pub surfaces : ℕ → Option Target
  pub owner : Option (ℕ → ℕ)
  pub cursor : Cursor

abbrev pub gfx_width : Gfx → ℕ
gfx_width g = elim (g.surfaces 0) [ none ↦ 0 | some t ↦ t.w ]

abbrev pub gfx_height : Gfx → ℕ
gfx_height g = elim (g.surfaces 0) [ none ↦ 0 | some t ↦ t.h ]

-- `calloc` answers whether there was room for the owner map.
unfoldable pub gfx_init : Bool → (w h : ℕ) → (framebuffer : ℕ → ℕ) → Gfx → Gfx
gfx_init granted w h framebuffer g = record g {
  surfaces = update g.surfaces 0 (some (record { pixels = framebuffer; w = w; h = h }));
  owner = if granted then some (λ i. 0) else none;
}

-- The stores of a drawing function into surface `i`.
abbrev pub set_pixels : ℕ → (ℕ → ℕ) → Gfx → Gfx
set_pixels i px g = elim (g.surfaces i) [
  | none ↦ g
  | some t ↦ record g { surfaces = update g.surfaces i (some (record t { pixels = px })) }
]

-- The index of the screen pixel under cell (r, c), if that is on the screen.
unfoldable pub cursor_cell : Target → Cursor → ℕ → ℕ → Option ℕ
cursor_cell t cur r c =
    let x = cur.x +ℤ pos c in
    let y = cur.y +ℤ pos r in
    if ltb_ℤ x (pos 0) || (ltb_ℤ y (pos 0) || (not (ltb_ℤ x (pos t.w)) || not (ltb_ℤ y (pos t.h))))
    then none
    else some (pos_part y * t.w + pos_part x)

-- The body of the loops of `cursor_draw`, on the pixels and the saved ones.
unfoldable pub draw_cell : Target → Cursor → ℕ → ℕ → (ℕ → ℕ) × (ℕ → ℕ) → (ℕ → ℕ) × (ℕ → ℕ)
draw_cell t cur r c (px, saved) = elim (cursor_cell t cur r c) [
  | none ↦ (px, saved)
  | some i ↦ (put (cursor_ink r c) i px, update saved (r * cur_w + c) (px i))
]

unfoldable pub cursor_drawn : Target → Cursor → (ℕ → ℕ) × (ℕ → ℕ) → (ℕ → ℕ) × (ℕ → ℕ)
cursor_drawn t cur s = repeat 0 cur_h (λ r. repeat 0 cur_w (draw_cell t cur r)) s

unfoldable pub cursor_draw : Gfx → Gfx
cursor_draw g = elim (g.surfaces 0) [
  | none ↦ g
  | some t ↦
      let (px, saved) = cursor_drawn t g.cursor (t.pixels, g.cursor.saved) in
      record (set_pixels 0 px g) { cursor = record g.cursor { saved = saved } }
]

unfoldable pub restore_cell : Target → Cursor → ℕ → ℕ → (ℕ → ℕ) → ℕ → ℕ
restore_cell t cur r c px = elim (cursor_cell t cur r c) [
  | none ↦ px
  | some i ↦ update px i (cur.saved (r * cur_w + c))
]

unfoldable pub cursor_restored : Target → Cursor → (ℕ → ℕ) → ℕ → ℕ
cursor_restored t cur px = repeat 0 cur_h (λ r. repeat 0 cur_w (restore_cell t cur r)) px

unfoldable pub cursor_restore : Gfx → Gfx
cursor_restore g = elim (g.surfaces 0) [
  | none ↦ g
  | some t ↦ set_pixels 0 (cursor_restored t g.cursor t.pixels) g
]

abbrev pub leb_ℤ : ℤ → ℤ → Bool
leb_ℤ a b = not (ltb_ℤ b a)

unfoldable pub cursor_hide_for : (x y w h : ℤ) → Gfx → Bool × Gfx
cursor_hide_for x y w h g =
    let cur = g.cursor in
    if not cur.is_shown
    then (false, g)
    else if leb_ℤ (cur.x +ℤ pos cur_w) x
        || (leb_ℤ (cur.y +ℤ pos cur_h) y || (leb_ℤ (x +ℤ w) cur.x || leb_ℤ (y +ℤ h) cur.y))
    then (false, g)
    else (true, cursor_restore g)

unfoldable pub cursor_show_again : Bool → Gfx → Gfx
cursor_show_again hid g = if hid then cursor_draw g else g

unfoldable pub gfx_cursor : (x y : ℤ) → Bool → Gfx → Gfx
gfx_cursor x y show g = elim (g.surfaces 0) [
  | none ↦ g
  | some t ↦
      let g' = if g.cursor.is_shown then cursor_restore g else g in
      let g'' = record g' { cursor = record g'.cursor { x = x; y = y; is_shown = show } } in
      if show then cursor_draw g'' else g''
]

-- `target`: the index and the surface.
unfoldable pub target : ℤ → Gfx → Option (ℕ × Target)
target (negsuc i) g = none
target (pos i) g =
    if not (ltb i surfaces_max)
    then none
    else elim (g.surfaces i) [ none ↦ none | some t ↦ some (i, t) ]

-- The loop of `gfx_surface_new` over the slots from `i` on, with `calloc`'s answer.
unfoldable pub surface_slot : Bool → ℕ → ℕ → ℕ → ℕ → Gfx → ℤ × Gfx
surface_slot granted w h i zero g = (negsuc 0, g)
surface_slot granted w h i (suc left) g =
    let rest = surface_slot granted w h (i + 1) left g in
    elim (g.surfaces i) [
      | some t ↦ rest
      | none ↦
          if granted
          then (
            pos i,
            record g {
              surfaces = update g.surfaces i (some (record { pixels = λ q. 0; w = w; h = h }));
            },
          )
          else (negsuc 0, g)
    ]

unfoldable pub gfx_surface_new : Bool → ℕ → ℕ → Gfx → ℤ × Gfx
gfx_surface_new granted w h g =
    if w == 0 || h == 0 then (negsuc 0, g) else surface_slot granted w h 1 (surfaces_max - 1) g

-- The owner map without `id`.
unfoldable pub disowned : ℕ → ℕ → (ℕ → ℕ) → ℕ → ℕ
disowned id n owner = repeat 0 n (λ i o. if o i == id then update o i 0 else o) owner

-- The state without surface `i`, whose points go back to the desktop.
abbrev pub without : ℕ → Gfx → Gfx
without i g = record g {
  surfaces = update g.surfaces i none;
  owner = elim g.owner [ none ↦ none | some o ↦ some (disowned i (gfx_width g * gfx_height g) o) ];
}

abbrev pub freed : ℕ → Gfx → Gfx
freed i g = elim (g.surfaces i) [ none ↦ g | some t ↦ without i g ]

unfoldable pub gfx_surface_free : ℤ → Gfx → Gfx
gfx_surface_free (negsuc i) g = g
gfx_surface_free (pos i) g = if i == 0 || not (ltb i surfaces_max) then g else freed i g
