-- ===== src/Gfx/Draw/Owned.antt =====
-- kernel/gfx.c: the owner map, and compositing by it.
use beeros.Prelude.{ℕ, ◌+◌, ◌*◌, Bool, not, ◌||◌, Option, none, some, ltb, ◌==◌, if◌then◌else◌}
use beeros.Prelude.Int.{ℤ, pos, negsuc, pos_part, ◌+ℤ◌, ◌-ℤ◌, ltb_ℤ}
use beeros.Gfx.Clip.{Rect, clip}
use beeros.Gfx.Surface.{Target, Gfx, gfx_width, gfx_height, target, surfaces_max}
use beeros.Gfx.Draw.Fill.{rect, paint_rect, drawn}

unfoldable pub gfx_own : ℤ → (x y w h : ℤ) → Gfx → Gfx
gfx_own (negsuc id) x y w h g = g
gfx_own (pos id) x y w h g = elim g.owner [
  | none ↦ g
  | some owner ↦
      let (ok, b) = clip (rect x y w h) (gfx_width g) (gfx_height g) in
      if not (ltb id surfaces_max) || not ok
      then g
      else record g { owner = some (paint_rect (gfx_width g) b (λ r c. some id) owner) }
]

abbrev pub is_off_screen : ℤ → ℤ → Gfx → Bool
is_off_screen x y g =
    ltb_ℤ x (pos 0)
    || (ltb_ℤ y (pos 0)
        || (not (ltb_ℤ x (pos (gfx_width g))) || not (ltb_ℤ y (pos (gfx_height g)))))

-- -1 is `negsuc 0`.
unfoldable pub gfx_owner_at : ℤ → ℤ → Gfx → ℤ
gfx_owner_at x y g = elim g.owner [
  | none ↦ negsuc 0
  | some owner ↦
      if is_off_screen x y g then negsuc 0 else pos (owner (pos_part y * gfx_width g + pos_part x))
]

-- The pixels that `owner` gives to `id`, in the rectangle `b` of the screen.
abbrev pub owned : ℕ → (ℕ → ℕ) → ℕ → Rect → (ℕ → ℕ → ℕ) → ℕ → ℕ → Option ℕ
owned id owner stride b value r c =
    if owner ((pos_part b.y + r) * stride + (pos_part b.x + c)) == id
    then some (value r c)
    else none

-- The clips and loops of `gfx_present`, on a screen of `width` and `height`.
unfoldable pub present_on :
    (width height : ℕ) → ℕ → Target → (ℕ → ℕ) → (sx sy w h dx dy : ℤ) → Gfx → Gfx
present_on width height i s owner sx sy w h dx dy g =
    let (ok, a) = clip (rect sx sy w h) s.w s.h in
    let dx' = dx +ℤ (a.x -ℤ sx) in
    let dy' = dy +ℤ (a.y -ℤ sy) in
    let (ok', b) = clip (rect dx' dy' a.w a.h) width height in
    let from_x = a.x +ℤ (b.x -ℤ dx') in
    let from_y = a.y +ℤ (b.y -ℤ dy') in
    if not ok
    then g
    else if not ok'
    then g
    else drawn 0 b
        (paint_rect width b (
          owned i owner width b
            (λ r c. s.pixels ((pos_part from_y + r) * s.w + (pos_part from_x + c)))))
        g

unfoldable pub gfx_present : ℤ → (sx sy w h dx dy : ℤ) → Gfx → Gfx
gfx_present id sx sy w h dx dy g = elim (target id g) [
  | none ↦ g
  | some (i, s) ↦ elim g.owner [
    | none ↦ g
    | some owner ↦
        if i == 0 then g else present_on (gfx_width g) (gfx_height g) i s owner sx sy w h dx dy g
  ]
]

-- The loops of `gfx_fill_owned`, on a screen of `width` and `height`.
unfoldable pub fill_owned_on : (width height : ℕ) → ℕ → (ℕ → ℕ) → (x y w h : ℤ) → ℕ → Gfx → Gfx
fill_owned_on width height id owner x y w h color g =
    let (ok, b) = clip (rect x y w h) width height in
    if not ok then g else drawn 0 b (paint_rect width b (owned id owner width b (λ r c. color))) g

-- No pixel belongs to a negative id.
unfoldable pub gfx_fill_owned : ℤ → (x y w h : ℤ) → ℕ → Gfx → Gfx
gfx_fill_owned (pos id) x y w h color g = elim g.owner [
  | none ↦ g
  | some owner ↦ fill_owned_on (gfx_width g) (gfx_height g) id owner x y w h color g
]
gfx_fill_owned (negsuc id) x y w h color g = elim g.owner [
  | none ↦ g
  | some owner ↦
      let (ok, b) = clip (rect x y w h) (gfx_width g) (gfx_height g) in
      if not ok then g else drawn 0 b (λ px. px) g
]
