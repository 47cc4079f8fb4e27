-- ===== src/Gfx/Cursor/Screen.antt =====
-- kernel/gfx.c: the drawing functions and the owner map of the screen, with the cursor on it.
use mathlib.Core.Path.{subst₂, ap₂}
use beeros.Prelude.{
  ℕ, ◌+◌, ◌*◌, ◌%◌, ◌<◌, ◌≡◌, sym, ap, ◌∙◌, true, not, ◌||◌, Option, none, some, ◌==◌,
  if◌then◌else◌, arith, ltb,
}
use beeros.Prelude.Slice.{update}
use beeros.Prelude.Int.{ℤ, pos, negsuc, ◌+ℤ◌, ◌-ℤ◌, int_laws}
use beeros.Gfx.Paint.{below}
use beeros.Gfx.Clip.{Rect, clip, Within}
use beeros.Gfx.Surface.{Target, Gfx, surfaces_max, gfx_width, gfx_height}
use beeros.Gfx.Draw.{drawn, rect, paint_rect, u32_mod}
use beeros.Gfx.Cursor.Confined.{update-Confined, nothing-Confined}
use beeros.Gfx.Cursor.Covers.{Covers}
use beeros.Gfx.Cursor.Misses.{In}
use beeros.Gfx.Cursor.Moves.{drawn-Covers}
use beeros.Gfx.Draw.{gfx_set_pixel, gfx_own, gfx_present, gfx_fill_owned, present_on, fill_owned_on}
use beeros.Gfx.Cursor.Moves.{replace_owner-Covers}
use beeros.Gfx.Cursor.Loops.{clipped-Confined}
use beeros.Gfx.Cursor.Strokes.{if-Covers, unless-Covers, bare_t, on_target-Covers}

-- What is done with the owner map, if there is one.
abbrev on_owner : ((ℕ → ℕ) → Gfx → Gfx) → Option (ℕ → ℕ) → Gfx → Gfx
on_owner f o s = elim o [ none ↦ s | some owner ↦ f owner s ]

pub screen_width : (s : Gfx) (t : Target) → s.surfaces 0 ≡ some t → gfx_width s ≡ t.w
screen_width s t e = ap (λ o. elim o as (λ x. ℕ) [ none ↦ 0 | some t ↦ t.w ]) e

pub screen_height : (s : Gfx) (t : Target) → s.surfaces 0 ≡ some t → gfx_height s ≡ t.h
screen_height s t e = ap (λ o. elim o as (λ x. ℕ) [ none ↦ 0 | some t ↦ t.h ]) e

index_below : (p q w h : ℕ) → p < w → q < h → q * w + p < h * w
index_below p q w h lt lt' = let b = below q h w lt' in omega arith

module _ {g b : Gfx} (c : Covers g b) where
  -- What depends on the size of the screen and the owner map.
  sized-Covers :
      (body : ℕ → ℕ → Option (ℕ → ℕ) → Gfx → Gfx)
      → Covers (body c.t.w c.t.h g.owner g) (body c.t.w c.t.h g.owner b)
      → Covers
          (body (gfx_width g) (gfx_height g) g.owner g)
          (body (gfx_width b) (gfx_height b) b.owner b)
  sized-Covers body h =
      subst₂ Covers
        (sym (
          ap₂ (λ u v. body u v g.owner g) (screen_width g c.t c.screen)
            (screen_height g c.t c.screen)))
        (sym (
          ap₂ (λ u v. body u v b.owner b) (screen_width b (bare_t c) c.bare)
            (screen_height b (bare_t c) c.bare)
          ∙ ap (λ o. body c.t.w c.t.h o b) c.owner))
        h

  pub gfx_set_pixel-Covers :
      (x y color : ℕ) → Covers (gfx_set_pixel x y color g) (gfx_set_pixel x y color b)
  unfolding gfx_set_pixel In
  gfx_set_pixel-Covers x y color =
      subst₂ Covers (sym (pixel-some g c.t c.screen)) (sym (pixel-some b (bare_t c) c.bare)) (
        if-Covers (not (ltb x c.t.w) || not (ltb y c.t.h)) (λ e. c)
          (λ e. drawn-Covers c (rect (pos x) (pos y) (pos 1) (pos 1)) _ (
            update-Confined _ color (
              x,
              y,
              ground arith,
              ground arith,
              (unfold Within in grind int_laws),
              (unfold Within in grind int_laws),
              omega (arith, c.small, index_below x y c.t.w c.t.h (ground arith) (ground arith)),
            ))))
    where
      pixel-some :
          (s : Gfx) (t : Target)
          → s.surfaces 0 ≡ some t
          → gfx_set_pixel x y color s ≡ (
              if not (ltb x t.w) || not (ltb y t.h)
              then s
              else drawn 0
                  (rect (pos x) (pos y) (pos 1) (pos 1))
                  (λ px. update px ((y * t.w + x) % u32_mod) color)
                  s)
      pixel-some s t e =
          unfold gfx_set_pixel in
          ap
            (λ o. elim o as (λ v. Gfx) [
              | none ↦ s
              | some t ↦
                  if not (ltb x t.w) || not (ltb y t.h)
                  then s
                  else drawn 0 (rect (pos x) (pos y) (pos 1) (pos 1))
                      (λ px. update px ((y * t.w + x) % u32_mod) color) s
            ])
            e

  on_owner-Covers :
      (f : (ℕ → ℕ) → Gfx → Gfx)
      → ((v : ℕ → ℕ) → Covers (f v g) (f v b))
      → (o : Option (ℕ → ℕ)) → Covers (on_owner f o g) (on_owner f o b)
  on_owner-Covers f h none = c
  on_owner-Covers f h (some v) = h v

  -- A rectangle clipped to the screen and painted.
  clipped-Covers :
      (a : Rect) (pick : ℕ → ℕ → Option ℕ)
      → let (ok, r) = clip a c.t.w c.t.h in
        ok ≡ true
        → Covers (drawn 0 r (paint_rect c.t.w r pick) g) (drawn 0 r (paint_rect c.t.w r pick) b)
  clipped-Covers a pick ok = drawn-Covers c _ _ (clipped-Confined a c.t.w c.t.h pick ok)

  pub gfx_own-Covers : (id x y w h : ℤ) → Covers (gfx_own id x y w h g) (gfx_own id x y w h b)
  unfolding gfx_own
  gfx_own-Covers (negsuc id) x y w h = c
  gfx_own-Covers (pos id) x y w h =
      let set : ℕ → ℕ → (ℕ → ℕ) → Gfx → Gfx = λ t_w t_h owner s.
        let (ok, r) = clip (rect x y w h) t_w t_h in
        if not (ltb id surfaces_max) || not ok
        then s
        else record s { owner = some (paint_rect t_w r (λ r c. some id) owner) } in
      sized-Covers (λ t_w t_h o s. on_owner (set t_w t_h) o s)
        (on_owner-Covers (set c.t.w c.t.h)
          (λ owner.
            if-Covers (not (ltb id surfaces_max) || not (clip (rect x y w h) c.t.w c.t.h).0)
              (λ e. c) (λ e. replace_owner-Covers c _))
          g.owner)

  pub gfx_fill_owned-Covers :
      (id x y w h : ℤ) (color : ℕ)
      → Covers (gfx_fill_owned id x y w h color g) (gfx_fill_owned id x y w h color b)
  unfolding gfx_fill_owned fill_owned_on
  gfx_fill_owned-Covers (pos id) x y w h color =
      sized-Covers
        (λ t_w t_h o s. on_owner (λ owner s. fill_owned_on t_w t_h id owner x y w h color s) o s)
        (on_owner-Covers (λ owner s. fill_owned_on c.t.w c.t.h id owner x y w h color s)
          (λ owner.
            unless-Covers (clip (rect x y w h) c.t.w c.t.h).0 c (clipped-Covers (rect x y w h) _))
          g.owner)
  gfx_fill_owned-Covers (negsuc id) x y w h color =
      let fill : ℕ → ℕ → (ℕ → ℕ) → Gfx → Gfx = λ t_w t_h owner s.
        let (ok, r) = clip (rect x y w h) t_w t_h in if not ok then s else drawn 0 r (λ px. px) s in
      sized-Covers (λ t_w t_h o s. on_owner (fill t_w t_h) o s)
        (on_owner-Covers (fill c.t.w c.t.h)
          (λ owner.
            unless-Covers (clip (rect x y w h) c.t.w c.t.h).0 c (λ ok.
              drawn-Covers c (clip (rect x y w h) c.t.w c.t.h).1 (λ px. px) nothing-Confined))
          g.owner)

  present_on-Covers :
      (i : ℕ) (u : Target) (owner : ℕ → ℕ) (sx sy w h dx dy : ℤ)
      → Covers
          (present_on c.t.w c.t.h i u owner sx sy w h dx dy g)
          (present_on c.t.w c.t.h i u owner sx sy w h dx dy b)
  unfolding present_on
  present_on-Covers i u owner sx sy w h dx dy =
      let a : Rect = (clip (rect sx sy w h) u.w u.h).1 in
      let to : Rect = rect (dx +ℤ (a.x -ℤ sx)) (dy +ℤ (a.y -ℤ sy)) a.w a.h in
      unless-Covers (clip (rect sx sy w h) u.w u.h).0 c
        (λ ok. unless-Covers (clip to c.t.w c.t.h).0 c (clipped-Covers to _))

  pub gfx_present-Covers :
      (id sx sy w h dx dy : ℤ)
      → Covers (gfx_present id sx sy w h dx dy g) (gfx_present id sx sy w h dx dy b)
  unfolding gfx_present
  gfx_present-Covers id sx sy w h dx dy =
      let show : ℕ → Target → ℕ → ℕ → (ℕ → ℕ) → Gfx → Gfx = λ i u t_w t_h owner s.
        if i == 0 then s else present_on t_w t_h i u owner sx sy w h dx dy s in
      let shown : (i : ℕ) (u : Target)
          → Covers (on_owner (show i u (gfx_width g) (gfx_height g)) g.owner g)
              (on_owner (show i u (gfx_width b) (gfx_height b)) b.owner b) =
        λ i u.
          sized-Covers (λ t_w t_h o s. on_owner (show i u t_w t_h) o s)
            (on_owner-Covers (show i u c.t.w c.t.h)
              (λ owner.
                if-Covers (i == 0) (λ e. c) (λ e. present_on-Covers i u owner sx sy w h dx dy))
              g.owner) in
      on_target-Covers c id (λ i u s. on_owner (show i u (gfx_width s) (gfx_height s)) s.owner s)
        (λ e.
          sized-Covers (λ t_w t_h o s. on_owner (λ owner s. s) o s)
            (on_owner-Covers (λ owner s. s) (λ owner. c) g.owner))
        (λ i u other at. shown i u)
