-- ===== src/Gfx/Owner.antt =====
-- kernel/gfx.c: the owner map, and what compositing may write on the screen.
use mathlib.Core.Bool.{and-false}
use mathlib.Core.Path.{ap₂}
use beeros.Prelude.{
  ℕ, ◌+◌, ◌*◌, ◌<◌, ◌≡◌, ◌≢◌, refl, sym, ap, ◌∙◌, ◌⊎◌, inl, inr, Bool, true, false, not, ◌&&◌, ◌||◌,
  Option, none, some, ltb, ◌==◌, if◌then◌else◌, arith, Bool-cases, lt→ltb,
}
use beeros.Prelude.Int.{ℤ, pos, negsuc, pos_part, ◌+ℤ◌, ◌-ℤ◌}
use beeros.Gfx.Clip.{Rect, clip}
use beeros.Gfx.Surface.{Target, Gfx, gfx_width, gfx_height, target, surfaces_max}
use beeros.Gfx.Draw.{
  rect, paint_rect, gfx_own, gfx_owner_at, is_off_screen, gfx_present, gfx_fill_owned,
  fill_owned_on, present_on,
}
use beeros.Gfx.Region.{is_inside, painted, painted-inside, painted-outside}
use beeros.Gfx.Pixels.{pixel, is_quiet, pixel-painted}
use beeros.Gfx.Picks.{own_pick, painted-unowned, painted-owned}

on_screen :
    (p q : ℕ) (g : Gfx)
    → p < gfx_width g
    → q < gfx_height g
    → is_off_screen (pos p) (pos q) g ≡ false
on_screen p q g in_w in_h = ground arith

at_point :
    (p q : ℕ) (owner : ℕ → ℕ) (g : Gfx)
    → g.owner ≡ some owner
    → p < gfx_width g
    → q < gfx_height g
    → gfx_owner_at (pos p) (pos q) g ≡ pos (owner (q * gfx_width g + p))
unfolding gfx_owner_at
at_point p q owner g here in_w in_h =
    ap
      (λ o. elim o as (λ x. ℤ) [
        | none ↦ negsuc 0
        | some f ↦
            if is_off_screen (pos p) (pos q) g then negsuc 0 else pos (f (q * gfx_width g + p))
      ])
      here
    ∙ ap (λ off. if off then negsuc 0 else pos (owner (q * gfx_width g + p)))
        (on_screen p q g in_w in_h)

module _ (g : Gfx) (owner : ℕ → ℕ) (here : g.owner ≡ some owner) where
  owned_by : ℕ → (x y w h : ℤ) → ℕ → ℕ
  owned_by id x y w h = painted (rect x y w h) (gfx_width g) (gfx_height g) (λ r c. some id) owner

  gfx_own-owner :
      (id : ℕ) (x y w h : ℤ)
      → id < surfaces_max
      → gfx_own (pos id) x y w h g ≡ record g { owner = some (owned_by id x y w h) }
  unfolding gfx_own owned_by painted
  gfx_own-owner id x y w h small =
      ap
        (λ o. elim o as (λ x. Gfx) [
          | none ↦ g
          | some owner ↦
              let (ok, b) = clip (rect x y w h) (gfx_width g) (gfx_height g) in
              if not (ltb id surfaces_max) || not ok
              then g
              else record g { owner = some (paint_rect (gfx_width g) b (λ r c. some id) owner) }
        ])
        here
      ∙ rw (lt→ltb id surfaces_max small) (go (clip (rect x y w h) (gfx_width g) (gfx_height g)))
    where
      go :
          (c : Bool × Rect)
          → (if not c.0
              then g
              else record g { owner = some (paint_rect (gfx_width g) c.1 (λ r c. some id) owner) })
            ≡ record g {
              owner =
                  some (
                    if not c.0 then owner else paint_rect (gfx_width g) c.1 (λ r c. some id) owner);
            }
      go (true, b) = refl
      go (false, b) = λ i. record g { owner = here i }

  module _ (p q : ℕ) (in_w : p < gfx_width g) (in_h : q < gfx_height g) where
    -- Where there is an owner map: after `own!` of a rectangle for an id below 64, wherever it reaches, `owner-at` answers the new owner at exactly
    -- the screen's points in it, and at the others what it answered before.
    pub gfx_owner_at-own :
        (id : ℕ) (x y w h : ℤ)
        → id < surfaces_max
        → gfx_owner_at (pos p) (pos q) (gfx_own (pos id) x y w h g)
          ≡ (if is_inside (rect x y w h) p q then pos id else gfx_owner_at (pos p) (pos q) g)
    gfx_owner_at-own id x y w h small =
        let a = rect x y w h in
        let all : ℕ → ℕ → Option ℕ = λ r c. some id in
        ap (gfx_owner_at (pos p) (pos q)) (gfx_own-owner id x y w h small)
        ∙ at_point p q (owned_by id x y w h) (record g { owner = some (owned_by id x y w h) }) refl
            in_w in_h
        ∙ (unfold owned_by in
            elim (Bool-cases (is_inside a p q)) [
              | inl inside ↦
                  ap pos
                    (painted-inside a (gfx_width g) (gfx_height g) all owner p q in_w in_h inside)
                  ∙ rw inside refl
              | inr outside ↦
                  ap pos
                    (painted-outside a (gfx_width g) (gfx_height g) all owner p q in_w in_h outside)
                  ∙ rw outside (sym (at_point p q owner g here in_w in_h))
            ])

target-cases :
    (i : ℕ) (g : Gfx)
    → (target (pos i) g ≡ none) ⊎ ((s : Target) × (target (pos i) g ≡ some (i, s)))
unfolding target
target-cases i g = go (ltb i surfaces_max) (g.surfaces i)
  where
    go :
        (b : Bool) (o : Option Target)
        → let r : Option (ℕ × Target) =
            if not b then none else elim o [ none ↦ none | some t ↦ some (i, t) ] in
          (r ≡ none) ⊎ ((s : Target) × (r ≡ some (i, s)))
    go false o = inl refl
    go true none = inl refl
    go true (some t) = inr (t, refl)

module _ (g : Gfx) (owner : ℕ → ℕ) (here : g.owner ≡ some owner) (t : Target)
    (screen : g.surfaces 0 ≡ some t) (quiet : is_quiet 0 g ≡ true) (p q : ℕ) (in_w : p < t.w)
    (in_h : q < t.h) where
  fill_owned_on-pixel :
      (id : ℕ) (x y w h : ℤ) (color : ℕ)
      → pixel 0 p q (fill_owned_on t.w t.h id owner x y w h color g)
        ≡ some (
            if is_inside (rect x y w h) p q && (owner (q * t.w + p) == id)
            then color
            else t.pixels (q * t.w + p))
  unfolding fill_owned_on own_pick
  fill_owned_on-pixel id x y w h color =
      let a = rect x y w h in
      pixel-painted 0 t g screen a
        (own_pick id owner t.w t.h a (λ r c. color) t.pixels p q in_w in_h) p q quiet
      ∙ ap some (elim (Bool-cases (owner (q * t.w + p) == id)) [
        | inr other ↦
            painted-unowned id owner t.w t.h a (λ r c. color) t.pixels p q in_w in_h other
            ∙ rw other (
                ap (λ b. if b then color else t.pixels (q * t.w + p))
                  (sym (and-false (is_inside a p q))))
        | inl same ↦ elim (Bool-cases (is_inside a p q)) [
          | inl inside ↦
              painted-owned id owner t.w t.h a (λ r c. color) t.pixels p q in_w in_h same inside
              ∙ rw (same, inside) refl
          | inr outside ↦
              painted-outside a t.w t.h _ t.pixels p q in_w in_h outside ∙ rw outside refl
        ]
      ])

  same : pixel 0 p q g ≡ some (t.pixels (q * t.w + p))
  unfolding pixel
  same =
      ap (λ o. elim o as (λ x. Option ℕ) [ none ↦ none | some u ↦ some (u.pixels (q * u.w + p)) ])
        screen

  present_on-unowned :
      (i : ℕ) (s : Target) (sx sy w h dx dy : ℤ)
      → owner (q * t.w + p) ≢ i
      → pixel 0 p q (present_on t.w t.h i s owner sx sy w h dx dy g) ≡ some (t.pixels (q * t.w + p))
  unfolding present_on own_pick
  present_on-unowned i s sx sy w h dx dy other =
      elim (Bool-cases (clip (rect sx sy w h) s.w s.h).0) [
        | inr nothing ↦ rw (present_on, nothing) same
        | inl ok ↦
            let a : Rect = (clip (rect sx sy w h) s.w s.h).1 in
            let dx' : ℤ = dx +ℤ (a.x -ℤ sx) in
            let dy' : ℤ = dy +ℤ (a.y -ℤ sy) in
            let c : Rect = rect dx' dy' a.w a.h in
            let b : Rect = (clip c t.w t.h).1 in
            let value : ℕ → ℕ → ℕ = λ r k.
              s.pixels (
                (pos_part (a.y +ℤ (b.y -ℤ dy')) + r) * s.w
                + (pos_part (a.x +ℤ (b.x -ℤ dx')) + k)) in
            let apart : (owner (q * t.w + p) == i) ≡ false = ground arith in
            rw (present_on, ok)
              (pixel-painted 0 t g screen c
                  (own_pick i owner t.w t.h c value t.pixels p q in_w in_h) p q quiet
                ∙ ap some (painted-unowned i owner t.w t.h c value t.pixels p q in_w in_h apart))
      ]

  width : gfx_width g ≡ t.w
  width = ap (λ o. elim o as (λ x. ℕ) [ none ↦ 0 | some u ↦ u.w ]) screen

  height : gfx_height g ≡ t.h
  height = ap (λ o. elim o as (λ x. ℕ) [ none ↦ 0 | some u ↦ u.h ]) screen

  -- With the cursor out of the way, `fill-owned!` gives the colour to exactly those pixels of the
  -- screen that lie in the rectangle and belong to the owner.
  pub gfx_fill_owned-pixel :
      (id : ℕ) (x y w h : ℤ) (color : ℕ)
      → pixel 0 p q (gfx_fill_owned (pos id) x y w h color g)
        ≡ some (
            if is_inside (rect x y w h) p q && (owner (q * t.w + p) == id)
            then color
            else t.pixels (q * t.w + p))
  unfolding gfx_fill_owned
  gfx_fill_owned-pixel id x y w h color =
      ap (pixel 0 p q) (
        ap
          (λ o. elim o as (λ x. Gfx) [
            | none ↦ g
            | some f ↦ fill_owned_on (gfx_width g) (gfx_height g) id f x y w h color g
          ])
          here
        ∙ ap₂ (λ u v. fill_owned_on u v id owner x y w h color g) width height)
      ∙ fill_owned_on-pixel id x y w h color

  -- With the cursor out of the way, `present!` changes no pixel of the screen that the owner map
  -- does not give to the surface, whatever the rectangle and the place.
  pub gfx_present-unowned :
      (i : ℕ) (sx sy w h dx dy : ℤ)
      → owner (q * t.w + p) ≢ i
      → pixel 0 p q (gfx_present (pos i) sx sy w h dx dy g) ≡ some (t.pixels (q * t.w + p))
  unfolding gfx_present
  gfx_present-unowned i sx sy w h dx dy other = elim (target-cases i g) [
    | inl nothing ↦ rw (gfx_present, nothing) same
    | inr (s, found) ↦
        rw (gfx_present, found)
          (ap (pixel 0 p q) (
              ap
                (λ o. elim o as (λ x. Gfx) [
                  | none ↦ g
                  | some f ↦
                      if i == 0
                      then g
                      else present_on (gfx_width g) (gfx_height g) i s f sx sy w h dx dy g
                ])
                here
              ∙ ap₂ (λ u v. if i == 0 then g else present_on u v i s owner sx sy w h dx dy g) width
                  height)
            ∙ go (i == 0) s)
  ]
    where
      go :
          (b : Bool) (s : Target)
          → pixel 0 p q (if b then g else present_on t.w t.h i s owner sx sy w h dx dy g)
            ≡ some (t.pixels (q * t.w + p))
      go true s = same
      go false s = present_on-unowned i s sx sy w h dx dy other
