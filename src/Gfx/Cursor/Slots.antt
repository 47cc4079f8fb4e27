-- ===== src/Gfx/Cursor/Slots.antt =====
-- kernel/gfx.c: making and freeing surfaces, with the cursor on the screen.
use mathlib.Core.Path.{subst₂, ap₂}
use beeros.Prelude.{
  ℕ, zero, suc, ◌+◌, ◌-◌, ◌*◌, ◌≡◌, ◌≢◌, refl, sym, ap, ◌∙◌, Bool, true, false, not, ◌||◌, Option,
  none, some, ◌==◌, if◌then◌else◌, arith, Bool-cases, inl, inr, ltb,
}
use beeros.Prelude.Slice.{update}
use beeros.Prelude.Int.{ℤ, pos, negsuc}
use beeros.Gfx.Surface.{Target, Gfx, surfaces_max, gfx_width, gfx_height}
use beeros.Gfx.Cursor.Covers.{Covers}
use beeros.Gfx.Surface.{surface_slot, gfx_surface_new, gfx_surface_free, disowned, without, freed}
use beeros.Gfx.Cursor.Moves.{replace_surface-Covers}
use beeros.Gfx.Cursor.Strokes.{if-Covers, bare_t}
use beeros.Gfx.Cursor.Screen.{screen_width, screen_height}

-- A turn of the loop over the slots.
slot : Bool → ℕ → ℕ → ℕ → Option Target → ℤ × Gfx → Gfx → ℤ × Gfx
slot granted w h i (some t) rest s = rest
slot granted w h i none rest s =
    if granted
    then (
      pos i,
      record s { surfaces = update s.surfaces i (some (record { pixels = λ q. 0; w = w; h = h })) },
    )
    else (negsuc 0, s)

surface_slot-slot :
    (granted : Bool) (w h i left : ℕ) (s : Gfx) (o : Option Target)
    → s.surfaces i ≡ o
    → surface_slot granted w h i (suc left) s
      ≡ slot granted w h i o (surface_slot granted w h (i + 1) left s) s
unfolding surface_slot
surface_slot-slot granted w h i left s (some t) e = unfold slot in rw (surface_slot, e) refl
surface_slot-slot granted w h i left s none e = unfold slot in rw (surface_slot, e) refl

-- The owner map without surface `i`, for a screen of `n` pixels.
disowned_map : ℕ → ℕ → Option (ℕ → ℕ) → Option (ℕ → ℕ)
disowned_map i n none = none
disowned_map i n (some o) = some (disowned i n o)

without-map :
    (i : ℕ) (s : Gfx)
    → without i s ≡ record s {
      surfaces = update s.surfaces i none;
      owner = disowned_map i (gfx_width s * gfx_height s) s.owner;
    }
without-map i s =
    ap {A = Option (ℕ → ℕ)} (λ o. record s { surfaces = update s.surfaces i none; owner = o })
      (go (gfx_width s * gfx_height s) s.owner)
  where
    go :
        (n : ℕ) (owner : Option (ℕ → ℕ))
        → Path
            (Option (ℕ → ℕ))
            (elim owner [ none ↦ none | some o ↦ some (disowned i n o) ])
            (disowned_map i n owner)
    go n none = unfold disowned_map in refl
    go n (some o) = unfold disowned_map in refl

freed-none : (i : ℕ) (s : Gfx) → s.surfaces i ≡ none → freed i s ≡ s
freed-none i s e = ap (λ o. elim o as (λ v. Gfx) [ none ↦ s | some t ↦ without i s ]) e

freed-some : (i : ℕ) (s : Gfx) (t : Target) → s.surfaces i ≡ some t → freed i s ≡ without i s
freed-some i s t e = ap (λ o. elim o as (λ v. Gfx) [ none ↦ s | some t ↦ without i s ]) e

module _ {g b : Gfx} (c : Covers g b) where
  slot-Covers :
      (granted : Bool) (w h i : ℕ) (o : Option Target) (x y : ℤ × Gfx)
      → i ≢ 0
      → Covers x.1 y.1
      → Covers (slot granted w h i o x g).1 (slot granted w h i o y b).1
  unfolding slot
  slot-Covers granted w h i (some t) x y other rest = rest
  slot-Covers true w h i none x y other rest = replace_surface-Covers c i _ other
  slot-Covers false w h i none x y other rest = c

  surface_slot-Covers :
      (granted : Bool) (w h i left : ℕ)
      → i ≢ 0
      → Covers (surface_slot granted w h i left g).1 (surface_slot granted w h i left b).1
  surface_slot-Covers granted w h i zero other = unfold surface_slot in c
  surface_slot-Covers granted w h i (suc left) other =
      subst₂ (λ x y. Covers x.1 y.1)
        (sym (surface_slot-slot granted w h i left g (g.surfaces i) refl))
        (sym (surface_slot-slot granted w h i left b (g.surfaces i) (c.others i other)))
        (slot-Covers granted w h i (g.surfaces i) _ _ other
          (surface_slot-Covers granted w h (i + 1) left (omega arith)))

  pub gfx_surface_new-Covers :
      (granted : Bool) (w h : ℕ)
      → Covers (gfx_surface_new granted w h g).1 (gfx_surface_new granted w h b).1
  unfolding gfx_surface_new
  gfx_surface_new-Covers granted w h = elim (Bool-cases (w == 0 || h == 0)) [
    | inl empty ↦ rw empty c
    | inr full ↦ rw full (surface_slot-Covers granted w h 1 (surfaces_max - 1) (omega arith))
  ]

  without-Covers : (i : ℕ) → i ≢ 0 → Covers (without i g) (without i b)
  without-Covers i other =
      let r = replace_surface-Covers c i none other in
      let n : gfx_width b * gfx_height b ≡ gfx_width g * gfx_height g =
        ap₂ ◌*◌ (screen_width b (bare_t c) c.bare ∙ sym (screen_width g c.t c.screen))
          (screen_height b (bare_t c) c.bare ∙ sym (screen_height g c.t c.screen)) in
      subst₂ Covers (sym (without-map i g)) (sym (without-map i b)) (record {
        t = r.t;
        screen = r.screen;
        bare = r.bare;
        others = r.others;
        owner = ap₂ (disowned_map i) n c.owner;
        hidden = r.hidden;
        small = r.small;
      })

  freed-Covers :
      (i : ℕ) → i ≢ 0 → (o : Option Target) → g.surfaces i ≡ o → Covers (freed i g) (freed i b)
  freed-Covers i other none e =
      subst₂ Covers (sym (freed-none i g e)) (sym (freed-none i b (c.others i other ∙ e))) c
  freed-Covers i other (some t) e =
      subst₂ Covers (sym (freed-some i g t e)) (sym (freed-some i b t (c.others i other ∙ e)))
        (without-Covers i other)

  pub gfx_surface_free-Covers : (id : ℤ) → Covers (gfx_surface_free id g) (gfx_surface_free id b)
  unfolding gfx_surface_free
  gfx_surface_free-Covers (negsuc i) = c
  gfx_surface_free-Covers (pos i) =
      if-Covers (i == 0 || not (ltb i surfaces_max)) (λ e. c)
        (λ e. freed-Covers i (ground arith) (g.surfaces i) refl)
