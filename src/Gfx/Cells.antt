-- ===== src/Gfx/Cells.antt =====
-- kernel/gfx.c: loops over the cells of a picture that save or restore the pixel under each.
use beeros.Prelude.{
  ℕ, zero, suc, ◌+◌, ◌*◌, ◌≤◌, ◌<◌, ◌≡◌, ◌≢◌, refl, sym, ap, ◌∙◌, Option, none, some, ◌==◌,
  if◌then◌else◌, arith, Bool-cases, inl, inr,
}
use mathlib.Core.Path.{subst}
use beeros.Prelude.Slice.{update}
use beeros.Gfx.Paint.{repeat, put, put-there}

repeat-induct :
    {S : Type 0} (P : ℕ → S → Type 0) (i n : ℕ) (body : ℕ → S → S) (s : S)
    → ((k : ℕ) (s : S) → i ≤ k → k < i + n → P k s → P (suc k) (body k s))
    → P i s
    → P (i + n) (repeat i n body s)
unfolding repeat
repeat-induct P i zero body s keep start =
    let e : i ≡ i + 0 = omega arith in subst (λ k. P k s) e start
repeat-induct P i (suc n) body s keep start =
    let e : suc i + n ≡ i + suc n = omega arith in
    let e' : suc i ≡ i + 1 = omega arith in
    subst (λ k. P k (repeat (i + 1) n body (body i s))) e
      (subst (λ j. P (j + n) (repeat (i + 1) n body (body i s))) (sym e')
        (repeat-induct P (i + 1) n body (body i s)
          (λ k s' lo hi. keep k s' (omega arith) (omega arith))
          (subst (λ k. P k (body i s)) e' (keep i s (omega arith) (omega arith) start))))

-- The loops over the cells of a grid `w` wide, numbered row by row.
pub grid-induct :
    {S : Type 0} (P : ℕ → S → Type 0) (h w : ℕ) (body : ℕ → ℕ → S → S) (s : S)
    → ((r c : ℕ) (s : S) → c < w → P (r * w + c) s → P (suc (r * w + c)) (body r c s))
    → P 0 s
    → P (h * w) (repeat 0 h (λ r. repeat 0 w (body r)) s)
grid-induct P h w body s keep start =
    let e : 0 + h ≡ h = omega arith in
    subst (λ k. P (k * w) (repeat 0 h (λ r. repeat 0 w (body r)) s)) e
      (repeat-induct (λ r s. P (r * w) s) 0 h (λ r. repeat 0 w (body r)) s
        (λ r s' lo hi at.
          let e : r * w + (0 + w) ≡ suc r * w = omega arith in
          let e' : r * w ≡ r * w + 0 = omega arith in
          subst (λ k. P k (repeat 0 w (body r) s')) e
            (repeat-induct (λ c s. P (r * w + c) s) 0 w (body r) s'
              (λ c s'' lo' hi' at'.
                let e'' : suc (r * w + c) ≡ r * w + suc c = omega arith in
                subst (λ k. P k (body r c s'')) e'' (keep r c s'' (omega arith) at'))
              (subst (λ k. P k s') e' at)))
        (let e : 0 ≡ 0 * w = omega arith in subst (λ k. P k s) e start))

-- The last of the first `n` cells that is at index `i`.
hit_at : Option ℕ → ℕ → Option ℕ → ℕ → Option ℕ
hit_at none k earlier i = earlier
hit_at (some j) k earlier i = if j == i then some k else earlier

pub hit : (ℕ → Option ℕ) → ℕ → ℕ → Option ℕ
hit cells zero i = none
hit cells (suc k) i = hit_at (cells k) k (hit cells k i) i

unfoldable pub Distinct : (ℕ → Option ℕ) → Type 0
Distinct cells = (j k i : ℕ) → cells j ≡ some i → cells k ≡ some i → j ≡ k

unfoldable pub picked : (ℕ → ℕ) → Option ℕ → ℕ → ℕ
picked saved none old = old
picked saved (some k) old = saved k

unfoldable pub restore_at : Option ℕ → ℕ → (ℕ → ℕ) → ℕ → ℕ
restore_at none v px = px
restore_at (some i) v px = update px i v

unfoldable pub draw_at : Option ℕ → Option ℕ → ℕ → (ℕ → ℕ) × (ℕ → ℕ) → (ℕ → ℕ) × (ℕ → ℕ)
draw_at none ink k (px, saved) = (px, saved)
draw_at (some i) ink k (px, saved) = (put ink i px, update saved k (px i))

-- After `n` steps of restoring.
unfoldable pub Restored : (ℕ → Option ℕ) → (ℕ → ℕ) → (ℕ → ℕ) → ℕ → (ℕ → ℕ) → Type 0
Restored cells saved px n px' = (i : ℕ) → px' i ≡ picked saved (hit cells n i) (px i)

-- After `n` steps of drawing: the pixels under the cells passed are saved, the others as they were.
Kept : ℕ → ℕ → (ℕ → ℕ) × (ℕ → ℕ) → Option ℕ → Type 0
Kept old i (px', saved) none = px' i ≡ old
Kept old i (px', saved) (some k) = saved k ≡ old

pub Drawn : (ℕ → Option ℕ) → (ℕ → ℕ) → ℕ → (ℕ → ℕ) × (ℕ → ℕ) → Type 0
Drawn cells px n s = (i : ℕ) → Kept (px i) i s (hit cells n i)

pub none-some : {k : ℕ} → Path (Option ℕ) none (some k) → ⊥
none-some = cc

pub some_injective : {j k : ℕ} → Path (Option ℕ) (some j) (some k) → j ≡ k
some_injective = cc

pub hit-cell :
    (cells : ℕ → Option ℕ) (n i k : ℕ) → hit cells n i ≡ some k → (cells k ≡ some i) × (k < n)
unfolding hit hit_at
hit-cell cells zero i k h = absurd (none-some h)
hit-cell cells (suc n) i k h = go (hit-cell cells n i k) (cells n) refl h
  where
    go :
        (hit cells n i ≡ some k → (cells k ≡ some i) × (k < n))
        → (o : Option ℕ) → cells n ≡ o
        → hit_at o n (hit cells n i) i ≡ some k
        → (cells k ≡ some i) × (k < suc n)
    go earlier none e h' = let (at, lt) = earlier h' in (at, omega (arith, lt))
    go earlier (some j) e h' = elim (Bool-cases (j == i)) [
      | inl here ↦
          let last : some n ≡ some k = rw here at h' in
          let same : n ≡ k = some_injective last in
          let place : j ≡ i = ground arith in (rw (← same, e, place) refl, omega (arith, same))
      | inr elsewhere ↦
          let before : hit cells n i ≡ some k = rw elsewhere at h' in
          let (at, lt) = earlier before in (at, omega (arith, lt))
    ]

pub restore_at-Restored :
    (cells : ℕ → Option ℕ) (saved px : ℕ → ℕ) (n : ℕ) (px' : ℕ → ℕ)
    → Restored cells saved px n px'
    → Restored cells saved px (suc n) (restore_at (cells n) (saved n) px')
unfolding Restored hit
restore_at-Restored cells saved px n px' so i = go (cells n)
  where
    go :
        (o : Option ℕ)
        → restore_at o (saved n) px' i ≡ picked saved (hit_at o n (hit cells n i) i) (px i)
    go none = unfold restore_at in unfold hit_at in so i
    go (some j) =
        unfold restore_at in
        unfold hit_at in
        unfold picked in
        elim (Bool-cases (j == i)) [
          | inl here ↦ rw here refl
          | inr elsewhere ↦ rw elsewhere (unfold picked in so i)
        ]

pub update-here : {A : Type 0} (f : ℕ → A) (i : ℕ) (v : A) → update f i v i ≡ v
update-here f i v = ground arith

pub update-there : {A : Type 0} (f : ℕ → A) (i j : ℕ) (v : A) → j ≢ i → update f i v j ≡ f j
update-there f i j v other = ground arith

pub draw_at-Drawn :
    (cells : ℕ → Option ℕ) (ink : Option ℕ) (px : ℕ → ℕ) (n : ℕ) (s : (ℕ → ℕ) × (ℕ → ℕ))
    → Distinct cells
    → Drawn cells px n s
    → Drawn cells px (suc n) (draw_at (cells n) ink n s)
unfolding Drawn hit Distinct
draw_at-Drawn cells ink px n (px', saved) apart so i = go (cells n) refl (hit cells n i) refl (so i)
  where
    go :
        (o : Option ℕ)
        → cells n ≡ o
        → (w : Option ℕ) → hit cells n i ≡ w
        → Kept (px i) i (px', saved) w
        → Kept (px i) i (draw_at o ink n (px', saved)) (hit_at o n w i)
    go none e w e' kept = unfold draw_at in unfold hit_at in kept
    go (some j) e none e' kept =
        unfold draw_at in
        unfold hit_at in
        unfold Kept in
        elim (Bool-cases (j == i)) [
          | inl here ↦
              let place : j ≡ i = ground arith in
              rw here (update-here saved n (px' j) ∙ ap px' place ∙ kept)
          | inr elsewhere ↦ rw elsewhere (put-there ink j i px' (ground arith) ∙ kept)
        ]
    go (some j) e (some k) e' kept =
        unfold draw_at in
        unfold hit_at in
        unfold Kept in
        elim (Bool-cases (j == i)) [
          | inl here ↦
              let place : j ≡ i = ground arith in
              let (at, lt) = hit-cell cells n i k e' in
              let same : k ≡ n = apart k n i at (e ∙ ap some place) in
              absurd (omega (arith, lt, same))
          | inr elsewhere ↦
              let (at, lt) = hit-cell cells n i k e' in
              rw elsewhere (update-there saved n k (px' j) (omega (arith, lt)) ∙ kept)
        ]

Kept-picked :
    (old i : ℕ) (s : (ℕ → ℕ) × (ℕ → ℕ)) (w : Option ℕ) → Kept old i s w → picked s.1 w (s.0 i) ≡ old
unfolding Kept picked
Kept-picked old i (px, saved) none kept = kept
Kept-picked old i (px, saved) (some k) kept = kept

pub Drawn-picked :
    (cells : ℕ → Option ℕ) (px : ℕ → ℕ) (n : ℕ) (s : (ℕ → ℕ) × (ℕ → ℕ))
    → Drawn cells px n s
    → (i : ℕ) → picked s.1 (hit cells n i) (s.0 i) ≡ px i
unfolding Drawn
Drawn-picked cells px n s so i = Kept-picked (px i) i s (hit cells n i) (so i)

-- Before the first step.
pub Restored-none : (cells : ℕ → Option ℕ) (saved px : ℕ → ℕ) → Restored cells saved px 0 px
unfolding Restored hit picked
Restored-none cells saved px i = refl

pub Drawn-none : (cells : ℕ → Option ℕ) (px saved : ℕ → ℕ) → Drawn cells px 0 (px, saved)
unfolding Drawn hit Kept
Drawn-none cells px saved i = refl
