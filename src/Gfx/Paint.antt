-- ===== src/Gfx/Paint.antt =====
-- kernel/gfx.c: the loops over the pixels of a rectangle, which every drawing function has.
use beeros.Prelude.{
  ℕ, zero, suc, ◌+◌, ◌*◌, ◌≤◌, ◌<◌, ◌≡◌, ◌≢◌, refl, sym, ap, ◌∙◌, ◌⊎◌, inl, inr, Option, none, some,
  arith,
}
use native.Mathlib.Decide.{ℕ_discrete, dec_lt}
use native.Mathlib.Nat.{mul-le-mul_right}
use beeros.Prelude.Slice.{update}

-- The `n` runs of `body` from counter `i` on.
unfoldable pub repeat : {S : Type 0} → ℕ → ℕ → (ℕ → S → S) → S → S
repeat i zero body s = s
repeat i (suc n) body s = repeat (i + 1) n body (body i s)

-- A store that may be skipped.
abbrev pub put : Option ℕ → ℕ → (ℕ → ℕ) → ℕ → ℕ
put none i px = px
put (some v) i px = update px i v

abbrev pub or_else : Option ℕ → ℕ → ℕ
or_else none old = old
or_else (some v) old = v

-- `for c < w: line[c] = pick c`, where `line` stands at index `base`.
unfoldable pub paint_row : ℕ → ℕ → (ℕ → Option ℕ) → (ℕ → ℕ) → ℕ → ℕ
paint_row base w pick px = repeat 0 w (λ c p. put (pick c) (base + c) p) px

-- The rows of the rectangle at (x, y) of an area that is `stride` pixels wide.
unfoldable pub paint : (stride x y w h : ℕ) → (ℕ → ℕ → Option ℕ) → (ℕ → ℕ) → ℕ → ℕ
paint stride x y w h pick px = repeat 0 h (λ r p. paint_row ((y + r) * stride + x) w (pick r) p) px

pub put-here : (o : Option ℕ) (i : ℕ) (px : ℕ → ℕ) → put o i px i ≡ or_else o (px i)
put-here none i px = refl
put-here (some v) i px = ground arith

pub put-there : (o : Option ℕ) (i q : ℕ) (px : ℕ → ℕ) → i ≢ q → put o i px q ≡ px q
put-there none i q px other = refl
put-there (some v) i q px other = ground arith

module _ (base : ℕ) (pick : ℕ → Option ℕ) where
  run : ℕ → ℕ → (ℕ → ℕ) → ℕ → ℕ
  run i n px = repeat i n (λ c p. put (pick c) (base + c) p) px

  run-outside :
      (i n : ℕ) (px : ℕ → ℕ) (q : ℕ) → (q < base + i) ⊎ (base + i + n ≤ q) → run i n px q ≡ px q
  unfolding run repeat
  run-outside i zero px q h = refl
  run-outside i (suc n) px q h =
      run-outside (i + 1) n (put (pick i) (base + i) px) q
        (elim h [ inl before ↦ inl (omega arith) | inr after ↦ inr (omega arith) ])
      ∙ put-there (pick i) (base + i) q px
          (elim h [ inl before ↦ omega arith | inr after ↦ omega arith ])

  run-inside :
      (i n : ℕ) (px : ℕ → ℕ) (c : ℕ)
      → i ≤ c
      → c < i + n
      → run i n px (base + c) ≡ or_else (pick c) (px (base + c))
  unfolding run repeat
  run-inside i zero px c lo hi = absurd (omega arith)
  run-inside i (suc n) px c lo hi = elim (ℕ_discrete i c) [
    | yes same ↦
        ap (λ k. run i (suc n) px (base + k)) (sym same)
        ∙ run-outside (i + 1) n _ (base + i) (inl (omega arith))
        ∙ put-here (pick i) (base + i) px
        ∙ ap (λ k. or_else (pick k) (px (base + k))) same
    | no other ↦
        run-inside (i + 1) n (put (pick i) (base + i) px) c (omega arith) (omega arith)
        ∙ ap (or_else (pick c)) (put-there (pick i) (base + i) (base + c) px (omega arith))
  ]

pub below : (a b s : ℕ) → a < b → a * s + s ≤ b * s
below a b s h = let product : (a + 1) * s ≤ b * s = mul-le-mul_right s (omega arith) in omega arith

module _ (stride x y w : ℕ) (pick : ℕ → ℕ → Option ℕ) (fits : x + w ≤ stride) where
  rows : ℕ → ℕ → (ℕ → ℕ) → ℕ → ℕ
  rows i n px = repeat i n (λ r p. paint_row ((y + r) * stride + x) w (pick r) p) px

  -- Where a point lies outside one row of the rectangle, its index lies outside the row's run.
  apart :
      (r u v : ℕ)
      → u < stride
      → (v ≢ r) ⊎ (u < x) ⊎ (x + w ≤ u)
      → (v * stride + u < r * stride + x + 0) ⊎ (r * stride + x + 0 + w ≤ v * stride + u)
  apart r u v inside h = elim (dec_lt v r) [
    | yes up ↦ let b = below v r stride up in inl (omega arith)
    | no not_up ↦ elim (dec_lt r v) [
      | yes down ↦ let b = below r v stride down in inr (omega arith)
      | no not_down ↦
          let same : v * stride ≡ r * stride = ap (λ k. k * stride) (omega arith) in
          elim h [
            | inl other ↦ absurd (other (omega arith))
            | inr (inl left) ↦ inl (omega arith)
            | inr (inr right) ↦ inr (omega arith)
          ]
    ]
  ]

  rows-outside :
      (i n : ℕ) (px : ℕ → ℕ) (u v : ℕ)
      → u < stride
      → (v < y + i) ⊎ (y + i + n ≤ v) ⊎ (u < x) ⊎ (x + w ≤ u)
      → rows i n px (v * stride + u) ≡ px (v * stride + u)
  unfolding rows repeat run
  rows-outside i zero px u v inside h = refl
  rows-outside i (suc n) px u v inside h =
      rows-outside (i + 1) n _ u v inside (elim h [
        | inl above ↦ inl (omega arith)
        | inr (inl under) ↦ inr (inl (omega arith))
        | inr (inr aside) ↦ inr (inr aside)
      ])
      ∙ (unfold paint_row in
          run-outside ((y + i) * stride + x) (pick i) 0 w px (v * stride + u) (
            apart (y + i) u v inside (elim h [
              | inl above ↦ inl (omega arith)
              | inr (inl under) ↦ inl (omega arith)
              | inr (inr aside) ↦ inr aside
            ])))

  row-inside :
      (r c : ℕ) (px : ℕ → ℕ)
      → c < w
      → paint_row ((y + r) * stride + x) w (pick r) px ((y + r) * stride + (x + c))
        ≡ or_else (pick r c) (px ((y + r) * stride + (x + c)))
  unfolding paint_row run
  row-inside r c px inside =
      let base = (y + r) * stride + x in
      let e : (y + r) * stride + (x + c) ≡ base + c = omega arith in
      ap (paint_row base w (pick r) px) e
      ∙ run-inside base (pick r) 0 w px c (omega arith) (omega arith)
      ∙ ap (λ q. or_else (pick r c) (px q)) (sym e)

  rows-inside :
      (i n : ℕ) (px : ℕ → ℕ) (r c : ℕ)
      → i ≤ r
      → r < i + n
      → c < w
      → rows i n px ((y + r) * stride + (x + c))
        ≡ or_else (pick r c) (px ((y + r) * stride + (x + c)))
  unfolding rows repeat
  rows-inside i zero px r c lo hi inside = absurd (omega arith)
  rows-inside i (suc n) px r c lo hi inside = elim (ℕ_discrete i r) [
    | yes same ↦
        let e : (y + r) * stride + (x + c) ≡ (y + i) * stride + (x + c) =
          ap (λ k. (y + k) * stride + (x + c)) (sym same) in
        rows-outside (i + 1) n _ (x + c) (y + r) (omega arith) (inl (omega arith))
        ∙ ap (paint_row ((y + i) * stride + x) w (pick i) px) e
        ∙ row-inside i c px inside
        ∙ ap (λ k. or_else (pick k c) (px ((y + k) * stride + (x + c)))) same
    | no other ↦
        rows-inside (i + 1) n _ r c (omega arith) (omega arith) inside
        ∙ ap (or_else (pick r c))
            (rows-outside i 1 px (x + c) (y + r) (omega arith) (inr (inl (omega arith))))
  ]

  module _ (h : ℕ) (px : ℕ → ℕ) where
    pub paint-inside :
        (r c : ℕ)
        → r < h
        → c < w
        → paint stride x y w h pick px ((y + r) * stride + (x + c))
          ≡ or_else (pick r c) (px ((y + r) * stride + (x + c)))
    unfolding paint rows
    paint-inside r c tall wide = rows-inside 0 h px r c (omega arith) (omega arith) wide

    pub paint-outside :
        (u v : ℕ)
        → u < stride
        → (v < y) ⊎ (y + h ≤ v) ⊎ (u < x) ⊎ (x + w ≤ u)
        → paint stride x y w h pick px (v * stride + u) ≡ px (v * stride + u)
    unfolding paint rows
    paint-outside u v inside out = rows-outside 0 h px u v inside (elim out [
      | inl above ↦ inl (omega arith)
      | inr (inl under) ↦ inr (inl (omega arith))
      | inr (inr aside) ↦ inr (inr aside)
    ])
