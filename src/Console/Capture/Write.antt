-- ===== src/Console/Capture/Write.antt =====
-- Writing to the UART and to a capture stream, in kernel/console.c.
use beeros.Prelude.{
  ℕ, zero, suc, ◌+◌, ◌*◌, ◌^◌, ◌≤◌, ◌<◌, ◌≡◌, refl, sym, ap, ◌∙◌, ◌⊎◌, inl, inr, Bool, true, false,
  ◌&&◌, List, [], ◌∷◌, ◌++◌, arith, ltb, leb, ◌==◌, if◌then◌else◌, Bool-cases, tests, length, take,
  length-append,
}
use mathlib.Core.List.{append_assoc, append-nil}
use native.Mathlib.Nat.{pow-suc, pow-le-pow_right, one-le-pow}
use native.Mathlib.Numerals.{add-one}
use native.Mathlib.Decide.{ℕ_discrete}
use mathlib.Core.Path.{ap₂}
use beeros.Prelude.Slice.{update, slice-snoc, slice-ext, length-slice}
use beeros.Console.Capture.{
  capture_max, lf, cr, console_write, Capture, contents, append, capture_put, put_all,
}

starts_line_feed : List ℕ → Bool
starts_line_feed [] = false
starts_line_feed (d ∷ s) = d == lf

-- A reader that takes CR LF for the end of a line: it drops a CR in front of a LF.
pub read_lines : List ℕ → List ℕ
unfolding starts_line_feed
read_lines [] = []
read_lines (c ∷ s) =
    let rest = read_lines s in if (c == cr) && starts_line_feed s then rest else c ∷ rest

no_bare_line_feed : (s : List ℕ) → starts_line_feed (console_write s) ≡ false
unfolding starts_line_feed console_write
no_bare_line_feed [] = refl
no_bare_line_feed (c ∷ s) = ground arith

-- A reader of CR LF line ends gets back what was written, whatever bytes these are.
pub read_lines-console_write : (s : List ℕ) → read_lines (console_write s) ≡ s
unfolding read_lines console_write
read_lines-console_write [] = refl
read_lines-console_write (c ∷ s) = elim (Bool-cases (c == lf)) [
  | inl end ↦ rw (end, read_lines-console_write s) (ground (arith, no_bare_line_feed s))
  | inr other ↦ rw (other, no_bare_line_feed s, read_lines-console_write s) (ground arith)
]

-- A buffer of no bytes, or of 256 times a power of two up to 64 KiB, not filled beyond its end.
pub record IsValid (c : Capture) : Type 0 where
  pub filled : c.len ≤ c.cap
  pub size : (c.cap ≡ 0) ⊎ ((k : ℕ) × (k ≤ 8) × (c.cap ≡ 256 * 2 ^ k))

all_sizes : (k : ℕ) → k ≤ 8 → (256 * 2 ^ k ≤ capture_max) × (256 * 2 ^ k < capture_max → k < 8)
all_sizes k h = elim (ℕ_discrete k 8) [
  | yes e ↦ rw e (omega arith, λ lt. absurd (omega arith))
  | no ne ↦ (omega (arith, pow-le-pow_right {n = 2} (omega arith) h), λ _. omega arith)
]

pub IsValid-bound : {c : Capture} → IsValid c → c.cap ≤ capture_max
IsValid-bound {c} v = elim v.size [
  | inl e ↦ omega arith
  | inr (k, le, e) ↦ omega (arith, all_sizes k le)
]

contents-append : (c : Capture) (ch : ℕ) → contents (append c ch) ≡ contents c ++ (ch ∷ [])
unfolding append
contents-append c ch =
    let old : (k : ℕ) → k < c.len → update c.buf c.len ch (0 + k) ≡ c.buf (0 + k) =
      λ k lt. ground arith in
    let new : update c.buf c.len ch (0 + c.len) ≡ ch = ground arith in
    rw add-one (
      slice-snoc (update c.buf c.len ch) 0 c.len
      ∙ ap₂ (λ l x. l ++ (x ∷ [])) (slice-ext _ c.buf 0 0 c.len old) new)

take-length {ℓ} : {A : Type ℓ} (n : ℕ) (xs : List A) → length xs ≤ n → take n xs ≡ xs
take-length zero [] h = refl
take-length zero (x ∷ xs) h = absurd (omega arith)
take-length (suc n) [] h = refl
take-length (suc n) (x ∷ xs) h = ap (λ l. x ∷ l) (take-length n xs (omega arith))

take-append {ℓ} :
    {A : Type ℓ} (n : ℕ) (xs ys : List A) → n ≤ length xs → take n (xs ++ ys) ≡ take n xs
take-append zero xs ys h = refl
take-append (suc n) [] ys h = absurd (omega arith)
take-append (suc n) (x ∷ xs) ys h = ap (λ l. x ∷ l) (take-append n xs ys (omega arith))

take-take-append {ℓ} :
    {A : Type ℓ} (n : ℕ) (xs ys : List A) → take n (take n xs ++ ys) ≡ take n (xs ++ ys)
take-take-append zero xs ys = refl
take-take-append (suc n) [] ys = refl
take-take-append (suc n) (x ∷ xs) ys = ap (λ l. x ∷ l) (take-take-append n xs ys)

next_size :
    {c : Capture}
    → IsValid c
    → c.cap < capture_max
    → let cap = if c.cap == 0 then 256 else c.cap * 2 in
      (c.cap < cap) × ((k : ℕ) × (k ≤ 8) × (cap ≡ 256 * 2 ^ k))
next_size {c} v lt = elim v.size [
  | inl e ↦ rw e (omega arith, (0, omega arith, refl))
  | inr (k, le, e) ↦
      let some_bytes : (c.cap == 0) ≡ false = ground (arith, one-le-pow k 2 (omega arith)) in
      let small : k < 8 = (all_sizes k le).1 (omega arith) in
      rw some_bytes
        (omega (arith, one-le-pow k 2 (omega arith)), (suc k, small, rw pow-suc (omega arith)))
]

append-IsValid : {c : Capture} (ch : ℕ) → IsValid c → c.len < c.cap → IsValid (append c ch)
unfolding append
append-IsValid ch v lt = record { filled = omega arith; size = v.size }

console_write-line_feed :
    (ch : ℕ) (s : List ℕ) → (ch == lf) ≡ true → console_write (ch ∷ s) ≡ cr ∷ ch ∷ console_write s
unfolding console_write
console_write-line_feed ch s e = rw e

console_write-other :
    (ch : ℕ) (s : List ℕ) → (ch == lf) ≡ false → console_write (ch ∷ s) ≡ ch ∷ console_write s
unfolding console_write
console_write-other ch s e = rw e

module _ (realloc_ok : ℕ → Bool) (ch : ℕ) (s : List ℕ) (c : Capture) where
  put_all-line_feed :
      (ch == lf) ≡ true
      → put_all realloc_ok (ch ∷ s) c
        ≡ put_all realloc_ok s (capture_put realloc_ok (capture_put realloc_ok c cr) ch)
  unfolding put_all
  put_all-line_feed e = rw e

  put_all-other :
      (ch == lf) ≡ false
      → put_all realloc_ok (ch ∷ s) c ≡ put_all realloc_ok s (capture_put realloc_ok c ch)
  unfolding put_all
  put_all-other e = rw e

module _ (realloc_ok : ℕ → Bool) {c : Capture} (v : IsValid c) (ch : ℕ) where
  capture_put-IsValid : IsValid (capture_put realloc_ok c ch)
  unfolding capture_put
  capture_put-IsValid = elim (Bool-cases (ltb c.len c.cap)) [
    | inl room ↦ rw room (append-IsValid ch v (ground arith))
    | inr full ↦ elim (Bool-cases (leb capture_max c.cap)) [
      | inl most ↦ rw (full, most) v
      | inr less ↦
          let cap = if c.cap == 0 then 256 else c.cap * 2 in
          let (more, (k, le, e)) = next_size v (ground arith) in
          elim (Bool-cases (realloc_ok cap)) [
            | inl got ↦
                rw (full, less, got)
                  (append-IsValid ch
                    (record { filled = omega (arith, v.filled); size = inr (k, le, e) })
                    (omega (arith, v.filled)))
            | inr refused ↦ rw (full, less, refused) v
          ]
    ]
  ]

take_of_take :
    (n : ℕ) {xs : List ℕ} (ys zs : List ℕ) → xs ≡ take n ys → take n (xs ++ zs) ≡ take n (ys ++ zs)
take_of_take n ys zs e = ap (λ l. take n (l ++ zs)) e ∙ take-take-append n ys zs

append_two : (xs : List ℕ) (a b : ℕ) (ys : List ℕ) → (xs ++ (a ∷ b ∷ [])) ++ ys ≡ xs ++ (a ∷ b ∷ ys)
append_two xs a b ys = append_assoc xs (a ∷ b ∷ []) ys

length_snoc : (c : Capture) (ch : ℕ) → length (contents c ++ (ch ∷ [])) ≡ c.len + 1
length_snoc c ch = omega (arith, length-append (contents c) (ch ∷ []), length-slice c.buf 0 c.len)

full_lem : (c : Capture) → ltb c.len c.cap ≡ false → c.cap ≤ c.len
full_lem c h = ground arith

less_lem : (c : Capture) → leb capture_max c.cap ≡ false → c.cap < capture_max
less_lem c h = ground arith

module _ (realloc_ok : ℕ → Bool) (granted : (n : ℕ) → realloc_ok n ≡ true) where
  contents-capture_put :
      {c : Capture} (ch : ℕ)
      → IsValid c
      → contents (capture_put realloc_ok c ch) ≡ take capture_max (contents c ++ (ch ∷ []))
  unfolding capture_put
  contents-capture_put {c} ch v = elim (Bool-cases (ltb c.len c.cap)) [
    | inl room ↦
        rw (room, contents-append c ch)
          (sym (
            take-length capture_max (contents c ++ (ch ∷ []))
              (omega (tests, room, IsValid-bound v, length_snoc c ch))))
    | inr full ↦ elim (Bool-cases (leb capture_max c.cap)) [
      | inl most ↦
          let len : length (contents c) ≡ c.len = length-slice c.buf 0 c.len in
          let cap : capture_max ≤ c.cap = omega (tests, most) in
          rw (full, most)
            (sym (
              take-append capture_max (contents c) (ch ∷ [])
                (omega (arith, v.filled, full_lem c full))
              ∙ take-length capture_max (contents c) (omega (arith, v.filled, IsValid-bound v))))
      | inr less ↦
          rw (full, less, granted, contents-append)
            (sym (
              take-length capture_max (contents c ++ (ch ∷ []))
                (omega (arith, v.filled, less_lem c less, length_snoc c ch))))
    ]
  ]

  two_puts :
      {c : Capture} (ch ch' : ℕ)
      → IsValid c
      → contents (capture_put realloc_ok (capture_put realloc_ok c ch) ch')
        ≡ take capture_max (contents c ++ (ch ∷ ch' ∷ []))
  two_puts {c} ch ch' v =
      contents-capture_put ch' (capture_put-IsValid realloc_ok v ch)
      ∙ take_of_take capture_max (contents c ++ (ch ∷ [])) (ch' ∷ []) (contents-capture_put ch v)
      ∙ ap (take capture_max) (append_assoc (contents c) (ch ∷ []) (ch' ∷ []))

  -- Writing `s` to a capture stream appends what `console_write` would send to the UART, up to a
  -- total of 64 KiB, and keeps the buffer within its bounds, as long as memory lasts.
  pub put_all_lem :
      (s : List ℕ) {c : Capture}
      → IsValid c
      → (contents (put_all realloc_ok s c) ≡ take capture_max (contents c ++ console_write s))
        × IsValid (put_all realloc_ok s c)
  put_all_lem [] {c} v =
      unfold put_all console_write in
      (
        sym (
            rw append-nil (
              take-length capture_max (contents c)
                (omega (arith, v.filled, IsValid-bound v, length-slice c.buf 0 c.len)))),
        v,
      )
  put_all_lem (ch ∷ s) {c} v = elim (Bool-cases (ch == lf)) [
    | inr other ↦
        let v' = capture_put-IsValid realloc_ok v ch in
        rw (put_all-other realloc_ok ch s c other, console_write-other ch s other)
          (
            (put_all_lem s v').0
                ∙ take_of_take capture_max (contents c ++ (ch ∷ [])) (console_write s)
                    (contents-capture_put ch v)
                ∙ ap (take capture_max) (append_assoc (contents c) (ch ∷ []) (console_write s)),
            (put_all_lem s v').1,
          )
    | inl end ↦
        let v' = capture_put-IsValid realloc_ok (capture_put-IsValid realloc_ok v cr) ch in
        rw (put_all-line_feed realloc_ok ch s c end, console_write-line_feed ch s end)
          (
            (put_all_lem s v').0
                ∙ take_of_take capture_max (contents c ++ (cr ∷ ch ∷ [])) (console_write s)
                    (two_puts cr ch v)
                ∙ ap (take capture_max) (append_two (contents c) cr ch (console_write s)),
            (put_all_lem s v').1,
          )
  ]
