-- ===== src/Console/Capture/Utf8.antt =====
-- `utf8_tail` and `take-output` of kernel/console.c: what a task wrote is taken in whole characters.
use beeros.Prelude.{
  ℕ, zero, suc, ◌+◌, ◌-◌, ◌≤◌, ◌<◌, ◌≡◌, refl, sym, ap, ◌∙◌, inl, inr, true, false, none, some, [],
  ◌++◌, arith, ltb, ◌==◌, if◌then◌else◌, Bool-cases, take-append-drop,
}
use native.Mathlib.Decide.{ℕ_discrete, dec_lt}
use mathlib.Core.Path.{ap₂}
use beeros.Prelude.Slice.{slice, slice-ext, take-slice, drop-slice}
use beeros.Console.Capture.{
  Capture, contents, is_continuation, need, tail_loop, utf8_tail, take_output,
}

-- The last byte of `b[0 .. n)` that begins a character stands `k` bytes before the end.
pub record LastStart (b : ℕ → ℕ) (n k : ℕ) : Type 0 where
  pub inside : (1 ≤ k) × (k ≤ n)
  pub starts : is_continuation (b (n - k)) ≡ false
  pub rest : (j : ℕ) → 1 ≤ j → j < k → is_continuation (b (n - j)) ≡ true

found : (b : ℕ → ℕ) (n k : ℕ) → ℕ
found b n k = if ltb k (need (b (n - k))) then k else 0

tail_loop_finds :
    (rounds i : ℕ) (b : ℕ → ℕ) (n k : ℕ)
    → LastStart b n k
    → 1 ≤ i
    → i ≤ k
    → k < i + rounds
    → tail_loop rounds i b n ≡ found b n k
unfolding tail_loop found
tail_loop_finds zero i b n k s pos le lt = absurd (omega arith)
tail_loop_finds (suc rounds) i b n k s pos le lt =
    let room : ltb n i ≡ false = ground (arith, s.inside) in
    elim (ℕ_discrete i k) [
      | yes e ↦ rw (room, e, s.starts)
      | no ne ↦
          rw (room, s.rest i pos (omega arith))
            (tail_loop_finds rounds (i + 1) b n k s (omega arith) (omega arith) (omega arith))
    ]

tail_loop_passes :
    (rounds i : ℕ) (b : ℕ → ℕ) (n k : ℕ)
    → LastStart b n k
    → 1 ≤ i
    → i + rounds ≤ k
    → tail_loop rounds i b n ≡ 0
unfolding tail_loop
tail_loop_passes zero i b n k s pos le = refl
tail_loop_passes (suc rounds) i b n k s pos le =
    let room : ltb n i ≡ false = ground (arith, s.inside) in
    rw (room, s.rest i pos (omega arith))
      (tail_loop_passes rounds (i + 1) b n k s (omega arith) (omega arith))

tail_loop-le :
    (rounds i : ℕ) (b : ℕ → ℕ) (n : ℕ)
    → 1 ≤ i
    → (tail_loop rounds i b n ≤ n) × (tail_loop rounds i b n + 1 ≤ i + rounds)
unfolding tail_loop
tail_loop-le zero i b n pos = omega arith
tail_loop-le (suc rounds) i b n pos = ground (arith, tail_loop-le rounds (i + 1) b n (omega arith))

-- `utf8_tail` answers the bytes of the last character if these are fewer than its first byte says,
-- and 0 if the last character is whole.
pub utf8_tail_lem :
    (b : ℕ → ℕ) (n k : ℕ)
    → LastStart b n k
    → k ≤ 4
    → utf8_tail b n ≡ (if ltb k (need (b (n - k))) then k else 0)
unfolding utf8_tail found
utf8_tail_lem b n k s h = elim (dec_lt k 4) [
  | yes lt ↦ tail_loop_finds 3 1 b n k s (omega arith) (omega (arith, s.inside)) (omega arith)
  | no ge ↦ tail_loop_passes 3 1 b n k s (omega arith) (omega arith) ∙ ground arith
]

tail-le : (b : ℕ → ℕ) (n : ℕ) → (utf8_tail b n ≤ n) × (utf8_tail b n ≤ 3)
unfolding utf8_tail
tail-le b n = omega (arith, tail_loop-le 3 1 b n (omega arith))

module _ (f : ℕ → ℕ) (n keep : ℕ) where
  moved : ℕ → ℕ
  moved i = if ltb i keep then f (n + i) else f i

  slice-moved : (len : ℕ) → len ≡ n + keep → slice f 0 len ≡ slice f 0 n ++ slice moved 0 keep
  unfolding moved
  slice-moved len e =
      ap (slice f 0) e
      ∙ sym (take-append-drop n (slice f 0 (n + keep)))
      ∙ ap₂ ◌++◌ (take-slice f 0 n keep) (
          drop-slice f 0 n keep
          ∙ slice-ext f moved (0 + n) 0 keep (λ k lt.
            let e' : 0 + n + k ≡ n + (0 + k) = omega arith in
            let small : ltb (0 + k) keep ≡ true = ground arith in rw (small, e')))

-- Taking output loses, adds and reorders nothing: what was taken and what stays make up what was
-- there. What stays are the at most three bytes of an incomplete character at the end.
pub take_output_lem :
    (c : Capture)
    → let (out, c') = take_output c in
      (contents c ≡ (elim out [ none ↦ [] | some s ↦ s ]) ++ contents c')
      × (c'.len ≡ utf8_tail c.buf c.len)
      × (c'.len ≤ 3)
unfolding take_output moved
take_output_lem c = elim (Bool-cases (c.len == 0)) [
  | inl empty ↦ rw empty (refl, ground (arith, tail-le c.buf c.len), ground arith)
  | inr some_bytes ↦ elim (Bool-cases (c.len - utf8_tail c.buf c.len == 0)) [
    | inl all_kept ↦
        rw (some_bytes, all_kept)
          (refl, ground (arith, tail-le c.buf c.len), ground (arith, tail-le c.buf c.len))
    | inr more ↦
        rw (some_bytes, more)
          (
            slice-moved c.buf (c.len - utf8_tail c.buf c.len) (utf8_tail c.buf c.len) c.len
                (omega (arith, tail-le c.buf c.len)),
            refl,
            (tail-le c.buf c.len).1,
          )
  ]
]
