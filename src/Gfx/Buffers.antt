-- ===== src/Gfx/Buffers.antt =====
-- kernel/gfx_natives.c: the guards that keep what the bitmap natives read inside the ByteBuffer.
use beeros.Prelude.{
  ℕ, ◌+◌, ◌-◌, ◌*◌, ◌/◌, ◌%◌, ◌^◌, ◌≤◌, ◌<◌, ◌≡◌, refl, sym, ap, ◌∙◌, false, ◌||◌, ltb, arith,
}
use native.Mathlib.Nat.{mul-le-mul_right}
use beeros.Prelude.Int.{pos, ◌+ℤ◌, ◌-ℤ◌, ◌*ℤ◌, ltb_ℤ}
use beeros.Gfx.Paint.{below}
use beeros.Gfx.Natives.{bitmap_outside, pixels_outside}

module _ (off h stride room w : ℕ) (no_wrap : off + h * stride < 2 ^ 64) where
  bitmap-end : bitmap_outside (pos off) h stride room ≡ false → off + h * stride ≤ room
  unfolding bitmap_outside
  bitmap-end ok =
      let e : (off + h * stride) % 2 ^ 64 ≡ off + h * stride = omega arith in leb_end (rw⁻¹ e ok)
    where
      leb_end : ltb room (off + h * stride) ≡ false → off + h * stride ≤ room
      leb_end k = ground arith

  -- Where the end of the bitmap does not wrap at 2^64: what `blit-bits!` lets through with a width of at most 8 bits for each byte of the stride, it
  -- reads inside the buffer: the byte of bit `c` of row `r` lies before its end.
  pub bitmap_outside-IsSafe :
      (r c : ℕ)
      → bitmap_outside (pos off) h stride room ≡ false
      → w ≤ 8 * stride
      → r < h
      → c < w
      → off + (r * stride + c / 8) < room
  bitmap_outside-IsSafe r c ok narrow row column =
      let end = bitmap-end ok in
      let product = below r h stride row in let byte : c / 8 < stride = omega arith in omega arith

  -- A bitmap of at least one row, whose end does not wrap, that fills the buffer and is wider than its stride is let through, although the last
  -- bit of its last row lies past the buffer's end.
  pub bitmap_outside-reads :
      off + h * stride ≡ room
      → 0 < h
      → 8 * stride < w
      → (bitmap_outside (pos off) h stride room ≡ false)
        × (room ≤ off + ((h - 1) * stride + (w - 1) / 8))
  unfolding bitmap_outside
  bitmap_outside-reads full some_h wide =
      let e : (off + h * stride) % 2 ^ 64 ≡ room = omega arith in
      let byte : stride ≤ (w - 1) / 8 = omega arith in
      let step : h ≡ h - 1 + 1 = omega arith in
      let product : (h - 1 + 1) * stride ≡ (h - 1) * stride + stride = omega arith in
      let rows : h * stride ≡ (h - 1) * stride + stride = ap (λ k. k * stride) step ∙ product in
      (rw e (ground arith), omega arith)

mul-pos : (a b : ℕ) → pos a *ℤ pos b ≡ pos (a * b)
unfolding ◌*ℤ◌
mul-pos a b = ground arith

add-pos : (a b : ℕ) → pos a +ℤ pos b ≡ pos (a + b)
unfolding ◌+ℤ◌
add-pos a b = ground arith

pred-pos : (a : ℕ) → 0 < a → pos a -ℤ pos 1 ≡ pos (a - 1)
unfolding ◌-ℤ◌
pred-pos a h = ground arith

pixels-end :
    (off w h stride room : ℕ)
    → 0 < h
    → pixels_outside (pos off) (pos w) (pos h) (pos stride) room ≡ false
    → (w * 4 ≤ stride) × (off + (h - 1) * stride + w * 4 ≤ room)
unfolding pixels_outside
pixels-end off w h stride room some_h ok = bounds (
    sym (
      rw
        (
          pred-pos h some_h,
          mul-pos w 4,
          mul-pos (h - 1) stride,
          add-pos off ((h - 1) * stride),
          add-pos (off + (h - 1) * stride) (w * 4),
        )
        refl)
    ∙ ok)
  where
    bounds :
        (ltb_ℤ (pos off) (pos 0)
            || (ltb_ℤ (pos stride) (pos (w * 4))
                || ltb_ℤ (pos room) (pos (off + (h - 1) * stride + w * 4))))
          ≡ false
        → (w * 4 ≤ stride) × (off + (h - 1) * stride + w * 4 ≤ room)
    bounds k = ground arith

-- What `blit-pixels!` lets through, with an offset and a stride from 0 on, it reads inside the
-- buffer: all four bytes of pixel `c` of row `r` lie before its end.
pub pixels_outside-IsSafe :
    (off w h stride room r c : ℕ)
    → pixels_outside (pos off) (pos w) (pos h) (pos stride) room ≡ false
    → r < h
    → c < w
    → off + (r * stride + c * 4) + 3 < room
pixels_outside-IsSafe off w h stride room r c ok row column =
    let some_h : 0 < h = omega arith in
    let (wide, end) = pixels-end off w h stride room some_h ok in
    let product : r * stride ≤ (h - 1) * stride = mul-le-mul_right stride (omega arith) in
    omega arith
