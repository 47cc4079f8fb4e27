-- ===== src/Gfx/Draw/Bits.antt =====
-- kernel/gfx.c: bitmaps, as text is drawn.
use Prim.Native.Nat.{bit_and}
use beeros.Prelude.{
  ℕ, ◌+◌, ◌*◌, ◌/◌, ◌%◌, ◌^◌, Bool, true, false, not, ◌&&◌, ◌||◌, Option, none, some, ◌==◌,
  if◌then◌else◌,
}
use beeros.Prelude.Slice.{update}
use beeros.Prelude.Int.{ℤ, pos, negsuc, pos_part, ◌+ℤ◌, ltb_ℤ}
use beeros.Gfx.Paint.{repeat}
use beeros.Gfx.Surface.{Target, Gfx, target}
use beeros.Gfx.Draw.Fill.{u32_mod, rect, drawn}

-- `gfx_blit_bits_on`: bit `c` of row `r` of the bitmap.
pub bit_on : (ℕ → ℕ) → ℕ → ℕ → ℕ → Bool
bit_on bits stride r c =
    not (bit_and (bits (r * stride % u32_mod + c / 8)) (128 / 2 ^ (c % 8)) == 0)

-- The innermost loop: one bit as `scale` pixels of line `py`.
bit_pixels : Target → ℤ → ℕ → ℕ → ℕ → ℕ → (ℕ → ℕ) → ℕ → ℕ
bit_pixels t x py scale c color px =
    repeat 0 scale
      (λ sx p.
        let at = x +ℤ pos (c * scale % u32_mod) +ℤ pos sx in
        if not (ltb_ℤ at (pos 0)) && ltb_ℤ at (pos t.w)
        then update p (py * t.w + pos_part at) color
        else p)
      px

bit_color : Bool → ℕ → ℤ → Option ℕ
bit_color true fg bg = some fg
bit_color false fg (pos bg) = some (bg % u32_mod)
bit_color false fg (negsuc bg) = none

unfoldable pub blit_bits_loops :
    Target → (x y : ℤ) → (ℕ → ℕ) → (w h stride scale fg : ℕ) → ℤ → (ℕ → ℕ) → ℕ → ℕ
unfolding bit_pixels bit_color
blit_bits_loops t x y bits w h stride scale fg bg px =
    repeat 0 h
      (λ r. repeat 0 scale λ sy p.
        let py = y +ℤ pos (r * scale % u32_mod) +ℤ pos sy in
        if ltb_ℤ py (pos 0) || not (ltb_ℤ py (pos t.h))
        then p
        else repeat 0 w
            (λ c q. elim (bit_color (bit_on bits stride r c) fg bg) [
              | none ↦ q
              | some color ↦ bit_pixels t x (pos_part py) scale c color q
            ])
            p)
      px

unfoldable pub gfx_blit_bits_on :
    ℤ → (x y : ℤ) → (ℕ → ℕ) → (w h stride scale fg : ℕ) → ℤ → Gfx → Gfx
gfx_blit_bits_on id x y bits w h stride scale fg bg g = elim (target id g) [
  | none ↦ g
  | some (i, t) ↦
      if scale == 0
      then g
      else drawn i (rect x y (pos (w * scale)) (pos (h * scale)))
          (blit_bits_loops t x y bits w h stride scale fg bg) g
]

pub gfx_blit_bits : (x y : ℤ) → (ℕ → ℕ) → (w h stride scale fg : ℕ) → ℤ → Gfx → Gfx
gfx_blit_bits x y bits w h stride scale fg bg g =
    gfx_blit_bits_on (pos 0) x y bits w h stride scale fg bg g
