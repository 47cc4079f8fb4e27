-- ===== src/Gfx/Copy.antt =====
-- kernel/gfx.c: the sizes that `gfx_copy_rect_on` cuts to the surface.
use beeros.Prelude.{ℕ, ◌+◌, ◌-◌, ◌%◌, ◌≤◌, ◌<◌, ◌≡◌, ◌⊎◌, arith}
use beeros.Gfx.Draw.{copy_extent, u32_mod}

-- For a start below the surface's size and a sum below 2^32, the extent is cut so that it ends at
-- or before the surface's end; it is the one that was asked for or ends exactly there.
pub copy_extent_lem :
    (start size max : ℕ)
    → start < max
    → start + size < u32_mod
    → (start + copy_extent start size max ≤ max)
      × (copy_extent start size max ≤ size)
      × ((copy_extent start size max ≡ size) ⊎ (start + copy_extent start size max ≡ max))
unfolding copy_extent
copy_extent_lem start size max inside small =
    let e : (start + size) % u32_mod ≡ start + size = omega arith in rw e (grind arith)

-- For sizes in 32 bits and a start below the surface's size, where the sum reaches 2^32 and what is left of it is at most the surface's size, nothing is cut
-- and the extent ends past the surface.
pub copy_extent_wraps :
    (start size max : ℕ)
    → start < max
    → max < u32_mod
    → size < u32_mod
    → u32_mod ≤ start + size
    → start + size ≤ u32_mod + max
    → (copy_extent start size max ≡ size) × (max < start + copy_extent start size max)
unfolding copy_extent
copy_extent_wraps start size max inside small narrow wraps left =
    let e : (start + size) % u32_mod ≡ start + size - u32_mod = omega arith in rw e (grind arith)
