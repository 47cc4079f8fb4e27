-- ===== src/Gfx/Natives.antt =====
-- kernel/gfx_natives.c: the natives of beer.gfx over the drawing functions. `memory` is what the
-- ByteBuffers' bytes lie in, and `untag` is `untag_fixnum`, which some natives call unchecked.
use Prim.Native.Nat.{bit_and, bit_or}
use Prim.Native.String.{String}
use beeros.Prelude.{ℕ, ◌+◌, ◌-◌, ◌*◌, ◌%◌, ◌^◌, Bool, true, ◌||◌, List, [], ◌∷◌, ltb, if◌then◌else◌}
use beeros.Prelude.Int.{ℤ, pos, negsuc, pos_part, ◌+ℤ◌, ◌-ℤ◌, ◌*ℤ◌, ltb_ℤ}
use beeros.Beerlang.{Value, nil, fixnum, bytebuffer, Reply, value, error, truthy}
use beeros.Gfx.Surface.{Gfx, gfx_width, gfx_height, gfx_cursor, gfx_surface_new, gfx_surface_free}
use beeros.Gfx.Draw.{
  u32_mod, gfx_set_pixel, gfx_fill_rect, gfx_fill_rect_on, gfx_blit_bits_on, gfx_copy_rect_on,
  gfx_own, gfx_owner_at, gfx_present, gfx_fill_owned, gfx_blit_pixels_on, gfx_blit_surface,
}

-- `(uint32_t)`
pub u32 : ℤ → ℕ
u32 (pos i) = i % u32_mod
u32 (negsuc i) = u32_mod - 1 - i % u32_mod

-- `(int32_t)` and `(int)`
pub i32 : ℤ → ℤ
i32 i = if ltb (u32 i) (2 ^ 31) then pos (u32 i) else negsuc (u32_mod - 1 - u32 i)

module _ (untag : Value → ℤ) where
  pub native_gfx_set_pixel : List Value → Gfx → Reply × Gfx
  native_gfx_set_pixel (x ∷ y ∷ c ∷ []) g =
      (value nil, gfx_set_pixel (u32 (untag x)) (u32 (untag y)) (u32 (untag c)) g)
  native_gfx_set_pixel _ g = (value nil, g)

  pub native_gfx_fill_rect : List Value → Gfx → Reply × Gfx
  native_gfx_fill_rect (x ∷ y ∷ w ∷ h ∷ c ∷ []) g = (
    value nil,
    gfx_fill_rect (u32 (untag x)) (u32 (untag y)) (u32 (untag w)) (u32 (untag h)) (u32 (untag c)) g,
  )
  native_gfx_fill_rect _ g = (value nil, g)

  pub native_gfx_rgb : List Value → Reply
  native_gfx_rgb (r ∷ gr ∷ b ∷ []) = value (
      fixnum (
        pos (
          bit_or
            (bit_or (bit_and (u32 (untag r)) 255 * 2 ^ 16) (bit_and (u32 (untag gr)) 255 * 2 ^ 8))
            (bit_and (u32 (untag b)) 255))))
  native_gfx_rgb _ = value (fixnum (pos 0))

  pub native_gfx_clear : List Value → Gfx → Reply × Gfx
  native_gfx_clear [] g = (value nil, gfx_fill_rect 0 0 (gfx_width g) (gfx_height g) 0 g)
  native_gfx_clear (c ∷ _) g =
      (value nil, gfx_fill_rect 0 0 (gfx_width g) (gfx_height g) (u32 (untag c)) g)

pub native_gfx_width : Gfx → Reply
native_gfx_width g = value (fixnum (pos (gfx_width g)))

pub native_gfx_height : Gfx → Reply
native_gfx_height g = value (fixnum (pos (gfx_height g)))

-- `off < 0 || off + h * stride > capacity`, in 64 bits.
unfoldable pub bitmap_outside : ℤ → ℕ → ℕ → ℕ → Bool
bitmap_outside (negsuc off) h stride cap = true
bitmap_outside (pos off) h stride cap = ltb cap ((off + h * stride) % 2 ^ 64)

-- The guard of `native_gfx_blit_pixels` for w and h above 0.
unfoldable pub pixels_outside : (off w h stride : ℤ) → ℕ → Bool
pixels_outside off w h stride cap =
    ltb_ℤ off (pos 0)
    || (ltb_ℤ stride (w *ℤ pos 4) || ltb_ℤ (pos cap) (off +ℤ (h -ℤ pos 1) *ℤ stride +ℤ w *ℤ pos 4))

background : Value → ℤ
background (fixnum bg) = bg
background _ = negsuc 0

module _ (memory : ℕ → ℕ) where
  -- `blit_bits`; `numbers` is the message of `fixnums`.
  blit_bits : String → ℤ → List Value → Gfx → Reply × Gfx
  blit_bits numbers id
        (fixnum x
          ∷ fixnum y
          ∷ bytebuffer addr cap
          ∷ fixnum off
          ∷ fixnum w
          ∷ fixnum h
          ∷ fixnum stride
          ∷ fixnum scale
          ∷ fixnum fg
          ∷ bg
          ∷ [])
        g =
      if bitmap_outside off (u32 h) (u32 stride) cap
      then (error "blit-bits!: bitmap outside the buffer", g)
      else (
        value nil,
        gfx_blit_bits_on id (i32 x) (i32 y) (λ k. memory (addr + pos_part off + k)) (u32 w) (u32 h)
            (u32 stride) (u32 scale) (u32 fg) (background bg) g,
      )
  blit_bits numbers id (_ ∷ _ ∷ bytebuffer addr cap ∷ _) g = (error numbers, g)
  blit_bits numbers id _ g = (error "blit-bits!: a ByteBuffer expected", g)

  pub native_gfx_blit_bits : List Value → Gfx → Reply × Gfx
  native_gfx_blit_bits (x ∷ y ∷ b ∷ off ∷ w ∷ h ∷ stride ∷ scale ∷ fg ∷ bg ∷ []) g =
      blit_bits "blit-bits!: numbers expected" (pos 0)
        (x ∷ y ∷ b ∷ off ∷ w ∷ h ∷ stride ∷ scale ∷ fg ∷ bg ∷ []) g
  native_gfx_blit_bits _ g =
      (error "blit-bits!: (blit-bits! x y buf off w h stride scale fg bg)", g)

  pub native_gfx_blit_bits_on : List Value → Gfx → Reply × Gfx
  native_gfx_blit_bits_on (fixnum id ∷ x ∷ y ∷ b ∷ off ∷ w ∷ h ∷ stride ∷ scale ∷ fg ∷ bg ∷ []) g =
      blit_bits "blit-bits-on!: numbers expected" (i32 id)
        (x ∷ y ∷ b ∷ off ∷ w ∷ h ∷ stride ∷ scale ∷ fg ∷ bg ∷ []) g
  native_gfx_blit_bits_on _ g =
      (error "blit-bits-on!: (blit-bits-on! surface x y buf off w h stride scale fg bg)", g)

  -- The 32-bit pixel at an address.
  word : ℕ → ℕ
  word a = memory a + 2 ^ 8 * memory (a + 1) + 2 ^ 16 * memory (a + 2) + 2 ^ 24 * memory (a + 3)

  pub native_gfx_blit_pixels : List Value → Gfx → Reply × Gfx
  native_gfx_blit_pixels
        (fixnum id
          ∷ fixnum x
          ∷ fixnum y
          ∷ bytebuffer addr cap
          ∷ fixnum off
          ∷ fixnum w
          ∷ fixnum h
          ∷ fixnum stride
          ∷ key
          ∷ [])
        g =
      if ltb_ℤ w (pos 1) || ltb_ℤ h (pos 1)
      then (value nil, g)
      else if pixels_outside off w h stride cap
      then (error "blit-pixels!: pixels outside the buffer", g)
      else (
        value nil,
        gfx_blit_pixels_on (i32 id) x y (λ k. word (addr + pos_part off + pos_part k)) w h stride
            (background key) g,
      )
  native_gfx_blit_pixels (_ ∷ _ ∷ _ ∷ bytebuffer addr cap ∷ _ ∷ _ ∷ _ ∷ _ ∷ _ ∷ []) g =
      (error "blit-pixels!: numbers expected", g)
  native_gfx_blit_pixels _ g =
      (error "blit-pixels!: (blit-pixels! surface x y buf off w h stride key)", g)

-- `copy_rect`: negative arguments do nothing.
copy_rect : String → ℤ → List Value → Gfx → Reply × Gfx
copy_rect numbers id
      (fixnum (pos sx)
        ∷ fixnum (pos sy)
        ∷ fixnum (pos w)
        ∷ fixnum (pos h)
        ∷ fixnum (pos dx)
        ∷ fixnum (pos dy)
        ∷ [])
      g =
    (
      value nil,
      gfx_copy_rect_on id (sx % u32_mod) (sy % u32_mod) (w % u32_mod) (h % u32_mod) (dx % u32_mod)
          (dy % u32_mod) g,
    )
copy_rect numbers id (fixnum sx ∷ fixnum sy ∷ fixnum w ∷ fixnum h ∷ fixnum dx ∷ fixnum dy ∷ []) g =
    (value nil, g)
copy_rect numbers id _ g = (error numbers, g)

pub native_gfx_copy_rect : List Value → Gfx → Reply × Gfx
native_gfx_copy_rect (sx ∷ sy ∷ w ∷ h ∷ dx ∷ dy ∷ []) g =
    copy_rect "copy-rect!: numbers expected" (pos 0) (sx ∷ sy ∷ w ∷ h ∷ dx ∷ dy ∷ []) g
native_gfx_copy_rect _ g = (error "copy-rect!: (copy-rect! sx sy w h dx dy)", g)

pub native_gfx_copy_rect_on : List Value → Gfx → Reply × Gfx
native_gfx_copy_rect_on (fixnum id ∷ sx ∷ sy ∷ w ∷ h ∷ dx ∷ dy ∷ []) g =
    copy_rect "copy-rect-on!: numbers expected" (i32 id) (sx ∷ sy ∷ w ∷ h ∷ dx ∷ dy ∷ []) g
native_gfx_copy_rect_on _ g = (error "copy-rect-on!: (copy-rect-on! surface sx sy w h dx dy)", g)

pub native_gfx_fill_rect_on : List Value → Gfx → Reply × Gfx
native_gfx_fill_rect_on (fixnum id ∷ fixnum x ∷ fixnum y ∷ fixnum w ∷ fixnum h ∷ fixnum c ∷ []) g =
    (value nil, gfx_fill_rect_on (i32 id) x y w h (u32 c) g)
native_gfx_fill_rect_on (_ ∷ _ ∷ _ ∷ _ ∷ _ ∷ _ ∷ []) g =
    (error "fill-rect-on!: numbers expected", g)
native_gfx_fill_rect_on _ g = (error "fill-rect-on!: (fill-rect-on! surface x y w h color)", g)

id_value : ℤ → Value
id_value (pos i) = fixnum (pos i)
id_value (negsuc i) = nil

-- `granted` is what `calloc` answers.
pub native_gfx_surface : Bool → List Value → Gfx → Reply × Gfx
native_gfx_surface granted (fixnum w ∷ fixnum h ∷ []) g =
    let (id, g') = gfx_surface_new granted (u32 w) (u32 h) g in
    if ltb_ℤ w (pos 1) || ltb_ℤ h (pos 1) then (value nil, g) else (value (id_value id), g')
native_gfx_surface granted (_ ∷ _ ∷ []) g = (error "surface: numbers expected", g)
native_gfx_surface granted _ g = (error "surface: (surface w h)", g)

pub native_gfx_surface_free : List Value → Gfx → Reply × Gfx
native_gfx_surface_free (fixnum id ∷ []) g = (value nil, gfx_surface_free (i32 id) g)
native_gfx_surface_free (_ ∷ []) g = (error "surface-free!: numbers expected", g)
native_gfx_surface_free _ g = (value nil, g)

pub native_gfx_own : List Value → Gfx → Reply × Gfx
native_gfx_own (fixnum id ∷ fixnum x ∷ fixnum y ∷ fixnum w ∷ fixnum h ∷ []) g =
    (value nil, gfx_own (i32 id) x y w h g)
native_gfx_own (_ ∷ _ ∷ _ ∷ _ ∷ _ ∷ []) g = (error "own!: numbers expected", g)
native_gfx_own _ g = (error "own!: (own! id x y w h)", g)

pub native_gfx_owner_at : List Value → Gfx → Reply
native_gfx_owner_at (fixnum x ∷ fixnum y ∷ []) g = value (id_value (gfx_owner_at x y g))
native_gfx_owner_at (_ ∷ _ ∷ []) g = error "owner-at: numbers expected"
native_gfx_owner_at _ g = value nil

pub native_gfx_present : List Value → Gfx → Reply × Gfx
native_gfx_present
      (fixnum id ∷ fixnum sx ∷ fixnum sy ∷ fixnum w ∷ fixnum h ∷ fixnum dx ∷ fixnum dy ∷ []) g =
    (value nil, gfx_present (i32 id) sx sy w h dx dy g)
native_gfx_present (_ ∷ _ ∷ _ ∷ _ ∷ _ ∷ _ ∷ _ ∷ []) g = (error "present!: numbers expected", g)
native_gfx_present _ g = (error "present!: (present! id sx sy w h dx dy)", g)

pub native_gfx_fill_owned : List Value → Gfx → Reply × Gfx
native_gfx_fill_owned (fixnum id ∷ fixnum x ∷ fixnum y ∷ fixnum w ∷ fixnum h ∷ fixnum c ∷ []) g =
    (value nil, gfx_fill_owned (i32 id) x y w h (u32 c) g)
native_gfx_fill_owned (_ ∷ _ ∷ _ ∷ _ ∷ _ ∷ _ ∷ []) g = (error "fill-owned!: numbers expected", g)
native_gfx_fill_owned _ g = (error "fill-owned!: (fill-owned! id x y w h color)", g)

pub native_gfx_cursor : List Value → Gfx → Reply × Gfx
native_gfx_cursor (fixnum x ∷ fixnum y ∷ show ∷ []) g =
    (value nil, gfx_cursor (i32 x) (i32 y) (truthy show) g)
native_gfx_cursor (_ ∷ _ ∷ _ ∷ []) g = (error "cursor!: numbers expected", g)
native_gfx_cursor _ g = (error "cursor!: (cursor! x y show?)", g)

pub native_gfx_blit_surface : List Value → Gfx → Reply × Gfx
native_gfx_blit_surface
      (fixnum src
        ∷ fixnum sx
        ∷ fixnum sy
        ∷ fixnum w
        ∷ fixnum h
        ∷ fixnum dst
        ∷ fixnum dx
        ∷ fixnum dy
        ∷ fixnum scale
        ∷ [])
      g =
    (value nil, gfx_blit_surface (i32 src) sx sy w h (i32 dst) dx dy scale g)
native_gfx_blit_surface (_ ∷ _ ∷ _ ∷ _ ∷ _ ∷ _ ∷ _ ∷ _ ∷ _ ∷ []) g =
    (error "blit-surface!: numbers expected", g)
native_gfx_blit_surface _ g =
    (error "blit-surface!: (blit-surface! src sx sy w h dst dx dy scale)", g)
