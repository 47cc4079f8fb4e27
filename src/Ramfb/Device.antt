-- ===== src/Ramfb/Device.antt =====
-- What QEMU's devices read of the structures and registers that gfx_init_ramfb of
-- platform/virt-riscv/hal/gfx_ramfb.c sets: they take every field's bytes from the highest down.
use beeros.Prelude.{
  ℕ, zero, suc, ◌+◌, ◌*◌, ◌/◌, ◌%◌, ◌^◌, ◌<◌, ◌≡◌, refl, ◌⊎◌, inl, inr, Bool, true, false, none,
  some, List, [], ◌∷◌, arith, ◌==◌, if◌then◌else◌, Bool-cases,
}
use beeros.Gfx.Surface.{Gfx, gfx_init, gfx_width, gfx_height}
use beeros.Ramfb.{
  be32, be64, config, dma_access, config_size, Write, dma_hi, dma_lo, clear_fb, Place, Started,
  start_ramfb, gfx_init_ramfb, fwcfg_find_file, ramfb_name, fb_width, fb_height, find_entry,
  read_count, be16,
}

-- The `n` bytes that a little-endian processor stores for a number.
abbrev pub stored : ℕ → ℕ → List ℕ
stored zero v = []
stored (suc n) v = v % 256 ∷ stored n (v / 256)

-- The number that the device makes of bytes.
abbrev pub taken : ℕ → List ℕ → ℕ
taken high [] = high
taken high (b ∷ bs) = taken (high * 256 + b) bs

abbrev pub seen : ℕ → ℕ → ℕ
seen n v = taken 0 (stored n v)

seen-be32 : (v : ℕ) → seen 4 (be32 v) ≡ v % 2 ^ 32
unfolding be32
seen-be32 v = omega arith

be32-bound : (v : ℕ) → be32 v < 2 ^ 32
unfolding be32
be32-bound v = omega arith

seen-be64 : (v : ℕ) → seen 8 (be64 v) ≡ v % 2 ^ 64
unfolding be64
seen-be64 v =
    let low = seen-be32 (v / 2 ^ 32 % 2 ^ 32) in
    let high = seen-be32 (v % 2 ^ 32) in
    omega (arith, low, high, be32-bound (v / 2 ^ 32 % 2 ^ 32), be32-bound (v % 2 ^ 32))

clear_fb-zero : (n : ℕ) (fb : ℕ → ℕ) (i : ℕ) → i < n → clear_fb n fb i ≡ 0
unfolding clear_fb
clear_fb-zero zero fb i lt = absurd (omega arith)
clear_fb-zero (suc n) fb i lt = elim (Bool-cases (n == i)) [
  | inl last ↦ rw last refl
  | inr earlier ↦ rw earlier (clear_fb-zero n fb i (ground arith))
]

-- The address that the two registers make.
abbrev pub registered : List Write → ℕ
registered (dma_hi a ∷ dma_lo b ∷ []) = seen 4 a * 2 ^ 32 + seen 4 b
registered _ = 0

abbrev pub screen : Gfx → ℕ → ℕ
screen g i = elim (g.surfaces 0) [ none ↦ 0 | some t ↦ t.pixels i ]

pub record Seen (sel : ℕ) (at : Place) (s : Started) : Type 0 where
  pub framebuffer : seen 8 s.cfg.addr ≡ at.fb_addr
  pub format : (seen 4 s.cfg.fourcc ≡ 0x34325258) × (seen 4 s.cfg.flags ≡ 0)
  pub size :
      (seen 4 s.cfg.width ≡ gfx_width s.gfx)
      × (seen 4 s.cfg.height ≡ gfx_height s.gfx)
      × (seen 4 s.cfg.stride ≡ 4 * gfx_width s.gfx)
  pub command : seen 4 s.dma.control ≡ sel * 2 ^ 16 + 0x18
  pub transfer : (seen 4 s.dma.length ≡ 28) × (seen 8 s.dma.address ≡ at.config_addr)
  pub register : registered s.writes ≡ at.dma_addr
  pub black : (i : ℕ) → i < gfx_width s.gfx * gfx_height s.gfx → screen s.gfx i ≡ 0

start_ramfb-Seen :
    (granted : Bool) (sel : ℕ) (at : Place) (g : Gfx)
    → sel < 2 ^ 16
    → at.fb_addr < 2 ^ 64
    → at.config_addr < 2 ^ 64
    → at.dma_addr < 2 ^ 64
    → Seen sel at (start_ramfb granted sel at g)
unfolding start_ramfb config dma_access gfx_init
start_ramfb-Seen granted sel at g small fb cfg dma = record {
  framebuffer = omega (arith, seen-be64 at.fb_addr, fb);
  format = (seen-be32 0x34325258, refl);
  size = (seen-be32 fb_width, seen-be32 fb_height, seen-be32 (fb_width * 4));
  command = omega (arith, seen-be32 (sel * 2 ^ 16 + 0x18));
  transfer = (seen-be32 config_size, omega (arith, seen-be64 at.config_addr, cfg));
  register =
      omega
        (arith, seen-be32 (at.dma_addr / 2 ^ 32 % 2 ^ 32), seen-be32 (at.dma_addr % 2 ^ 32), dma);
  black = clear_fb-zero (fb_width * fb_height) at.fb;
}

be16-bound : (v : ℕ) → be16 v < 2 ^ 16
unfolding be16
be16-bound v = omega arith

if_below : (b : Bool) (x y k : ℕ) → x < k → y < k → (if b then x else y) < k
if_below true x y k hx hy = hx
if_below false x y k hx hy = hy

find_entry-bound : (n : ℕ) (name item : List ℕ) → find_entry n name item < 2 ^ 16
unfolding find_entry
find_entry-bound zero name item = omega arith
find_entry-bound (suc n) name item =
    if_below _ _ _ (2 ^ 16) (be16-bound _) (find_entry-bound n name _)

-- For addresses of 64 bits: gfx_init_ramfb does nothing if fwcfg_find_file finds no "etc/ramfb".
-- Otherwise the devices, which are big-endian, are told the framebuffer, its pixel format and the
-- size that gfx_init is given, with rows of four bytes for each pixel; the command is to select that
-- file and write to it 28 bytes of the configuration; and every pixel of the screen is black.
pub gfx_init_ramfb-Seen :
    (granted : Bool) (items : ℕ → List ℕ) (at : Place) (g : Gfx)
    → at.fb_addr < 2 ^ 64
    → at.config_addr < 2 ^ 64
    → at.dma_addr < 2 ^ 64
    → let sel = fwcfg_find_file items ramfb_name in
      ((sel ≡ 0) × (gfx_init_ramfb granted items at g ≡ none))
      ⊎ ((s : Started) × ((gfx_init_ramfb granted items at g ≡ some s) × Seen sel at s))
unfolding gfx_init_ramfb
gfx_init_ramfb-Seen granted items at g fb cfg dma =
    let sel = fwcfg_find_file items ramfb_name in
    elim (Bool-cases (sel == 0)) [
      | inl absent ↦ inl (ground arith, rw absent refl)
      | inr found ↦
          let small : sel < 2 ^ 16 =
            unfold fwcfg_find_file in
            find_entry-bound (read_count (items (be16 0x0019))).0 ramfb_name
              (read_count (items (be16 0x0019))).1 in
          inr (
            start_ramfb granted sel at g,
            (rw found refl, start_ramfb-Seen granted sel at g small fb cfg dma),
          )
    ]
