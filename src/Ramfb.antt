-- ===== src/Ramfb.antt =====
-- platform/virt-riscv/hal/gfx_ramfb.c: the search of QEMU's configuration files and the set-up of the
-- framebuffer. `Files` has the search against the directory it reads, `Device` the structures as
-- the device reads them.
use beeros.Prelude.{
  ℕ, zero, suc, ◌+◌, ◌*◌, ◌/◌, ◌%◌, ◌^◌, Bool, true, false, Option, none, some, List, [], ◌∷◌, ◌++◌,
  ◌==◌, if◌then◌else◌, drop,
}
use beeros.Prelude.Slice.{update}
use beeros.Gfx.Surface.{Gfx, gfx_init}
mod Files
mod Device
mod Tests

-- The shifted parts do not overlap, so that `|` is a sum.
unfoldable pub be16 : ℕ → ℕ
be16 v = v / 2 ^ 8 % 2 ^ 8 + v % 2 ^ 8 * 2 ^ 8

unfoldable pub be32 : ℕ → ℕ
be32 v =
    v / 2 ^ 24 % 2 ^ 8
    + v / 2 ^ 16 % 2 ^ 8 * 2 ^ 8
    + v / 2 ^ 8 % 2 ^ 8 * 2 ^ 16
    + v % 2 ^ 8 * 2 ^ 24

unfoldable pub be64 : ℕ → ℕ
be64 v = be32 (v / 2 ^ 32 % 2 ^ 32) + be32 (v % 2 ^ 32) * 2 ^ 32

-- `fwcfg_read8`: the data register gives the bytes of the selected item one by one, then 0.
unfoldable pub fwcfg_read8 : List ℕ → ℕ × List ℕ
fwcfg_read8 [] = (0, [])
fwcfg_read8 (b ∷ rest) = (b, rest)

-- The loop over `p[j]`.
unfoldable pub fwcfg_read : ℕ → List ℕ → List ℕ × List ℕ
fwcfg_read zero item = ([], item)
fwcfg_read (suc n) item =
    let (b, item') = fwcfg_read8 item in let (bs, item'') = fwcfg_read n item' in (b ∷ bs, item'')

abbrev pub first_byte : List ℕ → ℕ
first_byte [] = 0
first_byte (b ∷ rest) = b

-- `FWCfgFile`: a little-endian processor reads `select` at offset 4, and `name` stands at 8.
abbrev pub entry_size : ℕ
entry_size = 64

abbrev pub entry_select : List ℕ → ℕ
entry_select entry = first_byte (drop 4 entry) + first_byte (drop 5 entry) * 2 ^ 8

abbrev pub entry_name : List ℕ → List ℕ
entry_name entry = drop 8 entry

abbrev pub name_size : ℕ
name_size = 56

-- Whether `strncmp` of two strings answers 0. A string ends at a zero, as where its list ends.
unfoldable pub strncmp_equal : ℕ → List ℕ → List ℕ → Bool
strncmp_equal zero s t = true
strncmp_equal (suc n) s t =
    let rest = strncmp_equal n (drop 1 s) (drop 1 t) in
    if first_byte s == first_byte t then (if first_byte s == 0 then true else rest) else false

-- The loop over the entries, with those that are left.
unfoldable pub find_entry : ℕ → List ℕ → List ℕ → ℕ
find_entry zero name item = 0
find_entry (suc left) name item =
    let (entry, item') = fwcfg_read entry_size item in
    let rest = find_entry left name item' in
    if strncmp_equal name_size (entry_name entry) name then be16 (entry_select entry) else rest

-- The writes of the address, in their order.
pub data Write : Type 0 where
  dma_hi : ℕ → Write
  dma_lo : ℕ → Write

-- The four bytes of the number of entries, shifted into place.
unfoldable pub read_count : List ℕ → ℕ × List ℕ
read_count item =
    let (b3, item) = fwcfg_read8 item in
    let (b2, item) = fwcfg_read8 item in
    let (b1, item) = fwcfg_read8 item in
    let (b0, item) = fwcfg_read8 item in (b3 * 2 ^ 24 + b2 * 2 ^ 16 + b1 * 2 ^ 8 + b0, item)

-- `items` are the items by the number that is written to the selector register.
unfoldable pub fwcfg_find_file : (items : ℕ → List ℕ) → List ℕ → ℕ
fwcfg_find_file items name =
    let (count, item) = read_count (items (be16 0x0019)) in find_entry count name item

-- `QemuRamfbConfig` and `FWCfgDmaAccess`
pub record Config : Type 0 where
  pub addr : ℕ
  pub fourcc : ℕ
  pub flags : ℕ
  pub width : ℕ
  pub height : ℕ
  pub stride : ℕ

pub record DmaAccess : Type 0 where
  pub control : ℕ
  pub length : ℕ
  pub address : ℕ

abbrev pub fb_width : ℕ
fb_width = 1280

abbrev pub fb_height : ℕ
fb_height = 720

abbrev pub config_size : ℕ
config_size = 28

unfoldable pub config : ℕ → Config
config fb_addr = record {
  addr = be64 fb_addr;
  fourcc = be32 0x34325258;
  flags = 0;
  width = be32 fb_width;
  height = be32 fb_height;
  stride = be32 (fb_width * 4);
}

unfoldable pub dma_access : ℕ → ℕ → DmaAccess
dma_access sel config_addr = record {
  control = be32 (sel * 2 ^ 16 + 0x18);
  length = be32 config_size;
  address = be64 config_addr;
}

-- `for (i = 0; i < n; i++) fb[i] = 0`
unfoldable pub clear_fb : ℕ → (ℕ → ℕ) → ℕ → ℕ
clear_fb zero fb = fb
clear_fb (suc n) fb = update (clear_fb n fb) n 0

-- What `gfx_init_ramfb` has to do with: the framebuffer's address and pixels, and the addresses of
-- its two structures.
pub record Place : Type 0 where
  pub fb_addr : ℕ
  pub fb : ℕ → ℕ
  pub config_addr : ℕ
  pub dma_addr : ℕ

pub record Started : Type 0 where
  pub cfg : Config
  pub dma : DmaAccess
  pub writes : List Write
  pub gfx : Gfx

-- "etc/ramfb"
abbrev pub ramfb_name : List ℕ
ramfb_name = 101 ∷ 116 ∷ 99 ∷ 47 ∷ 114 ∷ 97 ∷ 109 ∷ 102 ∷ 98 ∷ []

-- What follows when the file is there; `granted` is what calloc in gfx_init answers.
unfoldable pub start_ramfb : Bool → ℕ → Place → Gfx → Started
start_ramfb granted sel at g = record {
  cfg = config at.fb_addr;
  dma = dma_access sel at.config_addr;
  writes =
      dma_hi (be32 (at.dma_addr / 2 ^ 32 % 2 ^ 32)) ∷ dma_lo (be32 (at.dma_addr % 2 ^ 32)) ∷ [];
  gfx = gfx_init granted fb_width fb_height (clear_fb (fb_width * fb_height) at.fb) g;
}

-- `none`: there is no such device, and nothing was done.
unfoldable pub gfx_init_ramfb : Bool → (items : ℕ → List ℕ) → Place → Gfx → Option Started
gfx_init_ramfb granted items at g =
    let sel = fwcfg_find_file items ramfb_name in
    if sel == 0 then none else some (start_ramfb granted sel at g)
