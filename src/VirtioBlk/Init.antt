-- ===== src/VirtioBlk/Init.antt =====
-- kernel/virtio_blk.c: setting up a device through its registers, and the probe of all slots.
-- The device behind the registers is a parameter: how its state answers a read and changes at a
-- write. Every write is recorded in its order.
use Prim.Native.Nat.{bit_and, bit_or}
use beeros.Prelude.{
  ℕ, zero, suc, ◌+◌, ◌-◌, ◌*◌, ◌/◌, ◌%◌, ◌^◌, ◌≤◌, ◌<◌, ◌≡◌, Bool, true, false, not, ◌&&◌, ◌||◌,
  Option, none, some, List, [], ◌∷◌, ◌++◌, ltb, leb, ◌==◌, if◌then◌else◌,
}
use beeros.Prelude.Slice.{update}
use beeros.VirtioBlk.{VBlk, Driver, qsize, u32_mod, wr}
pub mod Protocol
pub mod Probe

pub record Mmio (D : Type 0) : Type 0 where
  pub read : ℕ → D → ℕ × D
  pub write : ℕ → ℕ → D → D

-- One transport: its device, and the writes so far.
pub record Bus (D : Type 0) : Type 0 where
  pub device : D
  pub writes : List (ℕ × ℕ)

-- What `init_device` answers; `unsettled` says that the fuel of its configuration loop ran out.
pub data Outcome : Type 0 where
  ready failed unsettled : Outcome

abbrev pub r_status : ℕ
r_status = 0x070

abbrev pub r_dev_features : ℕ
r_dev_features = 0x010

abbrev pub r_dev_features_sel : ℕ
r_dev_features_sel = 0x014

abbrev pub r_drv_features : ℕ
r_drv_features = 0x020

abbrev pub r_drv_features_sel : ℕ
r_drv_features_sel = 0x024

abbrev pub r_queue_sel : ℕ
r_queue_sel = 0x030

abbrev pub r_queue_num_max : ℕ
r_queue_num_max = 0x034

abbrev pub r_queue_num : ℕ
r_queue_num = 0x038

abbrev pub r_queue_ready : ℕ
r_queue_ready = 0x044

abbrev pub r_config_gen : ℕ
r_config_gen = 0x0fc

abbrev pub r_config : ℕ
r_config = 0x100

abbrev pub st_driver : ℕ
st_driver = 3

abbrev pub st_features_ok : ℕ
st_features_ok = 8

abbrev pub st_driver_ok : ℕ
st_driver_ok = 4

abbrev pub st_failed : ℕ
st_failed = 128

-- `F_BLK_RO` and `F_BLK_FLUSH`
abbrev pub f_blk_ro : ℕ
f_blk_ro = 0x20

abbrev pub f_blk_flush : ℕ
f_blk_flush = 0x200

-- The addresses of `d->desc`, `d->avail` and `d->used`.
pub record Queue : Type 0 where
  pub desc : ℕ
  pub avail : ℕ
  pub used : ℕ

-- A run over the bus: it goes on with a value, or has ended (`goto fail`, or out of fuel).
pub data Run (A : Type 0) (D : Type 0) : Type 0 where
  next : A → Bus D → Run A D
  stop : Outcome → Bus D → Run A D

abbrev pub M : Type 0 → Type 0 → Type 0
M D A = Bus D → Run A D

infixl 5 ◌>>=◌ ◌>>◌
unfoldable pub ◌>>=◌ : {D A B : Type 0} → M D A → (A → M D B) → M D B
◌>>=◌ m f b = elim (m b) [ next a b' ↦ f a b' | stop o b' ↦ stop o b' ]

abbrev pub ◌>>◌ : {D B : Type 0} → M D (Unit {0}) → M D B → M D B
m >> k = m >>= λ _. k

unfoldable pub pure : {D A : Type 0} → A → M D A
pure a b = next a b

module _ {D : Type 0} (mmio : Mmio D) where
  unfoldable pub rd : ℕ → M D ℕ
  rd off b =
      next ((mmio.read off b.device).0 % u32_mod) (record b { device = (mmio.read off b.device).1 })

  unfoldable pub write_reg : ℕ → ℕ → M D (Unit {0})
  write_reg off v b =
      next tt (record b { device = mmio.write off v b.device; writes = wr off v b.writes })

  abbrev pub wr_addr : ℕ → ℕ → ℕ → M D (Unit {0})
  wr_addr lo hi p = do write_reg lo (p % u32_mod); write_reg hi (p / u32_mod % u32_mod)

  -- `goto fail` with the status so far.
  unfoldable pub fail : ℕ → M D (Unit {0})
  fail st b = stop failed (record b {
    device = mmio.write r_status (bit_or st st_failed) b.device;
    writes = wr r_status (bit_or st st_failed) b.writes;
  })

  unfoldable pub require : Bool → ℕ → M D (Unit {0})
  require true st = pure tt
  require false st = fail st

  -- Reset, acknowledge and agree on the features; the features of word 0 that were accepted.
  unfoldable pub negotiate : M D ℕ
  negotiate = do
    write_reg r_status 0
    write_reg r_status st_driver
    write_reg r_dev_features_sel 0
    f0 ← rd r_dev_features
    write_reg r_dev_features_sel 1
    f1 ← rd r_dev_features
    require (not (bit_and f1 1 == 0)) st_driver
    let want = bit_and f0 (bit_or f_blk_ro f_blk_flush)
    write_reg r_drv_features_sel 0
    write_reg r_drv_features want
    write_reg r_drv_features_sel 1
    write_reg r_drv_features 1
    write_reg r_status (bit_or st_driver st_features_ok)
    st ← rd r_status
    require (not (bit_and st st_features_ok == 0)) (bit_or st_driver st_features_ok)
    pure want

  unfoldable pub offer_queue : Queue → M D (Unit {0})
  offer_queue q = do
    write_reg r_queue_sel 0
    in_use ← rd r_queue_ready
    require (in_use == 0) (bit_or st_driver st_features_ok)
    max ← rd r_queue_num_max
    require (leb qsize max) (bit_or st_driver st_features_ok)
    write_reg r_queue_num qsize
    wr_addr 0x080 0x084 q.desc
    wr_addr 0x090 0x094 q.avail
    wr_addr 0x0a0 0x0a4 q.used
    write_reg r_queue_ready 1

  -- One turn of the configuration loop: the generations around the two halves of the capacity.
  unfoldable pub read_config : M D (ℕ × ℕ × ℕ × ℕ)
  read_config = do
    gen ← rd r_config_gen
    lo ← rd r_config
    hi ← rd (r_config + 4)
    again ← rd r_config_gen
    pure (gen, lo, hi, again)

  -- The loop, by fuel; the capacity in sectors.
  unfoldable pub capacity : ℕ → M D ℕ
  capacity zero = stop unsettled
  capacity (suc fuel) = do
    (gen, lo, hi, again) ← read_config
    if gen == again then pure (hi * u32_mod + lo) else capacity fuel

  unfoldable pub init_run : ℕ → Queue → M D (ℕ × ℕ)
  init_run fuel q = do
    want ← negotiate
    offer_queue q
    size ← capacity fuel
    write_reg r_status (bit_or (bit_or st_driver st_features_ok) st_driver_ok)
    pure (want, size)

  -- What `init_device` stores into `d`: nothing but these fields.
  unfoldable pub initialised : ℕ → Run (ℕ × ℕ) D → VBlk → Outcome × VBlk × Bus D
  initialised base (stop o b) d = (o, record d { base = base }, b)
  initialised base (next (want, size) b) d = (
    ready,
    record d {
      base = base;
      sectors = size;
      is_read_only = not (bit_and want f_blk_ro == 0);
      can_flush = not (bit_and want f_blk_flush == 0);
    },
    b,
  )

  unfoldable pub init_device : ℕ → Queue → ℕ → Bus D → VBlk → Outcome × VBlk × Bus D
  init_device fuel q base b d = initialised base (init_run fuel q b) d
