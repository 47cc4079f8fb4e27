-- ===== src/VirtioBlk.antt =====
-- kernel/virtio_blk.c: the virtio block driver over a split virtqueue. `Init` has the set-up of a
-- device through its registers; this module has the requests.
use beeros.Prelude.{
  ℕ, zero, suc, ◌+◌, ◌-◌, ◌*◌, ◌%◌, ◌^◌, Bool, true, false, not, ◌&&◌, ◌||◌, Option, none, some,
  List, [], ◌∷◌, ◌++◌, ltb, leb, ◌==◌, if◌then◌else◌,
}
use beeros.Prelude.Slice.{update}
use beeros.Prelude.Int.{ℤ, pos, negsuc}
pub mod Init
pub mod Device
pub mod Chain
pub mod Wait
pub mod Natives
mod Tests

abbrev pub u16_mod : ℕ
u16_mod = 2 ^ 16

abbrev pub u32_mod : ℕ
u32_mod = 2 ^ 32

abbrev pub u64_mod : ℕ
u64_mod = 2 ^ 64

abbrev pub qsize : ℕ
qsize = 8

abbrev pub sector_size : ℕ
sector_size = 512

abbrev pub timeout_us : ℕ
timeout_us = 2000000

abbrev pub desc_next : ℕ
desc_next = 1

abbrev pub desc_write : ℕ
desc_write = 2

-- `vblk_status`
pub data Status : Type 0 where
  ok io_error unsupported timeout out_of_range read_only no_device : Status

-- `struct vq_desc` and `struct blk_hdr`
pub record Desc : Type 0 where
  pub addr : ℕ
  pub len : ℕ
  pub flags : ℕ
  pub next : ℕ

pub record BlkHdr : Type 0 where
  pub type : ℕ
  pub sector : ℕ

-- `VBlk`. The driver's memory is shared with the device, which reads `desc`, `avail` and `hdr` and
-- writes `used` and `status`: what it writes enters as what the driver observes. `hdr_addr` and
-- `status_addr` are `&d->hdr` and `&d->status`.
pub record VBlk : Type 0 where
  pub desc : ℕ → Desc
  pub avail_ring : ℕ → ℕ
  pub avail_idx : ℕ
  pub hdr : BlkHdr
  pub status : ℕ
  pub hdr_addr : ℕ
  pub status_addr : ℕ
  pub base : ℕ
  pub sectors : ℕ
  pub is_read_only : Bool
  pub can_flush : Bool
  pub used_seen : ℕ
  pub writes : List (ℕ × ℕ)

-- `wr`: the register writes, as pairs of offset and value, in their order.
abbrev pub wr : ℕ → ℕ → List (ℕ × ℕ) → List (ℕ × ℕ)
wr off v writes = writes ++ ((off, v) ∷ [])

abbrev pub r_queue_notify : ℕ
r_queue_notify = 0x050

abbrev pub r_int_ack : ℕ
r_int_ack = 0x064

-- `devs` and `n_devs`
pub record Driver : Type 0 where
  pub devs : ℕ → VBlk
  pub n_devs : ℕ

-- What the driver sees while it waits: at each turn of the loop the used index and, if that has not
-- moved, the timer; and the interrupt status and the status byte at the end.
pub record Observed : Type 0 where
  pub int_status : ℕ
  pub started : ℕ
  pub polls : List (ℕ × ℕ)
  pub final_status : ℕ

pub data Waited : Type 0 where
  completed timed_out spinning : Waited

-- The loop of `submit`; `spinning` says that the observations ended first.
pub wait : (deadline seen : ℕ) → List (ℕ × ℕ) → Waited
wait deadline seen [] = spinning
wait deadline seen ((idx, now) ∷ rest) =
    let later = wait deadline seen rest in
    if idx == seen then (if ltb deadline now then timed_out else later) else completed

pub status_of : ℕ → Status
status_of s = if s == 0 then ok else if s == 2 then unsupported else io_error

-- The stores of `submit` before it waits: chain 0 is made available, and the device notified.
pub publish : VBlk → VBlk
publish d = record d {
  status = 0xff;
  avail_ring = update d.avail_ring (d.avail_idx % qsize) 0;
  avail_idx = (d.avail_idx + 1) % u16_mod;
  writes = wr r_queue_notify 0 d.writes;
}

-- What follows the loop. A `none` goes on waiting.
finish : Waited → Observed → VBlk → Option Status × VBlk
finish spinning seen d = (none, d)
finish timed_out seen d = (some timeout, d)
finish completed seen d = (
  some (status_of seen.final_status),
  record d {
    used_seen = (d.used_seen + 1) % u16_mod;
    status = seen.final_status;
    writes = wr r_int_ack seen.int_status d.writes;
  },
)

pub submit : Observed → VBlk → Option Status × VBlk
submit seen d =
    let d' = publish d in
    finish (wait ((seen.started + timeout_us) % u64_mod) d'.used_seen seen.polls) seen d'

-- `dev`: `none` is NULL.
pub dev : ℤ → Driver → Option ℕ
dev (pos i) v = if ltb i v.n_devs then some i else none
dev (negsuc i) v = none

pub sectors : ℤ → Driver → ℕ
sectors id v = elim (dev id v) [ none ↦ 0 | some i ↦ (v.devs i).sectors ]

pub is_read_only : ℤ → Driver → Bool
is_read_only id v = elim (dev id v) [ none ↦ false | some i ↦ (v.devs i).is_read_only ]

pub can_flush : ℤ → Driver → Bool
can_flush id v = elim (dev id v) [ none ↦ false | some i ↦ (v.devs i).can_flush ]

desc : ℕ → ℕ → ℕ → ℕ → Desc
desc addr len flags next = record { addr = addr; len = len; flags = flags; next = next }

-- The request block and the three descriptors of `virtio_blk_rw`.
pub rw_chain : Bool → ℕ → ℕ → ℕ → VBlk → VBlk
unfolding desc
rw_chain write lba n buf d = record d {
  hdr = record { type = if write then 1 else 0; sector = lba };
  desc =
      update
        (update (update d.desc 0 (desc d.hdr_addr 16 desc_next 1)) 1
          (desc buf (n * sector_size % u32_mod) (desc_next + (if write then 0 else desc_write)) 2))
        2 (desc d.status_addr 1 desc_write 0);
}

pub flush_chain : VBlk → VBlk
unfolding desc
flush_chain d = record d {
  hdr = record { type = 4; sector = 0 };
  desc =
      update (update d.desc 0 (desc d.hdr_addr 16 desc_next 1)) 1
        (desc d.status_addr 1 desc_write 0);
}

-- The guards of `virtio_blk_rw`, in their order; `none` lets the request through.
pub refused : Bool → ℕ → ℕ → VBlk → Option Status
refused write lba n d =
    if n == 0 || (ltb d.sectors lba || ltb (d.sectors - lba) n)
    then some out_of_range
    else if write && d.is_read_only
    then some read_only
    else none

on_device : ℕ → Option Status × VBlk → Driver → Option Status × Driver
on_device i (s, d) v = (s, record v { devs = update v.devs i d })

pub virtio_blk_rw : Observed → ℤ → Bool → ℕ → ℕ → ℕ → Driver → Option Status × Driver
virtio_blk_rw seen id write lba n buf v = elim (dev id v) [
  | none ↦ (some no_device, v)
  | some i ↦ elim (refused write lba n (v.devs i)) [
    | some s ↦ (some s, v)
    | none ↦ on_device i (submit seen (rw_chain write lba n buf (v.devs i))) v
  ]
]

pub virtio_blk_flush : Observed → ℤ → Driver → Option Status × Driver
virtio_blk_flush seen id v = elim (dev id v) [
  | none ↦ (some no_device, v)
  | some i ↦
      if not (v.devs i).can_flush
      then (some unsupported, v)
      else on_device i (submit seen (flush_chain (v.devs i))) v
]
