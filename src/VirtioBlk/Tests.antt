-- ===== src/VirtioBlk/Tests.antt =====
-- A small device and driver, and instances of the theorems about kernel/virtio_blk.c.
use beeros.Prelude.{
  ℕ, ◌+◌, ◌*◌, ◌≤◌, ◌<◌, ◌≡◌, refl, true, false, some, [], ◌∷◌, ◌==◌, if◌then◌else◌, arith, ◌⊎◌,
}
use beeros.Prelude.Int.{pos}
use beeros.Beerlang.{keyword}
use beeros.VirtioBlk.{
  VBlk, Driver, ok, io_error, timeout, Observed, Waited, wait, publish, finish, submit, dev,
  refused, rw_chain, on_device, virtio_blk_rw, sector_size, status_of,
}
use beeros.VirtioBlk.Init.{
  Mmio, ready, Queue, init_device, initialised, init_run, negotiate, offer_queue, capacity,
  read_config, ◌>>=◌, pure, rd, write_reg, require, fail,
}
use beeros.VirtioBlk.Init.Protocol.{status_writes, Sequence, init_device-Sequence}
use beeros.VirtioBlk.Init.Probe.{Board}
use beeros.VirtioBlk.Chain.{Transferred, virtio_blk_rw_lem}
use beeros.VirtioBlk.Wait.{Waits, Submitted, submit-Submitted, late_completion-submit}
use beeros.VirtioBlk.Natives.{
  rw_native, transfer_args, answered, rw_native-InBuffer, native_read, native_write, native_flush,
}
use beeros.VirtioBlk.Natives.Replies.{Transfer, Flush, transfers-Outcome}

abbrev disk : VBlk
disk = record {
  desc = λ i. record { addr = 0; len = 0; flags = 0; next = 0 };
  avail_ring = λ i. 0;
  avail_idx = 9;
  hdr = record { type = 0; sector = 0 };
  status = 0;
  hdr_addr = 0x1000;
  status_addr = 0x1010;
  base = 0x10001000;
  sectors = 64;
  is_read_only = false;
  can_flush = true;
  used_seen = 9;
  writes = [];
}

abbrev one_disk : Driver
one_disk = record { devs = λ i. disk; n_devs = 1 }

-- The used index moves at the second turn, and the device has written 0.
abbrev done : Observed
done = record { int_status = 1; started = 100; polls = (9, 150) ∷ (10, 160) ∷ []; final_status = 0 }

-- The used index does not move before the deadline.
abbrev late : Observed
late = record {
  int_status = 0;
  started = 100;
  polls = (9, 150) ∷ (9, 2000101) ∷ [];
  final_status = 255;
}

abbrev early : Observed
early = record { int_status = 1; started = 2000200; polls = (10, 2000201) ∷ []; final_status = 255 }

-- A device whose registers answer what a virtio 1.x block device of 64 sectors answers.
abbrev registers : ℕ → ℕ
registers off =
    if off == 0x000
    then 0x74726976
    else if off == 0x004
    then 2
    else if off == 0x008
    then 2
    else if off == 0x010
    then 0x221
    else if off == 0x034
    then 1024
    else if off == 0x070
    then 11
    else if off == 0x100
    then 64
    else 0

abbrev model : Mmio (Unit {0})
model = record { read = λ off d. (registers off, d); write = λ off v d. d }

abbrev queue : Queue
queue = record { desc = 0x2000; avail = 0x2080; used = 0x2100 }

abbrev board : Board
board = record { slots = 8; base = λ s. 0x10001000 + s * 0x1000; queue = λ i. queue }

virtio_blk_rw_lem_example :
    Transferred 0 true 3 2 0x8000 one_disk (virtio_blk_rw done (pos 0) true 3 2 0x8000 one_disk)
virtio_blk_rw_lem_example =
    virtio_blk_rw_lem done 0 true 3 2 0x8000 one_disk (omega arith) (omega arith) (omega arith)

submit-Submitted_example :
    (w : Waited) × Waits 2000100 9 ((9, 150) ∷ (10, 160) ∷ []) w
    × Submitted w done disk (submit done disk)
submit-Submitted_example = submit-Submitted done disk (omega arith)

late-timeout : (submit late disk).0 ≡ some timeout
unfolding submit publish wait finish
late-timeout = refl

rw-request : (virtio_blk_rw done (pos 0) true 3 2 0x8000 one_disk).0 ≡ some ok
unfolding virtio_blk_rw dev refused on_device submit publish wait finish status_of rw_chain
rw-request = refl

init-ready :
    let (o, d', b) =
      init_device model 1 queue 0x10001000 (record { device = tt; writes = [] }) disk in
    (o ≡ ready) × (d'.sectors ≡ 64) × (d'.is_read_only ≡ true)
unfolding init_device initialised init_run negotiate offer_queue capacity read_config ◌>>=◌ pure rd
    write_reg require fail
init-ready = (refl, refl, refl)

late_completion-submit_example :
    ((submit early (submit late disk).1).0 ≡ some io_error)
    × ((submit early (submit late disk).1).1.used_seen ≡ 10)
late_completion-submit_example =
    late_completion-submit late early disk (submit late disk).1 2000201 [] (omega arith)
      late-timeout refl refl refl

init_device-Sequence_example :
    let (o, d', b) =
      init_device model 1 queue 0x10001000 (record { device = tt; writes = [] }) disk in
    Sequence o (status_writes b.writes)
init_device-Sequence_example = init_device-Sequence model 1 queue 0x10001000 tt disk

rw_native-InBuffer_example :
    let result = rw_native done false (transfer_args 0 3 2 0x8000 4096 512) one_disk in
    (4096 < 512 + 2 * sector_size) × (result ≡ (some (keyword "buffer-too-small"), one_disk))
    ⊎ (512 + 2 * sector_size ≤ 4096)
      × (result ≡ answered (virtio_blk_rw done (pos 0) false 3 2 (0x8000 + 512) one_disk))
rw_native-InBuffer_example =
    rw_native-InBuffer done false 0 3 2 0x8000 4096 512 one_disk (omega arith) (omega arith)
      (omega arith) (omega arith)

transfers-Outcome_example :
    let args = transfer_args 0 3 2 0x8000 4096 512 in
    Transfer done false args one_disk (native_read done args one_disk)
    × Transfer done true args one_disk (native_write done args one_disk)
    × Flush done args one_disk (native_flush done args one_disk)
transfers-Outcome_example = transfers-Outcome done one_disk (transfer_args 0 3 2 0x8000 4096 512)
