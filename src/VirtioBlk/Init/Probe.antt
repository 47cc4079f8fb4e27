-- ===== src/VirtioBlk/Init/Probe.antt =====
-- kernel/virtio_blk.c: the probe of the board's virtio-mmio slots. The slots' number is the board's.
use beeros.Prelude.{
  ℕ, zero, suc, ◌+◌, ◌-◌, ◌≤◌, ◌<◌, Bool, true, false, not, Option, none, some, ltb, ◌==◌,
  if◌then◌else◌, arith, Bool-cases, ltb→lt, inl, inr,
}
use beeros.Prelude.Slice.{update}
use beeros.VirtioBlk.{VBlk, Driver}
use beeros.VirtioBlk.Init.{
  Mmio, Bus, Outcome, ready, failed, unsettled, Queue, rd, init_device, next, stop,
}

abbrev pub magic : ℕ
magic = 0x74726976

abbrev pub dev_block : ℕ
dev_block = 2

abbrev pub max_devs : ℕ
max_devs = 4

-- The board: the addresses of its slots, how many it has, and where the queues of the devices lie.
pub record Board : Type 0 where
  pub slots : ℕ
  pub base : ℕ → ℕ
  pub queue : ℕ → Queue

-- `none` says that a configuration loop did not settle within its fuel.
abbrev pub Probed : Type 0 → Type 0
Probed D = Option Bool × Driver × (ℕ → Bus D)

module _ {D : Type 0} (mmio : Mmio D) (board : Board) (fuel : ℕ) where
  -- Whether the slot has a modern block device: `false` is `continue`.
  is_block : Bus D → Bool × Bus D
  is_block b = elim (rd mmio 0 b) [
    | stop o b' ↦ (false, b')
    | next m b1 ↦ if not (m == magic) then (false, b1) else elim (rd mmio 8 b1) [
      | stop o b' ↦ (false, b')
      | next i b2 ↦
          if not (i == dev_block)
          then (false, b2)
          else elim (rd mmio 4 b2) [ stop o b' ↦ (false, b') | next v b3 ↦ (v == 2, b3) ]
    ]
  ]

  -- What `init_device` of slot `s` leaves of the driver.
  added : ℕ → Driver → Outcome × VBlk × Bus D → Option Bool × Driver × Bus D
  added s v (ready, d, b) =
      (some true, record { devs = update v.devs v.n_devs d; n_devs = v.n_devs + 1 }, b)
  added s v (failed, d, b) = (some false, record v { devs = update v.devs v.n_devs d }, b)
  added s v (unsettled, d, b) = (none, record v { devs = update v.devs v.n_devs d }, b)

  -- The body of the loop at slot `s`.
  probe_slot : ℕ → Driver → Bus D → Option Bool × Driver × Bus D
  probe_slot s v b =
      let (block, b') = is_block b in
      if block
      then added s v
          (init_device mmio fuel (board.queue v.n_devs) (board.base s) b' (v.devs v.n_devs))
      else (some false, v, b')

  -- The loop, with the slots that are left.
  probe_from : ℕ → Driver → (ℕ → Bus D) → Probed D
  probe_from zero v buses = (some true, v, buses)
  probe_from (suc left) v buses =
      let s = board.slots - suc left in
      let (o, v', b) = probe_slot s v (buses s) in
      let later = probe_from left v' (update buses s b) in
      if not (ltb v.n_devs max_devs)
      then (some true, v, buses)
      else elim o [ none ↦ (none, v', update buses s b) | some new ↦ later ]

  pub virtio_blk_probe : Driver → (ℕ → Bus D) → Probed D
  virtio_blk_probe v buses = probe_from board.slots (record v { n_devs = 0 }) buses

  added-n_devs :
      (s : ℕ) (v : Driver) (r : Outcome × VBlk × Bus D) → (added s v r).1.n_devs ≤ v.n_devs + 1
  unfolding added
  added-n_devs s v (ready, d, b) = omega arith
  added-n_devs s v (failed, d, b) = omega arith
  added-n_devs s v (unsettled, d, b) = omega arith

  probe_slot-n_devs : (s : ℕ) (v : Driver) (b : Bus D) → (probe_slot s v b).1.n_devs ≤ v.n_devs + 1
  unfolding probe_slot
  probe_slot-n_devs s v b =
      let (block, b') = is_block b in
      elim (Bool-cases block) [
        | inl found ↦ rw found (added-n_devs s v _)
        | inr other ↦ rw other (omega arith)
      ]

  probe_from-n_devs :
      (left : ℕ) (v : Driver) (buses : ℕ → Bus D)
      → v.n_devs ≤ max_devs
      → (probe_from left v buses).1.n_devs ≤ max_devs
  unfolding probe_from
  probe_from-n_devs zero v buses h = h
  probe_from-n_devs (suc left) v buses h =
      let s = board.slots - suc left in
      let slot = probe_slot-n_devs s v (buses s) in
      let (o, v', b) = probe_slot s v (buses s) in
      elim (Bool-cases (ltb v.n_devs max_devs)) [
        | inl room ↦
            let less : v.n_devs < max_devs = ltb→lt _ _ room in
            let fits : v'.n_devs ≤ max_devs = omega arith in
            rw room (settled o _ _ fits (probe_from-n_devs left v' (update buses s b) fits))
        | inr full ↦ rw full h
      ]
    where
      settled :
          (o : Option Bool) (b later : Probed D)
          → b.1.n_devs ≤ max_devs
          → later.1.n_devs ≤ max_devs
          → (elim o as (λ x. Probed D) [ none ↦ b | some new ↦ later ]).1.n_devs ≤ max_devs
      settled none _ _ h k = h
      settled (some a) _ _ h k = k

  -- `virtio_blk_probe` finds at most four devices, whatever the slots hold.
  pub virtio_blk_probe-n_devs :
      (v : Driver) (buses : ℕ → Bus D) → (virtio_blk_probe v buses).1.n_devs ≤ max_devs
  unfolding virtio_blk_probe
  virtio_blk_probe-n_devs v buses =
      probe_from-n_devs board.slots (record v { n_devs = 0 }) buses (omega arith)
