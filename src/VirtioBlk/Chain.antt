-- ===== src/VirtioBlk/Chain.antt =====
-- kernel/virtio_blk.c: the requests that virtio_blk_rw and virtio_blk_flush hand over.
use beeros.Prelude.{
  ℕ, ◌+◌, ◌-◌, ◌*◌, ◌%◌, ◌^◌, ◌≤◌, ◌<◌, ◌≡◌, ◌≢◌, refl, ap, ◌∙◌, Bool, true, false, not, ◌&&◌, ◌||◌,
  Option, none, some, ltb, ◌==◌, if◌then◌else◌, arith, lt→ltb, inl, inr, ◌⊎◌,
}
use beeros.Prelude.Slice.{update}
use beeros.Prelude.Int.{pos}
use beeros.VirtioBlk.{
  VBlk, Driver, Status, unsupported, out_of_range, read_only, Observed, publish, submit, dev,
  refused, rw_chain, flush_chain, on_device, virtio_blk_rw, virtio_blk_flush, u16_mod, u32_mod,
  sector_size,
}
use beeros.VirtioBlk.Device.{
  Request, available, next_request, rw_request, available_one, rw_request_lem, flush_request_lem,
  submit-next_request, submit-available,
}

-- What the driver lets through.
pub Accepts : Bool → ℕ → ℕ → VBlk → Type 0
Accepts write lba n d = (0 < n) × (lba + n ≤ d.sectors) × ((write && d.is_read_only) ≡ false)

-- Why it does not.
unfoldable pub Refuses : Bool → ℕ → ℕ → VBlk → Status → Type 0
Refuses write lba n d s =
    ((n ≡ 0) ⊎ (d.sectors < lba + n)) × (s ≡ out_of_range)
    ⊎ (0 < n) × (lba + n ≤ d.sectors) × (write ≡ true) × (d.is_read_only ≡ true) × (s ≡ read_only)

past_end : ℕ → ℕ → ℕ → Bool
past_end lba n sectors = n == 0 || (ltb sectors lba || ltb (sectors - lba) n)

past_end_lem :
    (lba n sectors : ℕ)
    → (past_end lba n sectors ≡ true) × ((n ≡ 0) ⊎ (sectors < lba + n))
      ⊎ (past_end lba n sectors ≡ false) × (0 < n) × (lba + n ≤ sectors)
unfolding past_end
past_end_lem lba n sectors = grind arith

unfoldable pub Judged : Bool → ℕ → ℕ → VBlk → Option Status → Type 0
Judged write lba n d none = Accepts write lba n d
Judged write lba n d (some s) = Refuses write lba n d s

pub refused_lem :
    (write : Bool) (lba n : ℕ) (d : VBlk) → Judged write lba n d (refused write lba n d)
unfolding refused past_end
refused_lem write lba n d = elim (past_end_lem lba n d.sectors) [
  | inl (out, why) ↦ rw out (unfold Judged in unfold Refuses in inl (why, refl))
  | inr (inside, some_n, fits) ↦ rw inside (by_mode some_n fits write d.is_read_only refl refl)
]
  where
    by_mode :
        0 < n
        → lba + n ≤ d.sectors
        → (w ro : Bool) → write ≡ w
        → d.is_read_only ≡ ro
        → Judged write lba n d (if w && ro then some read_only else none)
    by_mode some_n fits true true ew er =
        unfold Judged in unfold Refuses in inr (some_n, fits, ew, er, refl)
    by_mode some_n fits true false ew er =
        unfold Judged in unfold Accepts in (some_n, fits, rw (ew, er) refl)
    by_mode some_n fits false ro ew er =
        unfold Judged in unfold Accepts in (some_n, fits, rw ew refl)

-- The request of an accepted transfer has been handed over: it is the only one that a device which
-- has taken all earlier ones finds, and no other device of the driver has changed.
pub Posted : ℕ → Request → Driver → Driver → Type 0
Posted i r v v' =
    (available (v.devs i).avail_idx (v'.devs i) ≡ 1)
    × (next_request (v.devs i).avail_idx (v'.devs i) ≡ some r)
    × (v'.n_devs ≡ v.n_devs)
    × ((j : ℕ) → j ≢ i → v'.devs j ≡ v.devs j)

pub transfer : Bool → ℕ → ℕ → ℕ → VBlk → Request
transfer write lba n buf d = record {
  type = if write then 1 else 0;
  sector = lba;
  payload = some (record { addr = buf; len = n * sector_size; written = not write });
  status_addr = d.status_addr;
}

update-here_dev : (f : ℕ → VBlk) (p : ℕ) (d : VBlk) → update f p d p ≡ d
update-here_dev f p d = ground arith

update-there : (f : ℕ → VBlk) (p j : ℕ) (d : VBlk) → j ≢ p → update f p d j ≡ f j
update-there f p j d other = ground arith

module _ (i : ℕ) (seen : Observed) (v : Driver) (r : Request) (d : VBlk)
    (is_idx : d.avail_idx < u16_mod) where
  on_device-Posted :
      (v.devs i).avail_idx ≡ d.avail_idx
      → next_request d.avail_idx (publish d) ≡ some r
      → Posted i r v (on_device i (submit seen d) v).1
  unfolding Posted on_device
  on_device-Posted same h = (
    rw (update-here_dev v.devs i (submit seen d).1, same)
        (submit-available _ seen d ∙ available_one d is_idx),
    rw (update-here_dev v.devs i (submit seen d).1, same) (submit-next_request _ seen d ∙ h),
    refl,
    λ j other. update-there v.devs i j _ other,
  )

-- `dev` finds the devices below `n_devs`.
dev-pos : (i : ℕ) (v : Driver) → i < v.n_devs → dev (pos i) v ≡ some i
unfolding dev
dev-pos i v h = rw (lt→ltb i v.n_devs h) refl

transfer_lem :
    (write : Bool) (lba n buf : ℕ) (d : VBlk)
    → n < 2 ^ 23
    → rw_request write lba n buf d ≡ transfer write lba n buf d
unfolding rw_request transfer
transfer_lem write lba n buf d h =
    let e : n * sector_size % u32_mod ≡ n * sector_size = omega arith in
    ap
      (λ len. record {
        type = if write then 1 else 0;
        sector = lba;
        payload = some (record { addr = buf; len = len; written = not write });
        status_addr = d.status_addr;
      })
      e

-- A transfer is accepted, or refused with the driver unchanged.
pub Transferred : ℕ → Bool → ℕ → ℕ → ℕ → Driver → Option Status × Driver → Type 0
Transferred i write lba n buf v (s, v') =
    Accepts write lba n (v.devs i) × Posted i (transfer write lba n buf (v.devs i)) v v'
    ⊎ ((e : Status) × Refuses write lba n (v.devs i) e × (s ≡ some e) × (v' ≡ v))

-- A flush is handed over, or unsupported with the driver unchanged.
pub Flushed : ℕ → Driver → Option Status × Driver → Type 0
Flushed i v (s, v') =
    ((v.devs i).can_flush ≡ true)
      × Posted i
          (record { type = 4; sector = 0; payload = none; status_addr = (v.devs i).status_addr }) v
          v'
    ⊎ ((v.devs i).can_flush ≡ false) × (s ≡ some unsupported) × (v' ≡ v)

module _ (seen : Observed) (i : ℕ) (write : Bool) (lba n buf : ℕ) (v : Driver) where
  -- For a device that exists, with its index in 16 bits, and fewer than 2^23 sectors: if n is not
  -- 0, lba + n does not pass the end of the device and the device is not written while it is read-only, then `virtio_blk_rw`
  -- hands the device exactly one request, for `n` sectors from `lba` to or from `buf`, in the
  -- direction that was asked for, and leaves the other devices alone, whatever it answers; in all
  -- other cases it answers the range or the read-only error and changes nothing.
  pub virtio_blk_rw_lem :
      i < v.n_devs
      → (v.devs i).avail_idx < u16_mod
      → n < 2 ^ 23
      → Transferred i write lba n buf v (virtio_blk_rw seen (pos i) write lba n buf v)
  unfolding virtio_blk_rw
  virtio_blk_rw_lem exists is_idx small =
      rw (virtio_blk_rw, dev-pos i v exists)
        (go (refused write lba n (v.devs i)) (refused_lem write lba n (v.devs i)))
    where
      go :
          (r : Option Status)
          → Judged write lba n (v.devs i) r
          → Transferred i write lba n buf v (elim r [
            | some s ↦ (some s, v)
            | none ↦ on_device i (submit seen (rw_chain write lba n buf (v.devs i))) v
          ])
      go none accepts =
          let d = v.devs i in
          unfold Transferred in
          inl (
            unfold Judged in accepts,
            on_device-Posted i seen v (transfer write lba n buf d) (rw_chain write lba n buf d)
                (unfold rw_chain in is_idx) (unfold rw_chain in refl)
                (unfold rw_chain in
                  rw_request_lem write lba n buf d is_idx
                  ∙ ap some (transfer_lem write lba n buf d small)),
          )
      go (some s) refuses = unfold Transferred in unfold Judged in inr (s, refuses, refl, refl)

module _ (seen : Observed) (i : ℕ) (v : Driver) where
  -- `virtio_blk_flush` of a device that exists, with its index in 16 bits, hands it one flush
  -- request if the device can flush, and otherwise answers that this is unsupported and changes nothing.
  pub virtio_blk_flush_lem :
      i < v.n_devs → (v.devs i).avail_idx < u16_mod → Flushed i v (virtio_blk_flush seen (pos i) v)
  unfolding virtio_blk_flush Flushed
  virtio_blk_flush_lem exists is_idx =
      rw (virtio_blk_flush, dev-pos i v exists) (go (v.devs i).can_flush refl)
    where
      go :
          (c : Bool)
          → (v.devs i).can_flush ≡ c
          → Flushed i v (
              if not c
              then (some unsupported, v)
              else on_device i (submit seen (flush_chain (v.devs i))) v)
      go true can =
          let d = v.devs i in
          inl (
            can,
            on_device-Posted i seen v _ (flush_chain d) (unfold flush_chain in is_idx)
                (unfold flush_chain in refl) (unfold flush_chain in flush_request_lem d is_idx),
          )
      go false cannot = inr (cannot, refl, refl)
