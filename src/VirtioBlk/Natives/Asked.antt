-- ===== src/VirtioBlk/Natives/Asked.antt =====
-- kernel/blk_natives.c: what the natives make of a device's answers.
use Prim.Native.String.{String}
use mathlib.Core.Path.{subst}
use beeros.Prelude.{
  ℕ, ◌+◌, ◌%◌, ◌≤◌, ◌<◌, ◌≡◌, ◌∙◌, sym, ap, ◌⊎◌, inl, inr, Bool-cases, refl, Bool, true, false, not,
  Option, none, some, ltb, if◌then◌else◌, ltb→lt, arith,
}
use beeros.Prelude.Slice.{update}
use beeros.Prelude.Int.{ℤ, pos, negsuc}
use beeros.Beerlang.{Value, nil, keyword}
use beeros.VirtioBlk.{
  VBlk, Driver, Status, ok, io_error, unsupported, timeout, out_of_range, read_only, no_device,
  Observed, Waited, completed, timed_out, spinning, publish, finish, submit, dev, rw_chain,
  flush_chain, on_device, virtio_blk_rw, virtio_blk_flush, u16_mod, u64_mod, timeout_us,
}
use beeros.VirtioBlk.Wait.{Waits, wait-Waits, Means, status_of-Means}
use beeros.VirtioBlk.Chain.{Accepts, Refuses, Judged, refused_lem}
use beeros.VirtioBlk.Natives.{status_value, answered}

-- The answer to a request, by how the wait for it ends and what its status byte means; `none` goes
-- on waiting.
pub data Ended (seen : Observed) (deadline used : ℕ) : Option Value → Type 0 where
  waits : Waits deadline used seen.polls spinning → Ended seen deadline used none
  late :
      Waits deadline used seen.polls timed_out → Ended seen deadline used (some (keyword "timeout"))
  fine :
      Waits deadline used seen.polls completed
      → Means seen.final_status ok
      → Ended seen deadline used (some nil)
  io :
      Waits deadline used seen.polls completed
      → Means seen.final_status io_error
      → Ended seen deadline used (some (keyword "io-error"))
  unknown :
      Waits deadline used seen.polls completed
      → Means seen.final_status unsupported
      → Ended seen deadline used (some (keyword "unsupported"))

-- What is asked of the device `id`, for a request that a device refuses or accepts: no such device;
-- a refusal with the driver as it was; or one request made available to the device.
pub data Asked (Refused : VBlk → String → Type 0) (Accepted : VBlk → Type 0) (seen : Observed)
    (id : ℤ) (v : Driver) : Option Value × Driver → Type 0 where
  missing :
      ¬ ((i : ℕ) × (i < v.n_devs) × (id ≡ pos i))
      → Asked Refused Accepted seen id v (some (keyword "no-device"), v)
  refusal :
      {k : String} (i : ℕ)
      → i < v.n_devs
      → id ≡ pos i
      → Refused (v.devs i) k
      → Asked Refused Accepted seen id v (some (keyword k), v)
  request :
      {o : Option Value} (i : ℕ) (d : VBlk)
      → i < v.n_devs
      → id ≡ pos i
      → Accepted (v.devs i)
      → Ended seen ((seen.started + timeout_us) % u64_mod) (v.devs i).used_seen o
      → d.avail_idx ≡ ((v.devs i).avail_idx + 1) % u16_mod
      → Asked Refused Accepted seen id v (o, record v { devs = update v.devs i d })

-- Why a device refuses a transfer of `n` sectors, and a flush.
pub data NoTransfer (write : Bool) (lba n : ℕ) (d : VBlk) : String → Type 0 where
  range : (n ≡ 0) ⊎ (d.sectors < lba + n) → NoTransfer write lba n d "out-of-range"
  protected :
      0 < n
      → lba + n ≤ d.sectors
      → write ≡ true
      → d.is_read_only ≡ true
      → NoTransfer write lba n d "read-only"

pub data NoFlush (d : VBlk) : String → Type 0 where
  no_flush : d.can_flush ≡ false → NoFlush d "unsupported"

status-Ended :
    (seen : Observed) (deadline used : ℕ) (st : Status)
    → Waits deadline used seen.polls completed
    → Means seen.final_status st
    → Ended seen deadline used (status_value (some st))
unfolding status_value
status-Ended seen deadline used ok w m = fine w m
status-Ended seen deadline used io_error w m = io w m
status-Ended seen deadline used unsupported w m = unknown w m
status-Ended seen deadline used timeout w m = elim m [ ]
status-Ended seen deadline used out_of_range w m = elim m [ ]
status-Ended seen deadline used read_only w m = elim m [ ]
status-Ended seen deadline used no_device w m = elim m [ ]

finish-Ended :
    (how : Waited) (seen : Observed) (d : VBlk) (deadline used : ℕ)
    → Waits deadline used seen.polls how
    → Ended seen deadline used (status_value (finish how seen d).0)
      × ((finish how seen d).1.avail_idx ≡ d.avail_idx)
unfolding finish
finish-Ended spinning seen d deadline used w = (unfold status_value in waits w, refl)
finish-Ended timed_out seen d deadline used w = (unfold status_value in late w, refl)
finish-Ended completed seen d deadline used w =
    (status-Ended seen deadline used _ w (status_of-Means seen.final_status), refl)

-- A request that is handed to device `i`, whatever its chain.
submitted :
    {Refused : VBlk → String → Type 0} {Accepted : VBlk → Type 0} (seen : Observed) (id : ℤ) (i : ℕ)
    (d : VBlk) (v : Driver)
    → i < v.n_devs
    → id ≡ pos i
    → Accepted (v.devs i)
    → d.avail_idx ≡ (v.devs i).avail_idx
    → d.used_seen ≡ (v.devs i).used_seen
    → Asked Refused Accepted seen id v (answered (on_device i (submit seen d) v))
unfolding answered on_device submit publish
submitted seen id i d v exists named accepted same same_used =
    let deadline = (seen.started + timeout_us) % u64_mod in
    let (ended, kept) =
      finish-Ended _ seen (publish d) deadline d.used_seen
        (wait-Waits deadline d.used_seen seen.polls) in
    request i _ exists named accepted
      (subst (λ k. Ended seen deadline k (status_value (submit seen d).0)) same_used ended)
      (kept ∙ ap (λ k. (k + 1) % u16_mod) same)

-- What `dev` finds.
dev_cases :
    (id : ℤ) (v : Driver)
    → (dev id v ≡ none) × ¬ ((i : ℕ) × (i < v.n_devs) × (id ≡ pos i))
      ⊎ ((i : ℕ) × (i < v.n_devs) × (id ≡ pos i) × (dev id v ≡ some i))
unfolding dev
dev_cases (pos k) v = elim (Bool-cases (ltb k v.n_devs)) [
  | inl below ↦ inr (k, ltb→lt _ _ below, refl, rw below refl)
  | inr above ↦ inl (rw above refl, λ (i, lt, e). let same : k ≡ i = cc in ground arith)
]
dev_cases (negsuc k) v = inl (refl, λ (i, lt, e). cc)

module _ (seen : Observed) (v : Driver) where
  judged :
      (write : Bool) (id : ℤ) (i lba n buf : ℕ)
      → i < v.n_devs
      → id ≡ pos i
      → (o : Option Status) → Judged write lba n (v.devs i) o
      → Asked (NoTransfer write lba n) (Accepts write lba n) seen id v (
          answered (elim o as (λ o. Option Status × Driver) [
            | some s ↦ (some s, v)
            | none ↦ on_device i (submit seen (rw_chain write lba n buf (v.devs i))) v
          ]))
  unfolding Judged Refuses
  judged write id i lba n buf exists named none accepts =
      submitted seen id i _ v exists named accepts (unfold rw_chain in refl)
        (unfold rw_chain in refl)
  judged write id i lba n buf exists named (some s) (inl (why, e)) =
      subst
        (λ x. Asked (NoTransfer write lba n) (Accepts write lba n) seen id v (answered (some x, v)))
        (sym e) (unfold answered in unfold status_value in refusal i exists named (range why))
  judged write id i lba n buf exists named (some s) (inr (some_n, fits, writes, locked, e)) =
      subst
        (λ x. Asked (NoTransfer write lba n) (Accepts write lba n) seen id v (answered (some x, v)))
        (sym e)
        (unfold answered in
          unfold status_value in refusal i exists named (protected some_n fits writes locked))

  pub rw-Asked :
      (write : Bool) (id : ℤ) (lba n buf : ℕ)
      → Asked
          (NoTransfer write lba n)
          (Accepts write lba n)
          seen
          id
          v
          (answered (virtio_blk_rw seen id write lba n buf v))
  unfolding virtio_blk_rw
  rw-Asked write id lba n buf = elim (dev_cases id v) [
    | inl (e, none_such) ↦
        rw (virtio_blk_rw, e) (unfold answered in unfold status_value in missing none_such)
    | inr (i, exists, named, e) ↦
        rw (virtio_blk_rw, e)
          (judged write id i lba n buf exists named _ (refused_lem write lba n (v.devs i)))
  ]

  flush-guarded :
      (id : ℤ) (i : ℕ)
      → i < v.n_devs
      → id ≡ pos i
      → (can : Bool) → (v.devs i).can_flush ≡ can
      → Asked NoFlush
          (λ d. d.can_flush ≡ true)
          seen
          id
          v
          (answered (
            if not can
            then (some unsupported, v)
            else on_device i (submit seen (flush_chain (v.devs i))) v))
  flush-guarded id i exists named true can =
      submitted seen id i (flush_chain (v.devs i)) v exists named can (unfold flush_chain in refl)
        (unfold flush_chain in refl)
  flush-guarded id i exists named false cannot =
      unfold answered in unfold status_value in refusal i exists named (no_flush cannot)

  pub flush-Asked :
      (id : ℤ)
      → Asked NoFlush (λ d. d.can_flush ≡ true) seen id v (answered (virtio_blk_flush seen id v))
  unfolding virtio_blk_flush
  flush-Asked id = elim (dev_cases id v) [
    | inl (e, none_such) ↦
        rw (virtio_blk_flush, e) (unfold answered in unfold status_value in missing none_such)
    | inr (i, exists, named, e) ↦
        rw (virtio_blk_flush, e) (flush-guarded id i exists named (v.devs i).can_flush refl)
  ]
