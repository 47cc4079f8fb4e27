-- ===== src/VirtioBlk/Natives.antt =====
-- kernel/blk_natives.c: the natives of beer.blk.native, over the driver.
mod Asked
pub mod Replies
use beeros.Prelude.{
  ℕ, ◌+◌, ◌-◌, ◌*◌, ◌%◌, ◌^◌, ◌≤◌, ◌<◌, ◌≡◌, refl, ap, Bool, true, false, Option, none, some, List,
  [], ◌∷◌, ltb, if◌then◌else◌, arith, ltb→lt, lt→ltb, inl, inr, ◌⊎◌,
}
use beeros.Prelude.Int.{pos, negsuc, int_of}
use beeros.Beerlang.{Value, nil, boolean, fixnum, keyword, bytebuffer}
use beeros.VirtioBlk.Init.{Mmio, Bus}
use beeros.VirtioBlk.Init.Probe.{Board, virtio_blk_probe}
use beeros.VirtioBlk.{
  Driver, Status, ok, io_error, unsupported, timeout, out_of_range, read_only, no_device, Observed,
  sectors, is_read_only, can_flush, virtio_blk_rw, virtio_blk_flush, u32_mod, u64_mod, sector_size,
}

-- `none` goes on waiting; `VBLK_OK` is nil.
pub status_value : Option Status → Option Value
status_value none = none
status_value (some ok) = some nil
status_value (some io_error) = some (keyword "io-error")
status_value (some unsupported) = some (keyword "unsupported")
status_value (some timeout) = some (keyword "timeout")
status_value (some out_of_range) = some (keyword "out-of-range")
status_value (some read_only) = some (keyword "read-only")
status_value (some no_device) = some (keyword "no-device")

-- `fixnum_arg` for the minima that occur, 0 and 1.
pub fixnum_arg : Value → ℕ → Option ℕ
fixnum_arg (fixnum (pos i)) min = if ltb i min then none else some i
fixnum_arg _ min = none

-- `none` says that a device's configuration did not settle.
pub native_probe :
    {D : Type 0} → Mmio D → Board → ℕ → Driver → (ℕ → Bus D) → Option Value × Driver × (ℕ → Bus D)
native_probe mmio board fuel v buses =
    let (o, v', buses') = virtio_blk_probe mmio board fuel v buses in
    (elim o [ none ↦ none | some done ↦ some (fixnum (pos v'.n_devs)) ], v', buses')

pub native_count : Driver → Value
native_count v = fixnum (pos v.n_devs)

pub native_sectors : List Value → Driver → Value
native_sectors (id ∷ []) v = elim (fixnum_arg id 0) [
  | none ↦ nil
  | some i ↦ fixnum (pos (sectors (int_of i) v))
]
native_sectors _ v = nil

pub native_read_only : List Value → Driver → Value
native_read_only (id ∷ []) v = elim (fixnum_arg id 0) [
  | none ↦ nil
  | some i ↦ boolean (is_read_only (int_of i) v)
]
native_read_only _ v = nil

pub native_can_flush : List Value → Driver → Value
native_can_flush (id ∷ []) v = elim (fixnum_arg id 0) [
  | none ↦ nil
  | some i ↦ boolean (can_flush (int_of i) v)
]
native_can_flush _ v = nil

pub answered : Option Status × Driver → Option Value × Driver
answered (s, v) = (status_value s, v)

-- `rw` once its arguments are known to be of the right kinds.
pub rw_args : Observed → Bool → ℕ → ℕ → ℕ → ℕ → ℕ → ℕ → Driver → Option Value × Driver
rw_args seen write id lba n addr cap off v =
    let bytes = n * sector_size % u64_mod in
    if ltb cap ((off + bytes) % u64_mod)
    then (some (keyword "buffer-too-small"), v)
    else answered (virtio_blk_rw seen (int_of id) write lba (n % u32_mod) (addr + off) v)

pub rw_native : Observed → Bool → List Value → Driver → Option Value × Driver
rw_native seen write (id ∷ lba ∷ n ∷ bytebuffer addr cap ∷ off ∷ []) v = elim (fixnum_arg id 0) [
  | none ↦ (some (keyword "bad-args"), v)
  | some i ↦ elim (fixnum_arg lba 0) [
    | none ↦ (some (keyword "bad-args"), v)
    | some l ↦ elim (fixnum_arg n 1) [
      | none ↦ (some (keyword "bad-args"), v)
      | some m ↦ elim (fixnum_arg off 0) [
        | none ↦ (some (keyword "bad-args"), v)
        | some o ↦ rw_args seen write i l m addr cap o v
      ]
    ]
  ]
]
rw_native seen write _ v = (some (keyword "bad-args"), v)

pub native_read : Observed → List Value → Driver → Option Value × Driver
native_read seen args v = rw_native seen false args v

pub native_write : Observed → List Value → Driver → Option Value × Driver
native_write seen args v = rw_native seen true args v

pub native_flush : Observed → List Value → Driver → Option Value × Driver
native_flush seen (id ∷ []) v = elim (fixnum_arg id 0) [
  | none ↦ (some (keyword "bad-args"), v)
  | some i ↦ answered (virtio_blk_flush seen (int_of i) v)
]
native_flush seen _ v = (some (keyword "bad-args"), v)

ltb→le : (a b : ℕ) → ltb a b ≡ false → b ≤ a
ltb→le a b h = ground arith

int_of-small : (i : ℕ) → i < 2 ^ 31 → int_of i ≡ pos i
unfolding int_of
int_of-small i h = let e : i % u32_mod ≡ i = omega arith in rw (e, lt→ltb i (2 ^ 31) h) refl

fixnum_arg-pos : (i min : ℕ) → min ≤ i → fixnum_arg (fixnum (pos i)) min ≡ some i
unfolding fixnum_arg
fixnum_arg-pos i min h = ground arith

int_of-wraps : (i : ℕ) → int_of (i + u32_mod) ≡ int_of i
unfolding int_of
int_of-wraps i =
    let e : (i + u32_mod) % u32_mod ≡ i % u32_mod = omega arith in
    ap (λ low. if ltb low (2 ^ 31) then pos low else negsuc (u32_mod - 1 - low)) e

-- The arguments of a transfer, as beerlang passes them.
pub transfer_args : ℕ → ℕ → ℕ → ℕ → ℕ → ℕ → List Value
transfer_args id lba n addr cap off =
    fixnum (pos id)
    ∷ fixnum (pos lba)
    ∷ fixnum (pos n)
    ∷ bytebuffer addr cap
    ∷ fixnum (pos off)
    ∷ []

module _ (seen : Observed) (write : Bool) (id lba n addr cap off : ℕ) (v : Driver) where
  rw_native-args :
      0 < n
      → rw_native seen write (transfer_args id lba n addr cap off) v
        ≡ rw_args seen write id lba n addr cap off v
  unfolding rw_native transfer_args
  rw_native-args some_n =
      rw
        (
          rw_native,
          fixnum_arg-pos id 0 (omega arith),
          fixnum_arg-pos lba 0 (omega arith),
          fixnum_arg-pos n 1 some_n,
          fixnum_arg-pos off 0 (omega arith),
        )
        refl

  -- For fewer than 2^23 sectors, at least one, an id and an offset below 2^31 and 2^62: `read!` and
  -- `write!` answer that the buffer is too small, changing nothing, if the sectors do not fit into
  -- it from the offset on; if they fit, they are the driver's transfer of exactly those bytes.
  pub rw_native-InBuffer :
      0 < n
      → n < 2 ^ 23
      → id < 2 ^ 31
      → off < 2 ^ 62
      → let result = rw_native seen write (transfer_args id lba n addr cap off) v in
        (cap < off + n * sector_size) × (result ≡ (some (keyword "buffer-too-small"), v))
        ⊎ (off + n * sector_size ≤ cap)
          × (result ≡ answered (virtio_blk_rw seen (pos id) write lba n (addr + off) v))
  rw_native-InBuffer some_n small small_id small_off = rw (rw_native-args some_n) (
      unfold rw_args in
      let bytes : n * sector_size % u64_mod ≡ n * sector_size = omega arith in
      let end : (off + n * sector_size) % u64_mod ≡ off + n * sector_size = omega arith in
      let short : n % u32_mod ≡ n = omega arith in
      rw (bytes, end, short, int_of-small id small_id) (go (ltb cap (off + n * sector_size)) refl))
    where
      go :
          (b : Bool)
          → ltb cap (off + n * sector_size) ≡ b
          → let a =
              if b
              then (some (keyword "buffer-too-small"), v)
              else answered (virtio_blk_rw seen (pos id) write lba n (addr + off) v) in
            (cap < off + n * sector_size) × (a ≡ (some (keyword "buffer-too-small"), v))
            ⊎ (off + n * sector_size ≤ cap)
              × (a ≡ answered (virtio_blk_rw seen (pos id) write lba n (addr + off) v))
      go true e = inl (ltb→lt _ _ e, refl)
      go false e = inr (ltb→le _ _ e, refl)

-- For at least one sector, `read!` and `write!` take an id that is 2^32 larger for the id itself.
pub rw_native-alias :
    (seen : Observed) (write : Bool) (id lba n addr cap off : ℕ) (v : Driver)
    → 0 < n
    → rw_native seen write (transfer_args (id + u32_mod) lba n addr cap off) v
      ≡ rw_native seen write (transfer_args id lba n addr cap off) v
rw_native-alias seen write id lba n addr cap off v some_n =
    rw
      (
        rw_native-args seen write (id + u32_mod) lba n addr cap off v some_n,
        rw_native-args seen write id lba n addr cap off v some_n,
      )
      (unfold rw_args in rw (int_of-wraps id) refl)
