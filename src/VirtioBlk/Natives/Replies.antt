-- ===== src/VirtioBlk/Natives/Replies.antt =====
-- kernel/blk_natives.c: what read!, write! and flush! answer to any arguments, and why.
use beeros.Prelude.{
  ℕ, ◌+◌, ◌*◌, ◌%◌, ◌≤◌, ◌<◌, ◌≡◌, inl, inr, Bool-cases, refl, Bool, true, false, Option, none,
  some, List, [], ◌∷◌, ltb, ltb→lt, arith,
}
use beeros.Prelude.Int.{pos, negsuc, int_of}
use beeros.Beerlang.{Value, nil, boolean, fixnum, keyword, bytebuffer, other}
use beeros.VirtioBlk.{Driver, Observed, virtio_blk_flush, u32_mod, u64_mod, sector_size}
use beeros.VirtioBlk.Chain.{Accepts}
use beeros.VirtioBlk.Natives.{
  fixnum_arg, answered, rw_args, rw_native, native_read, native_write, native_flush, transfer_args,
}
use beeros.VirtioBlk.Natives.Asked.{Asked, NoTransfer, NoFlush, rw-Asked, flush-Asked}

-- Arguments of the right number and kinds.
pub IsTransfer : List Value → Type 0
IsTransfer args =
    (id lba n addr cap off : ℕ) × (0 < n) × (args ≡ transfer_args id lba n addr cap off)

pub IsFlush : List Value → Type 0
IsFlush args = (id : ℕ) × (args ≡ fixnum (pos id) ∷ [])

-- The end of the bytes in the buffer, in 64 bits.
abbrev pub end_of : (n off : ℕ) → ℕ
end_of n off = (off + n * sector_size % u64_mod) % u64_mod

pub data Transfer (seen : Observed) (write : Bool) (args : List Value) (v : Driver)
    : Option Value × Driver → Type 0 where
  bad_args : ¬ IsTransfer args → Transfer seen write args v (some (keyword "bad-args"), v)
  too_small :
      (id lba n addr cap off : ℕ)
      → 0 < n
      → args ≡ transfer_args id lba n addr cap off
      → cap < end_of n off
      → Transfer seen write args v (some (keyword "buffer-too-small"), v)
  asked :
      {r : Option Value × Driver} (id lba n addr cap off : ℕ)
      → 0 < n
      → args ≡ transfer_args id lba n addr cap off
      → end_of n off ≤ cap
      → Asked
          (NoTransfer write lba (n % u32_mod))
          (Accepts write lba (n % u32_mod))
          seen
          (int_of id)
          v
          r
      → Transfer seen write args v r

pub data Flush (seen : Observed) (args : List Value) (v : Driver)
    : Option Value × Driver → Type 0 where
  bad_args : ¬ IsFlush args → Flush seen args v (some (keyword "bad-args"), v)
  asked :
      {r : Option Value × Driver} (id : ℕ)
      → args ≡ fixnum (pos id) ∷ []
      → Asked NoFlush (λ d. d.can_flush ≡ true) seen (int_of id) v r
      → Flush seen args v r

module _ (seen : Observed) (v : Driver) where
  args-Transfer :
      (write : Bool) (id lba n addr cap off : ℕ)
      → 0 < n
      → Transfer seen write
          (transfer_args id lba n addr cap off)
          v
          (rw_args seen write id lba n addr cap off v)
  unfolding rw_args
  args-Transfer write id lba n addr cap off some_n = elim (Bool-cases (ltb cap (end_of n off))) [
    | inl short ↦ rw short (too_small id lba n addr cap off some_n refl (ltb→lt _ _ short))
    | inr fits ↦ rw fits (
        asked id lba n addr cap off some_n refl (ground arith)
          (rw-Asked seen v write (int_of id) lba (n % u32_mod) (addr + off)))
  ]

-- What `fixnum_arg` makes of an argument.
data Argument (min : ℕ) : Value → Option ℕ → Type 0 where
  number : (i : ℕ) → min ≤ i → Argument min (fixnum (pos i)) (some i)
  no_number : {w : Value} → ¬ ((i : ℕ) × (min ≤ i) × (w ≡ fixnum (pos i))) → Argument min w none

too_low :
    (i min : ℕ) → ltb i min ≡ true → ¬ ((k : ℕ) × (min ≤ k) × (fixnum (pos i) ≡ fixnum (pos k)))
too_low i min low (k, le, e) = let same : i ≡ k = cc in ground arith

fixnum_arg-Argument : (w : Value) (min : ℕ) → Argument min w (fixnum_arg w min)
unfolding fixnum_arg
fixnum_arg-Argument (fixnum (pos i)) min = elim (Bool-cases (ltb i min)) [
  | inl low ↦ rw low (no_number (too_low i min low))
  | inr high ↦ rw high (number i (ground arith))
]
fixnum_arg-Argument (fixnum (negsuc i)) min = no_number (λ (k, le, e). cc)
fixnum_arg-Argument nil min = no_number (λ (k, le, e). cc)
fixnum_arg-Argument (boolean b) min = no_number (λ (k, le, e). cc)
fixnum_arg-Argument (keyword k) min = no_number (λ (i, le, e). cc)
fixnum_arg-Argument (bytebuffer a c) min = no_number (λ (i, le, e). cc)
fixnum_arg-Argument (other k) min = no_number (λ (i, le, e). cc)

-- The guards on the arguments of a transfer, one after the other.
module _ (seen : Observed) (v : Driver) (write : Bool) where
  checked :
      (id lba n off : Value) (addr cap : ℕ) {a b c d : Option ℕ}
      → Argument 0 id a
      → Argument 0 lba b
      → Argument 1 n c
      → Argument 0 off d
      → Transfer seen write
          (id ∷ lba ∷ n ∷ bytebuffer addr cap ∷ off ∷ [])
          v
          (elim a as (λ x. Option Value × Driver) [
            | none ↦ (some (keyword "bad-args"), v)
            | some i ↦ elim b as (λ x. Option Value × Driver) [
              | none ↦ (some (keyword "bad-args"), v)
              | some l ↦ elim c as (λ x. Option Value × Driver) [
                | none ↦ (some (keyword "bad-args"), v)
                | some m ↦ elim d as (λ x. Option Value × Driver) [
                  | none ↦ (some (keyword "bad-args"), v)
                  | some o ↦ rw_args seen write i l m addr cap o v
                ]
              ]
            ]
          ])
  unfolding IsTransfer transfer_args
  checked id lba n off addr cap (no_number wrong) b c d =
      bad_args (λ (i, l, m, a, k, o, lt, e). wrong (i, omega arith, cc))
  checked id lba n off addr cap (number i le) (no_number wrong) c d =
      bad_args (λ (i', l, m, a, k, o, lt, e). wrong (l, omega arith, cc))
  checked id lba n off addr cap (number i le) (number l le') (no_number wrong) d =
      bad_args (λ (i', l', m, a, k, o, lt, e). wrong (m, lt, cc))
  checked id lba n off addr cap (number i le) (number l le') (number m some_m) (no_number wrong) =
      bad_args (λ (i', l', m', a, k, o, lt, e). wrong (o, omega arith, cc))
  checked id lba n off addr cap (number i le) (number l le') (number m some_m) (number o le_o) =
      args-Transfer seen v write i l m addr cap o (omega arith)

  wrong_buffer :
      (id lba n buf : Value) (rest : List Value)
      → ¬ ((addr cap : ℕ) × (buf ≡ bytebuffer addr cap))
      → ¬ IsTransfer (id ∷ lba ∷ n ∷ buf ∷ rest)
  unfolding IsTransfer transfer_args
  wrong_buffer id lba n buf rest wrong (i, l, m, a, k, o, lt, e) = wrong (a, k, cc)

  buffer-Transfer :
      (id lba n buf : Value) (rest : List Value)
      → Transfer seen write
          (id ∷ lba ∷ n ∷ buf ∷ rest)
          v
          (rw_native seen write (id ∷ lba ∷ n ∷ buf ∷ rest) v)
  unfolding rw_native
  buffer-Transfer id lba n (bytebuffer addr cap) [] =
      bad_args (unfold IsTransfer in unfold transfer_args in λ (i, l, m, a, k, o, lt, e). cc)
  buffer-Transfer id lba n (bytebuffer addr cap) (off ∷ []) =
      checked id lba n off addr cap (fixnum_arg-Argument id 0) (fixnum_arg-Argument lba 0)
        (fixnum_arg-Argument n 1) (fixnum_arg-Argument off 0)
  buffer-Transfer id lba n (bytebuffer addr cap) (off ∷ x ∷ rest) =
      bad_args (unfold IsTransfer in unfold transfer_args in λ (i, l, m, a, k, o, lt, e). cc)
  buffer-Transfer id lba n nil rest = bad_args (wrong_buffer id lba n nil rest (λ (a, c, e). cc))
  buffer-Transfer id lba n (boolean b) rest =
      bad_args (wrong_buffer id lba n (boolean b) rest (λ (a, c, e). cc))
  buffer-Transfer id lba n (fixnum k) rest =
      bad_args (wrong_buffer id lba n (fixnum k) rest (λ (a, c, e). cc))
  buffer-Transfer id lba n (keyword k) rest =
      bad_args (wrong_buffer id lba n (keyword k) rest (λ (a, c, e). cc))
  buffer-Transfer id lba n (other k) rest =
      bad_args (wrong_buffer id lba n (other k) rest (λ (a, c, e). cc))

  rw_native-Transfer :
      (args : List Value) → Transfer seen write args v (rw_native seen write args v)
  unfolding rw_native IsTransfer transfer_args
  rw_native-Transfer [] = bad_args (λ (i, l, m, a, k, o, lt, e). cc)
  rw_native-Transfer (b ∷ []) = bad_args (λ (i, l, m, a, k, o, lt, e). cc)
  rw_native-Transfer (b ∷ c ∷ []) = bad_args (λ (i, l, m, a, k, o, lt, e). cc)
  rw_native-Transfer (b ∷ c ∷ d ∷ []) = bad_args (λ (i, l, m, a, k, o, lt, e). cc)
  rw_native-Transfer (b ∷ c ∷ d ∷ f ∷ rest) = buffer-Transfer b c d f rest

module _ (seen : Observed) (v : Driver) where
  with_id :
      (id : Value) {a : Option ℕ}
      → Argument 0 id a
      → Flush seen (id ∷ []) v (elim a as (λ x. Option Value × Driver) [
        | none ↦ (some (keyword "bad-args"), v)
        | some i ↦ answered (virtio_blk_flush seen (int_of i) v)
      ])
  unfolding IsFlush
  with_id id (no_number wrong) = bad_args (λ (i, e). wrong (i, omega arith, cc))
  with_id id (number i le) = asked i refl (flush-Asked seen v (int_of i))

  native_flush-Flush : (args : List Value) → Flush seen args v (native_flush seen args v)
  unfolding native_flush IsFlush
  native_flush-Flush [] = bad_args (λ (i, e). cc)
  native_flush-Flush (id ∷ []) = with_id id (fixnum_arg-Argument id 0)
  native_flush-Flush (id ∷ x ∷ rest) = bad_args (λ (i, e). cc)

  -- Whatever the arguments, read!, write! and flush! answer, or go on waiting, as follows. :bad-args
  -- just says that their number, a kind or a sign is wrong; :buffer-too-small that the sectors end,
  -- in 64 bits, behind the buffer; :no-device that the id, as an int, names none; :out-of-range that
  -- the sectors, in 32 bits, are none or pass the device's end; :read-only a write that would fit;
  -- :unsupported a device that cannot flush. All these leave the driver as it was. Otherwise one
  -- request has been made available to the device that the id names, and the answer is :timeout if
  -- the wait ends past its deadline, and else nil, :unsupported or :io-error by what the status byte
  -- means in virtio.
  pub transfers-Outcome :
      (args : List Value)
      → Transfer seen false args v (native_read seen args v)
        × Transfer seen true args v (native_write seen args v)
        × Flush seen args v (native_flush seen args v)
  unfolding native_read native_write
  transfers-Outcome args = (
    rw_native-Transfer seen v false args,
    rw_native-Transfer seen v true args,
    native_flush-Flush args,
  )
