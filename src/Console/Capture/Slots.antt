-- ===== src/Console/Capture/Slots.antt =====
-- The slots of the capture streams of kernel/console.c: taking one, writing to it, giving it back.
use beeros.Prelude.{
  ℕ, zero, suc, ◌+◌, ◌-◌, ◌≤◌, ◌<◌, ◌≡◌, refl, inl, inr, ◌≢◌, Bool, true, false, not, ap, ◌∙◌,
  Option, none, some, List, [], ◌∷◌, ◌++◌, arith, ltb, leb, ◌==◌, Bool-cases, length, take,
}
use native.Mathlib.Decide.{ℕ_discrete}
use beeros.Prelude.Slice.{update}
use beeros.Prelude.Int.{pos}
use beeros.Beerlang.{fixnum}
use beeros.Console.Capture.{
  Captures, captures_max, capture_fd0, capture_max, contents, console_write, put_all,
  console_capture_write, first_slot, take_slot, native_capture_stream, slot_arg,
  native_release_output,
}
use beeros.Console.Capture.Write.{IsValid, put_all_lem}

-- `some i` is the first free slot from `from` on; `none` says that none of the `n` slots is free.
FirstFree : ℕ → ℕ → Captures → Option ℕ → Type 0
FirstFree n from t none = (j : ℕ) → from ≤ j → j < from + n → (t j).used ≡ true
FirstFree n from t (some i) =
    (from ≤ i)
    × (i < from + n)
    × ((t i).used ≡ false)
    × ((j : ℕ) → from ≤ j → j < i → (t j).used ≡ true)

first_slot_lem : (n from : ℕ) (t : Captures) → FirstFree n from t (first_slot n from t)
unfolding FirstFree first_slot
first_slot_lem zero from t = λ j lo hi. absurd (omega arith)
first_slot_lem (suc n) from t = elim (Bool-cases (t from).used) [
  | inr unused ↦ rw unused (omega arith, omega arith, unused, λ j lo hi. absurd (omega arith))
  | inl used ↦ rw used (later (first_slot n (from + 1) t) used (first_slot_lem n (from + 1) t))
]
  where
    at :
        (j : ℕ)
        → from ≤ j
        → (t from).used ≡ true
        → (from + 1 ≤ j → (t j).used ≡ true)
        → (t j).used ≡ true
    at j lo used rest = elim (ℕ_discrete from j) [
      | yes e ↦ rw (← e) used
      | no ne ↦ rest (omega arith)
    ]

    later :
        (o : Option ℕ)
        → (t from).used ≡ true
        → FirstFree n (from + 1) t o
        → FirstFree (suc n) from t o
    later none used all = λ j lo hi. at j lo used (λ lo'. all j lo' (omega arith))
    later (some i) used (lo, hi, unused, all) =
        (omega arith, omega arith, unused, λ j lo' lt. at j lo' used (λ lo''. all j lo'' lt))

-- `capture-stream` answers `o`, and leaves `t'` behind.
pub Taken : Captures → Option ℕ → Captures → Type 0
Taken t none t' = (t' ≡ t) × ((j : ℕ) → j < captures_max → (t j).used ≡ true)
Taken t (some i) t' =
    (i < captures_max)
    × ((t i).used ≡ false)
    × ((j : ℕ) → j < i → (t j).used ≡ true)
    × ((t' i).used ≡ true)
    × (contents (t' i) ≡ [])
    × ((j : ℕ) → j ≢ i → t' j ≡ t j)

take_slot-Taken :
    (o : Option ℕ) (t : Captures)
    → FirstFree captures_max 0 t o
    → let (o', t') = take_slot o t in Taken t o' t'
unfolding FirstFree Taken take_slot
take_slot-Taken none t all = (refl, λ j lt. all j (omega arith) (omega arith))
take_slot-Taken (some i) t (lo, hi, unused, all) =
    let self : (i == i) ≡ true = ground arith in
    (
      omega arith,
      unused,
      λ j lt. all j (omega arith) lt,
      rw self,
      rw self,
      λ j ne. let other : (i == j) ≡ false = ground arith in rw other,
    )

-- `capture-stream` takes the first free slot, which is then used and empty, and leaves the others
-- alone; it fails, and changes nothing, only when all 32 slots are in use.
pub native_capture_stream-Taken :
    (t : Captures) → let (o, t') = native_capture_stream t in Taken t o t'
unfolding native_capture_stream
native_capture_stream-Taken t =
    take_slot-Taken (first_slot captures_max 0 t) t (first_slot_lem captures_max 0 t)

module _ (realloc_ok : ℕ → Bool) (i : ℕ) (s : List ℕ) (t : Captures) (lt : i < captures_max) where
  write_in_use :
      (t i).used ≡ true
      → console_capture_write realloc_ok (capture_fd0 + i) s t
        ≡ (some (length s), update t i (put_all realloc_ok s (t i)))
  unfolding console_capture_write
  write_in_use used =
      let e : capture_fd0 + i - capture_fd0 ≡ i = omega arith in
      let fd : ltb (capture_fd0 + i) capture_fd0 ≡ false = ground arith in
      let slot : leb captures_max i ≡ false = ground arith in
      let on : not (t i).used ≡ false = ap not used in rw (e, fd, slot, on)

  write_not_in_use :
      (t i).used ≡ false → console_capture_write realloc_ok (capture_fd0 + i) s t ≡ (none, t)
  unfolding console_capture_write
  write_not_in_use unused =
      let e : capture_fd0 + i - capture_fd0 ≡ i = omega arith in
      let fd : ltb (capture_fd0 + i) capture_fd0 ≡ false = ground arith in
      let slot : leb captures_max i ≡ false = ground arith in
      let off : not (t i).used ≡ true = ap not unused in rw (e, fd, slot, off)

slot_arg-fixnum : (i : ℕ) → i < captures_max → slot_arg (fixnum (pos i) ∷ []) ≡ some i
unfolding slot_arg
slot_arg-fixnum i lt = let slot : leb captures_max i ≡ false = ground arith in rw slot

-- `release-output!` ends the use of its slot.
released :
    (i : ℕ) (t : Captures)
    → i < captures_max
    → (native_release_output (fixnum (pos i) ∷ []) t i).used ≡ false
unfolding native_release_output
released i t lt =
    let self : (i == i) ≡ true = ground arith in
    rw (slot_arg-fixnum i lt, native_release_output, self)

-- Writing to the stream of a slot in use takes all bytes and keeps what `console_write` would send,
-- up to 64 KiB in all, as long as memory lasts; once the slot is given back, a write to its stream
-- fails and changes nothing.
pub release-write :
    (realloc_ok : ℕ → Bool) (i : ℕ) (s : List ℕ) (t : Captures)
    → ((n : ℕ) → realloc_ok n ≡ true)
    → i < captures_max
    → (t i).used ≡ true
    → IsValid (t i)
    → let (n, t') = console_capture_write realloc_ok (capture_fd0 + i) s t in
      let t'' = native_release_output (fixnum (pos i) ∷ []) t in
      (n ≡ some (length s))
      × (contents (t' i) ≡ take capture_max (contents (t i) ++ console_write s))
      × (console_capture_write realloc_ok (capture_fd0 + i) s t'' ≡ (none, t''))
release-write realloc_ok i s t granted lt used v =
    let self : (i == i) ≡ true = ground arith in
    let at : update t i (put_all realloc_ok s (t i)) i ≡ put_all realloc_ok s (t i) = rw self in
    let w = write_in_use realloc_ok i s t lt used in
    (
      ap (λ r. r.0) w,
      ap (λ r. contents (r.1 i)) w ∙ ap contents at ∙ (put_all_lem realloc_ok granted s v).0,
      write_not_in_use realloc_ok i s (native_release_output (fixnum (pos i) ∷ []) t) lt
          (released i t lt),
    )
