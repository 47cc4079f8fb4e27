-- ===== src/VirtioBlk/Wait.antt =====
-- kernel/virtio_blk.c: what the wait for a completion answers, and what a time-out leaves behind.
use beeros.Prelude.{
  ℕ, ◌+◌, ◌-◌, ◌%◌, ◌≤◌, ◌<◌, ◌≡◌, ◌≢◌, refl, ap, ◌∙◌, sym, Bool, true, false, Option, none, some,
  List, [], ◌∷◌, ◌++◌, ltb, ◌==◌, if◌then◌else◌, arith, ltb→lt,
}
use mathlib.Core.Path.{subst}
use mathlib.Core.List.{append-nil}
use native.Mathlib.Decide.{ℕ_discrete}
use beeros.VirtioBlk.{
  VBlk, Status, ok, unsupported, io_error, timeout, Observed, Waited, completed, timed_out,
  spinning, wait, publish, finish, submit, status_of, u16_mod, u64_mod, timeout_us,
}

-- The turns of the wait: first some at which the used index stands still and the time has not
-- passed the deadline, then the one that ends it, if there is one.
pub data Waits (deadline seen : ℕ) : List (ℕ × ℕ) → Waited → Type 0 where
  moves :
      {idx now : ℕ} {rest : List (ℕ × ℕ)}
      → idx ≢ seen
      → Waits deadline seen ((idx, now) ∷ rest) completed
  passes :
      {idx now : ℕ} {rest : List (ℕ × ℕ)}
      → idx ≡ seen
      → deadline < now
      → Waits deadline seen ((idx, now) ∷ rest) timed_out
  turns :
      {idx now : ℕ} {rest : List (ℕ × ℕ)} {w : Waited}
      → idx ≡ seen
      → now ≤ deadline
      → Waits deadline seen rest w
      → Waits deadline seen ((idx, now) ∷ rest) w
  ends : Waits deadline seen [] spinning

==→≡ : (a b : ℕ) → (a == b) ≡ true → a ≡ b
==→≡ a b h = ground arith

==→≢ : (a b : ℕ) → (a == b) ≡ false → a ≢ b
==→≢ a b h = ground arith

ltb→le : (a b : ℕ) → ltb a b ≡ false → b ≤ a
ltb→le a b h = ground arith

pub wait-Waits :
    (deadline seen : ℕ) (polls : List (ℕ × ℕ))
    → Waits deadline seen polls (wait deadline seen polls)
unfolding wait
wait-Waits deadline seen [] = ends
wait-Waits deadline seen ((idx, now) ∷ rest) =
    go (idx == seen) refl (ltb deadline now) refl (wait-Waits deadline seen rest)
  where
    go :
        (same : Bool)
        → (idx == seen) ≡ same
        → (late : Bool) → ltb deadline now ≡ late
        → {w : Waited} → Waits deadline seen rest w
        → Waits deadline seen
            ((idx, now) ∷ rest)
            (if same then (if late then timed_out else w) else completed)
    go true e true l h = passes (==→≡ idx seen e) (ltb→lt deadline now l)
    go true e false l h = turns (==→≡ idx seen e) (ltb→le deadline now l) h
    go false e late l h = moves (==→≢ idx seen e)

-- The status bytes of virtio 1.x, section 5.2.6: 0 is success, 2 a request that the device does not
-- support, and any other an I/O error.
pub data Means : ℕ → Status → Type 0 where
  success : Means 0 ok
  unsupp : Means 2 unsupported
  failure : {byte : ℕ} → byte ≢ 0 → byte ≢ 2 → Means byte io_error

pub status_of-Means : (byte : ℕ) → Means byte (status_of byte)
unfolding status_of
status_of-Means byte = elim (ℕ_discrete byte 0) [
  | yes zero_byte ↦ subst (λ k. Means k (status_of k)) (sym zero_byte) success
  | no some_byte ↦ elim (ℕ_discrete byte 2) [
    | yes two ↦ subst (λ k. Means k (status_of k)) (sym two) unsupp
    | no unlike ↦
        let e : (byte == 0) ≡ false = ground arith in
        let e' : (byte == 2) ≡ false = ground arith in rw (e, e') (failure some_byte unlike)
  ]
]

-- The requests that the device has and the driver has not seen completed.
pub outstanding : VBlk → ℕ
outstanding d = (d.avail_idx + (u16_mod - d.used_seen)) % u16_mod

-- A request has been made available, and the device notified; `acked` are the writes after that.
Handed : List (ℕ × ℕ) → VBlk → VBlk → Type 0
Handed acked d d' =
    (d'.avail_idx ≡ (d.avail_idx + 1) % u16_mod)
    × (d'.writes ≡ d.writes ++ ((0x050, 0) ∷ []) ++ acked)

-- What `submit` answers and leaves, for each way in which the wait ends.
pub Submitted : Waited → Observed → VBlk → Option Status × VBlk → Type 0
unfolding Handed
Submitted completed seen d (s, d') =
    ((st : Status) × ((s ≡ some st) × Means seen.final_status st))
    × Handed ((0x064, seen.int_status) ∷ []) d d'
    × (outstanding d' ≡ outstanding d)
Submitted timed_out seen d (s, d') =
    (s ≡ some timeout) × Handed [] d d' × (outstanding d' ≡ (outstanding d + 1) % u16_mod)
Submitted spinning seen d (s, d') =
    (s ≡ none) × Handed [] d d' × (outstanding d' ≡ (outstanding d + 1) % u16_mod)

one_more :
    (a u : ℕ)
    → u < u16_mod
    → ((a + 1) % u16_mod + (u16_mod - u)) % u16_mod ≡ ((a + (u16_mod - u)) % u16_mod + 1) % u16_mod
one_more a u lt = omega arith

in_step :
    (a u : ℕ)
    → u < u16_mod
    → ((a + 1) % u16_mod + (u16_mod - (u + 1) % u16_mod)) % u16_mod ≡ (a + (u16_mod - u)) % u16_mod
in_step a u lt = omega arith

-- For indices in 16 bits; the deadline is 2 seconds after the start. `submit` makes one request
-- available and notifies the device. Once the used index has moved it answers what virtio says that
-- the status byte means, has acknowledged the interrupt, and as many requests are outstanding as
-- before. At the first turn past the deadline at which the index has not moved it answers a
-- time-out, and before one of the two nothing; then one more request is outstanding.
pub submit-Submitted :
    (seen : Observed) (d : VBlk)
    → d.used_seen < u16_mod
    → (w : Waited) × Waits ((seen.started + timeout_us) % u64_mod) d.used_seen seen.polls w
      × Submitted w seen d (submit seen d)
unfolding submit publish finish Submitted Handed outstanding
submit-Submitted seen d small = (wait _ _ seen.polls, wait-Waits _ _ seen.polls, go _)
  where
    go : (w : Waited) → Submitted w seen d (finish w seen (publish d))
    go completed = (
      (status_of seen.final_status, (refl, status_of-Means seen.final_status)),
      (refl, refl),
      in_step d.avail_idx d.used_seen small,
    )
    go timed_out = (refl, (refl, sym (append-nil _)), one_more d.avail_idx d.used_seen small)
    go spinning = (refl, (refl, sym (append-nil _)), one_more d.avail_idx d.used_seen small)

status_of-timeout : (s : ℕ) → status_of s ≢ timeout
unfolding status_of
status_of-timeout s = ground arith

finish-timeout :
    (w : Waited) (seen : Observed) (d : VBlk)
    → (finish w seen d).0 ≡ some timeout
    → (finish w seen d).1.used_seen ≡ d.used_seen
unfolding finish
finish-timeout spinning seen d e = refl
finish-timeout timed_out seen d e = refl
finish-timeout completed seen d e = elim (status_of-timeout seen.final_status (cc)) [ ]

moved_on : (k : ℕ) → k < u16_mod → ((k + 1) % u16_mod == k) ≡ false
moved_on k small = ground arith

wait-moved :
    (deadline k now : ℕ) (rest : List (ℕ × ℕ))
    → k < u16_mod
    → wait deadline k (((k + 1) % u16_mod, now) ∷ rest) ≡ completed
unfolding wait
wait-moved deadline k now rest small = rw (moved_on k small) refl

finish-completed :
    (w : Waited) (seen : Observed) (d : VBlk)
    → w ≡ completed
    → ((finish w seen d).0 ≡ some (status_of seen.final_status))
      × ((finish w seen d).1.used_seen ≡ (d.used_seen + 1) % u16_mod)
finish-completed w seen d e = rw e (unfold finish in (refl, refl))

-- A request times out and the device completes it later. The wait for the next request then ends at
-- its first turn, on the completion of the earlier one: while the status byte still has the value
-- that the driver stored, the answer is an I/O error, and the used index of the request itself will
-- not be waited for any more.
pub late_completion-submit :
    (seen seen' : Observed) (d d' : VBlk) (now : ℕ) (rest : List (ℕ × ℕ))
    → d.used_seen < u16_mod
    → (submit seen d).0 ≡ some timeout
    → (submit seen d).1.used_seen ≡ d'.used_seen
    → seen'.polls ≡ ((d.used_seen + 1) % u16_mod, now) ∷ rest
    → seen'.final_status ≡ 0xff
    → ((submit seen' d').0 ≡ some io_error)
      × ((submit seen' d').1.used_seen ≡ (d.used_seen + 1) % u16_mod)
unfolding finish publish
late_completion-submit seen seen' d d' now rest small late next polls status =
    let seen_before : (submit seen d).1.used_seen ≡ d.used_seen =
      unfold submit in
      unfold publish in finish-timeout (wait _ d.used_seen seen.polls) seen (publish d) late in
    let same : d.used_seen ≡ d'.used_seen = sym seen_before ∙ next in
    let ends : wait ((seen'.started + timeout_us) % u64_mod) d'.used_seen seen'.polls ≡ completed =
      rw (polls, ← same) (wait-moved _ d.used_seen now rest small) in
    let (answer, used) = finish-completed _ seen' (publish d') ends in
    (
      unfold submit in answer ∙ ap (λ s. some (status_of s)) status ∙ (unfold status_of in refl),
      unfold submit in used ∙ (unfold publish in ap (λ k. (k + 1) % u16_mod) (sym same)),
    )
