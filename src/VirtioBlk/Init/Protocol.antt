-- ===== src/VirtioBlk/Init/Protocol.antt =====
-- What kernel/virtio_blk.c writes to the status register while it sets up a device.
use beeros.Prelude.{
  ℕ, zero, suc, ◌≡◌, refl, ◌⊎◌, inl, inr, Bool, true, false, List, [], ◌∷◌, ◌++◌, ◌==◌,
  if◌then◌else◌, arith,
}
use Prim.Native.Nat.{bit_or}
use mathlib.Core.List.{append-nil}
use beeros.VirtioBlk.{VBlk}
use beeros.VirtioBlk.Init.{
  Mmio, Bus, Outcome, ready, failed, unsettled, Queue, r_status, init_device, Run, next, stop, M,
  ◌>>=◌, rd, write_reg, wr_addr, require, fail, pure, negotiate, offer_queue, read_config, capacity,
  init_run, initialised,
}

-- The values that were written to the status register.
pub status_writes : List (ℕ × ℕ) → List ℕ
status_writes [] = []
status_writes ((off, v) ∷ l) = if off == r_status then v ∷ status_writes l else status_writes l

-- The sequence of virtio 1.x, 3.1.1, for each way in which the set-up ends: reset, acknowledge and
-- driver, features, driver-ok, or the failed bit on top of what was reached.
pub Sequence : Outcome → List ℕ → Type 0
Sequence ready l = l ≡ 0 ∷ 3 ∷ 11 ∷ 15 ∷ []
Sequence failed l = (l ≡ 0 ∷ 3 ∷ 131 ∷ []) ⊎ (l ≡ 0 ∷ 3 ∷ 11 ∷ 139 ∷ [])
Sequence unsettled l = l ≡ 0 ∷ 3 ∷ 11 ∷ []

status_writes-append :
    (l m : List (ℕ × ℕ)) → status_writes (l ++ m) ≡ status_writes l ++ status_writes m
unfolding status_writes
status_writes-append [] m = refl
status_writes-append ((off, v) ∷ l) m = ground (arith, status_writes-append l m)

-- What holds of the status writes after a run.
After : {A D : Type 0} → List ℕ → Run A D → Type 0
After l (next a b) = status_writes b.writes ≡ l
After l (stop o b) = Sequence o (status_writes b.writes)

-- `m` takes the status writes from `s` to `t`, or ends in one of the sequences.
record Keeps {A D : Type 0} (s : List ℕ) (m : M D A) (t : List ℕ) : Type 0 where
  after : (b : Bus D) → status_writes b.writes ≡ s → After t (m b)

module _ {A B D : Type 0} {s t u : List ℕ} {m : M D A} {f : A → M D B} where
  then-Keeps : Keeps s m t → ((a : A) → Keeps t (f a) u) → Keeps s (m >>= f) u
  unfolding ◌>>=◌
  then-Keeps h k = record { after = λ b e. go (m b) (h.after b e) }
    where
      go :
          (r : Run A D)
          → After t r
          → After u (elim r [ next a b' ↦ f a b' | stop o b' ↦ stop o b' ])
      go (next a b') h' = unfold After in (k a).after b' h'
      go (stop o b') h' = unfold After in h'

if_Keeps :
    {A D : Type 0} {s t : List ℕ} {m n : M D A} (c : Bool)
    → Keeps s m t
    → Keeps s n t
    → Keeps s (if c then m else n) t
if_Keeps true h k = h
if_Keeps false h k = k

module _ {D : Type 0} (mmio : Mmio D) {s : List ℕ} where
  rd-Keeps : (off : ℕ) → Keeps s (rd mmio off) s
  unfolding After rd
  rd-Keeps off = record { after = λ b e. e }

  write-Keeps : (off v : ℕ) → (off == r_status) ≡ false → Keeps s (write_reg mmio off v) s
  unfolding After write_reg
  write-Keeps off v other = record {
    after = λ b e. rw (status_writes-append, e) (unfold status_writes in rw other (append-nil s));
  }

  status-Keeps : (v : ℕ) → Keeps s (write_reg mmio r_status v) (s ++ (v ∷ []))
  unfolding After write_reg
  status-Keeps v = record {
    after = λ b e. rw (status_writes-append, e) (unfold status_writes in refl);
  }

  require-Keeps :
      (c : Bool) (st : ℕ)
      → Sequence failed (s ++ (bit_or st 128 ∷ []))
      → Keeps s (require mmio c st) s
  unfolding After require pure fail
  require-Keeps true st h = record { after = λ b e. e }
  require-Keeps false st h = record {
    after = λ b e. rw (status_writes-append, e) (unfold status_writes in h);
  }

  pure-Keeps : {A : Type 0} (a : A) → Keeps s (pure {D = D} a) s
  unfolding After pure
  pure-Keeps a = record { after = λ b e. e }

module _ {D : Type 0} (mmio : Mmio D) where
  addr-Keeps :
      {s : List ℕ} (lo hi p : ℕ)
      → (lo == r_status) ≡ false
      → (hi == r_status) ≡ false
      → Keeps s (wr_addr mmio lo hi p) s
  addr-Keeps lo hi p el eh = then-Keeps (write-Keeps mmio _ _ el) λ _. write-Keeps mmio _ _ eh

  config-Keeps : {s : List ℕ} → Keeps s (read_config mmio) s
  unfolding read_config
  config-Keeps = then-Keeps (rd-Keeps mmio _) λ _.
      then-Keeps (rd-Keeps mmio _)
        λ _. then-Keeps (rd-Keeps mmio _) λ _. then-Keeps (rd-Keeps mmio _) λ _. pure-Keeps mmio _

  negotiate-Keeps : Keeps [] (negotiate mmio) (0 ∷ 3 ∷ 11 ∷ [])
  unfolding negotiate
  negotiate-Keeps = then-Keeps (status-Keeps mmio 0) λ _. then-Keeps (status-Keeps mmio 3) λ _.
      then-Keeps (write-Keeps mmio _ _ refl) λ _. then-Keeps (rd-Keeps mmio _) λ f0.
        then-Keeps (write-Keeps mmio _ _ refl) λ _. then-Keeps (rd-Keeps mmio _) λ f1.
          then-Keeps (require-Keeps mmio _ _ (unfold Sequence in inl refl)) λ _.
            then-Keeps (write-Keeps mmio _ _ refl) λ _. then-Keeps (write-Keeps mmio _ _ refl) λ _.
              then-Keeps (write-Keeps mmio _ _ refl) λ _.
                then-Keeps (write-Keeps mmio _ _ refl) λ _. then-Keeps (status-Keeps mmio _) λ _.
                  then-Keeps (rd-Keeps mmio _) λ st.
                    then-Keeps (require-Keeps mmio _ _ (unfold Sequence in inr refl))
                      λ _. pure-Keeps mmio _

  offer_queue-Keeps : (q : Queue) → Keeps (0 ∷ 3 ∷ 11 ∷ []) (offer_queue mmio q) (0 ∷ 3 ∷ 11 ∷ [])
  unfolding offer_queue
  offer_queue-Keeps q = then-Keeps (write-Keeps mmio _ _ refl) λ _.
      then-Keeps (rd-Keeps mmio _) λ in_use.
        then-Keeps (require-Keeps mmio _ _ (unfold Sequence in inr refl)) λ _.
          then-Keeps (rd-Keeps mmio _) λ max.
            then-Keeps (require-Keeps mmio _ _ (unfold Sequence in inr refl)) λ _.
              then-Keeps (write-Keeps mmio _ _ refl) λ _.
                then-Keeps (addr-Keeps _ _ _ refl refl) λ _.
                  then-Keeps (addr-Keeps _ _ _ refl refl)
                    λ _. then-Keeps (addr-Keeps _ _ _ refl refl) λ _. write-Keeps mmio _ _ refl

  capacity-Keeps : (fuel : ℕ) → Keeps (0 ∷ 3 ∷ 11 ∷ []) (capacity mmio fuel) (0 ∷ 3 ∷ 11 ∷ [])
  unfolding capacity
  capacity-Keeps zero = record { after = λ b e. unfold After in unfold Sequence in e }
  capacity-Keeps (suc fuel) =
      then-Keeps config-Keeps
        λ (gen, lo, hi, again). if_Keeps (gen == again) (pure-Keeps mmio _) (capacity-Keeps fuel)

  init_run-Keeps : (fuel : ℕ) (q : Queue) → Keeps [] (init_run mmio fuel q) (0 ∷ 3 ∷ 11 ∷ 15 ∷ [])
  unfolding init_run
  init_run-Keeps fuel q = then-Keeps negotiate-Keeps λ want. then-Keeps (offer_queue-Keeps q) λ _.
      then-Keeps (capacity-Keeps fuel)
        λ size. then-Keeps (status-Keeps mmio _) λ _. pure-Keeps mmio _

module _ {D : Type 0} (mmio : Mmio D) (fuel : ℕ) (q : Queue) (base : ℕ) (device : D)
    (d : VBlk) where
  -- From a register log that is empty, `init_device` writes the status register as virtio 1.x
  -- orders it: 0, 3, 11, 15 where it answers that the device is ready; 0, 3, 131 or 0, 3, 11, 139
  -- where it has failed; 0, 3, 11 while the configuration does not settle.
  pub init_device-Sequence :
      let (o, d', b) = init_device mmio fuel q base (record { device = device; writes = [] }) d in
      Sequence o (status_writes b.writes)
  unfolding init_device
  init_device-Sequence =
      let b : Bus D = record { device = device; writes = [] } in
      go (init_run mmio fuel q b)
        ((init_run-Keeps mmio fuel q).after b (unfold status_writes in refl))
    where
      go :
          (r : Run (ℕ × ℕ) D)
          → After (0 ∷ 3 ∷ 11 ∷ 15 ∷ []) r
          → let (o, d', b) = initialised mmio base r d in Sequence o (status_writes b.writes)
      go (next a b) h = unfold After in unfold initialised in unfold Sequence in h
      go (stop o b) h = unfold After in unfold initialised in h
