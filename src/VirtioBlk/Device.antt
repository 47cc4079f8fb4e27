-- ===== src/VirtioBlk/Device.antt =====
-- How the device on the other side of the queue of kernel/virtio_blk.c reads a request.
use beeros.Prelude.{
  ℕ, zero, suc, ◌+◌, ◌-◌, ◌*◌, ◌%◌, ◌<◌, ◌≡◌, refl, ap, ◌∙◌, Bool, true, false, not, ◌&&◌, Option,
  none, some, List, [], ◌∷◌, ◌==◌, if◌then◌else◌, arith,
}
use beeros.Prelude.Slice.{update}
use beeros.VirtioBlk.{
  VBlk, Desc, BlkHdr, Observed, Waited, completed, timed_out, spinning, publish, finish, submit,
  rw_chain, flush_chain, desc, qsize, u16_mod, u32_mod, sector_size,
}

-- A buffer of a chain: its address, its length, and whether the device writes it.
pub record Buffer : Type 0 where
  pub addr : ℕ
  pub len : ℕ
  pub written : Bool

-- A block request in the device's terms.
pub record Request : Type 0 where
  pub type : ℕ
  pub sector : ℕ
  pub payload : Option Buffer
  pub status_addr : ℕ

has_next : Desc → Bool
has_next e = e.flags % 2 == 1

buffer : Desc → Buffer
buffer e = record { addr = e.addr; len = e.len; written = not (e.flags % 4 - e.flags % 2 == 0) }

-- The chain that begins at descriptor `head`, of at most `fuel` descriptors.
chain : ℕ → ℕ → (ℕ → Desc) → List Buffer
chain zero head table = []
chain (suc fuel) head table =
    let e = table head in
    let rest = chain fuel e.next table in buffer e ∷ (if has_next e then rest else [])

-- The header, one data buffer or none, and a byte that the device writes.
parse : BlkHdr → (hdr_addr : ℕ) → List Buffer → Option Request
parse h a (b ∷ s ∷ []) =
    if b.addr == a && b.len == 16 && not b.written && s.len == 1 && s.written
    then some (record { type = h.type; sector = h.sector; payload = none; status_addr = s.addr })
    else none
parse h a (b ∷ d ∷ s ∷ []) =
    if b.addr == a && b.len == 16 && not b.written && s.len == 1 && s.written
    then some (record { type = h.type; sector = h.sector; payload = some d; status_addr = s.addr })
    else none
parse h a _ = none

-- How many chains a device that has taken `taken` of them finds, and the next request.
pub available : ℕ → VBlk → ℕ
available taken d = (d.avail_idx + u16_mod - taken) % u16_mod

pub next_request : ℕ → VBlk → Option Request
unfolding available
next_request taken d =
    if available taken d == 0
    then none
    else parse d.hdr d.hdr_addr (chain qsize (d.avail_ring (taken % qsize)) d.desc)

unfoldable pub rw_request : Bool → ℕ → ℕ → ℕ → VBlk → Request
rw_request write lba n buf d = record {
  type = if write then 1 else 0;
  sector = lba;
  payload = some (record { addr = buf; len = n * sector_size % u32_mod; written = not write });
  status_addr = d.status_addr;
}

update-here : (f : ℕ → ℕ) (p v : ℕ) → update f p v p ≡ v
update-here f p v = ground arith

pub available_one : (d : VBlk) → d.avail_idx < u16_mod → available d.avail_idx (publish d) ≡ 1
unfolding available publish
available_one d h = omega arith

-- Once `publish` has made chain 0 available, the device finds what is in its descriptors.
next_request-publish :
    (d : VBlk)
    → d.avail_idx < u16_mod
    → next_request d.avail_idx (publish d) ≡ parse d.hdr d.hdr_addr (chain qsize 0 d.desc)
unfolding next_request
next_request-publish d h =
    rw (available_one d h)
      (unfold publish in rw (update-here d.avail_ring (d.avail_idx % qsize) 0) refl)

chain-rw_chain :
    (w : Bool) (lba n buf : ℕ) (d : VBlk)
    → chain qsize 0 (rw_chain w lba n buf d).desc
      ≡ record { addr = d.hdr_addr; len = 16; written = false }
        ∷ record { addr = buf; len = n * sector_size % u32_mod; written = not w }
        ∷ record { addr = d.status_addr; len = 1; written = true }
        ∷ []
unfolding chain has_next buffer rw_chain desc
chain-rw_chain true lba n buf d = refl
chain-rw_chain false lba n buf d = refl

chain-flush_chain :
    (d : VBlk)
    → chain qsize 0 (flush_chain d).desc
      ≡ record { addr = d.hdr_addr; len = 16; written = false }
        ∷ record { addr = d.status_addr; len = 1; written = true }
        ∷ []
unfolding chain has_next buffer flush_chain desc
chain-flush_chain d = refl

same_number : (a : ℕ) → (a == a) ≡ true
same_number a = ground arith

pub rw_request_lem :
    (w : Bool) (lba n buf : ℕ) (d : VBlk)
    → d.avail_idx < u16_mod
    → next_request d.avail_idx (publish (rw_chain w lba n buf d)) ≡ some (rw_request w lba n buf d)
unfolding rw_chain
rw_request_lem w lba n buf d h =
    next_request-publish (rw_chain w lba n buf d) (unfold rw_chain in h)
    ∙ ap (parse _ _) (chain-rw_chain w lba n buf d)
    ∙ (unfold parse in unfold rw_request in rw (same_number d.hdr_addr) refl)

pub flush_request_lem :
    (d : VBlk)
    → d.avail_idx < u16_mod
    → next_request d.avail_idx (publish (flush_chain d))
      ≡ some (record { type = 4; sector = 0; payload = none; status_addr = d.status_addr })
unfolding flush_chain
flush_request_lem d h =
    next_request-publish (flush_chain d) h
    ∙ ap (parse _ _) (chain-flush_chain d)
    ∙ (unfold parse in rw (same_number d.hdr_addr) refl)

-- Waiting changes nothing of what the device reads.
finish-next_request :
    (taken : ℕ) (w : Waited) (seen : Observed) (d : VBlk)
    → next_request taken (finish w seen d).1 ≡ next_request taken d
unfolding next_request available finish
finish-next_request taken spinning seen d = refl
finish-next_request taken timed_out seen d = refl
finish-next_request taken completed seen d = refl

pub submit-next_request :
    (taken : ℕ) (seen : Observed) (d : VBlk)
    → next_request taken (submit seen d).1 ≡ next_request taken (publish d)
unfolding submit
submit-next_request taken seen d = finish-next_request taken _ seen (publish d)

finish-available :
    (taken : ℕ) (w : Waited) (seen : Observed) (d : VBlk)
    → available taken (finish w seen d).1 ≡ available taken d
unfolding available finish
finish-available taken spinning seen d = refl
finish-available taken timed_out seen d = refl
finish-available taken completed seen d = refl

pub submit-available :
    (taken : ℕ) (seen : Observed) (d : VBlk)
    → available taken (submit seen d).1 ≡ available taken (publish d)
unfolding submit
submit-available taken seen d = finish-available taken _ seen (publish d)
