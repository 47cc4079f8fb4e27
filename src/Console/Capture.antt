-- ===== src/Console/Capture.antt =====
-- kernel/console.c, the output side: `console_write`, and the capture streams that keep a task's
-- output in a buffer until it is taken.
use Prim.Native.String.{String}
use beeros.Prelude.{
  ℕ, zero, suc, ◌+◌, ◌-◌, ◌*◌, ◌/◌, Bool, true, false, not, ◌||◌, Option, none, some, List, [], ◌∷◌,
  ltb, leb, ◌==◌, if◌then◌else◌, length,
}
use beeros.Prelude.Slice.{update, slice}
use beeros.Prelude.Int.{pos}
use beeros.Beerlang.{Value, nil, fixnum, other, Reply, value, error}
pub mod Write
pub mod Utf8
pub mod Slots
mod Tests

abbrev pub captures_max : ℕ
captures_max = 32

abbrev pub capture_fd0 : ℕ
capture_fd0 = 3

abbrev pub capture_max : ℕ
capture_max = 65536

abbrev pub lf : ℕ
lf = 10

abbrev pub cr : ℕ
cr = 13

-- The bytes that go to the UART.
pub console_write : List ℕ → List ℕ
console_write [] = []
console_write (c ∷ s) = let rest = c ∷ console_write s in if c == lf then cr ∷ rest else rest

pub record Capture : Type 0 where
  pub used : Bool
  pub buf : ℕ → ℕ
  pub len : ℕ
  pub cap : ℕ

-- What the buffer holds.
abbrev pub contents : Capture → List ℕ
contents c = slice c.buf 0 c.len

-- The table `captures[CAPTURES]`.
abbrev pub Captures : Type 0
Captures = ℕ → Capture

append : Capture → ℕ → Capture
append c ch = record c { buf = update c.buf c.len ch; len = c.len + 1 }

-- `realloc_ok n` says whether `realloc` to `n` bytes succeeds; it keeps the bytes.
module _ (realloc_ok : ℕ → Bool) where
  pub capture_put : Capture → ℕ → Capture
  capture_put c ch =
      let cap = if c.cap == 0 then 256 else c.cap * 2 in
      if ltb c.len c.cap
      then append c ch
      else if leb capture_max c.cap
      then c
      else if realloc_ok cap
      then append (record c { cap = cap }) ch
      else c

  pub put_all : List ℕ → Capture → Capture
  put_all [] c = c
  put_all (ch ∷ s) c = put_all s (capture_put (if ch == lf then capture_put c cr else c) ch)

  -- `none` is -1: `fd` is no capture stream in use.
  pub console_capture_write : ℕ → List ℕ → Captures → Option ℕ × Captures
  console_capture_write fd s t =
      let i = fd - capture_fd0 in
      if ltb fd capture_fd0 || (leb captures_max i || not (t i).used)
      then (none, t)
      else (some (length s), update t i (put_all s (t i)))

-- The loop of `native_capture_stream`: the first free slot, by the slots left.
first_slot : ℕ → ℕ → Captures → Option ℕ
first_slot zero i t = none
first_slot (suc n) i t =
    let rest = first_slot n (i + 1) t in if not (t i).used then some i else rest

-- What the native makes of the slot that its loop finds. The answer `[stream slot]` is told by the
-- slot; the stream is that of descriptor 3 + slot.
take_slot : Option ℕ → Captures → Option ℕ × Captures
take_slot none t = (none, t)
take_slot (some i) t = (some i, update t i (record (t i) { used = true; len = 0 }))

pub native_capture_stream : Captures → Option ℕ × Captures
native_capture_stream t = take_slot (first_slot captures_max 0 t) t

pub slot_arg : List Value → Option ℕ
slot_arg (fixnum (pos i) ∷ []) = if leb captures_max i then none else some i
slot_arg _ = none

-- `(c & 0xC0) == 0x80`: the two top bits of a byte are 10.
abbrev pub is_continuation : ℕ → Bool
is_continuation c = c / 64 == 2

-- The length of the sequence that a byte begins.
abbrev pub need : ℕ → ℕ
need c = if leb 0xf0 c then 4 else if leb 0xe0 c then 3 else if leb 0xc0 c then 2 else 1

-- The loop of `utf8_tail`, from `k` on, by the rounds left.
tail_loop : ℕ → ℕ → (ℕ → ℕ) → ℕ → ℕ
tail_loop zero k b n = 0
tail_loop (suc rounds) k b n =
    let c = b (n - k) in
    let rest = tail_loop rounds (k + 1) b n in
    if ltb n k then 0 else if is_continuation c then rest else if ltb k (need c) then k else 0

pub utf8_tail : (ℕ → ℕ) → ℕ → ℕ
utf8_tail b n = tail_loop 3 1 b n

-- `none` is nil. `memmove` brings the incomplete sequence to the front.
pub take_output : Capture → Option (List ℕ) × Capture
take_output c =
    let keep = utf8_tail c.buf c.len in
    let n = c.len - keep in
    if c.len == 0 then (none, c) else if n == 0 then (none, c) else (
      some (slice c.buf 0 n),
      record c { buf = λ i. if ltb i keep then c.buf (n + i) else c.buf i; len = keep },
    )

-- With a wrong argument `slot_arg` reports the error and the natives answer nil.
pub native_take_output : List Value → Captures → Option (List ℕ) × Captures
native_take_output args t = elim (slot_arg args) [
  | none ↦ (none, t)
  | some i ↦ let (out, c) = take_output (t i) in (out, update t i c)
]

pub native_release_output : List Value → Captures → Captures
native_release_output args t = elim (slot_arg args) [
  | none ↦ t
  | some i ↦ update t i (record (t i) { used = false; len = 0 })
]
