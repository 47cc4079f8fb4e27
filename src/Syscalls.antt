-- ===== src/Syscalls.antt =====
-- kernel/syscall_stubs.c: reading and writing descriptors, and the clocks. `_sbrk` is in Malloc.
use beeros.Prelude.{
  ℕ, zero, suc, ◌+◌, ◌*◌, ◌/◌, ◌%◌, ◌^◌, Bool, true, false, ◌&&◌, ◌||◌, Option, none, some, List,
  [], ◌∷◌, ◌++◌, ltb, ◌==◌, if◌then◌else◌, length,
}
use beeros.Console.Capture.{Captures, console_write, console_capture_write}
pub mod Streams
pub mod Clocks
mod Stubs
mod Tests

-- What the stubs write to: the UART's bytes so far, and the capture slots.
pub record Outputs : Type 0 where
  pub uart : List ℕ
  pub captures : Captures

-- The loop of `read`: the bytes that `uart_getc` gives from the `i`-th on, up to a line feed.
unfoldable pub read_bytes : (ℕ → ℕ) → ℕ → ℕ → List ℕ
read_bytes getc i zero = []
read_bytes getc i (suc n) =
    let rest = read_bytes getc (i + 1) n in if getc i == 10 then getc i ∷ [] else getc i ∷ rest

-- `none` is -1 with EBADF.
pub read : (ℕ → ℕ) → ℕ → ℕ → Option (List ℕ)
read getc fd n = if fd == 0 then some (read_bytes getc 0 n) else none

-- `realloc_ok` is what the capture buffers' `realloc` answers.
pub write : (ℕ → Bool) → ℕ → List ℕ → Outputs → Option ℕ × Outputs
write realloc_ok fd s o =
    let (r, captures) = console_capture_write realloc_ok fd s o.captures in
    if fd == 1 || fd == 2
    then (some (length s), record o { uart = o.uart ++ console_write s })
    else (r, record o { captures = captures })

pub isatty : ℕ → Bool
isatty fd = ltb fd 3

-- Seconds and microseconds, and seconds and nanoseconds.
pub gettimeofday : ℕ → ℕ × ℕ
gettimeofday us = (us / 1000000, us % 1000000)

pub clock_gettime : ℕ → ℕ × ℕ
clock_gettime us = (us / 1000000, us % 1000000 * 1000)

abbrev pub u64_mod : ℕ
u64_mod = 2 ^ 64

pub requested_us : ℕ × ℕ → ℕ
requested_us (sec, nsec) = (sec * 1000000 + nsec / 1000) % u64_mod

-- The wait of `nanosleep` and `usleep`: the reading of the timer that ends it, of those it makes;
-- `none` says that they ended first.
unfoldable pub wait_until : ℕ → List ℕ → Option ℕ
wait_until end [] = none
wait_until end (now ∷ later) =
    let rest = wait_until end later in if ltb now end then rest else some now

pub usleep : (now us : ℕ) → List ℕ → Option ℕ
usleep now us readings = wait_until ((now + us) % u64_mod) readings

pub nanosleep : ℕ → ℕ × ℕ → List ℕ → Option ℕ
nanosleep now req readings = wait_until ((now + requested_us req) % u64_mod) readings
