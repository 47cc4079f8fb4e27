-- ===== src/Syscalls/Tests.antt =====
-- Runs of kernel/syscall_stubs.c, and instances of the theorems about it.
use beeros.Prelude.{ℕ, zero, suc, ◌+◌, ◌≡◌, refl, some, [], ◌∷◌, arith}
use beeros.Syscalls.{read, read_bytes, requested_us, nanosleep, wait_until, usleep}
use beeros.Syscalls.Streams.{IsRead, read-IsRead}
use beeros.Syscalls.Clocks.{AllBefore}

abbrev input : ℕ → ℕ
input zero = 104
input (suc zero) = 105
input _ = 10

read-run : read input 0 80 ≡ some (104 ∷ 105 ∷ 10 ∷ [])
unfolding read read_bytes
read-run = refl

sleep-run : nanosleep 100 (0, 5000) (101 ∷ 104 ∷ 107 ∷ 109 ∷ []) ≡ some 107
unfolding nanosleep wait_until requested_us
sleep-run = refl

usleep-run : usleep 100 5 (101 ∷ 105 ∷ []) ≡ some 105
unfolding usleep wait_until
usleep-run = refl

read-IsRead_example : IsRead input 0 80 (read input 0 80)
read-IsRead_example = read-IsRead input 0 80

five_us : requested_us (0, 5000) ≡ 5
unfolding requested_us
five_us = refl

early : AllBefore (100 + requested_us (0, 5000)) (101 ∷ 104 ∷ [])
unfolding AllBefore requested_us
early = (omega arith, (omega arith, tt))
