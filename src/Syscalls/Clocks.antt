-- ===== src/Syscalls/Clocks.antt =====
-- kernel/syscall_stubs.c: the clocks and the sleeps.
use beeros.Prelude.{
  ℕ, ◌+◌, ◌*◌, ◌%◌, ◌≤◌, ◌<◌, ◌≡◌, refl, true, some, List, [], ◌∷◌, ◌++◌, ltb, arith,
}
use beeros.Syscalls.{gettimeofday, clock_gettime, requested_us, wait_until, nanosleep, u64_mod}

-- The two clocks split the timer's microseconds without loss and agree, with a fraction below a
-- second; and a `nanosleep` of what `clock_gettime` gives asks for just that time.
pub requested_us-clock_gettime :
    (us : ℕ)
    → us < u64_mod
    → let (sec, usec) = gettimeofday us in
      let (sec', nsec) = clock_gettime us in
      (sec * 1000000 + usec ≡ us)
      × (usec < 1000000)
      × (sec' ≡ sec)
      × (nsec ≡ usec * 1000)
      × (requested_us (sec', nsec) ≡ us)
unfolding gettimeofday clock_gettime requested_us
requested_us-clock_gettime us small = (omega arith, omega arith, refl, refl, omega arith)

unfoldable pub AllBefore : ℕ → List ℕ → Type 0
AllBefore end [] = Unit {0}
AllBefore end (now ∷ l) = (now < end) × AllBefore end l

wait_until-first :
    (end t : ℕ) (early rest : List ℕ)
    → AllBefore end early
    → end ≤ t
    → wait_until end (early ++ (t ∷ rest)) ≡ some t
unfolding wait_until AllBefore
wait_until-first end t [] rest h late = ground arith
wait_until-first end t (now ∷ early) rest (h, hs) late =
    let less : ltb now end ≡ true = ground arith in
    rw less (wait_until-first end t early rest hs late)

-- `nanosleep` returns at the first reading of the timer at which the time asked for has passed
-- since it began, if their sum does not wrap.
pub nanosleep-first :
    (start t : ℕ) (req : ℕ × ℕ) (early rest : List ℕ)
    → start + requested_us req < u64_mod
    → AllBefore (start + requested_us req) early
    → start + requested_us req ≤ t
    → nanosleep start req (early ++ (t ∷ rest)) ≡ some t
unfolding nanosleep
nanosleep-first start t req early rest no_wrap before late =
    let e : (start + requested_us req) % u64_mod ≡ start + requested_us req = omega arith in
    rw e (wait_until-first (start + requested_us req) t early rest before late)
