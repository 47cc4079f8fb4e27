-- ===== src/Clz/Tests.antt =====
-- Counts of kernel/libgcc_shim.c, and its theorem at these.
use beeros.Prelude.{◌≡◌, refl, arith}
use beeros.Clz.{halve, last_bit, clzsi2, clzdi2, leading_zeros, clz_lem}

clzsi2_run : clzsi2 0x00012345 ≡ 15
unfolding clzsi2 halve last_bit
clzsi2_run = refl

clzdi2_run : clzdi2 1 ≡ 63
unfolding clzdi2 halve last_bit
clzdi2_run = refl

clz_lem_example :
    (clzsi2 0x00012345 ≡ leading_zeros 32 0x00012345) × (clzdi2 0 ≡ leading_zeros 64 0)
clz_lem_example = clz_lem 0x00012345 0 (omega arith) (omega arith)
