-- ===== src/IntMath/Examples.antt =====
-- Values of the functions of src/util/intmath.c, and the theorems at them.
use cstone.Prelude.{ℕ, suc, ◌*◌, ◌^◌, ◌≤◌, ◌<◌, ◌≡◌, refl, some, arith}
use cstone.Prelude.Ints.{pos, to_int}
use cstone.IntMath.{
  log2_fixed, log2_fraction, log2_table, isqrt_loop, isqrt_fixed, clz_step, clz, ceil_pow2,
  floor_pow2, log10_est, pow10, ilog10, ilog_loop, ilog_b, ufixed_to_uint,
}
use cstone.IntMath.Log.{ilog_b-floor}

values :
    (clz 1 ≡ 31)
    × (clz 0xffffffff ≡ 0)
    × (ceil_pow2 17 ≡ 32)
    × (floor_pow2 17 ≡ 16)
    × (ilog10 999 ≡ 2)
    × (ilog10 1000 ≡ 3)
    × (ilog_b 10 80 3 ≡ some 3)
    × (ufixed_to_uint 640 256 ≡ 3)
unfolding clz clz_step ceil_pow2 floor_pow2 ilog10 log10_est pow10 ilog_b ilog_loop ufixed_to_uint
values = (refl, refl, refl, refl, refl, refl, refl, refl)

ilog_b-floor_example : (k : ℕ) × (ilog_b 81 80 3 ≡ some k) × (3 ^ k ≤ 80) × (80 < 3 ^ suc k)
ilog_b-floor_example = ilog_b-floor 80 3 (omega arith) (omega arith) (omega arith)

logarithms : (log2_fixed 1 0 ≡ pos 0) × (log2_fixed 8 0 ≡ pos 98304) × (log2_fixed 3 1 ≡ pos 19168)
unfolding log2_fixed log2_fraction log2_table clz clz_step to_int
logarithms = (refl, refl, refl)

roots :
    (isqrt_fixed 144 0 ≡ 12) × (isqrt_fixed (9 * 2 ^ 16) 16 ≡ 3 * 2 ^ 16) × (isqrt_fixed 0 0 ≡ 0)
unfolding isqrt_fixed isqrt_loop
roots = (refl, refl, refl)
