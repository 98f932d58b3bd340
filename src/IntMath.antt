-- ===== src/IntMath.antt =====
-- src/util/intmath.c: logarithms, powers of two, the square root and rounding. `unsigned` has 32 bits.
pub mod Leading
pub mod Log
mod Examples
use cstone.Prelude.{
  ℕ, zero, suc, ◌+◌, ◌-◌, ◌*◌, ◌/◌, ◌%◌, ◌^◌, Bool, true, false, Option, none, some, List, [], ◌∷◌,
  ltb, leb, ◌==◌, if◌then◌else◌, get_or, u16, u32, ◌<<<◌, ◌>>>◌,
}
use cstone.Prelude.Ints.{ℤ, to_int}

-- One step of `clz`: the number of bits that may still be zero, and the rest of the value.
pub clz_step : ℕ → ℕ × ℕ → ℕ × ℕ
clz_step k (n, x) = if x >>> k == 0 then (n, x) else (n - k, x >>> k)

pub clz : ℕ → ℕ
unfolding clz_step
clz x =
    let (n, x') = clz_step 2 (clz_step 4 (clz_step 8 (clz_step 16 (32, x)))) in
    if x' >>> 1 == 0 then n - x' else n - 2

pub ceil_pow2 : ℕ → ℕ
unfolding clz
ceil_pow2 x = u32 (1 <<< (32 - clz (u32 (x + (2 ^ 32 - 1)))))

pub floor_pow2 : ℕ → ℕ
unfolding clz
floor_pow2 x = u32 (1 <<< (31 - clz x))

pub log10_est : List ℕ
log10_est =
    9 ∷ 9 ∷ 9 ∷ 8 ∷ 8 ∷ 8 ∷ 7 ∷ 7 ∷ 7 ∷ 6 ∷ 6 ∷ 6 ∷ 6 ∷ 5 ∷ 5 ∷ 5 ∷ 4 ∷ 4 ∷ 4 ∷ 3 ∷ 3 ∷ 3 ∷ 3 ∷ 2
    ∷ 2 ∷ 2 ∷ 1 ∷ 1 ∷ 1 ∷ 0 ∷ 0 ∷ 0 ∷ 0 ∷ []

pub pow10 : List ℕ
pow10 = 1 ∷ 10 ∷ 100 ∷ 1000 ∷ 10000 ∷ 100000 ∷ 1000000 ∷ 10000000 ∷ 100000000 ∷ 1000000000 ∷ []

pub ilog10 : ℕ → ℕ
unfolding clz log10_est pow10
ilog10 n =
    let log = get_or log10_est (clz n) 0 in
    if ltb n (get_or pow10 log 0) then u32 (log + (2 ^ 32 - 1)) else log

-- The loop of `ilog_b`, on fuel.
pub ilog_loop : ℕ → ℕ → ℕ → ℕ → Option ℕ
ilog_loop zero residual base log = none
ilog_loop (suc fuel) residual base log =
    let more = ilog_loop fuel (residual / base) base (log + 1) in
    if ltb (u32 (base + (2 ^ 32 - 1))) residual then more else some log

pub ilog_b : ℕ → ℕ → ℕ → Option ℕ
unfolding ilog_loop
ilog_b fuel n base = ilog_loop fuel n base 0

pub ufixed_to_uint : ℕ → ℕ → ℕ
ufixed_to_uint fp_value fp_scale = u32 (fp_value + fp_scale / 2) / fp_scale

pub log2_table : List ℕ
log2_table =
    0 ∷ 733 ∷ 1455 ∷ 2166 ∷ 2866 ∷ 3556 ∷ 4236 ∷ 4907 ∷ 5568 ∷ 6220 ∷ 6863 ∷ 7498 ∷ 8124 ∷ 8742
    ∷ 9352 ∷ 9954 ∷ 10549 ∷ 11136 ∷ 11716 ∷ 12289 ∷ 12855 ∷ 13415 ∷ 13968 ∷ 14514 ∷ 15055 ∷ 15589
    ∷ 16117 ∷ 16639 ∷ 17156 ∷ 17667 ∷ 18173 ∷ 18673 ∷ 19168 ∷ 19658 ∷ 20143 ∷ 20623 ∷ 21098 ∷ 21568
    ∷ 22034 ∷ 22495 ∷ 22952 ∷ 23404 ∷ 23852 ∷ 24296 ∷ 24736 ∷ 25172 ∷ 25604 ∷ 26031 ∷ 26455 ∷ 26876
    ∷ 27292 ∷ 27705 ∷ 28114 ∷ 28520 ∷ 28922 ∷ 29321 ∷ 29717 ∷ 30109 ∷ 30498 ∷ 30884 ∷ 31267 ∷ 31647
    ∷ 32024 ∷ 32397 ∷ 32768 ∷ []

-- The fraction of the logarithm, from the table and the bits below its index.
pub log2_fraction : ℕ → ℕ
unfolding log2_table
log2_fraction frac =
    let ix = frac >>> (32 - 6) in
    let l2_frac = get_or log2_table ix 0 in
    let ix_frac = u32 (frac <<< 6) >>> (32 - 15) in
    u32 ((u32 ((get_or log2_table (ix + 1) 0 + (2 ^ 32 - l2_frac)) * ix_frac) >>> 15) + l2_frac)

-- `log2_fixed`, with the shift by 32 that the value 1 asks for giving 0, as on ARM.
pub log2_fixed : ℕ → ℕ → ℤ
unfolding clz log2_fraction
log2_fixed n fp_exp =
    let l2_int = clz n in
    let l2_frac = log2_fraction (u32 (n <<< (l2_int + 1))) in
    let merged = u32 ((2 ^ 32 - (l2_int <<< 15)) + l2_frac) in
    to_int 32 (u32 (merged + u32 (u32 (31 + (2 ^ 32 - fp_exp)) <<< 15)))

-- The loop of `isqrt_fixed`, on fuel for the 31 values of `b`.
pub isqrt_loop : ℕ → ℕ → ℕ → ℕ → ℕ → ℕ × ℕ
isqrt_loop zero b end_b r q = (r, q)
isqrt_loop (suc fuel) b end_b r q =
    let t = u32 (q + b) in
    let r' = (if leb t r then r - t else r) in
    let q' = (if leb t r then u32 (t + b) else q) in
    let rest = isqrt_loop fuel (b >>> 1) end_b (u32 (r' <<< 1)) q' in
    if ltb end_b b then rest else (r, q)

-- `unsigned long` has 32 bits.
pub isqrt_fixed : ℕ → ℕ → ℕ
unfolding isqrt_loop
isqrt_fixed fp_value fp_exp =
    let integer_bits = u16 (32 + (2 ^ 32 - fp_exp)) in
    let adj_bits = integer_bits / 2 in
    let aux_bits = (if leb 2 adj_bits then 2 else adj_bits) in
    let (r, q) = isqrt_loop 32 (1 <<< 30) (1 <<< (adj_bits - aux_bits)) fp_value 0 in
    if integer_bits % 2 == 1 then 0 else u32 ((q >>> adj_bits) + (if ltb q r then 1 else 0))
