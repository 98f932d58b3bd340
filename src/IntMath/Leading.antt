-- ===== src/IntMath/Leading.antt =====
-- `clz` counts the leading zeros, and the powers of two that stand on it.
use cstone.Prelude.{
  ℕ, suc, ◌+◌, ◌-◌, ◌*◌, ◌^◌, ◌≤◌, ◌<◌, ◌≡◌, ◌≢◌, refl, ap, ◌∙◌, u32, ◌<<<◌, arith,
}
use native.Mathlib.Decide.{ℕ_discrete}
use native.Mathlib.Nat.{pow-succ', mod-eq_of_lt, one-mul}
use cstone.IntMath.{clz_step, clz, ceil_pow2, floor_pow2}

-- For a value that is not 0, `clz` is the number of leading zeros: the highest digit stands at index
-- `31 - clz x`.
pub clz_bounds :
    (x : ℕ) → x < 2 ^ 32 → x ≢ 0 → (clz x < 32) × (2 ^ (31 - clz x) ≤ x) × (x < 2 ^ (32 - clz x))
unfolding clz clz_step
clz_bounds x p nz = ground (arith, p, nz)

-- For a value that is not 0, `floor_pow2` is the greatest power of two up to it.
pub floor_pow2-greatest :
    (x : ℕ)
    → x < 2 ^ 32
    → x ≢ 0
    → (k : ℕ) × (floor_pow2 x ≡ 2 ^ k) × (floor_pow2 x ≤ x) × (x < 2 * floor_pow2 x)
unfolding floor_pow2
floor_pow2-greatest x p nz =
    let (inside, least, most) = clz_bounds x p nz in
    let e : u32 (1 <<< (31 - clz x)) ≡ 2 ^ (31 - clz x) =
      ap u32 (one-mul (2 ^ (31 - clz x)))
      ∙ mod-eq_of_lt {n = 2 ^ (31 - clz x)} {m = 2 ^ 32} (omega (arith, least, p)) in
    (31 - clz x, e, omega (arith, e, least), omega (arith, e, most, double (clz x) inside))
  where
    double : (c : ℕ) → c < 32 → 2 ^ (32 - c) ≡ 2 * 2 ^ (31 - c)
    double c l =
        ap (λ (t : ℕ). 2 ^ t) (let z : 32 - c ≡ suc (31 - c) = omega arith in z)
        ∙ pow-succ' 2 (31 - c)

-- From 1 up to 2 ^ 31, `ceil_pow2` is the least power of two from the value on.
pub ceil_pow2-least :
    (x : ℕ)
    → x ≤ 2 ^ 31
    → x ≢ 0
    → (k : ℕ) × (ceil_pow2 x ≡ 2 ^ k) × (x ≤ ceil_pow2 x) × (ceil_pow2 x < 2 * x)
unfolding ceil_pow2
ceil_pow2-least x p nz = elim (ℕ_discrete x 1) [
  | yes one ↦ rw one (
    0,
    (unfold clz clz_step in refl),
    (unfold clz clz_step in omega arith),
    (unfold clz clz_step in omega arith),
  )
  | no more ↦
      let before : u32 (x + (2 ^ 32 - 1)) ≡ x - 1 = omega (arith, p, nz) in
      let (inside, least, most) = clz_bounds (x - 1) (omega (arith, p)) (omega (arith, nz, more)) in
      let twice : 2 ^ (32 - clz (x - 1)) ≡ 2 * 2 ^ (31 - clz (x - 1)) =
        ap (λ (t : ℕ). 2 ^ t)
          (let z : 32 - clz (x - 1) ≡ suc (31 - clz (x - 1)) = omega (arith, inside) in z)
        ∙ pow-succ' 2 (31 - clz (x - 1)) in
      let e : u32 (1 <<< (32 - clz (x - 1))) ≡ 2 ^ (32 - clz (x - 1)) =
        ap u32 (one-mul (2 ^ (32 - clz (x - 1))))
        ∙ mod-eq_of_lt {n = 2 ^ (32 - clz (x - 1))} {m = 2 ^ 32} (omega (arith, twice, least, p)) in
      rw before (32 - clz (x - 1), e, omega (arith, e, most), omega (arith, e, twice, least))
]
