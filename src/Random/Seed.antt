-- ===== src/Random/Seed.antt =====
-- The state of the generator never becomes zero, which it could not leave; and what the seeds depend on.
use cstone.Prelude.{
  ℕ, zero, suc, ◌^◌, ◌<◌, ◌≡◌, ◌≢◌, bit_xor, List, u64, ◌<<<◌, ◌>>>◌, arith, ne→==,
}
use cstone.Prelude.Bits.{xor-eq-zero, xor-lt}
use cstone.Random.{xorshift64, random_init, random_seed_from_time, random_seed_from_str}

-- A word other than 0 differs from each of its shifts in the generator.
module _ (x : ℕ) (p : x < 2 ^ 64) (nz : x ≢ 0) where
  shl_13 : bit_xor x (u64 (x <<< 13)) ≢ 0
  shl_13 h = let e : x ≡ u64 (x <<< 13) = xor-eq-zero x (u64 (x <<< 13)) h in omega (arith, e, nz)

  shr_7 : bit_xor x (x >>> 7) ≢ 0
  shr_7 h = let e : x ≡ x >>> 7 = xor-eq-zero x (x >>> 7) h in omega (arith, e, nz)

  shl_17 : bit_xor x (u64 (x <<< 17)) ≢ 0
  shl_17 h = let e : x ≡ u64 (x <<< 17) = xor-eq-zero x (u64 (x <<< 17)) h in omega (arith, e, nz)

-- One step from a state other than 0 gives a state other than 0 that fits 64 bits.
xorshift64_nonzero : (s : ℕ) → s < 2 ^ 64 → s ≢ 0 → (xorshift64 s ≢ 0) × (xorshift64 s < 2 ^ 64)
unfolding xorshift64
xorshift64_nonzero s p nz =
    let x : ℕ = bit_xor s (u64 (s <<< 13)) in
    let y : ℕ = bit_xor x (x >>> 7) in
    let x_fits : x < 2 ^ 64 = xor-lt 64 s (u64 (s <<< 13)) p (omega arith) in
    let y_fits : y < 2 ^ 64 = xor-lt 64 x (x >>> 7) x_fits (omega (arith, x_fits)) in
    (
      shl_17 y y_fits (shr_7 x x_fits (shl_13 s p nz)),
      xor-lt 64 y (u64 (y <<< 17)) y_fits (omega arith),
    )

-- The state after `n` numbers were drawn.
unfoldable pub drawn : ℕ → ℕ → ℕ
drawn zero s = s
drawn (suc n) s = drawn n (xorshift64 s)

drawn_nonzero : (n s : ℕ) → s < 2 ^ 64 → s ≢ 0 → (drawn n s ≢ 0) × (drawn n s < 2 ^ 64)
unfolding drawn
drawn_nonzero zero s p nz = (nz, p)
drawn_nonzero (suc n) s p nz =
    let (nz', p') = xorshift64_nonzero s p nz in drawn_nonzero n (xorshift64 s) p' nz'

init_nonzero :
    (s seed : ℕ)
    → s < 2 ^ 64
    → seed < 2 ^ 64
    → (random_init s seed ≢ 0) × (random_init s seed < 2 ^ 64)
unfolding random_init
init_nonzero s seed p q =
    let mixed_fits : bit_xor 0x123456789ABCDEF s < 2 ^ 64 =
      xor-lt 64 0x123456789ABCDEF s (omega arith) p in
    ground (arith, mixed_fits, q)

-- Whatever the state was and whatever the seed is, 0 included, after `random_init` and any number of
-- draws the state is not 0 and fits 64 bits.
pub random_init_nonzero :
    (s seed n : ℕ)
    → s < 2 ^ 64
    → seed < 2 ^ 64
    → (drawn n (random_init s seed) ≢ 0) × (drawn n (random_init s seed) < 2 ^ 64)
random_init_nonzero s seed n p q =
    let (nz, fits) = init_nonzero s seed p q in drawn_nonzero n (random_init s seed) fits nz

-- Once the static state is not 0, the seed that `random_seed_from_str` returns does not depend on the
-- string, nor on the clock.
pub random_seed_from_str_ignores :
    (now now' seed_state : ℕ) (a b : List ℕ)
    → seed_state ≢ 0
    → random_seed_from_str now seed_state a ≡ random_seed_from_str now' seed_state b
unfolding random_seed_from_str random_seed_from_time
random_seed_from_str_ignores now now' seed_state a b nz = rw (ne→== seed_state 0 nz)
