-- ===== src/Random/Examples.antt =====
-- Draws of src/util/random.c from fixed states, and the theorems at them.
use cstone.Prelude.{
  ℕ, suc, ◌-◌, ◌+◌, ◌^◌, ◌>>>◌, ◌%◌, ◌≤◌, ◌<◌, ◌≡◌, refl, false, some, [], ◌∷◌, length, take, arith,
}
use cstone.Prelude.Ints.{ℤ, pos, negsuc, of_int, to_int, ltbℤ}
use cstone.Random.{
  xorshift64, reject_loop, range, random_range32, weights_loop, random_weights_init, search_weights,
}
use cstone.Random.Seed.{drawn}
use cstone.Random.Weights.{sum, search_weights-picks}
use cstone.Random.Range.{IsInt32, span, limit, offset, random_range32-within}

xorshift-one : xorshift64 1 ≡ 1082269761
unfolding xorshift64
xorshift-one = refl

range-die : random_range32 1 123456789 (pos 1) (pos 6) ≡ some (pos 6, xorshift64 123456789)
unfolding random_range32 range reject_loop xorshift64 ltbℤ of_int to_int
range-die = refl

weights-cumulative : random_weights_init (10 ∷ 40 ∷ 50 ∷ []) ≡ 10 ∷ 50 ∷ 100 ∷ []
unfolding random_weights_init weights_loop
weights-cumulative = refl

search_weights-picks_example :
    (ix : ℕ) × (search_weights
        (suc (length (random_weights_init (10 ∷ 40 ∷ 50 ∷ []))))
        49
        (random_weights_init (10 ∷ 40 ∷ 50 ∷ []))
        0
        (length (random_weights_init (10 ∷ 40 ∷ 50 ∷ [])) - 1)
      ≡ some ix)
    × (ix < 3)
    × (sum (take ix (10 ∷ 40 ∷ 50 ∷ [])) ≤ 49)
    × (49 < sum (take (suc ix) (10 ∷ 40 ∷ 50 ∷ [])))
unfolding sum
search_weights-picks_example =
    search_weights-picks (10 ∷ 40 ∷ 50 ∷ []) 49 (omega arith) (omega arith)

random_range32-within_example :
    (v : ℤ) × (random_range32 1 123456789 (negsuc 2) (pos 2) ≡ some (v, drawn 1 123456789))
    × (ltbℤ v (negsuc 2) ≡ false)
    × (ltbℤ (pos 2) v ≡ false)
    × (offset (negsuc 2) v ≡ (drawn 1 123456789 >>> 32) % span (negsuc 2) (pos 2))
    × (limit (negsuc 2) (pos 2) % span (negsuc 2) (pos 2) ≡ 0)
    × (limit (negsuc 2) (pos 2) < 2 ^ 32)
    × (2 ^ 32 ≤ limit (negsuc 2) (pos 2) + span (negsuc 2) (pos 2))
unfolding drawn xorshift64 IsInt32 ltbℤ of_int
random_range32-within_example =
    random_range32-within 0 123456789 (negsuc 2) (pos 2) (omega arith) (omega arith) refl
      (omega arith) (λ i l. absurd (omega (arith, l))) (omega arith)
