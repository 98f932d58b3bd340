-- ===== src/PrimeModulus/Examples.antt =====
-- Witnesses for src/util/dhash.c, the search for the number of buckets.
use cstone.Prelude.{ℕ, ◌≤◌, ◌<◌, ◌≡◌, some, arith}
use cstone.PrimeModulus.{num_prime_moduli, get_prime, get_closest_prime_index}
use cstone.PrimeModulus.Laws.{closest_prime-least, get_prime_at}

closest_prime-least_example :
    (r : ℕ) × (get_closest_prime_index 12 ≡ some r)
    × (r < num_prime_moduli)
    × (12 ≤ get_prime r)
    × ((j : ℕ) → j < num_prime_moduli → 12 ≤ get_prime j → get_prime r ≤ get_prime j)
closest_prime-least_example = closest_prime-least 12 (omega (arith, get_prime_at 51 (omega arith)))
