-- ===== src/PrimeModulus.antt =====
-- include/util/prime_modulus.h, and what src/util/dhash.c does with its list: the numbers of buckets
-- that a hash table can have. `dhBucketIndex` has 32 bits and `DH_USE_2X_GROWTH` is not defined.
pub mod Laws
mod Examples
use cstone.Prelude.{ℕ, suc, ◌-◌, Option, List, [], ◌∷◌, leb, if◌then◌else◌, get_or}
use cstone.Prelude.Ints.{ℤ, ◌⊖◌}
use cstone.Search.{search_nearest_above, search_nearest_below}

-- `PRIME_LIST_16` and `PRIME_LIST`, as the array `s_prime_modulus`.
abbrev pub s_prime_modulus : List ℕ
s_prime_modulus =
    11 ∷ 29 ∷ 47 ∷ 67 ∷ 83 ∷ 101 ∷ 113 ∷ 137 ∷ 163 ∷ 199 ∷ 241 ∷ 293 ∷ 353 ∷ 421 ∷ 509 ∷ 619 ∷ 751
    ∷ 907 ∷ 1093 ∷ 1321 ∷ 1597 ∷ 1931 ∷ 2333 ∷ 2819 ∷ 3407 ∷ 4111 ∷ 4967 ∷ 6007 ∷ 8389 ∷ 11743
    ∷ 16453 ∷ 23041 ∷ 32261 ∷ 45161 ∷ 63241 ∷ 88523 ∷ 123941 ∷ 173501 ∷ 242923 ∷ 340079 ∷ 476137
    ∷ 666559 ∷ 933209 ∷ 1048573 ∷ 2097143 ∷ 4194301 ∷ 8388593 ∷ 16777213 ∷ 33554393 ∷ 67108859
    ∷ 134217689 ∷ 268435399 ∷ []

-- `NUM_PRIME_MODULI`
abbrev pub num_prime_moduli : ℕ
num_prime_moduli = 52

-- `get_prime`
unfoldable pub get_prime : ℕ → ℕ
get_prime prime_ix =
    get_or s_prime_modulus
      (if leb num_prime_moduli prime_ix then num_prime_moduli - 1 else prime_ix) 0

-- `comp_primes`, for keys below 2 ^ 31, whose difference does not wrap round.
abbrev pub comp_primes : ℕ → ℕ → ℤ
comp_primes key item = key ⊖ item

abbrev pub prime_at : ℕ → ℕ
prime_at i = get_or s_prime_modulus i 0

-- `get_closest_prime_index`
unfoldable pub get_closest_prime_index : ℕ → Option ℕ
get_closest_prime_index n =
    search_nearest_above comp_primes n prime_at (suc num_prime_moduli) num_prime_moduli

-- `get_closest_prime_index_below`
unfoldable pub get_closest_prime_index_below : ℕ → Option ℕ
get_closest_prime_index_below n =
    search_nearest_below comp_primes n prime_at (suc num_prime_moduli) num_prime_moduli
