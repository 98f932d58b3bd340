-- ===== src/PrimeModulus/Laws.antt =====
-- src/util/dhash.c: the search for the number of buckets, on the list of include/util/prime_modulus.h.
use cstone.Prelude.{
  ℕ, zero, suc, ◌+◌, ◌-◌, ◌≤◌, ◌<◌, ◌≡◌, refl, ap, true, false, some, arith, leb, leb→le, all_below,
  all_below_sound, dec_lt,
}
use cstone.PrimeModulus.{
  num_prime_moduli, prime_at, get_prime, comp_primes, get_closest_prime_index,
  get_closest_prime_index_below,
}
use cstone.Search.Exact.{Sorted}
use cstone.Search.Coerce.{search_nearest_above-least, search_nearest_below-greatest}

pub get_prime_at : (i : ℕ) → i < num_prime_moduli → get_prime i ≡ prime_at i
unfolding get_prime
get_prime_at i l = let e : leb num_prime_moduli i ≡ false = ground arith in rw (e, get_prime) refl

ascending_step : (i : ℕ) → suc i < num_prime_moduli → prime_at i ≤ prime_at (suc i)
unfolding all_below
ascending_step i l =
    leb→le (prime_at i) (prime_at (suc i))
      (all_below_sound 51 (λ i. leb (prime_at i) (prime_at (suc i))) i refl (omega (arith, l)))

ascending : (d i : ℕ) → d + i < num_prime_moduli → prime_at i ≤ prime_at (d + i)
ascending zero i l = let e : 0 + i ≡ i = omega arith in rw e (omega arith)
ascending (suc d) i l =
    let e : suc d + i ≡ suc (d + i) = omega arith in
    rw e
      (omega (arith, ascending d i (omega (arith, l)), ascending_step (d + i) (omega (arith, l))))

abbrev primes-Sorted : Sorted comp_primes prime_at num_prime_moduli
primes-Sorted = record {
  value = λ a. a;
  difference = λ a b. refl;
  ascending = λ i j le l.
      let e : j - i + i ≡ j = omega (arith, le) in
      omega (arith, ap prime_at e, ascending (j - i) i (omega (arith, le, l)));
  fits = omega arith;
}

-- Every table has at least 11 buckets.
pub get_prime-least : (i : ℕ) → get_prime 0 ≤ get_prime i
unfolding get_prime
get_prime-least i = elim (dec_lt i num_prime_moduli) [
  | yes inside ↦
      let e : i + 0 ≡ i = omega arith in
      omega (
        arith,
        get_prime_at i inside,
        get_prime_at 0 (omega arith),
        ap prime_at e,
        ascending i 0 (omega (arith, inside)),
      )
  | no outside ↦
      let e : leb num_prime_moduli i ≡ true = ground arith in rw (e, get_prime) (omega arith)
]

-- For every number up to the largest prime of the list, the search that `dh__init` makes ends, and finds
-- the least prime of the list that is not below the number.
pub closest_prime-least :
    (n : ℕ)
    → n ≤ get_prime (num_prime_moduli - 1)
    → (r : ℕ) × (get_closest_prime_index n ≡ some r)
      × (r < num_prime_moduli)
      × (n ≤ get_prime r)
      × ((j : ℕ) → j < num_prime_moduli → n ≤ get_prime j → get_prime r ≤ get_prime j)
unfolding get_closest_prime_index
closest_prime-least n within =
    let (r, e, inside, least) = search_nearest_above-least primes-Sorted n (omega arith) in
    let e51 = get_prime_at 51 (omega arith) in
    let er = get_prime_at r inside in
    (
      r,
      e,
      inside,
      omega (arith, er, (least 51 (omega arith) (omega (arith, within, e51))).0),
      λ j l above.
          let ej = get_prime_at j l in
          omega (arith, er, ej, (least j l (omega (arith, above, ej))).1),
    )

-- The search for an external buffer of at least 11 buckets ends, and finds the greatest prime of the list
-- that is not above their number.
pub closest_prime_below-greatest :
    (n : ℕ)
    → get_prime 0 ≤ n
    → (r : ℕ) × (get_closest_prime_index_below n ≡ some r)
      × (r < num_prime_moduli)
      × (get_prime r ≤ n)
      × ((j : ℕ) → j < num_prime_moduli → get_prime j ≤ n → get_prime j ≤ get_prime r)
unfolding get_closest_prime_index_below
closest_prime_below-greatest n within =
    let (r, e, inside, greatest) = search_nearest_below-greatest primes-Sorted n (omega arith) in
    let e0 = get_prime_at 0 (omega arith) in
    let er = get_prime_at r inside in
    (
      r,
      e,
      inside,
      omega (arith, er, (greatest 0 (omega arith) (omega (arith, within, e0))).0),
      λ j l under.
          let ej = get_prime_at j l in
          omega (arith, er, ej, (greatest j l (omega (arith, under, ej))).1),
    )
