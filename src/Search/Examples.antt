-- ===== src/Search/Examples.antt =====
-- The searches of src/util/search.c on three items, and the theorems at them.
use cstone.Prelude.{ℕ, ◌+◌, ◌*◌, ◌≤◌, ◌<◌, ◌≡◌, ◌≢◌, refl, ◌⊎◌, none, some, arith}
use cstone.Prelude.Ints.{◌⊖◌, is_neg, is_pos, ltbℤ}
use cstone.Search.{
  search_loop, exact_index, search_exact, last, nearest_index, search_nearest, coerce_up,
  coerce_down, search_nearest_above, search_nearest_below,
}
use cstone.Search.Exact.{Sorted, search_exact-finds}
use cstone.Search.Nearest.{distance, search_nearest-least}

-- 10, 20, 30.
abbrev items : ℕ → ℕ
items i = 10 + 10 * i

abbrev items-Sorted : Sorted ◌⊖◌ items 3
items-Sorted = record {
  value = λ a. a;
  difference = λ a b. refl;
  ascending = λ i j le lt. omega arith;
  fits = omega arith;
}

search-items :
    (search_exact ◌⊖◌ 20 items 4 3 ≡ some (some 1))
    × (search_exact ◌⊖◌ 24 items 4 3 ≡ some none)
    × (search_nearest ◌⊖◌ 24 items 4 3 ≡ some 1)
    × (search_nearest ◌⊖◌ 25 items 4 3 ≡ some 2)
    × (search_nearest_above ◌⊖◌ 24 items 4 3 ≡ some 2)
    × (search_nearest_below ◌⊖◌ 28 items 4 3 ≡ some 1)
    × (search_nearest ◌⊖◌ 99 items 4 3 ≡ some 2)
unfolding search_loop exact_index search_exact last nearest_index search_nearest coerce_up
    coerce_down search_nearest_above search_nearest_below ◌⊖◌ is_neg is_pos ltbℤ
search-items = (refl, refl, refl, refl, refl, refl, refl)

search_exact-finds_example :
    ((mid : ℕ) × (search_exact ◌⊖◌ 20 items 4 3 ≡ some (some mid)) × (mid < 3) × (items mid ≡ 20))
    ⊎ ((search_exact ◌⊖◌ 20 items 4 3 ≡ some none) × ((i : ℕ) → i < 3 → items i ≢ 20))
search_exact-finds_example = search_exact-finds {base = items} {num = 3} items-Sorted 20

search_nearest-least_example :
    (r : ℕ) × (search_nearest ◌⊖◌ 24 items 4 3 ≡ some r)
    × (r < 3)
    × ((j : ℕ) → j < 3 → distance (items r) 24 ≤ distance (items j) 24)
search_nearest-least_example =
    search_nearest-least {base = items} {num = 3} items-Sorted 24 (omega arith)
