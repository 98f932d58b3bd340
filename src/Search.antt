-- ===== src/Search.antt =====
-- src/util/search.c: binary search for an exact or a nearest item. An array is the function from an
-- index to the item at `base + index*item_size`, with its number of items. `high` can be one below the
-- first index, so it stands one higher here, as `above`: `above` is `high + 1`.
pub mod Exact
pub mod Nearest
pub mod Coerce
mod Examples
use cstone.Prelude.{
  ℕ, zero, suc, ◌+◌, ◌-◌, ◌/◌, ◌%◌, ◌^◌, Bool, true, false, Option, none, some, ltb, leb, ◌==◌, not,
  ◌&&◌, if◌then◌else◌, u32,
}
use cstone.Prelude.Ints.{ℤ, is_neg, is_pos, ltbℤ}
use mathlib.Core.Option

-- How a search ends: at an item that compares equal, or between two items.
pub data Outcome : Type 0 where
  exact : ℕ → Outcome
  between : ℕ → ℕ → Outcome

-- What `search_exact` makes of the end of the loop: `none` is the result -1.
pub exact_index : Outcome → Option ℕ
exact_index (exact mid) = some mid
exact_index (between low above) = none

-- `num - 1`, in `size_t`.
pub last : ℕ → ℕ
last num = u32 (num + (2 ^ 32 - 1))

module _ {A : Type 0} (compare_near : A → A → ℤ) (key : A) (base : ℕ → A) where
  -- The loop, on fuel. `none` means that the fuel ran out.
  pub search_loop : ℕ → ℕ → ℕ → Option Outcome
  search_loop zero low above = none
  search_loop (suc fuel) low above =
      let mid = low + (above - 1 - low) / 2 in
      let delta = compare_near key (base mid) in
      let below = search_loop fuel low mid in
      let higher = search_loop fuel (mid + 1) above in
      if ltb low above
      then if is_neg delta then below else if is_pos delta then higher else some (exact mid)
      else some (between low above)

  pub search_exact : ℕ → ℕ → Option (Option ℕ)
  search_exact fuel num = Option.map exact_index (search_loop fuel 0 num)

  -- What `search_nearest` makes of it.
  pub nearest_index : ℕ → Outcome → ℕ
  unfolding last
  nearest_index num (exact mid) = mid
  nearest_index num (between low above) =
      if leb num low
      then last num
      else if above == 0
      then 0
      else (let hd = compare_near (base low) key in
          let ld = compare_near key (base (above - 1)) in if ltbℤ ld hd then above - 1 else low)

  pub search_nearest : ℕ → ℕ → Option ℕ
  search_nearest fuel num = Option.map (nearest_index num) (search_loop fuel 0 num)

  pub coerce_up : ℕ → ℕ → ℕ
  unfolding last
  coerce_up num ix = if ltb ix (last num) && is_pos (compare_near key (base ix)) then ix + 1 else ix

  pub search_nearest_above : ℕ → ℕ → Option ℕ
  search_nearest_above fuel num = Option.map (coerce_up num) (search_nearest fuel num)

  pub coerce_down : ℕ → ℕ
  coerce_down ix = if ltb 0 ix && is_neg (compare_near key (base ix)) then ix - 1 else ix

  pub search_nearest_below : ℕ → ℕ → Option ℕ
  search_nearest_below fuel num = Option.map coerce_down (search_nearest fuel num)
