-- ===== src/Search/Coerce.antt =====
-- `search_nearest_above` and `search_nearest_below` on an array in ascending order.
use cstone.Prelude.{ℕ, suc, ◌+◌, ◌-◌, ◌≤◌, ◌<◌, ◌≡◌, ◌⊎◌, inl, inr, some, arith, dec_lt}
use cstone.Prelude.Ints.{ℤ, is_neg-⊖, is_pos-⊖}
use cstone.Search.{coerce_up, coerce_down, search_nearest_above, search_nearest_below}
use cstone.Search.Exact.{Sorted}
use cstone.Search.Nearest.{Place, hit, first, final, left, right, last-eq, nearest-Place}

module _ {A : Type 0} {compare_near : A → A → ℤ} {base : ℕ → A} {num : ℕ}
    (s : Sorted compare_near base num) (key : A) (some_items : 0 < num) where
  -- The first index from the key on, and the last one up to it.
  abbrev IsAbove : ℕ → Type 0
  IsAbove r =
      (r < num)
      × ((j : ℕ)
          → j < num
          → s.value key ≤ s.value (base j)
          → (s.value key ≤ s.value (base r)) × (s.value (base r) ≤ s.value (base j)))

  abbrev IsBelow : ℕ → Type 0
  IsBelow r =
      (r < num)
      × ((j : ℕ)
          → j < num
          → s.value (base j) ≤ s.value key
          → (s.value (base r) ≤ s.value key) × (s.value (base j) ≤ s.value (base r)))

  up_cases :
      (r : ℕ)
      → ((coerce_up compare_near key base num r ≡ r + 1)
          × (r + 1 < num)
          × (s.value (base r) < s.value key))
        ⊎ ((coerce_up compare_near key base num r ≡ r)
            × ((num ≤ r + 1) ⊎ (s.value key ≤ s.value (base r))))
  unfolding coerce_up
  up_cases r =
      rw
        (
          last-eq s key some_items,
          s.difference key (base r),
          is_pos-⊖ (s.value key) (s.value (base r)),
        )
        (ground arith)

  down_cases :
      (r : ℕ)
      → ((coerce_down compare_near key base r ≡ r - 1) × (0 < r) × (s.value key < s.value (base r)))
        ⊎ ((coerce_down compare_near key base r ≡ r) × ((r ≡ 0) ⊎ (s.value (base r) ≤ s.value key)))
  unfolding coerce_down
  down_cases r =
      rw (s.difference key (base r), is_neg-⊖ (s.value key) (s.value (base r))) (ground arith)

  module _ {r : ℕ} (l : r < num) (j : ℕ) (m : j < num) where
    moved_up :
        Place s key some_items r
        → s.value (base r) < s.value key
        → s.value key ≤ s.value (base j)
        → (s.value key ≤ s.value (base (r + 1))) × (s.value (base (r + 1)) ≤ s.value (base j))
    moved_up (hit same) low above = absurd (omega (arith, same, low))
    moved_up (first z over) low above = absurd (omega (arith, over r l, low))
    moved_up (final z under) low above = absurd (omega (arith, under j m, above))
    moved_up (right inside below beyond closest) low above = absurd (omega (arith, beyond, low))
    moved_up (left inside below beyond closest) low above = elim (dec_lt r j) [
      | yes after ↦ (omega (arith, beyond), s.ascending (r + 1) j (omega (arith, after)) m)
      | no before ↦ absurd (omega (arith, above, low, s.ascending j r (omega (arith, before)) l))
    ]

    stayed_up :
        Place s key some_items r
        → (num ≤ r + 1) ⊎ (s.value key ≤ s.value (base r))
        → s.value key ≤ s.value (base j)
        → (s.value key ≤ s.value (base r)) × (s.value (base r) ≤ s.value (base j))
    stayed_up (hit same) o above = omega (arith, same, above)
    stayed_up (first z over) o above =
        (omega (arith, over r l), s.ascending r j (omega (arith, z)) m)
    stayed_up (final z under) o above = absurd (omega (arith, under j m, above))
    stayed_up (left inside below beyond closest) (inl e) above = absurd (omega (arith, e, inside))
    stayed_up (left inside below beyond closest) (inr e) above = absurd (omega (arith, e, below))
    stayed_up (right inside below beyond closest) o above = elim (dec_lt j r) [
      | yes before ↦ absurd (
          omega
            (arith, above, below, s.ascending j (r - 1) (omega (arith, before)) (omega (arith, l))))
      | no after ↦ (omega (arith, beyond), s.ascending r j (omega (arith, after)) m)
    ]

    moved_down :
        Place s key some_items r
        → s.value key < s.value (base r)
        → s.value (base j) ≤ s.value key
        → (s.value (base (r - 1)) ≤ s.value key) × (s.value (base j) ≤ s.value (base (r - 1)))
    moved_down (hit same) high under_key = absurd (omega (arith, same, high))
    moved_down (first z over) high under_key = absurd (omega (arith, over j m, under_key))
    moved_down (final z under) high under_key = absurd (omega (arith, under r l, high))
    moved_down (left inside below beyond closest) high under_key =
        absurd (omega (arith, below, high))
    moved_down (right inside below beyond closest) high under_key = elim (dec_lt j r) [
      | yes before ↦
          (omega (arith, below), s.ascending j (r - 1) (omega (arith, before)) (omega (arith, l)))
      | no after ↦ absurd (omega (arith, under_key, high, s.ascending r j (omega (arith, after)) m))
    ]

    stayed_down :
        Place s key some_items r
        → (r ≡ 0) ⊎ (s.value (base r) ≤ s.value key)
        → s.value (base j) ≤ s.value key
        → (s.value (base r) ≤ s.value key) × (s.value (base j) ≤ s.value (base r))
    stayed_down (hit same) o under_key = omega (arith, same, under_key)
    stayed_down (first z over) o under_key = absurd (omega (arith, over j m, under_key))
    stayed_down (final z under) o under_key =
        (omega (arith, under r l), s.ascending j r (omega (arith, z, m)) l)
    stayed_down (right inside below beyond closest) (inl e) under_key =
        absurd (omega (arith, e, inside))
    stayed_down (right inside below beyond closest) (inr e) under_key =
        absurd (omega (arith, e, beyond))
    stayed_down (left inside below beyond closest) o under_key = elim (dec_lt r j) [
      | yes after ↦
          absurd (omega (arith, under_key, beyond, s.ascending (r + 1) j (omega (arith, after)) m))
      | no before ↦ (omega (arith, below), s.ascending j r (omega (arith, before)) l)
    ]

  up-IsAbove :
      {r : ℕ} → r < num → Place s key some_items r → IsAbove (coerce_up compare_near key base num r)
  up-IsAbove {r} l place = elim (up_cases r) [
    | inl (e, more, low) ↦ rw e (more, λ j m above. moved_up l j m place low above)
    | inr (e, o) ↦ rw e (l, λ j m above. stayed_up l j m place o above)
  ]

  down-IsBelow :
      {r : ℕ} → r < num → Place s key some_items r → IsBelow (coerce_down compare_near key base r)
  down-IsBelow {r} l place = elim (down_cases r) [
    | inl (e, more, high) ↦
        rw e (omega (arith, l), λ j m under_key. moved_down l j m place high under_key)
    | inr (e, o) ↦ rw e (l, λ j m under_key. stayed_down l j m place o under_key)
  ]

  -- On an array in ascending order that is not empty, `search_nearest_above` returns an index of the
  -- array. Where some item is not below the key, the item there is the least of those.
  pub search_nearest_above-least :
      (r : ℕ) × (search_nearest_above compare_near key base (suc num) num ≡ some r)
      × (r < num)
      × ((j : ℕ)
          → j < num
          → s.value key ≤ s.value (base j)
          → (s.value key ≤ s.value (base r)) × (s.value (base r) ≤ s.value (base j)))
  unfolding search_nearest_above
  search_nearest_above-least =
      let (r, e, l, place) = nearest-Place s key some_items in
      let (inside, least) = up-IsAbove l place in
      (coerce_up compare_near key base num r, rw e, inside, least)

  -- On an array in ascending order that is not empty, `search_nearest_below` returns an index of the
  -- array. Where some item is not above the key, the item there is the greatest of those.
  pub search_nearest_below-greatest :
      (r : ℕ) × (search_nearest_below compare_near key base (suc num) num ≡ some r)
      × (r < num)
      × ((j : ℕ)
          → j < num
          → s.value (base j) ≤ s.value key
          → (s.value (base r) ≤ s.value key) × (s.value (base j) ≤ s.value (base r)))
  unfolding search_nearest_below
  search_nearest_below-greatest =
      let (r, e, l, place) = nearest-Place s key some_items in
      let (inside, greatest) = down-IsBelow l place in
      (coerce_down compare_near key base r, rw e, inside, greatest)
