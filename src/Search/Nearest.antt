-- ===== src/Search/Nearest.antt =====
-- `search_nearest`, `search_nearest_above` and `search_nearest_below` on an array in ascending order.
use cstone.Prelude.{
  ℕ, suc, ◌+◌, ◌-◌, ◌≤◌, ◌<◌, ◌≡◌, refl, sym, ap, inl, inr, some, ltb, arith, dec_lt, Bool-cases,
  ℕ_discrete,
}
use cstone.Prelude.Ints.{ℤ, ◌⊖◌, ltbℤ, ltbℤ-⊖}
use mathlib.Core.Option
use cstone.Search.{Outcome, exact, between, search_loop, last, nearest_index, search_nearest}
use cstone.Search.Exact.{Sorted, IsRight, loop-IsRight}

-- How far apart two values are.
abbrev pub distance : ℕ → ℕ → ℕ
distance a b = (a - b) + (b - a)

module _ {A : Type 0} {compare_near : A → A → ℤ} {base : ℕ → A} {num : ℕ}
    (s : Sorted compare_near base num) (key : A) (some_items : 0 < num) where
  pub last-eq : last num ≡ num - 1
  unfolding last
  last-eq = omega (arith, s.fits, some_items)

  -- Where `search_nearest` may end.
  pub data Place (r : ℕ) : Type 0 where
    hit : s.value (base r) ≡ s.value key → Place r
    first : r ≡ 0 → ((i : ℕ) → i < num → s.value key < s.value (base i)) → Place r
    final : r ≡ num - 1 → ((i : ℕ) → i < num → s.value (base i) < s.value key) → Place r
    left :
        r + 1 < num
        → s.value (base r) < s.value key
        → s.value key < s.value (base (r + 1))
        → s.value key - s.value (base r) ≤ s.value (base (r + 1)) - s.value key
        → Place r
    right :
        0 < r
        → s.value (base (r - 1)) < s.value key
        → s.value key < s.value (base r)
        → s.value (base r) - s.value key ≤ s.value key - s.value (base (r - 1))
        → Place r

  -- Of two neighbours, the nearer one.
  closer :
      (low : ℕ)
      → low ≤ num
      → 0 < low
      → low < num
      → s.value (base (low - 1)) < s.value key
      → s.value key < s.value (base low)
      → (r : ℕ) × (nearest_index compare_near key base num (between low low) ≡ r)
        × (r < num)
        × Place r
  unfolding nearest_index
  closer low p later inside below beyond =
      elim (Bool-cases
        (ltb (s.value key - s.value (base (low - 1))) (s.value (base low) - s.value key))) [
          | inl lower ↦
              let e : low - 1 + 1 ≡ low = omega (arith, later) in
              (
                low - 1,
                rw (s.difference (base low) key, s.difference key (base (low - 1)), compared, lower)
                    (ground (arith, later, inside)),
                omega (arith, inside),
                left (omega (arith, e, inside)) below (rw e beyond) (rw e (ground (arith, lower))),
              )
          | inr higher ↦ (
            low,
            rw (s.difference (base low) key, s.difference key (base (low - 1)), compared, higher)
                (ground (arith, later, inside)),
            inside,
            right later below beyond (ground (arith, higher)),
          )
        ]
    where
      compared :
          ltbℤ (s.value key ⊖ s.value (base (low - 1))) (s.value (base low) ⊖ s.value key)
          ≡ ltb (s.value key - s.value (base (low - 1))) (s.value (base low) - s.value key)
      compared =
          ltbℤ-⊖ (s.value key) (s.value (base (low - 1))) (s.value (base low)) (s.value key)
            (omega (arith, below)) (omega (arith, beyond))

  between-Place :
      (low : ℕ)
      → low ≤ num
      → ((i : ℕ) → i < low → s.value (base i) < s.value key)
      → ((i : ℕ) → low ≤ i → i < num → s.value key < s.value (base i))
      → (r : ℕ) × (nearest_index compare_near key base num (between low low) ≡ r)
        × (r < num)
        × Place r
  unfolding nearest_index
  between-Place low p under over = elim (ℕ_discrete low num) [
    | yes end ↦ (
      num - 1,
      ground (arith, last-eq, end),
      omega (arith, some_items),
      final refl (λ i l. under i (omega (arith, end, l))),
    )
    | no inside ↦ elim (ℕ_discrete low 0) [
      | yes start ↦ (
        0,
        ground (arith, start, some_items),
        some_items,
        first refl (λ i l. over i (omega (arith, start)) l),
      )
      | no later ↦
          let below : s.value (base (low - 1)) < s.value key =
            under (low - 1) (omega (arith, later)) in
          let beyond : s.value key < s.value (base low) =
            over low (omega arith) (omega (arith, inside, p)) in
          closer low (omega arith) (omega (arith, later)) (omega (arith, inside, p)) below beyond
    ]
  ]

  pub nearest-Place :
      (r : ℕ) × (search_nearest compare_near key base (suc num) num ≡ some r) × (r < num) × Place r
  unfolding search_nearest IsRight
  nearest-Place = ending (
      loop-IsRight s key (suc num) 0 num (omega arith) (omega arith) (omega arith)
        (λ i l. absurd (omega (arith, l))) (λ i l g. absurd (omega (arith, l, g))))
    where
      ending :
          (o : Outcome) × (search_loop compare_near key base (suc num) 0 num ≡ some o)
            × IsRight s key o
          → (r : ℕ) × (Option.map
                (nearest_index compare_near key base num)
                (search_loop compare_near key base (suc num) 0 num)
              ≡ some r)
            × (r < num)
            × Place r
      ending (exact mid, e, right_here) =
          (mid, rw e (unfold nearest_index in refl), right_here.0, hit right_here.1)
      ending (between low above, e, right_here) =
          let (r, index, inside, place) =
            between-Place low right_here.1 right_here.2 right_here.3 in
          (r, rw (e, sym right_here.0) (ap some index), inside, place)

  -- No item is nearer than the one of a place.
  least_of_Place :
      {r : ℕ}
      → r < num
      → Place r
      → (j : ℕ) → j < num
      → distance (s.value (base r)) (s.value key) ≤ distance (s.value (base j)) (s.value key)
  least_of_Place l (hit same) j m = omega (arith, same)
  least_of_Place {r} l (first z over) j m =
      omega (arith, over j m, over r l, s.ascending r j (omega (arith, z)) m)
  least_of_Place {r} l (final z under) j m =
      omega (arith, under j m, under r l, s.ascending j r (omega (arith, z, m)) l)
  least_of_Place {r} l (left inside below beyond closest) j m = elim (dec_lt r j) [
    | yes after ↦
        omega (arith, below, beyond, closest, s.ascending (r + 1) j (omega (arith, after)) m)
    | no before ↦ omega (arith, below, s.ascending j r (omega (arith, before)) l)
  ]
  least_of_Place {r} l (right inside below beyond closest) j m = elim (dec_lt j r) [
    | yes before ↦ omega (
      arith,
      below,
      beyond,
      closest,
      s.ascending j (r - 1) (omega (arith, before)) (omega (arith, l)),
    )
    | no after ↦ omega (arith, beyond, s.ascending r j (omega (arith, after)) m)
  ]

  -- On an array in ascending order that is not empty, `search_nearest` returns within `num` rounds an
  -- index of the array, and no item is nearer to the key than the one there.
  pub search_nearest-least :
      (r : ℕ) × (search_nearest compare_near key base (suc num) num ≡ some r)
      × (r < num)
      × ((j : ℕ)
          → j < num
          → distance (s.value (base r)) (s.value key) ≤ distance (s.value (base j)) (s.value key))
  search_nearest-least = let (r, e, l, place) = nearest-Place in (r, e, l, least_of_Place l place)
