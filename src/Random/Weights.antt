-- ===== src/Random/Weights.antt =====
-- The weighted choice: cumulative weights, and the search of the index for a number.
use cstone.Prelude.{
  ℕ, zero, suc, ◌+◌, ◌-◌, ◌/◌, ◌^◌, ◌≤◌, ◌<◌, ◌≡◌, refl, ap, ◌∙◌, true, false, some, List, [], ◌∷◌,
  ltb, leb, length, get_or, take, take_all, drop_all, u32, arith, dec_lt,
}
use native.Mathlib.Nat.{mod-eq_of_lt}
use cstone.Random.{weights_loop, random_weights_init, search_weights}

-- The sum of the weights.
unfoldable pub sum : List ℕ → ℕ
sum [] = 0
sum (weight ∷ weights) = weight + sum weights

length-weights_loop :
    (accum : ℕ) (weights : List ℕ) → length (weights_loop accum weights) ≡ length weights
unfolding weights_loop
length-weights_loop accum [] = refl
length-weights_loop accum (weight ∷ weights) =
    ap suc (length-weights_loop (u32 (accum + weight)) weights)

-- Each cumulative weight is the sum of the weights up to its own.
get_or-weights_loop :
    (accum : ℕ) (weights : List ℕ) (i : ℕ)
    → accum + sum weights < 2 ^ 32
    → i < length weights
    → get_or (weights_loop accum weights) i 0 ≡ accum + sum (take (suc i) weights)
unfolding weights_loop sum
get_or-weights_loop accum [] i p q = absurd (omega (arith, q))
get_or-weights_loop accum (weight ∷ weights) zero p q = omega (arith, p)
get_or-weights_loop accum (weight ∷ weights) (suc i) p q =
    let e : u32 (accum + weight) ≡ accum + weight =
      mod-eq_of_lt {n = accum + weight} {m = 2 ^ 32} (omega (arith, p)) in
    omega (
      arith,
      ap (λ (t : ℕ). get_or (weights_loop t weights) i 0) e,
      get_or-weights_loop (accum + weight) weights i (omega (arith, p)) (omega (arith, q)),
    )

-- The search in an array, on any fuel above the distance of its bounds.
module _ (key : ℕ) (cum : List ℕ) where
  search_finds :
      (fuel low high : ℕ)
      → high - low < fuel
      → low ≤ high
      → ((i : ℕ) → i < low → get_or cum i 0 ≤ key)
      → ((i : ℕ) → high ≤ i → i < length cum → key < get_or cum i 0)
      → ((i j : ℕ) → i ≤ j → j < length cum → get_or cum i 0 ≤ get_or cum j 0)
      → high < length cum
      → (ix : ℕ) × (search_weights fuel key cum low high ≡ some ix)
        × (ix ≤ high)
        × (key < get_or cum ix 0)
        × ((i : ℕ) → i < ix → get_or cum i 0 ≤ key)
  unfolding search_weights
  search_finds zero low high f p under over up inside = absurd (omega (arith, f))
  search_finds (suc fuel) low high f p under over up inside = elim (dec_lt low high) [
    | no met ↦
        let e : low ≡ high = omega (arith, p, met) in
        let stop : ltb low high ≡ false = ground (arith, met) in
        (low, rw stop, p, over low (omega (arith, e)) (omega (arith, e, inside)), under)
    | yes more ↦
        let mid : ℕ = low + (high - low) / 2 in
        let go_on : ltb low high ≡ true = ground (arith, more) in
        elim (dec_lt key (get_or cum mid 0)) [
          | yes above ↦
              let l : leb (get_or cum mid 0) key ≡ false = ground (arith, above) in
              let (ix, e, le, here, before) =
                search_finds fuel low mid (omega (arith, f, more)) (omega arith) under
                  (λ i from to. omega (arith, above, up mid i from to)) up
                  (omega (arith, more, inside)) in
              (ix, rw (go_on, l) e, omega (arith, le, more), here, before)
          | no below ↦
              let l : leb (get_or cum mid 0) key ≡ true = ground (arith, below) in
              let (ix, e, le, here, before) =
                search_finds fuel (mid + 1) high (omega (arith, f, more)) (omega (arith, more))
                  (λ i to.
                    omega
                      (arith, below, up i mid (omega (arith, to)) (omega (arith, more, inside))))
                  over up inside in
              (ix, rw (go_on, l) e, le, here, before)
        ]
  ]

sum-take_mono : (weights : List ℕ) (i j : ℕ) → i ≤ j → sum (take i weights) ≤ sum (take j weights)
unfolding sum
sum-take_mono weights zero j p = omega arith
sum-take_mono [] (suc i) zero p = absurd (omega (arith, p))
sum-take_mono [] (suc i) (suc j) p = omega arith
sum-take_mono (weight ∷ weights) (suc i) zero p = absurd (omega (arith, p))
sum-take_mono (weight ∷ weights) (suc i) (suc j) p =
    omega (arith, sum-take_mono weights i j (omega (arith, p)))

module _ (weights : List ℕ) (key : ℕ) (fits : sum weights < 2 ^ 32)
    (inside : key < sum weights) where
  cum : List ℕ
  cum = random_weights_init weights

  cum-length : length cum ≡ length weights
  unfolding cum random_weights_init
  cum-length = length-weights_loop 0 weights

  cum-at : (i : ℕ) → i < length weights → get_or cum i 0 ≡ sum (take (suc i) weights)
  unfolding cum random_weights_init
  cum-at i p = omega (arith, get_or-weights_loop 0 weights i (omega (arith, fits)) p)

  some_weights : 0 < length weights
  some_weights = elim (dec_lt 0 (length weights)) [
    | yes p ↦ p
    | no p ↦
        let empty : weights ≡ [] = drop_all 0 weights (omega (arith, p)) in
        absurd (nothing_inside empty)
  ]
    where
      nothing_inside : weights ≡ [] → ⊥
      nothing_inside empty =
          let e : sum weights ≡ sum [] = ap sum empty in
          let z : sum [] ≡ 0 = unfold sum in refl in omega (arith, e, inside, z)

  -- A number below the sum of the weights, all of which fit 32 bits together, picks the index whose
  -- weight it falls into: the weights before that index are at most the number, and with its own weight
  -- they exceed it. So each index is picked by as many numbers as its weight says.
  pub search_weights-picks :
      (ix : ℕ) × (search_weights
          (suc (length (random_weights_init weights)))
          key
          (random_weights_init weights)
          0
          (length (random_weights_init weights) - 1)
        ≡ some ix)
      × (ix < length weights)
      × (sum (take ix weights) ≤ key)
      × (key < sum (take (suc ix) weights))
  unfolding cum
  search_weights-picks =
      let n : length cum - 1 ≡ length weights - 1 = omega (arith, cum-length) in
      let (ix, e, le, above, before) =
        search_finds key cum (suc (length cum)) 0 (length cum - 1) (omega arith) (omega arith)
          (λ i l. absurd (omega (arith, l))) top rising (omega (arith, cum-length, some_weights)) in
      let l : ix < length weights = omega (arith, le, cum-length, some_weights) in
      (ix, e, l, under ix l before, omega (arith, above, cum-at ix l))
    where
      total : get_or cum (length weights - 1) 0 ≡ sum weights
      total =
          let all : suc (length weights - 1) ≡ length weights = omega (arith, some_weights) in
          cum-at (length weights - 1) (omega (arith, some_weights))
          ∙ ap (λ (t : ℕ). sum (take t weights)) all
          ∙ ap sum (take_all (length weights) weights (omega arith))

      top : (i : ℕ) → length cum - 1 ≤ i → i < length cum → key < get_or cum i 0
      top i from to =
          let e : i ≡ length weights - 1 = omega (arith, from, to, cum-length) in
          rw e (omega (arith, total, inside))

      rising : (i j : ℕ) → i ≤ j → j < length cum → get_or cum i 0 ≤ get_or cum j 0
      rising i j p q = omega (
        arith,
        cum-at i (omega (arith, p, q, cum-length)),
        cum-at j (omega (arith, q, cum-length)),
        sum-take_mono weights (suc i) (suc j) (omega (arith, p)),
      )

      under :
          (ix : ℕ)
          → ix < length weights
          → ((i : ℕ) → i < ix → get_or cum i 0 ≤ key)
          → sum (take ix weights) ≤ key
      under zero l before = unfold sum in omega arith
      under (suc i) l before = omega (arith, before i (omega arith), cum-at i (omega (arith, l)))
