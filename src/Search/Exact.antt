-- ===== src/Search/Exact.antt =====
-- `search_exact`: the loop ends within as many rounds as there are items, and finds the key where it is.
use cstone.Prelude.{
  ℕ, zero, suc, ◌+◌, ◌-◌, ◌/◌, ◌^◌, ◌≤◌, ◌<◌, ◌≡◌, ◌≢◌, refl, sym, ◌∙◌, ◌⊎◌, inl, inr, none, some,
  arith, dec_lt,
}
use cstone.Prelude.Ints.{ℤ, ◌⊖◌, is_neg-⊖, is_pos-⊖}
use cstone.Search.{Outcome, exact, between, search_loop, exact_index, search_exact}

-- An array in ascending order of a value, with a comparison that returns the signed difference of two
-- values, as `CompareNearFunc` is documented to.
pub record Sorted {A : Type 0} (compare_near : A → A → ℤ) (base : ℕ → A) (num : ℕ) : Type 0 where
  pub value : A → ℕ
  pub difference : (a b : A) → compare_near a b ≡ value a ⊖ value b
  pub ascending : (i j : ℕ) → i ≤ j → j < num → value (base i) ≤ value (base j)
  pub fits : num < 2 ^ 31

module _ {A : Type 0} {compare_near : A → A → ℤ} {base : ℕ → A} {num : ℕ}
    (s : Sorted compare_near base num) (key : A) where
  -- What the loop may find: the key, or two neighbours with the key in between.
  unfoldable pub IsRight : Outcome → Type 0
  IsRight (exact mid) = (mid < num) × (s.value (base mid) ≡ s.value key)
  IsRight (between low above) =
      (low ≡ above)
      × (low ≤ num)
      × ((i : ℕ) → i < low → s.value (base i) < s.value key)
      × ((i : ℕ) → low ≤ i → i < num → s.value key < s.value (base i))

  abbrev middle : ℕ → ℕ → ℕ
  middle low above = low + (above - 1 - low) / 2

  step_below :
      (fuel low above : ℕ)
      → low < above
      → s.value key < s.value (base (middle low above))
      → search_loop compare_near key base (suc fuel) low above
        ≡ search_loop compare_near key base fuel low (middle low above)
  unfolding search_loop
  step_below fuel low above p l =
      rw
        (
          s.difference key (base (middle low above)),
          is_neg-⊖ (s.value key) (s.value (base (middle low above))),
        )
        (ground arith)

  step_higher :
      (fuel low above : ℕ)
      → low < above
      → s.value (base (middle low above)) < s.value key
      → search_loop compare_near key base (suc fuel) low above
        ≡ search_loop compare_near key base fuel (middle low above + 1) above
  unfolding search_loop
  step_higher fuel low above p l =
      rw
        (
          s.difference key (base (middle low above)),
          is_neg-⊖ (s.value key) (s.value (base (middle low above))),
          is_pos-⊖ (s.value key) (s.value (base (middle low above))),
        )
        (ground arith)

  step_exact :
      (fuel low above : ℕ)
      → low < above
      → s.value (base (middle low above)) ≡ s.value key
      → search_loop compare_near key base (suc fuel) low above ≡ some (exact (middle low above))
  unfolding search_loop
  step_exact fuel low above p l =
      rw
        (
          s.difference key (base (middle low above)),
          is_neg-⊖ (s.value key) (s.value (base (middle low above))),
          is_pos-⊖ (s.value key) (s.value (base (middle low above))),
        )
        (ground arith)

  step_end :
      (fuel low : ℕ) → search_loop compare_near key base (suc fuel) low low ≡ some (between low low)
  unfolding search_loop
  step_end fuel low = ground arith

  pub loop-IsRight :
      (fuel low above : ℕ)
      → above - low < fuel
      → low ≤ above
      → above ≤ num
      → ((i : ℕ) → i < low → s.value (base i) < s.value key)
      → ((i : ℕ) → above ≤ i → i < num → s.value key < s.value (base i))
      → (o : Outcome) × (search_loop compare_near key base fuel low above ≡ some o) × IsRight o
  unfolding IsRight
  loop-IsRight zero low above f p q under over = absurd (omega arith)
  loop-IsRight (suc fuel) low above f p q under over = elim (dec_lt low above) [
    | no met ↦
        let e : low ≡ above = omega (arith, met) in
        (
          between low low,
          rw (sym e) (step_end fuel low),
          (refl, omega arith, under, λ i from. over i (omega (arith, from))),
        )
    | yes more ↦ elim (dec_lt (s.value key) (s.value (base mid))) [
      | yes l ↦
          let (o, e, r) =
            loop-IsRight fuel low mid (omega (arith, f)) (omega arith) (omega (arith, q)) under
              (λ i from to. omega (arith, l, s.ascending mid i from to)) in
          (o, step_below fuel low above more l ∙ e, r)
      | no nl ↦ elim (dec_lt (s.value (base mid)) (s.value key)) [
        | yes g ↦
            let (o, e, r) =
              loop-IsRight fuel (mid + 1) above (omega (arith, f, more)) (omega (arith, more)) q
                (λ i to.
                  omega (arith, g, s.ascending i mid (omega (arith, to)) (omega (arith, more, q))))
                over in
            (o, step_higher fuel low above more g ∙ e, r)
        | no ng ↦
            let same : s.value (base mid) ≡ s.value key = omega (arith, nl, ng) in
            (exact mid, step_exact fuel low above more same, (omega (arith, more, q), same))
      ]
    ]
  ]
    where
      mid : ℕ
      mid = middle low above

-- On an array in ascending order `search_exact` returns within `num` rounds. The index that it returns
-- is one of the array, with an item of the key's value; -1 says that no item has that value.
pub search_exact-finds :
    {A : Type 0} {compare_near : A → A → ℤ} {base : ℕ → A} {num : ℕ}
    (s : Sorted compare_near base num) (key : A)
    → ((mid : ℕ) × (search_exact compare_near key base (suc num) num ≡ some (some mid))
        × (mid < num)
        × (s.value (base mid) ≡ s.value key))
      ⊎ ((search_exact compare_near key base (suc num) num ≡ some none)
          × ((i : ℕ) → i < num → s.value (base i) ≢ s.value key))
unfolding search_exact exact_index IsRight
search_exact-finds {compare_near} {base} {num} s key = ending (
    loop-IsRight s key (suc num) 0 num (omega arith) (omega arith) (omega arith)
      (λ i l. absurd (omega (arith, l))) (λ i l g. absurd (omega (arith, l, g))))
  where
    ending :
        (o : Outcome) × (search_loop compare_near key base (suc num) 0 num ≡ some o)
          × IsRight s key o
        → ((mid : ℕ) × (search_exact compare_near key base (suc num) num ≡ some (some mid))
            × (mid < num)
            × (s.value (base mid) ≡ s.value key))
          ⊎ ((search_exact compare_near key base (suc num) num ≡ some none)
              × ((i : ℕ) → i < num → s.value (base i) ≢ s.value key))
    ending (exact mid, e, r) = inl (mid, rw e, r.0, r.1)
    ending (between low above, e, r) = inr (rw e, apart)
      where
        apart : (i : ℕ) → i < num → s.value (base i) ≢ s.value key
        apart i l same = elim (dec_lt i low) [
          | yes left ↦ omega (arith, r.2 i left, same)
          | no right ↦ omega (arith, r.3 i (omega (arith, right)) l, same)
        ]
