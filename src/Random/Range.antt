-- ===== src/Random/Range.antt =====
-- The draw from a range, in src/util/random.c: the value for the number that is accepted, and the limit
-- for rejection.
use cstone.Prelude.{
  ℕ, zero, suc, ◌+◌, ◌-◌, ◌*◌, ◌/◌, ◌%◌, ◌^◌, ◌≤◌, ◌<◌, ◌≡◌, ap, ◌∙◌, true, false, some, List, ltb,
  leb, length, get_or, u32, arith, ◌>>>◌, dec_lt, lt→ltb, ge→ltb,
}
use native.Mathlib.Nat.{mod-lt, div-add-mod, mul-mod_right}
use cstone.Prelude.Ints.{ℤ, pos, negsuc, of_int, to_int, ltbℤ}
use cstone.Random.Seed.{drawn}
use cstone.Random.{xorshift64, reject_loop, range, random_range32, chosen, random_weighted_choice}

-- The numbers of an `int32_t`.
unfoldable pub IsInt32 : ℤ → Type 0
IsInt32 (pos n) = n < 2 ^ 31
IsInt32 (negsuc n) = n < 2 ^ 31

-- The number of values from `lowest` to `highest`, in the arithmetic of `uint32_t`.
abbrev pub span : ℤ → ℤ → ℕ
span lowest highest = (of_int 32 highest + 2 ^ 32 - of_int 32 lowest + 1) % 2 ^ 32

-- How far a value lies behind the lowest one, in the arithmetic of `uint32_t`.
abbrev pub offset : ℤ → ℤ → ℕ
offset lowest v = (of_int 32 v + 2 ^ 32 - of_int 32 lowest) % 2 ^ 32

abbrev pub limit : ℤ → ℤ → ℕ
limit lowest highest = 2 ^ 32 - 1 - (2 ^ 32 - 1) % span lowest highest

-- The limit is the largest multiple of the span that is below 2 ^ 32.
whole_limit :
    (lowest highest : ℤ)
    → 0 < span lowest highest
    → (limit lowest highest % span lowest highest ≡ 0)
      × (limit lowest highest < 2 ^ 32)
      × (2 ^ 32 ≤ limit lowest highest + span lowest highest)
whole_limit lowest highest some_values =
    let k : ℕ = span lowest highest in
    let e : limit lowest highest ≡ k * ((2 ^ 32 - 1) / k) =
      omega (arith, div-add-mod (2 ^ 32 - 1) k) in
    (
      ap (λ (t : ℕ). t % k) e ∙ mul-mod_right k ((2 ^ 32 - 1) / k),
      omega arith,
      omega (arith, mod-lt (2 ^ 32 - 1) some_values),
    )

-- A word moved by the start of the range is that far behind it.
word_back : (x : ℕ) → x < 2 ^ 32 → of_int 32 (to_int 32 x) ≡ x
unfolding of_int to_int
word_back x p = elim (dec_lt x (2 ^ 31)) [
  | yes low ↦ rw (lt→ltb x (2 ^ 31) low) (omega (arith, p))
  | no high ↦ rw (ge→ltb x (2 ^ 31) (omega (arith, high))) (omega (arith, p))
]

of_int-lt : (v : ℤ) → of_int 32 v < 2 ^ 32
unfolding of_int
of_int-lt (pos n) = omega arith
of_int-lt (negsuc n) = omega arith

moved-offset :
    (lowest : ℤ) (m : ℕ)
    → m < 2 ^ 32
    → offset lowest (to_int 32 ((m + of_int 32 lowest) % 2 ^ 32)) ≡ m
moved-offset lowest m p =
    omega (arith, p, of_int-lt lowest, word_back ((m + of_int 32 lowest) % 2 ^ 32) (omega arith))

-- A remainder by the span, moved to the start of the range.
moved :
    (lowest highest : ℤ) (m : ℕ)
    → IsInt32 lowest
    → IsInt32 highest
    → ltbℤ highest lowest ≡ false
    → m < span lowest highest
    → let v = to_int 32 ((m + of_int 32 lowest) % 2 ^ 32) in
      (ltbℤ v lowest ≡ false) × (ltbℤ highest v ≡ false)
unfolding IsInt32 of_int to_int ltbℤ
moved (pos a) (pos b) m p q o l = ground (arith, p, q, o, l)
moved (pos a) (negsuc b) m p q o l = absurd (ground (arith, o))
moved (negsuc a) (pos b) m p q o l = ground (arith, p, q, o, l)
moved (negsuc a) (negsuc b) m p q o l = ground (arith, p, q, o, l)

-- The loop, when the number of the draw after `n` rejected ones is accepted.
reject_loop-draws :
    (draw : ℕ → ℕ) (bound n s : ℕ)
    → ((i : ℕ) → i < n → bound ≤ draw (drawn (suc i) s))
    → draw (drawn (suc n) s) < bound
    → reject_loop draw (suc n) bound s ≡ some (draw (drawn (suc n) s), drawn (suc n) s)
unfolding reject_loop drawn
reject_loop-draws draw bound zero s rejected accepted =
    let take_it : leb bound (draw (xorshift64 s)) ≡ false = ground (arith, accepted) in rw take_it
reject_loop-draws draw bound (suc n) s rejected accepted =
    let again : leb bound (draw (xorshift64 s)) ≡ true = ground (arith, rejected 0 (omega arith)) in
    rw again (
      reject_loop-draws draw bound n (xorshift64 s) (λ i l. rejected (suc i) (omega (arith, l)))
        accepted)

-- For a range of fewer than 2 ^ 32 values, with a wrap-around where the difference of the bounds overflows
-- `int32_t`: once `n` numbers were rejected and the next is accepted, `random_range32` returns, in `n + 1`
-- rounds, a value in the range. It lies behind the lowest by the remainder of the accepted number by the
-- number of values. The limit for rejection is the largest multiple of the number of values below 2 ^ 32.
pub random_range32-within :
    (n s : ℕ) (lowest highest : ℤ)
    → IsInt32 lowest
    → IsInt32 highest
    → ltbℤ highest lowest ≡ false
    → 0 < span lowest highest
    → ((i : ℕ) → i < n → limit lowest highest ≤ (drawn (suc i) s >>> 32))
    → (drawn (suc n) s >>> 32) < limit lowest highest
    → (v : ℤ) × (random_range32 (suc n) s lowest highest ≡ some (v, drawn (suc n) s))
      × (ltbℤ v lowest ≡ false)
      × (ltbℤ highest v ≡ false)
      × (offset lowest v ≡ (drawn (suc n) s >>> 32) % span lowest highest)
      × (limit lowest highest % span lowest highest ≡ 0)
      × (limit lowest highest < 2 ^ 32)
      × (2 ^ 32 ≤ limit lowest highest + span lowest highest)
unfolding random_range32 range
random_range32-within n s lowest highest p q ordered some_values rejected accepted =
    let m : ℕ = (drawn (suc n) s >>> 32) % span lowest highest in
    let small : m < 2 ^ 32 = omega (arith, mod-lt (drawn (suc n) s >>> 32) some_values) in
    let (whole, fits, largest) = whole_limit lowest highest some_values in
    let inside = moved lowest highest m p q ordered (mod-lt (drawn (suc n) s >>> 32) some_values) in
    (
      to_int 32 ((m + of_int 32 lowest) % 2 ^ 32),
      rw (ordered, reject_loop-draws (λ r. r >>> 32) (limit lowest highest) n s rejected accepted),
      inside.0,
      inside.1,
      moved-offset lowest m small,
      whole,
      fits,
      largest,
    )

-- A total above 2 ^ 31 is negative as an `int32_t`.
empty_range :
    (draw : ℕ → ℕ) (fuel s total : ℕ)
    → 2 ^ 31 < total
    → total < 2 ^ 32
    → range draw 32 fuel s (pos 0) (to_int 32 (u32 (total + (2 ^ 32 - 1)))) ≡ some (pos 0, s)
unfolding range ltbℤ to_int
empty_range draw fuel s total p q =
    let e : u32 (total + (2 ^ 32 - 1)) ≡ total - 1 = omega (arith, p, q) in
    let negative : ltb (total - 1) (2 ^ 31) ≡ false = ground (arith, p) in rw (e, negative)

-- Where the total of the weights exceeds 2 ^ 31, `random_weighted_choice` draws nothing: for every
-- state it takes the number 0, and leaves the state as it was.
pub random_weighted_choice_large :
    (fuel s : ℕ) (cum_weights : List ℕ)
    → 2 ^ 31 < get_or cum_weights (length cum_weights - 1) 0
    → get_or cum_weights (length cum_weights - 1) 0 < 2 ^ 32
    → random_weighted_choice fuel s cum_weights ≡ chosen cum_weights (some (pos 0, s))
unfolding random_weighted_choice random_range32
random_weighted_choice_large fuel s cum_weights p q =
    ap (chosen cum_weights)
      (empty_range (λ r. r >>> 32) fuel s (get_or cum_weights (length cum_weights - 1) 0) p q)
