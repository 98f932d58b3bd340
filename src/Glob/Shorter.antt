-- ===== src/Glob/Shorter.antt =====
-- src/util/glob.c: what `parse_range_def` leaves of the pattern is shorter.
use cstone.Prelude.{
  ℕ, suc, ◌≤◌, Bool, false, Option, none, some, List, [], ◌∷◌, ◌==◌, length, Bool-cases, inl, inr,
  Option-cases, arith,
}
use cstone.Glob.{add_to_set, span_loop, span_rounds, range_loop, inverted, parse_range_def}

-- A rest of at most `n` characters, if there is one.
unfoldable pub IsShorter : ℕ → Option (List ℕ) → Type 0
IsShorter n none = Unit
IsShorter n (some pat) = length pat ≤ n

weaken : (m n : ℕ) (rest : Option (List ℕ)) → m ≤ n → IsShorter m rest → IsShorter n rest
unfolding IsShorter
weaken m n none p s = tt
weaken m n (some pat) p s = omega (arith, p, s)

-- What follows a range is shorter than what the scan was given.
unfoldable pub Shortens : ℕ → Option ((ℕ → Bool) × Option (List ℕ)) → Type 0
unfolding IsShorter
Shortens n none = Unit
Shortens n (some (set, rest)) = IsShorter n rest

lengthen :
    (m n : ℕ) (r : Option ((ℕ → Bool) × Option (List ℕ))) → m ≤ n → Shortens m r → Shortens n r
unfolding Shortens
lengthen m n none p s = tt
lengthen m n (some (set, rest)) p s = weaken m n rest p s

range_loop-Shortens : (pat : List ℕ) (set : ℕ → Bool) → Shortens (length pat) (range_loop pat set)
unfolding range_loop Shortens IsShorter
range_loop-Shortens [] set = tt
range_loop-Shortens (c ∷ []) set = elim (Bool-cases (c == 0x5d)) [
  | inl end ↦ rw end (omega arith)
  | inr more ↦ rw more tt
]
range_loop-Shortens (c ∷ d ∷ []) set = elim (Bool-cases (c == 0x5d)) [
  | inl end ↦ rw end (omega arith)
  | inr more ↦ elim (Bool-cases (d == 0x2d)) [
    | inl span ↦ rw (more, span) tt
    | inr single ↦
        rw (more, single)
          (lengthen 1 2 (range_loop (d ∷ []) (add_to_set c set)) (omega arith)
            (range_loop-Shortens (d ∷ []) (add_to_set c set)))
  ]
]
range_loop-Shortens (c ∷ d ∷ t ∷ pat) set = elim (Bool-cases (c == 0x5d)) [
  | inl end ↦ rw end (omega arith)
  | inr more ↦ elim (Bool-cases (d == 0x2d)) [
    | inl span ↦ elim (Bool-cases (t == 0x5d)) [
      | inl open_end ↦ rw (more, span, open_end) (omega arith)
      | inr closed ↦ elim (Option-cases (span_loop span_rounds c t set)) [
        | inl over ↦ rw (more, span, closed, over) tt
        | inr (added, e) ↦
            rw (more, span, closed, e)
              (lengthen (length pat) (suc (suc (suc (length pat)))) (range_loop pat added)
                (omega arith) (range_loop-Shortens pat added))
      ]
    ]
    | inr single ↦
        rw (more, single)
          (lengthen (suc (suc (length pat))) (suc (suc (suc (length pat))))
            (range_loop (d ∷ t ∷ pat) (add_to_set c set)) (omega arith)
            (range_loop-Shortens (d ∷ t ∷ pat) (add_to_set c set)))
  ]
]

inverted-Shortens :
    (n : ℕ) (r : Option ((ℕ → Bool) × Option (List ℕ))) → Shortens n r → Shortens n (inverted r)
unfolding Shortens inverted
inverted-Shortens n none s = s
inverted-Shortens n (some (set, rest)) s = s

pub parse_range_def-Shortens : (pat : List ℕ) → Shortens (length pat) (parse_range_def pat)
unfolding parse_range_def
parse_range_def-Shortens [] = range_loop-Shortens [] (λ ch. false)
parse_range_def-Shortens (c ∷ pat) = elim (Bool-cases (c == 0x21)) [
  | inl bang ↦ rw bang (
      lengthen (length pat) (suc (length pat)) (inverted (range_loop pat (λ ch. false)))
        (omega arith)
        (inverted-Shortens (length pat) (range_loop pat (λ ch. false))
          (range_loop-Shortens pat (λ ch. false))))
  | inr plain ↦ rw plain (range_loop-Shortens (c ∷ pat) (λ ch. false))
]
