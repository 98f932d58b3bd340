-- ===== src/Glob/Below.antt =====
-- src/util/glob.c: with a pattern of characters below the greatest one, no span is endless.
use cstone.Prelude.{
  ℕ, ◌<◌, Bool, false, Option, none, some, List, [], ◌∷◌, ◌==◌, All, Bool-cases, inl, inr, arith,
}
use cstone.Glob.{
  add_to_set, char_match, span_rounds, range_loop, inverted, parse_range_def, Step, done, past_end,
  endless, next, recover, range_step, any_step, literal_step, glob_step,
}
use cstone.Glob.Spans.{span_ends}

abbrev pub Below : List ℕ → Type 0
Below = All (λ c. c < 255)

unfoldable pub StarBelow : Option (List ℕ × List ℕ) → Type 0
StarBelow none = Unit
StarBelow (some star) = Below star.0

-- The scan of a range ends, and what it leaves is again such a pattern.
Ended : Option ((ℕ → Bool) × Option (List ℕ)) → Type 0
Ended none = ⊥
Ended (some (set, none)) = Unit
Ended (some (set, some rest)) = Below rest

range_loop-Ended : (pat : List ℕ) (set : ℕ → Bool) → Below pat → Ended (range_loop pat set)
unfolding range_loop Ended
range_loop-Ended [] set b = tt
range_loop-Ended (c ∷ []) set b = elim (Bool-cases (c == 0x5d)) [
  | inl end ↦ rw end tt
  | inr more ↦ rw more tt
]
range_loop-Ended (c ∷ d ∷ []) set b = elim (Bool-cases (c == 0x5d)) [
  | inl end ↦ rw end b.1
  | inr more ↦ elim (Bool-cases (d == 0x2d)) [
    | inl span ↦ rw (more, span) tt
    | inr single ↦ rw (more, single) (range_loop-Ended (d ∷ []) (add_to_set c set) b.1)
  ]
]
range_loop-Ended (c ∷ d ∷ t ∷ pat) set (low, (lower, (top, rest))) = elim (Bool-cases (c == 0x5d)) [
  | inl end ↦ rw end (lower, (top, rest))
  | inr more ↦ elim (Bool-cases (d == 0x2d)) [
    | inl span ↦ elim (Bool-cases (t == 0x5d)) [
      | inl open_end ↦ rw (more, span, open_end) rest
      | inr closed ↦
          let (added, e) = span_ends span_rounds c t set top (omega (arith, top)) (omega arith) in
          rw (more, span, closed, e) (range_loop-Ended pat added rest)
    ]
    | inr single ↦
        rw (more, single) (range_loop-Ended (d ∷ t ∷ pat) (add_to_set c set) (lower, (top, rest)))
  ]
]

inverted-Ended : (r : Option ((ℕ → Bool) × Option (List ℕ))) → Ended r → Ended (inverted r)
unfolding Ended inverted
inverted-Ended none e = e
inverted-Ended (some (set, none)) e = tt
inverted-Ended (some (set, some rest)) e = e

parse_range_def-Ended : (pat : List ℕ) → Below pat → Ended (parse_range_def pat)
unfolding parse_range_def
parse_range_def-Ended [] b = range_loop-Ended [] (λ ch. false) tt
parse_range_def-Ended (c ∷ pat) b = elim (Bool-cases (c == 0x21)) [
  | inl bang ↦
      rw bang
        (inverted-Ended (range_loop pat (λ ch. false)) (range_loop-Ended pat (λ ch. false) b.1))
  | inr plain ↦ rw plain (range_loop-Ended (c ∷ pat) (λ ch. false) b)
]

-- One round leads on to patterns of the same kind, and into no endless span.
unfoldable pub Keeps : Step → Type 0
Keeps (done result) = Unit
Keeps past_end = Unit
Keeps endless = ⊥
Keeps (next pat str star) = Below pat × StarBelow star

module _ (dir : List ℕ) where
  recover-Keeps :
      (str : List ℕ) (star : Option (List ℕ × List ℕ))
      → StarBelow star
      → Keeps (recover dir str star)
  unfolding recover StarBelow Keeps
  recover-Keeps str none b = tt
  recover-Keeps [] (some star) b = tt
  recover-Keeps (s ∷ str) (some star) b = elim (Bool-cases (char_match s dir)) [
    | inl separator ↦ rw separator tt
    | inr other ↦ rw other (b, b)
  ]

  any_step-Keeps :
      (pat str : List ℕ) (star : Option (List ℕ × List ℕ))
      → Below pat
      → StarBelow star
      → Keeps (any_step dir pat str star)
  unfolding any_step Keeps
  any_step-Keeps pat [] star p b = recover-Keeps [] star b
  any_step-Keeps pat (s ∷ str) star p b = elim (Bool-cases (char_match s dir)) [
    | inl separator ↦ rw separator (recover-Keeps (s ∷ str) star b)
    | inr other ↦ rw other (p, b)
  ]

  literal_step-Keeps :
      (c : ℕ) (pat str : List ℕ) (star : Option (List ℕ × List ℕ))
      → Below pat
      → StarBelow star
      → Keeps (literal_step dir c pat str star)
  unfolding literal_step Keeps
  literal_step-Keeps c pat [] star p b = recover-Keeps [] star b
  literal_step-Keeps c pat (s ∷ str) star p b = elim (Bool-cases (s == c)) [
    | inl same ↦ rw same (p, b)
    | inr other ↦ rw other (recover-Keeps (s ∷ str) star b)
  ]

  range-Keeps :
      (pat str : List ℕ) (star : Option (List ℕ × List ℕ))
      (range : Option ((ℕ → Bool) × Option (List ℕ)))
      → Ended range
      → StarBelow star
      → Keeps (elim range [ none ↦ endless | some found ↦ range_step dir pat str star found ])
  unfolding Ended range_step Keeps
  range-Keeps pat str star none e b = absurd e
  range-Keeps pat [] star (some (set, rest)) e b = elim (Bool-cases (set 0)) [
    | inl ending ↦ rw ending tt
    | inr other ↦ rw other (recover-Keeps [] star b)
  ]
  range-Keeps pat (s ∷ str) star (some (set, none)) e b = elim (Bool-cases (set s)) [
    | inl member ↦ rw member tt
    | inr other ↦ rw other (recover-Keeps (s ∷ str) star b)
  ]
  range-Keeps pat (s ∷ str) star (some (set, some rest)) e b = elim (Bool-cases (set s)) [
    | inl member ↦ rw member (e, b)
    | inr other ↦ rw other (recover-Keeps (s ∷ str) star b)
  ]

  pub glob_step-Keeps :
      (pat str : List ℕ) (star : Option (List ℕ × List ℕ))
      → Below pat
      → StarBelow star
      → Keeps (glob_step dir pat str star)
  unfolding glob_step Keeps StarBelow
  glob_step-Keeps [] [] star p b = tt
  glob_step-Keeps [] (s ∷ str) star p b = recover-Keeps (s ∷ str) star b
  glob_step-Keeps (c ∷ pat) str star p b = elim (Bool-cases (c == 0x2a)) [
    | inl e ↦ rw e (p.1, p)
    | inr not_star ↦ elim (Bool-cases (c == 0x3f)) [
      | inl e ↦ rw (not_star, e) (any_step-Keeps pat str star p.1 b)
      | inr not_any ↦ elim (Bool-cases (c == 0x5b)) [
        | inl e ↦
            rw (not_star, not_any, e)
              (range-Keeps pat str star (parse_range_def pat) (parse_range_def-Ended pat p.1) b)
        | inr not_range ↦
            rw (not_star, not_any, not_range) (literal_step-Keeps c pat str star p.1 b)
      ]
    ]
  ]
