-- ===== src/Glob/Sound.antt =====
-- What `glob_match` accepts is described by the pattern.
use cstone.Prelude.{
  ℕ, zero, suc, ◌≡◌, refl, Bool, true, false, Option, none, some, List, [], ◌∷◌, ◌==◌, drop,
  Bool-cases, inl, inr, ==_iff, ne→==, arith,
}
use native.Mathlib.Decide.{ℕ_discrete}
use cstone.Glob.{
  char_match, parse_range_def, Step, done, past_end, endless, next, recover, range_step, any_step,
  literal_step, glob_step, glob_loop, glob_match, is_glob,
}
use cstone.Glob.Ranges.{TakesChar, Accepts, parse_range_def-Accepts}

-- The strings that a pattern describes. A star takes any characters, those that separate directories too,
-- and `?` any one that does not separate. A range is what `Ranges` says of its text.
pub data Matches (dir : List ℕ) : List ℕ → List ℕ → Type 0 where
  nothing : Matches dir [] []
  star_end : {pat str : List ℕ} → Matches dir pat str → Matches dir (0x2a ∷ pat) str
  star_more :
      {pat str : List ℕ} (s : ℕ) → Matches dir (0x2a ∷ pat) str → Matches dir (0x2a ∷ pat) (s ∷ str)
  any :
      {pat str : List ℕ} (s : ℕ)
      → char_match s dir ≡ false
      → Matches dir pat str
      → Matches dir (0x3f ∷ pat) (s ∷ str)
  in_range :
      {pat rest str : List ℕ} (s : ℕ)
      → TakesChar s pat rest
      → Matches dir rest str
      → Matches dir (0x5b ∷ pat) (s ∷ str)
  literal :
      {pat str : List ℕ} (s : ℕ)
      → is_glob (s ∷ []) ≡ false
      → Matches dir pat str
      → Matches dir (s ∷ pat) (s ∷ str)

module _ (dir : List ℕ) (Goal : Type 0) where
  -- A match from the positions of the loop on, or from its last star on, is a match of the whole.
  StarLeads : Option (List ℕ × List ℕ) → Type 0
  StarLeads none = Unit
  StarLeads (some star) = Matches dir star.0 star.1 → Goal

  Leads : Step → Type 0
  unfolding StarLeads
  Leads (done result) = result ≡ true → Goal
  Leads past_end = Unit
  Leads endless = Unit
  Leads (next pat str star) = (Matches dir pat str → Goal) × StarLeads star

  recover-Leads :
      (str : List ℕ) (star : Option (List ℕ × List ℕ))
      → StarLeads star
      → Leads (recover dir str star)
  unfolding Leads recover
  recover-Leads str none l = λ e. absurd (ground (arith, e))
  recover-Leads [] (some star) l = λ e. absurd (ground (arith, e))
  recover-Leads (s ∷ str) (some star) l = elim (Bool-cases (char_match s dir)) [
    | inl separator ↦ rw separator (λ e. absurd (ground (arith, e)))
    | inr other ↦ rw other (l, l)
  ]

  any_step-Leads :
      (pat str : List ℕ) (star : Option (List ℕ × List ℕ))
      → (Matches dir (0x3f ∷ pat) str → Goal)
      → StarLeads star
      → Leads (any_step dir pat str star)
  unfolding Leads any_step
  any_step-Leads pat [] star m l = recover-Leads [] star l
  any_step-Leads pat (s ∷ str) star m l = elim (Bool-cases (char_match s dir)) [
    | inl separator ↦ rw separator (recover-Leads (s ∷ str) star l)
    | inr other ↦ rw other ((λ rest. m (any s other rest)), l)
  ]

  literal_step-Leads :
      (p : ℕ) (pat str : List ℕ) (star : Option (List ℕ × List ℕ))
      → is_glob (p ∷ []) ≡ false
      → (Matches dir (p ∷ pat) str → Goal)
      → StarLeads star
      → Leads (literal_step dir p pat str star)
  unfolding Leads literal_step
  literal_step-Leads p pat [] star plain m l = recover-Leads [] star l
  literal_step-Leads p pat (s ∷ str) star plain m l = elim (Bool-cases (s == p)) [
    | inl same ↦ rw same ((λ rest. m (subst_char ((==_iff s p).0 same) rest)), l)
    | inr other ↦ rw other (recover-Leads (s ∷ str) star l)
  ]
    where
      subst_char : s ≡ p → Matches dir pat str → Matches dir (p ∷ pat) (s ∷ str)
      subst_char e rest = rw e (literal p plain rest)

  range_step-Leads :
      (pat str : List ℕ) (star : Option (List ℕ × List ℕ)) (set : (ℕ → Bool))
      (rest : Option (List ℕ))
      → Accepts pat (some (set, rest))
      → (Matches dir (0x5b ∷ pat) str → Goal)
      → StarLeads star
      → Leads (range_step dir pat str star (set, rest))
  unfolding Leads range_step Accepts
  range_step-Leads pat [] star set rest e m l = elim (Bool-cases (set 0)) [
    | inl ending ↦ rw ending tt
    | inr other ↦ rw other (recover-Leads [] star l)
  ]
  range_step-Leads pat (s ∷ str) star set none e m l = elim (Bool-cases (set s)) [
    | inl member ↦ rw member tt
    | inr other ↦ rw other (recover-Leads (s ∷ str) star l)
  ]
  range_step-Leads pat (s ∷ str) star set (some rest) e m l = elim (Bool-cases (set s)) [
    | inl member ↦ rw member ((λ more. m (in_range s (e s member) more)), l)
    | inr other ↦ rw other (recover-Leads (s ∷ str) star l)
  ]

  range-Leads :
      (pat str : List ℕ) (star : Option (List ℕ × List ℕ))
      (range : Option ((ℕ → Bool) × Option (List ℕ)))
      → Accepts pat range
      → (Matches dir (0x5b ∷ pat) str → Goal)
      → StarLeads star
      → Leads (elim range [ none ↦ endless | some found ↦ range_step dir pat str star found ])
  unfolding Leads
  range-Leads pat str star none a m l = tt
  range-Leads pat str star (some (set, rest)) a m l = range_step-Leads pat str star set rest a m l

  star-Leads :
      (pat str : List ℕ)
      → (Matches dir (0x2a ∷ pat) str → Goal)
      → Leads (next pat str (some (0x2a ∷ pat, drop 1 str)))
  unfolding Leads
  star-Leads pat [] m = ((λ rest. m (star_end rest)), m)
  star-Leads pat (s ∷ str) m = ((λ rest. m (star_end rest)), λ rest. m (star_more s rest))

  glob_step-Leads :
      (pat str : List ℕ) (star : Option (List ℕ × List ℕ))
      → (Matches dir pat str → Goal)
      → StarLeads star
      → Leads (glob_step dir pat str star)
  unfolding glob_step
  glob_step-Leads [] [] star m l = unfold Leads in λ e. m nothing
  glob_step-Leads [] (s ∷ str) star m l = recover-Leads (s ∷ str) star l
  glob_step-Leads (p ∷ pat) str star m l = elim (ℕ_discrete p 0x2a) [
    | yes e ↦ rw e (star-Leads pat str (λ r. m (rw e r)))
    | no not_star ↦ elim (ℕ_discrete p 0x3f) [
      | yes e ↦ rw e (any_step-Leads pat str star (λ r. m (rw e r)) l)
      | no not_any ↦ elim (ℕ_discrete p 0x5b) [
        | yes e ↦ rw e (
            range-Leads pat str star (parse_range_def pat) (parse_range_def-Accepts pat)
              (λ r. m (rw e r)) l)
        | no not_range ↦
            let plain : is_glob (p ∷ []) ≡ false =
              unfold is_glob in
              rw (ne→== p 0x2a not_star, ne→== p 0x3f not_any, ne→== p 0x5b not_range) in
            rw (ne→== p 0x2a not_star, ne→== p 0x3f not_any, ne→== p 0x5b not_range)
              (literal_step-Leads p pat str star plain m l)
      ]
    ]
  ]

  after_step :
      (fuel : ℕ) (step : Step)
      → ((pat str : List ℕ) (star : Option (List ℕ × List ℕ))
          → (Matches dir pat str → Goal)
          → StarLeads star
          → glob_loop fuel dir pat str star ≡ some (some true)
          → Goal)
      → Leads step
      → elim step [
        | done result ↦ some (some result)
        | past_end ↦ some none
        | endless ↦ none
        | next pat str star ↦ glob_loop fuel dir pat str star
      ]
        ≡ some (some true)
      → Goal
  unfolding Leads
  after_step fuel (done true) more l e = l refl
  after_step fuel (done false) more l e = absurd (ground (arith, e))
  after_step fuel past_end more l e = absurd (ground (arith, e))
  after_step fuel endless more l e = absurd (ground (arith, e))
  after_step fuel (next pat str star) more l e = more pat str star l.0 l.1 e

  loop_sound :
      (fuel : ℕ) (pat str : List ℕ) (star : Option (List ℕ × List ℕ))
      → (Matches dir pat str → Goal)
      → StarLeads star
      → glob_loop fuel dir pat str star ≡ some (some true)
      → Goal
  unfolding glob_loop
  loop_sound zero pat str star m l e = absurd (ground (arith, e))
  loop_sound (suc fuel) pat str star m l e =
      after_step fuel (glob_step dir pat str star) (loop_sound fuel)
        (glob_step-Leads pat str star m l) e

-- A string that `glob_match` accepts, with whatever fuel, is one that the pattern describes: `?` takes one
-- character that is no separator, a range one that its items have, or with `!` one that none has, a star
-- any characters, separators included, and any other character itself.
pub glob_match-Matches :
    (fuel : ℕ) (pattern str dir_separators : List ℕ)
    → glob_match fuel pattern str dir_separators ≡ some (some true)
    → Matches dir_separators pattern str
unfolding glob_match StarLeads
glob_match-Matches fuel pattern str dir e =
    loop_sound dir (Matches dir pattern str) fuel pattern str none (λ m. m) tt e
