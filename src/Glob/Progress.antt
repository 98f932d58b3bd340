-- ===== src/Glob/Progress.antt =====
-- What one round of `glob_match` does to the rest of the pattern and to the number of ways back to a star.
use cstone.Prelude.{
  ℕ, suc, ◌≤◌, ◌<◌, ◌≡◌, refl, ap₂, Bool, true, false, Option, none, some, List, [], ◌∷◌, ◌==◌,
  drop, length, Bool-cases, inl, inr, ne→==, arith,
}
use native.Mathlib.Decide.{ℕ_discrete}
use cstone.Glob.{
  char_match, parse_range_def, Step, done, past_end, endless, next, recover, range_step, any_step,
  literal_step, glob_step, glob_loop,
}
use cstone.Glob.Shorter.{IsShorter, Shortens, parse_range_def-Shortens}

-- How often the loop can still go back to a star.
unfoldable pub potential : List ℕ → Option (List ℕ × List ℕ) → ℕ
potential [] star = 0
potential (s ∷ str) none = suc (length str)
potential (s ∷ str) (some star) = suc (length star.1)

-- The last star stands in a pattern of at most `limit` characters, not behind the string.
unfoldable pub StarFits : ℕ → List ℕ → Option (List ℕ × List ℕ) → Type 0
StarFits limit str none = Unit
StarFits limit str (some star) =
    (pat : List ℕ) × (star.0 ≡ 0x2a ∷ pat)
    × (length pat < limit)
    × (length str ≤ suc (length star.1))

-- What one round does to the measure.
pub data Progress (limit : ℕ) (pat str : List ℕ) (star : Option (List ℕ × List ℕ)) (step : Step)
    : Type 0 where
  ends :
      (result : Option Bool)
      → ((fuel : ℕ) (dir : List ℕ)
          → elim step [
            | done r ↦ some (some r)
            | past_end ↦ some none
            | endless ↦ none
            | next pat' str' star' ↦ glob_loop fuel dir pat' str' star'
          ]
            ≡ some result)
      → Progress limit pat str star step
  forward :
      (pat' str' : List ℕ) (star' : Option (List ℕ × List ℕ))
      → step ≡ next pat' str' star'
      → length pat' < length pat
      → potential str' star' ≤ potential str star
      → StarFits limit str' star'
      → Progress limit pat str star step
  back :
      (pat' str' : List ℕ)
      → step ≡ next (0x2a ∷ pat') str' (some (0x2a ∷ pat', str'))
      → length pat' < limit
      → suc (length str') ≤ potential str star
      → Progress limit pat str star step
  hangs : step ≡ endless → Progress limit pat str star step

module _ (limit : ℕ) (dir : List ℕ) where
  shrink :
      (s : ℕ) (str : List ℕ) (star : Option (List ℕ × List ℕ))
      → StarFits limit (s ∷ str) star
      → (potential str star ≤ potential (s ∷ str) star) × StarFits limit str star
  unfolding potential StarFits
  shrink s [] none f = (omega arith, tt)
  shrink s [] (some star) f = (omega arith, (f.0, f.1, f.2, omega arith))
  shrink s (t ∷ str) none f = (omega arith, tt)
  shrink s (t ∷ str) (some star) f = (omega arith, (f.0, f.1, f.2, omega (arith, f.3)))

  recover-Progress :
      (pat str : List ℕ) (star : Option (List ℕ × List ℕ))
      → StarFits limit str star
      → Progress limit pat str star (recover dir str star)
  unfolding recover StarFits potential
  recover-Progress pat str none f = ends (some false) (λ fuel d. refl)
  recover-Progress pat [] (some star) f = ends (some false) (λ fuel d. refl)
  recover-Progress pat (s ∷ str) (some star) f = elim (Bool-cases (char_match s dir)) [
    | inl separator ↦ rw separator (ends (some false) (λ fuel d. refl))
    | inr other ↦
        rw other (
          back f.0 star.1 (ap₂ (λ t u. next t star.1 (some (u, star.1))) f.1 f.1) f.2 (omega arith))
  ]

  any_step-Progress :
      (p : ℕ) (pat str : List ℕ) (star : Option (List ℕ × List ℕ))
      → StarFits limit str star
      → Progress limit (p ∷ pat) str star (any_step dir pat str star)
  unfolding any_step
  any_step-Progress p pat [] star f = recover-Progress (p ∷ pat) [] star f
  any_step-Progress p pat (s ∷ str) star f = elim (Bool-cases (char_match s dir)) [
    | inl separator ↦ rw separator (recover-Progress (p ∷ pat) (s ∷ str) star f)
    | inr other ↦
        let (less, f') = shrink s str star f in
        rw other (forward pat str star refl (omega arith) less f')
  ]

  literal_step-Progress :
      (p : ℕ) (pat str : List ℕ) (star : Option (List ℕ × List ℕ))
      → StarFits limit str star
      → Progress limit (p ∷ pat) str star (literal_step dir p pat str star)
  unfolding literal_step
  literal_step-Progress p pat [] star f = recover-Progress (p ∷ pat) [] star f
  literal_step-Progress p pat (s ∷ str) star f = elim (Bool-cases (s == p)) [
    | inl same ↦
        let (less, f') = shrink s str star f in
        rw same (forward pat str star refl (omega arith) less f')
    | inr other ↦ rw other (recover-Progress (p ∷ pat) (s ∷ str) star f)
  ]

  range_step-Progress :
      (p : ℕ) (pat str : List ℕ) (star : Option (List ℕ × List ℕ)) (set : (ℕ → Bool))
      (rest : Option (List ℕ))
      → IsShorter (length pat) rest
      → StarFits limit str star
      → Progress limit (p ∷ pat) str star (range_step dir pat str star (set, rest))
  unfolding range_step IsShorter
  range_step-Progress p pat [] star set rest shorter f = elim (Bool-cases (set 0)) [
    | inl ending ↦ rw ending (ends none (λ fuel d. refl))
    | inr other ↦ rw other (recover-Progress (p ∷ pat) [] star f)
  ]
  range_step-Progress p pat (s ∷ str) star set none shorter f = elim (Bool-cases (set s)) [
    | inl member ↦ rw member (ends none (λ fuel d. refl))
    | inr other ↦ rw other (recover-Progress (p ∷ pat) (s ∷ str) star f)
  ]
  range_step-Progress p pat (s ∷ str) star set (some rest) shorter f = elim (Bool-cases (set s)) [
    | inl member ↦
        let (less, f') = shrink s str star f in
        rw member (forward rest str star refl (omega (arith, shorter)) less f')
    | inr other ↦ rw other (recover-Progress (p ∷ pat) (s ∷ str) star f)
  ]

  star-Progress :
      (pat str : List ℕ) (star : Option (List ℕ × List ℕ))
      → length pat < limit
      → StarFits limit str star
      → Progress limit (0x2a ∷ pat) str star (next pat str (some (0x2a ∷ pat, drop 1 str)))
  unfolding StarFits potential
  star-Progress pat [] star p f =
      forward pat [] (some (0x2a ∷ pat, [])) refl (omega arith) (omega arith)
        (pat, refl, p, omega arith)
  star-Progress pat (s ∷ str) none p f =
      forward pat (s ∷ str) (some (0x2a ∷ pat, str)) refl (omega arith) (omega arith)
        (pat, refl, p, omega arith)
  star-Progress pat (s ∷ str) (some star) p f =
      forward pat (s ∷ str) (some (0x2a ∷ pat, str)) refl (omega arith) (omega (arith, f.3))
        (pat, refl, p, omega arith)

range-Progress :
    (limit : ℕ) (dir : List ℕ) (p : ℕ) (pat str : List ℕ) (star : Option (List ℕ × List ℕ))
    (range : Option ((ℕ → Bool) × Option (List ℕ)))
    → Shortens (length pat) range
    → StarFits limit str star
    → Progress limit
        (p ∷ pat)
        str
        star
        (elim range [ none ↦ endless | some found ↦ range_step dir pat str star found ])
unfolding Shortens
range-Progress limit dir p pat str star none s f = hangs refl
range-Progress limit dir p pat str star (some (set, rest)) s f =
    range_step-Progress limit dir p pat str star set rest s f

module _ (limit : ℕ) (dir : List ℕ) where
  pub glob_step-Progress :
      (pat str : List ℕ) (star : Option (List ℕ × List ℕ))
      → length pat ≤ limit
      → StarFits limit str star
      → Progress limit pat str star (glob_step dir pat str star)
  unfolding glob_step
  glob_step-Progress [] [] star p f = ends (some true) (λ fuel d. refl)
  glob_step-Progress [] (s ∷ str) star p f = recover-Progress limit dir [] (s ∷ str) star f
  glob_step-Progress (c ∷ pat) str star p f = elim (ℕ_discrete c 0x2a) [
    | yes e ↦ rw e (star-Progress limit dir pat str star (omega (arith, p)) f)
    | no not_star ↦ elim (Bool-cases (c == 0x3f)) [
      | inl e ↦ rw (ne→== c 0x2a not_star, e) (any_step-Progress limit dir c pat str star f)
      | inr not_any ↦ elim (Bool-cases (c == 0x5b)) [
        | inl e ↦
            rw (ne→== c 0x2a not_star, not_any, e)
              (range-Progress limit dir c pat str star (parse_range_def pat)
                (parse_range_def-Shortens pat) f)
        | inr not_range ↦
            rw (ne→== c 0x2a not_star, not_any, not_range)
              (literal_step-Progress limit dir c pat str star f)
      ]
    ]
  ]
