-- ===== src/Glob/Ends.antt =====
-- The loop of `glob_match` ends: it goes back to a star at most as often as the string has characters.
use cstone.Prelude.{
  ℕ, zero, suc, ◌+◌, ◌*◌, ◌≤◌, ◌<◌, ◌≡◌, refl, ap, ◌∙◌, Bool, Option, none, some, List, [], ◌∷◌,
  drop, length, arith,
}
use mathlib.Core.Path.{subst}
use native.Mathlib.Nat.{mul-le-mul_right, add-mul, one-mul}
use cstone.Glob.{Step, done, past_end, endless, next, glob_step, glob_loop, glob_match}
use cstone.Glob.Progress.{potential, StarFits, ends, forward, back, hangs, glob_step-Progress}
use cstone.Glob.Below.{Below, StarBelow, Keeps, glob_step-Keeps}

module _ (limit : ℕ) (dir : List ℕ) where
  -- Enough fuel for the rounds up to the next way back, and for those after it.
  abbrev measure : List ℕ → List ℕ → Option (List ℕ × List ℕ) → ℕ
  measure pat str star = suc (length pat) + potential str star * suc (suc limit)

  loop_next :
      (fuel : ℕ) (pat str : List ℕ) (star : Option (List ℕ × List ℕ)) (pat' str' : List ℕ)
      (star' : Option (List ℕ × List ℕ))
      → glob_step dir pat str star ≡ next pat' str' star'
      → glob_loop (suc fuel) dir pat str star ≡ glob_loop fuel dir pat' str' star'
  unfolding glob_loop
  loop_next fuel pat str star pat' str' star' e =
      ap
        (λ (step : Step).
          (let r : Option (Option Bool) = elim step [
            | done result ↦ some (some result)
            | past_end ↦ some none
            | endless ↦ none
            | next p s t ↦ glob_loop fuel dir p s t
          ] in
            r))
        e

  -- After the way back the star takes one more character.
  next_star :
      (pat str : List ℕ)
      → length pat < limit
      → (potential str (some (0x2a ∷ pat, drop 1 str)) ≤ length str)
        × StarFits limit str (some (0x2a ∷ pat, drop 1 str))
  unfolding potential StarFits
  next_star pat [] p = (omega arith, (pat, refl, p, omega arith))
  next_star pat (s ∷ str) p = (omega arith, (pat, refl, p, omega arith))

  kept :
      (pat str : List ℕ) (star : Option (List ℕ × List ℕ)) {step : Step}
      → Below pat
      → StarBelow star
      → glob_step dir pat str star ≡ step
      → Keeps step
  kept pat str star low star_low e = subst Keeps e (glob_step-Keeps dir pat str star low star_low)

  loop_returns :
      (fuel : ℕ) (pat str : List ℕ) (star : Option (List ℕ × List ℕ))
      → length pat ≤ limit
      → StarFits limit str star
      → measure pat str star ≤ fuel
      → Below pat
      → StarBelow star
      → (result : Option Bool) × (glob_loop fuel dir pat str star ≡ some result)
  loop_returns zero pat str star p f enough low star_low = absurd (omega (arith, enough))
  loop_returns (suc zero) pat str star p f enough low star_low =
      elim (glob_step-Progress limit dir pat str star p f) [
        | ends result e ↦ (result, unfold glob_loop in e zero dir)
        | hangs e ↦ absurd (unfold Keeps in kept pat str star low star_low e)
        | forward pat' str' star' e shorter less f' ↦ absurd (omega (arith, enough, shorter))
        | back pat' str' e within less ↦ absurd (
            omega (
              arith,
              enough,
              mul-le-mul_right {m = suc (length str')} {n = potential str star} (suc (suc limit))
                  less,
              add-mul (length str') 1 (suc (suc limit)),
              ap (λ (t : ℕ). t * suc (suc limit))
                  (let e : suc (length str') ≡ length str' + 1 = omega arith in e),
              one-mul (suc (suc limit)),
            ))
      ]
  loop_returns (suc (suc fuel)) pat str star p f enough low star_low =
      elim (glob_step-Progress limit dir pat str star p f) [
        | ends result e ↦ (result, unfold glob_loop in e (suc fuel) dir)
        | hangs e ↦ absurd (unfold Keeps in kept pat str star low star_low e)
        | forward pat' str' star' e shorter less f' ↦
            let (low', star_low') : Below pat' × StarBelow star' =
              unfold Keeps in kept pat str star low star_low e in
            let (result, r) =
              loop_returns (suc fuel) pat' str' star' (omega (arith, shorter, p)) f'
                (omega (
                  arith,
                  enough,
                  shorter,
                  mul-le-mul_right {m = potential str' star'} {n = potential str star}
                      (suc (suc limit)) less,
                ))
                low' star_low' in
            (result, loop_next (suc fuel) pat str star pat' str' star' e ∙ r)
        | back pat' str' e within less ↦
            let (lower, f') = next_star pat' str' within in
            let (low', star_low') : Below (0x2a ∷ pat') × StarBelow (some (0x2a ∷ pat', str')) =
              unfold Keeps in kept pat str star low star_low e in
            let star' : Option (List ℕ × List ℕ) = some (0x2a ∷ pat', drop 1 str') in
            let (result, r) =
              loop_returns fuel pat' str' star' (omega (arith, within)) f'
                (omega (
                  arith,
                  enough,
                  within,
                  mul-le-mul_right {m = potential str' star' + 1} {n = potential str star}
                      (suc (suc limit)) (omega (arith, lower, less)),
                  add-mul (potential str' star') 1 (suc (suc limit)),
                  one-mul (suc (suc limit)),
                ))
                low'.1 (unfold StarBelow in low') in
            (
              result,
              loop_next (suc fuel) pat str star (0x2a ∷ pat') str' (some (0x2a ∷ pat', str')) e
                  ∙ loop_next fuel (0x2a ∷ pat') str' (some (0x2a ∷ pat', str')) pat' str' star'
                      (unfold glob_step in refl)
                  ∙ r,
            )
      ]

-- Rounds that are enough for `glob_match`.
abbrev pub rounds : List ℕ → List ℕ → ℕ
rounds pattern str = suc (length pattern) + length str * suc (suc (length pattern))

-- With a pattern whose characters are below the greatest one, 255, the loop of `glob_match` ends, with a
-- result or behind the terminator of one of the strings: it needs at most as many rounds as `rounds` says,
-- about the product of both lengths, and no span needs more than 257 rounds.
pub glob_match-returns :
    (pattern str dir_separators : List ℕ)
    → Below pattern
    → (result : Option Bool) × (glob_match (rounds pattern str) pattern str dir_separators
        ≡ some result)
unfolding glob_match StarFits
glob_match-returns pattern str dir low =
    loop_returns (length pattern) dir (rounds pattern str) pattern str none (omega arith) tt
      (omega (
        arith,
        mul-le-mul_right {m = potential str none} {n = length str} (suc (suc (length pattern)))
            (start str),
      ))
      low (unfold StarBelow in tt)
  where
    start : (str : List ℕ) → potential str none ≤ length str
    start [] = unfold potential in omega arith
    start (s ∷ str) = unfold potential in omega arith
