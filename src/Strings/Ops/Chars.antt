-- ===== src/Strings/Ops/Chars.antt =====
-- `str_to_upper` and `str_to_lower` convert every character and return the length.
use cstone.Prelude.{
  ℕ, suc, ◌+◌, ◌≡◌, refl, ap, ap₂, ◌∙◌, List, [], ◌∷◌, map, length, length-map, arith,
}
use cstone.Strings.Ops.{tolower, toupper, convert_loop, str_to_upper, str_to_lower}

pub tolower-toupper : (c : ℕ) → tolower (toupper c) ≡ tolower c
unfolding tolower toupper
tolower-toupper c = ground arith

pub toupper-tolower : (c : ℕ) → toupper (tolower c) ≡ toupper c
unfolding tolower toupper
toupper-tolower c = ground arith

convert_loop-eq :
    (convert : ℕ → ℕ) (n : ℕ) (str : List ℕ)
    → convert_loop convert n str ≡ (n + length str, map convert str)
unfolding convert_loop
convert_loop-eq convert n [] =
    let e : n ≡ n + 0 = omega arith in ap (λ (t : ℕ). (let r : ℕ × List ℕ = (t, []) in r)) e
convert_loop-eq convert n (c ∷ str) =
    let e : n + 1 + length str ≡ n + suc (length str) = omega arith in
    rw (convert_loop-eq convert (n + 1) str, e)

module _ (str : List ℕ) where
  pub str_to_upper-map : str_to_upper str ≡ (length str, map toupper str)
  unfolding str_to_upper
  str_to_upper-map =
      convert_loop-eq toupper 0 str
      ∙ ap (λ (t : ℕ). (let r : ℕ × List ℕ = (t, map toupper str) in r))
          (let e : 0 + length str ≡ length str = omega arith in e)

  pub str_to_lower-map : str_to_lower str ≡ (length str, map tolower str)
  unfolding str_to_lower
  str_to_lower-map =
      convert_loop-eq tolower 0 str
      ∙ ap (λ (t : ℕ). (let r : ℕ × List ℕ = (t, map tolower str) in r))
          (let e : 0 + length str ≡ length str = omega arith in e)

map-map :
    (f g h : ℕ → ℕ) → ((c : ℕ) → f (g c) ≡ h c) → (str : List ℕ) → map f (map g str) ≡ map h str
map-map f g h same [] = refl
map-map f g h same (c ∷ str) = ap₂ ◌∷◌ (same c) (map-map f g h same str)

-- Each of `str_to_upper` and `str_to_lower` returns the length, and undoes whatever the other one did:
-- after both, in either order, the string is the one after the last alone.
pub case_conversions :
    (str : List ℕ)
    → ((str_to_upper str).0 ≡ length str)
      × ((str_to_lower str).0 ≡ length str)
      × (str_to_lower (str_to_upper str).1 ≡ str_to_lower str)
      × (str_to_upper (str_to_lower str).1 ≡ str_to_upper str)
case_conversions str = (
  ap (λ t. t.0) (str_to_upper-map str),
  ap (λ t. t.0) (str_to_lower-map str),
  rw (
    str_to_upper-map str,
    str_to_lower-map (map toupper str),
    str_to_lower-map str,
    length-map str toupper,
    map-map tolower toupper tolower tolower-toupper str,
  ),
  rw (
    str_to_lower-map str,
    str_to_upper-map (map tolower str),
    str_to_upper-map str,
    length-map str tolower,
    map-map toupper tolower toupper toupper-tolower str,
  ),
)
