-- ===== src/Strings/Ops/Bools.antt =====
-- `str_is_bool` and `str_to_bool`.
use cstone.Prelude.{ℕ, ◌≡◌, refl, List, [], ◌∷◌, map, Bool-cases, inl, inr}
use cstone.Strings.Ops.{
  toupper, stricmp, any_match, bool_true, bool_false, str_is_bool, str_to_bool, str_to_upper,
}
use cstone.Strings.Ops.Chars.{tolower-toupper, str_to_upper-map}

stricmp-upper : (s value : List ℕ) → stricmp s (map toupper value) ≡ stricmp s value
unfolding stricmp
stricmp-upper [] [] = refl
stricmp-upper [] (b ∷ value) = rw (tolower-toupper b)
stricmp-upper (a ∷ s) [] = refl
stricmp-upper (a ∷ s) (b ∷ value) = rw (tolower-toupper b, stricmp-upper s value)

any_match-upper :
    (table : List (List ℕ)) (value : List ℕ)
    → any_match table (map toupper value) ≡ any_match table value
unfolding any_match
any_match-upper [] value = refl
any_match-upper (entry ∷ table) value = rw (stricmp-upper entry value, any_match-upper table value)

-- Upper and lower case make no difference: a value converted by `str_to_upper` gives the same results.
-- `str_to_bool` returns what `str_is_bool` stores, also for a string that is no Boolean.
pub str_is_bool-any_case :
    (value : List ℕ)
    → (str_is_bool (str_to_upper value).1 ≡ str_is_bool value)
      × (str_to_bool (str_to_upper value).1 ≡ str_to_bool value)
      × (str_to_bool value ≡ (str_is_bool value).1)
unfolding str_is_bool str_to_bool
str_is_bool-any_case value =
    rw (str_to_upper-map value, any_match-upper bool_true value, any_match-upper bool_false value)
      (refl, refl, stored)
  where
    stored : any_match bool_true value ≡ (str_is_bool value).1
    stored = elim (Bool-cases (any_match bool_true value)) [
      | inl yes_true ↦ rw yes_true
      | inr no_true ↦ elim (Bool-cases (any_match bool_false value)) [
        | inl yes_false ↦ rw (no_true, yes_false)
        | inr no_false ↦ rw (no_true, no_false)
      ]
    ]
