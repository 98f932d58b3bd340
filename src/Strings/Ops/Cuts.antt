-- ===== src/Strings/Ops/Cuts.antt =====
-- `str_ends_with` and `str_ltrim`.
use cstone.Prelude.{
  ℕ, ◌+◌, ◌-◌, ◌≤◌, ◌<◌, ◌≡◌, refl, sym, ap, ap₂, ◌∙◌, ◌↔◌, true, false, List, [], ◌∷◌, ◌++◌,
  length, ◌==◌, take, drop, get_or, arith, All, length-append, length-drop, take-append-drop,
  drop-append, ==_iff, dec_lt, Bool-cases, inl, inr,
}
use cstone.Strings.Ops.{same_bytes, str_ends_with, is_space, str_ltrim}

same_bytes_sound : (xs ys : List ℕ) → length xs ≡ length ys → same_bytes xs ys ≡ true → xs ≡ ys
unfolding same_bytes
same_bytes_sound [] [] e h = refl
same_bytes_sound (x ∷ xs) [] e h = absurd (omega (arith, e))
same_bytes_sound [] (y ∷ ys) e h = absurd (omega (arith, e))
same_bytes_sound (x ∷ xs) (y ∷ ys) e h = elim (Bool-cases (x == y)) [
  | inl same ↦
      ap₂ ◌∷◌ ((==_iff x y).0 same) (same_bytes_sound xs ys (omega (arith, e)) (ground (arith, h)))
  | inr differ ↦ absurd (ground (arith, h, differ))
]

same_bytes_refl : (xs : List ℕ) → same_bytes xs xs ≡ true
unfolding same_bytes
same_bytes_refl [] = refl
same_bytes_refl (x ∷ xs) = let e : (x == x) ≡ true = ground arith in rw (e, same_bytes_refl xs)

ends_with_fits :
    (str suffix : List ℕ)
    → length suffix ≤ length str
    → str_ends_with str suffix ≡ same_bytes (drop (length str - length suffix) str) suffix
unfolding str_ends_with
ends_with_fits str suffix fits = ground (arith, fits)

ends_with_short :
    (str suffix : List ℕ) → length str < length suffix → str_ends_with str suffix ≡ false
unfolding str_ends_with
ends_with_short str suffix short = ground (arith, short)

ends_with_append : (front suffix : List ℕ) → str_ends_with (front ++ suffix) suffix ≡ true
ends_with_append front suffix =
    let sum : length (front ++ suffix) ≡ length front + length suffix =
      length-append front suffix in
    let n : length (front ++ suffix) - length suffix ≡ length front + 0 = omega (arith, sum) in
    ends_with_fits (front ++ suffix) suffix (omega (arith, sum))
    ∙ ap (λ (t : ℕ). same_bytes (drop t (front ++ suffix)) suffix) n
    ∙ ap (λ t. same_bytes t suffix) (drop-append (length front) 0 front suffix refl)
    ∙ same_bytes_refl suffix

-- `str_ends_with` returns true exactly where the string is some characters and then the suffix.
pub str_ends_with_iff :
    (str suffix : List ℕ)
    → (str_ends_with str suffix ≡ true) ↔ ((front : List ℕ) × (str ≡ front ++ suffix))
str_ends_with_iff str suffix = (
  (λ h. elim (dec_lt (length str) (length suffix)) [
    | yes short ↦ absurd (ground (arith, h, ends_with_short str suffix short))
    | no fits ↦
        let n : ℕ = length str - length suffix in
        (
          take n str,
          sym (take-append-drop n str)
              ∙ ap (λ t. take n str ++ t)
                  (same_bytes_sound (drop n str) suffix (omega (arith, fits, length-drop n str))
                    (sym (ends_with_fits str suffix (omega (arith, fits))) ∙ h)),
        )
  ]),
  (λ r. rw r.1 (ends_with_append r.0 suffix)),
)

-- `str_ltrim` leaves out some characters of white space at the front, and what it returns does not
-- start with one.
pub str_ltrim-trims :
    (str : List ℕ)
    → ((front : List ℕ) × All (λ c. is_space c ≡ true) front × (str ≡ front ++ str_ltrim str))
      × ((c : ℕ) (rest : List ℕ) → str_ltrim str ≡ c ∷ rest → is_space c ≡ false)
unfolding str_ltrim
str_ltrim-trims [] = (([], omega arith, refl), λ c rest e. absurd (omega (arith, ap length e)))
str_ltrim-trims (c ∷ str) = elim (Bool-cases (is_space c)) [
  | inl space ↦
      let (trimmed, starts) = str_ltrim-trims str in
      rw space ((c ∷ trimmed.0, (space, trimmed.1), ap (λ t. c ∷ t) trimmed.2), starts)
  | inr other ↦
      rw other (([], omega arith, refl), λ d rest e. rw (sym (ap (λ t. get_or t 0 0) e)) other)
]
