-- ===== src/Glob/Ranges.antt =====
-- src/util/glob.c: what a range is, from its text alone, and that `parse_range_def` reads it so.
use cstone.Prelude.{
  ℕ, ◌≡◌, ◌≢◌, refl, ap, ◌∙◌, Bool, true, false, ◌&&◌, ◌||◌, Option, none, some, List, [], ◌∷◌, leb,
  ◌==◌, Bool-cases, inl, inr, Option-cases, ==_iff, arith,
}
use cstone.Glob.{add_to_set, span_loop, span_rounds, range_loop, inverted, parse_range_def}
use cstone.Glob.Spans.{in_span, span_members}

unfoldable pub starts_with : ℕ → List ℕ → Bool
starts_with c [] = false
starts_with c (d ∷ pat) = d == c

-- The items of a range: the first and the last character of each, the text up to the closing bracket, and
-- what follows the bracket. A last item with no end of its span adds nothing.
pub data Items : List (ℕ × ℕ) → List ℕ → List ℕ → Type 0 where
  close : {rest : List ℕ} → Items [] (0x5d ∷ rest) rest
  open_span : {rest : List ℕ} (c : ℕ) → c ≢ 0x5d → Items [] (c ∷ 0x2d ∷ 0x5d ∷ rest) rest
  single :
      {xs : List (ℕ × ℕ)} {pat rest : List ℕ} (c : ℕ)
      → c ≢ 0x5d
      → starts_with 0x2d pat ≡ false
      → Items xs pat rest
      → Items ((c, c) ∷ xs) (c ∷ pat) rest
  span :
      {xs : List (ℕ × ℕ)} {pat rest : List ℕ} (c e : ℕ)
      → c ≢ 0x5d
      → e ≢ 0x5d
      → Items xs pat rest
      → Items ((c, e) ∷ xs) (c ∷ 0x2d ∷ e ∷ pat) rest

unfoldable pub in_items : List (ℕ × ℕ) → ℕ → Bool
in_items [] ch = false
in_items (x ∷ xs) ch = in_span x.0 x.1 ch || in_items xs ch

-- The text behind `[` takes the character, and this pattern follows the range: one of the items has the
-- character, or with `!` none has.
pub data TakesChar (s : ℕ) : List ℕ → List ℕ → Type 0 where
  among :
      {xs : List (ℕ × ℕ)} {pat rest : List ℕ}
      → starts_with 0x21 pat ≡ false
      → Items xs pat rest
      → in_items xs s ≡ true
      → TakesChar s pat rest
  outside :
      {xs : List (ℕ × ℕ)} {pat rest : List ℕ}
      → Items xs pat rest
      → in_items xs s ≡ false
      → TakesChar s (0x21 ∷ pat) rest

-- The set that the scan gives has the items and what it had before.
Describes : (ℕ → Bool) → List ℕ → Option ((ℕ → Bool) × Option (List ℕ)) → Type 0
Describes set pat none = Unit
Describes set pat (some (set', none)) = Unit
Describes set pat (some (set', some rest)) =
    (xs : List (ℕ × ℕ)) × Items xs pat rest × ((ch : ℕ) → set' ch ≡ (in_items xs ch || set ch))

or_swap : (a b c : Bool) → (b || (a || c)) ≡ ((a || b) || c)
or_swap true true c = refl
or_swap true false c = refl
or_swap false b c = refl

with_item :
    (a e : ℕ) (set added : ℕ → Bool) (pat pat' : List ℕ) (r : Option ((ℕ → Bool) × Option (List ℕ)))
    → ((ch : ℕ) → added ch ≡ (in_span a e ch || set ch))
    → ((xs : List (ℕ × ℕ)) (rest : List ℕ) → Items xs pat rest → Items ((a, e) ∷ xs) pat' rest)
    → Describes added pat r
    → Describes set pat' r
unfolding Describes in_items
with_item a e set added pat pat' none same item d = tt
with_item a e set added pat pat' (some (set', none)) same item d = tt
with_item a e set added pat pat' (some (set', some rest)) same item (xs, items, members) = (
  (a, e) ∷ xs,
  item xs rest items,
  λ ch.
      members ch
      ∙ ap (λ t. in_items xs ch || t) (same ch)
      ∙ or_swap (in_span a e ch) (in_items xs ch) (set ch),
)

one_char : (c ch : ℕ) (set : ℕ → Bool) → add_to_set c set ch ≡ (in_span c c ch || set ch)
unfolding add_to_set in_span
one_char c ch set =
    let same : (ch == c) ≡ (leb c ch && leb ch c) = ground arith in ap (λ t. t || set ch) same

not_end : (c : ℕ) → (c == 0x5d) ≡ false → c ≢ 0x5d
not_end c e z = absurd (ground (arith, e, z))

closes :
    (c : ℕ) (pat : List ℕ) (set : ℕ → Bool)
    → (c == 0x5d) ≡ true
    → Describes set (c ∷ pat) (some (set, some pat))
unfolding Describes in_items
closes c pat set e = rw ((==_iff c 0x5d).0 e) ([], close, λ ch. refl)

opens :
    (c d t : ℕ) (pat : List ℕ) (set : ℕ → Bool)
    → (c == 0x5d) ≡ false
    → (d == 0x2d) ≡ true
    → (t == 0x5d) ≡ true
    → Describes set (c ∷ d ∷ t ∷ pat) (some (set, some pat))
unfolding Describes in_items
opens c d t pat set more dash end =
    rw ((==_iff d 0x2d).0 dash, (==_iff t 0x5d).0 end)
      ([], open_span c (not_end c more), λ ch. refl)

spans :
    (c d t : ℕ) (pat : List ℕ) (set added : ℕ → Bool) (r : Option ((ℕ → Bool) × Option (List ℕ)))
    → (c == 0x5d) ≡ false
    → (d == 0x2d) ≡ true
    → (t == 0x5d) ≡ false
    → span_loop span_rounds c t set ≡ some added
    → Describes added pat r
    → Describes set (c ∷ d ∷ t ∷ pat) r
spans c d t pat set added r more dash closed e describes = rw ((==_iff d 0x2d).0 dash) (
    with_item c t set added pat (c ∷ 0x2d ∷ t ∷ pat) r (span_members span_rounds c t set added e)
      (λ xs rest items. span c t (not_end c more) (not_end t closed) items) describes)

singles :
    (c : ℕ) (pat : List ℕ) (set : ℕ → Bool) (r : Option ((ℕ → Bool) × Option (List ℕ)))
    → (c == 0x5d) ≡ false
    → starts_with 0x2d pat ≡ false
    → Describes (add_to_set c set) pat r
    → Describes set (c ∷ pat) r
singles c pat set r more no_dash describes =
    with_item c c set (add_to_set c set) pat (c ∷ pat) r (λ ch. one_char c ch set)
      (λ xs rest items. single c (not_end c more) no_dash items) describes

range_loop-Describes : (pat : List ℕ) (set : ℕ → Bool) → Describes set pat (range_loop pat set)
unfolding range_loop Describes starts_with
range_loop-Describes [] set = tt
range_loop-Describes (c ∷ []) set = elim (Bool-cases (c == 0x5d)) [
  | inl end ↦ rw end (closes c [] set end)
  | inr more ↦ rw more tt
]
range_loop-Describes (c ∷ d ∷ []) set = elim (Bool-cases (c == 0x5d)) [
  | inl end ↦ rw end (closes c (d ∷ []) set end)
  | inr more ↦ elim (Bool-cases (d == 0x2d)) [
    | inl dash ↦ rw (more, dash) tt
    | inr no_dash ↦
        rw (more, no_dash)
          (singles c (d ∷ []) set (range_loop (d ∷ []) (add_to_set c set)) more no_dash
            (range_loop-Describes (d ∷ []) (add_to_set c set)))
  ]
]
range_loop-Describes (c ∷ d ∷ t ∷ pat) set = elim (Bool-cases (c == 0x5d)) [
  | inl end ↦ rw end (closes c (d ∷ t ∷ pat) set end)
  | inr more ↦ elim (Bool-cases (d == 0x2d)) [
    | inl dash ↦ elim (Bool-cases (t == 0x5d)) [
      | inl end ↦ rw (more, dash, end) (opens c d t pat set more dash end)
      | inr closed ↦ elim (Option-cases (span_loop span_rounds c t set)) [
        | inl endless ↦ rw (more, dash, closed, endless) tt
        | inr (added, e) ↦
            rw (more, dash, closed, e)
              (spans c d t pat set added (range_loop pat added) more dash closed e
                (range_loop-Describes pat added))
      ]
    ]
    | inr no_dash ↦
        rw (more, no_dash)
          (singles c (d ∷ t ∷ pat) set (range_loop (d ∷ t ∷ pat) (add_to_set c set)) more no_dash
            (range_loop-Describes (d ∷ t ∷ pat) (add_to_set c set)))
  ]
]

-- A character in the set of a range that ends is one that the text of the range takes.
unfoldable pub Accepts : List ℕ → Option ((ℕ → Bool) × Option (List ℕ)) → Type 0
Accepts pat none = Unit
Accepts pat (some (set, none)) = Unit
Accepts pat (some (set, some rest)) = (s : ℕ) → set s ≡ true → TakesChar s pat rest

plain_Accepts :
    (pat : List ℕ) (r : Option ((ℕ → Bool) × Option (List ℕ)))
    → starts_with 0x21 pat ≡ false
    → Describes (λ ch. false) pat r
    → Accepts pat r
unfolding Describes Accepts
plain_Accepts pat none plain d = tt
plain_Accepts pat (some (set, none)) plain d = tt
plain_Accepts pat (some (set, some rest)) plain (xs, items, members) =
    λ s member. among plain items (ground (arith, members s, member))

inverted-Accepts :
    (pat : List ℕ) (r : Option ((ℕ → Bool) × Option (List ℕ)))
    → Describes (λ ch. false) pat r
    → Accepts (0x21 ∷ pat) (inverted r)
unfolding Describes Accepts inverted
inverted-Accepts pat none d = tt
inverted-Accepts pat (some (set, none)) d = tt
inverted-Accepts pat (some (set, some rest)) (xs, items, members) =
    λ s member. outside items (ground (arith, members s, member))

pub parse_range_def-Accepts : (pat : List ℕ) → Accepts pat (parse_range_def pat)
unfolding parse_range_def starts_with
parse_range_def-Accepts [] =
    plain_Accepts [] (range_loop [] (λ ch. false)) refl (range_loop-Describes [] (λ ch. false))
parse_range_def-Accepts (c ∷ pat) = elim (Bool-cases (c == 0x21)) [
  | inl e ↦
      rw ((==_iff c 0x21).0 e) (
        inverted-Accepts pat (range_loop pat (λ ch. false))
          (range_loop-Describes pat (λ ch. false)))
  | inr plain ↦ rw plain (
      plain_Accepts (c ∷ pat) (range_loop (c ∷ pat) (λ ch. false)) plain
        (range_loop-Describes (c ∷ pat) (λ ch. false)))
]
