-- ===== src/Glob.antt =====
-- src/util/glob.c: matching of glob patterns. Strings are lists of the characters before the
-- terminator, which are unsigned, as on ARM. A set of characters is the test for its members.
pub mod Spans
pub mod Ranges
pub mod Sound
pub mod Shorter
pub mod Progress
pub mod Below
pub mod Ends
mod Examples
use cstone.Prelude.{
  ℕ, zero, suc, Bool, true, false, not, ◌&&◌, ◌||◌, Option, none, some, List, [], ◌∷◌, ltb, leb,
  ◌==◌, if◌then◌else◌, drop, ◌+◌, u8,
}

pub char_match : ℕ → List ℕ → Bool
char_match ch [] = false
char_match ch (c ∷ match_set) = c == ch || char_match ch match_set

pub add_to_set : ℕ → (ℕ → Bool) → ℕ → Bool
add_to_set c set ch = ch == c || set ch

-- The loop that adds all characters of a span, on fuel. The counter is a `char` and wraps round.
pub span_loop : ℕ → ℕ → ℕ → (ℕ → Bool) → Option (ℕ → Bool)
unfolding add_to_set
span_loop zero ch end_ch set = none
span_loop (suc fuel) ch end_ch set =
    let rest = span_loop fuel (u8 (ch + 1)) end_ch (add_to_set ch set) in
    if leb ch end_ch then rest else some set

-- One round for each character and the last test. A span that needs more never ends.
abbrev pub span_rounds : ℕ
span_rounds = 257

-- The scan of a range from behind `[` or `!`: the set, and the pattern behind the position that is
-- returned. That is nothing where the position is the terminator. The outer option is the fuel of
-- the spans.
pub range_loop : List ℕ → (ℕ → Bool) → Option ((ℕ → Bool) × Option (List ℕ))
unfolding add_to_set span_loop
range_loop [] set = some (set, none)
range_loop (c ∷ []) set = if c == 0x5d then some (set, some []) else some (add_to_set c set, none)
range_loop (c ∷ d ∷ []) set =
    let rest = range_loop (d ∷ []) (add_to_set c set) in
    if c == 0x5d then some (set, some (d ∷ [])) else if d == 0x2d then some (set, none) else rest
range_loop (c ∷ d ∷ e ∷ pat) set =
    let behind : Option ((ℕ → Bool) × Option (List ℕ)) = elim (span_loop span_rounds c e set) [
      | none ↦ none
      | some set' ↦ range_loop pat set'
    ] in
    let rest = range_loop (d ∷ e ∷ pat) (add_to_set c set) in
    if c == 0x5d
    then some (set, some (d ∷ e ∷ pat))
    else if d == 0x2d
    then if e == 0x5d then some (set, some pat) else behind
    else rest

-- The last step of `parse_range_def`, for a range with `!`.
pub inverted : Option ((ℕ → Bool) × Option (List ℕ)) → Option ((ℕ → Bool) × Option (List ℕ))
inverted none = none
inverted (some (set, rest)) = some ((λ ch. not (set ch)), rest)

-- `parse_range_def`, with the pattern behind `[`.
pub parse_range_def : List ℕ → Option ((ℕ → Bool) × Option (List ℕ))
unfolding range_loop inverted
parse_range_def [] = range_loop [] (λ ch. false)
parse_range_def (c ∷ pat) =
    if c == 0x21
    then inverted (range_loop pat (λ ch. false))
    else range_loop (c ∷ pat) (λ ch. false)

-- What one round of the loop of `glob_match` leads to: the result, the next positions with the last
-- star, a position behind the terminator of the string or the pattern, where C code has no meaning, or
-- a span whose loop does not end.
pub data Step : Type 0 where
  done : Bool → Step
  past_end : Step
  endless : Step
  next : List ℕ → List ℕ → Option (List ℕ × List ℕ) → Step

-- After a mismatch: back to the last star, if the character may be skipped.
pub recover : List ℕ → List ℕ → Option (List ℕ × List ℕ) → Step
unfolding char_match
recover dir str none = done false
recover dir [] (some star) = done false
recover dir (s ∷ str) (some star) =
    if not (char_match s dir) then next star.0 star.1 (some star) else done false

-- The case of a range, for the character of the string.
pub range_step :
    List ℕ → List ℕ → List ℕ → Option (List ℕ × List ℕ) → (ℕ → Bool) × Option (List ℕ) → Step
unfolding recover
range_step dir pat [] star (set, rest) = if set 0 then past_end else recover dir [] star
range_step dir pat (s ∷ str) star (set, none) =
    if set s then past_end else recover dir (s ∷ str) star
range_step dir pat (s ∷ str) star (set, some rest) =
    if set s then next rest str star else recover dir (s ∷ str) star

-- The case of `?`.
pub any_step : List ℕ → List ℕ → List ℕ → Option (List ℕ × List ℕ) → Step
unfolding recover char_match
any_step dir pat [] star = recover dir [] star
any_step dir pat (s ∷ str) star =
    if not (char_match s dir) then next pat str star else recover dir (s ∷ str) star

-- The case of a character that stands for itself.
pub literal_step : List ℕ → ℕ → List ℕ → List ℕ → Option (List ℕ × List ℕ) → Step
unfolding recover
literal_step dir p pat [] star = recover dir [] star
literal_step dir p pat (s ∷ str) star =
    if s == p then next pat str star else recover dir (s ∷ str) star

pub glob_step : List ℕ → List ℕ → List ℕ → Option (List ℕ × List ℕ) → Step
unfolding recover range_step any_step literal_step parse_range_def
glob_step dir [] [] star = done true
glob_step dir [] (s ∷ str) star = recover dir (s ∷ str) star
glob_step dir (p ∷ pat) str star =
    if p == 0x2a
    then next pat str (some (p ∷ pat, drop 1 str))
    else if p == 0x3f
    then any_step dir pat str star
    else if p == 0x5b
    then elim (parse_range_def pat) [
      | none ↦ endless
      | some range ↦ range_step dir pat str star range
    ]
    else literal_step dir p pat str star

-- The loop, on fuel. `some none` means that it left a string. In a span that does not end it needs more
-- than any fuel.
pub glob_loop : ℕ → List ℕ → List ℕ → List ℕ → Option (List ℕ × List ℕ) → Option (Option Bool)
unfolding glob_step
glob_loop zero dir pat str star = none
glob_loop (suc fuel) dir pat str star = elim (glob_step dir pat str star) [
  | done result ↦ some (some result)
  | past_end ↦ some none
  | endless ↦ none
  | next pat' str' star' ↦ glob_loop fuel dir pat' str' star'
]

pub glob_match : ℕ → List ℕ → List ℕ → List ℕ → Option (Option Bool)
unfolding glob_loop
glob_match fuel pattern str dir_separators = glob_loop fuel dir_separators pattern str none

-- Whether `strcspn` of "*?[" is not the length.
pub is_glob : List ℕ → Bool
is_glob [] = false
is_glob (c ∷ str) = (c == 0x2a || c == 0x3f || c == 0x5b) || is_glob str
