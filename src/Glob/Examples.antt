-- ===== src/Glob/Examples.antt =====
-- Matches of src/util/glob.c, and the theorems at them.
use cstone.Prelude.{ℕ, ◌≡◌, refl, Bool, true, Option, none, some, List, [], ◌∷◌, arith}
use cstone.Glob.{
  char_match, add_to_set, span_loop, inverted, range_loop, parse_range_def, recover, range_step,
  any_step, literal_step, glob_step, glob_loop, glob_match,
}
use cstone.Glob.Sound.{Matches, glob_match-Matches}
use cstone.Glob.Below.{Below}
use cstone.Glob.Ends.{rounds, glob_match-returns}

-- "a*[b-d]".
abbrev pattern : List ℕ
pattern = 0x61 ∷ 0x2a ∷ 0x5b ∷ 0x62 ∷ 0x2d ∷ 0x64 ∷ 0x5d ∷ []

-- "abxc".
abbrev text : List ℕ
text = 0x61 ∷ 0x62 ∷ 0x78 ∷ 0x63 ∷ []

abbrev slash : List ℕ
slash = 0x2f ∷ []

match-text : glob_match 20 pattern text slash ≡ some (some true)
unfolding glob_match glob_loop glob_step recover range_step any_step literal_step parse_range_def
    range_loop add_to_set span_loop inverted char_match
match-text = refl

-- The star of "*/c" takes the separator of "a/b/c".
match-separator :
    glob_match 30 (0x2a ∷ 0x2f ∷ 0x63 ∷ []) (0x61 ∷ 0x2f ∷ 0x62 ∷ 0x2f ∷ 0x63 ∷ []) slash
    ≡ some (some true)
unfolding glob_match glob_loop glob_step recover range_step any_step literal_step parse_range_def
    range_loop add_to_set span_loop inverted char_match
match-separator = refl

-- "[!a]" takes the terminator of the empty string, and the loop leaves the string.
match-past_end : glob_match 5 (0x5b ∷ 0x21 ∷ 0x61 ∷ 0x5d ∷ []) [] slash ≡ some none
unfolding glob_match glob_loop glob_step recover range_step any_step literal_step parse_range_def
    range_loop add_to_set span_loop inverted char_match
match-past_end = refl

glob_match-Matches_example : Matches slash pattern text
glob_match-Matches_example = glob_match-Matches 20 pattern text slash match-text

low : Below pattern
low = (
  omega arith,
  (omega arith, (omega arith, (omega arith, (omega arith, (omega arith, (omega arith, tt)))))),
)

-- The span "a-\xff" never ends.
endless-span : glob_match 5 (0x5b ∷ 0x61 ∷ 0x2d ∷ 255 ∷ 0x5d ∷ []) text slash ≡ none
unfolding glob_match glob_loop glob_step recover range_step any_step literal_step parse_range_def
    range_loop add_to_set span_loop inverted char_match
endless-span = refl

glob_match-returns_example :
    (result : Option Bool) × (glob_match (rounds pattern text) pattern text slash ≡ some result)
glob_match-returns_example = glob_match-returns pattern text slash low
