-- ===== src/Strings/Ops/Examples.antt =====
-- Conversions and cuts of src/util/string_ops.c on short strings, and the theorems at them.
use cstone.Prelude.{ℕ, ◌+◌, ◌*◌, ◌/◌, ◌≡◌, refl, true, false, some, List, [], ◌∷◌, arith}
use cstone.Prelude.Ints.{negsuc, ◌⊖◌}
use cstone.Strings.Ops.{
  is_space, is_punct, tolower, stricmp, bool_true, bool_false, is_zero, any_match, str_is_bool,
  str_to_bool, same_bytes, str_ends_with, str_ltrim, is_break, break_loop, or_columns, str_break,
  str_print_wrapped, is_digit, digits_loop, sign, fraction, to_int, scale_fixed, str_to_fixed,
}
use cstone.Strings.Ops.Wrap.{str_print_wrapped-returns}
use cstone.Strings.Ops.Fixed.{decimal, text, signed, str_to_fixed-scaled, starts_digit}

-- "Yes".
abbrev yes_text : List ℕ
yes_text = 0x59 ∷ 0x65 ∷ 0x73 ∷ []

-- " ab cd".
abbrev words : List ℕ
words = 0x20 ∷ 0x61 ∷ 0x62 ∷ 0x20 ∷ 0x63 ∷ 0x64 ∷ []

-- "(aaaa".
abbrev stuck : List ℕ
stuck = 0x28 ∷ 0x61 ∷ 0x61 ∷ 0x61 ∷ 0x61 ∷ []

bools : (str_is_bool yes_text ≡ (true, true)) × (str_to_bool words ≡ false)
unfolding str_is_bool str_to_bool any_match stricmp is_zero bool_true bool_false tolower ◌⊖◌
bools = (refl, refl)

cuts :
    (str_ltrim words ≡ 0x61 ∷ 0x62 ∷ 0x20 ∷ 0x63 ∷ 0x64 ∷ [])
    × (str_ends_with yes_text (0x65 ∷ 0x73 ∷ []) ≡ true)
    × (str_break words 4 true ≡ 3)
    × (str_break words 5 true ≡ 6)
    × (str_break stuck 3 false ≡ 0)
unfolding str_ltrim str_ends_with same_bytes str_break break_loop or_columns is_break is_space
    is_punct
cuts = (refl, refl, refl, refl, refl)

-- "-12.5x" with a scale of 256.
fixed : str_to_fixed (0x2d ∷ 0x31 ∷ 0x32 ∷ 0x2e ∷ 0x35 ∷ 0x78 ∷ []) 256 ≡ (negsuc 3199, 0x78 ∷ [])
unfolding str_to_fixed str_ltrim sign digits_loop fraction scale_fixed to_int is_digit is_space
fixed = refl

str_print_wrapped-returns_example :
    (lines : List (List ℕ)) × (str_print_wrapped 7 words 4 0 true ≡ some lines)
str_print_wrapped-returns_example = str_print_wrapped-returns words 4 0

str_to_fixed-scaled_example :
    str_to_fixed (text true (0x31 ∷ 0x32 ∷ []) (0x35 ∷ []) (0x78 ∷ [])) 256
    ≡ (signed true (decimal (0x31 ∷ 0x32 ∷ []) * 256 + decimal (0x35 ∷ []) * 256 / 10), 0x78 ∷ [])
unfolding decimal is_digit starts_digit
str_to_fixed-scaled_example =
    str_to_fixed-scaled true (0x31 ∷ 0x32 ∷ []) (0x35 ∷ []) (0x78 ∷ []) 256 (refl, (refl, tt))
      (refl, tt) refl (omega arith) (omega arith) (omega arith) (omega arith)
