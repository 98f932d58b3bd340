-- ===== src/Strings/Ops.antt =====
-- src/util/string_ops.c: tests, conversions and cuts of strings. Characters are those of ASCII, with
-- the classes of the C locale.
pub mod Chars
pub mod Bools
pub mod Cuts
pub mod Wrap
pub mod Fixed
mod Examples
use cstone.Prelude.{
  ℕ, zero, suc, ◌+◌, ◌-◌, ◌*◌, ◌/◌, ◌%◌, ◌^◌, Bool, true, false, not, ◌&&◌, ◌||◌, Option, none,
  some, List, [], ◌∷◌, ltb, leb, ◌==◌, if◌then◌else◌, length, take, drop, get_or, u32,
}
use cstone.Prelude.Ints.{ℤ, pos, negsuc, ◌⊖◌}
use mathlib.Core.Option

-- `isspace`, `tolower`, `toupper` and `ispunct` of the C library.
pub is_space : ℕ → Bool
is_space c = (leb 9 c && leb c 13) || c == 32

pub is_punct : ℕ → Bool
is_punct c =
    (leb 33 c && leb c 47)
    || (leb 58 c && leb c 64)
    || (leb 91 c && leb c 96)
    || (leb 123 c && leb c 126)

pub tolower : ℕ → ℕ
tolower c = if leb 65 c && leb c 90 then c + 32 else c

pub toupper : ℕ → ℕ
toupper c = if leb 97 c && leb c 122 then c - 32 else c

pub stricmp : List ℕ → List ℕ → ℤ
unfolding tolower
stricmp [] [] = tolower 0 ⊖ tolower 0
stricmp [] (b ∷ str2) = tolower 0 ⊖ tolower b
stricmp (a ∷ str1) [] = tolower a ⊖ tolower 0
stricmp (a ∷ str1) (b ∷ str2) =
    let rest = stricmp str1 str2 in if tolower a == tolower b then rest else tolower a ⊖ tolower b

-- "1", "y", "t", "on", "yes" and "true".
pub bool_true : List (List ℕ)
bool_true =
    (0x31 ∷ [])
    ∷ (0x79 ∷ [])
    ∷ (0x74 ∷ [])
    ∷ (0x6f ∷ 0x6e ∷ [])
    ∷ (0x79 ∷ 0x65 ∷ 0x73 ∷ [])
    ∷ (0x74 ∷ 0x72 ∷ 0x75 ∷ 0x65 ∷ [])
    ∷ []

-- "0", "n", "f", "off", "no" and "false".
pub bool_false : List (List ℕ)
bool_false =
    (0x30 ∷ [])
    ∷ (0x6e ∷ [])
    ∷ (0x66 ∷ [])
    ∷ (0x6f ∷ 0x66 ∷ 0x66 ∷ [])
    ∷ (0x6e ∷ 0x6f ∷ [])
    ∷ (0x66 ∷ 0x61 ∷ 0x6c ∷ 0x73 ∷ 0x65 ∷ [])
    ∷ []

-- `!` of an integer.
pub is_zero : ℤ → Bool
is_zero (pos n) = n == 0
is_zero (negsuc n) = false

-- The loop over a table of strings.
pub any_match : List (List ℕ) → List ℕ → Bool
unfolding stricmp is_zero
any_match [] value = false
any_match (entry ∷ table) value = is_zero (stricmp entry value) || any_match table value

-- The result, and what is stored through `bool_value`.
pub str_is_bool : List ℕ → Bool × Bool
unfolding any_match bool_true bool_false
str_is_bool value =
    if any_match bool_true value
    then (true, true)
    else if any_match bool_false value
    then (true, false)
    else (false, false)

pub str_to_bool : List ℕ → Bool
unfolding any_match bool_true
str_to_bool value = any_match bool_true value

-- The loops of `str_to_upper` and `str_to_lower`: the length, and the string after the call.
pub convert_loop : (ℕ → ℕ) → ℕ → List ℕ → ℕ × List ℕ
convert_loop convert len [] = (len, [])
convert_loop convert len (c ∷ str) =
    let (len', str') = convert_loop convert (len + 1) str in (len', convert c ∷ str')

pub str_to_upper : List ℕ → ℕ × List ℕ
unfolding convert_loop toupper
str_to_upper str = convert_loop toupper 0 str

pub str_to_lower : List ℕ → ℕ × List ℕ
unfolding convert_loop tolower
str_to_lower str = convert_loop tolower 0 str

-- `!memcmp` of as many bytes as the second list has.
pub same_bytes : List ℕ → List ℕ → Bool
same_bytes xs [] = true
same_bytes [] (y ∷ ys) = false
same_bytes (x ∷ xs) (y ∷ ys) = x == y && same_bytes xs ys

pub str_ends_with : List ℕ → List ℕ → Bool
unfolding same_bytes
str_ends_with str suffix =
    if ltb (length str) (length suffix)
    then false
    else same_bytes (drop (length str - length suffix) str) suffix

-- The rest of the string from the position that is returned.
pub str_ltrim : List ℕ → List ℕ
unfolding is_space
str_ltrim [] = []
str_ltrim (c ∷ str) = let rest = str_ltrim str in if is_space c then rest else c ∷ str

pub is_break : Bool → ℕ → Bool
unfolding is_space is_punct
is_break space_only c = is_space c || (not space_only && is_punct c)

-- The loop of `str_break`, from index `i` with `str` from there on: the index where it ends, whether
-- the string ends there, and the last place to break (`none` for -1).
pub break_loop : Bool → ℕ → ℕ → Option ℕ → List ℕ → ℕ × Bool × Option ℕ
unfolding is_break
break_loop space_only columns i last_break [] = (i, true, last_break)
break_loop space_only columns i last_break (c ∷ str) =
    let rest =
      break_loop space_only columns (i + 1) (if is_break space_only c then some i else last_break)
        str in
    if leb i columns then rest else (i, false, last_break)

pub or_columns : ℕ → Option ℕ → ℕ
or_columns columns none = columns
or_columns columns (some last_break) = last_break

pub str_break : List ℕ → ℕ → Bool → ℕ
unfolding break_loop or_columns
str_break str columns space_only =
    let (i, ended, last_break) = break_loop space_only columns 0 none str in
    if ended then i else or_columns columns last_break

-- The loop of `str_print_wrapped`, on fuel: the lines that it prints behind the indent.
pub wrap_loop : ℕ → List ℕ → ℕ → Bool → Option (List (List ℕ))
unfolding str_ltrim str_break
wrap_loop zero str width space_only = none
wrap_loop (suc fuel) [] width space_only = some []
wrap_loop (suc fuel) (c ∷ str) width space_only =
    let start = str_ltrim (c ∷ str) in
    let line_len = str_break start width space_only in
    Option.map (λ lines. take line_len start ∷ lines)
      (wrap_loop fuel (drop line_len start) width space_only)

pub str_print_wrapped : ℕ → List ℕ → ℕ → ℕ → Bool → Option (List (List ℕ))
unfolding wrap_loop
str_print_wrapped fuel str columns indent space_only =
    if columns == 0 || leb columns indent
    then some []
    else wrap_loop fuel str (columns - indent) space_only

pub is_digit : ℕ → Bool
is_digit c = leb 0x30 c && leb c 0x39

-- The loops for the digits before and behind the point: the value, the number of digits, and the rest.
-- The values of 9 digits fit an `int`.
pub digits_loop : ℕ → ℕ → ℕ → List ℕ → ℕ × ℕ × List ℕ
unfolding is_digit
digits_loop max_digits val digits [] = (val, digits, [])
digits_loop max_digits val digits (c ∷ str) =
    let rest = digits_loop max_digits (val * 10 + (c - 0x30)) (digits + 1) str in
    if ltb digits max_digits && is_digit c then rest else (val, digits, c ∷ str)

pub sign : List ℕ → Bool × List ℕ
sign [] = (false, [])
sign (c ∷ str) =
    if c == 0x2d then (true, str) else if c == 0x2b then (false, str) else (false, c ∷ str)

-- The fraction: its value, its number of digits, and the rest.
pub fraction : List ℕ → ℕ × ℕ × List ℕ
unfolding digits_loop
fraction [] = (0, 0, [])
fraction (c ∷ str) = if c == 0x2e then digits_loop 7 0 0 str else (0, 0, c ∷ str)

-- The bits of an `int` as a signed number.
pub to_int : ℕ → ℤ
to_int x = if ltb x (2 ^ 31) then pos x else negsuc (2 ^ 32 - 1 - x)

-- The conversion at the end, in `unsigned` arithmetic as `fp_scale` asks for.
pub scale_fixed : Bool → ℕ → ℕ → ℕ → ℕ → ℤ
unfolding to_int
scale_fixed neg int_val frac_val b10_scale fp_scale =
    let int_val' = u32 (int_val * fp_scale) in
    let sum =
      (if ltb 0 frac_val
        then u32 (int_val' + u32 (frac_val * fp_scale) / b10_scale)
        else int_val') in
    to_int (if neg then u32 (2 ^ 32 - sum) else sum)

-- The result, and the rest of the string from `endptr` on.
pub str_to_fixed : List ℕ → ℕ → ℤ × List ℕ
unfolding str_ltrim sign digits_loop fraction scale_fixed
str_to_fixed str fp_scale =
    let (neg, unsigned_str) = sign (str_ltrim str) in
    let (int_val, int_digits, point) = digits_loop 9 0 0 unsigned_str in
    let (frac_val, frac_digits, end) = fraction point in
    (scale_fixed neg int_val frac_val (10 ^ frac_digits) fp_scale, end)
