-- ===== src/PropFlags.antt =====
-- src/prop_flags.c: Boolean properties in a common set, and the field macros of
-- include/cstone/prop_id.h that it uses. A name is the list of its characters before the terminating 0;
-- the array of names that a caller gives has the length that the caller says.
pub mod Laws
pub mod Init
mod Examples
use cstone.Prelude.{
  ℕ, zero, suc, ◌+◌, ◌-◌, ◌*◌, ◌^◌, ◌/◌, ◌%◌, Bool, true, false, not, ◌&&◌, Option, none, some,
  List, [], ◌∷◌, ltb, leb, ◌==◌, if◌then◌else◌, get_or, get_elem?, set, take, replicate, length, u8,
  u32, bit_and, bit_or, ◌<<<◌, ◌>>>◌,
}

-- `PROP_MASK`, `PROP_FIELD`, `PROP_FIELD_IS_ARRAY`, `PROP_GET_INDEX` and `P3_ARR`
unfoldable pub prop_mask : ℕ → ℕ
prop_mask level = u32 (0xFF <<< (4 - level) * 8)

unfoldable pub prop_field : ℕ → ℕ → ℕ
prop_field p level = bit_and p (prop_mask level) >>> (4 - level) * 8

unfoldable pub prop_field_is_array : ℕ → Bool
prop_field_is_array p = not (bit_and p 0x80 == 0)

unfoldable pub prop_get_index : ℕ → ℕ → ℕ
prop_get_index p level = bit_and p (prop_mask (level + 1)) >>> (3 - level) * 8

unfoldable pub p3_arr : ℕ → ℕ
p3_arr index = bit_or (u32 (0x80 <<< 8)) (index <<< 0)

-- `FLAG_MASK`, the complement of `P4_MSK`
abbrev pub flag_mask : ℕ
flag_mask = 0xFFFFFF00

pub record PropFlags : Type 0 where
  pub prefix : ℕ
  pub index_names : Option (List (List ℕ))
  pub max_name_len : ℕ
  pub flags : List ℕ

-- The loop for the longest name.
unfoldable pub longest : List (List ℕ) → ℕ → ℕ
longest [] max_name_len = max_name_len
longest (name ∷ names) max_name_len =
    let name_len = length name in
    longest names (if ltb max_name_len name_len then name_len else max_name_len)

unfoldable pub name_length : Option (List (List ℕ)) → ℕ
name_length none = 0
name_length (some names) = longest names 0

unfoldable pub initial_flags : Option (List ℕ) → List ℕ
initial_flags none = replicate 32 0
initial_flags (some flag_values) = take 32 flag_values

-- `prop_flags_init`: whether it succeeds, and the set.
unfoldable pub prop_flags_init : ℕ → Option (List (List ℕ)) → Option (List ℕ) → Bool × PropFlags
prop_flags_init prefix index_names flag_values =
    if not (prop_field_is_array (prop_field prefix 3))
    then (
      false,
      record { prefix = 0; index_names = none; max_name_len = 0; flags = replicate 32 0 },
    )
    else (
      true,
      record {
        prefix = bit_and prefix flag_mask;
        index_names = index_names;
        max_name_len = name_length index_names;
        flags = initial_flags flag_values;
      },
    )

unfoldable pub prop_flags_get_all : PropFlags → List ℕ
prop_flags_get_all pf = take 32 pf.flags

unfoldable pub valid_flag_prop : PropFlags → ℕ → Bool
valid_flag_prop pf prop =
    prop_field_is_array (prop_field prop 3) && (bit_and prop flag_mask == pf.prefix)

unfoldable pub byte_mask : ℕ → ℕ
byte_mask index = u8 (1 <<< index % 8)

-- The byte with one bit set or cleared: `~` is the complement in 32 bits.
unfoldable pub set_bit : ℕ → ℕ → Bool → ℕ
set_bit byte mask value =
    if value then u8 (bit_or byte mask) else u8 (bit_and byte (2 ^ 32 - 1 - mask))

-- `prop_flags_set`: whether the flag is valid, and the set.
unfoldable pub prop_flags_set : PropFlags → ℕ → Bool → Bool × PropFlags
prop_flags_set pf prop value =
    if not (valid_flag_prop pf prop)
    then (false, pf)
    else let index = prop_get_index prop 3 in
      let byte = get_or pf.flags (index / 8) 0 in
      let byte' = set_bit byte (byte_mask index) value in
      (true, record pf { flags = set pf.flags (index / 8) byte' })

unfoldable pub prop_flags_get : PropFlags → ℕ → Bool
prop_flags_get pf prop =
    if not (valid_flag_prop pf prop)
    then false
    else let index = prop_get_index prop 3 in
      not (bit_and (get_or pf.flags (index / 8) 0) (byte_mask index) == 0)

-- `strcmp` answers 0
unfoldable pub same_name : List ℕ → List ℕ → Bool
same_name [] [] = true
same_name [] (d ∷ ds) = false
same_name (c ∷ cs) [] = false
same_name (c ∷ cs) (d ∷ ds) = (c == d) && same_name cs ds

-- The loop over the names from the index on. The result -1 is `none`.
unfoldable pub lookup_loop : List (List ℕ) → ℕ → List ℕ → Option ℕ
lookup_loop [] i flag_name = none
lookup_loop (name ∷ names) i flag_name =
    if same_name flag_name name then some i else lookup_loop names (i + 1) flag_name

unfoldable pub prop_flags_lookup_name : PropFlags → List ℕ → Option ℕ
prop_flags_lookup_name pf flag_name = elim pf.index_names [
  | none ↦ none
  | some names ↦ lookup_loop names 0 flag_name
]

unfoldable pub prop_flags_lookup_index : PropFlags → ℕ → Option (List ℕ)
prop_flags_lookup_index pf index = elim pf.index_names [
  | none ↦ none
  | some names ↦ get_elem? names index
]

unfoldable pub prop_flags_set_by_name : PropFlags → List ℕ → Bool → Bool × PropFlags
prop_flags_set_by_name pf flag_name value = elim (prop_flags_lookup_name pf flag_name) [
  | none ↦ (false, pf)
  | some flag ↦ prop_flags_set pf (bit_or pf.prefix (p3_arr (u8 flag))) value
]
