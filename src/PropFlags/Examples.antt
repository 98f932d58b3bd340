-- ===== src/PropFlags/Examples.antt =====
-- Tests and witnesses for src/prop_flags.c.
use cstone.Prelude.{
  ◌+◌, ◌≡◌, refl, true, false, ◌&&◌, Option, none, some, List, [], ◌∷◌, ◌==◌, ℕ, if◌then◌else◌,
  arith, bit_and,
}
use cstone.PropFlags.{
  PropFlags, prop_mask, prop_field, prop_field_is_array, prop_get_index, p3_arr, prop_flags_init,
  longest, name_length, initial_flags, valid_flag_prop, byte_mask, set_bit, prop_flags_set,
  prop_flags_get, prop_flags_get_all, prop_flags_set_by_name, prop_flags_lookup_name,
  prop_flags_lookup_index, lookup_loop, same_name, flag_mask,
}
use cstone.PropFlags.Laws.{IsFlags, prop_flags_get-set}
use cstone.PropFlags.Init.{prop_flags_init-clear, prop_flags_init-get_all}

abbrev prefix : ℕ
prefix = 0x01028100

abbrev names : Option (List (List ℕ))
names = some ((97 ∷ []) ∷ (98 ∷ 99 ∷ []) ∷ [])

abbrev blank : PropFlags
blank = (prop_flags_init prefix names none).1

blank-IsFlags : IsFlags blank
blank-IsFlags = (prop_flags_init-clear prefix names 0).1

by_name_reads :
    prop_flags_get (prop_flags_set_by_name blank (98 ∷ 99 ∷ []) true).1 (prefix + 1) ≡ true
unfolding prop_flags_set_by_name prop_flags_lookup_name lookup_loop same_name p3_arr prop_flags_set
    prop_flags_get valid_flag_prop prop_field prop_field_is_array prop_mask prop_get_index byte_mask
    set_bit prop_flags_init initial_flags
by_name_reads = refl

name_1 : prop_flags_lookup_index blank 1 ≡ some (98 ∷ 99 ∷ [])
unfolding prop_flags_lookup_index prop_flags_init prop_field prop_field_is_array prop_mask
name_1 = refl

width : blank.max_name_len ≡ 2
unfolding prop_flags_init prop_field prop_field_is_array prop_mask name_length longest
width = refl

is_array : prop_field_is_array (prop_field prefix 3) ≡ true
unfolding prop_field prop_field_is_array prop_mask
is_array = refl

same_prefix : blank.prefix ≡ bit_and prefix flag_mask
unfolding prop_flags_init prop_field prop_field_is_array prop_mask
same_prefix = refl

prop_flags_get-set_example :
    ((prop_flags_set blank 0x01028105 true).0 ≡ valid_flag_prop blank 0x01028105)
    × IsFlags (prop_flags_set blank 0x01028105 true).1
    × (prop_flags_get (prop_flags_set blank 0x01028105 true).1 0x01028105 ≡ (
        if valid_flag_prop blank 0x01028105 && 0x01028105 == 0x01028105
        then true
        else prop_flags_get blank 0x01028105))
prop_flags_get-set_example =
    prop_flags_get-set blank 0x01028105 0x01028105 true blank-IsFlags (omega arith) (omega arith)

prop_flags_init-clear_example :
    ((prop_flags_init prefix names none).0 ≡ prop_field_is_array (prop_field prefix 3))
    × IsFlags (prop_flags_init prefix names none).1
    × (prop_flags_get (prop_flags_init prefix names none).1 0x01028107 ≡ false)
prop_flags_init-clear_example = prop_flags_init-clear prefix names 0x01028107

prop_flags_init-get_all_example :
    prop_flags_get (prop_flags_init prefix names (some (prop_flags_get_all blank))).1 0x01028107
    ≡ prop_flags_get blank 0x01028107
prop_flags_init-get_all_example =
    prop_flags_init-get_all blank prefix names 0x01028107 blank-IsFlags is_array same_prefix
