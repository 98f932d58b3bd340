-- ===== src/PropId/Examples.antt =====
-- Tests and witnesses for src/prop_id.c.
use cstone.Prelude.{◌≡◌, refl, true, false, ◌&&◌}
use cstone.PropFlags.{prop_field, prop_mask}
use cstone.PropId.{
  prop_match, prop_get_mask, masked_part, prop_has_mask, has_mask_loop, prop_is_valid, valid_levels,
}
use cstone.PropId.Match.{field_matches, prop_match-fields}
use cstone.PropId.Valid.{prop_is_valid-prop_has_mask}

-- The mask covers P3 and P4.
prefix_matches : prop_match 0x01020304 0x0102FFFF ≡ true
unfolding prop_match prop_get_mask masked_part
prefix_matches = refl

other_prefix : prop_match 0x01030304 0x0102FFFF ≡ false
unfolding prop_match prop_get_mask masked_part
other_prefix = refl

masked : prop_has_mask 0x0102FF04 ≡ true
unfolding prop_has_mask has_mask_loop
masked = refl

-- An array field takes any index but 255.
valid_array : prop_is_valid 0x01820004 false ≡ true
unfolding prop_is_valid valid_levels prop_field prop_mask
valid_array = refl

reserved : prop_is_valid 0x01027F04 false ≡ false
unfolding prop_is_valid valid_levels prop_field prop_mask
reserved = refl

prop_match-fields_example : prop_match 0x01020304 0x0102FF04 ≡ (
    ((field_matches 0x01020304 0x0102FF04 1 && field_matches 0x01020304 0x0102FF04 2)
      && field_matches 0x01020304 0x0102FF04 3)
    && field_matches 0x01020304 0x0102FF04 4)
prop_match-fields_example = prop_match-fields 0x01020304 0x0102FF04

prop_is_valid-prop_has_mask_example : prop_has_mask 0x01820004 ≡ false
prop_is_valid-prop_has_mask_example = prop_is_valid-prop_has_mask 0x01820004 valid_array
