-- ===== src/PropId.antt =====
-- src/prop_id.c: the tests on property identifiers, with the macros of include/cstone/prop_id.h.
pub mod Match
pub mod Valid
mod Examples
use cstone.Prelude.{
  ℕ, zero, suc, ◌+◌, ◌-◌, ◌*◌, ◌^◌, ◌/◌, ◌%◌, Bool, true, false, not, ◌&&◌, ◌||◌, ◌==◌,
  if◌then◌else◌, u8, u32, bit_and, bit_or, ◌<<<◌, ◌>>>◌,
}
use cstone.PropFlags.{prop_field}

-- `P1_MSK` to `P4_MSK`: a field of ones says that any value matches.
abbrev pub p1_msk : ℕ
p1_msk = 0xFF000000

abbrev pub p2_msk : ℕ
p2_msk = 0x00FF0000

abbrev pub p3_msk : ℕ
p3_msk = 0x0000FF00

abbrev pub p4_msk : ℕ
p4_msk = 0x000000FF

-- One operand of `PROP_GET_MASK`, and the macro. `~` is the complement in 32 bits.
unfoldable pub masked_part : ℕ → ℕ → ℕ
masked_part p msk = if bit_and p msk == msk then msk else 0

unfoldable pub prop_get_mask : ℕ → ℕ
prop_get_mask p =
    let p1 = masked_part p p1_msk in
    let p2 = masked_part p p2_msk in
    let p3 = masked_part p p3_msk in
    2 ^ 32 - 1 - bit_or (bit_or (bit_or p1 p2) p3) (masked_part p p4_msk)

-- `prop_match`
unfoldable pub prop_match : ℕ → ℕ → Bool
prop_match prop masked_prop =
    let mask = prop_get_mask masked_prop in bit_and prop mask == bit_and masked_prop mask

-- The loop of `prop_has_mask`, which shifts the mask until nothing of it is left.
unfoldable pub has_mask_loop : ℕ → ℕ → ℕ → Bool
has_mask_loop zero prop mask = false
has_mask_loop (suc fuel) prop mask =
    let rest = has_mask_loop fuel prop (mask >>> 8) in
    if mask == 0 then false else if bit_and prop mask == mask then true else rest

unfoldable pub prop_has_mask : ℕ → Bool
prop_has_mask prop = has_mask_loop 5 prop 0xFF000000

-- The levels of `prop_is_valid` from `level` on, with as many rounds as there are levels left.
unfoldable pub valid_levels : ℕ → ℕ → ℕ → Bool → Bool → Bool
valid_levels zero prop level allow_mask prev_array = true
valid_levels (suc left) prop level allow_mask prev_array =
    let field = u8 (prop_field prop level) in
    let plain = valid_levels left prop (level + 1) allow_mask false in
    let array = valid_levels left prop (level + 1) allow_mask true in
    if prev_array
    then if (field == 0xFF) && not allow_mask then false else plain
    else if not (bit_and field 0x80 == 0)
    then if field == 0xFF
      then if not allow_mask then false else plain
      else if bit_and field 0x7F == 0
      then false
      else array
    else if (field == 0) || (field == 0x7F)
    then false
    else plain

unfoldable pub prop_is_valid : ℕ → Bool → Bool
prop_is_valid prop allow_mask = valid_levels 4 prop 1 allow_mask false
