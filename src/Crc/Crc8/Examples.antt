-- ===== src/Crc/Crc8/Examples.antt =====
-- The check value of the codes' catalogue, the CRC of the digits 1 to 9, by every form of CRC-8, and the
-- theorems at those bytes.
use cstone.Prelude.{ℕ, ◌≡◌, refl, List, [], ◌∷◌, Bytes, arith}
use cstone.Crc.Crc8.{
  init, shift_bit, shift_bits, update_serial_block, finish, table_small, update_small,
  update_small_block, table, update, update_block,
}

abbrev digits : List ℕ
digits = 0x31 ∷ 0x32 ∷ 0x33 ∷ 0x34 ∷ 0x35 ∷ 0x36 ∷ 0x37 ∷ 0x38 ∷ 0x39 ∷ []

digits-Bytes : Bytes digits
digits-Bytes = omega arith

check_value :
    (finish (update_serial_block init digits) ≡ 0xf7)
    × (finish (update_small_block init digits) ≡ 0xf7)
    × (finish (update_block init digits) ≡ 0xf7)
unfolding finish init shift_bit shift_bits update_serial_block table_small update_small
    update_small_block table update update_block
check_value = (refl, refl, refl)
