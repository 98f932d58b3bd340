-- ===== src/Crc/Crc16/Examples.antt =====
-- The check value of the codes' catalogue, the CRC of the digits 1 to 9, by every form of CRC-16, and the
-- theorems at those bytes.
use cstone.Prelude.{ℕ, ◌≡◌, ◌≢◌, refl, List, [], ◌∷◌, Bytes, arith}
use cstone.Crc.Crc16.{
  init, shift_bit, shift_bits, update_serial_block, finish, table_small, update_small,
  update_small_block, table, update, update_block,
}
use cstone.Crc.Crc16.Laws.{update_block16-eq}
use cstone.Crc.Crc16.Detect.{update_block16_detects}

abbrev digits : List ℕ
digits = 0x31 ∷ 0x32 ∷ 0x33 ∷ 0x34 ∷ 0x35 ∷ 0x36 ∷ 0x37 ∷ 0x38 ∷ 0x39 ∷ []

digits-Bytes : Bytes digits
digits-Bytes = omega arith

check_value :
    (finish (update_serial_block init digits) ≡ 0xaee7)
    × (finish (update_small_block init digits) ≡ 0xaee7)
    × (finish (update_block init digits) ≡ 0xaee7)
unfolding finish init shift_bit shift_bits update_serial_block table_small update_small
    update_small_block table update update_block
check_value = (refl, refl, refl)

update_block16-eq_example : update_block init digits ≡ update_serial_block init digits
unfolding init
update_block16-eq_example = update_block16-eq init digits (omega arith) digits-Bytes

update_block16_detects_example :
    finish (update_block init (0x31 ∷ 0x32 ∷ 0x33 ∷ 0x34 ∷ []))
    ≢ finish (update_block init (0x31 ∷ 0x32 ∷ 0x43 ∷ 0x34 ∷ []))
update_block16_detects_example =
    update_block16_detects (0x31 ∷ 0x32 ∷ []) (0x34 ∷ []) 0x33 0x43 (omega arith) (omega arith)
      (omega arith)
