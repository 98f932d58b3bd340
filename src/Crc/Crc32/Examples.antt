-- ===== src/Crc/Crc32/Examples.antt =====
-- The check value of the codes' catalogue, the CRC of the digits 1 to 9, by every form of CRC-32, and the
-- theorems at those bytes.
use cstone.Prelude.{ℕ, ◌≡◌, refl, List, [], ◌∷◌, Bytes, arith}
use mathlib.Core.Option
use cstone.Crc.Crc32.{
  init, shift_bit, shift_bits, update_serial_block, finish, table_small, update_small,
  update_small_block, update_small_stm32,
}
use cstone.Crc.Crc32.Laws.{update_small_block32-eq, update_small_stm32-eq, swap_words}

abbrev digits : List ℕ
digits = 0x31 ∷ 0x32 ∷ 0x33 ∷ 0x34 ∷ 0x35 ∷ 0x36 ∷ 0x37 ∷ 0x38 ∷ 0x39 ∷ []

digits-Bytes : Bytes digits
digits-Bytes = omega arith

check_value :
    (finish (update_serial_block init digits) ≡ 0x376e6e7)
    × (finish (update_small_block init digits) ≡ 0x376e6e7)
unfolding finish init shift_bit shift_bits update_serial_block table_small update_small
    update_small_block
check_value = (refl, refl)

update_small_block32-eq_example : update_small_block init digits ≡ update_serial_block init digits
unfolding init
update_small_block32-eq_example = update_small_block32-eq init digits (omega arith) digits-Bytes

update_small_stm32-eq_example :
    update_small_stm32 init (0x31 ∷ 0x32 ∷ 0x33 ∷ 0x34 ∷ [])
    ≡ Option.map (update_serial_block init) (swap_words (0x31 ∷ 0x32 ∷ 0x33 ∷ 0x34 ∷ []))
unfolding init
update_small_stm32-eq_example =
    update_small_stm32-eq init (0x31 ∷ 0x32 ∷ 0x33 ∷ 0x34 ∷ []) (omega arith) (omega arith)
