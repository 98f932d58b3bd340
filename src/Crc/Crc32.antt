-- ===== src/Crc/Crc32.antt =====
-- src/util/crc32.c: the bit-serial and the table-driven forms of CRC-32. A register is a number below
-- 2 ^ 32, and a cast to its type is written out. A block is the list of its `data_len` bytes.
pub mod Laws
pub mod Detect
mod Examples
use cstone.Prelude.{
  ℕ, zero, suc, ◌*◌, ◌/◌, ◌%◌, ◌^◌, bit_and, bit_xor, List, [], ◌∷◌, ◌==◌, if◌then◌else◌, get_or,
  u32, ◌<<<◌, ◌>>>◌, Option, some, none,
}

abbrev pub poly : ℕ
poly = 0x04c1_1db7

pub init : ℕ
init = 0xffffffff

-- The body of the inner loop.
pub shift_bit : ℕ → ℕ
shift_bit crc =
    if bit_and crc (1 <<< 31) == 0 then u32 (crc <<< 1) else u32 (bit_xor (crc <<< 1) poly)

pub shift_bits : ℕ → ℕ → ℕ
shift_bits zero crc = crc
shift_bits (suc n) crc = shift_bits n (shift_bit crc)

pub update_serial : ℕ → ℕ → ℕ
unfolding shift_bits
update_serial crc byte = shift_bits 8 (u32 (bit_xor crc (byte <<< 24)))

pub update_serial_block : ℕ → List ℕ → ℕ
update_serial_block crc [] = crc
update_serial_block crc (byte ∷ rest) =
    update_serial_block (shift_bits 8 (u32 (bit_xor crc (byte <<< 24)))) rest

pub finish : ℕ → ℕ
finish crc = crc

pub table_small : List ℕ
table_small =
    0x00000000 ∷ 0x04c11db7 ∷ 0x09823b6e ∷ 0x0d4326d9 ∷ 0x130476dc ∷ 0x17c56b6b ∷ 0x1a864db2
    ∷ 0x1e475005 ∷ 0x2608edb8 ∷ 0x22c9f00f ∷ 0x2f8ad6d6 ∷ 0x2b4bcb61 ∷ 0x350c9b64 ∷ 0x31cd86d3
    ∷ 0x3c8ea00a ∷ 0x384fbdbd ∷ []

-- The upper half of the byte, then the lower one.
pub update_small : ℕ → ℕ → ℕ
unfolding table_small
update_small crc byte =
    let ix = bit_xor (crc >>> 28) (byte >>> 4) in
    let high = u32 (bit_xor (get_or table_small (bit_and ix 0x0f) 0) (crc <<< 4)) in
    let ix' = bit_xor (high >>> 28) (byte >>> 0) in
    u32 (bit_xor (get_or table_small (bit_and ix' 0x0f) 0) (high <<< 4))

pub update_small_block : ℕ → List ℕ → ℕ
update_small_block crc [] = crc
update_small_block crc (byte ∷ rest) = update_small_block (update_small crc byte) rest

-- `crc32_update`, for a single byte.
pub update : ℕ → ℕ → ℕ
unfolding update_small
update crc byte = update_small crc byte

-- Four bytes are taken from the last to the first. `none` is a read past the end of the block, which
-- a length that is no multiple of 4 leads to, as `data_len -= 4` then wraps instead of ending.
pub update_small_stm32 : ℕ → List ℕ → Option ℕ
update_small_stm32 crc [] = some crc
update_small_stm32 crc (a ∷ []) = none
update_small_stm32 crc (a ∷ b ∷ []) = none
update_small_stm32 crc (a ∷ b ∷ c ∷ []) = none
update_small_stm32 crc (a ∷ b ∷ c ∷ d ∷ rest) =
    update_small_stm32 (update_small (update_small (update_small (update_small crc d) c) b) a) rest
