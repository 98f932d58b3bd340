-- ===== src/Crc/Crc16/Detect.antt =====
-- CRC-16 tells two blocks apart that differ in one byte: the register is injective in its state and in
-- the byte that is fed.
use cstone.Prelude.{
  ℕ, ◌*◌, ◌^◌, ◌<◌, bit_xor, ◌≡◌, ◌≢◌, refl, sym, ◌∙◌, List, [], ◌∷◌, ◌++◌, arith, Bytes,
}
use cstone.Prelude.Bits.{xor-lt, xor_cancel, xor_cancel_right}
use cstone.Crc.Lfsr.{steps-injective}
use cstone.Crc.Crc16.{poly, init, finish, update_serial, update_serial_block, update_block}
use cstone.Crc.Crc16.Laws.{run_byte, update_serial-run, update_serial-lt, update_block16-eq}

update_serial-injective :
    (crc crc' byte : ℕ)
    → crc < 2 ^ 16
    → crc' < 2 ^ 16
    → byte < 256
    → update_serial crc byte ≡ update_serial crc' byte
    → crc ≡ crc'
update_serial-injective crc crc' byte p p' q e = xor_cancel_right field crc crc' (
    steps-injective 15 poly 8 (bit_xor crc field) (bit_xor crc' field) refl (omega arith)
      (xor-lt 16 crc field p (omega arith)) (xor-lt 16 crc' field p' (omega arith))
      (unfold run_byte in
        sym (update_serial-run crc byte p q) ∙ e ∙ update_serial-run crc' byte p' q))
  where
    field : ℕ
    field = byte * 2 ^ 8

update_serial_injective_byte :
    (crc a b : ℕ)
    → crc < 2 ^ 16
    → a < 256
    → b < 256
    → update_serial crc a ≡ update_serial crc b
    → a ≡ b
update_serial_injective_byte crc a b p qa qb e =
    omega (arith, xor_cancel crc (a * 2 ^ 8) (b * 2 ^ 8) fields)
  where
    fields : bit_xor crc (a * 2 ^ 8) ≡ bit_xor crc (b * 2 ^ 8)
    fields =
        steps-injective 15 poly 8 (bit_xor crc (a * 2 ^ 8)) (bit_xor crc (b * 2 ^ 8)) refl
          (omega arith) (xor-lt 16 crc (a * 2 ^ 8) p (omega arith))
          (xor-lt 16 crc (b * 2 ^ 8) p (omega arith))
          (unfold run_byte in sym (update_serial-run crc a p qa) ∙ e ∙ update_serial-run crc b p qb)

update_serial_block-injective :
    (ys : List ℕ) (crc crc' : ℕ)
    → crc < 2 ^ 16
    → crc' < 2 ^ 16
    → Bytes ys
    → update_serial_block crc ys ≡ update_serial_block crc' ys
    → crc ≡ crc'
unfolding update_serial_block
update_serial_block-injective [] crc crc' p p' q e = e
update_serial_block-injective (y ∷ ys) crc crc' p p' q e =
    update_serial-injective crc crc' y p p' q.0 (
      update_serial_block-injective ys (update_serial crc y) (update_serial crc' y)
        (update_serial-lt crc y p q.0) (update_serial-lt crc' y p' q.0) q.1
        (unfold update_serial in e))

serial_detects :
    (xs ys : List ℕ) (crc a b : ℕ)
    → crc < 2 ^ 16
    → Bytes (xs ++ (a ∷ ys))
    → b < 256
    → update_serial_block crc (xs ++ (a ∷ ys)) ≡ update_serial_block crc (xs ++ (b ∷ ys))
    → a ≡ b
unfolding update_serial_block update_serial
serial_detects [] ys crc a b p q qb e = update_serial_injective_byte crc a b p q.0 qb (
    update_serial_block-injective ys (update_serial crc a) (update_serial crc b)
      (update_serial-lt crc a p q.0) (update_serial-lt crc b p qb) q.1 e)
serial_detects (x ∷ xs) ys crc a b p q qb e =
    serial_detects xs ys (update_serial crc x) a b (update_serial-lt crc x p q.0) q.1 qb e

replace-Bytes :
    (xs ys : List ℕ) (a b : ℕ) → Bytes (xs ++ (a ∷ ys)) → b < 256 → Bytes (xs ++ (b ∷ ys))
replace-Bytes [] ys a b q qb = (qb, q.1)
replace-Bytes (x ∷ xs) ys a b q qb = (q.0, replace-Bytes xs ys a b q.1 qb)

-- The checksum of a block, `finish` of `update_block` from `init`, changes whenever exactly one byte
-- of the block is changed, whatever its place.
pub update_block16_detects :
    (xs ys : List ℕ) (a b : ℕ)
    → Bytes (xs ++ (a ∷ ys))
    → b < 256
    → a ≢ b
    → finish (update_block init (xs ++ (a ∷ ys))) ≢ finish (update_block init (xs ++ (b ∷ ys)))
unfolding finish init
update_block16_detects xs ys a b q qb differ e = differ (
    serial_detects xs ys init a b (omega arith) q qb (
      sym (update_block16-eq init (xs ++ (a ∷ ys)) (omega arith) q)
      ∙ e
      ∙ update_block16-eq init (xs ++ (b ∷ ys)) (omega arith) (replace-Bytes xs ys a b q qb)))
