-- ===== src/Crc/Crc16/Laws.antt =====
-- The table-driven forms of CRC-16 agree with the bit-serial one.
use cstone.Prelude.{
  ℕ, zero, suc, ◌*◌, ◌/◌, ◌%◌, ◌^◌, ◌<◌, bit_and, bit_xor, ◌≡◌, refl, sym, ap, ◌∙◌, List, [], ◌∷◌,
  true, arith, ◌==◌, ==_iff, get_or, u8, u16, Bytes, all_below, all_below_sound, ◌<<<◌, ◌>>>◌,
}
use cstone.Prelude.Bits.{xor_comm, xor-mask, xor-lt, and_mask}
use cstone.Crc.Lfsr.{next, steps, steps-lt, next_branch, table_step, two_fields}
use cstone.Crc.Crc16.{
  poly, shift_bit, shift_bits, update_serial, update_serial_block, table_small, update_small,
  update_small_block, table, update, update_block,
}
use native.Mathlib.Nat.{mod-eq_of_lt}

-- The loop of the source is the register of `Lfsr`, 16 digits wide.
shift_bits-steps : (n x : ℕ) → shift_bits n x ≡ steps 15 poly n x
unfolding shift_bits shift_bit
shift_bits-steps zero x = refl
shift_bits-steps (suc n) x =
    ap (shift_bits n) (next_branch 15 poly (omega arith) x) ∙ shift_bits-steps n (next 15 poly x)

-- One byte through the register.
unfoldable pub run_byte : ℕ → ℕ → ℕ
run_byte crc byte = steps 15 poly 8 (bit_xor crc (byte * 2 ^ 8))

pub run_byte-lt : (crc byte : ℕ) → crc < 2 ^ 16 → byte < 256 → run_byte crc byte < 2 ^ 16
unfolding run_byte
run_byte-lt crc byte p q =
    steps-lt 15 poly 8 (bit_xor crc (byte * 2 ^ 8)) (omega arith)
      (xor-lt 16 crc (byte * 2 ^ 8) p (omega arith))

pub update_serial-run :
    (crc byte : ℕ) → crc < 2 ^ 16 → byte < 256 → update_serial crc byte ≡ run_byte crc byte
unfolding update_serial run_byte
update_serial-run crc byte p q =
    shift_bits-steps 8 (u16 (bit_xor crc (byte <<< 8)))
    ∙ ap (steps 15 poly 8) (mod-eq_of_lt (xor-lt 16 crc (byte <<< 8) p (omega arith)))

small_entry : (i : ℕ) → i < 2 ^ 4 → get_or table_small i 0 ≡ steps 15 poly 4 (i * 2 ^ 12)
small_entry i p =
    (==_iff (get_or table_small i 0) (steps 15 poly 4 (i * 2 ^ 12))).0
      (all_below_sound 16 _ i checked p)
  where
    checked : all_below 16 (λ i. get_or table_small i 0 == steps 15 poly 4 (i * 2 ^ 12)) ≡ true
    checked = unfold all_below table_small next in refl

-- Four digits of a byte through the small table.
half_step :
    (x n : ℕ)
    → x < 2 ^ 16
    → n < 2 ^ 4
    → bit_xor (get_or table_small (bit_xor (x / 2 ^ 12) n) 0) (x * 2 ^ 4) % 2 ^ 16
      ≡ steps 15 poly 4 (bit_xor x (n * 2 ^ 12))
half_step x n p q =
    table_step 15 poly (omega arith) 12 4 (λ i. get_or table_small i 0) refl small_entry x n p q

narrow : (t : ℕ) → u8 t % 16 ≡ t % 16
narrow t = omega arith

index :
    (x m : ℕ)
    → x < 2 ^ 16
    → bit_and (u8 (bit_xor (x / 2 ^ 12) m)) 15 ≡ bit_xor (x / 2 ^ 12) (m % 16)
index x m p =
    and_mask 4 (u8 (bit_xor (x / 2 ^ 12) m))
    ∙ narrow (bit_xor (x / 2 ^ 12) m)
    ∙ xor-mask 4 (x / 2 ^ 12) m
    ∙ ap (λ (t : ℕ). bit_xor t (m % 16)) (mod-eq_of_lt (omega arith))

update_small-run :
    (crc byte : ℕ) → crc < 2 ^ 16 → byte < 256 → update_small crc byte ≡ run_byte crc byte
unfolding update_small run_byte
update_small-run crc byte p q =
    ap
      (λ (t : ℕ). u16 (
        bit_xor (get_or table_small (bit_and (u8 (bit_xor (t >>> 12) (byte >>> 0))) 15) 0)
          (t <<< 4)))
      high
    ∙ ap (λ (t : ℕ). u16 (bit_xor (get_or table_small t 0) (upper <<< 4)))
        (index upper (byte >>> 0) upper_fits ∙ ap (bit_xor (upper / 2 ^ 12)) (omega arith))
    ∙ half_step upper (byte % 16) upper_fits (omega arith)
    ∙ two_fields 15 poly (omega arith) 8 12 crc (byte / 16) (byte % 16) refl refl (omega arith)
    ∙ ap (λ (t : ℕ). steps 15 poly 8 (bit_xor crc (t * 2 ^ 8))) (omega arith)
  where
    upper : ℕ
    upper = steps 15 poly 4 (bit_xor crc (byte / 16 * 2 ^ 12))

    upper_fits : upper < 2 ^ 16
    upper_fits =
        steps-lt 15 poly 4 (bit_xor crc (byte / 16 * 2 ^ 12)) (omega arith)
          (xor-lt 16 crc (byte / 16 * 2 ^ 12) p (omega arith))

    high :
        u16 (
          bit_xor
            (get_or table_small (bit_and (u8 (bit_xor (crc >>> 12) (byte >>> 4))) 15) 0)
            (crc <<< 4))
        ≡ upper
    high =
        ap (λ (t : ℕ). u16 (bit_xor (get_or table_small t 0) (crc <<< 4)))
          (index crc (byte >>> 4) p ∙ ap (bit_xor (crc / 2 ^ 12)) (omega arith))
        ∙ half_step crc (byte / 16) p (omega arith)

table_entry : (i : ℕ) → i < 2 ^ 8 → get_or table i 0 ≡ steps 15 poly 8 (i * 2 ^ 8)
table_entry i p =
    (==_iff (get_or table i 0) (steps 15 poly 8 (i * 2 ^ 8))).0 (all_below_sound 256 _ i checked p)
  where
    checked : all_below 256 (λ i. get_or table i 0 == steps 15 poly 8 (i * 2 ^ 8)) ≡ true
    checked = unfold all_below table next in refl

update-run : (crc byte : ℕ) → crc < 2 ^ 16 → byte < 256 → update crc byte ≡ run_byte crc byte
unfolding update run_byte
update-run crc byte p q =
    ap (λ (t : ℕ). u16 (bit_xor (crc <<< 8) (get_or table (bit_xor t byte) 0))) (omega arith)
    ∙ ap u16 (xor_comm (crc <<< 8) (get_or table (bit_xor (crc / 2 ^ 8) byte) 0))
    ∙ table_step 15 poly (omega arith) 8 8 (λ i. get_or table i 0) refl table_entry crc byte p q

pub update_serial-lt : (crc byte : ℕ) → crc < 2 ^ 16 → byte < 256 → update_serial crc byte < 2 ^ 16
update_serial-lt crc byte p q = rw (update_serial-run crc byte p q) (run_byte-lt crc byte p q)

-- The 16-entry table gives the register of the bit-serial loop, for every block of bytes and every
-- register that fits the width.
pub update_small_block16-eq :
    (crc : ℕ) (block : List ℕ)
    → crc < 2 ^ 16
    → Bytes block
    → update_small_block crc block ≡ update_serial_block crc block
unfolding update_small_block update_serial_block update_serial
update_small_block16-eq crc [] p q = refl
update_small_block16-eq crc (byte ∷ rest) p q =
    ap (λ (t : ℕ). update_small_block t rest)
      (update_small-run crc byte p q.0 ∙ sym (update_serial-run crc byte p q.0))
    ∙ update_small_block16-eq (update_serial crc byte) rest (update_serial-lt crc byte p q.0) q.1

-- The 256-entry table gives the register of the bit-serial loop, for every block of bytes and every
-- register that fits the width.
pub update_block16-eq :
    (crc : ℕ) (block : List ℕ)
    → crc < 2 ^ 16
    → Bytes block
    → update_block crc block ≡ update_serial_block crc block
unfolding update_block update_serial_block update_serial
update_block16-eq crc [] p q = refl
update_block16-eq crc (byte ∷ rest) p q =
    ap (λ (t : ℕ). update_block t rest)
      (update-run crc byte p q.0 ∙ sym (update_serial-run crc byte p q.0))
    ∙ update_block16-eq (update_serial crc byte) rest (update_serial-lt crc byte p q.0) q.1
