-- ===== src/Crc/Crc32/Laws.antt =====
-- The table-driven forms of CRC-32 agree with the bit-serial one.
use cstone.Prelude.{
  ℕ, zero, suc, ◌*◌, ◌/◌, ◌%◌, ◌^◌, ◌<◌, bit_and, bit_xor, ◌≡◌, refl, sym, ap, ◌∙◌, List, [], ◌∷◌,
  Option, none, some, true, arith, ◌==◌, ==_iff, get_or, u32, Bytes, all_below, all_below_sound,
  ◌<<<◌, ◌>>>◌,
}
use cstone.Prelude.Bits.{xor-mask, xor-lt, and_mask}
use cstone.Crc.Lfsr.{next, steps, steps-lt, next_branch, table_step, two_fields}
use cstone.Crc.Crc32.{
  poly, shift_bit, shift_bits, update_serial, update_serial_block, table_small, update_small,
  update_small_block, update_small_stm32,
}
use mathlib.Core.Option
use native.Mathlib.Nat.{mod-eq_of_lt}

-- The loop of the source is the register of `Lfsr`, 32 digits wide.
shift_bits-steps : (n x : ℕ) → shift_bits n x ≡ steps 31 poly n x
unfolding shift_bits shift_bit
shift_bits-steps zero x = refl
shift_bits-steps (suc n) x =
    ap (shift_bits n) (next_branch 31 poly (omega arith) x) ∙ shift_bits-steps n (next 31 poly x)

-- One byte through the register.
unfoldable pub run_byte : ℕ → ℕ → ℕ
run_byte crc byte = steps 31 poly 8 (bit_xor crc (byte * 2 ^ 24))

pub run_byte-lt : (crc byte : ℕ) → crc < 2 ^ 32 → byte < 256 → run_byte crc byte < 2 ^ 32
unfolding run_byte
run_byte-lt crc byte p q =
    steps-lt 31 poly 8 (bit_xor crc (byte * 2 ^ 24)) (omega arith)
      (xor-lt 32 crc (byte * 2 ^ 24) p (omega arith))

pub update_serial-run :
    (crc byte : ℕ) → crc < 2 ^ 32 → byte < 256 → update_serial crc byte ≡ run_byte crc byte
unfolding update_serial run_byte
update_serial-run crc byte p q =
    shift_bits-steps 8 (u32 (bit_xor crc (byte <<< 24)))
    ∙ ap (steps 31 poly 8) (mod-eq_of_lt (xor-lt 32 crc (byte <<< 24) p (omega arith)))

small_entry : (i : ℕ) → i < 2 ^ 4 → get_or table_small i 0 ≡ steps 31 poly 4 (i * 2 ^ 28)
small_entry i p =
    (==_iff (get_or table_small i 0) (steps 31 poly 4 (i * 2 ^ 28))).0
      (all_below_sound 16 _ i checked p)
  where
    checked : all_below 16 (λ i. get_or table_small i 0 == steps 31 poly 4 (i * 2 ^ 28)) ≡ true
    checked = unfold all_below table_small next in refl

-- Four digits of a byte through the small table.
half_step :
    (x n : ℕ)
    → x < 2 ^ 32
    → n < 2 ^ 4
    → bit_xor (get_or table_small (bit_xor (x / 2 ^ 28) n) 0) (x * 2 ^ 4) % 2 ^ 32
      ≡ steps 31 poly 4 (bit_xor x (n * 2 ^ 28))
half_step x n p q =
    table_step 31 poly (omega arith) 28 4 (λ i. get_or table_small i 0) refl small_entry x n p q

index : (x m : ℕ) → x < 2 ^ 32 → bit_and (bit_xor (x / 2 ^ 28) m) 15 ≡ bit_xor (x / 2 ^ 28) (m % 16)
index x m p =
    and_mask 4 (bit_xor (x / 2 ^ 28) m)
    ∙ xor-mask 4 (x / 2 ^ 28) m
    ∙ ap (λ (t : ℕ). bit_xor t (m % 16)) (mod-eq_of_lt (omega arith))

update_small-run :
    (crc byte : ℕ) → crc < 2 ^ 32 → byte < 256 → update_small crc byte ≡ run_byte crc byte
unfolding update_small run_byte
update_small-run crc byte p q =
    ap
      (λ (t : ℕ).
        u32
          (bit_xor (get_or table_small (bit_and (bit_xor (t >>> 28) (byte >>> 0)) 15) 0) (t <<< 4)))
      high
    ∙ ap (λ (t : ℕ). u32 (bit_xor (get_or table_small t 0) (upper <<< 4)))
        (index upper (byte >>> 0) upper_fits ∙ ap (bit_xor (upper / 2 ^ 28)) (omega arith))
    ∙ half_step upper (byte % 16) upper_fits (omega arith)
    ∙ two_fields 31 poly (omega arith) 24 28 crc (byte / 16) (byte % 16) refl refl (omega arith)
    ∙ ap (λ (t : ℕ). steps 31 poly 8 (bit_xor crc (t * 2 ^ 24))) (omega arith)
  where
    upper : ℕ
    upper = steps 31 poly 4 (bit_xor crc (byte / 16 * 2 ^ 28))

    upper_fits : upper < 2 ^ 32
    upper_fits =
        steps-lt 31 poly 4 (bit_xor crc (byte / 16 * 2 ^ 28)) (omega arith)
          (xor-lt 32 crc (byte / 16 * 2 ^ 28) p (omega arith))

    high :
        u32 (
          bit_xor
            (get_or table_small (bit_and (bit_xor (crc >>> 28) (byte >>> 4)) 15) 0)
            (crc <<< 4))
        ≡ upper
    high =
        ap (λ (t : ℕ). u32 (bit_xor (get_or table_small t 0) (crc <<< 4)))
          (index crc (byte >>> 4) p ∙ ap (bit_xor (crc / 2 ^ 28)) (omega arith))
        ∙ half_step crc (byte / 16) p (omega arith)

pub update_serial-lt : (crc byte : ℕ) → crc < 2 ^ 32 → byte < 256 → update_serial crc byte < 2 ^ 32
update_serial-lt crc byte p q = rw (update_serial-run crc byte p q) (run_byte-lt crc byte p q)

-- The 16-entry table gives the register of the bit-serial loop, for every block of bytes and every
-- register that fits the width.
pub update_small_block32-eq :
    (crc : ℕ) (block : List ℕ)
    → crc < 2 ^ 32
    → Bytes block
    → update_small_block crc block ≡ update_serial_block crc block
unfolding update_small_block update_serial_block update_serial
update_small_block32-eq crc [] p q = refl
update_small_block32-eq crc (byte ∷ rest) p q =
    ap (λ (t : ℕ). update_small_block t rest)
      (update_small-run crc byte p q.0 ∙ sym (update_serial-run crc byte p q.0))
    ∙ update_small_block32-eq (update_serial crc byte) rest (update_serial-lt crc byte p q.0) q.1

small-serial :
    (crc byte : ℕ) → crc < 2 ^ 32 → byte < 256 → update_small crc byte ≡ update_serial crc byte
small-serial crc byte p q = update_small-run crc byte p q ∙ sym (update_serial-run crc byte p q)

-- The words of a block of four bytes each, each with its bytes turned round; `none` if bytes are left.
pub swap_words : List ℕ → Option (List ℕ)
swap_words [] = some []
swap_words (a ∷ []) = none
swap_words (a ∷ b ∷ []) = none
swap_words (a ∷ b ∷ c ∷ []) = none
swap_words (a ∷ b ∷ c ∷ d ∷ rest) = Option.map (λ r. d ∷ c ∷ b ∷ a ∷ r) (swap_words rest)

-- `crc32_update_small_stm32` is the bit-serial form over the block with the bytes of each word turned round, and
-- reads past the end exactly if the length of the block is no multiple of 4.
pub update_small_stm32-eq :
    (crc : ℕ) (block : List ℕ)
    → crc < 2 ^ 32
    → Bytes block
    → update_small_stm32 crc block ≡ Option.map (update_serial_block crc) (swap_words block)
unfolding update_small_stm32 swap_words
update_small_stm32-eq crc [] p q = ap some (unfold update_serial_block in refl)
update_small_stm32-eq crc (a ∷ []) p q = refl
update_small_stm32-eq crc (a ∷ b ∷ []) p q = refl
update_small_stm32-eq crc (a ∷ b ∷ c ∷ []) p q = refl
update_small_stm32-eq crc (a ∷ b ∷ c ∷ d ∷ rest) p q =
    ap (λ (t : ℕ). update_small_stm32 t rest) fed
    ∙ update_small_stm32-eq (run4 crc) rest fits q.1.1.1.1
    ∙ Option-cases-map (swap_words rest)
  where
    run4 : ℕ → ℕ
    run4 x = update_serial (update_serial (update_serial (update_serial x d) c) b) a

    qa : a < 256
    qa = q.0

    qb : b < 256
    qb = q.1.0

    qc : c < 256
    qc = q.1.1.0

    qd : d < 256
    qd = q.1.1.1.0

    fit1 : update_serial crc d < 2 ^ 32
    fit1 = update_serial-lt crc d p qd

    fit2 : update_serial (update_serial crc d) c < 2 ^ 32
    fit2 = update_serial-lt (update_serial crc d) c fit1 qc

    fit3 : update_serial (update_serial (update_serial crc d) c) b < 2 ^ 32
    fit3 = update_serial-lt (update_serial (update_serial crc d) c) b fit2 qb

    fits : run4 crc < 2 ^ 32
    fits = update_serial-lt (update_serial (update_serial (update_serial crc d) c) b) a fit3 qa

    fed : update_small (update_small (update_small (update_small crc d) c) b) a ≡ run4 crc
    fed =
        rw
          (
            small-serial crc d p qd,
            small-serial (update_serial crc d) c fit1 qc,
            small-serial (update_serial (update_serial crc d) c) b fit2 qb,
          )
          (small-serial (update_serial (update_serial (update_serial crc d) c) b) a fit3 qa)

    Option-cases-map :
        (o : Option (List ℕ))
        → Option.map (update_serial_block (run4 crc)) o
          ≡ Option.map (update_serial_block crc) (Option.map (λ r. d ∷ c ∷ b ∷ a ∷ r) o)
    Option-cases-map none = refl
    Option-cases-map (some r) = ap some (unfold update_serial_block update_serial in refl)
