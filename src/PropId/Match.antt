-- ===== src/PropId/Match.antt =====
-- src/prop_id.c: what `prop_match` decides, field by field.
use cstone.Prelude.{
  ℕ, zero, suc, ◌+◌, ◌-◌, ◌*◌, ◌^◌, ◌/◌, ◌%◌, ◌<◌, ◌≡◌, refl, sym, ap, ap₂, ◌∙◌, Bool, true, false,
  ◌&&◌, ◌||◌, ◌==◌, if◌then◌else◌, bit_and, bit_or, arith,
}
use cstone.Prelude.Bits.{and_mask, and_fields, and-zero}
use cstone.PropFlags.{prop_mask, prop_field}
use cstone.PropId.{p1_msk, p2_msk, p3_msk, p4_msk, masked_part, prop_get_mask, prop_match}

-- A word cut by a mask whose bytes are 0 or 255.
keep : Bool → ℕ → ℕ
keep true byte = 0
keep false byte = byte

lit : Bool → ℕ
lit true = 0
lit false = 255

and_lit : (b : Bool) (x : ℕ) → bit_and x (lit b) ≡ keep b (x % 256)
unfolding lit keep
and_lit true x = and-zero x
and_lit false x = and_mask 8 x

lit-lt : (b : Bool) → lit b < 256
unfolding lit
lit-lt true = omega arith
lit-lt false = omega arith

and_byte :
    (x a : ℕ) (b : Bool)
    → bit_and x (a * 256 + lit b) ≡ bit_and (x / 256) a * 256 + keep b (x % 256)
and_byte x a b =
    let high : (a * 256 + lit b) / 256 ≡ a = omega (arith, lit-lt b) in
    let low : (a * 256 + lit b) % 256 ≡ lit b = omega (arith, lit-lt b) in
    let idem : x % 256 % 256 ≡ x % 256 = omega arith in
    and_fields 8 x (a * 256 + lit b)
    ∙ ap₂ (λ (s t : ℕ). bit_and (x / 256) s * 256 + bit_and (x % 256) t) high low
    ∙ ap (λ (t : ℕ). bit_and (x / 256) a * 256 + t) (and_lit b (x % 256) ∙ ap (keep b) idem)

-- The four bytes of a word, the first one on top.
word : ℕ → ℕ → ℕ → ℕ → ℕ
word a b c d = ((a * 256 + b) * 256 + c) * 256 + d

unfoldable pub digit : ℕ → ℕ → ℕ
digit x zero = x % 256
digit x (suc k) = digit (x / 256) k

and_word :
    (x : ℕ) (a b c d : Bool)
    → bit_and x (word (lit a) (lit b) (lit c) (lit d))
      ≡ word (keep a (digit x 3)) (keep b (digit x 2)) (keep c (digit x 1)) (keep d (digit x 0))
unfolding word digit
and_word x a b c d =
    let y = x / 256 in
    let z = y / 256 in
    and_byte x ((lit a * 256 + lit b) * 256 + lit c) d
    ∙ ap (λ (t : ℕ). t * 256 + keep d (x % 256)) (and_byte y (lit a * 256 + lit b) c)
    ∙ ap (λ (t : ℕ). (t * 256 + keep c (y % 256)) * 256 + keep d (x % 256)) (and_byte z (lit a) b)
    ∙ ap
        (λ (t : ℕ).
          ((t * 256 + keep b (z % 256)) * 256 + keep c (y % 256)) * 256 + keep d (x % 256))
        (and_lit a (z / 256))

-- Two words are the same exactly if they have the same bytes.
last_byte :
    (a b d e : ℕ) → d < 256 → e < 256 → (a * 256 + d == b * 256 + e) ≡ ((a == b) && (d == e))
last_byte a b d e p q = ground arith

keep-lt : (b : Bool) (x : ℕ) → x < 256 → keep b x < 256
unfolding keep
keep-lt true x p = omega arith
keep-lt false x p = p

keep-same : (b : Bool) (x y : ℕ) → (keep b x == keep b y) ≡ (b || (x == y))
unfolding keep
keep-same true x y = refl
keep-same false x y = refl

mask_word :
    (a b c d : Bool)
    → 2 ^ 32
        - 1
        - bit_or
            (bit_or
              (bit_or (if a then p1_msk else 0) (if b then p2_msk else 0))
              (if c then p3_msk else 0))
            (if d then p4_msk else 0)
      ≡ word (lit a) (lit b) (lit c) (lit d)
unfolding word lit
mask_word true true true true = refl
mask_word true true true false = refl
mask_word true true false true = refl
mask_word true true false false = refl
mask_word true false true true = refl
mask_word true false true false = refl
mask_word true false false true = refl
mask_word true false false false = refl
mask_word false true true true = refl
mask_word false true true false = refl
mask_word false true false true = refl
mask_word false true false false = refl
mask_word false false true true = refl
mask_word false false true false = refl
mask_word false false false true = refl
mask_word false false false false = refl

pub digit-lt : (x k : ℕ) → digit x k < 256
unfolding digit
digit-lt x zero = omega arith
digit-lt x (suc k) = digit-lt (x / 256) k

-- Each field is a byte, the first one on top.
field_1 : (p : ℕ) → bit_and p p1_msk ≡ digit p 3 * 2 ^ 24
unfolding word lit keep
field_1 p = and_word p false true true true ∙ omega arith

field_2 : (p : ℕ) → bit_and p p2_msk ≡ digit p 2 * 2 ^ 16
unfolding word lit keep
field_2 p = and_word p true false true true ∙ omega arith

field_3 : (p : ℕ) → bit_and p p3_msk ≡ digit p 1 * 2 ^ 8
unfolding word lit keep
field_3 p = and_word p true true false true ∙ omega arith

field_4 : (p : ℕ) → bit_and p p4_msk ≡ digit p 0
unfolding word lit keep
field_4 p = and_word p true true true false ∙ omega arith

pub prop_field_1 : (p : ℕ) → prop_field p 1 ≡ digit p 3
unfolding prop_field prop_mask
prop_field_1 p = omega (arith, field_1 p)

pub prop_field_2 : (p : ℕ) → prop_field p 2 ≡ digit p 2
unfolding prop_field prop_mask
prop_field_2 p = omega (arith, field_2 p)

pub prop_field_3 : (p : ℕ) → prop_field p 3 ≡ digit p 1
unfolding prop_field prop_mask
prop_field_3 p = omega (arith, field_3 p)

pub prop_field_4 : (p : ℕ) → prop_field p 4 ≡ digit p 0
unfolding prop_field prop_mask
prop_field_4 p = omega (arith, field_4 p)

-- A field is a mask exactly if its byte is 255.
pub part_1 : (p : ℕ) → (bit_and p p1_msk == p1_msk) ≡ (digit p 3 == 255)
part_1 p = let e = field_1 p in ground arith

pub part_2 : (p : ℕ) → (bit_and p p2_msk == p2_msk) ≡ (digit p 2 == 255)
part_2 p = let e = field_2 p in ground arith

pub part_3 : (p : ℕ) → (bit_and p p3_msk == p3_msk) ≡ (digit p 1 == 255)
part_3 p = let e = field_3 p in ground arith

pub part_4 : (p : ℕ) → (bit_and p p4_msk == p4_msk) ≡ (digit p 0 == 255)
part_4 p = let e = field_4 p in ground arith

complement : Bool → Bool → Bool → Bool → ℕ
complement a b c d =
    2 ^ 32
    - 1
    - bit_or
        (bit_or (bit_or (if a then p1_msk else 0) (if b then p2_msk else 0))
          (if c then p3_msk else 0))
        (if d then p4_msk else 0)

get_mask :
    (p : ℕ)
    → prop_get_mask p
      ≡ word
          (lit (digit p 3 == 255))
          (lit (digit p 2 == 255))
          (lit (digit p 1 == 255))
          (lit (digit p 0 == 255))
unfolding prop_get_mask masked_part complement
get_mask p =
    let a = bit_and p p1_msk == p1_msk in
    let b = bit_and p p2_msk == p2_msk in
    ap₂ (λ s t. complement a b s t) (part_3 p) (part_4 p)
    ∙ ap₂ (λ s t. complement s t (digit p 1 == 255) (digit p 0 == 255)) (part_1 p) (part_2 p)
    ∙ mask_word (digit p 3 == 255) (digit p 2 == 255) (digit p 1 == 255) (digit p 0 == 255)

same_word :
    (a b c d e f g h : ℕ)
    → b < 256
    → c < 256
    → d < 256
    → f < 256
    → g < 256
    → h < 256
    → (word a b c d == word e f g h) ≡ (((a == e) && (b == f)) && (c == g)) && (d == h)
unfolding word
same_word a b c d e f g h p q r s t u =
    last_byte ((a * 256 + b) * 256 + c) ((e * 256 + f) * 256 + g) d h r u
    ∙ ap (λ x. x && (d == h))
        (last_byte (a * 256 + b) (e * 256 + f) c g q t
          ∙ ap (λ x. x && (c == g)) (last_byte a e b f p s))

-- The identifiers agree in a field, or the field of the masked one is a mask.
unfoldable pub field_matches : ℕ → ℕ → ℕ → Bool
field_matches prop masked_prop level =
    (prop_field masked_prop level == 0xFF)
    || (prop_field prop level == prop_field masked_prop level)

one_field :
    (x y p m level : ℕ)
    → prop_field p level ≡ x
    → prop_field m level ≡ y
    → (keep (y == 255) x == keep (y == 255) y) ≡ field_matches p m level
unfolding field_matches
one_field x y p m level e f =
    keep-same (y == 255) x y ∙ ap₂ (λ s t. (s == 255) || (t == s)) (sym f) (sym e)

-- `prop_match` holds exactly if in each of the four fields the two identifiers agree or the field of
-- the masked one is 0xFF.
pub prop_match-fields :
    (prop masked_prop : ℕ)
    → prop_match prop masked_prop ≡ (
        ((field_matches prop masked_prop 1 && field_matches prop masked_prop 2)
          && field_matches prop masked_prop 3)
        && field_matches prop masked_prop 4)
unfolding prop_match
prop_match-fields prop masked_prop =
    let a = digit masked_prop 3 == 255 in
    let b = digit masked_prop 2 == 255 in
    let c = digit masked_prop 1 == 255 in
    let d = digit masked_prop 0 == 255 in
    let x = digit prop in
    let y = digit masked_prop in
    let byte : (e : Bool) (p k : ℕ) → keep e (digit p k) < 256 =
      λ e p k. keep-lt e (digit p k) (digit-lt p k) in
    ap (λ t. bit_and prop t == bit_and masked_prop t) (get_mask masked_prop)
    ∙ ap₂ (λ s t. s == t) (and_word prop a b c d) (and_word masked_prop a b c d)
    ∙ same_word (keep a (x 3)) (keep b (x 2)) (keep c (x 1)) (keep d (x 0)) (keep a (y 3))
        (keep b (y 2)) (keep c (y 1)) (keep d (y 0)) (byte b prop 2) (byte c prop 1) (byte d prop 0)
        (byte b masked_prop 2) (byte c masked_prop 1) (byte d masked_prop 0)
    ∙ ap₂ (λ s t. s && t)
        (ap₂ (λ s t. s && t)
          (ap₂ (λ s t. s && t)
            (one_field (x 3) (y 3) prop masked_prop 1 (prop_field_1 prop)
              (prop_field_1 masked_prop))
            (one_field (x 2) (y 2) prop masked_prop 2 (prop_field_2 prop)
              (prop_field_2 masked_prop)))
          (one_field (x 1) (y 1) prop masked_prop 3 (prop_field_3 prop) (prop_field_3 masked_prop)))
        (one_field (x 0) (y 0) prop masked_prop 4 (prop_field_4 prop) (prop_field_4 masked_prop))
