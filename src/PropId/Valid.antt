-- ===== src/PropId/Valid.antt =====
-- src/prop_id.c: an identifier that is valid without masks has none.
use cstone.Prelude.{
  ℕ, suc, ◌+◌, ◌≡◌, refl, sym, ap, ◌∙◌, Bool, true, false, not, ◌&&◌, ◌||◌, ◌==◌, if◌then◌else◌,
  bit_and, arith, u8, inl, inr, ◌⊎◌, ==_iff,
}
use mathlib.Core.Bool.{false≢true}
use cstone.PropFlags.{prop_field}
use cstone.PropId.{prop_has_mask, has_mask_loop, prop_is_valid, valid_levels}
use cstone.PropId.Match.{
  digit, digit-lt, part_1, part_2, part_3, part_4, prop_field_1, prop_field_2, prop_field_3,
  prop_field_4,
}

-- The choices of one round: what makes it go on, if a field of ones has its upper bit set.
goes_on :
    (prev_array full upper low_zero out plain array : Bool)
    → (full ≡ true → upper ≡ true)
    → (if prev_array
        then if full && not false then false else plain
        else if upper
        then if full then if not false then false else plain else if low_zero then false else array
        else if out
        then false
        else plain)
      ≡ true
    → (full ≡ false) × ((plain ≡ true) ⊎ (array ≡ true))
goes_on true true upper low_zero out plain array k h = absurd (false≢true h)
goes_on true false upper low_zero out plain array k h = (refl, inl h)
goes_on false true true low_zero out plain array k h = absurd (false≢true h)
goes_on false false true true out plain array k h = absurd (false≢true h)
goes_on false false true false out plain array k h = (refl, inr h)
goes_on false true false low_zero out plain array k h = absurd (false≢true (k refl))
goes_on false false false low_zero true plain array k h = absurd (false≢true h)
goes_on false false false low_zero false plain array k h = (refl, inl h)

upper_of_ones : (field : ℕ) → (field == 0xFF) ≡ true → not (bit_and field 0x80 == 0) ≡ true
upper_of_ones field h =
    let e : field ≡ 0xFF = (==_iff field 0xFF).0 h in ap (λ (t : ℕ). not (bit_and t 0x80 == 0)) e

one_level :
    (left p level : ℕ) (prev_array : Bool)
    → valid_levels (suc left) p level false prev_array ≡ true
    → ((u8 (prop_field p level) == 0xFF) ≡ false)
      × ((prev : Bool) × (valid_levels left p (level + 1) false prev ≡ true))
unfolding valid_levels
one_level left p level prev_array h =
    let field = u8 (prop_field p level) in
    let next =
      goes_on prev_array (field == 0xFF) (not (bit_and field 0x80 == 0)) (bit_and field 0x7F == 0)
        ((field == 0) || (field == 0x7F)) (valid_levels left p (level + 1) false false)
        (valid_levels left p (level + 1) false true) (upper_of_ones field) h in
    (next.0, elim next.1 [ inl plain ↦ (false, plain) | inr array ↦ (true, array) ])

field_byte :
    (p level k : ℕ)
    → prop_field p level ≡ digit p k
    → (u8 (prop_field p level) == 0xFF) ≡ (digit p k == 255)
field_byte p level k e =
    let small : u8 (prop_field p level) ≡ digit p k = omega (arith, e, digit-lt p k) in
    ap (λ (t : ℕ). t == 0xFF) small

no_mask :
    (p : ℕ)
    → (digit p 3 == 255) ≡ false
    → (digit p 2 == 255) ≡ false
    → (digit p 1 == 255) ≡ false
    → (digit p 0 == 255) ≡ false
    → prop_has_mask p ≡ false
unfolding prop_has_mask has_mask_loop
no_mask p a b c d = rw (part_1 p ∙ a, part_2 p ∙ b, part_3 p ∙ c, part_4 p ∙ d) refl

-- An identifier that `prop_is_valid` takes without allowing masks has no mask for `prop_has_mask`.
pub prop_is_valid-prop_has_mask :
    (prop : ℕ) → prop_is_valid prop false ≡ true → prop_has_mask prop ≡ false
unfolding prop_is_valid
prop_is_valid-prop_has_mask prop h =
    let l1 = one_level 3 prop 1 false h in
    let l2 = one_level 2 prop 2 l1.1.0 l1.1.1 in
    let l3 = one_level 1 prop 3 l2.1.0 l2.1.1 in
    let l4 = one_level 0 prop 4 l3.1.0 l3.1.1 in
    no_mask prop (sym (field_byte prop 1 3 (prop_field_1 prop)) ∙ l1.0)
      (sym (field_byte prop 2 2 (prop_field_2 prop)) ∙ l2.0)
      (sym (field_byte prop 3 1 (prop_field_3 prop)) ∙ l3.0)
      (sym (field_byte prop 4 0 (prop_field_4 prop)) ∙ l4.0)
