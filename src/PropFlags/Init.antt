-- ===== src/PropFlags/Init.antt =====
-- src/prop_flags.c: the flags of a set that was just initialized.
use cstone.Prelude.{
  ℕ, zero, suc, ◌/◌, ◌%◌, ◌≡◌, refl, sym, ap, ◌∙◌, true, false, Option, none, some, List, inl, inr,
  Bool-cases, length, take, take_all, replicate, get_or, bit_and, arith,
}
use Prim.Native.Nat.{bit_and-bitwise}
use cstone.PropFlags.{
  PropFlags, prop_field, prop_field_is_array, initial_flags, prop_flags_init, prop_flags_get_all,
  prop_flags_get, valid_flag_prop, flag_mask,
}
use cstone.PropFlags.Laws.{IsFlags, reads, get_valid, get_other}

replicate-zero : (n i : ℕ) → get_or (replicate {A = ℕ} n 0) i 0 ≡ 0
replicate-zero zero i = refl
replicate-zero (suc n) zero = refl
replicate-zero (suc n) (suc i) = replicate-zero n i

zero-and : (b : ℕ) → bit_and 0 b ≡ 0
zero-and b = simp bit_and-bitwise

-- A set whose bytes are all 0 has no flag that is set.
clear : (pf : PropFlags) (prop : ℕ) → pf.flags ≡ replicate 32 0 → prop_flags_get pf prop ≡ false
unfolding reads
clear pf prop z = elim (Bool-cases (valid_flag_prop pf prop)) [
  | inr f ↦ get_other pf prop f
  | inl t ↦ get_valid pf prop t ∙ rw (z, replicate-zero 32 (prop % 256 / 8), zero-and) refl
]

clear-IsFlags : (pf : PropFlags) → pf.flags ≡ replicate 32 0 → IsFlags pf
clear-IsFlags pf z = record {
  count = ap length z;
  bytes =
      λ i. let e = ap (λ (xs : List ℕ). get_or xs i 0) z ∙ replicate-zero 32 i in omega (arith, e);
}

blank_flags :
    (prefix : ℕ) (index_names : Option (List (List ℕ)))
    → (prop_flags_init prefix index_names none).1.flags ≡ replicate 32 0
unfolding prop_flags_init initial_flags
blank_flags prefix index_names = elim (Bool-cases (prop_field_is_array (prop_field prefix 3))) [
  | inl t ↦ rw t refl
  | inr f ↦ rw f refl
]

-- A read looks at the prefix and the bytes alone.
get_same :
    (pf other : PropFlags) (prop : ℕ)
    → pf.prefix ≡ other.prefix
    → pf.flags ≡ other.flags
    → prop_flags_get pf prop ≡ prop_flags_get other prop
unfolding prop_flags_get valid_flag_prop
get_same pf other prop e f = rw (e, f) refl

-- Without initial values, `prop_flags_init` answers whether P3 of the prefix is an array, and in both
-- cases leaves a set of 32 bytes in which every identifier reads false.
pub prop_flags_init-clear :
    (prefix : ℕ) (index_names : Option (List (List ℕ))) (prop : ℕ)
    → ((prop_flags_init prefix index_names none).0 ≡ prop_field_is_array (prop_field prefix 3))
      × IsFlags (prop_flags_init prefix index_names none).1
      × (prop_flags_get (prop_flags_init prefix index_names none).1 prop ≡ false)
unfolding prop_flags_init
prop_flags_init-clear prefix index_names prop =
    let z = blank_flags prefix index_names in
    (
      elim (Bool-cases (prop_field_is_array (prop_field prefix 3))) [
        | inl t ↦ rw t refl
        | inr f ↦ rw f refl
      ],
      clear-IsFlags _ z,
      clear _ prop z,
    )

-- A set that is initialized with the values that `prop_flags_get_all` took from another one with the
-- same prefix, whose P3 is an array, reads as that one does on every identifier.
pub prop_flags_init-get_all :
    (pf : PropFlags) (prefix : ℕ) (index_names : Option (List (List ℕ))) (prop : ℕ)
    → IsFlags pf
    → prop_field_is_array (prop_field prefix 3) ≡ true
    → pf.prefix ≡ bit_and prefix flag_mask
    → prop_flags_get (prop_flags_init prefix index_names (some (prop_flags_get_all pf))).1 prop
      ≡ prop_flags_get pf prop
unfolding prop_flags_init prop_flags_get_all initial_flags
prop_flags_init-get_all pf prefix index_names prop w t e =
    let all : take 32 pf.flags ≡ pf.flags = take_all 32 pf.flags (omega (arith, w.count)) in
    rw t (get_same _ pf prop (sym e) (ap (take 32) all ∙ all))
