-- ===== src/PropFlags/Laws.antt =====
-- src/prop_flags.c: what a flag reads after another one is set.
use cstone.Prelude.{
  ℕ, zero, suc, ◌-◌, ◌*◌, ◌^◌, ◌/◌, ◌%◌, ◌<◌, ◌≡◌, ◌≢◌, refl, sym, ap, ap₂, ◌∙◌, Bool, true, false,
  not, ◌&&◌, List, [], ◌∷◌, ◌==◌, ==_iff, ne→==, if◌then◌else◌, get_or, set, length, length-set,
  bit_and, arith, all_below, all_below_sound, ℕ_discrete, inl, inr, Bool-cases, u8, ◌<<<◌,
}
use mathlib.Core.Bool.{false≢true}
use cstone.Prelude.Bits.{and_mask, and_shl}
use cstone.PropFlags.{
  PropFlags, prop_mask, prop_get_index, byte_mask, set_bit, valid_flag_prop, prop_flags_set,
  prop_flags_get, flag_mask,
}

-- 32 bytes.
pub record IsFlags (pf : PropFlags) : Type 0 where
  pub count : length pf.flags ≡ 32
  pub bytes : (i : ℕ) → get_or pf.flags i 0 < 256

same_bool : Bool → Bool → Bool
same_bool true b = b
same_bool false b = not b

-- One byte after a bit was set, on every byte and pair of bits.
bit_test : ℕ → ℕ → ℕ → Bool → Bool
bit_test byte i j v =
    same_bool (not (bit_and (set_bit byte (byte_mask i) v) (byte_mask j) == 0))
      (if i == j then v else not (bit_and byte (byte_mask j) == 0))

bit_row : ℕ → Bool → Bool
bit_row byte v = all_below 8 (λ i. all_below 8 (λ j. bit_test byte i j v))

bit_rows : (v : Bool) → all_below 256 (λ byte. bit_row byte v) ≡ true
bit_rows true = unfold all_below bit_row bit_test same_bool set_bit byte_mask in refl
bit_rows false = unfold all_below bit_row bit_test same_bool set_bit byte_mask in refl

same_bool-eq : (a b : Bool) → same_bool a b ≡ true → a ≡ b
unfolding same_bool
same_bool-eq true true h = refl
same_bool-eq true false h = sym h
same_bool-eq false true h = h
same_bool-eq false false h = refl

byte_after :
    (byte i j : ℕ) (v : Bool)
    → byte < 256
    → i < 8
    → j < 8
    → not (bit_and (set_bit byte (byte_mask i) v) (byte_mask j) == 0)
      ≡ (if i == j then v else not (bit_and byte (byte_mask j) == 0))
unfolding bit_row bit_test
byte_after byte i j v b p q =
    let row = all_below_sound 256 (λ byte. bit_row byte v) byte (bit_rows v) b in
    let cell = all_below_sound 8 _ i row p in
    same_bool-eq _ _ (all_below_sound 8 (λ j. bit_test byte i j v) j cell q)

module _ {ℓ} {A : Type ℓ} where
  get_or-set_self : (xs : List A) (i : ℕ) (v d : A) → i < length xs → get_or (set xs i v) i d ≡ v
  get_or-set_self [] i v d h = elim h [ ]
  get_or-set_self (x ∷ xs) zero v d h = refl
  get_or-set_self (x ∷ xs) (suc i) v d h = get_or-set_self xs i v d (omega arith)

  get_or-set_ne :
      (xs : List A) (i j : ℕ) (v d : A) → i ≢ j → get_or (set xs i v) j d ≡ get_or xs j d
  get_or-set_ne [] i j v d h = refl
  get_or-set_ne (x ∷ xs) zero zero v d h = absurd (h refl)
  get_or-set_ne (x ∷ xs) zero (suc j) v d h = refl
  get_or-set_ne (x ∷ xs) (suc i) zero v d h = refl
  get_or-set_ne (x ∷ xs) (suc i) (suc j) v d h = get_or-set_ne xs i j v d (λ e. h (ap suc e))

-- The index is the lowest byte of the identifier, and the prefix the other three.
index-mod : (prop : ℕ) → prop_get_index prop 3 ≡ prop % 256
unfolding prop_get_index prop_mask
index-mod prop = ap (λ (t : ℕ). t / 1) (and_mask 8 prop) ∙ omega arith

prefix-div : (prop : ℕ) → prop < 2 ^ 32 → bit_and prop flag_mask ≡ prop / 256 * 256
prefix-div prop p = omega (arith, and_shl 8 prop (2 ^ 24 - 1), and_mask 24 (prop / 256))

both : (a b : Bool) → (a && b) ≡ true → b ≡ true
both true b h = h
both false b h = absurd (false≢true h)

-- Two valid identifiers with the same index are the same.
valid-prefix :
    (pf : PropFlags) (prop : ℕ)
    → valid_flag_prop pf prop ≡ true
    → bit_and prop flag_mask ≡ pf.prefix
unfolding valid_flag_prop
valid-prefix pf prop h = (==_iff _ _).0 (both _ _ h)

one_index :
    (pf : PropFlags) (prop other : ℕ)
    → prop < 2 ^ 32
    → other < 2 ^ 32
    → valid_flag_prop pf prop ≡ true
    → valid_flag_prop pf other ≡ true
    → (prop % 256 ≡ other % 256)
    → prop ≡ other
one_index pf prop other p q v w e =
    omega (
      arith,
      prefix-div prop p,
      prefix-div other q,
      valid-prefix pf prop v,
      valid-prefix pf other w,
    )

byte_mask-mod : (i : ℕ) → byte_mask i ≡ byte_mask (i % 8)
unfolding byte_mask
byte_mask-mod i = let e : i % 8 ≡ i % 8 % 8 = omega arith in ap (λ (k : ℕ). u8 (1 <<< k)) e

unfoldable pub reads : List ℕ → ℕ → Bool
reads flags i = not (bit_and (get_or flags (i / 8) 0) (byte_mask i) == 0)

writes : List ℕ → ℕ → Bool → List ℕ
writes flags i v = set flags (i / 8) (set_bit (get_or flags (i / 8) 0) (byte_mask i) v)

-- In the byte of the flag that was set.
reads_same :
    (flags : List ℕ) (i j : ℕ) (v : Bool)
    → get_or flags (i / 8) 0 < 256
    → i / 8 < length flags
    → (i / 8 ≡ j / 8)
    → reads (writes flags i v) j ≡ (if i == j then v else reads flags j)
unfolding reads writes
reads_same flags i j v b p e =
    let byte = get_or flags (i / 8) 0 in
    let byte' = set_bit byte (byte_mask i) v in
    let same_digit : (i % 8 == j % 8) ≡ (i == j) = ground arith in
    let tested : ℕ → ℕ → Bool = λ byte mask. not (bit_and byte mask == 0) in
    ap (λ (t : ℕ). tested (get_or (set flags (i / 8) byte') t 0) (byte_mask j)) (sym e)
    ∙ ap (λ (t : ℕ). tested t (byte_mask j)) (get_or-set_self flags (i / 8) byte' 0 p)
    ∙ ap₂ (λ (s t : ℕ). tested (set_bit byte s v) t) (byte_mask-mod i) (byte_mask-mod j)
    ∙ byte_after byte (i % 8) (j % 8) v b (omega arith) (omega arith)
    ∙ ap₂ (λ (c : Bool) (t : ℕ). if c then v else tested byte t) same_digit (sym (byte_mask-mod j))
    ∙ ap (λ (t : ℕ). if i == j then v else tested (get_or flags t 0) (byte_mask j)) e

-- One flag of the 256 after another one was set.
reads-writes :
    (flags : List ℕ) (i j : ℕ) (v : Bool)
    → length flags ≡ 32
    → ((k : ℕ) → get_or flags k 0 < 256)
    → i < 256
    → reads (writes flags i v) j ≡ (if i == j then v else reads flags j)
unfolding reads writes
reads-writes flags i j v n b p = elim (ℕ_discrete (i / 8) (j / 8)) [
  | no ne ↦
      let differ : (i == j) ≡ false = ne→== i j (λ e. ne (ap (λ (t : ℕ). t / 8) e)) in
      rw
        (
          get_or-set_ne flags (i / 8) (j / 8) (set_bit (get_or flags (i / 8) 0) (byte_mask i) v) 0
              ne,
          differ,
        )
        refl
  | yes e ↦ reads_same flags i j v (b (i / 8)) (omega (arith, n, p)) e
]

set_bit-lt : (byte mask : ℕ) (v : Bool) → set_bit byte mask v < 256
unfolding set_bit
set_bit-lt byte mask true = omega arith
set_bit-lt byte mask false = omega arith

writes-lt :
    (flags : List ℕ) (i : ℕ) (v : Bool)
    → length flags ≡ 32
    → ((k : ℕ) → get_or flags k 0 < 256)
    → i < 256
    → (k : ℕ) → get_or (writes flags i v) k 0 < 256
unfolding writes
writes-lt flags i v n b p k = elim (ℕ_discrete (i / 8) k) [
  | no ne ↦
      let same : get_or (set flags (i / 8) byte') k 0 ≡ get_or flags k 0 =
        get_or-set_ne flags (i / 8) k byte' 0 ne in
      omega (arith, same, b k)
  | yes e ↦
      let new : get_or (set flags (i / 8) byte') k 0 ≡ byte' =
        ap (λ (t : ℕ). get_or (set flags (i / 8) byte') t 0) (sym e)
        ∙ get_or-set_self flags (i / 8) byte' 0 (omega (arith, n, p)) in
      omega (arith, new, set_bit-lt (get_or flags (i / 8) 0) (byte_mask i) v)
]
  where
    byte' : ℕ
    byte' = set_bit (get_or flags (i / 8) 0) (byte_mask i) v

-- The set after a flag was set, for a valid one.
set_valid :
    (pf : PropFlags) (prop : ℕ) (v : Bool)
    → valid_flag_prop pf prop ≡ true
    → prop_flags_set pf prop v ≡ (true, record pf { flags = writes pf.flags (prop % 256) v })
unfolding prop_flags_set writes
set_valid pf prop v h = rw (h, index-mod prop) refl

pub get_valid :
    (pf : PropFlags) (prop : ℕ)
    → valid_flag_prop pf prop ≡ true
    → prop_flags_get pf prop ≡ reads pf.flags (prop % 256)
unfolding prop_flags_get reads
get_valid pf prop h = rw (h, index-mod prop) refl

set_other :
    (pf : PropFlags) (prop : ℕ) (v : Bool)
    → valid_flag_prop pf prop ≡ false
    → prop_flags_set pf prop v ≡ (false, pf)
unfolding prop_flags_set
set_other pf prop v h = rw h refl

pub get_other :
    (pf : PropFlags) (prop : ℕ) → valid_flag_prop pf prop ≡ false → prop_flags_get pf prop ≡ false
unfolding prop_flags_get
get_other pf prop h = rw h refl

-- What a flag reads after a valid one was set.
get_after :
    (pf : PropFlags) (prop other : ℕ) (v : Bool)
    → IsFlags pf
    → prop < 2 ^ 32
    → other < 2 ^ 32
    → valid_flag_prop pf prop ≡ true
    → prop_flags_get (record pf { flags = writes pf.flags (prop % 256) v }) other
      ≡ (if prop == other then v else prop_flags_get pf other)
unfolding valid_flag_prop
get_after pf prop other v w p q h =
    let pf' : PropFlags = record pf { flags = writes pf.flags (prop % 256) v } in
    elim (Bool-cases (valid_flag_prop pf other)) [
      | inr f ↦
          let ne : (prop == other) ≡ false =
            ne→== prop other (λ e. false≢true (sym f ∙ ap (valid_flag_prop pf) (sym e) ∙ h)) in
          get_other pf' other f ∙ rw ne (sym (get_other pf other f))
      | inl t ↦
          let byte_index : (prop % 256 == other % 256) ≡ (prop == other) =
            elim (ℕ_discrete (prop % 256) (other % 256)) [
              | yes e ↦ let same = one_index pf prop other p q h t e in ground arith
              | no ne ↦ ground arith
            ] in
          get_valid pf' other t
          ∙ reads-writes pf.flags (prop % 256) (other % 256) v w.count w.bytes (omega arith)
          ∙ rw (byte_index, sym (get_valid pf other t)) refl
    ]

-- `prop_flags_set` answers whether the flag belongs to the set. Of a set of 32 bytes it makes a set of
-- 32 bytes. Then a flag that belongs to the set reads the value if it is the one that was set, and every
-- other identifier, valid or not, reads as before.
pub prop_flags_get-set :
    (pf : PropFlags) (prop other : ℕ) (value : Bool)
    → IsFlags pf
    → prop < 2 ^ 32
    → other < 2 ^ 32
    → ((prop_flags_set pf prop value).0 ≡ valid_flag_prop pf prop)
      × IsFlags (prop_flags_set pf prop value).1
      × (prop_flags_get (prop_flags_set pf prop value).1 other
          ≡ (if valid_flag_prop pf prop && prop == other then value else prop_flags_get pf other))
unfolding writes
prop_flags_get-set pf prop other value w p q = elim (Bool-cases (valid_flag_prop pf prop)) [
  | inr f ↦ rw (set_other pf prop value f, f) (refl, w, refl)
  | inl t ↦
      rw (set_valid pf prop value t, t)
        (
          refl,
          record {
            count = length-set pf.flags (prop % 256 / 8) _ ∙ w.count;
            bytes = writes-lt pf.flags (prop % 256) value w.count w.bytes (omega arith);
          },
          get_after pf prop other value w p q t,
        )
]
