-- ===== src/Dhash/Inv.antt =====
-- src/util/dhash.c: what makes a table well formed. The buckets are seen as a function from an index.
use cstone.Prelude.{
  ℕ, zero, suc, ◌+◌, ◌-◌, ◌%◌, ◌≤◌, ◌<◌, ◌≡◌, ◌≢◌, refl, sym, ap, ◌∙◌, Bool, true, false, arith,
  leb, if◌then◌else◌, ℕ_discrete, List, [], ◌∷◌, length, get_or, set,
}
use native.Mathlib.Nat.{mod-lt, mod-add-mod, mod-eq_of_lt, mod_self}
use cstone.PrimeModulus.{get_prime}
use cstone.Dhash.{
  DhKey, null_key, Entry, Dhash, max_probe_count, get_entry_unsafe, set_entry, next_bucket,
  hash_int,
}

-- The `i`th bucket of the probe sequence of a hashed key.
abbrev pub slot : ℕ → ℕ → ℕ → ℕ
slot n ikey i = (ikey + i) % n

pub record IsLive {V : Type 0} (entry : Entry V) : Type 0 where
  pub used : entry.probe_count ≢ 0
  pub kept : entry.deleted ≡ false

-- What `is_equal` and `gen_hash` have to be: an equivalence, and a hash that respects it.
pub record KeyLaws (gen_hash : DhKey → ℕ) (is_equal : DhKey → DhKey → Bool) : Type 0 where
  pub same : (a : DhKey) → is_equal a a ≡ true
  pub flip : (a b : DhKey) → is_equal a b ≡ true → is_equal b a ≡ true
  pub join : (a b c : DhKey) → is_equal a b ≡ true → is_equal b c ≡ true → is_equal a c ≡ true
  pub hash : (a b : DhKey) → is_equal a b ≡ true → gen_hash a ≡ gen_hash b

-- A key that no tombstone passes for: the key of a tombstone is NULL and its hash 0.
abbrev pub Usable : (DhKey → ℕ) → (DhKey → DhKey → Bool) → DhKey → Type 0
Usable gen_hash is_equal key = hash_int (gen_hash key) ≡ 0 → is_equal null_key key ≡ false

-- An entry is found on the probe sequence of its key, behind buckets with as many probes or more.
pub record Placed {V : Type 0} (gen_hash : DhKey → ℕ) (is_equal : DhKey → DhKey → Bool) (n : ℕ)
    (at : ℕ → Entry V) (b : ℕ) : Type 0 where
  pub home : b ≡ slot n (at b).ikey ((at b).probe_count - 1)
  pub hashed : (at b).ikey ≡ hash_int (gen_hash (at b).key)
  pub usable : Usable gen_hash is_equal (at b).key
  pub bounded : (at b).probe_count ≤ max_probe_count
  pub chain : (i : ℕ) → suc i < (at b).probe_count → i < (at (slot n (at b).ikey i)).probe_count
  pub only : (c : ℕ) → c < n → IsLive (at c) → is_equal (at c).key (at b).key ≡ true → c ≡ b

-- Each bucket of the table is unused, a tombstone or placed.
pub record Arranged {V : Type 0} (gen_hash : DhKey → ℕ) (is_equal : DhKey → DhKey → Bool) (n : ℕ)
    (at : ℕ → Entry V) : Type 0 where
  pub unused : (b : ℕ) → b < n → (at b).probe_count ≡ 0 → (at b).deleted ≡ false
  pub tombstone :
      (b : ℕ) → b < n → (at b).deleted ≡ true → ((at b).ikey ≡ 0) × ((at b).key ≡ null_key)
  pub placed : (b : ℕ) → b < n → IsLive (at b) → Placed gen_hash is_equal n at b

pub record IsValid {V : Type 0} (hash : Dhash V) : Type 0 where
  pub laws : KeyLaws hash.gen_hash hash.is_equal
  pub sized : length hash.buckets ≡ hash.num_buckets
  pub prime : hash.num_buckets ≡ get_prime hash.prime_ix
  pub some_buckets : 0 < hash.num_buckets
  pub arranged : Arranged hash.gen_hash hash.is_equal hash.num_buckets (get_entry_unsafe hash)

-- The table has an entry with the key and this value.
pub record Holds {V : Type 0} (is_equal : DhKey → DhKey → Bool) (n : ℕ) (at : ℕ → Entry V)
    (key : DhKey) (value : V) : Type 0 where
  pub index : ℕ
  pub inside : index < n
  pub live : IsLive (at index)
  pub equal : is_equal (at index).key key ≡ true
  pub stored : (at index).value_obj ≡ value

-- One bucket is written.
pub record Written {V : Type 0} (at at' : ℕ → Entry V) (b : ℕ) (entry : Entry V) : Type 0 where
  pub here : at' b ≡ entry
  pub elsewhere : (c : ℕ) → c ≢ b → at' c ≡ at c

pub slot-inside : (n ikey i : ℕ) → 0 < n → slot n ikey i < n
slot-inside n ikey i h = mod-lt (ikey + i) h

-- Getting what was set, in and out of place.
pub get_or-set_self {ℓ} :
    {A : Type ℓ} (xs : List A) (b : ℕ) (x d : A) → b < length xs → get_or (set xs b x) b d ≡ x
get_or-set_self [] b x d h = absurd (omega (arith, h))
get_or-set_self (y ∷ xs) zero x d h = refl
get_or-set_self (y ∷ xs) (suc b) x d h = get_or-set_self xs b x d (omega (arith, h))

pub get_or-set_ne {ℓ} :
    {A : Type ℓ} (xs : List A) (b c : ℕ) (x d : A) → c ≢ b → get_or (set xs b x) c d ≡ get_or xs c d
get_or-set_ne [] b c x d h = refl
get_or-set_ne (y ∷ xs) zero zero x d h = absurd (h refl)
get_or-set_ne (y ∷ xs) zero (suc c) x d h = refl
get_or-set_ne (y ∷ xs) (suc b) zero x d h = refl
get_or-set_ne (y ∷ xs) (suc b) (suc c) x d h = get_or-set_ne xs b c x d (λ e. h (ap suc e))

module _ {V : Type 0} where
  pub set_entry-Written :
      (hash : Dhash V) (b : ℕ) (entry : Entry V)
      → b < length hash.buckets
      → Written (get_entry_unsafe hash) (get_entry_unsafe (set_entry hash b entry)) b entry
  unfolding get_entry_unsafe set_entry
  set_entry-Written hash b entry h = record {
    here = get_or-set_self hash.buckets b entry _ h;
    elsewhere = λ c ne. get_or-set_ne hash.buckets b c entry _ ne;
  }

  pub next_bucket-slot :
      (hash : Dhash V) {n : ℕ} (ikey i : ℕ)
      → n ≡ get_prime hash.prime_ix
      → 0 < n
      → next_bucket hash (slot n ikey i) ≡ slot n ikey (suc i)
  unfolding next_bucket
  next_bucket-slot hash {n} ikey i e h = rw (sym e) (
      around
      ∙ mod-add-mod (ikey + i) n 1
      ∙ (let r : (ikey + i + 1) % n ≡ slot n ikey (suc i) = ap (λ (t : ℕ). t % n) (omega arith) in
          r))
    where
      around :
          (if leb n (slot n ikey i + 1) then slot n ikey i + 1 - n else slot n ikey i + 1)
          ≡ (slot n ikey i + 1) % n
      around = elim (ℕ_discrete (slot n ikey i + 1) n) [
        | yes full ↦ rw full (ground (arith, mod_self n))
        | no room ↦
            rw
              (mod-eq_of_lt {n = slot n ikey i + 1} {m = n}
                (omega (arith, slot-inside n ikey i h, room)))
              (ground (arith, slot-inside n ikey i h, room))
      ]
