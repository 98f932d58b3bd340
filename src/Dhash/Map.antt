-- ===== src/Dhash/Map.antt =====
-- src/util/dhash.c: the table as a map from keys to values, through `dh_lookup`.
use cstone.Prelude.{
  ◌≡◌, refl, sym, ap, ◌∙◌, ◌∷◌, Bool, true, false, inl, inr, Option, none, some, arith,
  if◌then◌else◌, Bool-cases, Option-cases,
}
use cstone.Dhash.{DhKey, null_key, Dhash, bucket_of, get_entry_unsafe, find_bucket, lookup}
use cstone.Dhash.Table.{remove}
use cstone.Dhash.Inv.{IsValid}
use cstone.Dhash.Find.{Found-cases, find_bucket_sound, lookup_iff, lookup_found, lookup_missed}
use cstone.Dhash.Adds.{Has, Adds}
use cstone.Dhash.Remove.{Removes, remove_missed, remove_found}

-- Two options that hold the same values are equal.
pub Option-ext {ℓ} :
    {A : Type ℓ} {a b : Option A}
    → ((x : A) → a ≡ some x → b ≡ some x)
    → ((x : A) → b ≡ some x → a ≡ some x)
    → a ≡ b
Option-ext {a = none} {b = none} f g = refl
Option-ext {a = some x} {b} f g = sym (f x refl)
Option-ext {a = none} {b = some y} f g = g y refl

module _ {V : Type 0} {hash hash' : Dhash V} (v : IsValid hash) (key k : DhKey) where
  pub Adds-lookup :
      (value : V)
      → Adds hash hash' key value
      → lookup hash' k ≡ (if hash.is_equal key k then some value else lookup hash k)
  Adds-lookup value a = elim (Bool-cases (hash.is_equal key k)) [
    | inl same ↦ rw same ((lookup_iff a.valid k value).1 (a.new k same))
    | inr other ↦ rw other (
        Option-ext (λ x e. (lookup_iff v k x).1 (a.only k x other ((lookup_iff a.valid k x).0 e)))
          (λ x e. (lookup_iff a.valid k x).1 (a.kept k x other ((lookup_iff v k x).0 e))))
  ]

  pub Removes-lookup :
      Removes hash hash' key
      → lookup hash' k ≡ (if hash.is_equal key k then none else lookup hash k)
  Removes-lookup r = elim (Bool-cases (hash.is_equal key k)) [
    | inl same ↦ rw same (elim (Option-cases (lookup hash' k)) [
      | inl missed ↦ missed
      | inr (x, e) ↦ absurd (r.gone k x same ((lookup_iff r.valid k x).0 e))
    ])
    | inr other ↦ rw other (
        Option-ext (λ x e. (lookup_iff v k x).1 (r.only k x ((lookup_iff r.valid k x).0 e)))
          (λ x e. (lookup_iff r.valid k x).1 (r.kept k x other ((lookup_iff v k x).0 e))))
  ]

module _ {V : Type 0} {hash : Dhash V} (v : IsValid hash) (key : DhKey) where
  missed-Removes : bucket_of (find_bucket hash key) ≡ none → Removes hash hash key
  missed-Removes e = record {
    valid = v;
    gen_hash = refl;
    is_equal = refl;
    gone = gone;
    kept = λ k x ne h. h;
    only = λ k x h. h;
  }
    where
      gone : (k : DhKey) (x : V) → hash.is_equal key k ≡ true → Has hash k x → ⊥
      gone k x same h =
          let found : lookup hash key ≡ some x = (lookup_iff v key x).1 (record {
            index = h.index;
            inside = h.inside;
            live = h.live;
            equal =
                v.laws.join (get_entry_unsafe hash h.index).key k key h.equal
                  (v.laws.flip key k same);
            stored = h.stored;
          }) in
          ground (arith, lookup_missed v key e)

  -- In a well-formed table, `dh_remove` hands over what `dh_lookup` finds for the key. It leaves a
  -- well-formed table, where the lookup of an equal key finds nothing and that of another key what it
  -- found before.
  pub remove-lookup :
      (wanted : Bool) (k : DhKey)
      → ((remove hash key wanted).0 ≡ lookup hash key)
        × IsValid (remove hash key wanted).1
        × (lookup (remove hash key wanted).1 k
            ≡ (if hash.is_equal key k then none else lookup hash k))
  remove-lookup wanted k = elim (Found-cases (find_bucket hash key)) [
    | inl missed ↦
        rw (remove_missed v key wanted missed)
          (sym (lookup_missed v key missed), v, Removes-lookup v key k (missed-Removes missed))
    | inr (b, found) ↦
        let (same, r) = remove_found v key wanted b found in
        (same, r.valid, Removes-lookup v key k r)
  ]

  -- Where a well-formed table finds a value for the key and the caller does not ask for it, `dh_remove`
  -- calls `destroy_item` for the value, once, with a key that is NULL and of length 0.
  pub remove-destroys :
      (value : V)
      → lookup hash key ≡ some value
      → (remove hash key false).1.destroyed ≡ (null_key, value) ∷ hash.destroyed
  unfolding remove
  remove-destroys value e = elim (Found-cases (find_bucket hash key)) [
    | inl missed ↦ absurd (ground (arith, lookup_missed v key missed))
    | inr (b, found) ↦
        let (inside, live, equal) = find_bucket_sound v key b found in
        let q : (get_entry_unsafe hash b).value_obj ≡ value =
          (let t = sym (lookup_found v key b found live.kept) ∙ e in ground (arith, t)) in
        rw (remove, found) (ap (λ t. (null_key, t) ∷ hash.destroyed) q)
  ]
