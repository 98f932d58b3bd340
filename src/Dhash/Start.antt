-- ===== src/Dhash/Start.antt =====
-- src/util/dhash.c: a table as `dh_init` leaves it is well formed and empty.
use cstone.Prelude.{
  ℕ, zero, suc, ◌-◌, ◌/◌, ◌+◌, ◌≤◌, max, ◌≡◌, refl, ap, ◌∙◌, Bool, true, ◌⊎◌, inl, inr, Option,
  none, some, ◌∷◌, arith, take, replicate, Bool-cases, Option-cases,
}
use cstone.PrimeModulus.{num_prime_moduli, get_prime}
use cstone.PrimeModulus.Laws.{closest_prime-least, closest_prime_below-greatest, get_prime-least}
use cstone.Dhash.{DhKey, Dhash, empty_entry, lookup}
use cstone.Dhash.Table.{entry_size, round_up_align, alloc_buckets, may_grow}
use cstone.Dhash.Setup.{DhConfig, blank_table, init_external, init_new, init}
use cstone.Dhash.Inv.{KeyLaws, IsValid}
use cstone.Dhash.Find.{lookup_iff}
use cstone.Dhash.Fresh.{Fresh, alloc_cases, Fresh-empty, Fresh-IsValid}

take-replicate : {A : Type 0} (n m : ℕ) (a : A) → n ≤ m → take n (replicate m a) ≡ replicate n a
take-replicate zero m a l = refl
take-replicate (suc n) zero a l = absurd (omega (arith, l))
take-replicate (suc n) (suc m) a l = ap (λ t. a ∷ t) (take-replicate n m a (omega (arith, l)))

module _ {V : Type 0} (allocates : ℕ → Bool) (config : DhConfig V) (zeroed : V)
    (gen_hash : DhKey → ℕ) (is_equal : DhKey → DhKey → Bool) where
  -- The buckets that fit in the external buffer.
  abbrev pub ext_buckets : ℕ
  ext_buckets = config.max_storage / (entry_size + round_up_align config.value_size)

  abbrev Starts : Option (Option (Dhash V)) → Type 0
  Starts o =
      (o ≡ some none)
      ⊎ ((hash : Dhash V) × (r : ℕ) × (q : ℕ) × (o ≡ some (some hash))
          × Fresh (blank_table allocates config zeroed q gen_hash is_equal) hash r)

  external-Starts :
      (q : ℕ)
      → get_prime 0 ≤ ext_buckets
      → Starts (
          init_external allocates config zeroed
            (blank_table allocates config zeroed q gen_hash is_equal))
  unfolding init_external
  external-Starts q room =
      let (r, e, inside, fits, greatest) = closest_prime_below-greatest ext_buckets room in
      inr (
        record (blank_table allocates config zeroed q gen_hash is_equal) {
          buckets = take (get_prime r) (replicate ext_buckets (empty_entry zeroed));
          prime_ix = r;
          num_buckets = get_prime r;
          static_buckets = true;
        },
        r,
        q,
        rw (init_external, e) refl,
        record {
          buckets = take-replicate (get_prime r) ext_buckets (empty_entry zeroed) fits;
          num_buckets = refl;
          prime = refl;
          gen_hash = refl;
          is_equal = refl;
          replace_item = refl;
          zeroed = refl;
        },
      )

  new-Starts :
      config.init_buckets ≤ get_prime (num_prime_moduli - 1)
      → (config.ext_storage ≡ true → get_prime 0 ≤ ext_buckets)
      → Starts (init_new allocates config zeroed gen_hash is_equal)
  unfolding init_new
  new-Starts within room =
      let (r, e, inside, above, least) = closest_prime-least config.init_buckets within in
      elim (Bool-cases (
        may_grow (round_up_align config.value_size) config.max_storage config.ext_storage
          config.grow_hash (get_prime r))) [
            | inr refused ↦ inl (rw (init_new, e, refused) refl)
            | inl allowed ↦ elim (Bool-cases config.ext_storage) [
              | inl external ↦
                  let q : init_new allocates config zeroed gen_hash is_equal
                      ≡ init_external allocates config zeroed
                          (blank_table allocates config zeroed r gen_hash is_equal) =
                    rw (init_new, e, allowed, external) refl in
                  rw q (external-Starts r (room external))
              | inr internal ↦
                  let blank = blank_table allocates config zeroed r gen_hash is_equal in
                  let q : init_new allocates config zeroed gen_hash is_equal
                      ≡ some (alloc_buckets allocates blank (get_prime r)) =
                    rw (init_new, e, allowed, internal) refl in
                  rw q (elim (alloc_cases allocates blank (get_prime r)) [
                    | inl full ↦ inl (ap some full)
                    | inr got ↦ inr (
                      record blank {
                        num_buckets = max (get_prime r) (get_prime 0);
                        buckets = replicate (max (get_prime r) (get_prime 0)) (empty_entry zeroed);
                      },
                      r,
                      r,
                      ap some got,
                      record {
                        buckets = ap (λ t. replicate t (empty_entry zeroed)) (largest r);
                        num_buckets = largest r;
                        prime = refl;
                        gen_hash = refl;
                        is_equal = refl;
                        replace_item = refl;
                        zeroed = refl;
                      },
                    )
                  ])
            ]
          ]
    where
      largest : (r : ℕ) → max (get_prime r) (get_prime 0) ≡ get_prime r
      largest r = omega (arith, get_prime-least r)

  -- Where all callbacks that are required are given, the hash and the comparison of keys obey `KeyLaws`,
  -- the number of buckets asked for is at most the
  -- largest prime of the list, and an external buffer has room for 11 buckets, `dh_init` returns. The table
  -- that it sets up is well formed, and a lookup in it finds nothing.
  pub init-empty :
      config.gen_hash ≡ some gen_hash
      → config.is_equal ≡ some is_equal
      → config.destroy_item ≡ true
      → KeyLaws gen_hash is_equal
      → config.init_buckets ≤ get_prime (num_prime_moduli - 1)
      → (config.ext_storage ≡ true → get_prime 0 ≤ ext_buckets)
      → (init allocates config zeroed ≡ some none)
        ⊎ ((hash : Dhash V) × (init allocates config zeroed ≡ some (some hash))
            × IsValid hash
            × ((key : DhKey) → lookup hash key ≡ none))
  unfolding init init_new init_external
  init-empty hashing equality destroying laws within room = elim (new-Starts within room) [
    | inl refused ↦ inl (same ∙ refused)
    | inr (hash, r, q, e, fresh) ↦
        let v : IsValid hash = Fresh-IsValid fresh laws in
        inr (
          hash,
          same ∙ e,
          v,
          λ key. elim (Option-cases (lookup hash key)) [
            | inl missed ↦ missed
            | inr (x, f) ↦ absurd (Fresh-empty fresh key x ((lookup_iff v key x).0 f))
          ],
        )
  ]
    where
      same : init allocates config zeroed ≡ init_new allocates config zeroed gen_hash is_equal
      same = rw (init, hashing, equality, destroying) refl
