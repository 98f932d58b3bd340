-- ===== src/Dhash/Growth.antt =====
-- src/util/dhash.c: `dh_insert`, with the growth of the table, through `dh_lookup`.
use cstone.Prelude.{
  ℕ, ◌≡◌, ◌≤◌, ◌<◌, leb, leb→le, refl, sym, ap₂, ◌∙◌, Bool, true, false, ◌⊎◌, inl, inr, none, some,
  arith, if◌then◌else◌, Bool-cases,
}
use cstone.Dhash.{DhKey, Dhash, empty_entry, max_load_factor, get_entry_unsafe, lookup}
use cstone.Dhash.Storage.{Inserted}
use cstone.Dhash.Table.{remove, insert_hashed, insert, grow, init_grown}
use cstone.Dhash.Inv.{Usable, IsValid}
use cstone.Dhash.Find.{lookup_iff}
use cstone.Dhash.Adds.{Has, Adds}
use cstone.Dhash.Insert.{insert_ex-Adds}
use cstone.Dhash.Ends.{insert_ex-Succeeds}
use cstone.Dhash.Count.{used_count_unused}
use cstone.Dhash.Grow.{most_buckets, wanted_buckets, Grown, grow_cases}
use cstone.Dhash.Map.{Option-ext, Adds-lookup, remove-lookup}

module _ {V : Type 0} {hash : Dhash V} (v : IsValid hash) where
  Has-equal : (key k : DhKey) (x : V) → hash.is_equal key k ≡ true → Has hash key x → Has hash k x
  Has-equal key k x same h = record {
    index = h.index;
    inside = h.inside;
    live = h.live;
    equal = v.laws.join (get_entry_unsafe hash h.index).key key k h.equal same;
    stored = h.stored;
  }

  lookup-equal : (key k : DhKey) → hash.is_equal key k ≡ true → lookup hash k ≡ lookup hash key
  lookup-equal key k same =
      Option-ext
        (λ x e.
          (lookup_iff v key x).1
            (Has-equal k key x (v.laws.flip key k same) ((lookup_iff v k x).0 e)))
        (λ x e. (lookup_iff v k x).1 (Has-equal key k x same ((lookup_iff v key x).0 e)))

  Grown-lookup : {hash' : Dhash V} → Grown hash hash' → (k : DhKey) → lookup hash' k ≡ lookup hash k
  Grown-lookup g k =
      Option-ext (λ x e. (lookup_iff v k x).1 (g.only k x ((lookup_iff g.valid k x).0 e)))
        (λ x e. (lookup_iff g.valid k x).1 (g.kept k x ((lookup_iff v k x).0 e)))

  -- A table that has grown has an unused bucket.
  spare :
      {hash' : Dhash V}
      → Grown hash hash'
      → (u : ℕ) × (u < hash'.num_buckets) × ((get_entry_unsafe hash' u).probe_count ≡ 0)
  unfolding get_entry_unsafe
  spare {hash'} g =
      let (u, inside, free) =
        used_count_unused hash'.buckets (empty_entry hash'.zeroed)
          (omega (arith, g.room, g.valid.sized)) in
      (u, omega (arith, inside, g.valid.sized), free)

  module _ (allocates : ℕ → Bool) (fuel : ℕ) (no_replace : hash.replace_item ≡ none)
      (small : hash.num_buckets < most_buckets) (enough : most_buckets ≤ fuel) where
    -- `dh__grow` returns on a well-formed table without `replace_item`, where the table has and is asked to
    -- have less than 32261 buckets. Either it returns true, and the table has more buckets than before; or
    -- it returns false and leaves the table, because the buckets are static or no larger storage could be
    -- set up. The table is well formed after it and finds what it found before. No item takes more than
    -- 32261 rounds.
    pub grow-lookup :
        (new_buckets : ℕ)
        → new_buckets < most_buckets
        → (ok : Bool) × (hash' : Dhash V) × (grow allocates fuel hash new_buckets
            ≡ some (ok, hash'))
          × IsValid hash'
          × ((k : DhKey) → lookup hash' k ≡ lookup hash k)
          × (((ok ≡ true) × (hash.num_buckets < hash'.num_buckets))
              ⊎ ((ok ≡ false)
                  × (hash' ≡ hash)
                  × ((hash.static_buckets ≡ true)
                      ⊎ (init_grown allocates hash (wanted_buckets hash new_buckets) ≡ some none))))
    grow-lookup new_buckets within =
        elim (grow_cases v allocates fuel new_buckets no_replace small within enough) [
          | inl (failed, reason) ↦ (false, hash, failed, v, (λ k. refl), inr (refl, refl, reason))
          | inr (hash', e, g) ↦ (true, hash', e, g.valid, Grown-lookup g, inl (refl, g.larger))
        ]

    module _ (key : DhKey) (value : V) (usable : Usable hash.gen_hash hash.is_equal key) where
      light :
          leb (max_load_factor hash.num_buckets) hash.used_buckets ≡ false
          → insert allocates fuel hash key value ≡ insert_hashed fuel hash key value
      unfolding insert
      light e = rw (insert, e) refl

      heavy_failed :
          leb (max_load_factor hash.num_buckets) hash.used_buckets ≡ true
          → grow allocates fuel hash 0 ≡ some (false, hash)
          → insert allocates fuel hash key value
            ≡ some (record { ok = false; table = hash; buffer = value })
      unfolding insert
      heavy_failed e f = rw (insert, e, f) refl

      heavy_grown :
          {hash' : Dhash V}
          → leb (max_load_factor hash.num_buckets) hash.used_buckets ≡ true
          → grow allocates fuel hash 0 ≡ some (true, hash')
          → insert allocates fuel hash key value ≡ insert_hashed fuel hash' key value
      unfolding insert
      heavy_grown e f = rw (insert, e, f) refl

      hashed-Adds :
          {hash' : Dhash V} (v' : IsValid hash')
          (usable' : Usable hash'.gen_hash hash'.is_equal key)
          → (result : Inserted V) → insert_hashed fuel hash' key value ≡ some result
          → result.ok ≡ true
          → Adds hash' result.table key value
      unfolding insert_hashed
      hashed-Adds v' usable' result e ok = insert_ex-Adds v' fuel key value usable' result e ok

      insert_facts :
          (k : DhKey) (result : Inserted V)
          → insert allocates fuel hash key value ≡ some result
          → result.ok ≡ true
          → IsValid result.table
            × (result.table.is_equal ≡ hash.is_equal)
            × (lookup result.table k ≡ (if hash.is_equal key k then some value else lookup hash k))
      insert_facts k result e ok =
          elim (Bool-cases (leb (max_load_factor hash.num_buckets) hash.used_buckets)) [
            | inr few ↦
                let a = hashed-Adds v usable result (sym (light few) ∙ e) ok in
                (a.valid, a.is_equal, Adds-lookup v key k value a)
            | inl many ↦
                elim (grow_cases v allocates fuel 0 no_replace small (omega arith) enough) [
                  | inl (failed, reason) ↦
                      absurd (refused result (sym (heavy_failed many failed) ∙ e) ok)
                  | inr (hash', f, g) ↦
                      let a =
                        hashed-Adds g.valid (rw (g.gen_hash, g.is_equal) usable) result
                          (sym (heavy_grown many f) ∙ e) ok in
                      (
                        a.valid,
                        a.is_equal ∙ g.is_equal,
                        Adds-lookup g.valid key k value a
                            ∙ ap₂ (λ f t. if f key k then some value else t) g.is_equal
                                (Grown-lookup g k),
                      )
                ]
          ]
        where
          refused :
              (result : Inserted V)
              → some (record { ok = false; table = hash; buffer = value }) ≡ some result
              → result.ok ≡ true
              → ⊥
          refused result e ok = ground arith

      -- A usable key is one that no tombstone passes for. Where `dh_insert` of such a key returns true,
      -- on a well-formed table of less than 32261 buckets without `replace_item`, the table is well formed
      -- after it, growth included. The lookup of an equal key finds the value, and that of another key
      -- what it found before.
      pub insert-lookup :
          (k : DhKey) (result : Inserted V)
          → insert allocates fuel hash key value ≡ some result
          → result.ok ≡ true
          → IsValid result.table
            × (lookup result.table k ≡ (if hash.is_equal key k then some value else lookup hash k))
      insert-lookup k result e ok =
          let (valid, same, found) = insert_facts k result e ok in (valid, found)

      -- Where no value was found for the key and `dh_insert` returns true, a `dh_remove` of the key hands
      -- the value back, and every lookup finds what it found before the two calls. The conditions are those
      -- of `insert-lookup`.
      pub remove-insert :
          (result : Inserted V)
          → lookup hash key ≡ none
          → insert allocates fuel hash key value ≡ some result
          → result.ok ≡ true
          → ((remove result.table key true).0 ≡ some value)
            × ((k : DhKey) → lookup (remove result.table key true).1 k ≡ lookup hash k)
      remove-insert result absent e ok = (taken, restored)
        where
          taken : (remove result.table key true).0 ≡ some value
          taken =
              let (valid, same, found) = insert_facts key result e ok in
              (remove-lookup valid key true key).0 ∙ found ∙ rw (v.laws.same key) refl

          restored : (k : DhKey) → lookup (remove result.table key true).1 k ≡ lookup hash k
          restored k =
              let (valid, same, found) = insert_facts k result e ok in
              (remove-lookup valid key true k).2
              ∙ ap₂ (λ f t. if f key k then none else t) same found
              ∙ elim (Bool-cases (hash.is_equal key k)) [
                | inl equal ↦ rw equal (sym (lookup-equal key k equal ∙ absent))
                | inr other ↦ rw other refl
              ]

      -- `dh_insert` of a usable key returns, on a well-formed table of less than 32261 buckets that has an
      -- unused bucket and no `replace_item`. It returns false only where the load is too high and
      -- `dh__grow`, called for this table, failed, because its buckets are static or no larger storage could
      -- be set up; then it leaves the table as it was.
      pub insert_returns :
          (u : ℕ)
          → u < hash.num_buckets
          → (get_entry_unsafe hash u).probe_count ≡ 0
          → (result : Inserted V) × (insert allocates fuel hash key value ≡ some result)
            × ((result.ok ≡ true)
                ⊎ ((result.ok ≡ false)
                    × (result.table ≡ hash)
                    × (max_load_factor hash.num_buckets ≤ hash.used_buckets)
                    × (grow allocates fuel hash 0 ≡ some (false, hash))
                    × ((hash.static_buckets ≡ true)
                        ⊎ (init_grown allocates hash (wanted_buckets hash 0) ≡ some none))))
      unfolding insert_hashed
      insert_returns u inside free =
          elim (Bool-cases (leb (max_load_factor hash.num_buckets) hash.used_buckets)) [
            | inr few ↦
                let (result, e, ok) =
                  insert_ex-Succeeds v fuel u key value usable no_replace (omega (arith, small))
                    inside free (omega (arith, small, enough)) in
                (result, light few ∙ e, inl ok)
            | inl many ↦
                elim (grow_cases v allocates fuel 0 no_replace small (omega arith) enough) [
                  | inl (failed, reason) ↦ (
                    _,
                    heavy_failed many failed,
                    inr (refl, refl, leb→le _ hash.used_buckets many, failed, reason),
                  )
                  | inr (hash', f, g) ↦
                      let (w, within, unused) = spare g in
                      let (result, e, ok) =
                        insert_ex-Succeeds g.valid fuel w key value
                          (rw (g.gen_hash, g.is_equal) usable) (g.replace_item ∙ no_replace)
                          (omega (arith, g.size)) within unused (omega (arith, g.size, enough)) in
                      (result, heavy_grown many f ∙ e, inl ok)
                ]
          ]
