-- ===== src/Dhash/Table.antt =====
-- src/util/dhash.c: the set-up, growth and use of a whole table. `allocates` says for which sizes in
-- bytes `calloc` finds memory.
use cstone.Prelude.{
  ℕ, ◌+◌, ◌-◌, ◌*◌, ◌/◌, ◌%◌, max, Bool, true, false, not, Option, none, some, List, [], ◌∷◌, ◌&&◌,
  ◌||◌, ltb, leb, ◌==◌, if◌then◌else◌, take, u32, replicate,
}
use cstone.PrimeModulus.{get_prime, get_closest_prime_index}
use cstone.Dhash.{
  DhKey, null_key, Entry, Dhash, max_load_factor, empty_entry, in_use, get_entry_unsafe, set_entry,
  hash_key, bucket_of, find_bucket,
}
use cstone.Dhash.Storage.{Inserted, insert_ex}

-- `sizeof(dhBucketEntry)`
abbrev pub entry_size : ℕ
entry_size = 16

-- `ROUND_UP_ALIGN` for `uintptr_t`
abbrev pub round_up_align : ℕ → ℕ
round_up_align n = n + 4 - 1 - (n + 4 - 1) % 4

-- The tests of `dh__init` before it changes the table: the limit on storage, and the owner's consent
-- to grow.
unfoldable pub may_grow : ℕ → ℕ → Bool → Option (ℕ → Bool) → ℕ → Bool
may_grow value_size max_storage ext_storage grow_hash num_buckets =
    not (
      ltb 0 max_storage
      && not ext_storage
      && ltb (max_storage / (entry_size + value_size)) num_buckets)
    && elim grow_hash [
      | none ↦ true
      | some consents ↦ if not ext_storage then consents (max_load_factor num_buckets) else true
    ]

module _ {V : Type 0} where
  -- An entry that counts: not unused, and no tombstone.
  abbrev pub is_live : Entry V → Bool
  is_live entry = not (not (in_use entry) || entry.deleted)

  -- `dh__alloc_buckets`: `none` is the result false.
  unfoldable pub alloc_buckets : (ℕ → Bool) → Dhash V → ℕ → Option (Dhash V)
  alloc_buckets allocates hash new_num_buckets =
      let num = max new_num_buckets (get_prime 0) in
      let bucket_size = entry_size + hash.value_size in
      let new_size = u32 (num * bucket_size) in
      if not (new_size / bucket_size == num)
      then none
      else if allocates new_size
      then some
          (record hash { num_buckets = num; buckets = replicate num (empty_entry hash.zeroed) })
      else none

  -- `dh__init` as `dh__grow` calls it, with `new_hash` false. The outer option is the fuel of the
  -- search for a prime, the inner one the result.
  unfoldable pub init_grown : (ℕ → Bool) → Dhash V → ℕ → Option (Option (Dhash V))
  init_grown allocates hash init_buckets = elim (get_closest_prime_index init_buckets) [
    | none ↦ none
    | some prime_ix ↦
        let num_buckets = get_prime prime_ix in
        let value_size = round_up_align hash.value_size in
        if not (may_grow value_size hash.max_storage false hash.grow_hash num_buckets)
          || hash.static_buckets
        then some none
        else elim (alloc_buckets allocates hash num_buckets) [
          | none ↦ some none
          | some grown ↦ some (
              some
                (record grown { prime_ix = prime_ix; num_buckets = num_buckets; used_buckets = 0 }))
        ]
  ]

  -- The loop of `dh__grow` that copies the old items.
  unfoldable pub reinsert : ℕ → List (Entry V) → Dhash V → Option (Dhash V)
  reinsert fuel [] hash = some hash
  reinsert fuel (item ∷ items) hash =
      if is_live item
      then elim (insert_ex fuel hash item.key item.value_obj item.ikey) [
        | none ↦ none
        | some result ↦ reinsert fuel items result.table
      ]
      else reinsert fuel items hash

  -- `dh__grow`: the result and the table. A table that cannot grow stays as it is.
  unfoldable pub grow : (ℕ → Bool) → ℕ → Dhash V → ℕ → Option (Bool × Dhash V)
  grow allocates fuel hash new_buckets =
      if hash.static_buckets
      then some (false, hash)
      else (let num_old_buckets = hash.num_buckets in
          let wanted =
            if leb new_buckets num_old_buckets then num_old_buckets + 1 else new_buckets in
          elim (init_grown allocates hash wanted) [
            | none ↦ none
            | some none ↦ some (false, hash)
            | some (some grown) ↦ elim (reinsert fuel (take num_old_buckets hash.buckets) grown) [
              | none ↦ none
              | some refilled ↦ some (true, refilled)
            ]
          ])

  -- `dh__insert`
  unfoldable pub insert_hashed : ℕ → Dhash V → DhKey → V → Option (Inserted V)
  insert_hashed fuel hash key value = insert_ex fuel hash key value (hash_key hash key)

  -- `dh_insert`
  unfoldable pub insert : (ℕ → Bool) → ℕ → Dhash V → DhKey → V → Option (Inserted V)
  insert allocates fuel hash key value =
      if leb (max_load_factor hash.num_buckets) hash.used_buckets
      then elim (grow allocates fuel hash 0) [
        | none ↦ none
        | some (grown, hash') ↦
            if grown
            then insert_hashed fuel hash' key value
            else some (record { ok = false; table = hash'; buffer = value })
      ]
      else insert_hashed fuel hash key value

  -- `dh_remove`: the removed value, and the table. `wanted` says that the caller passes a pointer for
  -- the value; without one the value goes to `destroy_item`.
  unfoldable pub remove : Dhash V → DhKey → Bool → Option V × Dhash V
  remove hash key wanted = elim (bucket_of (find_bucket hash key)) [
    | none ↦ (none, hash)
    | some b ↦
        let entry = get_entry_unsafe hash b in
        let tombstone = record entry {
          key = null_key;
          ikey = 0;
          deleted = true;
          value_obj = hash.zeroed;
        } in
        let destroyed =
          if wanted then hash.destroyed else (null_key, entry.value_obj) ∷ hash.destroyed in
        (
          some entry.value_obj,
          record (set_entry hash b tombstone) {
            used_buckets = hash.used_buckets - 1;
            destroyed = destroyed;
          },
        )
  ]
