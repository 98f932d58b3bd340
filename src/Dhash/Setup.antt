-- ===== src/Dhash/Setup.antt =====
-- src/util/dhash.c: `dh_init` and `dh_free`.
use cstone.Prelude.{
  ℕ, ◌+◌, ◌/◌, Bool, true, false, not, Option, none, some, List, [], ◌∷◌, if◌then◌else◌, take,
  replicate,
}
use cstone.PrimeModulus.{get_prime, get_closest_prime_index, get_closest_prime_index_below}
use cstone.Dhash.{DhKey, Entry, Dhash, empty_entry}
use cstone.Dhash.Table.{entry_size, round_up_align, is_live, alloc_buckets, may_grow}

-- `dhConfig`. A callback that may be missing is an option; `destroy_item` says if one is given, and
-- `ext_storage` if an external buffer is.
pub record DhConfig (V : Type 0) : Type 0 where
  pub init_buckets : ℕ
  pub value_size : ℕ
  pub max_storage : ℕ
  pub ext_storage : Bool
  pub destroy_item : Bool
  pub gen_hash : Option (DhKey → ℕ)
  pub is_equal : Option (DhKey → DhKey → Bool)
  pub replace_item : Option (DhKey → V → V → Bool)
  pub grow_hash : Option (ℕ → Bool)

module _ {V : Type 0} (allocates : ℕ → Bool) (config : DhConfig V) (zeroed : V) where
  -- The table that `dh__init` writes before it has any buckets.
  abbrev pub blank_table : ℕ → (DhKey → ℕ) → (DhKey → DhKey → Bool) → Dhash V
  blank_table prime_ix gen_hash is_equal = record {
    buckets = [];
    num_buckets = 0;
    used_buckets = 0;
    prime_ix = prime_ix;
    value_size = round_up_align config.value_size;
    max_storage = config.max_storage;
    destroyed = [];
    gen_hash = gen_hash;
    is_equal = is_equal;
    replace_item = config.replace_item;
    grow_hash = config.grow_hash;
    static_buckets = false;
    zeroed = zeroed;
  }

  -- The external buffer, which is cleared: the buckets of it that the table uses.
  unfoldable pub init_external : Dhash V → Option (Option (Dhash V))
  init_external hash =
      let ext_buckets = config.max_storage / (entry_size + hash.value_size) in
      elim (get_closest_prime_index_below ext_buckets) [
        | none ↦ none
        | some prime_ix ↦ some (
            some (record hash {
              buckets = take (get_prime prime_ix) (replicate ext_buckets (empty_entry zeroed));
              prime_ix = prime_ix;
              num_buckets = get_prime prime_ix;
              static_buckets = true;
            }))
      ]

  -- `dh__init` as `dh_init` calls it, with `new_hash` true. The outer option is the fuel of the search
  -- for a prime, the inner one the result.
  unfoldable pub init_new : (DhKey → ℕ) → (DhKey → DhKey → Bool) → Option (Option (Dhash V))
  init_new gen_hash is_equal = elim (get_closest_prime_index config.init_buckets) [
    | none ↦ none
    | some prime_ix ↦
        let num_buckets = get_prime prime_ix in
        let hash = blank_table prime_ix gen_hash is_equal in
        if not (
          may_grow hash.value_size config.max_storage config.ext_storage config.grow_hash
            num_buckets)
        then some none
        else if config.ext_storage
        then init_external hash
        else some (alloc_buckets allocates hash num_buckets)
  ]

  -- `dh_init`, for pointers to a table and to a configuration that are not NULL.
  unfoldable pub init : Option (Option (Dhash V))
  init = elim config.gen_hash [
    | none ↦ some none
    | some gen_hash ↦ elim config.is_equal [
      | none ↦ some none
      | some is_equal ↦ if config.destroy_item then init_new gen_hash is_equal else some none
    ]
  ]

module _ {V : Type 0} where
  -- The items that the loop of `dh_free` destroys, the last one first.
  unfoldable pub destroy_all : List (Entry V) → List (DhKey × V) → List (DhKey × V)
  destroy_all [] destroyed = destroyed
  destroy_all (entry ∷ entries) destroyed =
      destroy_all entries
        (if is_live entry then (entry.key, entry.value_obj) ∷ destroyed else destroyed)

  -- `dh_free`, for a table with buckets.
  unfoldable pub free : Dhash V → Dhash V
  free hash = record hash {
    destroyed = destroy_all (take hash.num_buckets hash.buckets) hash.destroyed;
    buckets = [];
    num_buckets = 0;
  }
