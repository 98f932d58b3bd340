-- ===== src/Dhash.antt =====
-- src/util/dhash.c and include/util/dhash.h: a hash table with open addressing, linear probing and
-- Robin Hood insertion. The build is the default one: `DH_USE_MEMOIZED_HASH` and
-- `DH_USE_MODULUS_FUNCS` are defined, `DH_USE_2X_GROWTH` is not, and pointers have 32 bits. A pointer is
-- a number, and NULL is 0. A value stands for the object of `value_size` bytes.
pub mod Storage
pub mod Table
pub mod Setup
pub mod Usage
pub mod Keys
pub mod Inv
pub mod Write
pub mod Find
pub mod Adds
pub mod Carried
pub mod Outcome
pub mod Insert
pub mod Ends
pub mod Count
pub mod Refill
pub mod Fresh
pub mod Grow
pub mod Remove
pub mod Map
pub mod Growth
pub mod Start
pub mod Runs
mod Examples
use cstone.Prelude.{
  ℕ, zero, suc, ◌+◌, ◌-◌, ◌*◌, ◌/◌, ◌%◌, ◌^◌, Bool, true, false, not, Option, none, some, List, [],
  ◌∷◌, ◌&&◌, ◌||◌, ltb, leb, ◌==◌, if◌then◌else◌, get_or, set, u32,
}
use cstone.PrimeModulus.{get_prime}

-- `dhKey`
pub record DhKey : Type 0 where
  pub address : ℕ
  pub size : ℕ

abbrev pub null_key : DhKey
null_key = record { address = 0; size = 0 }

-- `dhBucketEntry`
pub record Entry (V : Type 0) : Type 0 where
  pub key : DhKey
  pub ikey : ℕ
  pub probe_count : ℕ
  pub deleted : Bool
  pub value_obj : V

-- `dhash`. The context of the callbacks is the list of the items that `destroy_item` was called for,
-- the last one first. `replace_item` decides and changes nothing. `zeroed` is a value of zero bytes.
pub record Dhash (V : Type 0) : Type 0 where
  pub buckets : List (Entry V)
  pub num_buckets : ℕ
  pub used_buckets : ℕ
  pub prime_ix : ℕ
  pub value_size : ℕ
  pub max_storage : ℕ
  pub destroyed : List (DhKey × V)
  pub gen_hash : DhKey → ℕ
  pub is_equal : DhKey → DhKey → Bool
  pub replace_item : Option (DhKey → V → V → Bool)
  pub grow_hash : Option (ℕ → Bool)
  pub static_buckets : Bool
  pub zeroed : V

-- `MAX_PROBE_COUNT`
abbrev pub max_probe_count : ℕ
max_probe_count = 2 ^ 15 - 1

-- `MAX_LOAD_FACTOR`
abbrev pub max_load_factor : ℕ → ℕ
max_load_factor b = u32 (b * 15) / 16

-- `dh__hash_int`
unfoldable pub hash_int : ℕ → ℕ
hash_int ikey = u32 (u32 ikey * 0x9e3779b9)

module _ {V : Type 0} where
  -- A bucket of memory that is zero.
  abbrev pub empty_entry : V → Entry V
  empty_entry zeroed = record {
    key = null_key;
    ikey = 0;
    probe_count = 0;
    deleted = false;
    value_obj = zeroed;
  }

  -- `IN_USE`
  abbrev pub in_use : Entry V → Bool
  in_use entry = not (entry.probe_count == 0)

  -- `dh__get_entry_unsafe`
  unfoldable pub get_entry_unsafe : Dhash V → ℕ → Entry V
  get_entry_unsafe hash b = get_or hash.buckets b (empty_entry hash.zeroed)

  -- What is written through the pointer to a bucket.
  unfoldable pub set_entry : Dhash V → ℕ → Entry V → Dhash V
  set_entry hash b entry = record hash { buckets = set hash.buckets b entry }

  -- `dh__initial_probe`
  unfoldable pub initial_probe : Dhash V → ℕ → ℕ
  initial_probe hash ikey = ikey % get_prime hash.prime_ix

  -- `next_bucket`
  unfoldable pub next_bucket : Dhash V → ℕ → ℕ
  next_bucket hash b =
      let prime = get_prime hash.prime_ix in if leb prime (b + 1) then b + 1 - prime else b + 1

  -- `dh__hash`
  unfoldable pub hash_key : Dhash V → DhKey → ℕ
  hash_key hash key = hash_int (hash.gen_hash key)

-- What `dh__find_bucket` returns: the index of the bucket, or an error.
pub data Found : Type 0 where
  bucket : ℕ → Found
  key_not_found : Found
  too_many_probes : Found

-- The bucket that `dh__find_bucket` leaves in `found_entry`.
abbrev pub bucket_of : Found → Option ℕ
bucket_of (bucket b) = some b
bucket_of key_not_found = none
bucket_of too_many_probes = none

module _ {V : Type 0} (hash : Dhash V) (key : DhKey) (ikey : ℕ) where
  -- The test that a bucket has the key.
  unfoldable pub matches : Entry V → Bool
  matches entry = (entry.ikey == ikey) && hash.is_equal entry.key key

  -- One round of the loop of `dh__find_bucket`: `none` goes on with the next bucket.
  unfoldable pub find_step : ℕ → ℕ → Option Found
  find_step b probes =
      let entry = get_entry_unsafe hash b in
      if not (in_use entry) || ltb entry.probe_count probes
      then some key_not_found
      else if not entry.deleted && matches entry
      then some (bucket b)
      else if ltb probes max_probe_count
      then none
      else some too_many_probes

  -- The loop. The fuel is the number of probes left, so the loop ends before it runs out.
  unfoldable pub find_loop : ℕ → ℕ → ℕ → Found
  find_loop zero b probes = too_many_probes
  find_loop (suc fuel) b probes = elim (find_step b probes) [
    | some found ↦ found
    | none ↦ find_loop fuel (next_bucket hash b) (probes + 1)
  ]

module _ {V : Type 0} where
  -- `dh__find_bucket`
  unfoldable pub find_bucket : Dhash V → DhKey → Found
  find_bucket hash key =
      let ikey = hash_key hash key in
      find_loop hash key ikey max_probe_count (initial_probe hash ikey) 1

  -- `dh_lookup`, with the value that it copies. `dh_lookup_in_place` differs in the way the value is
  -- handed over.
  unfoldable pub lookup : Dhash V → DhKey → Option V
  lookup hash key = elim (bucket_of (find_bucket hash key)) [
    | none ↦ none
    | some b ↦
        let entry = get_entry_unsafe hash b in
        if not entry.deleted then some entry.value_obj else none
  ]
