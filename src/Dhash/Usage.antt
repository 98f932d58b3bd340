-- ===== src/Dhash/Usage.antt =====
-- src/util/dhash.c: how full a table is, and the walks over its items.
use cstone.Prelude.{
  ℕ, zero, suc, ◌+◌, ◌-◌, ◌*◌, ◌/◌, ◌^◌, max, Bool, true, false, Option, none, some, List, [], ◌∷◌,
  leb, ltb, ◌==◌, if◌then◌else◌, take, u32,
}
use cstone.Dhash.{DhKey, Entry, Dhash, max_load_factor, get_entry_unsafe}
use cstone.Dhash.Table.{is_live, grow}

-- `dh_iter_init`: the bucket before the first one is `none`.
abbrev pub iter_init : Option ℕ
iter_init = none

-- `it->bucket++`
abbrev pub next_of : Option ℕ → ℕ
next_of none = 0
next_of (some bucket) = bucket + 1

module _ {V : Type 0} where
  -- `dh_num_items`
  abbrev pub num_items : Dhash V → ℕ
  num_items hash = hash.used_buckets

  -- `dh_cur_capacity`
  abbrev pub cur_capacity : Dhash V → ℕ
  cur_capacity hash = max_load_factor hash.num_buckets

  -- `dh_load_factor`, for a table whose products fit in an `int`.
  unfoldable pub load_factor : Dhash V → ℕ
  load_factor hash =
      if hash.num_buckets == 0 then 0 else (hash.used_buckets * 100 + 50) / hash.num_buckets

  -- `dh_reserve_capacity`: the result and the table.
  unfoldable pub reserve_capacity : (ℕ → Bool) → ℕ → Dhash V → ℕ → Option (Bool × Dhash V)
  reserve_capacity allocates fuel hash add_capacity =
      let hash_capacity = cur_capacity hash in
      let free_buckets = u32 (hash_capacity + 2 ^ 32 - num_items hash) in
      if add_capacity == 0
      then some (true, hash)
      else if leb add_capacity free_buckets
      then some (true, hash)
      else if hash.static_buckets
      then some (false, hash)
      else (let more = add_capacity - free_buckets in
          let lfactor = max_load_factor 128 in
          let new_buckets = u32 (u32 (hash_capacity + more) * 128) / lfactor in
          grow allocates fuel hash new_buckets)

  -- The loop of `dh_mean_probe_count`.
  unfoldable pub total_probes : List (Entry V) → ℕ → ℕ
  total_probes [] total = total
  total_probes (entry ∷ entries) total =
      total_probes entries (if is_live entry then total + entry.probe_count else total)

  -- `dh_mean_probe_count`, for a total that fits in an `int`.
  unfoldable pub mean_probe_count : Dhash V → ℕ
  mean_probe_count hash =
      let total = total_probes (take hash.num_buckets hash.buckets) 0 in
      if ltb 0 hash.used_buckets then (total * 100 + 50) / hash.used_buckets else 0

  -- The loop of `dh_max_probe_count`.
  unfoldable pub most_probes : List (Entry V) → ℕ → ℕ
  most_probes [] most = most
  most_probes (entry ∷ entries) most =
      most_probes entries (if is_live entry then max most entry.probe_count else most)

  -- `dh_max_probe_count`
  unfoldable pub max_probes : Dhash V → ℕ
  max_probes hash = most_probes (take hash.num_buckets hash.buckets) 0

  -- The loop of `dh_foreach`. The visitor says if the walk goes on, and changes its context.
  unfoldable pub foreach_loop : {C : Type 0} → (DhKey → V → C → Bool × C) → List (Entry V) → C → C
  foreach_loop visitor [] ctx = ctx
  foreach_loop visitor (entry ∷ entries) ctx =
      if is_live entry
      then (let (more, ctx') = visitor entry.key entry.value_obj ctx in
          let rest = foreach_loop visitor entries ctx' in if more then rest else ctx')
      else foreach_loop visitor entries ctx

  -- `dh_foreach`
  abbrev pub foreach : {C : Type 0} → Dhash V → (DhKey → V → C → Bool × C) → C → C
  foreach hash visitor ctx = foreach_loop visitor (take hash.num_buckets hash.buckets) ctx

  -- The loop of `dh_iter_next`, from a bucket on, for the buckets left: the bucket where it stops, and
  -- the item there.
  unfoldable pub iter_loop : Dhash V → ℕ → ℕ → ℕ × Option (DhKey × V)
  iter_loop hash zero bucket = (bucket, none)
  iter_loop hash (suc left) bucket =
      let entry = get_entry_unsafe hash bucket in
      let rest = iter_loop hash left (bucket + 1) in
      if is_live entry then (bucket, some (entry.key, entry.value_obj)) else rest

  -- `dh_iter_next`
  unfoldable pub iter_next : Dhash V → Option ℕ → Option ℕ × Option (DhKey × V)
  iter_next hash it =
      let bucket = next_of it in
      if leb hash.num_buckets bucket
      then (some hash.num_buckets, none)
      else (let (stop, item) = iter_loop hash (hash.num_buckets - bucket) bucket in
          (some stop, item))
