-- ===== src/Dhash/Runs.antt =====
-- src/util/dhash.c: runs of calls on a table, against a map from keys to values.
use cstone.Prelude.{ℕ, ◌≤◌, ◌<◌, ◌≡◌, refl, ap, ◌∙◌, Bool, true, Option, none, some, if◌then◌else◌}
use cstone.Dhash.{DhKey, Dhash, lookup}
use cstone.Dhash.Storage.{Inserted}
use cstone.Dhash.Table.{insert, remove}
use cstone.Dhash.Inv.{Usable, IsValid}
use cstone.Dhash.Grow.{most_buckets}
use cstone.Dhash.Map.{remove-lookup}
use cstone.Dhash.Growth.{insert-lookup}

-- What calls make of a table, with the map that they are meant to make. A key of the map stands for all
-- keys equal to it.
pub data Runs {V : Type 0} (allocates : ℕ → Bool) (fuel : ℕ)
    : Dhash V → (DhKey → Option V) → Type 0 where
  starts : (hash : Dhash V) → IsValid hash → Runs allocates fuel hash (lookup hash)
  inserts :
      {hash : Dhash V} {meant : DhKey → Option V} (key : DhKey) (value : V) (result : Inserted V)
      → Runs allocates fuel hash meant
      → Usable hash.gen_hash hash.is_equal key
      → hash.replace_item ≡ none
      → hash.num_buckets < most_buckets
      → insert allocates fuel hash key value ≡ some result
      → result.ok ≡ true
      → Runs allocates fuel result.table (λ k. if hash.is_equal key k then some value else meant k)
  removes :
      {hash : Dhash V} {meant : DhKey → Option V} (key : DhKey) (wanted : Bool)
      → Runs allocates fuel hash meant
      → Runs allocates fuel
          (remove hash key wanted).1
          (λ k. if hash.is_equal key k then none else meant k)

-- After any run of insertions that succeed and of removals, with growth in between, the table is well
-- formed, and `dh_lookup` finds for each key what the map holds. The insertions are of usable keys, in
-- tables of less than 32261 buckets without `replace_item`.
pub Runs-lookup :
    {V : Type 0} {allocates : ℕ → Bool} {fuel : ℕ} {hash : Dhash V} {meant : DhKey → Option V}
    → most_buckets ≤ fuel
    → Runs allocates fuel hash meant
    → IsValid hash × ((k : DhKey) → lookup hash k ≡ meant k)
Runs-lookup enough (starts hash v) = (v, λ k. refl)
Runs-lookup {allocates} {fuel} enough
      (inserts {hash} {meant} key value result run usable no_replace small e ok) =
    let (v, found) = Runs-lookup enough run in
    (
      (insert-lookup v allocates fuel no_replace small enough key value usable key result e ok).0,
      λ k.
          (insert-lookup v allocates fuel no_replace small enough key value usable k result e ok).1
          ∙ ap (λ t. if hash.is_equal key k then some value else t) (found k),
    )
Runs-lookup enough (removes {hash} {meant} key wanted run) =
    let (v, found) = Runs-lookup enough run in
    (
      (remove-lookup v key wanted key).1,
      λ k.
          (remove-lookup v key wanted k).2
          ∙ ap (λ t. if hash.is_equal key k then none else t) (found k),
    )
