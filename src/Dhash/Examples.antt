-- ===== src/Dhash/Examples.antt =====
-- Tests and witnesses for src/util/dhash.c.
use cstone.Prelude.{
  ℕ, ◌*◌, ◌%◌, ◌^◌, ◌≤◌, ◌<◌, ◌≡◌, refl, Bool, true, false, Option, none, some, List, [], ◌∷◌,
  arith, replicate, ◌⊎◌, if◌then◌else◌,
}
use cstone.PrimeModulus.{get_prime}
use cstone.Dhash.{
  DhKey, null_key, Dhash, empty_entry, get_entry_unsafe, set_entry, hash_int, hash_key,
  initial_probe, next_bucket, matches, find_step, find_loop, find_bucket, lookup, max_load_factor,
}
use cstone.Dhash.Storage.{Inserted, put_entry, insert_step, insert_loop, insert_ex}
use cstone.Dhash.Table.{insert, insert_hashed, grow, init_grown, remove}
use cstone.Dhash.Keys.{gen_hash_int, equal_hash_keys_int}
use cstone.Dhash.Keys.Laws.{int-KeyLaws, int-Usable}
use cstone.Dhash.Setup.{DhConfig, blank_table, init}
use cstone.Dhash.Inv.{IsValid}
use cstone.Dhash.Fresh.{Fresh, Fresh-IsValid}
use cstone.Dhash.Map.{remove-lookup}
use cstone.Dhash.Grow.{wanted_buckets}
use cstone.Dhash.Growth.{insert-lookup, remove-insert, insert_returns, grow-lookup}
use cstone.Dhash.Start.{init-empty}
use cstone.Dhash.Runs.{starts, inserts, removes, Runs-lookup}
use cstone.PrimeModulus.Laws.{get_prime_at}

abbrev config : DhConfig ℕ
config = record {
  init_buckets = 8;
  value_size = 4;
  max_storage = 0;
  ext_storage = false;
  destroy_item = true;
  gen_hash = some gen_hash_int;
  is_equal = some equal_hash_keys_int;
  replace_item = none;
  grow_hash = none;
}

abbrev memory : ℕ → Bool
memory size = true

abbrev blank : Dhash ℕ
blank = blank_table memory config 0 0 gen_hash_int equal_hash_keys_int

abbrev empty : Dhash ℕ
empty = record blank { num_buckets = 11; buckets = replicate 11 (empty_entry 0) }

abbrev int_key : ℕ → DhKey
int_key n = record { address = n; size = 0 }

empty-IsValid : IsValid empty
unfolding get_prime
empty-IsValid =
    Fresh-IsValid
      (let f : Fresh blank empty 0 = record {
        buckets = refl;
        num_buckets = refl;
        prime = refl;
        gen_hash = refl;
        is_equal = refl;
        replace_item = refl;
        zeroed = refl;
      } in
        f)
      int-KeyLaws

abbrev hashed : ℕ
hashed = 5 * 0x9e3779b9 % 2 ^ 32

-- The table after the insertion of 50 for the key 5.
abbrev one_item : Dhash ℕ
one_item = put_entry empty (hashed % 11) false (int_key 5) hashed 50 1

abbrev inserted : Inserted ℕ
inserted = record { ok = true; table = one_item; buffer = 50 }

insert_5 : insert memory 32261 empty (int_key 5) 50 ≡ some inserted
unfolding insert insert_hashed insert_ex insert_loop insert_step initial_probe hash_key hash_int
    matches get_prime get_entry_unsafe set_entry gen_hash_int
insert_5 = refl

lookup_5 : lookup one_item (int_key 5) ≡ some 50
unfolding lookup find_bucket find_loop find_step initial_probe hash_key hash_int matches get_prime
    get_entry_unsafe set_entry gen_hash_int equal_hash_keys_int
lookup_5 = refl

-- Ten insertions into eleven buckets.
insert_all : List ℕ → Dhash ℕ → Option (Dhash ℕ)
insert_all [] hash = some hash
insert_all (n ∷ ns) hash = elim (insert memory 32261 hash (int_key n) (n * n)) [
  | none ↦ none
  | some result ↦ insert_all ns result.table
]

summary : Option (Dhash ℕ) → ℕ × ℕ × Option ℕ × Option ℕ
summary none = (0, 0, none, none)
summary (some hash) =
    (hash.num_buckets, hash.used_buckets, lookup hash (int_key 7), lookup hash (int_key 12))

full_table :
    summary (insert_all (1 ∷ 2 ∷ 3 ∷ 4 ∷ 5 ∷ 6 ∷ 7 ∷ 8 ∷ 9 ∷ 10 ∷ []) empty)
    ≡ (11, 10, some 49, none)
unfolding insert insert_hashed insert_ex insert_loop insert_step initial_probe next_bucket hash_key
    hash_int matches get_prime get_entry_unsafe set_entry gen_hash_int equal_hash_keys_int lookup
    find_bucket find_loop find_step insert_all summary
full_table = refl

-- The key 0 passes for the key of its own tombstone. An insertion after a removal returns true, and the
-- key is not found.
second_insert : Option (Inserted ℕ) → Option (Inserted ℕ)
second_insert none = none
second_insert (some result) =
    insert memory 32261 (remove result.table (int_key 0) true).1 (int_key 0) 60

seen : Option (Inserted ℕ) → Bool × Option ℕ × ℕ
seen none = (false, none, 0)
seen (some result) = (result.ok, lookup result.table (int_key 0), result.table.used_buckets)

key_0_lost : seen (second_insert (insert memory 32261 empty (int_key 0) 50)) ≡ (true, none, 0)
unfolding insert insert_hashed insert_ex insert_loop insert_step initial_probe next_bucket hash_key
    hash_int matches get_prime get_entry_unsafe set_entry gen_hash_int equal_hash_keys_int lookup
    find_bucket find_loop find_step remove second_insert seen
key_0_lost = refl

bucket_3 : (get_entry_unsafe empty 3).probe_count ≡ 0
unfolding get_entry_unsafe
bucket_3 = refl

empty_5 : lookup empty (int_key 5) ≡ none
unfolding lookup find_bucket find_loop find_step initial_probe hash_key hash_int matches get_prime
    get_entry_unsafe gen_hash_int equal_hash_keys_int
empty_5 = refl

usable_5 :
    (hash_int (gen_hash_int (int_key 5)) ≡ 0) → equal_hash_keys_int null_key (int_key 5) ≡ false
usable_5 = int-Usable (int_key 5) (λ e. omega (arith, e))

insert-lookup_example :
    IsValid one_item
    × (lookup one_item (int_key 6) ≡ (
        if equal_hash_keys_int (int_key 5) (int_key 6) then some 50 else lookup empty (int_key 6)))
unfolding set_entry
insert-lookup_example =
    insert-lookup empty-IsValid memory 32261 refl (omega arith) (omega arith) (int_key 5) 50
      usable_5 (int_key 6) inserted insert_5 refl

one_item-IsValid : IsValid one_item
one_item-IsValid = insert-lookup_example.0

remove-insert_example :
    ((remove one_item (int_key 5) true).0 ≡ some 50)
    × ((k : DhKey) → lookup (remove one_item (int_key 5) true).1 k ≡ lookup empty k)
remove-insert_example =
    remove-insert empty-IsValid memory 32261 refl (omega arith) (omega arith) (int_key 5) 50
      usable_5 inserted empty_5 insert_5 refl

insert_returns_example :
    (result : Inserted ℕ) × (insert memory 32261 empty (int_key 5) 50 ≡ some result)
    × ((result.ok ≡ true)
        ⊎ ((result.ok ≡ false)
            × (result.table ≡ empty)
            × (max_load_factor 11 ≤ 0)
            × (grow memory 32261 empty 0 ≡ some (false, empty))
            × ((empty.static_buckets ≡ true)
                ⊎ (init_grown memory empty (wanted_buckets empty 0) ≡ some none))))
insert_returns_example =
    insert_returns empty-IsValid memory 32261 refl (omega arith) (omega arith) (int_key 5) 50
      usable_5 3 (omega arith) bucket_3

grow-lookup_example :
    (ok : Bool) × (hash' : Dhash ℕ) × (grow memory 32261 one_item 30 ≡ some (ok, hash'))
    × IsValid hash'
    × ((k : DhKey) → lookup hash' k ≡ lookup one_item k)
    × (((ok ≡ true) × (one_item.num_buckets < hash'.num_buckets))
        ⊎ ((ok ≡ false)
            × (hash' ≡ one_item)
            × ((one_item.static_buckets ≡ true)
                ⊎ (init_grown memory one_item (wanted_buckets one_item 30) ≡ some none))))
unfolding set_entry
grow-lookup_example =
    grow-lookup one_item-IsValid memory 32261 refl (omega arith) (omega arith) 30 (omega arith)

remove-lookup_example :
    ((remove one_item (int_key 5) true).0 ≡ lookup one_item (int_key 5))
    × IsValid (remove one_item (int_key 5) true).1
    × (lookup (remove one_item (int_key 5) true).1 (int_key 5)
        ≡ (if one_item.is_equal (int_key 5) (int_key 5) then none else lookup one_item (int_key 5)))
remove-lookup_example = remove-lookup one_item-IsValid (int_key 5) true (int_key 5)

init-empty_example :
    (init memory config 0 ≡ some none)
    ⊎ ((hash : Dhash ℕ) × (init memory config 0 ≡ some (some hash))
        × IsValid hash
        × ((key : DhKey) → lookup hash key ≡ none))
init-empty_example =
    init-empty memory config 0 gen_hash_int equal_hash_keys_int refl refl refl int-KeyLaws
      (omega (arith, get_prime_at 51 (omega arith))) (λ e. absurd (ground arith))

Runs-lookup_example :
    IsValid (remove one_item (int_key 5) true).1
    × ((k : DhKey)
        → lookup (remove one_item (int_key 5) true).1 k ≡ (
            if one_item.is_equal (int_key 5) k
            then none
            else if equal_hash_keys_int (int_key 5) k
            then some 50
            else lookup empty k))
Runs-lookup_example = Runs-lookup {allocates = memory} {fuel = 32261} (omega arith) (
    removes (int_key 5) true (
      inserts (int_key 5) 50 inserted (starts empty empty-IsValid) usable_5 refl (omega arith)
        insert_5 refl))
