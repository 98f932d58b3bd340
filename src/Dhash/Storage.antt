-- ===== src/Dhash/Storage.antt =====
-- src/util/dhash.c, storage: insertion, growth, removal and the set-up of a table.
use cstone.Prelude.{
  ℕ, zero, suc, ◌+◌, Bool, true, false, not, Option, none, some, ◌∷◌, ltb, if◌then◌else◌,
}
use cstone.Dhash.{
  DhKey, Entry, Dhash, max_probe_count, in_use, get_entry_unsafe, set_entry, initial_probe,
  next_bucket, matches,
}

-- What a call of `dh__insert_ex` leaves behind: its result, the table, and the caller's buffer
-- behind `value`, which a swap overwrites.
pub record Inserted (V : Type 0) : Type 0 where
  pub ok : Bool
  pub table : Dhash V
  pub buffer : V

-- One round of the loop of `dh__insert_ex`: it returns, or goes on with an item in search of a home.
pub data Round (V : Type 0) : Type 0 where
  done : Inserted V → Round V
  go_on : Dhash V → DhKey → ℕ → V → ℕ → Round V

module _ {V : Type 0} where
  -- A bucket taken by a new entry: the writes to a fresh bucket, and to a tombstone.
  abbrev pub put_entry : Dhash V → ℕ → Bool → DhKey → ℕ → V → ℕ → Dhash V
  put_entry hash b deleted key ikey value probes =
      let entry = get_entry_unsafe hash b in
      let written = record entry {
        key = key;
        ikey = ikey;
        probe_count = probes;
        deleted = deleted;
        value_obj = value;
      } in
      record (set_entry hash b written) { used_buckets = hash.used_buckets + 1 }

  abbrev pub replace_ok : Dhash V → Entry V → V → Bool
  replace_ok hash entry value = elim hash.replace_item [
    | none ↦ true
    | some replace ↦ replace entry.key entry.value_obj value
  ]

  -- The key of a bucket matches: its value is replaced, unless `replace_item` objects. The mark of a
  -- tombstone stays.
  abbrev pub replace_entry : Dhash V → ℕ → DhKey → V → Dhash V
  replace_entry hash b key value =
      let entry = get_entry_unsafe hash b in
      let destroyed = (entry.key, entry.value_obj) ∷ hash.destroyed in
      record (set_entry hash b (record entry { key = key; value_obj = value })) {
        destroyed = destroyed;
      }

  -- The end of a round, where the count of probes moves on.
  abbrev pub next_round : Dhash V → DhKey → ℕ → V → ℕ → Round V
  next_round hash key ikey value probes =
      if ltb probes max_probe_count
      then go_on hash key ikey value (probes + 1)
      else done (record { ok = false; table = hash; buffer = value })

  -- The entry at `b` is evicted, and becomes the item in search of a home.
  abbrev pub steal : Dhash V → ℕ → DhKey → ℕ → V → ℕ → Round V
  steal hash b key ikey value probes =
      let titem = get_entry_unsafe hash b in
      let entry = record titem {
        key = key;
        ikey = ikey;
        probe_count = probes;
        value_obj = value;
      } in
      next_round (set_entry hash b entry) titem.key titem.ikey titem.value_obj titem.probe_count

  unfoldable pub insert_step : Dhash V → ℕ → DhKey → ℕ → V → ℕ → Round V
  insert_step hash b key ikey value probes =
      let entry = get_entry_unsafe hash b in
      if not (in_use entry)
      then done (record {
        ok = true;
        table = put_entry hash b entry.deleted key ikey value probes;
        buffer = value;
      })
      else if matches hash key ikey entry
      then (if replace_ok hash entry value
          then done (record { ok = true; table = replace_entry hash b key value; buffer = value })
          else done (record { ok = false; table = hash; buffer = value }))
      else if ltb entry.probe_count probes
      then (if entry.deleted
          then done (record {
            ok = true;
            table = put_entry hash b false key ikey value probes;
            buffer = value;
          })
          else steal hash b key ikey value probes)
      else next_round hash key ikey value probes

  -- The loop, on fuel. `none` means that the fuel ran out.
  unfoldable pub insert_loop : ℕ → Dhash V → ℕ → DhKey → ℕ → V → ℕ → Option (Inserted V)
  insert_loop zero hash b key ikey value probes = none
  insert_loop (suc fuel) hash b key ikey value probes =
      elim (insert_step hash b key ikey value probes) [
        | done result ↦ some result
        | go_on hash' key' ikey' value' probes' ↦
            insert_loop fuel hash' (next_bucket hash b) key' ikey' value' probes'
      ]

  -- `dh__insert_ex`
  unfoldable pub insert_ex : ℕ → Dhash V → DhKey → V → ℕ → Option (Inserted V)
  insert_ex fuel hash key value ikey =
      insert_loop fuel hash (initial_probe hash ikey) key ikey value 1
