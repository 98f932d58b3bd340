-- ===== src/Dhash/Grow.antt =====
-- src/util/dhash.c: `dh__grow` keeps what the table holds.
use cstone.Prelude.{
  ℕ, suc, ◌+◌, ◌≤◌, ◌<◌, ◌≡◌, refl, sym, ap, ◌∙◌, Bool, true, false, ◌⊎◌, inl, inr, none, some,
  List, [], ◌∷◌, arith, length, get_or, take, take_all, leb, Bool-cases, if◌then◌else◌,
}
use cstone.PrimeModulus.{get_prime}
use cstone.PrimeModulus.Laws.{closest_prime-least, get_prime_at}
use cstone.Dhash.{DhKey, Entry, Dhash, empty_entry, max_probe_count, get_entry_unsafe, hash_key}
use cstone.Dhash.Storage.{Inserted, insert_ex}
use cstone.Dhash.Table.{is_live, init_grown, reinsert, grow}
use cstone.Dhash.Inv.{IsLive, IsValid}
use cstone.Dhash.Adds.{Has, Adds}
use cstone.Dhash.Insert.{insert_ex-Adds}
use cstone.Dhash.Ends.{insert_ex-Succeeds}
use cstone.Dhash.Count.{used_count, used_count_unused, used_count-replicate, Keeps, insert_ex-Keeps}
use cstone.Dhash.Fresh.{Fresh, init_grown_cases, Fresh-empty, Fresh-IsValid}
use cstone.Dhash.Refill.{
  Items, Among, Refilled, tail-Items, live→IsLive, dead→IsLive, reinsert_dead, reinsert_live,
  skip-Refilled, add-Refilled,
}

module _ {V : Type 0} (fuel : ℕ) (d : Entry V) where
  first :
      (item : Entry V) (items : List (Entry V)) (hash : Dhash V) (v : IsValid hash)
      → Items hash.gen_hash hash.is_equal d (item ∷ items)
      → hash.replace_item ≡ none
      → hash.num_buckets ≤ max_probe_count
      → hash.num_buckets ≤ fuel
      → suc (length items) + used_count hash.buckets ≤ hash.num_buckets
      → IsLive item
      → (result : Inserted V) × (insert_ex fuel hash item.key item.value_obj item.ikey
          ≡ some result)
        × Adds hash result.table item.key item.value_obj
        × Keeps hash result.table 1
  unfolding get_entry_unsafe hash_key
  first item items hash v ok no_replace small enough room live =
      let usable = ok.usable 0 (omega arith) live in
      let (u, inside, free) =
        used_count_unused hash.buckets (empty_entry hash.zeroed) (omega (arith, room, v.sized)) in
      let (result, e, good) =
        insert_ex-Succeeds v fuel u item.key item.value_obj usable no_replace small
          (omega (arith, inside, v.sized)) free enough in
      (
        result,
        ap (insert_ex fuel hash item.key item.value_obj) (ok.hashed 0 (omega arith) live) ∙ e,
        insert_ex-Adds v fuel item.key item.value_obj usable result e good,
        insert_ex-Keeps v fuel item.key item.value_obj usable result e good,
      )

  apart :
      (item : Entry V) (items : List (Entry V)) (hash : Dhash V)
      → Items hash.gen_hash hash.is_equal d (item ∷ items)
      → IsLive item
      → (b : ℕ) → b < length items
      → IsLive (get_or items b d)
      → hash.is_equal item.key (get_or items b d).key ≡ false
  apart item items hash ok live b m l =
      elim (Bool-cases (hash.is_equal item.key (get_or items b d).key)) [
        | inr other ↦ other
        | inl same ↦
            let q : 0 ≡ suc b = ok.only 0 (suc b) (omega arith) (omega (arith, m)) live l same in
            absurd (omega (arith, q))
      ]

  -- Items with room for them all, and with keys that the table does not hold, are all inserted.
  pub reinsert-Refilled :
      (items : List (Entry V)) (hash : Dhash V) (v : IsValid hash)
      → Items hash.gen_hash hash.is_equal d items
      → ((b : ℕ) (x : V)
          → b < length items
          → IsLive (get_or items b d)
          → Has hash (get_or items b d).key x
          → ⊥)
      → hash.replace_item ≡ none
      → hash.num_buckets ≤ max_probe_count
      → hash.num_buckets ≤ fuel
      → length items + used_count hash.buckets ≤ hash.num_buckets
      → (hash' : Dhash V) × (reinsert fuel items hash ≡ some hash') × Refilled d items hash hash'
  unfolding reinsert
  reinsert-Refilled [] hash v ok absent no_replace small enough room = (
    hash,
    refl,
    record {
      valid = v;
      num_buckets = refl;
      replace_item = refl;
      gen_hash = refl;
      is_equal = refl;
      in_use_count = omega arith;
      kept = λ k x h. h;
      new = λ k x h. absurd (omega (arith, h.inside));
      only = λ k x h. inl h;
    },
  )
  reinsert-Refilled (item ∷ items) hash v ok absent no_replace small enough room =
      elim (Bool-cases (is_live item)) [
        | inr skip ↦
            let (hash', e, r) =
              reinsert-Refilled items hash v (tail-Items hash.gen_hash hash.is_equal d ok)
                (λ b x m l h. absent (suc b) x (omega (arith, m)) l h) no_replace small enough
                (omega (arith, room)) in
            (
              hash',
              reinsert_dead fuel d item items hash skip ∙ e,
              skip-Refilled fuel d item items (dead→IsLive item skip) r,
            )
        | inl counts ↦
            let live : IsLive item = live→IsLive item counts in
            let (result, e, a, keeps) =
              first item items hash v ok no_replace small enough room live in
            let (hash', f, r) =
              reinsert-Refilled items result.table a.valid
                (rw (a.gen_hash, a.is_equal) (tail-Items hash.gen_hash hash.is_equal d ok))
                (λ b x m l h.
                  absent (suc b) x (omega (arith, m)) l
                    (a.only (get_or items b d).key x (apart item items hash ok live b m l) h))
                (keeps.replace_item ∙ no_replace) (rw keeps.num_buckets small)
                (rw keeps.num_buckets enough)
                (omega (arith, room, keeps.in_use_count, keeps.num_buckets)) in
            (
              hash',
              reinsert_live fuel d item items hash result counts e ∙ f,
              add-Refilled fuel d item items v live (λ x h. absent 0 x (omega arith) live h) a keeps
                  r,
            )
      ]

-- The largest table for which the theorems hold: the largest prime that a count of probes can reach.
abbrev pub most_buckets : ℕ
most_buckets = 32261

-- The second table holds what the first one holds, and has an unused bucket.
-- The number of buckets that `dh__grow` asks for.
abbrev pub wanted_buckets : {V : Type 0} → Dhash V → ℕ → ℕ
wanted_buckets hash new_buckets =
    if leb new_buckets hash.num_buckets then hash.num_buckets + 1 else new_buckets

pub record Grown {V : Type 0} (hash hash' : Dhash V) : Type 0 where
  pub valid : IsValid hash'
  pub gen_hash : hash'.gen_hash ≡ hash.gen_hash
  pub is_equal : hash'.is_equal ≡ hash.is_equal
  pub replace_item : hash'.replace_item ≡ hash.replace_item
  pub size : hash'.num_buckets ≤ most_buckets
  pub larger : hash.num_buckets < hash'.num_buckets
  pub room : used_count hash'.buckets < hash'.num_buckets
  pub kept : (k : DhKey) (x : V) → Has hash k x → Has hash' k x
  pub only : (k : DhKey) (x : V) → Has hash' k x → Has hash k x

module _ {V : Type 0} {hash : Dhash V} (v : IsValid hash) where
  abbrev blank : Entry V
  blank = empty_entry hash.zeroed

  valid-Items : Items hash.gen_hash hash.is_equal blank hash.buckets
  unfolding get_entry_unsafe
  valid-Items = record {
    hashed = λ b m l. (v.arranged.placed b (rw (sym v.sized) m) l).hashed;
    usable = λ b m l. (v.arranged.placed b (rw (sym v.sized) m) l).usable;
    only = λ b c m k l l' e.
        (v.arranged.placed c (rw (sym v.sized) k) l').only b (rw (sym v.sized) m) l e;
  }

  Has→Among : (k : DhKey) (x : V) → Has hash k x → Among hash.is_equal blank hash.buckets k x
  unfolding get_entry_unsafe
  Has→Among k x h = record {
    index = h.index;
    inside = rw v.sized h.inside;
    live = h.live;
    equal = h.equal;
    stored = h.stored;
  }

  Among→Has : (k : DhKey) (x : V) → Among hash.is_equal blank hash.buckets k x → Has hash k x
  unfolding get_entry_unsafe
  Among→Has k x h = record {
    index = h.index;
    inside = rw (sym v.sized) h.inside;
    live = h.live;
    equal = h.equal;
    stored = h.stored;
  }

  -- Refilled from the old buckets, a fresh table of more buckets holds what the old one holds.
  refill :
      (fuel : ℕ) {grown : Dhash V} {r : ℕ}
      → Fresh hash grown r
      → hash.replace_item ≡ none
      → hash.num_buckets < get_prime r
      → get_prime r ≤ most_buckets
      → most_buckets ≤ fuel
      → (hash' : Dhash V) × (reinsert fuel (take hash.num_buckets hash.buckets) grown ≡ some hash')
        × Grown hash hash'
  refill fuel {grown} {r} f no_replace more small enough =
      let none_used : used_count grown.buckets ≡ 0 =
        ap used_count f.buckets ∙ used_count-replicate (get_prime r) hash.zeroed in
      let (hash', e, q) =
        reinsert-Refilled fuel blank hash.buckets grown (Fresh-IsValid f v.laws)
          (rw (f.gen_hash, f.is_equal) valid-Items)
          (λ b x m l h. Fresh-empty f (get_or hash.buckets b blank).key x h)
          (f.replace_item ∙ no_replace) (omega (arith, f.num_buckets, small))
          (omega (arith, f.num_buckets, small, enough))
          (omega (arith, none_used, f.num_buckets, v.sized, more)) in
      (
        hash',
        ap (λ t. reinsert fuel t grown)
              (take_all hash.num_buckets hash.buckets (omega (arith, v.sized)))
            ∙ e,
        record {
          valid = q.valid;
          gen_hash = q.gen_hash ∙ f.gen_hash;
          is_equal = q.is_equal ∙ f.is_equal;
          replace_item = q.replace_item ∙ f.replace_item;
          size = omega (arith, q.num_buckets, f.num_buckets, small);
          larger = omega (arith, q.num_buckets, f.num_buckets, more);
          room =
              omega (arith, q.in_use_count, none_used, q.num_buckets, f.num_buckets, v.sized, more);
          kept = λ k x h. q.new k x (rw f.is_equal (Has→Among k x h));
          only = λ k x h. elim (q.only k x h) [
            | inl had ↦ absurd (Fresh-empty f k x had)
            | inr among ↦ Among→Has k x (rw (sym f.is_equal) among)
          ];
        },
      )

  -- `dh__grow` returns. Either it fails and leaves the table, or the new table holds what the old one
  -- holds.
  pub grow_cases :
      (allocates : ℕ → Bool) (fuel new_buckets : ℕ)
      → hash.replace_item ≡ none
      → hash.num_buckets < most_buckets
      → new_buckets < most_buckets
      → most_buckets ≤ fuel
      → ((grow allocates fuel hash new_buckets ≡ some (false, hash))
          × ((hash.static_buckets ≡ true)
              ⊎ (init_grown allocates hash (wanted_buckets hash new_buckets) ≡ some none)))
        ⊎ ((hash' : Dhash V) × (grow allocates fuel hash new_buckets ≡ some (true, hash'))
            × Grown hash hash')
  unfolding grow
  grow_cases allocates fuel new_buckets no_replace small within enough =
      elim (Bool-cases hash.static_buckets) [
        | inl static ↦ inl (rw (grow, static) refl, inl static)
        | inr dynamic ↦
            let wanted = wanted_buckets hash new_buckets in
            let more : hash.num_buckets < wanted = ground arith in
            let bounded : wanted ≤ most_buckets = ground (arith, small, within) in
            let (r, e, inside, above, least) =
              closest_prime-least wanted (omega (arith, bounded, get_prime_at 51 (omega arith))) in
            let p32 = get_prime_at 32 (omega arith) in
            let below : get_prime r ≤ most_buckets =
              omega (arith, p32, least 32 (omega arith) (omega (arith, bounded, p32))) in
            elim (init_grown_cases allocates hash wanted e) [
              | inl failed ↦ inl (rw (grow, failed, dynamic) refl, inr failed)
              | inr (grown, f, fresh) ↦
                  let (hash', g, holds) =
                    refill fuel fresh no_replace (omega (arith, above, more)) below enough in
                  inr (hash', rw (grow, f, g, dynamic) refl, holds)
            ]
      ]
