-- ===== src/Dhash/Remove.antt =====
-- src/util/dhash.c: `dh_remove` leaves a tombstone in the place of the entry.
use cstone.Prelude.{ℕ, ◌<◌, ◌≡◌, ◌≢◌, refl, sym, Bool, true, false, none, ℕ_discrete}
use cstone.Dhash.{
  DhKey, null_key, Entry, Dhash, bucket, bucket_of, get_entry_unsafe, set_entry, find_bucket,
  lookup,
}
use cstone.Dhash.Table.{remove}
use cstone.Dhash.Inv.{IsLive, IsValid, Holds}
use cstone.Dhash.Write.{delete-Arranged, Holds-elsewhere, Holds-elsewhere_before}
use cstone.Dhash.Find.{find_bucket_sound, lookup_found}
use cstone.Dhash.Adds.{Has, Wrote, written, wrote-IsValid, after, before}

-- The second table holds nothing for the key, and for other keys what the first table holds.
pub record Removes {V : Type 0} (hash hash' : Dhash V) (key : DhKey) : Type 0 where
  pub valid : IsValid hash'
  pub gen_hash : hash'.gen_hash ≡ hash.gen_hash
  pub is_equal : hash'.is_equal ≡ hash.is_equal
  pub gone : (k : DhKey) (x : V) → hash.is_equal key k ≡ true → Has hash' k x → ⊥
  pub kept : (k : DhKey) (x : V) → hash.is_equal key k ≡ false → Has hash k x → Has hash' k x
  pub only : (k : DhKey) (x : V) → Has hash' k x → Has hash k x

module _ {V : Type 0} {hash : Dhash V} (v : IsValid hash) (key : DhKey) where
  -- With no entry for the key, nothing changes.
  pub remove_missed :
      (wanted : Bool)
      → bucket_of (find_bucket hash key) ≡ none
      → remove hash key wanted ≡ (none, hash)
  unfolding remove
  remove_missed wanted e = rw (e, remove) refl

  module _ {b : ℕ} {hash' : Dhash V} {entry : Entry V} (w : Wrote hash hash' b entry)
      (inside : b < hash.num_buckets) (live : IsLive (get_entry_unsafe hash b))
      (equal : hash.is_equal (get_entry_unsafe hash b).key key ≡ true)
      (deleted : entry.deleted ≡ true) (no_hash : entry.ikey ≡ 0) (no_key : entry.key ≡ null_key)
      (same : entry.probe_count ≡ (get_entry_unsafe hash b).probe_count) where
    pub tombstone-Removes : Removes hash hash' key
    tombstone-Removes = record {
      valid = wrote-IsValid w v inside (
          delete-Arranged (written w v inside) v.laws v.arranged deleted no_hash no_key same
            live.used);
      gen_hash = w.gen_hash;
      is_equal = w.is_equal;
      gone = λ k x e h. left k x e (before w v inside h);
      kept = λ k x ne h.
          after w v inside (Holds-elsewhere (written w v inside) h (elsewhere k x ne h));
      only = λ k x h. still k x (before w v inside h);
    }
      where
        at : ℕ → Entry V
        at = get_entry_unsafe hash

        at' : ℕ → Entry V
        at' = get_entry_unsafe hash'

        dead : (c : ℕ) → c ≡ b → IsLive (at' c) → ⊥
        dead c e l =
            let d : (at' c).deleted ≡ true = rw (e, (written w v inside).here) deleted in
            cc (d, l.kept)

        elsewhere :
            (k : DhKey) (x : V) → hash.is_equal key k ≡ false → (h : Has hash k x) → h.index ≢ b
        elsewhere k x ne h e = cc (
          ne,
          v.laws.join key (at b).key k (v.laws.flip (at b).key key equal) (rw (sym e) h.equal),
        )

        still : (k : DhKey) (x : V) → Holds hash.is_equal hash.num_buckets at' k x → Has hash k x
        still k x h = Holds-elsewhere_before (written w v inside) h (λ e. dead h.index e h.live)

        left :
            (k : DhKey) (x : V)
            → hash.is_equal key k ≡ true
            → Holds hash.is_equal hash.num_buckets at' k x
            → ⊥
        left k x e h = elim (ℕ_discrete h.index b) [
          | yes here ↦ dead h.index here h.live
          | no ne ↦
              let f = sym ((written w v inside).elsewhere h.index ne) in
              ne (
                (v.arranged.placed b inside live).only h.index h.inside (rw f h.live) (
                  v.laws.join (at h.index).key k (at b).key (rw f h.equal)
                    (v.laws.flip (at b).key k (v.laws.join (at b).key key k equal e))))
        ]

  -- With an entry for the key, its value is handed over and the entry goes.
  pub remove_found :
      (wanted : Bool) (b : ℕ)
      → find_bucket hash key ≡ bucket b
      → ((remove hash key wanted).0 ≡ lookup hash key) × Removes hash (remove hash key wanted).1 key
  unfolding remove set_entry get_entry_unsafe
  remove_found wanted b e =
      let (inside, live, equal) = find_bucket_sound v key b e in
      (
        rw (e, remove) (sym (lookup_found v key b e live.kept)),
        tombstone-Removes w inside live equal refl refl refl refl,
      )
    where
      w : Wrote hash (remove hash key wanted).1 b (record (get_entry_unsafe hash b) {
        key = null_key;
        ikey = 0;
        deleted = true;
        value_obj = hash.zeroed;
      })
      w =
          rw (e, remove)
            record {
              buckets = refl;
              zeroed = refl;
              num_buckets = refl;
              prime_ix = refl;
              gen_hash = refl;
              is_equal = refl;
            }
