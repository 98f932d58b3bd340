-- ===== src/Dhash/Find.antt =====
-- src/util/dhash.c: `dh__find_bucket` and `dh_lookup` find the entry with a key, and only that.
use cstone.Prelude.{
  ℕ, zero, suc, ◌+◌, ◌-◌, ◌%◌, ◌≤◌, ◌<◌, ◌≡◌, refl, sym, ap, ap₂, ◌∙◌, true, false, ◌⊎◌, inl, inr,
  none, some, arith, dec_lt, Bool-cases, Option-cases, ◌↔◌, ==_iff,
}
use cstone.Dhash.{
  DhKey, Entry, Dhash, Found, bucket, key_not_found, too_many_probes, bucket_of, max_probe_count,
  get_entry_unsafe, next_bucket, hash_int, hash_key, initial_probe, matches, find_step, find_loop,
  find_bucket, lookup,
}
use cstone.Dhash.Inv.{slot, slot-inside, next_bucket-slot, IsLive, Placed, IsValid, Holds}

pub Found-cases : (found : Found) → (bucket_of found ≡ none) ⊎ ((b : ℕ) × (found ≡ bucket b))
Found-cases (bucket b) = inr (b, refl)
Found-cases key_not_found = inl refl
Found-cases too_many_probes = inl refl

module _ {V : Type 0} (hash : Dhash V) (key : DhKey) (ikey : ℕ) where
  step_hit :
      (b probes : ℕ)
      → IsLive (get_entry_unsafe hash b)
      → probes ≤ (get_entry_unsafe hash b).probe_count
      → matches hash key ikey (get_entry_unsafe hash b) ≡ true
      → find_step hash key ikey b probes ≡ some (bucket b)
  unfolding find_step
  step_hit b probes live reached match = ground (arith, live.used, live.kept)

  step_pass :
      (b probes : ℕ)
      → 0 < probes
      → probes < max_probe_count
      → probes ≤ (get_entry_unsafe hash b).probe_count
      → ((get_entry_unsafe hash b).deleted ≡ true)
        ⊎ (matches hash key ikey (get_entry_unsafe hash b) ≡ false)
      → find_step hash key ikey b probes ≡ none
  unfolding find_step
  step_pass b probes some_probes few reached other = ground arith

  step_found :
      (b probes c : ℕ)
      → find_step hash key ikey b probes ≡ some (bucket c)
      → (b ≡ c)
        × IsLive (get_entry_unsafe hash b)
        × (matches hash key ikey (get_entry_unsafe hash b) ≡ true)
  unfolding find_step
  step_found b probes c e = ground arith

  loop_end :
      (fuel b probes : ℕ) (found : Found)
      → find_step hash key ikey b probes ≡ some found
      → find_loop hash key ikey (suc fuel) b probes ≡ found
  unfolding find_loop
  loop_end fuel b probes found e = rw (e, find_loop) refl

  loop_pass :
      (fuel b probes : ℕ)
      → find_step hash key ikey b probes ≡ none
      → find_loop hash key ikey (suc fuel) b probes
        ≡ find_loop hash key ikey fuel (next_bucket hash b) (suc probes)
  unfolding find_loop
  loop_pass fuel b probes e =
      let r : probes + 1 ≡ suc probes = omega arith in rw (e, find_loop, sym r) refl

  pub matches_parts :
      (entry : Entry V)
      → matches hash key ikey entry ≡ true
      → (entry.ikey ≡ ikey) × (hash.is_equal entry.key key ≡ true)
  unfolding matches
  matches_parts entry match = ground (arith, ==_iff entry.ikey ikey)

  pub matches_whole :
      (entry : Entry V)
      → entry.ikey ≡ ikey
      → hash.is_equal entry.key key ≡ true
      → matches hash key ikey entry ≡ true
  unfolding matches
  matches_whole entry same equal = ground (arith, ==_iff entry.ikey ikey)

module _ {V : Type 0} {hash : Dhash V} (v : IsValid hash) (key : DhKey) where
  abbrev at : ℕ → Entry V
  at = get_entry_unsafe hash

  abbrev n : ℕ
  n = hash.num_buckets

  abbrev ikey : ℕ
  ikey = hash_key hash key

  -- An entry with an equal key has the same hashed key.
  pub equal-ikey :
      (c : ℕ) → c < n → IsLive (at c) → hash.is_equal (at c).key key ≡ true → (at c).ikey ≡ ikey
  unfolding hash_key
  equal-ikey c inside live equal =
      (v.arranged.placed c inside live).hashed ∙ ap hash_int (v.laws.hash (at c).key key equal)

  -- From any point of its probe sequence that is not past it, the loop finds the entry.
  loop_complete :
      (fuel i c : ℕ)
      → c < n
      → IsLive (at c)
      → hash.is_equal (at c).key key ≡ true
      → i < (at c).probe_count
      → max_probe_count ≤ fuel + i
      → find_loop hash key ikey fuel (slot n ikey i) (suc i) ≡ bucket c
  loop_complete zero i c inside live equal before enough =
      absurd (omega (arith, (v.arranged.placed c inside live).bounded))
  loop_complete (suc fuel) i c inside live equal before enough =
      elim (dec_lt (suc i) (at c).probe_count) [
        | yes further ↦
            let passed : i < (at (slot n ikey i)).probe_count = rw (sym same) (p.chain i further) in
            elim (Bool-cases (matches hash key ikey (at (slot n ikey i)))) [
              | inr other ↦
                  skip further passed (inr other)
                    (loop_complete fuel (suc i) c inside live equal further (omega (arith, enough)))
              | inl match ↦ elim (Bool-cases (at (slot n ikey i)).deleted) [
                | inl gone ↦
                    skip further passed (inl gone) (
                      loop_complete fuel (suc i) c inside live equal further
                        (omega (arith, enough)))
                | inr kept ↦
                    let live' : IsLive (at (slot n ikey i)) = record {
                      used = λ z. omega (arith, z, passed);
                      kept = kept;
                    } in
                    let e : slot n ikey i ≡ c =
                      p.only (slot n ikey i) (slot-inside n ikey i v.some_buckets) live' (
                        v.laws.join (at (slot n ikey i)).key key (at c).key
                          (matches_parts hash key ikey (at (slot n ikey i)) match).1
                          (v.laws.flip (at c).key key equal)) in
                    loop_end hash key ikey fuel (slot n ikey i) (suc i) (bucket c) (
                      step_hit hash key ikey (slot n ikey i) (suc i) live' passed match
                      ∙ ap (λ t. some (bucket t)) e)
              ]
            ]
        | no last ↦
            let e : slot n ikey i ≡ c = sym (
              p.home
              ∙ ap₂ (slot n) same
                  (let r : (at c).probe_count - 1 ≡ i = omega (arith, before, last) in r)) in
            loop_end hash key ikey fuel (slot n ikey i) (suc i) (bucket c) (
              rw e (
                step_hit hash key ikey c (suc i) live before
                  (matches_whole hash key ikey (at c) same equal)))
      ]
    where
      p : Placed hash.gen_hash hash.is_equal n at c
      p = v.arranged.placed c inside live

      same : (at c).ikey ≡ ikey
      same = equal-ikey c inside live equal

      skip :
          suc i < (at c).probe_count
          → i < (at (slot n ikey i)).probe_count
          → ((at (slot n ikey i)).deleted ≡ true)
            ⊎ (matches hash key ikey (at (slot n ikey i)) ≡ false)
          → find_loop hash key ikey fuel (slot n ikey (suc i)) (suc (suc i)) ≡ bucket c
          → find_loop hash key ikey (suc fuel) (slot n ikey i) (suc i) ≡ bucket c
      skip further passed other rest =
          loop_pass hash key ikey fuel (slot n ikey i) (suc i) (
            step_pass hash key ikey (slot n ikey i) (suc i) (omega arith)
              (omega (arith, p.bounded, further)) passed other)
          ∙ ap (λ t. find_loop hash key ikey fuel t (suc (suc i)))
              (next_bucket-slot hash ikey i v.prime v.some_buckets)
          ∙ rest

  loop_sound :
      (fuel i c : ℕ)
      → find_loop hash key ikey fuel (slot n ikey i) (suc i) ≡ bucket c
      → (c < n) × IsLive (at c) × (hash.is_equal (at c).key key ≡ true)
  unfolding find_loop
  loop_sound zero i c e = absurd (ground arith)
  loop_sound (suc fuel) i c e =
      elim (Option-cases (find_step hash key ikey (slot n ikey i) (suc i))) [
        | inl go_on ↦ loop_sound fuel (suc i) c (
            ap (λ t. find_loop hash key ikey fuel t (suc (suc i)))
              (sym (next_bucket-slot hash ikey i v.prime v.some_buckets))
            ∙ sym (loop_pass hash key ikey fuel (slot n ikey i) (suc i) go_on)
            ∙ e)
        | inr (found, end) ↦
            let same : found ≡ bucket c =
              sym (loop_end hash key ikey fuel (slot n ikey i) (suc i) found end) ∙ e in
            let (here, live, match) =
              step_found hash key ikey (slot n ikey i) (suc i) c (end ∙ ap some same) in
            rw (sym here) (
              slot-inside n ikey i v.some_buckets,
              live,
              (matches_parts hash key ikey (at (slot n ikey i)) match).1,
            )
      ]

  pub initial_probe-slot : initial_probe hash ikey ≡ slot n ikey 0
  unfolding initial_probe
  initial_probe-slot =
      rw (sym v.prime) (ap (λ (t : ℕ). t % n) (let r : ikey ≡ ikey + 0 = omega arith in r))

  pub find_bucket_complete :
      (c : ℕ)
      → c < n
      → IsLive (at c)
      → hash.is_equal (at c).key key ≡ true
      → find_bucket hash key ≡ bucket c
  unfolding find_bucket
  find_bucket_complete c inside live equal =
      ap (λ t. find_loop hash key ikey max_probe_count t 1) initial_probe-slot
      ∙ loop_complete max_probe_count 0 c inside live equal (omega (arith, live.used)) (omega arith)

  pub find_bucket_sound :
      (c : ℕ)
      → find_bucket hash key ≡ bucket c
      → (c < n) × IsLive (at c) × (hash.is_equal (at c).key key ≡ true)
  unfolding find_bucket
  find_bucket_sound c e =
      loop_sound max_probe_count 0 c
        (ap (λ t. find_loop hash key ikey max_probe_count t 1) (sym initial_probe-slot) ∙ e)

  pub lookup_found :
      (b : ℕ)
      → find_bucket hash key ≡ bucket b
      → (at b).deleted ≡ false
      → lookup hash key ≡ some (at b).value_obj
  unfolding lookup
  lookup_found b e kept = rw (e, lookup, kept) refl

  pub lookup_missed : bucket_of (find_bucket hash key) ≡ none → lookup hash key ≡ none
  unfolding lookup
  lookup_missed e = rw (e, lookup) refl

  -- In a well-formed table, `dh_lookup` finds a value exactly if an entry with an equal key holds it.
  pub lookup_iff : (value : V) → (lookup hash key ≡ some value) ↔ Holds hash.is_equal n at key value
  lookup_iff value = (found, holds)
    where
      found : lookup hash key ≡ some value → Holds hash.is_equal n at key value
      found e = elim (Found-cases (find_bucket hash key)) [
        | inl missed ↦ absurd (ground (arith, lookup_missed missed))
        | inr (b, here) ↦
            let (inside, live, equal) = find_bucket_sound b here in
            record {
              index = b;
              inside = inside;
              live = live;
              equal = equal;
              stored = let q = sym (lookup_found b here live.kept) ∙ e in ground (arith, q);
            }
      ]

      holds : Holds hash.is_equal n at key value → lookup hash key ≡ some value
      holds h =
          lookup_found h.index (find_bucket_complete h.index h.inside h.live h.equal) h.live.kept
          ∙ ap some h.stored
