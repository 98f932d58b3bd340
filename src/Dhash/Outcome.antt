-- ===== src/Dhash/Outcome.antt =====
-- src/util/dhash.c: what one round of the loop of `dh__insert_ex` may do, and why.
use cstone.Prelude.{
  ℕ, ◌+◌, ◌≤◌, ◌<◌, ◌≡◌, ◌≢◌, refl, sym, ◌∙◌, true, false, ◌⊎◌, inl, inr, none, arith, ltb,
  Bool-cases, ltb→lt,
}
use cstone.Dhash.{
  DhKey, null_key, Entry, Dhash, in_use, max_probe_count, get_entry_unsafe, set_entry, hash_int,
  matches,
}
use cstone.Dhash.Storage.{Round, done, go_on, put_entry, replace_entry, replace_ok, insert_step}
use cstone.Dhash.Inv.{IsLive, Usable, IsValid}
use cstone.Dhash.Find.{matches_parts}

-- Why a round ends as it does.
pub data RoundOutcome {V : Type 0} (hash : Dhash V) (b : ℕ) (key : DhKey) (ikey : ℕ) (value : V)
    (probes : ℕ) : Round V → Type 0 where
  put :
      (IsLive (get_entry_unsafe hash b) → ⊥)
      → (get_entry_unsafe hash b).probe_count < probes
      → RoundOutcome hash b key ikey value probes (
          done (record {
            ok = true;
            table = put_entry hash b false key ikey value probes;
            buffer = value;
          }))
  replaced :
      IsLive (get_entry_unsafe hash b)
      → matches hash key ikey (get_entry_unsafe hash b) ≡ true
      → RoundOutcome hash b key ikey value probes
          (done (record { ok = true; table = replace_entry hash b key value; buffer = value }))
  failed :
      (table : Dhash V) (buffer : V)
      → (get_entry_unsafe hash b).probe_count ≢ 0
      → (hash.replace_item ≡ none → max_probe_count ≤ probes)
      → RoundOutcome hash b key ikey value probes
          (done (record { ok = false; table = table; buffer = buffer }))
  stole :
      IsLive (get_entry_unsafe hash b)
      → (get_entry_unsafe hash b).probe_count < probes
      → (get_entry_unsafe hash b).probe_count < max_probe_count
      → RoundOutcome hash b key ikey value probes (
          go_on
            (set_entry hash b (record {
              key = key;
              ikey = ikey;
              probe_count = probes;
              deleted = false;
              value_obj = value;
            }))
            (get_entry_unsafe hash b).key
            (get_entry_unsafe hash b).ikey
            (get_entry_unsafe hash b).value_obj
            ((get_entry_unsafe hash b).probe_count + 1))
  passed :
      probes ≤ (get_entry_unsafe hash b).probe_count
      → probes < max_probe_count
      → ((get_entry_unsafe hash b).deleted ≡ true)
        ⊎ (matches hash key ikey (get_entry_unsafe hash b) ≡ false)
      → RoundOutcome hash b key ikey value probes (go_on hash key ikey value (probes + 1))

module _ {V : Type 0} {hash : Dhash V} (v : IsValid hash) (key : DhKey) (ikey : ℕ) (value : V) where
  abbrev at : ℕ → Entry V
  at = get_entry_unsafe hash

  -- No tombstone has the key.
  match-IsLive :
      (b : ℕ)
      → b < hash.num_buckets
      → ikey ≡ hash_int (hash.gen_hash key)
      → Usable hash.gen_hash hash.is_equal key
      → (at b).probe_count ≢ 0
      → matches hash key ikey (at b) ≡ true
      → IsLive (at b)
  match-IsLive b inside hashed usable used match = record {
    used = used;
    kept = elim (Bool-cases (at b).deleted) [
      | inr kept ↦ kept
      | inl gone ↦
          let (same, equal) = matches_parts hash key ikey (at b) match in
          let (no_hash, no_key) = v.arranged.tombstone b inside gone in
          let z : hash_int (hash.gen_hash key) ≡ 0 = sym hashed ∙ sym same ∙ no_hash in
          let q : hash.is_equal null_key key ≡ true = rw (sym no_key) equal in
          absurd (cc (q, usable z))
    ];
  }

  refusal : (b : ℕ) → replace_ok hash (at b) value ≡ false → hash.replace_item ≡ none → ⊥
  refusal b no_ e = let t : replace_ok hash (at b) value ≡ true = rw e refl in cc (t, no_)

  pub step-RoundOutcome :
      (b probes : ℕ)
      → b < hash.num_buckets
      → ikey ≡ hash_int (hash.gen_hash key)
      → Usable hash.gen_hash hash.is_equal key
      → 0 < probes
      → RoundOutcome hash b key ikey value probes (insert_step hash b key ikey value probes)
  unfolding insert_step
  step-RoundOutcome b probes inside hashed usable some_probes = elim (Bool-cases (in_use (at b))) [
    | inr fresh ↦
        let z : (at b).probe_count ≡ 0 = ground arith in
        rw (z, v.arranged.unused b inside z)
          (put (λ live. live.used z) (omega (arith, z, some_probes)))
    | inl used ↦ elim (Bool-cases (matches hash key ikey (at b))) [
      | inl match ↦
          rw (used, match)
            (elim (Bool-cases (replace_ok hash (at b) value)) [
              | inl yes_ ↦
                  rw yes_
                    (replaced (match-IsLive b inside hashed usable (ground arith) match) match)
              | inr no_ ↦ rw no_ (failed hash value (ground arith) (λ e. absurd (refusal b no_ e)))
            ])
      | inr other ↦ elim (Bool-cases (ltb (at b).probe_count probes)) [
        | inl poorer ↦ elim (Bool-cases (at b).deleted) [
          | inl gone ↦
              rw (used, other, poorer, gone)
                (put (λ live. cc (gone, live.kept)) (ltb→lt (at b).probe_count probes poorer))
          | inr kept ↦
              let live : IsLive (at b) = record { used = ground arith; kept = kept } in
              elim (Bool-cases (ltb (at b).probe_count max_probe_count)) [
                | inl few ↦
                    rw (used, other, poorer, kept, few)
                      (stole live (ltb→lt (at b).probe_count probes poorer) (ground arith))
                | inr many ↦
                    rw (used, other, poorer, kept, many)
                      (failed
                        (set_entry hash b (record {
                          key = key;
                          ikey = ikey;
                          probe_count = probes;
                          deleted = false;
                          value_obj = value;
                        }))
                        (at b).value_obj live.used (λ e. ground arith))
              ]
        ]
        | inr richer ↦ elim (Bool-cases (ltb probes max_probe_count)) [
          | inl few ↦
              rw (used, other, richer, few)
                (passed (ground arith) (ltb→lt probes max_probe_count few) (inr other))
          | inr many ↦
              rw (used, other, richer, many) (failed hash value (ground arith) (λ e. ground arith))
        ]
      ]
    ]
  ]
