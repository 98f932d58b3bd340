-- ===== src/Dhash/Write.antt =====
-- src/util/dhash.c: what one write to a bucket does to a well-formed table, and to what it holds.
use cstone.Prelude.{
  ℕ, suc, ◌-◌, ◌≤◌, ◌<◌, ◌≡◌, ◌≢◌, sym, ap, ◌∙◌, Bool, true, false, ◌⊎◌, inl, inr, arith,
  ℕ_discrete,
}
use cstone.Dhash.{DhKey, null_key, Entry, max_probe_count, hash_int}
use cstone.Dhash.Inv.{slot, IsLive, KeyLaws, Usable, Placed, Arranged, Holds, Written}

module _ {V : Type 0} {at at' : ℕ → Entry V} {b : ℕ} {entry : Entry V}
    (w : Written at at' b entry) where
  -- A bucket after the write is the one written or as it was.
  pub written_cases : (c : ℕ) → ((c ≡ b) × (at' c ≡ entry)) ⊎ ((c ≢ b) × (at' c ≡ at c))
  written_cases c = elim (ℕ_discrete c b) [
    | yes e ↦ inl (e, ap at' e ∙ w.here)
    | no ne ↦ inr (ne, w.elsewhere c ne)
  ]

module _ {V : Type 0} {is_equal : DhKey → DhKey → Bool} {n : ℕ} {at at' : ℕ → Entry V} {b : ℕ}
    {entry : Entry V} (w : Written at at' b entry) where
  -- What a table holds elsewhere stays.
  pub Holds-elsewhere :
      {key : DhKey} {value : V} (h : Holds is_equal n at key value)
      → h.index ≢ b
      → Holds is_equal n at' key value
  Holds-elsewhere h ne =
      let e = w.elsewhere h.index ne in
      record {
        index = h.index;
        inside = h.inside;
        live = rw e h.live;
        equal = rw e h.equal;
        stored = rw e h.stored;
      }

  pub Holds-elsewhere_before :
      {key : DhKey} {value : V} (h : Holds is_equal n at' key value)
      → h.index ≢ b
      → Holds is_equal n at key value
  Holds-elsewhere_before h ne =
      let e = sym (w.elsewhere h.index ne) in
      record {
        index = h.index;
        inside = h.inside;
        live = rw e h.live;
        equal = rw e h.equal;
        stored = rw e h.stored;
      }

  pub Holds-here :
      {key : DhKey}
      → b < n
      → IsLive entry
      → is_equal entry.key key ≡ true
      → Holds is_equal n at' key entry.value_obj
  Holds-here inside live equal = record {
    index = b;
    inside = inside;
    live = rw w.here live;
    equal = rw w.here equal;
    stored = ap (λ (t : Entry V). t.value_obj) w.here;
  }

module _ {V : Type 0} {gen_hash : DhKey → ℕ} {is_equal : DhKey → DhKey → Bool} {n : ℕ}
    {at at' : ℕ → Entry V} {b : ℕ} {entry : Entry V} (w : Written at at' b entry)
    (laws : KeyLaws gen_hash is_equal) (a : Arranged gen_hash is_equal n at) where
  -- Where counts of probes only grow, the entries elsewhere stay placed, unless the new key is theirs.
  stays_placed :
      ((c : ℕ) → (at c).probe_count ≤ (at' c).probe_count)
      → (c : ℕ) → c < n
      → c ≢ b
      → IsLive (at c)
      → (IsLive entry → is_equal (at c).key entry.key ≡ false)
      → Placed gen_hash is_equal n at' c
  stays_placed grows c m ne live differs =
      let e = w.elsewhere c ne in
      let p = a.placed c m live in
      record {
        home = rw e p.home;
        hashed = rw e p.hashed;
        usable = rw e p.usable;
        bounded = rw e p.bounded;
        chain = rw e (λ i k. omega (arith, p.chain i k, grows (slot n (at c).ikey i)));
        only = rw e (λ d k live' same. elim (written_cases w d) [
          | inl (here, f) ↦ absurd (clash (rw (sym f) live') (rw (sym f) same))
          | inr (other, f) ↦ p.only d k (rw (sym f) live') (rw (sym f) same)
        ]);
      }
    where
      clash : IsLive entry → is_equal entry.key (at c).key ≡ true → ⊥
      clash live' same = cc (laws.flip entry.key (at c).key same, differs live')

  -- A live entry put at its place, over one with no more probes and with no entry for its key
  -- elsewhere, leaves the table well formed.
  pub put-Arranged :
      (live : IsLive entry)
      → b ≡ slot n entry.ikey (entry.probe_count - 1)
      → entry.ikey ≡ hash_int (gen_hash entry.key)
      → Usable gen_hash is_equal entry.key
      → entry.probe_count ≤ max_probe_count
      → (at b).probe_count ≤ entry.probe_count
      → ((i : ℕ) → suc i < entry.probe_count → i < (at (slot n entry.ikey i)).probe_count)
      → ((c : ℕ) → c < n → c ≢ b → IsLive (at c) → is_equal (at c).key entry.key ≡ false)
      → Arranged gen_hash is_equal n at'
  put-Arranged live home hashed usable bounded more chain fresh = record {
    unused = λ c m e. elim (written_cases w c) [
      | inl (here, f) ↦ rw f live.kept
      | inr (ne, f) ↦ rw f (a.unused c m (rw (sym f) e))
    ];
    tombstone = λ c m e. elim (written_cases w c) [
      | inl (here, f) ↦ absurd (clash (rw (sym f) e))
      | inr (ne, f) ↦ rw f (a.tombstone c m (rw (sym f) e))
    ];
    placed = λ c m live'. elim (written_cases w c) [
      | inl (here, f) ↦ rw here new
      | inr (ne, f) ↦
          stays_placed grows c m ne (rw (sym f) live') (λ l. fresh c m ne (rw (sym f) live'))
    ];
  }
    where
      clash : entry.deleted ≡ true → ⊥
      clash e = cc (e, live.kept)

      grows : (c : ℕ) → (at c).probe_count ≤ (at' c).probe_count
      grows c = elim (written_cases w c) [
        | inl (here, f) ↦ rw (f, here) more
        | inr (ne, f) ↦ rw f (omega arith)
      ]

      taken : (d : ℕ) → d < n → d ≢ b → IsLive (at d) → is_equal (at d).key entry.key ≡ true → ⊥
      taken d k ne live' same = cc (same, fresh d k ne live')

      new : Placed gen_hash is_equal n at' b
      new = record {
        home = rw w.here home;
        hashed = rw w.here hashed;
        usable = rw w.here usable;
        bounded = rw w.here bounded;
        chain = rw w.here (λ i k. omega (arith, chain i k, grows (slot n entry.ikey i)));
        only = rw w.here (λ d k live' same. elim (written_cases w d) [
          | inl (here, f) ↦ here
          | inr (ne, f) ↦ absurd (taken d k ne (rw (sym f) live') (rw (sym f) same))
        ]);
      }

  -- So does the mark of a tombstone.
  pub delete-Arranged :
      entry.deleted ≡ true
      → entry.ikey ≡ 0
      → entry.key ≡ null_key
      → entry.probe_count ≡ (at b).probe_count
      → (at b).probe_count ≢ 0
      → Arranged gen_hash is_equal n at'
  delete-Arranged deleted no_hash no_key same used = record {
    unused = λ c m e. elim (written_cases w c) [
      | inl (here, f) ↦ absurd (used (sym same ∙ (rw (sym f) e)))
      | inr (ne, f) ↦ rw f (a.unused c m (rw (sym f) e))
    ];
    tombstone = λ c m e. elim (written_cases w c) [
      | inl (here, f) ↦ rw f (no_hash, no_key)
      | inr (ne, f) ↦ rw f (a.tombstone c m (rw (sym f) e))
    ];
    placed = λ c m live. elim (written_cases w c) [
      | inl (here, f) ↦ absurd (dead (rw (sym f) live))
      | inr (ne, f) ↦ stays_placed grows c m ne (rw (sym f) live) (λ l. absurd (dead l))
    ];
  }
    where
      dead : IsLive entry → ⊥
      dead live = cc (deleted, live.kept)

      grows : (c : ℕ) → (at c).probe_count ≤ (at' c).probe_count
      grows c = elim (written_cases w c) [
        | inl (here, f) ↦ rw (f, here) (omega (arith, same))
        | inr (ne, f) ↦ rw f (omega arith)
      ]
