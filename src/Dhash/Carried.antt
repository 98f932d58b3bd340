-- ===== src/Dhash/Carried.antt =====
-- src/util/dhash.c: the item in hand in the loop of `dh__insert_ex`, and what a round makes of it.
use cstone.Prelude.{
  ℕ, suc, ◌-◌, ◌≤◌, ◌<◌, ◌≡◌, refl, sym, ap, ap₂, ◌∙◌, true, false, ◌⊎◌, inl, inr, arith, dec_lt,
  Bool-cases, ℕ_discrete,
}
use cstone.Dhash.{
  DhKey, Entry, Dhash, max_probe_count, get_entry_unsafe, next_bucket, hash_int, hash_key, matches,
}
use cstone.Dhash.Inv.{slot, slot-inside, next_bucket-slot, IsLive, Usable, Placed, IsValid, Written}
use cstone.Dhash.Write.{written_cases, put-Arranged}
use cstone.Dhash.Find.{matches_whole, equal-ikey}
use cstone.Dhash.Adds.{Wrote, written, wrote-IsValid}

-- An item that waits for a place, with `i` probes behind it. The buckets that it passed have as many
-- probes or more, and an entry with an equal key is still ahead.
pub record Carried {V : Type 0} (hash : Dhash V) (key : DhKey) (ikey i : ℕ) : Type 0 where
  pub hashed : ikey ≡ hash_int (hash.gen_hash key)
  pub usable : Usable hash.gen_hash hash.is_equal key
  pub few : suc i ≤ max_probe_count
  pub passed :
      (j : ℕ) → j < i → j < (get_entry_unsafe hash (slot hash.num_buckets ikey j)).probe_count
  pub later :
      (c : ℕ)
      → c < hash.num_buckets
      → IsLive (get_entry_unsafe hash c)
      → hash.is_equal (get_entry_unsafe hash c).key key ≡ true
      → i < (get_entry_unsafe hash c).probe_count

module _ {V : Type 0} {hash : Dhash V} (v : IsValid hash) {key : DhKey} {ikey i : ℕ}
    (carried : Carried hash key ikey i) where
  abbrev at : ℕ → Entry V
  at = get_entry_unsafe hash

  abbrev n : ℕ
  n = hash.num_buckets

  abbrev here : ℕ
  here = slot n ikey i

  same-ikey :
      (c : ℕ) → c < n → IsLive (at c) → hash.is_equal (at c).key key ≡ true → (at c).ikey ≡ ikey
  unfolding hash_key
  same-ikey c inside live equal = equal-ikey v key c inside live equal ∙ sym carried.hashed

  -- An entry with an equal key is at this bucket, or this bucket has more probes than passed.
  ahead :
      (c : ℕ)
      → c < n
      → IsLive (at c)
      → hash.is_equal (at c).key key ≡ true
      → ((c ≡ here) × ((at c).probe_count ≡ suc i))
        ⊎ ((suc i < (at c).probe_count) × (i < (at here).probe_count))
  ahead c inside live equal = elim (dec_lt (suc i) (at c).probe_count) [
    | yes further ↦ inr (further, rw (sym same) (p.chain i further))
    | no close ↦
        let e : (at c).probe_count ≡ suc i =
          omega (arith, close, carried.later c inside live equal) in
        inl (
          p.home ∙ ap₂ (slot n) same (let r : (at c).probe_count - 1 ≡ i = omega (arith, e) in r),
          e,
        )
  ]
    where
      p : Placed hash.gen_hash hash.is_equal n at c
      p = v.arranged.placed c inside live

      same : (at c).ikey ≡ ikey
      same = same-ikey c inside live equal

  -- At a bucket with fewer probes, no entry of the table has an equal key.
  pub absent :
      (at here).probe_count ≤ i
      → (c : ℕ) → c < n
      → IsLive (at c)
      → hash.is_equal (at c).key key ≡ false
  absent poorer c inside live = elim (Bool-cases (hash.is_equal (at c).key key)) [
    | inr other ↦ other
    | inl equal ↦ elim (ahead c inside live equal) [
      | inl (e, reached) ↦
          let r : (at here).probe_count ≡ suc i = ap (λ t. (at t).probe_count) (sym e) ∙ reached in
          absurd (omega (arith, r, poorer))
      | inr (further, richer) ↦ absurd (omega (arith, richer, poorer))
    ]
  ]

  -- Behind a bucket with as many probes and another key, the item in hand is as before.
  pub passed-Carried :
      suc i ≤ (at here).probe_count
      → suc i < max_probe_count
      → ((at here).deleted ≡ true) ⊎ (matches hash key ikey (at here) ≡ false)
      → Carried hash key ikey (suc i)
  passed-Carried richer few other = record {
    hashed = carried.hashed;
    usable = carried.usable;
    few = omega (arith, few);
    passed = λ j less. elim (ℕ_discrete j i) [
      | yes e ↦ rw e (omega (arith, richer))
      | no ne ↦ carried.passed j (omega (arith, less, ne))
    ];
    later = λ c inside live equal. elim (ahead c inside live equal) [
      | inr (further, r) ↦ further
      | inl (e, reached) ↦ absurd (mismatch c live (same-ikey c inside live equal) equal e other)
    ];
  }
    where
      mismatch :
          (c : ℕ)
          → IsLive (at c)
          → (at c).ikey ≡ ikey
          → hash.is_equal (at c).key key ≡ true
          → c ≡ here
          → ((at here).deleted ≡ true) ⊎ (matches hash key ikey (at here) ≡ false)
          → ⊥
      mismatch c live same equal e (inl gone) =
          let k : (at here).deleted ≡ false = rw (sym e) live.kept in cc (k, gone)
      mismatch c live same equal e (inr differs) =
          let m : matches hash key ikey (at here) ≡ true =
            rw (sym e) (matches_whole hash key ikey (at c) same equal) in
          cc (m, differs)

  -- The item in hand, as an entry at this bucket.
  abbrev pub settled : V → Entry V
  settled value = record {
    key = key;
    ikey = ikey;
    probe_count = suc i;
    deleted = false;
    value_obj = value;
  }

  pub settled-IsLive : (value : V) → IsLive (settled value)
  settled-IsLive value = record { used = λ z. omega (arith, z); kept = refl }

  -- Written over an entry with fewer probes, it leaves the table well formed.
  pub settled-IsValid :
      {hash' : Dhash V} {value : V}
      → Wrote hash hash' here (settled value)
      → (at here).probe_count ≤ i
      → IsValid hash'
  settled-IsValid {value} w poorer =
      let inside = slot-inside n ikey i v.some_buckets in
      wrote-IsValid w v inside (
        put-Arranged (written w v inside) v.laws v.arranged (settled-IsLive value)
          (let e : suc i - 1 ≡ i = omega arith in ap (slot n ikey) (sym e)) carried.hashed
          carried.usable carried.few (omega (arith, poorer))
          (λ j less. carried.passed j (omega (arith, less)))
          (λ c m ne live. absent poorer c m live))

  -- The entry that it evicts is the next item in hand.
  module _ {hash' : Dhash V} {value : V} (w : Wrote hash hash' here (settled value))
      (live : IsLive (at here)) (poorer : (at here).probe_count ≤ i) where
    abbrev inside : here < n
    inside = slot-inside n ikey i v.some_buckets

    abbrev p : Placed hash.gen_hash hash.is_equal n at here
    p = v.arranged.placed here inside live

    pub evicted-next : next_bucket hash here ≡ slot n (at here).ikey (at here).probe_count
    evicted-next =
        ap (next_bucket hash) p.home
        ∙ next_bucket-slot hash (at here).ikey ((at here).probe_count - 1) v.prime v.some_buckets
        ∙ ap (slot n (at here).ikey) (
            let r : suc ((at here).probe_count - 1) ≡ (at here).probe_count =
              omega (arith, live.used) in
            r)

    pub evicted-Carried :
        (at here).probe_count < max_probe_count
        → Carried hash' (at here).key (at here).ikey (at here).probe_count
    unfolding get_entry_unsafe
    evicted-Carried few = record {
      hashed = rw w.gen_hash p.hashed;
      usable = rw (w.gen_hash, w.is_equal) p.usable;
      few = omega (arith, few);
      passed = rw w.num_buckets passed_by;
      later = rw (w.num_buckets, w.is_equal) (λ c m l e. absurd (gone c m l e));
    }
      where
        wr : Written at (get_entry_unsafe hash') here (settled value)
        wr = written w v inside

        passed_by :
            (j : ℕ)
            → j < (at here).probe_count
            → j < (get_entry_unsafe hash' (slot n (at here).ikey j)).probe_count
        passed_by j less = elim (written_cases wr (slot n (at here).ikey j)) [
          | inl (e, f) ↦ rw f (omega (arith, less, poorer))
          | inr (ne, f) ↦ elim (ℕ_discrete (suc j) (at here).probe_count) [
            | no more ↦ rw f (p.chain j (omega (arith, less, more)))
            | yes last ↦
                let k : (at here).probe_count - 1 ≡ j = omega (arith, last) in
                absurd (ne (sym (p.home ∙ ap (slot n (at here).ikey) k)))
          ]
        ]

        gone :
            (c : ℕ)
            → c < n
            → IsLive (get_entry_unsafe hash' c)
            → hash.is_equal (get_entry_unsafe hash' c).key (at here).key ≡ true
            → ⊥
        gone c m l e = elim (written_cases wr c) [
          | inl (same, f) ↦
              let k : hash.is_equal key (at here).key ≡ true =
                ap (λ (t : Entry V). hash.is_equal t.key (at here).key) (sym f) ∙ e in
              cc (v.laws.flip key (at here).key k, absent poorer here inside live)
          | inr (ne, f) ↦ ne (p.only c m (rw (sym f) l) (rw (sym f) e))
        ]
