-- ===== src/Dhash/Insert.antt =====
-- src/util/dhash.c: `dh__insert_ex`. Every round keeps the table well formed, and one that goes on has
-- an item in hand that waits for a place on its probe sequence.
use cstone.Prelude.{
  ℕ, zero, suc, ◌+◌, ◌<◌, ◌≡◌, ◌≢◌, refl, sym, ap, ap₂, ◌∙◌, true, false, inl, inr, Option, some,
  arith, Bool-cases,
}
use cstone.Dhash.{DhKey, Entry, Dhash, get_entry_unsafe, set_entry, next_bucket, hash_key, matches}
use cstone.Dhash.Storage.{
  Inserted, Round, done, go_on, put_entry, replace_entry, insert_step, insert_loop, insert_ex,
}
use cstone.Dhash.Inv.{slot, slot-inside, next_bucket-slot, IsLive, Usable, Placed, IsValid}
use cstone.Dhash.Write.{put-Arranged}
use cstone.Dhash.Carried.{
  Carried, settled, settled-IsLive, settled-IsValid, absent, passed-Carried, evicted-next,
  evicted-Carried,
}
use cstone.Dhash.Adds.{Wrote, written, wrote-IsValid, Adds, wrote-Adds, steal-Adds}
use cstone.Dhash.Find.{matches_parts, initial_probe-slot}
use cstone.Dhash.Outcome.{RoundOutcome, put, replaced, failed, stole, passed, step-RoundOutcome}

module _ {V : Type 0} {hash : Dhash V} (v : IsValid hash) (key : DhKey) (ikey : ℕ) (value : V) where
  abbrev at : ℕ → Entry V
  at = get_entry_unsafe hash

  abbrev n : ℕ
  n = hash.num_buckets

  module _ {i : ℕ} (carried : Carried hash key ikey i) where
    abbrev here : ℕ
    here = slot n ikey i

    -- A round that puts the item in hand adds it.
    put-Adds :
        (IsLive (at here) → ⊥)
        → (at here).probe_count < suc i
        → Adds hash (put_entry hash here false key ikey value (suc i)) key value
    unfolding get_entry_unsafe set_entry
    put-Adds dead poorer =
        wrote-Adds w v (slot-inside n ikey i v.some_buckets)
          (settled-IsValid v carried w (omega (arith, poorer))) (settled-IsLive v carried value)
          (λ live. absurd (dead live))
      where
        w :
            Wrote hash
              (put_entry hash here false key ikey value (suc i))
              here
              (settled v carried value)
        w = record {
          buckets = refl;
          zeroed = refl;
          num_buckets = refl;
          prime_ix = refl;
          gen_hash = refl;
          is_equal = refl;
        }

    -- So does one that replaces the value of an equal key.
    replace-Adds :
        IsLive (at here)
        → matches hash key ikey (at here) ≡ true
        → Adds hash (replace_entry hash here key value) key value
    unfolding get_entry_unsafe set_entry
    replace-Adds live match = wrote-Adds w v inside valid live' (λ l. same.1)
      where
        replaced_entry : Entry V
        replaced_entry = record (at here) { key = key; value_obj = value }

        inside : here < n
        inside = slot-inside n ikey i v.some_buckets

        same : ((at here).ikey ≡ ikey) × (hash.is_equal (at here).key key ≡ true)
        same = matches_parts hash key ikey (at here) match

        live' : IsLive replaced_entry
        live' = record { used = live.used; kept = live.kept }

        p : Placed hash.gen_hash hash.is_equal n at here
        p = v.arranged.placed here inside live

        w : Wrote hash (replace_entry hash here key value) here replaced_entry
        w = record {
          buckets = refl;
          zeroed = refl;
          num_buckets = refl;
          prime_ix = refl;
          gen_hash = refl;
          is_equal = refl;
        }

        fresh : (c : ℕ) → c < n → c ≢ here → IsLive (at c) → hash.is_equal (at c).key key ≡ false
        fresh c m ne l = elim (Bool-cases (hash.is_equal (at c).key key)) [
          | inr other ↦ other
          | inl equal ↦ absurd (
              ne (
                p.only c m l (
                  v.laws.join (at c).key key (at here).key equal
                    (v.laws.flip (at here).key key same.1))))
        ]

        valid : IsValid (replace_entry hash here key value)
        valid = wrote-IsValid w v inside (
            put-Arranged (written w v inside) v.laws v.arranged live' p.home
              (same.0 ∙ carried.hashed) carried.usable p.bounded (omega arith) p.chain fresh)

    abbrev pub stolen : Dhash V
    stolen = set_entry hash here (settled v carried value)

    pub stolen-Wrote : Wrote hash stolen here (settled v carried value)
    unfolding set_entry
    stolen-Wrote = record {
      buckets = refl;
      zeroed = refl;
      num_buckets = refl;
      prime_ix = refl;
      gen_hash = refl;
      is_equal = refl;
    }

-- What the loop does with so much fuel: if it succeeds, it adds the item in hand.
abbrev Inserts : Type 0 → ℕ → Type 0
Inserts V fuel =
    (hash : Dhash V) (v : IsValid hash) (key : DhKey) (ikey : ℕ) (value : V) (i : ℕ)
    → Carried hash key ikey i
    → (result : Inserted V)
    → insert_loop fuel hash (slot hash.num_buckets ikey i) key ikey value (suc i) ≡ some result
    → result.ok ≡ true
    → Adds hash result.table key value

-- What is left to do after a round.
abbrev pub after_round : {V : Type 0} → ℕ → Dhash V → ℕ → Round V → Option (Inserted V)
after_round fuel hash b r = elim r [
  | done result ↦ some result
  | go_on hash' key' ikey' value' probes' ↦
      insert_loop fuel hash' (next_bucket hash b) key' ikey' value' probes'
]

-- What holds of a table holds of the one that the call leaves.
ended :
    {V : Type 0} {hash : Dhash V} {key : DhKey} {value : V} {a b : Inserted V}
    → some a ≡ some b
    → Adds hash a.table key value
    → Adds hash b.table key value
ended {a} {b} e adds = let q : b ≡ a = ground (arith, e) in rw q adds

round-Adds :
    {V : Type 0} (fuel : ℕ)
    → Inserts V fuel
    → {hash : Dhash V} (v : IsValid hash) (key : DhKey) (ikey : ℕ) (value : V) (i : ℕ)
    → Carried hash key ikey i
    → (r : Round V) → RoundOutcome hash (slot hash.num_buckets ikey i) key ikey value (suc i) r
    → (result : Inserted V) → after_round fuel hash (slot hash.num_buckets ikey i) r ≡ some result
    → result.ok ≡ true
    → Adds hash result.table key value
unfolding set_entry
round-Adds fuel ih v key ikey value i carried r (put dead poorer) result e ok =
    ended e (put-Adds v key ikey value carried dead poorer)
round-Adds fuel ih v key ikey value i carried r (replaced live match) result e ok =
    ended e (replace-Adds v key ikey value carried live match)
round-Adds fuel ih v key ikey value i carried r (failed table buffer used why) result e ok =
    absurd (ground arith)
round-Adds fuel ih {hash} v key ikey value i carried r (stole live poorer few) result e ok =
    let here = slot hash.num_buckets ikey i in
    let at = get_entry_unsafe hash in
    let inside = slot-inside hash.num_buckets ikey i v.some_buckets in
    let w = stolen-Wrote v key ikey value carried in
    let valid = settled-IsValid v carried w (omega (arith, poorer)) in
    steal-Adds w v inside valid (settled-IsLive v carried value) live
      (absent v carried (omega (arith, poorer)))
      (ih (stolen v key ikey value carried) valid (at here).key (at here).ikey (at here).value_obj
        (at here).probe_count (evicted-Carried v carried w live (omega (arith, poorer)) few) result
        (ap₂
            (λ t u.
              insert_loop fuel (stolen v key ikey value carried) t (at here).key (at here).ikey
                (at here).value_obj u)
            (sym (evicted-next v carried w live (omega (arith, poorer))))
            (let q : suc (at here).probe_count ≡ (at here).probe_count + 1 = omega arith in q)
          ∙ e)
        ok)
round-Adds fuel ih {hash} v key ikey value i carried r (passed richer few other) result e ok =
    ih hash v key ikey value (suc i) (passed-Carried v carried richer few other) result
      (ap₂ (λ t u. insert_loop fuel hash t key ikey value u)
          (sym (next_bucket-slot hash ikey i v.prime v.some_buckets))
          (let q : suc (suc i) ≡ suc i + 1 = omega arith in q)
        ∙ e)
      ok

insert_loop-Adds : {V : Type 0} (fuel : ℕ) → Inserts V fuel
unfolding insert_loop
insert_loop-Adds zero hash v key ikey value i carried result e ok = absurd (ground arith)
insert_loop-Adds (suc fuel) hash v key ikey value i carried result e ok =
    round-Adds fuel (insert_loop-Adds fuel) v key ikey value i carried
      (insert_step hash (slot hash.num_buckets ikey i) key ikey value (suc i))
      (step-RoundOutcome v key ikey value (slot hash.num_buckets ikey i) (suc i)
        (slot-inside hash.num_buckets ikey i v.some_buckets) carried.hashed carried.usable
        (omega arith))
      result e ok

-- Before the first round, the key is in hand.
pub start-Carried :
    {V : Type 0} {hash : Dhash V} (v : IsValid hash) (key : DhKey)
    → Usable hash.gen_hash hash.is_equal key
    → Carried hash key (hash_key hash key) 0
unfolding hash_key
start-Carried v key usable = record {
  hashed = refl;
  usable = usable;
  few = omega arith;
  passed = λ j less. absurd (omega (arith, less));
  later = λ c m live equal. omega (arith, live.used);
}

-- An insertion that succeeds adds the item, with the hash that the table computes for its key.
pub insert_ex-Adds :
    {V : Type 0} {hash : Dhash V} (v : IsValid hash) (fuel : ℕ) (key : DhKey) (value : V)
    → Usable hash.gen_hash hash.is_equal key
    → (result : Inserted V) → insert_ex fuel hash key value (hash_key hash key) ≡ some result
    → result.ok ≡ true
    → Adds hash result.table key value
unfolding insert_ex hash_key
insert_ex-Adds {hash} v fuel key value usable result e ok =
    insert_loop-Adds fuel hash v key (hash_key hash key) value 0 (start-Carried v key usable) result
      (ap (λ t. insert_loop fuel hash t key (hash_key hash key) value 1)
          (sym (initial_probe-slot v key))
        ∙ e)
      ok
