-- ===== src/Dhash/Count.antt =====
-- src/util/dhash.c: an insertion takes at most one unused bucket.
use cstone.Prelude.{
  ℕ, zero, suc, ◌+◌, ◌≤◌, ◌<◌, ◌≡◌, refl, sym, ap, ap₂, ◌∙◌, true, false, inl, inr, some, List, [],
  ◌∷◌, arith, if◌then◌else◌, length, get_or, set, replicate, Bool-cases,
}
use cstone.Dhash.{DhKey, Entry, Dhash, in_use, empty_entry, get_entry_unsafe, set_entry, hash_key}
use cstone.Dhash.Storage.{Inserted, Round, insert_step, insert_loop, insert_ex}
use cstone.Dhash.Inv.{slot, slot-inside, next_bucket-slot, Usable, IsValid}
use cstone.Dhash.Find.{initial_probe-slot}
use cstone.Dhash.Carried.{Carried, settled-IsValid, passed-Carried, evicted-next, evicted-Carried}
use cstone.Dhash.Outcome.{RoundOutcome, put, replaced, failed, stole, passed, step-RoundOutcome}
use cstone.Dhash.Insert.{stolen, stolen-Wrote, after_round, start-Carried}

module _ {V : Type 0} where
  -- The number of buckets that are in use, tombstones among them.
  unfoldable pub used_count : List (Entry V) → ℕ
  used_count [] = 0
  used_count (e ∷ es) = if in_use e then suc (used_count es) else used_count es

  used_count-set :
      (es : List (Entry V)) (b : ℕ) (e : Entry V) → used_count (set es b e) ≤ suc (used_count es)
  unfolding used_count
  used_count-set [] b e = omega arith
  used_count-set (x ∷ es) zero e = ground arith
  used_count-set (x ∷ es) (suc b) e = ground (arith, used_count-set es b e)

  used_count-set_used :
      (es : List (Entry V)) (b : ℕ) (e d : Entry V)
      → in_use (get_or es b d) ≡ true
      → used_count (set es b e) ≤ used_count es
  unfolding used_count
  used_count-set_used [] b e d u = omega arith
  used_count-set_used (x ∷ es) zero e d u = ground arith
  used_count-set_used (x ∷ es) (suc b) e d u = ground (arith, used_count-set_used es b e d u)

  pub used_count-replicate :
      (n : ℕ) (zeroed : V) → used_count (replicate n (empty_entry zeroed)) ≡ 0
  unfolding used_count
  used_count-replicate zero zeroed = refl
  used_count-replicate (suc n) zeroed = used_count-replicate n zeroed

  -- With fewer buckets in use than there are, one is unused.
  pub used_count_unused :
      (es : List (Entry V)) (d : Entry V)
      → used_count es < length es
      → (u : ℕ) × (u < length es) × ((get_or es u d).probe_count ≡ 0)
  unfolding used_count
  used_count_unused [] d h = absurd (omega (arith, h))
  used_count_unused (x ∷ es) d h = elim (Bool-cases (in_use x)) [
    | inr free ↦ (0, omega arith, ground arith)
    | inl used ↦
        let less : used_count es < length es = ground arith in
        let (u, inside, f) = used_count_unused es d less in (suc u, omega (arith, inside), f)
  ]

-- What an insertion keeps of the table, whatever its result.
pub record Keeps {V : Type 0} (hash hash' : Dhash V) (more : ℕ) : Type 0 where
  pub num_buckets : hash'.num_buckets ≡ hash.num_buckets
  pub replace_item : hash'.replace_item ≡ hash.replace_item
  pub in_use_count : used_count hash'.buckets ≤ more + used_count hash.buckets

abbrev Counted : Type 0 → ℕ → Type 0
Counted V fuel =
    (hash : Dhash V) (v : IsValid hash) (key : DhKey) (ikey : ℕ) (value : V) (i : ℕ)
    → Carried hash key ikey i
    → (result : Inserted V)
    → insert_loop fuel hash (slot hash.num_buckets ikey i) key ikey value (suc i) ≡ some result
    → result.ok ≡ true
    → Keeps hash result.table 1

ended_Keeps :
    {V : Type 0} {hash : Dhash V} {a b : Inserted V}
    → some a ≡ some b
    → Keeps hash a.table 1
    → Keeps hash b.table 1
ended_Keeps {a} {b} e keeps = let q : b ≡ a = ground (arith, e) in rw q keeps

round-Keeps :
    {V : Type 0} (fuel : ℕ)
    → Counted V fuel
    → {hash : Dhash V} (v : IsValid hash) (key : DhKey) (ikey : ℕ) (value : V) (i : ℕ)
    → Carried hash key ikey i
    → (r : Round V) → RoundOutcome hash (slot hash.num_buckets ikey i) key ikey value (suc i) r
    → (result : Inserted V) → after_round fuel hash (slot hash.num_buckets ikey i) r ≡ some result
    → result.ok ≡ true
    → Keeps hash result.table 1
unfolding set_entry get_entry_unsafe
round-Keeps fuel ih {hash} v key ikey value i carried r (put dead poorer) result e ok =
    ended_Keeps e (record {
      num_buckets = refl;
      replace_item = refl;
      in_use_count = omega (
        arith,
        used_count-set hash.buckets (slot hash.num_buckets ikey i) (record {
          key = key;
          ikey = ikey;
          probe_count = suc i;
          deleted = false;
          value_obj = value;
        }),
      );
    })
round-Keeps fuel ih {hash} v key ikey value i carried r (replaced live match) result e ok =
    ended_Keeps e (record {
      num_buckets = refl;
      replace_item = refl;
      in_use_count = omega (
        arith,
        used_count-set hash.buckets (slot hash.num_buckets ikey i)
            (record (get_entry_unsafe hash (slot hash.num_buckets ikey i)) {
              key = key;
              value_obj = value;
            }),
      );
    })
round-Keeps fuel ih v key ikey value i carried r (failed table buffer used why) result e ok =
    absurd (ground arith)
round-Keeps fuel ih {hash} v key ikey value i carried r (stole live poorer few) result e ok =
    let here = slot hash.num_buckets ikey i in
    let at = get_entry_unsafe hash in
    let less : (at here).probe_count ≤ i = omega (arith, poorer) in
    let w = stolen-Wrote v key ikey value carried in
    let k : Keeps (stolen v key ikey value carried) result.table 1 =
      ih (stolen v key ikey value carried) (settled-IsValid v carried w less) (at here).key
        (at here).ikey (at here).value_obj (at here).probe_count
        (evicted-Carried v carried w live less few) result
        (ap₂
            (λ t u.
              insert_loop fuel (stolen v key ikey value carried) t (at here).key (at here).ikey
                (at here).value_obj u)
            (sym (evicted-next v carried w live less))
            (let q : suc (at here).probe_count ≡ (at here).probe_count + 1 = omega arith in q)
          ∙ e)
        ok in
    record {
      num_buckets = k.num_buckets;
      replace_item = k.replace_item;
      in_use_count = omega (
        arith,
        k.in_use_count,
        used_count-set_used hash.buckets here
            (record {
              key = key;
              ikey = ikey;
              probe_count = suc i;
              deleted = false;
              value_obj = value;
            })
            (empty_entry hash.zeroed) (ground (arith, live.used)),
      );
    }
round-Keeps fuel ih {hash} v key ikey value i carried r (passed richer few other) result e ok =
    ih hash v key ikey value (suc i) (passed-Carried v carried richer few other) result
      (ap₂ (λ t u. insert_loop fuel hash t key ikey value u)
          (sym (next_bucket-slot hash ikey i v.prime v.some_buckets))
          (let q : suc (suc i) ≡ suc i + 1 = omega arith in q)
        ∙ e)
      ok

loop-Keeps : {V : Type 0} (fuel : ℕ) → Counted V fuel
unfolding insert_loop
loop-Keeps zero hash v key ikey value i carried result e ok = absurd (ground arith)
loop-Keeps (suc fuel) hash v key ikey value i carried result e ok =
    round-Keeps fuel (loop-Keeps fuel) v key ikey value i carried
      (insert_step hash (slot hash.num_buckets ikey i) key ikey value (suc i))
      (step-RoundOutcome v key ikey value (slot hash.num_buckets ikey i) (suc i)
        (slot-inside hash.num_buckets ikey i v.some_buckets) carried.hashed carried.usable
        (omega arith))
      result e ok

pub insert_ex-Keeps :
    {V : Type 0} {hash : Dhash V} (v : IsValid hash) (fuel : ℕ) (key : DhKey) (value : V)
    → Usable hash.gen_hash hash.is_equal key
    → (result : Inserted V) → insert_ex fuel hash key value (hash_key hash key) ≡ some result
    → result.ok ≡ true
    → Keeps hash result.table 1
unfolding insert_ex
insert_ex-Keeps {hash} v fuel key value usable result e ok =
    loop-Keeps fuel hash v key (hash_key hash key) value 0 (start-Carried v key usable) result
      (ap (λ t. insert_loop fuel hash t key (hash_key hash key) value 1)
          (sym (initial_probe-slot v key))
        ∙ e)
      ok
