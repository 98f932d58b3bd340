-- ===== src/Dhash/Ends.antt =====
-- src/util/dhash.c: in a table with an unused bucket, the loop of `dh__insert_ex` ends with success.
use cstone.Prelude.{
  ℕ, zero, suc, ◌+◌, ◌-◌, ◌%◌, ◌≤◌, ◌<◌, ◌≡◌, ◌≢◌, refl, sym, ap, ap₂, ◌∙◌, true, Option, none,
  some, arith, dec_lt,
}
use native.Mathlib.Nat.{add-mod_right, mod-eq_of_lt, mod-add-mod}
use cstone.Dhash.{DhKey, Entry, Dhash, max_probe_count, get_entry_unsafe, set_entry, hash_key}
use cstone.Dhash.Storage.{Inserted, Round, insert_step, insert_loop, insert_ex}
use cstone.Dhash.Inv.{slot, slot-inside, next_bucket-slot, IsLive, Usable, IsValid, Written}
use cstone.Dhash.Find.{initial_probe-slot}
use cstone.Dhash.Adds.{written}
use cstone.Dhash.Carried.{
  Carried, settled, settled-IsValid, passed-Carried, evicted-next, evicted-Carried,
}
use cstone.Dhash.Outcome.{RoundOutcome, put, replaced, failed, stole, passed, step-RoundOutcome}
use cstone.Dhash.Insert.{stolen, stolen-Wrote, after_round, start-Carried}

-- A probe sequence comes back after `n` buckets, and reaches every bucket before.
slot-around : (n ikey i : ℕ) → slot n ikey (i + n) ≡ slot n ikey i
slot-around n ikey i =
    (let e : slot n ikey (i + n) ≡ (ikey + i + n) % n = ap (λ (t : ℕ). t % n) (omega arith) in e)
    ∙ add-mod_right (ikey + i) n

slot-add : (n ikey i d : ℕ) → (slot n ikey i + d) % n ≡ slot n ikey (i + d)
slot-add n ikey i d =
    mod-add-mod (ikey + i) n d
    ∙ (let e : (ikey + i + d) % n ≡ slot n ikey (i + d) = ap (λ (t : ℕ). t % n) (omega arith) in e)

slot_reaches : (n ikey i u : ℕ) → 0 < n → u < n → (d : ℕ) × (d < n) × (slot n ikey (i + d) ≡ u)
slot_reaches n ikey i u h inside = elim (dec_lt u start) [
  | yes behind ↦ (
    u + n - start,
    omega (arith, behind, slot-inside n ikey i h),
    sym (slot-add n ikey i (u + n - start))
        ∙ (let e : (start + (u + n - start)) % n ≡ (u + n) % n =
              ap (λ (t : ℕ). t % n) (omega (arith, slot-inside n ikey i h)) in
            e)
        ∙ add-mod_right u n
        ∙ mod-eq_of_lt inside,
  )
  | no ahead ↦ (
    u - start,
    omega (arith, inside, h),
    sym (slot-add n ikey i (u - start))
        ∙ (let e : (start + (u - start)) % n ≡ u % n =
              ap (λ (t : ℕ). t % n) (omega (arith, ahead)) in
            e)
        ∙ mod-eq_of_lt inside,
  )
]
  where
    start : ℕ
    start = slot n ikey i

module _ {V : Type 0} {hash : Dhash V} (v : IsValid hash) {key : DhKey} {ikey i : ℕ}
    (carried : Carried hash key ikey i) where
  abbrev n : ℕ
  n = hash.num_buckets

  -- The item in hand did not pass the unused bucket, so it is less than `n` buckets from home.
  within :
      (d : ℕ) → d < n → (get_entry_unsafe hash (slot n ikey (i + d))).probe_count ≡ 0 → i + d < n
  within d near free = elim (dec_lt (i + d) n) [
    | yes inside ↦ inside
    | no beyond ↦
        let j : ℕ = i + d - n in
        let e : slot n ikey j ≡ slot n ikey (i + d) =
          sym (slot-around n ikey j)
          ∙ (let q : j + n ≡ i + d = omega (arith, beyond) in ap (slot n ikey) q) in
        let z : (get_entry_unsafe hash (slot n ikey j)).probe_count ≡ 0 = rw e free in
        absurd (omega (arith, carried.passed j (omega (arith, near, beyond)), z))
  ]

abbrev Succeeds : {V : Type 0} → Option (Inserted V) → Type 0
Succeeds {V} o = (result : Inserted V) × (o ≡ some result) × (result.ok ≡ true)

-- With more fuel than the distance to an unused bucket, the loop succeeds.
abbrev Ends : Type 0 → ℕ → Type 0
Ends V fuel =
    (hash : Dhash V) (v : IsValid hash) (key : DhKey) (ikey : ℕ) (value : V) (i d : ℕ)
    → Carried hash key ikey i
    → hash.replace_item ≡ none
    → hash.num_buckets ≤ max_probe_count
    → d < hash.num_buckets
    → (get_entry_unsafe hash (slot hash.num_buckets ikey (i + d))).probe_count ≡ 0
    → d < fuel
    → Succeeds (insert_loop fuel hash (slot hash.num_buckets ikey i) key ikey value (suc i))

-- Past a bucket in use, the unused bucket is one step nearer.
nearer :
    {V : Type 0} (hash : Dhash V) (ikey i d : ℕ)
    → (get_entry_unsafe hash (slot hash.num_buckets ikey (i + d))).probe_count ≡ 0
    → (get_entry_unsafe hash (slot hash.num_buckets ikey i)).probe_count ≢ 0
    → (c : ℕ) × (d ≡ suc c)
nearer hash ikey i zero free used =
    let e : i + 0 ≡ i = omega arith in absurd (used (rw (sym e) free))
nearer hash ikey i (suc c) free used = (c, refl)

-- An unused bucket stays unused when an entry is evicted, and is as near to the next one's sequence.
module _ {V : Type 0} {hash : Dhash V} (v : IsValid hash) {key : DhKey} {ikey i : ℕ}
    (carried : Carried hash key ikey i)
    (live : IsLive (get_entry_unsafe hash (slot hash.num_buckets ikey i))) where
  stolen_free :
      (value : V) (c : ℕ)
      → (get_entry_unsafe hash (slot hash.num_buckets ikey (i + suc c))).probe_count ≡ 0
      → (get_entry_unsafe (stolen v key ikey value carried) (
          slot hash.num_buckets
            (get_entry_unsafe hash (slot hash.num_buckets ikey i)).ikey
            ((get_entry_unsafe hash (slot hash.num_buckets ikey i)).probe_count + c))).probe_count
        ≡ 0
  stolen_free value c free = rw (place, wr.elsewhere (slot num ikey (i + suc c)) apart) free
    where
      num : ℕ
      num = hash.num_buckets

      at : ℕ → Entry V
      at = get_entry_unsafe hash

      here : ℕ
      here = slot num ikey i

      wr :
          Written at
            (get_entry_unsafe (stolen v key ikey value carried))
            here
            (settled v carried value)
      wr = written (stolen-Wrote v key ikey value carried) v (slot-inside num ikey i v.some_buckets)

      apart : slot num ikey (i + suc c) ≢ here
      apart e = live.used (rw (sym e) free)

      place : slot num (at here).ikey ((at here).probe_count + c) ≡ slot num ikey (i + suc c)
      place =
          (let q : (at here).probe_count + c ≡ (at here).probe_count - 1 + suc c =
              omega (arith, live.used) in
            ap (slot num (at here).ikey) q)
          ∙ sym (slot-add num (at here).ikey ((at here).probe_count - 1) (suc c))
          ∙ ap (λ (t : ℕ). (t + suc c) % num)
              (sym (v.arranged.placed here (slot-inside num ikey i v.some_buckets) live).home)
          ∙ slot-add num ikey i (suc c)

round-Ends :
    {V : Type 0} (fuel : ℕ)
    → Ends V fuel
    → {hash : Dhash V} (v : IsValid hash) (key : DhKey) (ikey : ℕ) (value : V) (i d : ℕ)
    → Carried hash key ikey i
    → hash.replace_item ≡ none
    → hash.num_buckets ≤ max_probe_count
    → d < hash.num_buckets
    → (get_entry_unsafe hash (slot hash.num_buckets ikey (i + d))).probe_count ≡ 0
    → d < suc fuel
    → (r : Round V) → RoundOutcome hash (slot hash.num_buckets ikey i) key ikey value (suc i) r
    → Succeeds (after_round fuel hash (slot hash.num_buckets ikey i) r)
unfolding set_entry
round-Ends fuel ih v key ikey value i d carried no_replace small near free enough r
      (put dead poorer) =
    (_, refl, refl)
round-Ends fuel ih v key ikey value i d carried no_replace small near free enough r
      (replaced live match) =
    (_, refl, refl)
round-Ends fuel ih {hash} v key ikey value i d carried no_replace small near free enough r
      (failed table buffer used why) =
    let (c, e) = nearer hash ikey i d free used in
    absurd (omega (arith, why no_replace, within v carried d near free, small, e))
round-Ends fuel ih {hash} v key ikey value i d carried no_replace small near free enough r
      (passed richer few other) =
    let used : (get_entry_unsafe hash (slot hash.num_buckets ikey i)).probe_count ≢ 0 =
      λ z. omega (arith, z, richer) in
    let (c, e) = nearer hash ikey i d free used in
    let q : i + d ≡ suc i + c = omega (arith, e) in
    let (result, f, ok) =
      ih hash v key ikey value (suc i) c (passed-Carried v carried richer few other) no_replace
        small (omega (arith, near, e)) (rw (sym q) free) (omega (arith, enough, e)) in
    (
      result,
      ap₂ (λ t u. insert_loop fuel hash t key ikey value u)
            (next_bucket-slot hash ikey i v.prime v.some_buckets)
            (let p : suc i + 1 ≡ suc (suc i) = omega arith in p)
          ∙ f,
      ok,
    )
round-Ends fuel ih {hash} v key ikey value i d carried no_replace small near free enough r
      (stole live poorer few) =
    let at = get_entry_unsafe hash in
    let here = slot hash.num_buckets ikey i in
    let less : (at here).probe_count ≤ i = omega (arith, poorer) in
    let w = stolen-Wrote v key ikey value carried in
    let (c, e) = nearer hash ikey i d free live.used in
    let (result, f, ok) =
      ih (stolen v key ikey value carried) (settled-IsValid v carried w less) (at here).key
        (at here).ikey (at here).value_obj (at here).probe_count c
        (evicted-Carried v carried w live less few) no_replace small (omega (arith, near, e))
        (stolen_free v carried live value c
          (let q : i + d ≡ i + suc c = omega (arith, e) in rw (sym q) free))
        (omega (arith, enough, e)) in
    (
      result,
      ap₂
            (λ t u.
              insert_loop fuel (stolen v key ikey value carried) t (at here).key (at here).ikey
                (at here).value_obj u)
            (evicted-next v carried w live less)
            (let p : (at here).probe_count + 1 ≡ suc (at here).probe_count = omega arith in p)
          ∙ f,
      ok,
    )

loop-Ends : {V : Type 0} (fuel : ℕ) → Ends V fuel
unfolding insert_loop
loop-Ends zero hash v key ikey value i d carried no_replace small near free enough =
    absurd (omega (arith, enough))
loop-Ends (suc fuel) hash v key ikey value i d carried no_replace small near free enough =
    round-Ends fuel (loop-Ends fuel) v key ikey value i d carried no_replace small near free enough
      (insert_step hash (slot hash.num_buckets ikey i) key ikey value (suc i))
      (step-RoundOutcome v key ikey value (slot hash.num_buckets ikey i) (suc i)
        (slot-inside hash.num_buckets ikey i v.some_buckets) carried.hashed carried.usable
        (omega arith))

-- In a table with an unused bucket and no `replace_item`, with no more buckets than probes can count,
-- the insertion of a usable key succeeds within as many rounds as there are buckets.
pub insert_ex-Succeeds :
    {V : Type 0} {hash : Dhash V} (v : IsValid hash) (fuel u : ℕ) (key : DhKey) (value : V)
    → Usable hash.gen_hash hash.is_equal key
    → hash.replace_item ≡ none
    → hash.num_buckets ≤ max_probe_count
    → u < hash.num_buckets
    → (get_entry_unsafe hash u).probe_count ≡ 0
    → hash.num_buckets ≤ fuel
    → Succeeds (insert_ex fuel hash key value (hash_key hash key))
unfolding insert_ex
insert_ex-Succeeds {hash} v fuel u key value usable no_replace small inside free enough =
    let ikey = hash_key hash key in
    let (d, near, e) = slot_reaches hash.num_buckets ikey 0 u v.some_buckets inside in
    let (result, f, ok) =
      loop-Ends fuel hash v key ikey value 0 d (start-Carried v key usable) no_replace small near
        (rw e free) (omega (arith, near, enough)) in
    (result, ap (λ t. insert_loop fuel hash t key ikey value 1) (initial_probe-slot v key) ∙ f, ok)
