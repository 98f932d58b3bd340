-- ===== src/Dhash/Adds.antt =====
-- src/util/dhash.c: what an insertion promises, and what writing or evicting an entry adds to it.
use cstone.Prelude.{
  ℕ, ◌<◌, ◌≡◌, ◌≢◌, sym, ap, ◌∙◌, true, false, inl, inr, set, length-set, ℕ_discrete, Bool-cases,
}
use cstone.Dhash.{DhKey, Entry, Dhash, get_entry_unsafe, set_entry}
use cstone.Dhash.Inv.{IsLive, Arranged, IsValid, Holds, Written, set_entry-Written}
use cstone.Dhash.Write.{Holds-elsewhere, Holds-elsewhere_before, Holds-here}

-- The table holds a value for keys equal to this one.
abbrev pub Has : {V : Type 0} → Dhash V → DhKey → V → Type 0
Has hash = Holds hash.is_equal hash.num_buckets (get_entry_unsafe hash)

-- The second table differs from the first in one bucket, and in nothing that a lookup reads.
pub record Wrote {V : Type 0} (hash hash' : Dhash V) (b : ℕ) (entry : Entry V) : Type 0 where
  pub buckets : hash'.buckets ≡ set hash.buckets b entry
  pub zeroed : hash'.zeroed ≡ hash.zeroed
  pub num_buckets : hash'.num_buckets ≡ hash.num_buckets
  pub prime_ix : hash'.prime_ix ≡ hash.prime_ix
  pub gen_hash : hash'.gen_hash ≡ hash.gen_hash
  pub is_equal : hash'.is_equal ≡ hash.is_equal

-- The second table holds the value for the key, and for other keys what the first table holds.
pub record Adds {V : Type 0} (hash hash' : Dhash V) (key : DhKey) (value : V) : Type 0 where
  pub valid : IsValid hash'
  pub gen_hash : hash'.gen_hash ≡ hash.gen_hash
  pub is_equal : hash'.is_equal ≡ hash.is_equal
  pub new : (k : DhKey) → hash.is_equal key k ≡ true → Has hash' k value
  pub kept : (k : DhKey) (x : V) → hash.is_equal key k ≡ false → Has hash k x → Has hash' k x
  pub only : (k : DhKey) (x : V) → hash.is_equal key k ≡ false → Has hash' k x → Has hash k x

-- A well-formed table holds one value for a key.
pub Has-unique :
    {V : Type 0} {hash : Dhash V} {key : DhKey} {x y : V}
    → IsValid hash
    → Has hash key x
    → Has hash key y
    → x ≡ y
Has-unique {hash} {key} v h k =
    let at = get_entry_unsafe hash in
    let e : h.index ≡ k.index =
      (v.arranged.placed k.index k.inside k.live).only h.index h.inside h.live (
        v.laws.join (at h.index).key key (at k.index).key h.equal
          (v.laws.flip (at k.index).key key k.equal)) in
    sym h.stored ∙ ap (λ t. (at t).value_obj) e ∙ k.stored

module _ {V : Type 0} {hash hash' : Dhash V} {b : ℕ} {entry : Entry V}
    (w : Wrote hash hash' b entry) (v : IsValid hash) (inside : b < hash.num_buckets) where
  pub written : Written (get_entry_unsafe hash) (get_entry_unsafe hash') b entry
  unfolding get_entry_unsafe set_entry
  written = rw (w.buckets, w.zeroed) (set_entry-Written hash b entry (rw v.sized inside))

  pub wrote-IsValid :
      Arranged hash.gen_hash hash.is_equal hash.num_buckets (get_entry_unsafe hash') → IsValid hash'
  unfolding get_entry_unsafe
  wrote-IsValid a = record {
    laws = rw (w.gen_hash, w.is_equal) v.laws;
    sized = rw (w.buckets, w.num_buckets) (length-set hash.buckets b entry ∙ v.sized);
    prime = rw (w.num_buckets, w.prime_ix) v.prime;
    some_buckets = rw w.num_buckets v.some_buckets;
    arranged = rw (w.gen_hash, w.is_equal, w.num_buckets) a;
  }

  -- What the table after the write has, in terms of the equality and size of the one before.
  pub after :
      {k : DhKey} {x : V}
      → Holds hash.is_equal hash.num_buckets (get_entry_unsafe hash') k x
      → Has hash' k x
  unfolding get_entry_unsafe
  after h = rw (w.is_equal, w.num_buckets) h

  pub before :
      {k : DhKey} {x : V}
      → Has hash' k x
      → Holds hash.is_equal hash.num_buckets (get_entry_unsafe hash') k x
  unfolding get_entry_unsafe
  before h = rw (sym w.is_equal, sym w.num_buckets) h

  module _ (valid : IsValid hash') (live : IsLive entry) where
    theirs :
        (k : DhKey) (x : V)
        → hash.is_equal entry.key k ≡ false
        → (h : Holds hash.is_equal hash.num_buckets (get_entry_unsafe hash') k x) → h.index ≢ b
    theirs k x ne h e =
        let q : hash.is_equal entry.key k ≡ true = rw (sym written.here, sym e) h.equal in
        cc (ne, q)

    -- A live entry written over no entry, or over one with an equal key, is what the table gains.
    pub wrote-Adds :
        (IsLive (get_entry_unsafe hash b)
          → hash.is_equal (get_entry_unsafe hash b).key entry.key ≡ true)
        → Adds hash hash' entry.key entry.value_obj
    wrote-Adds gone = record {
      valid = valid;
      gen_hash = w.gen_hash;
      is_equal = w.is_equal;
      new = λ k e. after (Holds-here written inside live e);
      kept = λ k x ne h. after (Holds-elsewhere written h (overwritten k x ne h));
      only = λ k x ne h. Holds-elsewhere_before written (before h) (theirs k x ne (before h));
    }
      where
        overwritten :
            (k : DhKey) (x : V)
            → hash.is_equal entry.key k ≡ false
            → (h : Has hash k x) → h.index ≢ b
        overwritten k x ne h e =
            let at = get_entry_unsafe hash in
            cc (
              ne,
              v.laws.join entry.key (at b).key k
                  (v.laws.flip (at b).key entry.key (gone (rw (sym e) h.live)))
                  (rw (sym e) h.equal),
            )

    -- A live entry written over another one, which then finds a place, is what the table gains.
    pub steal-Adds :
        {final : Dhash V}
        → IsLive (get_entry_unsafe hash b)
        → ((c : ℕ)
            → c < hash.num_buckets
            → IsLive (get_entry_unsafe hash c)
            → hash.is_equal (get_entry_unsafe hash c).key entry.key ≡ false)
        → Adds hash' final (get_entry_unsafe hash b).key (get_entry_unsafe hash b).value_obj
        → Adds hash final entry.key entry.value_obj
    steal-Adds {final} old absent a = record {
      valid = a.valid;
      gen_hash = a.gen_hash ∙ w.gen_hash;
      is_equal = a.is_equal ∙ w.is_equal;
      new = λ k e. a.kept k entry.value_obj (apart k e) (after (Holds-here written inside live e));
      kept = λ k x ne h. elim (ℕ_discrete h.index b) [
        | yes here ↦ here_kept k x h here
        | no elsewhere ↦
            a.kept k x (rw w.is_equal (other k x h elsewhere))
              (after (Holds-elsewhere written h elsewhere))
      ];
      only = λ k x ne h. elim (Bool-cases (hash.is_equal at_b.key k)) [
        | inl evicted ↦
            let e : at_b.value_obj ≡ x = Has-unique a.valid (a.new k (rw w.is_equal evicted)) h in
            record { index = b; inside = inside; live = old; equal = evicted; stored = e }
        | inr other ↦
            let h' = a.only k x (rw w.is_equal other) h in
            Holds-elsewhere_before written (before h') (theirs k x ne (before h'))
      ];
    }
      where
        at_b : Entry V
        at_b = get_entry_unsafe hash b

        apart : (k : DhKey) → hash.is_equal entry.key k ≡ true → hash'.is_equal at_b.key k ≡ false
        apart k e = rw w.is_equal (elim (Bool-cases (hash.is_equal at_b.key k)) [
          | inr other ↦ other
          | inl same ↦
              let q : hash.is_equal at_b.key entry.key ≡ true =
                v.laws.join at_b.key k entry.key same (v.laws.flip entry.key k e) in
              absurd (cc (q, absent b inside old))
        ])

        other :
            (k : DhKey) (x : V) (h : Has hash k x) → h.index ≢ b → hash.is_equal at_b.key k ≡ false
        other k x h elsewhere = elim (Bool-cases (hash.is_equal at_b.key k)) [
          | inr differs ↦ differs
          | inl same ↦
              let at = get_entry_unsafe hash in
              absurd (
                elsewhere (
                  (v.arranged.placed b inside old).only h.index h.inside h.live (
                    v.laws.join (at h.index).key k at_b.key h.equal (v.laws.flip at_b.key k same))))
        ]

        here_kept : (k : DhKey) (x : V) (h : Has hash k x) → h.index ≡ b → Has final k x
        here_kept k x h here =
            let e : at_b.value_obj ≡ x =
              ap (λ t. (get_entry_unsafe hash t).value_obj) (sym here) ∙ h.stored in
            rw (sym e) (a.new k (rw (w.is_equal, sym here) h.equal))
