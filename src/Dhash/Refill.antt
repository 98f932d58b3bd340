-- ===== src/Dhash/Refill.antt =====
-- src/util/dhash.c: the loop of `dh__grow` that copies the old items into the new buckets.
use cstone.Prelude.{
  ℕ, zero, suc, ◌+◌, ◌≤◌, ◌<◌, ◌≡◌, refl, sym, ◌∙◌, Bool, true, false, ◌⊎◌, inl, inr, some, List,
  ◌∷◌, arith, length, get_or, Bool-cases,
}
use cstone.Dhash.{DhKey, Entry, Dhash, get_entry_unsafe, hash_int}
use cstone.Dhash.Storage.{Inserted, insert_ex}
use cstone.Dhash.Table.{is_live, reinsert}
use cstone.Dhash.Inv.{IsLive, Usable, IsValid, Holds}
use cstone.Dhash.Adds.{Has, Has-unique, Adds}
use cstone.Dhash.Count.{used_count, Keeps}

module _ {V : Type 0} (gen_hash : DhKey → ℕ) (is_equal : DhKey → DhKey → Bool) (d : Entry V) where
  -- What the old buckets are: the live ones have their hash, and no two of them equal keys.
  pub record Items (items : List (Entry V)) : Type 0 where
    pub hashed :
        (b : ℕ)
        → b < length items
        → IsLive (get_or items b d)
        → (get_or items b d).ikey ≡ hash_int (gen_hash (get_or items b d).key)
    pub usable :
        (b : ℕ)
        → b < length items
        → IsLive (get_or items b d)
        → Usable gen_hash is_equal (get_or items b d).key
    pub only :
        (b c : ℕ)
        → b < length items
        → c < length items
        → IsLive (get_or items b d)
        → IsLive (get_or items c d)
        → is_equal (get_or items b d).key (get_or items c d).key ≡ true
        → b ≡ c

  pub tail-Items : {item : Entry V} {items : List (Entry V)} → Items (item ∷ items) → Items items
  tail-Items i = record {
    hashed = λ b m l. i.hashed (suc b) (omega (arith, m)) l;
    usable = λ b m l. i.usable (suc b) (omega (arith, m)) l;
    only = λ b c m k l l' e.
        let q : suc b ≡ suc c =
          i.only (suc b) (suc c) (omega (arith, m)) (omega (arith, k)) l l' e in
        omega (arith, q);
  }

module _ {V : Type 0} (is_equal : DhKey → DhKey → Bool) (d : Entry V) where
  -- One of the items has the key and this value.
  abbrev pub Among : List (Entry V) → DhKey → V → Type 0
  Among items = Holds is_equal (length items) (λ b. get_or items b d)

  pub later-Among :
      (item : Entry V) (items : List (Entry V)) {k : DhKey} {x : V}
      → Among items k x
      → Among (item ∷ items) k x
  later-Among item items h = record {
    index = suc h.index;
    inside = omega (arith, h.inside);
    live = h.live;
    equal = h.equal;
    stored = h.stored;
  }

  pub Among-cases :
      (item : Entry V) (items : List (Entry V)) {k : DhKey} {x : V} (b : ℕ)
      → b < suc (length items)
      → IsLive (get_or (item ∷ items) b d)
      → is_equal (get_or (item ∷ items) b d).key k ≡ true
      → (get_or (item ∷ items) b d).value_obj ≡ x
      → (IsLive item × (is_equal item.key k ≡ true) × (item.value_obj ≡ x)) ⊎ Among items k x
  Among-cases item items zero m l e s = inl (l, e, s)
  Among-cases item items (suc b) m l e s =
      inr (record { index = b; inside = omega (arith, m); live = l; equal = e; stored = s })

-- The second table holds what the first holds, and the items.
pub record Refilled {V : Type 0} (d : Entry V) (items : List (Entry V)) (hash hash' : Dhash V)
    : Type 0 where
  pub valid : IsValid hash'
  pub num_buckets : hash'.num_buckets ≡ hash.num_buckets
  pub replace_item : hash'.replace_item ≡ hash.replace_item
  pub gen_hash : hash'.gen_hash ≡ hash.gen_hash
  pub is_equal : hash'.is_equal ≡ hash.is_equal
  pub in_use_count : used_count hash'.buckets ≤ length items + used_count hash.buckets
  pub kept : (k : DhKey) (x : V) → Has hash k x → Has hash' k x
  pub new : (k : DhKey) (x : V) → Among hash.is_equal d items k x → Has hash' k x
  pub only : (k : DhKey) (x : V) → Has hash' k x → Has hash k x ⊎ Among hash.is_equal d items k x

pub live→IsLive : {V : Type 0} (e : Entry V) → is_live e ≡ true → IsLive e
live→IsLive e h = record { used = ground arith; kept = ground arith }

pub dead→IsLive : {V : Type 0} (e : Entry V) → is_live e ≡ false → IsLive e → ⊥
dead→IsLive e h l = ground (arith, l.used, l.kept)

module _ {V : Type 0} (fuel : ℕ) (d : Entry V) where
  pub reinsert_dead :
      (item : Entry V) (items : List (Entry V)) (hash : Dhash V)
      → is_live item ≡ false
      → reinsert fuel (item ∷ items) hash ≡ reinsert fuel items hash
  unfolding reinsert
  reinsert_dead item items hash e = rw (e, reinsert) refl

  pub reinsert_live :
      (item : Entry V) (items : List (Entry V)) (hash : Dhash V) (result : Inserted V)
      → is_live item ≡ true
      → insert_ex fuel hash item.key item.value_obj item.ikey ≡ some result
      → reinsert fuel (item ∷ items) hash ≡ reinsert fuel items result.table
  unfolding reinsert
  reinsert_live item items hash result e f = rw (e, f, reinsert) refl

  -- An item that does not count is passed over.
  pub skip-Refilled :
      (item : Entry V) (items : List (Entry V)) {hash hash' : Dhash V}
      → (IsLive item → ⊥)
      → Refilled d items hash hash'
      → Refilled d (item ∷ items) hash hash'
  skip-Refilled item items {hash} dead r = record {
    valid = r.valid;
    num_buckets = r.num_buckets;
    replace_item = r.replace_item;
    gen_hash = r.gen_hash;
    is_equal = r.is_equal;
    in_use_count = omega (arith, r.in_use_count);
    kept = r.kept;
    new = λ k x h.
        elim (Among-cases hash.is_equal d item items h.index h.inside h.live h.equal h.stored) [
          | inl (l, e, s) ↦ absurd (dead l)
          | inr later ↦ r.new k x later
        ];
    only = λ k x h. elim (r.only k x h) [
      | inl had ↦ inl had
      | inr later ↦ inr (later-Among hash.is_equal d item items later)
    ];
  }

  -- One that counts is added, and the rest follows.
  pub add-Refilled :
      (item : Entry V) (items : List (Entry V)) {hash middle hash' : Dhash V}
      → IsValid hash
      → IsLive item
      → ((x : V) → Has hash item.key x → ⊥)
      → Adds hash middle item.key item.value_obj
      → Keeps hash middle 1
      → Refilled d items middle hash'
      → Refilled d (item ∷ items) hash hash'
  add-Refilled item items {hash} {middle} {hash'} v live absent a keeps r = record {
    valid = r.valid;
    num_buckets = r.num_buckets ∙ keeps.num_buckets;
    replace_item = r.replace_item ∙ keeps.replace_item;
    gen_hash = r.gen_hash ∙ a.gen_hash;
    is_equal = r.is_equal ∙ a.is_equal;
    in_use_count = omega (arith, r.in_use_count, keeps.in_use_count);
    kept = λ k x h. r.kept k x (a.kept k x (apart k x h) h);
    new = λ k x h.
        elim (Among-cases hash.is_equal d item items h.index h.inside h.live h.equal h.stored) [
          | inl (l, e, s) ↦ rw (sym s) (r.kept k item.value_obj (a.new k e))
          | inr later ↦ r.new k x (rw a.is_equal later)
        ];
    only = λ k x h. elim (r.only k x h) [
      | inr later ↦ inr (later-Among hash.is_equal d item items (rw (sym a.is_equal) later))
      | inl had ↦ elim (Bool-cases (hash.is_equal item.key k)) [
        | inr other ↦ inl (a.only k x other had)
        | inl same ↦ inr (record {
          index = 0;
          inside = omega arith;
          live = live;
          equal = same;
          stored = Has-unique a.valid (a.new k same) had;
        })
      ]
    ];
  }
    where
      apart : (k : DhKey) (x : V) → Has hash k x → hash.is_equal item.key k ≡ false
      apart k x h = elim (Bool-cases (hash.is_equal item.key k)) [
        | inr other ↦ other
        | inl same ↦ absurd (
            absent x (record {
              index = h.index;
              inside = h.inside;
              live = h.live;
              equal =
                  v.laws.join (get_entry_unsafe hash h.index).key k item.key h.equal
                    (v.laws.flip item.key k same);
              stored = h.stored;
            }))
      ]
