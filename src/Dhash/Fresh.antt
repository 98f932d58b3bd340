-- ===== src/Dhash/Fresh.antt =====
-- src/util/dhash.c: the empty table that `dh__init` makes for `dh__grow`.
use cstone.Prelude.{
  ℕ, zero, suc, ◌+◌, ◌*◌, ◌/◌, max, ◌≡◌, refl, sym, ap, ◌∙◌, Bool, false, not, ◌⊎◌, inl, inr, none,
  some, arith, length, get_or, replicate, length-replicate, u32, ◌==◌, ◌||◌, Bool-cases,
}
use cstone.PrimeModulus.{get_prime, get_closest_prime_index}
use cstone.PrimeModulus.Laws.{get_prime-least, get_prime_at}
use cstone.Dhash.{DhKey, Entry, Dhash, empty_entry, get_entry_unsafe}
use cstone.Dhash.Table.{alloc_buckets, may_grow, init_grown, entry_size, round_up_align}
use cstone.Dhash.Inv.{IsLive, KeyLaws, IsValid}
use cstone.Dhash.Adds.{Has}

-- A table with every bucket unused, of the size with this index, and else as the other table.
pub record Fresh {V : Type 0} (hash grown : Dhash V) (prime_ix : ℕ) : Type 0 where
  pub buckets : grown.buckets ≡ replicate (get_prime prime_ix) (empty_entry hash.zeroed)
  pub num_buckets : grown.num_buckets ≡ get_prime prime_ix
  pub prime : grown.prime_ix ≡ prime_ix
  pub gen_hash : grown.gen_hash ≡ hash.gen_hash
  pub is_equal : grown.is_equal ≡ hash.is_equal
  pub replace_item : grown.replace_item ≡ hash.replace_item
  pub zeroed : grown.zeroed ≡ hash.zeroed

pub get_or-replicate : {A : Type 0} (n i : ℕ) (a : A) → get_or (replicate n a) i a ≡ a
get_or-replicate zero i a = refl
get_or-replicate (suc n) zero a = refl
get_or-replicate (suc n) (suc i) a = get_or-replicate n i a

module _ {V : Type 0} (allocates : ℕ → Bool) (hash : Dhash V) where
  pub alloc_cases :
      (n : ℕ)
      → (alloc_buckets allocates hash n ≡ none)
        ⊎ (alloc_buckets allocates hash n
            ≡ some (record hash {
              num_buckets = max n (get_prime 0);
              buckets = replicate (max n (get_prime 0)) (empty_entry hash.zeroed);
            }))
  unfolding alloc_buckets
  alloc_cases n =
      let num = max n (get_prime 0) in
      let size = entry_size + hash.value_size in
      elim (Bool-cases (u32 (num * size) / size == num)) [
        | inr overflow ↦ inl (rw (alloc_buckets, overflow) refl)
        | inl fits ↦ elim (Bool-cases (allocates (u32 (num * size)))) [
          | inr full ↦ inl (rw (alloc_buckets, fits, full) refl)
          | inl memory ↦ inr (rw (alloc_buckets, fits, memory) refl)
        ]
      ]

  pub init_grown_cases :
      {r : ℕ} (wanted : ℕ)
      → get_closest_prime_index wanted ≡ some r
      → (init_grown allocates hash wanted ≡ some none)
        ⊎ ((grown : Dhash V) × (init_grown allocates hash wanted ≡ some (some grown))
            × Fresh hash grown r)
  unfolding init_grown
  init_grown_cases {r} wanted e =
      elim (Bool-cases (
        not (
          may_grow (round_up_align hash.value_size) hash.max_storage false hash.grow_hash
            (get_prime r))
        || hash.static_buckets)) [
          | inl refused ↦ inl (rw (init_grown, e, refused) refl)
          | inr allowed ↦ elim (alloc_cases (get_prime r)) [
            | inl full ↦ inl (rw (init_grown, e, allowed, full) refl)
            | inr got ↦ inr (
              record hash {
                num_buckets = get_prime r;
                buckets = replicate (max (get_prime r) (get_prime 0)) (empty_entry hash.zeroed);
                prime_ix = r;
                used_buckets = 0;
              },
              rw (init_grown, e, allowed, got) refl,
              record {
                buckets = ap (λ t. replicate t (empty_entry hash.zeroed)) (largest r);
                num_buckets = refl;
                prime = refl;
                gen_hash = refl;
                is_equal = refl;
                replace_item = refl;
                zeroed = refl;
              },
            )
          ]
        ]
    where
      largest : (r : ℕ) → max (get_prime r) (get_prime 0) ≡ get_prime r
      largest r = omega (arith, get_prime-least r)

module _ {V : Type 0} {hash grown : Dhash V} {r : ℕ} (f : Fresh hash grown r) where
  fresh_entry : (b : ℕ) → get_entry_unsafe grown b ≡ empty_entry hash.zeroed
  unfolding get_entry_unsafe
  fresh_entry b =
      rw (f.buckets, f.zeroed) (get_or-replicate (get_prime r) b (empty_entry hash.zeroed))

  fresh-dead : (b : ℕ) → IsLive (get_entry_unsafe grown b) → ⊥
  fresh-dead b live = live.used (ap (λ (t : Entry V). t.probe_count) (fresh_entry b))

  pub Fresh-empty : (k : DhKey) (x : V) → Has grown k x → ⊥
  Fresh-empty k x h = fresh-dead h.index h.live

  pub Fresh-IsValid : KeyLaws hash.gen_hash hash.is_equal → IsValid grown
  Fresh-IsValid laws = record {
    laws = let q : KeyLaws grown.gen_hash grown.is_equal = rw (f.gen_hash, f.is_equal) laws in q;
    sized =
        ap length f.buckets
        ∙ length-replicate (get_prime r) (empty_entry hash.zeroed)
        ∙ sym f.num_buckets;
    prime = f.num_buckets ∙ ap get_prime (sym f.prime);
    some_buckets = omega (arith, f.num_buckets, get_prime-least r, get_prime_at 0 (omega arith));
    arranged = record {
      unused = λ b m e. ap (λ (t : Entry V). t.deleted) (fresh_entry b);
      tombstone = λ b m e. (
        ap (λ (t : Entry V). t.ikey) (fresh_entry b),
        ap (λ (t : Entry V). t.key) (fresh_entry b),
      );
      placed = λ b m live. absurd (fresh-dead b live);
    };
  }
