-- ===== src/Mempool/Free.antt =====
-- src/util/mempool.c: `mp_free` puts an element back, in front of the free elements of its pool.
use cstone.Prelude.{
  ℕ, suc, ◌+◌, ◌-◌, ◌*◌, ◌%◌, ◌^◌, ◌≤◌, ◌<◌, ◌≡◌, ◌≢◌, refl, sym, ap, ◌∙◌, inl, inr, List, [], ◌∷◌,
  All, arith, length, Bool, true, false, ◌==◌, ne→==, u32,
}
use native.Mathlib.Nat.{mod-eq_of_lt, mul-mod_left}
use mathlib.Core.Path.{subst}
use cstone.Mempool.{
  Pool, PoolSet, set_chunk, holds, is_ref_counted, ref_count_size, put_back, free_in, free_loop,
  free,
}
use cstone.Mempool.Inv.{
  IsPool, IsElement, ArePools, Apart, Same, All-map, elements_apart, Chain-same, ArePools-Same,
  IsPool-Same, set_chunk-next, set_chunk_else,
}

-- An element put in front of the free elements of its pool, the only pool that it lies in.
pub data Returns (e : ℕ) : List Pool → List (List ℕ) → List (List ℕ) → Type 0 where
  returned :
      {p : Pool} {ps : List Pool} {xs : List ℕ} {frees : List (List ℕ)}
      → IsElement p e
      → All (λ x. e ≢ x) xs
      → suc (length xs) < 2 ^ 32
      → Returns e (p ∷ ps) (xs ∷ frees) ((e ∷ xs) ∷ frees)
  behind :
      {p : Pool} {ps : List Pool} {xs : List ℕ} {frees frees' : List (List ℕ)}
      → Returns e ps frees frees'
      → Returns e (p ∷ ps) (xs ∷ frees) (xs ∷ frees')

-- The address of an element is a multiple of the size from the start, so it has no count of references.
not_counted : (p : Pool) (e : ℕ) → 8 ≤ p.element_size → IsElement p e → is_ref_counted p e ≡ false
unfolding is_ref_counted
not_counted p e room el =
    let q : e - p.pool_begin ≡ el.index * p.element_size = omega (arith, el.place) in
    let z : (e - p.pool_begin) % p.element_size ≡ 0 =
      ap (λ (t : ℕ). t % p.element_size) q ∙ mul-mod_left el.index p.element_size in
    ne→== ((e - p.pool_begin) % p.element_size) ref_count_size (λ f. omega (arith, z, f))

module _ (memory : ℕ → ℕ) (p : Pool) (xs : List ℕ) (e : ℕ) (v : IsPool memory p xs)
    (el : IsElement p e) (new : All (λ x. e ≢ x) xs) (few : suc (length xs) < 2 ^ 32) where
  far : (y : ℕ) → IsElement p y → e ≢ y → y ≢ e + 4
  far y ey ne q = elim (elements_apart el ey ne) [
    | inl before ↦ omega (arith, before, q, v.room)
    | inr behind_ ↦ omega (arith, behind_, q, v.room)
  ]

  -- The writes to the element leave the links of the other free elements.
  links :
      (ys : List ℕ)
      → All (IsElement p) ys
      → All (λ x. e ≢ x) ys
      → All (λ x. set_chunk memory e p.free_list x ≡ memory x) ys
  links [] a b = tt
  links (y ∷ ys) a b =
      (set_chunk_else memory e p.free_list y (λ q. b.0 (sym q)) (far y a.0 b.0), links ys a.1 b.1)

  put_back-IsPool : IsPool (put_back memory p e).1 (put_back memory p e).0 (e ∷ xs)
  unfolding put_back
  put_back-IsPool = record {
    begins = v.begins;
    ends = v.ends;
    room = v.room;
    chain = (
      refl,
      (λ z. omega (arith, z, el.place, v.begins)),
      rw (set_chunk-next memory e p.free_list) (
          Chain-same memory (set_chunk memory e p.free_list) xs p.free_list
            (links xs v.elements new) v.chain),
    );
    few = omega (arith, few);
    free_count = ap (λ (t : ℕ). u32 (t + 1)) v.free_count ∙ counted;
    elements = (moved e el, All-map xs moved v.elements);
    distinct = (new, v.distinct);
  }
    where
      counted : u32 (length xs + 1) ≡ suc (length xs)
      counted =
          let q : length xs + 1 ≡ suc (length xs) = omega arith in
          ap u32 q ∙ mod-eq_of_lt (omega (arith, few))

      moved : (y : ℕ) → IsElement p y → IsElement (put_back memory p e).0 y
      moved y t = record { index = t.index; place = t.place; inside = t.inside }

  held : holds e p ≡ true
  unfolding holds
  held = ground (arith, el.place, el.inside, v.room)

  -- The memory of a pool elsewhere stays.
  put_back-Same : (q : Pool) → Apart q p → Same q memory (put_back memory p e).1
  unfolding put_back
  put_back-Same q apart a low high =
      set_chunk_else memory e p.free_list a
        (λ z. omega (arith, apart, low, high, z, el.place, el.inside, v.room))
        (λ z. omega (arith, apart, low, high, z, el.place, el.inside, v.room))

Freed : (ℕ → ℕ) → Bool × List Pool × (ℕ → ℕ) → List Pool → List (List ℕ) → Type 0
Freed memory (ok, ps', memory') ps frees' =
    (ok ≡ true)
    × ArePools memory' ps' frees'
    × ((q : Pool) → All (Apart q) ps → Same q memory memory' × All (Apart q) ps')

-- An element of a later pool is not held by this one.
outside :
    (memory : ℕ → ℕ) {e : ℕ} {ps : List Pool} {frees frees' : List (List ℕ)} (p : Pool)
    → Returns e ps frees frees'
    → ArePools memory ps frees
    → All (Apart p) ps
    → holds e p ≡ false
unfolding holds
outside memory {e} p (returned {p = q} el new few) (v, a, rest) apart =
    ground (arith, el.place, el.inside, v.room, apart.0)
outside memory p (behind r) (v, a, rest) apart = outside memory p r rest apart.1

all-Same :
    {memory memory' : ℕ → ℕ} (p : Pool) (ps : List Pool)
    → ((q : Pool) → Apart q p → Same q memory memory')
    → All (Apart p) ps
    → All (λ q. Same q memory memory') ps
all-Same p [] f apart = tt
all-Same p (q ∷ ps) f apart = (f q (flip apart.0), all-Same p ps f apart.1)
  where
    flip : Apart p q → Apart q p
    flip (inl a) = inr a
    flip (inr a) = inl a

module _ (memory : ℕ → ℕ) (e : ℕ) where
  loop_returned :
      (p : Pool) (ps : List Pool)
      → holds e p ≡ true
      → is_ref_counted p e ≡ false
      → free_loop memory (p ∷ ps) e ≡ (true, (put_back memory p e).0 ∷ ps, (put_back memory p e).1)
  unfolding free_loop free_in
  loop_returned p ps h c = rw (free_loop, h, free_in, c) refl

  loop_behind :
      (p : Pool) (ps : List Pool)
      → holds e p ≡ false
      → free_loop memory (p ∷ ps) e
        ≡ ((free_loop memory ps e).0, p ∷ (free_loop memory ps e).1, (free_loop memory ps e).2)
  unfolding free_loop
  loop_behind p ps h = rw (free_loop, h) refl

  loop-Freed :
      {ps : List Pool} {frees frees' : List (List ℕ)}
      → Returns e ps frees frees'
      → ArePools memory ps frees
      → Freed memory (free_loop memory ps e) ps frees'
  unfolding Freed put_back
  loop-Freed (returned {p} {ps} {xs} {frees} el new few) (v, apart, rest) =
      subst (λ t. Freed memory t (p ∷ ps) ((e ∷ xs) ∷ frees))
        (sym (loop_returned p ps (held memory p xs e v el new few) (not_counted p e v.room el)))
        (
          refl,
          (
            put_back-IsPool memory p xs e v el new few,
            apart,
            ArePools-Same memory (put_back memory p e).1 ps frees
                (all-Same p ps (put_back-Same memory p xs e v el new few) apart) rest,
          ),
          λ q a. (put_back-Same memory p xs e v el new few q a.0, (a.0, a.1)),
        )
  loop-Freed (behind {p} {ps} {xs} {frees} {frees'} r) (v, apart, rest) =
      let (ok, pools, f) = loop-Freed r rest in
      subst (λ t. Freed memory t (p ∷ ps) (xs ∷ frees'))
        (sym (loop_behind p ps (outside memory p r rest apart)))
        (
          ok,
          (IsPool-Same (f p apart).0 v, (f p apart).1, pools),
          λ q a. ((f q a.1).0, (a.0, (f q a.1).1)),
        )

-- In a set of pools that is well formed, an element that is not free and has no count of references is put
-- back by `mp_free`, which returns true. It is then the first free element of its pool, all other free
-- elements are as they were, and the set is well formed.
pub free-Returns :
    (pool_set : PoolSet) (frees frees' : List (List ℕ)) (element : ℕ)
    → ArePools pool_set.memory pool_set.pools frees
    → Returns element pool_set.pools frees frees'
    → ((free pool_set element).0 ≡ true)
      × ArePools (free pool_set element).1.memory (free pool_set element).1.pools frees'
unfolding free Freed
free-Returns pool_set frees frees' element v r =
    let (ok, pools, f) = loop-Freed pool_set.memory element r v in
    let z : (element == 0) ≡ false = ne→== element 0 (nonzero r v) in rw z (ok, pools)
  where
    nonzero :
        {ps : List Pool} {fs fs' : List (List ℕ)}
        → Returns element ps fs fs'
        → ArePools pool_set.memory ps fs
        → element ≢ 0
    nonzero (returned el new few) (v, a, rest) z = omega (arith, el.place, v.begins, z)
    nonzero (behind r) (v, a, rest) z = nonzero r rest z
