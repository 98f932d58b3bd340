-- ===== src/Mempool/Alloc.antt =====
-- src/util/mempool.c: `mp_alloc` takes the first free element of the first pool that serves.
use cstone.Prelude.{
  ℕ, suc, ◌+◌, ◌-◌, ◌%◌, ◌^◌, ◌≤◌, ◌<◌, ◌≡◌, ◌≢◌, refl, sym, ap, ◌∙◌, ◌⊎◌, inl, inr, List, [], ◌∷◌,
  All, arith, length, Bool, true, false, Bool-cases, u32,
}
use native.Mathlib.Nat.{mod-eq_of_lt, add-mod_right}
use mathlib.Core.Path.{subst}
use cstone.Mempool.{Pool, PoolSet, take_pool_element, serves, alloc_loop, alloc}
use cstone.Mempool.Inv.{IsPool, IsElement, ArePools, Apart, All-map}

-- The first pool of a list that passes a test.
pub data First (test : Pool → Bool) : List Pool → Pool → Type 0 where
  here : {p : Pool} {ps : List Pool} → test p ≡ true → First test (p ∷ ps) p
  later : {p q : Pool} {ps : List Pool} → test q ≡ false → First test ps p → First test (q ∷ ps) p

-- The first free element of a pool is taken from the free elements.
pub data Takes (e : ℕ) : List (List ℕ) → List (List ℕ) → Type 0 where
  taken : {xs : List ℕ} {frees : List (List ℕ)} → Takes e ((e ∷ xs) ∷ frees) (xs ∷ frees)
  behind :
      {xs : List ℕ} {frees frees' : List (List ℕ)}
      → Takes e frees frees'
      → Takes e (xs ∷ frees) (xs ∷ frees')

-- The pool after an element was taken: its place and settings are as before, and the next link follows.
pub record IsTaken (memory : ℕ → ℕ) (before after : Pool) : Type 0 where
  pub pool_begin : after.pool_begin ≡ before.pool_begin
  pub pool_end : after.pool_end ≡ before.pool_end
  pub element_size : after.element_size ≡ before.element_size
  pub static : after.static ≡ before.static
  pub disabled : after.disabled ≡ before.disabled
  pub free_list : after.free_list ≡ memory before.free_list

-- One pool of a list gives way to another one, behind pools that fail the test.
pub data Replaced (test : Pool → Bool) (p p' : Pool) : List Pool → List Pool → Type 0 where
  in_place : {ps : List Pool} → test p ≡ true → Replaced test p p' (p ∷ ps) (p' ∷ ps)
  further :
      {q : Pool} {ps ps' : List Pool}
      → test q ≡ false
      → Replaced test p p' ps ps'
      → Replaced test p p' (q ∷ ps) (q ∷ ps')

less_one : (n : ℕ) → suc n < 2 ^ 32 → u32 (suc n + (2 ^ 32 - 1)) ≡ n
less_one n l =
    (let e : (suc n + (2 ^ 32 - 1)) % 2 ^ 32 ≡ (n + 2 ^ 32) % 2 ^ 32 =
        ap (λ (t : ℕ). t % 2 ^ 32) (omega arith) in
      e)
    ∙ add-mod_right n (2 ^ 32)
    ∙ mod-eq_of_lt (omega (arith, l))

pub take-IsPool :
    (memory : ℕ → ℕ) (p : Pool) (x : ℕ) (xs : List ℕ)
    → IsPool memory p (x ∷ xs)
    → IsPool memory (take_pool_element memory p) xs
unfolding take_pool_element
take-IsPool memory p x xs v = record {
  begins = v.begins;
  ends = v.ends;
  room = v.room;
  chain = v.chain.2;
  few = omega (arith, v.few);
  free_count = ap (λ (t : ℕ). u32 (t + (2 ^ 32 - 1))) v.free_count ∙ less_one (length xs) v.few;
  elements =
      All-map xs (λ y e. record { index = e.index; place = e.place; inside = e.inside })
        v.elements.1;
  distinct = v.distinct.1;
}

-- The outcome of the loop, with the free elements before and after it.
abbrev pub AllocOutcome :
    (ℕ → ℕ) → (Pool → Bool) → List Pool → List (List ℕ) → ℕ × ℕ × List Pool → Type 0
AllocOutcome memory test ps frees (e, size, ps') =
    ((e ≡ 0) × (ps' ≡ ps) × All (λ p. test p ≡ false) ps)
    ⊎ ((p : Pool) × First test ps p
        × (size ≡ p.element_size)
        × (e ≢ 0)
        × IsElement p e
        × ((frees' : List (List ℕ)) × Takes e frees frees' × ArePools memory ps' frees'))

module _ (memory : ℕ → ℕ) (test : Pool → Bool)
    (some_free : (p : Pool) → test p ≡ true → p.free_list ≢ 0) where
  Apart-loop :
      (p : Pool) (ps : List Pool) → All (Apart p) ps → All (Apart p) (alloc_loop memory test ps).2
  unfolding alloc_loop take_pool_element
  Apart-loop p [] a = tt
  Apart-loop p (q ∷ ps) a = elim (Bool-cases (test q)) [
    | inl yes_ ↦ rw yes_ (a.0, a.1)
    | inr no_ ↦ rw no_ (a.0, Apart-loop p ps a.1)
  ]

  loop_served :
      (p : Pool) (ps : List Pool)
      → test p ≡ true
      → alloc_loop memory test (p ∷ ps)
        ≡ (p.free_list, p.element_size, take_pool_element memory p ∷ ps)
  unfolding alloc_loop
  loop_served p ps e = rw (e, alloc_loop) refl

  served :
      (p : Pool) (ps : List Pool) (xs : List ℕ) (frees : List (List ℕ))
      → test p ≡ true
      → IsPool memory p xs
      → All (Apart p) ps
      → ArePools memory ps frees
      → AllocOutcome memory test
          (p ∷ ps)
          (xs ∷ frees)
          (p.free_list, p.element_size, take_pool_element memory p ∷ ps)
  unfolding take_pool_element
  served p ps [] frees yes_ v apart rest = absurd (some_free p yes_ v.chain)
  served p ps (x ∷ xs) frees yes_ v apart rest =
      let (same, ne, more) = v.chain in
      inr (
        p,
        here yes_,
        refl,
        ne,
        subst (IsElement p) (sym same) v.elements.0,
        (
          xs ∷ frees,
          subst (λ (t : ℕ). Takes t ((x ∷ xs) ∷ frees) (xs ∷ frees)) (sym same) taken,
          (take-IsPool memory p x xs v, apart, rest),
        ),
      )

  pub loop-AllocOutcome :
      (ps : List Pool) (frees : List (List ℕ))
      → ArePools memory ps frees
      → AllocOutcome memory test ps frees (alloc_loop memory test ps)
  unfolding alloc_loop
  loop-AllocOutcome [] frees v = inl (refl, refl, tt)
  loop-AllocOutcome (p ∷ ps) [] v = absurd v
  loop-AllocOutcome (p ∷ ps) (xs ∷ frees) (v, apart, rest) = elim (Bool-cases (test p)) [
    | inl yes_ ↦
        subst (AllocOutcome memory test (p ∷ ps) (xs ∷ frees)) (sym (loop_served p ps yes_))
          (served p ps xs frees yes_ v apart rest)
    | inr no_ ↦ rw no_ (elim (loop-AllocOutcome ps frees rest) [
      | inl (z, same, none_) ↦ inl (z, ap (λ t. p ∷ t) same, (refl, none_))
      | inr (q, first, size, ne, element, (frees', takes, after)) ↦ inr (
        q,
        later no_ first,
        size,
        ne,
        element,
        (xs ∷ frees', behind takes, (v, Apart-loop p ps apart, after)),
      )
    ])
  ]

take-IsTaken : (memory : ℕ → ℕ) (p : Pool) → IsTaken memory p (take_pool_element memory p)
unfolding take_pool_element
take-IsTaken memory p = record {
  pool_begin = refl;
  pool_end = refl;
  element_size = refl;
  static = refl;
  disabled = refl;
  free_list = refl;
}

First-Replaced :
    (memory : ℕ → ℕ) {test : Pool → Bool} {p : Pool} {ps : List Pool}
    → First test ps p
    → Replaced test p (take_pool_element memory p) ps (alloc_loop memory test ps).2
unfolding alloc_loop
First-Replaced memory (here yes_) = rw yes_ (in_place yes_)
First-Replaced memory (later no_ more) = rw no_ (further no_ (First-Replaced memory more))

pub First-free_list :
    (memory : ℕ → ℕ) {test : Pool → Bool} {p : Pool} {ps : List Pool}
    → First test ps p
    → (alloc_loop memory test ps).0 ≡ p.free_list
unfolding alloc_loop
First-free_list memory (here yes_) = rw yes_ refl
First-free_list memory (later no_ more) = rw no_ (First-free_list memory more)

pub serves-some : (size : ℕ) (p : Pool) → serves size p ≡ true → p.free_list ≢ 0
unfolding serves
serves-some size p e z = ground arith

First-large :
    (size : ℕ) {p : Pool} {ps : List Pool} → First (serves size) ps p → size ≤ p.element_size
unfolding serves
First-large size (here {p} yes_) = ground arith
First-large size (later no_ first) = First-large size first

-- A set of pools that is well formed serves an allocation from the first pool that is enabled, has a free
-- element and has elements of the size or larger. The element is the first free one of that pool, which is
-- free no more. In the place of that pool stands one with the same bounds, size and settings; the other
-- pools and the memory are as they were, and the set is well formed. With no such pool `mp_alloc` returns
-- NULL and changes nothing.
pub alloc-Takes :
    (pool_set : PoolSet) (frees : List (List ℕ)) (size : ℕ)
    → ArePools pool_set.memory pool_set.pools frees
    → (((alloc pool_set size).element ≡ 0)
        × ((alloc pool_set size).pool_set ≡ pool_set)
        × All (λ p. serves size p ≡ false) pool_set.pools)
      ⊎ ((p : Pool) × First (serves size) pool_set.pools p
          × ((alloc pool_set size).alloc_size ≡ p.element_size)
          × (size ≤ (alloc pool_set size).alloc_size)
          × ((alloc pool_set size).element ≢ 0)
          × IsElement p (alloc pool_set size).element
          × ((alloc pool_set size).element ≡ p.free_list)
          × ((alloc pool_set size).pool_set.memory ≡ pool_set.memory)
          × ((p' : Pool) × IsTaken pool_set.memory p p'
              × Replaced (serves size) p p' pool_set.pools (alloc pool_set size).pool_set.pools)
          × ((frees' : List (List ℕ)) × Takes (alloc pool_set size).element frees frees'
              × ArePools
                  (alloc pool_set size).pool_set.memory
                  (alloc pool_set size).pool_set.pools
                  frees'))
unfolding alloc
alloc-Takes pool_set frees size v =
    elim (loop-AllocOutcome pool_set.memory (serves size) (serves-some size) pool_set.pools frees
      v) [
        | inl (z, same, none_) ↦ inl (z, ap (λ t. record pool_set { pools = t }) same, none_)
        | inr (p, served_by, e, ne, element, more) ↦ inr (
          p,
          served_by,
          e,
          omega (arith, e, First-large size served_by),
          ne,
          element,
          First-free_list pool_set.memory served_by,
          refl,
          (
            take_pool_element pool_set.memory p,
            take-IsTaken pool_set.memory p,
            First-Replaced pool_set.memory served_by,
          ),
          more,
        )
      ]
