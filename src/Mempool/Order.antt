-- ===== src/Mempool/Order.antt =====
-- src/util/mempool.c: `mp_add_pool` keeps the pools of a set in order of their element size, and an
-- allocation then takes from the smallest pool that serves.
use cstone.Prelude.{
  ℕ, ◌≤◌, ◌≡◌, ◌≢◌, inl, inr, List, [], ◌∷◌, All, arith, Bool, true, ltb, Bool-cases,
}
use cstone.Mempool.{Pool, PoolSet, serves, alloc}
use cstone.Mempool.Pools.{add_loop, add_pool}
use cstone.Mempool.Inv.{ArePools, All-map}
use cstone.Mempool.Alloc.{First, here, later, alloc-Takes}

abbrev pub Ordered : List Pool → Type 0
Ordered [] = Unit
Ordered (p ∷ ps) = All (λ q. p.element_size ≤ q.element_size) ps × Ordered ps

All-add :
    (P : Pool → Type 0) (ps : List Pool) (new_pool : Pool)
    → All P ps
    → P new_pool
    → All P (add_loop ps new_pool)
unfolding add_loop
All-add P [] new_pool h n = (n, tt)
All-add P (p ∷ ps) new_pool h n = elim (Bool-cases (ltb new_pool.element_size p.element_size)) [
  | inl smaller ↦ rw smaller (n, h)
  | inr larger ↦ rw larger (h.0, All-add P ps new_pool h.1 n)
]

add_loop-Ordered : (ps : List Pool) (new_pool : Pool) → Ordered ps → Ordered (add_loop ps new_pool)
unfolding add_loop
add_loop-Ordered [] new_pool h = (tt, tt)
add_loop-Ordered (p ∷ ps) new_pool (first, rest) =
    elim (Bool-cases (ltb new_pool.element_size p.element_size)) [
      | inl smaller ↦
          let less : new_pool.element_size ≤ p.element_size = ground arith in
          rw smaller ((less, All-map ps (λ q l. omega (arith, l, less)) first), (first, rest))
      | inr larger ↦
          let more : p.element_size ≤ new_pool.element_size = ground arith in
          rw larger (
            All-add (λ q. p.element_size ≤ q.element_size) ps new_pool first more,
            add_loop-Ordered ps new_pool rest,
          )
    ]

-- `mp_add_pool` keeps the pools in order, from the smallest element size to the largest.
pub add_pool-Ordered :
    (pool_set : PoolSet) (new_pool : Pool)
    → Ordered pool_set.pools
    → Ordered (add_pool pool_set new_pool).pools
unfolding add_pool
add_pool-Ordered pool_set new_pool h = add_loop-Ordered pool_set.pools new_pool h

First-smallest :
    (test : Pool → Bool) {ps : List Pool} {p : Pool}
    → First test ps p
    → Ordered ps
    → All (λ q. test q ≡ true → p.element_size ≤ q.element_size) ps
First-smallest test (here {p} {ps} yes_) (first, rest) =
    ((λ t. omega arith), All-map ps (λ q l t. l) first)
First-smallest test (later {p} {q} {ps} no_ found) (first, rest) =
    ((λ t. absurd (cc (t, no_))), First-smallest test found rest)

-- In a well-formed set that is in order, an allocation that does not return NULL takes an element of the
-- smallest size that serves: no enabled pool with a free element of the size or larger has a smaller one.
pub alloc-smallest :
    (pool_set : PoolSet) (frees : List (List ℕ)) (size : ℕ)
    → ArePools pool_set.memory pool_set.pools frees
    → Ordered pool_set.pools
    → (alloc pool_set size).element ≢ 0
    → (size ≤ (alloc pool_set size).alloc_size)
      × All
          (λ q. serves size q ≡ true → (alloc pool_set size).alloc_size ≤ q.element_size)
          pool_set.pools
alloc-smallest pool_set frees size v order some_ = elim (alloc-Takes pool_set frees size v) [
  | inl (z, same, none_) ↦ absurd (some_ z)
  | inr (p, first, e, large, ne, element, head, same_memory, replaced, more) ↦ (
    large,
    All-map pool_set.pools (λ q f t. omega (arith, f t, e))
        (First-smallest (serves size) first order),
  )
]
