-- ===== src/Mempool/Examples.antt =====
-- Tests and witnesses for src/util/mempool.c.
use cstone.Prelude.{
  ℕ, ◌+◌, ◌%◌, ◌≤◌, ◌≡◌, ◌≢◌, refl, ◌⊎◌, inl, true, false, some, List, [], ◌∷◌, All, arith, ◌==◌,
  if◌then◌else◌, u32,
}
use cstone.Mempool.{
  Pool, PoolSet, align_ptr, serves, alloc_loop, alloc, alloc_with_ref, is_ref_counted,
  ref_count_size, free,
}
use cstone.Mempool.Pools.{init_pool, add_pool}
use cstone.Mempool.Inv.{IsPool, IsElement, ArePools}
use cstone.Mempool.Alloc.{First, Takes, IsTaken, Replaced, alloc-Takes}
use cstone.Mempool.Free.{returned, free-Returns}
use cstone.Mempool.Refs.{alloc_with_ref_misplaced}
use cstone.Mempool.Order.{Ordered, add_pool-Ordered, alloc-smallest}
use cstone.Mempool.Init.{element_list, init_pool-IsPool}

-- Two elements of 16 bytes at 100, of which the first is in use, and two of 32 bytes at 200.
abbrev small : Pool
small = record {
  pool_begin = 100;
  pool_end = 132;
  free_list = 116;
  element_size = 16;
  free_elems = 1;
  min_free_elems = 1;
  static = false;
  disabled = false;
}

abbrev large : Pool
large = record {
  pool_begin = 200;
  pool_end = 264;
  free_list = 200;
  element_size = 32;
  free_elems = 2;
  min_free_elems = 2;
  static = false;
  disabled = false;
}

abbrev links : ℕ → ℕ
links a = if a == 200 then 232 else 0

abbrev two_pools : PoolSet
two_pools = record { pools = small ∷ large ∷ []; memory = links }

abbrev frees : List (List ℕ)
frees = (116 ∷ []) ∷ (200 ∷ 232 ∷ []) ∷ []

small-IsPool : IsPool links small (116 ∷ [])
small-IsPool = record {
  begins = omega arith;
  ends = omega arith;
  room = omega arith;
  chain = (refl, (λ z. omega (arith, z)), refl);
  few = omega arith;
  free_count = refl;
  elements = (record { index = 1; place = refl; inside = omega arith }, tt);
  distinct = (tt, tt);
}

large-IsPool : IsPool links large (200 ∷ 232 ∷ [])
large-IsPool = record {
  begins = omega arith;
  ends = omega arith;
  room = omega arith;
  chain = (refl, (λ z. omega (arith, z)), (refl, (λ z. omega (arith, z)), refl));
  few = omega arith;
  free_count = refl;
  elements = (
    record { index = 0; place = refl; inside = omega arith },
    (record { index = 1; place = refl; inside = omega arith }, tt),
  );
  distinct = (((λ e. omega (arith, e)), tt), (tt, tt));
}

two_pools-ArePools : ArePools links (small ∷ large ∷ []) frees
two_pools-ArePools = (small-IsPool, (inl (omega arith), tt), (large-IsPool, tt, tt))

-- 20 bytes come from the second pool.
alloc_20 : (alloc two_pools 20).element ≡ 200
unfolding alloc alloc_loop serves
alloc_20 = refl

alloc-Takes_example :
    (((alloc two_pools 20).element ≡ 0)
      × ((alloc two_pools 20).pool_set ≡ two_pools)
      × All (λ p. serves 20 p ≡ false) two_pools.pools)
    ⊎ ((p : Pool) × First (serves 20) two_pools.pools p
        × ((alloc two_pools 20).alloc_size ≡ p.element_size)
        × (20 ≤ (alloc two_pools 20).alloc_size)
        × ((alloc two_pools 20).element ≢ 0)
        × IsElement p (alloc two_pools 20).element
        × ((alloc two_pools 20).element ≡ p.free_list)
        × ((alloc two_pools 20).pool_set.memory ≡ two_pools.memory)
        × ((p' : Pool) × IsTaken two_pools.memory p p'
            × Replaced (serves 20) p p' two_pools.pools (alloc two_pools 20).pool_set.pools)
        × ((frees' : List (List ℕ)) × Takes (alloc two_pools 20).element frees frees'
            × ArePools
                (alloc two_pools 20).pool_set.memory
                (alloc two_pools 20).pool_set.pools
                frees'))
alloc-Takes_example = alloc-Takes two_pools frees 20 two_pools-ArePools

alloc-smallest_example :
    (20 ≤ (alloc two_pools 20).alloc_size)
    × All
        (λ q. serves 20 q ≡ true → (alloc two_pools 20).alloc_size ≤ q.element_size)
        two_pools.pools
unfolding alloc alloc_loop serves
alloc-smallest_example =
    alloc-smallest two_pools frees 20 two_pools-ArePools ((omega arith, tt), (tt, tt))
      (λ z. omega (arith, z))

-- The element in use goes back to the first pool.
free-Returns_example :
    ((free two_pools 100).0 ≡ true)
    × ArePools
        (free two_pools 100).1.memory
        (free two_pools 100).1.pools
        ((100 ∷ 116 ∷ []) ∷ (200 ∷ 232 ∷ []) ∷ [])
free-Returns_example =
    free-Returns two_pools frees ((100 ∷ 116 ∷ []) ∷ (200 ∷ 232 ∷ []) ∷ []) 100 two_pools-ArePools (
      returned (record { index = 0; place = refl; inside = omega arith })
        ((λ e. omega (arith, e)), tt) (omega arith))

alloc_with_ref_misplaced_example :
    ((alloc_with_ref two_pools 12).element ≡ 0)
    ⊎ ((p : Pool) × First (serves (u32 (12 + ref_count_size))) two_pools.pools p
        × IsElement p p.free_list
        × ((alloc_with_ref two_pools 12).element ≡ p.free_list + 32)
        × (is_ref_counted p (alloc_with_ref two_pools 12).element
            ≡ (32 % p.element_size == ref_count_size)))
alloc_with_ref_misplaced_example = alloc_with_ref_misplaced two_pools frees 12 two_pools-ArePools

-- The element is at 116, and the pointer lies behind its pool.
with_ref_12 : (alloc_with_ref two_pools 12).element ≡ 148
unfolding alloc_with_ref alloc_loop serves
with_ref_12 = refl

add_pool-Ordered_example : Ordered (add_pool two_pools small).pools
add_pool-Ordered_example = add_pool-Ordered two_pools small ((omega arith, tt), (tt, tt))

init_pool-IsPool_example :
    (pool : Pool) × (memory' : ℕ → ℕ) × (init_pool 5 links 1001 5 16 8 ≡ some (pool, memory'))
    × IsPool memory' pool (element_list 5 (align_ptr 1001 8) 16)
unfolding align_ptr
init_pool-IsPool_example =
    init_pool-IsPool links 1001 5 16 8 5 (omega arith) (omega arith) (omega arith) (omega arith)
      (omega arith)
