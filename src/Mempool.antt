-- ===== src/Mempool.antt =====
-- src/util/mempool.c and include/util/mempool.h: pools of elements of one size, in sets. An address is a
-- number and NULL is 0. Words and pointers have 32 bits, and `memory` is the word at an address. The
-- pools of a set are a list, in the order of their links; the free elements of a pool are linked in the
-- memory. The samples for the statistics, `req_size` and `hist`, are left out. A call holds the lock.
pub mod Pools
pub mod Inv
pub mod Refs
pub mod Order
pub mod Init
pub mod Alloc
pub mod Free
mod Examples
use cstone.Prelude.{
  ℕ, zero, suc, ◌+◌, ◌-◌, ◌*◌, ◌/◌, ◌%◌, ◌^◌, min, Bool, true, false, not, Option, none, some, List,
  [], ◌∷◌, ◌&&◌, ◌||◌, ltb, leb, ◌==◌, if◌then◌else◌, bit_and, bit_xor, u32,
}

-- `mpPool`. The flags are `MP_FLAG_STATIC` and `MP_FLAG_DISABLED`.
pub record Pool : Type 0 where
  pub pool_begin : ℕ
  pub pool_end : ℕ
  pub free_list : ℕ
  pub element_size : ℕ
  pub free_elems : ℕ
  pub min_free_elems : ℕ
  pub static : Bool
  pub disabled : Bool

-- `mpPoolSet`, with the memory that its pools lie in.
pub record PoolSet : Type 0 where
  pub pools : List Pool
  pub memory : ℕ → ℕ

-- `sizeof(mpRefCount)` and `sizeof(mpPoolChunk)`
abbrev pub ref_count_size : ℕ
ref_count_size = 4

abbrev pub chunk_size : ℕ
chunk_size = 8

-- A word written to the memory.
unfoldable pub write : (ℕ → ℕ) → ℕ → ℕ → ℕ → ℕ
write memory at value a = if a == at then value else memory a

-- `chunk->next`, and `chunk->sentinel` behind it.
unfoldable pub set_chunk : (ℕ → ℕ) → ℕ → ℕ → ℕ → ℕ
set_chunk memory chunk next = write (write memory chunk next) (chunk + 4) (bit_xor next 0xa5a5a5a5)

-- `ALIGN_PTR`
unfoldable pub align_ptr : ℕ → ℕ → ℕ
align_ptr p alignment = bit_and (u32 (p + alignment - 1)) (2 ^ 32 - alignment)

-- `mp__take_pool_element`
unfoldable pub take_pool_element : (ℕ → ℕ) → Pool → Pool
take_pool_element memory pool =
    let free_elems = u32 (pool.free_elems + (2 ^ 32 - 1)) in
    record pool {
      free_list = memory pool.free_list;
      free_elems = free_elems;
      min_free_elems =
          if ltb free_elems pool.min_free_elems then free_elems else pool.min_free_elems;
    }

-- What an allocation returns: the element or NULL, `*alloc_size`, and the set.
pub record Allocated : Type 0 where
  pub element : ℕ
  pub alloc_size : ℕ
  pub pool_set : PoolSet

-- The test of the loop of `mp_alloc`.
unfoldable pub serves : ℕ → Pool → Bool
serves size pool = not (pool.free_list == 0) && leb size pool.element_size && not pool.disabled

-- The loop over the pools: the element and its size, and the pools after it is taken.
unfoldable pub alloc_loop : (ℕ → ℕ) → (Pool → Bool) → List Pool → ℕ × ℕ × List Pool
alloc_loop memory test [] = (0, 0, [])
alloc_loop memory test (cur ∷ pools) =
    if test cur
    then (cur.free_list, cur.element_size, take_pool_element memory cur ∷ pools)
    else (let (element, size, pools') = alloc_loop memory test pools in
        (element, size, cur ∷ pools'))

-- `mp_alloc`
unfoldable pub alloc : PoolSet → ℕ → Allocated
alloc pool_set size =
    let (element, alloc_size, pools) = alloc_loop pool_set.memory (serves size) pool_set.pools in
    record {
      element = element;
      alloc_size = alloc_size;
      pool_set = record pool_set { pools = pools };
    }

-- `mp_alloc_aligned`
unfoldable pub alloc_aligned : PoolSet → ℕ → ℕ → Allocated
alloc_aligned pool_set size alignment =
    let test =
      λ (pool : Pool). serves size pool && (pool.free_list == align_ptr pool.free_list alignment) in
    let (element, alloc_size, pools) = alloc_loop pool_set.memory test pool_set.pools in
    record {
      element = element;
      alloc_size = alloc_size;
      pool_set = record pool_set { pools = pools };
    }

-- `mp_alloc_with_ref`. The step behind the count is counted in chunks, `alloc += sizeof(mpRefCount)`.
unfoldable pub alloc_with_ref : PoolSet → ℕ → Allocated
alloc_with_ref pool_set size =
    let (element, real_alloc_size, pools) =
      alloc_loop pool_set.memory (serves (u32 (size + ref_count_size))) pool_set.pools in
    if element == 0
    then record { element = 0; alloc_size = 0; pool_set = record pool_set { pools = pools } }
    else record {
      element = element + ref_count_size * chunk_size;
      alloc_size = real_alloc_size - ref_count_size;
      pool_set = record { pools = pools; memory = write pool_set.memory element 1 };
    }

-- The loop of `mp_alloc_best_effort`: the index of the pool to take from.
unfoldable pub best_loop : ℕ → List Pool → ℕ → Option ℕ → Option ℕ
best_loop size [] i alloc_pool = alloc_pool
best_loop size (cur ∷ pools) i alloc_pool =
    let later = best_loop size pools (i + 1) (some i) in
    let skipped = best_loop size pools (i + 1) alloc_pool in
    if not (cur.free_list == 0) && not cur.disabled
    then (if leb size cur.element_size then some i else later)
    else skipped

-- `element >= cur->pool_begin && element < cur->pool_end`
unfoldable pub holds : ℕ → Pool → Bool
holds element pool = leb pool.pool_begin element && ltb element pool.pool_end

-- `mp__is_ref_counted`
unfoldable pub is_ref_counted : Pool → ℕ → Bool
is_ref_counted pool element = (element - pool.pool_begin) % pool.element_size == ref_count_size

-- `mp__find_pool`
unfoldable pub find_pool : List Pool → ℕ → Option Pool
find_pool [] element = none
find_pool (cur ∷ pools) element = if holds element cur then some cur else find_pool pools element

-- The element returned to the free list of its pool: the pool and the memory.
unfoldable pub put_back : (ℕ → ℕ) → Pool → ℕ → Pool × (ℕ → ℕ)
put_back memory pool element = (
  record pool { free_list = element; free_elems = u32 (pool.free_elems + 1) },
  set_chunk memory element pool.free_list,
)

-- What `mp_free` does to the pool of the element. A count of references that stays above 0 keeps it.
unfoldable pub free_in : (ℕ → ℕ) → Pool → ℕ → Pool × (ℕ → ℕ)
free_in memory pool element =
    if is_ref_counted pool element
    then (let ref_count = element - ref_count_size in
        let memory' = write memory ref_count (u32 (memory ref_count + (2 ^ 32 - 1))) in
        if ltb 1 (memory ref_count) then (pool, memory') else put_back memory' pool ref_count)
    else put_back memory pool element

-- `mp_free`, on the pools: the result, the pools and the memory.
unfoldable pub free_loop : (ℕ → ℕ) → List Pool → ℕ → Bool × List Pool × (ℕ → ℕ)
free_loop memory [] element = (false, [], memory)
free_loop memory (cur ∷ pools) element =
    if holds element cur
    then (let (cur', memory') = free_in memory cur element in (true, cur' ∷ pools, memory'))
    else (let (ok, pools', memory') = free_loop memory pools element in (ok, cur ∷ pools', memory'))

-- `mp_free`
unfoldable pub free : PoolSet → ℕ → Bool × PoolSet
free pool_set element =
    if element == 0
    then (false, pool_set)
    else (let (ok, pools, memory) = free_loop pool_set.memory pool_set.pools element in
        (ok, record { pools = pools; memory = memory }))
