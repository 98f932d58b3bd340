-- ===== src/Mempool/Pools.antt =====
-- src/util/mempool.c: creation of pools, pools in a set, and the other calls on elements.
use cstone.Prelude.{
  ℕ, zero, suc, ◌+◌, ◌-◌, ◌*◌, ◌/◌, ◌^◌, Bool, true, false, not, Option, none, some, List, [], ◌∷◌,
  ◌&&◌, ◌||◌, ltb, leb, ◌==◌, if◌then◌else◌, u32, bit_and,
}
use cstone.Mempool.{
  Pool, PoolSet, Allocated, ref_count_size, write, set_chunk, align_ptr, take_pool_element, alloc,
  best_loop, find_pool, is_ref_counted, free, put_back, holds, chunk_size,
}

-- The loop of `mp__init_pool` that links the free elements, on fuel.
unfoldable pub link_loop : ℕ → (ℕ → ℕ) → ℕ → ℕ → ℕ → Option (ℕ → ℕ)
link_loop zero memory cur element_size pool_end = none
link_loop (suc fuel) memory cur element_size pool_end =
    let next = u32 (cur + element_size) in
    let memory' = set_chunk memory cur next in
    if leb pool_end next
    then some (set_chunk memory' cur 0)
    else link_loop fuel memory' next element_size pool_end

-- `mp__init_pool`, for a structure whose `elements` start at an address.
unfoldable pub init_pool : ℕ → (ℕ → ℕ) → ℕ → ℕ → ℕ → ℕ → Option (Pool × (ℕ → ℕ))
init_pool fuel memory start elements element_size alignment =
    let pool_begin = align_ptr start alignment in
    let pool_end = u32 (pool_begin + u32 (elements * element_size)) in
    elim (link_loop fuel memory pool_begin element_size pool_end) [
      | none ↦ none
      | some memory' ↦ some (
        record {
          pool_begin = pool_begin;
          pool_end = pool_end;
          free_list = pool_begin;
          element_size = element_size;
          free_elems = elements;
          min_free_elems = elements;
          static = false;
          disabled = false;
        },
        memory',
      )
    ]

-- `is_power_of_2`, which takes 0 for one.
unfoldable pub is_power_of_2 : ℕ → Bool
is_power_of_2 n = bit_and n (u32 (n + (2 ^ 32 - 1))) == 0

-- What the creation of a pool leads to: a failed `assert`, NULL, the pool with the memory, or a loop that
-- ran out of fuel.
pub data Created : Type 0 where
  asserted : Created
  null : Created
  created : Pool → (ℕ → ℕ) → Created
  out_of_fuel : Created

-- The asserts of both functions.
unfoldable pub accepts : ℕ → ℕ → Bool
accepts element_size alignment =
    is_power_of_2 alignment && leb 1 alignment && leb chunk_size element_size

-- `mp_create_pool`. `address` is what `malloc` returned and `header` the size of `mpPool`.
unfoldable pub create_pool : ℕ → (ℕ → ℕ) → Option ℕ → ℕ → ℕ → ℕ → ℕ → Created
create_pool fuel memory address header elements element_size alignment =
    let size = align_ptr element_size alignment in
    if not (accepts element_size alignment) then asserted else elim address [
      | none ↦ null
      | some start ↦ elim (init_pool fuel memory (start + header) elements size alignment) [
        | none ↦ out_of_fuel
        | some (pool, memory') ↦ created pool memory'
      ]
    ]

-- `mp_create_static_pool`. `pool_align` is the alignment of `mpPool`.
unfoldable pub create_static_pool : ℕ → (ℕ → ℕ) → ℕ → ℕ → ℕ → ℕ → ℕ → ℕ → Created
create_static_pool fuel memory buf buf_len header pool_align element_size alignment =
    let buf_aligned = align_ptr buf pool_align in
    let len = u32 (buf_len + 2 ^ 32 - (buf_aligned - buf)) in
    let size = align_ptr element_size alignment in
    let elements = u32 (len + 2 ^ 32 - (header + alignment - 1)) / size in
    if not (accepts element_size alignment)
    then asserted
    else if buf == 0
    then null
    else elim (init_pool fuel memory (buf_aligned + header) elements size alignment) [
      | none ↦ out_of_fuel
      | some (pool, memory') ↦ created (record pool { static = true }) memory'
    ]

-- The loop of `mp_add_pool`.
unfoldable pub add_loop : List Pool → Pool → List Pool
add_loop [] new_pool = new_pool ∷ []
add_loop (cur ∷ pools) new_pool =
    let rest = add_loop pools new_pool in
    if ltb new_pool.element_size cur.element_size then new_pool ∷ cur ∷ pools else cur ∷ rest

-- `mp_add_pool`, for pointers that are not NULL.
unfoldable pub add_pool : PoolSet → Pool → PoolSet
add_pool pool_set new_pool = record pool_set { pools = add_loop pool_set.pools new_pool }

-- `mp_total_elements`
unfoldable pub total_elements : Pool → ℕ
total_elements pool = (pool.pool_end - pool.pool_begin) / pool.element_size

-- `mp_total_free_elements`
abbrev pub total_free_elements : Pool → ℕ
total_free_elements pool = pool.free_elems

-- `mp_pool_in_use`
unfoldable pub pool_in_use : Pool → Bool
pool_in_use pool = not (total_free_elements pool == total_elements pool)

-- `mp_pool_enable`
abbrev pub pool_enable : Pool → Bool → Pool
pool_enable pool enable = record pool { disabled = not enable }

-- The loop of `mp_release_pool_set`: the pools that stay, and if none does.
unfoldable pub release_loop : Bool → List Pool → List Pool × Bool
release_loop release_in_use [] = ([], true)
release_loop release_in_use (cur ∷ pools) =
    let (kept, release_all) = release_loop release_in_use pools in
    if release_in_use || not (pool_in_use cur) then (kept, release_all) else (cur ∷ kept, false)

-- `mp_release_pool_set`, for a set that is not NULL.
unfoldable pub release_pool_set : PoolSet → Bool → Bool × PoolSet
release_pool_set pool_set release_in_use =
    let (kept, release_all) = release_loop release_in_use pool_set.pools in
    (release_all, record pool_set { pools = kept })

-- An element taken from the pool with this index.
unfoldable pub take_at : (ℕ → ℕ) → List Pool → ℕ → ℕ × ℕ × List Pool
take_at memory [] i = (0, 0, [])
take_at memory (cur ∷ pools) zero =
    (cur.free_list, cur.element_size, take_pool_element memory cur ∷ pools)
take_at memory (cur ∷ pools) (suc i) =
    let (element, size, pools') = take_at memory pools i in (element, size, cur ∷ pools')

-- `mp_alloc_best_effort`
unfoldable pub alloc_best_effort : PoolSet → ℕ → Allocated
alloc_best_effort pool_set size = elim (best_loop size pool_set.pools 0 none) [
  | none ↦ record { element = 0; alloc_size = 0; pool_set = pool_set }
  | some i ↦
      let (element, alloc_size, pools) = take_at pool_set.memory pool_set.pools i in
      record {
        element = element;
        alloc_size = alloc_size;
        pool_set = record pool_set { pools = pools };
      }
]

-- `mp_from_pool`
unfoldable pub from_pool : PoolSet → ℕ → Bool
from_pool pool_set element =
    if element == 0
    then false
    else elim (find_pool pool_set.pools element) [ none ↦ false | some pool ↦ true ]

-- `mp_get_size`
unfoldable pub get_size : PoolSet → ℕ → ℕ
get_size pool_set element =
    if element == 0
    then 0
    else elim (find_pool pool_set.pools element) [ none ↦ 0 | some pool ↦ pool.element_size ]

-- `mp_is_ref_counted`
unfoldable pub set_is_ref_counted : PoolSet → ℕ → Bool
set_is_ref_counted pool_set element =
    if element == 0 then false else elim (find_pool pool_set.pools element) [
      | none ↦ false
      | some pool ↦ is_ref_counted pool element
    ]

-- `mp_inc_ref`
unfoldable pub inc_ref : PoolSet → ℕ → PoolSet
inc_ref pool_set element =
    let ref_count = element - ref_count_size in
    record pool_set {
      memory = write pool_set.memory ref_count (u32 (pool_set.memory ref_count + 1));
    }

-- `mp_ref_count`
abbrev pub ref_count : PoolSet → ℕ → ℕ
ref_count pool_set element = pool_set.memory (element - ref_count_size)

-- `mp_release_pool`, for the pool with this index.
unfoldable pub release_at : Bool → List Pool → ℕ → Bool × List Pool
release_at release_in_use [] i = (false, [])
release_at release_in_use (pool ∷ pools) zero =
    if release_in_use || not (pool_in_use pool) then (true, pools) else (false, pool ∷ pools)
release_at release_in_use (pool ∷ pools) (suc i) =
    let (release, kept) = release_at release_in_use pools i in (release, pool ∷ kept)

abbrev pub release_pool : PoolSet → ℕ → Bool → Bool × PoolSet
release_pool pool_set i release_in_use =
    let (release, pools) = release_at release_in_use pool_set.pools i in
    (release, record pool_set { pools = pools })

-- `memcpy`, between elements that lie apart.
unfoldable pub copy_bytes : (ℕ → ℕ) → ℕ → ℕ → ℕ → ℕ → ℕ
copy_bytes memory target source size a =
    if leb target a && ltb a (target + size) then memory (source + (a - target)) else memory a

-- `mp_realloc`: the element that it returns, and the set.
unfoldable pub realloc : PoolSet → ℕ → ℕ → ℕ × PoolSet
realloc pool_set element size =
    if element == 0
    then (0, pool_set)
    else if size == 0
    then (0, (free pool_set element).1)
    else elim (find_pool pool_set.pools element) [
      | none ↦ (0, pool_set)
      | some pool ↦
          let wanted = if is_ref_counted pool element then u32 (size + ref_count_size) else size in
          let new_element = alloc pool_set wanted in
          let copied = record new_element.pool_set {
            memory =
                copy_bytes new_element.pool_set.memory new_element.element element
                  pool.element_size;
          } in
          if leb wanted pool.element_size
          then (element, pool_set)
          else if new_element.element == 0
          then (0, new_element.pool_set)
          else (new_element.element, (free copied element).1)
    ]

-- `memset` with 0.
unfoldable pub clear_bytes : (ℕ → ℕ) → ℕ → ℕ → ℕ → ℕ
clear_bytes memory start size a = if leb start a && ltb a (start + size) then 0 else memory a

-- What `mp_free_secure` does to the pool of the element.
unfoldable pub free_secure_in : (ℕ → ℕ) → Pool → ℕ → Pool × (ℕ → ℕ)
free_secure_in memory pool element =
    if is_ref_counted pool element
    then (let ref_count = element - ref_count_size in
        let memory' = write memory ref_count (u32 (memory ref_count + (2 ^ 32 - 1))) in
        if ltb 1 (memory ref_count)
        then (pool, memory')
        else put_back (clear_bytes memory' ref_count pool.element_size) pool ref_count)
    else put_back (clear_bytes memory element pool.element_size) pool element

-- `mp_free_secure`, on the pools.
unfoldable pub free_secure_loop : (ℕ → ℕ) → List Pool → ℕ → Bool × List Pool × (ℕ → ℕ)
free_secure_loop memory [] element = (false, [], memory)
free_secure_loop memory (cur ∷ pools) element =
    if holds element cur
    then (let (cur', memory') = free_secure_in memory cur element in (true, cur' ∷ pools, memory'))
    else (let (ok, pools', memory') = free_secure_loop memory pools element in
        (ok, cur ∷ pools', memory'))

-- `mp_free_secure`
unfoldable pub free_secure : PoolSet → ℕ → Bool × PoolSet
free_secure pool_set element =
    if element == 0
    then (false, pool_set)
    else (let (ok, pools, memory) = free_secure_loop pool_set.memory pool_set.pools element in
        (ok, record { pools = pools; memory = memory }))
