-- ===== src/Mempool/Init.antt =====
-- src/util/mempool.c: `mp__init_pool` links all elements of a new pool as free.
use cstone.Prelude.{
  ℕ, zero, suc, ◌+◌, ◌*◌, ◌^◌, ◌≤◌, ◌<◌, ◌≡◌, refl, sym, ap, ◌∙◌, some, List, [], ◌∷◌, All, arith,
  length, leb, u32, true, false,
}
use native.Mathlib.Nat.{mod-eq_of_lt, suc-mul}
use cstone.Mempool.{Pool, set_chunk, align_ptr, chunk_size}
use cstone.Mempool.Pools.{link_loop, init_pool}
use cstone.Mempool.Inv.{Chain, Distinct, IsPool, IsElement, All-map, set_chunk-next, set_chunk_else}

-- The addresses of some elements in a row.
abbrev pub element_list : ℕ → ℕ → ℕ → List ℕ
element_list zero cur size = []
element_list (suc n) cur size = cur ∷ element_list n (cur + size) size

length-element_list : (n cur size : ℕ) → length (element_list n cur size) ≡ n
length-element_list zero cur size = refl
length-element_list (suc n) cur size = ap suc (length-element_list n (cur + size) size)

-- The ones behind an address are not below it.
All-from : (n cur size : ℕ) → All (λ x. cur ≤ x) (element_list n cur size)
All-from zero cur size = tt
All-from (suc n) cur size = (
  omega arith,
  All-map (element_list n (cur + size) size) (λ x l. omega (arith, l))
      (All-from n (cur + size) size),
)

Distinct-element_list : (n cur size : ℕ) → 0 < size → Distinct (element_list n cur size)
Distinct-element_list zero cur size h = tt
Distinct-element_list (suc n) cur size h = (
  All-map (element_list n (cur + size) size) (λ x l e. omega (arith, l, e, h))
      (All-from n (cur + size) size),
  Distinct-element_list n (cur + size) size h,
)

elements-IsElement :
    (p : Pool) (n i cur : ℕ)
    → cur ≡ p.pool_begin + i * p.element_size
    → cur + n * p.element_size ≤ p.pool_end
    → All (IsElement p) (element_list n cur p.element_size)
elements-IsElement p zero i cur e l = tt
elements-IsElement p (suc n) i cur e l =
    let s = suc-mul n p.element_size in
    let t = suc-mul i p.element_size in
    (
      record { index = i; place = e; inside = omega (arith, l, s) },
      elements-IsElement p n (suc i) (cur + p.element_size) (omega (arith, e, t))
          (omega (arith, l, s)),
    )

module _ (size pool_end : ℕ) (room : chunk_size ≤ size) (ends : pool_end < 2 ^ 32) where
  next_step : (cur : ℕ) → cur + size ≤ pool_end → u32 (cur + size) ≡ cur + size
  next_step cur l = mod-eq_of_lt (omega (arith, l, ends))

  link_last :
      (fuel : ℕ) (memory : ℕ → ℕ) (cur : ℕ)
      → pool_end ≡ cur + size
      → link_loop (suc fuel) memory cur size pool_end
        ≡ some (set_chunk (set_chunk memory cur (cur + size)) cur 0)
  unfolding link_loop
  link_last fuel memory cur e =
      let s : u32 (cur + size) ≡ cur + size = next_step cur (omega (arith, e)) in
      let l : leb pool_end (cur + size) ≡ true = ground arith in rw (link_loop, s, l) refl

  link_more :
      (fuel : ℕ) (memory : ℕ → ℕ) (cur : ℕ)
      → cur + size < pool_end
      → link_loop (suc fuel) memory cur size pool_end
        ≡ link_loop fuel (set_chunk memory cur (cur + size)) (cur + size) size pool_end
  unfolding link_loop
  link_more fuel memory cur e =
      let s : u32 (cur + size) ≡ cur + size = next_step cur (omega (arith, e)) in
      let l : leb pool_end (cur + size) ≡ false = ground arith in rw (link_loop, s, l) refl

  -- With fuel for every element, the loop links them in a row, and changes nothing below.
  link_loop-Chain :
      (n fuel : ℕ) (memory : ℕ → ℕ) (cur : ℕ)
      → 0 < cur
      → pool_end ≡ cur + suc n * size
      → n < fuel
      → (memory' : ℕ → ℕ) × (link_loop fuel memory cur size pool_end ≡ some memory')
        × Chain memory' cur (element_list (suc n) cur size)
        × ((a : ℕ) → a < cur → memory' a ≡ memory a)
  link_loop-Chain n zero memory cur h e enough = absurd (omega (arith, enough))
  link_loop-Chain zero (suc fuel) memory cur h e enough =
      let one : suc 0 * size ≡ size = omega arith in
      let first = set_chunk memory cur (cur + size) in
      (
        set_chunk first cur 0,
        link_last fuel memory cur (omega (arith, e, one)),
        (refl, (λ z. omega (arith, z, h)), set_chunk-next first cur 0),
        λ a l.
            set_chunk_else first cur 0 a (λ z. omega (arith, z, l)) (λ z. omega (arith, z, l))
            ∙ set_chunk_else memory cur (cur + size) a (λ z. omega (arith, z, l))
                (λ z. omega (arith, z, l)),
      )
  link_loop-Chain (suc n) (suc fuel) memory cur h e enough =
      let s = suc-mul (suc n) size in
      let t = suc-mul n size in
      let first = set_chunk memory cur (cur + size) in
      let (memory', f, chain, same) =
        link_loop-Chain n fuel first (cur + size) (omega (arith, h)) (omega (arith, e, s))
          (omega (arith, enough)) in
      let linked : memory' cur ≡ cur + size =
        same cur (omega (arith, room)) ∙ set_chunk-next memory cur (cur + size) in
      (
        memory',
        link_more fuel memory cur (omega (arith, e, s, t, room)) ∙ f,
        (refl, (λ z. omega (arith, z, h)), rw linked chain),
        λ a l.
            same a (omega (arith, l))
            ∙ set_chunk_else memory cur (cur + size) a (λ z. omega (arith, z, l))
                (λ z. omega (arith, z, l)),
      )

no_less : (n size : ℕ) → 0 < size → n ≤ n * size
no_less zero size h = omega arith
no_less (suc n) size h = omega (arith, no_less n size h, suc-mul n size, h)

abbrev new_pool : ℕ → ℕ → ℕ → ℕ → Pool
new_pool b end elements element_size = record {
  pool_begin = b;
  pool_end = end;
  free_list = b;
  element_size = element_size;
  free_elems = elements;
  min_free_elems = elements;
  static = false;
  disabled = false;
}

init_linked :
    (memory memory' : ℕ → ℕ) (start elements element_size alignment fuel end : ℕ)
    → u32 (align_ptr start alignment + u32 (elements * element_size)) ≡ end
    → link_loop fuel memory (align_ptr start alignment) element_size end ≡ some memory'
    → init_pool fuel memory start elements element_size alignment
      ≡ some (new_pool (align_ptr start alignment) end elements element_size, memory')
unfolding init_pool
init_linked memory memory' start elements element_size alignment fuel end e f =
    rw (init_pool, e, f, e) refl

-- A pool of one element or more, of a size for a chunk or larger, that ends below 2 ^ 32 is well formed after
-- `mp__init_pool`, with all of its elements free in the order of their addresses. The loop ends within as
-- many rounds as there are elements.
pub init_pool-IsPool :
    (memory : ℕ → ℕ) (start elements element_size alignment fuel : ℕ)
    → 0 < align_ptr start alignment
    → 0 < elements
    → chunk_size ≤ element_size
    → align_ptr start alignment + elements * element_size < 2 ^ 32
    → elements ≤ fuel
    → (pool : Pool) × (memory' : ℕ → ℕ) × (init_pool fuel memory start elements element_size
          alignment
        ≡ some (pool, memory'))
      × IsPool memory' pool (element_list elements (align_ptr start alignment) element_size)
unfolding init_pool
init_pool-IsPool memory start zero element_size alignment fuel h some_ room fits enough =
    absurd (omega (arith, some_))
init_pool-IsPool memory start (suc n) element_size alignment fuel h some_ room fits enough =
    let b = align_ptr start alignment in
    let end = b + suc n * element_size in
    let small : u32 (suc n * element_size) ≡ suc n * element_size =
      mod-eq_of_lt (omega (arith, fits)) in
    let whole : u32 end ≡ end = mod-eq_of_lt fits in
    let (memory', e, chain, same) =
      link_loop-Chain element_size end room fits n fuel memory b h refl (omega (arith, enough)) in
    let pool : Pool = new_pool b end (suc n) element_size in
    (
      pool,
      memory',
      init_linked memory memory' start (suc n) element_size alignment fuel end
          (ap (λ (t : ℕ). u32 (b + t)) small ∙ whole) e,
      record {
        begins = h;
        ends = fits;
        room = room;
        chain = chain;
        few = omega (
          arith,
          length-element_list (suc n) b element_size,
          no_less (suc n) element_size (omega (arith, room)),
          fits,
        );
        free_count = sym (length-element_list (suc n) b element_size);
        elements = elements-IsElement pool (suc n) 0 b (omega arith) (omega arith);
        distinct = Distinct-element_list (suc n) b element_size (omega (arith, room));
      },
    )
