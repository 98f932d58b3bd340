-- ===== src/Mempool/Inv.antt =====
-- src/util/mempool.c: what makes a pool and a set of pools well formed. The free elements of a pool are
-- a list of addresses, which the links in the memory spell.
use cstone.Prelude.{
  ℕ, ◌+◌, ◌*◌, ◌^◌, ◌≤◌, ◌<◌, ◌≡◌, ◌≢◌, sym, ap, ◌∙◌, ◌⊎◌, inl, inr, List, [], ◌∷◌, All, arith,
  length, dec_lt, ℕ_discrete,
}
use native.Mathlib.Nat.{mul-le-mul_right, suc-mul}
use cstone.Mempool.{Pool, write, set_chunk, chunk_size}

-- The links from an address on pass these addresses and end with NULL.
abbrev pub Chain : (ℕ → ℕ) → ℕ → List ℕ → Type 0
Chain memory a [] = a ≡ 0
Chain memory a (x ∷ xs) = (a ≡ x) × (a ≢ 0) × Chain memory (memory a) xs

abbrev pub Distinct : List ℕ → Type 0
Distinct [] = Unit
Distinct (x ∷ xs) = All (λ y. x ≢ y) xs × Distinct xs

-- The address of an element of the pool.
pub record IsElement (pool : Pool) (x : ℕ) : Type 0 where
  pub index : ℕ
  pub place : x ≡ pool.pool_begin + index * pool.element_size
  pub inside : x + pool.element_size ≤ pool.pool_end

pub record IsPool (memory : ℕ → ℕ) (pool : Pool) (frees : List ℕ) : Type 0 where
  pub begins : 0 < pool.pool_begin
  pub ends : pool.pool_end < 2 ^ 32
  pub room : chunk_size ≤ pool.element_size
  pub chain : Chain memory pool.free_list frees
  pub few : length frees < 2 ^ 32
  pub free_count : pool.free_elems ≡ length frees
  pub elements : All (IsElement pool) frees
  pub distinct : Distinct frees

-- Two pools lie apart in the memory.
abbrev pub Apart : Pool → Pool → Type 0
Apart p q = (p.pool_end ≤ q.pool_begin) ⊎ (q.pool_end ≤ p.pool_begin)

-- The pools of a set, with the free elements of each.
abbrev pub ArePools : (ℕ → ℕ) → List Pool → List (List ℕ) → Type 0
ArePools memory [] [] = Unit
ArePools memory [] (xs ∷ frees) = ⊥
ArePools memory (p ∷ ps) [] = ⊥
ArePools memory (p ∷ ps) (xs ∷ frees) =
    IsPool memory p xs × All (Apart p) ps × ArePools memory ps frees

-- The memory of the pool is as before.
abbrev pub Same : Pool → (ℕ → ℕ) → (ℕ → ℕ) → Type 0
Same p memory memory' = (a : ℕ) → p.pool_begin ≤ a → a < p.pool_end → memory' a ≡ memory a

pub IsElement-within :
    {pool : Pool} {x : ℕ}
    → 0 < pool.element_size
    → IsElement pool x
    → (pool.pool_begin ≤ x) × (x < pool.pool_end)
IsElement-within some_size e = (omega (arith, e.place), omega (arith, e.inside, some_size))

steps_apart : (i j size : ℕ) → i < j → i * size + size ≤ j * size
steps_apart i j size l = omega (arith, mul-le-mul_right size l, suc-mul i size)

-- Two elements that differ do not overlap.
pub elements_apart :
    {pool : Pool} {x y : ℕ}
    → IsElement pool x
    → IsElement pool y
    → x ≢ y
    → (x + pool.element_size ≤ y) ⊎ (y + pool.element_size ≤ x)
elements_apart {pool} a b ne = elim (dec_lt a.index b.index) [
  | yes l ↦ inl (omega (arith, a.place, b.place, steps_apart a.index b.index pool.element_size l))
  | no ge ↦ elim (ℕ_discrete a.index b.index) [
    | yes e ↦
        absurd
          (ne (a.place ∙ ap (λ (t : ℕ). pool.pool_begin + t * pool.element_size) e ∙ sym b.place))
    | no other ↦ inr (
        omega (
          arith,
          a.place,
          b.place,
          steps_apart b.index a.index pool.element_size (omega (arith, ge, other)),
        ))
  ]
]

-- A chain whose links are as before is a chain.
pub Chain-same :
    (memory memory' : ℕ → ℕ) (xs : List ℕ) (a : ℕ)
    → All (λ x. memory' x ≡ memory x) xs
    → Chain memory a xs
    → Chain memory' a xs
Chain-same memory memory' [] a same c = c
Chain-same memory memory' (x ∷ xs) a same (e, ne, c) =
    let q : memory' a ≡ memory a = rw e same.0 in
    (e, ne, rw q (Chain-same memory memory' xs (memory a) same.1 c))

pub All-map {ℓ κ μ} :
    {A : Type ℓ} {P : A → Type κ} {Q : A → Type μ} (xs : List A)
    → ((x : A) → P x → Q x)
    → All P xs
    → All Q xs
All-map [] f h = tt
All-map (x ∷ xs) f h = (f x h.0, All-map xs f h.1)

pub IsPool-Same :
    {memory memory' : ℕ → ℕ} {p : Pool} {xs : List ℕ}
    → Same p memory memory'
    → IsPool memory p xs
    → IsPool memory' p xs
IsPool-Same {memory} {memory'} {p} {xs} same v = record {
  begins = v.begins;
  ends = v.ends;
  room = v.room;
  chain =
      Chain-same memory memory' xs p.free_list
        (All-map xs
          (λ x e. let (low, high) = IsElement-within (omega (arith, v.room)) e in same x low high)
          v.elements)
        v.chain;
  few = v.few;
  free_count = v.free_count;
  elements = v.elements;
  distinct = v.distinct;
}

pub ArePools-Same :
    (memory memory' : ℕ → ℕ) (ps : List Pool) (frees : List (List ℕ))
    → All (λ p. Same p memory memory') ps
    → ArePools memory ps frees
    → ArePools memory' ps frees
ArePools-Same memory memory' [] [] same v = v
ArePools-Same memory memory' [] (xs ∷ frees) same v = v
ArePools-Same memory memory' (p ∷ ps) [] same v = v
ArePools-Same memory memory' (p ∷ ps) (xs ∷ frees) same (v, apart, rest) =
    (IsPool-Same same.0 v, apart, ArePools-Same memory memory' ps frees same.1 rest)

-- What `set_chunk` writes, and that it writes nothing else.
module _ (memory : ℕ → ℕ) (chunk next : ℕ) where
  pub set_chunk-next : set_chunk memory chunk next chunk ≡ next
  unfolding set_chunk write
  set_chunk-next = ground arith

  pub set_chunk_else :
      (a : ℕ) → a ≢ chunk → a ≢ chunk + 4 → set_chunk memory chunk next a ≡ memory a
  unfolding set_chunk write
  set_chunk_else a ne nf = ground arith
