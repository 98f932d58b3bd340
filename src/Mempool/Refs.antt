-- ===== src/Mempool/Refs.antt =====
-- src/util/mempool.c: elements with a count of references.
use cstone.Prelude.{
  ℕ, ◌+◌, ◌-◌, ◌*◌, ◌%◌, ◌≡◌, refl, ap, ◌∙◌, ◌⊎◌, inl, inr, List, ◌==◌, ne→==, arith, u32, false,
}
use mathlib.Core.Path.{subst}
use native.Mathlib.Nat.{mul-add-mod_self_right}
use cstone.Mempool.{
  Pool, PoolSet, serves, alloc_loop, alloc_with_ref, is_ref_counted, ref_count_size,
}
use cstone.Mempool.Inv.{IsElement, ArePools}
use cstone.Mempool.Alloc.{First, First-free_list, loop-AllocOutcome, serves-some}

-- 32 bytes into an element, the test for a count of references looks at the size alone.
behind_count :
    (p : Pool) (x : ℕ)
    → IsElement p x
    → is_ref_counted p (x + 32) ≡ (32 % p.element_size == ref_count_size)
unfolding is_ref_counted
behind_count p x el =
    let q : x + 32 - p.pool_begin ≡ el.index * p.element_size + 32 = omega (arith, el.place) in
    ap (λ (t : ℕ). t % p.element_size == ref_count_size) q
    ∙ ap (λ (t : ℕ). t == ref_count_size) (mul-add-mod_self_right el.index p.element_size 32)

-- In a set of pools that is well formed, what `mp_alloc_with_ref` returns is NULL, or 32 bytes behind the
-- first free element of the first pool that serves the size with its count, and not 4. That pool then takes it for one with a count of references exactly if 32
-- leaves 4 when it is divided by the size of the elements.
pub alloc_with_ref_misplaced :
    (pool_set : PoolSet) (frees : List (List ℕ)) (size : ℕ)
    → ArePools pool_set.memory pool_set.pools frees
    → ((alloc_with_ref pool_set size).element ≡ 0)
      ⊎ ((p : Pool) × First (serves (u32 (size + ref_count_size))) pool_set.pools p
          × IsElement p p.free_list
          × ((alloc_with_ref pool_set size).element ≡ p.free_list + 32)
          × (is_ref_counted p (alloc_with_ref pool_set size).element
              ≡ (32 % p.element_size == ref_count_size)))
unfolding alloc_with_ref
alloc_with_ref_misplaced pool_set frees size v =
    let total = u32 (size + ref_count_size) in
    elim (loop-AllocOutcome pool_set.memory (serves total) (serves-some total) pool_set.pools frees
      v) [
        | inl (z, same, none_) ↦ inl (rw (z, alloc_with_ref) refl)
        | inr (p, first, e, ne, element, more) ↦
            let x = (alloc_loop pool_set.memory (serves total) pool_set.pools).0 in
            let some_ : (x == 0) ≡ false = ne→== x 0 ne in
            let head : x ≡ p.free_list = First-free_list pool_set.memory first in
            let start : IsElement p p.free_list = subst (IsElement p) head element in
            let moved : (alloc_with_ref pool_set size).element ≡ p.free_list + 32 =
              rw (some_, alloc_with_ref) (ap (λ (t : ℕ). t + 32) head) in
            inr (
              p,
              first,
              start,
              moved,
              ap (is_ref_counted p) moved ∙ behind_count p p.free_list start,
            )
      ]
