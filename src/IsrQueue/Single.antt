-- ===== src/IsrQueue/Single.antt =====
-- The calls for one byte: each keeps the invariant, and does to the bytes held what `Fifo` says.
use cstone.Prelude.{
  ℕ, ◌+◌, ◌-◌, ◌^◌, ◌≤◌, ◌<◌, ◌≡◌, ◌≢◌, sym, ap, ap₂, ◌∙◌, ◌↔◌, ◌⊎◌, inl, inr, [], ◌∷◌, ◌++◌, arith,
  leb, ◌==◌, if◌then◌else◌, get_or, set, drop, length-set, Bool-cases, ℕ_discrete, ==_iff, ne→==,
}
use cstone.IsrQueue.{IsrQueue, memcpy, slice, inc_modulo, count, push_one, pop_one, pop_next}
use cstone.IsrQueue.Slice.{slice-suc}
use cstone.IsrQueue.Inv.{
  IsValid, bytes, contents, bytes_straight, count-eq, store, store_wrap, advance,
}
use cstone.IsrQueue.Fifo
use native.Mathlib.Nat.{mod-eq_of_lt}

pub inc_modulo-eq :
    (i end : ℕ) → i < end → end < 2 ^ 32 → inc_modulo i end ≡ (if i + 1 == end then 0 else i + 1)
unfolding inc_modulo
inc_modulo-eq i end p q = rw (mod-eq_of_lt {n = i + 1} {m = 2 ^ 32} (omega arith))

pub inc_modulo-lt : (i end : ℕ) → i < end → end < 2 ^ 32 → inc_modulo i end < end
inc_modulo-lt i end p q = ground (arith, inc_modulo-eq i end p q)

module _ {q : IsrQueue} (v : IsValid q) where
  open q use {queue, end_ix, head_ix, tail_ix}

  -- The head's successor meets the tail exactly when one slot is left, the one never used.
  pub full_iff : (inc_modulo head_ix end_ix ≡ tail_ix) ↔ (count q ≡ end_ix - 1)
  unfolding count
  full_iff = ground (arith, inc_modulo-eq head_ix end_ix v.head_in v.fits, v.head_in, v.tail_in)

  pub empty_iff : (head_ix ≡ tail_ix) ↔ (count q ≡ 0)
  unfolding count
  empty_iff = ground (arith, v.head_in, v.tail_in)

  -- Storing one byte where there is room.
  pub put :
      (x : ℕ)
      → inc_modulo head_ix end_ix ≢ tail_ix
      → bytes (set queue head_ix x) end_ix (inc_modulo head_ix end_ix) tail_ix
        ≡ contents q ++ (x ∷ [])
  unfolding memcpy
  put x room = elim (ℕ_discrete (head_ix + 1) end_ix) [
    | yes at_end ↦
        (let e : inc_modulo head_ix end_ix ≡ 0 =
            ground (arith, inc_modulo-eq head_ix end_ix v.head_in v.fits) in
          rw e (store_wrap v (x ∷ []) at_end (omega (arith, room, e)) (omega (arith, v.tail_in))))
    | no inside ↦
        (let e : inc_modulo head_ix end_ix ≡ head_ix + 1 =
            ground (arith, inc_modulo-eq head_ix end_ix v.head_in v.fits) in
          rw e (store v (x ∷ []) (omega (arith, v.head_in)) (apart (omega (arith, room, e)))))
  ]
    where
      apart : head_ix + 1 ≢ tail_ix → (tail_ix ≤ head_ix) ⊎ (head_ix + 1 < tail_ix)
      apart ne = ground arith

  -- Taking one byte.
  pub take_one :
      tail_ix ≢ head_ix
      → contents q ≡ get_or queue tail_ix 0 ∷ bytes queue end_ix head_ix (inc_modulo tail_ix end_ix)
  unfolding pop_next
  take_one more =
      advance v 1 (ground (arith, v.tail_in))
      ∙ ap₂ ◌++◌ (slice-suc queue tail_ix 0 (omega (arith, v.storage, v.tail_in)))
          (ap (bytes queue end_ix head_ix) next)
    where
      next : (if leb end_ix (tail_ix + 1) then 0 else tail_ix + 1) ≡ inc_modulo tail_ix end_ix
      next = ground (arith, inc_modulo-eq tail_ix end_ix v.tail_in v.fits, v.tail_in)

  none_held : tail_ix ≡ head_ix → contents q ≡ []
  none_held e =
      bytes_straight queue end_ix head_ix tail_ix (omega (arith, e))
      ∙ ap (slice queue tail_ix) (let z : head_ix - tail_ix ≡ 0 = omega (arith, e) in z)

-- Storing one byte where there is no room, and dropping the oldest.
overwrites :
    {q : IsrQueue} (v : IsValid q) (x : ℕ)
    → inc_modulo q.head_ix q.end_ix ≡ q.tail_ix
    → bytes
        (set q.queue q.head_ix x)
        q.end_ix
        (inc_modulo q.head_ix q.end_ix)
        (inc_modulo q.tail_ix q.end_ix)
      ≡ drop 1 (contents q ++ (x ∷ []))
overwrites {q} v x full = elim (ℕ_discrete tail_ix head_ix) [
  | yes e ↦
      rw (none_held v e, ap (λ (t : ℕ). inc_modulo t end_ix) e)
        (bytes_straight (set queue head_ix x) end_ix (inc_modulo head_ix end_ix)
            (inc_modulo head_ix end_ix) (omega arith)
          ∙ ap (slice (set queue head_ix x) (inc_modulo head_ix end_ix)) nothing)
  | no ne ↦
      put advanced x
        (ground (arith, full, inc_modulo-eq tail_ix end_ix v.tail_in v.fits, v.head_in, v.tail_in))
      ∙ ap (λ t. drop 1 (t ++ (x ∷ []))) (sym (take_one v ne))
]
  where
    open q use {queue, end_ix, head_ix, tail_ix}

    nothing : inc_modulo head_ix end_ix - inc_modulo head_ix end_ix ≡ 0
    nothing = omega arith

    advanced : IsValid (record q { tail_ix = inc_modulo tail_ix end_ix })
    advanced = record {
      storage = v.storage;
      fits = v.fits;
      head_in = v.head_in;
      tail_in = inc_modulo-lt tail_ix end_ix v.tail_in v.fits;
    }

-- `isr_queue_push_one` keeps the invariant, on each of its branches.
pub push_one-IsValid : {q : IsrQueue} (x : ℕ) → IsValid q → IsValid (push_one q x).1
unfolding push_one
push_one-IsValid {q} x v = ground (
  arith,
  v.storage,
  v.fits,
  v.tail_in,
  length-set q.queue q.head_ix x,
  inc_modulo-lt q.head_ix q.end_ix v.head_in v.fits,
  inc_modulo-lt q.tail_ix q.end_ix v.tail_in v.fits,
)

pub pop_one-IsValid : {q : IsrQueue} → IsValid q → IsValid (pop_one q).2
unfolding pop_one
pop_one-IsValid {q} v =
    ground (arith, v.storage, v.fits, v.head_in, inc_modulo-lt q.tail_ix q.end_ix v.tail_in v.fits)

pop_one-Fifo :
    {q : IsrQueue}
    → IsValid q
    → let (n, out, q') = pop_one q in (n, out, contents q') ≡ Fifo.pop (contents q)
unfolding pop_one Fifo.pop
pop_one-Fifo {q} v = elim (ℕ_discrete q.tail_ix q.head_ix) [
  | yes e ↦ rw ((==_iff q.tail_ix q.head_ix).1 e, none_held v e)
  | no ne ↦ rw (take_one v ne, ne→== q.tail_ix q.head_ix ne)
]

-- On a well-formed queue `isr_queue_pop_one` returns the oldest byte and leaves the others, or reports the
-- empty queue. The queue after it is well formed, with both indices inside its storage.
pub pop_one_refines :
    {q : IsrQueue}
    → IsValid q
    → let (n, out, q') = pop_one q in ((n, out, contents q') ≡ Fifo.pop (contents q)) × IsValid q'
pop_one_refines v = (pop_one-Fifo v, pop_one-IsValid v)

pub push_one-Fifo :
    {q : IsrQueue} (x : ℕ)
    → IsValid q
    → let (n, q') = push_one q x in
      (n, contents q') ≡ Fifo.push (q.end_ix - 1) q.overwrite (contents q) x
unfolding push_one Fifo.push
push_one-Fifo {q} x v = elim (ℕ_discrete (inc_modulo q.head_ix q.end_ix) q.tail_ix) [
  | yes full ↦ elim (Bool-cases q.overwrite) [
    | inl drops ↦ ground (arith, drops, full, overwrites v x full, full_iff v, count-eq v)
    | inr keeps ↦ ground (arith, keeps, full, full_iff v, count-eq v)
  ]
  | no room ↦ ground (arith, put v x room, full_iff v, count-eq v)
]

-- On a well-formed queue `isr_queue_push_one` stores the byte behind the others and returns 1; on a full
-- queue it returns 0 and leaves the bytes held as they are, or with `overwrite` drops the oldest byte. The
-- queue after it is well formed, with both indices inside its storage.
pub push_one_refines :
    {q : IsrQueue} (x : ℕ)
    → IsValid q
    → let (n, q') = push_one q x in
      ((n, contents q') ≡ Fifo.push (q.end_ix - 1) q.overwrite (contents q) x) × IsValid q'
push_one_refines x v = (push_one-Fifo x v, push_one-IsValid x v)
