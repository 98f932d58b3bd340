-- ===== src/IsrQueue/Observe.antt =====
-- `isr_queue_peek`, `isr_queue_flush`, `isr_queue_is_full` and `isr_queue_is_empty`: what they show of
-- the contents.
use cstone.Prelude.{
  ℕ, ◌-◌, ◌≤◌, ◌<◌, ◌≡◌, refl, sym, ap, ◌∙◌, ◌↔◌, true, List, [], arith, leb, if◌then◌else◌, length,
  take, take_all, take_first, drop_all, dec_lt, ==_iff,
}
use cstone.IsrQueue.{IsrQueue, slice, count, inc_modulo, peek, flush, is_full, is_empty}
use cstone.IsrQueue.Slice.{length-slice}
use cstone.IsrQueue.Inv.{IsValid, contents, count-eq, bytes_straight, bytes_wrapped}
use cstone.IsrQueue.Single.{full_iff, empty_iff}

-- The empty list is the one of length 0.
length_zero : (xs : List ℕ) → (length xs ≡ 0) ↔ (xs ≡ [])
length_zero xs = ((λ e. drop_all 0 xs (omega (arith, e))), (λ e. ap length e))

-- One call of `isr_queue_peek` shows the bytes up to the end of the storage, or all of them.
length-peek :
    {q : IsrQueue}
    → IsValid q
    → length (peek q)
      ≡ (if leb q.tail_ix q.head_ix then q.head_ix - q.tail_ix else q.end_ix - q.tail_ix)
unfolding peek
length-peek {q} v = ground (
  arith,
  length-slice q.queue q.tail_ix (q.head_ix - q.tail_ix),
  length-slice q.queue q.tail_ix (q.end_ix - q.tail_ix),
  v.storage,
  v.head_in,
  v.tail_in,
)

peek_wrapped :
    {q : IsrQueue}
    → IsValid q
    → q.head_ix < q.tail_ix
    → peek q ≡ slice q.queue q.tail_ix (q.end_ix - q.tail_ix)
unfolding peek
peek_wrapped v wrapped = ground arith

peek_straight : {q : IsrQueue} → IsValid q → q.tail_ix ≤ q.head_ix → peek q ≡ contents q
unfolding peek
peek_straight {q} v straight =
    rw (bytes_straight q.queue q.end_ix q.head_ix q.tail_ix straight)
      (elim (dec_lt q.tail_ix q.head_ix) [
        | yes more ↦ ground arith
        | no none_held ↦
            let z : q.head_ix - q.tail_ix ≡ 0 = omega (arith, none_held) in rw z (ground arith)
      ])

-- What `isr_queue_peek` returns is a first part of what a valid queue holds, and it is empty only
-- where the queue is.
pub peek-prefix :
    (q : IsrQueue)
    → IsValid q
    → (peek q ≡ take (length (peek q)) (contents q)) × ((length (peek q) ≡ 0) ↔ (contents q ≡ []))
unfolding peek
peek-prefix q v = (
  shown,
  (
    (λ e. (length_zero (contents q)).0 (sym (count-eq v) ∙ some_shown.0 e)),
    (λ e. some_shown.1 (count-eq v ∙ ap length e)),
  ),
)
  where
    some_shown : (length (peek q) ≡ 0) ↔ (count q ≡ 0)
    some_shown = unfold count in ground (arith, length-peek v, v.head_in, v.tail_in)

    shown : peek q ≡ take (length (peek q)) (contents q)
    shown = elim (dec_lt q.head_ix q.tail_ix) [
      | yes wrapped ↦
          rw (peek_wrapped v wrapped, bytes_wrapped q.queue q.end_ix q.head_ix q.tail_ix wrapped)
            (sym (
              take_first (slice q.queue q.tail_ix (q.end_ix - q.tail_ix))
                (slice q.queue 0 q.head_ix)))
      | no straight ↦
          rw (peek_straight v (omega (arith, straight)))
            (sym (take_all (length (contents q)) (contents q) (omega arith)))
    ]

-- `isr_queue_is_full` and `isr_queue_is_empty` agree with `isr_queue_count`: full is one byte less than
-- the storage.
pub is_full-is_empty :
    (q : IsrQueue)
    → IsValid q
    → ((is_full q ≡ true) ↔ (count q ≡ q.end_ix - 1)) × ((is_empty q ≡ true) ↔ (contents q ≡ []))
unfolding is_full is_empty
is_full-is_empty q v = (
  (
    (λ e. (full_iff v).0 ((==_iff (inc_modulo q.head_ix q.end_ix) q.tail_ix).0 e)),
    (λ e. (==_iff (inc_modulo q.head_ix q.end_ix) q.tail_ix).1 ((full_iff v).1 e)),
  ),
  (
    (λ e.
        (length_zero (contents q)).0
          (sym (count-eq v) ∙ (empty_iff v).0 ((==_iff q.head_ix q.tail_ix).0 e))),
    (λ e. (==_iff q.head_ix q.tail_ix).1 ((empty_iff v).1 (count-eq v ∙ ap length e))),
  ),
)

-- `isr_queue_flush` empties a valid queue and leaves it valid.
pub flush-empties :
    (q : IsrQueue)
    → IsValid q
    → IsValid (flush q) × (contents (flush q) ≡ []) × (count (flush q) ≡ 0)
unfolding flush count
flush-empties q v = (
  record {
    storage = v.storage;
    fits = v.fits;
    head_in = omega (arith, v.head_in);
    tail_in = omega (arith, v.head_in);
  },
  bytes_straight q.queue q.end_ix 0 0 (omega arith),
  refl,
)
