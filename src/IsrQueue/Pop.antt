-- ===== src/IsrQueue/Pop.antt =====
-- `isr_queue_pop`, `isr_queue_discard` and `isr_queue_peek`: what a call takes or shows.
use cstone.Prelude.{
  ℕ, zero, suc, ◌+◌, ◌-◌, ◌≤◌, ◌<◌, ◌≡◌, ◌≢◌, refl, sym, ap, ap₂, ◌∙◌, ◌⊎◌, inl, inr, true, false,
  Option, none, some, List, ◌++◌, arith, ltb, ◌==◌, length, take, drop, length-append, take_all,
  drop_all, take-append, drop-append, Bool-cases, dec_lt, ℕ_discrete, ne→==,
}
use mathlib.Core.Option
use cstone.IsrQueue.{
  IsrQueue, slice, count, pop_size, pop_next, pop_loop, pop, discard_loop, discard,
}
use cstone.IsrQueue.Slice.{length-slice}
use cstone.IsrQueue.Inv.{IsValid, contents, count-eq, advance}

-- What a loop that ends has done, started at `q` with `wanted` bytes to take.
record IsPopped (q : IsrQueue) (wanted : ℕ) (result : Option (List ℕ × IsrQueue)) : Type 0 where
  after : IsrQueue
  returns : result ≡ some (take wanted (contents q), after)
  valid : IsValid after
  held : contents after ≡ drop wanted (contents q)

nothing-IsPopped : (fuel : ℕ) {q : IsrQueue} → IsValid q → IsPopped q 0 (pop_loop (suc fuel) q 0)
nothing-IsPopped fuel {q} v = record {
  after = q;
  returns = unfold pop_loop in refl;
  valid = v;
  held = refl;
}

pop_next-IsValid :
    {q : IsrQueue} (chunk : ℕ)
    → IsValid q
    → q.tail_ix + chunk ≤ q.end_ix
    → IsValid (pop_next q chunk)
unfolding pop_next
pop_next-IsValid chunk v p = ground (arith, v.storage, v.fits, v.head_in, p)

pop_step :
    (fuel : ℕ) (q : IsrQueue) (wanted chunk : ℕ)
    → wanted ≢ 0
    → q.head_ix ≢ q.tail_ix
    → pop_size q wanted ≡ chunk
    → pop_loop (suc fuel) q wanted
      ≡ Option.map
          (λ r. (slice q.queue q.tail_ix chunk ++ r.0, r.1))
          (pop_loop fuel (pop_next q chunk) (wanted - chunk))
unfolding pop_loop
pop_step fuel q wanted chunk more held size =
    rw (size, ne→== wanted 0 more, ne→== q.head_ix q.tail_ix held)

-- A round that takes a chunk in one piece.
round-IsPopped :
    (fuel : ℕ) {q : IsrQueue} (wanted chunk : ℕ)
    → IsValid q
    → wanted ≢ 0
    → q.head_ix ≢ q.tail_ix
    → pop_size q wanted ≡ chunk
    → chunk ≤ wanted
    → (q.tail_ix + chunk ≤ q.head_ix) ⊎ ((q.head_ix < q.tail_ix) × (q.tail_ix + chunk ≤ q.end_ix))
    → IsPopped
        (pop_next q chunk)
        (wanted - chunk)
        (pop_loop fuel (pop_next q chunk) (wanted - chunk))
    → IsPopped q wanted (pop_loop (suc fuel) q wanted)
round-IsPopped fuel {q} wanted chunk v more some_held size fits piece rest = record {
  after = rest.after;
  returns =
      pop_step fuel q wanted chunk more some_held size
      ∙ ap (Option.map (λ r. (slice q.queue q.tail_ix chunk ++ r.0, r.1))) rest.returns
      ∙ ap (λ t. some (t, rest.after)) (sym taken);
  valid = rest.valid;
  held = rest.held ∙ sym left;
}
  where
    first : List ℕ
    first = slice q.queue q.tail_ix chunk

    exact : length first ≡ chunk
    exact = length-slice q.queue q.tail_ix chunk (inside piece)
      where
        inside :
            (q.tail_ix + chunk ≤ q.head_ix)
              ⊎ ((q.head_ix < q.tail_ix) × (q.tail_ix + chunk ≤ q.end_ix))
            → q.tail_ix + chunk ≤ length q.queue
        inside o = ground (arith, v.storage, v.head_in)

    sum : wanted ≡ chunk + (wanted - chunk)
    sum = omega (arith, fits)

    taken : take wanted (contents q) ≡ first ++ take (wanted - chunk) (contents (pop_next q chunk))
    taken =
        ap₂ take sum (advance v chunk piece)
        ∙ take-append chunk (wanted - chunk) first (contents (pop_next q chunk)) exact

    left : drop wanted (contents q) ≡ drop (wanted - chunk) (contents (pop_next q chunk))
    left =
        ap₂ drop sum (advance v chunk piece)
        ∙ drop-append chunk (wanted - chunk) first (contents (pop_next q chunk)) exact

-- A last round, or none: everything wanted lies in one piece.
last-IsPopped :
    (fuel : ℕ) {q : IsrQueue} (wanted : ℕ)
    → IsValid q
    → pop_size q wanted ≡ wanted
    → q.head_ix ≢ q.tail_ix
    → q.tail_ix + wanted ≤ q.end_ix
    → (q.tail_ix + wanted ≤ q.head_ix) ⊎ ((q.head_ix < q.tail_ix) × (q.tail_ix + wanted ≤ q.end_ix))
    → IsPopped q wanted (pop_loop (suc (suc fuel)) q wanted)
last-IsPopped fuel {q} wanted v size some_held inside piece = elim (ℕ_discrete wanted 0) [
  | yes z ↦ rw z (nothing-IsPopped (suc fuel) v)
  | no more ↦
      let z : wanted - wanted ≡ 0 = omega arith in
      round-IsPopped (suc fuel) wanted wanted v more some_held size (omega arith) piece
        (rw z (nothing-IsPopped fuel (pop_next-IsValid wanted v inside)))
]

-- The loop at or below the head.
straight-IsPopped :
    (fuel : ℕ) {q : IsrQueue} (wanted : ℕ)
    → IsValid q
    → q.tail_ix ≤ q.head_ix
    → wanted ≤ q.head_ix - q.tail_ix
    → IsPopped q wanted (pop_loop (suc (suc fuel)) q wanted)
straight-IsPopped fuel {q} wanted v above fits = elim (ℕ_discrete wanted 0) [
  | yes z ↦ rw z (nothing-IsPopped (suc fuel) v)
  | no more ↦
      last-IsPopped fuel wanted v size (omega (arith, more, fits)) (omega (arith, fits, v.head_in))
        (inl (omega (arith, above, fits)))
]
  where
    size : pop_size q wanted ≡ wanted
    size = unfold pop_size in ground (arith, above, fits)

-- The loop above the head: a piece up to the end of the storage comes first.
wrapped-IsPopped :
    (fuel : ℕ) {q : IsrQueue} (wanted : ℕ)
    → IsValid q
    → q.head_ix < q.tail_ix
    → wanted ≤ count q
    → IsPopped q wanted (pop_loop (suc (suc (suc fuel))) q wanted)
wrapped-IsPopped fuel {q} wanted v below fits = elim (dec_lt wanted (q.end_ix - q.tail_ix)) [
  | yes short ↦
      last-IsPopped (suc fuel) wanted v (unfold pop_size in ground (arith, below, short))
        (omega (arith, below)) (omega (arith, short)) (inr (below, omega (arith, short)))
  | no long ↦
      let chunk : ℕ = q.end_ix - q.tail_ix in
      round-IsPopped (suc (suc fuel)) wanted chunk v (omega (arith, long, v.tail_in))
        (omega (arith, below)) (unfold pop_size in ground (arith, below, long))
        (omega (arith, long)) (inr (below, omega (arith, v.tail_in)))
        (straight-IsPopped fuel (wanted - chunk)
          (pop_next-IsValid chunk v (omega (arith, v.tail_in)))
          (unfold pop_next in ground (arith, v.tail_in))
          (unfold pop_next count in ground (arith, v.tail_in, fits, below)))
]

pop_loop-IsPopped :
    (fuel : ℕ) {q : IsrQueue} (wanted : ℕ)
    → IsValid q
    → wanted ≤ count q
    → IsPopped q wanted (pop_loop (suc (suc (suc fuel))) q wanted)
pop_loop-IsPopped fuel {q} wanted v fits = elim (dec_lt q.head_ix q.tail_ix) [
  | no above ↦
      straight-IsPopped (suc fuel) wanted v (omega (arith, above))
        (unfold count in ground (arith, above, fits))
  | yes below ↦ wrapped-IsPopped fuel wanted v below fits
]

-- `isr_queue_pop` ends within three rounds. It stores the oldest bytes, as many as are asked for and
-- held, and leaves a valid queue that holds the others.
pub pop_takes :
    (fuel : ℕ) (q : IsrQueue) (n : ℕ)
    → IsValid q
    → (after : IsrQueue) × (pop (suc (suc (suc fuel))) q n ≡ some (take n (contents q), after))
      × IsValid after
      × (contents after ≡ drop n (contents q))
unfolding pop
pop_takes fuel q n v = elim (dec_lt (count q) n) [
  | yes p ↦
      let r : IsPopped q (count q) (pop_loop (suc (suc (suc fuel))) q (count q)) =
        pop_loop-IsPopped fuel (count q) v (omega arith) in
      rw (ltb-yes p) (
        (
          r.after,
          r.returns
              ∙ ap (λ t. some (t, r.after))
                  (take_all (count q) (contents q) (omega (arith, held))
                    ∙ sym (take_all n (contents q) (omega (arith, held, p)))),
          r.valid,
          r.held
              ∙ drop_all (count q) (contents q) (omega (arith, held))
              ∙ sym (drop_all n (contents q) (omega (arith, held, p))),
        ))
  | no p ↦
      let r : IsPopped q n (pop_loop (suc (suc (suc fuel))) q n) =
        pop_loop-IsPopped fuel n v (omega (arith, p)) in
      rw (ltb-no p) (r.after, r.returns, r.valid, r.held)
]
  where
    held : count q ≡ length (contents q)
    held = count-eq v

    ltb-yes : count q < n → ltb (count q) n ≡ true
    ltb-yes l = ground arith

    ltb-no : (count q < n → ⊥) → ltb (count q) n ≡ false
    ltb-no l = ground arith

-- A round takes a chunk that lies in one piece.
pop_size-inside : {q : IsrQueue} (wanted : ℕ) → IsValid q → q.tail_ix + pop_size q wanted ≤ q.end_ix
unfolding pop_size
pop_size-inside wanted v = ground (arith, v.head_in, v.tail_in)

discard_loop-eq :
    (fuel : ℕ) {q : IsrQueue} (wanted : ℕ)
    → IsValid q
    → discard_loop fuel q wanted ≡ Option.map (λ r. (length r.0, r.1)) (pop_loop fuel q wanted)
unfolding discard_loop pop_loop
discard_loop-eq zero wanted v = refl
discard_loop-eq (suc fuel) {q} wanted v = elim (Bool-cases (wanted == 0)) [
  | inl z ↦ rw z
  | inr more ↦ elim (Bool-cases (q.head_ix == q.tail_ix)) [
    | inl e ↦ rw (more, e)
    | inr some_held ↦
        rw (more, some_held)
          (ap (Option.map {B = ℕ × IsrQueue} (λ r. (chunk + r.0, r.1))) (
              discard_loop-eq fuel {q = pop_next q chunk} (wanted - chunk)
                (pop_next-IsValid chunk v (pop_size-inside wanted v)))
            ∙ counted (pop_loop fuel (pop_next q chunk) (wanted - chunk)))
  ]
]
  where
    chunk : ℕ
    chunk = pop_size q wanted

    exact : length (slice q.queue q.tail_ix chunk) ≡ chunk
    exact =
        length-slice q.queue q.tail_ix chunk (omega (arith, v.storage, pop_size-inside wanted v))

    counted :
        (o : Option (List ℕ × IsrQueue))
        → Option.map {B = ℕ × IsrQueue}
            (λ r. (chunk + r.0, r.1))
            (Option.map {B = ℕ × IsrQueue} (λ r. (length r.0, r.1)) o)
          ≡ Option.map {B = ℕ × IsrQueue}
              (λ r. (length r.0, r.1))
              (Option.map {B = List ℕ × IsrQueue}
                (λ r. (slice q.queue q.tail_ix chunk ++ r.0, r.1))
                o)
    counted none = refl
    counted (some (xs, after)) =
        ap (λ (t : ℕ). (let r : Option (ℕ × IsrQueue) = some (t, after) in r))
          (omega (arith, length-append (slice q.queue q.tail_ix chunk) xs, exact))

-- `isr_queue_discard` leaves the queue that `isr_queue_pop` leaves for the same number, and returns the
-- number of bytes that `isr_queue_pop` stores.
pub discard-pop :
    (fuel : ℕ) (q : IsrQueue) (n : ℕ)
    → IsValid q
    → discard fuel q n ≡ Option.map (λ r. (length r.0, r.1)) (pop fuel q n)
unfolding discard pop
discard-pop fuel q n v = discard_loop-eq fuel _ v
