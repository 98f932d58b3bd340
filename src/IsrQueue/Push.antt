-- ===== src/IsrQueue/Push.antt =====
-- `isr_queue_push`: how many rounds its loop makes, and what a call takes and stores.
use cstone.Prelude.{
  ℕ, zero, suc, ◌+◌, ◌-◌, ◌≤◌, ◌<◌, min, ◌≡◌, ◌≢◌, refl, sym, ap, ◌∙◌, ◌⊎◌, inl, inr, false, none,
  some, List, ◌++◌, arith, length, take, drop, length-drop, take-add, drop-drop, dec_lt, ℕ_discrete,
}
use mathlib.Core.List.{append_assoc}
use cstone.IsrQueue.{IsrQueue, push_size, push_chunk, push_loop, push_rest, push}
use cstone.IsrQueue.Inv.{IsValid, contents}
use mathlib.Core.Option
use cstone.IsrQueue.Rounds.{
  room, IsPushed, moved, moved-IsValid, chunk_inside, chunk_wrap, round, size_wrapped,
  size_straight, nothing-IsPushed, last-IsPushed,
}

-- The loop below the tail: one round fills the gap, or takes everything.
loop_wrapped :
    (fuel : ℕ) {q : IsrQueue} (xs : List ℕ)
    → IsValid q
    → q.head_ix < q.tail_ix
    → IsPushed q xs (push_loop (suc (suc fuel)) q xs)
loop_wrapped fuel {q} xs v below = elim (ℕ_discrete (min (length xs) (room q)) 0) [
  | yes z ↦ nothing-IsPushed v (suc fuel) xs (idle z)
  | no ne ↦
      last-IsPushed v fuel xs c q' (omega arith) ne refl size.0 chunk.0 ends valid chunk.1 refl refl
]
  where
    c : ℕ
    c = min (length xs) (room q)

    size : (push_size q (length xs) ≡ c) × (room q ≡ q.tail_ix - 1 - q.head_ix)
    size = size_wrapped v (length xs) below

    idle : c ≡ 0 → (length xs ≡ 0) ⊎ ((room q ≡ 0) × (push_size q (length xs) ≡ 0))
    idle z = elim (ℕ_discrete (length xs) 0) [
      | yes e ↦ inl e
      | no ne ↦ inr (omega (arith, z, ne), size.0 ∙ z)
    ]

    q' : IsrQueue
    q' = moved v xs c (omega arith) (q.head_ix + c)

    chunk : (push_chunk q xs c ≡ (c, q')) × (contents q' ≡ contents q ++ take c xs)
    chunk =
        chunk_inside v xs c (omega arith) (omega (arith, size.1, v.tail_in))
          (inr (omega (arith, size.1, below)))

    valid : IsValid q'
    valid = moved-IsValid v xs c (omega arith) (q.head_ix + c) (omega (arith, size.1, v.tail_in))

    ends : (length (drop c xs) ≡ 0) ⊎ (push_size q' (length (drop c xs)) ≡ 0)
    ends = elim (dec_lt (room q) (length xs)) [
      | yes more ↦
          let (next, gap) =
            size_wrapped valid (length (drop c xs)) (omega (arith, size.1, more, below)) in
          inr (next ∙ omega (arith, gap, size.1, more))
      | no p ↦ inl (omega (arith, length-drop c xs, p))
    ]

-- A round up to the end of the storage, and then the loop below the tail.
loop_over :
    (fuel : ℕ) {q : IsrQueue} (xs : List ℕ)
    → IsValid q
    → q.tail_ix ≤ q.head_ix
    → 0 < q.tail_ix
    → length xs ≢ 0
    → q.end_ix ≤ q.head_ix + length xs
    → (push_size q (length xs) ≡ min (length xs) (q.end_ix - q.head_ix))
      × (room q ≡ q.end_ix - 1 - (q.head_ix - q.tail_ix))
    → IsPushed q xs (push_loop (suc (suc (suc fuel))) q xs)
loop_over fuel {q} xs v above pos more reaches size = record {
  after = rest.after;
  returns =
      round (suc (suc fuel)) q xs c c q' more (size.0 ∙ omega (arith, reaches))
        (omega (arith, v.head_in)) chunk.0
      ∙ rest.returns
      ∙ ap (λ t. some (t, rest.after))
          (drop-drop c (room q') xs ∙ ap (λ (t : ℕ). drop t xs) (sym sum));
  valid = rest.valid;
  held =
      rest.held
      ∙ ap (λ t. t ++ take (room q') (drop c xs)) chunk.1
      ∙ append_assoc (contents q) (take c xs) (take (room q') (drop c xs))
      ∙ ap (λ t. contents q ++ t)
          (sym (take-add c (room q') xs) ∙ ap (λ (t : ℕ). take t xs) (sym sum));
  same_end = rest.same_end;
  same_mode = rest.same_mode;
}
  where
    c : ℕ
    c = q.end_ix - q.head_ix

    enough : c ≤ length xs
    enough = omega (arith, reaches)

    q' : IsrQueue
    q' = moved v xs c enough 0

    chunk : (push_chunk q xs c ≡ (c, q')) × (contents q' ≡ contents q ++ take c xs)
    chunk = chunk_wrap v xs c enough (omega (arith, v.head_in)) pos above

    valid : IsValid q'
    valid = moved-IsValid v xs c enough 0 (omega (arith, v.head_in))

    rest : IsPushed q' (drop c xs) (push_loop (suc (suc fuel)) q' (drop c xs))
    rest = loop_wrapped fuel (drop c xs) valid pos

    sum : room q ≡ c + room q'
    sum = omega (arith, size.1, (size_wrapped valid 0 pos).1, v.head_in, above)

-- The loop above the tail: a round up to the end of the storage, if the bytes reach it, and then the
-- loop below the tail.
loop_straight :
    (fuel : ℕ) {q : IsrQueue} (xs : List ℕ)
    → IsValid q
    → q.tail_ix ≤ q.head_ix
    → (0 < q.tail_ix) ⊎ (length xs ≤ room q)
    → IsPushed q xs (push_loop (suc (suc (suc fuel))) q xs)
loop_straight fuel {q} xs v above o = elim (ℕ_discrete (length xs) 0) [
  | yes z ↦ nothing-IsPushed v (suc (suc fuel)) xs (inl z)
  | no more ↦ elim (dec_lt (q.head_ix + length xs) q.end_ix) [
    | yes inside ↦ within more inside
    | no reaches ↦ over more reaches (tail_pos o reaches)
  ]
]
  where
    size :
        (push_size q (length xs) ≡ min (length xs) (q.end_ix - q.head_ix))
        × (room q ≡ q.end_ix - 1 - (q.head_ix - q.tail_ix))
    size = size_straight v (length xs) above

    within :
        length xs ≢ 0
        → q.head_ix + length xs < q.end_ix
        → IsPushed q xs (push_loop (suc (suc (suc fuel))) q xs)
    within more inside =
        let (done, held) = chunk_inside v xs (length xs) (omega arith) inside (inl above) in
        last-IsPushed v (suc fuel) xs (length xs)
          (moved v xs (length xs) (omega arith) (q.head_ix + length xs)) more more
          (omega (arith, size.1, inside, v.tail_in)) (size.0 ∙ omega (arith, inside)) done
          (inl (omega (arith, length-drop (length xs) xs)))
          (moved-IsValid v xs (length xs) (omega arith) (q.head_ix + length xs) inside) held refl
          refl

    tail_pos :
        (0 < q.tail_ix) ⊎ (length xs ≤ room q)
        → ¬ (q.head_ix + length xs < q.end_ix)
        → 0 < q.tail_ix
    tail_pos (inl p) reaches = p
    tail_pos (inr p) reaches = omega (arith, p, reaches, size.1, v.head_in, above)

    over :
        length xs ≢ 0
        → ¬ (q.head_ix + length xs < q.end_ix)
        → 0 < q.tail_ix
        → IsPushed q xs (push_loop (suc (suc (suc fuel))) q xs)
    over more reaches pos = loop_over fuel xs v above pos more (omega (arith, reaches)) size

pub push_loop-IsPushed :
    (fuel : ℕ) {q : IsrQueue} (xs : List ℕ)
    → IsValid q
    → (0 < q.tail_ix) ⊎ (length xs ≤ room q)
    → IsPushed q xs (push_loop (suc (suc (suc fuel))) q xs)
push_loop-IsPushed fuel {q} xs v o = elim (dec_lt q.head_ix q.tail_ix) [
  | yes below ↦ loop_wrapped (suc fuel) xs v below
  | no above ↦ loop_straight fuel xs v (omega (arith, above)) o
]

-- From `tail_ix` 0 with the head in the last slot, every round copies nothing and changes no index.
stuck :
    (fuel : ℕ) {q : IsrQueue} (xs : List ℕ)
    → IsValid q
    → q.tail_ix ≡ 0
    → q.head_ix ≡ q.end_ix - 1
    → length xs ≢ 0
    → push_loop fuel q xs ≡ none
unfolding push_loop
stuck zero xs v t h more = refl
stuck (suc fuel) {q} xs v t h more =
    round fuel q xs 1 0 q' more
      ((size_straight v (length xs) (omega (arith, t))).0 ∙ omega (arith, more, h, v.head_in))
      (omega arith) chunk
    ∙ stuck fuel {q = q'} xs valid t refl more
  where
    q' : IsrQueue
    q' = moved v xs 1 (omega (arith, more)) (q.end_ix - 1)

    valid : IsValid q'
    valid = moved-IsValid v xs 1 (omega (arith, more)) (q.end_ix - 1) (omega (arith, v.head_in))

    chunk : push_chunk q xs 1 ≡ (0, q')
    chunk = unfold push_chunk in ground (arith, t, h, v.head_in)

-- From another head the first round fills the storage and leaves bytes over.
hangs_later :
    (fuel : ℕ) {q : IsrQueue} (xs : List ℕ)
    → IsValid q
    → q.tail_ix ≡ 0
    → q.head_ix ≢ q.end_ix - 1
    → room q < length xs
    → push_loop fuel q xs ≡ none
unfolding push_loop
hangs_later zero xs v t h more = refl
hangs_later (suc fuel) {q} xs v t h more =
    round fuel q xs c (c - 1) q' (omega (arith, more)) (size.0 ∙ omega (arith, enough))
      (omega (arith, v.head_in)) chunk
    ∙ stuck fuel {q = q'} (drop (c - 1) xs) valid t refl
        (omega (arith, length-drop (c - 1) xs, enough, h, v.head_in))
  where
    c : ℕ
    c = q.end_ix - q.head_ix

    size :
        (push_size q (length xs) ≡ min (length xs) c)
        × (room q ≡ q.end_ix - 1 - (q.head_ix - q.tail_ix))
    size = size_straight v (length xs) (omega (arith, t))

    enough : c ≤ length xs
    enough = omega (arith, size.1, more, t)

    q' : IsrQueue
    q' = moved v xs c enough (q.end_ix - 1)

    valid : IsValid q'
    valid = moved-IsValid v xs c enough (q.end_ix - 1) (omega (arith, v.head_in))

    chunk : push_chunk q xs c ≡ (c - 1, q')
    chunk = unfold push_chunk in ground (arith, t, h, v.head_in)

-- With `tail_ix` 0 and more bytes than there is room for, `isr_queue_push` never returns.
pub push_hangs :
    {q : IsrQueue} (xs : List ℕ)
    → IsValid q
    → q.tail_ix ≡ 0
    → room q < length xs
    → (fuel : ℕ) → push fuel q xs ≡ none
unfolding push
push_hangs {q} xs v t more fuel =
    ap (Option.map (push_rest xs)) (elim (ℕ_discrete q.head_ix (q.end_ix - 1)) [
      | yes h ↦ stuck fuel xs v t h (omega (arith, more))
      | no h ↦ hangs_later fuel xs v t h more
    ])

push_rest_keeps :
    (xs rest : List ℕ) (q : IsrQueue)
    → q.overwrite ≡ false
    → push_rest xs (rest, q) ≡ (length xs - length rest, q)
unfolding push_rest
push_rest_keeps xs rest q mode = ground arith

-- Without `overwrite`, and unless `tail_ix` is 0 and the bytes do not fit, `isr_queue_push` returns
-- within three rounds: it stores the bytes for which there is room behind the others, returns their
-- number, and keeps the invariant.
pub push_keeps :
    (fuel : ℕ) {q : IsrQueue} (xs : List ℕ)
    → IsValid q
    → q.overwrite ≡ false
    → (0 < q.tail_ix) ⊎ (length xs ≤ room q)
    → (q' : IsrQueue) × (push (suc (suc (suc fuel))) q xs ≡ some (min (length xs) (room q), q'))
      × (contents q' ≡ contents q ++ take (room q) xs)
      × IsValid q'
unfolding push
push_keeps fuel {q} xs v mode o = (
  p.after,
  ap (Option.map (push_rest xs)) p.returns
      ∙ ap some (
          push_rest_keeps xs (drop (room q) xs) p.after (p.same_mode ∙ mode)
          ∙ ap (λ (t : ℕ). (t, p.after)) count_taken),
  p.held,
  p.valid,
)
  where
    p : IsPushed q xs (push_loop (suc (suc (suc fuel))) q xs)
    p = push_loop-IsPushed fuel xs v o

    count_taken : length xs - length (drop (room q) xs) ≡ min (length xs) (room q)
    count_taken = omega (arith, length-drop (room q) xs)
