-- ===== src/IsrQueue/Rounds.antt =====
-- Single rounds of the loop of `isr_queue_push`.
use cstone.Prelude.{
  ℕ, suc, ◌+◌, ◌-◌, ◌≤◌, ◌<◌, min, ◌≡◌, ◌≢◌, refl, sym, ap, ◌∙◌, ◌⊎◌, inl, inr, Option, some, List,
  [], ◌++◌, arith, length, take, drop, length-take, take-nil, drop-nil, take_all, drop_all, dec_lt,
}
use mathlib.Core.List.{append-nil}
use cstone.IsrQueue.{IsrQueue, memcpy, count, push_size, push_chunk, push_loop}
use cstone.IsrQueue.Slice.{length-memcpy}
use cstone.IsrQueue.Inv.{IsValid, bytes, contents, store, store_wrap}

-- The number of bytes for which there is room.
abbrev pub room : IsrQueue → ℕ
room q = q.end_ix - 1 - count q

-- What a loop that ends has done, started at `q` with `xs` to store.
pub record IsPushed (q : IsrQueue) (xs : List ℕ) (result : Option (List ℕ × IsrQueue))
    : Type 0 where
  pub after : IsrQueue
  pub returns : result ≡ some (drop (room q) xs, after)
  pub valid : IsValid after
  pub held : contents after ≡ contents q ++ take (room q) xs
  pub same_end : after.end_ix ≡ q.end_ix
  pub same_mode : after.overwrite ≡ q.overwrite

module _ {q : IsrQueue} (v : IsValid q) (xs : List ℕ) (c : ℕ) (enough : c ≤ length xs) where
  open q use {queue, end_ix, head_ix, tail_ix}

  abbrev pub moved : ℕ → IsrQueue
  moved head = record q { queue = memcpy queue head_ix (take c xs); head_ix = head }

  taken : length (take c xs) ≡ c
  taken = omega (arith, length-take c xs)

  pub moved-IsValid : (head : ℕ) → head < end_ix → IsValid (moved head)
  moved-IsValid head p = record {
    storage = length-memcpy queue head_ix (take c xs) ∙ v.storage;
    fits = v.fits;
    head_in = p;
    tail_in = v.tail_in;
  }

  -- A round that ends inside the storage.
  pub chunk_inside :
      head_ix + c < end_ix
      → (tail_ix ≤ head_ix) ⊎ (head_ix + c < tail_ix)
      → (push_chunk q xs c ≡ (c, moved (head_ix + c)))
        × (contents (moved (head_ix + c)) ≡ contents q ++ take c xs)
  unfolding push_chunk
  chunk_inside p o = (
    ground (arith, p),
    ap (λ (t : ℕ). bytes (memcpy queue head_ix (take c xs)) end_ix (head_ix + t) tail_ix)
          (sym taken)
        ∙ store v (take c xs) (omega (arith, taken)) (shifted o),
  )
    where
      shifted :
          (tail_ix ≤ head_ix) ⊎ (head_ix + c < tail_ix)
          → (tail_ix ≤ head_ix) ⊎ (head_ix + length (take c xs) < tail_ix)
      shifted (inl l) = inl l
      shifted (inr r) = inr (omega (arith, taken))

  -- A round up to the end of the storage.
  pub chunk_wrap :
      head_ix + c ≡ end_ix
      → 0 < tail_ix
      → tail_ix ≤ head_ix
      → (push_chunk q xs c ≡ (c, moved 0)) × (contents (moved 0) ≡ contents q ++ take c xs)
  unfolding push_chunk
  chunk_wrap p o straight =
      (ground (arith, p), store_wrap v (take c xs) (omega (arith, taken)) o straight)

module _ (fuel : ℕ) (q : IsrQueue) (xs : List ℕ) where
  pub stop :
      (length xs ≡ 0) ⊎ (push_size q (length xs) ≡ 0) → push_loop (suc fuel) q xs ≡ some (xs, q)
  unfolding push_loop
  stop (inl e) = rw e
  stop (inr e) = rw e (ground arith)

  pub round :
      (c d : ℕ) (q' : IsrQueue)
      → length xs ≢ 0
      → push_size q (length xs) ≡ c
      → c ≢ 0
      → push_chunk q xs c ≡ (d, q')
      → push_loop (suc fuel) q xs ≡ push_loop fuel q' (drop d xs)
  unfolding push_loop
  round c d q' more size ne chunk = rw (size, chunk) (ground (arith, more, ne))

module _ {q : IsrQueue} (v : IsValid q) where
  pub size_wrapped :
      (n : ℕ)
      → q.head_ix < q.tail_ix
      → (push_size q n ≡ min n (room q)) × (room q ≡ q.tail_ix - 1 - q.head_ix)
  unfolding push_size count
  size_wrapped n p = ground (arith, v.tail_in)

  pub size_straight :
      (n : ℕ)
      → q.tail_ix ≤ q.head_ix
      → (push_size q n ≡ min n (q.end_ix - q.head_ix))
        × (room q ≡ q.end_ix - 1 - (q.head_ix - q.tail_ix))
  unfolding push_size count
  size_straight n p = ground (arith, v.head_in)

  -- The loop that ends at once, with nothing to store or no room.
  pub nothing-IsPushed :
      (fuel : ℕ) (xs : List ℕ)
      → (length xs ≡ 0) ⊎ ((room q ≡ 0) × (push_size q (length xs) ≡ 0))
      → IsPushed q xs (push_loop (suc fuel) q xs)
  nothing-IsPushed fuel xs o = record {
    after = q;
    returns = stop fuel q xs (reason o) ∙ ap (λ t. some (t, q)) (sym (rest o));
    valid = v;
    held = sym (ap (λ t. contents q ++ t) (none_taken o) ∙ append-nil (contents q));
    same_end = refl;
    same_mode = refl;
  }
    where
      reason :
          (length xs ≡ 0) ⊎ ((room q ≡ 0) × (push_size q (length xs) ≡ 0))
          → (length xs ≡ 0) ⊎ (push_size q (length xs) ≡ 0)
      reason (inl e) = inl e
      reason (inr e) = inr e.1

      nil : length xs ≡ 0 → xs ≡ []
      nil e = drop_all 0 xs (omega (arith, e))

      rest :
          (length xs ≡ 0) ⊎ ((room q ≡ 0) × (push_size q (length xs) ≡ 0)) → drop (room q) xs ≡ xs
      rest (inl e) = rw (nil e) (drop-nil ℕ (room q))
      rest (inr e) = rw e.0

      none_taken :
          (length xs ≡ 0) ⊎ ((room q ≡ 0) × (push_size q (length xs) ≡ 0)) → take (room q) xs ≡ []
      none_taken (inl e) = rw (nil e) (take-nil ℕ (room q))
      none_taken (inr e) = rw e.0

  -- A last round that copies `c` bytes, all of them or all for which there is room.
  pub last-IsPushed :
      (fuel : ℕ) (xs : List ℕ) (c : ℕ) (q' : IsrQueue)
      → length xs ≢ 0
      → c ≢ 0
      → c ≡ min (length xs) (room q)
      → push_size q (length xs) ≡ c
      → push_chunk q xs c ≡ (c, q')
      → (length (drop c xs) ≡ 0) ⊎ (push_size q' (length (drop c xs)) ≡ 0)
      → IsValid q'
      → contents q' ≡ contents q ++ take c xs
      → q'.end_ix ≡ q.end_ix
      → q'.overwrite ≡ q.overwrite
      → IsPushed q xs (push_loop (suc (suc fuel)) q xs)
  last-IsPushed fuel xs c q' more ne least size chunk ends valid held same_end same_mode = record {
    after = q';
    returns =
        round (suc fuel) q xs c c q' more size ne chunk
        ∙ stop fuel q' (drop c xs) ends
        ∙ ap (λ t. some (t, q')) same_rest;
    valid = valid;
    held = held ∙ ap (λ t. contents q ++ t) same_taken;
    same_end = same_end;
    same_mode = same_mode;
  }
    where
      same_rest : drop c xs ≡ drop (room q) xs
      same_rest = elim (dec_lt (length xs) (room q)) [
        | yes p ↦ drop_all c xs (omega (arith, least)) ∙ sym (drop_all (room q) xs (omega arith))
        | no p ↦ ap (λ (t : ℕ). drop t xs) (omega (arith, least, p))
      ]

      same_taken : take c xs ≡ take (room q) xs
      same_taken = elim (dec_lt (length xs) (room q)) [
        | yes p ↦ take_all c xs (omega (arith, least)) ∙ sym (take_all (room q) xs (omega arith))
        | no p ↦ ap (λ (t : ℕ). take t xs) (omega (arith, least, p))
      ]
