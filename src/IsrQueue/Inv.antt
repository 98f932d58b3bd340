-- ===== src/IsrQueue/Inv.antt =====
-- The bytes that a queue holds, and its invariant. Two lemmas say what moving the indices does: a
-- chunk stored at the head, and a chunk taken at the tail.
use cstone.Prelude.{
  ℕ, ◌+◌, ◌-◌, ◌^◌, ◌≤◌, ◌<◌, ◌≡◌, sym, ap, ap₂, ◌∙◌, ◌⊎◌, inl, inr, false, List, ◌++◌, arith, leb,
  if◌then◌else◌, length, length-append, Bool-cases, leb→le,
}
use mathlib.Core.List.{append_assoc, append-nil}
use cstone.IsrQueue.{IsrQueue, memcpy, slice, count, pop_next}
use cstone.IsrQueue.Slice.{length-slice, slice-add, slice-memcpy_outside, slice-memcpy_behind}

pub record IsValid (q : IsrQueue) : Type 0 where
  pub storage : length q.queue ≡ q.end_ix
  pub fits : q.end_ix < 2 ^ 32
  pub head_in : q.head_ix < q.end_ix
  pub tail_in : q.tail_ix < q.end_ix

-- The bytes from the tail up to the head, round the end of the storage.
unfoldable pub bytes : List ℕ → ℕ → ℕ → ℕ → List ℕ
bytes queue end head tail =
    if leb tail head
    then slice queue tail (head - tail)
    else slice queue tail (end - tail) ++ slice queue 0 head

abbrev pub contents : IsrQueue → List ℕ
contents q = bytes q.queue q.end_ix q.head_ix q.tail_ix

module _ (queue : List ℕ) (end head tail : ℕ) where
  pub bytes_straight : tail ≤ head → bytes queue end head tail ≡ slice queue tail (head - tail)
  unfolding bytes
  bytes_straight p = ground arith

  pub bytes_wrapped :
      head < tail → bytes queue end head tail ≡ slice queue tail (end - tail) ++ slice queue 0 head
  unfolding bytes
  bytes_wrapped p = ground arith

module _ {q : IsrQueue} (v : IsValid q) where
  open q use {queue, end_ix, head_ix, tail_ix}

  -- `isr_queue_count` counts them.
  pub count-eq : count q ≡ length (contents q)
  unfolding count
  count-eq = elim (Bool-cases (leb tail_ix head_ix)) [
    | inl straight ↦
        rw (straight, bytes_straight queue end_ix head_ix tail_ix (leb→le tail_ix head_ix straight))
          (sym
            (length-slice queue tail_ix (head_ix - tail_ix) (omega (arith, v.storage, v.head_in))))
    | inr wrapped ↦
        rw (wrapped, bytes_wrapped queue end_ix head_ix tail_ix (ground arith))
          (ground (
            arith,
            length-append (slice queue tail_ix (end_ix - tail_ix)) (slice queue 0 head_ix),
            length-slice queue tail_ix (end_ix - tail_ix),
            length-slice queue 0 head_ix,
          ))
  ]

  -- A chunk stored at the head stands behind the bytes that were there.
  pub store :
      (ys : List ℕ)
      → head_ix + length ys < end_ix
      → (tail_ix ≤ head_ix) ⊎ (head_ix + length ys < tail_ix)
      → bytes (memcpy queue head_ix ys) end_ix (head_ix + length ys) tail_ix ≡ contents q ++ ys
  store ys room (inl straight) =
      bytes_straight (memcpy queue head_ix ys) end_ix (head_ix + length ys) tail_ix (omega arith)
      ∙ ap (slice (memcpy queue head_ix ys) tail_ix) sum
      ∙ slice-memcpy_behind queue tail_ix (head_ix - tail_ix) head_ix ys (omega arith)
          (omega (arith, v.storage))
      ∙ ap (λ t. t ++ ys) (sym (bytes_straight queue end_ix head_ix tail_ix straight))
    where
      sum : head_ix + length ys - tail_ix ≡ head_ix - tail_ix + length ys
      sum = omega arith
  store ys room (inr wrapped) =
      bytes_wrapped (memcpy queue head_ix ys) end_ix (head_ix + length ys) tail_ix wrapped
      ∙ ap₂ ◌++◌
          (slice-memcpy_outside queue tail_ix (end_ix - tail_ix) head_ix ys (inr (omega arith)))
          (slice-memcpy_behind queue 0 head_ix head_ix ys (omega arith) (omega (arith, v.storage)))
      ∙ sym (append_assoc (slice queue tail_ix (end_ix - tail_ix)) (slice queue 0 head_ix) ys)
      ∙ ap (λ t. t ++ ys) (sym (bytes_wrapped queue end_ix head_ix tail_ix (omega arith)))

  -- So does a chunk that reaches the end of the storage, where the head starts anew.
  pub store_wrap :
      (ys : List ℕ)
      → head_ix + length ys ≡ end_ix
      → 0 < tail_ix
      → tail_ix ≤ head_ix
      → bytes (memcpy queue head_ix ys) end_ix 0 tail_ix ≡ contents q ++ ys
  store_wrap ys e p straight =
      bytes_wrapped (memcpy queue head_ix ys) end_ix 0 tail_ix p
      ∙ append-nil (slice (memcpy queue head_ix ys) tail_ix (end_ix - tail_ix))
      ∙ ap (slice (memcpy queue head_ix ys) tail_ix) sum
      ∙ slice-memcpy_behind queue tail_ix (head_ix - tail_ix) head_ix ys (omega arith)
          (omega (arith, v.storage))
      ∙ ap (λ t. t ++ ys) (sym (bytes_straight queue end_ix head_ix tail_ix straight))
    where
      sum : end_ix - tail_ix ≡ head_ix - tail_ix + length ys
      sum = omega arith

  -- A chunk at the tail that lies in one piece is what the queue holds first.
  pub advance :
      (chunk : ℕ)
      → (tail_ix + chunk ≤ head_ix) ⊎ ((head_ix < tail_ix) × (tail_ix + chunk ≤ end_ix))
      → contents q ≡ slice queue tail_ix chunk ++ contents (pop_next q chunk)
  unfolding pop_next
  advance chunk (inl straight) =
      bytes_straight queue end_ix head_ix tail_ix (omega arith)
      ∙ ap (slice queue tail_ix) sum
      ∙ slice-add queue tail_ix chunk (head_ix - (tail_ix + chunk))
      ∙ ap (λ t. slice queue tail_ix chunk ++ t)
          (rw stays (sym (bytes_straight queue end_ix head_ix (tail_ix + chunk) straight)))
    where
      sum : head_ix - tail_ix ≡ chunk + (head_ix - (tail_ix + chunk))
      sum = omega arith

      stays : leb end_ix (tail_ix + chunk) ≡ false
      stays = ground (arith, v.head_in)
  advance chunk (inr (wrapped, room)) =
      bytes_wrapped queue end_ix head_ix tail_ix wrapped
      ∙ ap (λ t. t ++ slice queue 0 head_ix)
          (ap (slice queue tail_ix) sum
            ∙ slice-add queue tail_ix chunk (end_ix - (tail_ix + chunk)))
      ∙ append_assoc (slice queue tail_ix chunk)
          (slice queue (tail_ix + chunk) (end_ix - (tail_ix + chunk))) (slice queue 0 head_ix)
      ∙ ap (λ t. slice queue tail_ix chunk ++ t)
          (elim (Bool-cases (leb end_ix (tail_ix + chunk))) [
            | inl reaches ↦ rw reaches (
                let spent : end_ix - (tail_ix + chunk) ≡ 0 = ground arith in
                ap (λ (t : ℕ). slice queue (tail_ix + chunk) t ++ slice queue 0 head_ix) spent
                ∙ ap (slice queue 0) (let e : head_ix ≡ head_ix - 0 = omega arith in e)
                ∙ sym (bytes_straight queue end_ix head_ix 0 (omega arith)))
            | inr stays ↦
                rw stays (sym (bytes_wrapped queue end_ix head_ix (tail_ix + chunk) (omega arith)))
          ])
    where
      sum : end_ix - tail_ix ≡ chunk + (end_ix - (tail_ix + chunk))
      sum = omega arith
