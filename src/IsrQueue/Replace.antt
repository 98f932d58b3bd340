-- ===== src/IsrQueue/Replace.antt =====
-- `isr_queue_push` with `overwrite`: the bytes that do not fit replace the oldest.
use cstone.Prelude.{
  ℕ, suc, ◌+◌, ◌-◌, ◌≤◌, ◌<◌, ◌≡◌, refl, sym, ap, ◌∙◌, ◌⊎◌, true, some, List, [], ◌∷◌, ◌++◌, arith,
  length, take, drop, length-append, length-take, take-append-drop,
}
use mathlib.Core.List.{append_assoc, append-nil}
use cstone.IsrQueue.{IsrQueue, count, push_loop, push_rest, push, overwrite_loop, push_one}
use cstone.IsrQueue.Inv.{IsValid, contents, count-eq}
use cstone.IsrQueue.Single.{push_one-IsValid, push_one-Fifo}
use cstone.IsrQueue.Fifo
use mathlib.Core.Option
use cstone.IsrQueue.Push.{push_loop-IsPushed}
use cstone.IsrQueue.Rounds.{room, IsPushed}

push_one_same :
    (q : IsrQueue) (x : ℕ)
    → ((push_one q x).1.end_ix ≡ q.end_ix) × ((push_one q x).1.overwrite ≡ q.overwrite)
unfolding push_one
push_one_same q x = ground arith

push_one_overwrites : (q : IsrQueue) (x : ℕ) → q.overwrite ≡ true → (push_one q x).0 ≡ 1
unfolding push_one
push_one_overwrites q x mode = ground arith

-- What the loop that overwrites has done to the bytes held.
abbrev Replaced : IsrQueue → List ℕ → List ℕ × IsrQueue → Type 0
Replaced q xs result =
    (result.0 ≡ [])
    × (contents result.1 ≡ Fifo.push_all (q.end_ix - 1) (contents q) xs)
    × IsValid result.1

overwrite_loop_cons :
    {q : IsrQueue} (x : ℕ) (xs : List ℕ) {result : List ℕ × IsrQueue}
    → IsValid q
    → q.overwrite ≡ true
    → Replaced (push_one q x).1 xs result
    → Replaced q (x ∷ xs) result
unfolding Fifo.push_all
overwrite_loop_cons {q} x xs v mode h = (
  h.0,
  h.1
      ∙ ap (λ (t : ℕ). Fifo.push_all (t - 1) (contents (push_one q x).1) xs) (push_one_same q x).0
      ∙ ap (λ c. Fifo.push_all (q.end_ix - 1) c xs)
          (ap (λ (t : ℕ × List ℕ). t.1) (push_one-Fifo x v)
            ∙ ap (λ b. (Fifo.push (q.end_ix - 1) b (contents q) x).1) mode),
  h.2,
)

overwrite_loop_lem :
    (xs : List ℕ) {q : IsrQueue}
    → IsValid q
    → q.overwrite ≡ true
    → Replaced q xs (overwrite_loop q xs)
unfolding overwrite_loop Fifo.push_all
overwrite_loop_lem [] v mode = (refl, refl, v)
overwrite_loop_lem (x ∷ xs) {q} v mode = rw (push_one_overwrites q x mode) (
    overwrite_loop_cons x xs v mode (
      overwrite_loop_lem xs {q = (push_one q x).1} (push_one-IsValid x v)
        ((push_one_same q x).1 ∙ mode)))

-- As long as they fit, bytes are put behind the others.
push_all_room :
    (limit : ℕ) (xs ys zs : List ℕ)
    → length xs + length ys ≤ limit
    → Fifo.push_all limit xs (ys ++ zs) ≡ Fifo.push_all limit (xs ++ ys) zs
unfolding Fifo.push_all
push_all_room limit xs [] zs p = ap (λ t. Fifo.push_all limit t zs) (sym (append-nil xs))
push_all_room limit xs (y ∷ ys) zs p =
    ap (λ t. Fifo.push_all limit t (ys ++ zs)) (put_behind)
    ∙ push_all_room limit (xs ++ (y ∷ [])) ys zs (omega (arith, p, length-append xs (y ∷ [])))
    ∙ ap (λ t. Fifo.push_all limit t zs) (append_assoc xs (y ∷ []) ys)
  where
    put_behind : (Fifo.push limit true xs y).1 ≡ xs ++ (y ∷ [])
    put_behind = unfold Fifo.push in ground (arith, p)

-- Whether any are left or not, the bytes left go through the loop that overwrites.
push_rest_eq :
    (xs rest : List ℕ) (q : IsrQueue)
    → q.overwrite ≡ true
    → (overwrite_loop q rest).0 ≡ []
    → push_rest xs (rest, q) ≡ (length xs, (overwrite_loop q rest).1)
push_rest_eq xs [] q mode none_left = unfold push_rest overwrite_loop in ground arith
push_rest_eq xs (x ∷ rest) q mode none_left = unfold push_rest in ground arith

count_le : {q : IsrQueue} → IsValid q → count q ≤ q.end_ix - 1
unfolding count
count_le v = ground (arith, v.head_in, v.tail_in)

-- With `overwrite`, and unless `tail_ix` is 0 and the bytes do not fit, `isr_queue_push` takes all
-- bytes, stored one after the other as `Fifo` does, so that the newest remain.
pub push_replaces :
    (fuel : ℕ) {q : IsrQueue} (xs : List ℕ)
    → IsValid q
    → q.overwrite ≡ true
    → (0 < q.tail_ix) ⊎ (length xs ≤ room q)
    → (q' : IsrQueue) × (push (suc (suc (suc fuel))) q xs ≡ some (length xs, q'))
      × (contents q' ≡ Fifo.push_all (q.end_ix - 1) (contents q) xs)
      × IsValid q'
unfolding push
push_replaces fuel {q} xs v mode o = (
  (overwrite_loop p.after rest).1,
  ap (Option.map (push_rest xs)) p.returns
      ∙ ap some (push_rest_eq xs rest p.after (p.same_mode ∙ mode) l.0),
  l.1 ∙ stored,
  l.2,
)
  where
    p : IsPushed q xs (push_loop (suc (suc (suc fuel))) q xs)
    p = push_loop-IsPushed fuel xs v o

    rest : List ℕ
    rest = drop (room q) xs

    l : Replaced p.after rest (overwrite_loop p.after rest)
    l = overwrite_loop_lem rest p.valid (p.same_mode ∙ mode)

    limit : ℕ
    limit = q.end_ix - 1

    stored :
        Fifo.push_all (p.after.end_ix - 1) (contents p.after) rest
        ≡ Fifo.push_all limit (contents q) xs
    stored =
        ap (λ (t : ℕ). Fifo.push_all (t - 1) (contents p.after) rest) p.same_end
        ∙ ap (λ c. Fifo.push_all limit c rest) p.held
        ∙ sym (
            push_all_room limit (contents q) (take (room q) xs) rest
              (omega (arith, length-take (room q) xs, count-eq v, count_le v)))
        ∙ ap (Fifo.push_all limit (contents q)) (take-append-drop (room q) xs)
