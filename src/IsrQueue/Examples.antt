-- ===== src/IsrQueue/Examples.antt =====
-- Runs of the queue of src/isr_queue.c on small storages, and the theorems about it at them.
use cstone.Prelude.{
  ◌≡◌, refl, inl, true, false, none, some, [], ◌∷◌, arith, length, take, drop, min, ◌-◌, ◌++◌,
}
use cstone.IsrQueue.{
  IsrQueue, memcpy, init, push_one, pop_one, count, push_size, push_chunk, push_loop, push_rest,
  overwrite_loop, push, pop_size, pop_next, pop_loop, pop, discard,
}
use mathlib.Core.Option
use cstone.IsrQueue.Fifo
use cstone.IsrQueue.Inv.{IsValid, bytes, contents}
use cstone.IsrQueue.Single.{push_one_refines, pop_one_refines}
use cstone.IsrQueue.Push.{push_hangs, push_keeps}
use cstone.IsrQueue.Replace.{push_replaces}
use cstone.IsrQueue.Pop.{pop_takes, discard-pop}

abbrev fresh : IsrQueue
fresh = record {
  queue = 0 ∷ 0 ∷ 0 ∷ 0 ∷ [];
  end_ix = 4;
  head_ix = 0;
  tail_ix = 0;
  overwrite = false;
}

-- 7, 8 and 9, round the end of the storage: full.
abbrev wrapped : IsrQueue
wrapped = record {
  queue = 8 ∷ 9 ∷ 5 ∷ 7 ∷ [];
  end_ix = 4;
  head_ix = 2;
  tail_ix = 3;
  overwrite = false;
}

abbrev replacing : IsrQueue
replacing = record wrapped { overwrite = true }

init-fresh : init [] 4 false ≡ fresh
unfolding init
init-fresh = refl

contents-wrapped : contents wrapped ≡ 7 ∷ 8 ∷ 9 ∷ []
unfolding bytes
contents-wrapped = refl

push_one-fresh : push_one fresh 6 ≡ (1, record fresh { queue = 6 ∷ 0 ∷ 0 ∷ 0 ∷ []; head_ix = 1 })
unfolding push_one
push_one-fresh = refl

push_one-full : (push_one wrapped 6 ≡ (0, wrapped)) × ((push_one replacing 6).1.tail_ix ≡ 0)
unfolding push_one
push_one-full = (refl, refl)

push-rounds :
    push 3 (record wrapped { head_ix = 3 }) (1 ∷ 2 ∷ [])
    ≡ some (2, record wrapped { queue = 2 ∷ 9 ∷ 5 ∷ 1 ∷ []; head_ix = 1 })
unfolding push push_loop push_rest push_size push_chunk overwrite_loop push_one memcpy
push-rounds = refl

pop-rounds : pop 3 wrapped 5 ≡ some (7 ∷ 8 ∷ 9 ∷ [], record wrapped { tail_ix = 2 })
unfolding pop pop_loop pop_size pop_next count
pop-rounds = refl

fresh-IsValid : IsValid fresh
fresh-IsValid = record {
  storage = refl;
  fits = omega arith;
  head_in = omega arith;
  tail_in = omega arith;
}

wrapped-IsValid : IsValid wrapped
wrapped-IsValid = record {
  storage = refl;
  fits = omega arith;
  head_in = omega arith;
  tail_in = omega arith;
}

replacing-IsValid : IsValid replacing
replacing-IsValid = record {
  storage = refl;
  fits = omega arith;
  head_in = omega arith;
  tail_in = omega arith;
}

push_one_refines_example :
    let (n, q') = push_one replacing 6 in
    ((n, contents q') ≡ Fifo.push 3 true (contents replacing) 6) × IsValid q'
push_one_refines_example = push_one_refines {q = replacing} 6 replacing-IsValid

pop_one_refines_example :
    let (n, out, q') = pop_one wrapped in
    ((n, out, contents q') ≡ Fifo.pop (contents wrapped)) × IsValid q'
pop_one_refines_example = pop_one_refines {q = wrapped} wrapped-IsValid

push_keeps_example :
    (q' : IsrQueue) × (push 3 wrapped (1 ∷ 2 ∷ []) ≡ some (min 2 (3 - count wrapped), q'))
    × (contents q' ≡ contents wrapped ++ take (3 - count wrapped) (1 ∷ 2 ∷ []))
    × IsValid q'
push_keeps_example =
    push_keeps 0 {q = wrapped} (1 ∷ 2 ∷ []) wrapped-IsValid refl (inl (omega arith))

push_replaces_example :
    (q' : IsrQueue) × (push 3 replacing (1 ∷ 2 ∷ []) ≡ some (2, q'))
    × (contents q' ≡ Fifo.push_all 3 (contents replacing) (1 ∷ 2 ∷ []))
    × IsValid q'
push_replaces_example =
    push_replaces 0 {q = replacing} (1 ∷ 2 ∷ []) replacing-IsValid refl (inl (omega arith))

-- Five bytes for a fresh queue of four slots.
push_hangs_example : push 100 fresh (1 ∷ 2 ∷ 3 ∷ 4 ∷ 5 ∷ []) ≡ none
push_hangs_example =
    push_hangs {q = fresh} (1 ∷ 2 ∷ 3 ∷ 4 ∷ 5 ∷ []) fresh-IsValid refl (unfold count in omega arith)
      100

pop_takes_example :
    (after : IsrQueue) × (pop 3 wrapped 2 ≡ some (take 2 (contents wrapped), after))
    × IsValid after
    × (contents after ≡ drop 2 (contents wrapped))
pop_takes_example = pop_takes 0 wrapped 2 wrapped-IsValid

discard-pop_example : discard 3 wrapped 2 ≡ Option.map (λ r. (length r.0, r.1)) (pop 3 wrapped 2)
discard-pop_example = discard-pop 3 wrapped 2 wrapped-IsValid
