-- ===== src/IsrQueue.antt =====
-- src/isr_queue.c and include/cstone/isr_queue.h: the byte queue between interrupt handlers and tasks.
-- Every function is here as one call that no other call interrupts. `size_t` has 32 bits, as on the
-- embedded targets. The elements of a call stand in a list, which carries their number.
pub mod Fifo
pub mod Slice
pub mod Inv
pub mod Single
pub mod Rounds
pub mod Push
pub mod Replace
pub mod Pop
pub mod Observe
mod Examples
use Prim.Native.Nat.{ℕ, zero, suc, ◌+◌, ◌-◌, ◌%◌}
use cstone.Prelude.{
  Bool, true, false, not, Option, none, some, List, [], ◌∷◌, ◌++◌, ltb, leb, ◌==◌, if◌then◌else◌,
  length, get_or, set, take, drop, replicate, u32, ◌&&◌,
}
use mathlib.Core.Option

-- `IsrQueue`. `queue` is the storage of `end_ix` bytes. The slot at `head_ix` is never in use.
pub record IsrQueue : Type 0 where
  pub queue : List ℕ
  pub end_ix : ℕ
  pub head_ix : ℕ
  pub tail_ix : ℕ
  pub overwrite : Bool

-- `INC_MODULO`
unfoldable pub inc_modulo : ℕ → ℕ → ℕ
inc_modulo val mod_ix = let val' = u32 (val + 1) in if val' == mod_ix then 0 else val'

-- `memcpy(&queue[i], elements, ...)`. A write past the end of the storage changes nothing here; the
-- invariant excludes it.
unfoldable pub memcpy : List ℕ → ℕ → List ℕ → List ℕ
memcpy queue i [] = queue
memcpy queue i (x ∷ xs) = memcpy (set queue i x) (i + 1) xs

-- `n` bytes from index `i` on.
abbrev pub slice : List ℕ → ℕ → ℕ → List ℕ
slice queue i n = take n (drop i queue)

-- `atomic_compare_exchange_strong`, for its effect on the variable.
abbrev pub compare_exchange : ℕ → ℕ → ℕ → ℕ
compare_exchange current expected desired = if current == expected then desired else current

pub init : List ℕ → ℕ → Bool → IsrQueue
init buf buf_size overwrite = record {
  queue = replicate buf_size 0 ++ drop buf_size buf;
  end_ix = buf_size;
  head_ix = 0;
  tail_ix = 0;
  overwrite = overwrite;
}

-- `ROUND_UP_ALIGN`, with the alignment of the type as a number.
pub round_up_align : ℕ → ℕ → ℕ
round_up_align n align = n + align - 1 - (n + align - 1) % align

-- `isr_queue_alloc`. `memory` is what `cs_malloc` returned: nothing, or the storage behind the padded
-- structure.
pub alloc : Option (List ℕ) → ℕ → Bool → Option IsrQueue
alloc memory buf_size overwrite = Option.map (λ buf. init buf buf_size overwrite) memory

-- The result and the queue after the call.
pub push_one : IsrQueue → ℕ → ℕ × IsrQueue
unfolding inc_modulo
push_one q element =
    let next = inc_modulo q.head_ix q.end_ix in
    let stored = record q { queue = set q.queue q.head_ix element; head_ix = next } in
    if not (next == q.tail_ix)
    then (1, stored)
    else if q.overwrite
    then (
      1,
      record stored {
        tail_ix = compare_exchange q.tail_ix q.tail_ix (inc_modulo q.tail_ix q.end_ix);
      },
    )
    else (0, q)

-- The result, the byte stored through `element`, and the queue after the call.
pub pop_one : IsrQueue → ℕ × Option ℕ × IsrQueue
unfolding inc_modulo
pop_one q =
    if not (q.tail_ix == q.head_ix)
    then (
      1,
      some (get_or q.queue q.tail_ix 0),
      record q { tail_ix = inc_modulo q.tail_ix q.end_ix },
    )
    else (0, none, q)

pub count : IsrQueue → ℕ
count q =
    if leb q.tail_ix q.head_ix then q.head_ix - q.tail_ix else q.end_ix - (q.tail_ix - q.head_ix)

-- One round of the loop of `isr_queue_push`: the number of bytes to copy.
pub push_size : IsrQueue → ℕ → ℕ
push_size q remaining =
    let room =
      if leb q.tail_ix q.head_ix then q.end_ix - q.head_ix else q.tail_ix - 1 - q.head_ix in
    if ltb remaining room then remaining else room

-- The rest of a round that copies: the bytes that it consumed, and the queue.
pub push_chunk : IsrQueue → List ℕ → ℕ → ℕ × IsrQueue
unfolding memcpy
push_chunk q elements copy_size =
    let queue = memcpy q.queue q.head_ix (take copy_size elements) in
    let next = q.head_ix + copy_size in
    if leb q.end_ix next
    then if not (q.tail_ix == 0)
      then (copy_size, record q { queue = queue; head_ix = 0 })
      else (copy_size - 1, record q { queue = queue; head_ix = q.end_ix - 1 })
    else (copy_size, record q { queue = queue; head_ix = next })

-- The loop, on fuel: what is left of the elements, and the queue. `none` means that the fuel ran out.
pub push_loop : ℕ → IsrQueue → List ℕ → Option (List ℕ × IsrQueue)
unfolding push_size push_chunk
push_loop zero q elements = none
push_loop (suc fuel) q elements =
    let copy_size = push_size q (length elements) in
    let (copied, q') = push_chunk q elements copy_size in
    let rest = push_loop fuel q' (drop copied elements) in
    if length elements == 0
    then some (elements, q)
    else if copy_size == 0
    then some (elements, q)
    else rest

-- The loop that overwrites: what is left of the elements, and the queue.
pub overwrite_loop : IsrQueue → List ℕ → List ℕ × IsrQueue
unfolding push_one
overwrite_loop q [] = ([], q)
overwrite_loop q (x ∷ rest) =
    let (pushed, q') = push_one q x in
    let more = overwrite_loop q' rest in if pushed == 0 then (x ∷ rest, q') else more

-- What follows the loop: with `overwrite` the elements that are left replace the oldest. The number of
-- elements taken, and the queue.
pub push_rest : List ℕ → List ℕ × IsrQueue → ℕ × IsrQueue
push_rest elements (rest, q) =
    let (left, q') =
      (if q.overwrite && ltb 0 (length rest) then overwrite_loop q rest else (rest, q)) in
    (length elements - length left, q')

pub push : ℕ → IsrQueue → List ℕ → Option (ℕ × IsrQueue)
push fuel q elements = Option.map (push_rest elements) (push_loop fuel q elements)

-- One round of `isr_queue_pop` and `isr_queue_discard`: the chunk that it takes.
pub pop_size : IsrQueue → ℕ → ℕ
pop_size q wanted =
    let chunk = if leb q.tail_ix q.head_ix then q.head_ix - q.tail_ix else q.end_ix - q.tail_ix in
    if ltb wanted chunk then wanted else chunk

pub pop_next : IsrQueue → ℕ → IsrQueue
pop_next q chunk =
    let next = q.tail_ix + chunk in record q { tail_ix = if leb q.end_ix next then 0 else next }

-- The loop of `isr_queue_pop`, with the bytes that it stores through `elements`.
pub pop_loop : ℕ → IsrQueue → ℕ → Option (List ℕ × IsrQueue)
pop_loop zero q wanted = none
pop_loop (suc fuel) q wanted =
    let chunk = pop_size q wanted in
    let rest = pop_loop fuel (pop_next q chunk) (wanted - chunk) in
    if wanted == 0
    then some ([], q)
    else if q.head_ix == q.tail_ix
    then some ([], q)
    else Option.map (λ r. (slice q.queue q.tail_ix chunk ++ r.0, r.1)) rest

pub pop : ℕ → IsrQueue → ℕ → Option (List ℕ × IsrQueue)
pop fuel q elements_size =
    pop_loop fuel q (if ltb (count q) elements_size then count q else elements_size)

-- The loop of `isr_queue_discard`, which counts instead of copying.
pub discard_loop : ℕ → IsrQueue → ℕ → Option (ℕ × IsrQueue)
discard_loop zero q wanted = none
discard_loop (suc fuel) q wanted =
    let chunk = pop_size q wanted in
    let rest = discard_loop fuel (pop_next q chunk) (wanted - chunk) in
    if wanted == 0
    then some (0, q)
    else if q.head_ix == q.tail_ix
    then some (0, q)
    else Option.map (λ r. (chunk + r.0, r.1)) rest

pub discard : ℕ → IsrQueue → ℕ → Option (ℕ × IsrQueue)
discard fuel q discard_num =
    discard_loop fuel q (if ltb (count q) discard_num then count q else discard_num)

pub peek_one : IsrQueue → Option ℕ
peek_one q = if not (q.tail_ix == q.head_ix) then some (get_or q.queue q.tail_ix 0) else none

-- `isr_queue_peek`: the bytes behind the pointer that it sets, as many as it returns. The null pointer
-- of the empty queue has none.
pub peek : IsrQueue → List ℕ
peek q =
    if ltb q.tail_ix q.head_ix
    then slice q.queue q.tail_ix (q.head_ix - q.tail_ix)
    else if ltb q.head_ix q.tail_ix
    then slice q.queue q.tail_ix (q.end_ix - q.tail_ix)
    else []

pub flush : IsrQueue → IsrQueue
flush q = record q { tail_ix = 0; head_ix = 0 }

pub is_full : IsrQueue → Bool
unfolding inc_modulo
is_full q = inc_modulo q.head_ix q.end_ix == q.tail_ix

pub is_empty : IsrQueue → Bool
is_empty q = q.head_ix == q.tail_ix
