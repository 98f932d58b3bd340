-- ===== src/Random.antt =====
-- src/util/random.c: the xorshift generator and what is drawn from it. The state is its 64-bit word,
-- an argument and a result of each function. A rejection loop runs on fuel.
pub mod Seed
pub mod Weights
pub mod Range
pub mod Bytes
mod Examples
use cstone.Prelude.{
  ℕ, zero, suc, ◌+◌, ◌-◌, ◌*◌, ◌/◌, ◌%◌, ◌^◌, min, bit_xor, bit_and, Bool, true, false, not, Option,
  none, some, List, [], ◌∷◌, ◌++◌, ltb, leb, ◌==◌, if◌then◌else◌, length, get_or, u32, u64, ◌<<<◌,
  ◌>>>◌,
}
use cstone.Prelude.Ints.{ℤ, pos, negsuc, to_int, of_int, ltbℤ}
use mathlib.Core.Option

pub xorshift64 : ℕ → ℕ
xorshift64 s =
    let x = bit_xor s (u64 (s <<< 13)) in let y = bit_xor x (x >>> 7) in bit_xor y (u64 (y <<< 17))

-- The result and the next state.
pub splitmix64 : ℕ → ℕ × ℕ
splitmix64 s =
    let s' = u64 (s + 0x9E3779B97f4A7C15) in
    let x = u64 (bit_xor s' (s' >>> 30) * 0xBF58476D1CE4E5B9) in
    let y = u64 (bit_xor x (x >>> 27) * 0x94D049BB133111EB) in (bit_xor y (y >>> 31), s')

pub random_init : ℕ → ℕ → ℕ
random_init s seed =
    if seed == 0
    then (let mixed = bit_xor 0x123456789ABCDEF s in
        if mixed == 0 then 0x123456789ABCDEF else mixed)
    else seed

-- The result and the static `seed_state` after the call. `now` is what `time` returns.
pub random_seed_from_time : ℕ → ℕ → ℕ → ℕ × ℕ
unfolding splitmix64
random_seed_from_time now seed_state timestamp =
    splitmix64 (if seed_state == 0 then if timestamp == 0 then now else timestamp else seed_state)

-- The loop of `hash__string`. A `char` is unsigned, as on ARM.
pub hash_loop : ℕ → List ℕ → ℕ
hash_loop h [] = h
hash_loop h (c ∷ str) = hash_loop (bit_xor (u32 (h + u32 (h <<< 5))) c) str

pub hash_string : List ℕ → ℕ
unfolding hash_loop
hash_string str = hash_loop 5381 str

pub random_seed_from_str : ℕ → ℕ → List ℕ → ℕ × ℕ
unfolding random_seed_from_time hash_string
random_seed_from_str now seed_state seed = random_seed_from_time now seed_state (hash_string seed)

-- Each with the result first and the state after the call.
pub random_next64 : ℕ → ℕ × ℕ
unfolding xorshift64
random_next64 s = (xorshift64 s, xorshift64 s)

pub random_next32 : ℕ → ℕ × ℕ
unfolding xorshift64
random_next32 s = (u32 (xorshift64 s >>> 32), xorshift64 s)

-- The loop that rejects numbers from `limit` on, for numbers made of the state by `draw`.
pub reject_loop : (ℕ → ℕ) → ℕ → ℕ → ℕ → Option (ℕ × ℕ)
unfolding xorshift64
reject_loop draw zero limit s = none
reject_loop draw (suc fuel) limit s =
    let s' = xorshift64 s in
    let again = reject_loop draw fuel limit s' in
    if leb limit (draw s') then again else some (draw s', s')

-- `random_range64` and `random_range32`, for a width of `w` bits. The source takes the difference of the
-- bounds as a signed number. Where that overflows, which C leaves undefined, the definition wraps round.
pub range : (ℕ → ℕ) → ℕ → ℕ → ℕ → ℤ → ℤ → Option (ℤ × ℕ)
unfolding reject_loop
range draw w fuel s lowest highest =
    if ltbℤ highest lowest
    then some (lowest, s)
    else (let span = (of_int w highest + 2 ^ w - of_int w lowest + 1) % 2 ^ w in
        let limit = 2 ^ w - 1 - (2 ^ w - 1) % span in
        Option.map (λ r. (to_int w ((r.0 % span + of_int w lowest) % 2 ^ w), r.1))
          (reject_loop draw fuel limit s))

pub random_range64 : ℕ → ℕ → ℤ → ℤ → Option (ℤ × ℕ)
unfolding range
random_range64 fuel s lowest highest = range (λ r. r) 64 fuel s lowest highest

pub random_range32 : ℕ → ℕ → ℤ → ℤ → Option (ℤ × ℕ)
unfolding range
random_range32 fuel s lowest highest = range (λ r. r >>> 32) 32 fuel s lowest highest

-- The cumulative weights, from what is accumulated so far.
pub weights_loop : ℕ → List ℕ → List ℕ
weights_loop accum [] = []
weights_loop accum (weight ∷ weights) =
    let accum' = u32 (accum + weight) in accum' ∷ weights_loop accum' weights

pub random_weights_init : List ℕ → List ℕ
unfolding weights_loop
random_weights_init weights = weights_loop 0 weights

-- `search_weights`, from `low` and `high`.
pub search_weights : ℕ → ℕ → List ℕ → ℕ → ℕ → Option ℕ
search_weights zero key cum_weights low high = none
search_weights (suc fuel) key cum_weights low high =
    let mid = low + (high - low) / 2 in
    let upper = search_weights fuel key cum_weights (mid + 1) high in
    let lower = search_weights fuel key cum_weights low mid in
    if ltb low high then if leb (get_or cum_weights mid 0) key then upper else lower else some low

-- The search for a number that was drawn, with the state behind it. Nothing drawn, nothing found.
pub chosen : List ℕ → Option (ℤ × ℕ) → Option (ℕ × ℕ)
unfolding search_weights
chosen cum_weights none = none
chosen cum_weights (some r) =
    Option.map (λ ix. (ix, r.1))
      (search_weights (suc (length cum_weights)) (of_int 32 r.0) cum_weights 0
        (length cum_weights - 1))

-- The index and the state.
pub random_weighted_choice : ℕ → ℕ → List ℕ → Option (ℕ × ℕ)
unfolding random_range32 chosen
random_weighted_choice fuel s cum_weights =
    let total = get_or cum_weights (length cum_weights - 1) 0 in
    chosen cum_weights (random_range32 fuel s (pos 0) (to_int 32 (u32 (total + (2 ^ 32 - 1)))))

pub random_bool : ℕ → ℕ → ℕ → ℕ → Option (Bool × ℕ)
unfolding random_weighted_choice
random_bool fuel s chance out_of =
    let chance' = (if ltb out_of chance then out_of else chance) in
    let choice = random_weighted_choice fuel s ((out_of - chance') ∷ out_of ∷ []) in
    if ltb out_of 1 then some (false, s) else Option.map (λ r. (not (r.0 == 0), r.1)) choice

-- `count` bytes of a word, the lowest first.
pub fill_bytes : ℕ → ℕ → List ℕ
fill_bytes zero r = []
fill_bytes (suc count) r = bit_and r 0xff ∷ fill_bytes count (r >>> 8)

-- The loop for whole words, which a little-endian processor stores.
pub fill_words : ℕ → ℕ → List ℕ × ℕ
unfolding xorshift64 fill_bytes
fill_words zero s = ([], s)
fill_words (suc words) s =
    let (more, s') = fill_words words (xorshift64 s) in (fill_bytes 8 (xorshift64 s) ++ more, s')

-- The bytes up to a multiple of 8, for the address `dest`.
pub fill_start : ℕ → ℕ → ℕ → List ℕ × ℕ
unfolding xorshift64 fill_bytes
fill_start s dest dest_size =
    if dest % 8 == 0
    then ([], s)
    else (fill_bytes (min (8 - dest % 8) dest_size) (xorshift64 s), xorshift64 s)

pub fill_end : ℕ → ℕ → List ℕ × ℕ
unfolding xorshift64 fill_bytes
fill_end s dest_size =
    if ltb 0 dest_size then (fill_bytes dest_size (xorshift64 s), xorshift64 s) else ([], s)

-- The bytes stored from the address `dest` on, and the state.
pub random_bytes : ℕ → ℕ → ℕ → List ℕ × ℕ
unfolding fill_start fill_words fill_end
random_bytes s dest dest_size =
    let (start, s1) = fill_start s dest dest_size in
    let left = dest_size - length start in
    let (words, s2) = fill_words (left / 8) s1 in
    let (end, s3) = fill_end s2 (left % 8) in (start ++ (words ++ end), s3)
