-- ===== src/Random/Bytes.antt =====
-- `random_bytes` fills the buffer, whatever its alignment.
use cstone.Prelude.{
  ℕ, zero, suc, ◌-◌, ◌*◌, ◌/◌, ◌%◌, ◌≤◌, min, ◌≡◌, refl, ap, List, [], ◌∷◌, ◌++◌, Bytes, ltb, ◌==◌,
  length, length-append, ◌>>>◌, arith, Bool-cases, inl, inr,
}
use cstone.Prelude.Bits.{and_mask}
use cstone.Random.{xorshift64, fill_bytes, fill_words, fill_start, fill_end, random_bytes}

fill_bytes-fills : (n r : ℕ) → (length (fill_bytes n r) ≡ n) × Bytes (fill_bytes n r)
unfolding fill_bytes
fill_bytes-fills zero r = (refl, tt)
fill_bytes-fills (suc n) r =
    let (l, b) = fill_bytes-fills n (r >>> 8) in (ap suc l, (omega (arith, and_mask 8 r), b))

Bytes-append : (xs ys : List ℕ) → Bytes xs → Bytes ys → Bytes (xs ++ ys)
Bytes-append [] ys p q = q
Bytes-append (x ∷ xs) ys p q = (p.0, Bytes-append xs ys p.1 q)

fill_words-fills : (n s : ℕ) → (length (fill_words n s).0 ≡ n * 8) × Bytes (fill_words n s).0
unfolding fill_words
fill_words-fills zero s = (refl, tt)
fill_words-fills (suc n) s =
    let (l, b) = fill_bytes-fills 8 (xorshift64 s) in
    let (l', b') = fill_words-fills n (xorshift64 s) in
    (
      omega (
        arith,
        length-append (fill_bytes 8 (xorshift64 s)) (fill_words n (xorshift64 s)).0,
        l,
        l',
      ),
      Bytes-append (fill_bytes 8 (xorshift64 s)) (fill_words n (xorshift64 s)).0 b b',
    )

fill_start-fits :
    (s dest size : ℕ)
    → (length (fill_start s dest size).0 ≤ size) × Bytes (fill_start s dest size).0
unfolding fill_start
fill_start-fits s dest size = elim (Bool-cases (dest % 8 == 0)) [
  | inl aligned ↦ rw aligned (omega arith, tt)
  | inr other ↦
      let (l, b) = fill_bytes-fills (min (8 - dest % 8) size) (xorshift64 s) in
      rw other (omega (arith, l), b)
]

fill_end-fills : (s size : ℕ) → (length (fill_end s size).0 ≡ size) × Bytes (fill_end s size).0
unfolding fill_end
fill_end-fills s size = elim (Bool-cases (ltb 0 size)) [
  | inl more ↦ rw more (fill_bytes-fills size (xorshift64 s))
  | inr nothing ↦ rw nothing (ground (arith, nothing), tt)
]

-- `random_bytes` stores exactly `dest_size` bytes, each below 256, for every state, address and size.
pub random_bytes-fills :
    (s dest dest_size : ℕ)
    → (length (random_bytes s dest dest_size).0 ≡ dest_size)
      × Bytes (random_bytes s dest dest_size).0
unfolding random_bytes
random_bytes-fills s dest size =
    let start = fill_start s dest size in
    let left : ℕ = size - length start.0 in
    let words = fill_words (left / 8) start.1 in
    let end = fill_end words.1 (left % 8) in
    let (le, b) = fill_start-fits s dest size in
    let (l', b') = fill_words-fills (left / 8) start.1 in
    let (l'', b'') = fill_end-fills words.1 (left % 8) in
    (
      omega (
        arith,
        le,
        l',
        l'',
        length-append start.0 (words.0 ++ end.0),
        length-append words.0 end.0,
      ),
      Bytes-append start.0 (words.0 ++ end.0) b (Bytes-append words.0 end.0 b' b''),
    )
