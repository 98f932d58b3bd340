-- ===== src/Strings/Bsd/Laws.antt =====
-- What the limited copies leave in memory, and what they return.
use cstone.Prelude.{
  ℕ, zero, suc, ◌+◌, ◌-◌, ◌≤◌, ◌<◌, min, ◌≡◌, refl, sym, ap, ap₂, ◌∙◌, true, false, List, [], ◌∷◌,
  ◌++◌, arith, ltb, leb, ◌==◌, if◌then◌else◌, length, set, take, drop, take-nil, drop-nil, All,
  take_first, length-take, length-append, length-drop,
}
use mathlib.Core.List.{append_assoc}
use cstone.Strings.Bsd.{copy_loop, count_loop, strlcpy, strxcpy, scan, strlcat}

count_loop-eq : (n : ℕ) (src : List ℕ) → count_loop n src ≡ n + length src
unfolding count_loop
count_loop-eq n [] = omega arith
count_loop-eq n (c ∷ src) = omega (arith, count_loop-eq (n + 1) src)

set-append :
    (xs : List ℕ) (y : ℕ) (ys : List ℕ) (c : ℕ)
    → set (xs ++ (y ∷ ys)) (length xs) c ≡ xs ++ (c ∷ ys)
set-append [] y ys c = refl
set-append (x ∷ xs) y ys c = ap (λ t. x ∷ t) (set-append xs y ys c)

-- What the loop makes of the memory behind what is copied already, with `k` bytes to go.
abbrev copied : ℕ → List ℕ → List ℕ → List ℕ
copied k src dst = take k src ++ drop (min k (length src)) dst

-- The loop, when `pre` is what it has copied.
copy_loop-eq :
    (pre dst : List ℕ) (k : ℕ) (src : List ℕ)
    → k < length dst
    → copy_loop (pre ++ dst) (length pre) (length pre + k) src
      ≡ (pre ++ copied k src dst, length pre + min k (length src), drop k src)
unfolding copy_loop
copy_loop-eq pre dst k [] q =
    let m : min k 0 ≡ 0 = omega arith in
    let n : length pre ≡ length pre + 0 = omega arith in
    rw (take-nil ℕ k, drop-nil ℕ k, m)
      (ap (λ (t : ℕ). (let r : List ℕ × ℕ × List ℕ = (pre ++ dst, t, []) in r)) n)
copy_loop-eq pre dst zero (c ∷ src) q =
    let m : min 0 (suc (length src)) ≡ 0 = omega arith in
    let n : length pre + 0 ≡ length pre = omega arith in
    let stop : ltb (length pre) (length pre) ≡ false = ground arith in rw (n, m, n, stop)
copy_loop-eq pre [] (suc k) (c ∷ src) q = absurd (omega (arith, q))
copy_loop-eq pre (d ∷ dst) (suc k) (c ∷ src) q =
    let more : ltb (length pre) (length pre + suc k) ≡ true = ground arith in
    let one : length (pre ++ (c ∷ [])) ≡ length pre + 1 = length-append pre (c ∷ []) in
    let sum : length pre + suc k ≡ length (pre ++ (c ∷ [])) + k = omega (arith, one) in
    let least : min (suc k) (suc (length src)) ≡ suc (min k (length src)) = omega arith in
    let total : length (pre ++ (c ∷ [])) + min k (length src)
        ≡ length pre + suc (min k (length src)) =
      omega (arith, one) in
    rw (more, set-append pre d dst c, sum, sym one, sym (append_assoc pre (c ∷ []) dst), least)
      (copy_loop-eq (pre ++ (c ∷ [])) dst k src (omega (arith, q))
        ∙ ap₂ (λ (t : List ℕ) (u : ℕ). (let r : List ℕ × ℕ × List ℕ = (t, u, drop k src) in r))
            (append_assoc pre (c ∷ []) (copied k src dst)) total)

drop-cons : (n : ℕ) (xs : List ℕ) → n < length xs → (x : ℕ) × (drop n xs ≡ x ∷ drop (suc n) xs)
drop-cons n [] p = absurd (omega (arith, p))
drop-cons zero (x ∷ xs) p = (x, refl)
drop-cons (suc n) (x ∷ xs) p = drop-cons n xs (omega (arith, p))

-- The memory after a copy of at most `k` characters and the terminator.
abbrev pub terminated : ℕ → List ℕ → List ℕ → List ℕ
terminated k src dst = take k src ++ (0 ∷ drop (suc (min k (length src))) dst)

set-copied :
    (k : ℕ) (src dst : List ℕ)
    → k < length dst
    → set (copied k src dst) (min k (length src)) 0 ≡ terminated k src dst
set-copied k src dst p =
    let (d, e) = drop-cons (min k (length src)) dst (omega (arith, p)) in
    ap (λ (t : ℕ). set (copied k src dst) t 0) (sym (length-take k src))
    ∙ ap (λ t. set (take k src ++ t) (length (take k src)) 0) e
    ∙ set-append (take k src) d (drop (suc (min k (length src))) dst) 0

copied_all :
    (dst : List ℕ) (k : ℕ) (src : List ℕ)
    → k < length dst
    → copy_loop dst 0 k src ≡ (copied k src dst, min k (length src), drop k src)
copied_all dst k src p =
    let a : 0 + k ≡ k = omega arith in
    let b : 0 + min k (length src) ≡ min k (length src) = omega arith in
    ap (λ (t : ℕ). copy_loop dst 0 t src) (sym a)
    ∙ copy_loop-eq [] dst k src p
    ∙ ap (λ (t : ℕ). (let r : List ℕ × ℕ × List ℕ = (copied k src dst, t, drop k src) in r)) b

-- With as much memory at `dst` as `size` says, `strlcpy` returns the length of the source. It stores
-- the first characters, at most `size - 1`, and the terminator, and leaves all bytes behind them; for
-- size 0 it stores nothing.
pub strlcpy-copies :
    (dst src : List ℕ) (size : ℕ)
    → size ≤ length dst
    → strlcpy dst src size ≡ (length src, if ltb 0 size then terminated (size - 1) src dst else dst)
unfolding strlcpy
strlcpy-copies dst src zero p =
    let e : count_loop 0 src ≡ length src = omega (arith, count_loop-eq 0 src) in rw e
strlcpy-copies dst src (suc k) p =
    let e : suc k - 1 ≡ k = omega arith in
    let n : count_loop (min k (length src)) (drop k src) ≡ length src =
      omega (arith, count_loop-eq (min k (length src)) (drop k src), length-drop k src) in
    let more : ltb 0 (suc k) ≡ true = ground arith in
    rw
      (more, e, copied_all dst k src (omega (arith, p)), n, set-copied k src dst (omega (arith, p)))

-- `strxcpy` stores what `strlcpy` stores, and returns the number of characters stored before the
-- terminator.
pub strxcpy-copies :
    (dst src : List ℕ) (size : ℕ)
    → size ≤ length dst
    → strxcpy dst src size ≡ (min (size - 1) (length src), (strlcpy dst src size).1)
unfolding strlcpy strxcpy
strxcpy-copies dst src zero p =
    let e : 0 ≡ min (0 - 1) (length src) = omega arith in
    ap (λ (t : ℕ). (let r : ℕ × List ℕ = (t, dst) in r)) e
strxcpy-copies dst src (suc k) p =
    let e : suc k - 1 ≡ k = omega arith in
    let more : ltb 0 (suc k) ≡ true = ground arith in
    rw (more, e, copied_all dst k src (omega (arith, p)))

-- The scan of a string of nonzero characters that ends within the limit.
scan_string :
    (d rest : List ℕ) (n size : ℕ)
    → All (λ c. 0 < c) d
    → n + length d < size
    → scan (d ++ (0 ∷ rest)) n size ≡ (n + length d, 0 ∷ rest)
unfolding scan
scan_string [] rest n size q p =
    ap (λ (t : ℕ). (let r : ℕ × List ℕ = (t, 0 ∷ rest) in r)) (let e : n ≡ n + 0 = omega arith in e)
scan_string (c ∷ d) rest n size q p =
    let nonzero : (c == 0) ≡ false = ground (arith, q.0) in
    let more : ltb n size ≡ true = ground (arith, p) in
    let sum : n + 1 + length d ≡ n + suc (length d) = omega arith in
    rw (nonzero, more)
      (scan_string d rest (n + 1) size q.1 (omega (arith, p))
        ∙ ap (λ (t : ℕ). (let r : ℕ × List ℕ = (t, 0 ∷ rest) in r)) sum)

-- The scan of memory without a terminator within the limit.
scan_full :
    (d rest : List ℕ) (n size : ℕ)
    → All (λ c. 0 < c) d
    → n + length d ≡ size
    → (scan (d ++ rest) n size).0 ≡ size
unfolding scan
scan_full [] [] n size q p = omega (arith, p)
scan_full [] (c ∷ rest) n size q p =
    let stop : ltb n size ≡ false = ground (arith, p) in rw stop (ground (arith, p))
scan_full (c ∷ d) rest n size q p =
    let nonzero : (c == 0) ≡ false = ground (arith, q.0) in
    let more : ltb n size ≡ true = ground (arith, p) in
    rw (nonzero, more) (scan_full d rest (n + 1) size q.1 (omega (arith, p)))

-- For a string `d` that ends within `size` bytes of memory, `strlcat` returns the length of both
-- strings. It keeps `d`, stores the source behind it up to `size - 1` characters in all, and ends with
-- the terminator.
pub strlcat-appends :
    (d rest src : List ℕ) (size : ℕ)
    → All (λ c. 0 < c) d
    → length d < size
    → size ≤ length (d ++ (0 ∷ rest))
    → strlcat (d ++ (0 ∷ rest)) src size
      ≡ (length d + length src, d ++ terminated (size - length d - 1) src (0 ∷ rest))
unfolding strlcat
strlcat-appends d rest src size q l p =
    let more : ltb 0 size ≡ true = ground (arith, l) in
    let inside : leb size (length d) ≡ false = ground (arith, l) in
    let found : scan (d ++ (0 ∷ rest)) 0 size ≡ (length d, 0 ∷ rest) =
      scan_string d rest 0 size q (omega (arith, l))
      ∙ ap (λ (t : ℕ). (let r : ℕ × List ℕ = (t, 0 ∷ rest) in r))
          (let e : 0 + length d ≡ length d = omega arith in e) in
    let room : ltb 0 (size - length d) ≡ true = ground (arith, l) in
    rw (
      more,
      found,
      inside,
      strlcpy-copies (0 ∷ rest) src (size - length d)
          (omega (arith, p, length-append d (0 ∷ rest))),
      room,
      take_first d (0 ∷ rest),
    )

-- Where memory has no terminator within `size` bytes, `strlcat` changes nothing and returns `size` and
-- the length of the source.
pub strlcat-full :
    (d rest src : List ℕ)
    → All (λ c. 0 < c) d
    → 0 < length d
    → strlcat (d ++ rest) src (length d) ≡ (length d + length src, d ++ rest)
unfolding strlcat
strlcat-full d rest src q l =
    let more : ltb 0 (length d) ≡ true = ground (arith, l) in
    let e : (scan (d ++ rest) 0 (length d)).0 ≡ length d =
      scan_full d rest 0 (length d) q (omega arith) in
    let full : leb (length d) (length d) ≡ true = ground arith in rw (more, e, full)
