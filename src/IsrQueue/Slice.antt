-- ===== src/IsrQueue/Slice.antt =====
-- Slices of the storage, and what `memcpy` does to them.
use cstone.Prelude.{
  ℕ, zero, suc, ◌+◌, ◌≤◌, ◌<◌, ◌≡◌, refl, ap, ap₂, ◌∙◌, ◌⊎◌, inl, List, [], ◌∷◌, ◌++◌, arith,
  length, get_or, set, drop, length-set, take-add, drop-drop,
}
use cstone.IsrQueue.{memcpy, slice}

pub length-memcpy : (xs : List ℕ) (i : ℕ) (ys : List ℕ) → length (memcpy xs i ys) ≡ length xs
unfolding memcpy
length-memcpy xs i [] = refl
length-memcpy xs i (y ∷ ys) =
    omega (arith, length-memcpy (set xs i y) (i + 1) ys, length-set xs i y)

pub slice-suc :
    (xs : List ℕ) (i n : ℕ)
    → i < length xs
    → slice xs i (suc n) ≡ get_or xs i 0 ∷ slice xs (suc i) n
slice-suc [] i n p = absurd (omega arith)
slice-suc (x ∷ xs) zero n p = refl
slice-suc (x ∷ xs) (suc i) n p = slice-suc xs i n (omega arith)

pub slice-add : (xs : List ℕ) (i m n : ℕ) → slice xs i (m + n) ≡ slice xs i m ++ slice xs (i + m) n
slice-add xs i m n = rw (take-add m n (drop i xs), drop-drop i m xs)

pub length-slice : (xs : List ℕ) (i n : ℕ) → i + n ≤ length xs → length (slice xs i n) ≡ n
length-slice [] i n p = let e : n ≡ 0 = omega arith in rw e refl
length-slice (x ∷ xs) zero zero p = refl
length-slice (x ∷ xs) zero (suc n) p = ap suc (length-slice xs 0 n (omega arith))
length-slice (x ∷ xs) (suc i) n p = length-slice xs i n (omega arith)

slice-set_outside :
    (xs : List ℕ) (i n j x : ℕ) → (i + n ≤ j) ⊎ (j < i) → slice (set xs j x) i n ≡ slice xs i n
slice-set_outside [] i n j x p = refl
slice-set_outside (y ∷ xs) zero zero j x p = refl
slice-set_outside (y ∷ xs) zero (suc n) zero x p = absurd (omega arith)
slice-set_outside (y ∷ xs) zero (suc n) (suc j) x p =
    ap (λ t. y ∷ t) (slice-set_outside xs 0 n j x (omega arith))
slice-set_outside (y ∷ xs) (suc i) n zero x p = refl
slice-set_outside (y ∷ xs) (suc i) n (suc j) x p = slice-set_outside xs i n j x (omega arith)

-- Bytes copied beside a slice leave it alone.
pub slice-memcpy_outside :
    (xs : List ℕ) (i n j : ℕ) (ys : List ℕ)
    → (i + n ≤ j) ⊎ (j + length ys ≤ i)
    → slice (memcpy xs j ys) i n ≡ slice xs i n
unfolding memcpy
slice-memcpy_outside xs i n j [] p = refl
slice-memcpy_outside xs i n j (y ∷ ys) p =
    rw (slice-memcpy_outside (set xs j y) i n (j + 1) ys (omega arith))
      (slice-set_outside xs i n j y (omega arith))

get_or-set : (xs : List ℕ) (j x : ℕ) → j < length xs → get_or (set xs j x) j 0 ≡ x
get_or-set [] j x p = absurd (omega arith)
get_or-set (y ∷ xs) zero x p = refl
get_or-set (y ∷ xs) (suc j) x p = get_or-set xs j x (omega arith)

get_or-set_below : (xs : List ℕ) (i j x : ℕ) → i < j → get_or (set xs j x) i 0 ≡ get_or xs i 0
get_or-set_below [] i j x p = refl
get_or-set_below (y ∷ xs) i zero x p = absurd (omega arith)
get_or-set_below (y ∷ xs) zero (suc j) x p = refl
get_or-set_below (y ∷ xs) (suc i) (suc j) x p = get_or-set_below xs i j x (omega arith)

get_or-memcpy_below :
    (xs : List ℕ) (i j : ℕ) (ys : List ℕ) → i < j → get_or (memcpy xs j ys) i 0 ≡ get_or xs i 0
unfolding memcpy
get_or-memcpy_below xs i j [] p = refl
get_or-memcpy_below xs i j (y ∷ ys) p =
    get_or-memcpy_below (set xs j y) i (j + 1) ys (omega arith) ∙ get_or-set_below xs i j y p

-- The bytes copied are read back.
pub slice-memcpy :
    (xs : List ℕ) (j : ℕ) (ys : List ℕ)
    → j + length ys ≤ length xs
    → slice (memcpy xs j ys) j (length ys) ≡ ys
unfolding memcpy
slice-memcpy xs j [] p = refl
slice-memcpy xs j (y ∷ ys) p =
    slice-suc written j (length ys) fits
    ∙ ap₂ ◌∷◌
        (get_or-memcpy_below (set xs j y) j (j + 1) ys (omega arith)
          ∙ get_or-set xs j y (omega arith))
        (ap (λ (t : ℕ). slice written t (length ys)) (let e : suc j ≡ j + 1 = omega arith in e)
          ∙ slice-memcpy (set xs j y) (j + 1) ys room)
  where
    written : List ℕ
    written = memcpy (set xs j y) (j + 1) ys

    room : j + 1 + length ys ≤ length (set xs j y)
    room = rw (length-set xs j y) (omega arith)

    fits : j < length written
    fits = rw (length-memcpy (set xs j y) (j + 1) ys) (omega (arith, room))

-- Bytes copied right behind a slice extend it.
pub slice-memcpy_behind :
    (xs : List ℕ) (i n j : ℕ) (ys : List ℕ)
    → i + n ≡ j
    → j + length ys ≤ length xs
    → slice (memcpy xs j ys) i (n + length ys) ≡ slice xs i n ++ ys
slice-memcpy_behind xs i n j ys e p =
    slice-add (memcpy xs j ys) i n (length ys)
    ∙ ap₂ ◌++◌ (slice-memcpy_outside xs i n j ys (inl (omega arith)))
        (ap (λ (t : ℕ). slice (memcpy xs j ys) t (length ys)) e ∙ slice-memcpy xs j ys p)
