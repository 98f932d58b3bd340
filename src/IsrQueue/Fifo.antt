-- ===== src/IsrQueue/Fifo.antt =====
-- What a queue of `cap` bytes promises: first in, first out, and either no byte is taken when it is
-- full, or the oldest makes room.
use cstone.Prelude.{
  ℕ, Bool, true, Option, none, some, List, [], ◌∷◌, ◌++◌, ◌==◌, if◌then◌else◌, length, drop,
}

unfoldable pub push : ℕ → Bool → List ℕ → ℕ → ℕ × List ℕ
push limit overwrite q x =
    if length q == limit
    then if overwrite then (1, drop 1 (q ++ (x ∷ []))) else (0, q)
    else (1, q ++ (x ∷ []))

unfoldable pub pop : List ℕ → ℕ × Option ℕ × List ℕ
pop [] = (0, none, [])
pop (x ∷ q) = (1, some x, q)

-- A whole list of bytes, one after the other.
unfoldable pub push_all : ℕ → List ℕ → List ℕ → List ℕ
unfolding push
push_all limit q [] = q
push_all limit q (x ∷ xs) = let (n, q') = push limit true q x in push_all limit q' xs
