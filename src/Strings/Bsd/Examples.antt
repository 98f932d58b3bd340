-- ===== src/Strings/Bsd/Examples.antt =====
-- Copies of src/util/bsd_string.c into six bytes of memory, and the theorems at them.
use cstone.Prelude.{ℕ, ◌≡◌, refl, List, [], ◌∷◌, ◌++◌, arith}
use cstone.Strings.Bsd.{copy_loop, count_loop, strlcpy, strxcpy, scan, strlcat}
use cstone.Strings.Bsd.Laws.{terminated, strlcat-appends}

abbrev memory : List ℕ
memory = 0x61 ∷ 0x62 ∷ 0 ∷ 9 ∷ 9 ∷ 9 ∷ []

-- "xyz".
abbrev source : List ℕ
source = 0x78 ∷ 0x79 ∷ 0x7a ∷ []

strlcpy-memory : strlcpy memory source 3 ≡ (3, 0x78 ∷ 0x79 ∷ 0 ∷ 9 ∷ 9 ∷ 9 ∷ [])
unfolding strlcpy copy_loop count_loop
strlcpy-memory = refl

strxcpy-memory : strxcpy memory source 6 ≡ (3, 0x78 ∷ 0x79 ∷ 0x7a ∷ 0 ∷ 9 ∷ 9 ∷ [])
unfolding strxcpy copy_loop
strxcpy-memory = refl

strlcat-memory : strlcat memory source 5 ≡ (5, 0x61 ∷ 0x62 ∷ 0x78 ∷ 0x79 ∷ 0 ∷ 9 ∷ [])
unfolding strlcat strlcpy scan copy_loop count_loop
strlcat-memory = refl

strlcat-appends_example :
    strlcat memory source 5 ≡ (5, (0x61 ∷ 0x62 ∷ []) ++ terminated 2 source (0 ∷ 9 ∷ 9 ∷ 9 ∷ []))
strlcat-appends_example =
    strlcat-appends (0x61 ∷ 0x62 ∷ []) (9 ∷ 9 ∷ 9 ∷ []) source 5 (omega arith) (omega arith)
      (omega arith)
