-- ===== src/Strings/Bsd.antt =====
-- src/util/bsd_string.c: copies with a length limit. `dst` is the memory from the pointer on. A write
-- past its end changes nothing here; the theorems ask for as many bytes as `size` promises.
pub mod Laws
mod Examples
use cstone.Prelude.{
  ℕ, zero, suc, ◌+◌, ◌-◌, Option, List, [], ◌∷◌, ltb, leb, ◌==◌, if◌then◌else◌, length, get_or, set,
  drop, take, ◌++◌,
}

-- The copying loop of `strlcpy` and `strxcpy`: the memory, the number of characters copied, and the
-- rest of the source.
pub copy_loop : List ℕ → ℕ → ℕ → List ℕ → List ℕ × ℕ × List ℕ
copy_loop dst copied size [] = (dst, copied, [])
copy_loop dst copied size (c ∷ src) =
    let more = copy_loop (set dst copied c) (copied + 1) size src in
    if ltb copied size then more else (dst, copied, c ∷ src)

-- The loop that counts the remaining characters.
pub count_loop : ℕ → List ℕ → ℕ
count_loop src_len [] = src_len
count_loop src_len (c ∷ src) = count_loop (src_len + 1) src

pub strlcpy : List ℕ → List ℕ → ℕ → ℕ × List ℕ
unfolding copy_loop count_loop
strlcpy dst src size =
    if ltb 0 size
    then (let (dst', src_len, rest) = copy_loop dst 0 (size - 1) src in
        (count_loop src_len rest, set dst' src_len 0))
    else (count_loop 0 src, dst)

pub strxcpy : List ℕ → List ℕ → ℕ → ℕ × List ℕ
unfolding copy_loop
strxcpy dst src size =
    if ltb 0 size
    then (let (dst', copied, rest) = copy_loop dst 0 (size - 1) src in (copied, set dst' copied 0))
    else (0, dst)

-- The scan of `strlcat` for the terminator of `dst`: the number of characters before it, at most
-- `size`, and the memory from there on.
pub scan : List ℕ → ℕ → ℕ → ℕ × List ℕ
scan [] cat_len size = (cat_len, [])
scan (c ∷ dst) cat_len size =
    let more = scan dst (cat_len + 1) size in
    if c == 0 then (cat_len, c ∷ dst) else if ltb cat_len size then more else (cat_len, c ∷ dst)

-- The memory before the place where `strlcpy` continues stays as it was.
pub strlcat : List ℕ → List ℕ → ℕ → ℕ × List ℕ
unfolding scan strlcpy
strlcat dst src size =
    if ltb 0 size
    then (let (cat_len, end) = scan dst 0 size in
        if leb size cat_len
        then (cat_len + length src, dst)
        else (let (n, end') = strlcpy end src (size - cat_len) in
            (cat_len + n, take cat_len dst ++ end')))
    else (0, dst)
