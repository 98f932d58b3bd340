-- ===== src/Strings/Ops/Wrap.antt =====
-- `str_break` and `str_print_wrapped`: where a line ends, and whether the printing does.
use cstone.Prelude.{
  ℕ, zero, suc, ◌+◌, ◌-◌, ◌≤◌, ◌<◌, ◌≡◌, refl, sym, ap, ◌∙◌, ◌⊎◌, inl, inr, Bool, true, false, ◌||◌,
  Option, none, some, List, [], ◌∷◌, length, leb, ◌==◌, if◌then◌else◌, take, drop, get_or, arith,
  drop-nil, length-append, length-drop, dec_lt, Bool-cases, ℕ_discrete,
}
use mathlib.Core.Option
use cstone.Strings.Ops.{
  is_space, is_punct, is_break, break_loop, or_columns, str_break, str_ltrim, wrap_loop,
  str_print_wrapped,
}
use cstone.Strings.Ops.Cuts.{str_ltrim-trims}

-- `last` is the last place to break before index `n`.
unfoldable IsLast : Bool → (ℕ → ℕ) → ℕ → Option ℕ → Type 0
IsLast space_only at n none = (j : ℕ) → j < n → is_break space_only (at j) ≡ false
IsLast space_only at n (some k) =
    (k < n)
    × (is_break space_only (at k) ≡ true)
    × ((j : ℕ) → k < j → j < n → is_break space_only (at j) ≡ false)

module _ (space_only : Bool) (at : ℕ → ℕ) where
  here-IsLast : (i : ℕ) → is_break space_only (at i) ≡ true → IsLast space_only at (i + 1) (some i)
  unfolding IsLast
  here-IsLast i h = (omega arith, h, λ j above below. absurd (omega (arith, above, below)))

  before-IsLast :
      (i : ℕ) (last : Option ℕ)
      → is_break space_only (at i) ≡ false
      → IsLast space_only at i last
      → IsLast space_only at (i + 1) last
  unfolding IsLast
  before-IsLast i none h l =
      λ j below. elim (ℕ_discrete j i) [ yes e ↦ rw e h | no ne ↦ l j (omega (arith, ne, below)) ]
  before-IsLast i (some k) h l = (
    omega (arith, l.0),
    l.1,
    λ j above below. elim (ℕ_discrete j i) [
      | yes e ↦ rw e h
      | no ne ↦ l.2 j above (omega (arith, ne, below))
    ],
  )

  next-IsLast :
      (i : ℕ) (last : Option ℕ)
      → IsLast space_only at i last
      → IsLast space_only at (i + 1) (if is_break space_only (at i) then some i else last)
  next-IsLast i last l = elim (Bool-cases (is_break space_only (at i))) [
    | inl breaks ↦ rw breaks (here-IsLast i breaks)
    | inr keeps ↦ rw keeps (before-IsLast i last keeps l)
  ]

  break_loop_long :
      (columns i : ℕ) (last : Option ℕ) (str : List ℕ)
      → ((j : ℕ) → get_or str j 0 ≡ at (i + j))
      → IsLast space_only at i last
      → i ≤ columns + 1
      → columns + 1 < i + length str
      → (found : Option ℕ) × (break_loop space_only columns i last str
          ≡ (columns + 1, false, found))
        × IsLast space_only at (columns + 1) found
  unfolding break_loop
  break_loop_long columns i last [] same l p q = absurd (omega (arith, p, q))
  break_loop_long columns i last (c ∷ str) same l p q = elim (ℕ_discrete i (columns + 1)) [
    | yes e ↦
        let stop : leb i columns ≡ false = ground (arith, e) in (last, rw (stop, e), rw (sym e) l)
    | no ne ↦
        let go_on : leb i columns ≡ true = ground (arith, p, ne) in
        let here : c ≡ at i = same 0 ∙ ap at (let z : i + 0 ≡ i = omega arith in z) in
        rw (go_on, here)
          (break_loop_long columns (i + 1) (if is_break space_only (at i) then some i else last) str
            (λ j. same (suc j) ∙ ap at (let z : i + suc j ≡ i + 1 + j = omega arith in z))
            (next-IsLast i last l) (omega (arith, p, ne)) (omega (arith, q)))
  ]

break_loop_short :
    (space_only : Bool) (columns i : ℕ) (last : Option ℕ) (str : List ℕ)
    → i + length str ≤ columns + 1
    → (found : Option ℕ) × (break_loop space_only columns i last str
        ≡ (i + length str, true, found))
unfolding break_loop
break_loop_short space_only columns i last [] p = (
  last,
  ap (λ (t : ℕ). (let r : ℕ × Bool × Option ℕ = (t, true, last) in r))
      (let z : i ≡ i + 0 = omega arith in z),
)
break_loop_short space_only columns i last (c ∷ str) p =
    let go_on : leb i columns ≡ true = ground (arith, p) in
    let sum : i + 1 + length str ≡ i + suc (length str) = omega arith in
    rw (go_on, sym sum)
      (break_loop_short space_only columns (i + 1) (if is_break space_only c then some i else last)
        str (omega (arith, p)))

-- A string of at most `columns + 1` characters is not broken: `str_break` returns its length, which
-- can be one more than `columns`.
pub str_break_short :
    (str : List ℕ) (columns : ℕ) (space_only : Bool)
    → length str ≤ columns + 1
    → str_break str columns space_only ≡ length str
unfolding str_break
str_break_short str columns space_only p =
    let (found, e) = break_loop_short space_only columns 0 none str (omega (arith, p)) in
    rw e (omega arith)

-- Where `str_break` ends a line of a longer string.
abbrev pub EndsLine : (ℕ → ℕ) → ℕ → Bool → ℕ → Type 0
EndsLine at columns space_only n =
    ((n ≡ columns) × ((j : ℕ) → j ≤ columns → is_break space_only (at j) ≡ false))
    ⊎ ((n ≤ columns)
        × (is_break space_only (at n) ≡ true)
        × ((j : ℕ) → n < j → j ≤ columns → is_break space_only (at j) ≡ false))

-- In a string of more than `columns + 1` characters `str_break` returns the last place to break up to
-- index `columns`, or `columns` if there is none.
pub str_break-EndsLine :
    (str : List ℕ) (columns : ℕ) (space_only : Bool)
    → columns + 1 < length str
    → EndsLine (λ j. get_or str j 0) columns space_only (str_break str columns space_only)
unfolding str_break IsLast
str_break-EndsLine str columns space_only p =
    (let (found, e, l) =
        break_loop_long space_only (λ j. get_or str j 0) columns 0 none str
          (λ j. ap (λ (t : ℕ). get_or str t 0) (let z : j ≡ 0 + j = omega arith in z))
          (λ j below. absurd (omega (arith, below))) (omega arith) (omega (arith, p)) in
      rw e (chosen found l))
  where
    chosen :
        (found : Option ℕ)
        → IsLast space_only (λ j. get_or str j 0) (columns + 1) found
        → EndsLine (λ j. get_or str j 0) columns space_only (or_columns columns found)
    chosen none l = inl (refl, λ j le. l j (omega (arith, le)))
    chosen (some k) l = inr (omega (arith, l.0), l.1, λ j above le. l.2 j above (omega (arith, le)))

module _ (str : List ℕ) (width : ℕ) (some_width : 0 < width) where
  -- A line that starts with a character other than white space has at least one character.
  line_advances : (c : ℕ) → is_space c ≡ false → 0 < str_break (c ∷ str) width true
  line_advances c other = elim (dec_lt (width + 1) (suc (length str))) [
    | no short ↦ omega (arith, str_break_short (c ∷ str) width true (omega (arith, short)))
    | yes long ↦ elim (str_break-EndsLine (c ∷ str) width true long) [
      | inl (e, none_there) ↦ omega (arith, e, some_width)
      | inr (le, breaks, later) ↦ elim (ℕ_discrete (str_break (c ∷ str) width true) 0) [
        | no ne ↦ omega (arith, ne)
        | yes z ↦
            absurd
              (at_start (ap (λ (t : ℕ). is_break true (get_or (c ∷ str) t 0)) (sym z) ∙ breaks))
      ]
    ]
  ]
    where
      at_start : is_break true c ≡ true → ⊥
      at_start h = unfold is_break in absurd (ground (arith, h, other))

-- What is left of a line that starts with no white space is shorter, or nothing.
left_shorter :
    (bound width : ℕ) (start : List ℕ)
    → 0 < width
    → ((c : ℕ) (rest : List ℕ) → start ≡ c ∷ rest → is_space c ≡ false)
    → length start < suc bound
    → 0 < bound
    → length (drop (str_break start width true) start) < bound
left_shorter bound width [] w other p q =
    omega (arith, ap length (drop-nil ℕ (str_break [] width true)), q)
left_shorter bound width (c ∷ rest) w other p q = omega (
  arith,
  p,
  length-drop (str_break (c ∷ rest) width true) (c ∷ rest),
  line_advances rest width w c (other c rest refl),
)

trimmed_shorter : (str : List ℕ) → length (str_ltrim str) ≤ length str
trimmed_shorter str =
    let (front, spaces, e) = (str_ltrim-trims str).0 in
    omega (arith, ap length e ∙ length-append front (str_ltrim str))

wrap_loop-returns :
    (fuel : ℕ) (str : List ℕ) (width : ℕ)
    → 0 < width
    → length str < fuel
    → (lines : List (List ℕ)) × (wrap_loop fuel str width true ≡ some lines)
unfolding wrap_loop
wrap_loop-returns zero str width w p = absurd (omega (arith, p))
wrap_loop-returns (suc fuel) [] width w p = ([], refl)
wrap_loop-returns (suc fuel) (c ∷ str) width w p =
    let start : List ℕ = str_ltrim (c ∷ str) in
    let n : ℕ = str_break start width true in
    let (lines, e) = wrap_loop-returns fuel (drop n start) width w (
      left_shorter fuel width start w (str_ltrim-trims (c ∷ str)).1
        (omega (arith, p, trimmed_shorter (c ∷ str))) (omega (arith, p))) in
    (take n start ∷ lines, ap (Option.map (λ lines. take n start ∷ lines)) e)

-- With `space_only`, `str_print_wrapped` returns within one round more than the string has characters.
pub str_print_wrapped-returns :
    (str : List ℕ) (columns indent : ℕ)
    → (lines : List (List ℕ)) × (str_print_wrapped (suc (length str)) str columns indent true
        ≡ some lines)
unfolding str_print_wrapped
str_print_wrapped-returns str columns indent = elim (dec_lt indent columns) [
  | no full ↦
      let e : (columns == 0 || leb columns indent) ≡ true = ground (arith, full) in rw e ([], refl)
  | yes room ↦
      let e : (columns == 0 || leb columns indent) ≡ false = ground (arith, room) in
      rw e (
        wrap_loop-returns (suc (length str)) str (columns - indent) (omega (arith, room))
          (omega arith))
]

module _ (c : ℕ) (rest : List ℕ) (width : ℕ) (space : is_space c ≡ false)
    (punct : is_punct c ≡ true)
    (none_else : (j : ℕ) → 0 < j → j ≤ width → is_break false (get_or (c ∷ rest) j 0) ≡ false)
    (long : width < length rest) where
  breaks_first : is_break false c ≡ true
  unfolding is_break
  breaks_first = rw (space, punct)

  empty_line : str_break (c ∷ rest) width false ≡ 0
  empty_line = elim (str_break-EndsLine (c ∷ rest) width false (omega (arith, long))) [
    | inl (e, none_there) ↦ absurd (ground (arith, none_there 0 (omega arith), breaks_first))
    | inr (le, breaks, later) ↦ elim (ℕ_discrete (str_break (c ∷ rest) width false) 0) [
      | yes z ↦ z
      | no ne ↦ absurd (
          ground
            (arith, breaks, none_else (str_break (c ∷ rest) width false) (omega (arith, ne)) le))
    ]
  ]

  same_start : str_ltrim (c ∷ rest) ≡ c ∷ rest
  unfolding str_ltrim
  same_start = rw space

  loop_hangs : (fuel : ℕ) → wrap_loop fuel (c ∷ rest) width false ≡ none
  unfolding wrap_loop
  loop_hangs zero = refl
  loop_hangs (suc fuel) = rw (same_start, empty_line, loop_hangs fuel)

-- Without `space_only` the printing can go on for ever: a long string that starts with a punctuation
-- character, with no place to break behind it up to the width, is never shortened.
pub str_print_wrapped_hangs :
    (c : ℕ) (rest : List ℕ) (columns indent : ℕ)
    → indent < columns
    → is_space c ≡ false
    → is_punct c ≡ true
    → ((j : ℕ) → 0 < j → j ≤ columns - indent → is_break false (get_or (c ∷ rest) j 0) ≡ false)
    → columns - indent < length rest
    → (fuel : ℕ) → str_print_wrapped fuel (c ∷ rest) columns indent false ≡ none
unfolding str_print_wrapped
str_print_wrapped_hangs c rest columns indent l space punct none_else long fuel =
    let e : (columns == 0 || leb columns indent) ≡ false = ground (arith, l) in
    rw e (loop_hangs c rest (columns - indent) space punct none_else long fuel)
