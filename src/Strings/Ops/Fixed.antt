-- ===== src/Strings/Ops/Fixed.antt =====
-- `str_to_fixed`: the number that a decimal text stands for, scaled.
use cstone.Prelude.{
  ℕ, suc, ◌+◌, ◌-◌, ◌*◌, ◌/◌, ◌^◌, ◌≤◌, ◌<◌, ◌≡◌, refl, ap, ap₂, ◌∙◌, Bool, true, false, ◌&&◌, List,
  [], ◌∷◌, ◌++◌, All, length, ltb, ◌==◌, if◌then◌else◌, u32, arith, ℕ_discrete,
}
use native.Mathlib.Nat.{pow-succ', mod-eq_of_lt, add-mul, mul_assoc, zero-mul, zero-div}
use cstone.Prelude.Ints.{ℤ, pos, ◌⊖◌}
use cstone.Strings.Ops.{
  is_space, str_ltrim, is_digit, sign, digits_loop, fraction, to_int, scale_fixed, str_to_fixed,
}

-- The number that a list of digits stands for.
unfoldable pub decimal : List ℕ → ℕ
decimal [] = 0
decimal (c ∷ digits) = (c - 0x30) * 10 ^ length digits + decimal digits

abbrev pub Digits : List ℕ → Type 0
Digits = All (λ c. is_digit c ≡ true)

-- The end of a text, where no digit follows.
unfoldable pub starts_digit : List ℕ → Bool
unfolding is_digit
starts_digit [] = false
starts_digit (c ∷ rest) = is_digit c

shifted :
    (val d : ℕ) (digits : List ℕ)
    → (val * 10 + d) * 10 ^ length digits + decimal digits
      ≡ val * 10 ^ suc (length digits) + (d * 10 ^ length digits + decimal digits)
shifted val d digits =
    let power : ℕ = 10 ^ length digits in
    let product : (val * 10 + d) * power ≡ val * 10 * power + d * power =
      add-mul (val * 10) d power in
    let tens : val * 10 * power ≡ val * (10 * power) = mul_assoc val 10 power in
    let next : val * 10 ^ suc (length digits) ≡ val * (10 * power) =
      ap (λ (t : ℕ). val * t) (pow-succ' 10 (length digits)) in
    omega (arith, product, tens, next)

digits_loop-eq :
    (max_digits val n : ℕ) (digits rest : List ℕ)
    → Digits digits
    → starts_digit rest ≡ false
    → n + length digits ≤ max_digits
    → digits_loop max_digits val n (digits ++ rest)
      ≡ (val * 10 ^ length digits + decimal digits, n + length digits, rest)
unfolding digits_loop decimal starts_digit
digits_loop-eq max_digits val n [] [] d ends p =
    ap₂ (λ (t u : ℕ). (let r : ℕ × ℕ × List ℕ = (t, u, []) in r))
      (let e : val ≡ val * 1 + 0 = omega arith in e) (let e : n ≡ n + 0 = omega arith in e)
digits_loop-eq max_digits val n [] (c ∷ rest) d ends p =
    let stop : (ltb n max_digits && is_digit c) ≡ false = ground (arith, ends) in
    rw stop (
      ap₂ (λ (t u : ℕ). (let r : ℕ × ℕ × List ℕ = (t, u, c ∷ rest) in r))
        (let e : val ≡ val * 1 + 0 = omega arith in e) (let e : n ≡ n + 0 = omega arith in e))
digits_loop-eq max_digits val n (c ∷ digits) rest d ends p =
    let more : ltb n max_digits ≡ true = ground (arith, p) in
    rw (more, d.0)
      (digits_loop-eq max_digits (val * 10 + (c - 0x30)) (n + 1) digits rest d.1 ends
          (omega (arith, p))
        ∙ ap₂ (λ (t u : ℕ). (let r : ℕ × ℕ × List ℕ = (t, u, rest) in r))
            (shifted val (c - 0x30) digits)
            (let e : n + 1 + length digits ≡ n + suc (length digits) = omega arith in e))

-- The text of a number: a sign only for negative ones, the digits, the point, and more digits.
abbrev pub text : Bool → List ℕ → List ℕ → List ℕ → List ℕ
text neg digits more rest = (if neg then 0x2d ∷ [] else []) ++ (digits ++ (0x2e ∷ (more ++ rest)))

start :
    (neg : Bool) (digits more rest : List ℕ)
    → Digits digits
    → sign (str_ltrim (text neg digits more rest)) ≡ (neg, digits ++ (0x2e ∷ (more ++ rest)))
unfolding sign str_ltrim is_space is_digit
start true digits more rest d = refl
start false [] more rest d = refl
start false (c ∷ digits) more rest d =
    let other : is_space c ≡ false = ground (arith, d.0) in
    let minus : (c == 0x2d) ≡ false = ground (arith, d.0) in
    let plus : (c == 0x2b) ≡ false = ground (arith, d.0) in rw (other, minus, plus)

abbrev pub signed : Bool → ℕ → ℤ
signed neg n = if neg then 0 ⊖ n else pos n

to_int-signed :
    (neg : Bool) (n : ℕ) → n < 2 ^ 31 → to_int (if neg then u32 (2 ^ 32 - n) else n) ≡ signed neg n
unfolding to_int ◌⊖◌
to_int-signed true n p = elim (ℕ_discrete n 0) [
  | yes z ↦ rw z
  | no nz ↦
      let e : u32 (2 ^ 32 - n) ≡ 2 ^ 32 - n =
        mod-eq_of_lt {n = 2 ^ 32 - n} {m = 2 ^ 32} (omega (arith, nz)) in
      rw e (ground (arith, nz, p))
]
to_int-signed false n p = ground (arith, p)

summed :
    (i f b s : ℕ)
    → f * s < 2 ^ 32
    → i * s + f * s / b < 2 ^ 31
    → (if ltb 0 f then u32 (u32 (i * s) + u32 (f * s) / b) else u32 (i * s)) ≡ i * s + f * s / b
summed i f b s p q =
    rw
      (
        mod-eq_of_lt {n = i * s} {m = 2 ^ 32} (omega (arith, q)),
        mod-eq_of_lt {n = f * s} {m = 2 ^ 32} p,
        mod-eq_of_lt {n = i * s + f * s / b} {m = 2 ^ 32} (omega (arith, q)),
      )
      (elim (ℕ_discrete f 0) [
        | yes z ↦
            let nothing : f * s / b ≡ 0 =
              ap (λ (t : ℕ). t * s / b) z ∙ ap (λ (t : ℕ). t / b) (zero-mul s) ∙ zero-div b in
            ground (arith, z, nothing)
        | no nz ↦ let some_fraction : ltb 0 f ≡ true = ground (arith, nz) in rw some_fraction
      ])

scaled :
    (neg : Bool) (i f b s : ℕ)
    → f * s < 2 ^ 32
    → i * s + f * s / b < 2 ^ 31
    → scale_fixed neg i f b s ≡ signed neg (i * s + f * s / b)
unfolding scale_fixed
scaled neg i f b s p q = rw (summed i f b s p q) (to_int-signed neg (i * s + f * s / b) q)

-- A text of at most 9 digits, a point and at most 7 more digits, with a minus sign or without, gives
-- the number times the scale, with the part of the fraction rounded down, as long as the digits behind
-- the point times the scale stay below 2 ^ 32 and the result stays below 2 ^ 31. The conversion ends at
-- the first other character.
pub str_to_fixed-scaled :
    (neg : Bool) (digits more rest : List ℕ) (fp_scale : ℕ)
    → Digits digits
    → Digits more
    → starts_digit rest ≡ false
    → length digits ≤ 9
    → length more ≤ 7
    → decimal more * fp_scale < 2 ^ 32
    → decimal digits * fp_scale + decimal more * fp_scale / 10 ^ length more < 2 ^ 31
    → str_to_fixed (text neg digits more rest) fp_scale
      ≡ (signed neg (decimal digits * fp_scale + decimal more * fp_scale / 10 ^ length more), rest)
unfolding str_to_fixed fraction starts_digit
str_to_fixed-scaled neg digits more rest s d m ends p q r t =
    let whole : 0 * 10 ^ length digits + decimal digits ≡ decimal digits =
      omega (arith, zero-mul (10 ^ length digits)) in
    let part : 0 * 10 ^ length more + decimal more ≡ decimal more =
      omega (arith, zero-mul (10 ^ length more)) in
    let count : 0 + length more ≡ length more = omega arith in
    rw (
      start neg digits more rest d,
      digits_loop-eq 9 0 0 digits (0x2e ∷ (more ++ rest)) d refl (omega (arith, p)),
      whole,
      digits_loop-eq 7 0 0 more rest m ends (omega (arith, q)),
      part,
      count,
      scaled neg (decimal digits) (decimal more) (10 ^ length more) s r t,
    )
