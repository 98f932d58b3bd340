-- ===== src/Crc/Lfsr.antt =====
-- The shift register behind the bit-serial loops: `suc h` digits wide, with the polynomial `poly`
-- added whenever a one leaves at the top. It is linear for `^`, which makes lookup tables work.
use cstone.Prelude.{
  ℕ, zero, suc, ◌+◌, ◌*◌, ◌/◌, ◌%◌, ◌^◌, ◌<◌, bit_and, bit_xor, ◌≡◌, refl, sym, ap, ◌∙◌, arith,
  ◌==◌, ==_iff, ne→==, if◌then◌else◌,
}
use cstone.Prelude.Bits.{
  xor_step, xor-shr, xor-mask, xor-shl, xor-lt, xor-zero, zero-xor, xor_self, xor_swap, xor_assoc,
  xor_comm, xor-eq-zero, xor_fields, and_digit,
}
use native.Mathlib.Nat.{
  pow-suc, mul-add-mod_self_right, div-add-mod', mod-eq_of_lt, mod-lt, one-le-pow, div-eq_of_lt,
  div-lt_iff_lt-mul, mul_comm,
}

-- Multiplying a number and its modulus multiplies the remainder.
pub mul-mod_pow : (a s m : ℕ) → 0 < s → 0 < m → a * m % (s * m) ≡ a % s * m
mul-mod_pow a s m hs hm =
    ap (λ (t : ℕ). t % (s * m)) split
    ∙ mul-add-mod_self_right (a / s) (s * m) (a % s * m)
    ∙ mod-eq_of_lt fits
  where
    split : a * m ≡ a / s * (s * m) + a % s * m
    split = omega (arith, ap (λ (t : ℕ). t * m) (div-add-mod' a s))

    fits : a % s * m < s * m
    fits = grind (arith, mod-lt a hs)

module _ (h poly : ℕ) where
  -- What the digit that leaves feeds back.
  feedback : ℕ → ℕ
  feedback zero = 0
  feedback (suc d) = poly

  unfoldable pub next : ℕ → ℕ
  unfolding feedback
  next x = bit_xor (x * 2 % 2 ^ suc h) (feedback (x / 2 ^ h % 2))

  abbrev pub steps : ℕ → ℕ → ℕ
  steps zero x = x
  steps (suc n) x = steps n (next x)

  feedback-xor :
      (x y : ℕ) → x < 2 → y < 2 → feedback ((x + y) % 2) ≡ bit_xor (feedback x) (feedback y)
  unfolding feedback
  feedback-xor zero zero p q = refl
  feedback-xor zero (suc zero) p q = sym (zero-xor poly)
  feedback-xor zero (suc (suc y)) p q = absurd (omega arith)
  feedback-xor (suc zero) zero p q = sym (xor-zero poly)
  feedback-xor (suc zero) (suc zero) p q = sym (xor_self poly)
  feedback-xor (suc zero) (suc (suc y)) p q = absurd (omega arith)
  feedback-xor (suc (suc x)) y p q = absurd (omega arith)

  top_digit : (a b : ℕ) → bit_xor a b / 2 ^ h % 2 ≡ (a / 2 ^ h % 2 + b / 2 ^ h % 2) % 2
  top_digit a b = omega (arith, xor-shr h a b, xor_step (a / 2 ^ h) (b / 2 ^ h))

  next-xor : (a b : ℕ) → next (bit_xor a b) ≡ bit_xor (next a) (next b)
  unfolding next
  next-xor a b =
      rw (top_digit a b, feedback-xor (a / 2 ^ h % 2) (b / 2 ^ h % 2) (omega arith) (omega arith))
        (ap (λ (t : ℕ). bit_xor t fed) shifted
          ∙ xor_swap (a * 2 % 2 ^ suc h) (b * 2 % 2 ^ suc h) (feedback (a / 2 ^ h % 2))
              (feedback (b / 2 ^ h % 2)))
    where
      fed : ℕ
      fed = bit_xor (feedback (a / 2 ^ h % 2)) (feedback (b / 2 ^ h % 2))

      shifted : bit_xor a b * 2 % 2 ^ suc h ≡ bit_xor (a * 2 % 2 ^ suc h) (b * 2 % 2 ^ suc h)
      shifted =
          ap (λ (t : ℕ). t % 2 ^ suc h) (sym (xor-shl 1 a b)) ∙ xor-mask (suc h) (a * 2) (b * 2)

  -- The register is linear.
  pub steps-xor : (n a b : ℕ) → steps n (bit_xor a b) ≡ bit_xor (steps n a) (steps n b)
  steps-xor zero a b = refl
  steps-xor (suc n) a b = ap (steps n) (next-xor a b) ∙ steps-xor n (next a) (next b)

  -- As long as no one reaches the top, a step is a shift.
  next_small : (x : ℕ) → x < 2 ^ h → next x ≡ x * 2
  unfolding next feedback
  next_small x p = rw (div-eq_of_lt p, xor-zero) (mod-eq_of_lt (omega (arith, pow-suc 2 h)))

  pub steps_small : (n x : ℕ) → x * 2 ^ n < 2 ^ suc h → steps n x ≡ x * 2 ^ n
  steps_small zero x p = omega arith
  steps_small (suc n) x p =
      rw (next_small x x_fits) (steps_small n (x * 2) (omega (arith, shift)) ∙ sym shift)
    where
      shift : x * 2 ^ suc n ≡ x * 2 * 2 ^ n
      shift = omega (arith, ap (λ (t : ℕ). x * t) (pow-suc 2 n))

      x_fits : x < 2 ^ h
      x_fits = grind (arith, pow-suc 2 h, shift, one-le-pow n 2 (omega arith))

  pub next-lt : (x : ℕ) → poly < 2 ^ suc h → next x < 2 ^ suc h
  unfolding next
  next-lt x p = xor-lt (suc h) _ _ (mod-lt (x * 2) (one-le-pow (suc h) 2 (omega arith))) (fed _)
    where
      fed : (d : ℕ) → feedback d < 2 ^ suc h
      fed zero = one-le-pow (suc h) 2 (omega arith)
      fed (suc d) = p

  pub steps-lt : (n x : ℕ) → poly < 2 ^ suc h → x < 2 ^ suc h → steps n x < 2 ^ suc h
  steps-lt zero x p q = q
  steps-lt (suc n) x p q = steps-lt n (next x) p (next-lt x p)

  -- Feeding a digit field of `n` digits at the top: the `n` leading digits of the register and the
  -- field run through on their own, and the other digits move up.
  pub steps_field :
      (s n x d : ℕ)
      → 2 ^ suc h ≡ 2 ^ s * 2 ^ n
      → steps n (bit_xor x (d * 2 ^ s))
        ≡ bit_xor (steps n (bit_xor (x / 2 ^ s) d * 2 ^ s)) (x * 2 ^ n % 2 ^ suc h)
  steps_field s n x d w =
      ap (steps n) regroup
      ∙ steps-xor n (bit_xor (x / 2 ^ s) d * 2 ^ s) (x % 2 ^ s)
      ∙ ap (bit_xor (steps n (bit_xor (x / 2 ^ s) d * 2 ^ s))) moved
    where
      low : x % 2 ^ s < 2 ^ s
      low = mod-lt x (one-le-pow s 2 (omega arith))

      apart : x ≡ bit_xor (x / 2 ^ s * 2 ^ s) (x % 2 ^ s)
      apart = omega (arith, xor_fields s (x / 2 ^ s) (x % 2 ^ s) low, div-add-mod' x (2 ^ s))

      regroup : bit_xor x (d * 2 ^ s) ≡ bit_xor (bit_xor (x / 2 ^ s) d * 2 ^ s) (x % 2 ^ s)
      regroup =
          ap (λ (t : ℕ). bit_xor t (d * 2 ^ s)) apart
          ∙ xor_assoc (x / 2 ^ s * 2 ^ s) (x % 2 ^ s) (d * 2 ^ s)
          ∙ ap (bit_xor (x / 2 ^ s * 2 ^ s)) (xor_comm (x % 2 ^ s) (d * 2 ^ s))
          ∙ sym (xor_assoc (x / 2 ^ s * 2 ^ s) (d * 2 ^ s) (x % 2 ^ s))
          ∙ ap (λ (t : ℕ). bit_xor t (x % 2 ^ s)) (xor-shl s (x / 2 ^ s) d)

      moved : steps n (x % 2 ^ s) ≡ x * 2 ^ n % 2 ^ suc h
      moved =
          steps_small n (x % 2 ^ s) (rw w (grind (arith, low, one-le-pow n 2 (omega arith))))
          ∙ sym (
              mul-mod_pow x (2 ^ s) (2 ^ n) (one-le-pow s 2 (omega arith))
                (one-le-pow n 2 (omega arith)))
          ∙ ap (λ (t : ℕ). x * 2 ^ n % t) (sym w)

  -- With an odd polynomial no register but zero steps to zero, so distinct registers stay distinct.
  next-eq-zero : (x : ℕ) → poly % 2 ≡ 1 → x < 2 ^ suc h → next x ≡ 0 → x ≡ 0
  unfolding next
  next-eq-zero x odd p e = digit (x / 2 ^ h % 2) refl (xor-eq-zero _ _ e)
    where
      doubled : x * 2 % 2 ^ suc h ≡ x % 2 ^ h * 2
      doubled =
          rw (pow-suc 2 h) (mul-mod_pow x (2 ^ h) 2 (one-le-pow h 2 (omega arith)) (omega arith))

      digit : (c : ℕ) → x / 2 ^ h % 2 ≡ c → x * 2 % 2 ^ suc h ≡ feedback c → x ≡ 0
      digit zero top low = grind (arith, doubled, pow-suc 2 h, div-add-mod' x (2 ^ h))
      digit (suc c) top low = absurd (omega (arith, doubled))

  steps-eq-zero :
      (n x : ℕ) → poly % 2 ≡ 1 → poly < 2 ^ suc h → x < 2 ^ suc h → steps n x ≡ 0 → x ≡ 0
  steps-eq-zero zero x odd p q e = e
  steps-eq-zero (suc n) x odd p q e =
      next-eq-zero x odd q (steps-eq-zero n (next x) odd p (next-lt x p) e)

  pub steps-injective :
      (n x y : ℕ)
      → poly % 2 ≡ 1
      → poly < 2 ^ suc h
      → x < 2 ^ suc h
      → y < 2 ^ suc h
      → steps n x ≡ steps n y
      → x ≡ y
  steps-injective n x y odd p qx qy e = xor-eq-zero x y (
      steps-eq-zero n (bit_xor x y) odd p (xor-lt (suc h) x y qx qy)
        (steps-xor n x y ∙ ap (λ (t : ℕ). bit_xor t (steps n y)) e ∙ xor_self (steps n y)))

  module _ (fits : poly < 2 ^ suc h) where
    -- The branch that the loops of the source take is a step of the register.
    pub next_branch :
        (x : ℕ)
        → (if bit_and x (2 ^ h) == 0 then x * 2 % 2 ^ suc h else bit_xor (x * 2) poly % 2 ^ suc h)
          ≡ next x
    unfolding next
    next_branch x = go (x / 2 ^ h % 2) refl
      where
        Branch : ℕ → Type 0
        Branch c =
            (if bit_and x (2 ^ h) == 0 then x * 2 % 2 ^ suc h else bit_xor (x * 2) poly % 2 ^ suc h)
            ≡ bit_xor (x * 2 % 2 ^ suc h) (feedback c)

        masked : bit_xor (x * 2) poly % 2 ^ suc h ≡ bit_xor (x * 2 % 2 ^ suc h) poly
        masked =
            xor-mask (suc h) (x * 2) poly ∙ ap (bit_xor (x * 2 % 2 ^ suc h)) (mod-eq_of_lt fits)

        go : (c : ℕ) → x / 2 ^ h % 2 ≡ c → Branch c
        go zero e =
            rw
              ((==_iff (bit_and x (2 ^ h)) 0).1
                (omega (arith, and_digit h x, ap (λ (t : ℕ). t * 2 ^ h) e)))
              (sym (xor-zero (x * 2 % 2 ^ suc h)))
        go (suc zero) e =
            rw
              (ne→== (bit_and x (2 ^ h)) 0 (λ z. absurd (
                omega (
                  arith,
                  z,
                  and_digit h x,
                  ap (λ (t : ℕ). t * 2 ^ h) e,
                  one-le-pow h 2 (omega arith),
                ))))
              masked
        go (suc (suc c)) e = absurd (omega (arith, e))

    -- A table of the runs of every field replaces the steps, for fields of `n` digits.
    pub table_step :
        (s n : ℕ) (table : ℕ → ℕ)
        → 2 ^ suc h ≡ 2 ^ s * 2 ^ n
        → ((i : ℕ) → i < 2 ^ n → table i ≡ steps n (i * 2 ^ s))
        → (x d : ℕ) → x < 2 ^ suc h
        → d < 2 ^ n
        → bit_xor (table (bit_xor (x / 2 ^ s) d)) (x * 2 ^ n) % 2 ^ suc h
          ≡ steps n (bit_xor x (d * 2 ^ s))
    table_step s n table w spec x d hx hd =
        xor-mask (suc h) (table i) (x * 2 ^ n)
        ∙ ap (λ (t : ℕ). bit_xor t (x * 2 ^ n % 2 ^ suc h)) looked_up
        ∙ sym (steps_field s n x d w)
      where
        i : ℕ
        i = bit_xor (x / 2 ^ s) d

        high : x / 2 ^ s < 2 ^ n
        high =
            (div-lt_iff_lt-mul (one-le-pow s 2 (omega arith))).1
              (grind (arith, w, mul_comm (2 ^ s)))

        i_fits : i < 2 ^ n
        i_fits = xor-lt n (x / 2 ^ s) d high hd

        looked_up : table i % 2 ^ suc h ≡ steps n (i * 2 ^ s)
        looked_up =
            ap (λ (t : ℕ). t % 2 ^ suc h) (spec i i_fits)
            ∙ mod-eq_of_lt (
                steps-lt n (i * 2 ^ s) fits
                  (rw w (grind (arith, i_fits, one-le-pow s 2 (omega arith)))))

    -- A byte is fed as two fields of four digits.
    pub two_fields :
        (s s' x hi lo : ℕ)
        → 2 ^ suc h ≡ 2 ^ s * 256
        → 2 ^ s' ≡ 2 ^ s * 16
        → lo < 16
        → steps 4 (bit_xor (steps 4 (bit_xor x (hi * 2 ^ s'))) (lo * 2 ^ s'))
          ≡ steps 8 (bit_xor x ((hi * 16 + lo) * 2 ^ s))
    two_fields s s' x hi lo w w' hlo = sym (ap (steps 4) inner)
      where
        field : bit_xor (hi * 2 ^ s') (lo * 2 ^ s) ≡ (hi * 16 + lo) * 2 ^ s
        field =
            ap (λ (t : ℕ). bit_xor t (lo * 2 ^ s)) (ap (λ (t : ℕ). hi * t) w' ∙ omega arith)
            ∙ xor-shl s (hi * 16) lo
            ∙ ap (λ (t : ℕ). t * 2 ^ s) (xor_fields 4 hi lo hlo)

        low : steps 4 (lo * 2 ^ s) ≡ lo * 2 ^ s'
        low =
            steps_small 4 (lo * 2 ^ s) (rw w (grind (arith, hlo, one-le-pow s 2 (omega arith))))
            ∙ omega (arith, ap (λ (t : ℕ). lo * t) w')

        inner :
            steps 4 (bit_xor x ((hi * 16 + lo) * 2 ^ s))
            ≡ bit_xor (steps 4 (bit_xor x (hi * 2 ^ s'))) (lo * 2 ^ s')
        inner =
            ap (λ (t : ℕ). steps 4 (bit_xor x t)) (sym field)
            ∙ ap (steps 4) (sym (xor_assoc x (hi * 2 ^ s') (lo * 2 ^ s)))
            ∙ steps-xor 4 (bit_xor x (hi * 2 ^ s')) (lo * 2 ^ s)
            ∙ ap (bit_xor (steps 4 (bit_xor x (hi * 2 ^ s')))) low
