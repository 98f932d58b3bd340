-- ===== src/Prelude/Bits.antt =====
-- Laws of `^` and `&` on words of every width, from the recursion on binary digits for which the
-- native operations stand.
use Prim.Native.Nat.{
  ℕ, zero, suc, ◌+◌, ◌-◌, ◌*◌, ◌/◌, ◌%◌, ◌^◌, ◌≤◌, ◌<◌, min, bit_and, bit_xor, differ, digits,
  bitwise, bit_and-bitwise, bit_xor-bitwise,
}
use mathlib.Core.Path.{◌≡◌, refl, sym, ap, ap₂, ◌∙◌}
use native.Mathlib.Omega.{arith}
use native.Mathlib.Decide.{ℕ_discrete}
use native.Mathlib.Nat.{
  pow-suc, pow-succ', mul-one, div-one, mod-one, div-div-eq-div-mul, div-add-mod, one-le-pow,
}

double : (q k : ℕ) → q * 2 ^ suc k ≡ 2 * (q * 2 ^ k)
double q k = omega (arith, ap (λ (t : ℕ). q * t) (pow-suc 2 k))

halve : (q k : ℕ) → q * 2 ^ suc k / 2 ≡ q * 2 ^ k
halve q k = omega (arith, double q k)

shr-suc : (k a : ℕ) → a / 2 ^ suc k ≡ a / 2 / 2 ^ k
shr-suc k a = rw (pow-succ' 2 k, div-div-eq-div-mul a 2 (2 ^ k))

mask-suc : (k a : ℕ) → a % 2 ^ suc k ≡ 2 * (a / 2 % 2 ^ k) + a % 2
mask-suc k a =
    let q = a / 2 / 2 ^ k in
    omega (
      arith,
      div-add-mod a (2 ^ suc k),
      div-add-mod (a / 2) (2 ^ k),
      ap (λ (t : ℕ). 2 ^ suc k * t) (shr-suc k a),
      ap (λ (t : ℕ). t * q) (pow-suc 2 k),
    )

half-mask : (k a : ℕ) → a % 2 ^ suc k / 2 ≡ a / 2 % 2 ^ k
half-mask k a = omega (arith, mask-suc k a)

half-ones : (k : ℕ) → (2 ^ suc k - 1) / 2 ≡ 2 ^ k - 1
half-ones k = omega (arith, pow-suc 2 k, one-le-pow k 2 (omega arith))

half-pow : (k : ℕ) → 2 ^ suc k / 2 ≡ 2 ^ k
half-pow k = omega (arith, pow-suc 2 k)

-- Fuel beyond the first number changes nothing.
module _ (end : ℕ → ℕ) (g : ℕ → ℕ → ℕ) where
  one_more : (k a b : ℕ) → a ≤ k → digits end g (suc k) a b ≡ digits end g k a b
  one_more zero zero b le = refl
  one_more (suc k) zero b le = refl
  one_more (suc k) (suc a) b le = rw (one_more k (suc a / 2) (b / 2) (omega arith))
  one_more zero (suc a) b le = absurd (omega arith)

  enough : (k a b : ℕ) → a ≤ k → digits end g k a b ≡ bitwise end g a b
  enough zero zero b le = refl
  enough zero (suc a) b le = absurd (omega arith)
  enough (suc k) a b le = elim (ℕ_discrete a (suc k)) [
    | yes same ↦ rw same
    | no less ↦ let below : a ≤ k = omega (arith, less) in one_more k a b below ∙ enough k a b below
  ]

  bitwise-suc :
      (a b : ℕ)
      → bitwise end g (suc a) b ≡ bitwise end g (suc a / 2) (b / 2) * 2 + g (suc a % 2) (b % 2)
  bitwise-suc a b = rw (sym (enough a (suc a / 2) (b / 2) (omega arith)))

-- On single digits the native `differ` is addition modulo 2.
differ_bits : (x y : ℕ) → x < 2 → y < 2 → differ x y ≡ (x + y) % 2
differ_bits zero zero p q = refl
differ_bits zero (suc zero) p q = refl
differ_bits zero (suc (suc y)) p q = absurd (omega arith)
differ_bits (suc zero) zero p q = refl
differ_bits (suc zero) (suc zero) p q = refl
differ_bits (suc zero) (suc (suc y)) p q = absurd (omega arith)
differ_bits (suc (suc x)) y p q = absurd (omega arith)

pub zero-xor : (b : ℕ) → bit_xor 0 b ≡ b
zero-xor b = simp bit_xor-bitwise

-- The lowest digit of a sum modulo 2, and the rest.
pub xor_step : (a b : ℕ) → bit_xor a b ≡ bit_xor (a / 2) (b / 2) * 2 + (a + b) % 2
xor_step zero b = omega (arith, zero-xor b, zero-xor (b / 2))
xor_step (suc a) b = omega (
  arith,
  bit_xor-bitwise (suc a) b,
  bit_xor-bitwise (suc a / 2) (b / 2),
  bitwise-suc (λ y. y) differ a b,
  differ_bits (suc a % 2) (b % 2) (omega arith) (omega arith),
)

pub and_step : (a b : ℕ) → bit_and a b ≡ bit_and (a / 2) (b / 2) * 2 + min (a % 2) (b % 2)
and_step zero b = simp bit_and-bitwise (omega arith)
and_step (suc a) b = simp bit_and-bitwise (bitwise-suc (λ y. 0) min a b)

pub half-xor : (x y : ℕ) → bit_xor x y / 2 ≡ bit_xor (x / 2) (y / 2)
half-xor x y = omega (arith, xor_step x y)

-- Equations between words follow from those of their digits: induction on a common bound.
xor_comm_below : (n a b : ℕ) → a ≤ n → b ≤ n → bit_xor a b ≡ bit_xor b a
xor_comm_below zero zero zero p q = refl
xor_comm_below zero zero (suc b) p q = absurd (omega arith)
xor_comm_below zero (suc a) b p q = absurd (omega arith)
xor_comm_below (suc n) a b p q = omega (
  arith,
  xor_step a b,
  xor_step b a,
  xor_comm_below n (a / 2) (b / 2) (omega arith) (omega arith),
)

pub xor_comm : (a b : ℕ) → bit_xor a b ≡ bit_xor b a
xor_comm a b = xor_comm_below (a + b) a b (omega arith) (omega arith)

xor_assoc_below :
    (n a b c : ℕ) → a ≤ n → b ≤ n → c ≤ n → bit_xor (bit_xor a b) c ≡ bit_xor a (bit_xor b c)
xor_assoc_below zero zero zero zero p q r = refl
xor_assoc_below zero zero zero (suc c) p q r = absurd (omega arith)
xor_assoc_below zero zero (suc b) c p q r = absurd (omega arith)
xor_assoc_below zero (suc a) b c p q r = absurd (omega arith)
xor_assoc_below (suc n) a b c p q r =
    let ih = xor_assoc_below n (a / 2) (b / 2) (c / 2) (omega arith) (omega arith) (omega arith) in
    let left : bit_xor (bit_xor a b / 2) (c / 2) ≡ bit_xor (a / 2) (bit_xor b c / 2) =
      rw (half-xor a b, half-xor b c) ih in
    omega
      (arith, left, xor_step a b, xor_step b c, xor_step (bit_xor a b) c, xor_step a (bit_xor b c))

pub xor_assoc : (a b c : ℕ) → bit_xor (bit_xor a b) c ≡ bit_xor a (bit_xor b c)
xor_assoc a b c = xor_assoc_below (a + b + c) a b c (omega arith) (omega arith) (omega arith)

xor_self_below : (n a : ℕ) → a ≤ n → bit_xor a a ≡ 0
xor_self_below zero zero p = refl
xor_self_below zero (suc a) p = absurd (omega arith)
xor_self_below (suc n) a p = omega (arith, xor_step a a, xor_self_below n (a / 2) (omega arith))

pub xor_self : (a : ℕ) → bit_xor a a ≡ 0
xor_self a = xor_self_below a a (omega arith)

pub xor-zero : (a : ℕ) → bit_xor a 0 ≡ a
xor-zero a = xor_comm a 0 ∙ zero-xor a

-- Shifts and masks by `k` digits act on each side of a sum modulo 2.
pub xor-shl : (k a b : ℕ) → bit_xor (a * 2 ^ k) (b * 2 ^ k) ≡ bit_xor a b * 2 ^ k
xor-shl zero a b = simp mul-one
xor-shl (suc k) a b = omega (
  arith,
  double a k,
  double b k,
  double (bit_xor a b) k,
  xor_step (a * 2 ^ suc k) (b * 2 ^ suc k),
  xor-shl k a b,
  ap₂ bit_xor (halve a k) (halve b k),
)

pub xor-shr : (k a b : ℕ) → bit_xor a b / 2 ^ k ≡ bit_xor (a / 2 ^ k) (b / 2 ^ k)
xor-shr zero a b = simp div-one
xor-shr (suc k) a b =
    rw (shr-suc k (bit_xor a b), shr-suc k a, shr-suc k b, half-xor a b) (xor-shr k (a / 2) (b / 2))

pub xor-mask : (k a b : ℕ) → bit_xor a b % 2 ^ k ≡ bit_xor (a % 2 ^ k) (b % 2 ^ k)
xor-mask zero a b = simp mod-one
xor-mask (suc k) a b = omega (
  arith,
  mask-suc k (bit_xor a b),
  mask-suc k a,
  mask-suc k b,
  half-xor a b,
  xor_step a b,
  xor_step (a % 2 ^ suc k) (b % 2 ^ suc k),
  ap (λ (t : ℕ). t % 2 ^ k) (half-xor a b),
  xor-mask k (a / 2) (b / 2),
  ap₂ bit_xor (half-mask k a) (half-mask k b),
)

pub xor-lt : (k a b : ℕ) → a < 2 ^ k → b < 2 ^ k → bit_xor a b < 2 ^ k
xor-lt zero a b p q = ground (arith, zero-xor 0)
xor-lt (suc k) a b p q = omega (
  arith,
  pow-suc 2 k,
  xor_step a b,
  xor-lt k (a / 2) (b / 2) (omega (arith, pow-suc 2 k)) (omega (arith, pow-suc 2 k)),
)

-- Fields that do not overlap: the sum modulo 2 is the sum.
pub xor_fields : (k q r : ℕ) → r < 2 ^ k → bit_xor (q * 2 ^ k) r ≡ q * 2 ^ k + r
xor_fields zero q r p = let e : r ≡ 0 = omega arith in rw (e, xor-zero) (omega arith)
xor_fields (suc k) q r p = omega (
  arith,
  double q k,
  pow-suc 2 k,
  xor_step (q * 2 ^ suc k) r,
  ap (λ (t : ℕ). bit_xor t (r / 2)) (halve q k),
  xor_fields k q (r / 2) (omega (arith, pow-suc 2 k)),
)

-- `&` with a run of low ones is the remainder, and with a single one it picks that digit.
and-zero_below : (k a : ℕ) → a ≤ k → bit_and a 0 ≡ 0
and-zero_below zero a le = let z : a ≡ 0 = omega arith in rw z
and-zero_below (suc k) a le = omega (and_step a 0, arith, and-zero_below k (a / 2) (omega arith))

pub and-zero : (a : ℕ) → bit_and a 0 ≡ 0
and-zero a = let le : a ≤ a = omega arith in and-zero_below a a le

pub and_mask : (k a : ℕ) → bit_and a (2 ^ k - 1) ≡ a % 2 ^ k
and_mask zero a = simp (and-zero, mod-one)
and_mask (suc k) a = omega (
  arith,
  pow-suc 2 k,
  one-le-pow k 2 (omega arith),
  and_step a (2 ^ suc k - 1),
  ap (bit_and (a / 2)) (half-ones k),
  mask-suc k a,
  and_mask k (a / 2),
)

pub and_digit : (k a : ℕ) → bit_and a (2 ^ k) ≡ a / 2 ^ k % 2 * 2 ^ k
and_digit zero a = omega (arith, and_step a 1, and-zero (a / 2))
and_digit (suc k) a = omega (
  arith,
  pow-suc 2 k,
  and_step a (2 ^ suc k),
  ap (bit_and (a / 2)) (half-pow k),
  and_digit k (a / 2),
  shr-suc k a,
  ap (λ (t : ℕ). t % 2 * 2 ^ suc k) (shr-suc k a),
  double (a / 2 / 2 ^ k % 2) k,
)

pub and_shl : (k a m : ℕ) → bit_and a (m * 2 ^ k) ≡ bit_and (a / 2 ^ k) m * 2 ^ k
and_shl zero a m = simp (mul-one, div-one)
and_shl (suc k) a m = omega (
  arith,
  double m k,
  double (bit_and (a / 2 / 2 ^ k) m) k,
  and_step a (m * 2 ^ suc k),
  ap (bit_and (a / 2)) (halve m k),
  and_shl k (a / 2) m,
  ap (λ (t : ℕ). bit_and t m * 2 ^ suc k) (shr-suc k a),
)

-- The digits above the lowest `k` and the lowest `k` apart.
pub and_fields :
    (k a b : ℕ)
    → bit_and a b ≡ bit_and (a / 2 ^ k) (b / 2 ^ k) * 2 ^ k + bit_and (a % 2 ^ k) (b % 2 ^ k)
and_fields zero a b = simp (mul-one, div-one, mod-one) (omega (arith, and-zero 0))
and_fields (suc k) a b = omega (
  arith,
  double (bit_and (a / 2 / 2 ^ k) (b / 2 / 2 ^ k)) k,
  and_step a b,
  and_fields k (a / 2) (b / 2),
  and_step (a % 2 ^ suc k) (b % 2 ^ suc k),
  mask-suc k a,
  mask-suc k b,
  ap₂ bit_and (half-mask k a) (half-mask k b),
  ap₂ (λ (s t : ℕ). bit_and s t * 2 ^ suc k) (shr-suc k a) (shr-suc k b),
)

pub xor-eq-zero : (a b : ℕ) → bit_xor a b ≡ 0 → a ≡ b
xor-eq-zero a b h =
    sym (xor-zero a)
    ∙ ap (bit_xor a) (sym (xor_self b))
    ∙ sym (xor_assoc a b b)
    ∙ ap (λ (t : ℕ). bit_xor t b) h
    ∙ zero-xor b

pub xor_swap :
    (a b c d : ℕ) → bit_xor (bit_xor a b) (bit_xor c d) ≡ bit_xor (bit_xor a c) (bit_xor b d)
xor_swap a b c d =
    xor_assoc a b (bit_xor c d)
    ∙ ap (bit_xor a) (sym (xor_assoc b c d))
    ∙ ap (λ (t : ℕ). bit_xor a (bit_xor t d)) (xor_comm b c)
    ∙ ap (bit_xor a) (xor_assoc c b d)
    ∙ sym (xor_assoc a c (bit_xor b d))

pub xor_cancel : (c a b : ℕ) → bit_xor c a ≡ bit_xor c b → a ≡ b
xor_cancel c a b e = sym (undo a) ∙ ap (bit_xor c) e ∙ undo b
  where
    undo : (x : ℕ) → bit_xor c (bit_xor c x) ≡ x
    undo x = sym (xor_assoc c c x) ∙ ap (λ (t : ℕ). bit_xor t x) (xor_self c) ∙ zero-xor x

pub xor_cancel_right : (c a b : ℕ) → bit_xor a c ≡ bit_xor b c → a ≡ b
xor_cancel_right c a b e = xor_cancel c a b (xor_comm c a ∙ e ∙ xor_comm b c)
