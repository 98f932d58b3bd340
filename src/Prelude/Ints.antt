-- ===== src/Prelude/Ints.antt =====
-- Signed integers over the native numbers, with the tests that C code makes of them.
use Prim.Native.Nat.{ℕ, ◌-◌, ◌%◌, ◌^◌, ◌≤◌}
use mathlib.Core.Path.{◌≡◌}
use mathlib.Core.Bool.{Bool, true, false}
use native.Mathlib.Omega.{arith}
use cstone.Prelude.Tests.{ltb, leb, if◌then◌else◌}

pub data ℤ : Type 0 where
  pos : ℕ → ℤ
  negsuc : ℕ → ℤ

infixl 60 ◌⊖◌
-- The difference of two numbers.
unfoldable pub ◌⊖◌ : ℕ → ℕ → ℤ
a ⊖ b = if leb b a then pos (a - b) else negsuc (b - a - 1)

unfoldable pub is_neg : ℤ → Bool
is_neg (pos n) = false
is_neg (negsuc n) = true

unfoldable pub is_pos : ℤ → Bool
is_pos (pos n) = ltb 0 n
is_pos (negsuc n) = false

unfoldable pub ltbℤ : ℤ → ℤ → Bool
ltbℤ (pos a) (pos b) = ltb a b
ltbℤ (pos a) (negsuc b) = false
ltbℤ (negsuc a) (pos b) = true
ltbℤ (negsuc a) (negsuc b) = ltb b a

pub is_neg-⊖ : (a b : ℕ) → is_neg (a ⊖ b) ≡ ltb a b
unfolding is_neg ◌⊖◌
is_neg-⊖ a b = ground arith

pub is_pos-⊖ : (a b : ℕ) → is_pos (a ⊖ b) ≡ ltb b a
unfolding is_pos ◌⊖◌
is_pos-⊖ a b = ground arith

pub ltbℤ-⊖ : (a b c d : ℕ) → b ≤ a → d ≤ c → ltbℤ (a ⊖ b) (c ⊖ d) ≡ ltb (a - b) (c - d)
unfolding ltbℤ ◌⊖◌
ltbℤ-⊖ a b c d p q = ground arith

-- The two's complement of `w` bits, and the number that such bits stand for.
unfoldable pub of_int : ℕ → ℤ → ℕ
of_int w (pos n) = n % 2 ^ w
of_int w (negsuc n) = 2 ^ w - 1 - n % 2 ^ w

unfoldable pub to_int : ℕ → ℕ → ℤ
to_int w x = if ltb x (2 ^ (w - 1)) then pos x else negsuc (2 ^ w - 1 - x)
