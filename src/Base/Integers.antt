-- ===== src/Base/Integers.antt =====
-- Integers, without a bound, over the native numbers.
use Prim.Native.Nat.{ℕ, suc, ◌+◌, ◌-◌, ◌/◌}
use mathlib.Core.Path.{◌≡◌}
use mathlib.Core.Bool.{Bool}
use native.Mathlib.Omega.{arith}
use tyk_pump.Base.Tests.{ltb, leb, if◌then◌else◌}

-- `negsuc n` is -(n + 1).
pub data ℤ : Type 0 where
  pos : ℕ → ℤ
  negsuc : ℕ → ℤ

abbrev pub plus_part : ℤ → ℕ
plus_part (pos n) = n
plus_part (negsuc n) = 0

abbrev pub minus_part : ℤ → ℕ
minus_part (pos n) = 0
minus_part (negsuc n) = suc n

-- The difference of two numbers.
unfoldable pub ◌-ℕ◌ : ℕ → ℕ → ℤ
a -ℕ b = if leb b a then pos (a - b) else negsuc (b - a - 1)

infixl 65 ◌-ℕ◌ ◌+ℤ◌ ◌-ℤ◌
unfoldable pub ◌+ℤ◌ : ℤ → ℤ → ℤ
a +ℤ b = (plus_part a + plus_part b) -ℕ (minus_part a + minus_part b)

unfoldable pub ◌-ℤ◌ : ℤ → ℤ → ℤ
a -ℤ b = (plus_part a + minus_part b) -ℕ (minus_part a + plus_part b)

unfoldable pub abs : ℤ → ℤ
abs a = pos (plus_part a + minus_part a)

-- The half of an even integer.
unfoldable pub halve : ℤ → ℤ
halve a = (plus_part a / 2) -ℕ (minus_part a / 2)

unfoldable pub ltb_ℤ : ℤ → ℤ → Bool
ltb_ℤ a b = ltb (plus_part a + minus_part b) (plus_part b + minus_part a)

-- The larger and the smaller of two integers.
unfoldable pub larger : ℤ → ℤ → ℤ
larger a b = if ltb_ℤ a b then b else a

unfoldable pub smaller : ℤ → ℤ → ℤ
smaller a b = if ltb_ℤ a b then a else b

pub half_larger : (a b : ℤ) → halve ((a +ℤ b) +ℤ abs (a -ℤ b)) ≡ larger a b
unfolding halve ◌+ℤ◌ ◌-ℤ◌ ◌-ℕ◌ abs larger ltb_ℤ
half_larger (pos a) (pos b) = ground arith
half_larger (pos a) (negsuc b) = ground arith
half_larger (negsuc a) (pos b) = ground arith
half_larger (negsuc a) (negsuc b) = ground arith

pub half_smaller : (a b : ℤ) → halve ((a +ℤ b) -ℤ abs (a -ℤ b)) ≡ smaller a b
unfolding halve ◌+ℤ◌ ◌-ℤ◌ ◌-ℕ◌ abs smaller ltb_ℤ
half_smaller (pos a) (pos b) = ground arith
half_smaller (pos a) (negsuc b) = ground arith
half_smaller (negsuc a) (pos b) = ground arith
half_smaller (negsuc a) (negsuc b) = ground arith
