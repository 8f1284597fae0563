-- ===== src/Base/Words.antt =====
-- Go's `int` and `int64`: 64-bit words in two's complement, kept as the number below 2 ^ 64 that
-- has their bits. Addition wraps; an order test compares the values as signed numbers.
use Prim.Native.Nat.{ℕ, ◌+◌, ◌-◌, ◌%◌, ◌<◌}
use mathlib.Core.Path.{◌≡◌}
use mathlib.Core.Bool.{Bool}
use native.Mathlib.Omega.{arith}
use tyk_pump.Base.Tests.{ltb, leb}

abbrev pub Int64 : Type 0
Int64 = ℕ

-- `a + b`
unfoldable pub add64 : Int64 → Int64 → Int64
add64 a b = (a + b) % 18446744073709551616

-- `a - b`
unfoldable pub sub64 : Int64 → Int64 → Int64
sub64 a b = (a + 18446744073709551616 - b % 18446744073709551616) % 18446744073709551616

-- Where a word stands among the signed numbers, counted from the least of them.
abbrev pub rank : Int64 → ℕ
rank a = (a + 9223372036854775808) % 18446744073709551616

-- `a < b`
unfoldable pub lt64 : Int64 → Int64 → Bool
lt64 a b = ltb (rank a) (rank b)

-- `a <= b`
unfoldable pub le64 : Int64 → Int64 → Bool
le64 a b = leb (rank a) (rank b)

-- -1
abbrev pub minus_one : Int64
minus_one = 18446744073709551615

-- On numbers that are not negative the signed test is the test on numbers.
pub lt64-nonneg : (a b : ℕ) → a < 9223372036854775808 → b < 9223372036854775808 → lt64 a b ≡ ltb a b
unfolding lt64
lt64-nonneg a b h k = ground arith
