-- ===== src/Floats.antt =====
-- Go's `float64` arithmetic, which is not modelled: the operations that tyk-pump calls are the
-- fields of a record, on the 64 bits of a value. No theorem assumes a law of them.
use tyk_pump.Base.{◌+◌, ◌/◌, Int64}
use tyk_pump.Analytics.Record.{Float64}

pub record FloatOps : Type 0 where
  -- `float64(n)` of an integer
  pub of_int : Int64 → Float64
  pub add : Float64 → Float64 → Float64
  pub div : Float64 → Float64 → Float64

-- Whole numbers in place of floats, for examples.
abbrev pub whole : FloatOps
whole = record { of_int = λ n. n; add = λ a b. a + b; div = λ a b. a / b }
