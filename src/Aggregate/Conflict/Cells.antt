-- ===== src/Aggregate/Conflict/Cells.antt =====
-- analytics/aggregate.go: the rows of a table of aggregates, and the arithmetic of their columns.
use tyk_pump.Base.{
  List, [], ◌∷◌, Option, none, some, Text, text, map, if◌then◌else◌, ℤ, ◌+ℤ◌, ◌-ℤ◌, abs, halve,
}
use tyk_pump.Aggregate.Conflict.{counter_column, is_one_of, averaged_tags}

-- The database: its real numbers, and what the columns of texts and times hold.
pub record Reals : Type 1 where
  pub R : Type 0
  pub Other : Type 0
  pub of_integer : ℤ → R
  pub add : R → R → R
  pub subtract : R → R → R
  pub magnitude : R → R
  pub halve_real : R → R
  pub divide : R → R → R

-- The columns of `float64`, and those of texts and times.
abbrev pub real_columns : List Text
real_columns = map counter_column (text "total_request_time" ∷ averaged_tags)

abbrev pub other_columns : List Text
other_columns =
    map counter_column (text "identifier" ∷ text "human_identifier" ∷ text "last_time" ∷ [])

module _ (reals : Reals) where
  open reals use {R, Other, of_integer, add, subtract, magnitude, halve_real, divide}

  -- A row, by its columns.
  pub record Row : Type 0 where
    pub integers : Text → ℤ
    pub floats : Text → R
    pub others : Text → Other

  -- What an expression gives; `invalid` where it is no number.
  pub data Cell : Type 0 where
    whole : ℤ → Cell
    real : R → Cell
    other : Other → Cell
    invalid : Cell

  abbrev pub cell : Row → Text → Cell
  cell r col =
      if is_one_of col real_columns
      then real (r.floats col)
      else if is_one_of col other_columns
      then other (r.others col)
      else whole (r.integers col)

  abbrev pub to_real : Cell → Option R
  to_real (whole z) = some (of_integer z)
  to_real (real x) = some x
  to_real (other o) = none
  to_real invalid = none

  abbrev pub on_reals : (R → R → R) → Option R → Option R → Cell
  on_reals f none y = invalid
  on_reals f (some x) none = invalid
  on_reals f (some x) (some y) = real (f x y)

  -- Arithmetic of integers where both are integers, and of reals otherwise.
  abbrev pub arithmetic : (ℤ → ℤ → ℤ) → (R → R → R) → Cell → Cell → Cell
  arithmetic f g (whole a) (whole b) = whole (f a b)
  arithmetic f g (whole a) (real y) = real (g (of_integer a) y)
  arithmetic f g (whole a) (other o) = invalid
  arithmetic f g (whole a) invalid = invalid
  arithmetic f g (real x) d = on_reals g (some x) (to_real d)
  arithmetic f g (other o) d = invalid
  arithmetic f g invalid d = invalid

  abbrev pub on_number : (ℤ → ℤ) → (R → R) → Cell → Cell
  on_number f g (whole a) = whole (f a)
  on_number f g (real x) = real (g x)
  on_number f g (other o) = invalid
  on_number f g invalid = invalid

  abbrev pub plus_cell : Cell → Cell → Cell
  plus_cell = arithmetic (λ a b. a +ℤ b) add

  abbrev pub minus_cell : Cell → Cell → Cell
  minus_cell = arithmetic (λ a b. a -ℤ b) subtract

  abbrev pub far_cell : Cell → Cell → Cell
  far_cell c d = on_number abs magnitude (minus_cell c d)

  abbrev pub half_cell : Cell → Cell
  half_cell = on_number halve halve_real

  abbrev pub divide_cell : Cell → Cell → Cell
  divide_cell c d = on_reals divide (to_real c) (to_real d)
