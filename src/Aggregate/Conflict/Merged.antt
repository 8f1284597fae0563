-- ===== src/Aggregate/Conflict/Merged.antt =====
-- analytics/aggregate.go: the row that `OnConflictAssignments` makes of two.
use tyk_pump.Base.{
  ◌≡◌, refl, ap, ◌∙◌, false, List, [], ◌∷◌, ◌++◌, Option, none, some, Text, text, same, lookup, All,
  map, map-All, if_false, if◌then◌else◌, ℤ, ◌+ℤ◌, larger, smaller, half_larger, half_smaller,
}
use tyk_pump.Aggregate.Codes.{code_names}
use tyk_pump.Aggregate.Conflict.{
  Expr, column, plus, minus, abs_difference, half, quotient, both_rows, difference, counter_column,
  code_column, counter_assignment, counter_assignments, on_conflict_assignments,
}
use tyk_pump.Aggregate.Conflict.Cells.{
  Reals, Row, Cell, whole, real, other, cell, plus_cell, minus_cell, far_cell, half_cell,
  divide_cell,
}

-- The tags of the sums of integers.
abbrev pub counted_tags : List Text
counted_tags =
    text "hits"
    ∷ text "error"
    ∷ text "success"
    ∷ text "open_connections"
    ∷ text "closed_connections"
    ∷ text "bytes_in"
    ∷ text "bytes_out"
    ∷ text "total_latency"
    ∷ text "total_upstream_latency"
    ∷ []

abbrev pub maximum_tags : List Text
maximum_tags = text "max_upstream_latency" ∷ text "max_latency" ∷ []

abbrev pub minimum_tags : List Text
minimum_tags = text "min_upstream_latency" ∷ text "min_latency" ∷ []

module _ (reals : Reals) (table_name : Text) (old new : Row reals) where
  -- The value of an expression, where `excluded` is the row that is inserted.
  abbrev pub value : Expr → Cell reals
  value (column t col) = if same t (text "excluded") then cell reals new col else cell reals old col
  value (plus a b) = plus_cell reals (value a) (value b)
  value (minus a b) = minus_cell reals (value a) (value b)
  value (abs_difference a b) = far_cell reals (value a) (value b)
  value (half a) = half_cell reals (value a)
  value (quotient a b) = divide_cell reals (value a) (value b)

  abbrev value_or : Cell reals → Option Expr → Cell reals
  value_or c none = c
  value_or c (some e) = value e

  -- A column of the row after the conflict.
  unfoldable pub merged : Text → Cell reals
  merged col =
      value_or (cell reals old col)
        (lookup col (on_conflict_assignments table_name (text "excluded")))

  -- The sum of both rows in a column of integers.
  abbrev pub sum_of_both : Text → ℤ
  sum_of_both col = old.integers col +ℤ new.integers col

  -- What the columns hold after a conflict.
  pub record Merges : Type 0 where
    pub codes :
        All (λ tag. merged (code_column tag) ≡ whole (sum_of_both (code_column tag))) code_names
    pub sums :
        All
          (λ tag. merged (counter_column tag) ≡ whole (sum_of_both (counter_column tag)))
          counted_tags
    pub total_time :
        merged (text "counter_total_request_time")
        ≡ real (
            reals.add
              (old.floats (text "counter_total_request_time"))
              (new.floats (text "counter_total_request_time")))
    pub average_time :
        merged (text "counter_request_time")
        ≡ real (
            reals.divide
              (reals.add
                (old.floats (text "counter_total_request_time"))
                (new.floats (text "counter_total_request_time")))
              (reals.of_integer (sum_of_both (text "counter_hits"))))
    pub averages :
        All
          (λ tag.
            merged (counter_column tag)
            ≡ real (
                reals.divide
                  (reals.of_integer (sum_of_both (counter_column (text "total_" ++ tag))))
                  (reals.of_integer (sum_of_both (text "counter_hits")))))
          (text "upstream_latency" ∷ text "latency" ∷ [])
    pub maxima :
        All
          (λ tag.
            merged (counter_column tag)
            ≡ whole
                (larger (old.integers (counter_column tag)) (new.integers (counter_column tag))))
          maximum_tags
    pub minima :
        All
          (λ tag.
            merged (counter_column tag)
            ≡ whole
                (smaller (old.integers (counter_column tag)) (new.integers (counter_column tag))))
          minimum_tags
    pub latest : merged (text "counter_last_time") ≡ other (new.others (text "counter_last_time"))
    pub names :
        All
          (λ tag. merged (counter_column tag) ≡ other (old.others (counter_column tag)))
          (text "identifier" ∷ text "human_identifier" ∷ [])

  module _ (named : same table_name (text "excluded") ≡ false) where
    column_old : (col : Text) → value (column table_name col) ≡ cell reals old col
    column_old col = if_false _ _ _ named

    value-both_rows :
        (col : Text)
        → value (both_rows table_name (text "excluded") col)
          ≡ plus_cell reals (cell reals old col) (cell reals new col)
    unfolding same
    value-both_rows col = ap (λ c. plus_cell reals c (cell reals new col)) (column_old col)

    value-maximum :
        (col : Text)
        → value (
            half (
              plus
                (both_rows table_name (text "excluded") col)
                (difference table_name (text "excluded") col)))
          ≡ half_cell reals (
              plus_cell reals
                (plus_cell reals (cell reals old col) (cell reals new col))
                (far_cell reals (cell reals old col) (cell reals new col)))
    unfolding same
    value-maximum col =
        ap
          (λ c. half_cell reals (
            plus_cell reals (plus_cell reals c (cell reals new col))
              (far_cell reals c (cell reals new col))))
          (column_old col)

    value-minimum :
        (col : Text)
        → value (
            half (
              minus
                (both_rows table_name (text "excluded") col)
                (difference table_name (text "excluded") col)))
          ≡ half_cell reals (
              minus_cell reals
                (plus_cell reals (cell reals old col) (cell reals new col))
                (far_cell reals (cell reals old col) (cell reals new col)))
    unfolding same
    value-minimum col =
        ap
          (λ c. half_cell reals (
            minus_cell reals (plus_cell reals c (cell reals new col))
              (far_cell reals c (cell reals new col))))
          (column_old col)

    value-average :
        (total : Text)
        → value (
            quotient
              (both_rows table_name (text "excluded") total)
              (both_rows table_name (text "excluded") (text "counter_hits")))
          ≡ divide_cell reals (plus_cell reals (cell reals old total) (cell reals new total)) (
              plus_cell reals
                (cell reals old (text "counter_hits"))
                (cell reals new (text "counter_hits")))
    value-average total =
        ap
          (λ c.
            divide_cell reals c
              (value (both_rows table_name (text "excluded") (text "counter_hits"))))
          (value-both_rows total)
        ∙ ap
            (λ c.
              divide_cell reals (plus_cell reals (cell reals old total) (cell reals new total)) c)
            (value-both_rows (text "counter_hits"))

    -- A column that has an assignment gets its value.
    assigned :
        (col : Text) (e : Expr) {c d : Cell reals}
        → lookup col (on_conflict_assignments table_name (text "excluded")) ≡ some e
        → value e ≡ c
        → c ≡ d
        → merged col ≡ d
    unfolding merged
    assigned col e h v k = ap (value_or (cell reals old col)) h ∙ v ∙ k

    summed :
        (col : Text → Text) (tags : List Text)
        → map (λ tag. lookup (col tag) (on_conflict_assignments table_name (text "excluded"))) tags
          ≡ map (λ tag. some (both_rows table_name (text "excluded") (col tag))) tags
        → map (λ tag. plus_cell reals (cell reals old (col tag)) (cell reals new (col tag))) tags
          ≡ map (λ tag. whole (sum_of_both (col tag))) tags
        → All (λ tag. merged (col tag) ≡ whole (sum_of_both (col tag))) tags
    summed col tags h k = over tags (map-All _ _ tags h) (map-All _ _ tags k)
      where
        over :
            (tags : List Text)
            → All
                (λ tag.
                  lookup (col tag) (on_conflict_assignments table_name (text "excluded"))
                  ≡ some (both_rows table_name (text "excluded") (col tag)))
                tags
            → All
                (λ tag.
                  plus_cell reals (cell reals old (col tag)) (cell reals new (col tag))
                  ≡ whole (sum_of_both (col tag)))
                tags
            → All (λ tag. merged (col tag) ≡ whole (sum_of_both (col tag))) tags
        over [] a b = tt
        over (tag ∷ tags) a b =
            (assigned (col tag) _ a.0 (value-both_rows (col tag)) b.0, over tags a.1 b.1)

    -- The column of a maximum, and that of a minimum.
    maximum :
        (tag : Text)
        → lookup (counter_column tag) (on_conflict_assignments table_name (text "excluded"))
          ≡ some (
              half (
                plus
                  (both_rows table_name (text "excluded") (counter_column tag))
                  (difference table_name (text "excluded") (counter_column tag))))
        → ((r : Row reals)
            → cell reals r (counter_column tag) ≡ whole (r.integers (counter_column tag)))
        → merged (counter_column tag)
          ≡ whole (larger (old.integers (counter_column tag)) (new.integers (counter_column tag)))
    maximum tag h k =
        assigned (counter_column tag) _ h (value-maximum (counter_column tag))
          (rw (k old, k new) (ap whole (half_larger _ _)))

    minimum :
        (tag : Text)
        → lookup (counter_column tag) (on_conflict_assignments table_name (text "excluded"))
          ≡ some (
              half (
                minus
                  (both_rows table_name (text "excluded") (counter_column tag))
                  (difference table_name (text "excluded") (counter_column tag))))
        → ((r : Row reals)
            → cell reals r (counter_column tag) ≡ whole (r.integers (counter_column tag)))
        → merged (counter_column tag)
          ≡ whole (smaller (old.integers (counter_column tag)) (new.integers (counter_column tag)))
    minimum tag h k =
        assigned (counter_column tag) _ h (value-minimum (counter_column tag))
          (rw (k old, k new) (ap whole (half_smaller _ _)))

    -- Where a row is inserted into a table, whose name is not `excluded`, and its id is there, the row of
    -- that id has afterwards: in each column of codes and in those of hits, successes, errors, connections,
    -- bytes and total times the sum of both; as averages the quotients of the summed totals and the summed
    -- hits; in those of maxima and minima the larger and the smaller value; as last time the new one; and its
    -- names are kept. Columns of integers hold integers, with their signs; they have no bound, so that nothing
    -- is said of a number that the database has no room for. Those of `float64` hold the database's reals.
    pub on_conflict_assignments-Merges : Merges
    unfolding merged on_conflict_assignments counter_assignments counter_assignment lookup same
    on_conflict_assignments-Merges = record {
      codes = summed code_column code_names refl refl;
      sums = summed counter_column counted_tags refl refl;
      total_time =
          assigned (text "counter_total_request_time") _ refl
            (value-both_rows (text "counter_total_request_time")) refl;
      average_time =
          assigned (text "counter_request_time") _ refl
            (value-average (text "counter_total_request_time")) refl;
      averages = (
        assigned (text "counter_upstream_latency") _ refl
            (value-average (text "counter_total_upstream_latency")) refl,
        (
          assigned (text "counter_latency") _ refl (value-average (text "counter_total_latency"))
              refl,
          tt,
        ),
      );
      maxima = (
        maximum (text "max_upstream_latency") refl (λ r. refl),
        (maximum (text "max_latency") refl (λ r. refl), tt),
      );
      minima = (
        minimum (text "min_upstream_latency") refl (λ r. refl),
        (minimum (text "min_latency") refl (λ r. refl), tt),
      );
      latest = refl;
      names = (refl, (refl, tt));
    }
