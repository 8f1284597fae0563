-- ===== src/Aggregate/Conflict.antt =====
-- analytics/aggregate.go, uptime_data.go: `OnConflictAssignments` and
-- `OnConflictUptimeAssignments`, what a row becomes where a row of its id is inserted.
pub mod Cells
pub mod Merged
use tyk_pump.Base.{
  ℕ, ◌+◌, ◌-◌, ◌/◌, Bool, true, false, ◌||◌, List, [], ◌∷◌, ◌++◌, map, Option, none, some, Text,
  text, same, any, Map, lookup, if◌then◌else◌,
}
use tyk_pump.Aggregate.Codes.{code_names}

-- The SQL expressions that the code writes as texts: a column of a table, sums, the arithmetic of the
-- maximum and of the minimum, and a quotient of reals.
pub data Expr : Type 0 where
  column : Text → Text → Expr
  plus : Expr → Expr → Expr
  minus : Expr → Expr → Expr
  abs_difference : Expr → Expr → Expr
  half : Expr → Expr
  quotient : Expr → Expr → Expr

-- The JSON tags of the fields of `Counter`.
abbrev pub counter_tags : List Text
counter_tags =
    text "hits"
    ∷ text "success"
    ∷ text "error"
    ∷ text "request_time"
    ∷ text "total_request_time"
    ∷ text "identifier"
    ∷ text "human_identifier"
    ∷ text "last_time"
    ∷ text "open_connections"
    ∷ text "closed_connections"
    ∷ text "bytes_in"
    ∷ text "bytes_out"
    ∷ text "max_upstream_latency"
    ∷ text "min_upstream_latency"
    ∷ text "total_upstream_latency"
    ∷ text "upstream_latency"
    ∷ text "max_latency"
    ∷ text "min_latency"
    ∷ text "total_latency"
    ∷ text "latency"
    ∷ text "error_map"
    ∷ text "error_list"
    ∷ []

abbrev pub summed_tags : List Text
summed_tags =
    text "hits"
    ∷ text "error"
    ∷ text "success"
    ∷ text "open_connections"
    ∷ text "closed_connections"
    ∷ text "bytes_in"
    ∷ text "bytes_out"
    ∷ text "total_request_time"
    ∷ text "total_latency"
    ∷ text "total_upstream_latency"
    ∷ []

abbrev pub averaged_tags : List Text
averaged_tags = text "request_time" ∷ text "upstream_latency" ∷ text "latency" ∷ []

abbrev pub code_column : Text → Text
code_column tag = text "code_" ++ tag

abbrev pub counter_column : Text → Text
counter_column tag = text "counter_" ++ tag

abbrev pub is_one_of : Text → List Text → Bool
is_one_of tag tags = any (same tag) tags

module _ (table_name temp_table : Text) where
  abbrev pub both_rows : Text → Expr
  both_rows col = plus (column table_name col) (column temp_table col)

  abbrev pub difference : Text → Expr
  difference col = abs_difference (column table_name col) (column temp_table col)

  -- The switch on the tag of a counter's field; a field without an assignment keeps its value.
  unfoldable pub counter_assignment : Text → Option Expr
  counter_assignment tag =
      let col = counter_column tag in
      if is_one_of tag summed_tags
      then some (both_rows col)
      else if is_one_of tag averaged_tags
      then some (
          quotient (both_rows (counter_column (text "total_" ++ tag)))
            (both_rows (text "counter_hits")))
      else if is_one_of tag (text "max_upstream_latency" ∷ text "max_latency" ∷ [])
      then some (half (plus (both_rows col) (difference col)))
      else if is_one_of tag (text "min_latency" ∷ text "min_upstream_latency" ∷ [])
      then some (half (minus (both_rows col) (difference col)))
      else if same tag (text "last_time")
      then some (column temp_table col)
      else none

  abbrev pub assign : Text → Option Expr → Map Expr → Map Expr
  assign col none m = m
  assign col (some e) m = (col, e) ∷ m

  unfoldable pub counter_assignments : List Text → Map Expr
  counter_assignments [] = []
  counter_assignments (tag ∷ tags) =
      assign (counter_column tag) (counter_assignment tag) (counter_assignments tags)

  -- `OnConflictAssignments`
  unfoldable pub on_conflict_assignments : Map Expr
  on_conflict_assignments =
      map (λ tag. (code_column tag, both_rows (code_column tag))) code_names
      ++ counter_assignments counter_tags

  -- The same for the counters of uptime reports. An average would be a quotient if the field of a struct
  -- of zeros were not zero.
  unfoldable pub uptime_assignment : Text → Option Expr
  uptime_assignment tag =
      if is_one_of tag
        (text "hits" ∷ text "error" ∷ text "success" ∷ text "total_request_time" ∷ [])
      then some (both_rows (counter_column tag))
      else if same tag (text "last_time")
      then some (column temp_table (counter_column tag))
      else none

  unfoldable pub uptime_assignments : List Text → Map Expr
  uptime_assignments [] = []
  uptime_assignments (tag ∷ tags) =
      assign (counter_column tag) (uptime_assignment tag) (uptime_assignments tags)

  -- `OnConflictUptimeAssignments`
  unfoldable pub on_conflict_uptime_assignments : Map Expr
  on_conflict_uptime_assignments =
      map (λ tag. (code_column tag, both_rows (code_column tag))) code_names
      ++ uptime_assignments counter_tags
