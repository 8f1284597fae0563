-- ===== src/Tests/Codes.antt =====
-- Tests of the columns of response codes and of the dimensions.
use tyk_pump.Base.{
  ◌≡◌, refl, some, [], ◌∷◌, ◌++◌, Text, text, Int64, Map, sum_of, same, lookup, insert, ◌%◌,
  if◌then◌else◌, All, arith,
}
use tyk_pump.Floats.{whole}
use tyk_pump.Aggregate.Counter.{zero_counter}
use tyk_pump.Aggregate.State.{AnalyticsRecordAggregate, new}
use tyk_pump.Aggregate.Graph.{new_graph}
use tyk_pump.Aggregate.Mcp.{new_mcp}
use tyk_pump.Aggregate.Dimensions.{dimensions, graph_dimensions, mcp_dimensions}
use tyk_pump.Aggregate.Dimensions.Lookup.{
  listed, counter_under, counters_of, graph_counters_of, mcp_counters_of, listed-dimensions,
}
use tyk_pump.Aggregate.Codes.{Code, zero_code, process_status_codes}
use tyk_pump.Aggregate.Codes.Columns.{
  column, column_of, is_field, IsEntry, all_digits, is_new, are_new,
}
use tyk_pump.Aggregate.Codes.Sums.{process_status_codes-column}

abbrev some_codes : Map Int64
some_codes = (text "404", 2) ∷ (text "418", 3) ∷ (text "410", 4) ∷ []

teapots_are_counted : column (text "4x") (insert (text "4x") 7 zero_code) ≡ 7
unfolding lookup insert same
teapots_are_counted = refl

some_codes-IsEntry : All IsEntry some_codes
unfolding all_digits
some_codes-IsEntry = (
  record { digits = refl; not_empty = refl; small = omega arith },
  (
    record { digits = refl; not_empty = refl; small = omega arith },
    (record { digits = refl; not_empty = refl; small = omega arith }, tt),
  ),
)

process_status_codes-column_example :
    (c : Code) × (process_status_codes some_codes zero_code ≡ some c)
    × ((n : Text)
        → column n c ≡ (
            if is_field n zero_code
            then sum_of (λ e. if same (column_of e.0) n then e.1 else 0) some_codes
              % 18446744073709551616
            else 0))
unfolding are_new is_new same
process_status_codes-column_example = process_status_codes-column some_codes some_codes-IsEntry refl

abbrev one_path : AnalyticsRecordAggregate
one_path = record new { endpoints = (text "/p", record zero_counter { hits = 1 }) ∷ [] }

listed-dimensions_example :
    (listed (text "endpoints") (text "/p") (dimensions whole one_path)
      ≡ counter_under whole (text "endpoints") (counters_of whole (text "/p") one_path))
    × (listed (text "endpoints") (text "/p") (graph_dimensions whole new_graph)
        ≡ counter_under whole (text "endpoints") (
            counters_of whole (text "/p") new_graph.aggregate
            ++ graph_counters_of whole (text "/p") new_graph))
    × (listed (text "endpoints") (text "/p") (mcp_dimensions whole new_mcp)
        ≡ counter_under whole (text "endpoints") (
            counters_of whole (text "/p") new_mcp.aggregate
            ++ mcp_counters_of whole (text "/p") new_mcp))
listed-dimensions_example =
    listed-dimensions whole (text "endpoints") (text "/p") one_path new_graph new_mcp
