-- ===== src/Sql/Rows.antt =====
-- pumps/sql_aggregate.go, graph_sql_aggregate.go, mcp_sql_aggregate.go: the rows of an aggregate.
use tyk_pump.Base.{List, [], ◌∷◌, ◌++◌, Option, none, some, ◌>>=◌, Text, Int64, itoa, Map}
use tyk_pump.Aggregate.Counter.{Counter}
use tyk_pump.Aggregate.Keys.{hex}
use tyk_pump.Aggregate.Codes.{Code, zero_code, process_status_codes}
use tyk_pump.Aggregate.Dimensions.{DimensionEntry}

-- `SQLAnalyticsRecordAggregate`
pub record SqlAnalyticsRecordAggregate : Type 0 where
  pub id : Text
  pub counter : Counter
  pub time_stamp : Int64
  pub org_id : Text
  pub dimension : Text
  pub dimension_value : Text
  pub code : Code

-- `GraphSQLAnalyticsRecordAggregate`, whose fields `MCPSQLAnalyticsRecordAggregate` has too.
pub record ApiSqlAnalyticsRecordAggregate : Type 0 where
  pub id : Text
  pub org_id : Text
  pub dimension : Text
  pub dimension_value : Text
  pub api_id : Text
  pub counter : Counter
  pub code : Code
  pub time_stamp : Int64

-- The id of a row, from the time stamp in seconds, the organisation or API, and the dimension.
unfoldable pub row_id : Int64 → Text → DimensionEntry → Text
row_id seconds owner d = hex (itoa seconds ++ (owner ++ (d.name ++ d.value)))

-- The counter of a row: what it knows of errors is in the codes.
abbrev pub without_errors : Counter → Counter
without_errors c = record c { error_map = none; error_list = [] }

abbrev pub sql_row : Int64 → Text → DimensionEntry → Code → SqlAnalyticsRecordAggregate
sql_row seconds org_id d code = record {
  id = row_id seconds org_id d;
  counter = without_errors d.counter;
  time_stamp = seconds;
  org_id = org_id;
  dimension = d.name;
  dimension_value = d.value;
  code = code;
}

abbrev pub api_row : Int64 → Text → Text → DimensionEntry → Code → ApiSqlAnalyticsRecordAggregate
api_row seconds org_id api_id d code = record {
  id = row_id seconds api_id d;
  org_id = org_id;
  dimension = d.name;
  dimension_value = d.value;
  api_id = api_id;
  counter = without_errors d.counter;
  code = code;
  time_stamp = seconds;
}

-- A nil map has no codes.
abbrev pub codes_of : Option (Map Int64) → Map Int64
codes_of none = []
codes_of (some m) = m

module _ {R : Type 0} (to_row : DimensionEntry → Code → R) where
  unfoldable pub row_of : DimensionEntry → Option R
  row_of d =
      process_status_codes (codes_of d.counter.error_map) zero_code >>= λ code. some (to_row d code)

  -- The loop over the dimensions; `none` is a panic of `ProcessStatusCodes`.
  unfoldable pub rows_of : List DimensionEntry → Option (List R)
  rows_of [] = some []
  rows_of (d ∷ ds) = do r ← row_of d; rs ← rows_of ds; some (r ∷ rs)
