-- ===== src/Tests/Aggregates.antt =====
-- Tests of the SQL pumps of aggregates.
use tyk_pump.Base.{
  ℤ, pos, negsuc, ◌+ℤ◌, ◌-ℤ◌, abs, halve, inl, insert, lookup, has_prefix, ◌≡◌, refl, true, false,
  List, [], ◌∷◌, ◌++◌, none, some, lt64, Text, text, arith, All, same, if◌then◌else◌,
}
use tyk_pump.Floats.{whole}
use tyk_pump.Aggregate.Keys.{hex}
use tyk_pump.Aggregate.Counter.{Counter, zero_counter, fn_latency_setter}
use tyk_pump.Aggregate.Dimensions.{dimensions, list_sections, list_map, join_maps}
use tyk_pump.Aggregate.Data.{Value, analytics, null}
use tyk_pump.Aggregate.State.{AnalyticsRecordAggregate, new}
use tyk_pump.Aggregate.Conflict.Cells.{Reals, Row}
use tyk_pump.Aggregate.Conflict.Merged.{Merges, on_conflict_assignments-Merges}
use tyk_pump.Aggregate.Codes.Columns.{all_digits}
use tyk_pump.Aggregate.Change.{
  as_change, generate_all, generate_bson_from_property, put_all, constructor_of, number,
}
use tyk_pump.Aggregate.Change.Sums.{Sum, sum_name}
use tyk_pump.Aggregate.Change.Increments.{HasCodes, summed, latest_counter, as_change-inc}
use tyk_pump.Aggregate.Conflict.{
  on_conflict_uptime_assignments, uptime_assignments, uptime_assignment,
}
use tyk_pump.Sql.Migration.{is_sharded}
use tyk_pump.Sql.Records.{record_day}
use tyk_pump.Sql.Aggregates.{
  Kind, SqlAggregateConf, AggregateDatabase, write_data, write_aggregates,
}
use tyk_pump.Sql.Kinds.{sql_kind}
use tyk_pump.Sql.Rows.{SqlAnalyticsRecordAggregate}
use tyk_pump.Sql.Aggregates.Days.{write_data-parts, write_parts, parts_of}
use tyk_pump.Sql.Aggregates.Written.{Takes, Wrote, HasRow, aggregate_rows, write_aggregates-Wrote}
use tyk_pump.Tests.Samples.{hit, missing}

abbrev hourly : SqlAggregateConf
hourly = record {
  table_sharding = true;
  batch_size = 1000;
  track_all_paths = true;
  ignore_tag_prefix_list = [];
  store_analytics_per_minute = false;
  omit_index_creation = false;
}

-- A database as a function from tables to the rows they were given.
abbrev tables : AggregateDatabase SqlAnalyticsRecordAggregate
tables = record {
  State = Text → List SqlAnalyticsRecordAggregate;
  has_table = λ t s. true;
  create_table = λ t s. (none, s);
  has_index = λ t s. true;
  create_index = λ t s. (none, s);
  upsert = λ t rs s. (none, λ u. s u ++ (if same t u then rs else []));
}

tables-Takes : Takes tables
tables-Takes = record { given = λ t s. s t; takes = λ t rs s. refl; gives = λ t u rs s. refl }

-- An organisation with one API and three errors.
abbrev failing : Counter
failing = record zero_counter {
  hits = 5;
  error_total = 3;
  error_map = some ((text "404", 2) ∷ (text "418", 1) ∷ []);
}

abbrev busy : AnalyticsRecordAggregate
busy = record new { org_id = text "org"; api_id = (text "api1", failing) ∷ []; total = failing }

busy-HasRow : All HasRow (dimensions whole busy)
unfolding dimensions list_sections list_map fn_latency_setter join_maps lt64
busy-HasRow = ((refl, (refl, tt)), ((refl, (refl, tt)), tt))

busy-HasCodes : All HasCodes (dimensions whole busy)
unfolding dimensions list_sections list_map fn_latency_setter join_maps lt64 all_digits
busy-HasCodes = ((refl, (refl, tt)), ((refl, (refl, tt)), tt))

abbrev kind : Kind Value SqlAnalyticsRecordAggregate AnalyticsRecordAggregate
kind = sql_kind whole (λ t. 7) hourly

abbrev date : Value → Text
date null = []
date (analytics r) = record_day r

abbrev batch : List Value
batch = analytics hit ∷ analytics missing ∷ []

write_data-parts_example :
    write_data tables hourly kind batch ([], λ t. [])
    ≡ write_parts tables hourly kind (parts_of tables hourly kind date true batch) ([], λ t. [])
write_data-parts_example =
    write_data-parts tables hourly kind date true batch ([], λ t. []) refl (λ e. cc)
      (refl, (refl, tt))

write_aggregates-Wrote_example :
    (rs : List SqlAnalyticsRecordAggregate) × (aggregate_rows tables tables-Takes hourly
        (sql_kind whole (λ t. 7) hourly)
        ((text "org", busy) ∷ [])
      ≡ some rs)
    × Wrote tables tables-Takes hourly
        (write_aggregates tables hourly
          (sql_kind whole (λ t. 7) hourly)
          (text "tyk_aggregated")
          ((text "org", busy) ∷ [])
          (λ t. []))
        (text "tyk_aggregated")
        rs
        (λ t. [])
write_aggregates-Wrote_example =
    write_aggregates-Wrote tables tables-Takes hourly (sql_kind whole (λ t. 7) hourly)
      (text "tyk_aggregated") ((text "org", busy) ∷ []) (λ t. []) (omega arith) (busy-HasRow, tt)

hex_example : hex (text "o1.") ≡ text "6f312e"
unfolding hex
hex_example = refl

-- Reals that are integers, where no quotient is used.
abbrev integers : Reals
integers = record {
  R = ℤ;
  Other = Text;
  of_integer = λ z. z;
  add = λ x y. x +ℤ y;
  subtract = λ x y. x -ℤ y;
  magnitude = abs;
  halve_real = halve;
  divide = λ x y. x;
}

-- A row with a negative number of successes, as the code can make it.
abbrev stored : Row integers
stored = record { integers = λ c. negsuc 0; floats = λ c. pos 3; others = λ c. text "old" }

abbrev inserted : Row integers
inserted = record { integers = λ c. pos 5; floats = λ c. pos 4; others = λ c. text "new" }

on_conflict_assignments-Merges_example : Merges integers (text "tyk_aggregated") stored inserted
unfolding same
on_conflict_assignments-Merges_example =
    on_conflict_assignments-Merges integers (text "tyk_aggregated") stored inserted refl

-- The update of the organisation: three errors and five hits are added to its API and its total.
as_change-inc_example :
    lookup
      (constructor_of (text "apiid") (text "api1") ++ sum_name Sum.hits)
      (as_change whole busy).inc
    ≡ summed Sum.hits (latest_counter (text "apiid") (text "api1") (dimensions whole busy) none)
unfolding same
as_change-inc_example =
    as_change-inc whole busy (text "apiid") (text "api1") Sum.hits (inl refl) busy-HasCodes

hits_of_api : lookup (text "apiid.api1.hits") (as_change whole busy).inc ≡ some (number 5)
unfolding as_change generate_all generate_bson_from_property put_all constructor_of dimensions
    list_sections list_map fn_latency_setter join_maps lt64 lookup insert same
hits_of_api = refl

-- An average of an uptime report is not assigned.
average_kept :
    lookup
      (text "counter_request_time")
      (on_conflict_uptime_assignments (text "t") (text "excluded"))
    ≡ none
unfolding on_conflict_uptime_assignments uptime_assignments uptime_assignment lookup same
average_kept = refl

day_table_example :
    is_sharded (λ t. true) (text "tyk_analytics") (text "tyk_analytics_20240517") ≡ true
unfolding is_sharded has_prefix
day_table_example = refl

other_table_example :
    is_sharded (λ t. true) (text "tyk_analytics") (text "tyk_analytics_mcp") ≡ false
unfolding is_sharded has_prefix
other_table_example = refl
