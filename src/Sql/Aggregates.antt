-- ===== src/Sql/Aggregates.antt =====
-- pumps/sql_aggregate.go, graph_sql_aggregate.go, mcp_sql_aggregate.go: aggregates as
-- rows in their tables.
pub mod Days
pub mod Written
use tyk_pump.Base.{
  ℕ, zero, suc, ◌-◌, ◌/◌, ◌%◌, ◌+◌, Bool, true, false, not, ◌&&◌, ◌||◌, List, [], ◌∷◌, ◌++◌, Option,
  none, some, ◌>>=◌, Text, text, same, length, ltb, ◌==◌, Int64, itoa, Map, if◌then◌else◌,
}
use tyk_pump.Floats.{FloatOps}
use tyk_pump.Time.{Time}
use tyk_pump.Aggregate.Counter.{Counter}
use tyk_pump.Aggregate.Keys.{hex}
use tyk_pump.Aggregate.Codes.{Code, zero_code, process_status_codes}
use tyk_pump.Aggregate.State.{AnalyticsRecordAggregate}
use tyk_pump.Aggregate.Timestamp.{LastTimes}
use tyk_pump.Aggregate.Data.{Value, analytics, null, aggregate_data}
use tyk_pump.Aggregate.Graph.{GraphRecordAggregate, aggregate_graph_data}
use tyk_pump.Aggregate.Mcp.{McpRecordAggregate, aggregate_mcp_data}
use tyk_pump.Aggregate.Dimensions.{DimensionEntry, dimensions, graph_dimensions, mcp_dimensions}
use tyk_pump.Sql.Shards.{Variant, plain, by_last, table_date, slice, day_at, batches}
use tyk_pump.Sql.Records.{record_day}
use tyk_pump.Sql.Rows.{
  SqlAnalyticsRecordAggregate, ApiSqlAnalyticsRecordAggregate, sql_row, api_row, rows_of,
}

-- `SQLAggregatePumpConf`, as far as the pumps read it in `WriteData`.
pub record SqlAggregateConf : Type 0 where
  pub table_sharding : Bool
  pub batch_size : ℕ
  pub track_all_paths : Bool
  pub ignore_tag_prefix_list : List Text
  pub store_analytics_per_minute : Bool
  pub omit_index_creation : Bool

-- The database, as the pumps for rows of `R` see it. A statement inserts rows, and adds those whose id is
-- there to the row of that id.
pub record AggregateDatabase (R : Type 0) : Type 1 where
  pub State : Type 0
  pub has_table : Text → State → Bool
  pub create_table : Text → State → Option Text × State
  pub has_index : Text → State → Bool
  pub create_index : Text → State → Option Text × State
  pub upsert : Text → List R → State → Option Text × State

-- What follows, unless there is an error.
abbrev pub unless_error {ℓ} :
    {S : Type ℓ} → Option Text × S → (S → Option (Option Text × S)) → Option (Option Text × S)
unless_error (none, s) next = next s
unless_error (some e, s) next = some (some e, s)

-- How the loops differ: what is in a batch and what it is aggregated into, and their tables.
pub record Kind (V R A : Type 0) : Type 0 where
  pub variant : Variant
  pub stops : Bool
  pub table_name : Text
  pub day : V → Option Text
  pub aggregate : List V → LastTimes → Option (Map A × LastTimes)
  pub dimensions_of : A → List DimensionEntry
  pub to_row : Text → A → DimensionEntry → Code → R

module _ {R : Type 0} (db : AggregateDatabase R) (conf : SqlAggregateConf) where
  open db use {State, has_table, create_table, has_index, create_index, upsert}

  -- `ensureTable`
  unfoldable pub ensure_table : Text → State → Option Text × State
  ensure_table table s = if has_table table s then (none, s) else create_table table s

  -- `ensureIndex`, in the foreground.
  unfoldable pub ensure_index : Text → State → Option Text × State
  ensure_index table s =
      if conf.omit_index_creation || has_index table s then (none, s) else create_index table s

  -- The statements for an aggregate, up to the first error.
  unfoldable pub upsert_batches : Text → List (List R) → State → Option (Option Text × State)
  upsert_batches table [] s = some (none, s)
  upsert_batches table (rs ∷ rest) s = unless_error (upsert table rs s) (upsert_batches table rest)

  -- `DoAggregatedWriting`
  unfoldable pub do_aggregated_writing :
      Text
      → (DimensionEntry → Code → R)
      → List DimensionEntry
      → State
      → Option (Option Text × State)
  do_aggregated_writing table to_row ds s =
      rows_of to_row ds >>= λ recs. upsert_batches table (batches conf.batch_size recs) s

  module _ {V A : Type 0} (kind : Kind V R A) where
    open kind use {variant, stops, table_name, day, aggregate, dimensions_of, to_row}

    -- The aggregates one after the other, up to the first error. A map's order is not fixed; here it is
    -- that of the first records.
    unfoldable pub write_aggregates : Text → Map A → State → Option (Option Text × State)
    write_aggregates table [] s = some (none, s)
    write_aggregates table ((key, a) ∷ rest) s =
        do_aggregated_writing table (to_row key a) (dimensions_of a) s >>= λ p.
        unless_error p (write_aggregates table rest)

    -- A slice of the batch into one table, with the time stamps of the process.
    unfoldable pub write_slice :
        Text → List V → LastTimes × State → Option (Option Text × (LastTimes × State))
    write_slice table values (last, s) = do
      m ← aggregate values last
      p ← write_aggregates table m.0 s
      some (p.0, (m.1, p.1))

    -- A table that is missing is made, and its index in pumps/sql_aggregate.go, where an error ends the
    -- loop. In the other two an error is logged.
    unfoldable pub prepare_table : Text → State → Option (Option Text × State)
    prepare_table table s =
        if stops
        then unless_error (ensure_table table s) (λ s'. some (ensure_index table s'))
        else some (none, (ensure_table table s).1)

    -- The rest of a round, once its slice is known.
    unfoldable pub write_part :
        Option Text → List V → LastTimes × State → Option (Option Text × (LastTimes × State))
    write_part none values t = write_slice table_name values t
    write_part (some date) values (last, s) =
        let table = table_name ++ (text "_" ++ date) in
        prepare_table table s >>= λ p. unless_error (p.0, (last, p.1)) (write_slice table values)

    module _ (data' : List V) where
      -- A round in which tables are sharded. `next` is the rest of the loop.
      unfoldable pub write_round :
          (ℕ → ℕ → LastTimes × State → Option (Option Text × (LastTimes × State)))
          → (i start end_index : ℕ) → LastTimes × State
          → Option (Option Text × (LastTimes × State))
      write_round next i start end_index t = do
        let at_end = i == length data'
        rec_date ← day_at variant conf.table_sharding day data' start
        next_rec_date ←
            day_at variant conf.table_sharding day data' (if at_end then length data' - 1 else i)
        (if not at_end && same rec_date next_rec_date
            then next start end_index t
            else (write_part (some (table_date variant at_end rec_date next_rec_date))
                  (slice start i data') t
                >>= λ p. unless_error p (next i i)))

      -- The loop, with the rounds that are left.
      unfoldable pub write_rounds :
          ℕ
          → (i start end_index : ℕ) → LastTimes × State
          → Option (Option Text × (LastTimes × State))
      write_rounds zero i start end_index t = some (none, t)
      write_rounds (suc n) i start end_index t =
          if conf.table_sharding
          then write_round (write_rounds n (suc i)) i start end_index t
          else write_part none (slice start end_index data') t

    -- `WriteData`
    unfoldable pub write_data :
        List V → LastTimes × State → Option (Option Text × (LastTimes × State))
    write_data [] t = some (none, t)
    write_data (v ∷ vs) t = write_rounds (v ∷ vs) (suc (length (v ∷ vs))) 0 0 (length (v ∷ vs)) t
