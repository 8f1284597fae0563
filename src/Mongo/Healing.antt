-- ===== src/Mongo/Healing.antt =====
-- pumps/mongo_aggregate.go: the writing of aggregates, which is begun again with half the aggregation time
-- where a document has become too large.
pub mod Ends
use tyk_pump.Base.{
  ℕ, zero, suc, ◌/◌, Bool, true, false, ◌&&◌, ◌||◌, List, [], ◌∷◌, ◌++◌, Option, none, some, Text,
  text, is_empty, contains, Int64, lt64, ◌==◌, Map, if◌then◌else◌,
}
use tyk_pump.Floats.{FloatOps}
use tyk_pump.Time.{zero_time}
use tyk_pump.Aggregate.State.{AnalyticsRecordAggregate, table_name, discard_aggregations}
use tyk_pump.Aggregate.Timestamp.{LastTimes, set_last_timestamp_aggregate_record}
use tyk_pump.Aggregate.Data.{Value, aggregate_data}
use tyk_pump.Mongo.{without_mcp}
use tyk_pump.Mongo.Sets.{is_nil}

-- `MongoAggregateConf`, without the aggregation time, which changes, and without what the driver alone
-- reads.
pub record MongoAggregateConf : Type 0 where
  pub mongo_url : Text
  pub use_mixed_collection : Bool
  pub track_all_paths : Bool
  pub ignore_tag_prefix_list : List Text
  pub store_analytics_per_minute : Bool
  pub enable_aggregate_self_healing : Bool
  pub ignore_aggregations_list : List Text

-- `SetAggregationTime`
unfoldable pub set_aggregation_time : MongoAggregateConf → Int64 → Int64
set_aggregation_time conf time =
    if conf.store_analytics_per_minute then 1 else if lt64 time 1 || lt64 60 time then 60 else time

-- `divideAggregationTime`, of a time that is not negative.
unfoldable pub divide_aggregation_time : ℕ → ℕ
divide_aggregation_time time = if time == 1 then time else time / 2

-- `GetCollectionName`; `none` is the error.
unfoldable pub get_collection_name : Text → Option Text
get_collection_name org_id =
    if is_empty org_id then none else some (text "z_tyk_analyticz_aggregate_" ++ org_id)

-- The messages of MongoDB, Cosmos DB and DocumentDB.
unfoldable pub is_size_error : Text → Bool
is_size_error error =
    contains error (text "Size must be between 0 and")
    || contains error (text "Request size is too large")
    || contains error (text "Resulting document after update is larger than")

-- The two updates of the aggregate's document in a collection, with the making of the indexes, whose
-- error is only logged: nil, or the first update's error or the second's.
pub record Documents : Type 1 where
  pub State : Type 0
  pub update : (collection : Text) → AnalyticsRecordAggregate → State → Option Text × State

-- What a run of `WriteData` changes: the aggregation time, the time stamps of the process, the store.
pub record Healed (S : Type 0) : Type 0 where
  pub aggregation_time : ℕ
  pub last_times : LastTimes
  pub store : S

-- How `WriteData` ends. A run of the model may also stop for want of fuel.
pub data Result (S : Type 0) : Type 0 where
  panicked : Result S
  wrote : Option Text → Healed S → Result S
  out_of_fuel : Result S

module _ (conf : MongoAggregateConf) (documents : Documents) where
  open documents use {State, update}

  -- `ShouldSelfHeal`: whether to begin again, and with which aggregation time and time stamps.
  unfoldable pub should_self_heal : Text → Healed State → Bool × Healed State
  should_self_heal error h =
      if conf.enable_aggregate_self_healing && is_size_error error
      then if h.aggregation_time == 1 then (false, h) else (
        true,
        record h {
          aggregation_time = divide_aggregation_time h.aggregation_time;
          last_times = set_last_timestamp_aggregate_record conf.mongo_url zero_time h.last_times;
        },
      )
      else (false, h)

  -- `DoAggregatedWriting`
  unfoldable pub do_aggregated_writing :
      AnalyticsRecordAggregate
      → (mixed : Bool) → State
      → (Option Text × AnalyticsRecordAggregate) × State
  do_aggregated_writing a mixed s =
      let a' = record a { mixed = mixed } in
      let kept =
        if is_nil conf.ignore_aggregations_list
        then a'
        else discard_aggregations conf.ignore_aggregations_list a' in
      let (error, s') = update (table_name a') kept s in ((error, kept), s')

  abbrev pub writing_attempts : List Bool
  writing_attempts = if conf.use_mixed_collection then false ∷ true ∷ [] else false ∷ []

  -- The inner loop: one organisation, up to the first error.
  unfoldable pub write_attempts : List Bool → AnalyticsRecordAggregate → State → Option Text × State
  write_attempts [] a s = (none, s)
  write_attempts (mixed ∷ attempts) a s =
      let ((error, a'), s') = do_aggregated_writing a mixed s in
      elim error [ none ↦ write_attempts attempts a' s' | some e ↦ (some e, s') ]

  -- The outer loop. A map's order is not fixed; here it is that of the first records.
  unfoldable pub write_aggregates : Map AnalyticsRecordAggregate → State → Option Text × State
  write_aggregates [] s = (none, s)
  write_aggregates ((org_id, a) ∷ aggregates) s =
      let (error, s') = write_attempts writing_attempts a s in
      elim error [ none ↦ write_aggregates aggregates s' | some e ↦ (some e, s') ]

  module _ (fl : FloatOps) (data' : List Value) where
    -- The aggregates of the batch with an aggregation time; `none` is a panic.
    abbrev pub aggregates_of : Healed State → Option (Map AnalyticsRecordAggregate × LastTimes)
    aggregates_of h =
        aggregate_data fl conf.track_all_paths conf.ignore_tag_prefix_list conf.mongo_url
          h.aggregation_time (without_mcp data') h.last_times

    -- What follows the writing: the end, or another run with what the healing has set.
    abbrev pub after_writing :
        (Healed State → Result State) → Option Text × State → Healed State → Result State
    after_writing again (none, s) h = wrote none (record h { store = s })
    after_writing again (some error, s) h =
        let (heal, h') = should_self_heal error (record h { store = s }) in
        if heal then again h' else wrote (some error) h'

    abbrev pub write_batch :
        (Healed State → Result State)
        → Option (Map AnalyticsRecordAggregate × LastTimes)
        → Healed State
        → Result State
    write_batch again none h = panicked
    write_batch again (some (aggregates, last)) h =
        after_writing again (write_aggregates aggregates h.store) (record h { last_times = last })

    -- `WriteData`, which calls itself, on fuel.
    unfoldable pub write_data : ℕ → Healed State → Result State
    write_data zero h = out_of_fuel
    write_data (suc fuel) h =
        if is_nil (without_mcp data')
        then wrote none h
        else write_batch (write_data fuel) (aggregates_of h) h
