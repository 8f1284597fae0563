-- ===== src/Aggregate/Data.antt =====
-- analytics/aggregate.go: `AggregateData`, a batch of records into one aggregate for each organisation.
pub mod Totals
pub mod Batch
pub mod NilMap
use tyk_pump.Base.{
  ℕ, Bool, true, false, not, ◌||◌, List, [], ◌∷◌, Option, none, some, ◌>>=◌, for_each, Text,
  is_empty, Map, lookup, insert, if◌then◌else◌,
}
use tyk_pump.Floats.{FloatOps}
use tyk_pump.Time.{Time}
use tyk_pump.Analytics.Record.{AnalyticsRecord, is_graph_record, is_mcp_record}
use tyk_pump.Analytics.Fields.{Field, fields}
use tyk_pump.Aggregate.Counter.{Counter}
use tyk_pump.Aggregate.State.{AnalyticsRecordAggregate, new}
use tyk_pump.Aggregate.Timestamp.{LastTimes, set_aggregate_timestamp}
use tyk_pump.Aggregate.Increment.{increment_aggregate}

-- An `interface{}` of the batch: a record, or nil.
pub data Value : Type 0 where
  analytics : AnalyticsRecord → Value
  null : Value

-- A new aggregate for the first record of a group: its time stamp is given.
unfoldable pub start_aggregate : AnalyticsRecord → Time → AnalyticsRecordAggregate
start_aggregate r stamp =
    let now = r.time_stamp in
    record new {
      time_stamp = stamp;
      expire_at = r.expire_at;
      time_id = record { year = now.year; month = now.month; day = now.day; hour = now.hour };
      org_id = r.org_id;
      last_time = now;
      total = record (new.total) { error_map = some [] };
    }

-- The records that `AggregateData` passes over.
unfoldable pub is_skipped : AnalyticsRecord → Bool
is_skipped r = is_empty r.org_id || is_graph_record r || is_mcp_record r

-- What the loop carries: the aggregates, and the time stamps of the process.
abbrev pub Progress : Type 0 → Type 0
Progress A = Map A × LastTimes

module _ (db : Text) (minutes : ℕ) where
  -- The aggregate that was found, or a new one.
  unfoldable pub resume :
      Option AnalyticsRecordAggregate
      → AnalyticsRecord
      → LastTimes
      → AnalyticsRecordAggregate × LastTimes
  unfolding start_aggregate
  resume (some a) r last = (a, last)
  resume none r last =
      let (stamp, last') = set_aggregate_timestamp db r.time_stamp minutes last in
      (start_aggregate r stamp, last')

  unfoldable pub find_or_start :
      AnalyticsRecord → Progress AnalyticsRecordAggregate → AnalyticsRecordAggregate × LastTimes
  unfolding resume
  find_or_start r (m, last) = resume (lookup r.org_id m) r last

module _ (fl : FloatOps) (track_all : Bool) (ignored : List Text) (db : Text) (minutes : ℕ) where
  unfoldable pub add_record :
      AnalyticsRecord
      → Progress AnalyticsRecordAggregate
      → Option (Progress AnalyticsRecordAggregate)
  add_record r s =
      let (a, last) = find_or_start db minutes r s in
      if is_skipped r then some s else do
        added ← increment_aggregate fl fields a r track_all ignored
        some (insert r.org_id added.0 s.0, last)

  -- One round of the loop; `v.(AnalyticsRecord)` panics on nil.
  unfoldable pub add_value :
      Value → Progress AnalyticsRecordAggregate → Option (Progress AnalyticsRecordAggregate)
  unfolding add_record
  add_value (analytics r) s = add_record r s
  add_value null s = none

  -- `AggregateData`
  unfoldable pub aggregate_data :
      List Value → LastTimes → Option (Progress AnalyticsRecordAggregate)
  aggregate_data values last = for_each add_value values ([], last)
