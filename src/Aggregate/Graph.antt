-- ===== src/Aggregate/Graph.antt =====
-- analytics/aggregate.go: `AggregateGraphData`, a batch of records into one aggregate for each API.
pub mod Ready
pub mod Batch
pub mod Sums
pub mod Dimensions
use tyk_pump.Base.{
  Bool, true, false, ◌&&◌, List, [], ◌∷◌, ◌++◌, Option, none, some, ◌>>=◌, for_each, Text, text,
  Map, lookup, insert, add64, sub64, lt64, ℕ, if◌then◌else◌,
}
use tyk_pump.Floats.{FloatOps}
use tyk_pump.Time.{Time}
use tyk_pump.Analytics.Record.{AnalyticsRecord, is_graph_record}
use tyk_pump.Analytics.Fields.{fields}
use tyk_pump.Analytics.Graph.{GraphRecord, to_graph_record}
use tyk_pump.Aggregate.Counter.{Counter}
use tyk_pump.Aggregate.State.{AnalyticsRecordAggregate, new}
use tyk_pump.Aggregate.Timestamp.{LastTimes, set_aggregate_timestamp}
use tyk_pump.Aggregate.Increment.{increment_aggregate}
use tyk_pump.Aggregate.Named.{add_named}
use tyk_pump.Aggregate.Data.{Value, analytics, null, start_aggregate, Progress}

pub record GraphRecordAggregate : Type 0 where
  pub aggregate : AnalyticsRecordAggregate
  pub types : Map Counter
  pub fields : Map Counter
  pub operation : Map Counter
  pub root_fields : Map Counter

-- `NewGraphRecordAggregate`
abbrev pub new_graph : GraphRecordAggregate
new_graph = record { aggregate = new; types = []; fields = []; operation = []; root_fields = [] }

-- A new aggregate for the first record of an API: its time stamp is given.
abbrev pub start_graph : AnalyticsRecord → Time → GraphRecordAggregate
start_graph r stamp = record new_graph { aggregate = start_aggregate r stamp }

-- The aggregate that was found, or a new one.
unfoldable pub resume_graph :
    Text
    → ℕ
    → Option GraphRecordAggregate
    → AnalyticsRecord
    → LastTimes
    → GraphRecordAggregate × LastTimes
resume_graph db minutes (some a) r last = (a, last)
resume_graph db minutes none r last =
    let (stamp, last') = set_aggregate_timestamp db r.time_stamp minutes last in
    (start_graph r stamp, last')

-- Errors of GraphQL count where the response code is no error.
unfoldable pub graph_counter : GraphRecord → Counter → Counter
graph_counter g c =
    if g.has_errors && lt64 c.error_total 1
    then record c { error_total = add64 c.error_total 1; success = sub64 c.success 1 }
    else c

-- `fmt.Sprintf("%s_%s", t, f)`
abbrev pub field_label : Text → Text → Text
field_label t f = t ++ text "_" ++ f

module _ (fl : FloatOps) where
  -- One round of the loop over the types: the type, and its fields.
  unfoldable pub add_type :
      Counter → Text × List Text → Map Counter × Map Counter → Option (Map Counter × Map Counter)
  add_type counter (t, fs) (types, fields) = do
    types' ← add_named fl counter t t types
    fields' ← for_each (λ f. add_named fl counter (field_label t f) (field_label t f)) fs fields
    some (types', fields')

  -- The dimensions of a GraphQL request.
  unfoldable pub add_graph_units :
      GraphRecord → Counter → GraphRecordAggregate → Option GraphRecordAggregate
  add_graph_units g counter a = do
    operation' ← add_named fl counter g.operation_type g.operation_type a.operation
    both ← for_each (add_type counter) g.types (a.types, a.fields)
    root_fields' ← for_each (λ f. add_named fl counter f f) g.root_fields a.root_fields
    some (record a {
      operation = operation';
      types = both.0;
      fields = both.1;
      root_fields = root_fields';
    })

  module _ (db : Text) (minutes : ℕ) where
    unfoldable pub add_graph_record :
        AnalyticsRecord → Progress GraphRecordAggregate → Option (Progress GraphRecordAggregate)
    add_graph_record r (m, last) = do
      let g = to_graph_record r
      let (a, last') = resume_graph db minutes (lookup r.api_id m) r last
      (b, c) ← increment_aggregate fl fields a.aggregate g.analytics_record false []
      d ← add_graph_units g (graph_counter g c) (record a { aggregate = b })
      some (insert r.api_id d m, last')

    -- One round of the loop: what is no record, or no GraphQL record, is passed over.
    unfoldable pub add_graph_value :
        Value → Progress GraphRecordAggregate → Option (Progress GraphRecordAggregate)
    unfolding add_graph_record
    add_graph_value null s = some s
    add_graph_value (analytics r) s = if is_graph_record r then add_graph_record r s else some s

    -- `AggregateGraphData`
    unfoldable pub aggregate_graph_data :
        List Value → LastTimes → Option (Progress GraphRecordAggregate)
    aggregate_graph_data values last = for_each add_graph_value values ([], last)
