-- ===== src/Aggregate/Graph/Ready.antt =====
-- analytics/aggregate.go: the counters of GraphQL aggregates, to which counters can be added.
use tyk_pump.Base.{
  insert-AllValues, lookup-AllValues, ℕ, ◌≡◌, ◌≢◌, true, false, List, [], some, for_each, Yields,
  bind-Yields, for_each-Yields, Text, minus_one, Map, lookup, All, Bool-cases, inl, inr, if_true,
  arith,
}
use mathlib.Core.Path.{subst, sym}
use tyk_pump.Floats.{FloatOps}
use tyk_pump.Analytics.Record.{AnalyticsRecord, is_graph_record}
use tyk_pump.Analytics.Fields.{fields}
use tyk_pump.Analytics.Graph.{GraphRecord, to_graph_record}
use tyk_pump.Aggregate.Counter.{Counter}
use tyk_pump.Aggregate.Counter.Ready.{AllReady}
use tyk_pump.Aggregate.Timestamp.{LastTimes}
use tyk_pump.Aggregate.Increment.{increment_aggregate}
use tyk_pump.Aggregate.Increment.Ready.{AllCountersReady}
use tyk_pump.Aggregate.Increment.Total.{increment_aggregate-AllCountersReady}
use tyk_pump.Aggregate.Named.{add_named, add_named-AllReady, for_each_named-AllReady}
use tyk_pump.Aggregate.Data.{Value, analytics, null, Progress, start_aggregate}
use tyk_pump.Aggregate.Data.Batch.{IsRequest}
use tyk_pump.Aggregate.Graph.{
  GraphRecordAggregate, resume_graph, graph_counter, field_label, add_type, add_graph_units,
  add_graph_record, add_graph_value,
}
use tyk_pump.Aggregate.Graph.Sums.{to_graph_record-record}

-- All counters of an aggregate are ready.
pub record GraphReady (a : GraphRecordAggregate) : Type 0 where
  pub aggregate : AllCountersReady a.aggregate
  pub types : AllReady a.types
  pub fields : AllReady a.fields
  pub operation : AllReady a.operation
  pub root_fields : AllReady a.root_fields

abbrev pub GraphMapReady : Map GraphRecordAggregate → Type 0
GraphMapReady m = All (λ e. GraphReady e.1) m

module _ (fl : FloatOps) (db : Text) (minutes : ℕ) where
  resume_graph-GraphReady :
      (k : Text) (m : Map GraphRecordAggregate) (r : AnalyticsRecord) (last : LastTimes)
      → GraphMapReady m
      → GraphReady (resume_graph db minutes (lookup k m) r last).0
  unfolding resume_graph start_aggregate
  resume_graph-GraphReady k m r last h =
      lookup-AllValues GraphReady (λ o. GraphReady (resume_graph db minutes o r last).0) k m
        (record {
          aggregate = ground arith;
          types = tt;
          fields = tt;
          operation = tt;
          root_fields = tt;
        })
        (λ a q. q) h

  add_type-AllReady :
      (counter : Counter) (e : Text × List Text) (m : Map Counter × Map Counter)
      → AllReady m.0 × AllReady m.1
      → Yields (λ n. AllReady n.0 × AllReady n.1) (add_type fl counter e m)
  unfolding add_type
  add_type-AllReady counter (t, fs) (types, fields) h =
      bind-Yields AllReady _ (add_named fl counter t t types) _
        (add_named-AllReady fl counter t t types h.0)
        (λ n k.
          bind-Yields AllReady _
            (for_each (λ f. add_named fl counter (field_label t f) (field_label t f)) fs fields) _
            (for_each_named-AllReady fl counter fs (field_label t) fields h.1) (λ n' k'. (k, k')))

  add_graph_units-GraphReady :
      (g : GraphRecord) (counter : Counter) (a : GraphRecordAggregate)
      → GraphReady a
      → Yields GraphReady (add_graph_units fl g counter a)
  unfolding add_graph_units
  add_graph_units-GraphReady g counter a h =
      bind-Yields AllReady GraphReady
        (add_named fl counter g.operation_type g.operation_type a.operation) _
        (add_named-AllReady fl counter g.operation_type g.operation_type a.operation h.operation)
        (λ o k.
          bind-Yields (λ n. AllReady n.0 × AllReady n.1) GraphReady
            (for_each (add_type fl counter) g.types (a.types, a.fields)) _
            (for_each-Yields (λ n. AllReady n.0 × AllReady n.1) (add_type fl counter) g.types
              (a.types, a.fields) (add_type-AllReady counter) (h.types, h.fields))
            (λ tf k'.
              bind-Yields AllReady GraphReady
                (for_each (λ f. add_named fl counter f f) g.root_fields a.root_fields) _
                (for_each_named-AllReady fl counter g.root_fields (λ f. f) a.root_fields
                  h.root_fields)
                (λ rf k''. record {
                  aggregate = h.aggregate;
                  types = k'.0;
                  fields = k'.1;
                  operation = k;
                  root_fields = k'';
                })))

  add_graph_record-GraphMapReady :
      (r : AnalyticsRecord) (s : Progress GraphRecordAggregate)
      → r.response_code ≢ minus_one
      → is_graph_record r ≡ true
      → GraphMapReady s.0
      → Yields (λ t. GraphMapReady t.0) (add_graph_record fl db minutes r s)
  unfolding add_graph_record
  add_graph_record-GraphMapReady r s q t h =
      let g = to_graph_record r in
      let a = (resume_graph db minutes (lookup r.api_id s.0) r s.1).0 in
      let ready = resume_graph-GraphReady r.api_id s.0 r s.1 h in
      bind-Yields (λ p. AllCountersReady p.0) (λ u. GraphMapReady u.0)
        (increment_aggregate fl fields a.aggregate g.analytics_record false []) _
        (increment_aggregate-AllCountersReady fl fields a.aggregate g.analytics_record false []
          (rw (to_graph_record-record r t) q) ready.aggregate)
        (λ p k.
          bind-Yields GraphReady (λ u. GraphMapReady u.0)
            (add_graph_units fl g (graph_counter g p.1) (record a { aggregate = p.0 })) _
            (add_graph_units-GraphReady g (graph_counter g p.1) (record a { aggregate = p.0 })
              (record {
                aggregate = k;
                types = ready.types;
                fields = ready.fields;
                operation = ready.operation;
                root_fields = ready.root_fields;
              }))
            (λ d k'. insert-AllValues GraphReady r.api_id d s.0 k' h))

  pub add_graph_value-GraphMapReady :
      (v : Value) (s : Progress GraphRecordAggregate)
      → IsRequest v
      → GraphMapReady s.0
      → Yields (λ t. GraphMapReady t.0) (add_graph_value fl db minutes v s)
  unfolding add_graph_value
  add_graph_value-GraphMapReady null s q h = h
  add_graph_value-GraphMapReady (analytics r) s q h = elim (Bool-cases (is_graph_record r)) [
    | inl e ↦
        subst (Yields (λ t. GraphMapReady t.0))
          (sym (if_true (is_graph_record r) (add_graph_record fl db minutes r s) (some s) e))
          (add_graph_record-GraphMapReady r s q e h)
    | inr e ↦ rw e h
  ]
