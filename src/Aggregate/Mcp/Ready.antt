-- ===== src/Aggregate/Mcp/Ready.antt =====
-- analytics/aggregate_mcp.go: the counters of MCP aggregates, to which counters can be added.
use tyk_pump.Base.{
  insert-AllValues, lookup-AllValues, ℕ, ◌≡◌, sym, ◌≢◌, true, false, [], some, Yields, bind-Yields,
  Text, is_empty, minus_one, Map, lookup, All, Bool-cases, inl, inr, if_true, arith,
}
use mathlib.Core.Path.{subst}
use tyk_pump.Floats.{FloatOps}
use tyk_pump.Analytics.Record.{AnalyticsRecord, is_mcp_record}
use tyk_pump.Analytics.Fields.{fields}
use tyk_pump.Analytics.Mcp.{McpRecord, to_mcp_record}
use tyk_pump.Aggregate.Counter.{Counter}
use tyk_pump.Aggregate.Counter.Ready.{AllReady}
use tyk_pump.Aggregate.Timestamp.{LastTimes}
use tyk_pump.Aggregate.Increment.{increment_aggregate}
use tyk_pump.Aggregate.Increment.Ready.{AllCountersReady}
use tyk_pump.Aggregate.Increment.Total.{increment_aggregate-AllCountersReady}
use tyk_pump.Aggregate.Named.{add_named-AllReady}
use tyk_pump.Aggregate.Data.{Value, analytics, null, Progress, start_aggregate}
use tyk_pump.Aggregate.Data.Batch.{IsRequest}
use tyk_pump.Aggregate.Mcp.{
  McpRecordAggregate, resume_mcp, name_label, add_if_named, increment_mcp_dimensions,
  add_mcp_record, add_mcp_value,
}
use tyk_pump.Aggregate.Mcp.Sums.{to_mcp_record-record}

-- All counters of an aggregate are ready.
pub record McpReady (a : McpRecordAggregate) : Type 0 where
  pub aggregate : AllCountersReady a.aggregate
  pub methods : AllReady a.methods
  pub primitives : AllReady a.primitives
  pub names : AllReady a.names

abbrev pub McpMapReady : Map McpRecordAggregate → Type 0
McpMapReady m = All (λ e. McpReady e.1) m

module _ (fl : FloatOps) where
  add_if_named-AllReady :
      (counter : Counter) (name key : Text) (m : Map Counter)
      → AllReady m
      → Yields AllReady (add_if_named fl counter name key m)
  unfolding add_if_named
  add_if_named-AllReady counter name key m h = elim (Bool-cases (is_empty name)) [
    | inl e ↦ rw e h
    | inr e ↦ rw e (add_named-AllReady fl counter key name m h)
  ]

  increment_mcp_dimensions-McpReady :
      (a : McpRecordAggregate) (counter : Counter) (m : McpRecord)
      → McpReady a
      → Yields McpReady (increment_mcp_dimensions fl a counter m)
  unfolding increment_mcp_dimensions
  increment_mcp_dimensions-McpReady a counter m h =
      bind-Yields AllReady McpReady
        (add_if_named fl counter m.jsonrpc_method m.jsonrpc_method a.methods) _
        (add_if_named-AllReady counter m.jsonrpc_method m.jsonrpc_method a.methods h.methods)
        (λ n k.
          bind-Yields AllReady McpReady
            (add_if_named fl counter m.primitive_type m.primitive_type a.primitives) _
            (add_if_named-AllReady counter m.primitive_type m.primitive_type a.primitives
              h.primitives)
            (λ n' k'.
              bind-Yields AllReady McpReady
                (add_if_named fl counter m.primitive_name (name_label m) a.names) _
                (add_if_named-AllReady counter m.primitive_name (name_label m) a.names h.names)
                (λ n'' k''. record {
                  aggregate = h.aggregate;
                  methods = k;
                  primitives = k';
                  names = k'';
                })))

  module _ (db : Text) (minutes : ℕ) where
    resume_mcp-McpReady :
        (k : Text) (m : Map McpRecordAggregate) (r : AnalyticsRecord) (last : LastTimes)
        → McpMapReady m
        → McpReady (resume_mcp db minutes (lookup k m) r last).0
    unfolding resume_mcp start_aggregate
    resume_mcp-McpReady k m r last h =
        lookup-AllValues McpReady (λ o. McpReady (resume_mcp db minutes o r last).0) k m
          (record { aggregate = ground arith; methods = tt; primitives = tt; names = tt })
          (λ a q. q) h

    add_mcp_record-McpMapReady :
        (r : AnalyticsRecord) (s : Progress McpRecordAggregate)
        → r.response_code ≢ minus_one
        → is_mcp_record r ≡ true
        → McpMapReady s.0
        → Yields (λ t. McpMapReady t.0) (add_mcp_record fl db minutes r s)
    unfolding add_mcp_record
    add_mcp_record-McpMapReady r s q t h =
        let rec = to_mcp_record r in
        let a = (resume_mcp db minutes (lookup r.api_id s.0) r s.1).0 in
        let ready = resume_mcp-McpReady r.api_id s.0 r s.1 h in
        bind-Yields (λ p. AllCountersReady p.0) (λ u. McpMapReady u.0)
          (increment_aggregate fl fields a.aggregate rec.analytics_record false []) _
          (increment_aggregate-AllCountersReady fl fields a.aggregate rec.analytics_record false []
            (rw (to_mcp_record-record r t) q) ready.aggregate)
          (λ p k.
            bind-Yields McpReady (λ u. McpMapReady u.0)
              (increment_mcp_dimensions fl (record a { aggregate = p.0 }) p.1 rec) _
              (increment_mcp_dimensions-McpReady (record a { aggregate = p.0 }) p.1 rec
                (record {
                  aggregate = k;
                  methods = ready.methods;
                  primitives = ready.primitives;
                  names = ready.names;
                }))
              (λ d k'. insert-AllValues McpReady r.api_id d s.0 k' h))

    pub add_mcp_value-McpMapReady :
        (v : Value) (s : Progress McpRecordAggregate)
        → IsRequest v
        → McpMapReady s.0
        → Yields (λ t. McpMapReady t.0) (add_mcp_value fl db minutes v s)
    unfolding add_mcp_value
    add_mcp_value-McpMapReady null s q h = h
    add_mcp_value-McpMapReady (analytics r) s q h = elim (Bool-cases (is_mcp_record r)) [
      | inl e ↦
          subst (Yields (λ t. McpMapReady t.0))
            (sym (if_true (is_mcp_record r) (add_mcp_record fl db minutes r s) (some s) e))
            (add_mcp_record-McpMapReady r s q e h)
      | inr e ↦ rw e h
    ]
