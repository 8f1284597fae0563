-- ===== src/Aggregate/Data/Batch.antt =====
-- analytics/aggregate.go: `AggregateData` on a whole batch.
use tyk_pump.Base.{
  insert-AllValues, lookup-AllValues, ℕ, ◌%◌, ◌≡◌, ◌∙◌, ◌≢◌, Bool, ◌||◌, List, [], ◌∷◌, none, some,
  for_each, >>=-eq-some, Yields, Yields-some, for_each-Yields_of, Text, minus_one, Map, lookup, All,
  any, Bool-cases, inl, inr, arith, bind-Yields,
}
use mathlib.Core.Option.{some-injective}
use tyk_pump.Floats.{FloatOps}
use tyk_pump.Analytics.Record.{AnalyticsRecord}
use tyk_pump.Analytics.Fields.{fields}
use tyk_pump.Aggregate.State.{AnalyticsRecordAggregate}
use tyk_pump.Aggregate.Timestamp.{LastTimes}
use tyk_pump.Aggregate.Increment.{increment_aggregate}
use tyk_pump.Aggregate.Increment.Ready.{AllCountersReady}
use tyk_pump.Aggregate.Increment.Total.{increment_aggregate-AllCountersReady}
use tyk_pump.Aggregate.Increment.Measures.{
  hits, success, errors, latency, upstream, hit_weight, success_weight, error_weight,
  latency_weight, upstream_weight,
}
use tyk_pump.Aggregate.Data.{
  Value, analytics, null, is_skipped, Progress, resume, find_or_start, add_record, add_value,
  aggregate_data,
}
use tyk_pump.Aggregate.Data.Totals.{
  belongs, has_aggregate, number_of, total_weight, add_record-has_aggregate, from_nothing,
}

-- A record that is no report on connections.
abbrev pub IsRequest : Value → Type 0
IsRequest (analytics r) = r.response_code ≢ minus_one
IsRequest null = ⊥

abbrev MapReady : Map AnalyticsRecordAggregate → Type 0
MapReady m = All (λ e. AllCountersReady e.1) m

start-AllCountersReady :
    (db : Text) (minutes : ℕ) (r : AnalyticsRecord) (last : LastTimes)
    → AllCountersReady (resume db minutes none r last).0
unfolding resume
start-AllCountersReady db minutes r last = ground arith

resume-AllCountersReady :
    (db : Text) (minutes : ℕ) (k : Text) (m : Map AnalyticsRecordAggregate) (r : AnalyticsRecord)
    (last : LastTimes)
    → MapReady m
    → AllCountersReady (resume db minutes (lookup k m) r last).0
unfolding resume
resume-AllCountersReady db minutes k m r last h =
    lookup-AllValues AllCountersReady (λ o. AllCountersReady (resume db minutes o r last).0) k m
      (start-AllCountersReady db minutes r last) (λ a q. q) h

module _ (fl : FloatOps) (track_all : Bool) (ignored : List Text) (db : Text) (minutes : ℕ) where
  add_value-MapReady :
      (v : Value) (s : Progress AnalyticsRecordAggregate)
      → IsRequest v
      → MapReady s.0
      → Yields (λ t. MapReady t.0) (add_value fl track_all ignored db minutes v s)
  unfolding add_value add_record find_or_start
  add_value-MapReady null s q h = q
  add_value-MapReady (analytics r) s q h = elim (Bool-cases (is_skipped r)) [
    | inl e ↦ rw e h
    | inr e ↦ rw e (
        bind-Yields (λ p. AllCountersReady p.0) (λ t. MapReady t.0)
          (increment_aggregate fl fields (resume db minutes (lookup r.org_id s.0) r s.1).0 r
            track_all ignored)
          _
          (increment_aggregate-AllCountersReady fl fields
            (resume db minutes (lookup r.org_id s.0) r s.1).0 r track_all ignored q
            (resume-AllCountersReady db minutes r.org_id s.0 r s.1 h))
          (λ p k. insert-AllValues AllCountersReady r.org_id p.0 s.0 k h))
  ]

  for_each-has_aggregate :
      (org : Text) (vs : List Value) (s : Progress AnalyticsRecordAggregate)
      {s' : Progress AnalyticsRecordAggregate}
      → for_each (add_value fl track_all ignored db minutes) vs s ≡ some s'
      → has_aggregate org s'.0 ≡ (has_aggregate org s.0 || any (belongs org) vs)
  unfolding for_each add_value
  for_each-has_aggregate org [] s {s'} h = rw (← some-injective s s' h) (ground arith)
  for_each-has_aggregate org (null ∷ vs) s h = cc
  for_each-has_aggregate org (analytics r ∷ vs) s h =
      let (t, e, g) =
        >>=-eq-some (add_record fl track_all ignored db minutes r s)
          (for_each (add_value fl track_all ignored db minutes) vs) h in
      let first = add_record-has_aggregate fl track_all ignored db minutes org r s e in
      let rest = for_each-has_aggregate org vs t g in rest ∙ rw first (ground arith)

  -- What a batch adds up to: the organisations with an aggregate are those with a record, and the
  -- numbers of each organisation are sums over its records, modulo 2 ^ 64.
  pub record AddsUp (values : List Value) (s : Progress AnalyticsRecordAggregate) : Type 0 where
    pub organisations : (org : Text) → has_aggregate org s.0 ≡ any (belongs org) values
    pub hits :
        (org : Text)
        → number_of (λ t. t.hits) (lookup org s.0)
          ≡ total_weight hit_weight org values % 18446744073709551616
    pub success :
        (org : Text)
        → number_of (λ t. t.success) (lookup org s.0)
          ≡ total_weight success_weight org values % 18446744073709551616
    pub errors :
        (org : Text)
        → number_of (λ t. t.error_total) (lookup org s.0)
          ≡ total_weight error_weight org values % 18446744073709551616
    pub latency :
        (org : Text)
        → number_of (λ t. t.total_latency) (lookup org s.0)
          ≡ total_weight latency_weight org values % 18446744073709551616
    pub upstream :
        (org : Text)
        → number_of (λ t. t.total_upstream_latency) (lookup org s.0)
          ≡ total_weight upstream_weight org values % 18446744073709551616

  -- If `AggregateData` returns, the organisations that have an aggregate are those of the records
  -- that it does not pass over, and in the total of each the hits, successes, errors and latencies
  -- are the sums over these records, modulo 2 ^ 64.
  pub aggregate_data-AddsUp_of_some :
      (values : List Value) (last : LastTimes) (s : Progress AnalyticsRecordAggregate)
      → aggregate_data fl track_all ignored db minutes values last ≡ some s
      → AddsUp values s
  unfolding aggregate_data lookup
  aggregate_data-AddsUp_of_some values last s h = record {
    organisations = λ org. for_each-has_aggregate org values ([], last) h;
    hits = λ org. from_nothing (hits fl) track_all ignored db minutes org values last h;
    success = λ org. from_nothing (success fl) track_all ignored db minutes org values last h;
    errors = λ org. from_nothing (errors fl) track_all ignored db minutes org values last h;
    latency = λ org. from_nothing (latency fl) track_all ignored db minutes org values last h;
    upstream = λ org. from_nothing (upstream fl) track_all ignored db minutes org values last h;
  }

  -- On a batch of records none of which has the response code -1, `AggregateData` returns: the
  -- organisations that have an aggregate are those of the records that it does not pass over, and
  -- in the total of each the hits, successes, errors and latencies are the sums over these records,
  -- modulo 2 ^ 64.
  pub aggregate_data-AddsUp :
      (values : List Value) (last : LastTimes)
      → All IsRequest values
      → (s : Progress AnalyticsRecordAggregate) × (aggregate_data fl track_all ignored db minutes
            values last
          ≡ some s)
        × AddsUp values s
  unfolding aggregate_data
  aggregate_data-AddsUp values last q =
      let (s, e, _) =
        Yields-some (λ t. MapReady t.0)
          (for_each (add_value fl track_all ignored db minutes) values ([], last))
          (for_each-Yields_of IsRequest (λ t. MapReady t.0)
            (add_value fl track_all ignored db minutes) values ([], last) add_value-MapReady q
            tt) in
      (s, e, aggregate_data-AddsUp_of_some values last s e)
