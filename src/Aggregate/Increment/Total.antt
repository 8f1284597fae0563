-- ===== src/Aggregate/Increment/Total.antt =====
-- analytics/aggregate.go: what `incrementAggregate` does to the totals of an aggregate.
use tyk_pump.Base.{
  ◌≡◌, sym, ◌∙◌, ap, ◌⊎◌, ◌≢◌, Bool, true, List, [], ◌∷◌, Option, none, some, for_each, >>=-eq-some,
  Yields, bind-Yields, for_each-Yields, Text, minus_one, ◌==◌, Bool-cases, inl, inr, if◌then◌else◌,
  arith,
}
use tyk_pump.Floats.{FloatOps}
use tyk_pump.Analytics.Record.{AnalyticsRecord}
use tyk_pump.Analytics.Fields.{Field}
use tyk_pump.Aggregate.Counter.{Counter}
use tyk_pump.Aggregate.Counter.Ready.{IsReady}
use tyk_pump.Aggregate.State.{AnalyticsRecordAggregate}
use tyk_pump.Aggregate.Increment.{
  request_counter, add_to_total, increment_aggregate, count_error, seen, add_connections,
  add_request,
}
use tyk_pump.Aggregate.Cases.{field_step}
use tyk_pump.Aggregate.Increment.Ready.{AllCountersReady, field_step-AllCountersReady}

-- The parts of an aggregate that the loop over the fields leaves alone.
pub record Keeps (a b : AnalyticsRecordAggregate) : Type 0 where
  pub total : b.total ≡ a.total
  pub org_id : b.org_id ≡ a.org_id
  pub last_time : b.last_time ≡ a.last_time
  pub time_stamp : b.time_stamp ≡ a.time_stamp

abbrev get_or_same :
    AnalyticsRecordAggregate × Counter
    → Option (AnalyticsRecordAggregate × Counter)
    → AnalyticsRecordAggregate
get_or_same p none = p.0
get_or_same p (some q) = q.0

module _ (fl : FloatOps) where
  field_step-Keeps :
      (base : Counter) (r : AnalyticsRecord) (ignored : List Text) (f : Field)
      (a : AnalyticsRecordAggregate) {b : AnalyticsRecordAggregate}
      → field_step fl base r ignored f a ≡ some b
      → Keeps a b
  unfolding field_step
  field_step-Keeps base r ignored Field.api_id a h = ground arith
  field_step-Keeps base r ignored _ a h = ground arith

  fields-Keeps :
      (base : Counter) (r : AnalyticsRecord) (ignored : List Text) (order : List Field)
      (a : AnalyticsRecordAggregate) {b : AnalyticsRecordAggregate}
      → for_each (field_step fl base r ignored) order a ≡ some b
      → Keeps a b
  unfolding for_each
  fields-Keeps base r ignored [] a h = ground arith
  fields-Keeps base r ignored (f ∷ order) a {b} h =
      let (c, e, g) =
        >>=-eq-some (field_step fl base r ignored f a)
          (for_each (field_step fl base r ignored) order) h in
      let k = field_step-Keeps base r ignored f a e in
      let l = fields-Keeps base r ignored order c g in
      record {
        total = l.total ∙ k.total;
        org_id = l.org_id ∙ k.org_id;
        last_time = l.last_time ∙ k.last_time;
        time_stamp = l.time_stamp ∙ k.time_stamp;
      }

  -- Adding a record to a total whose map of errors is made returns.
  add_to_total-IsReady :
      (r : AnalyticsRecord) (t : Counter) → IsReady t → Yields IsReady (add_to_total fl r t)
  unfolding add_to_total count_error
  add_to_total-IsReady r t h = ground arith

  add_request-AllCountersReady :
      (order : List Field) (a : AnalyticsRecordAggregate) (r : AnalyticsRecord)
      (ignored : List Text)
      → AllCountersReady a
      → Yields (λ p. AllCountersReady p.0) (add_request fl order a r ignored)
  unfolding add_request
  add_request-AllCountersReady order a r ignored h =
      let step = field_step fl (request_counter fl r) r ignored in
      bind-Yields IsReady (λ p. AllCountersReady p.0) (add_to_total fl r a.total) _
        (add_to_total-IsReady r a.total h.total)
        (λ t k.
          bind-Yields AllCountersReady (λ p. AllCountersReady p.0)
            (for_each step order (record a { total = t })) (λ b. some (b, request_counter fl r))
            (for_each-Yields AllCountersReady step order (record a { total = t })
              (field_step-AllCountersReady fl (request_counter fl r) r ignored) (ground arith))
            (λ b l. l))

  -- A record that is no report on connections is added without a panic, and leaves every counter
  -- ready, whatever the order of the fields.
  pub increment_aggregate-AllCountersReady :
      (order : List Field) (a : AnalyticsRecordAggregate) (r : AnalyticsRecord) (track_all : Bool)
      (ignored : List Text)
      → r.response_code ≢ minus_one
      → AllCountersReady a
      → Yields (λ p. AllCountersReady p.0) (increment_aggregate fl order a r track_all ignored)
  unfolding increment_aggregate seen
  increment_aggregate-AllCountersReady order a r track_all ignored n h =
      elim (Bool-cases (r.response_code == minus_one)) [
        | inl e ↦ absurd (n (ground arith))
        | inr e ↦ rw e (add_request-AllCountersReady order (seen r a) _ ignored (ground arith))
      ]

  add_request-Keeps :
      (order : List Field) (a : AnalyticsRecordAggregate) (r : AnalyticsRecord)
      (ignored : List Text) {p : AnalyticsRecordAggregate × Counter}
      → add_request fl order a r ignored ≡ some p
      → (t : Counter) × (add_to_total fl r a.total ≡ some t) × Keeps (record a { total = t }) p.0
  unfolding add_request
  add_request-Keeps order a r ignored h =
      let (t, e, g) = >>=-eq-some (add_to_total fl r a.total) _ h in
      let (b, e', g') =
        >>=-eq-some
          (for_each (field_step fl (request_counter fl r) r ignored) order (record a { total = t }))
          (λ b. some (b, request_counter fl r)) g in
      let k = fields-Keeps (request_counter fl r) r ignored order (record a { total = t }) e' in
      (t, e, ground arith)

  -- The two ways in which a record is added.
  pub increment_aggregate_cases :
      (order : List Field) (a : AnalyticsRecordAggregate) (r : AnalyticsRecord) (track_all : Bool)
      (ignored : List Text) {p : AnalyticsRecordAggregate × Counter}
      → increment_aggregate fl order a r track_all ignored ≡ some p
      → (r.response_code ≡ minus_one) × (p.0 ≡ add_connections r (seen r a))
        ⊎ (r.response_code ≢ minus_one)
          × ((t : Counter) × (add_to_total fl
                  (record r { track_path = if track_all then true else r.track_path })
                  (seen r a).total
                ≡ some t)
              × Keeps (record (seen r a) { total = t }) p.0)
  unfolding increment_aggregate
  increment_aggregate_cases order a r track_all ignored {p} h =
      elim (Bool-cases (r.response_code == minus_one)) [
        | inl e ↦ inl (ground arith, sym (ap (get_or_same p) (rw e at h)))
        | inr e ↦
            inr ((λ n. ground arith), add_request-Keeps order (seen r a) _ ignored (rw e at h))
      ]
