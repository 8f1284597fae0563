-- ===== src/Aggregate/Increment/Measures.antt =====
-- analytics/aggregate.go: the counts and sums that `incrementAggregate` keeps in `Total`.
use tyk_pump.Base.{
  ℕ, ◌+◌, ◌%◌, ◌<◌, ◌≡◌, refl, ap, true, ◌∙◌, ◌≢◌, Bool, List, Option, some, Text, Int64, minus_one,
  add64, ◌==◌, Map, inl, inr, if◌then◌else◌, arith,
}
use tyk_pump.Floats.{FloatOps}
use tyk_pump.Analytics.Record.{AnalyticsRecord}
use tyk_pump.Analytics.Fields.{Field}
use tyk_pump.Aggregate.Counter.{Counter, zero_counter}
use tyk_pump.Aggregate.State.{AnalyticsRecordAggregate}
use tyk_pump.Aggregate.Increment.{
  is_success, is_error, add_to_total, increment_aggregate, total_request, total_connections, seen,
  add_connections,
}
use tyk_pump.Aggregate.Increment.Total.{increment_aggregate_cases}

-- What a record adds to the counts and sums of the total. A report on connections adds nothing.
abbrev pub hit_weight : AnalyticsRecord → ℕ
hit_weight r = if r.response_code == minus_one then 0 else 1

abbrev pub success_weight : AnalyticsRecord → ℕ
success_weight r =
    if r.response_code == minus_one then 0 else if is_success r.response_code then 1 else 0

abbrev pub error_weight : AnalyticsRecord → ℕ
error_weight r =
    if r.response_code == minus_one then 0 else if is_error r.response_code then 1 else 0

abbrev pub latency_weight : AnalyticsRecord → ℕ
latency_weight r = if r.response_code == minus_one then 0 else r.latency.total

abbrev pub upstream_weight : AnalyticsRecord → ℕ
upstream_weight r = if r.response_code == minus_one then 0 else r.latency.upstream

-- A number of the total to which each record adds its weight, modulo 2 ^ 64.
pub record Measure (fl : FloatOps) : Type 0 where
  pub get : Counter → ℕ
  pub weight : AnalyticsRecord → ℕ
  pub adds :
      (r : AnalyticsRecord) (t u : Counter)
      → get t < 18446744073709551616
      → add_to_total fl r t ≡ some u
      → r.response_code ≢ minus_one
      → get u ≡ (get t + weight r) % 18446744073709551616
  pub reports : (r : AnalyticsRecord) → r.response_code ≡ minus_one → weight r ≡ 0
  pub keeps : (r : AnalyticsRecord) (t : Counter) → get (total_connections r t) ≡ get t
  pub timeless :
      (r : AnalyticsRecord) (t : Counter) → get (record t { last_time = r.time_stamp }) ≡ get t
  pub untracked : (r : AnalyticsRecord) (b : Bool) → weight (record r { track_path = b }) ≡ weight r
  pub empty : (m : Option (Map Int64)) → get (record zero_counter { error_map = m }) ≡ 0

module _ (fl : FloatOps) where
  pub hits_adds :
      (r : AnalyticsRecord) (t u : Counter)
      → t.hits < 18446744073709551616
      → add_to_total fl r t ≡ some u
      → r.response_code ≢ minus_one
      → u.hits ≡ (t.hits + hit_weight r) % 18446744073709551616
  unfolding add_to_total total_request add64
  hits_adds r t u b h n = ground arith

  pub hits_reports : (r : AnalyticsRecord) → r.response_code ≡ minus_one → hit_weight r ≡ 0
  hits_reports r h = ground arith

  pub hits_keeps : (r : AnalyticsRecord) (t : Counter) → (total_connections r t).hits ≡ t.hits
  unfolding total_connections
  hits_keeps r t = refl

  abbrev pub hits : Measure fl
  hits = record {
    get = λ t. t.hits;
    weight = hit_weight;
    adds = hits_adds;
    reports = hits_reports;
    keeps = hits_keeps;
    timeless = λ r t. refl;
    untracked = λ r b. refl;
    empty = λ m. refl;
  }

  pub success_adds :
      (r : AnalyticsRecord) (t u : Counter)
      → t.success < 18446744073709551616
      → add_to_total fl r t ≡ some u
      → r.response_code ≢ minus_one
      → u.success ≡ (t.success + success_weight r) % 18446744073709551616
  unfolding add_to_total total_request add64
  success_adds r t u b h n = ground arith

  pub success_reports : (r : AnalyticsRecord) → r.response_code ≡ minus_one → success_weight r ≡ 0
  success_reports r h = ground arith

  pub success_keeps :
      (r : AnalyticsRecord) (t : Counter) → (total_connections r t).success ≡ t.success
  unfolding total_connections
  success_keeps r t = refl

  abbrev pub success : Measure fl
  success = record {
    get = λ t. t.success;
    weight = success_weight;
    adds = success_adds;
    reports = success_reports;
    keeps = success_keeps;
    timeless = λ r t. refl;
    untracked = λ r b. refl;
    empty = λ m. refl;
  }

  pub errors_adds :
      (r : AnalyticsRecord) (t u : Counter)
      → t.error_total < 18446744073709551616
      → add_to_total fl r t ≡ some u
      → r.response_code ≢ minus_one
      → u.error_total ≡ (t.error_total + error_weight r) % 18446744073709551616
  unfolding add_to_total total_request add64
  errors_adds r t u b h n = ground arith

  pub errors_reports : (r : AnalyticsRecord) → r.response_code ≡ minus_one → error_weight r ≡ 0
  errors_reports r h = ground arith

  pub errors_keeps :
      (r : AnalyticsRecord) (t : Counter) → (total_connections r t).error_total ≡ t.error_total
  unfolding total_connections
  errors_keeps r t = refl

  abbrev pub errors : Measure fl
  errors = record {
    get = λ t. t.error_total;
    weight = error_weight;
    adds = errors_adds;
    reports = errors_reports;
    keeps = errors_keeps;
    timeless = λ r t. refl;
    untracked = λ r b. refl;
    empty = λ m. refl;
  }

  pub latency_adds :
      (r : AnalyticsRecord) (t u : Counter)
      → t.total_latency < 18446744073709551616
      → add_to_total fl r t ≡ some u
      → r.response_code ≢ minus_one
      → u.total_latency ≡ (t.total_latency + latency_weight r) % 18446744073709551616
  unfolding add_to_total total_request add64
  latency_adds r t u b h n = ground arith

  pub latency_reports : (r : AnalyticsRecord) → r.response_code ≡ minus_one → latency_weight r ≡ 0
  latency_reports r h = ground arith

  pub latency_keeps :
      (r : AnalyticsRecord) (t : Counter) → (total_connections r t).total_latency ≡ t.total_latency
  unfolding total_connections
  latency_keeps r t = refl

  abbrev pub latency : Measure fl
  latency = record {
    get = λ t. t.total_latency;
    weight = latency_weight;
    adds = latency_adds;
    reports = latency_reports;
    keeps = latency_keeps;
    timeless = λ r t. refl;
    untracked = λ r b. refl;
    empty = λ m. refl;
  }

  pub upstream_adds :
      (r : AnalyticsRecord) (t u : Counter)
      → t.total_upstream_latency < 18446744073709551616
      → add_to_total fl r t ≡ some u
      → r.response_code ≢ minus_one
      → u.total_upstream_latency
        ≡ (t.total_upstream_latency + upstream_weight r) % 18446744073709551616
  unfolding add_to_total total_request add64
  upstream_adds r t u b h n = ground arith

  pub upstream_reports : (r : AnalyticsRecord) → r.response_code ≡ minus_one → upstream_weight r ≡ 0
  upstream_reports r h = ground arith

  pub upstream_keeps :
      (r : AnalyticsRecord) (t : Counter)
      → (total_connections r t).total_upstream_latency ≡ t.total_upstream_latency
  unfolding total_connections
  upstream_keeps r t = refl

  abbrev pub upstream : Measure fl
  upstream = record {
    get = λ t. t.total_upstream_latency;
    weight = upstream_weight;
    adds = upstream_adds;
    reports = upstream_reports;
    keeps = upstream_keeps;
    timeless = λ r t. refl;
    untracked = λ r b. refl;
    empty = λ m. refl;
  }

-- What a record adds to a measure of the total, on either branch.
pub increment_aggregate-Measure :
    {fl : FloatOps} (μ : Measure fl) (order : List Field) (a : AnalyticsRecordAggregate)
    (r : AnalyticsRecord) (track_all : Bool) (ignored : List Text)
    {p : AnalyticsRecordAggregate × Counter}
    → μ.get a.total < 18446744073709551616
    → increment_aggregate fl order a r track_all ignored ≡ some p
    → (μ.get p.0.total ≡ (μ.get a.total + μ.weight r) % 18446744073709551616)
      × (p.0.org_id ≡ a.org_id)
unfolding increment_aggregate seen add_connections
increment_aggregate-Measure {fl} μ order a r track_all ignored {p} b h =
    let tracked : Bool = if track_all then true else r.track_path in
    let r' : AnalyticsRecord = record r { track_path = tracked } in
    elim (increment_aggregate_cases fl order a r track_all ignored h) [
      | inl (e, q) ↦ (
        rw q (omega (arith, μ.keeps r (seen r a).total, μ.timeless r a.total, μ.reports r e)),
        ap (λ c. c.org_id) q,
      )
      | inr (n, (t, e, k)) ↦ (
        rw k.total (
            μ.adds r' (seen r a).total t (omega (arith, μ.timeless r a.total)) e n
            ∙ rw (μ.timeless r a.total, μ.untracked r tracked)),
        k.org_id,
      )
    ]
