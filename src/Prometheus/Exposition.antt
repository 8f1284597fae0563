-- ===== src/Prometheus/Exposition.antt =====
-- pumps/prometheus.go: the metrics of a batch, and their exposition.
use tyk_pump.Base.{
  ℕ, ◌-◌, ◌/◌, Bool, true, false, not, ◌&&◌, ◌||◌, List, [], ◌∷◌, Option, none, some, ◌>>=◌,
  for_each, Text, text, same, Int64, lookup, insert, if◌then◌else◌,
}
use tyk_pump.Time.{Time}
use tyk_pump.Analytics.Record.{AnalyticsRecord, is_mcp_record}
use tyk_pump.Aggregate.Data.{Value, analytics, null}
use tyk_pump.Prometheus.Metric.{
  CounterStruct, HistogramCounter, MetricType, PrometheusMetric, counter_type, get_labels_values,
  histogram_type, inc, invalid_type, join_values, observe_one, observed_labels,
}

-- What is given to the client's histogram, as a `float64` of an `int64` or of a `uint64`.
pub data Observation : Type 0 where
  of_int64 : Int64 → Observation
  of_uint64 : Int64 → Observation

-- The vectors of the client, by the name of the metric. They panic where the number of label values is not
-- that of the labels.
pub record Registry : Type 1 where
  pub State : Type 0
  pub add : Text → List Text → Int64 → State → Option State
  pub observe : Text → List Text → Observation → State → Option State

module _ (registry : Registry) (show_time : Time → Text) where
  open registry use {State, add, observe}

  -- `Observe`, of a histogram.
  unfoldable pub observe_value :
      Int64 → List Text → PrometheusMetric × State → Option (PrometheusMetric × State)
  observe_value time values (m, s) =
      let labels = observed_labels values in
      let key = join_values labels in
      if m.aggregated_observations
      then some (
        record m {
          histogram_map =
              insert key (observe_one (lookup key m.histogram_map) time labels) m.histogram_map;
        },
        s,
      )
      else (observe m.name labels (of_int64 time) s >>= λ s'. some (m, s'))

  -- `observeLatencyMetrics`
  unfoldable pub observe_latency_metrics :
      AnalyticsRecord → List Text → PrometheusMetric × State → Option (PrometheusMetric × State)
  observe_latency_metrics r values p =
      observe_value r.request_time (text "total" ∷ values) p
      >>= observe_value r.latency.upstream (text "upstream" ∷ values)
      >>= observe_value r.latency.gateway (text "gateway" ∷ values)

  -- The switch of `processMetric`
  abbrev pub process_by_type :
      MetricType
      → AnalyticsRecord
      → List Text
      → PrometheusMetric × State
      → Option (PrometheusMetric × State)
  process_by_type counter_type r values (m, s) =
      some (record m { counter_map = inc values m.counter_map }, s)
  process_by_type histogram_type r values (m, s) =
      if same m.name (text "tyk_latency")
      then observe_latency_metrics r values (m, s)
      else observe_value r.request_time values (m, s)
  process_by_type (invalid_type t) r values p = some p

  -- `processMetric`
  unfoldable pub process_metric :
      AnalyticsRecord → PrometheusMetric × State → Option (PrometheusMetric × State)
  process_metric r (m, s) =
      if not m.enabled || m.mcp_only && not (is_mcp_record r)
      then some (m, s)
      else process_by_type m.metric_type r (get_labels_values show_time m r) (m, s)

  -- The loop over the metrics for a record.
  unfoldable pub process_metrics :
      AnalyticsRecord → List PrometheusMetric → State → Option (List PrometheusMetric × State)
  process_metrics r [] s = some ([], s)
  process_metrics r (m ∷ ms) s = do
    p ← process_metric r (m, s)
    q ← process_metrics r ms p.1
    some (p.0 ∷ q.0, q.1)

  -- The path is kept where it is tracked.
  unfoldable pub track : (track_all_paths : Bool) → AnalyticsRecord → AnalyticsRecord
  track track_all_paths r =
      if track_all_paths || r.track_path then r else record r { path = text "unknown" }

  -- The loop over the batch. The context is done before a given record, if at all: then the rest is left,
  -- with an error. `item.(AnalyticsRecord)` panics on nil.
  unfoldable pub process_data :
      (track_all_paths : Bool)
      → (done_at : Option ℕ) → List Value
      → List PrometheusMetric
      → State
      → Option (Bool × (List PrometheusMetric × State))
  process_data tracks done_at [] ms s = some (true, (ms, s))
  process_data tracks (some ℕ.zero) (v ∷ vs) ms s = some (false, (ms, s))
  process_data tracks done_at (null ∷ vs) ms s = none
  process_data tracks done_at (analytics r ∷ vs) ms s = do
    p ← process_metrics (track tracks r) ms s
    process_data tracks (elim done_at [ none ↦ none | some n ↦ some (n - 1) ]) vs p.0 p.1

  abbrev pub expose_counter : Text → Text × CounterStruct → State → Option State
  expose_counter name (key, c) s = add name c.label_values c.count s

  -- `getAverageRequestTime`, whose division panics on 0.
  abbrev pub observe_average : Text → Text × HistogramCounter → State → Option State
  observe_average name (key, h) s =
      observe name h.label_values (of_uint64 (h.total_request_time / h.hits)) s

  -- `Expose`, which empties the maps, here in the order in which their keys came.
  abbrev pub expose_by_type :
      MetricType → PrometheusMetric → State → Option (PrometheusMetric × State)
  expose_by_type counter_type m s = for_each (expose_counter m.name) m.counter_map s >>= λ s'.
      some (record m { counter_map = [] }, s')
  expose_by_type histogram_type m s =
      if m.aggregated_observations
      then (for_each (observe_average m.name) m.histogram_map s >>= λ s'.
          some (record m { histogram_map = [] }, s'))
      else some (m, s)
  expose_by_type (invalid_type t) m s = some (m, s)

  unfoldable pub expose : PrometheusMetric → State → Option (PrometheusMetric × State)
  expose m s = expose_by_type m.metric_type m s

  unfoldable pub expose_all : List PrometheusMetric → State → Option (List PrometheusMetric × State)
  expose_all [] s = some ([], s)
  expose_all (m ∷ ms) s = do p ← expose m s; q ← expose_all ms p.1; some (p.0 ∷ q.0, q.1)

  -- `WriteData`: the metrics are exposed only where every record has been processed.
  unfoldable pub write_data :
      Bool
      → Option ℕ
      → List Value
      → List PrometheusMetric
      → State
      → Option (Bool × (List PrometheusMetric × State))
  write_data tracks done_at data' ms s = do
    p ← process_data tracks done_at data' ms s
    (if p.0 then (expose_all p.1.0 p.1.1 >>= λ q. some (true, q)) else some p)
