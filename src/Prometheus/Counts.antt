-- ===== src/Prometheus/Counts.antt =====
-- pumps/prometheus.go: what a counter counts.
use tyk_pump.Base.{
  ℕ, suc, ◌+◌, ◌%◌, ◌<◌, ◌≡◌, refl, ap, ◌∙◌, Bool, true, false, not, ◌&&◌, ◌||◌, List, [], ◌∷◌,
  Option, none, some, ◌>>=◌, for_each, Text, same, same_iff, count, Int64, add64, Map, lookup,
  lookup-insert, Bool-cases, inl, inr, if_true, if_false, if◌then◌else◌, arith,
}
use tyk_pump.Time.{Time}
use tyk_pump.Analytics.Record.{AnalyticsRecord, is_mcp_record}
use tyk_pump.Prometheus.Exposition.{Registry, process_by_type, process_metric}
use tyk_pump.Prometheus.Metric.{
  CounterStruct, PrometheusMetric, counter_type, get_labels_values, join_values, count_one, inc,
  label_mapping, obfuscate_api_key,
}

-- The count under a key: 0 where there is none.
abbrev pub count_of : Option CounterStruct → Int64
count_of none = 0
count_of (some c) = c.count

count_of-count_one :
    (o : Option CounterStruct) (values : List Text)
    → count_of (some (count_one o values)) ≡ add64 (count_of o) 1
unfolding add64
count_of-count_one none values = refl
count_of-count_one (some c) values = refl

-- Once more for the key of the values, and nothing else.
count_of-inc :
    (k : Text) (values : List Text) (m : Map CounterStruct)
    → count_of (lookup k (inc values m)) ≡ (
        if same (join_values values) k
        then add64 (count_of (lookup k m)) 1
        else count_of (lookup k m))
unfolding inc
count_of-inc k values m = elim (Bool-cases (same (join_values values) k)) [
  | inl e ↦
      rw
        (
          lookup-insert (join_values values) k (count_one (lookup (join_values values) m) values) m,
          e,
        )
        (count_of-count_one (lookup (join_values values) m) values
          ∙ ap (λ j. add64 (count_of (lookup j m)) 1) ((same_iff (join_values values) k).0 e))
  | inr e ↦
      rw
        (
          lookup-insert (join_values values) k (count_one (lookup (join_values values) m) values) m,
          e,
        )
        refl
]

-- The count that is reached, by whether the record is looked at and has the key.
counted_once :
    (w b : Bool) (a x n : ℕ)
    → w ≡ true
    → x ≡ (if b then add64 a 1 else a)
    → (x + n) % 18446744073709551616 ≡ (a + (if w && b then suc n else n)) % 18446744073709551616
unfolding add64
counted_once true true a x n h e = omega arith
counted_once true false a x n h e = omega arith
counted_once false b a x n h e = absurd cc

passed_over :
    (w b : Bool) (a n : ℕ)
    → w ≡ false
    → (a + n) % 18446744073709551616 ≡ (a + (if w && b then suc n else n)) % 18446744073709551616
passed_over false b a n h = refl
passed_over true b a n h = absurd cc

stays_small :
    (b : Bool) (a x : ℕ)
    → a < 18446744073709551616
    → x ≡ (if b then add64 a 1 else a)
    → x < 18446744073709551616
unfolding add64
stays_small true a x l e = omega arith
stays_small false a x l e = omega arith

-- The guard of `processMetric`, of a metric that is enabled.
looks_at : (e p q : Bool) → e ≡ true → (not p || q) ≡ true → (not e || p && not q) ≡ false
looks_at true true true h w = refl
looks_at true false q h w = refl
looks_at true true false h w = absurd cc
looks_at false p q h w = absurd cc

looks_away : (e p q : Bool) → (not p || q) ≡ false → (not e || p && not q) ≡ true
looks_away true true false w = refl
looks_away true true true w = absurd cc
looks_away true false q w = absurd cc
looks_away false p q w = refl

module _ (registry : Registry) (show_time : Time → Text) where
  -- The record counts for the key: where the metric is for MCP only, it is one of MCP.
  abbrev pub counts_for : PrometheusMetric → Text → AnalyticsRecord → Bool
  counts_for m k r =
      (not m.mcp_only || is_mcp_record r) && same (join_values (get_labels_values show_time m r)) k

  abbrev pub process :
      AnalyticsRecord
      → PrometheusMetric × registry.State
      → Option (PrometheusMetric × registry.State)
  process r p = process_metric registry show_time r p

  -- The metric with another map of counters.
  abbrev with_map : PrometheusMetric → Map CounterStruct → PrometheusMetric
  with_map m c = record m { counter_map = c }

  process_counted :
      (m : PrometheusMetric) (r : AnalyticsRecord) (c : Map CounterStruct) (s : registry.State)
      → m.metric_type ≡ counter_type
      → m.enabled ≡ true
      → (not m.mcp_only || is_mcp_record r) ≡ true
      → process r (with_map m c, s) ≡ some (with_map m (inc (get_labels_values show_time m r) c), s)
  unfolding process_metric get_labels_values label_mapping obfuscate_api_key
  process_counted m r c s t e w =
      if_false _ _ _ (looks_at m.enabled m.mcp_only (is_mcp_record r) e w)
      ∙ ap
          (λ y.
            process_by_type registry show_time y r (get_labels_values show_time m r)
              (with_map m c, s))
          t

  process_skipped :
      (m : PrometheusMetric) (r : AnalyticsRecord) (c : Map CounterStruct) (s : registry.State)
      → (not m.mcp_only || is_mcp_record r) ≡ false
      → process r (with_map m c, s) ≡ some (with_map m c, s)
  unfolding process_metric
  process_skipped m r c s w = if_true _ _ _ (looks_away m.enabled m.mcp_only (is_mcp_record r) w)

  unfoldable Counted :
      PrometheusMetric → Text → List AnalyticsRecord → Map CounterStruct → registry.State → Type 0
  Counted m k rs c s =
      (d : Map CounterStruct) × (for_each process rs (with_map m c, s) ≡ some (with_map m d, s))
      × (count_of (lookup k d)
          ≡ (count_of (lookup k c) + count (counts_for m k) rs) % 18446744073709551616)

  counted :
      (m : PrometheusMetric) (k : Text) (rs : List AnalyticsRecord) (c : Map CounterStruct)
      (s : registry.State)
      → m.metric_type ≡ counter_type
      → m.enabled ≡ true
      → count_of (lookup k c) < 18446744073709551616
      → Counted m k rs c s
  unfolding for_each Counted
  counted m k [] c s t e l = (c, refl, omega arith)
  counted m k (r ∷ rs) c s t e l = elim (Bool-cases (not m.mcp_only || is_mcp_record r)) [
    | inl w ↦
        let values = get_labels_values show_time m r in
        let (d, run, sum) =
          counted m k rs (inc values c) s t e
            (stays_small (same (join_values values) k) _ _ l (count_of-inc k values c)) in
        (
          d,
          ap (λ o. o >>= for_each process rs) (process_counted m r c s t e w) ∙ run,
          sum ∙ counted_once _ _ _ _ _ w (count_of-inc k values c),
        )
    | inr w ↦
        let (d, run, sum) = counted m k rs c s t e l in
        (
          d,
          ap (λ o. o >>= for_each process rs) (process_skipped m r c s w) ∙ run,
          sum ∙ passed_over _ _ _ _ w,
        )
  ]

  -- A counter that is enabled counts without a panic: after a batch, the count under each key is the one
  -- before it and the number of records whose label values have the key, modulo 2 ^ 64. Records that are not
  -- of MCP do not count where the metric is for MCP only. Nothing else of the metric changes, nor do the
  -- vectors of the client, until it is exposed.
  pub process_metric-counts :
      (m : PrometheusMetric) (k : Text) (rs : List AnalyticsRecord) (s : registry.State)
      → m.metric_type ≡ counter_type
      → m.enabled ≡ true
      → count_of (lookup k m.counter_map) < 18446744073709551616
      → (d : Map CounterStruct) × (for_each process rs (m, s)
          ≡ some (record m { counter_map = d }, s))
        × (count_of (lookup k d)
            ≡ (count_of (lookup k m.counter_map) + count (counts_for m k) rs)
              % 18446744073709551616)
  unfolding Counted
  process_metric-counts m k rs s t e l = counted m k rs m.counter_map s t e l
