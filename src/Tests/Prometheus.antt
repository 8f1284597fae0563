-- ===== src/Tests/Prometheus.antt =====
-- Tests of the Prometheus pump.
use tyk_pump.Base.{
  ◌≡◌, refl, Map, true, false, List, [], ◌∷◌, some, Text, text, arith, lookup, count, for_each, ◌+◌,
  ◌%◌,
}
use tyk_pump.Prometheus.Exposition.{Registry}
use tyk_pump.Prometheus.Metric.{CounterStruct, PrometheusMetric, counter_type}
use tyk_pump.Prometheus.Counts.{process, counts_for, count_of, process_metric-counts}
use tyk_pump.Tests.Samples.{hit, missing}

-- Vectors that take everything and keep nothing.
abbrev vectors : Registry
vectors = record { State = List Text; add = λ n vs c s. some s; observe = λ n vs o s. some s }

abbrev by_code : PrometheusMetric
by_code = record {
  name = text "by_code";
  metric_type = counter_type;
  obfuscate_api_keys = false;
  labels = text "response_code" ∷ text "api_name" ∷ [];
  mcp_only = false;
  enabled = true;
  counter_map = [];
  histogram_map = [];
  aggregated_observations = false;
}

process_metric-counts_example :
    (d : Map CounterStruct) × (for_each
        (process vectors (λ t. []))
        (hit ∷ missing ∷ hit ∷ [])
        (by_code, [])
      ≡ some (record by_code { counter_map = d }, []))
    × (count_of (lookup (text "404--") d)
        ≡ (0
            + count
                (counts_for vectors (λ t. []) by_code (text "404--"))
                (hit ∷ missing ∷ hit ∷ []))
          % 18446744073709551616)
unfolding lookup
process_metric-counts_example =
    process_metric-counts vectors (λ t. []) by_code (text "404--") (hit ∷ missing ∷ hit ∷ []) []
      refl refl (omega arith)
