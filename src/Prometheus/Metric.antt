-- ===== src/Prometheus/Metric.antt =====
-- pumps/prometheus.go: the metrics that the pump keeps, and their labels.
use tyk_pump.Base.{
  ◌-◌, Bool, true, false, not, ◌||◌, List, [], ◌∷◌, ◌++◌, filter, Option, none, some, Text, text,
  same, length, ltb, Int64, add64, itoa, Map, lookup, insert, if◌then◌else◌,
}
use tyk_pump.Time.{Time}
use tyk_pump.Analytics.Record.{AnalyticsRecord}
use tyk_pump.Sql.Shards.{drop}

-- `counterStruct`
pub record CounterStruct : Type 0 where
  pub label_values : List Text
  pub count : Int64

-- `histogramCounter`
pub record HistogramCounter : Type 0 where
  pub total_request_time : Int64
  pub hits : Int64
  pub label_values : List Text

-- `metric_type`: the two that are known, and any other text.
pub data MetricType : Type 0 where
  counter_type : MetricType
  histogram_type : MetricType
  invalid_type : Text → MetricType

-- `PrometheusMetric`; the vector of the client exists from `InitVec` on, as the metric is enabled.
pub record PrometheusMetric : Type 0 where
  pub name : Text
  pub metric_type : MetricType
  pub obfuscate_api_keys : Bool
  pub labels : List Text
  pub mcp_only : Bool
  pub enabled : Bool
  pub counter_map : Map CounterStruct
  pub histogram_map : Map HistogramCounter
  pub aggregated_observations : Bool

-- `ensureLabels`, of a histogram.
unfoldable pub ensure_labels : List Text → List Text
ensure_labels labels = text "type" ∷ filter (λ l. not (same l (text "type"))) labels

-- `InitVec`: the metric as it leaves it, and whether it succeeds.
abbrev pub init_by_type : MetricType → PrometheusMetric → Bool × PrometheusMetric
init_by_type counter_type m = (true, record m { counter_map = []; enabled = true })
init_by_type histogram_type m =
    (true, record m { histogram_map = []; labels = ensure_labels m.labels; enabled = true })
init_by_type (invalid_type t) m = (false, m)

unfoldable pub init_vec : PrometheusMetric → Bool × PrometheusMetric
init_vec m = init_by_type m.metric_type m

-- `obfuscateAPIKey`
unfoldable pub obfuscate_api_key : PrometheusMetric → Text → Text
obfuscate_api_key m api_key =
    if not m.obfuscate_api_keys
    then api_key
    else if ltb 4 (length api_key)
    then text "****" ++ drop (length api_key - 4) api_key
    else text "--"

-- The mapping of `GetLabelsValues`, each value as `fmt.Sprint` writes it; `show_time` is its form of a time.
unfoldable pub label_mapping : (Time → Text) → PrometheusMetric → AnalyticsRecord → Map Text
label_mapping show_time m r =
    (text "host", r.host)
    ∷ (text "method", r.method)
    ∷ (text "path", r.path)
    ∷ (text "code", itoa r.response_code)
    ∷ (text "response_code", itoa r.response_code)
    ∷ (text "api_key", obfuscate_api_key m r.api_key)
    ∷ (text "key", obfuscate_api_key m r.api_key)
    ∷ (text "time_stamp", show_time r.time_stamp)
    ∷ (text "api_version", r.api_version)
    ∷ (text "api_name", r.api_name)
    ∷ (text "api", r.api_id)
    ∷ (text "api_id", r.api_id)
    ∷ (text "org_id", r.org_id)
    ∷ (text "client_id", r.oauth_id)
    ∷ (text "oauth_id", r.oauth_id)
    ∷ (text "request_time", itoa r.request_time)
    ∷ (text "latency_total", itoa r.latency.total)
    ∷ (text "latency_upstream", itoa r.latency.upstream)
    ∷ (text "latency_gateway", itoa r.latency.gateway)
    ∷ (text "ip_address", r.ip_address)
    ∷ (text "alias", r.alias)
    ∷ (text "mcp_method", r.mcp_stats.jsonrpc_method)
    ∷ (text "mcp_primitive_type", r.mcp_stats.primitive_type)
    ∷ (text "mcp_primitive_name", r.mcp_stats.primitive_name)
    ∷ []

abbrev pub add_found : Option Text → List Text → List Text
add_found none vs = vs
add_found (some v) vs = v ∷ vs

unfoldable pub values_for : Map Text → List Text → List Text
values_for m [] = []
values_for m (l ∷ ls) = add_found (lookup l m) (values_for m ls)

-- `GetLabelsValues`
unfoldable pub get_labels_values : (Time → Text) → PrometheusMetric → AnalyticsRecord → List Text
get_labels_values show_time m r = values_for (label_mapping show_time m r) m.labels

-- `strings.Join(values, "--")`
unfoldable pub join_values : List Text → Text
join_values [] = []
join_values (v ∷ []) = v
join_values (v ∷ w ∷ vs) = v ++ (text "--" ++ join_values (w ∷ vs))

-- One more under a key that may be new.
abbrev pub count_one : Option CounterStruct → List Text → CounterStruct
count_one none values = record { label_values = values; count = 1 }
count_one (some c) values = record c { count = add64 c.count 1 }

-- `Inc`, of a counter.
unfoldable pub inc : List Text → Map CounterStruct → Map CounterStruct
inc values m = let key = join_values values in insert key (count_one (lookup key m) values) m

abbrev pub observe_one : Option HistogramCounter → Int64 → List Text → HistogramCounter
observe_one none time values = record { total_request_time = time; hits = 1; label_values = values }
observe_one (some h) time values = record h {
  hits = add64 h.hits 1;
  total_request_time = add64 h.total_request_time time;
}

-- The label values of an observation: the type of latency is the first value, where it names one.
abbrev pub is_latency_type : Text → Bool
is_latency_type v = same v (text "total") || same v (text "upstream") || same v (text "gateway")

unfoldable pub observed_labels : List Text → List Text
observed_labels [] = text "total" ∷ []
observed_labels (v ∷ vs) = if is_latency_type v then v ∷ vs else text "total" ∷ v ∷ vs
