-- ===== src/Aggregate/Increment.antt =====
-- analytics/aggregate.go: `incrementAggregate`, which adds one record to an aggregate.
pub mod Ready
pub mod Total
pub mod Measures
pub mod Order
use tyk_pump.Base.{
  ℕ, ◌+◌, Bool, true, false, not, ◌&&◌, ◌==◌, ◌++◌, List, [], ◌∷◌, Option, none, some, ◌>>=◌,
  for_each, Text, text, itoa, is_empty, Int64, add64, lt64, le64, minus_one, Map, lookup, insert,
  get_or_zero, if◌then◌else◌,
}
use tyk_pump.Floats.{FloatOps}
use tyk_pump.Analytics.Record.{AnalyticsRecord}
use tyk_pump.Analytics.Fields.{Field}
use tyk_pump.Aggregate.Counter.{Counter, zero_counter, raise, lower, increment_or_set_unit}
use tyk_pump.Aggregate.Keys.{hex, do_hash, ignore_tag, replace_unsupported_chars, trim_tag}
use tyk_pump.Aggregate.State.{AnalyticsRecordAggregate}
use tyk_pump.Aggregate.Cases.{
  add_api_endpoint, add_api_id, add_api_key, add_api_version, add_endpoint, add_geo,
  add_key_endpoint, add_oauth_endpoint, add_oauth_id, add_path, add_response_code, add_tag,
  add_tags, add_unit, always, endpoints_of, field_step, label, label_only, write_back,
}

-- The response codes of a success, and of an error.
abbrev pub is_success : Int64 → Bool
is_success code = lt64 code 300 && le64 200 code

abbrev pub is_error : Int64 → Bool
is_error code = le64 400 code

-- `m[code]++` panics where the map is nil.
unfoldable pub count_error : Text → Option (Map Int64) → Option (Option (Map Int64))
count_error code none = none
count_error code (some m) = some (some (insert code (add64 (get_or_zero code m) 1) m))

-- The counter of a record that only reports on connections, with the response code -1.
unfoldable pub connection_counter : AnalyticsRecord → Counter
connection_counter r = record zero_counter {
  last_time = r.time_stamp;
  open_connections = r.network.open_connections;
  closed_connections = r.network.closed_connection;
  bytes_in = r.network.bytes_in;
  bytes_out = r.network.bytes_out;
}

-- The counter of its API: a new one has only the labels, and no map of errors.
abbrev pub api_counter : AnalyticsRecord → Option Counter → Counter
api_counter r none = label r.api_id r.api_name zero_counter
api_counter r (some c) = c

abbrev pub plus_bytes : AnalyticsRecord → Counter → Counter
plus_bytes r c = record c {
  bytes_in = add64 c.bytes_in r.network.bytes_in;
  bytes_out = add64 c.bytes_out r.network.bytes_out;
}

-- The bytes of such a record are added to its API.
unfoldable pub add_bytes : AnalyticsRecord → Map Counter → Map Counter
add_bytes r m =
    if is_empty r.api_id
    then m
    else insert r.api_id (plus_bytes r (api_counter r (lookup r.api_id m))) m

unfoldable pub total_connections : AnalyticsRecord → Counter → Counter
total_connections r t = record t {
  open_connections = add64 t.open_connections r.network.open_connections;
  closed_connections = add64 t.closed_connections r.network.closed_connection;
  bytes_in = add64 t.bytes_in r.network.bytes_in;
  bytes_out = add64 t.bytes_out r.network.bytes_out;
}

-- The minimum is set by the first hit, and moved by a success.
abbrev total_min : Int64 → Bool → Int64 → Int64 → Int64
total_min hits success old seen = if hits == 1 then seen else lower success old seen

-- The time of the last record.
unfoldable pub seen : AnalyticsRecord → AnalyticsRecordAggregate → AnalyticsRecordAggregate
seen r a = record a {
  last_time = r.time_stamp;
  total = record (a.total) { last_time = r.time_stamp };
}

unfoldable pub add_connections :
    AnalyticsRecord → AnalyticsRecordAggregate → AnalyticsRecordAggregate
add_connections r a = record a {
  total = total_connections r a.total;
  api_id = add_bytes r a.api_id;
}

module _ (fl : FloatOps) where
  -- `thisCounter` of any other record.
  unfoldable pub request_counter : AnalyticsRecord → Counter
  request_counter r =
      let code = r.response_code in
      record zero_counter {
        hits = 1;
        success = if is_success code then 1 else 0;
        error_total = if is_error code then 1 else 0;
        request_time = fl.of_int r.request_time;
        total_request_time = fl.of_int r.request_time;
        last_time = r.time_stamp;
        max_upstream_latency = r.latency.upstream;
        min_upstream_latency = r.latency.upstream;
        total_upstream_latency = r.latency.upstream;
        max_latency = r.latency.total;
        min_latency = r.latency.total;
        total_latency = r.latency.total;
        error_map = some (if is_error code then (itoa code, 1) ∷ [] else []);
      }

  -- `aggregate.Total` after such a record, once the error is counted.
  unfoldable pub total_request : AnalyticsRecord → Counter → Option (Map Int64) → Counter
  total_request r t errors =
      let hits' = add64 t.hits 1 in
      let total' = fl.add t.total_request_time (fl.of_int r.request_time) in
      let ok = is_success r.response_code in
      record t {
        hits = hits';
        total_request_time = total';
        request_time = fl.div total' (fl.of_int hits');
        error_total = if is_error r.response_code then add64 t.error_total 1 else t.error_total;
        error_map = errors;
        success = if ok then add64 t.success 1 else t.success;
        total_latency = add64 t.total_latency r.latency.total;
        total_upstream_latency = add64 t.total_upstream_latency r.latency.upstream;
        max_latency = raise t.max_latency r.latency.total;
        max_upstream_latency = raise t.max_upstream_latency r.latency.upstream;
        min_latency = total_min hits' ok t.min_latency r.latency.total;
        min_upstream_latency = total_min hits' ok t.min_upstream_latency r.latency.upstream;
      }

  unfoldable pub add_to_total : AnalyticsRecord → Counter → Option Counter
  unfolding total_request
  add_to_total r t = do
    errors ←
        if is_error r.response_code
        then count_error (itoa r.response_code) t.error_map
        else some t.error_map
    some (total_request r t errors)

  -- A record that is no report on connections: the fields are visited in the order of a Go map,
  -- which may be any.
  unfoldable pub add_request :
      List Field
      → AnalyticsRecordAggregate
      → AnalyticsRecord
      → List Text
      → Option (AnalyticsRecordAggregate × Counter)
  add_request order a r ignored = do
    t ← add_to_total r a.total
    b ← for_each (field_step fl (request_counter r) r ignored) order (record a { total = t })
    some (b, request_counter r)

  -- `incrementAggregate`
  unfoldable pub increment_aggregate :
      List Field
      → AnalyticsRecordAggregate
      → AnalyticsRecord
      → Bool
      → List Text
      → Option (AnalyticsRecordAggregate × Counter)
  increment_aggregate order a r track_all ignored =
      let a' = seen r a in
      let r' = record r { track_path = if track_all then true else r.track_path } in
      if r.response_code == minus_one
      then some (add_connections r a', connection_counter r)
      else add_request order a' r' ignored
