-- ===== src/Aggregate/Counter.antt =====
-- analytics/aggregate.go: `Counter`, and `incrementOrSetUnit`, which adds one to another.
pub mod Ready
use tyk_pump.Base.{
  ℕ, Bool, true, false, ◌&&◌, List, [], ◌∷◌, Option, none, some, ◌>>=◌, Text, Int64, add64, lt64,
  ◌==◌, Map, insert, get_or_zero, if◌then◌else◌,
}
use tyk_pump.Time.{Time, zero_time}
use tyk_pump.Analytics.Record.{Float64}
use tyk_pump.Floats.{FloatOps}

pub record ErrorData : Type 0 where
  pub code : Text
  pub count : Int64

-- `error_map` is `none` where the map is nil.
pub record Counter : Type 0 where
  pub hits : Int64
  pub success : Int64
  pub error_total : Int64
  pub request_time : Float64
  pub total_request_time : Float64
  pub identifier : Text
  pub human_identifier : Text
  pub last_time : Time
  pub open_connections : Int64
  pub closed_connections : Int64
  pub bytes_in : Int64
  pub bytes_out : Int64
  pub max_upstream_latency : Int64
  pub min_upstream_latency : Int64
  pub total_upstream_latency : Int64
  pub upstream_latency : Float64
  pub max_latency : Int64
  pub min_latency : Int64
  pub total_latency : Int64
  pub latency : Float64
  pub error_map : Option (Map Int64)
  pub error_list : List ErrorData

-- `Counter{}`
abbrev pub zero_counter : Counter
zero_counter = record {
  hits = 0;
  success = 0;
  error_total = 0;
  request_time = 0;
  total_request_time = 0;
  identifier = [];
  human_identifier = [];
  last_time = zero_time;
  open_connections = 0;
  closed_connections = 0;
  bytes_in = 0;
  bytes_out = 0;
  max_upstream_latency = 0;
  min_upstream_latency = 0;
  total_upstream_latency = 0;
  upstream_latency = 0;
  max_latency = 0;
  min_latency = 0;
  total_latency = 0;
  latency = 0;
  error_map = none;
  error_list = [];
}

-- What a range over the map visits.
abbrev pub entries : Option (Map Int64) → Map Int64
entries none = []
entries (some m) = m

-- `for k, v := range es { m[k] += v }`: the assignment panics where `m` is nil.
unfoldable pub add_errors : Map Int64 → Option (Map Int64) → Option (Option (Map Int64))
add_errors [] m = some m
add_errors (e ∷ es) none = none
add_errors ((k, v) ∷ es) (some m) = add_errors es (some (insert k (add64 (get_or_zero k m) v) m))

-- `c.Max < b.Max` moves the maximum, `c.Min > b.Min` the minimum.
abbrev pub raise : Int64 → Int64 → Int64
raise c b = if lt64 c b then b else c

abbrev pub lower : Bool → Int64 → Int64 → Int64
lower allowed c b = if lt64 b c && allowed then b else c

module _ (fl : FloatOps) where
  -- The `else` branch of `incrementOrSetUnit`, once the errors are added.
  unfoldable pub add_counter : Counter → Counter → Option (Map Int64) → Counter
  add_counter base c errors =
      let clean = base.error_total == 0 in
      let hits' = add64 c.hits base.hits in
      let total' = fl.add c.total_request_time base.total_request_time in
      record c {
        hits = hits';
        success = add64 c.success base.success;
        error_total = add64 c.error_total base.error_total;
        error_map = errors;
        total_request_time = total';
        request_time = fl.div total' (fl.of_int hits');
        max_latency = raise c.max_latency base.max_latency;
        min_latency = lower clean c.min_latency base.min_latency;
        max_upstream_latency = raise c.max_upstream_latency base.max_upstream_latency;
        min_upstream_latency = lower clean c.min_upstream_latency base.min_upstream_latency;
        total_latency = add64 c.total_latency base.total_latency;
        total_upstream_latency = add64 c.total_upstream_latency base.total_upstream_latency;
      }

  -- `incrementOrSetUnit`: a nil `c` becomes a copy of the base with a map of its own.
  unfoldable pub increment_or_set_unit : Counter → Option Counter → Option Counter
  unfolding add_counter
  increment_or_set_unit base none = some (record base { error_map = some (entries base.error_map) })
  increment_or_set_unit base (some c) = do
    errors ← add_errors (entries base.error_map) c.error_map
    some (add_counter base c errors)

  -- `fnLatencySetter`
  unfoldable pub fn_latency_setter : Counter → Counter
  fn_latency_setter c =
      if lt64 0 c.hits
      then record c {
        latency = fl.div (fl.of_int c.total_latency) (fl.of_int c.hits);
        upstream_latency = fl.div (fl.of_int c.total_upstream_latency) (fl.of_int c.hits);
      }
      else c
