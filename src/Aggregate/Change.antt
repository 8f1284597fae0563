-- ===== src/Aggregate/Change.antt =====
-- analytics/aggregate.go: the updates of an aggregate's document, `AsChange` and `AsTimeUpdate`.
pub mod Places
pub mod Sums
pub mod Increments
use tyk_pump.Base.{
  ℕ, ◌+◌, Bool, true, false, ◌&&◌, ◌||◌, not, List, [], ◌∷◌, ◌++◌, map, Option, none, some, Text,
  text, is_empty, ltb, ◌==◌, Int64, lt64, Map, insert, if◌then◌else◌,
}
use tyk_pump.Floats.{FloatOps}
use tyk_pump.Time.{Time}
use tyk_pump.Analytics.Record.{Float64}
use tyk_pump.Aggregate.Counter.{Counter, ErrorData, fn_latency_setter}
use tyk_pump.Aggregate.State.{AnalyticsRecordAggregate}
use tyk_pump.Aggregate.Dimensions.{DimensionEntry, dimensions}

-- A value of a document.
pub data Bson : Type 0 where
  number : Int64 → Bson
  real : Float64 → Bson
  string : Text → Bson
  date : Time → Bson
  error_list : List ErrorData → Bson
  counters : List Counter → Bson

-- `model.DBM` with its four operators; `$min` is made when it is needed.
pub record Update : Type 0 where
  pub inc : Map Bson
  pub set : Map Bson
  pub max : Map Bson
  pub min : Option (Map Bson)

abbrev pub no_update : Update
no_update = record { inc = []; set = []; max = []; min = none }

-- `constructor`, the path of a counter with the dot behind it.
unfoldable pub constructor_of : (parent unit : Text) → Text
constructor_of parent unit =
    if is_empty parent then unit ++ text "." else parent ++ (text "." ++ (unit ++ text "."))

-- Assignments to the fields of a counter.
unfoldable pub put_all : Text → Map Bson → Map Bson → Map Bson
put_all path [] m = m
put_all path ((field, v) ∷ fields) m = put_all path fields (insert (path ++ field) v m)

abbrev pub errors_of : Option (Map Int64) → Map Int64
errors_of none = []
errors_of (some m) = m

abbrev pub error_fields : Map Int64 → Map Bson
error_fields m = map (λ e. (text "errormap." ++ e.0, number e.1)) m

abbrev pub inc_fields : Counter → Map Bson
inc_fields c =
    (text "hits", number c.hits)
    ∷ (text "success", number c.success)
    ∷ (text "errortotal", number c.error_total)
    ∷ (error_fields (errors_of c.error_map)
        ++ ((text "totalrequesttime", real c.total_request_time)
            ∷ (text "totalupstreamlatency", number c.total_upstream_latency)
            ∷ (text "totallatency", number c.total_latency)
            ∷ []))

abbrev pub set_fields : Counter → Map Bson
set_fields c =
    (text "identifier", string c.identifier)
    ∷ (text "humanidentifier", string c.human_identifier)
    ∷ (text "lasttime", date c.last_time)
    ∷ (text "openconnections", number c.open_connections)
    ∷ (text "closedconnections", number c.closed_connections)
    ∷ (text "bytesin", number c.bytes_in)
    ∷ (text "bytesout", number c.bytes_out)
    ∷ []

abbrev pub max_fields : Counter → Map Bson
max_fields c =
    (text "maxlatency", number c.max_latency)
    ∷ (text "maxupstreamlatency", number c.max_upstream_latency)
    ∷ []

abbrev pub min_fields : Counter → Map Bson
min_fields c =
    (text "minlatency", number c.min_latency)
    ∷ (text "minupstreamlatency", number c.min_upstream_latency)
    ∷ []

abbrev pub made : Option (Map Bson) → Map Bson
made none = []
made (some m) = m

-- `generateBSONFromProperty`; the minimum is left alone where every hit is an error.
unfoldable pub generate_bson_from_property : (parent unit : Text) → Counter → Update → Update
generate_bson_from_property parent unit c u =
    let path = constructor_of parent unit in
    record {
      inc = put_all path (inc_fields c) u.inc;
      set = put_all path (set_fields c) u.set;
      max = put_all path (max_fields c) u.max;
      min =
          if c.hits == c.error_total
          then u.min
          else some (put_all path (min_fields c) (made u.min));
    }

unfoldable pub generate_all : List DimensionEntry → Update → Update
generate_all [] u = u
generate_all (d ∷ ds) u = generate_all ds (generate_bson_from_property d.name d.value d.counter u)

module _ (fl : FloatOps) where
  -- The assignments at the end of `AsChange`; the time is cut to its minute.
  abbrev pub own_fields : AnalyticsRecordAggregate → Map Bson
  own_fields f =
      let new_time = record (f.time_stamp) { second = 0; nanosecond = 0 } in
      (text "timestamp", date new_time)
      ∷ (text "expireAt", date f.expire_at)
      ∷ (text "timeid.year", number new_time.year)
      ∷ (text "timeid.month", number new_time.month)
      ∷ (text "timeid.day", number new_time.day)
      ∷ (text "timeid.hour", number new_time.hour)
      ∷ (text "lasttime", date f.last_time)
      ∷ []

  -- `AsChange`. `Dimensions` has set the latencies of the total, which comes once more.
  unfoldable pub as_change : AnalyticsRecordAggregate → Update
  as_change f =
      let u =
        generate_bson_from_property [] (text "total") (fn_latency_setter fl f.total)
          (generate_all (dimensions fl f) no_update) in
      record u { set = put_all [] (own_fields f) u.set }

  -- `a < b` of strings
  abbrev pub text_less : Text → Text → Bool
  text_less s [] = false
  text_less [] (y ∷ ys) = true
  text_less (x ∷ xs) (y ∷ ys) = ltb x y || x == y && text_less xs ys

  -- `sort.SliceStable` by the codes.
  abbrev pub insert_error : ErrorData → List ErrorData → List ErrorData
  insert_error e [] = e ∷ []
  insert_error e (d ∷ ds) = if text_less d.code e.code then d ∷ insert_error e ds else e ∷ d ∷ ds

  abbrev pub sort_errors : List ErrorData → List ErrorData
  sort_errors [] = []
  sort_errors (e ∷ es) = insert_error e (sort_errors es)

  -- `SetErrorList` and `latencySetter`, as far as they change the counter.
  unfoldable pub averaged : Counter → Counter
  averaged c = record c {
    error_list =
        sort_errors (map (λ e. record { code = e.0; count = e.1 }) (errors_of c.error_map));
    latency = if lt64 0 c.hits then fl.div (fl.of_int c.total_latency) (fl.of_int c.hits) else 0;
    upstream_latency =
        if lt64 0 c.hits then fl.div (fl.of_int c.total_upstream_latency) (fl.of_int c.hits) else 0;
  }

  -- `newTime`
  abbrev pub average_time : Counter → Float64
  average_time c = if lt64 0 c.hits then fl.div c.total_request_time (fl.of_int c.hits) else 0

  -- What `SetErrorList`, `generateSetterForTime` and `latencySetter` set.
  abbrev pub average_fields : Counter → Map Bson
  average_fields c =
      let a = averaged c in
      (text "errorlist", error_list a.error_list)
      ∷ (text "requesttime", real (average_time c))
      ∷ (text "latency", real a.latency)
      ∷ (text "upstreamlatency", real a.upstream_latency)
      ∷ []

  -- `getRecords`: what it sets, and the counters that it returns.
  unfoldable pub get_records : Text → Map Counter → Map Bson → Map Bson × List Counter
  get_records field_name [] m = (m, [])
  get_records field_name ((unit, c) ∷ data') m =
      let (m', cs) =
        get_records field_name data'
          (put_all (constructor_of field_name unit) (average_fields c) m) in
      (m', averaged c ∷ cs)

  -- The lists, by the path of their counters.
  abbrev pub listed_maps : AnalyticsRecordAggregate → Map (Map Counter)
  listed_maps f =
      (text "apiid", f.api_id)
      ∷ (text "errors", f.errors)
      ∷ (text "versions", f.versions)
      ∷ (text "apikeys", f.api_keys)
      ∷ (text "oauthids", f.oauth_ids)
      ∷ (text "geo", f.geo)
      ∷ (text "tags", f.tags)
      ∷ (text "endpoints", f.endpoints)
      ∷ (map (λ e. (text "keyendpoints." ++ e.0, e.1)) f.key_endpoint
          ++ (map (λ e. (text "oauthendpoints." ++ e.0, e.1)) f.oauth_endpoint
              ++ ((text "apiendpoints", f.api_endpoint) ∷ [])))

  unfoldable pub put_lists : Map (Map Counter) → Map Bson → Map Bson
  put_lists [] m = m
  put_lists ((field, data') ∷ rest) m =
      let (m', cs) = get_records field data' m in
      put_lists rest (insert (text "lists." ++ field) (counters cs) m')

  -- `AsTimeUpdate`
  unfoldable pub as_time_update : AnalyticsRecordAggregate → Update
  as_time_update f = record no_update {
    set =
        put_all (constructor_of [] (text "total")) (average_fields f.total)
          (put_lists (listed_maps f) []);
  }
