-- ===== src/Uptime/Aggregate.antt =====
-- analytics/uptime_data.go: `AggregateUptimeData`, a batch of reports into one aggregate for each
-- organisation.
use tyk_pump.Base.{
  Bool, true, not, ◌==◌, List, [], Option, none, some, ◌>>=◌, for_each, Text, itoa, is_empty, Int64,
  add64, lt64, minus_one, Map, lookup, insert, if◌then◌else◌,
}
use tyk_pump.Floats.{FloatOps}
use tyk_pump.Aggregate.Counter.{Counter, zero_counter, entries, add_errors}
use tyk_pump.Aggregate.Timestamp.{to_hour}
use tyk_pump.Aggregate.Increment.{is_success, is_error, count_error}
use tyk_pump.Aggregate.Cases.{label_only, write_back}
use tyk_pump.Uptime.Report.{UptimeReportData, UptimeField, UptimeReportAggregate, new_uptime}

-- A new aggregate for the first report of an organisation.
unfoldable pub start_uptime : UptimeReportData → UptimeReportAggregate
start_uptime v =
    let now = v.time_stamp in
    record new_uptime {
      time_stamp = to_hour now;
      expire_at = v.expire_at;
      time_id = record { year = now.year; month = now.month; day = now.day; hour = now.hour };
      org_id = v.org_id;
      last_time = now;
      total = record (new_uptime.total) { error_map = some [] };
    }

-- The aggregate that was found, or a new one, with the time of the report.
unfoldable pub resume_uptime :
    Option UptimeReportAggregate → UptimeReportData → UptimeReportAggregate
unfolding start_uptime
resume_uptime none v = record (start_uptime v) { last_time = v.time_stamp }
resume_uptime (some a) v = record a { last_time = v.time_stamp }

-- A report without a response makes a counter of its URL where there is none: it has no map of
-- errors.
unfoldable pub note_url : UptimeReportData → Map Counter → Map Counter
note_url v m = if is_empty v.url then m else elim (lookup v.url m) [
  | none ↦ insert v.url (label_only v.url zero_counter) m
  | some c ↦ m
]

-- The code is counted in the map of errors if it is an error, and if it is a success.
abbrev pub is_counted : Int64 → Bool
is_counted code = if is_error code then true else is_success code

-- `ErrorMap[code]++`, once for an error and once for a success: no code is both.
unfoldable pub count_code : Int64 → Option (Map Int64) → Option (Option (Map Int64))
count_code code m = do
  m' ← if is_error code then count_error (itoa code) m else some m
  if is_success code then count_error (itoa code) m' else some m'

module _ (fl : FloatOps) where
  -- `thisCounter` of a report with a response, but for its map of errors.
  unfoldable pub report_counter : UptimeReportData → Option (Map Int64) → Counter
  report_counter v errors = record zero_counter {
    hits = 1;
    success = if is_success v.response_code then 1 else 0;
    error_total = if is_error v.response_code then 1 else 0;
    request_time = fl.of_int v.request_time;
    total_request_time = fl.of_int v.request_time;
    last_time = v.time_stamp;
    error_map = errors;
  }

  -- `thisAggregate.Total` after such a report.
  unfoldable pub uptime_total : UptimeReportData → Counter → Option (Map Int64) → Counter
  uptime_total v t errors =
      let hits' = add64 t.hits 1 in
      let total' = fl.add t.total_request_time (fl.of_int v.request_time) in
      record t {
        hits = hits';
        total_request_time = total';
        request_time = fl.div total' (fl.of_int hits');
        error_total = if is_error v.response_code then add64 t.error_total 1 else t.error_total;
        success = if is_success v.response_code then add64 t.success 1 else t.success;
        error_map = errors;
      }

  -- The function `IncrementOrSetUnit` of the loop: it leaves the latencies alone.
  unfoldable pub increment_or_set_uptime : Counter → Option Counter → Option Counter
  increment_or_set_uptime base none =
      some (record base { error_map = some (entries base.error_map) })
  increment_or_set_uptime base (some c) = do
    errors ← add_errors (entries base.error_map) c.error_map
    let hits' = add64 c.hits base.hits
    let total' = fl.add c.total_request_time base.total_request_time
    some (record c {
      hits = hits';
      success = add64 c.success base.success;
      error_total = add64 c.error_total base.error_total;
      error_map = errors;
      total_request_time = total';
      request_time = fl.div total' (fl.of_int hits');
    })

  -- `c := IncrementOrSetUnit(m[key])`, then `m[key] = c` with its identifier if the test passes.
  -- A counter that the map holds is changed in place whatever the test says.
  unfoldable pub add_uptime_unit :
      Counter → Text → (Counter → Bool) → Map Counter → Option (Map Counter)
  add_uptime_unit base key keep m = do
    c ← increment_or_set_uptime base (lookup key m)
    let m' = write_back (lookup key m) key c m
    some (if keep c then insert key (label_only key c) m' else m')

  -- One round of the loop over the fields of the report.
  unfoldable pub uptime_field_step :
      Counter
      → UptimeReportData
      → UptimeField
      → UptimeReportAggregate
      → Option UptimeReportAggregate
  uptime_field_step base v UptimeField.url a = do
    m ← add_uptime_unit base v.url (λ c. not (is_empty v.url)) a.url
    some (record a { url = m })
  uptime_field_step base v UptimeField.response_code a = do
    let code = itoa v.response_code
    m ←
        if is_empty code
        then some a.errors
        else add_uptime_unit base code (λ c. lt64 0 c.error_total) a.errors
    some (record a { errors = m })
  uptime_field_step base v _ a = some a

  -- A report with a response.
  unfoldable pub add_response :
      List UptimeField → UptimeReportData → UptimeReportAggregate → Option UptimeReportAggregate
  unfolding uptime_total
  add_response order v a = do
    own ← count_code v.response_code (some [])
    errors ← count_code v.response_code a.total.error_map
    let base = report_counter v own
    for_each (uptime_field_step base v) order (record a { total = uptime_total v a.total errors })

  -- What a report adds to the aggregate of its organisation.
  unfoldable pub add_to_uptime :
      List UptimeField → UptimeReportData → UptimeReportAggregate → Option UptimeReportAggregate
  add_to_uptime order v a =
      if v.response_code == minus_one
      then some (record a { url = note_url v a.url })
      else add_response order v a

  -- One round of the loop. The order in which Go visits the fields may be any.
  unfoldable pub add_report :
      List UptimeField
      → UptimeReportData
      → Map UptimeReportAggregate
      → Option (Map UptimeReportAggregate)
  add_report order v m = if is_empty v.org_id then some m else do
    a ← add_to_uptime order v (resume_uptime (lookup v.org_id m) v)
    some (insert v.org_id a m)

  -- `AggregateUptimeData`
  unfoldable pub aggregate_uptime_data :
      List UptimeField → List UptimeReportData → Option (Map UptimeReportAggregate)
  aggregate_uptime_data order reports = for_each (add_report order) reports []
