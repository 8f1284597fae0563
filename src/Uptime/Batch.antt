-- ===== src/Uptime/Batch.antt =====
-- analytics/uptime_data.go: `AggregateUptimeData` on a whole batch.
use tyk_pump.Base.{
  ℕ, ◌+◌, ◌%◌, ◌<◌, ◌≡◌, refl, ◌≢◌, not, ◌&&◌, List, [], Option, some, for_each, Yields-some,
  for_each-Yields_of, Text, same, itoa, is_empty, Int64, minus_one, add64, Map, All, number_at,
  sum_of, get_or_zero, if◌then◌else◌, arith,
}
use tyk_pump.Floats.{FloatOps}
use tyk_pump.Aggregate.Counter.{Counter, zero_counter}
use tyk_pump.Aggregate.Increment.{is_success, is_error}
use tyk_pump.Uptime.Report.{UptimeReportData, UptimeField, UptimeReportAggregate}
use tyk_pump.Uptime.Aggregate.{
  count_code, is_counted, uptime_total, add_report, aggregate_uptime_data,
}
use tyk_pump.Uptime.Totals.{code_count, count_code-get}
use tyk_pump.Uptime.Sums.{UptimeMeasure, response_weight, uptime-number_at}
use tyk_pump.Uptime.Ready.{UptimeMapReady, add_report-UptimeMapReady}

module _ (fl : FloatOps) where
  uptime_hits_adds :
      (v : UptimeReportData) (t : Counter) (errors : Option (Map Int64))
      → (uptime_total fl v t errors).hits ≡ (t.hits + 1) % 18446744073709551616
  unfolding uptime_total add64
  uptime_hits_adds v t errors = refl

  abbrev uptime_hits : UptimeMeasure fl
  uptime_hits = record {
    get = λ t. t.hits;
    weight = λ v. 1;
    adds = λ v t errors l h. uptime_hits_adds v t errors;
    starts = refl;
  }

  uptime_success_adds :
      (v : UptimeReportData) (t : Counter) (errors : Option (Map Int64))
      → t.success < 18446744073709551616
      → (uptime_total fl v t errors).success
        ≡ (t.success + (if is_success v.response_code then 1 else 0)) % 18446744073709551616
  unfolding uptime_total add64
  uptime_success_adds v t errors l = ground arith

  abbrev uptime_success : UptimeMeasure fl
  uptime_success = record {
    get = λ t. t.success;
    weight = λ v. if is_success v.response_code then 1 else 0;
    adds = λ v t errors l h. uptime_success_adds v t errors l;
    starts = refl;
  }

  uptime_errors_adds :
      (v : UptimeReportData) (t : Counter) (errors : Option (Map Int64))
      → t.error_total < 18446744073709551616
      → (uptime_total fl v t errors).error_total
        ≡ (t.error_total + (if is_error v.response_code then 1 else 0)) % 18446744073709551616
  unfolding uptime_total add64
  uptime_errors_adds v t errors l = ground arith

  abbrev uptime_errors : UptimeMeasure fl
  uptime_errors = record {
    get = λ t. t.error_total;
    weight = λ v. if is_error v.response_code then 1 else 0;
    adds = λ v t errors l h. uptime_errors_adds v t errors l;
    starts = refl;
  }

  no_codes : (code : Text) → code_count code (record zero_counter { error_map = some [] }) ≡ 0
  unfolding get_or_zero
  no_codes code = refl

  uptime_codes_adds :
      (code : Text) (v : UptimeReportData) (t : Counter) (errors : Option (Map Int64))
      → code_count code t < 18446744073709551616
      → count_code v.response_code t.error_map ≡ some errors
      → code_count code (uptime_total fl v t errors)
        ≡ (code_count code t
            + (if is_counted v.response_code && same (itoa v.response_code) code then 1 else 0))
          % 18446744073709551616
  unfolding uptime_total
  uptime_codes_adds code v t errors l h = count_code-get v.response_code code t.error_map l h

  abbrev uptime_codes : Text → UptimeMeasure fl
  uptime_codes code = record {
    get = λ t. code_count code t;
    weight = λ v. if is_counted v.response_code && same (itoa v.response_code) code then 1 else 0;
    adds = λ v t errors l h. uptime_codes_adds code v t errors l h;
    starts = no_codes code;
  }

-- The sum over the reports of an organisation that have a response.
abbrev pub uptime_sum : (UptimeReportData → ℕ) → Text → List UptimeReportData → ℕ
uptime_sum w org reports =
    sum_of (λ v. if not (is_empty v.org_id) && same v.org_id org then response_weight w v else 0)
      reports

-- What a batch adds up to, modulo 2 ^ 64: the responses of each organisation, those that succeeded,
-- those that failed, and how often each code of these came.
pub record UptimeAddsUp (reports : List UptimeReportData) (m : Map UptimeReportAggregate)
    : Type 0 where
  pub hits :
      (org : Text)
      → number_at (λ a. a.total.hits) org m ≡ uptime_sum (λ v. 1) org reports % 18446744073709551616
  pub success :
      (org : Text)
      → number_at (λ a. a.total.success) org m
        ≡ uptime_sum (λ v. if is_success v.response_code then 1 else 0) org reports
          % 18446744073709551616
  pub errors :
      (org : Text)
      → number_at (λ a. a.total.error_total) org m
        ≡ uptime_sum (λ v. if is_error v.response_code then 1 else 0) org reports
          % 18446744073709551616
  pub codes :
      (org code : Text)
      → number_at (λ a. code_count code a.total) org m
        ≡ uptime_sum
            (λ v. if is_counted v.response_code && same (itoa v.response_code) code then 1 else 0)
            org
            reports
          % 18446744073709551616

-- On a batch of reports that all have a response, `AggregateUptimeData` returns, and the total of
-- each organisation holds the numbers of its reports, of the successes and errors among them, and of
-- each response code of these, modulo 2 ^ 64, whatever the order in which Go visits the fields.
pub aggregate_uptime_data-UptimeAddsUp :
    (fl : FloatOps) (order : List UptimeField) (reports : List UptimeReportData)
    → All (λ v. v.response_code ≢ minus_one) reports
    → (m : Map UptimeReportAggregate) × (aggregate_uptime_data fl order reports ≡ some m)
      × UptimeAddsUp reports m
unfolding aggregate_uptime_data
aggregate_uptime_data-UptimeAddsUp fl order reports q =
    let (m, e, _) = Yields-some UptimeMapReady (for_each (add_report fl order) reports []) (
      for_each-Yields_of (λ v. v.response_code ≢ minus_one) UptimeMapReady (add_report fl order)
        reports [] (λ v s. add_report-UptimeMapReady fl order v s) q tt) in
    (
      m,
      e,
      record {
        hits = λ org. uptime-number_at (uptime_hits fl) order org reports m e;
        success = λ org. uptime-number_at (uptime_success fl) order org reports m e;
        errors = λ org. uptime-number_at (uptime_errors fl) order org reports m e;
        codes = λ org code. uptime-number_at (uptime_codes fl code) order org reports m e;
      },
    )
