-- ===== src/Tests/Uptime.antt =====
-- Tests of the aggregation of uptime reports.
use mathlib.Core.List.{Memᴰ}
use tyk_pump.Base.{
  ◌≡◌, refl, false, none, some, List, [], ◌∷◌, text, Int64, minus_one, Map, le64, lt64, arith,
}
use tyk_pump.Floats.{whole}
use tyk_pump.Uptime.Report.{
  UptimeReportData, UptimeField, UptimeReportAggregate, uptime_dimensions, new_uptime,
}
use tyk_pump.Uptime.Aggregate.{aggregate_uptime_data}
use tyk_pump.Uptime.Batch.{UptimeAddsUp, aggregate_uptime_data-UptimeAddsUp}
use tyk_pump.Uptime.NilMap.{aggregate_uptime_data_panics}
use tyk_pump.Tests.Samples.{noon}

abbrev check_of : Int64 → UptimeReportData
check_of code = record {
  id = [];
  url = text "http://u";
  request_time = 3;
  response_code = code;
  tcp_error = false;
  server_error = false;
  day = 17;
  month = 5;
  year = 2024;
  hour = 12;
  minute = 34;
  time_stamp = noon;
  expire_at = noon;
  api_id = text "a";
  org_id = text "o";
}

abbrev some_order : List UptimeField
some_order = UptimeField.org_id ∷ UptimeField.url ∷ UptimeField.response_code ∷ []

new_has_a_total : uptime_dimensions new_uptime ≡ ([], text "total", new_uptime.total) ∷ []
unfolding uptime_dimensions
new_has_a_total = refl

aggregate_uptime_data-UptimeAddsUp_example :
    (m : Map UptimeReportAggregate) × (aggregate_uptime_data whole some_order
        (check_of 200 ∷ check_of 500 ∷ [])
      ≡ some m)
    × UptimeAddsUp (check_of 200 ∷ check_of 500 ∷ []) m
aggregate_uptime_data-UptimeAddsUp_example =
    aggregate_uptime_data-UptimeAddsUp whole some_order (check_of 200 ∷ check_of 500 ∷ [])
      (omega arith)

aggregate_uptime_data_panics_example :
    aggregate_uptime_data whole some_order (check_of minus_one ∷ check_of 200 ∷ check_of 500 ∷ [])
    ≡ none
unfolding le64 lt64
aggregate_uptime_data_panics_example =
    aggregate_uptime_data_panics whole some_order (check_of minus_one) (check_of 200)
      (check_of 500 ∷ []) (Memᴰ.tail (Memᴰ.head refl))
      (record {
        silence = refl;
        counted = refl;
        same_url = refl;
        url_named = refl;
        same_org = refl;
        org_named = refl;
      })
