-- ===== src/Sql/Uptime.antt =====
-- pumps/sql.go: `WriteUptimeData`, whose loop is that of the aggregate pumps.
use tyk_pump.Base.{false, List, [], map, Option, none, some, ◌>>=◌, Text, Int64}
use tyk_pump.Floats.{FloatOps}
use tyk_pump.Time.{Time, zero_time, format_day}
use tyk_pump.Aggregate.Timestamp.{LastTimes}
use tyk_pump.Aggregate.Dimensions.{DimensionEntry}
use tyk_pump.Uptime.Report.{
  UptimeReportData, UptimeField, UptimeReportAggregate, DimensionCounter, uptime_dimensions,
  uptime_sql_table,
}
use tyk_pump.Uptime.Aggregate.{aggregate_uptime_data}
use tyk_pump.Sql.Shards.{plain}
use tyk_pump.Sql.Rows.{SqlAnalyticsRecordAggregate, sql_row}
use tyk_pump.Sql.Aggregates.{AggregateDatabase, SqlAggregateConf, Kind, write_data}

-- `analytics.UptimeReportData{}`
abbrev pub zero_report : UptimeReportData
zero_report = record {
  id = [];
  url = [];
  request_time = 0;
  response_code = 0;
  tcp_error = false;
  server_error = false;
  day = 0;
  month = 0;
  year = 0;
  hour = 0;
  minute = 0;
  time_stamp = zero_time;
  expire_at = zero_time;
  api_id = [];
  org_id = [];
}

-- `typedData`: a report that cannot be read is left as it was made.
abbrev pub report_or_zero : Option UptimeReportData → UptimeReportData
report_or_zero none = zero_report
report_or_zero (some v) = v

abbrev pub entry_of : DimensionCounter → DimensionEntry
entry_of (name, value, counter) = record { name = name; value = value; counter = counter }

-- An error of a statement is logged, and the loop goes on.
abbrev pub logging :
    AggregateDatabase SqlAnalyticsRecordAggregate → AggregateDatabase SqlAnalyticsRecordAggregate
logging db = record db { upsert = λ table rs s. (none, (db.upsert table rs s).1) }

-- The reports are aggregated by organisation; the fields of a report are met in some order. The rows,
-- `UptimeReportAggregateSQL`, have the columns of the aggregate pump's.
abbrev pub uptime_kind :
    FloatOps
    → (unix : Time → Int64) → List UptimeField
    → Kind UptimeReportData SqlAnalyticsRecordAggregate UptimeReportAggregate
uptime_kind fl unix order = record {
  variant = plain;
  stops = false;
  table_name = uptime_sql_table;
  day = λ v. some (format_day v.time_stamp);
  aggregate = λ reports last. aggregate_uptime_data fl order reports >>= λ m. some (m, last);
  dimensions_of = λ u. map entry_of (uptime_dimensions u);
  to_row = λ org_id u. sql_row (unix u.time_stamp) org_id;
}

-- `WriteUptimeData`. `decode` is msgpack's; the time stamps of the process are not used.
unfoldable pub write_uptime_data :
    FloatOps
    → (unix : Time → Int64) → List UptimeField
    → (decode : Text → Option UptimeReportData) → SqlAggregateConf
    → (db : AggregateDatabase SqlAnalyticsRecordAggregate) → List Text
    → LastTimes × db.State
    → Option (Option Text × (LastTimes × db.State))
write_uptime_data fl unix order decode conf db data' =
    write_data (logging db) conf (uptime_kind fl unix order)
      (map (λ t. report_or_zero (decode t)) data')
