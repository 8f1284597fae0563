-- ===== src/Uptime/Report.antt =====
-- analytics/uptime_data.go: `UptimeReportData`, and `UptimeReportAggregate`, what the reports of an
-- organisation add up to.
use tyk_pump.Base.{Bool, List, [], ◌∷◌, ◌++◌, map, Text, text, Int64, Map}
use tyk_pump.Time.{Time, zero_time}
use tyk_pump.Aggregate.Counter.{Counter, zero_counter}
use tyk_pump.Aggregate.State.{TimeId}

pub record UptimeReportData : Type 0 where
  pub id : Text
  pub url : Text
  pub request_time : Int64
  pub response_code : Int64
  pub tcp_error : Bool
  pub server_error : Bool
  pub day : Int64
  pub month : Int64
  pub year : Int64
  pub hour : Int64
  pub minute : Int64
  pub time_stamp : Time
  pub expire_at : Time
  pub api_id : Text
  pub org_id : Text

-- The fields of the struct, as the loop over `structs.Map` meets them.
pub data UptimeField : Type 0 where
  id url request_time response_code tcp_error server_error day month : UptimeField
  year hour minute time_stamp expire_at api_id org_id : UptimeField

-- `UptimeReportData.TableName`
abbrev pub uptime_sql_table : Text
uptime_sql_table = text "tyk_uptime_analytics"

pub record UptimeReportAggregate : Type 0 where
  pub time_stamp : Time
  pub org_id : Text
  pub time_id : TimeId
  pub url : Map Counter
  pub errors : Map Counter
  pub total : Counter
  pub expire_at : Time
  pub last_time : Time

-- `UptimeReportAggregate{}.New()`
abbrev pub new_uptime : UptimeReportAggregate
new_uptime = record {
  time_stamp = zero_time;
  org_id = [];
  time_id = record { year = 0; month = 0; day = 0; hour = 0 };
  url = [];
  errors = [];
  total = zero_counter;
  expire_at = zero_time;
  last_time = zero_time;
}

-- A dimension: its name, its value and its counter.
abbrev pub DimensionCounter : Type 0
DimensionCounter = Text × Text × Counter

-- `UptimeReportAggregate.Dimensions`
unfoldable pub uptime_dimensions : UptimeReportAggregate → List DimensionCounter
uptime_dimensions u =
    map (λ e. (text "url", e.0, e.1)) u.url
    ++ map (λ e. (text "errors", e.0, e.1)) u.errors
    ++ ([], text "total", u.total) ∷ []
