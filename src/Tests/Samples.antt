-- ===== src/Tests/Samples.antt =====
-- Records and configurations for the tests.
use tyk_pump.Base.{[], ◌∷◌, text, Int64, minus_one, true}
use tyk_pump.Time.{Time, utc}
use tyk_pump.Analytics.Record.{AnalyticsRecord, zero_record, operation_query}
use tyk_pump.Pump.Config.{CommonPumpConfig, zero_config, no_filters}

abbrev pub noon : Time
noon = record {
  year = 2024;
  month = 5;
  day = 17;
  hour = 12;
  minute = 34;
  second = 56;
  nanosecond = 0;
  location = utc;
}

-- A record of the organisation `o` and the API `a`.
abbrev pub request : Int64 → Int64 → AnalyticsRecord
request code total = record zero_record {
  org_id = text "o";
  api_id = text "a";
  api_key = text "k";
  api_version = text "v1";
  path = text "/x.y";
  tags = text " t.g " ∷ text "key-1" ∷ [];
  response_code = code;
  time_stamp = noon;
  request_time = total;
  raw_request = text "request";
  raw_response = text "response";
  latency = record { total = total; upstream = 2; gateway = 1 };
}

abbrev pub hit : AnalyticsRecord
hit = request 200 7

abbrev pub missing : AnalyticsRecord
missing = request 404 5

abbrev pub report : AnalyticsRecord
report = request minus_one 0

-- A pump that cuts raw data to three bytes, drops the response code 404 and ignores the path.
abbrev pub cutting : CommonPumpConfig
cutting = record zero_config {
  filters = record no_filters { skipped_response_codes = 404 ∷ [] };
  max_record_size = 3;
  ignore_fields = text "path" ∷ [];
}

-- A query of the field `name` of the type `User`.
abbrev pub query : AnalyticsRecord
query = record hit {
  graph_ql_stats = record {
    variables = [];
    root_fields = text "user" ∷ [];
    types = (text "User", text "name" ∷ []) ∷ [];
    errors = [];
    operation_type = operation_query;
    has_errors = true;
    is_graph_ql = true;
  };
}

-- A call of the tool `weather`.
abbrev pub tool_call : AnalyticsRecord
tool_call = record hit {
  mcp_stats = record {
    is_mcp = true;
    jsonrpc_method = text "tools/call";
    primitive_type = text "tool";
    primitive_name = text "weather";
  };
}
