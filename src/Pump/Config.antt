-- ===== src/Pump/Config.antt =====
-- pumps/common.go: the part of a pump's configuration that all pumps share. The logger is left out.
use tyk_pump.Base.{Bool, List, [], Text, Int64, false}
use tyk_pump.Analytics.Filters.{AnalyticsFilters}

-- `CommonPumpConfig`
pub record CommonPumpConfig : Type 0 where
  pub filters : AnalyticsFilters
  pub timeout : Int64
  pub max_record_size : Int64
  pub omit_detailed_recording : Bool
  pub ignore_fields : List Text
  pub decode_response_base64 : Bool
  pub decode_request_base64 : Bool

abbrev pub no_filters : AnalyticsFilters
no_filters = record {
  orgs_ids = [];
  api_ids = [];
  response_codes = [];
  skipped_orgs_ids = [];
  skipped_api_ids = [];
  skipped_response_codes = [];
}

-- The zero value, which a pump's `New` leaves.
abbrev pub zero_config : CommonPumpConfig
zero_config = record {
  filters = no_filters;
  timeout = 0;
  max_record_size = 0;
  omit_detailed_recording = false;
  ignore_fields = [];
  decode_response_base64 = false;
  decode_request_base64 = false;
}

-- The setters that `initialisePumps` calls.
abbrev pub set_filters : AnalyticsFilters → CommonPumpConfig → CommonPumpConfig
set_filters filters p = record p { filters = filters }

abbrev pub set_timeout : Int64 → CommonPumpConfig → CommonPumpConfig
set_timeout timeout p = record p { timeout = timeout }

abbrev pub set_omit_detailed_recording : Bool → CommonPumpConfig → CommonPumpConfig
set_omit_detailed_recording omit p = record p { omit_detailed_recording = omit }

abbrev pub set_max_record_size : Int64 → CommonPumpConfig → CommonPumpConfig
set_max_record_size size p = record p { max_record_size = size }

abbrev pub set_ignore_fields : List Text → CommonPumpConfig → CommonPumpConfig
set_ignore_fields fields p = record p { ignore_fields = fields }

abbrev pub set_decoding_response : Bool → CommonPumpConfig → CommonPumpConfig
set_decoding_response decoding p = record p { decode_response_base64 = decoding }

abbrev pub set_decoding_request : Bool → CommonPumpConfig → CommonPumpConfig
set_decoding_request decoding p = record p { decode_request_base64 = decoding }
