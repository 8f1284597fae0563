-- ===== src/Analytics/Record.antt =====
-- analytics/analytics.go: the record of one request, and its parts. A `float64` is its 64 bits.
use tyk_pump.Base.{ℕ, Bool, false, List, [], Text, text, Int64, Map, is_empty, if◌then◌else◌}
use tyk_pump.Time.{Time, zero_time}

-- A `float64`, by its bits; package `Floats` has the arithmetic.
abbrev pub Float64 : Type 0
Float64 = ℕ

pub record NetworkStats : Type 0 where
  pub open_connections : Int64
  pub closed_connection : Int64
  pub bytes_in : Int64
  pub bytes_out : Int64

pub record Latency : Type 0 where
  pub total : Int64
  pub upstream : Int64
  pub gateway : Int64

-- `GraphQLOperations`, an `int` of which four values have names.
abbrev pub GraphQlOperations : Type 0
GraphQlOperations = Int64

abbrev pub operation_unknown : GraphQlOperations
operation_unknown = 0

abbrev pub operation_query : GraphQlOperations
operation_query = 1

abbrev pub operation_mutation : GraphQlOperations
operation_mutation = 2

abbrev pub operation_subscription : GraphQlOperations
operation_subscription = 3

-- An element of the path of an error, an `interface{}` that holds a string or a number.
pub data PathItem : Type 0 where
  key : Text → PathItem
  index : Int64 → PathItem

pub record GraphError : Type 0 where
  pub message : Text
  pub path : List PathItem

pub record GraphQlStats : Type 0 where
  pub variables : Text
  pub root_fields : List Text
  pub types : Map (List Text)
  pub errors : List GraphError
  pub operation_type : GraphQlOperations
  pub has_errors : Bool
  pub is_graph_ql : Bool

pub record McpStats : Type 0 where
  pub is_mcp : Bool
  pub jsonrpc_method : Text
  pub primitive_type : Text
  pub primitive_name : Text

pub record Country : Type 0 where
  pub iso_code : Text

pub record City : Type 0 where
  pub geo_name_id : ℕ
  pub names : Map Text

pub record GeoLocation : Type 0 where
  pub latitude : Float64
  pub longitude : Float64
  pub time_zone : Text

pub record GeoData : Type 0 where
  pub country : Country
  pub city : City
  pub location : GeoLocation

pub record AnalyticsRecord : Type 0 where
  pub id : Text
  pub method : Text
  pub host : Text
  pub path : Text
  pub raw_path : Text
  pub content_length : Int64
  pub user_agent : Text
  pub day : Int64
  pub month : Int64
  pub year : Int64
  pub hour : Int64
  pub response_code : Int64
  pub api_key : Text
  pub time_stamp : Time
  pub api_version : Text
  pub api_name : Text
  pub api_id : Text
  pub org_id : Text
  pub oauth_id : Text
  pub request_time : Int64
  pub raw_request : Text
  pub raw_response : Text
  pub ip_address : Text
  pub geo : GeoData
  pub network : NetworkStats
  pub latency : Latency
  pub tags : List Text
  pub alias : Text
  pub track_path : Bool
  pub expire_at : Time
  pub api_schema : Text
  pub original_path : Text
  pub listen_path : Text
  pub graph_ql_stats : GraphQlStats
  pub mcp_stats : McpStats
  pub collection_name : Text

-- The zero values of Go.
abbrev pub zero_network : NetworkStats
zero_network = record { open_connections = 0; closed_connection = 0; bytes_in = 0; bytes_out = 0 }

abbrev pub zero_latency : Latency
zero_latency = record { total = 0; upstream = 0; gateway = 0 }

abbrev pub zero_geo : GeoData
zero_geo = record {
  country = record { iso_code = [] };
  city = record { geo_name_id = 0; names = [] };
  location = record { latitude = 0; longitude = 0; time_zone = [] };
}

abbrev pub zero_graph_ql : GraphQlStats
zero_graph_ql = record {
  variables = [];
  root_fields = [];
  types = [];
  errors = [];
  operation_type = operation_unknown;
  has_errors = false;
  is_graph_ql = false;
}

abbrev pub zero_mcp : McpStats
zero_mcp = record { is_mcp = false; jsonrpc_method = []; primitive_type = []; primitive_name = [] }

abbrev pub zero_record : AnalyticsRecord
zero_record = record {
  id = [];
  method = [];
  host = [];
  path = [];
  raw_path = [];
  content_length = 0;
  user_agent = [];
  day = 0;
  month = 0;
  year = 0;
  hour = 0;
  response_code = 0;
  api_key = [];
  time_stamp = zero_time;
  api_version = [];
  api_name = [];
  api_id = [];
  org_id = [];
  oauth_id = [];
  request_time = 0;
  raw_request = [];
  raw_response = [];
  ip_address = [];
  geo = zero_geo;
  network = zero_network;
  latency = zero_latency;
  tags = [];
  alias = [];
  track_path = false;
  expire_at = zero_time;
  api_schema = [];
  original_path = [];
  listen_path = [];
  graph_ql_stats = zero_graph_ql;
  mcp_stats = zero_mcp;
  collection_name = [];
}

-- `SQLTable`
abbrev pub sql_table : Text
sql_table = text "tyk_analytics"

-- `AnalyticsRecord.TableName`
unfoldable pub table_name : AnalyticsRecord → Text
table_name a = if is_empty a.collection_name then sql_table else a.collection_name

-- `IsMCPRecord`
abbrev pub is_mcp_record : AnalyticsRecord → Bool
is_mcp_record a = a.mcp_stats.is_mcp

-- `IsGraphRecord`
abbrev pub is_graph_record : AnalyticsRecord → Bool
is_graph_record a = a.graph_ql_stats.is_graph_ql
