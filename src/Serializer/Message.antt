-- ===== src/Serializer/Message.antt =====
-- analytics/proto/analytics.pb.go: the messages of protobuf, without their hidden fields. A pointer
-- is an option; nil is `none`.
use tyk_pump.Base.{ℕ, ◌+◌, ◌%◌, Bool, List, Option, Text, Int64, Map, ltb, if◌then◌else◌}
use tyk_pump.Time.{Time, Location}
use tyk_pump.Analytics.Record.{Float64}

-- A Go `int32`: the number below 2 ^ 32 that has its bits.
abbrev pub Int32 : Type 0
Int32 = ℕ

-- `int32(n)` and `uint32(n)` keep the low half; `int(n)` of an `int32` repeats the sign.
unfoldable pub to_int32 : Int64 → Int32
to_int32 n = n % 4294967296

unfoldable pub from_int32 : Int32 → Int64
from_int32 n = if ltb n 2147483648 then n else n + 18446744069414584320

-- What the code uses of `timestamppb`, and of the locations of the package `time`: `New`, `AsTime`,
-- `In`, `String` and `LoadLocation`.
pub record TimeStamps : Type 1 where
  pub Stamp : Type 0
  pub of_time : Time → Stamp
  pub as_time : Option Stamp → Time
  pub in_location : Location → Time → Time
  pub location_name : Location → Text
  pub load_location : Text → Option Location

pub record LatencyMessage : Type 0 where
  pub total : Int64
  pub upstream : Int64

pub record CityMessage : Type 0 where
  pub geo_name_id : ℕ
  pub names : Map Text

pub record CountryMessage : Type 0 where
  pub iso_code : Text

pub record LocationMessage : Type 0 where
  pub latitude : Float64
  pub longitude : Float64
  pub time_zone : Text

pub record GeoMessage : Type 0 where
  pub country : Option CountryMessage
  pub city : Option CityMessage
  pub location : Option LocationMessage

pub record NetworkMessage : Type 0 where
  pub open_connections : Int64
  pub closed_connections : Int64
  pub bytes_in : Int64
  pub bytes_out : Int64

-- `GraphQLOperations`, an enumeration that holds any `int32`.
abbrev pub OperationMessage : Type 0
OperationMessage = Int32

abbrev pub message_unknown : OperationMessage
message_unknown = 0

abbrev pub message_query : OperationMessage
message_query = 1

abbrev pub message_mutation : OperationMessage
message_mutation = 2

abbrev pub message_subscription : OperationMessage
message_subscription = 3

pub record RepeatedFields : Type 0 where
  pub fields : List Text

abbrev pub repeated_fields : List Text → RepeatedFields
repeated_fields fs = record { fields = fs }

pub record GraphQlMessage : Type 0 where
  pub is_graph_ql : Bool
  pub variables : Text
  pub has_error : Bool
  pub operation_type : OperationMessage
  pub graph_errors : List Text
  pub root_fields : List Text
  pub types : Map RepeatedFields

pub record McpMessage : Type 0 where
  pub is_mcp : Bool
  pub jsonrpc_method : Text
  pub primitive_type : Text
  pub primitive_name : Text

pub record RecordMessage (Stamp : Type 0) : Type 0 where
  pub host : Text
  pub method : Text
  pub path : Text
  pub raw_path : Text
  pub content_length : Int64
  pub user_agent : Text
  pub day : Int32
  pub month : Int32
  pub year : Int32
  pub hour : Int32
  pub response_code : Int32
  pub api_key : Text
  pub time_stamp : Option Stamp
  pub api_version : Text
  pub api_name : Text
  pub api_id : Text
  pub org_id : Text
  pub request_time : Int64
  pub latency : Option LatencyMessage
  pub raw_request : Text
  pub raw_response : Text
  pub ip_address : Text
  pub geo : Option GeoMessage
  pub network : Option NetworkMessage
  pub tags : List Text
  pub alias : Text
  pub track_path : Bool
  pub expire_at : Option Stamp
  pub oauth_id : Text
  pub time_zone : Text
  pub api_schema : Text
  pub graph_ql_stats : Option GraphQlMessage
  pub mcp_stats : Option McpMessage
  pub original_path : Text
  pub listen_path : Text
