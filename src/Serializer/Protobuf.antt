-- ===== src/Serializer/Protobuf.antt =====
-- serializer/protobuf.go, and the time stamps of analytics/analytics.go: a record as a message.
use tyk_pump.Base.{true, [], map, Option, none, some, ◌>>=◌, Text, text, ◌==◌, if◌then◌else◌}
use tyk_pump.Time.{Location}
use tyk_pump.Analytics.Record.{
  AnalyticsRecord, zero_record, zero_graph_ql, zero_mcp, GraphError, GraphQlOperations,
  GraphQlStats, McpStats, GeoData, operation_unknown, operation_query, operation_mutation,
  operation_subscription,
}
use tyk_pump.Serializer.Message.{
  TimeStamps, repeated_fields, RecordMessage, GraphQlMessage, McpMessage, GeoMessage,
  OperationMessage, message_unknown, message_query, message_mutation, message_subscription,
  to_int32, from_int32,
}

-- `GetSuffix`
abbrev pub protobuf_suffix : Text
protobuf_suffix = text "_protobuf"

-- The two switches over the operations.
unfoldable pub operation_to_message : GraphQlOperations → OperationMessage
operation_to_message o =
    if o == operation_query
    then message_query
    else if o == operation_mutation
    then message_mutation
    else if o == operation_subscription
    then message_subscription
    else message_unknown

unfoldable pub operation_of_message : OperationMessage → GraphQlOperations
operation_of_message o =
    if o == message_query
    then operation_query
    else if o == message_mutation
    then operation_mutation
    else if o == message_subscription
    then operation_subscription
    else operation_unknown

-- The statistics of a GraphQL request: only the messages of its errors are kept.
unfoldable pub graph_to_message : GraphQlStats → Option GraphQlMessage
unfolding operation_to_message
graph_to_message g =
    if g.is_graph_ql
    then some (record {
      is_graph_ql = true;
      variables = g.variables;
      has_error = g.has_errors;
      operation_type = operation_to_message g.operation_type;
      graph_errors = map (λ e. e.message) g.errors;
      root_fields = g.root_fields;
      types = map (λ e. (e.0, repeated_fields e.1)) g.types;
    })
    else none

unfoldable pub mcp_to_message : McpStats → Option McpMessage
mcp_to_message m =
    if m.is_mcp
    then some (record {
      is_mcp = true;
      jsonrpc_method = m.jsonrpc_method;
      primitive_type = m.primitive_type;
      primitive_name = m.primitive_name;
    })
    else none

-- An error of which only the message is set.
abbrev pub message_only : Text → GraphError
message_only message = record { message = message; path = [] }

unfoldable pub graph_of_message : Option GraphQlMessage → GraphQlStats
unfolding operation_of_message
graph_of_message none = zero_graph_ql
graph_of_message (some g) = record {
  is_graph_ql = g.is_graph_ql;
  operation_type = operation_of_message g.operation_type;
  has_errors = g.has_error;
  root_fields = g.root_fields;
  types = map (λ e. (e.0, e.1.fields)) g.types;
  variables = g.variables;
  errors = map (λ e. message_only e) g.graph_errors;
}

unfoldable pub mcp_of_message : Option McpMessage → McpStats
mcp_of_message none = zero_mcp
mcp_of_message (some m) = record {
  is_mcp = m.is_mcp;
  jsonrpc_method = m.jsonrpc_method;
  primitive_type = m.primitive_type;
  primitive_name = m.primitive_name;
}

-- A pointer to a part of the location that is nil makes the decoder panic.
unfoldable pub geo_of_message : Option GeoMessage → Option GeoData
geo_of_message o = do
  g ← o
  country ← g.country
  city ← g.city
  location ← g.location
  some (record {
    country = record { iso_code = country.iso_code };
    city = record { geo_name_id = city.geo_name_id; names = [] };
    location = record {
      latitude = location.latitude;
      longitude = location.longitude;
      time_zone = location.time_zone;
    };
  })

module _ (ts : TimeStamps) where
  -- `TransformSingleRecordToProto`, with `TimestampToProto`.
  unfoldable pub transform_single_record_to_proto : AnalyticsRecord → RecordMessage ts.Stamp
  transform_single_record_to_proto r = record {
    host = r.host;
    method = r.method;
    path = r.path;
    raw_path = r.raw_path;
    content_length = r.content_length;
    user_agent = r.user_agent;
    day = to_int32 r.day;
    month = to_int32 r.month;
    year = to_int32 r.year;
    hour = to_int32 r.hour;
    response_code = to_int32 r.response_code;
    api_key = r.api_key;
    time_stamp = some (ts.of_time r.time_stamp);
    api_version = r.api_version;
    api_name = r.api_name;
    api_id = r.api_id;
    org_id = r.org_id;
    request_time = r.request_time;
    latency = some (record { total = r.latency.total; upstream = r.latency.upstream });
    raw_request = r.raw_request;
    raw_response = r.raw_response;
    ip_address = r.ip_address;
    geo = some (record {
      country = some (record { iso_code = r.geo.country.iso_code });
      city =
          some (record { geo_name_id = to_int32 r.geo.city.geo_name_id; names = r.geo.city.names });
      location = some (record {
        latitude = r.geo.location.latitude;
        longitude = r.geo.location.longitude;
        time_zone = r.geo.location.time_zone;
      });
    });
    network = some (record {
      open_connections = r.network.open_connections;
      closed_connections = r.network.closed_connection;
      bytes_in = r.network.bytes_in;
      bytes_out = r.network.bytes_out;
    });
    tags = r.tags;
    alias = r.alias;
    track_path = r.track_path;
    expire_at = some (ts.of_time r.expire_at);
    oauth_id = r.oauth_id;
    time_zone = ts.location_name r.time_stamp.location;
    api_schema = r.api_schema;
    graph_ql_stats = graph_to_message r.graph_ql_stats;
    mcp_stats = mcp_to_message r.mcp_stats;
    original_path = r.original_path;
    listen_path = r.listen_path;
  }

  -- `TimeStampFromProto`: the times stay zero where the location cannot be loaded.
  abbrev pub set_times :
      Option Location → RecordMessage ts.Stamp → AnalyticsRecord → AnalyticsRecord
  set_times none m r = r
  set_times (some loc) m r = record r {
    time_stamp = ts.in_location loc (ts.as_time m.time_stamp);
    expire_at = ts.in_location loc (ts.as_time m.expire_at);
  }

  unfoldable pub time_stamp_from_proto : RecordMessage ts.Stamp → AnalyticsRecord → AnalyticsRecord
  time_stamp_from_proto m r = set_times (ts.load_location m.time_zone) m r

  -- `TransformSingleProtoToAnalyticsRecord`: `none` is a panic on a nil pointer.
  unfoldable pub transform_single_proto_to_analytics_record :
      RecordMessage ts.Stamp → Option AnalyticsRecord
  transform_single_proto_to_analytics_record m = do
    geo ← geo_of_message m.geo
    network ← m.network
    latency ← m.latency
    let tmp : AnalyticsRecord = record zero_record {
      method = m.method;
      host = m.host;
      path = m.path;
      raw_path = m.raw_path;
      content_length = m.content_length;
      user_agent = m.user_agent;
      day = from_int32 m.day;
      month = from_int32 m.month;
      year = from_int32 m.year;
      hour = from_int32 m.hour;
      response_code = from_int32 m.response_code;
      api_key = m.api_key;
      api_version = m.api_version;
      api_name = m.api_name;
      api_id = m.api_id;
      org_id = m.org_id;
      oauth_id = m.oauth_id;
      request_time = m.request_time;
      raw_request = m.raw_request;
      raw_response = m.raw_response;
      ip_address = m.ip_address;
      geo = geo;
      network = record {
        open_connections = network.open_connections;
        closed_connection = network.closed_connections;
        bytes_in = network.bytes_in;
        bytes_out = network.bytes_out;
      };
      latency = record { total = latency.total; upstream = latency.upstream; gateway = 0 };
      tags = m.tags;
      alias = m.alias;
      track_path = m.track_path;
      api_schema = m.api_schema;
      original_path = m.original_path;
      listen_path = m.listen_path;
    }
    some (record (time_stamp_from_proto m tmp) {
      graph_ql_stats = graph_of_message m.graph_ql_stats;
      mcp_stats = mcp_of_message m.mcp_stats;
    })
