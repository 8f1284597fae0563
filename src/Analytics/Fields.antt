-- ===== src/Analytics/Fields.antt =====
-- analytics/analytics.go: `AnalyticsRecord` as the package `structs` sees it, and
-- `RemoveIgnoredFields`, which sets fields to zero by their JSON tags.
pub mod Mask
use tyk_pump.Base.{ℕ, Bool, true, false, ◌==◌, List, [], ◌∷◌, Text, text, same, if◌then◌else◌}
use tyk_pump.Time.{zero_time}
use tyk_pump.Analytics.Record.{
  AnalyticsRecord, zero_network, zero_latency, zero_geo, zero_graph_ql, zero_mcp,
}

-- The exported fields.
pub data Field : Type 0 where
  method host path raw_path content_length user_agent day : Field
  month year hour response_code api_key time_stamp api_version : Field
  api_name api_id org_id oauth_id request_time raw_request raw_response : Field
  ip_address geo network latency tags alias track_path : Field
  expire_at api_schema original_path listen_path graph_ql_stats mcp_stats collection_name : Field

-- `structs.Fields`: in the order of the declaration.
abbrev pub fields : List Field
fields =
    Field.method ∷ Field.host ∷ Field.path ∷ Field.raw_path ∷ Field.content_length
    ∷ Field.user_agent ∷ Field.day ∷ Field.month ∷ Field.year ∷ Field.hour ∷ Field.response_code
    ∷ Field.api_key ∷ Field.time_stamp ∷ Field.api_version ∷ Field.api_name ∷ Field.api_id
    ∷ Field.org_id ∷ Field.oauth_id ∷ Field.request_time ∷ Field.raw_request ∷ Field.raw_response
    ∷ Field.ip_address ∷ Field.geo ∷ Field.network ∷ Field.latency ∷ Field.tags ∷ Field.alias
    ∷ Field.track_path ∷ Field.expire_at ∷ Field.api_schema ∷ Field.original_path
    ∷ Field.listen_path ∷ Field.graph_ql_stats ∷ Field.mcp_stats ∷ Field.collection_name ∷ []

-- `field.Tag("json")`
unfoldable pub json_tag : Field → Text
json_tag Field.method = text "method"
json_tag Field.host = text "host"
json_tag Field.path = text "path"
json_tag Field.raw_path = text "raw_path"
json_tag Field.content_length = text "content_length"
json_tag Field.user_agent = text "user_agent"
json_tag Field.day = text "day"
json_tag Field.month = text "month"
json_tag Field.year = text "year"
json_tag Field.hour = text "hour"
json_tag Field.response_code = text "response_code"
json_tag Field.api_key = text "api_key"
json_tag Field.time_stamp = text "timestamp"
json_tag Field.api_version = text "api_version"
json_tag Field.api_name = text "api_name"
json_tag Field.api_id = text "api_id"
json_tag Field.org_id = text "org_id"
json_tag Field.oauth_id = text "oauth_id"
json_tag Field.request_time = text "request_time"
json_tag Field.raw_request = text "raw_request"
json_tag Field.raw_response = text "raw_response"
json_tag Field.ip_address = text "ip_address"
json_tag Field.geo = text "geo"
json_tag Field.network = text "network"
json_tag Field.latency = text "latency"
json_tag Field.tags = text "tags"
json_tag Field.alias = text "alias"
json_tag Field.track_path = text "track_path"
json_tag Field.expire_at = text "expireAt"
json_tag Field.api_schema = text "api_schema"
json_tag Field.original_path = text "original_path"
json_tag Field.listen_path = text "listen_path"
json_tag Field.graph_ql_stats = text "graphql_stats"
json_tag Field.mcp_stats = text "mcp_stats"
json_tag Field.collection_name = text "-"

-- `field.Zero()`
unfoldable pub zero_field : Field → AnalyticsRecord → AnalyticsRecord
zero_field Field.method a = record a { method = [] }
zero_field Field.host a = record a { host = [] }
zero_field Field.path a = record a { path = [] }
zero_field Field.raw_path a = record a { raw_path = [] }
zero_field Field.content_length a = record a { content_length = 0 }
zero_field Field.user_agent a = record a { user_agent = [] }
zero_field Field.day a = record a { day = 0 }
zero_field Field.month a = record a { month = 0 }
zero_field Field.year a = record a { year = 0 }
zero_field Field.hour a = record a { hour = 0 }
zero_field Field.response_code a = record a { response_code = 0 }
zero_field Field.api_key a = record a { api_key = [] }
zero_field Field.time_stamp a = record a { time_stamp = zero_time }
zero_field Field.api_version a = record a { api_version = [] }
zero_field Field.api_name a = record a { api_name = [] }
zero_field Field.api_id a = record a { api_id = [] }
zero_field Field.org_id a = record a { org_id = [] }
zero_field Field.oauth_id a = record a { oauth_id = [] }
zero_field Field.request_time a = record a { request_time = 0 }
zero_field Field.raw_request a = record a { raw_request = [] }
zero_field Field.raw_response a = record a { raw_response = [] }
zero_field Field.ip_address a = record a { ip_address = [] }
zero_field Field.geo a = record a { geo = zero_geo }
zero_field Field.network a = record a { network = zero_network }
zero_field Field.latency a = record a { latency = zero_latency }
zero_field Field.tags a = record a { tags = [] }
zero_field Field.alias a = record a { alias = [] }
zero_field Field.track_path a = record a { track_path = false }
zero_field Field.expire_at a = record a { expire_at = zero_time }
zero_field Field.api_schema a = record a { api_schema = [] }
zero_field Field.original_path a = record a { original_path = [] }
zero_field Field.listen_path a = record a { listen_path = [] }
zero_field Field.graph_ql_stats a = record a { graph_ql_stats = zero_graph_ql }
zero_field Field.mcp_stats a = record a { mcp_stats = zero_mcp }
zero_field Field.collection_name a = record a { collection_name = [] }

-- The inner loop: every field that has the tag is set to zero.
unfoldable pub ignore_tag_in : Text → List Field → AnalyticsRecord → AnalyticsRecord
ignore_tag_in t [] a = a
ignore_tag_in t (f ∷ fs) a = ignore_tag_in t fs (if same (json_tag f) t then zero_field f a else a)

-- `RemoveIgnoredFields`. A tag that no field has is only logged.
unfoldable pub remove_ignored_fields : List Text → AnalyticsRecord → AnalyticsRecord
remove_ignored_fields [] a = a
remove_ignored_fields (t ∷ ts) a = remove_ignored_fields ts (ignore_tag_in t fields a)
