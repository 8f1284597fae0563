-- ===== src/Analytics/Lines.antt =====
-- analytics/analytics.go: `GetFieldNames` and `GetLineValues`, the header and the lines of a CSV file.
use tyk_pump.Base.{
  ℕ, Bool, true, false, ◌&&◌, ◌||◌, List, [], ◌∷◌, ◌++◌, map, Text, text, Int64, Map, format_uint,
  itoa, ltb, ◌==◌, if◌then◌else◌,
}
use tyk_pump.Time.{Time}
use tyk_pump.Analytics.Record.{Float64, AnalyticsRecord, NetworkStats, Latency, GeoData}

-- What the lines use of packages: `uint64(f)` of a floating-point number, `Time.String` and
-- `Month.String`.
pub record LineOps : Type 0 where
  pub to_uint : Float64 → ℕ
  pub time_string : Time → Text
  pub month_string : Int64 → Text

abbrev pub network_names : List Text
network_names =
    text "NetworkStats.OpenConnections"
    ∷ text "NetworkStats.ClosedConnection"
    ∷ text "NetworkStats.BytesIn"
    ∷ text "NetworkStats.BytesOut"
    ∷ []

abbrev pub latency_names : List Text
latency_names = text "Latency.Total" ∷ text "Latency.Upstream" ∷ text "Latency.Gateway" ∷ []

abbrev pub geo_names : List Text
geo_names =
    text "GeoData.Country.ISOCode"
    ∷ text "GeoData.City.GeoNameID"
    ∷ text "GeoData.City.Names"
    ∷ text "GeoData.Location.Latitude"
    ∷ text "GeoData.Location.Longitude"
    ∷ text "GeoData.Location.TimeZone"
    ∷ []

-- `AnalyticsRecord.GetFieldNames`
unfoldable pub get_field_names : List Text
get_field_names =
    text "Method"
      ∷ text "Host"
      ∷ text "Path"
      ∷ text "RawPath"
      ∷ text "ContentLength"
      ∷ text "UserAgent"
      ∷ text "Day"
      ∷ text "Month"
      ∷ text "Year"
      ∷ text "Hour"
      ∷ text "ResponseCode"
      ∷ text "APIKey"
      ∷ text "TimeStamp"
      ∷ text "APIVersion"
      ∷ text "APIName"
      ∷ text "APIID"
      ∷ text "OrgID"
      ∷ text "OauthID"
      ∷ text "RequestTime"
      ∷ text "RawRequest"
      ∷ text "RawResponse"
      ∷ text "IPAddress"
      ∷ geo_names
    ++ network_names
    ++ latency_names
    ++ (text "Tags"
        ∷ text "Alias"
        ∷ text "TrackPath"
        ∷ text "ExpireAt"
        ∷ text "ApiSchema"
        ∷ text "OriginalPath"
        ∷ text "ListenPath"
        ∷ [])

abbrev pub network_values : NetworkStats → List Text
network_values n =
    format_uint n.open_connections
    ∷ format_uint n.closed_connection
    ∷ format_uint n.bytes_in
    ∷ format_uint n.bytes_out
    ∷ []

abbrev pub latency_values : Latency → List Text
latency_values l = itoa l.total ∷ itoa l.upstream ∷ itoa l.gateway ∷ []

-- The order of `sort.Strings`: by bytes.
unfoldable pub comes_before : Text → Text → Bool
comes_before [] t = true
comes_before (x ∷ s) [] = false
comes_before (x ∷ s) (y ∷ t) = ltb x y || x == y && comes_before s t

unfoldable pub insert_sorted : Text × Text → Map Text → Map Text
unfolding comes_before
insert_sorted e [] = e ∷ []
insert_sorted e (d ∷ m) = if comes_before e.0 d.0 then e ∷ d ∷ m else d ∷ insert_sorted e m

unfoldable pub sort_names : Map Text → Map Text
unfolding insert_sorted
sort_names [] = []
sort_names (e ∷ m) = insert_sorted e (sort_names m)

-- "key:value" of each name, with ";" between them.
abbrev pub name_text : Text × Text → Text
name_text e = e.0 ++ text ":" ++ e.1

abbrev pub joined_after : Text → List Text → Text
joined_after s [] = s
joined_after s (t ∷ ts) = joined_after (s ++ text ";" ++ t) ts

-- `strings.Join(ts, ";")`
abbrev pub joined : List Text → Text
joined [] = []
joined (t ∷ ts) = joined_after t ts

unfoldable pub city_names : Map Text → Text
unfolding sort_names
city_names m = joined (map name_text (sort_names m))

abbrev pub geo_values : LineOps → GeoData → List Text
geo_values ops g =
    g.country.iso_code
    ∷ format_uint g.city.geo_name_id
    ∷ city_names g.city.names
    ∷ format_uint (ops.to_uint g.location.latitude)
    ∷ format_uint (ops.to_uint g.location.longitude)
    ∷ g.location.time_zone
    ∷ []

-- `strconv.FormatBool`
abbrev pub format_bool : Bool → Text
format_bool true = text "true"
format_bool false = text "false"

-- `AnalyticsRecord.GetLineValues`
unfoldable pub get_line_values : LineOps → AnalyticsRecord → List Text
get_line_values ops a =
    a.method
      ∷ a.host
      ∷ a.path
      ∷ a.raw_path
      ∷ format_uint a.content_length
      ∷ a.user_agent
      ∷ format_uint a.day
      ∷ ops.month_string a.month
      ∷ format_uint a.year
      ∷ format_uint a.hour
      ∷ format_uint a.response_code
      ∷ a.api_key
      ∷ ops.time_string a.time_stamp
      ∷ a.api_version
      ∷ a.api_name
      ∷ a.api_id
      ∷ a.org_id
      ∷ a.oauth_id
      ∷ format_uint a.request_time
      ∷ a.raw_request
      ∷ a.raw_response
      ∷ a.ip_address
      ∷ geo_values ops a.geo
    ++ network_values a.network
    ++ latency_values a.latency
    ++ (joined a.tags
        ∷ a.alias
        ∷ format_bool a.track_path
        ∷ ops.time_string a.expire_at
        ∷ a.api_schema
        ∷ a.original_path
        ∷ a.listen_path
        ∷ [])
