-- ===== src/Aggregate/State.antt =====
-- analytics/aggregate.go: `AnalyticsRecordAggregate`, what an organisation's records add up to.
pub mod Discard
use tyk_pump.Base.{
  ℕ, Bool, true, false, ◌||◌, List, [], ◌∷◌, ◌++◌, Text, text, same, Map, if◌then◌else◌,
}
use tyk_pump.Time.{Time, zero_time}
use tyk_pump.Aggregate.Counter.{Counter, zero_counter}

-- `AggregateFieldList`
pub record AggregateFieldList : Type 0 where
  pub api_keys : List Counter
  pub api_id : List Counter
  pub oauth_ids : List Counter
  pub geo : List Counter
  pub tags : List Counter
  pub errors : List Counter
  pub endpoints : List Counter
  pub key_endpoint : Map (List Counter)
  pub oauth_endpoint : Map (List Counter)
  pub api_endpoint : List Counter

pub record TimeId : Type 0 where
  pub year : ℕ
  pub month : ℕ
  pub day : ℕ
  pub hour : ℕ

pub record AnalyticsRecordAggregate : Type 0 where
  pub id : Text
  pub time_stamp : Time
  pub org_id : Text
  pub time_id : TimeId
  pub api_keys : Map Counter
  pub errors : Map Counter
  pub versions : Map Counter
  pub api_id : Map Counter
  pub oauth_ids : Map Counter
  pub geo : Map Counter
  pub tags : Map Counter
  pub endpoints : Map Counter
  pub lists : AggregateFieldList
  pub key_endpoint : Map (Map Counter)
  pub oauth_endpoint : Map (Map Counter)
  pub api_endpoint : Map Counter
  pub total : Counter
  pub expire_at : Time
  pub last_time : Time
  pub mixed : Bool

-- `AggregateFieldList{}`
abbrev pub no_lists : AggregateFieldList
no_lists = record {
  api_keys = [];
  api_id = [];
  oauth_ids = [];
  geo = [];
  tags = [];
  errors = [];
  endpoints = [];
  key_endpoint = [];
  oauth_endpoint = [];
  api_endpoint = [];
}

-- `AnalyticsRecordAggregate{}.New()`: every map is empty.
abbrev pub new : AnalyticsRecordAggregate
new = record {
  id = [];
  time_stamp = zero_time;
  org_id = [];
  time_id = record { year = 0; month = 0; day = 0; hour = 0 };
  api_keys = [];
  errors = [];
  versions = [];
  api_id = [];
  oauth_ids = [];
  geo = [];
  tags = [];
  endpoints = [];
  lists = no_lists;
  key_endpoint = [];
  oauth_endpoint = [];
  api_endpoint = [];
  total = zero_counter;
  expire_at = zero_time;
  last_time = zero_time;
  mixed = false;
}

-- `AnalyticsRecordAggregate.TableName`
unfoldable pub table_name : AnalyticsRecordAggregate → Text
table_name f =
    if f.mixed
    then text "tyk_analytics_aggregates"
    else text "z_tyk_analyticz_aggregate_" ++ f.org_id

-- The cases of the switch in `DiscardAggregations`.
pub data Dimension : Type 0 where
  api_id errors versions api_keys oauth_ids geo tags endpoints : Dimension
  key_endpoint oauth_endpoint api_endpoint unknown : Dimension

abbrev named : Text → Text → Text → Bool
named field a b = same field a || same field b

-- Each case has two labels.
unfoldable pub dimension_of : Text → Dimension
dimension_of field =
    if named field (text "APIID") (text "apiid")
    then Dimension.api_id
    else if named field (text "Errors") (text "errors")
    then Dimension.errors
    else if named field (text "Versions") (text "versions")
    then Dimension.versions
    else if named field (text "APIKeys") (text "apikeys")
    then Dimension.api_keys
    else if named field (text "OauthIDs") (text "oauthids")
    then Dimension.oauth_ids
    else if named field (text "Geo") (text "geo")
    then Dimension.geo
    else if named field (text "Tags") (text "tags")
    then Dimension.tags
    else if named field (text "Endpoints") (text "endpoints")
    then Dimension.endpoints
    else if named field (text "KeyEndpoint") (text "keyendpoints")
    then Dimension.key_endpoint
    else if named field (text "OauthEndpoint") (text "oauthendpoints")
    then Dimension.oauth_endpoint
    else if named field (text "ApiEndpoint") (text "apiendpoints")
    then Dimension.api_endpoint
    else Dimension.unknown

-- What the case does; an unknown field is only logged.
unfoldable pub discard : Dimension → AnalyticsRecordAggregate → AnalyticsRecordAggregate
discard Dimension.api_id f = record f { api_id = [] }
discard Dimension.errors f = record f { errors = [] }
discard Dimension.versions f = record f { versions = [] }
discard Dimension.api_keys f = record f { api_keys = [] }
discard Dimension.oauth_ids f = record f { oauth_ids = [] }
discard Dimension.geo f = record f { geo = [] }
discard Dimension.tags f = record f { tags = [] }
discard Dimension.endpoints f = record f { endpoints = [] }
discard Dimension.key_endpoint f = record f { key_endpoint = [] }
discard Dimension.oauth_endpoint f = record f { oauth_endpoint = [] }
discard Dimension.api_endpoint f = record f { api_endpoint = [] }
discard Dimension.unknown f = f

-- `DiscardAggregations`
unfoldable pub discard_aggregations :
    List Text → AnalyticsRecordAggregate → AnalyticsRecordAggregate
discard_aggregations [] f = f
discard_aggregations (field ∷ fields) f =
    discard_aggregations fields (discard (dimension_of field) f)
