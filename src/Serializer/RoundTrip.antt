-- ===== src/Serializer/RoundTrip.antt =====
-- serializer/protobuf.go: what is left of a record that was sent as a message.
use tyk_pump.Base.{
  ℕ, ◌<◌, ◌≤◌, ◌≡◌, refl, ap, ◌∙◌, ◌⊎◌, List, [], ◌∷◌, map, some, Text, Int64, Map, leb, Bool-cases,
  inl, inr, if◌then◌else◌, arith,
}
use tyk_pump.Time.{Time, Location}
use tyk_pump.Analytics.Record.{
  AnalyticsRecord, zero_graph_ql, zero_mcp, GraphError, GraphQlOperations, GraphQlStats, McpStats,
  operation_unknown, operation_subscription,
}
use tyk_pump.Serializer.Message.{TimeStamps, to_int32, from_int32, RepeatedFields, repeated_fields}
use tyk_pump.Serializer.Protobuf.{
  message_only, operation_to_message, operation_of_message, graph_to_message, graph_of_message,
  mcp_to_message, mcp_of_message, geo_of_message, transform_single_record_to_proto,
  time_stamp_from_proto, transform_single_proto_to_analytics_record,
}

-- The number is that of an `int32`.
abbrev pub IsInt32 : Int64 → Type 0
IsInt32 n = (n < 2147483648) ⊎ (18446744071562067968 ≤ n) × (n < 18446744073709551616)

pub from_int32-to_int32 : (n : Int64) → IsInt32 n → from_int32 (to_int32 n) ≡ n
unfolding to_int32 from_int32
from_int32-to_int32 n (inl h) = ground arith
from_int32-to_int32 n (inr h) = ground arith

pub small-to_int32 : (n : ℕ) → n < 4294967296 → to_int32 n ≡ n
unfolding to_int32
small-to_int32 n h = omega arith

-- An operation that has no name is sent as the unknown one.
abbrev pub known_operation : GraphQlOperations → GraphQlOperations
known_operation o = if leb o operation_subscription then o else operation_unknown

-- The statistics of a request that is no GraphQL request are not sent, nor are the paths of errors.
abbrev pub transmitted_graph : GraphQlStats → GraphQlStats
transmitted_graph g =
    if g.is_graph_ql
    then record g {
      operation_type = known_operation g.operation_type;
      errors = map (λ e. message_only e.message) g.errors;
    }
    else zero_graph_ql

abbrev pub transmitted_mcp : McpStats → McpStats
transmitted_mcp m = if m.is_mcp then m else zero_mcp

operation-round_trip :
    (o : GraphQlOperations) → operation_of_message (operation_to_message o) ≡ known_operation o
unfolding operation_of_message operation_to_message
operation-round_trip o = ground arith

-- The errors and the types of a request survive, but for the paths of the errors.
errors-round_trip :
    (es : List GraphError)
    → map (λ (t : Text). message_only t) (map (λ (e : GraphError). e.message) es)
      ≡ map (λ e. message_only e.message) es
errors-round_trip [] = refl
errors-round_trip (e ∷ es) = rw (errors-round_trip es) refl

types-round_trip :
    (types : Map (List Text))
    → map
        (λ (e : Text × RepeatedFields). (e.0, e.1.fields))
        (map (λ (e : Text × List Text). (e.0, repeated_fields e.1)) types)
      ≡ types
types-round_trip [] = refl
types-round_trip (e ∷ types) = rw (types-round_trip types) refl

graph-round_trip : (g : GraphQlStats) → graph_of_message (graph_to_message g) ≡ transmitted_graph g
unfolding graph_of_message graph_to_message
graph-round_trip g = elim (Bool-cases g.is_graph_ql) [
  | inl e ↦
      rw
        (
          e,
          operation-round_trip g.operation_type,
          errors-round_trip g.errors,
          types-round_trip g.types,
        )
        refl
  | inr e ↦ rw e refl
]

mcp-round_trip : (m : McpStats) → mcp_of_message (mcp_to_message m) ≡ transmitted_mcp m
unfolding mcp_of_message mcp_to_message
mcp-round_trip m = elim (Bool-cases m.is_mcp) [ inl e ↦ rw e refl | inr e ↦ rw e refl ]

-- What the documentation of the packages says of a time: as a stamp it is the same instant, in its
-- own location it is the same time, and its location can be loaded by its name.
pub record TimeLaws (ts : TimeStamps) (loc : Location) : Type 0 where
  pub stamped :
      (t : Time) → ts.in_location loc (ts.as_time (some (ts.of_time t))) ≡ ts.in_location loc t
  pub at_home : (t : Time) → t.location ≡ loc → ts.in_location loc t ≡ t
  pub loaded : ts.load_location (ts.location_name loc) ≡ some loc

-- The numbers that are sent as 32 bits fit into them.
pub record FitsMessage (r : AnalyticsRecord) : Type 0 where
  pub day : IsInt32 r.day
  pub month : IsInt32 r.month
  pub year : IsInt32 r.year
  pub hour : IsInt32 r.hour
  pub response_code : IsInt32 r.response_code
  pub geo_name_id : r.geo.city.geo_name_id < 4294967296

-- What is left of a record: the names of its city, the latency of the gateway and the name of its
-- collection are lost.
abbrev pub transmitted : TimeStamps → AnalyticsRecord → AnalyticsRecord
transmitted ts r = record r {
  id = [];
  geo = record (r.geo) { city = record { geo_name_id = r.geo.city.geo_name_id; names = [] } };
  latency = record (r.latency) { gateway = 0 };
  expire_at = ts.in_location r.time_stamp.location r.expire_at;
  graph_ql_stats = transmitted_graph r.graph_ql_stats;
  mcp_stats = transmitted_mcp r.mcp_stats;
  collection_name = [];
}

time_stamp-round_trip :
    (ts : TimeStamps) (r : AnalyticsRecord)
    → TimeLaws ts r.time_stamp.location
    → (tmp : AnalyticsRecord)
    → time_stamp_from_proto ts (transform_single_record_to_proto ts r) tmp ≡ record tmp {
      time_stamp = r.time_stamp;
      expire_at = ts.in_location r.time_stamp.location r.expire_at;
    }
unfolding time_stamp_from_proto transform_single_record_to_proto
time_stamp-round_trip ts r laws tmp =
    rw
      (
        laws.loaded,
        laws.stamped r.time_stamp,
        laws.stamped r.expire_at,
        laws.at_home r.time_stamp refl,
      )
      refl

-- Sending a record as a message and reading it back gives the record without what is lost, if the
-- numbers fit and the location of its time stamp can be loaded.
pub transform_round_trip :
    (ts : TimeStamps) (r : AnalyticsRecord)
    → TimeLaws ts r.time_stamp.location
    → FitsMessage r
    → transform_single_proto_to_analytics_record ts (transform_single_record_to_proto ts r)
      ≡ some (transmitted ts r)
unfolding transform_single_proto_to_analytics_record transform_single_record_to_proto geo_of_message
    time_stamp_from_proto
transform_round_trip ts r laws fits =
    ap
      (λ (t : AnalyticsRecord). some (record t {
        graph_ql_stats = graph_of_message (graph_to_message r.graph_ql_stats);
        mcp_stats = mcp_of_message (mcp_to_message r.mcp_stats);
      }))
      (time_stamp-round_trip ts r laws _)
    ∙ rw
        (
          from_int32-to_int32 r.day fits.day,
          from_int32-to_int32 r.month fits.month,
          from_int32-to_int32 r.year fits.year,
          from_int32-to_int32 r.hour fits.hour,
          from_int32-to_int32 r.response_code fits.response_code,
          small-to_int32 r.geo.city.geo_name_id fits.geo_name_id,
          graph-round_trip r.graph_ql_stats,
          mcp-round_trip r.mcp_stats,
        )
        refl
