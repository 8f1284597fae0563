-- ===== src/Aggregate/Dimensions.antt =====
-- analytics/aggregate.go and aggregate_mcp.go: `Dimensions`, the counters of an aggregate with the name
-- of their map and their key, as the pumps write them.
pub mod Lookup
use tyk_pump.Base.{List, [], ◌∷◌, ◌++◌, map, Text, text, Map}
use tyk_pump.Floats.{FloatOps}
use tyk_pump.Aggregate.Counter.{Counter, fn_latency_setter}
use tyk_pump.Aggregate.State.{AnalyticsRecordAggregate}
use tyk_pump.Aggregate.Graph.{GraphRecordAggregate}
use tyk_pump.Aggregate.Mcp.{McpRecordAggregate}

-- `Dimension`
pub record DimensionEntry : Type 0 where
  pub name : Text
  pub value : Text
  pub counter : Counter

-- The two loops over a map of maps: the keys are joined by a dot.
abbrev pub joined_keys : Text → Map Counter → Map Counter
joined_keys key m = map (λ e. (key ++ text "." ++ e.0, e.1)) m

unfoldable pub join_maps : Map (Map Counter) → Map Counter
join_maps [] = []
join_maps ((key, inc) ∷ m) = joined_keys key inc ++ join_maps m

-- The maps that are listed, in their order, with their names.
abbrev pub map_sections : AnalyticsRecordAggregate → Map (Map Counter)
map_sections f =
    (text "apiid", f.api_id)
    ∷ (text "errors", f.errors)
    ∷ (text "versions", f.versions)
    ∷ (text "apikeys", f.api_keys)
    ∷ (text "oauthids", f.oauth_ids)
    ∷ (text "geo", f.geo)
    ∷ (text "tags", f.tags)
    ∷ (text "endpoints", f.endpoints)
    ∷ (text "keyendpoints", join_maps f.key_endpoint)
    ∷ (text "oauthendpoints", join_maps f.oauth_endpoint)
    ∷ (text "apiendpoints", f.api_endpoint)
    ∷ []

-- The same and the total.
abbrev pub sections : AnalyticsRecordAggregate → Map (Map Counter)
sections f = map_sections f ++ ((text "", (text "total", f.total) ∷ []) ∷ [])

abbrev pub graph_sections : GraphRecordAggregate → Map (Map Counter)
graph_sections g =
    (text "types", g.types)
    ∷ (text "fields", g.fields)
    ∷ (text "operation", g.operation)
    ∷ (text "rootfields", g.root_fields)
    ∷ []

abbrev pub mcp_sections : McpRecordAggregate → Map (Map Counter)
mcp_sections a =
    (text "methods", a.methods) ∷ (text "primitives", a.primitives) ∷ (text "names", a.names) ∷ []

module _ (fl : FloatOps) where
  -- The loop over one map.
  unfoldable pub list_map : Text → Map Counter → List DimensionEntry
  list_map name m =
      map (λ e. record { name = name; value = e.0; counter = fn_latency_setter fl e.1 }) m

  unfoldable pub list_sections : Map (Map Counter) → List DimensionEntry
  unfolding list_map
  list_sections [] = []
  list_sections ((name, m) ∷ rest) = list_map name m ++ list_sections rest

  -- `AnalyticsRecordAggregate.Dimensions`
  unfoldable pub dimensions : AnalyticsRecordAggregate → List DimensionEntry
  dimensions f = list_sections (sections f)

  -- `GraphRecordAggregate.Dimensions`
  unfoldable pub graph_dimensions : GraphRecordAggregate → List DimensionEntry
  graph_dimensions g = dimensions g.aggregate ++ list_sections (graph_sections g)

  -- `MCPRecordAggregate.Dimensions`
  unfoldable pub mcp_dimensions : McpRecordAggregate → List DimensionEntry
  mcp_dimensions a = dimensions a.aggregate ++ list_sections (mcp_sections a)
