-- ===== src/Mongo/Kinds.antt =====
-- pumps/graph_mongo.go and pumps/mcp_mongo.go: the sets of the records of GraphQL and of MCP.
use tyk_pump.Base.{
  true, false, List, [], ◌∷◌, map, Option, none, some, Text, is_empty, if◌then◌else◌,
}
use tyk_pump.Analytics.Record.{AnalyticsRecord, is_mcp_record, is_graph_record}
use tyk_pump.Analytics.Graph.{GraphRecord, zero_graph_record, to_graph_record}
use tyk_pump.Analytics.Mcp.{McpRecord, to_mcp_record}
use tyk_pump.Aggregate.Data.{Value, analytics, null}
use tyk_pump.Mongo.Sets.{is_nil}
use tyk_pump.Mongo.{MongoConf, accumulate_set}

-- `new_id` is the identifier that the driver's `NewObjectID` makes for a record.
module _ (new_id : AnalyticsRecord → Text) where
  -- `SetObjectID(model.NewObjectID())`
  abbrev pub with_object_id : AnalyticsRecord → AnalyticsRecord
  with_object_id r = record r { id = new_id r }

  -- A record of a set, in `WriteData` of pumps/graph_mongo.go.
  unfoldable pub to_graph_object : AnalyticsRecord → GraphRecord
  to_graph_object r =
      let r' = with_object_id r in
      if is_graph_record r'
      then to_graph_record r'
      else record zero_graph_record { analytics_record = r' }

  -- `WriteData`: the sets that are inserted, or the error that the collection has no name.
  unfoldable pub graph_sets : MongoConf → List Value → Option (List (List GraphRecord))
  graph_sets conf data' =
      if is_empty conf.collection_name
      then none
      else some (map (λ set. map to_graph_object set) (accumulate_set conf true data'))

  -- `convertToMCPObjects`
  unfoldable pub convert_to_mcp_objects : List AnalyticsRecord → List McpRecord
  convert_to_mcp_objects set = map (λ r. to_mcp_record (with_object_id r)) set

  -- `filterMCPData`
  unfoldable pub filter_mcp_data : List Value → List Value
  filter_mcp_data [] = []
  filter_mcp_data (null ∷ vs) = filter_mcp_data vs
  filter_mcp_data (analytics r ∷ vs) =
      if is_mcp_record r then analytics r ∷ filter_mcp_data vs else filter_mcp_data vs

  unfoldable pub mcp_sets : MongoConf → List Value → Option (List (List McpRecord))
  mcp_sets conf data' =
      let mcp_data = filter_mcp_data data' in
      if is_empty conf.collection_name
      then none
      else some (
          if is_nil mcp_data
          then []
          else map convert_to_mcp_objects (accumulate_set conf false mcp_data))
