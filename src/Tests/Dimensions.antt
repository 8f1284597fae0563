-- ===== src/Tests/Dimensions.antt =====
-- Tests of the aggregation of GraphQL and MCP records.
use tyk_pump.Base.{
  ◌≡◌, refl, none, some, List, [], ◌∷◌, filter, text, same, lookup, insert, lt64, arith,
}
use tyk_pump.Floats.{whole}
use tyk_pump.Analytics.Graph.{to_graph_record, operation_name}
use tyk_pump.Analytics.Mcp.{to_mcp_record}
use tyk_pump.Aggregate.Data.{Value, analytics, Progress}
use tyk_pump.Aggregate.Graph.{GraphRecordAggregate, aggregate_graph_data}
use tyk_pump.Aggregate.Graph.Batch.{GraphAddsUp, aggregate_graph_data-GraphAddsUp}
use tyk_pump.Aggregate.Mcp.{McpRecordAggregate, aggregate_mcp_data, name_label, new_mcp}
use tyk_pump.Aggregate.Mcp.Batch.{McpAddsUp, aggregate_mcp_data-McpAddsUp}
use tyk_pump.Aggregate.Counter.{zero_counter, fn_latency_setter}
use tyk_pump.Aggregate.Dimensions.{mcp_dimensions, dimensions, list_sections, list_map, join_maps}
use tyk_pump.Aggregate.Change.{
  number, as_change, generate_all, generate_bson_from_property, put_all, constructor_of,
}
use tyk_pump.Mongo.McpUpserts.{
  mcp_update, is_mcp_dimension, add_mcp_dimension_updates, add_dimension_update,
}
use tyk_pump.Mongo.McpUpserts.Mirrored.{Mirrors, mcp_update-Mirrors}
use tyk_pump.Tests.Samples.{hit, query, tool_call}

query_is_named : (to_graph_record query).operation_type ≡ text "Query"
unfolding to_graph_record operation_name
query_is_named = refl

tool_is_labelled : name_label (to_mcp_record tool_call) ≡ text "tool_weather"
unfolding to_mcp_record name_label
tool_is_labelled = refl

abbrev mixed_values : List Value
mixed_values = analytics hit ∷ analytics query ∷ analytics tool_call ∷ analytics query ∷ []

aggregate_graph_data-GraphAddsUp_example :
    (s : Progress GraphRecordAggregate) × (aggregate_graph_data whole (text "db") 60 mixed_values []
      ≡ some s)
    × GraphAddsUp mixed_values s
aggregate_graph_data-GraphAddsUp_example =
    aggregate_graph_data-GraphAddsUp whole (text "db") 60 mixed_values [] (omega arith)

aggregate_mcp_data-McpAddsUp_example :
    (s : Progress McpRecordAggregate) × (aggregate_mcp_data whole (text "db") 60 mixed_values []
      ≡ some s)
    × McpAddsUp mixed_values s
aggregate_mcp_data-McpAddsUp_example =
    aggregate_mcp_data-McpAddsUp whole (text "db") 60 mixed_values [] (omega arith)

-- An aggregate with five calls of a tool.
abbrev tools : McpRecordAggregate
tools = record new_mcp {
  names = (text "tool_weather", record zero_counter { hits = 5; success = 5; bytes_in = 9 }) ∷ [];
}

mcp_update-Mirrors_example : Mirrors (mcp_update whole tools) (
    generate_all
      (filter (λ d. is_mcp_dimension d.name) (mcp_dimensions whole tools))
      (as_change whole tools.aggregate))
mcp_update-Mirrors_example = mcp_update-Mirrors whole tools

hits_of_tool :
    lookup (text "names.tool_weather.hits") (mcp_update whole tools).inc ≡ some (number 5)
unfolding mcp_update add_mcp_dimension_updates add_dimension_update is_mcp_dimension mcp_dimensions
    as_change generate_all generate_bson_from_property put_all constructor_of dimensions
    list_sections list_map fn_latency_setter join_maps lt64 lookup insert same
hits_of_tool = refl

-- The bytes are not set.
bytes_of_tool : lookup (text "names.tool_weather.bytesin") (mcp_update whole tools).set ≡ none
unfolding mcp_update add_mcp_dimension_updates add_dimension_update is_mcp_dimension mcp_dimensions
    as_change generate_all generate_bson_from_property put_all constructor_of dimensions
    list_sections list_map fn_latency_setter join_maps lt64 lookup insert same
bytes_of_tool = refl
