-- ===== src/Analytics/Graph.antt =====
-- analytics/graph_record.go: `GraphRecord`, a record of a GraphQL request.
use tyk_pump.Base.{
  Bool, true, false, List, [], Text, text, Map, le64, is_empty, ◌==◌, if◌then◌else◌,
}
use tyk_pump.Analytics.Record.{
  AnalyticsRecord, zero_record, GraphError, GraphQlOperations, operation_query, operation_mutation,
  operation_subscription, is_graph_record, table_name,
}

pub record GraphRecord : Type 0 where
  pub types : Map (List Text)
  pub analytics_record : AnalyticsRecord
  pub operation_type : Text
  pub variables : Text
  pub root_fields : List Text
  pub errors : List GraphError
  pub has_errors : Bool

-- `GraphRecord{}`
abbrev pub zero_graph_record : GraphRecord
zero_graph_record = record {
  types = [];
  analytics_record = zero_record;
  operation_type = [];
  variables = [];
  root_fields = [];
  errors = [];
  has_errors = false;
}

-- `GraphRecord.TableName`, with the value of `GraphSQLTableName`.
abbrev pub graph_table_name : Text → GraphRecord → Text
graph_table_name graph_sql_table_name g =
    if is_empty graph_sql_table_name then table_name g.analytics_record else graph_sql_table_name

-- The switch over the operations.
unfoldable pub operation_name : GraphQlOperations → Text
operation_name operation =
    if operation == operation_query
    then text "Query"
    else if operation == operation_mutation
    then text "Mutation"
    else if operation == operation_subscription
    then text "Subscription"
    else []

-- `ToGraphRecord`
unfoldable pub to_graph_record : AnalyticsRecord → GraphRecord
to_graph_record a =
    if is_graph_record a
    then record {
      analytics_record = a;
      root_fields = a.graph_ql_stats.root_fields;
      types = a.graph_ql_stats.types;
      errors = a.graph_ql_stats.errors;
      has_errors = if le64 400 a.response_code then true else a.graph_ql_stats.has_errors;
      variables = a.graph_ql_stats.variables;
      operation_type = operation_name a.graph_ql_stats.operation_type;
    }
    else zero_graph_record
