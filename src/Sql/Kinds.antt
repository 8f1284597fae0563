-- ===== src/Sql/Kinds.antt =====
-- pumps/sql_aggregate.go, graph_sql_aggregate.go, mcp_sql_aggregate.go: the three pumps of aggregates.
use tyk_pump.Base.{true, false, List, [], Option, none, some, Text, text, Int64, if◌then◌else◌}
use tyk_pump.Floats.{FloatOps}
use tyk_pump.Time.{Time}
use tyk_pump.Aggregate.State.{AnalyticsRecordAggregate}
use tyk_pump.Aggregate.Timestamp.{LastTimes}
use tyk_pump.Aggregate.Data.{Value, analytics, null, aggregate_data}
use tyk_pump.Aggregate.Graph.{GraphRecordAggregate, aggregate_graph_data}
use tyk_pump.Aggregate.Mcp.{McpRecordAggregate, aggregate_mcp_data}
use tyk_pump.Aggregate.Dimensions.{dimensions, graph_dimensions, mcp_dimensions}
use tyk_pump.Sql.Shards.{plain, by_last}
use tyk_pump.Sql.Records.{record_day}
use tyk_pump.Sql.Rows.{
  SqlAnalyticsRecordAggregate, ApiSqlAnalyticsRecordAggregate, sql_row, api_row,
}
use tyk_pump.Sql.Aggregates.{
  SqlAggregateConf, AggregateDatabase, Kind, do_aggregated_writing, write_data,
}

-- `item.(analytics.AnalyticsRecord).TimeStamp.Format`, which panics on nil.
abbrev pub value_day : Value → Option Text
value_day null = none
value_day (analytics r) = some (record_day r)

-- `aggregationTime`, in minutes.
unfoldable pub aggregation_time : SqlAggregateConf → Int64
aggregation_time conf = if conf.store_analytics_per_minute then 1 else 60

-- The three pumps. `unix` gives the seconds of a time.
module _ (fl : FloatOps) (unix : Time → Int64) (conf : SqlAggregateConf) where
  abbrev pub sql_kind : Kind Value SqlAnalyticsRecordAggregate AnalyticsRecordAggregate
  sql_kind = record {
    variant = plain;
    stops = true;
    table_name = text "tyk_aggregated";
    day = value_day;
    aggregate = λ values last.
        aggregate_data fl conf.track_all_paths conf.ignore_tag_prefix_list []
          (aggregation_time conf) values last;
    dimensions_of = dimensions fl;
    to_row = λ org_id a. sql_row (unix a.time_stamp) org_id;
  }

  abbrev pub graph_kind : Kind Value ApiSqlAnalyticsRecordAggregate GraphRecordAggregate
  graph_kind = record {
    variant = by_last;
    stops = false;
    table_name = text "tyk_graph_aggregated";
    day = value_day;
    aggregate = λ values last. aggregate_graph_data fl [] (aggregation_time conf) values last;
    dimensions_of = graph_dimensions fl;
    to_row = λ api_id g. api_row (unix g.aggregate.time_stamp) g.aggregate.org_id api_id;
  }

  abbrev pub mcp_kind : Kind Value ApiSqlAnalyticsRecordAggregate McpRecordAggregate
  mcp_kind = record {
    variant = by_last;
    stops = false;
    table_name = text "tyk_mcp_aggregated";
    day = value_day;
    aggregate = λ values last. aggregate_mcp_data fl [] (aggregation_time conf) values last;
    dimensions_of = mcp_dimensions fl;
    to_row = λ api_id a. api_row (unix a.aggregate.time_stamp) a.aggregate.org_id api_id;
  }

  -- The three `WriteData`.
  abbrev pub write_sql_aggregates :
      (db : AggregateDatabase SqlAnalyticsRecordAggregate)
      → List Value
      → LastTimes × db.State
      → Option (Option Text × (LastTimes × db.State))
  write_sql_aggregates db = write_data db conf sql_kind

  abbrev pub write_graph_aggregates :
      (db : AggregateDatabase ApiSqlAnalyticsRecordAggregate)
      → List Value
      → LastTimes × db.State
      → Option (Option Text × (LastTimes × db.State))
  write_graph_aggregates db = write_data db conf graph_kind

  abbrev pub write_mcp_aggregates :
      (db : AggregateDatabase ApiSqlAnalyticsRecordAggregate)
      → List Value
      → LastTimes × db.State
      → Option (Option Text × (LastTimes × db.State))
  write_mcp_aggregates db = write_data db conf mcp_kind

  -- `DoAggregatedWriting` of the pumps for GraphQL and MCP.
  abbrev pub write_graph_aggregate :
      (db : AggregateDatabase ApiSqlAnalyticsRecordAggregate)
      → Text
      → Text
      → GraphRecordAggregate
      → db.State
      → Option (Option Text × db.State)
  write_graph_aggregate db table api_id g =
      do_aggregated_writing db conf table (graph_kind.to_row api_id g) (graph_dimensions fl g)

  abbrev pub write_mcp_aggregate :
      (db : AggregateDatabase ApiSqlAnalyticsRecordAggregate)
      → Text
      → Text
      → McpRecordAggregate
      → db.State
      → Option (Option Text × db.State)
  write_mcp_aggregate db table api_id a =
      do_aggregated_writing db conf table (mcp_kind.to_row api_id a) (mcp_dimensions fl a)
