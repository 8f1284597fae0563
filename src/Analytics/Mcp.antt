-- ===== src/Analytics/Mcp.antt =====
-- analytics/mcp_record.go: `MCPRecord`, a record of an MCP request.
use tyk_pump.Base.{[], Text, is_empty, if◌then◌else◌}
use tyk_pump.Analytics.Record.{AnalyticsRecord, zero_record, is_mcp_record, table_name}

pub record McpRecord : Type 0 where
  pub jsonrpc_method : Text
  pub primitive_type : Text
  pub primitive_name : Text
  pub analytics_record : AnalyticsRecord

-- `MCPRecord{}`
abbrev pub zero_mcp_record : McpRecord
zero_mcp_record = record {
  jsonrpc_method = [];
  primitive_type = [];
  primitive_name = [];
  analytics_record = zero_record;
}

-- `MCPRecord.TableName`, with the value of `MCPSQLTableName`.
abbrev pub mcp_table_name : Text → McpRecord → Text
mcp_table_name mcp_sql_table_name m =
    if is_empty mcp_sql_table_name then table_name m.analytics_record else mcp_sql_table_name

-- `ToMCPRecord`
unfoldable pub to_mcp_record : AnalyticsRecord → McpRecord
to_mcp_record a =
    if is_mcp_record a
    then record {
      analytics_record = a;
      jsonrpc_method = a.mcp_stats.jsonrpc_method;
      primitive_type = a.mcp_stats.primitive_type;
      primitive_name = a.mcp_stats.primitive_name;
    }
    else zero_mcp_record
