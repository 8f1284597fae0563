-- ===== src/Aggregate/Mcp.antt =====
-- analytics/aggregate_mcp.go: `AggregateMCPData`, a batch of records into one aggregate for each API.
pub mod Sums
pub mod Ready
pub mod Batch
use tyk_pump.Base.{
  ℕ, Bool, true, false, not, ◌&&◌, List, [], ◌∷◌, ◌++◌, Option, none, some, ◌>>=◌, for_each, Text,
  text, is_empty, Map, lookup, insert, if◌then◌else◌,
}
use tyk_pump.Floats.{FloatOps}
use tyk_pump.Time.{Time}
use tyk_pump.Analytics.Record.{AnalyticsRecord, is_mcp_record}
use tyk_pump.Analytics.Fields.{fields}
use tyk_pump.Analytics.Mcp.{McpRecord, to_mcp_record}
use tyk_pump.Aggregate.Counter.{Counter}
use tyk_pump.Aggregate.State.{AnalyticsRecordAggregate, new}
use tyk_pump.Aggregate.Timestamp.{LastTimes, set_aggregate_timestamp}
use tyk_pump.Aggregate.Increment.{increment_aggregate}
use tyk_pump.Aggregate.Named.{add_named}
use tyk_pump.Aggregate.Data.{Value, analytics, null, start_aggregate, Progress}

pub record McpRecordAggregate : Type 0 where
  pub aggregate : AnalyticsRecordAggregate
  pub owner_api_id : Text
  pub methods : Map Counter
  pub primitives : Map Counter
  pub names : Map Counter

-- `MCPRecordAggregate.TableName`
unfoldable pub mcp_aggregate_table_name : McpRecordAggregate → Text
mcp_aggregate_table_name a =
    if a.aggregate.mixed
    then text "tyk_mcp_analytics_aggregate"
    else text "z_tyk_mcp_analyticz_aggregate_" ++ a.aggregate.org_id

-- `NewMCPRecordAggregate`
abbrev pub new_mcp : McpRecordAggregate
new_mcp = record { aggregate = new; owner_api_id = []; methods = []; primitives = []; names = [] }

-- `initMCPAggregateForRecord`
unfoldable pub init_mcp_aggregate_for_record :
    AnalyticsRecord → Text → ℕ → LastTimes → McpRecordAggregate × LastTimes
init_mcp_aggregate_for_record r db minutes last =
    let (stamp, last') = set_aggregate_timestamp db r.time_stamp minutes last in
    (record new_mcp { aggregate = start_aggregate r stamp; owner_api_id = r.api_id }, last')

-- The aggregate that was found, or a new one.
unfoldable pub resume_mcp :
    Text
    → ℕ
    → Option McpRecordAggregate
    → AnalyticsRecord
    → LastTimes
    → McpRecordAggregate × LastTimes
unfolding init_mcp_aggregate_for_record
resume_mcp db minutes (some a) r last = (a, last)
resume_mcp db minutes none r last = init_mcp_aggregate_for_record r db minutes last

-- The key of a primitive's name: with its type in front, where it has one.
unfoldable pub name_label : McpRecord → Text
name_label m =
    if is_empty m.primitive_type
    then m.primitive_name
    else m.primitive_type ++ text "_" ++ m.primitive_name

module _ (fl : FloatOps) where
  -- Nothing is counted under an empty name.
  unfoldable pub add_if_named : Counter → Text → Text → Map Counter → Option (Map Counter)
  add_if_named counter name key m =
      if is_empty name then some m else add_named fl counter key name m

  -- `incrementMCPDimensions`
  unfoldable pub increment_mcp_dimensions :
      McpRecordAggregate → Counter → McpRecord → Option McpRecordAggregate
  increment_mcp_dimensions a counter m = do
    methods' ← add_if_named counter m.jsonrpc_method m.jsonrpc_method a.methods
    primitives' ← add_if_named counter m.primitive_type m.primitive_type a.primitives
    names' ← add_if_named counter m.primitive_name (name_label m) a.names
    some (record a { methods = methods'; primitives = primitives'; names = names' })

  module _ (db : Text) (minutes : ℕ) where
    unfoldable pub add_mcp_record :
        AnalyticsRecord → Progress McpRecordAggregate → Option (Progress McpRecordAggregate)
    add_mcp_record r (m, last) = do
      let rec = to_mcp_record r
      let (a, last') = resume_mcp db minutes (lookup r.api_id m) r last
      (b, c) ← increment_aggregate fl fields a.aggregate rec.analytics_record false []
      d ← increment_mcp_dimensions (record a { aggregate = b }) c rec
      some (insert r.api_id d m, last')

    -- One round of the loop: what is no record, or no MCP record, is passed over.
    unfoldable pub add_mcp_value :
        Value → Progress McpRecordAggregate → Option (Progress McpRecordAggregate)
    unfolding add_mcp_record
    add_mcp_value null s = some s
    add_mcp_value (analytics r) s = if is_mcp_record r then add_mcp_record r s else some s

    -- `AggregateMCPData`
    unfoldable pub aggregate_mcp_data :
        List Value → LastTimes → Option (Progress McpRecordAggregate)
    aggregate_mcp_data values last = for_each add_mcp_value values ([], last)
