-- ===== src/Sql/Records.antt =====
-- pumps/sql.go, pumps/graph_sql.go, pumps/mcp_sql.go: records into the tables of their days, or into one.
pub mod Delivered
use tyk_pump.Base.{
  ℕ, Bool, true, false, not, ◌&&◌, List, [], ◌∷◌, ◌++◌, Option, none, some, ◌>>=◌, Text, text,
  Int64, ◌==◌, if◌then◌else◌,
}
use tyk_pump.Time.{format_day}
use tyk_pump.Analytics.Record.{AnalyticsRecord, is_mcp_record, is_graph_record, sql_table}
use tyk_pump.Analytics.Graph.{GraphRecord, to_graph_record}
use tyk_pump.Analytics.Mcp.{McpRecord, to_mcp_record}
use tyk_pump.Aggregate.Data.{Value, analytics, null}
use tyk_pump.Sql.Shards.{Variant, checked, by_last, Shards, shards, batches}

-- `SQLConf`, as far as `WriteData` reads it.
pub record SqlConf : Type 0 where
  pub table_sharding : Bool
  pub batch_size : ℕ

-- The part of `Init` that fills in the batch size.
unfoldable pub default_batch_size : SqlConf → SqlConf
default_batch_size conf = record conf {
  batch_size = if conf.batch_size == 0 then 1000 else conf.batch_size;
}

-- The database, as the pumps for records of `R` see it: the making of a table that is missing, and a
-- statement that inserts records, which return nil or an error. A table of no name is the one that the
-- records name.
pub record Database (R : Type 0) : Type 1 where
  pub State : Type 0
  pub ensure_table : Text → State → Option Text × State
  pub create : Option Text → List R → State → Option Text × State

module _ {R : Type 0} (db : Database R) (conf : SqlConf) where
  open db use {State, ensure_table, create}

  -- The statements of a slice; an error is logged.
  unfoldable pub create_batches : Option Text → List (List R) → State → State
  create_batches table [] s = s
  create_batches table (recs ∷ rest) s = create_batches table rest (create table recs s).1

  abbrev pub is_nil_error : Option Text → Bool
  is_nil_error none = true
  is_nil_error (some e) = false

  -- The slices one after the other. In pumps/sql.go a table that cannot be made ends the loop with its
  -- error; in the other two it is logged.
  unfoldable pub write_shards :
      (stops : Bool) → (table_name : Text) → Shards R → State → Option Text × State
  write_shards stops table_name [] s = (none, s)
  write_shards stops table_name ((none, recs) ∷ rest) s =
      write_shards stops table_name rest (create_batches none (batches conf.batch_size recs) s)
  write_shards stops table_name ((some date, recs) ∷ rest) s =
      let table = table_name ++ (text "_" ++ date) in
      let (error, s') = ensure_table table s in
      let done =
        write_shards stops table_name rest
          (create_batches (some table) (batches conf.batch_size recs) s') in
      if stops && not (is_nil_error error) then (error, s') else done

  -- A `WriteData`, once it has its records; `none` is a panic.
  unfoldable pub write_records :
      Variant
      → (stops : Bool) → (table_name : Text) → (R → Option Text)
      → List R
      → State
      → Option (Option Text × State)
  write_records variant stops table_name day [] s = some (none, s)
  write_records variant stops table_name day (r ∷ rs) s = do
    parts ← shards variant conf.table_sharding day (r ∷ rs)
    some (write_shards stops table_name parts s)

-- `typedData` of pumps/sql.go: nil and the records of MCP are passed over.
unfoldable pub typed_data : List Value → List AnalyticsRecord
typed_data [] = []
typed_data (null ∷ vs) = typed_data vs
typed_data (analytics r ∷ vs) = if is_mcp_record r then typed_data vs else r ∷ typed_data vs

abbrev pub record_day : AnalyticsRecord → Text
record_day r = format_day r.time_stamp

-- `SQLPump.WriteData`
unfoldable pub write_data :
    (db : Database AnalyticsRecord)
    → SqlConf
    → List Value
    → db.State
    → Option (Option Text × db.State)
write_data db conf data' s =
    write_records db conf checked true sql_table (λ r. some (record_day r)) (typed_data data') s

-- `getGraphRecords`
unfoldable pub get_graph_records : List Value → List GraphRecord
get_graph_records [] = []
get_graph_records (null ∷ vs) = get_graph_records vs
get_graph_records (analytics r ∷ vs) =
    if is_graph_record r then to_graph_record r ∷ get_graph_records vs else get_graph_records vs

abbrev pub graph_day : GraphRecord → Text
graph_day g = record_day g.analytics_record

-- `GraphSQLPump.WriteData`, with the name of its table.
unfoldable pub write_graph_data :
    (db : Database GraphRecord)
    → SqlConf
    → Text
    → List Value
    → db.State
    → Option (Option Text × db.State)
write_graph_data db conf table_name data' s =
    write_records db conf by_last false table_name (λ g. some (graph_day g))
      (get_graph_records data') s

-- `getMCPRecords`
unfoldable pub get_mcp_records : List Value → List McpRecord
get_mcp_records [] = []
get_mcp_records (null ∷ vs) = get_mcp_records vs
get_mcp_records (analytics r ∷ vs) =
    if is_mcp_record r then to_mcp_record r ∷ get_mcp_records vs else get_mcp_records vs

abbrev pub mcp_day : McpRecord → Text
mcp_day m = record_day m.analytics_record

-- `MCPSQLPump.WriteData`, with the name of its table.
unfoldable pub write_mcp_data :
    (db : Database McpRecord)
    → SqlConf
    → Text
    → List Value
    → db.State
    → Option (Option Text × db.State)
write_mcp_data db conf table_name data' s =
    write_records db conf by_last false table_name (λ m. some (mcp_day m)) (get_mcp_records data') s
