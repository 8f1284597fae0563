-- ===== src/Mongo/McpUpserts.antt =====
-- pumps/mcp_mongo_aggregate.go and analytics/aggregate_mcp.go: the documents of MCP aggregates, from
-- `WriteData` to the second update.
pub mod Mirrored
use tyk_pump.Base.{
  Bool, true, false, ◌||◌, List, [], ◌∷◌, ◌++◌, Option, none, some, ◌>>=◌, Text, text, same, Int64,
  ◌==◌, Map, if◌then◌else◌,
}
use tyk_pump.Floats.{FloatOps}
use tyk_pump.Aggregate.Counter.{Counter}
use tyk_pump.Aggregate.Timestamp.{LastTimes}
use tyk_pump.Aggregate.Data.{Value}
use tyk_pump.Aggregate.Mcp.{McpRecordAggregate, mcp_aggregate_table_name, aggregate_mcp_data}
use tyk_pump.Aggregate.Dimensions.{DimensionEntry, mcp_dimensions}
use tyk_pump.Aggregate.Change.{
  Bson, number, real, string, date, Update, put_all, put_lists, errors_of, error_fields, max_fields,
  min_fields, made, as_change, as_time_update,
}
use tyk_pump.Mongo.{MongoType}
use tyk_pump.Mongo.Indexes.{Driver, ensure_aggregate_indexes}
use tyk_pump.Mongo.Healing.{MongoAggregateConf}

-- `mcpDimensionNames`
unfoldable pub is_mcp_dimension : Text → Bool
is_mcp_dimension name =
    same name (text "methods") || same name (text "primitives") || same name (text "names")

abbrev pub mcp_inc_fields : Counter → Map Bson
mcp_inc_fields c =
    (text "hits", number c.hits)
    ∷ (text "errortotal", number c.error_total)
    ∷ (text "success", number c.success)
    ∷ (text "totalrequesttime", real c.total_request_time)
    ∷ (text "totallatency", number c.total_latency)
    ∷ (text "totalupstreamlatency", number c.total_upstream_latency)
    ∷ error_fields (errors_of c.error_map)

abbrev pub mcp_set_fields : Counter → Map Bson
mcp_set_fields c =
    (text "identifier", string c.identifier)
    ∷ (text "humanidentifier", string c.human_identifier)
    ∷ (text "lasttime", date c.last_time)
    ∷ []

-- `prefix`
abbrev pub prefix_of : DimensionEntry → Text
prefix_of d = d.name ++ (text "." ++ (d.value ++ text "."))

-- A round of the loop of `addMCPDimensionUpdates` that is not passed over.
unfoldable pub add_dimension_update : DimensionEntry → Update → Update
add_dimension_update d u = record {
  inc = put_all (prefix_of d) (mcp_inc_fields d.counter) u.inc;
  set = put_all (prefix_of d) (mcp_set_fields d.counter) u.set;
  max = put_all (prefix_of d) (max_fields d.counter) u.max;
  min =
      if d.counter.hits == d.counter.error_total
      then u.min
      else some (put_all (prefix_of d) (min_fields d.counter) (made u.min));
}

-- `addMCPDimensionUpdates`, over the dimensions.
unfoldable pub add_mcp_dimension_updates : List DimensionEntry → Update → Update
add_mcp_dimension_updates [] u = u
add_mcp_dimension_updates (d ∷ ds) u =
    if is_mcp_dimension d.name
    then add_mcp_dimension_updates ds (add_dimension_update d u)
    else add_mcp_dimension_updates ds u

-- `Upsert` of the driver: an update of the document that a query finds, or of a new one. It returns nil or an
-- error, and the document as it is then.
pub record McpUpserter : Type 1 where
  pub driver : Driver
  pub upsert :
      (collection : Text)
      → Map Bson
      → Update
      → driver.State
      → (Option Text × McpRecordAggregate) × driver.State

abbrev pub mcp_query_of : McpRecordAggregate → Map Bson
mcp_query_of a =
    (text "orgid", string a.aggregate.org_id)
    ∷ (text "timestamp", date a.aggregate.time_stamp)
    ∷ (text "owner_apiid", string a.owner_api_id)
    ∷ []

module _ (fl : FloatOps) where
  -- `updateDoc`
  unfoldable pub mcp_update : McpRecordAggregate → Update
  mcp_update a = add_mcp_dimension_updates (mcp_dimensions fl a) (as_change fl a.aggregate)

  -- `MCPRecordAggregate.AsTimeUpdate`
  unfoldable pub mcp_as_time_update : McpRecordAggregate → Update
  mcp_as_time_update a =
      let u = as_time_update fl a.aggregate in
      record u {
        set =
            put_lists fl
              ((text "methods", a.methods)
                ∷ (text "primitives", a.primitives)
                ∷ (text "names", a.names)
                ∷ [])
              u.set;
      }

  module _ (upserter : McpUpserter) (omit_index_creation : Bool) (kind : MongoType) where
    open upserter use {driver, upsert}

    -- The averages of the document that has come back, unless the first update has failed.
    abbrev pub fix_mcp_averages :
        Text
        → Map Bson
        → (Option Text × McpRecordAggregate) × driver.State
        → Option Text × driver.State
    fix_mcp_averages collection query ((some error, doc), s) = (some error, s)
    fix_mcp_averages collection query ((none, doc), s) =
        let ((error, doc'), s') = upsert collection query (mcp_as_time_update doc) s in (error, s')

    -- `DoMCPAggregatedWriting`, with `upsertMCPAggregate`. An error of `ensureIndexes` is logged.
    unfoldable pub do_mcp_aggregated_writing :
        McpRecordAggregate → (mixed : Bool) → driver.State → Option Text × driver.State
    do_mcp_aggregated_writing a mixed s =
        let a' = record a { aggregate = record (a.aggregate) { mixed = mixed } } in
        let collection = mcp_aggregate_table_name a' in
        let s' = (ensure_aggregate_indexes driver omit_index_creation kind collection s).1 in
        fix_mcp_averages collection (mcp_query_of a')
          (upsert collection (mcp_query_of a') (mcp_update a') s')

    -- What follows, unless there is an error.
    abbrev pub unless_failed :
        Option Text × driver.State
        → (driver.State → Option Text × driver.State)
        → Option Text × driver.State
    unless_failed (none, s) next = next s
    unless_failed (some error, s) next = (some error, s)

    -- The two loops of `WriteData`, up to the first error. A map's order is not fixed; here it is that of
    -- the first records.
    unfoldable pub write_mcp_attempts :
        List Bool → McpRecordAggregate → driver.State → Option Text × driver.State
    write_mcp_attempts [] a s = (none, s)
    write_mcp_attempts (mixed ∷ attempts) a s =
        unless_failed (do_mcp_aggregated_writing a mixed s) (write_mcp_attempts attempts a)

    unfoldable pub write_mcp_documents :
        List Bool → Map McpRecordAggregate → driver.State → Option Text × driver.State
    write_mcp_documents attempts [] s = (none, s)
    write_mcp_documents attempts ((api_id, a) ∷ aggregates) s =
        unless_failed (write_mcp_attempts attempts a s) (write_mcp_documents attempts aggregates)

    -- `WriteData`; `none` is a panic.
    unfoldable pub write_mcp_documents_of :
        MongoAggregateConf
        → (aggregation_time : Int64) → List Value
        → LastTimes × driver.State
        → Option (Option Text × (LastTimes × driver.State))
    write_mcp_documents_of conf aggregation_time values (last, s) = do
      (aggregates, last') ← aggregate_mcp_data fl conf.mongo_url aggregation_time values last
      let attempts = (if conf.use_mixed_collection then false ∷ true ∷ [] else false ∷ [])
      let (error, s') = write_mcp_documents attempts aggregates s
      some (error, (last', s'))
