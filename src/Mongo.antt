-- ===== src/Mongo.antt =====
-- The pumps of MongoDB: pumps/mongo.go, and what the other ones take from it.
pub mod Sets
pub mod Batch
pub mod Selective
pub mod Insertion
pub mod Kinds
pub mod Indexes
pub mod Healing
pub mod Upserts
pub mod McpUpserts
use tyk_pump.Base.{
  ℕ, ◌+◌, ◌*◌, Bool, true, false, not, ◌&&◌, List, [], ◌∷◌, ◌++◌, Option, none, some, Text, text,
  is_empty, length, Int64, minus_one, add64, lt64, le64, ◌==◌, if◌then◌else◌,
}
use tyk_pump.Base64.{base64}
use tyk_pump.Analytics.Record.{AnalyticsRecord, is_mcp_record, is_graph_record}
use tyk_pump.Aggregate.Data.{Value, analytics, null}
use tyk_pump.Mongo.Sets.{ResultSets, Accumulator, no_sets, is_nil, accumulate_items}

-- `MongoType`
pub data MongoType : Type 0 where
  standard_mongo : MongoType
  aws_document_db : MongoType
  cosmos_db : MongoType

-- `MongoConf`, without what the driver alone reads.
pub record MongoConf : Type 0 where
  pub collection_name : Text
  pub max_insert_batch_size_bytes : Int64
  pub max_document_size_bytes : Int64
  pub collection_cap_max_size_bytes : Int64
  pub collection_cap_enable : Bool
  pub omit_index_creation : Bool
  pub mongo_db_type : MongoType

-- `MiB`, `GiB`
abbrev pub mib : Int64
mib = 1048576

abbrev pub gib : Int64
gib = 1073741824

-- The part of `Init` that fills in the limits.
unfoldable pub default_limits : MongoConf → MongoConf
default_limits conf = record conf {
  max_insert_batch_size_bytes =
      if conf.max_insert_batch_size_bytes == 0 then 10 * mib else conf.max_insert_batch_size_bytes;
  max_document_size_bytes =
      if conf.max_document_size_bytes == 0 then 10 * mib else conf.max_document_size_bytes;
}

-- `getItemSizeBytes`
unfoldable pub get_item_size_bytes : AnalyticsRecord → Int64
get_item_size_bytes r = add64 (add64 (length r.raw_request) (length r.raw_response)) 1024

abbrev pub too_large_message : Text
too_large_message = text "Document too large, not writing raw request and raw response!"

-- `handleLargeDocuments`
unfoldable pub handle_large_documents :
    MongoConf → AnalyticsRecord → Int64 → (is_graph_record : Bool) → AnalyticsRecord
handle_large_documents conf r size is_graph =
    if lt64 conf.max_document_size_bytes size && not is_graph
    then record r { raw_request = []; raw_response = base64 too_large_message }
    else r

-- `shouldProcessItem`: the record, unless it is to be skipped.
unfoldable pub should_process_item : Value → (is_for_graph_records : Bool) → Option AnalyticsRecord
should_process_item null for_graph = none
should_process_item (analytics r) for_graph =
    if r.response_code == minus_one
    then none
    else if for_graph && not (is_graph_record r)
    then none
    else some r

-- The body of the loop of `AccumulateSet` in front of `accumulate`: the item, and its size.
unfoldable pub prepare_item :
    MongoConf
    → (is_for_graph_records : Bool) → Option AnalyticsRecord
    → Option (AnalyticsRecord × Int64)
prepare_item conf for_graph none = none
prepare_item conf for_graph (some r) =
    let item = record r { collection_name = conf.collection_name } in
    let size = get_item_size_bytes item in
    some (handle_large_documents conf item size for_graph, size)

module _ (conf : MongoConf) (for_graph : Bool) where
  abbrev pub process : Value → Option (AnalyticsRecord × Int64)
  process v = prepare_item conf for_graph (should_process_item v for_graph)

  -- The test of `accumulate`
  abbrev pub is_within : Int64 → Bool
  is_within n = le64 n conf.max_insert_batch_size_bytes

  -- The open set is returned if it is the only one.
  abbrev pub finish_sets : Accumulator → ResultSets
  finish_sets s =
      if not (is_nil s.this_result_set) && is_nil s.return_array
      then s.return_array ++ (s.this_result_set ∷ [])
      else s.return_array

  -- `AccumulateSet`
  unfoldable pub accumulate_set : List Value → ResultSets
  accumulate_set data' = finish_sets (accumulate_items process is_within data' no_sets)

-- The records that `WriteData` passes over.
unfoldable pub without_mcp : List Value → List Value
without_mcp [] = []
without_mcp (null ∷ vs) = null ∷ without_mcp vs
without_mcp (analytics r ∷ vs) =
    if is_mcp_record r then without_mcp vs else analytics r ∷ without_mcp vs

-- `WriteData`: the sets that it inserts, each in a goroutine. `none` is the end of the process, where the
-- collection has no name.
unfoldable pub sets_to_write : MongoConf → List Value → Option ResultSets
sets_to_write conf data' =
    let filtered = without_mcp data' in
    if is_empty conf.collection_name
    then none
    else some (if is_nil filtered then [] else accumulate_set conf false filtered)
