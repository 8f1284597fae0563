-- ===== src/Mongo/Selective.antt =====
-- pumps/mongo_selective.go: the records of a batch by the collection of their organisation, and in sets.
pub mod Collections
use tyk_pump.Base.{
  Bool, true, false, List, [], ◌∷◌, ◌++◌, map, Option, none, some, ◌>>=◌, for_each, Text, text,
  is_empty, length, Int64, minus_one, add64, lt64, ◌==◌, Map, lookup, insert, if◌then◌else◌,
}
use tyk_pump.Analytics.Record.{AnalyticsRecord, is_mcp_record}
use tyk_pump.Aggregate.Data.{Value, analytics, null}
use tyk_pump.Mongo.Sets.{ResultSets, Accumulator, no_sets, accumulate_items}

-- `MongoSelectiveConf`, without what the driver alone reads.
pub record MongoSelectiveConf : Type 0 where
  pub max_insert_batch_size_bytes : Int64
  pub max_document_size_bytes : Int64

-- `GetCollectionName`; `none` is the error.
unfoldable pub get_collection_name : Text → Option Text
get_collection_name org_id =
    if is_empty org_id then none else some (text "z_tyk_analyticz_" ++ org_id)

-- `processItem`
unfoldable pub process_item : Value → Option AnalyticsRecord
process_item null = none
process_item (analytics r) = if r.response_code == minus_one then none else some r

-- `getItemSizeBytes`: -1 for a document that is too large.
unfoldable pub get_item_size_bytes : MongoSelectiveConf → AnalyticsRecord → Int64
get_item_size_bytes conf r =
    let size = add64 (add64 (length r.raw_request) (length r.raw_response)) 1024 in
    if lt64 conf.max_document_size_bytes size then minus_one else size

-- The body of the loop of `AccumulateSet`, with the first test of `accumulate`, which passes over an
-- item of a negative size.
unfoldable pub prepare_item :
    MongoSelectiveConf → Text → Option AnalyticsRecord → Option (AnalyticsRecord × Int64)
prepare_item conf collection none = none
prepare_item conf collection (some r) =
    let item = record r { collection_name = collection } in
    let size = get_item_size_bytes conf item in if lt64 size 0 then none else some (item, size)

module _ (conf : MongoSelectiveConf) (collection : Text) where
  abbrev pub process : Value → Option (AnalyticsRecord × Int64)
  process v = prepare_item conf collection (process_item v)

  -- The test of the limit in `accumulate`
  abbrev pub is_within : Int64 → Bool
  is_within n = lt64 n conf.max_insert_batch_size_bytes

  abbrev pub final : List Value → Accumulator
  final data' = accumulate_items process is_within data' no_sets

  -- `AccumulateSet`
  unfoldable pub accumulate_set : List Value → ResultSets
  accumulate_set data' = (final data').return_array

-- What is already in a collection, and the item.
abbrev pub append_to : Option (List Value) → Value → List Value
append_to none v = v ∷ []
append_to (some vs) v = vs ++ (v ∷ [])

unfoldable pub add_to_collection : Option Text → Value → Map (List Value) → Map (List Value)
add_to_collection none v m = m
add_to_collection (some name) v m = insert name (append_to (lookup name m) v) m

-- A round of the first loop of `WriteData`; `v.(AnalyticsRecord)` panics on nil.
unfoldable pub collect : Value → Map (List Value) → Option (Map (List Value))
collect null m = none
collect (analytics r) m = some (
    if is_mcp_record r then m else add_to_collection (get_collection_name r.org_id) (analytics r) m)

-- `analyticsPerOrg`
unfoldable pub analytics_per_org : List Value → Option (Map (List Value))
analytics_per_org data' = for_each collect data' []

-- `WriteData`: the sets that are inserted into each collection.
unfoldable pub sets_to_write : MongoSelectiveConf → List Value → Option (List (Text × ResultSets))
sets_to_write conf data' = do
  per_org ← analytics_per_org data'
  some (map (λ p. (p.0, accumulate_set conf p.0 p.1)) per_org)
