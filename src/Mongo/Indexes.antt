-- ===== src/Mongo/Indexes.antt =====
-- pumps/mongo.go, pumps/mongo_selective.go, pumps/mongo_aggregate.go: the collections and their indexes.
use tyk_pump.Base.{
  Bool, true, false, List, [], ◌∷◌, Option, none, some, Text, text, contains, Int64, minus_one, ◌*◌,
  ◌==◌, if◌then◌else◌,
}
use tyk_pump.Mongo.{MongoConf, MongoType, standard_mongo, aws_document_db, cosmos_db, gib}

-- `model.Index`, whose keys are fields with 1 or -1.
pub record Index : Type 0 where
  pub name : Text
  pub keys : List (Text × Int64)
  pub is_ttl_index : Bool
  pub background : Bool

abbrev pub is_standard : MongoType → Bool
is_standard standard_mongo = true
is_standard aws_document_db = false
is_standard cosmos_db = false

abbrev pub is_cosmos : MongoType → Bool
is_cosmos standard_mongo = false
is_cosmos aws_document_db = false
is_cosmos cosmos_db = true

-- An index of one field.
abbrev pub index_of : Text → Bool → Bool → Index
index_of field ttl background = record {
  name = [];
  keys = (field, 1) ∷ [];
  is_ttl_index = ttl;
  background = background;
}

abbrev pub log_browser_index : List (Text × Int64) → Bool → Index
log_browser_index fields background = record {
  name = text "logBrowserIndex";
  keys = fields;
  is_ttl_index = false;
  background = background;
}

-- The indexes of the three pumps, in order.
unfoldable pub mongo_indexes : MongoType → List Index
mongo_indexes kind =
    index_of (text "orgid") false (is_standard kind)
    ∷ index_of (text "apiid") false (is_standard kind)
    ∷ log_browser_index
        ((text "timestamp", minus_one)
          ∷ (text "orgid", 1)
          ∷ (text "apiid", 1)
          ∷ (text "apikey", 1)
          ∷ (text "responsecode", 1)
          ∷ [])
        (is_standard kind)
    ∷ []

-- Cosmos DB has no index of expiry.
unfoldable pub selective_indexes : MongoType → List Index
selective_indexes kind =
    let browser =
      log_browser_index
        ((text "timestamp", minus_one)
          ∷ (text "apiid", 1)
          ∷ (text "apikey", 1)
          ∷ (text "responsecode", 1)
          ∷ [])
        (is_standard kind) in
    index_of (text "apiid") false (is_standard kind)
    ∷ (if is_cosmos kind
        then browser ∷ []
        else index_of (text "expireAt") true (is_standard kind) ∷ browser ∷ [])

unfoldable pub aggregate_indexes : MongoType → List Index
aggregate_indexes kind =
    let rest =
      index_of (text "timestamp") false (is_standard kind)
      ∷ index_of (text "orgid") false (is_standard kind)
      ∷ [] in
    if is_cosmos kind then rest else index_of (text "expireAt") true (is_standard kind) ∷ rest

-- The store of the driver: whether a collection exists, or an error, and the making of an index and of a
-- capped collection, which return nil or an error.
pub record Driver : Type 1 where
  pub State : Type 0
  pub has_table : Text → State → Option Bool × State
  pub create_index : Text → Index → State → Option Text × State
  pub migrate_capped : Text → Int64 → State → Option Text × State

module _ (driver : Driver) where
  open driver use {State, has_table, create_index, migrate_capped}

  -- The indexes one after the other, up to the first error.
  unfoldable pub create_indexes : Text → List Index → State → Option Text × State
  create_indexes collection [] s = (none, s)
  create_indexes collection (i ∷ is) s =
      let (error, s') = create_index collection i s in
      elim error [ none ↦ create_indexes collection is s' | some e ↦ (some e, s') ]

  -- In pumps/mongo_selective.go the last index may exist under another name.
  abbrev pub forgive : Option Text → Option Text
  forgive none = none
  forgive (some e) =
      if contains e (text "already exists with a different name") then none else some e

  unfoldable pub create_selective_indexes : Text → List Index → State → Option Text × State
  create_selective_indexes collection [] s = (none, s)
  create_selective_indexes collection (i ∷ []) s =
      let (error, s') = create_index collection i s in (forgive error, s')
  create_selective_indexes collection (i ∷ j ∷ is) s =
      let (error, s') = create_index collection i s in
      elim error [ none ↦ create_selective_indexes collection (j ∷ is) s' | some e ↦ (some e, s') ]

  abbrev pub is_there : Option Bool → Bool
  is_there none = false
  is_there (some b) = b

  -- `ensureIndexes`: nothing is made where the indexes are omitted, or where a collection of MongoDB itself
  -- is known to exist.
  abbrev pub ensure_if_missing :
      (omit_index_creation : Bool)
      → MongoType
      → Text
      → (State → Option Text × State)
      → State
      → Option Text × State
  ensure_if_missing omit kind collection create s =
      let (exists, s') = has_table collection s in
      if omit
      then (none, s)
      else if is_standard kind
      then if is_there exists then (none, s') else create s'
      else create s

  -- The three pumps' `ensureIndexes`
  unfoldable pub ensure_indexes : Bool → MongoType → Text → State → Option Text × State
  ensure_indexes omit kind collection s =
      ensure_if_missing omit kind collection (create_indexes collection (mongo_indexes kind)) s

  unfoldable pub ensure_selective_indexes : Bool → MongoType → Text → State → Option Text × State
  ensure_selective_indexes omit kind collection s =
      ensure_if_missing omit kind collection
        (create_selective_indexes collection (selective_indexes kind)) s

  unfoldable pub ensure_aggregate_indexes : Bool → MongoType → Text → State → Option Text × State
  ensure_aggregate_indexes omit kind collection s =
      ensure_if_missing omit kind collection (create_indexes collection (aggregate_indexes kind)) s

  abbrev pub is_nil_error : Option Text → Bool
  is_nil_error none = true
  is_nil_error (some e) = false

  -- The size of the capped collection: 5 GiB where none is given.
  abbrev pub cap_size : MongoConf → Int64
  cap_size conf =
      if conf.collection_cap_max_size_bytes == 0
      then 5 * gib
      else conf.collection_cap_max_size_bytes

  -- What `capCollection` does once it knows whether the collection exists: an error is taken for one that
  -- does. Go's `int` has 64 bits here.
  unfoldable pub cap_where_missing : MongoConf → Option Bool → State → Bool × State
  cap_where_missing conf none s = (false, s)
  cap_where_missing conf (some true) s = (false, s)
  cap_where_missing conf (some false) s =
      let (error, s') = migrate_capped conf.collection_name (cap_size conf) s in
      (is_nil_error error, s')

  -- `capCollection`
  unfoldable pub cap_collection : MongoConf → State → Bool × State
  cap_collection conf s =
      let (exists, s') = has_table conf.collection_name s in
      if conf.collection_cap_enable then cap_where_missing conf exists s' else (false, s)
