-- ===== src/Mongo/Upserts.antt =====
-- pumps/mongo_aggregate.go: `DoAggregatedWriting`, from the indexes to the second update.
use tyk_pump.Base.{Bool, [], ◌∷◌, Option, none, some, Text, text, Map}
use tyk_pump.Floats.{FloatOps}
use tyk_pump.Aggregate.State.{AnalyticsRecordAggregate}
use tyk_pump.Aggregate.Change.{Bson, string, date, Update, as_change, as_time_update}
use tyk_pump.Mongo.{MongoType}
use tyk_pump.Mongo.Indexes.{Driver, ensure_aggregate_indexes}
use tyk_pump.Mongo.Healing.{Documents}

-- `Upsert` of the driver: an update of the document that a query finds, or of a new one. It returns nil or an
-- error, and the document as it is then.
pub record Upserter : Type 1 where
  pub driver : Driver
  pub upsert :
      (collection : Text)
      → Map Bson
      → Update
      → driver.State
      → (Option Text × AnalyticsRecordAggregate) × driver.State

abbrev pub query_of : AnalyticsRecordAggregate → Map Bson
query_of a = (text "orgid", string a.org_id) ∷ (text "timestamp", date a.time_stamp) ∷ []

module _ (fl : FloatOps) (upserter : Upserter) (omit_index_creation : Bool) (kind : MongoType) where
  open upserter use {driver, upsert}

  -- The averages of the document that has come back, unless the first update has failed.
  abbrev pub fix_averages :
      Text
      → Map Bson
      → (Option Text × AnalyticsRecordAggregate) × driver.State
      → Option Text × driver.State
  fix_averages collection query ((some error, doc), s) = (some error, s)
  fix_averages collection query ((none, doc), s) =
      let ((error, doc'), s') = upsert collection query (as_time_update fl doc) s in (error, s')

  -- An error of `ensureIndexes` is logged.
  unfoldable pub write_document :
      Text → AnalyticsRecordAggregate → driver.State → Option Text × driver.State
  write_document collection a s =
      let s' = (ensure_aggregate_indexes driver omit_index_creation kind collection s).1 in
      fix_averages collection (query_of a) (upsert collection (query_of a) (as_change fl a) s')

  abbrev pub mongo_documents : Documents
  mongo_documents = record { State = driver.State; update = write_document }
