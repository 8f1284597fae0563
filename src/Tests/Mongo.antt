-- ===== src/Tests/Mongo.antt =====
-- Tests of the pumps of MongoDB.
use tyk_pump.Base.{
  concat, ℕ, suc, ◌≡◌, refl, ◌⊎◌, true, false, List, [], ◌∷◌, ◌++◌, map, none, some, All, text,
  length, le64, lt64, add64, any, arith, ◌<◌,
}
use tyk_pump.Aggregate.Data.{Value, analytics}
use tyk_pump.Mongo.{
  MongoConf, standard_mongo, accumulate_set, prepare_item, should_process_item, get_item_size_bytes,
  handle_large_documents,
}
use tyk_pump.Mongo.Sets.{accumulate_items, accumulate_item, accumulate_if}
use tyk_pump.Mongo.Sets.Bounds.{IsResultSet}
use tyk_pump.Mongo.Batch.{
  left_over, to_write, accumulate_set-documents, record_size, accumulate_set-IsResultSet,
}
use tyk_pump.Mongo.Selective.{
  MongoSelectiveConf, process_item, accumulate_set as accumulate_set',
  prepare_item as prepare_item', get_item_size_bytes as get_item_size_bytes',
}
use tyk_pump.Mongo.Selective.Collections.{
  left_over as left_over', to_write as to_write', accumulate_set-selective,
}
use tyk_pump.Mongo.Insertion.{
  Outcome, Writer, inserting, sending_again, finished, returned, State, after_send, after_receive,
  Step, insert, send, send_again, receive, finish, Reach, here, next,
}
use tyk_pump.Mongo.Insertion.Reported.{is_error, write_data_reports}
use tyk_pump.Mongo.Insertion.Progress.{work, write_data_returns}
use tyk_pump.Floats.{whole}
use tyk_pump.Mongo.Healing.{MongoAggregateConf, Documents, Healed, set_aggregation_time, write_data}
use tyk_pump.Mongo.Healing.Ends.{EndsWithin, write_data_heals}
use tyk_pump.Tests.Samples.{hit, missing, report}

-- Sets of at most 3000 bytes: two of the records.
abbrev small_sets : MongoConf
small_sets = record {
  collection_name = text "c";
  max_insert_batch_size_bytes = 3000;
  max_document_size_bytes = 2000;
  collection_cap_max_size_bytes = 0;
  collection_cap_enable = false;
  omit_index_creation = false;
  mongo_db_type = standard_mongo;
}

abbrev three : List Value
three = map analytics (hit ∷ missing ∷ hit ∷ [])

accumulate_set-documents_example :
    concat (accumulate_set small_sets false three) ++ left_over small_sets false three
    ≡ to_write small_sets false three
accumulate_set-documents_example = accumulate_set-documents small_sets false three

accumulate_set-IsResultSet_example :
    All (IsResultSet record_size 3000) (accumulate_set small_sets false three)
accumulate_set-IsResultSet_example =
    accumulate_set-IsResultSet small_sets false three (omega arith) (omega arith) (omega arith)
      (omega arith, (omega arith, (omega arith, tt)))

-- A report at the end: the third record is in no set.
third_lost :
    map length (accumulate_set small_sets false (three ++ (analytics report ∷ []))) ≡ 2 ∷ []
unfolding accumulate_set accumulate_items accumulate_item accumulate_if prepare_item
    should_process_item get_item_size_bytes handle_large_documents add64 le64 lt64
third_lost = refl

abbrev selective : MongoSelectiveConf
selective = record { max_insert_batch_size_bytes = 3000; max_document_size_bytes = 2000 }

accumulate_set-selective_example :
    concat (accumulate_set' selective (text "c") three) ++ left_over' selective (text "c") three
    ≡ to_write' selective (text "c") three
accumulate_set-selective_example = accumulate_set-selective selective (text "c") three

-- A report at the end: no record is in a set.
all_lost : accumulate_set' selective (text "c") (analytics hit ∷ analytics report ∷ []) ≡ []
unfolding accumulate_set' accumulate_items accumulate_item accumulate_if prepare_item' process_item
    get_item_size_bytes' add64 lt64
all_lost = refl

-- Two sets, of which the second cannot be inserted.
abbrev outcomes : List Outcome
outcomes = none ∷ some (text "e") ∷ []

-- A run in which the failing goroutine is the first.
abbrev failing_run : State
failing_run = record {
  writers = inserting none ∷ sending_again ∷ [];
  channel = [];
  reader = returned (some (text "e"));
}

failing-Reach : Reach true outcomes failing_run
unfolding after_send after_receive
failing-Reach =
    next
      (next (next here (insert (inserting none ∷ []) [] (some (text "e")) refl refl))
        (send (inserting none ∷ []) [] (some (text "e")) refl (omega arith) refl))
      (receive 1 (some (text "e")) [] refl refl refl)

write_data_reports_example : is_error (some (text "e")) ≡ any is_error outcomes
write_data_reports_example = write_data_reports true outcomes (some (text "e")) failing-Reach refl

write_data_returns_example :
    (((o : Outcome) × (failing_run.reader ≡ returned o))
      ⊎ ((t : State) × Step true 2 failing_run t))
    × ((t : State) → Step true 2 failing_run t → work t < work failing_run)
write_data_returns_example = write_data_returns true outcomes failing_run failing-Reach

-- Both insertions fail: once `WriteData` has returned, the second goroutine waits for good.
abbrev both_fail : List Outcome
both_fail = some (text "e") ∷ some (text "f") ∷ []

abbrev leak : State
leak = record {
  writers = finished ∷ sending_again ∷ [];
  channel = none ∷ some (text "f") ∷ [];
  reader = returned (some (text "e"));
}

leak-Reach : Reach true both_fail leak
unfolding after_send after_receive
leak-Reach =
    next
      (next
        (next
          (next
            (next
              (next here (insert [] (inserting (some (text "f")) ∷ []) (some (text "e")) refl refl))
              (send [] (inserting (some (text "f")) ∷ []) (some (text "e")) refl (omega arith)
                refl))
            (receive 1 (some (text "e")) [] refl refl refl))
          (send_again [] (inserting (some (text "f")) ∷ []) refl (omega arith) refl))
        (insert (finished ∷ []) [] (some (text "f")) refl refl))
      (send (finished ∷ []) [] (some (text "f")) refl (omega arith) refl)

no_inserting : (ws us : List Writer) (o : Outcome) → leak.writers ≡ ws ++ (inserting o ∷ us) → ⊥
no_inserting [] us o e = cc
no_inserting (w ∷ []) us o e = cc
no_inserting (w ∷ v ∷ []) us o e = cc
no_inserting (w ∷ v ∷ x ∷ ws) us o e = cc

leak_waits : (t : State) → Step true 2 leak t → ⊥
leak_waits t (insert ws us o w e) = no_inserting ws us o w
leak_waits t (send ws us o w c e) = absurd (omega arith)
leak_waits t (send_again ws us w c e) = absurd (omega arith)
leak_waits t (receive k o os r c e) = cc
leak_waits t (finish r e) = cc

-- A store that finds every document too large, and counts the updates.
abbrev full : Documents
full = record {
  State = ℕ;
  update = λ collection a n. (some (text "Request size is too large"), suc n);
}

abbrev healing : MongoAggregateConf
healing = record {
  mongo_url = text "db";
  use_mixed_collection = false;
  track_all_paths = false;
  ignore_tag_prefix_list = [];
  store_analytics_per_minute = false;
  enable_aggregate_self_healing = true;
  ignore_aggregations_list = [];
}

abbrev before : Healed ℕ
before = record { aggregation_time = 60; last_times = []; store = 0 }

hour : before.aggregation_time ≡ set_aggregation_time healing 0
unfolding set_aggregation_time lt64
hour = refl

write_data_heals_example :
    EndsWithin 60 (write_data healing full whole (analytics hit ∷ []) 6 before)
write_data_heals_example =
    write_data_heals healing full whole (analytics hit ∷ []) 0 before (omega arith) hour
