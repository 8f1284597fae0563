-- ===== src/Mongo/Batch.antt =====
-- pumps/mongo.go: what is in the sets of `AccumulateSet`, and how large they are.
use mathlib.Core.List.{append-nil}
use tyk_pump.Base.{
  concat, ◌≡◌, refl, ap, ◌∙◌, ◌<◌, ◌≤◌, ◌+◌, ℕ, Bool, true, false, not, ◌&&◌, List, [], ◌∷◌, ◌++◌,
  Option, none, some, Bool-cases, inl, inr, minus_one, ◌==◌, ◌⊎◌, if_false, All, length, Int64,
  add64, lt64, le64, if◌then◌else◌, arith,
}
use tyk_pump.Base64.{base64}
use tyk_pump.Analytics.Record.{AnalyticsRecord, is_graph_record}
use tyk_pump.Aggregate.Data.{Value, analytics, null}
use tyk_pump.Mongo.Sets.{
  ResultSets, Accumulator, no_sets, is_nil, accumulate_items, documents, ends_accepted,
}
use tyk_pump.Mongo.Sets.Bounds.{IsResultSet, IsSized, IsBounded, items-IsBounded, no_sets-IsBounded}
use tyk_pump.Mongo.Sets.Kept.{kept_items, held_items, is_nil-items}
use tyk_pump.Mongo.{
  MongoConf, too_large_message, handle_large_documents, prepare_item, should_process_item,
  get_item_size_bytes, process, is_within, finish_sets, accumulate_set,
}

module _ (conf : MongoConf) (for_graph : Bool) where
  abbrev pub final : List Value → Accumulator
  final vs = accumulate_items (process conf for_graph) (is_within conf for_graph) vs no_sets

  -- What the code leaves in the open set: nothing if the last item is not passed over, or if the open set
  -- is the only one.
  unfoldable pub left_over : List Value → List AnalyticsRecord
  left_over vs =
      if ends_accepted (process conf for_graph) (is_within conf for_graph) vs
      then []
      else if is_nil (final vs).return_array
      then []
      else (final vs).this_result_set

  -- The records that are to be written, in order.
  abbrev pub to_write : List Value → List AnalyticsRecord
  to_write = documents (process conf for_graph) (is_within conf for_graph)

  finish : Accumulator → ResultSets
  finish = finish_sets conf for_graph

  concat-finish :
      (s : Accumulator)
      → concat (finish s)
        ≡ (if is_nil s.return_array then s.this_result_set else concat s.return_array)
  unfolding finish
  concat-finish s = by_set s.this_result_set s.return_array
    where
      by_set :
          (rs : List AnalyticsRecord) (sets : ResultSets)
          → concat (if not (is_nil rs) && is_nil sets then sets ++ (rs ∷ []) else sets)
            ≡ (if is_nil sets then rs else concat sets)
      by_set [] [] = refl
      by_set (r ∷ rs) [] = append-nil (r ∷ rs)
      by_set [] (x ∷ sets) = refl
      by_set (r ∷ rs) (x ∷ sets) = refl

  -- Where the last item is passed over.
  with_rest :
      (rs : List AnalyticsRecord) (sets : ResultSets)
      → (if is_nil sets then rs else concat sets) ++ (if is_nil sets then [] else rs)
        ≡ concat sets ++ rs
  with_rest rs [] = append-nil rs
  with_rest rs (x ∷ sets) = refl

  -- The sets of `AccumulateSet` hold the records that are to be written, in order, each once: all of them,
  -- unless the last item of the data is passed over and a set has been completed before. Then those of the
  -- open set are missing.
  pub accumulate_set-documents :
      (vs : List Value) → concat (accumulate_set conf for_graph vs) ++ left_over vs ≡ to_write vs
  unfolding accumulate_set left_over finish
  accumulate_set-documents vs =
      elim (Bool-cases (ends_accepted (process conf for_graph) (is_within conf for_graph) vs)) [
        | inl e ↦ rw e (
            append-nil _
            ∙ concat-finish (final vs)
            ∙ if_false (is_nil (final vs).return_array) _ _ (is_nil-items _ _ vs no_sets e)
            ∙ kept_items _ _ vs no_sets e)
        | inr e ↦ rw e (
            ap
              (λ t.
                t ++ (if is_nil (final vs).return_array then [] else (final vs).this_result_set))
              (concat-finish (final vs))
            ∙ with_rest (final vs).this_result_set (final vs).return_array
            ∙ held_items _ _ vs no_sets e)
      ]

-- The bytes that the code counts for a record.
abbrev pub record_size : AnalyticsRecord → ℕ
record_size r = length r.raw_request + length r.raw_response + 1024

-- A record whose size is far below the greatest `int`.
abbrev pub IsModest : Value → Type 0
IsModest null = Unit
IsModest (analytics r) = record_size r < 4611686018427387904

module _ (conf : MongoConf) (for_graph : Bool) where
  message_size : length (base64 too_large_message) ≡ 84
  unfolding base64
  message_size = refl

  record_size-large :
      (r : AnalyticsRecord) (size : Int64)
      → 1108 ≤ conf.max_document_size_bytes
      → conf.max_document_size_bytes < 4611686018427387904
      → record_size r ≡ size
      → size < 4611686018427387904
      → record_size (handle_large_documents conf r size for_graph) ≤ size
  unfolding handle_large_documents lt64
  record_size-large r size l m e h = ground (arith, message_size)

  item-IsSized :
      (o : Option AnalyticsRecord)
      → 1108 ≤ conf.max_document_size_bytes
      → conf.max_document_size_bytes < 4611686018427387904
      → IsModest (elim o [ none ↦ null | some r ↦ analytics r ])
      → IsSized record_size conf.max_insert_batch_size_bytes
          (process conf for_graph)
          (is_within conf for_graph)
          (prepare_item conf for_graph o)
  unfolding prepare_item get_item_size_bytes add64
  item-IsSized none l m h = tt
  item-IsSized (some r) l m h = (
    record_size-large (record r { collection_name = conf.collection_name }) _ l m (omega arith)
        (omega arith),
    omega arith,
  )

  IsModest-process :
      (v : Value)
      → IsModest v
      → IsModest (elim (should_process_item v for_graph) [ none ↦ null | some r ↦ analytics r ])
  unfolding should_process_item
  IsModest-process null h = tt
  IsModest-process (analytics r) h =
      by_case (r.response_code == minus_one) (for_graph && not (is_graph_record r))
    where
      by_case :
          (b c : Bool)
          → IsModest (elim (if b then none else if c then none else some r) [
            | none ↦ null
            | some q ↦ analytics q
          ])
      by_case true c = tt
      by_case false true = tt
      by_case false false = h

  modest_items :
      (vs : List Value)
      → 1108 ≤ conf.max_document_size_bytes
      → conf.max_document_size_bytes < 4611686018427387904
      → All IsModest vs
      → All
          (λ v.
            IsSized record_size conf.max_insert_batch_size_bytes
              (process conf for_graph)
              (is_within conf for_graph)
              (process conf for_graph v))
          vs
  modest_items [] l m a = tt
  modest_items (v ∷ vs) l m a = (
    item-IsSized (should_process_item v for_graph) l m (IsModest-process v a.0),
    modest_items vs l m a.1,
  )

  finish-IsResultSet :
      (s : Accumulator)
      → IsBounded record_size conf.max_insert_batch_size_bytes s
      → All
          (IsResultSet record_size conf.max_insert_batch_size_bytes)
          (finish_sets conf for_graph s)
  finish-IsResultSet s b = by_set s.this_result_set s.return_array b.closed b.open_set
    where
      by_set :
          (rs : List AnalyticsRecord) (sets : ResultSets)
          → All (IsResultSet record_size conf.max_insert_batch_size_bytes) sets
          → (rs ≡ []) ⊎ IsResultSet record_size conf.max_insert_batch_size_bytes rs
          → All
              (IsResultSet record_size conf.max_insert_batch_size_bytes)
              (if not (is_nil rs) && is_nil sets then sets ++ (rs ∷ []) else sets)
      by_set [] sets a h = a
      by_set (r ∷ rs) [] a (inl e) = cc
      by_set (r ∷ rs) [] a (inr h) = (h, tt)
      by_set (r ∷ rs) (x ∷ sets) a h = a

  -- No set of `AccumulateSet` is empty, and one of several records is within the maximum of the
  -- configuration: if that maximum and the sizes of the records are below 2 ^ 62, and the maximal size of
  -- a document is at least the 1108 bytes that are counted for the message that replaces a larger one.
  pub accumulate_set-IsResultSet :
      (vs : List Value)
      → conf.max_insert_batch_size_bytes < 4611686018427387904
      → 1108 ≤ conf.max_document_size_bytes
      → conf.max_document_size_bytes < 4611686018427387904
      → All IsModest vs
      → All
          (IsResultSet record_size conf.max_insert_batch_size_bytes)
          (accumulate_set conf for_graph vs)
  unfolding accumulate_set le64
  accumulate_set-IsResultSet vs m l d a = finish-IsResultSet _ (
      items-IsBounded record_size _ _ _ (λ n h e. ground arith) m vs no_sets (modest_items vs l d a)
        (no_sets-IsBounded record_size _))
