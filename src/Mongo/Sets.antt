-- ===== src/Mongo/Sets.antt =====
-- pumps/mongo.go and pumps/mongo_selective.go: a batch in sets of a limited size. The two pumps' loops
-- differ in the items that they accept and in the test of the limit, which are parameters here.
pub mod Kept
pub mod Bounds
use tyk_pump.Base.{
  Bool, true, false, List, [], ◌∷◌, ◌++◌, Option, none, some, Int64, add64, if◌then◌else◌,
}
use tyk_pump.Analytics.Record.{AnalyticsRecord}
use tyk_pump.Aggregate.Data.{Value}

-- `model.DBObject`, which is a record wherever sets are made.
abbrev pub ResultSets : Type 0
ResultSets = List (List AnalyticsRecord)

-- The variables of `AccumulateSet`.
pub record Accumulator : Type 0 where
  pub accumulator_total : Int64
  pub this_result_set : List AnalyticsRecord
  pub return_array : ResultSets

abbrev pub no_sets : Accumulator
no_sets = record { accumulator_total = 0; this_result_set = []; return_array = [] }

abbrev pub is_nil {ℓ} : {A : Type ℓ} → List A → Bool
is_nil [] = true
is_nil (x ∷ xs) = false

-- `append(returnArray, set)`, where the set has elements.
abbrev pub append_set : List AnalyticsRecord → ResultSets → ResultSets
append_set [] sets = sets
append_set (r ∷ rs) sets = sets ++ ((r ∷ rs) ∷ [])

-- `accumulate`, behind the test of the limit: the item goes into the open set, or begins a new one; the
-- last item closes its set.
unfoldable pub accumulate_if :
    (fits : Bool) → AnalyticsRecord → Int64 → (is_last : Bool) → Accumulator → Accumulator
accumulate_if fits item size is_last s =
    let set = (if fits then s.this_result_set else []) ++ (item ∷ []) in
    let closed = if fits then s.return_array else append_set s.this_result_set s.return_array in
    record {
      accumulator_total = if fits then add64 s.accumulator_total size else size;
      this_result_set = set;
      return_array = if is_last then closed ++ (set ∷ []) else closed;
    }

abbrev pub is_accepted : Option (AnalyticsRecord × Int64) → Bool
is_accepted none = false
is_accepted (some p) = true

abbrev pub add_accepted :
    Option (AnalyticsRecord × Int64) → List AnalyticsRecord → List AnalyticsRecord
add_accepted none rs = rs
add_accepted (some (item, size)) rs = item ∷ rs

module _ (accept : Value → Option (AnalyticsRecord × Int64)) (is_within : Int64 → Bool) where
  unfoldable pub accumulate_item :
      Option (AnalyticsRecord × Int64) → (is_last : Bool) → Accumulator → Accumulator
  accumulate_item none is_last s = s
  accumulate_item (some (item, size)) is_last s =
      accumulate_if (is_within (add64 s.accumulator_total size)) item size is_last s

  -- The loop over the items. An item is the last one if none follows it.
  unfoldable pub accumulate_items : List Value → Accumulator → Accumulator
  accumulate_items [] s = s
  accumulate_items (v ∷ vs) s = accumulate_items vs (accumulate_item (accept v) (is_nil vs) s)

  -- What the loop accepts, in order.
  unfoldable pub documents : List Value → List AnalyticsRecord
  documents [] = []
  documents (v ∷ vs) = add_accepted (accept v) (documents vs)

  -- The last item is accepted.
  unfoldable pub ends_accepted : List Value → Bool
  ends_accepted [] = false
  ends_accepted (v ∷ w ∷ vs) = ends_accepted (w ∷ vs)
  ends_accepted (v ∷ []) = is_accepted (accept v)
