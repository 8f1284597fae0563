-- ===== src/Mongo/Selective/Collections.antt =====
-- pumps/mongo_selective.go: which records go to a collection, and which of them are in its sets.
use mathlib.Core.List.{append_assoc, append-nil}
use tyk_pump.Base.{
  concat, ◌≡◌, refl, sym, ap, ◌∙◌, Bool, true, false, not, ◌&&◌, List, [], ◌∷◌, ◌++◌, Option, none,
  some, ◌>>=◌, for_each, Bool-cases, inl, inr, Text, same, same_iff, Map, lookup, lookup-insert,
  filter, map, ◌⊎◌, if◌then◌else◌,
}
use tyk_pump.Analytics.Record.{AnalyticsRecord, is_mcp_record}
use tyk_pump.Aggregate.Data.{Value, analytics}
use tyk_pump.Mongo.Sets.{no_sets, documents, ends_accepted}
use tyk_pump.Mongo.Sets.Kept.{kept_items, held_items}
use tyk_pump.Mongo.Selective.{
  MongoSelectiveConf, get_collection_name, process, is_within, final, accumulate_set, append_to,
  add_to_collection, collect, analytics_per_org,
}

-- The record goes to the collection.
abbrev pub is_named : Text → Option Text → Bool
is_named name none = false
is_named name (some c) = same c name

abbrev pub belongs_to : Text → AnalyticsRecord → Bool
belongs_to name r = not (is_mcp_record r) && is_named name (get_collection_name r.org_id)

-- What a collection holds after more values: it is there once it has one.
abbrev pub extend : Option (List Value) → List Value → Option (List Value)
extend none [] = none
extend none (v ∷ vs) = some (v ∷ vs)
extend (some ws) vs = some (ws ++ vs)

extend_nil : (o : Option (List Value)) → extend o [] ≡ o
extend_nil none = refl
extend_nil (some ws) = ap some (values_nil ws)
  where
    values_nil : (ws : List Value) → ws ++ [] ≡ ws
    values_nil [] = refl
    values_nil (w ∷ ws) = ap (λ t. w ∷ t) (values_nil ws)

extend_cons :
    (o : Option (List Value)) (v : Value) (vs : List Value)
    → extend (some (append_to o v)) vs ≡ extend o (v ∷ vs)
extend_cons none v vs = refl
extend_cons (some ws) v vs = ap some (append_assoc ws (v ∷ []) vs)

lookup-add_to_collection :
    (c : Text) (o : Option Text) (v : Value) (m : Map (List Value))
    → lookup c (add_to_collection o v m)
      ≡ (if is_named c o then some (append_to (lookup c m) v) else lookup c m)
unfolding add_to_collection
lookup-add_to_collection c none v m = refl
lookup-add_to_collection c (some name) v m =
    rw (lookup-insert name c (append_to (lookup name m) v) m) (by_name (Bool-cases (same name c)))
  where
    by_name :
        (same name c ≡ true) ⊎ (same name c ≡ false)
        → (if same name c then some (append_to (lookup name m) v) else lookup c m)
          ≡ (if same name c then some (append_to (lookup c m) v) else lookup c m)
    by_name (inl e) =
        ap (λ k. if same name c then some (append_to (lookup k m) v) else lookup c m)
          ((same_iff name c).0 e)
    by_name (inr e) = rw e refl

-- The records of a collection.
abbrev pub values_of : Text → List AnalyticsRecord → List Value
values_of c rs = map analytics (filter (belongs_to c) rs)

collected :
    (c : Text) (rs : List AnalyticsRecord) (m : Map (List Value))
    → (for_each collect (map analytics rs) m >>= λ t. some (lookup c t))
      ≡ some (extend (lookup c m) (values_of c rs))
unfolding for_each collect
collected c [] m = ap some (sym (extend_nil (lookup c m)))
collected c (r ∷ rs) m =
    collected c rs _ ∙ ap some (by_case (is_mcp_record r) (get_collection_name r.org_id))
  where
    by_case :
        (b : Bool) (o : Option Text)
        → extend (lookup c (if b then m else add_to_collection o (analytics r) m)) (values_of c rs)
          ≡ extend (lookup c m) (
              map analytics (
                if not b && is_named c o
                then r ∷ filter (belongs_to c) rs
                else filter (belongs_to c) rs))
    by_case true o = refl
    by_case false o = rw (lookup-add_to_collection c o (analytics r) m) (by_name (is_named c o))
      where
        by_name :
            (d : Bool)
            → extend
                (if d then some (append_to (lookup c m) (analytics r)) else lookup c m)
                (values_of c rs)
              ≡ extend (lookup c m) (
                  map analytics
                    (if d then r ∷ filter (belongs_to c) rs else filter (belongs_to c) rs))
        by_name true = extend_cons (lookup c m) (analytics r) (values_of c rs)
        by_name false = refl

-- The selective pump gives a collection the records of its organisation that are not of MCP, in order, and
-- gives a collection without such records nothing.
pub analytics_per_org-lookup :
    (c : Text) (rs : List AnalyticsRecord)
    → (analytics_per_org (map analytics rs) >>= λ m. some (lookup c m))
      ≡ some (extend none (values_of c rs))
unfolding analytics_per_org lookup
analytics_per_org-lookup c rs = collected c rs []

module _ (conf : MongoSelectiveConf) (collection : Text) where
  unfoldable pub left_over : List Value → List AnalyticsRecord
  left_over vs =
      if ends_accepted (process conf collection) (is_within conf collection) vs
      then []
      else (final conf collection vs).this_result_set

  -- The records that are to be written, in order: those that are not too large.
  abbrev pub to_write : List Value → List AnalyticsRecord
  to_write = documents (process conf collection) (is_within conf collection)

  -- The sets of the selective pump's `AccumulateSet` hold the records that are to be written, in order,
  -- each once: all of them, unless the last item of the data is passed over or too large. Then those of
  -- the open set are missing, also where it is the only one.
  pub accumulate_set-selective :
      (vs : List Value) → concat (accumulate_set conf collection vs) ++ left_over vs ≡ to_write vs
  unfolding accumulate_set left_over
  accumulate_set-selective vs =
      elim (Bool-cases (ends_accepted (process conf collection) (is_within conf collection) vs)) [
        | inl e ↦ rw e (append-nil _ ∙ kept_items _ _ vs no_sets e)
        | inr e ↦ rw e (held_items _ _ vs no_sets e)
      ]
