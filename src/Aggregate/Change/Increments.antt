-- ===== src/Aggregate/Change/Increments.antt =====
-- analytics/aggregate.go: what `AsChange` adds to a document.
use mathlib.Core.Path.{ap₂, subst}
use tyk_pump.Base.{
  All-append, All-last, ◌≡◌, ◌≢◌, refl, sym, ap, ◌∙◌, inl, inr, Bool, true, false, ◌&&◌, List, [],
  ◌∷◌, ◌++◌, Option, none, some, Text, text, same, same_iff, Map, lookup, All, Bool-cases, arith,
  if◌then◌else◌,
}
use tyk_pump.Floats.{FloatOps}
use tyk_pump.Aggregate.Counter.{Counter, fn_latency_setter}
use tyk_pump.Aggregate.State.{AnalyticsRecordAggregate}
use tyk_pump.Aggregate.Dimensions.{
  DimensionEntry, dimensions, list_sections, list_map, map_sections,
}
use tyk_pump.Aggregate.Dimensions.Lookup.{list_sections-append}
use tyk_pump.Aggregate.Change.{
  Bson, Update, no_update, constructor_of, put_all, errors_of, inc_fields,
  generate_bson_from_property, generate_all, as_change,
}
use tyk_pump.Aggregate.Change.Places.{is_name, IsPlace}
use tyk_pump.Aggregate.Change.Sums.{
  Sum, sum_name, sum_of, lookup-put_all, latest-inc_fields, IsCode, put_inc_elsewhere,
}

-- The counter that is listed last at a place.
abbrev pub latest_counter : Text → Text → List DimensionEntry → Option Counter → Option Counter
latest_counter n v [] o = o
latest_counter n v (d ∷ ds) o =
    latest_counter n v ds (if same d.name n && same d.value v then some d.counter else o)

abbrev pub summed : Sum → Option Counter → Option Bson
summed q none = none
summed q (some c) = some (sum_of q c)

abbrev pub HasCodes : DimensionEntry → Type 0
HasCodes d = All IsCode (errors_of d.counter.error_map)

abbrev pub IsPlaced : DimensionEntry → Type 0
IsPlaced d = IsPlace d.name d.value

module _ (n v : Text) (here : IsPlace n v) (q : Sum) where
  abbrev path : Text
  path = constructor_of n v ++ sum_name q

  at_place :
      (m w : Text) (c : Counter) (doc : Map Bson)
      → m ≡ n
      → w ≡ v
      → lookup path (put_all (constructor_of m w) (inc_fields c) doc) ≡ some (sum_of q c)
  at_place m w c doc e f =
      ap (λ t. lookup path (put_all t (inc_fields c) doc)) (ap₂ constructor_of e f)
      ∙ lookup-put_all (constructor_of n v) (sum_name q) (inc_fields c) doc
      ∙ latest-inc_fields q c (lookup path doc)

  no_place : (m w : Text) → (m ≡ n) × (w ≡ v) → (same m n && same w v) ≢ false
  no_place m w k e = cc ((same_iff m n).1 k.0, (same_iff w v).1 k.1)

  generate-inc :
      (d : DimensionEntry) (u : Update) (o : Option Counter)
      → IsPlaced d
      → HasCodes d
      → lookup path u.inc ≡ summed q o
      → lookup path (generate_bson_from_property d.name d.value d.counter u).inc
        ≡ summed q (if same d.name n && same d.value v then some d.counter else o)
  unfolding generate_bson_from_property
  generate-inc d u o p a h = elim (Bool-cases (same d.name n && same d.value v)) [
    | inl e ↦
        at_place d.name d.value d.counter u.inc ((same_iff d.name n).0 (ground arith))
          ((same_iff d.value v).0 (ground arith))
        ∙ ap (λ b. summed q (if b then some d.counter else o)) (sym e)
    | inr e ↦
        put_inc_elsewhere d.name d.value n v p here (λ k. no_place d.name d.value k e) q d.counter
          u.inc a
        ∙ h
        ∙ ap (λ b. summed q (if b then some d.counter else o)) (sym e)
  ]

  generate_all-inc :
      (ds : List DimensionEntry) (u : Update) (o : Option Counter)
      → All IsPlaced ds
      → All HasCodes ds
      → lookup path u.inc ≡ summed q o
      → lookup path (generate_all ds u).inc ≡ summed q (latest_counter n v ds o)
  unfolding generate_all
  generate_all-inc [] u o p a h = h
  generate_all-inc (d ∷ ds) u o p a h =
      generate_all-inc ds (generate_bson_from_property d.name d.value d.counter u) _ p.1 a.1
        (generate-inc d u o p.0 a.0 h)

IsPlaced-list_map :
    (fl : FloatOps) (name : Text) (m : Map Counter)
    → is_name name ≡ true
    → All IsPlaced (list_map fl name m)
unfolding list_map
IsPlaced-list_map fl name [] h = tt
IsPlaced-list_map fl name (e ∷ m) h = (inl h, IsPlaced-list_map fl name m h)

IsPlaced-list_sections :
    (fl : FloatOps) (ss : Map (Map Counter))
    → All (λ s. is_name s.0 ≡ true) ss
    → All IsPlaced (list_sections fl ss)
unfolding list_sections
IsPlaced-list_sections fl [] h = tt
IsPlaced-list_sections fl ((name, m) ∷ ss) h =
    All-append IsPlaced (list_map fl name m) (list_sections fl ss) (IsPlaced-list_map fl name m h.0)
      (IsPlaced-list_sections fl ss h.1)

map_sections-named : (f : AnalyticsRecordAggregate) → All (λ s. is_name s.0 ≡ true) (map_sections f)
unfolding same
map_sections-named f =
    (refl, (refl, (refl, (refl, (refl, (refl, (refl, (refl, (refl, (refl, (refl, tt)))))))))))

abbrev total_entry : FloatOps → AnalyticsRecordAggregate → DimensionEntry
total_entry fl f = record {
  name = [];
  value = text "total";
  counter = fn_latency_setter fl f.total;
}

dimensions-total :
    (fl : FloatOps) (f : AnalyticsRecordAggregate)
    → dimensions fl f ≡ list_sections fl (map_sections f) ++ (total_entry fl f ∷ [])
unfolding dimensions list_sections list_map
dimensions-total fl f =
    list_sections-append fl (map_sections f) (([], (text "total", f.total) ∷ []) ∷ [])

-- The total is listed last, so that it may come once more.
latest-total :
    (n v : Text) (ds : List DimensionEntry) (d : DimensionEntry) (o : Option Counter)
    → (if same d.name n && same d.value v
        then some d.counter
        else latest_counter n v (ds ++ (d ∷ [])) o)
      ≡ latest_counter n v (ds ++ (d ∷ [])) o
latest-total n v [] d o = twice (same d.name n && same d.value v) d.counter o
  where
    twice :
        (b : Bool) (c : Counter) (o : Option Counter)
        → (if b then some c else if b then some c else o) ≡ (if b then some c else o)
    twice true c o = refl
    twice false c o = refl
latest-total n v (x ∷ ds) d o = latest-total n v ds d _

-- `AsChange` gives `$inc`, at the path of a place and one of the names of hits, successes, errors and total times,
-- that number of the counter which `Dimensions` lists last at the place, and nothing where it lists none: no
-- counter is added to the path of another. That holds of each place under the name of a map without a dot, and of the
-- total; if the codes of the errors of each counter are written in digits.
pub as_change-inc :
    (fl : FloatOps) (f : AnalyticsRecordAggregate) (n v : Text) (q : Sum)
    → IsPlace n v
    → All HasCodes (dimensions fl f)
    → lookup (constructor_of n v ++ sum_name q) (as_change fl f).inc
      ≡ summed q (latest_counter n v (dimensions fl f) none)
unfolding as_change lookup
as_change-inc fl f n v q here a =
    generate-inc n v here q (total_entry fl f) (generate_all (dimensions fl f) no_update)
      (latest_counter n v (dimensions fl f) none) (inr (refl, refl))
      (All-last HasCodes maps (total_entry fl f) (subst (All HasCodes) (dimensions-total fl f) a))
      (generate_all-inc n v here q (dimensions fl f) no_update none
        (subst (All IsPlaced) (sym (dimensions-total fl f)) (
          All-append IsPlaced maps (total_entry fl f ∷ [])
            (IsPlaced-list_sections fl (map_sections f) (map_sections-named f))
            (inr (refl, refl), tt)))
        a refl)
    ∙ ap (summed q) (
        ap
          (λ ds.
            if same [] n && same (text "total") v
            then some (fn_latency_setter fl f.total)
            else latest_counter n v ds none)
          (dimensions-total fl f)
        ∙ latest-total n v maps (total_entry fl f) none
        ∙ ap (λ ds. latest_counter n v ds none) (sym (dimensions-total fl f)))
  where
    maps : List DimensionEntry
    maps = list_sections fl (map_sections f)
