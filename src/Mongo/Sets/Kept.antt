-- ===== src/Mongo/Sets/Kept.antt =====
-- pumps/mongo.go and pumps/mongo_selective.go: which items are in the sets.
use tyk_pump.Base.{
  concat, concat-snoc, list_laws, ◌≡◌, refl, ap, ◌∙◌, Bool, true, false, List, [], ◌∷◌, ◌++◌,
  Option, none, some, Int64,
}
use tyk_pump.Analytics.Record.{AnalyticsRecord}
use tyk_pump.Aggregate.Data.{Value}
use tyk_pump.Mongo.Sets.{
  ResultSets, Accumulator, append_set, is_nil, accumulate_if, accumulate_item, accumulate_items,
  documents, ends_accepted, is_accepted, add_accepted,
}

concat-append_set :
    (set : List AnalyticsRecord) (sets : ResultSets)
    → concat (append_set set sets) ≡ concat sets ++ set
concat-append_set [] sets = simp list_laws
concat-append_set (r ∷ rs) sets = simp list_laws

-- What an accumulator holds, with the open set.
abbrev pub held : Accumulator → List AnalyticsRecord
held s = concat s.return_array ++ s.this_result_set

held-accumulate_if :
    (fits : Bool) (item : AnalyticsRecord) (size : Int64) (s : Accumulator)
    → held (accumulate_if fits item size false s) ≡ held s ++ (item ∷ [])
unfolding accumulate_if
held-accumulate_if true item size s = simp list_laws
held-accumulate_if false item size s =
    ap (λ t. t ++ (item ∷ [])) (concat-append_set s.this_result_set s.return_array)

concat-accumulate_if :
    (fits : Bool) (item : AnalyticsRecord) (size : Int64) (s : Accumulator)
    → concat (accumulate_if fits item size true s).return_array ≡ held s ++ (item ∷ [])
unfolding accumulate_if
concat-accumulate_if fits item size s =
    concat-snoc (accumulate_if fits item size false s).return_array _
    ∙ held-accumulate_if fits item size s

module _ (accept : Value → Option (AnalyticsRecord × Int64)) (is_within : Int64 → Bool) where
  accepted : Option (AnalyticsRecord × Int64) → List AnalyticsRecord
  accepted o = add_accepted o []

  held-accumulate_item :
      (o : Option (AnalyticsRecord × Int64)) (s : Accumulator)
      → held (accumulate_item accept is_within o false s) ≡ held s ++ accepted o
  unfolding accumulate_item accepted
  held-accumulate_item none s = simp list_laws
  held-accumulate_item (some (item, size)) s = held-accumulate_if _ item size s

  concat-accumulate_item :
      (o : Option (AnalyticsRecord × Int64)) (s : Accumulator)
      → is_accepted o ≡ true
      → concat (accumulate_item accept is_within o true s).return_array ≡ held s ++ accepted o
  unfolding accumulate_item accepted
  concat-accumulate_item none s h = cc
  concat-accumulate_item (some (item, size)) s h = concat-accumulate_if _ item size s

  held-skipped :
      (o : Option (AnalyticsRecord × Int64)) (s : Accumulator)
      → is_accepted o ≡ false
      → held (accumulate_item accept is_within o true s) ≡ held s ++ accepted o
  unfolding accumulate_item accepted
  held-skipped none s h = simp list_laws
  held-skipped (some (item, size)) s h = cc

  regroup :
      (o : Option (AnalyticsRecord × Int64)) (xs ys : List AnalyticsRecord)
      → (xs ++ accepted o) ++ ys ≡ xs ++ add_accepted o ys
  unfolding accepted
  regroup none xs ys = simp list_laws
  regroup (some (item, size)) xs ys = simp list_laws

  pub kept_items :
      (vs : List Value) (s : Accumulator)
      → ends_accepted accept is_within vs ≡ true
      → concat (accumulate_items accept is_within vs s).return_array
        ≡ held s ++ documents accept is_within vs
  unfolding accumulate_items documents ends_accepted accepted
  kept_items [] s h = cc
  kept_items (v ∷ []) s h = concat-accumulate_item (accept v) s h
  kept_items (v ∷ w ∷ vs) s h =
      kept_items (w ∷ vs) (accumulate_item accept is_within (accept v) false s) h
      ∙ ap (λ t. t ++ documents accept is_within (w ∷ vs)) (held-accumulate_item (accept v) s)
      ∙ regroup (accept v) (held s) (documents accept is_within (w ∷ vs))

  -- Where the last item is not accepted, the open set is left.
  pub held_items :
      (vs : List Value) (s : Accumulator)
      → ends_accepted accept is_within vs ≡ false
      → held (accumulate_items accept is_within vs s) ≡ held s ++ documents accept is_within vs
  unfolding accumulate_items documents ends_accepted accepted
  held_items [] s h = simp list_laws
  held_items (v ∷ []) s h = held-skipped (accept v) s h
  held_items (v ∷ w ∷ vs) s h =
      held_items (w ∷ vs) (accumulate_item accept is_within (accept v) false s) h
      ∙ ap (λ t. t ++ documents accept is_within (w ∷ vs)) (held-accumulate_item (accept v) s)
      ∙ regroup (accept v) (held s) (documents accept is_within (w ∷ vs))

  is_nil-snoc :
      (sets : ResultSets) (set : List AnalyticsRecord) → is_nil (sets ++ (set ∷ [])) ≡ false
  is_nil-snoc [] set = refl
  is_nil-snoc (x ∷ sets) set = refl

  closed_last :
      (o : Option (AnalyticsRecord × Int64)) (s : Accumulator)
      → is_accepted o ≡ true
      → is_nil (accumulate_item accept is_within o true s).return_array ≡ false
  unfolding accumulate_item accumulate_if
  closed_last none s h = cc
  closed_last (some (item, size)) s h = is_nil-snoc _ _

  -- Where the last item is accepted, a set is returned.
  pub is_nil-items :
      (vs : List Value) (s : Accumulator)
      → ends_accepted accept is_within vs ≡ true
      → is_nil (accumulate_items accept is_within vs s).return_array ≡ false
  unfolding accumulate_items ends_accepted
  is_nil-items [] s h = cc
  is_nil-items (v ∷ []) s h = closed_last (accept v) s h
  is_nil-items (v ∷ w ∷ vs) s h =
      is_nil-items (w ∷ vs) (accumulate_item accept is_within (accept v) false s) h
