-- ===== src/Mongo/Sets/Bounds.antt =====
-- pumps/mongo.go and pumps/mongo_selective.go: the size of the sets.
use tyk_pump.Base.{
  All-snoc, ℕ, ◌+◌, ◌≤◌, ◌<◌, ◌≡◌, refl, ◌⊎◌, inl, inr, Bool, true, false, List, [], ◌∷◌, ◌++◌,
  Option, none, some, All, Int64, add64, if◌then◌else◌, arith,
}
use tyk_pump.Analytics.Record.{AnalyticsRecord}
use tyk_pump.Aggregate.Data.{Value}
use tyk_pump.Mongo.Sets.{
  ResultSets, Accumulator, no_sets, append_set, is_nil, accumulate_if, accumulate_item,
  accumulate_items,
}

module _ (weight : AnalyticsRecord → ℕ) where
  abbrev pub weights : List AnalyticsRecord → ℕ
  weights [] = 0
  weights (r ∷ rs) = weight r + weights rs

  weights-append : (rs qs : List AnalyticsRecord) → weights (rs ++ qs) ≡ weights rs + weights qs
  weights-append [] qs = omega arith
  weights-append (r ∷ rs) qs = omega (arith, weights-append rs qs)

  module _ (limit : ℕ) where
    -- A set of one record may be of any size.
    abbrev pub IsResultSet : List AnalyticsRecord → Type 0
    IsResultSet [] = ⊥
    IsResultSet (r ∷ []) = Unit
    IsResultSet (r ∷ q ∷ rs) = weights (r ∷ q ∷ rs) ≤ limit

    -- The open set is empty or a set, and the running total is at least its size.
    pub record IsBounded (s : Accumulator) : Type 0 where
      pub closed : All IsResultSet s.return_array
      pub open_set : (s.this_result_set ≡ []) ⊎ IsResultSet s.this_result_set
      pub total : weights s.this_result_set ≤ s.accumulator_total
      pub small : s.accumulator_total < 4611686018427387904

    IsResultSet-snoc :
        (rs : List AnalyticsRecord) (item : AnalyticsRecord)
        → weights rs + weight item ≤ limit
        → IsResultSet (rs ++ (item ∷ []))
    IsResultSet-snoc [] item h = tt
    IsResultSet-snoc (r ∷ []) item h = omega arith
    IsResultSet-snoc (r ∷ q ∷ rs) item h = omega (arith, weights-append rs (item ∷ []))

    appended :
        (rs : List AnalyticsRecord) (sets : ResultSets)
        → All IsResultSet sets
        → (rs ≡ []) ⊎ IsResultSet rs
        → All IsResultSet (append_set rs sets)
    appended [] sets a h = a
    appended (r ∷ rs) sets a (inl e) = cc
    appended (r ∷ rs) sets a (inr h) = All-snoc IsResultSet sets (r ∷ rs) a h

    last_closed :
        (is_last : Bool) (set : List AnalyticsRecord) (sets : ResultSets)
        → All IsResultSet sets
        → IsResultSet set
        → All IsResultSet (if is_last then sets ++ (set ∷ []) else sets)
    last_closed true set sets a h = All-snoc IsResultSet sets set a h
    last_closed false set sets a h = a

    accumulate_if-IsBounded :
        (fits : Bool) (item : AnalyticsRecord) (size : Int64) (is_last : Bool) (s : Accumulator)
        → weight item ≤ size
        → size < 4611686018427387904
        → limit < 4611686018427387904
        → (fits ≡ true → s.accumulator_total + size ≤ limit)
        → IsBounded s
        → IsBounded (accumulate_if fits item size is_last s)
    unfolding accumulate_if add64
    accumulate_if-IsBounded true item size is_last s w m l f b = record {
      closed = last_closed is_last _ _ b.closed set;
      open_set = inr set;
      total = omega (arith, weights-append s.this_result_set (item ∷ []), b.total, f refl);
      small = omega (arith, f refl);
    }
      where
        set : IsResultSet (s.this_result_set ++ (item ∷ []))
        set = IsResultSet-snoc s.this_result_set item (omega (arith, b.total, f refl))
    accumulate_if-IsBounded false item size is_last s w m l f b = record {
      closed =
          last_closed is_last _ _ (appended s.this_result_set s.return_array b.closed b.open_set)
            tt;
      open_set = inr tt;
      total = omega arith;
      small = omega arith;
    }

    module _ (accept : Value → Option (AnalyticsRecord × Int64)) (is_within : Int64 → Bool) where
      -- An item that is accepted has its size, which is far below the greatest `int`.
      abbrev pub IsSized : Option (AnalyticsRecord × Int64) → Type 0
      IsSized none = Unit
      IsSized (some (item, size)) = (weight item ≤ size) × (size < 4611686018427387904)

      pub items-IsBounded :
          ((n : ℕ) → n < 9223372036854775808 → is_within n ≡ true → n ≤ limit)
          → limit < 4611686018427387904
          → (vs : List Value) (s : Accumulator) → All (λ v. IsSized (accept v)) vs
          → IsBounded s
          → IsBounded (accumulate_items accept is_within vs s)
      unfolding accumulate_items accumulate_item add64
      items-IsBounded test l [] s a b = b
      items-IsBounded test l (v ∷ vs) s a b =
          items-IsBounded test l vs _ a.1 (item-IsBounded (accept v) a.0)
        where
          item-IsBounded :
              (o : Option (AnalyticsRecord × Int64))
              → IsSized o
              → IsBounded (accumulate_item accept is_within o (is_nil vs) s)
          item-IsBounded none h = b
          item-IsBounded (some (item, size)) h =
              accumulate_if-IsBounded (is_within (add64 s.accumulator_total size)) item size
                (is_nil vs) s h.0 h.1 l
                (λ e. omega (arith, b.small, h.1, test _ (omega (arith, b.small, h.1)) e)) b

    pub no_sets-IsBounded : IsBounded no_sets
    no_sets-IsBounded = record {
      closed = tt;
      open_set = inl refl;
      total = omega arith;
      small = omega arith;
    }
