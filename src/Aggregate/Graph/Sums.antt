-- ===== src/Aggregate/Graph/Sums.antt =====
-- analytics/aggregate.go: what the GraphQL dimensions of each API add up to.
use tyk_pump.Base.{
  ℕ, ◌+◌, ◌%◌, ◌<◌, ◌≡◌, refl, sym, ap, ◌∙◌, Bool, true, false, ◌&&◌, List, [], Option, none, some,
  >>=-eq-some, for_each, Text, same, lookup, insert, number_in, number_at, sum_of, minus_one, ◌==◌,
  lt64, ap-if, if_true, Bool-cases, inl, inr, if◌then◌else◌, arith,
}
use mathlib.Core.Option.{some-injective}
use tyk_pump.Floats.{FloatOps}
use tyk_pump.Time.{Time}
use tyk_pump.Analytics.Record.{AnalyticsRecord, is_graph_record}
use tyk_pump.Analytics.Fields.{Field, fields}
use tyk_pump.Analytics.Graph.{GraphRecord, to_graph_record}
use tyk_pump.Aggregate.Counter.{Counter}
use tyk_pump.Aggregate.State.{AnalyticsRecordAggregate}
use tyk_pump.Aggregate.Timestamp.{LastTimes}
use tyk_pump.Aggregate.Increment.{
  increment_aggregate, add_to_total, seen, add_request, request_counter, connection_counter,
}
use tyk_pump.Aggregate.Cases.{field_step}
use tyk_pump.Aggregate.Increment.Measures.{hit_weight}
use tyk_pump.Aggregate.Data.{Value, analytics, null, Progress}
use tyk_pump.Aggregate.Grouped.{AddsByKey, loop-number_at}
use tyk_pump.Aggregate.Graph.{
  GraphRecordAggregate, start_graph, resume_graph, graph_counter, add_graph_units, add_graph_record,
  add_graph_value, aggregate_graph_data,
}

add_request-counter :
    (fl : FloatOps) (order : List Field) (a : AnalyticsRecordAggregate) (r : AnalyticsRecord)
    (ignored : List Text) (p : AnalyticsRecordAggregate × Counter)
    → add_request fl order a r ignored ≡ some p
    → p.1 ≡ request_counter fl r
unfolding add_request
add_request-counter fl order a r ignored p h =
    let (t, _, g) = >>=-eq-some (add_to_total fl r a.total) _ h in
    let (b, _, g') =
      >>=-eq-some (for_each (field_step fl (request_counter fl r) r ignored) order _)
        (λ b. some (b, request_counter fl r)) g in
    ap (λ q. q.1) (sym (some-injective (b, request_counter fl r) p g'))

-- The counter that `incrementAggregate` returns has one hit, or none for a report on connections.
pub increment_aggregate-hits :
    (fl : FloatOps) (order : List Field) (a : AnalyticsRecordAggregate) (r : AnalyticsRecord)
    (track_all : Bool) (ignored : List Text) (p : AnalyticsRecordAggregate × Counter)
    → increment_aggregate fl order a r track_all ignored ≡ some p
    → p.1.hits ≡ hit_weight r
unfolding increment_aggregate request_counter connection_counter
increment_aggregate-hits fl order a r track_all ignored p h =
    elim (Bool-cases (r.response_code == minus_one)) [
      | inl e ↦
          ap (λ q. q.1.hits) (sym (some-injective (_, connection_counter r) p (rw e at h)))
          ∙ rw e refl
      | inr e ↦
          ap (λ c. c.hits) (add_request-counter fl order (seen r a) _ ignored p (rw e at h))
          ∙ rw e refl
    ]

-- The counter with the errors of GraphQL has the same hits.
graph_counter-hits : (g : GraphRecord) (c : Counter) → (graph_counter g c).hits ≡ c.hits
unfolding graph_counter
graph_counter-hits g c =
    ap-if (λ d. d.hits) (g.has_errors && lt64 c.error_total 1) _ c c.hits refl refl

pub to_graph_record-record :
    (r : AnalyticsRecord) → is_graph_record r ≡ true → (to_graph_record r).analytics_record ≡ r
unfolding to_graph_record
to_graph_record-record r h = rw h refl

-- The value is a record of a GraphQL request.
abbrev pub takes_graph : Value → Bool
takes_graph null = false
takes_graph (analytics r) = is_graph_record r

abbrev pub api_of : Value → Text
api_of null = []
api_of (analytics r) = r.api_id

-- A number of a GraphQL aggregate that grows, for each record, by what it weighs for its hits.
pub record GraphMeasure (fl : FloatOps) : Type 0 where
  pub get : GraphRecordAggregate → ℕ
  pub weight : GraphRecord → ℕ → ℕ
  pub adds :
      (g : GraphRecord) (counter : Counter) (a b : GraphRecordAggregate)
      → counter.hits < 18446744073709551616
      → get a < 18446744073709551616
      → add_graph_units fl g counter a ≡ some b
      → get b ≡ (get a + weight g counter.hits) % 18446744073709551616
  pub base_free :
      (a : GraphRecordAggregate) (b : AnalyticsRecordAggregate)
      → get (record a { aggregate = b }) ≡ get a
  pub starts : (r : AnalyticsRecord) (t : Time) → get (start_graph r t) ≡ 0

-- What a value weighs.
abbrev pub graph_weight : (GraphRecord → ℕ → ℕ) → Value → ℕ
graph_weight w null = 0
graph_weight w (analytics r) = w (to_graph_record r) (hit_weight r)

module _ {fl : FloatOps} (μ : GraphMeasure fl) (db : Text) (minutes : ℕ) where
  resume_graph-get :
      (o : Option GraphRecordAggregate) (r : AnalyticsRecord) (last : LastTimes)
      → μ.get (resume_graph db minutes o r last).0 ≡ number_in μ.get o
  unfolding resume_graph
  resume_graph-get (some a) r last = refl
  resume_graph-get none r last = μ.starts r _

  add_graph_record-stores :
      (r : AnalyticsRecord) (s s' : Progress GraphRecordAggregate)
      → number_at μ.get r.api_id s.0 < 18446744073709551616
      → is_graph_record r ≡ true
      → add_graph_record fl db minutes r s ≡ some s'
      → (d : GraphRecordAggregate) × (s'.0 ≡ insert r.api_id d s.0)
        × (μ.get d
            ≡ (number_at μ.get r.api_id s.0 + μ.weight (to_graph_record r) (hit_weight r))
              % 18446744073709551616)
  unfolding add_graph_record
  add_graph_record-stores r s s' l t h =
      let g = to_graph_record r in
      let (a, last) = resume_graph db minutes (lookup r.api_id s.0) r s.1 in
      let ((b, c), e, h₁) =
        >>=-eq-some (increment_aggregate fl fields a.aggregate g.analytics_record false []) _ h in
      let (d, e', h₂) =
        >>=-eq-some (add_graph_units fl g (graph_counter g c) (record a { aggregate = b })) _ h₁ in
      let start = resume_graph-get (lookup r.api_id s.0) r s.1 in
      let hits : (graph_counter g c).hits ≡ hit_weight r =
        graph_counter-hits g c
        ∙ increment_aggregate-hits fl fields a.aggregate g.analytics_record false [] (b, c) e
        ∙ ap hit_weight (to_graph_record-record r t) in
      let one : (graph_counter g c).hits < 18446744073709551616 = rw hits (ground arith) in
      let same_number = μ.base_free a b ∙ start in
      let grown =
        μ.adds g (graph_counter g c) (record a { aggregate = b }) d one (rw same_number l) e' in
      (d, ap (λ p. p.0) (sym (some-injective _ s' h₂)), grown ∙ rw (same_number, hits) refl)

  graph-AddsByKey :
      AddsByKey
        (λ s. s.0)
        μ.get
        takes_graph
        api_of
        (graph_weight μ.weight)
        (add_graph_value fl db minutes)
  unfolding add_graph_value
  graph-AddsByKey = record {
    passes = λ v s s' t h. passes_over v s s' t h;
    stores = λ v s s' l t h. takes_in v s s' l t h;
  }
    where
      passes_over :
          (v : Value) (s s' : Progress GraphRecordAggregate)
          → takes_graph v ≡ false
          → add_graph_value fl db minutes v s ≡ some s'
          → s'.0 ≡ s.0
      passes_over null s s' t h = ap (λ p. p.0) (sym (some-injective s s' h))
      passes_over (analytics r) s s' t h = ap (λ p. p.0) (sym (some-injective s s' (rw t at h)))

      takes_in :
          (v : Value) (s s' : Progress GraphRecordAggregate)
          → number_at μ.get (api_of v) s.0 < 18446744073709551616
          → takes_graph v ≡ true
          → add_graph_value fl db minutes v s ≡ some s'
          → (d : GraphRecordAggregate) × (s'.0 ≡ insert (api_of v) d s.0)
            × (μ.get d
                ≡ (number_at μ.get (api_of v) s.0 + graph_weight μ.weight v) % 18446744073709551616)
      takes_in null s s' l t h = cc
      takes_in (analytics r) s s' l t h =
          add_graph_record-stores r s s' l t
            (sym (if_true (is_graph_record r) (add_graph_record fl db minutes r s) (some s) t) ∙ h)

  -- After the loop the number of an API is the sum of what its records of GraphQL requests weigh.
  pub graph-number_at :
      (api : Text) (values : List Value) (last : LastTimes) (s : Progress GraphRecordAggregate)
      → aggregate_graph_data fl db minutes values last ≡ some s
      → number_at μ.get api s.0
        ≡ sum_of
            (λ v. if takes_graph v && same (api_of v) api then graph_weight μ.weight v else 0)
            values
          % 18446744073709551616
  unfolding aggregate_graph_data
  graph-number_at api values last s h =
      loop-number_at graph-AddsByKey api values ([], last) s refl h
