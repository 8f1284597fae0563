-- ===== src/Aggregate/Graph/Dimensions.antt =====
-- analytics/aggregate.go: the numbers that the GraphQL dimensions keep.
use tyk_pump.Base.{
  ◌<◌, ◌≡◌, refl, ap, ◌∙◌, List, [], some, >>=-eq-some, for_each, Text, same, Map, lookup,
  number_at, sum_of, for_each-sum_of, if◌then◌else◌, arith,
}
use mathlib.Core.Option.{some-injective}
use tyk_pump.Floats.{FloatOps}
use tyk_pump.Analytics.Fields.{fields}
use tyk_pump.Analytics.Graph.{GraphRecord}
use tyk_pump.Aggregate.Counter.{Counter}
use tyk_pump.Aggregate.Named.{add_named, add_named-hits_at, for_each_named-hits_at}
use tyk_pump.Aggregate.Graph.{GraphRecordAggregate, field_label, add_type, add_graph_units}
use tyk_pump.Aggregate.Graph.Sums.{GraphMeasure}

module _ (fl : FloatOps) where
  pub add_graph_units-steps :
      (g : GraphRecord) (counter : Counter) (a b : GraphRecordAggregate)
      → add_graph_units fl g counter a ≡ some b
      → (add_named fl counter g.operation_type g.operation_type a.operation ≡ some b.operation)
        × (for_each (add_type fl counter) g.types (a.types, a.fields) ≡ some (b.types, b.fields))
        × (for_each (λ f. add_named fl counter f f) g.root_fields a.root_fields
            ≡ some b.root_fields)
  unfolding add_graph_units
  add_graph_units-steps g counter a b h =
      let (o, e, h₁) =
        >>=-eq-some (add_named fl counter g.operation_type g.operation_type a.operation) _ h in
      let (tf, e', h₂) =
        >>=-eq-some (for_each (add_type fl counter) g.types (a.types, a.fields)) _ h₁ in
      let (rf, e'', h₃) =
        >>=-eq-some (for_each (λ f. add_named fl counter f f) g.root_fields a.root_fields) _ h₂ in
      let made = some-injective _ b h₃ in
      (
        e ∙ ap (λ d. some d.operation) made,
        e' ∙ ap (λ d. some (d.types, d.fields)) made,
        e'' ∙ ap (λ d. some d.root_fields) made,
      )

  -- No counter has no hits.
  pub nothing_at : (k : Text) → number_at (λ (c : Counter). c.hits) k [] ≡ 0
  unfolding lookup
  nothing_at k = refl

  -- The hits of an operation.
  abbrev pub operation_hits : Text → GraphMeasure fl
  operation_hits op = record {
    get = λ a. number_at (λ c. c.hits) op a.operation;
    weight = λ g n. if same g.operation_type op then n else 0;
    adds = λ g counter a b n l h.
        add_named-hits_at fl counter g.operation_type g.operation_type op a.operation n l
          (add_graph_units-steps g counter a b h).0;
    base_free = λ a b. refl;
    starts = λ r t. nothing_at _;
  }

  -- The hits of a root field.
  abbrev pub root_field_hits : Text → GraphMeasure fl
  root_field_hits field = record {
    get = λ a. number_at (λ c. c.hits) field a.root_fields;
    weight = λ g n. sum_of (λ f. if same f field then n else 0) g.root_fields;
    adds = λ g counter a b n l h.
        for_each_named-hits_at fl counter g.root_fields (λ f. f) field a.root_fields b.root_fields n
          l (add_graph_units-steps g counter a b h).2;
    base_free = λ a b. refl;
    starts = λ r t. nothing_at _;
  }

  pub add_type-steps :
      (counter : Counter) (e : Text × List Text) (m m' : Map Counter × Map Counter)
      → add_type fl counter e m ≡ some m'
      → (add_named fl counter e.0 e.0 m.0 ≡ some m'.0)
        × (for_each (λ f. add_named fl counter (field_label e.0 f) (field_label e.0 f)) e.1 m.1
            ≡ some m'.1)
  unfolding add_type
  add_type-steps counter (t, fs) (types, fields) m' h =
      let (n, e, h₁) = >>=-eq-some (add_named fl counter t t types) _ h in
      let (n', e', h₂) =
        >>=-eq-some
          (for_each (λ f. add_named fl counter (field_label t f) (field_label t f)) fs fields) _
          h₁ in
      let made = some-injective _ m' h₂ in
      (e ∙ ap (λ p. some p.0) made, e' ∙ ap (λ p. some p.1) made)

  -- The hits of a type.
  abbrev pub type_hits : Text → GraphMeasure fl
  type_hits type = record {
    get = λ a. number_at (λ c. c.hits) type a.types;
    weight = λ g n. sum_of (λ e. if same e.0 type then n else 0) g.types;
    adds = λ g counter a b n l h.
        (for_each-sum_of (λ m. number_at (λ c. c.hits) type m.0 < 18446744073709551616)
          (λ m. number_at (λ c. c.hits) type m.0) (λ e. if same e.0 type then counter.hits else 0)
          (add_type fl counter)
          (λ e m m' p k.
            let q =
              add_named-hits_at fl counter e.0 e.0 type m.0 n p
                (add_type-steps counter e m m' k).0 in
            (omega (arith, q), q))
          g.types (a.types, a.fields) (b.types, b.fields) l l
          (add_graph_units-steps g counter a b h).1).1;
    base_free = λ a b. refl;
    starts = λ r t. nothing_at _;
  }

  -- The hits of a field of a type.
  abbrev pub field_hits : Text → GraphMeasure fl
  field_hits label = record {
    get = λ a. number_at (λ c. c.hits) label a.fields;
    weight = λ g n.
        sum_of (λ e. sum_of (λ f. if same (field_label e.0 f) label then n else 0) e.1) g.types;
    adds = λ g counter a b n l h.
        (for_each-sum_of (λ m. number_at (λ c. c.hits) label m.1 < 18446744073709551616)
          (λ m. number_at (λ c. c.hits) label m.1)
          (λ e. sum_of (λ f. if same (field_label e.0 f) label then counter.hits else 0) e.1)
          (add_type fl counter)
          (λ e m m' p k.
            let q =
              for_each_named-hits_at fl counter e.1 (field_label e.0) label m.1 m'.1 n p
                (add_type-steps counter e m m' k).1 in
            (omega (arith, q), q))
          g.types (a.types, a.fields) (b.types, b.fields) l l
          (add_graph_units-steps g counter a b h).1).1;
    base_free = λ a b. refl;
    starts = λ r t. nothing_at _;
  }
