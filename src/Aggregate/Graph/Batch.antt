-- ===== src/Aggregate/Graph/Batch.antt =====
-- analytics/aggregate.go: `AggregateGraphData` on a whole batch.
use tyk_pump.Base.{
  ℕ, ◌%◌, ◌≡◌, ◌&&◌, List, [], some, for_each, Yields-some, for_each-Yields_of, Text, same, All,
  number_at, sum_of, if◌then◌else◌,
}
use tyk_pump.Floats.{FloatOps}
use tyk_pump.Analytics.Graph.{GraphRecord}
use tyk_pump.Aggregate.Timestamp.{LastTimes}
use tyk_pump.Aggregate.Data.{Value, Progress}
use tyk_pump.Aggregate.Data.Batch.{IsRequest}
use tyk_pump.Aggregate.Graph.{
  GraphRecordAggregate, field_label, add_graph_value, aggregate_graph_data,
}
use tyk_pump.Aggregate.Graph.Ready.{GraphMapReady, add_graph_value-GraphMapReady}
use tyk_pump.Aggregate.Graph.Sums.{takes_graph, api_of, graph_weight, graph-number_at}
use tyk_pump.Aggregate.Graph.Dimensions.{operation_hits, root_field_hits, type_hits, field_hits}

-- What the values with a key weigh together.
abbrev pub graph_sum : (GraphRecord → ℕ → ℕ) → Text → List Value → ℕ
graph_sum w api values =
    sum_of (λ v. if takes_graph v && same (api_of v) api then graph_weight w v else 0) values

-- The hits of each API's operations, root fields, types and fields are the numbers of times that its
-- requests name them, modulo 2 ^ 64.
pub record GraphAddsUp (values : List Value) (s : Progress GraphRecordAggregate) : Type 0 where
  pub operations :
      (api op : Text)
      → number_at (λ a. number_at (λ c. c.hits) op a.operation) api s.0
        ≡ graph_sum (λ g n. if same g.operation_type op then n else 0) api values
          % 18446744073709551616
  pub root_fields :
      (api field : Text)
      → number_at (λ a. number_at (λ c. c.hits) field a.root_fields) api s.0
        ≡ graph_sum (λ g n. sum_of (λ f. if same f field then n else 0) g.root_fields) api values
          % 18446744073709551616
  pub types :
      (api type : Text)
      → number_at (λ a. number_at (λ c. c.hits) type a.types) api s.0
        ≡ graph_sum (λ g n. sum_of (λ e. if same e.0 type then n else 0) g.types) api values
          % 18446744073709551616
  pub fields :
      (api label : Text)
      → number_at (λ a. number_at (λ c. c.hits) label a.fields) api s.0
        ≡ graph_sum
            (λ g n.
              sum_of
                (λ e. sum_of (λ f. if same (field_label e.0 f) label then n else 0) e.1)
                g.types)
            api
            values
          % 18446744073709551616

module _ (fl : FloatOps) (db : Text) (minutes : ℕ) where
  -- On a batch of records none of which has the response code -1, `AggregateGraphData` returns, and
  -- the hits under each operation, root field, type and field of an API are the numbers of times
  -- that the GraphQL records of the API name it, modulo 2 ^ 64.
  pub aggregate_graph_data-GraphAddsUp :
      (values : List Value) (last : LastTimes)
      → All IsRequest values
      → (s : Progress GraphRecordAggregate) × (aggregate_graph_data fl db minutes values last
          ≡ some s)
        × GraphAddsUp values s
  unfolding aggregate_graph_data
  aggregate_graph_data-GraphAddsUp values last q =
      let (s, e, _) =
        Yields-some (λ t. GraphMapReady t.0)
          (for_each (add_graph_value fl db minutes) values ([], last))
          (for_each-Yields_of IsRequest (λ t. GraphMapReady t.0) (add_graph_value fl db minutes)
            values ([], last) (add_graph_value-GraphMapReady fl db minutes) q tt) in
      (
        s,
        e,
        record {
          operations =
              λ api op. graph-number_at (operation_hits fl op) db minutes api values last s e;
          root_fields =
              λ api f. graph-number_at (root_field_hits fl f) db minutes api values last s e;
          types = λ api t. graph-number_at (type_hits fl t) db minutes api values last s e;
          fields = λ api l. graph-number_at (field_hits fl l) db minutes api values last s e;
        },
      )
