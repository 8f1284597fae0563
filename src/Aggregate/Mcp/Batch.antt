-- ===== src/Aggregate/Mcp/Batch.antt =====
-- analytics/aggregate_mcp.go: `AggregateMCPData` on a whole batch.
use tyk_pump.Base.{
  ℕ, ◌%◌, ◌≡◌, refl, ◌&&◌, List, [], some, for_each, >>=-eq-some, Yields-some, for_each-Yields_of,
  Text, same, All, number_at, sum_of, if◌then◌else◌, ap, ◌∙◌,
}
use mathlib.Core.Option.{some-injective}
use tyk_pump.Floats.{FloatOps}
use tyk_pump.Analytics.Record.{AnalyticsRecord}
use tyk_pump.Analytics.Mcp.{McpRecord}
use tyk_pump.Aggregate.Counter.{Counter}
use tyk_pump.Aggregate.Timestamp.{LastTimes}
use tyk_pump.Aggregate.Data.{Value, Progress}
use tyk_pump.Aggregate.Data.Batch.{IsRequest}
use tyk_pump.Aggregate.Graph.Sums.{api_of}
use tyk_pump.Aggregate.Mcp.{
  McpRecordAggregate, init_mcp_aggregate_for_record, name_label, add_if_named,
  increment_mcp_dimensions, add_mcp_value, aggregate_mcp_data,
}
use tyk_pump.Aggregate.Mcp.Ready.{McpMapReady, add_mcp_value-McpMapReady}
use tyk_pump.Aggregate.Mcp.Sums.{takes_mcp, McpDimension, mcp_weight, mcp-number_at}

-- The number of an API's records of MCP requests that name a key.
abbrev pub mcp_sum : (McpRecord → Text) → (McpRecord → Text) → Text → Text → List Value → ℕ
mcp_sum name key k api values =
    sum_of (λ v. if takes_mcp v && same (api_of v) api then mcp_weight name key k v else 0) values

-- The hits of each API's methods, primitives and names are the numbers of its requests that name
-- them, modulo 2 ^ 64.
pub record McpAddsUp (values : List Value) (s : Progress McpRecordAggregate) : Type 0 where
  pub methods :
      (api k : Text)
      → number_at (λ a. number_at (λ c. c.hits) k a.methods) api s.0
        ≡ mcp_sum (λ m. m.jsonrpc_method) (λ m. m.jsonrpc_method) k api values
          % 18446744073709551616
  pub primitives :
      (api k : Text)
      → number_at (λ a. number_at (λ c. c.hits) k a.primitives) api s.0
        ≡ mcp_sum (λ m. m.primitive_type) (λ m. m.primitive_type) k api values
          % 18446744073709551616
  pub names :
      (api k : Text)
      → number_at (λ a. number_at (λ c. c.hits) k a.names) api s.0
        ≡ mcp_sum (λ m. m.primitive_name) name_label k api values % 18446744073709551616

module _ (fl : FloatOps) where
  dimension-steps :
      (m : McpRecord) (counter : Counter) (a b : McpRecordAggregate)
      → increment_mcp_dimensions fl a counter m ≡ some b
      → (add_if_named fl counter m.jsonrpc_method m.jsonrpc_method a.methods ≡ some b.methods)
        × (add_if_named fl counter m.primitive_type m.primitive_type a.primitives
            ≡ some b.primitives)
        × (add_if_named fl counter m.primitive_name (name_label m) a.names ≡ some b.names)
  unfolding increment_mcp_dimensions
  dimension-steps m counter a b h =
      let (n, e, h₁) =
        >>=-eq-some (add_if_named fl counter m.jsonrpc_method m.jsonrpc_method a.methods) _ h in
      let (n', e', h₂) =
        >>=-eq-some (add_if_named fl counter m.primitive_type m.primitive_type a.primitives) _ h₁ in
      let (n'', e'', h₃) =
        >>=-eq-some (add_if_named fl counter m.primitive_name (name_label m) a.names) _ h₂ in
      let made = some-injective _ b h₃ in
      (
        e ∙ ap (λ d. some d.methods) made,
        e' ∙ ap (λ d. some d.primitives) made,
        e'' ∙ ap (λ d. some d.names) made,
      )

  starts_empty :
      (r : AnalyticsRecord) (db : Text) (minutes : ℕ) (last : LastTimes)
      → let a = (init_mcp_aggregate_for_record r db minutes last).0 in
        (a.methods ≡ []) × (a.primitives ≡ []) × (a.names ≡ [])
  unfolding init_mcp_aggregate_for_record
  starts_empty r db minutes last = (refl, refl, refl)

  abbrev methods : McpDimension fl
  methods = record {
    counters = λ a. a.methods;
    name = λ m. m.jsonrpc_method;
    key = λ m. m.jsonrpc_method;
    adds = λ m counter a b h. (dimension-steps m counter a b h).0;
    base_free = λ a b. refl;
    starts = λ r db minutes last. (starts_empty r db minutes last).0;
  }

  abbrev primitives : McpDimension fl
  primitives = record {
    counters = λ a. a.primitives;
    name = λ m. m.primitive_type;
    key = λ m. m.primitive_type;
    adds = λ m counter a b h. (dimension-steps m counter a b h).1;
    base_free = λ a b. refl;
    starts = λ r db minutes last. (starts_empty r db minutes last).1;
  }

  abbrev names : McpDimension fl
  names = record {
    counters = λ a. a.names;
    name = λ m. m.primitive_name;
    key = name_label;
    adds = λ m counter a b h. (dimension-steps m counter a b h).2;
    base_free = λ a b. refl;
    starts = λ r db minutes last. (starts_empty r db minutes last).2;
  }

  module _ (db : Text) (minutes : ℕ) where
    -- On a batch of records none of which has the response code -1, `AggregateMCPData` returns, and
    -- the hits under each method, primitive and name of an API are the numbers of the API's MCP
    -- records that name it, modulo 2 ^ 64.
    pub aggregate_mcp_data-McpAddsUp :
        (values : List Value) (last : LastTimes)
        → All IsRequest values
        → (s : Progress McpRecordAggregate) × (aggregate_mcp_data fl db minutes values last
            ≡ some s)
          × McpAddsUp values s
    unfolding aggregate_mcp_data
    aggregate_mcp_data-McpAddsUp values last q =
        let (s, e, _) =
          Yields-some (λ t. McpMapReady t.0)
            (for_each (add_mcp_value fl db minutes) values ([], last))
            (for_each-Yields_of IsRequest (λ t. McpMapReady t.0) (add_mcp_value fl db minutes)
              values ([], last) (add_mcp_value-McpMapReady fl db minutes) q tt) in
        (
          s,
          e,
          record {
            methods = λ api k. mcp-number_at methods k db minutes api values last s e;
            primitives = λ api k. mcp-number_at primitives k db minutes api values last s e;
            names = λ api k. mcp-number_at names k db minutes api values last s e;
          },
        )
