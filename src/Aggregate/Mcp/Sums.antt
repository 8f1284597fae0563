-- ===== src/Aggregate/Mcp/Sums.antt =====
-- analytics/aggregate_mcp.go: what the MCP dimensions of each API add up to.
use tyk_pump.Base.{
  ℕ, ◌+◌, ◌%◌, ◌<◌, ◌≡◌, refl, sym, ap, ◌∙◌, Bool, true, false, not, ◌&&◌, List, [], Option, none,
  some, >>=-eq-some, Text, same, is_empty, Map, lookup, insert, number_in, number_at, sum_of,
  Bool-cases, inl, inr, if◌then◌else◌, if_true, arith,
}
use mathlib.Core.Option.{some-injective}
use tyk_pump.Floats.{FloatOps}
use tyk_pump.Analytics.Record.{AnalyticsRecord, is_mcp_record}
use tyk_pump.Analytics.Fields.{fields}
use tyk_pump.Analytics.Mcp.{McpRecord, to_mcp_record}
use tyk_pump.Aggregate.Counter.{Counter}
use tyk_pump.Aggregate.State.{AnalyticsRecordAggregate}
use tyk_pump.Aggregate.Timestamp.{LastTimes}
use tyk_pump.Aggregate.Increment.{increment_aggregate}
use tyk_pump.Aggregate.Increment.Measures.{hit_weight}
use tyk_pump.Aggregate.Named.{add_named-hits_at}
use tyk_pump.Aggregate.Data.{Value, analytics, null, Progress}
use tyk_pump.Aggregate.Grouped.{AddsByKey, loop-number_at}
use tyk_pump.Aggregate.Graph.Sums.{api_of, increment_aggregate-hits}
use tyk_pump.Aggregate.Mcp.{
  McpRecordAggregate, init_mcp_aggregate_for_record, resume_mcp, add_if_named,
  increment_mcp_dimensions, add_mcp_record, add_mcp_value, aggregate_mcp_data,
}

pub to_mcp_record-record :
    (r : AnalyticsRecord) → is_mcp_record r ≡ true → (to_mcp_record r).analytics_record ≡ r
unfolding to_mcp_record
to_mcp_record-record r h = rw h refl

-- The value is a record of an MCP request.
abbrev pub takes_mcp : Value → Bool
takes_mcp null = false
takes_mcp (analytics r) = is_mcp_record r

-- One of the three maps: the name that its records give, and the key of that name.
pub record McpDimension (fl : FloatOps) : Type 0 where
  pub counters : McpRecordAggregate → Map Counter
  pub name : McpRecord → Text
  pub key : McpRecord → Text
  pub adds :
      (m : McpRecord) (counter : Counter) (a b : McpRecordAggregate)
      → increment_mcp_dimensions fl a counter m ≡ some b
      → add_if_named fl counter (name m) (key m) (counters a) ≡ some (counters b)
  pub base_free :
      (a : McpRecordAggregate) (b : AnalyticsRecordAggregate)
      → counters (record a { aggregate = b }) ≡ counters a
  pub starts :
      (r : AnalyticsRecord) (db : Text) (minutes : ℕ) (last : LastTimes)
      → counters (init_mcp_aggregate_for_record r db minutes last).0 ≡ []

-- The record names the key.
abbrev pub names_key : (McpRecord → Text) → (McpRecord → Text) → Text → McpRecord → Bool
names_key name key k m = not (is_empty (name m)) && same (key m) k

-- What a value weighs for a key.
abbrev pub mcp_weight : (McpRecord → Text) → (McpRecord → Text) → Text → Value → ℕ
mcp_weight name key k null = 0
mcp_weight name key k (analytics r) =
    if names_key name key k (to_mcp_record r) then hit_weight r else 0

module _ {fl : FloatOps} (δ : McpDimension fl) (k : Text) (db : Text) (minutes : ℕ) where
  abbrev hits_of : McpRecordAggregate → ℕ
  hits_of a = number_at (λ c. c.hits) k (δ.counters a)

  resume_mcp-hits :
      (o : Option McpRecordAggregate) (r : AnalyticsRecord) (last : LastTimes)
      → hits_of (resume_mcp db minutes o r last).0 ≡ number_in hits_of o
  unfolding resume_mcp lookup
  resume_mcp-hits (some a) r last = refl
  resume_mcp-hits none r last = ap (λ m. number_at (λ c. c.hits) k m) (δ.starts r db minutes last)

  add_if_named-hits_at :
      (counter : Counter) (name key : Text) (m m' : Map Counter)
      → counter.hits < 18446744073709551616
      → number_at (λ c. c.hits) k m < 18446744073709551616
      → add_if_named fl counter name key m ≡ some m'
      → number_at (λ c. c.hits) k m'
        ≡ (number_at (λ c. c.hits) k m
            + (if not (is_empty name) && same key k then counter.hits else 0))
          % 18446744073709551616
  unfolding add_if_named
  add_if_named-hits_at counter name key m m' b l h = elim (Bool-cases (is_empty name)) [
    | inl e ↦ rw (e, ← some-injective m m' (rw e at h)) (omega arith)
    | inr e ↦ rw e (add_named-hits_at fl counter key name k m b l (rw e at h))
  ]

  add_mcp_record-stores :
      (r : AnalyticsRecord) (s s' : Progress McpRecordAggregate)
      → number_at hits_of r.api_id s.0 < 18446744073709551616
      → is_mcp_record r ≡ true
      → add_mcp_record fl db minutes r s ≡ some s'
      → (d : McpRecordAggregate) × (s'.0 ≡ insert r.api_id d s.0)
        × (hits_of d
            ≡ (number_at hits_of r.api_id s.0 + mcp_weight δ.name δ.key k (analytics r))
              % 18446744073709551616)
  unfolding add_mcp_record
  add_mcp_record-stores r s s' l t h =
      let rec = to_mcp_record r in
      let (a, last) = resume_mcp db minutes (lookup r.api_id s.0) r s.1 in
      let ((b, c), e, h₁) =
        >>=-eq-some (increment_aggregate fl fields a.aggregate rec.analytics_record false []) _ h in
      let (d, e', h₂) =
        >>=-eq-some (increment_mcp_dimensions fl (record a { aggregate = b }) c rec) _ h₁ in
      let hits : c.hits ≡ hit_weight r =
        increment_aggregate-hits fl fields a.aggregate rec.analytics_record false [] (b, c) e
        ∙ ap hit_weight (to_mcp_record-record r t) in
      let one : c.hits < 18446744073709551616 = rw hits (ground arith) in
      let same_number : hits_of (record a { aggregate = b }) ≡ number_at hits_of r.api_id s.0 =
        ap (λ m. number_at (λ c. c.hits) k m) (δ.base_free a b)
        ∙ resume_mcp-hits (lookup r.api_id s.0) r s.1 in
      let grown =
        add_if_named-hits_at c (δ.name rec) (δ.key rec) (δ.counters (record a { aggregate = b }))
          (δ.counters d) one (rw same_number l) (δ.adds rec c (record a { aggregate = b }) d e') in
      (d, ap (λ p. p.0) (sym (some-injective _ s' h₂)), grown ∙ rw (same_number, hits) refl)

  passes_over :
      (v : Value) (s s' : Progress McpRecordAggregate)
      → takes_mcp v ≡ false
      → add_mcp_value fl db minutes v s ≡ some s'
      → s'.0 ≡ s.0
  unfolding add_mcp_value
  passes_over null s s' t h = ap (λ p. p.0) (sym (some-injective s s' h))
  passes_over (analytics r) s s' t h = ap (λ p. p.0) (sym (some-injective s s' (rw t at h)))

  takes_in :
      (v : Value) (s s' : Progress McpRecordAggregate)
      → number_at hits_of (api_of v) s.0 < 18446744073709551616
      → takes_mcp v ≡ true
      → add_mcp_value fl db minutes v s ≡ some s'
      → (d : McpRecordAggregate) × (s'.0 ≡ insert (api_of v) d s.0)
        × (hits_of d
            ≡ (number_at hits_of (api_of v) s.0 + mcp_weight δ.name δ.key k v)
              % 18446744073709551616)
  unfolding add_mcp_value
  takes_in null s s' l t h = cc
  takes_in (analytics r) s s' l t h =
      add_mcp_record-stores r s s' l t
        (sym (if_true (is_mcp_record r) (add_mcp_record fl db minutes r s) (some s) t) ∙ h)

  -- After the loop the hits of a key are the number of the API's records that name it.
  pub mcp-number_at :
      (api : Text) (values : List Value) (last : LastTimes) (s : Progress McpRecordAggregate)
      → aggregate_mcp_data fl db minutes values last ≡ some s
      → number_at (λ a. number_at (λ c. c.hits) k (δ.counters a)) api s.0
        ≡ sum_of
            (λ v. if takes_mcp v && same (api_of v) api then mcp_weight δ.name δ.key k v else 0)
            values
          % 18446744073709551616
  unfolding aggregate_mcp_data
  mcp-number_at api values last s h =
      let rounds : AddsByKey (λ s. s.0) hits_of takes_mcp api_of (mcp_weight δ.name δ.key k)
          (add_mcp_value fl db minutes) =
        record { passes = passes_over; stores = takes_in } in
      loop-number_at rounds api values ([], last) s refl h
