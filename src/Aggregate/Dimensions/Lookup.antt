-- ===== src/Aggregate/Dimensions/Lookup.antt =====
-- analytics/aggregate.go and aggregate_mcp.go: what `Dimensions` lists for a name and a key.
use mathlib.Core.List.{append_assoc}
use tyk_pump.Base.{
  ◌≡◌, refl, sym, ap, ◌∙◌, Bool, true, false, not, ◌&&◌, List, [], ◌∷◌, ◌++◌, map, Option, none,
  some, ◌>>=◌, Text, text, same, same_refl, same_iff, Map, lookup, Bool-cases, inl, inr,
  if◌then◌else◌, arith,
}
use tyk_pump.Floats.{FloatOps}
use tyk_pump.Aggregate.Counter.{Counter, fn_latency_setter}
use tyk_pump.Aggregate.State.{AnalyticsRecordAggregate}
use tyk_pump.Aggregate.Graph.{GraphRecordAggregate}
use tyk_pump.Aggregate.Mcp.{McpRecordAggregate}
use tyk_pump.Aggregate.Dimensions.{
  DimensionEntry, joined_keys, join_maps, sections, graph_sections, mcp_sections, list_map,
  list_sections, dimensions, graph_dimensions, mcp_dimensions,
}

-- The first counter that is listed under a name and a value.
abbrev pub listed : Text → Text → List DimensionEntry → Option Counter
listed n v [] = none
listed n v (d ∷ ds) = if same d.name n && same d.value v then some d.counter else listed n v ds

abbrev or_else : Option Counter → Option Counter → Option Counter
or_else none o = o
or_else (some c) o = some c

-- No map has the name.
is_unused : Text → Map (Map Counter) → Bool
is_unused n [] = true
is_unused n (s ∷ ss) = not (same s.0 n) && is_unused n ss

-- No two maps have the same name.
names_differ : Map (Map Counter) → Bool
names_differ [] = true
names_differ (s ∷ ss) = is_unused s.0 ss && names_differ ss

-- The counter at a key of the map with a name, with its latencies set.
abbrev pub counter_at : FloatOps → Text → Text → Map (Map Counter) → Option Counter
counter_at fl n v ss = lookup n ss >>= λ m. lookup v m >>= λ c. some (fn_latency_setter fl c)

listed-append :
    (n v : Text) (xs ys : List DimensionEntry)
    → listed n v (xs ++ ys) ≡ or_else (listed n v xs) (listed n v ys)
listed-append n v [] ys = refl
listed-append n v (d ∷ xs) ys = elim (Bool-cases (same d.name n && same d.value v)) [
  | inl e ↦ rw e refl
  | inr e ↦ rw e (listed-append n v xs ys)
]

module _ (fl : FloatOps) where
  listed-list_map :
      (n v : Text) (m : Map Counter)
      → listed n v (list_map fl n m) ≡ (lookup v m >>= λ c. some (fn_latency_setter fl c))
  unfolding list_map lookup
  listed-list_map n v [] = refl
  listed-list_map n v ((k, c) ∷ m) = elim (Bool-cases (same k v)) [
    | inl e ↦ rw (same_refl n, e) refl
    | inr e ↦ rw (same_refl n, e) (listed-list_map n v m)
  ]

  not_listed-list_map :
      (name n v : Text) (m : Map Counter)
      → same name n ≡ false
      → listed n v (list_map fl name m) ≡ none
  unfolding list_map
  not_listed-list_map name n v [] h = refl
  not_listed-list_map name n v ((k, c) ∷ m) h = rw h (not_listed-list_map name n v m h)

  not_listed-list_sections :
      (n v : Text) (ss : Map (Map Counter))
      → is_unused n ss ≡ true
      → listed n v (list_sections fl ss) ≡ none
  unfolding list_sections is_unused
  not_listed-list_sections n v [] h = refl
  not_listed-list_sections n v ((name, m) ∷ ss) h =
      listed-append n v (list_map fl name m) (list_sections fl ss)
      ∙ rw (not_listed-list_map name n v m (ground arith))
          (not_listed-list_sections n v ss (ground arith))

  or_none : (o : Option Counter) → or_else o none ≡ o
  or_none none = refl
  or_none (some c) = refl

  listed-list_sections :
      (n v : Text) (ss : Map (Map Counter))
      → names_differ ss ≡ true
      → listed n v (list_sections fl ss) ≡ counter_at fl n v ss
  unfolding list_sections names_differ lookup
  listed-list_sections n v [] h = refl
  listed-list_sections n v ((name, m) ∷ ss) h =
      listed-append n v (list_map fl name m) (list_sections fl ss)
      ∙ elim (Bool-cases (same name n)) [
        | inl e ↦
            let eq = (same_iff name n).0 e in
            let unused : is_unused name ss ≡ true = ground arith in
            rw
              (
                eq,
                same_refl n,
                listed-list_map n v m,
                not_listed-list_sections n v ss (rw eq at unused),
              )
              (or_none _)
        | inr e ↦
            rw (not_listed-list_map name n v m e, e) (listed-list_sections n v ss (ground arith))
      ]

  pub list_sections-append :
      (ss ts : Map (Map Counter))
      → list_sections fl (ss ++ ts) ≡ list_sections fl ss ++ list_sections fl ts
  unfolding list_sections
  list_sections-append [] ts = refl
  list_sections-append ((name, m) ∷ ss) ts =
      ap (λ l. list_map fl name m ++ l) (list_sections-append ss ts)
      ∙ sym (append_assoc (list_map fl name m) (list_sections fl ss) (list_sections fl ts))

  -- The first endpoint of a key that, joined to it by a dot, is the text; and that of any key.
  abbrev pub joined_endpoint : Text → Text → Map Counter → Option Counter
  joined_endpoint v key [] = none
  joined_endpoint v key ((endpoint, c) ∷ m) =
      if same (key ++ text "." ++ endpoint) v then some c else joined_endpoint v key m

  abbrev pub joined_at : Text → Map (Map Counter) → Option Counter
  joined_at v [] = none
  joined_at v ((key, m) ∷ ms) = or_else (joined_endpoint v key m) (joined_at v ms)

  lookup-joined_keys :
      (v key : Text) (m ms : Map Counter)
      → lookup v (joined_keys key m ++ ms) ≡ or_else (joined_endpoint v key m) (lookup v ms)
  unfolding lookup
  lookup-joined_keys v key [] ms = refl
  lookup-joined_keys v key ((endpoint, c) ∷ m) ms =
      elim (Bool-cases (same (key ++ text "." ++ endpoint) v)) [
        | inl e ↦ rw e refl
        | inr e ↦ rw e (lookup-joined_keys v key m ms)
      ]

  lookup-join_maps : (v : Text) (ms : Map (Map Counter)) → lookup v (join_maps ms) ≡ joined_at v ms
  unfolding join_maps lookup
  lookup-join_maps v [] = refl
  lookup-join_maps v ((key, m) ∷ ms) =
      lookup-joined_keys v key m (join_maps ms)
      ∙ ap (or_else (joined_endpoint v key m)) (lookup-join_maps v ms)

  -- What an aggregate has for a value: its fields by the names of the dimensions.
  abbrev pub counters_of : Text → AnalyticsRecordAggregate → Map (Option Counter)
  counters_of v f =
      (text "apiid", lookup v f.api_id)
      ∷ (text "errors", lookup v f.errors)
      ∷ (text "versions", lookup v f.versions)
      ∷ (text "apikeys", lookup v f.api_keys)
      ∷ (text "oauthids", lookup v f.oauth_ids)
      ∷ (text "geo", lookup v f.geo)
      ∷ (text "tags", lookup v f.tags)
      ∷ (text "endpoints", lookup v f.endpoints)
      ∷ (text "keyendpoints", joined_at v f.key_endpoint)
      ∷ (text "oauthendpoints", joined_at v f.oauth_endpoint)
      ∷ (text "apiendpoints", lookup v f.api_endpoint)
      ∷ (text "", if same (text "total") v then some f.total else none)
      ∷ []

  abbrev pub graph_counters_of : Text → GraphRecordAggregate → Map (Option Counter)
  graph_counters_of v g =
      (text "types", lookup v g.types)
      ∷ (text "fields", lookup v g.fields)
      ∷ (text "operation", lookup v g.operation)
      ∷ (text "rootfields", lookup v g.root_fields)
      ∷ []

  abbrev pub mcp_counters_of : Text → McpRecordAggregate → Map (Option Counter)
  mcp_counters_of v a =
      (text "methods", lookup v a.methods)
      ∷ (text "primitives", lookup v a.primitives)
      ∷ (text "names", lookup v a.names)
      ∷ []

  -- The counter under a name, with its latencies set.
  abbrev pub counter_under : Text → Map (Option Counter) → Option Counter
  counter_under n os = lookup n os >>= λ o. o >>= λ c. some (fn_latency_setter fl c)

  -- What maps have at a value.
  abbrev at_value : Text → Map (Map Counter) → Map (Option Counter)
  at_value v ss = map (λ s. (s.0, lookup v s.1)) ss

  counter_at-at_value :
      (n v : Text) (ss : Map (Map Counter)) → counter_at fl n v ss ≡ counter_under n (at_value v ss)
  unfolding lookup
  counter_at-at_value n v [] = refl
  counter_at-at_value n v ((k, s) ∷ ss) = elim (Bool-cases (same k n)) [
    | inl e ↦ rw e refl
    | inr e ↦ rw e (counter_at-at_value n v ss)
  ]

  at_value-sections :
      (v : Text) (f : AnalyticsRecordAggregate) (ss : Map (Map Counter))
      → at_value v (sections f ++ ss) ≡ counters_of v f ++ at_value v ss
  unfolding lookup
  at_value-sections v f ss =
      rw (lookup-join_maps v f.key_endpoint, lookup-join_maps v f.oauth_endpoint) refl

  -- The names of the maps differ: the one that is listed under a name is found.
  listed-counter_under :
      (n v : Text) (f : AnalyticsRecordAggregate) (ss : Map (Map Counter))
      → names_differ (sections f ++ ss) ≡ true
      → listed n v (list_sections fl (sections f ++ ss))
        ≡ counter_under n (counters_of v f ++ at_value v ss)
  listed-counter_under n v f ss d =
      listed-list_sections n v (sections f ++ ss) d
      ∙ counter_at-at_value n v (sections f ++ ss)
      ∙ ap (counter_under n) (at_value-sections v f ss)

  -- `Dimensions` lists, under the name of a dimension and a value, the counter that the aggregate's field of
  -- that dimension has for the value, with its latencies set, and nothing under any other name or value: the
  -- eleven maps of `AnalyticsRecordAggregate`, of which those of key and OAuth endpoints join the key and the
  -- endpoint by a dot, and the total; in addition, the four maps of the GraphQL and the three of the MCP
  -- aggregate.
  pub listed-dimensions :
      (n v : Text) (f : AnalyticsRecordAggregate) (g : GraphRecordAggregate)
      (a : McpRecordAggregate)
      → (listed n v (dimensions fl f) ≡ counter_under n (counters_of v f))
        × (listed n v (graph_dimensions fl g)
            ≡ counter_under n (counters_of v g.aggregate ++ graph_counters_of v g))
        × (listed n v (mcp_dimensions fl a)
            ≡ counter_under n (counters_of v a.aggregate ++ mcp_counters_of v a))
  unfolding dimensions graph_dimensions mcp_dimensions names_differ is_unused same
  listed-dimensions n v f g a = (
    listed-counter_under n v f [] refl,
    ap (listed n v) (sym (list_sections-append (sections g.aggregate) (graph_sections g)))
        ∙ listed-counter_under n v g.aggregate (graph_sections g) refl,
    ap (listed n v) (sym (list_sections-append (sections a.aggregate) (mcp_sections a)))
        ∙ listed-counter_under n v a.aggregate (mcp_sections a) refl,
  )
