-- ===== src/Sql/Aggregates/Written.antt =====
-- pumps/sql_aggregate.go, graph_sql_aggregate.go, mcp_sql_aggregate.go: the rows of a slice.
use tyk_pump.Base.{
  append-if, if_nil, ◌≡◌, ◌≤◌, refl, ap, ◌∙◌, false, List, [], ◌∷◌, ◌++◌, concat, Option, none,
  some, ◌>>=◌, for_each, Text, same, is_empty, Int64, Map, lookup, insert, All, if◌then◌else◌,
}
use tyk_pump.Aggregate.Codes.{
  Code, zero_code, process_status_codes, process_status_code, set_or_add, add_to_class,
}
use tyk_pump.Aggregate.Dimensions.{DimensionEntry}
use tyk_pump.Sql.Shards.{batches}
use tyk_pump.Sql.Shards.Batches.{batches-concat}
use tyk_pump.Sql.Aggregates.{
  AggregateDatabase, SqlAggregateConf, Kind, unless_error, upsert_batches, do_aggregated_writing,
  write_aggregates,
}
use tyk_pump.Sql.Rows.{codes_of, row_of, rows_of}

-- A database that takes every statement, and the rows that a table has been given, in order.
pub record Takes {R : Type 0} (db : AggregateDatabase R) : Type 0 where
  pub given : Text → db.State → List R
  pub takes : (t : Text) (rs : List R) (s : db.State) → (db.upsert t rs s).0 ≡ none
  pub gives :
      (t u : Text) (rs : List R) (s : db.State)
      → given u (db.upsert t rs s).1 ≡ given u s ++ (if same t u then rs else [])

-- No code of the errors is the empty text.
abbrev pub HasCodes : Map Int64 → Type 0
HasCodes m = All (λ e. is_empty e.0 ≡ false) m

by_class :
    (k : Text) (v : Int64) (c : Code)
    → is_empty k ≡ false
    → (d : Code) × (add_to_class k v c ≡ some d)
unfolding add_to_class
by_class [] v c h = cc
by_class (x ∷ k) v c h = (_, refl)

by_field :
    (o : Option Int64) (k : Text) (v : Int64) (c : Code)
    → is_empty k ≡ false
    → (d : Code) × (set_or_add o k v c ≡ some d)
by_field none k v c h = by_class k v c h
by_field (some old) k v c h = (insert k v c, refl)

one_code :
    (k : Text) (v : Int64) (c : Code)
    → is_empty k ≡ false
    → (d : Code) × (process_status_code (k, v) c ≡ some d)
unfolding process_status_code
one_code k v c h = by_field (lookup k c) k v c h

codes_all :
    (m : Map Int64) (c : Code) → HasCodes m → (d : Code) × (process_status_codes m c ≡ some d)
unfolding process_status_codes for_each
codes_all [] c h = (c, refl)
codes_all ((k, v) ∷ m) c h =
    let (d, e) = one_code k v c h.0 in
    let (d', e') = codes_all m d h.1 in (d', ap (λ o. o >>= for_each process_status_code m) e ∙ e')

-- The dimension becomes a row without a panic.
abbrev pub HasRow : DimensionEntry → Type 0
HasRow d = HasCodes (codes_of d.counter.error_map)

rows_all :
    {R : Type 0} (to_row : DimensionEntry → Code → R) (ds : List DimensionEntry)
    → All HasRow ds
    → (rs : List R) × (rows_of to_row ds ≡ some rs)
unfolding rows_of row_of
rows_all to_row [] a = ([], refl)
rows_all to_row (d ∷ ds) a =
    let (code, e) = codes_all (codes_of d.counter.error_map) zero_code a.0 in
    let (rs, f) = rows_all to_row ds a.1 in
    (
      to_row d code ∷ rs,
      ap (λ o. (o >>= λ c. some (to_row d c)) >>= λ r. rows_of to_row ds >>= λ q. some (r ∷ q)) e
          ∙ ap (λ o. o >>= λ q. some (to_row d code ∷ q)) f,
    )

unless_none :
    {S : Type 0} (p : Option Text × S) (next : S → Option (Option Text × S))
    → p.0 ≡ none
    → unless_error p next ≡ next p.1
unless_none (none, s) next h = refl
unless_none (some e, s) next h = cc

module _ {R : Type 0} (db : AggregateDatabase R) (laws : Takes db) (conf : SqlAggregateConf) where
  -- From one state to another without an error, with these rows for a table.
  abbrev pub Wrote : Option (Option Text × db.State) → Text → List R → db.State → Type 0
  Wrote result table rs s =
      (s' : db.State) × (result ≡ some (none, s'))
      × ((u : Text) → laws.given u s' ≡ laws.given u s ++ (if same table u then rs else []))

  upsert_batches-Wrote :
      (table : Text) (parts : List (List R)) (s : db.State)
      → Wrote (upsert_batches db conf table parts s) table (concat parts) s
  unfolding upsert_batches
  upsert_batches-Wrote table [] s = (s, refl, λ u. if_nil (same table u) (laws.given u s))
  upsert_batches-Wrote table (rs ∷ parts) s =
      let (s', e, g) = upsert_batches-Wrote table parts (db.upsert table rs s).1 in
      (
        s',
        unless_none (db.upsert table rs s) (upsert_batches db conf table parts)
              (laws.takes table rs s)
            ∙ e,
        λ u.
            g u
            ∙ ap (λ xs. xs ++ (if same table u then concat parts else [])) (laws.gives table u rs s)
            ∙ append-if (same table u) (laws.given u s) rs (concat parts),
      )

  do_aggregated_writing-Wrote :
      (table : Text) (to_row : DimensionEntry → Code → R) (ds : List DimensionEntry) (rs : List R)
      (s : db.State)
      → 1 ≤ conf.batch_size
      → rows_of to_row ds ≡ some rs
      → Wrote (do_aggregated_writing db conf table to_row ds s) table rs s
  unfolding do_aggregated_writing
  do_aggregated_writing-Wrote table to_row ds rs s l e =
      let (s', f, g) = upsert_batches-Wrote table (batches conf.batch_size rs) s in
      (
        s',
        ap (λ o. o >>= λ recs. upsert_batches db conf table (batches conf.batch_size recs) s) e ∙ f,
        λ u.
            g u
            ∙ ap (λ xs. laws.given u s ++ (if same table u then xs else []))
                (batches-concat conf.batch_size rs l).0,
      )

  module _ {V A : Type 0} (kind : Kind V R A) where
    -- A row for each dimension of each aggregate, in their order.
    unfoldable pub aggregate_rows : Map A → Option (List R)
    aggregate_rows [] = some []
    aggregate_rows ((key, a) ∷ rest) = do
      rs ← rows_of (kind.to_row key a) (kind.dimensions_of a)
      qs ← aggregate_rows rest
      some (rs ++ qs)

    pub write_aggregates-Wrote :
        (table : Text) (aggregates : Map A) (s : db.State)
        → 1 ≤ conf.batch_size
        → All (λ e. All HasRow (kind.dimensions_of e.1)) aggregates
        → (rs : List R) × (aggregate_rows aggregates ≡ some rs)
          × Wrote (write_aggregates db conf kind table aggregates s) table rs s
    unfolding write_aggregates aggregate_rows
    write_aggregates-Wrote table [] s l a =
        ([], refl, (s, refl, λ u. if_nil (same table u) (laws.given u s)))
    write_aggregates-Wrote table ((key, x) ∷ rest) s l a =
        let (rs, e) = rows_all (kind.to_row key x) (kind.dimensions_of x) a.0 in
        let (s', f, g) =
          do_aggregated_writing-Wrote table (kind.to_row key x) (kind.dimensions_of x) rs s l e in
        let (qs, e', (s'', f', g')) = write_aggregates-Wrote table rest s' l a.1 in
        (
          rs ++ qs,
          ap (λ o. o >>= λ r. aggregate_rows rest >>= λ q. some (r ++ q)) e
              ∙ ap (λ o. o >>= λ q. some (rs ++ q)) e',
          (
            s'',
            ap (λ o. o >>= λ p. unless_error p (write_aggregates db conf kind table rest)) f ∙ f',
            λ u.
                g' u
                ∙ ap (λ xs. xs ++ (if same table u then qs else [])) (g u)
                ∙ append-if (same table u) (laws.given u s) rs qs,
          ),
        )
