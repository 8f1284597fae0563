-- ===== src/Sql/Records/Delivered.antt =====
-- pumps/sql.go, pumps/graph_sql.go, pumps/mcp_sql.go: what the tables hold after a batch.
use mathlib.Core.List.{append_assoc, append-nil}
use mathlib.Core.Path.{ap₂}
use tyk_pump.Base.{
  append-if, if_nil, ◌≤◌, ◌≡◌, refl, sym, ap, ◌∙◌, Bool, true, false, ◌&&◌, List, [], ◌∷◌, ◌++◌,
  map, filter, Option, none, some, ◌>>=◌, Text, text, same, same_iff, same-append, All, All-snoc,
  filter-append, concat, Bool-cases, inl, inr, if◌then◌else◌,
}
use tyk_pump.Sql.Shards.{Variant, shards, batches}
use tyk_pump.Sql.Shards.Batches.{batches-concat}
use tyk_pump.Sql.Shards.Runs.{runs, runs_from, shards-runs}
use tyk_pump.Sql.Records.{SqlConf, Database, create_batches, write_shards, write_records}

-- What the documentation of the database says where nothing fails: a table is made if it is missing,
-- and a statement appends its records to the table.
pub record Appends {R : Type 0} (db : Database R) : Type 0 where
  pub rows : Text → db.State → List R
  pub ensures : (t : Text) (s : db.State) → (db.ensure_table t s).0 ≡ none
  pub keeps : (t u : Text) (s : db.State) → rows u (db.ensure_table t s).1 ≡ rows u s
  pub creates :
      (t u : Text) (rs : List R) (s : db.State)
      → rows u (db.create (some t) rs s).1 ≡ rows u s ++ (if same t u then rs else [])

-- The table of a day.
abbrev pub day_table : Text → Text → Text
day_table table_name date = table_name ++ (text "_" ++ date)

module _ {R : Type 0} (db : Database R) (laws : Appends db) (conf : SqlConf) where
  rows-create_batches :
      (t u : Text) (parts : List (List R)) (s : db.State)
      → laws.rows u (create_batches db conf (some t) parts s)
        ≡ laws.rows u s ++ (if same t u then concat parts else [])
  unfolding create_batches
  rows-create_batches t u [] s = if_nil (same t u) (laws.rows u s)
  rows-create_batches t u (rs ∷ parts) s =
      rows-create_batches t u parts (db.create (some t) rs s).1
      ∙ ap (λ xs. xs ++ (if same t u then concat parts else [])) (laws.creates t u rs s)
      ∙ append-if (same t u) (laws.rows u s) rs (concat parts)

  -- The records that the shards have for a day.
  abbrev of_day : Text → List (Text × List R) → List R
  of_day d [] = []
  of_day d ((date, recs) ∷ rest) = (if same date d then recs else []) ++ of_day d rest

  same-day_table :
      (name date d : Text) → same (day_table name date) (day_table name d) ≡ same date d
  same-day_table name date d =
      same-append name (text "_" ++ date) (text "_" ++ d) ∙ same-append (text "_") date d

  rows-write_shards :
      (stops : Bool) (name d : Text) (parts : List (Text × List R)) (s : db.State)
      → 1 ≤ conf.batch_size
      → laws.rows
          (day_table name d)
          (write_shards db conf stops name (map (λ p. (some p.0, p.1)) parts) s).1
        ≡ laws.rows (day_table name d) s ++ of_day d parts
  unfolding write_shards
  rows-write_shards stops name d [] s b = sym (append-nil _)
  rows-write_shards stops name d ((date, recs) ∷ parts) s b =
      rw (laws.ensures (day_table name date) s, no_stop stops)
        (rows-write_shards stops name d parts _ b
          ∙ ap (λ xs. xs ++ of_day d parts)
              (rows-create_batches (day_table name date) (day_table name d)
                  (batches conf.batch_size recs) _
                ∙ ap
                    (λ xs.
                      xs
                      ++ (if same (day_table name date) (day_table name d)
                          then concat (batches conf.batch_size recs)
                          else []))
                    (laws.keeps (day_table name date) (day_table name d) s)
                ∙ ap₂ (λ c (xs : List R). laws.rows (day_table name d) s ++ (if c then xs else []))
                    (same-day_table name date d) ((batches-concat conf.batch_size recs b).0))
          ∙ append_assoc (laws.rows (day_table name d) s) (if same date d then recs else [])
              (of_day d parts))
    where
      no_stop : (b : Bool) → (b && false) ≡ false
      no_stop true = refl
      no_stop false = refl

  module _ (date : R → Text) where
    abbrev pub is_on : Text → R → Bool
    is_on d r = same (date r) d

    run-filter :
        (d t : Text) (run : List R)
        → All (λ y. date y ≡ t) run
        → (if same t d then run else []) ≡ filter (is_on d) run
    run-filter d t [] a = either_way (same t d) []
      where
        either_way : (b : Bool) (xs : List R) → (if b then xs else xs) ≡ xs
        either_way true xs = refl
        either_way false xs = refl
    run-filter d t (y ∷ run) a = rw (a.0, sym (run-filter d t run a.1)) (by_day (same t d))
      where
        by_day :
            (b : Bool)
            → (if b then y ∷ run else [])
              ≡ (if b then y ∷ (if b then run else []) else (if b then run else []))
        by_day true = refl
        by_day false = refl

    of_day-runs :
        (d : Text) (x : R) (run ys : List R)
        → All (λ y. date y ≡ date x) run
        → of_day d (runs_from date x run ys) ≡ filter (is_on d) (x ∷ (run ++ ys))
    unfolding runs_from
    of_day-runs d x run [] a =
        append-nil _
        ∙ run-filter d (date x) (x ∷ run) (refl, a)
        ∙ ap (λ t. filter (is_on d) (x ∷ t)) (sym (append-nil run))
    of_day-runs d x run (y ∷ ys) a = elim (Bool-cases (same (date x) (date y))) [
      | inl h ↦ rw h (
          of_day-runs d x (run ++ (y ∷ [])) ys
            (All-snoc _ run y a (sym ((same_iff (date x) (date y)).0 h)))
          ∙ ap (λ t. filter (is_on d) (x ∷ t)) (append_assoc run (y ∷ []) ys))
      | inr h ↦ rw h (
          ap₂ ◌++◌ (run-filter d (date x) (x ∷ run) (refl, a)) (of_day-runs d y [] ys tt)
          ∙ sym (filter-append (is_on d) (x ∷ run) (y ∷ ys)))
    ]

    days_read : (rs : List R) → All (λ r. ◌≡◌ {A = Option Text} (some (date r)) (some (date r))) rs
    days_read [] = tt
    days_read (r ∷ rs) = (refl, days_read rs)

    -- Where tables are sharded, the batch size is 1 or more and the database does what it is told, each
    -- of the three pumps' writing of records returns without a panic, and the table of a day then has, after
    -- what it had, the records of that day, in order, each once.
    pub write_records-rows :
        (variant : Variant) (stops : Bool) (name d : Text) (rs : List R) (s : db.State)
        → conf.table_sharding ≡ true
        → 1 ≤ conf.batch_size
        → (write_records db conf variant stops name (λ r. some (date r)) rs s >>= λ p.
            some (laws.rows (day_table name d) p.1))
          ≡ some (laws.rows (day_table name d) s ++ filter (is_on d) rs)
    unfolding write_records runs
    write_records-rows variant stops name d [] s h b = ap some (sym (append-nil _))
    write_records-rows variant stops name d (r ∷ rs) s h b =
        rw
          (ap (λ b. shards variant b (λ q. some (date q)) (r ∷ rs)) h
            ∙ shards-runs variant (λ q. some (date q)) date (r ∷ rs) (days_read (r ∷ rs)) (λ e. cc))
          (ap some (
            rows-write_shards stops name d (runs_from date r [] rs) s b
            ∙ ap (λ t. laws.rows (day_table name d) s ++ t) (of_day-runs d r [] rs tt)))
