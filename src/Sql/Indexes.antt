-- ===== src/Sql/Indexes.antt =====
-- pumps/sql.go: the table of records and its indexes.
use tyk_pump.Base.{Bool, false, List, [], ◌∷◌, ◌++◌, Option, none, some, Text, text, if◌then◌else◌}

-- An element of `indexes`.
pub record IndexSpec : Type 0 where
  pub base_name : Text
  pub column : Text

unfoldable pub indexes : List IndexSpec
indexes =
    record { base_name = text "idx_responsecode"; column = text "responsecode" }
    ∷ record { base_name = text "idx_apikey"; column = text "apikey" }
    ∷ record { base_name = text "idx_timestamp"; column = text "timestamp" }
    ∷ record { base_name = text "idx_apiid"; column = text "apiid" }
    ∷ record { base_name = text "idx_orgid"; column = text "orgid" }
    ∷ record { base_name = text "idx_oauthid"; column = text "oauthid" }
    ∷ []

-- What gorm is asked: the first four of the migrator, and a statement.
pub record Migrator : Type 1 where
  pub State : Type 0
  pub has_table : Text → State → Bool
  pub create_table : Text → State → Option Text × State
  pub has_index : (table_name index_name : Text) → State → Bool
  pub has_column : Text → State → Bool
  pub exec : Text → State → Option Text × State

-- `buildIndexName`
unfoldable pub build_index_name : (index_base_name table_name : Text) → Text
build_index_name index_base_name table_name = table_name ++ (text "_" ++ index_base_name)

module _ (migrator : Migrator) (is_postgres : Bool) where
  open migrator use {State, has_table, create_table, has_index, has_column, exec}

  -- `createIndex`
  unfoldable pub create_index :
      (index_base_name table_name column : Text) → State → Option Text × State
  create_index index_base_name table_name column s =
      let option = (if is_postgres then text "CONCURRENTLY" else []) in
      let index_name = build_index_name index_base_name table_name in
      let query =
        text "CREATE INDEX "
        ++ (option
            ++ (text " IF NOT EXISTS "
                ++ (index_name
                    ++ (text " ON " ++ (table_name ++ (text " (" ++ (column ++ text ")"))))))) in
      if has_column column s
      then exec query s
      else (some (text "cannot create index for non existent column " ++ column), s)

  abbrev pub or_next : Option Text × State → (State → Option Text × State) → Option Text × State
  or_next (none, s) next = next s
  or_next (some e, s) next = (some e, s)

  -- The loop over the indexes. In the background, where the goroutines run in some order, an error is
  -- logged.
  unfoldable pub create_missing :
      (background : Bool) → Text → List IndexSpec → State → Option Text × State
  create_missing background table_name [] s = (none, s)
  create_missing background table_name (i ∷ is) s =
      let rest = create_missing background table_name is in
      let made = create_index i.base_name table_name i.column s in
      if has_index table_name (table_name ++ i.base_name) s
      then rest s
      else if background
      then rest made.1
      else or_next made rest

  -- `ensureIndex`
  unfoldable pub ensure_index : Text → (background : Bool) → State → Option Text × State
  ensure_index table_name background s =
      if has_table table_name s
      then create_missing background table_name indexes s
      else (some (text "cannot create indexes as table doesn't exist: " ++ table_name), s)

  -- `ensureTable`
  unfoldable pub ensure_table : Text → State → Option Text × State
  ensure_table table_name s =
      if has_table table_name s
      then (none, s)
      else or_next (create_table table_name s) (ensure_index table_name false)
