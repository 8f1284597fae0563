-- ===== src/Sql/Migration.antt =====
-- pumps/common.go: `HandleTableMigration` and `MigrateAllShardedTables`.
use tyk_pump.Base.{
  Bool, true, false, List, [], ◌∷◌, ◌++◌, Option, none, some, Text, text, filter, has_prefix, same,
  length, ◌&&◌, ◌||◌, ◌==◌, if◌then◌else◌,
}
use tyk_pump.Sql.Shards.{drop}

-- What the migration asks of the database: its kind, the names of its tables, or an error, and
-- `AutoMigrate` of a table, which returns nil or an error.
pub record Migrations : Type 1 where
  pub State : Type 0
  pub dialect : Text
  pub tables : State → Option (List Text)
  pub auto_migrate : Text → State → Option Text × State

-- The name is that of a table of a day. `is_date` tells whether `time.Parse` takes the date.
unfoldable pub is_sharded : (is_date : Text → Bool) → (table_prefix table : Text) → Bool
is_sharded is_date table_prefix table =
    let full_table_prefix = table_prefix ++ text "_" in
    let suffix = drop (length full_table_prefix) table in
    has_prefix table full_table_prefix && length suffix == 8 && is_date suffix

abbrev pub is_known : Text → Bool
is_known dialect =
    same dialect (text "sqlite") || same dialect (text "mysql") || same dialect (text "postgres")

module _ (migrations : Migrations) (is_date : Text → Bool) where
  open migrations use {State, dialect, tables, auto_migrate}

  -- Each table, errors logged.
  unfoldable pub migrate_each : List Text → State → State
  migrate_each [] s = s
  migrate_each (t ∷ ts) s = migrate_each ts (auto_migrate t s).1

  -- Where the tables cannot be listed, nothing is migrated.
  abbrev pub migrate_listed : Text → Option (List Text) → State → State
  migrate_listed table_prefix none s = s
  migrate_listed table_prefix (some ts) s =
      migrate_each (filter (is_sharded is_date table_prefix) ts) s

  -- `MigrateAllShardedTables`
  unfoldable pub migrate_all_sharded_tables : Text → State → Option Text × State
  migrate_all_sharded_tables table_prefix s =
      if is_known dialect
      then (none, migrate_listed table_prefix (tables s) s)
      else (some (text "unsupported database type: " ++ dialect), s)

  -- `HandleTableMigration`; `today` is the date in the form of the tables. Only the error of the one table
  -- that is not sharded is returned.
  unfoldable pub handle_table_migration :
      (table_sharding migrate_sharded_tables : Bool)
      → (table_name today : Text) → State
      → Option Text × State
  handle_table_migration false migrate_sharded_tables table_name today s = auto_migrate table_name s
  handle_table_migration true true table_name today s =
      (none, (migrate_all_sharded_tables table_name s).1)
  handle_table_migration true false table_name today s =
      (none, (auto_migrate (table_name ++ (text "_" ++ today)) s).1)
