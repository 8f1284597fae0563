-- ===== src/Tests/Config.antt =====
-- Tests of the configuration: pumps named by the environment, and the stores of its references.
use tyk_pump.Base.{
  ℕ, suc, ◌+◌, ◌-◌, ◌≡◌, refl, Bool, true, false, ◌||◌, List, [], ◌∷◌, none, some, Text, text, same,
  lookup, insert, Map, has_prefix, if◌then◌else◌, arith,
}
use tyk_pump.Pump.Env.{
  Environment, environ, pump_name, first_keyword, to_upper, env_names, load_pumps_by_env,
}
use tyk_pump.Pump.Env.Named.{
  is_found, is_named, are_different, Lists, loaded, load_pumps_by_env-loaded,
}
use tyk_pump.Pump.Life.{PumpConfig}
use tyk_pump.Pump.Secrets.{Stores, resolve_kv_references}
use tyk_pump.Pump.Secrets.Owned.{Counts, handed_over, resolve_kv_references-counts}

-- A variable of each of two pumps, and one of no pump.
abbrev variables : Environment
variables =
    (text "TYK_PMP_PUMPS_CSV_META_CSVDIR", text "/tmp")
    ∷ (text "HOME", text "/root")
    ∷ (text "TYK_PMP_PUMPS_PROD_TYPE", text "kafka")
    ∷ []

abbrev visited : List Text
visited = text "PROD" ∷ text "CSV" ∷ []

two_names : env_names (environ variables) [] ≡ (text "CSV", true) ∷ (text "PROD", true) ∷ []
unfolding env_names pump_name first_keyword to_upper has_prefix insert same
two_names = refl

-- The keyword in front of the first underscore is the name.
aggregate_is_sql :
    pump_name (text "TYK_PMP_PUMPS_SQL_AGGREGATE_TYPE=sql_aggregate") ≡ some (text "SQL")
unfolding pump_name first_keyword to_upper has_prefix
aggregate_is_sql = refl

visited-Lists : Lists variables visited
unfolding are_different same lookup
visited-Lists = record {
  once = refl;
  all = λ j. rw two_names (either (same (text "PROD") j) (same (text "CSV") j));
}
  where
    either :
        (a b : Bool)
        → (a || (b || false)) ≡ is_found (if b then some true else (if a then some true else none))
    either true true = refl
    either true false = refl
    either false true = refl
    either false false = refl

abbrev loaded_pumps : Map (PumpConfig (Map Text))
loaded_pumps = load_pumps_by_env (λ t. t) (λ prefix p. p) variables visited []

load_pumps_by_env-loaded_example : lookup (text "PROD") loaded_pumps ≡ (
    if is_named variables (text "PROD")
    then loaded (λ t. t) (λ prefix p. p) variables (text "PROD") (lookup (text "PROD") [])
    else lookup (text "PROD") [])
load_pumps_by_env-loaded_example =
    load_pumps_by_env-loaded (λ t. t) (λ prefix p. p) variables visited [] visited-Lists
      (text "PROD")

-- Stores counted by a number, whose values always resolve but do not decode.
abbrev counted_stores : Stores
counted_stores = record {
  State = ℕ;
  Registry = Unit;
  Config = Text;
  marshal = λ c. some c;
  unmarshal = λ bytes c. none;
  contains_references = λ bytes. true;
  new_from_config = λ bytes n. (some tt, suc n);
  resolve_all = λ r bytes n. (some bytes, n);
  close = λ r n. (true, n - 1);
}

counted-Counts : Counts counted_stores
counted-Counts = record {
  open_stores = λ n. n;
  opens = λ bytes n r h. omega arith;
  fails = λ bytes n h. cc;
  resolves = λ r bytes n. refl;
  closes = λ r n. refl;
}

resolve_kv_references-counts_example :
    counted-Counts.open_stores (resolve_kv_references counted_stores 1 (text "kv://a/b") 0).1
    ≡ counted-Counts.open_stores 0
      + handed_over (resolve_kv_references counted_stores 1 (text "kv://a/b") 0).0
resolve_kv_references-counts_example =
    resolve_kv_references-counts counted_stores counted-Counts 1 (text "kv://a/b") 0
