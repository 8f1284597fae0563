-- ===== src/Pump/Secrets.antt =====
-- kv.go and pumps/pump.go: the references to key-value stores in a configuration, and the variables of the
-- environment that name them.
pub mod Owned
use tyk_pump.Base.{
  Bool, true, false, not, List, [], ◌∷◌, ◌++◌, map, filter, Option, none, some, Text, text,
  is_empty, has_prefix, length, ◌==◌, ℕ, Map, lookup, if◌then◌else◌,
}
use tyk_pump.Sql.Shards.{drop}
use tyk_pump.Pump.Env.{Environment, environ, put_in_front, trim_prefix}

-- What the packages of the stores and of JSON do: `Registry` is an open registry with its resolver, `Config` a
-- configuration; `none` is an error.
pub record Stores : Type 1 where
  pub State : Type 0
  pub Registry : Type 0
  pub Config : Type 0
  pub marshal : Config → Option Text
  pub unmarshal : Text → Config → Option Config
  pub contains_references : Text → Bool
  pub new_from_config : Text → State → Option Registry × State
  pub resolve_all : Registry → Text → State → Option Text × State
  pub close : Registry → State → Bool × State

-- What `resolveKVReferences` of kv.go returns: an error, or the stores, if any, and the configuration.
pub data Resolved (Registry Config : Type 0) : Type 0 where
  failed : Resolved Registry Config
  resolved : Option Registry → Config → Resolved Registry Config

module _ (stores : Stores) where
  open stores use {
    State, Registry, Config, marshal, unmarshal, contains_references, new_from_config, resolve_all,
    close,
  }

  -- An error that comes once the stores are open: they are closed, whose own error is logged.
  abbrev pub close_failed : Registry → State → Resolved Registry Config × State
  close_failed r s = (failed, (close r s).1)

  abbrev pub keep_decoded : Registry → Option Config → State → Resolved Registry Config × State
  keep_decoded r none s = close_failed r s
  keep_decoded r (some config) s = (resolved (some r) config, s)

  abbrev pub decode_resolved :
      Config → Registry → Option Text × State → Resolved Registry Config × State
  decode_resolved config r (none, s) = close_failed r s
  decode_resolved config r (some bytes, s) = keep_decoded r (unmarshal bytes config) s

  abbrev pub resolve_with :
      Config → Text → Option Registry × State → Resolved Registry Config × State
  resolve_with config bytes (none, s) = (failed, s)
  resolve_with config bytes (some r, s) = decode_resolved config r (resolve_all r bytes s)

  abbrev pub resolve_marshaled :
      (store_count : ℕ) → Config → Option Text → State → Resolved Registry Config × State
  resolve_marshaled store_count config none s = (failed, s)
  resolve_marshaled store_count config (some bytes) s =
      if store_count == 0
      then if contains_references bytes then (failed, s) else (resolved none config, s)
      else resolve_with config bytes (new_from_config bytes s)

  -- `resolveKVReferences` of kv.go; `store_count` is the number of stores that the configuration declares.
  unfoldable pub resolve_kv_references :
      (store_count : ℕ) → Config → State → Resolved Registry Config × State
  resolve_kv_references store_count config s =
      resolve_marshaled store_count config (marshal config) s

  abbrev pub decode_pump : Config → Option Text × State → Option Config × State
  decode_pump config (none, s) = (none, s)
  decode_pump config (some bytes, s) = (unmarshal bytes config, s)

  abbrev pub resolve_pump : Option Registry → Config → Text → State → Option Config × State
  resolve_pump none config raw s = (none, s)
  resolve_pump (some r) config raw s = decode_pump config (resolve_all r raw s)

  abbrev pub resolve_pump_marshaled :
      Option Registry → Config → Option Text → State → Option Config × State
  resolve_pump_marshaled resolver config none s = (none, s)
  resolve_pump_marshaled resolver config (some raw) s =
      if contains_references raw then resolve_pump resolver config raw s else (some config, s)

  -- `resolveKVReferences` of pumps/pump.go, with the resolver that is installed.
  unfoldable pub resolve_pump_references : Option Registry → Config → State → Option Config × State
  resolve_pump_references resolver config s =
      resolve_pump_marshaled resolver config (marshal config) s

  -- `process` is `envconfig.Process`, whose error is logged.
  module _ (process : Text → Config → Config) where
    -- `effectiveEnvPrefix`
    abbrev pub effective_env_prefix : (env_prefix default_env : Text) → Text
    effective_env_prefix env_prefix default_env =
        if is_empty env_prefix then default_env else env_prefix

    -- `processPumpEnvVars`; without a configuration the process has ended.
    unfoldable pub process_pump_env_vars :
        Option Registry → (env_prefix default_env : Text) → Config → State → Option Config × State
    process_pump_env_vars resolver env_prefix default_env config s =
        resolve_pump_references resolver
          (process (effective_env_prefix env_prefix default_env) config) s

    -- The name in front of the first `=`, which `strings.Cut` may not find.
    unfoldable pub cut_name : Text → Option Text
    cut_name [] = none
    cut_name (c ∷ s) = let rest = cut_name s in if c == b'=' then some [] else put_in_front c rest

    abbrev pub keep_prefixed : Text → Option Text → List Text → List Text
    keep_prefixed prefix none names = names
    keep_prefixed prefix (some name) names =
        if has_prefix name (prefix ++ text "_") then name ∷ names else names

    -- `envVarNamesWithPrefix`
    unfoldable pub env_var_names_with_prefix : Text → List Text → List Text
    env_var_names_with_prefix prefix [] = []
    env_var_names_with_prefix prefix (variable ∷ variables) =
        keep_prefixed prefix (cut_name variable) (env_var_names_with_prefix prefix variables)

    -- `os.Getenv`
    abbrev pub getenv : Option Text → Text
    getenv none = []
    getenv (some value) = value

    -- `envVarsWithKVReference`
    unfoldable pub env_vars_with_kv_reference : Environment → List Text → List Text
    env_vars_with_kv_reference env names =
        filter (λ name. contains_references (getenv (lookup name env))) names

    -- `renamedEnvVars`
    unfoldable pub renamed_env_vars :
        List Text → (legacy_prefix replacement_prefix : Text) → List Text
    renamed_env_vars names legacy_prefix replacement_prefix =
        map
          (λ name. name ++ (text " -> " ++ (replacement_prefix ++ trim_prefix name legacy_prefix)))
          names

    -- `processLegacyPumpEnvVars`; `none` is the end of the process.
    unfoldable pub process_legacy_pump_env_vars :
        Environment → (legacy_prefix : Text) → Config → Option Config
    process_legacy_pump_env_vars env legacy_prefix config =
        let names = env_var_names_with_prefix legacy_prefix (environ env) in
        if length (env_vars_with_kv_reference env names) == 0
        then some (process legacy_prefix config)
        else none
