-- ===== src/Pump/Env.antt =====
-- config.go: the pumps that the configuration and the environment name.
pub mod Named
use tyk_pump.Base.{
  ℕ, ◌-◌, Bool, true, false, ◌&&◌, List, [], ◌∷◌, ◌++◌, map, any, Option, none, some, Text, text,
  is_empty, same, has_prefix, length, leb, ◌==◌, Map, lookup, insert, if◌then◌else◌,
}
use tyk_pump.Sql.Shards.{drop}
use tyk_pump.Pump.Config.{no_filters}
use tyk_pump.Pump.Life.{PumpConfig, available_pumps, to_lower}

-- The variables of the environment, and `os.Environ`.
abbrev pub Environment : Type 0
Environment = Map Text

abbrev pub environ : Environment → List Text
environ env = map (λ e. e.0 ++ (text "=" ++ e.1)) env

-- `PUMPS_ENV_PREFIX`, `PUMPS_ENV_META_PREFIX`
abbrev pub pumps_env_prefix : Text
pumps_env_prefix = text "TYK_PMP_PUMPS"

abbrev pub pumps_env_meta_prefix : Text
pumps_env_meta_prefix = text "_META"

-- `strings.ToUpper`, of letters that are ASCII.
unfoldable pub to_upper : Text → Text
to_upper s = map (λ c. if leb b'a' c && leb c b'z' then c - 32 else c) s

-- `strings.TrimPrefix`
abbrev pub trim_prefix : Text → Text → Text
trim_prefix s prefix = if has_prefix s prefix then drop (length prefix) s else s

abbrev pub put_in_front : ℕ → Option Text → Option Text
put_in_front c none = none
put_in_front c (some s) = some (c ∷ s)

-- The first element of `strings.Split(s, "_")`, if there are two or more.
unfoldable pub first_keyword : Text → Option Text
first_keyword [] = none
first_keyword (c ∷ s) =
    let rest = first_keyword s in if c == b'_' then some [] else put_in_front c rest

abbrev pub upper_keyword : Option Text → Option Text
upper_keyword none = none
upper_keyword (some s) = some (to_upper s)

-- The pump that a variable names.
unfoldable pub pump_name : Text → Option Text
pump_name variable =
    if has_prefix variable pumps_env_prefix
    then upper_keyword (first_keyword (trim_prefix variable (pumps_env_prefix ++ text "_")))
    else none

abbrev pub note_name : Option Text → Map Bool → Map Bool
note_name none names = names
note_name (some name) names = insert name true names

-- `osPumpsEnvNames`, a set.
unfoldable pub env_names : List Text → Map Bool → Map Bool
env_names [] names = names
env_names (variable ∷ variables) names = env_names variables (note_name (pump_name variable) names)

module _ {M : Type 0} where
  -- The keys of the pumps of a file become upper case; the order is that in which Go visits them.
  unfoldable pub to_upper_map : Map (PumpConfig M) → Map (PumpConfig M) → Map (PumpConfig M)
  to_upper_map [] upper = upper
  to_upper_map ((name, pmp) ∷ pumps) upper = to_upper_map pumps (insert (to_upper name) pmp upper)

-- `V` is what a `meta` map holds; `text_value` is a string as such a value, and `process` is
-- `envconfig.Process` on the fields of a pump, whose error is logged.
module _ {V : Type 0} (text_value : Text → V)
    (process : Text → PumpConfig (Map V) → PumpConfig (Map V)) (env : Environment) where
  -- `PumpConfig{}`
  abbrev pub zero_pump : PumpConfig (Map V)
  zero_pump = record {
    kind = [];
    filters = no_filters;
    timeout = 0;
    omit_detailed_recording = false;
    max_record_size = 0;
    ignore_fields = [];
    decode_raw_request = false;
    decode_raw_response = false;
    meta = [];
  }

  abbrev pub pump_or_zero : Option (PumpConfig (Map V)) → PumpConfig (Map V)
  pump_or_zero none = zero_pump
  pump_or_zero (some pmp) = pmp

  abbrev pub type_or_kind : Option Text → Text → Option Text
  type_or_kind (some pmp_type) kind = some pmp_type
  type_or_kind none kind = if is_empty kind then none else some kind

  -- `pmpType`: the name where it is a pump's, or the variable, or the type of the file.
  unfoldable pub pump_type : Text → PumpConfig (Map V) → Option Text
  pump_type name pmp =
      if any (same (to_lower name)) available_pumps
      then some name
      else type_or_kind (lookup (pumps_env_prefix ++ (text "_" ++ (name ++ text "_TYPE"))) env)
          pmp.kind

  -- The pump with the variables of its name.
  unfoldable pub with_env : Text → Text → PumpConfig (Map V) → PumpConfig (Map V)
  with_env name pmp_type pmp =
      let prefix = pumps_env_prefix ++ (text "_" ++ name) in
      let p = process prefix pmp in
      record p {
        meta =
            insert (text "meta_env_prefix") (text_value (prefix ++ pumps_env_meta_prefix)) p.meta;
        kind = to_lower pmp_type;
      }

  abbrev pub store_pump :
      Text → Option Text → PumpConfig (Map V) → Map (PumpConfig (Map V)) → Map (PumpConfig (Map V))
  store_pump name none pmp pumps = pumps
  store_pump name (some pmp_type) pmp pumps = insert name (with_env name pmp_type pmp) pumps

  -- A round of the second loop: a pump without a type is passed over.
  unfoldable pub load_pump : Text → Map (PumpConfig (Map V)) → Map (PumpConfig (Map V))
  load_pump name pumps =
      let pmp = pump_or_zero (lookup name pumps) in store_pump name (pump_type name pmp) pmp pumps

  -- `LoadPumpsByEnv`, with the names of the set in the order in which Go visits them.
  unfoldable pub load_pumps_by_env : List Text → Map (PumpConfig (Map V)) → Map (PumpConfig (Map V))
  load_pumps_by_env [] pumps = pumps
  load_pumps_by_env (name ∷ names) pumps = load_pumps_by_env names (load_pump name pumps)
