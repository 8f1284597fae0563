-- ===== src/Pump/Life.antt =====
-- main.go: the pumps from their start to their shutdown, with the loop between. What a pump's `Init` and
-- `Shutdown` do is a parameter.
pub mod Shutdown
use tyk_pump.Base.{
  ℕ, zero, suc, ◌-◌, ◌+◌, Bool, true, false, not, ◌&&◌, List, [], ◌∷◌, ◌++◌, map, any, Option, none,
  some, ◌>>=◌, Text, text, is_empty, same, leb, Int64, Map, if◌then◌else◌,
}
use tyk_pump.Analytics.Filters.{AnalyticsFilters}
use tyk_pump.Pump.Config.{
  CommonPumpConfig, zero_config, set_filters, set_timeout, set_omit_detailed_recording,
  set_max_record_size, set_ignore_fields, set_decoding_response, set_decoding_request,
}
use tyk_pump.Pump.Purge.{Serializer, Store, Deliveries, values_or_none, purge}

-- `PumpConfig`; `M` stands for the `meta` map, which the pump's `Init` decodes.
pub record PumpConfig (M : Type 0) : Type 0 where
  pub kind : Text
  pub filters : AnalyticsFilters
  pub timeout : Int64
  pub omit_detailed_recording : Bool
  pub max_record_size : Int64
  pub ignore_fields : List Text
  pub decode_raw_request : Bool
  pub decode_raw_response : Bool
  pub meta : M

-- The keys of `AvailablePumps`, the pumps that keep the decoding setters of `CommonPumpConfig` first. Those
-- of MongoDB and SQL have setters that only warn.
abbrev pub decoding_pumps : List Text
decoding_pumps =
    text "dummy"
    ∷ text "csv"
    ∷ text "elasticsearch"
    ∷ text "influx"
    ∷ text "influx2"
    ∷ text "moesif"
    ∷ text "statsd"
    ∷ text "segment"
    ∷ text "graylog"
    ∷ text "splunk"
    ∷ text "hybrid"
    ∷ text "prometheus"
    ∷ text "logzio"
    ∷ text "dogstatsd"
    ∷ text "kafka"
    ∷ text "syslog"
    ∷ text "stdout"
    ∷ text "timestream"
    ∷ text "sql-graph"
    ∷ text "sql-graph-aggregate"
    ∷ text "sql-mcp"
    ∷ text "sql-mcp-aggregate"
    ∷ text "resurfaceio"
    ∷ text "sqs"
    ∷ text "kinesis"
    ∷ []

abbrev pub warning_pumps : List Text
warning_pumps =
    text "mongo"
    ∷ text "mongo-pump-selective"
    ∷ text "mongo-pump-aggregate"
    ∷ text "sql"
    ∷ text "sql_aggregate"
    ∷ text "mongo-graph"
    ∷ text "mongo-mcp"
    ∷ text "mongo-mcp-aggregate"
    ∷ []

abbrev pub available_pumps : List Text
available_pumps = decoding_pumps ++ warning_pumps

-- `strings.ToLower`, of letters that are ASCII.
unfoldable pub to_lower : Text → Text
to_lower s = map (λ c. if leb b'A' c && leb c b'Z' then c + 32 else c) s

-- `GetPumpByName`: the key of the pump; `none` is the error.
unfoldable pub get_pump_by_name : Text → Option Text
get_pump_by_name name =
    if any (same (to_lower name)) available_pumps then some (to_lower name) else none

-- The setters of a new pump, in the order of `initialisePumps`.
unfoldable pub configure : {M : Type 0} → Text → PumpConfig M → CommonPumpConfig
configure name pmp =
    let common = set_ignore_fields pmp.ignore_fields (
      set_max_record_size pmp.max_record_size (
        set_omit_detailed_recording pmp.omit_detailed_recording
          (set_timeout pmp.timeout (set_filters pmp.filters zero_config)))) in
    if any (same name) decoding_pumps
    then set_decoding_response pmp.decode_raw_response
        (set_decoding_request pmp.decode_raw_request common)
    else common

-- An element of `Pumps`: its type, and its options.
pub record ActivePump : Type 0 where
  pub name : Text
  pub options : CommonPumpConfig

module _ {M : Type 0} (init : Text → M → Option Text) where
  abbrev pub keep_initialised : Option Text → ActivePump → List ActivePump → List ActivePump
  keep_initialised none p pumps = p ∷ pumps
  keep_initialised (some e) p pumps = pumps

  abbrev pub keep_found : Option Text → PumpConfig M → List ActivePump → List ActivePump
  keep_found none pmp pumps = pumps
  keep_found (some name) pmp pumps =
      keep_initialised (init name pmp.meta) (record { name = name; options = configure name pmp })
        pumps

  -- The loop over `SystemConfig.Pumps`, in one of the orders of the map. The type of a pump is its key where
  -- none is given; a type that is not found, or an error of `Init`, is logged, and the pump skipped.
  unfoldable pub load_pumps : List (Text × PumpConfig M) → List ActivePump
  load_pumps [] = []
  load_pumps ((key, pmp) ∷ rest) =
      keep_found (get_pump_by_name (if is_empty pmp.kind then key else pmp.kind)) pmp
        (load_pumps rest)

  -- `initialisePumps` up to the uptime pump; without a pump it ends the process.
  unfoldable pub initialise_pumps : List (Text × PumpConfig M) → Option (List ActivePump)
  initialise_pumps configs = elim (load_pumps configs) [ [] ↦ none | p ∷ pumps ↦ some (p ∷ pumps) ]

-- The loop's state: the two stores, what was written, the pumps that were shut down, and what the wait
-- group of `main` waits for.
pub record Life (store uptime_store : Store) : Type 0 where
  pub analytics : store.State
  pub uptime : uptime_store.State
  pub written : Deliveries
  pub uptime_written : List (List Text)
  pub shut_down : List Text
  pub waiting : ℕ

module _ (system_max : Int64) (dont_purge_uptime_data : Bool) (pumps : List ActivePump)
    (store uptime_store : Store) (serializers : List Serializer) where
  abbrev pub uptime_keyname : Text
  uptime_keyname = text "tyk-uptime-analytics"

  -- The uptime data of a tick, which `WriteUptimeData` is given also where there are none.
  unfoldable pub purge_uptime : Life store uptime_store → Life store uptime_store
  purge_uptime l =
      let (found, s) = uptime_store.get_and_delete_set uptime_keyname l.uptime in
      if dont_purge_uptime_data
      then l
      else record l { uptime = s; uptime_written = l.uptime_written ++ (values_or_none found ∷ []) }

  -- A round of the loop, up to `checkShutdown`; `none` is a panic.
  unfoldable pub tick : Life store uptime_store → Option (Life store uptime_store)
  tick l = do
    p ← purge system_max (map (λ a. a.options) pumps) store serializers l.analytics
    some (purge_uptime (record l { analytics = p.0; written = l.written ++ p.1 }))

  -- `checkShutdown`, where the context is done: an error of a pump's `Shutdown` is logged.
  unfoldable pub shut_down_pumps : Life store uptime_store → Life store uptime_store
  shut_down_pumps l = record l {
    shut_down = l.shut_down ++ map (λ a. a.name) pumps;
    waiting = l.waiting - 1;
  }

  -- `StartPurgeLoop`, over the ticks: each tells whether the context is done when it is checked.
  unfoldable pub purge_loop : List Bool → Life store uptime_store → Option (Life store uptime_store)
  purge_loop [] l = some l
  purge_loop (is_done ∷ ticks) l =
      tick l >>= λ l'. if is_done then some (shut_down_pumps l') else purge_loop ticks l'
