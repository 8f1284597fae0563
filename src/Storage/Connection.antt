-- ===== src/Storage/Connection.antt =====
-- storage/temporal_storage.go and iam_auth.go: the connection of the handler, which all handlers share.
pub mod Up
use tyk_pump.Base.{
  Bool, true, false, not, ◌&&◌, ◌||◌, List, [], ◌++◌, Option, none, some, Text, text, is_empty,
  same, Int64, lt64, if◌then◌else◌,
}
use tyk_pump.Aggregate.Keys.{trim_space}
use tyk_pump.Pump.Life.{to_lower}
use tyk_pump.Storage.{Library, init_key_prefix, fix_key}

-- `IAMAuthConfig`
pub record IamAuthConfig : Type 0 where
  pub provider : Text
  pub service_account : Text
  pub token_refresh_before_expiry : Text
  pub enabled : Bool

-- `TemporalStorageConfig`; what is passed on to the package as it stands is `rest`, of a type `O`.
pub record TemporalStorageConfig (O : Type 0) : Type 0 where
  pub kind : Text
  pub key_prefix : Text
  pub redis_key_prefix : Text
  pub timeout : Int64
  pub max_active : Int64
  pub use_ssl : Bool
  pub redis_use_ssl : Bool
  pub ssl_insecure_skip_verify : Bool
  pub redis_ssl_insecure_skip_verify : Bool
  pub iam_auth : IamAuthConfig
  pub rest : O

-- `model.RedisOptions` and `model.TLS`, with the provider of the credentials.
pub record ConnectorOptions (O P : Type 0) : Type 0 where
  pub max_active : Int64
  pub timeout : Int64
  pub tls_enable : Bool
  pub tls_insecure_skip_verify : Bool
  pub rest : O
  pub credentials : Option P

-- The packages: a call gives what it makes, or whether it succeeded.
pub record Package : Type 1 where
  pub State : Type 0
  pub Connector : Type 0
  pub Provider : Type 0
  pub Rest : Type 0
  pub process_env : Text → TemporalStorageConfig Rest → Option (TemporalStorageConfig Rest)
  pub disconnect : Connector → State → Bool × State
  pub new_provider : (provider account refresh : Text) → State → Option Provider × State
  pub new_connector : ConnectorOptions Rest Provider → State → Option Connector × State
  pub new_key_value : Connector → State → Bool × State
  pub new_list : Connector → State → Bool × State
  pub pop : Connector → Text → Int64 → State → Option (List Text) × State
  pub expire : Connector → Text → State → Bool × State
  pub set : Connector → Text → Text → Int64 → State → Bool × State

module _ (pkg : Package) where
  open pkg use {
    State, Connector, Provider, Rest, process_env, disconnect, new_provider, new_connector,
    new_key_value, new_list, pop, expire, set,
  }

  -- `TemporalStorageHandler`, with `connectorSingleton`: the connectors that its three parts stand on.
  pub record Handler : Type 0 where
    pub config : TemporalStorageConfig Rest
    pub force_reconnect : Bool
    pub connector : Option Connector
    pub key_value : Option Connector
    pub lists : Option Connector
    pub store : State

  -- `NewTemporalStorageHandler`, once the configuration is decoded.
  abbrev pub new_handler : TemporalStorageConfig Rest → Bool → Option Connector → State → Handler
  new_handler config force_reconnect connector s = record {
    config = config;
    force_reconnect = force_reconnect;
    connector = connector;
    key_value = none;
    lists = none;
    store = s;
  }

  abbrev pub credentials_of : Option Provider × State → Option (Option Provider) × State
  credentials_of (none, s) = (none, s)
  credentials_of (some p, s) = (some (some p), s)

  -- `buildIAMAuthOption`: `none` is an error, and `some none` no option.
  unfoldable pub build_iam_auth_option : IamAuthConfig → State → Option (Option Provider) × State
  build_iam_auth_option c s =
      if c.enabled
      then credentials_of (
          new_provider (to_lower (trim_space c.provider)) c.service_account
            c.token_refresh_before_expiry s)
      else (some none, s)

  abbrev pub or_default : Int64 → Int64 → Int64
  or_default n fallback = if lt64 0 n then n else fallback

  abbrev pub options_of :
      TemporalStorageConfig Rest → Option Provider → ConnectorOptions Rest Provider
  options_of c credentials = record {
    max_active = or_default c.max_active 500;
    timeout = or_default c.timeout 5;
    tls_enable = c.use_ssl || c.redis_use_ssl;
    tls_insecure_skip_verify = c.ssl_insecure_skip_verify || c.redis_ssl_insecure_skip_verify;
    rest = c.rest;
    credentials = credentials;
  }

  -- The connector, unless its lists or its keys and values fail.
  abbrev pub with_list : Connector → Bool × State → Option Connector × State
  with_list c (made, s) = (if made then some c else none, s)

  abbrev pub with_key_value : Connector → Bool × State → Option Connector × State
  with_key_value c (false, s) = (none, s)
  with_key_value c (true, s) = with_list c (new_list c s)

  abbrev pub with_connector : Option Connector × State → Option Connector × State
  with_connector (none, s) = (none, s)
  with_connector (some c, s) = with_key_value c (new_key_value c s)

  abbrev pub with_credentials :
      TemporalStorageConfig Rest → Option (Option Provider) × State → Option Connector × State
  with_credentials config (none, s) = (none, s)
  with_credentials config (some credentials, s) =
      with_connector (new_connector (options_of config credentials) s)

  -- `createConnector`
  unfoldable pub create_connector : TemporalStorageConfig Rest → State → Option Connector × State
  create_connector config s = with_credentials config (build_iam_auth_option config.iam_auth s)

  -- A connector that could not be made leaves the handler, and the shared connector, as they were.
  abbrev pub install : Handler → Option Connector × State → Bool × Handler
  install h (none, s) = (false, record h { store = s })
  install h (some c, s) =
      (true, record h { connector = some c; key_value = some c; lists = some c; store = s })

  abbrev pub after_disconnect : Handler → Bool × State → Bool × Handler
  after_disconnect h (false, s) = (false, record h { store = s })
  after_disconnect h (true, s) = install h (create_connector h.config s)

  abbrev pub disconnect_old : Option Connector → State → Bool × State
  disconnect_old none s = (true, s)
  disconnect_old (some c) s = disconnect c s

  -- `resetConnection`
  unfoldable pub reset_connection : Handler → Bool × Handler
  reset_connection h = after_disconnect h (disconnect_old h.connector h.store)

  -- The lists of a connector that is there already, after its keys and values.
  abbrev pub take_lists : Handler → Connector → Bool × State → Bool × Handler
  take_lists h c (made, s) = (made, record h { lists = if made then some c else none; store = s })

  abbrev pub take_key_value : Handler → Connector → Bool × State → Bool × Handler
  take_key_value h c (false, s) = (false, record h { key_value = none; store = s })
  take_key_value h c (true, s) =
      take_lists (record h { key_value = some c; store = s }) c (new_list c s)

  abbrev pub is_missing : Option Connector → Bool
  is_missing none = true
  is_missing (some c) = false

  abbrev pub connect_with : Handler → Option Connector → Bool × Handler
  connect_with h none = (true, h)
  connect_with h (some c) =
      if is_missing h.key_value || is_missing h.lists
      then take_key_value h c (new_key_value c h.store)
      else (true, h)

  -- `connect`
  unfoldable pub connect : Handler → Bool × Handler
  connect h =
      if is_missing h.connector || h.force_reconnect
      then if same h.config.kind (text "redis") || is_empty h.config.kind
        then reset_connection h
        else (false, h)
      else connect_with h h.connector

  abbrev pub init_with : Handler → Option (TemporalStorageConfig Rest) → Bool × Handler
  init_with h none = (false, h)
  init_with h (some config) = connect (record h {
    config = record config {
      key_prefix = init_key_prefix config.key_prefix config.redis_key_prefix;
    };
  })

  abbrev pub process_second :
      Option (TemporalStorageConfig Rest) → Option (TemporalStorageConfig Rest)
  process_second none = none
  process_second (some config) = process_env (text "TYK_PMP_TEMPORAL_STORAGE") config

  -- `Init`: the variables of the environment, the key prefix, and the connection.
  unfoldable pub init : Handler → Bool × Handler
  init h = init_with h (process_second (process_env (text "TYK_PMP_REDIS") h.config))

  -- The operation that `ensureConnection` tries.
  abbrev pub attempt : Handler → Bool × Handler
  attempt h = let (connected, h') = connect h in (connected && not (is_missing h'.connector), h')

  -- `ensureConnection`, with `backoff.Retry`.
  module _ (retry : (Handler → Bool × Handler) → Handler → Bool × Handler) where
    unfoldable pub ensure_connection : Handler → Bool × Handler
    ensure_connection h = if is_missing h.connector then retry attempt h else (true, h)

    -- `SetKey`; `none` is a nil pointer.
    abbrev pub set_with : Option Connector → Text → Text → Int64 → Handler → Option (Bool × Handler)
    set_with none key session timeout h = none
    set_with (some c) key session timeout h =
        let (done, s) = set c key session timeout h.store in some (done, record h { store = s })

    unfoldable pub set_key : Text → Text → Int64 → Handler → Option (Bool × Handler)
    set_key key_name session timeout h =
        let (connected, h') = ensure_connection h in
        if connected
        then set_with h'.key_value (fix_key h'.config.key_prefix key_name) session timeout h'
        else some (false, h')

    -- What `GetAndDeleteSet` uses of a handler whose keys, values and lists stand on connectors.
    abbrev pub handler_library : Handler → (key_value lists : Connector) → Library
    handler_library h key_value lists = record {
      State = State;
      ensure_connection = λ s.
          let (connected, h') = ensure_connection (record h { store = s }) in (connected, h'.store);
      pop = pop lists;
      expire = expire key_value;
    }
