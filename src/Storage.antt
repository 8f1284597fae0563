-- ===== src/Storage.antt =====
-- storage/temporal_storage.go: the temporal store, on the lists of the storage package.
pub mod Connection
pub mod Delivery
pub mod Started
use tyk_pump.Base.{
  Bool, true, false, List, Option, none, some, ◌++◌, Text, text, is_empty, Int64, minus_one, ◌==◌,
  if◌then◌else◌,
}
use tyk_pump.Pump.Purge.{Store}

-- What the handler uses of the storage package: a connection that is made or fails, `Pop` of a list,
-- and `Expire`.
pub record Library : Type 1 where
  pub State : Type 0
  pub ensure_connection : State → Bool × State
  pub pop : Text → Int64 → State → Option (List Text) × State
  pub expire : Text → State → Bool × State

-- `KeyPrefix`
abbrev pub default_key_prefix : Text
default_key_prefix = text "analytics-"

-- The switch of `Init`: the key prefix of the configuration, or its name for Redis, or the default.
unfoldable pub init_key_prefix : Text → Text → Text
init_key_prefix key_prefix redis_key_prefix =
    if is_empty key_prefix
    then if is_empty redis_key_prefix then default_key_prefix else redis_key_prefix
    else key_prefix

-- `fixKey`
abbrev pub fix_key : Text → Text → Text
fix_key key_prefix key_name = key_prefix ++ key_name

-- A chunk of 0 stands for all values, which the package writes as -1.
abbrev pub chunk_of : Int64 → Int64
chunk_of chunk_size = if chunk_size == 0 then minus_one else chunk_size

module _ (lib : Library) where
  open lib use {State, ensure_connection, pop, expire}

  -- The values that were popped: they are returned only if the expiry, where it is set, is set without
  -- an error.
  unfoldable pub keep_popped :
      Text → Int64 → Option (List Text) → State → Option (List Text) × State
  keep_popped key chunk none s = (none, s)
  keep_popped key chunk (some values) s =
      if chunk == minus_one
      then (some values, s)
      else if (expire key s).0
      then (some values, (expire key s).1)
      else (none, (expire key s).1)

  -- `GetAndDeleteSet`
  unfoldable pub get_and_delete_set : Text → Int64 → Text → State → Option (List Text) × State
  unfolding keep_popped
  get_and_delete_set key_prefix chunk_size key_name s =
      let (connected, s₁) = ensure_connection s in
      let key = fix_key key_prefix key_name in
      let chunk = chunk_of chunk_size in
      let (popped, s₂) = pop key chunk s₁ in
      if connected then keep_popped key chunk popped s₂ else (none, s₁)

  -- The handler, as the purge loop sees it.
  abbrev pub temporal_store : Text → Int64 → Store
  temporal_store key_prefix chunk_size = record {
    State = State;
    get_and_delete_set = get_and_delete_set key_prefix chunk_size;
  }
