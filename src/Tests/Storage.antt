-- ===== src/Tests/Storage.antt =====
-- Tests of the temporal store under the purge loop.
use mathlib.Core.Option.{some-injective}
use tyk_pump.Base.{
  ◌≡◌, refl, sym, Bool, true, false, List, [], ◌∷◌, ◌++◌, map, none, some, ◌>>=◌, Text, text, same,
  if◌then◌else◌,
}
use tyk_pump.Pump.Purge.{purge}
use tyk_pump.Pump.Purge.Answered.{are_answered}
use tyk_pump.Pump.Purge.Round.{purge_keys, round_keys, serializer_keys, deliver_all}
use tyk_pump.Storage.{init_key_prefix, keep_popped, get_and_delete_set, temporal_store}
use tyk_pump.Storage.Connection.{
  Package, TemporalStorageConfig, Handler, new_handler, build_iam_auth_option, create_connector,
  reset_connection, connect, ensure_connection, init, handler_library,
}
use tyk_pump.Storage.Connection.Up.{IsUp}
use tyk_pump.Storage.Started.{HasLists, purge_delivers_after_init}
use tyk_pump.Tests.Pump.{both, both_distinct, shelves}
use tyk_pump.Tests.Samples.{cutting}

redis_prefix_is_second : init_key_prefix [] (text "r-") ≡ text "r-"
unfolding init_key_prefix
redis_prefix_is_second = refl

-- Lists as a function from keys to values, on connections that are always made.
abbrev shelf_package : Package
shelf_package = record {
  State = Text → List Text;
  Connector = Unit;
  Provider = Unit;
  Rest = Unit;
  process_env = λ prefix config. some config;
  disconnect = λ c s. (true, s);
  new_provider = λ provider account refresh s. (some tt, s);
  new_connector = λ options s. (some tt, s);
  new_key_value = λ c s. (true, s);
  new_list = λ c s. (true, s);
  pop = λ c k n s. (some (s k), λ j. if same k j then [] else s j);
  expire = λ c k s. (true, s);
  set = λ c k v timeout s. (true, s);
}

shelf-HasLists : HasLists shelf_package
shelf-HasLists = record {
  values = λ c k s. s k;
  pops = λ c k s {vs} e. sym (some-injective (s k) vs e);
  empties = λ c k j s {vs} e. refl;
}

abbrev gives_up :
    (Handler shelf_package → Bool × Handler shelf_package)
    → Handler shelf_package
    → Bool × Handler shelf_package
gives_up attempt h = attempt h

abbrev with_prefix : Text → TemporalStorageConfig Unit
with_prefix key_prefix = record {
  kind = text "redis";
  key_prefix = key_prefix;
  redis_key_prefix = [];
  timeout = 0;
  max_active = 0;
  use_ssl = true;
  redis_use_ssl = false;
  ssl_insecure_skip_verify = false;
  redis_ssl_insecure_skip_verify = false;
  iam_auth = record {
    provider = text " GCP ";
    service_account = [];
    token_refresh_before_expiry = [];
    enabled = true;
  };
  rest = tt;
}

-- The first handler of the process, whose prefix is the default one.
abbrev started : Handler shelf_package
started = record {
  config = with_prefix (text "analytics-");
  force_reconnect = false;
  connector = some tt;
  key_value = some tt;
  lists = some tt;
  store = shelves;
}

starts :
    init shelf_package (new_handler shelf_package (with_prefix []) false none shelves)
    ≡ (true, started)
unfolding init init_key_prefix connect reset_connection create_connector build_iam_auth_option same
starts = refl

-- The lists of a function always answer.
shelves_answer :
    are_answered
      (temporal_store (handler_library shelf_package gives_up started tt tt) (text "analytics-") 0)
      (purge_keys both)
      shelves
    ≡ true
unfolding are_answered purge_keys round_keys serializer_keys get_and_delete_set keep_popped
    ensure_connection
shelves_answer = refl

purge_delivers_after_init_example :
    IsUp shelf_package started tt
    × ((purge 0
            (cutting ∷ [])
            (temporal_store
              (handler_library shelf_package gives_up started tt tt)
              (text "analytics-")
              0)
            both
            shelves
          >>= λ p. some p.1)
        ≡ deliver_all 0
            (cutting ∷ [])
            (temporal_store
              (handler_library shelf_package gives_up started tt tt)
              (text "analytics-")
              0)
            (map
              (λ k. (k.0, shelf-HasLists.values tt (text "analytics-" ++ k.1) shelves))
              (purge_keys both))
            [])
purge_delivers_after_init_example =
    purge_delivers_after_init shelf_package shelf-HasLists gives_up (with_prefix []) false none
      shelves starts refl 0 (cutting ∷ []) both shelves both_distinct shelves_answer

-- Another type than that of Redis is an error.
abbrev mongo_kind : TemporalStorageConfig Unit
mongo_kind = record (with_prefix []) { kind = text "mongo" }

other_type_fails :
    (init shelf_package (new_handler shelf_package mongo_kind false none shelves)).0 ≡ false
unfolding init init_key_prefix connect same
other_type_fails = refl
