-- ===== src/Storage/Started.antt =====
-- storage/temporal_storage.go under the purge loop of main.go: from `Init` to what is delivered.
use mathlib.Core.Path.{subst}
use mathlib.Core.Option.{some-injective}
use tyk_pump.Base.{
  ◌≡◌, ap, sym, ◌∙◌, Bool, true, List, [], ◌++◌, map, Option, some, ◌>>=◌, Text, same, Int64,
  minus_one, if◌then◌else◌,
}
use tyk_pump.Pump.Config.{CommonPumpConfig}
use tyk_pump.Pump.Purge.{Serializer, purge}
use tyk_pump.Pump.Purge.Round.{purge_keys, are_distinct, deliver_all}
use tyk_pump.Pump.Purge.Answered.{are_answered}
use tyk_pump.Storage.{temporal_store}
use tyk_pump.Storage.Delivery.{PopsAll, purge_delivers_lists}
use tyk_pump.Storage.Connection.{
  Package, TemporalStorageConfig, Handler, new_handler, init, handler_library,
}
use tyk_pump.Storage.Connection.Up.{IsUp, init-IsUp, ensure_connection-IsUp}

-- What the documentation says of the lists of a connector: a `Pop` with -1 that returns no error returns
-- all values of a list and empties it, and leaves the other lists alone.
pub record HasLists (pkg : Package) : Type 0 where
  pub values : pkg.Connector → Text → pkg.State → List Text
  pub pops :
      (c : pkg.Connector) (k : Text) (s : pkg.State) {vs : List Text}
      → (pkg.pop c k minus_one s).0 ≡ some vs
      → vs ≡ values c k s
  pub empties :
      (c : pkg.Connector) (k j : Text) (s : pkg.State) {vs : List Text}
      → (pkg.pop c k minus_one s).0 ≡ some vs
      → values c j (pkg.pop c k minus_one s).1 ≡ (if same k j then [] else values c j s)

module _ (pkg : Package) (laws : HasLists pkg)
    (retry : (Handler pkg → Bool × Handler pkg) → Handler pkg → Bool × Handler pkg) where
  handler_library-PopsAll :
      (h : Handler pkg) (c : pkg.Connector)
      → IsUp pkg h c
      → PopsAll (handler_library pkg retry h c c)
  handler_library-PopsAll h c up = record {
    values = laws.values c;
    connected = λ s.
        ap (λ p. (p.0, p.1.store))
          (ensure_connection-IsUp pkg retry (record h { store = s }) c
            (record { shared = up.shared; keys = up.keys; lists = up.lists }));
    pops = laws.pops c;
    empties = laws.empties c;
  }

  init-shared :
      (config : TemporalStorageConfig pkg.Rest) (force : Bool) (shared : Option pkg.Connector)
      (s₀ : pkg.State) {h : Handler pkg} {c : pkg.Connector}
      → init pkg (new_handler pkg config force shared s₀) ≡ (true, h)
      → h.connector ≡ some c
      → IsUp pkg h c
  init-shared config force shared s₀ {h} {c} e f =
      let (d, up) = init-IsUp pkg config force shared s₀ e in
      subst (λ x. IsUp pkg h x) (some-injective d c (sym up.shared ∙ f)) up

  -- Once `Init` of a new handler has returned nil, its keys, values and lists stand on the shared
  -- connector. A tick of the purge loop with a chunk size of 0, from whatever state of the package, then
  -- delivers what the list of each key under the prefix of the handler holds when the tick begins, key by
  -- key, and each once: if the names of the keys are distinct, and no `GetAndDeleteSet` of the tick returns
  -- an error.
  pub purge_delivers_after_init :
      (config : TemporalStorageConfig pkg.Rest) (force : Bool) (shared : Option pkg.Connector)
      (s₀ : pkg.State) {h : Handler pkg} {c : pkg.Connector}
      → init pkg (new_handler pkg config force shared s₀) ≡ (true, h)
      → h.connector ≡ some c
      → (system_max : Int64) (pumps : List CommonPumpConfig) (zs : List Serializer) (s : pkg.State)
      → are_distinct (purge_keys zs) ≡ true
      → are_answered
          (temporal_store (handler_library pkg retry h c c) h.config.key_prefix 0)
          (purge_keys zs)
          s
        ≡ true
      → IsUp pkg h c
        × ((purge system_max pumps
                (temporal_store (handler_library pkg retry h c c) h.config.key_prefix 0)
                zs
                s
              >>= λ p. some p.1)
            ≡ deliver_all system_max pumps
                (temporal_store (handler_library pkg retry h c c) h.config.key_prefix 0)
                (map (λ k. (k.0, laws.values c (h.config.key_prefix ++ k.1) s)) (purge_keys zs))
                [])
  unfolding handler_library-PopsAll
  purge_delivers_after_init config force shared s₀ {h} {c} e f system_max pumps zs s d a =
      let up = init-shared config force shared s₀ e f in
      (
        up,
        purge_delivers_lists (handler_library pkg retry h c c) (handler_library-PopsAll h c up)
            h.config.key_prefix system_max pumps zs s d a,
      )
