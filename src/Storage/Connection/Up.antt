-- ===== src/Storage/Connection/Up.antt =====
-- storage/temporal_storage.go: the connection after `Init`.
use mathlib.Core.Path.{subst}
use tyk_pump.Base.{
  ◌≡◌, refl, ap, Bool, true, false, ◌||◌, Option, none, some, Bool-cases, inl, inr, if_false, same,
  is_empty, text, arith,
}
use tyk_pump.Storage.Connection.{
  Package, TemporalStorageConfig, Handler, new_handler, install, after_disconnect, create_connector,
  disconnect_old, reset_connection, take_lists, take_key_value, is_missing, connect_with, connect,
  init_with, process_second, init, ensure_connection,
}

module _ (pkg : Package) where
  -- The shared connector is there, and the handler's parts stand on it.
  pub record IsUp (h : Handler pkg) (c : pkg.Connector) : Type 0 where
    pub shared : h.connector ≡ some c
    pub keys : h.key_value ≡ some c
    pub lists : h.lists ≡ some c

  -- How a call ends that has connected.
  abbrev pub Connects : Bool × Handler pkg → Type 0
  Connects p = p.0 ≡ true → (c : pkg.Connector) × IsUp p.1 c

  install-Connects :
      (h : Handler pkg) (p : Option pkg.Connector × pkg.State) → Connects (install pkg h p)
  install-Connects h (none, s) = λ e. cc
  install-Connects h (some c, s) = λ e. (c, record { shared = refl; keys = refl; lists = refl })

  after_disconnect-Connects :
      (h : Handler pkg) (p : Bool × pkg.State) → Connects (after_disconnect pkg h p)
  after_disconnect-Connects h (false, s) = λ e. cc
  after_disconnect-Connects h (true, s) = install-Connects h (create_connector pkg h.config s)

  take_lists-Connects :
      (h : Handler pkg) (c : pkg.Connector) (p : Bool × pkg.State)
      → h.connector ≡ some c
      → h.key_value ≡ some c
      → Connects (take_lists pkg h c p)
  take_lists-Connects h c (true, s) e f = λ g. (c, record { shared = e; keys = f; lists = refl })
  take_lists-Connects h c (false, s) e f = λ g. cc

  take_key_value-Connects :
      (h : Handler pkg) (c : pkg.Connector) (p : Bool × pkg.State)
      → h.connector ≡ some c
      → Connects (take_key_value pkg h c p)
  take_key_value-Connects h c (true, s) e =
      take_lists-Connects (record h { key_value = some c; store = s }) c (pkg.new_list c s) e refl
  take_key_value-Connects h c (false, s) e = λ g. cc

  connect_with-Connects :
      (h : Handler pkg) (o : Option pkg.Connector)
      → h.connector ≡ o
      → is_missing pkg o ≡ false
      → h.key_value ≡ none
      → Connects (connect_with pkg h o)
  connect_with-Connects h none e m f = cc
  connect_with-Connects h (some c) e m f =
      rw f (take_key_value-Connects h c (pkg.new_key_value c h.store) e)

  connect-Connects : (h : Handler pkg) → h.key_value ≡ none → Connects (connect pkg h)
  unfolding connect reset_connection
  connect-Connects h f = elim (Bool-cases (is_missing pkg h.connector || h.force_reconnect)) [
    | inl e ↦
        rw e (elim (Bool-cases (same h.config.kind (text "redis") || is_empty h.config.kind)) [
          | inl k ↦ rw k (after_disconnect-Connects h (disconnect_old pkg h.connector h.store))
          | inr k ↦ rw k (λ g. cc)
        ])
    | inr e ↦ rw e (connect_with-Connects h h.connector refl (ground arith) f)
  ]

  init_with-Connects :
      (h : Handler pkg) (o : Option (TemporalStorageConfig pkg.Rest))
      → h.key_value ≡ none
      → Connects (init_with pkg h o)
  init_with-Connects h none f = λ g. cc
  init_with-Connects h (some config) f = connect-Connects _ f

  -- If `Init` of a new handler returns nil, the shared connector is there, and the handler's keys, values and
  -- lists stand on it.
  pub init-IsUp :
      (config : TemporalStorageConfig pkg.Rest) (force : Bool) (shared : Option pkg.Connector)
      (s : pkg.State) {h : Handler pkg}
      → init pkg (new_handler pkg config force shared s) ≡ (true, h)
      → (c : pkg.Connector) × IsUp h c
  unfolding init
  init-IsUp config force shared s {h} e =
      let handler = new_handler pkg config force shared s in
      let (c, up) =
        init_with-Connects handler
          (process_second pkg (pkg.process_env (text "TYK_PMP_REDIS") config)) refl
          (ap (λ p. p.0) e) in
      (c, subst (λ x. IsUp x c) (ap (λ p. p.1) e) up)

  -- Then nothing is made anew.
  pub ensure_connection-IsUp :
      (retry : (Handler pkg → Bool × Handler pkg) → Handler pkg → Bool × Handler pkg)
      (h : Handler pkg) (c : pkg.Connector)
      → IsUp h c
      → ensure_connection pkg retry h ≡ (true, h)
  unfolding ensure_connection
  ensure_connection-IsUp retry h c up = if_false _ _ _ (ap (is_missing pkg) up.shared)
