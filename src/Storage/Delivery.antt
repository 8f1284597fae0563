-- ===== src/Storage/Delivery.antt =====
-- storage/temporal_storage.go under the purge loop of main.go.
use tyk_pump.Base.{
  ◌≡◌, refl, sym, ap, ◌∙◌, true, List, [], ◌++◌, map, Option, none, some, ◌>>=◌, Text, same,
  same-append, Int64, minus_one, if◌then◌else◌,
}
use tyk_pump.Pump.Config.{CommonPumpConfig}
use tyk_pump.Pump.Purge.{Serializer, purge}
use tyk_pump.Pump.Purge.Round.{purge_keys, are_distinct, deliver_all}
use tyk_pump.Pump.Purge.Answered.{TakesIfAnswered, are_answered, purge_delivers_answered}
use tyk_pump.Storage.{Library, keep_popped, get_and_delete_set, temporal_store}

-- What the documentation of the package says of a store that is up: a `Pop` with -1 that returns no error
-- returns all values of a list and empties it, and leaves the other lists alone.
pub record PopsAll (lib : Library) : Type 0 where
  pub values : Text → lib.State → List Text
  pub connected : (s : lib.State) → lib.ensure_connection s ≡ (true, s)
  pub pops :
      (k : Text) (s : lib.State) {vs : List Text}
      → (lib.pop k minus_one s).0 ≡ some vs
      → vs ≡ values k s
  pub empties :
      (k j : Text) (s : lib.State) {vs : List Text}
      → (lib.pop k minus_one s).0 ≡ some vs
      → values j (lib.pop k minus_one s).1 ≡ (if same k j then [] else values j s)

module _ (lib : Library) (laws : PopsAll lib) (key_prefix : Text) where
  keep_popped-all :
      (key : Text) (o : Option (List Text)) (s : lib.State)
      → keep_popped lib key minus_one o s ≡ (o, s)
  unfolding keep_popped
  keep_popped-all key none s = refl
  keep_popped-all key (some vs) s = refl

  -- A call with a chunk size of 0 is one `Pop`, with its error.
  popped :
      (k : Text) (s : lib.State)
      → get_and_delete_set lib key_prefix 0 k s ≡ lib.pop (key_prefix ++ k) minus_one s
  unfolding get_and_delete_set
  popped k s =
      let (o, s') = lib.pop (key_prefix ++ k) minus_one s in
      rw (laws.connected s) (keep_popped-all (key_prefix ++ k) o s')

  -- With a chunk size of 0 the handler is a store of the kind that the purge loop relies on.
  temporal-TakesIfAnswered : TakesIfAnswered (temporal_store lib key_prefix 0)
  temporal-TakesIfAnswered = record {
    contents = λ k s. laws.values (key_prefix ++ k) s;
    takes = λ k s e. laws.pops (key_prefix ++ k) s (sym (ap (λ p. p.0) (popped k s)) ∙ e);
    empties = λ k j s e.
        ap (λ p. laws.values (key_prefix ++ j) p.1) (popped k s)
        ∙ laws.empties (key_prefix ++ k) (key_prefix ++ j) s (sym (ap (λ p. p.0) (popped k s)) ∙ e)
        ∙ ap (λ b. if b then [] else laws.values (key_prefix ++ j) s) (same-append key_prefix k j);
  }

  -- A tick of the purge loop with a chunk size of 0, on a store that is up, delivers what the list of each
  -- key under the prefix held when the tick began, key by key, and each once: if the names of the keys are
  -- distinct, and no call of the store in it returns an error.
  pub purge_delivers_lists :
      (system_max : Int64) (pumps : List CommonPumpConfig) (zs : List Serializer) (s : lib.State)
      → are_distinct (purge_keys zs) ≡ true
      → are_answered (temporal_store lib key_prefix 0) (purge_keys zs) s ≡ true
      → (purge system_max pumps (temporal_store lib key_prefix 0) zs s >>= λ p. some p.1)
        ≡ deliver_all system_max pumps
            (temporal_store lib key_prefix 0)
            (map (λ k. (k.0, laws.values (key_prefix ++ k.1) s)) (purge_keys zs))
            []
  unfolding temporal-TakesIfAnswered
  purge_delivers_lists system_max pumps zs s d a =
      purge_delivers_answered system_max pumps (temporal_store lib key_prefix 0)
        temporal-TakesIfAnswered zs s d a
