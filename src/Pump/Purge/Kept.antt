-- ===== src/Pump/Purge/Kept.antt =====
-- main.go: from the values in the store to the records that each pump is given.
use mathlib.Core.List.{append_assoc}
use tyk_pump.Base.{
  ◌<◌, ◌≡◌, refl, ap, ◌∙◌, true, List, [], ◌∷◌, ◌++◌, map, concat, All, some, ◌>>=◌, >>=-eq-some,
  list_laws, Text, Int64,
}
use mathlib.Core.Option.{some-injective}
use tyk_pump.Analytics.Record.{AnalyticsRecord}
use tyk_pump.Aggregate.Data.{analytics}
use tyk_pump.Pump.Config.{CommonPumpConfig}
use tyk_pump.Pump.Filter.{trim_size}
use tyk_pump.Pump.Filter.Meaning.{HasShortRaw, kept, filter_data-kept}
use tyk_pump.Pump.Purge.{Serializer, Store, Deliveries, preprocess, write_to_pumps, deliver, purge}
use tyk_pump.Pump.Purge.Round.{
  TakesAll, purge_keys, are_distinct, deliver_all, batches, purge_delivers,
}

module _ (read : Serializer → Text → AnalyticsRecord) where
  -- The values of a key that their serializer decodes, to records whose raw texts can be Go strings.
  pub record IsReadable (b : Serializer × List Text) : Type 0 where
    pub decodes : All (λ v. b.0.decode v ≡ some (read b.0 v)) b.1
    pub short : All HasShortRaw (map (read b.0) b.1)

  preprocess-read :
      (z : Serializer) (vs : List Text)
      → All (λ v. z.decode v ≡ some (read z v)) vs
      → preprocess z vs ≡ map analytics (map (read z) vs)
  unfolding preprocess
  preprocess-read z [] a = refl
  preprocess-read z (v ∷ vs) a = rw (a.0, preprocess-read z vs a.1) refl

  module _ (system_max : Int64) (pumps : List CommonPumpConfig) where
    -- The sizes in force are not negative.
    abbrev pub HasSize : CommonPumpConfig → Type 0
    HasSize p = trim_size system_max p < 9223372036854775808

    write_to_pumps-kept :
        (ps : List CommonPumpConfig) (rs : List AnalyticsRecord)
        → All HasSize ps
        → All HasShortRaw rs
        → write_to_pumps system_max ps (map analytics rs)
          ≡ some (map (λ p. kept system_max p rs) ps)
    unfolding write_to_pumps
    write_to_pumps-kept [] rs a b = refl
    write_to_pumps-kept (p ∷ ps) rs a b =
        rw (filter_data-kept system_max p rs a.0 b, write_to_pumps-kept ps rs a.1 b) refl

    -- What is made of the values of a key: nothing where there are none, and else a batch that has
    -- for each pump the records that it keeps.
    pub shares : Serializer × List Text → Deliveries
    shares (z, []) = []
    shares (z, v ∷ vs) = map (λ p. kept system_max p (map (read z) (v ∷ vs))) pumps ∷ []

    module _ (store : Store) where
      deliver-shares :
          (z : Serializer) (vs : List Text) (done : Deliveries)
          → All HasSize pumps
          → IsReadable (z, vs)
          → deliver system_max pumps store z vs done ≡ some (done ++ shares (z, vs))
      unfolding deliver shares
      deliver-shares z [] done a r = simp list_laws
      deliver-shares z (v ∷ vs) done a r = rw (preprocess-read z (v ∷ vs) r.decodes) (
          ap (λ o. o >>= λ written. some (done ++ (written ∷ [])))
            (write_to_pumps-kept pumps (map (read z) (v ∷ vs)) a r.short))

      deliver_all-shares :
          (bs : List (Serializer × List Text)) (done : Deliveries)
          → All HasSize pumps
          → All IsReadable bs
          → deliver_all system_max pumps store bs done ≡ some (done ++ concat (map shares bs))
      unfolding deliver_all
      deliver_all-shares [] done a r = simp list_laws
      deliver_all-shares ((z, vs) ∷ bs) done a r =
          ap (λ o. o >>= deliver_all system_max pumps store bs) (deliver-shares z vs done a r.0)
          ∙ deliver_all-shares bs (done ++ shares (z, vs)) a r.1
          ∙ ap some (append_assoc done (shares (z, vs)) (concat (map shares bs)))

      -- A tick returns without a panic, and gives each pump, key by key, those records of the key
      -- that its filters keep, in order, each once and with its raw data dropped or cut and then polished;
      -- if the names of the keys are distinct, the store takes all values of a key at a time, these can
      -- be decoded, and the sizes in force are not negative.
      pub purge_gives_kept :
          (laws : TakesAll store) (zs : List Serializer) (s : store.State)
          → are_distinct (purge_keys zs) ≡ true
          → All HasSize pumps
          → All IsReadable (batches system_max pumps store laws (purge_keys zs) s)
          → (end : store.State × Deliveries) × (purge system_max pumps store zs s ≡ some end)
            × (end.1 ≡ concat (map shares (batches system_max pumps store laws (purge_keys zs) s)))
      purge_gives_kept laws zs s d a r =
          let bs = batches system_max pumps store laws (purge_keys zs) s in
          let (end, e, f) =
            >>=-eq-some (purge system_max pumps store zs s) (λ p. some p.1)
              (purge_delivers system_max pumps store laws zs s d ∙ deliver_all-shares bs [] a r) in
          (end, e, some-injective end.1 (concat (map shares bs)) f)
