-- ===== src/Pump/Purge.antt =====
-- main.go: the purge loop. What a store holds is decoded and given to the pumps.
pub mod Answered
pub mod Round
pub mod Kept
use tyk_pump.Base.{
  ℕ, zero, suc, Bool, true, false, List, [], ◌∷◌, ◌++◌, map, Option, none, some, ◌>>=◌, Text, text,
  itoa, Int64, if◌then◌else◌,
}
use tyk_pump.Analytics.Record.{AnalyticsRecord}
use tyk_pump.Aggregate.Data.{Value, analytics, null}
use tyk_pump.Pump.Config.{CommonPumpConfig}
use tyk_pump.Pump.Filter.{filter_data}

-- `AnalyticsSerializer`, of which the loop uses the suffix and the decoder. The decoders call
-- packages that are not modelled; `none` is their error.
pub record Serializer : Type 0 where
  pub suffix : Text
  pub decode : Text → Option AnalyticsRecord

-- `storage.ANALYTICS_KEYNAME`
abbrev pub analytics_keyname : Text
analytics_keyname = text "tyk-system-analytics"

-- The name in round `i` of the loop that begins at -1: here it begins at 0.
unfoldable pub key_name : ℕ → Text
key_name zero = analytics_keyname
key_name (suc i) = analytics_keyname ++ (text "_" ++ itoa i)

-- What `PreprocessAnalyticsValues` makes of a value: one that cannot be decoded stays nil.
abbrev pub to_value : Option AnalyticsRecord → Value
to_value none = null
to_value (some r) = analytics r

unfoldable pub preprocess : Serializer → List Text → List Value
preprocess z values = map (λ v. to_value (z.decode v)) values

-- `writeToPumps`: what each pump's `WriteData` is given. A panic in one goroutine ends the process.
unfoldable pub write_to_pumps :
    Int64 → List CommonPumpConfig → List Value → Option (List (List Value))
write_to_pumps system_max [] keys = some []
write_to_pumps system_max (p ∷ pumps) keys = do
  first ← filter_data system_max p keys
  rest ← write_to_pumps system_max pumps keys
  some (first ∷ rest)

-- The store, as the loop sees it: `GetAndDeleteSet` returns the values of a key, or an error.
pub record Store : Type 1 where
  pub State : Type 0
  pub get_and_delete_set : Text → State → Option (List Text) × State

-- An error is logged, and leaves no values.
abbrev pub values_or_none : Option (List Text) → List Text
values_or_none none = []
values_or_none (some vs) = vs

-- What the pumps have been given, a list for each batch.
abbrev pub Deliveries : Type 0
Deliveries = List (List (List Value))

module _ (system_max : Int64) (pumps : List CommonPumpConfig) (store : Store) where
  open store use {State, get_and_delete_set}

  -- One batch; nothing is done where there are no values.
  unfoldable pub deliver : Serializer → List Text → Deliveries → Option Deliveries
  deliver z [] done = some done
  deliver z (v ∷ vs) done = do
    written ← write_to_pumps system_max pumps (preprocess z (v ∷ vs))
    some (done ++ (written ∷ []))

  -- The loop over the serializers. The suffixes pile up in the name of the key.
  unfoldable pub visit_serializers :
      List Serializer → Text → State × Deliveries → Option (State × Deliveries)
  visit_serializers [] key s = some s
  visit_serializers (z ∷ zs) key (s, done) = do
    let key' = key ++ z.suffix
    let (found, s') = get_and_delete_set key' s
    done' ← deliver z (values_or_none found) done
    visit_serializers zs key' (s', done')

  -- The loop over the keys, `n` rounds from round `i` on.
  unfoldable pub visit_keys :
      List Serializer → ℕ → ℕ → State × Deliveries → Option (State × Deliveries)
  visit_keys zs zero i s = some s
  visit_keys zs (suc n) i s = do
    s' ← visit_serializers zs (key_name i) s
    visit_keys zs n (suc i) s'

  -- One tick of `StartPurgeLoop`: the keys of the rounds -1 to 9.
  unfoldable pub purge : List Serializer → State → Option (State × Deliveries)
  purge zs s = visit_keys zs 11 0 (s, [])
