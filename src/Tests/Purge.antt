-- ===== src/Tests/Purge.antt =====
-- A tick of the purge loop, from a store to two pumps.
use tyk_pump.Base.{
  ℕ, zero, suc, ◌≡◌, refl, true, List, [], ◌∷◌, map, concat, All, some, Text, same, itoa, arith,
}
use tyk_pump.Analytics.Record.{AnalyticsRecord}
use tyk_pump.Pump.Config.{CommonPumpConfig, zero_config}
use tyk_pump.Pump.Filter.Meaning.{HasShortRaw}
use tyk_pump.Pump.Purge.{Serializer, Deliveries, purge, key_name}
use tyk_pump.Pump.Purge.Round.{
  purge_keys, round_keys, serializer_keys, are_distinct, is_fresh, batches,
}
use tyk_pump.Pump.Purge.Kept.{IsReadable, shares, purge_gives_kept}
use tyk_pump.Tests.Pump.{protobuf, shelf, shelf_takes, shelves}
use tyk_pump.Tests.Samples.{missing, cutting}

-- A pump that cuts and filters, and one with no options.
abbrev two_pumps : List CommonPumpConfig
two_pumps = cutting ∷ zero_config ∷ []

abbrev packed : Serializer
packed = record { suffix = []; decode = λ v. some missing }

abbrev two_serializers : List Serializer
two_serializers = packed ∷ protobuf ∷ []

abbrev read_missing : Serializer → Text → AnalyticsRecord
read_missing z v = missing

-- The decoder takes every value.
abbrev IsTotal : Serializer × Text → Type 0
IsTotal k = (v : Text) → k.0.decode v ≡ some missing

two_distinct : are_distinct (purge_keys two_serializers) ≡ true
unfolding are_distinct purge_keys round_keys serializer_keys is_fresh key_name same itoa
two_distinct = refl

keys-IsTotal : (n i : ℕ) → All IsTotal (round_keys two_serializers n i)
unfolding round_keys serializer_keys
keys-IsTotal zero i = tt
keys-IsTotal (suc n) i = (λ v. refl, (λ v. refl, keys-IsTotal n (suc i)))

decoded :
    (z : Serializer) (vs : List Text) → IsTotal (z, []) → All (λ v. z.decode v ≡ some missing) vs
decoded z [] h = tt
decoded z (v ∷ vs) h = (h v, decoded z vs h)

short : (vs : List Text) → All HasShortRaw (map (λ v. missing) vs)
short [] = tt
short (v ∷ vs) = ((omega arith, omega arith), short vs)

batches-IsReadable :
    (ks : List (Serializer × Text))
    → All IsTotal ks
    → All (IsReadable read_missing) (batches 0 two_pumps shelf shelf_takes ks shelves)
unfolding batches
batches-IsReadable [] a = tt
batches-IsReadable ((z, k) ∷ ks) a = (
  record {
    decodes = decoded z (shelf_takes.contents k shelves) a.0;
    short = short (shelf_takes.contents k shelves);
  },
  batches-IsReadable ks a.1,
)

all-IsReadable :
    All
      (IsReadable read_missing)
      (batches 0 two_pumps shelf shelf_takes (purge_keys two_serializers) shelves)
unfolding purge_keys
all-IsReadable = batches-IsReadable (round_keys two_serializers 11 0) (keys-IsTotal 11 0)

purge_gives_kept_example :
    (end : (Text → List Text) × Deliveries) × (purge 0 two_pumps shelf two_serializers shelves
      ≡ some end)
    × (end.1
        ≡ concat (
            map
              (shares read_missing 0 two_pumps)
              (batches 0 two_pumps shelf shelf_takes (purge_keys two_serializers) shelves)))
purge_gives_kept_example =
    purge_gives_kept read_missing 0 two_pumps shelf shelf_takes two_serializers shelves two_distinct
      (omega arith, (omega arith, tt)) all-IsReadable
