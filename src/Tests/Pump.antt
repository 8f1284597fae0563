-- ===== src/Tests/Pump.antt =====
-- Tests of the purge loop and of what pumps are given.
use mathlib.Core.List.{Memᴰ}
use tyk_pump.Base.{
  ◌≡◌, refl, true, false, none, some, List, [], ◌∷◌, map, Text, text, same, if◌then◌else◌, itoa,
  arith,
}
use tyk_pump.Base64.{base64, decode_base64}
use tyk_pump.Analytics.Filters.{has_filter}
use tyk_pump.Aggregate.Data.{analytics, null}
use tyk_pump.Pump.Config.{CommonPumpConfig, zero_config}
use tyk_pump.Pump.Filter.{filter_data, is_plain}
use tyk_pump.Pump.Filter.Meaning.{kept, filter_data-kept, filter_data_panics}
use tyk_pump.Pump.Purge.{Serializer, Store, key_name}
use tyk_pump.Pump.Purge.Round.{
  purge_keys, round_keys, serializer_keys, is_fresh, are_distinct, TakesAll,
}
use tyk_pump.Tests.Samples.{hit, missing, cutting}

filter_data-kept_example :
    filter_data 0 cutting (map analytics (hit ∷ missing ∷ []))
    ≡ some (kept 0 cutting (hit ∷ missing ∷ []))
filter_data-kept_example =
    filter_data-kept 0 cutting (hit ∷ missing ∷ []) (omega arith) (omega arith)

not_plain : is_plain 0 cutting ≡ false
unfolding is_plain has_filter
not_plain = refl

filter_data_panics_example : filter_data 0 cutting (analytics hit ∷ null ∷ []) ≡ none
filter_data_panics_example =
    filter_data_panics 0 cutting (analytics hit ∷ null ∷ []) (Memᴰ.tail (Memᴰ.head refl)) not_plain

-- A store as a function from keys to values.
abbrev pub shelf : Store
shelf = record {
  State = Text → List Text;
  get_and_delete_set = λ k s. (some (s k), λ j. if same k j then [] else s j);
}

pub shelf_takes : TakesAll shelf
shelf_takes = record { contents = λ k s. s k; takes = λ k s. refl; empties = λ k j s. refl }

-- The two serializers of the program; the decoders know one value.
abbrev pub msgp : Serializer
msgp = record { suffix = []; decode = λ v. if same v (text "hit") then some hit else none }

abbrev pub protobuf : Serializer
protobuf = record { suffix = text "_protobuf"; decode = λ v. some missing }

abbrev pub shelves : Text → List Text
shelves k = if same k (text "tyk-system-analytics_3_protobuf") then text "x" ∷ [] else []

abbrev pub both : List Serializer
both = msgp ∷ protobuf ∷ []

pub both_distinct : are_distinct (purge_keys both) ≡ true
unfolding are_distinct purge_keys round_keys serializer_keys is_fresh key_name same itoa
both_distinct = refl

-- One pump with no options.
abbrev plain : List CommonPumpConfig
plain = zero_config ∷ []

-- Encoding and decoding again.
decoded_again :
    decode_base64 (base64 (104 ∷ 105 ∷ 33 ∷ 200 ∷ [])) ≡ some (104 ∷ 105 ∷ 33 ∷ 200 ∷ [])
unfolding decode_base64 base64
decoded_again = refl
