-- ===== src/Tests/Aggregate.antt =====
-- Tests of the aggregation.
use mathlib.Core.List.{Permᴰ}
use tyk_pump.Base.{◌≡◌, refl, true, none, some, List, [], ◌∷◌, text, itoa, has_prefix, le64, arith}
use tyk_pump.Base64.{base64}
use tyk_pump.Floats.{whole}
use tyk_pump.Analytics.Fields.{Field}
use tyk_pump.Aggregate.Keys.{do_hash, hex, trim_tag, ignore_tag, replace_unsupported_chars}
use tyk_pump.Aggregate.State.{new}
use tyk_pump.Aggregate.Increment.{increment_aggregate}
use tyk_pump.Aggregate.Increment.Order.{increment_aggregate-perm}
use tyk_pump.Aggregate.Data.{Value, analytics, Progress, aggregate_data, is_skipped}
use tyk_pump.Aggregate.Data.Batch.{AddsUp, aggregate_data-AddsUp}
use tyk_pump.Aggregate.Data.NilMap.{aggregate_data_panics}
use tyk_pump.Aggregate.State.{AnalyticsRecordAggregate}
use tyk_pump.Tests.Samples.{hit, missing, report}

-- `base64("a:v1")` is "YTp2MQ==".
hash_example : do_hash (text "a:v1") ≡ text "YTp2MQ"
unfolding do_hash base64
hash_example = refl

hex_example : hex (text "a:~") ≡ text "613a7e"
unfolding hex
hex_example = refl

tag_example : trim_tag (text " \t a.b ") ≡ text "ab"
unfolding trim_tag has_prefix
tag_example = refl

ignored_example : ignore_tag (text "key-1") [] ≡ true
unfolding ignore_tag has_prefix
ignored_example = refl

path_example : replace_unsupported_chars (text "/x.y") ≡ text "/x\\u2ey"
unfolding replace_unsupported_chars
path_example = refl

itoa_example : itoa 404 ≡ text "404"
unfolding itoa
itoa_example = refl

abbrev two_values : List Value
two_values = analytics hit ∷ analytics missing ∷ []

aggregate_data-AddsUp_example :
    (s : Progress AnalyticsRecordAggregate) × (aggregate_data whole true []
        (text "db")
        60
        two_values
        []
      ≡ some s)
    × AddsUp whole true [] (text "db") 60 two_values s
aggregate_data-AddsUp_example =
    aggregate_data-AddsUp whole true [] (text "db") 60 two_values [] (omega arith)

aggregate_data_panics_example :
    aggregate_data whole true []
      (text "db")
      60
      (analytics report ∷ analytics missing ∷ analytics hit ∷ [])
      []
    ≡ none
unfolding le64 is_skipped
aggregate_data_panics_example =
    aggregate_data_panics whole true [] (text "db") 60 report missing (analytics hit ∷ []) []
      (record {
        report = refl;
        error = refl;
        same_api = refl;
        api_named = refl;
        same_org = refl;
        taken = refl;
        taken_too = refl;
      })

abbrev some_fields : List Field
some_fields = Field.tags ∷ Field.api_id ∷ Field.geo ∷ []

increment_aggregate-perm_example :
    increment_aggregate whole some_fields new hit true []
    ≡ increment_aggregate whole (Field.api_id ∷ Field.tags ∷ Field.geo ∷ []) new hit true []
increment_aggregate-perm_example =
    increment_aggregate-perm whole new hit true [] (Permᴰ.swap refl refl)
