-- ===== src/Tests/Lines.antt =====
-- Tests of the CSV lines.
use tyk_pump.Base.{◌≡◌, refl, Option, some, List, [], ◌∷◌, Text, text, Map, lookup, same}
use tyk_pump.Analytics.Lines.{
  LineOps, city_names, get_line_values, get_field_names, sort_names, insert_sorted, comes_before,
}
use tyk_pump.Base.{format_uint}
use tyk_pump.Tests.Samples.{report}

abbrev plain_ops : LineOps
plain_ops = record { to_uint = λ f. f; time_string = λ t. []; month_string = λ m. text "May" }

-- The values of a line by the names of the header.
abbrev columns : List Text → List Text → Map Text
columns [] values = []
columns (n ∷ names) [] = []
columns (n ∷ names) (v ∷ values) = (n, v) ∷ columns names values

-- The value under a name.
abbrev under : Text → Option Text
under name = lookup name (columns get_field_names (get_line_values plain_ops report))

names_are_sorted :
    city_names ((text "fr", text "Londres") ∷ (text "en", text "London") ∷ [])
    ≡ text "en:London;fr:Londres"
unfolding city_names sort_names insert_sorted comes_before
names_are_sorted = refl

-- The response code -1 is written as a number without a sign.
report_is_unsigned : under (text "ResponseCode") ≡ some (text "18446744073709551615")
unfolding get_field_names get_line_values lookup same format_uint
report_is_unsigned = refl
