-- ===== src/Aggregate/Cases.antt =====
-- analytics/aggregate.go: the cases of the switch that `incrementAggregate` makes over the fields of a record.
use tyk_pump.Base.{
  Bool, true, not, ◌&&◌, ◌++◌, List, [], Option, none, some, ◌>>=◌, for_each, Text, text, itoa,
  is_empty, lt64, Map, lookup, insert, if◌then◌else◌,
}
use tyk_pump.Floats.{FloatOps}
use tyk_pump.Analytics.Record.{AnalyticsRecord}
use tyk_pump.Analytics.Fields.{Field}
use tyk_pump.Aggregate.Counter.{Counter, increment_or_set_unit}
use tyk_pump.Aggregate.Keys.{hex, do_hash, ignore_tag, replace_unsupported_chars, trim_tag}
use tyk_pump.Aggregate.State.{AnalyticsRecordAggregate}

-- Setting `Identifier` and `HumanIdentifier`.
abbrev pub label : Text → Text → Counter → Counter
label identifier human c = record c { identifier = identifier; human_identifier = human }

abbrev pub label_only : Text → Counter → Counter
label_only identifier c = record c { identifier = identifier }

-- `m[key] = c` for a counter that was already there: it has been changed in place.
abbrev pub write_back : Option Counter → Text → Counter → Map Counter → Map Counter
write_back none key c m = m
write_back (some _) key c m = insert key c m

abbrev pub always : Counter → Bool
always c = true

-- The counters of one key's or client's endpoints; `nil` is an empty map.
abbrev pub endpoints_of : Text → Map (Map Counter) → Map Counter
endpoints_of key m = elim (lookup key m) [ none ↦ [] | some n ↦ n ]

module _ (fl : FloatOps) where
  -- `c := incrementOrSetUnit(base, m[key])`, then `m[key] = c` with its labels if the test passes.
  -- A counter that the map holds is changed in place whatever the test says.
  unfoldable pub add_unit :
      Counter → Text → (Counter → Bool) → (Counter → Counter) → Map Counter → Option (Map Counter)
  add_unit base key keep name m = do
    c ← increment_or_set_unit fl base (lookup key m)
    let m' = write_back (lookup key m) key c m
    some (if keep c then insert key (name c) m' else m')

  unfoldable pub add_endpoint :
      Counter → AnalyticsRecord → Text → Map (Map Counter) → Option (Map (Map Counter))
  add_endpoint base r key m = do
    let hash = do_hash (r.api_id ++ text ":" ++ r.path)
    endpoints ← add_unit base hash always (label hash hash) (endpoints_of key m)
    some (insert key endpoints m)

  -- The eight cases of the switch over the fields of the record.
  unfoldable pub add_api_id : Counter → AnalyticsRecord → Map Counter → Option (Map Counter)
  add_api_id base r =
      add_unit base r.api_id (λ c. not (is_empty r.api_id)) (label r.api_id r.api_name)

  unfoldable pub add_response_code : Counter → AnalyticsRecord → Map Counter → Option (Map Counter)
  add_response_code base r m =
      let code = itoa r.response_code in
      if is_empty code
      then some m
      else add_unit base code (λ c. lt64 0 c.error_total) (label_only code) m

  unfoldable pub add_api_version : Counter → AnalyticsRecord → Map Counter → Option (Map Counter)
  add_api_version base r =
      add_unit base (do_hash (r.api_id ++ text ":" ++ r.api_version))
        (λ c. not (is_empty r.api_version)) (label r.api_version r.api_version)

  unfoldable pub add_api_key : Counter → AnalyticsRecord → Map Counter → Option (Map Counter)
  add_api_key base r m =
      if is_empty r.api_key
      then some m
      else add_unit base r.api_key always (label r.api_key r.alias) m

  unfoldable pub add_key_endpoint :
      Counter → AnalyticsRecord → Map (Map Counter) → Option (Map (Map Counter))
  add_key_endpoint base r m =
      if not (is_empty r.api_key) && r.track_path then add_endpoint base r r.api_key m else some m

  unfoldable pub add_oauth_id : Counter → AnalyticsRecord → Map Counter → Option (Map Counter)
  add_oauth_id base r m =
      if is_empty r.oauth_id
      then some m
      else add_unit base r.oauth_id always (label_only r.oauth_id) m

  unfoldable pub add_oauth_endpoint :
      Counter → AnalyticsRecord → Map (Map Counter) → Option (Map (Map Counter))
  add_oauth_endpoint base r m =
      if not (is_empty r.oauth_id) && r.track_path then add_endpoint base r r.oauth_id m else some m

  unfoldable pub add_geo : Counter → AnalyticsRecord → Map Counter → Option (Map Counter)
  add_geo base r =
      let country = r.geo.country.iso_code in
      add_unit base country (λ c. not (is_empty country)) (label country country)

  unfoldable pub add_tag : Counter → List Text → Text → Map Counter → Option (Map Counter)
  add_tag base ignored tag m =
      let trimmed = trim_tag tag in
      if not (is_empty trimmed) && not (ignore_tag tag ignored)
      then add_unit base trimmed always (label trimmed trimmed) m
      else some m

  unfoldable pub add_tags :
      Counter → AnalyticsRecord → List Text → Map Counter → Option (Map Counter)
  add_tags base r ignored m = for_each (add_tag base ignored) r.tags m

  unfoldable pub add_path : Counter → AnalyticsRecord → Map Counter → Option (Map Counter)
  add_path base r m =
      if r.track_path
      then add_unit base (replace_unsupported_chars r.path) always (label r.path r.path) m
      else some m

  unfoldable pub add_api_endpoint : Counter → AnalyticsRecord → Map Counter → Option (Map Counter)
  add_api_endpoint base r m =
      let hash = hex (r.api_id ++ text ":" ++ r.api_version ++ text ":" ++ r.path) in
      if r.track_path then add_unit base hash always (label hash r.path) m else some m

  -- One round of the loop over `structs.Map(record)`; a field with no case changes nothing.
  unfoldable pub field_step :
      Counter
      → AnalyticsRecord
      → List Text
      → Field
      → AnalyticsRecordAggregate
      → Option AnalyticsRecordAggregate
  field_step base r ignored Field.api_id a = do
    m ← add_api_id base r a.api_id
    some (record a { api_id = m })
  field_step base r ignored Field.response_code a = do
    m ← add_response_code base r a.errors
    some (record a { errors = m })
  field_step base r ignored Field.api_version a = do
    m ← add_api_version base r a.versions
    some (record a { versions = m })
  field_step base r ignored Field.api_key a = do
    m ← add_api_key base r a.api_keys
    n ← add_key_endpoint base r a.key_endpoint
    some (record a { api_keys = m; key_endpoint = n })
  field_step base r ignored Field.oauth_id a = do
    m ← add_oauth_id base r a.oauth_ids
    n ← add_oauth_endpoint base r a.oauth_endpoint
    some (record a { oauth_ids = m; oauth_endpoint = n })
  field_step base r ignored Field.geo a = do m ← add_geo base r a.geo; some (record a { geo = m })
  field_step base r ignored Field.tags a = do
    m ← add_tags base r ignored a.tags
    some (record a { tags = m })
  field_step base r ignored Field.track_path a = do
    m ← add_path base r a.endpoints
    n ← add_api_endpoint base r a.api_endpoint
    some (record a { endpoints = m; api_endpoint = n })
  field_step base r ignored _ a = some a
