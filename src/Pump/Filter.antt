-- ===== src/Pump/Filter.antt =====
-- main.go: `filterData`, what a pump is given of a batch.
pub mod Meaning
use tyk_pump.Base.{
  ℕ, Bool, true, false, not, ◌&&◌, ◌||◌, ◌==◌, List, [], ◌∷◌, Option, none, some, ◌>>=◌, Text,
  Int64, length, if◌then◌else◌,
}
use tyk_pump.Base64.{decode_base64}
use tyk_pump.Analytics.Record.{AnalyticsRecord}
use tyk_pump.Analytics.Filters.{AnalyticsFilters, should_filter, has_filter}
use tyk_pump.Analytics.Fields.{remove_ignored_fields}
use tyk_pump.Analytics.Trim.{trim_raw_data}
use tyk_pump.Aggregate.Data.{Value, analytics, null}
use tyk_pump.Pump.Config.{CommonPumpConfig}

-- The decoded text, or the text itself where it is not base64.
abbrev pub decoded_or_same : Text → Text
decoded_or_same s = elim (decode_base64 s) [ none ↦ s | some t ↦ t ]

-- The size from the pump's configuration and that of the system: the pump's goes first.
module _ (system_max : Int64) (p : CommonPumpConfig) where
  abbrev pub should_trim : Bool
  should_trim = not (system_max == 0) || not (p.max_record_size == 0)

  abbrev pub trim_size : Int64
  trim_size = if p.max_record_size == 0 then system_max else p.max_record_size

  -- The raw request and response are dropped, or trimmed.
  unfoldable pub shorten : AnalyticsRecord → Option AnalyticsRecord
  shorten r =
      if p.omit_detailed_recording
      then some (record r { raw_request = []; raw_response = [] })
      else if should_trim
      then trim_raw_data trim_size r
      else some r

  -- What is done to a record that passes the filters.
  unfoldable pub polish : AnalyticsRecord → AnalyticsRecord
  polish r =
      let r₁ = if length p.ignore_fields == 0 then r else remove_ignored_fields p.ignore_fields r in
      let r₂ =
        if p.decode_request_base64
        then record r₁ { raw_request = decoded_or_same r₁.raw_request }
        else r₁ in
      if p.decode_response_base64
      then record r₂ { raw_response = decoded_or_same r₂.raw_response }
      else r₂

  -- The loop over the keys; `key.(analytics.AnalyticsRecord)` panics on nil.
  unfoldable pub filter_keys : List Value → Option (List Value)
  unfolding shorten polish
  filter_keys [] = some []
  filter_keys (null ∷ keys) = none
  filter_keys (analytics r ∷ keys) = do
    r' ← shorten r
    rest ← filter_keys keys
    some (if should_filter p.filters r' then rest else analytics (polish r') ∷ rest)

  -- All options are empty or false.
  unfoldable pub is_plain : Bool
  is_plain =
      not p.decode_request_base64
      && not p.decode_response_base64
      && not (has_filter p.filters)
      && not p.omit_detailed_recording
      && not should_trim
      && length p.ignore_fields == 0

  -- `filterData`
  unfoldable pub filter_data : List Value → Option (List Value)
  unfolding is_plain filter_keys
  filter_data keys = if is_plain then some keys else filter_keys keys
