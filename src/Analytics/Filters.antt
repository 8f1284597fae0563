-- ===== src/Analytics/Filters.antt =====
-- analytics/analytics_filters.go: which records a pump takes.
pub mod Decide
use tyk_pump.Base.{
  ℕ, Bool, true, false, not, ◌&&◌, ◌||◌, List, [], ◌∷◌, Text, Int64, same, ◌==◌, ltb, length,
  if◌then◌else◌,
}
use tyk_pump.Analytics.Record.{AnalyticsRecord}

pub record AnalyticsFilters : Type 0 where
  pub orgs_ids : List Text
  pub api_ids : List Text
  pub response_codes : List Int64
  pub skipped_orgs_ids : List Text
  pub skipped_api_ids : List Text
  pub skipped_response_codes : List Int64

-- `stringInSlice`
unfoldable pub string_in_slice : Text → List Text → Bool
string_in_slice a [] = false
string_in_slice a (b ∷ list) = if same b a then true else string_in_slice a list

-- `intInSlice`
unfoldable pub int_in_slice : Int64 → List Int64 → Bool
int_in_slice a [] = false
int_in_slice a (b ∷ list) = if b == a then true else int_in_slice a list

-- `AnalyticsFilters.ShouldFilter`: the cases of the switch, in their order.
unfoldable pub should_filter : AnalyticsFilters → AnalyticsRecord → Bool
should_filter f r =
    if ltb 0 (length f.skipped_api_ids) && string_in_slice r.api_id f.skipped_api_ids
    then true
    else if ltb 0 (length f.skipped_orgs_ids) && string_in_slice r.org_id f.skipped_orgs_ids
    then true
    else if ltb 0 (length f.skipped_response_codes)
        && int_in_slice r.response_code f.skipped_response_codes
    then true
    else if ltb 0 (length f.api_ids) && not (string_in_slice r.api_id f.api_ids)
    then true
    else if ltb 0 (length f.orgs_ids) && not (string_in_slice r.org_id f.orgs_ids)
    then true
    else ltb 0 (length f.response_codes) && not (int_in_slice r.response_code f.response_codes)

-- `AnalyticsFilters.HasFilter`
unfoldable pub has_filter : AnalyticsFilters → Bool
has_filter f =
    if length f.skipped_api_ids == 0
      && length f.skipped_orgs_ids == 0
      && length f.response_codes == 0
      && length f.api_ids == 0
      && length f.orgs_ids == 0
      && length f.skipped_response_codes == 0
    then false
    else true
