-- ===== src/Aggregate/State/Discard.antt =====
-- analytics/aggregate.go: what `DiscardAggregations` leaves of an aggregate.
use mathlib.Core.Path.{fun_ext}
use tyk_pump.Base.{
  ℕ, ◌≡◌, refl, ap, ◌∙◌, Bool, true, false, ◌||◌, ◌==◌, List, [], ◌∷◌, Text, any, if◌then◌else◌,
  arith,
}
use tyk_pump.Aggregate.State.{
  AnalyticsRecordAggregate, Dimension, dimension_of, discard, discard_aggregations,
}

abbrev place : Dimension → ℕ
place Dimension.api_id = 0
place Dimension.errors = 1
place Dimension.versions = 2
place Dimension.api_keys = 3
place Dimension.oauth_ids = 4
place Dimension.geo = 5
place Dimension.tags = 6
place Dimension.endpoints = 7
place Dimension.key_endpoint = 8
place Dimension.oauth_endpoint = 9
place Dimension.api_endpoint = 10
place Dimension.unknown = 11

abbrev same_dimension : Dimension → Dimension → Bool
same_dimension d e = place d == place e

-- The aggregate with the maps of the chosen dimensions emptied, and all else kept.
pub without : (Dimension → Bool) → AnalyticsRecordAggregate → AnalyticsRecordAggregate
without p f = record f {
  api_id = if p Dimension.api_id then [] else f.api_id;
  errors = if p Dimension.errors then [] else f.errors;
  versions = if p Dimension.versions then [] else f.versions;
  api_keys = if p Dimension.api_keys then [] else f.api_keys;
  oauth_ids = if p Dimension.oauth_ids then [] else f.oauth_ids;
  geo = if p Dimension.geo then [] else f.geo;
  tags = if p Dimension.tags then [] else f.tags;
  endpoints = if p Dimension.endpoints then [] else f.endpoints;
  key_endpoint = if p Dimension.key_endpoint then [] else f.key_endpoint;
  oauth_endpoint = if p Dimension.oauth_endpoint then [] else f.oauth_endpoint;
  api_endpoint = if p Dimension.api_endpoint then [] else f.api_endpoint;
}

discard-without :
    (d : Dimension) (p : Dimension → Bool) (f : AnalyticsRecordAggregate)
    → discard d (without p f) ≡ without (λ e. if same_dimension d e then true else p e) f
unfolding discard without
discard-without Dimension.unknown p f = refl
discard-without _ p f = refl

-- The dimension is that of a field in the list.
abbrev pub is_listed : List Text → Dimension → Bool
is_listed fields d = any (λ field. same_dimension (dimension_of field) d) fields

discard_aggregations-from :
    (fields : List Text) (p : Dimension → Bool) (f : AnalyticsRecordAggregate)
    → discard_aggregations fields (without p f) ≡ without (λ d. p d || is_listed fields d) f
unfolding discard_aggregations
discard_aggregations-from [] p f = ap (λ q. without q f) (fun_ext (λ d. ground arith))
discard_aggregations-from (field ∷ fields) p f =
    ap (discard_aggregations fields) (discard-without (dimension_of field) p f)
    ∙ discard_aggregations-from fields _ f
    ∙ ap (λ q. without q f)
        (fun_ext (λ d. regroup (same_dimension (dimension_of field) d) (p d) (is_listed fields d)))
  where
    regroup : (a b c : Bool) → ((if a then true else b) || c) ≡ (b || (a || c))
    regroup a b c = ground arith

-- Discarding a list of fields empties the maps of the dimensions that the list names, by either of
-- their two names, and keeps everything else: the order of the list and repetitions do not matter.
pub discard_aggregations-without :
    (fields : List Text) (f : AnalyticsRecordAggregate)
    → discard_aggregations fields f ≡ without (is_listed fields) f
unfolding without
discard_aggregations-without fields f = discard_aggregations-from fields (λ d. false) f
