-- ===== src/Pump/Filter/Meaning.antt =====
-- main.go: `filterData` as a filter and a map, and when it panics.
use mathlib.Core.List.{Memᴰ}
use mathlib.Core.Path.{ap₂}
use tyk_pump.Base.{
  ◌<◌, ◌≡◌, refl, sym, ap, ◌∙◌, Bool, true, false, not, ◌==◌, List, [], ◌∷◌, map, filter, All,
  if_true, if_false, if-some, ap-if, none, some, Int64, length, take, Bool-cases, Option-cases, inl,
  inr, if◌then◌else◌, arith,
}
use tyk_pump.Analytics.Record.{AnalyticsRecord}
use tyk_pump.Analytics.Filters.{should_filter, has_filter}
use tyk_pump.Analytics.Filters.Decide.{has_filter-should_filter}
use tyk_pump.Analytics.Trim.{trim_raw_data-take, IsShort}
use tyk_pump.Aggregate.Data.{Value, analytics, null}
use tyk_pump.Pump.Config.{CommonPumpConfig}
use tyk_pump.Pump.Filter.{
  should_trim, trim_size, shorten, polish, filter_keys, is_plain, filter_data,
}

-- The raw request and response can be Go strings.
abbrev pub HasShortRaw : AnalyticsRecord → Type 0
HasShortRaw r = IsShort r.raw_request × IsShort r.raw_response

module _ (system_max : Int64) (p : CommonPumpConfig) where
  -- What becomes of a record: its raw data dropped or cut, then polished.
  unfoldable pub shortened : AnalyticsRecord → AnalyticsRecord
  shortened r =
      if p.omit_detailed_recording
      then record r { raw_request = []; raw_response = [] }
      else if should_trim system_max p
      then record r {
        raw_response = take (trim_size system_max p) r.raw_response;
        raw_request = take (trim_size system_max p) r.raw_request;
      }
      else r

  pub transform : AnalyticsRecord → AnalyticsRecord
  transform r = polish system_max p (shortened r)

  shorten-shortened :
      (r : AnalyticsRecord)
      → trim_size system_max p < 9223372036854775808
      → HasShortRaw r
      → shorten system_max p r ≡ some (shortened r)
  unfolding shorten shortened
  shorten-shortened r h k = if-some p.omit_detailed_recording _ _ _ _ refl (
      if-some (should_trim system_max p) _ _ _ _
        (trim_raw_data-take (trim_size system_max p) r h k.0 k.1) refl)

  -- The filters read nothing that is cut.
  should_filter-shortened :
      (r : AnalyticsRecord) → should_filter p.filters (shortened r) ≡ should_filter p.filters r
  unfolding should_filter shortened
  should_filter-shortened r =
      ap-if (should_filter p.filters) p.omit_detailed_recording _ _ (should_filter p.filters r) refl
        (ap-if (should_filter p.filters) (should_trim system_max p) _ _ (should_filter p.filters r)
          refl refl)

  -- The records that the filters keep, transformed.
  pub kept : List AnalyticsRecord → List Value
  kept rs = map (λ r. analytics (transform r)) (filter (λ r. not (should_filter p.filters r)) rs)

  filter_keys-kept :
      (rs : List AnalyticsRecord)
      → trim_size system_max p < 9223372036854775808
      → All HasShortRaw rs
      → filter_keys system_max p (map analytics rs) ≡ some (kept rs)
  unfolding filter_keys kept transform
  filter_keys-kept [] h k = refl
  filter_keys-kept (r ∷ rs) h k =
      rw (shorten-shortened r h k.0, filter_keys-kept rs h k.1, should_filter-shortened r)
        (by_filter (should_filter p.filters r))
    where
      by_filter :
          (b : Bool)
          → some (if b then kept rs else analytics (polish system_max p (shortened r)) ∷ kept rs)
            ≡ some (
                map
                  (λ r. analytics (polish system_max p (shortened r)))
                  (if not b
                    then r ∷ filter (λ r. not (should_filter p.filters r)) rs
                    else filter (λ r. not (should_filter p.filters r)) rs))
      by_filter true = refl
      by_filter false = refl

  -- What it means that no option is set.
  record IsPlain : Type 0 where
    omits : p.omit_detailed_recording ≡ false
    trims : should_trim system_max p ≡ false
    filters : has_filter p.filters ≡ false
    ignores : (length p.ignore_fields == 0) ≡ true
    request : p.decode_request_base64 ≡ false
    response : p.decode_response_base64 ≡ false

  plain-IsPlain : is_plain system_max p ≡ true → IsPlain
  unfolding is_plain
  plain-IsPlain h = record {
    omits = ground arith;
    trims = ground arith;
    filters = ground arith;
    ignores = ground arith;
    request = ground arith;
    response = ground arith;
  }

  transform_plain : (r : AnalyticsRecord) → IsPlain → transform r ≡ r
  unfolding transform polish shortened
  transform_plain r h =
      if_false p.decode_response_base64 _ _ h.response
      ∙ if_false p.decode_request_base64 _ _ h.request
      ∙ if_true (length p.ignore_fields == 0) _ _ h.ignores
      ∙ if_false p.omit_detailed_recording _ _ h.omits
      ∙ if_false (should_trim system_max p) _ _ h.trims

  -- With no option set, nothing would be changed by the loop either.
  plain-kept : (rs : List AnalyticsRecord) → IsPlain → kept rs ≡ map analytics rs
  unfolding kept
  plain-kept [] h = refl
  plain-kept (r ∷ rs) h =
      rw (has_filter-should_filter p.filters r h.filters)
        (ap₂ (λ (x : AnalyticsRecord) xs. analytics x ∷ xs) (transform_plain r h) (plain-kept rs h))

  -- Whatever the options, a pump is given those records of the batch, in their order, that its
  -- filters keep, each with its raw data dropped or cut and then polished; the early return changes
  -- nothing of this. The size in force is not negative, and the raw texts can be Go strings.
  pub filter_data-kept :
      (rs : List AnalyticsRecord)
      → trim_size system_max p < 9223372036854775808
      → All HasShortRaw rs
      → filter_data system_max p (map analytics rs) ≡ some (kept rs)
  unfolding filter_data
  filter_data-kept rs h k = elim (Bool-cases (is_plain system_max p)) [
    | inl e ↦ rw e (ap some (sym (plain-kept rs (plain-IsPlain e))))
    | inr e ↦ rw e (filter_keys-kept rs h k)
  ]

  nil_panics : (keys : List Value) → Memᴰ null keys → filter_keys system_max p keys ≡ none
  unfolding filter_keys
  nil_panics [] m = elim m [ ]
  nil_panics (null ∷ keys) m = refl
  nil_panics (analytics r ∷ keys) (Memᴰ.head e) = cc
  nil_panics (analytics r ∷ keys) (Memᴰ.tail m) = elim (Option-cases (shorten system_max p r)) [
    | inl e ↦ rw e
    | inr (r', e) ↦ rw (e, nil_panics keys m)
  ]

  -- A value that was not decoded makes `filterData` panic, unless no option is set.
  pub filter_data_panics :
      (keys : List Value)
      → Memᴰ null keys
      → is_plain system_max p ≡ false
      → filter_data system_max p keys ≡ none
  unfolding filter_data
  filter_data_panics keys m h = rw (h, nil_panics keys m)
