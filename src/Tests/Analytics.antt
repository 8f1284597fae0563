-- ===== src/Tests/Analytics.antt =====
-- Tests of the records, the filters and the ignored fields.
use tyk_pump.Base.{◌≡◌, refl, true, false, [], ◌∷◌, text, same, any}
use tyk_pump.Analytics.Filters.{should_filter, int_in_slice}
use tyk_pump.Analytics.Filters.Decide.{Accepts, should_filter-Accepts}
use tyk_pump.Analytics.Fields.{json_tag, remove_ignored_fields, ignore_tag_in, zero_field}
use tyk_pump.Analytics.Fields.Mask.{mask, remove_ignored_fields-mask}
use tyk_pump.Tests.Samples.{hit, missing, cutting}

missing_is_dropped : should_filter cutting.filters missing ≡ true
unfolding should_filter int_in_slice
missing_is_dropped = refl

hit_is_kept : should_filter cutting.filters hit ≡ false
unfolding should_filter int_in_slice
hit_is_kept = refl

should_filter-Accepts_example : Accepts cutting.filters hit
should_filter-Accepts_example = (should_filter-Accepts cutting.filters hit).0 hit_is_kept

-- Without its path, and with the organisation that the list does not name.
path_is_removed :
    remove_ignored_fields (text "path" ∷ text "no_field" ∷ []) hit ≡ record hit { path = [] }
unfolding remove_ignored_fields json_tag ignore_tag_in same zero_field
path_is_removed = refl

remove_ignored_fields-mask_example :
    remove_ignored_fields (text "path" ∷ []) hit
    ≡ mask (λ f. any (same (json_tag f)) (text "path" ∷ [])) hit
remove_ignored_fields-mask_example = remove_ignored_fields-mask (text "path" ∷ []) hit
