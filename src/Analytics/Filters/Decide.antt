-- ===== src/Analytics/Filters/Decide.antt =====
-- analytics/analytics_filters.go: `ShouldFilter` against lists that are read as sets.
use tyk_pump.Base.{
  refl, not, ◌&&◌, ltb, length, inl, inr, Bool-cases, ◌≡◌, ◌↔◌, ◌⊎◌, true, false, List, [], ◌∷◌,
  Text, Int64, same_iff, In, arith,
}
use tyk_pump.Analytics.Record.{AnalyticsRecord}
use tyk_pump.Analytics.Filters.{
  AnalyticsFilters, string_in_slice, int_in_slice, should_filter, has_filter,
}

string_in_slice-In : (a : Text) (l : List Text) → string_in_slice a l ≡ true → In a l
unfolding string_in_slice
string_in_slice-In a [] h = cc
string_in_slice-In a (b ∷ l) h = ground (arith, same_iff b a, string_in_slice-In a l)

In-string_in_slice : (a : Text) (l : List Text) → In a l → string_in_slice a l ≡ true
unfolding string_in_slice
In-string_in_slice a [] h = absurd h
In-string_in_slice a (b ∷ l) h = ground (arith, same_iff b a, In-string_in_slice a l)

int_in_slice-In : (a : Int64) (l : List Int64) → int_in_slice a l ≡ true → In a l
unfolding int_in_slice
int_in_slice-In a [] h = cc
int_in_slice-In a (b ∷ l) h = ground (arith, int_in_slice-In a l)

In-int_in_slice : (a : Int64) (l : List Int64) → In a l → int_in_slice a l ≡ true
unfolding int_in_slice
In-int_in_slice a [] h = absurd h
In-int_in_slice a (b ∷ l) h = ground (arith, In-int_in_slice a l)

-- An allow list, which allows everything if it is empty.
abbrev Allows : {A : Type 0} → List A → A → Type 0
Allows l a = (l ≡ []) ⊎ In a l

block_list :
    (a : Text) (l : List Text) → ((ltb 0 (length l) && string_in_slice a l) ≡ false) ↔ (¬ In a l)
unfolding string_in_slice
block_list a [] = (λ h x. x, λ h. refl)
block_list a (b ∷ l) = (
  λ h m. ground (arith, In-string_in_slice a (b ∷ l) m),
  λ h. elim (Bool-cases (string_in_slice a (b ∷ l))) [
    | inl e ↦ absurd (h (string_in_slice-In a (b ∷ l) e))
    | inr e ↦ ground arith
  ],
)

code_block_list :
    (a : Int64) (l : List Int64) → ((ltb 0 (length l) && int_in_slice a l) ≡ false) ↔ (¬ In a l)
unfolding int_in_slice
code_block_list a [] = (λ h x. x, λ h. refl)
code_block_list a (b ∷ l) = (
  λ h m. ground (arith, In-int_in_slice a (b ∷ l) m),
  λ h. elim (Bool-cases (int_in_slice a (b ∷ l))) [
    | inl e ↦ absurd (h (int_in_slice-In a (b ∷ l) e))
    | inr e ↦ ground arith
  ],
)

allow_list :
    (a : Text) (l : List Text)
    → ((ltb 0 (length l) && not (string_in_slice a l)) ≡ false) ↔ Allows l a
allow_list a [] = (λ h. inl refl, λ h. refl)
allow_list a (b ∷ l) = (
  λ h. inr (string_in_slice-In a (b ∷ l) (ground arith)),
  λ h. elim h [ inl e ↦ absurd (cc) | inr m ↦ ground (arith, In-string_in_slice a (b ∷ l) m) ],
)

code_allow_list :
    (a : Int64) (l : List Int64)
    → ((ltb 0 (length l) && not (int_in_slice a l)) ≡ false) ↔ Allows l a
code_allow_list a [] = (λ h. inl refl, λ h. refl)
code_allow_list a (b ∷ l) = (
  λ h. inr (int_in_slice-In a (b ∷ l) (ground arith)),
  λ h. elim h [ inl e ↦ absurd (cc) | inr m ↦ ground (arith, In-int_in_slice a (b ∷ l) m) ],
)

-- A pump's filters let a record through: no block list names it, and each allow list does.
pub record Accepts (f : AnalyticsFilters) (r : AnalyticsRecord) : Type 0 where
  pub api_not_skipped : ¬ In r.api_id f.skipped_api_ids
  pub org_not_skipped : ¬ In r.org_id f.skipped_orgs_ids
  pub code_not_skipped : ¬ In r.response_code f.skipped_response_codes
  pub api_allowed : Allows f.api_ids r.api_id
  pub org_allowed : Allows f.orgs_ids r.org_id
  pub code_allowed : Allows f.response_codes r.response_code

-- A record is kept exactly when the filters accept it: no block list of APIs, organisations or
-- response codes has its value, and each allow list of these is empty or has it.
pub should_filter-Accepts :
    (f : AnalyticsFilters) (r : AnalyticsRecord) → (should_filter f r ≡ false) ↔ Accepts f r
unfolding should_filter
should_filter-Accepts f r = (
  λ h. record {
    api_not_skipped = (block_list r.api_id f.skipped_api_ids).0 (ground arith);
    org_not_skipped = (block_list r.org_id f.skipped_orgs_ids).0 (ground arith);
    code_not_skipped = (code_block_list r.response_code f.skipped_response_codes).0 (ground arith);
    api_allowed = (allow_list r.api_id f.api_ids).0 (ground arith);
    org_allowed = (allow_list r.org_id f.orgs_ids).0 (ground arith);
    code_allowed = (code_allow_list r.response_code f.response_codes).0 (ground arith);
  },
  λ h.
      rw
        (
          (block_list r.api_id f.skipped_api_ids).1 h.api_not_skipped,
          (block_list r.org_id f.skipped_orgs_ids).1 h.org_not_skipped,
          (code_block_list r.response_code f.skipped_response_codes).1 h.code_not_skipped,
          (allow_list r.api_id f.api_ids).1 h.api_allowed,
          (allow_list r.org_id f.orgs_ids).1 h.org_allowed,
        )
        ((code_allow_list r.response_code f.response_codes).1 h.code_allowed),
)

-- Where a pump has no filter set, it drops nothing.
pub has_filter-should_filter :
    (f : AnalyticsFilters) (r : AnalyticsRecord) → has_filter f ≡ false → should_filter f r ≡ false
unfolding has_filter should_filter
has_filter-should_filter f r h = ground arith
