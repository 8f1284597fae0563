-- ===== src/Analytics/Fields/Mask.antt =====
-- analytics/analytics.go: what `RemoveIgnoredFields` leaves of a record.
use mathlib.Core.Path.{fun_ext}
use tyk_pump.Base.{
  ℕ, zero, suc, ==_iff, ◌≡◌, refl, sym, ap, ◌∙◌, Bool, true, false, ◌&&◌, ◌||◌, ◌==◌, inl, inr,
  Bool-cases, List, [], ◌∷◌, Text, same, any, if◌then◌else◌, arith,
}
use tyk_pump.Time.{zero_time}
use tyk_pump.Analytics.Record.{
  AnalyticsRecord, zero_network, zero_latency, zero_geo, zero_graph_ql, zero_mcp,
}
use tyk_pump.Analytics.Fields.{
  Field, fields, json_tag, zero_field, ignore_tag_in, remove_ignored_fields,
}

-- The place of a field in the declaration.
abbrev place : Field → ℕ
place Field.method = 0
place Field.host = 1
place Field.path = 2
place Field.raw_path = 3
place Field.content_length = 4
place Field.user_agent = 5
place Field.day = 6
place Field.month = 7
place Field.year = 8
place Field.hour = 9
place Field.response_code = 10
place Field.api_key = 11
place Field.time_stamp = 12
place Field.api_version = 13
place Field.api_name = 14
place Field.api_id = 15
place Field.org_id = 16
place Field.oauth_id = 17
place Field.request_time = 18
place Field.raw_request = 19
place Field.raw_response = 20
place Field.ip_address = 21
place Field.geo = 22
place Field.network = 23
place Field.latency = 24
place Field.tags = 25
place Field.alias = 26
place Field.track_path = 27
place Field.expire_at = 28
place Field.api_schema = 29
place Field.original_path = 30
place Field.listen_path = 31
place Field.graph_ql_stats = 32
place Field.mcp_stats = 33
place Field.collection_name = 34

abbrev same_field : Field → Field → Bool
same_field f g = place f == place g

-- The record with the fields that pass the test set to zero, and the others kept.
pub mask : (Field → Bool) → AnalyticsRecord → AnalyticsRecord
mask p a = record {
  id = a.id;
  method = if p Field.method then [] else a.method;
  host = if p Field.host then [] else a.host;
  path = if p Field.path then [] else a.path;
  raw_path = if p Field.raw_path then [] else a.raw_path;
  content_length = if p Field.content_length then 0 else a.content_length;
  user_agent = if p Field.user_agent then [] else a.user_agent;
  day = if p Field.day then 0 else a.day;
  month = if p Field.month then 0 else a.month;
  year = if p Field.year then 0 else a.year;
  hour = if p Field.hour then 0 else a.hour;
  response_code = if p Field.response_code then 0 else a.response_code;
  api_key = if p Field.api_key then [] else a.api_key;
  time_stamp = if p Field.time_stamp then zero_time else a.time_stamp;
  api_version = if p Field.api_version then [] else a.api_version;
  api_name = if p Field.api_name then [] else a.api_name;
  api_id = if p Field.api_id then [] else a.api_id;
  org_id = if p Field.org_id then [] else a.org_id;
  oauth_id = if p Field.oauth_id then [] else a.oauth_id;
  request_time = if p Field.request_time then 0 else a.request_time;
  raw_request = if p Field.raw_request then [] else a.raw_request;
  raw_response = if p Field.raw_response then [] else a.raw_response;
  ip_address = if p Field.ip_address then [] else a.ip_address;
  geo = if p Field.geo then zero_geo else a.geo;
  network = if p Field.network then zero_network else a.network;
  latency = if p Field.latency then zero_latency else a.latency;
  tags = if p Field.tags then [] else a.tags;
  alias = if p Field.alias then [] else a.alias;
  track_path = if p Field.track_path then false else a.track_path;
  expire_at = if p Field.expire_at then zero_time else a.expire_at;
  api_schema = if p Field.api_schema then [] else a.api_schema;
  original_path = if p Field.original_path then [] else a.original_path;
  listen_path = if p Field.listen_path then [] else a.listen_path;
  graph_ql_stats = if p Field.graph_ql_stats then zero_graph_ql else a.graph_ql_stats;
  mcp_stats = if p Field.mcp_stats then zero_mcp else a.mcp_stats;
  collection_name = if p Field.collection_name then [] else a.collection_name;
}

pub mask_none : (a : AnalyticsRecord) → mask (λ f. false) a ≡ a
unfolding mask
mask_none a = refl

zero_field-mask :
    (f : Field) (p : Field → Bool) (a : AnalyticsRecord)
    → zero_field f (mask p a) ≡ mask (λ g. if same_field f g then true else p g) a
unfolding mask zero_field
zero_field-mask Field.method p a = refl
zero_field-mask _ p a = refl

abbrev field_at : List Field → ℕ → Field
field_at [] n = Field.method
field_at (f ∷ fs) zero = f
field_at (f ∷ fs) (suc n) = field_at fs n

field_at-place : (f : Field) → field_at fields (place f) ≡ f
field_at-place Field.method = refl
field_at-place _ = refl

same_field-eq : (f g : Field) → same_field f g ≡ true → f ≡ g
same_field-eq f g h =
    sym (field_at-place f) ∙ ap (field_at fields) ((==_iff _ _).0 h) ∙ field_at-place g

has_field : Field → List Field → Bool
has_field g [] = false
has_field g (f ∷ fs) = same_field f g || has_field g fs

-- The fields that one run of the inner loop has set to zero.
abbrev after : Text → List Field → (Field → Bool) → Field → Bool
after t fs p g = p g || has_field g fs && same (json_tag g) t

step_hit : (s p m : Bool) → ((if s && true then true else p) || m && s) ≡ (p || (true || m) && s)
step_hit s p m = ground arith

step_miss :
    (s s' p m : Bool) → ((if s && false then true else p) || m && s') ≡ (p || (false || m) && s')
step_miss s s' p m = ground arith

after_step :
    (t : Text) (f : Field) (fs : List Field) (p : Field → Bool) (g : Field)
    → after t fs (λ k. if same (json_tag f) t && same_field f k then true else p k) g
      ≡ after t (f ∷ fs) p g
unfolding has_field
after_step t f fs p g = elim (Bool-cases (same_field f g)) [
  | inl e ↦ rw (e, same_field-eq f g e) (step_hit (same (json_tag g) t) (p g) (has_field g fs))
  | inr e ↦ rw e (step_miss (same (json_tag f) t) (same (json_tag g) t) (p g) (has_field g fs))
]

ignore_tag_in-mask :
    (t : Text) (fs : List Field) (p : Field → Bool) (a : AnalyticsRecord)
    → ignore_tag_in t fs (mask p a) ≡ mask (after t fs p) a
unfolding ignore_tag_in has_field
ignore_tag_in-mask t [] p a = ap (λ q. mask q a) (fun_ext (λ g. ground arith))
ignore_tag_in-mask t (f ∷ fs) p a =
    ap (ignore_tag_in t fs) (one_step (same (json_tag f) t))
    ∙ ignore_tag_in-mask t fs (λ k. if same (json_tag f) t && same_field f k then true else p k) a
    ∙ ap (λ q. mask q a) (fun_ext (after_step t f fs p))
  where
    one_step :
        (b : Bool)
        → (if b then zero_field f (mask p a) else mask p a)
          ≡ mask (λ k. if b && same_field f k then true else p k) a
    one_step true = zero_field-mask f p a
    one_step false = refl

every_field : (g : Field) → has_field g fields ≡ true
unfolding has_field
every_field Field.method = refl
every_field _ = refl

ignored : List Text → (Field → Bool) → Field → Bool
ignored ts p g = p g || any (same (json_tag g)) ts

remove-mask :
    (ts : List Text) (p : Field → Bool) (a : AnalyticsRecord)
    → remove_ignored_fields ts (mask p a) ≡ mask (ignored ts p) a
unfolding remove_ignored_fields ignored
remove-mask [] p a = ap (λ q. mask q a) (fun_ext (λ g. ground arith))
remove-mask (t ∷ ts) p a =
    ap (remove_ignored_fields ts) (ignore_tag_in-mask t fields p a)
    ∙ remove-mask ts (after t fields p) a
    ∙ ap (λ q. mask q a) (fun_ext (λ g. rw (every_field g) (ground arith)))

-- Ignoring a list of fields sets those fields to their zero values whose JSON tags are listed, and
-- changes nothing else: not the order of the list, repetitions in it, nor unknown tags matter.
pub remove_ignored_fields-mask :
    (ts : List Text) (a : AnalyticsRecord)
    → remove_ignored_fields ts a ≡ mask (λ f. any (same (json_tag f)) ts) a
unfolding ignored
remove_ignored_fields-mask ts a =
    ap (remove_ignored_fields ts) (sym (mask_none a)) ∙ remove-mask ts (λ f. false) a
