-- ===== src/Aggregate/Increment/Order.antt =====
-- analytics/aggregate.go: `incrementAggregate` ranges over a Go map, whose order is not specified.
-- Its result does not depend on it.
use mathlib.Core.List.{Permᴰ}
use mathlib.Core.Path.{fun_ext}
use tyk_pump.Base.{
  ◌≡◌, refl, sym, ap, ◌∙◌, Bool, List, ◌∷◌, Option, some, ◌>>=◌, >>=_assoc, for_each, Text, ◌==◌,
  minus_one, true, if◌then◌else◌, arith,
}
use tyk_pump.Floats.{FloatOps}
use tyk_pump.Analytics.Record.{AnalyticsRecord}
use tyk_pump.Analytics.Fields.{Field}
use tyk_pump.Aggregate.Counter.{Counter}
use tyk_pump.Aggregate.State.{AnalyticsRecordAggregate}
use tyk_pump.Aggregate.Increment.{
  add_request, increment_aggregate, add_to_total, request_counter, seen, add_connections,
  connection_counter,
}
use tyk_pump.Aggregate.Cases.{
  add_api_id, add_response_code, add_api_version, add_api_key, add_key_endpoint, add_oauth_id,
  add_oauth_endpoint, add_geo, add_tags, add_path, add_api_endpoint, field_step,
}

-- The cases of the switch.
data Switch : Type 0 where
  api_id response_code api_version api_key oauth_id geo tags track_path default : Switch

switch_of : Field → Switch
switch_of Field.api_id = api_id
switch_of Field.response_code = response_code
switch_of Field.api_version = api_version
switch_of Field.api_key = api_key
switch_of Field.oauth_id = oauth_id
switch_of Field.geo = geo
switch_of Field.tags = tags
switch_of Field.track_path = track_path
switch_of _ = default

module _ (fl : FloatOps) (base : Counter) (r : AnalyticsRecord) (ignored : List Text) where
  case_step : Switch → AnalyticsRecordAggregate → Option AnalyticsRecordAggregate
  case_step api_id a = do m ← add_api_id fl base r a.api_id; some (record a { api_id = m })
  case_step response_code a = do
    m ← add_response_code fl base r a.errors
    some (record a { errors = m })
  case_step api_version a = do
    m ← add_api_version fl base r a.versions
    some (record a { versions = m })
  case_step api_key a = do
    m ← add_api_key fl base r a.api_keys
    n ← add_key_endpoint fl base r a.key_endpoint
    some (record a { api_keys = m; key_endpoint = n })
  case_step oauth_id a = do
    m ← add_oauth_id fl base r a.oauth_ids
    n ← add_oauth_endpoint fl base r a.oauth_endpoint
    some (record a { oauth_ids = m; oauth_endpoint = n })
  case_step geo a = do m ← add_geo fl base r a.geo; some (record a { geo = m })
  case_step tags a = do m ← add_tags fl base r ignored a.tags; some (record a { tags = m })
  case_step track_path a = do
    m ← add_path fl base r a.endpoints
    n ← add_api_endpoint fl base r a.api_endpoint
    some (record a { endpoints = m; api_endpoint = n })
  case_step default a = some a

  field_step-case :
      (f : Field) (a : AnalyticsRecordAggregate)
      → field_step fl base r ignored f a ≡ case_step (switch_of f) a
  unfolding field_step case_step switch_of
  field_step-case Field.api_id a = refl
  field_step-case _ a = refl

  case_step_comm :
      (x y : Switch) (a : AnalyticsRecordAggregate)
      → (case_step x a >>= case_step y) ≡ (case_step y a >>= case_step x)
  unfolding case_step
  case_step_comm api_id api_id a = refl
  case_step_comm _ _ a = ground arith

  step_comm :
      (f g : Field) (a : AnalyticsRecordAggregate)
      → (field_step fl base r ignored f a >>= field_step fl base r ignored g)
        ≡ (field_step fl base r ignored g a >>= field_step fl base r ignored f)
  step_comm f g a =
      rw (fun_ext (field_step-case f), fun_ext (field_step-case g))
        (case_step_comm (switch_of f) (switch_of g) a)

  loop : List Field → AnalyticsRecordAggregate → Option AnalyticsRecordAggregate
  loop order = for_each (field_step fl base r ignored) order

  loop-swap :
      (f g : Field) (order : List Field) (a : AnalyticsRecordAggregate)
      → loop (f ∷ g ∷ order) a ≡ loop (g ∷ f ∷ order) a
  unfolding loop for_each
  loop-swap f g order a =
      >>=_assoc (field_step fl base r ignored f a) (field_step fl base r ignored g) (loop order)
      ∙ ap (λ m. m >>= loop order) (step_comm f g a)
      ∙ sym (
          >>=_assoc (field_step fl base r ignored g a) (field_step fl base r ignored f)
            (loop order))

  loop-perm : {order order' : List Field} → Permᴰ order order' → loop order ≡ loop order'
  unfolding loop for_each
  loop-perm Permᴰ.nil = refl
  loop-perm (Permᴰ.cons {a = f} {l₁ = order} e p) =
      rw (← e) (ap (λ l a. field_step fl base r ignored f a >>= l) (loop-perm p))
  loop-perm (Permᴰ.swap {a = f} {b = g} {l = order} e e') =
      rw (← e, ← e') (fun_ext (loop-swap f g order))
  loop-perm (Permᴰ.trans p q) = loop-perm p ∙ loop-perm q

add_request-perm :
    (fl : FloatOps) {order order' : List Field} (a : AnalyticsRecordAggregate) (r : AnalyticsRecord)
    (ignored : List Text)
    → Permᴰ order order'
    → add_request fl order a r ignored ≡ add_request fl order' a r ignored
unfolding add_request loop
add_request-perm fl a r ignored p =
    ap
      (λ (visit : AnalyticsRecordAggregate → Option AnalyticsRecordAggregate).
        add_to_total fl r a.total >>= λ t.
        visit (record a { total = t }) >>= λ b. some (b, request_counter fl r))
      (loop-perm fl (request_counter fl r) r ignored p)

-- Two orders in which Go may visit the fields of the record give the same aggregate and counter, or
-- both panic.
pub increment_aggregate-perm :
    (fl : FloatOps) {order order' : List Field} (a : AnalyticsRecordAggregate) (r : AnalyticsRecord)
    (track_all : Bool) (ignored : List Text)
    → Permᴰ order order'
    → increment_aggregate fl order a r track_all ignored
      ≡ increment_aggregate fl order' a r track_all ignored
unfolding increment_aggregate
increment_aggregate-perm fl a r track_all ignored p =
    let tracked : Bool = if track_all then true else r.track_path in
    ap
      (λ (o : Option (AnalyticsRecordAggregate × Counter)).
        if r.response_code == minus_one
        then some (add_connections r (seen r a), connection_counter r)
        else o)
      (add_request-perm fl (seen r a) (record r { track_path = tracked }) ignored p)
