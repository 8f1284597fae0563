-- ===== src/Aggregate/Increment/Ready.antt =====
-- analytics/aggregate.go: `incrementAggregate` returns, and keeps every counter ready, where all
-- counters are ready and the record is no report on connections.
use tyk_pump.Base.{
  lookup-AllValues, insert-AllValues, if-Yields, Bool, true, false, not, ◌&&◌, List, [], Option,
  none, some, ◌>>=◌, Yields, bind-Yields, for_each-Yields, Text, text, is_empty, Map, lookup,
  insert, ◌++◌, All, Bool-cases, inl, inr, if◌then◌else◌, arith,
}
use tyk_pump.Floats.{FloatOps}
use tyk_pump.Analytics.Record.{AnalyticsRecord}
use tyk_pump.Analytics.Fields.{Field}
use tyk_pump.Aggregate.Counter.{Counter, increment_or_set_unit}
use tyk_pump.Aggregate.Counter.Ready.{
  IsReady, AllReady, lookup-OptReady, increment_or_set_unit-IsReady,
}
use tyk_pump.Aggregate.Keys.{do_hash, trim_tag, ignore_tag}
use tyk_pump.Aggregate.State.{AnalyticsRecordAggregate}
use tyk_pump.Aggregate.Cases.{
  add_unit, add_endpoint, add_api_id, add_response_code, add_api_version, add_api_key,
  add_key_endpoint, add_oauth_id, add_oauth_endpoint, add_geo, add_tag, add_tags, add_path,
  add_api_endpoint, field_step, write_back, endpoints_of, label,
}

-- All counters of an aggregate are ready.
pub record AllCountersReady (a : AnalyticsRecordAggregate) : Type 0 where
  pub total : IsReady a.total
  pub api_keys : AllReady a.api_keys
  pub errors : AllReady a.errors
  pub versions : AllReady a.versions
  pub api_id : AllReady a.api_id
  pub oauth_ids : AllReady a.oauth_ids
  pub geo : AllReady a.geo
  pub tags : AllReady a.tags
  pub endpoints : AllReady a.endpoints
  pub key_endpoint : All (λ e. AllReady e.1) a.key_endpoint
  pub oauth_endpoint : All (λ e. AllReady e.1) a.oauth_endpoint
  pub api_endpoint : AllReady a.api_endpoint

abbrev NestedReady : Map (Map Counter) → Type 0
NestedReady m = All (λ e. AllReady e.1) m

write_back-AllReady :
    (o : Option Counter) (key : Text) (c : Counter) (m : Map Counter)
    → IsReady c
    → AllReady m
    → AllReady (write_back o key c m)
write_back-AllReady none key c m r h = h
write_back-AllReady (some _) key c m r h = insert-AllValues IsReady key c m r h

stored-AllReady :
    (b : Bool) (key : Text) (c : Counter) (m : Map Counter)
    → IsReady c
    → AllReady m
    → AllReady (if b then insert key c m else m)
stored-AllReady true key c m r h = insert-AllValues IsReady key c m r h
stored-AllReady false key c m r h = h

endpoints_of-AllReady :
    (key : Text) (m : Map (Map Counter)) → NestedReady m → AllReady (endpoints_of key m)
endpoints_of-AllReady key m h =
    lookup-AllValues AllReady (λ o. AllReady (elim o [ none ↦ [] | some n ↦ n ])) key m tt
      (λ n r. r) h

module _ (fl : FloatOps) (base : Counter) where
  pub add_unit-AllReady :
      (key : Text) (keep : Counter → Bool) (name : Counter → Counter) (m : Map Counter)
      → ((c : Counter) → IsReady c → IsReady (name c))
      → AllReady m
      → Yields AllReady (add_unit fl base key keep name m)
  unfolding add_unit
  add_unit-AllReady key keep name m k h =
      bind-Yields IsReady AllReady (increment_or_set_unit fl base (lookup key m))
        (λ c. some (
          if keep c
          then insert key (name c) (write_back (lookup key m) key c m)
          else write_back (lookup key m) key c m))
        (increment_or_set_unit-IsReady fl base (lookup key m) (lookup-OptReady key m h))
        (λ c r. elim (Bool-cases (keep c)) [
          | inl e ↦ rw e (
              insert-AllValues IsReady key (name c) (write_back (lookup key m) key c m) (k c r)
                (write_back-AllReady (lookup key m) key c m r h))
          | inr e ↦ rw e (write_back-AllReady (lookup key m) key c m r h)
        ])

  add_endpoint-NestedReady :
      (r : AnalyticsRecord) (key : Text) (m : Map (Map Counter))
      → NestedReady m
      → Yields NestedReady (add_endpoint fl base r key m)
  unfolding add_endpoint
  add_endpoint-NestedReady r key m h =
      let hash = do_hash (r.api_id ++ text ":" ++ r.path) in
      bind-Yields AllReady NestedReady
        (add_unit fl base hash (λ c. true) (label hash hash) (endpoints_of key m))
        (λ n. some (insert key n m))
        (add_unit-AllReady hash (λ c. true) (label hash hash) (endpoints_of key m) (λ c k. k)
          (endpoints_of-AllReady key m h))
        (λ n k. insert-AllValues AllReady key n m k h)

  add_tag-AllReady :
      (ignored : List Text) (tag : Text) (m : Map Counter)
      → AllReady m
      → Yields AllReady (add_tag fl base ignored tag m)
  unfolding add_tag
  add_tag-AllReady ignored tag m h =
      let trimmed = trim_tag tag in
      if-Yields AllReady (not (is_empty trimmed) && not (ignore_tag tag ignored)) _ _
        (add_unit-AllReady trimmed (λ c. true) (label trimmed trimmed) m (λ c k. k) h) h

  when-AllReady :
      (b : Bool) (key : Text) (name : Counter → Counter) (m : Map Counter)
      → ((c : Counter) → IsReady c → IsReady (name c))
      → AllReady m
      → Yields AllReady (if b then add_unit fl base key (λ c. true) name m else some m)
  when-AllReady true key name m k h = add_unit-AllReady key (λ c. true) name m k h
  when-AllReady false key name m k h = h

  unless-AllReady :
      (b : Bool) (key : Text) (keep : Counter → Bool) (name : Counter → Counter) (m : Map Counter)
      → ((c : Counter) → IsReady c → IsReady (name c))
      → AllReady m
      → Yields AllReady (if b then some m else add_unit fl base key keep name m)
  unless-AllReady true key keep name m k h = h
  unless-AllReady false key keep name m k h = add_unit-AllReady key keep name m k h

  when-NestedReady :
      (b : Bool) (r : AnalyticsRecord) (key : Text) (m : Map (Map Counter))
      → NestedReady m
      → Yields NestedReady (if b then add_endpoint fl base r key m else some m)
  when-NestedReady true r key m h = add_endpoint-NestedReady r key m h
  when-NestedReady false r key m h = h

  two_maps :
      {A B : Type 0} (P : A → Type 0) (Q : B → Type 0) (o : Option A) (o' : Option B)
      (f : A → B → AnalyticsRecordAggregate)
      → Yields P o
      → Yields Q o'
      → ((m : A) (n : B) → P m → Q n → AllCountersReady (f m n))
      → Yields AllCountersReady (o >>= λ m. o' >>= λ n. some (f m n))
  two_maps P Q none o' f h k g = h
  two_maps P Q (some m) none f h k g = k
  two_maps P Q (some m) (some n) f h k g = g m n h k

  -- Adding to one map of counters that are ready returns such a map.
  pub field_step-AllCountersReady :
      (r : AnalyticsRecord) (ignored : List Text) (f : Field) (a : AnalyticsRecordAggregate)
      → AllCountersReady a
      → Yields AllCountersReady (field_step fl base r ignored f a)
  unfolding field_step
  field_step-AllCountersReady r ignored Field.api_id a h =
      bind-Yields AllReady AllCountersReady (add_api_id fl base r a.api_id)
        (λ m. some (record a { api_id = m }))
        (unfold add_api_id in add_unit-AllReady _ _ _ a.api_id (λ c k. k) h.api_id)
        (λ m k. ground arith)
  field_step-AllCountersReady r ignored Field.response_code a h =
      bind-Yields AllReady AllCountersReady (add_response_code fl base r a.errors)
        (λ m. some (record a { errors = m }))
        (unfold add_response_code in unless-AllReady _ _ _ _ a.errors (λ c k. k) h.errors)
        (λ m k. ground arith)
  field_step-AllCountersReady r ignored Field.api_version a h =
      bind-Yields AllReady AllCountersReady (add_api_version fl base r a.versions)
        (λ m. some (record a { versions = m }))
        (unfold add_api_version in add_unit-AllReady _ _ _ a.versions (λ c k. k) h.versions)
        (λ m k. ground arith)
  field_step-AllCountersReady r ignored Field.geo a h =
      bind-Yields AllReady AllCountersReady (add_geo fl base r a.geo)
        (λ m. some (record a { geo = m }))
        (unfold add_geo in add_unit-AllReady _ _ _ a.geo (λ c k. k) h.geo) (λ m k. ground arith)
  field_step-AllCountersReady r ignored Field.tags a h =
      bind-Yields AllReady AllCountersReady (add_tags fl base r ignored a.tags)
        (λ m. some (record a { tags = m }))
        (unfold add_tags in
          for_each-Yields AllReady (add_tag fl base ignored) r.tags a.tags
            (add_tag-AllReady ignored) h.tags)
        (λ m k. ground arith)
  field_step-AllCountersReady r ignored Field.api_key a h =
      two_maps AllReady NestedReady (add_api_key fl base r a.api_keys)
        (add_key_endpoint fl base r a.key_endpoint)
        (λ m n. record a { api_keys = m; key_endpoint = n })
        (unfold add_api_key in unless-AllReady _ _ _ _ a.api_keys (λ c k. k) h.api_keys)
        (unfold add_key_endpoint in when-NestedReady _ r r.api_key a.key_endpoint h.key_endpoint)
        (λ m n k l. ground arith)
  field_step-AllCountersReady r ignored Field.oauth_id a h =
      two_maps AllReady NestedReady (add_oauth_id fl base r a.oauth_ids)
        (add_oauth_endpoint fl base r a.oauth_endpoint)
        (λ m n. record a { oauth_ids = m; oauth_endpoint = n })
        (unfold add_oauth_id in unless-AllReady _ _ _ _ a.oauth_ids (λ c k. k) h.oauth_ids)
        (unfold add_oauth_endpoint in
          when-NestedReady _ r r.oauth_id a.oauth_endpoint h.oauth_endpoint)
        (λ m n k l. ground arith)
  field_step-AllCountersReady r ignored Field.track_path a h =
      two_maps AllReady AllReady (add_path fl base r a.endpoints)
        (add_api_endpoint fl base r a.api_endpoint)
        (λ m n. record a { endpoints = m; api_endpoint = n })
        (unfold add_path in when-AllReady _ _ _ a.endpoints (λ c k. k) h.endpoints)
        (unfold add_api_endpoint in when-AllReady _ _ _ a.api_endpoint (λ c k. k) h.api_endpoint)
        (λ m n k l. ground arith)
  field_step-AllCountersReady r ignored _ a h = h
