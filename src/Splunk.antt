-- ===== src/Splunk.antt =====
-- pumps/splunk.go: records as events of the HTTP event collector, and events in batches.
pub mod Tags
pub mod Sent
pub mod Batches
use tyk_pump.Base.{
  ℕ, zero, suc, ◌+◌, ◌-◌, Bool, true, false, not, ◌&&◌, List, [], ◌∷◌, ◌++◌, Option, none, some,
  ◌>>=◌, for_each, Text, text, same, is_empty, length, ltb, leb, ◌==◌, Int64, add64, lt64, Map,
  lookup, insert, has_prefix, if◌then◌else◌,
}
use tyk_pump.Time.{Time}
use tyk_pump.Analytics.Record.{AnalyticsRecord, GeoData, NetworkStats, Latency}
use tyk_pump.Aggregate.Data.{Value, analytics, null}
use tyk_pump.Sql.Shards.{get, drop}

-- `SplunkPumpConfig`, without what the client alone reads; the length is not negative.
pub record SplunkPumpConfig : Type 0 where
  pub obfuscate_api_keys : Bool
  pub obfuscate_api_keys_length : ℕ
  pub fields : List Text
  pub ignore_tag_prefix_list : List Text
  pub enable_batch : Bool
  pub batch_max_content_length : Int64

-- A field of an event, an `interface{}`.
pub data EventValue : Type 0 where
  string : Text → EventValue
  integer : Int64 → EventValue
  boolean : Bool → EventValue
  time : Time → EventValue
  geo : GeoData → EventValue
  network : NetworkStats → EventValue
  latency : Latency → EventValue
  strings : List Text → EventValue

-- `apiKey`, hidden but for its last bytes.
unfoldable pub obfuscate : SplunkPumpConfig → Text → Text
obfuscate conf api_key =
    if conf.obfuscate_api_keys && ltb conf.obfuscate_api_keys_length (length api_key)
    then text "****" ++ drop (length api_key - conf.obfuscate_api_keys_length) api_key
    else api_key

-- `filteredTags` without the element at an index: what follows it moves up.
abbrev pub remove_at : ℕ → List Text → List Text
remove_at i [] = []
remove_at zero (t ∷ ts) = ts
remove_at (suc i) (t ∷ ts) = t ∷ remove_at i ts

-- The tag that the loop reads at an index of the array: behind the slice it has been emptied.
abbrev pub tag_at : ℕ → List Text → Text
tag_at i ts = elim (get i ts) [ none ↦ [] | some t ↦ t ]

-- A round of the inner loop. The slice that begins behind an index beyond the end panics.
abbrev pub remove_matching : (matches : Bool) → ℕ → List Text → Option (List Text)
remove_matching true i ts = if ltb i (length ts) then some (remove_at i ts) else none
remove_matching false i ts = some ts

-- The inner loop, which counts up to the length that the slice had before it.
unfoldable pub filter_rounds : Text → ℕ → ℕ → List Text → Option (List Text)
filter_rounds prefix zero i ts = some ts
filter_rounds prefix (suc n) i ts =
    remove_matching (has_prefix (tag_at i ts) prefix) i ts >>= filter_rounds prefix n (suc i)

-- `FilterTags`
unfoldable pub filter_tags : List Text → List Text → Option (List Text)
filter_tags prefixes tags =
    for_each (λ prefix ts. filter_rounds prefix (length ts) 0 ts) prefixes tags

-- `mapping`
unfoldable pub mapping : SplunkPumpConfig → AnalyticsRecord → Map EventValue
mapping conf r =
    (text "method", string r.method)
    ∷ (text "host", string r.host)
    ∷ (text "path", string r.path)
    ∷ (text "raw_path", string r.raw_path)
    ∷ (text "content_length", integer r.content_length)
    ∷ (text "user_agent", string r.user_agent)
    ∷ (text "response_code", integer r.response_code)
    ∷ (text "api_key", string (obfuscate conf r.api_key))
    ∷ (text "time_stamp", time r.time_stamp)
    ∷ (text "api_version", string r.api_version)
    ∷ (text "api_name", string r.api_name)
    ∷ (text "api_id", string r.api_id)
    ∷ (text "org_id", string r.org_id)
    ∷ (text "oauth_id", string r.oauth_id)
    ∷ (text "raw_request", string r.raw_request)
    ∷ (text "request_time", integer r.request_time)
    ∷ (text "raw_response", string r.raw_response)
    ∷ (text "ip_address", string r.ip_address)
    ∷ (text "geo", geo r.geo)
    ∷ (text "network", network r.network)
    ∷ (text "latency", latency r.latency)
    ∷ (text "tags", strings r.tags)
    ∷ (text "alias", string r.alias)
    ∷ (text "track_path", boolean r.track_path)
    ∷ []

-- The tags that the mapping holds.
abbrev pub tags_of : Option EventValue → List Text
tags_of (some (strings ts)) = ts
tags_of o = []

abbrev pub is_nil : List Text → Bool
is_nil [] = true
is_nil (t ∷ ts) = false

-- The tags are filtered again wherever the list of fields names them.
unfoldable pub filter_field : SplunkPumpConfig → Text → Map EventValue → Option (Map EventValue)
filter_field conf field m =
    if same field (text "tags") && not (is_nil conf.ignore_tag_prefix_list)
    then (filter_tags conf.ignore_tag_prefix_list (tags_of (lookup (text "tags") m)) >>= λ ts.
        some (insert (text "tags") (strings ts) m))
    else some m

-- A field that the mapping lacks is passed over.
abbrev pub put_field :
    Text → Option EventValue → Map EventValue × Map EventValue → Map EventValue × Map EventValue
put_field field none s = s
put_field field (some v) (m, event) = (m, insert field v event)

abbrev pub is_there : Option EventValue → Bool
is_there none = false
is_there (some v) = true

-- A round over the fields of the configuration, on the mapping and the event.
unfoldable pub add_field :
    SplunkPumpConfig
    → Text
    → Map EventValue × Map EventValue
    → Option (Map EventValue × Map EventValue)
add_field conf field (m, event) =
    if is_there (lookup field m)
    then (filter_field conf field m >>= λ m'. some (put_field field (lookup field m') (m', event)))
    else some (m, event)

-- The fields of an event where the configuration names none.
unfoldable pub default_event : SplunkPumpConfig → AnalyticsRecord → Map EventValue
default_event conf r =
    (text "method", string r.method)
    ∷ (text "path", string r.path)
    ∷ (text "response_code", integer r.response_code)
    ∷ (text "api_key", string (obfuscate conf r.api_key))
    ∷ (text "time_stamp", time r.time_stamp)
    ∷ (text "api_version", string r.api_version)
    ∷ (text "api_name", string r.api_name)
    ∷ (text "api_id", string r.api_id)
    ∷ (text "org_id", string r.org_id)
    ∷ (text "oauth_id", string r.oauth_id)
    ∷ (text "raw_request", string r.raw_request)
    ∷ (text "request_time", integer r.request_time)
    ∷ (text "raw_response", string r.raw_response)
    ∷ (text "ip_address", string r.ip_address)
    ∷ []

-- The event of a record; `none` is a panic.
unfoldable pub event_of : SplunkPumpConfig → AnalyticsRecord → Option (Map EventValue)
event_of conf r =
    if is_nil conf.fields
    then some (default_event conf r)
    else for_each (add_field conf) conf.fields (mapping conf r, []) >>= λ s. some s.1

-- What the pump uses of other packages: an event with its time as JSON, or an error, and the sending of a
-- request, which returns nil or an error.
pub record Client : Type 1 where
  pub State : Type 0
  pub marshal : Time → Map EventValue → Option Text
  pub send : Text → State → Option Text × State

-- How `WriteData` leaves the loop: it goes on with the buffer, or returns an error.
pub data Flow (S : Type 0) : Type 0 where
  goes_on : Text → S → Flow S
  fails : S → Flow S

module _ (conf : SplunkPumpConfig) (client : Client) where
  open client use {State, marshal, send}

  -- What follows a request.
  abbrev pub after_send : Option Text × State → (State → Flow State) → Flow State
  after_send (none, s) next = next s
  after_send (some e, s) next = fails s

  -- One event: into the buffer, which is sent first if it would grow too long, or sent at once.
  unfoldable pub add_event : Text → Text → State → Flow State
  add_event buffer event s =
      if conf.enable_batch
      then if lt64 conf.batch_max_content_length (add64 (length buffer) (length event))
        then after_send (send buffer s) (λ s'. goes_on event s')
        else goes_on (buffer ++ event) s
      else after_send (send event s) (λ s'. goes_on buffer s')

  abbrev pub and_then : Flow State → (Text → State → Flow State) → Flow State
  and_then (goes_on buffer s) next = next buffer s
  and_then (fails s) next = fails s

  -- The loop over the events that could be made.
  unfoldable pub add_events : List Text → Text → State → Flow State
  add_events [] buffer s = goes_on buffer s
  add_events (e ∷ es) buffer s = and_then (add_event buffer e s) (add_events es)

  abbrev pub is_sent : Option Text × State → Bool × State
  is_sent (none, s) = (true, s)
  is_sent (some e, s) = (false, s)

  -- The end of `WriteData`, with what the buffer still holds: whether it returns nil, and the state.
  unfoldable pub flush : Flow State → Bool × State
  flush (fails s) = (false, s)
  flush (goes_on buffer s) =
      if conf.enable_batch && ltb 0 (length buffer) then is_sent (send buffer s) else (true, s)

  unfoldable pub send_events : List Text → State → Bool × State
  send_events events s = flush (add_events events [] s)

  -- A round of `WriteData`; `v.(AnalyticsRecord)` panics on nil, and an event that cannot be encoded ends
  -- the loop with an error.
  abbrev pub add_encoded : Option Text → Text → State → Flow State
  add_encoded none buffer s = fails s
  add_encoded (some event) buffer s = add_event buffer event s

  unfoldable pub add_value : Value → Flow State → Option (Flow State)
  add_value v (fails s) = some (fails s)
  add_value null (goes_on buffer s) = none
  add_value (analytics r) (goes_on buffer s) =
      event_of conf r >>= λ event. some (add_encoded (marshal r.time_stamp event) buffer s)

  -- `WriteData`
  unfoldable pub write_data : List Value → State → Option (Bool × State)
  write_data data' s = for_each add_value data' (goes_on [] s) >>= λ flow. some (flush flow)
