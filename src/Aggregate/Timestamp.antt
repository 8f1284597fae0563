-- ===== src/Aggregate/Timestamp.antt =====
-- analytics/aggregate.go: the time stamp of an aggregate. `lastDocumentTimestamp` is a map that
-- lives as long as the process: it is passed in and returned.
use tyk_pump.Base.{
  ℕ, not, ◌==◌, Option, none, some, Text, Map, lookup, insert, is_empty, if◌then◌else◌,
}
use tyk_pump.Time.{Time, is_zero, date, add_minutes_after}

-- `lastDocumentTimestamp`
abbrev pub LastTimes : Type 0
LastTimes = Map Time

-- `time.Date` of the parts of `t` down to the hour, and down to the minute.
abbrev pub to_hour : Time → Time
to_hour t = date t.year t.month t.day t.hour 0 0 0 t.location

abbrev pub to_minute : Time → Time
to_minute t = date t.year t.month t.day t.hour t.minute 0 0 t.location

-- `getLastDocumentTimestamp`
unfoldable pub get_last_document_timestamp : Text → LastTimes → Option Time
get_last_document_timestamp id last = lookup id last

-- `SetlastTimestampAgggregateRecord`
unfoldable pub set_last_timestamp_aggregate_record : Text → Time → LastTimes → LastTimes
set_last_timestamp_aggregate_record id t last = insert id t last

-- The time stamp that is kept for the database, or a new one where there is none or the zero time.
last_or_now : Text → Time → LastTimes → Time × LastTimes
unfolding get_last_document_timestamp set_last_timestamp_aggregate_record
last_or_now id now last =
    let fresh : Time × LastTimes =
      (to_minute now, set_last_timestamp_aggregate_record id (to_minute now) last) in
    elim (get_last_document_timestamp id last) [
      | none ↦ fresh
      | some t ↦ if is_zero t then fresh else (t, last)
    ]

-- `setAggregateTimestamp`
unfoldable pub set_aggregate_timestamp : Text → Time → ℕ → LastTimes → Time × LastTimes
unfolding last_or_now set_last_timestamp_aggregate_record
set_aggregate_timestamp id now minutes last =
    let (t, last') = last_or_now id now last in
    if minutes == 60
    then (to_hour now, last)
    else if not (is_empty id)
    then if add_minutes_after t minutes now
      then (t, last')
      else (to_minute now, set_last_timestamp_aggregate_record id (to_minute now) last')
    else (to_minute now, last')
