-- ===== src/Aggregate/Data/NilMap.antt =====
-- analytics/aggregate.go: a report on connections makes a counter of its API without a map of
-- errors; the next error of that API is written into the nil map.
use mathlib.Core.List.{Memᴰ}
use mathlib.Core.Path.{subst}
use tyk_pump.Base.{
  ℕ, ◌≡◌, refl, sym, ◌≢◌, Bool, true, false, List, [], ◌∷◌, none, some, for_each, Text, is_empty,
  minus_one, le64, ◌==◌, lookup, insert, lookup-insert_self, Bool-cases, Option-cases, inl, inr,
  arith,
}
use tyk_pump.Floats.{FloatOps}
use tyk_pump.Analytics.Record.{AnalyticsRecord}
use tyk_pump.Analytics.Fields.{Field, fields}
use tyk_pump.Aggregate.Counter.{Counter, entries}
use tyk_pump.Aggregate.Counter.Ready.{increment_or_set_unit_panics}
use tyk_pump.Aggregate.State.{AnalyticsRecordAggregate}
use tyk_pump.Aggregate.Timestamp.{LastTimes}
use tyk_pump.Aggregate.Increment.{
  is_error, add_bytes, request_counter, seen, add_connections, add_request, add_to_total,
  increment_aggregate, plus_bytes, api_counter, connection_counter,
}
use tyk_pump.Aggregate.Cases.{add_unit, add_api_id, field_step}
use tyk_pump.Aggregate.Data.{
  Value, analytics, is_skipped, Progress, resume, find_or_start, add_record, add_value,
  aggregate_data,
}

-- The API has a counter with a nil map of errors.
record HasNilMap (api : Text) (a : AnalyticsRecordAggregate) : Type 0 where
  counter : Counter
  found : lookup api a.api_id ≡ some counter
  is_nil : counter.error_map ≡ none

api_id_in_fields : Memᴰ Field.api_id fields
api_id_in_fields = Memᴰ.tail (
    Memᴰ.tail (
      Memᴰ.tail (
        Memᴰ.tail (
          Memᴰ.tail (
            Memᴰ.tail (
              Memᴰ.tail (
                Memᴰ.tail (
                  Memᴰ.tail (
                    Memᴰ.tail (
                      Memᴰ.tail
                        (Memᴰ.tail (Memᴰ.tail (Memᴰ.tail (Memᴰ.tail (Memᴰ.head refl)))))))))))))))

module _ (fl : FloatOps) (base : Counter) (r : AnalyticsRecord) (ignored : List Text)
    (erroneous : entries base.error_map ≢ []) where
  step_panics :
      (a : AnalyticsRecordAggregate)
      → HasNilMap r.api_id a
      → field_step fl base r ignored Field.api_id a ≡ none
  unfolding field_step add_api_id add_unit
  step_panics a h = rw (h.found, increment_or_set_unit_panics fl base h.counter erroneous h.is_nil)

  step-HasNilMap :
      (f : Field) (a : AnalyticsRecordAggregate) {b : AnalyticsRecordAggregate}
      → HasNilMap r.api_id a
      → field_step fl base r ignored f a ≡ some b
      → HasNilMap r.api_id b
  unfolding field_step
  step-HasNilMap Field.api_id a h e = absurd (cc (step_panics a h))
  step-HasNilMap _ a h e = record { counter = h.counter; found = ground arith; is_nil = h.is_nil }

  loop_panics :
      (order : List Field) (a : AnalyticsRecordAggregate)
      → Memᴰ Field.api_id order
      → HasNilMap r.api_id a
      → for_each (field_step fl base r ignored) order a ≡ none
  unfolding for_each
  loop_panics [] a m h = elim m [ ]
  loop_panics (f ∷ order) a (Memᴰ.head e) h = rw (← e, step_panics a h)
  loop_panics (f ∷ order) a (Memᴰ.tail m) h =
      elim (Option-cases (field_step fl base r ignored f a)) [
        | inl e ↦ rw e
        | inr (b, e) ↦ rw e (loop_panics order b m (step-HasNilMap f a h e))
      ]

-- The counter of an error has an entry in its map.
error_entry :
    (fl : FloatOps) (r : AnalyticsRecord)
    → is_error r.response_code ≡ true
    → entries (request_counter fl r).error_map ≢ []
unfolding request_counter
error_entry fl r h e = ground arith

add_request_panics :
    (fl : FloatOps) (a : AnalyticsRecordAggregate) (r : AnalyticsRecord) (ignored : List Text)
    → is_error r.response_code ≡ true
    → HasNilMap r.api_id a
    → add_request fl fields a r ignored ≡ none
unfolding add_request
add_request_panics fl a r ignored h n = elim (Option-cases (add_to_total fl r a.total)) [
  | inl e ↦ rw e
  | inr (t, e) ↦ rw (
    e,
    loop_panics fl (request_counter fl r) r ignored (error_entry fl r h) fields
        (record a { total = t }) api_id_in_fields
        (record { counter = n.counter; found = n.found; is_nil = n.is_nil }),
  )
]

-- After a report on an API with no counter, an error of that API panics.
increment_aggregate_panics :
    (fl : FloatOps) (a : AnalyticsRecordAggregate) (r : AnalyticsRecord) (track_all : Bool)
    (ignored : List Text)
    → is_error r.response_code ≡ true
    → HasNilMap r.api_id a
    → increment_aggregate fl fields a r track_all ignored ≡ none
unfolding increment_aggregate seen le64
increment_aggregate_panics fl a r track_all ignored h n =
    elim (Bool-cases (r.response_code == minus_one)) [
      | inl e ↦ absurd (ground arith)
      | inr e ↦ rw e (
          add_request_panics fl _ _ ignored h
            (record { counter = n.counter; found = n.found; is_nil = n.is_nil }))
    ]

-- A report on the connections of an API that has no counter yet.
report-HasNilMap :
    (r : AnalyticsRecord) (a : AnalyticsRecordAggregate)
    → is_empty r.api_id ≡ false
    → lookup r.api_id a.api_id ≡ none
    → HasNilMap r.api_id (add_connections r a)
unfolding add_connections add_bytes
report-HasNilMap r a h e = record {
  counter = plus_bytes r (api_counter r none);
  found = rw (h, e) (lookup-insert_self r.api_id (plus_bytes r (api_counter r none)) a.api_id);
  is_nil = refl;
}

-- Two records of one organisation and one API that `AggregateData` does not pass over, the first a
-- report on connections.
pub record ReportThenError (r s : AnalyticsRecord) : Type 0 where
  pub report : r.response_code ≡ minus_one
  pub error : is_error s.response_code ≡ true
  pub same_api : s.api_id ≡ r.api_id
  pub api_named : is_empty r.api_id ≡ false
  pub same_org : s.org_id ≡ r.org_id
  pub taken : is_skipped r ≡ false
  pub taken_too : is_skipped s ≡ false

module _ (fl : FloatOps) (track_all : Bool) (ignored : List Text) (db : Text) (minutes : ℕ) where
  report_step :
      (a : AnalyticsRecordAggregate) (r : AnalyticsRecord)
      → r.response_code ≡ minus_one
      → increment_aggregate fl fields a r track_all ignored
        ≡ some (add_connections r (seen r a), connection_counter r)
  unfolding increment_aggregate
  report_step a r e = elim (Bool-cases (r.response_code == minus_one)) [
    | inl h ↦ rw h
    | inr h ↦ absurd (ground arith)
  ]

  abbrev first_aggregate : AnalyticsRecord → LastTimes → AnalyticsRecordAggregate × LastTimes
  first_aggregate r last = resume db minutes none r last

  report_added :
      (r : AnalyticsRecord) (last : LastTimes)
      → r.response_code ≡ minus_one
      → is_skipped r ≡ false
      → add_record fl track_all ignored db minutes r ([], last)
        ≡ some (
          insert r.org_id (add_connections r (seen r (first_aggregate r last).0)) [],
          (first_aggregate r last).1,
        )
  unfolding add_record find_or_start lookup
  report_added r last e t = rw (t, report_step (first_aggregate r last).0 r e)

  report-HasNilMap_new :
      (r : AnalyticsRecord) (last : LastTimes)
      → is_empty r.api_id ≡ false
      → HasNilMap r.api_id (add_connections r (seen r (first_aggregate r last).0))
  unfolding resume seen lookup
  report-HasNilMap_new r last n = report-HasNilMap r (seen r (first_aggregate r last).0) n refl

  error_after :
      (s : AnalyticsRecord) (m : Progress AnalyticsRecordAggregate) (a : AnalyticsRecordAggregate)
      → lookup s.org_id m.0 ≡ some a
      → HasNilMap s.api_id a
      → is_error s.response_code ≡ true
      → is_skipped s ≡ false
      → add_record fl track_all ignored db minutes s m ≡ none
  unfolding add_record find_or_start resume
  error_after s m a e n err t = rw (t, e, increment_aggregate_panics fl a s track_all ignored err n)

  -- A batch that begins with a report on the connections of an API and an error of that API makes
  -- `AggregateData` panic, whatever follows.
  pub aggregate_data_panics :
      (r s : AnalyticsRecord) (rest : List Value) (last : LastTimes)
      → ReportThenError r s
      → aggregate_data fl track_all ignored db minutes (analytics r ∷ analytics s ∷ rest) last
        ≡ none
  unfolding aggregate_data for_each add_value
  aggregate_data_panics r s rest last h =
      let (first, last') = first_aggregate r last in
      let a = add_connections r (seen r first) in
      let found : lookup s.org_id (insert r.org_id a []) ≡ some a =
        rw h.same_org (lookup-insert_self r.org_id a []) in
      let nil_map : HasNilMap s.api_id a =
        subst (λ k. HasNilMap k a) (sym h.same_api) (report-HasNilMap_new r last h.api_named) in
      rw (
        report_added r last h.report h.taken,
        error_after s (insert r.org_id a [], last') a found nil_map h.error h.taken_too,
      )
