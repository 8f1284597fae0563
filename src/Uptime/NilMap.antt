-- ===== src/Uptime/NilMap.antt =====
-- analytics/uptime_data.go: a report without a response makes a counter of its URL without a map of
-- errors; the next response from that URL that is counted is written into the nil map.
use mathlib.Core.List.{Memᴰ}
use mathlib.Core.Path.{subst}
use mathlib.Core.Option.{some-injective}
use tyk_pump.Base.{
  ◌≡◌, refl, ap, ◌∙◌, ◌≢◌, true, false, List, [], ◌∷◌, Option, none, some, ◌>>=◌, for_each, Text,
  same, same_refl, itoa, is_empty, Int64, minus_one, lt64, le64, Map, lookup, insert,
  lookup-insert_self, add64, get_or_zero, ◌==◌, Bool-cases, Option-cases, inl, inr, if◌then◌else◌,
  arith,
}
use tyk_pump.Floats.{FloatOps}
use tyk_pump.Aggregate.Counter.{Counter, zero_counter, entries, add_errors}
use tyk_pump.Aggregate.Increment.{is_error, count_error}
use tyk_pump.Aggregate.Cases.{label_only}
use tyk_pump.Uptime.Report.{UptimeReportData, UptimeField, UptimeReportAggregate}
use tyk_pump.Uptime.Totals.{not_both}
use tyk_pump.Uptime.Aggregate.{
  resume_uptime, start_uptime, note_url, count_code, is_counted, report_counter, uptime_total,
  increment_or_set_uptime, add_uptime_unit, uptime_field_step, add_response, add_to_uptime,
  add_report, aggregate_uptime_data,
}

-- The URL has a counter with a nil map of errors.
record HasNilUrl (url : Text) (a : UptimeReportAggregate) : Type 0 where
  counter : Counter
  found : lookup url a.url ≡ some counter
  is_nil : counter.error_map ≡ none

module _ (fl : FloatOps) where
  uptime_unit_panics :
      (base c : Counter)
      → entries base.error_map ≢ []
      → c.error_map ≡ none
      → increment_or_set_uptime fl base (some c) ≡ none
  unfolding increment_or_set_uptime add_errors
  uptime_unit_panics base c h e = rw (e, nil_panics (entries base.error_map) h) refl
    where
      nil_panics : (es : Map Int64) → es ≢ [] → add_errors es none ≡ none
      nil_panics [] h = absurd (h refl)
      nil_panics (e ∷ es) h = refl

  module _ (base : Counter) (v : UptimeReportData) (counted : entries base.error_map ≢ []) where
    url_step_panics :
        (a : UptimeReportAggregate)
        → HasNilUrl v.url a
        → uptime_field_step fl base v UptimeField.url a ≡ none
    unfolding uptime_field_step add_uptime_unit
    url_step_panics a h = rw (h.found, uptime_unit_panics base h.counter counted h.is_nil) refl

    errors-HasNilUrl :
        (o : Option (Map Counter)) (a b : UptimeReportAggregate)
        → HasNilUrl v.url a
        → (o >>= λ m. some (record a { errors = m })) ≡ some b
        → HasNilUrl v.url b
    errors-HasNilUrl none a b h e = cc
    errors-HasNilUrl (some m) a b h e =
        subst (HasNilUrl v.url) (some-injective (record a { errors = m }) b e)
          (record { counter = h.counter; found = h.found; is_nil = h.is_nil })

    step-HasNilUrl :
        (f : UptimeField) (a b : UptimeReportAggregate)
        → HasNilUrl v.url a
        → uptime_field_step fl base v f a ≡ some b
        → HasNilUrl v.url b
    step-HasNilUrl UptimeField.url a b h e = absurd (ground (arith, url_step_panics a h))
    step-HasNilUrl UptimeField.response_code a b h e =
        errors-HasNilUrl
          (if is_empty (itoa v.response_code)
            then some a.errors
            else add_uptime_unit fl base (itoa v.response_code) (λ c. lt64 0 c.error_total)
                a.errors)
          a b h (unfold uptime_field_step in e)
    step-HasNilUrl _ a b h e =
        subst (HasNilUrl v.url) (some-injective a b (unfold uptime_field_step in e)) h

    loop_panics :
        (order : List UptimeField) (a : UptimeReportAggregate)
        → Memᴰ UptimeField.url order
        → HasNilUrl v.url a
        → for_each (uptime_field_step fl base v) order a ≡ none
    unfolding for_each
    loop_panics [] a m h = elim m [ ]
    loop_panics (f ∷ order) a (Memᴰ.head e) h = rw (← e, url_step_panics a h) refl
    loop_panics (f ∷ order) a (Memᴰ.tail m) h =
        elim (Option-cases (uptime_field_step fl base v f a)) [
          | inl e ↦ rw e refl
          | inr (b, e) ↦ rw e (loop_panics order b m (step-HasNilUrl f a b h e))
        ]

-- A code that is counted is counted once.
counted_once :
    (code : Int64)
    → is_counted code ≡ true
    → count_code code (some [])
      ≡ some (some ((itoa code, add64 (get_or_zero (itoa code) []) 1) ∷ []))
unfolding count_code count_error insert
counted_once code h = elim (Bool-cases (is_error code)) [
  | inl e ↦ rw (e, not_both code e) refl
  | inr e ↦ rw (e, rw e at h) refl
]

-- A report without a response, and then a response from the same URL that is counted.
pub record SilenceThenResponse (r s : UptimeReportData) : Type 0 where
  pub silence : r.response_code ≡ minus_one
  pub counted : is_counted s.response_code ≡ true
  pub same_url : s.url ≡ r.url
  pub url_named : is_empty r.url ≡ false
  pub same_org : s.org_id ≡ r.org_id
  pub org_named : is_empty r.org_id ≡ false

-- No such code is -1.
counted_not_minus_one : (code : Int64) → is_counted code ≡ true → (code == minus_one) ≡ false
unfolding le64 lt64
counted_not_minus_one code h = ground arith

module _ (fl : FloatOps) (order : List UptimeField) where
  abbrev after_silence : UptimeReportData → UptimeReportAggregate
  after_silence r = record (resume_uptime none r) { url = note_url r [] }

  silence_added :
      (r s : UptimeReportData)
      → SilenceThenResponse r s
      → add_report fl order r [] ≡ some ((r.org_id, after_silence r) ∷ [])
  unfolding add_report add_to_uptime lookup insert resume_uptime start_uptime
  silence_added r s h = elim (Bool-cases (r.response_code == minus_one)) [
    | inl e ↦ rw (h.org_named, e) refl
    | inr e ↦ absurd (ground (arith, h.silence))
  ]

  silence-HasNilUrl :
      (r s : UptimeReportData) → SilenceThenResponse r s → HasNilUrl s.url (after_silence r)
  unfolding note_url lookup
  silence-HasNilUrl r s h = record {
    counter = label_only r.url zero_counter;
    found =
        rw (h.same_url, h.url_named) (lookup-insert_self r.url (label_only r.url zero_counter) []);
    is_nil = refl;
  }

  response_panics :
      (s : UptimeReportData) (a : UptimeReportAggregate)
      → Memᴰ UptimeField.url order
      → is_counted s.response_code ≡ true
      → HasNilUrl s.url a
      → add_response fl order s a ≡ none
  unfolding add_response report_counter
  response_panics s a m c h =
      rw (counted_once s.response_code c)
        (elim (Option-cases (count_code s.response_code a.total.error_map)) [
          | inl e ↦ rw e refl
          | inr (errors, e) ↦ rw e (
              loop_panics fl
                (report_counter fl s (
                  some
                    ((itoa s.response_code, add64 (get_or_zero (itoa s.response_code) []) 1) ∷ [])))
                s (λ n. cc) order (record a { total = uptime_total fl s a.total errors }) m
                (record { counter = h.counter; found = h.found; is_nil = h.is_nil }))
        ])

  next_panics :
      (s : UptimeReportData) (org : Text) (a : UptimeReportAggregate)
      → Memᴰ UptimeField.url order
      → is_counted s.response_code ≡ true
      → same org s.org_id ≡ true
      → is_empty s.org_id ≡ false
      → HasNilUrl s.url a
      → add_report fl order s ((org, a) ∷ []) ≡ none
  unfolding add_report add_to_uptime lookup resume_uptime
  next_panics s org a m c same_org named h =
      let panics =
        response_panics s (record a { last_time = s.time_stamp }) m c
          (record { counter = h.counter; found = h.found; is_nil = h.is_nil }) in
      rw (same_org, named, counted_not_minus_one s.response_code c, panics) refl

  -- A batch that begins with a report without a response and a success or an error of the same URL
  -- makes `AggregateUptimeData` panic, whatever follows, and in whatever order Go visits the fields.
  pub aggregate_uptime_data_panics :
      (r s : UptimeReportData) (rest : List UptimeReportData)
      → Memᴰ UptimeField.url order
      → SilenceThenResponse r s
      → aggregate_uptime_data fl order (r ∷ s ∷ rest) ≡ none
  unfolding aggregate_uptime_data for_each
  aggregate_uptime_data_panics r s rest m h =
      let then_none : add_report fl order s ((r.org_id, after_silence r) ∷ []) ≡ none =
        next_panics s r.org_id (after_silence r) m h.counted
          (ap (same r.org_id) h.same_org ∙ same_refl r.org_id)
          (ap (λ o. is_empty o) h.same_org ∙ h.org_named) (silence-HasNilUrl r s h) in
      rw (silence_added r s h, then_none) refl
