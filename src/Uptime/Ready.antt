-- ===== src/Uptime/Ready.antt =====
-- analytics/uptime_data.go: counters whose map of errors is made, to which counters can be added.
use tyk_pump.Base.{
  insert-AllValues, lookup-AllValues, if-Yields, ◌≡◌, refl, ◌≢◌, Bool, true, false, not, List, [],
  Option, none, some, Yields, bind-Yields, for_each-Yields, Text, itoa, is_empty, Int64, minus_one,
  lt64, Map, lookup, insert, All, ◌==◌, Bool-cases, inl, inr, if◌then◌else◌, arith,
}
use tyk_pump.Floats.{FloatOps}
use tyk_pump.Aggregate.Counter.{Counter, entries, add_errors}
use tyk_pump.Aggregate.Counter.Ready.{
  is_made, IsReady, AllReady, OptReady, lookup-OptReady, add_errors-made,
}
use tyk_pump.Aggregate.Increment.{is_success, is_error, count_error}
use tyk_pump.Aggregate.Cases.{label_only, write_back}
use tyk_pump.Uptime.Report.{UptimeReportData, UptimeField, UptimeReportAggregate}
use tyk_pump.Uptime.Aggregate.{
  resume_uptime, start_uptime, count_code, report_counter, uptime_total, increment_or_set_uptime,
  add_uptime_unit, uptime_field_step, add_response, add_to_uptime, add_report,
}

-- All counters of an aggregate are ready.
pub record UptimeReady (a : UptimeReportAggregate) : Type 0 where
  pub total : IsReady a.total
  pub url : AllReady a.url
  pub errors : AllReady a.errors

count_error-made :
    (code : Text) (m : Option (Map Int64))
    → is_made m ≡ true
    → Yields (λ n. is_made n ≡ true) (count_error code m)
unfolding count_error
count_error-made code none h = cc
count_error-made code (some m) h = refl

count_code-made :
    (code : Int64) (m : Option (Map Int64))
    → is_made m ≡ true
    → Yields (λ n. is_made n ≡ true) (count_code code m)
unfolding count_code
count_code-made code m h =
    bind-Yields (λ n. is_made n ≡ true) (λ n. is_made n ≡ true)
      (if is_error code then count_error (itoa code) m else some m) _
      (if-Yields _ (is_error code) _ _ (count_error-made (itoa code) m h) h)
      (λ n k. if-Yields _ (is_success code) _ _ (count_error-made (itoa code) n k) k)

module _ (fl : FloatOps) where
  increment_or_set_uptime-IsReady :
      (base : Counter) (o : Option Counter)
      → OptReady o
      → Yields IsReady (increment_or_set_uptime fl base o)
  unfolding increment_or_set_uptime
  increment_or_set_uptime-IsReady base none h = refl
  increment_or_set_uptime-IsReady base (some c) h =
      bind-Yields (λ n. is_made n ≡ true) IsReady (add_errors (entries base.error_map) c.error_map)
        _ (add_errors-made (entries base.error_map) c.error_map h) (λ n h'. h')

  stored-AllReady :
      (b : Bool) (o : Option Counter) (key : Text) (c : Counter) (m : Map Counter)
      → IsReady c
      → AllReady m
      → AllReady
          (if b then insert key (label_only key c) (write_back o key c m) else write_back o key c m)
  stored-AllReady true none key c m r h = insert-AllValues IsReady key (label_only key c) m r h
  stored-AllReady true (some _) key c m r h =
      insert-AllValues IsReady key (label_only key c) (insert key c m) r
        (insert-AllValues IsReady key c m r h)
  stored-AllReady false none key c m r h = h
  stored-AllReady false (some _) key c m r h = insert-AllValues IsReady key c m r h

  add_uptime_unit-AllReady :
      (base : Counter) (key : Text) (keep : Counter → Bool) (m : Map Counter)
      → AllReady m
      → Yields AllReady (add_uptime_unit fl base key keep m)
  unfolding add_uptime_unit
  add_uptime_unit-AllReady base key keep m h =
      bind-Yields IsReady AllReady (increment_or_set_uptime fl base (lookup key m)) _
        (increment_or_set_uptime-IsReady base (lookup key m) (lookup-OptReady key m h))
        (λ c r. stored-AllReady (keep c) (lookup key m) key c m r h)

  uptime_field_step-UptimeReady :
      (base : Counter) (v : UptimeReportData) (f : UptimeField) (a : UptimeReportAggregate)
      → UptimeReady a
      → Yields UptimeReady (uptime_field_step fl base v f a)
  unfolding uptime_field_step
  uptime_field_step-UptimeReady base v UptimeField.url a h =
      bind-Yields AllReady UptimeReady
        (add_uptime_unit fl base v.url (λ c. not (is_empty v.url)) a.url) _
        (add_uptime_unit-AllReady base v.url (λ c. not (is_empty v.url)) a.url h.url)
        (λ m k. record { total = h.total; url = k; errors = h.errors })
  uptime_field_step-UptimeReady base v UptimeField.response_code a h =
      bind-Yields AllReady UptimeReady
        (if is_empty (itoa v.response_code)
          then some a.errors
          else add_uptime_unit fl base (itoa v.response_code) (λ c. lt64 0 c.error_total) a.errors)
        _
        (if-Yields AllReady (is_empty (itoa v.response_code)) _ _ h.errors (
          add_uptime_unit-AllReady base (itoa v.response_code) (λ c. lt64 0 c.error_total) a.errors
            h.errors))
        (λ m k. record { total = h.total; url = h.url; errors = k })
  uptime_field_step-UptimeReady base v _ a h = h

  add_response-UptimeReady :
      (order : List UptimeField) (v : UptimeReportData) (a : UptimeReportAggregate)
      → UptimeReady a
      → Yields UptimeReady (add_response fl order v a)
  unfolding add_response
  add_response-UptimeReady order v a h =
      bind-Yields (λ n. is_made n ≡ true) UptimeReady (count_code v.response_code (some [])) _
        (count_code-made v.response_code (some []) refl)
        (λ own k.
          bind-Yields (λ n. is_made n ≡ true) UptimeReady
            (count_code v.response_code a.total.error_map) _
            (count_code-made v.response_code a.total.error_map h.total)
            (λ errors k'.
              for_each-Yields UptimeReady (uptime_field_step fl (report_counter fl v own) v) order
                (record a { total = uptime_total fl v a.total errors })
                (uptime_field_step-UptimeReady (report_counter fl v own) v)
                (record { total = k'; url = h.url; errors = h.errors })))

abbrev pub UptimeMapReady : Map UptimeReportAggregate → Type 0
UptimeMapReady m = All (λ e. UptimeReady e.1) m

resume_uptime-UptimeReady :
    (k : Text) (m : Map UptimeReportAggregate) (v : UptimeReportData)
    → UptimeMapReady m
    → UptimeReady (resume_uptime (lookup k m) v)
unfolding resume_uptime start_uptime
resume_uptime-UptimeReady k m v h =
    lookup-AllValues UptimeReady (λ o. UptimeReady (resume_uptime o v)) k m
      (record { total = refl; url = tt; errors = tt })
      (λ a q. record { total = q.total; url = q.url; errors = q.errors }) h

-- A report with a response is added without a panic, and leaves every counter ready.
pub add_report-UptimeMapReady :
    (fl : FloatOps) (order : List UptimeField) (v : UptimeReportData)
    (m : Map UptimeReportAggregate)
    → v.response_code ≢ minus_one
    → UptimeMapReady m
    → Yields UptimeMapReady (add_report fl order v m)
unfolding add_report add_to_uptime
add_report-UptimeMapReady fl order v m q h = elim (Bool-cases (is_empty v.org_id)) [
  | inl e ↦ rw e h
  | inr e ↦ elim (Bool-cases (v.response_code == minus_one)) [
    | inl code ↦ absurd (q (ground arith))
    | inr code ↦
        let a = resume_uptime (lookup v.org_id m) v in
        rw (e, code)
          (bind-Yields UptimeReady UptimeMapReady (add_response fl order v a) _
            (add_response-UptimeReady fl order v a (resume_uptime-UptimeReady v.org_id m v h))
            (λ b k. insert-AllValues UptimeReady v.org_id b m k h))
  ]
]
