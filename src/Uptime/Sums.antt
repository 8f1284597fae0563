-- ===== src/Uptime/Sums.antt =====
-- analytics/uptime_data.go: sums over the reports of each organisation.
use tyk_pump.Base.{
  ℕ, ◌+◌, ◌%◌, ◌<◌, ◌≡◌, refl, sym, ap, ◌∙◌, true, false, not, ◌&&◌, List, [], ◌∷◌, Option, none,
  some, >>=-eq-some, for_each, Text, same, itoa, is_empty, Int64, minus_one, lt64, Map, lookup,
  insert, number_in, number_at, sum_of, ◌==◌, Bool-cases, inl, inr, if◌then◌else◌, arith,
}
use mathlib.Core.Option.{some-injective}
use tyk_pump.Floats.{FloatOps}
use tyk_pump.Aggregate.Counter.{Counter, zero_counter}
use tyk_pump.Aggregate.Grouped.{AddsByKey, loop-number_at}
use tyk_pump.Uptime.Report.{UptimeReportData, UptimeField, UptimeReportAggregate}
use tyk_pump.Uptime.Aggregate.{
  resume_uptime, start_uptime, count_code, report_counter, uptime_total, add_uptime_unit,
  uptime_field_step, add_response, add_to_uptime, add_report, aggregate_uptime_data,
}

-- A number of the total to which each report with a response adds its weight, modulo 2 ^ 64.
pub record UptimeMeasure (fl : FloatOps) : Type 0 where
  pub get : Counter → ℕ
  pub weight : UptimeReportData → ℕ
  pub adds :
      (v : UptimeReportData) (t : Counter) (errors : Option (Map Int64))
      → get t < 18446744073709551616
      → count_code v.response_code t.error_map ≡ some errors
      → get (uptime_total fl v t errors) ≡ (get t + weight v) % 18446744073709551616
  pub starts : get (record zero_counter { error_map = some [] }) ≡ 0

-- A report without a response weighs nothing.
abbrev pub response_weight : (UptimeReportData → ℕ) → UptimeReportData → ℕ
response_weight w v = if v.response_code == minus_one then 0 else w v

module _ (fl : FloatOps) where
  field_step-total :
      (base : Counter) (v : UptimeReportData) (f : UptimeField) (a : UptimeReportAggregate)
      {b : UptimeReportAggregate}
      → uptime_field_step fl base v f a ≡ some b
      → b.total ≡ a.total
  unfolding uptime_field_step
  field_step-total base v UptimeField.url a {b} h =
      let (m, _, g) =
        >>=-eq-some (add_uptime_unit fl base v.url (λ c. not (is_empty v.url)) a.url)
          (λ m. some (record a { url = m })) h in
      ap (λ d. d.total) (sym (some-injective (record a { url = m }) b g))
  field_step-total base v UptimeField.response_code a {b} h =
      let code = itoa v.response_code in
      let (m, _, g) =
        >>=-eq-some
          (if is_empty code
            then some a.errors
            else add_uptime_unit fl base code (λ c. lt64 0 c.error_total) a.errors)
          (λ m. some (record a { errors = m })) h in
      ap (λ d. d.total) (sym (some-injective (record a { errors = m }) b g))
  field_step-total base v _ a {b} h = ap (λ d. d.total) (sym (some-injective a b h))

  fields-total :
      (base : Counter) (v : UptimeReportData) (order : List UptimeField) (a : UptimeReportAggregate)
      {b : UptimeReportAggregate}
      → for_each (uptime_field_step fl base v) order a ≡ some b
      → b.total ≡ a.total
  unfolding for_each
  fields-total base v [] a {b} h = ap (λ d. d.total) (sym (some-injective a b h))
  fields-total base v (f ∷ order) a h =
      let (c, e, g) =
        >>=-eq-some (uptime_field_step fl base v f a) (for_each (uptime_field_step fl base v) order)
          h in
      fields-total base v order c g ∙ field_step-total base v f a e

  add_response-total :
      (order : List UptimeField) (v : UptimeReportData) (a : UptimeReportAggregate)
      {b : UptimeReportAggregate}
      → add_response fl order v a ≡ some b
      → (errors : Option (Map Int64)) × (count_code v.response_code a.total.error_map ≡ some errors)
        × (b.total ≡ uptime_total fl v a.total errors)
  unfolding add_response
  add_response-total order v a h =
      let (own, _, h₁) = >>=-eq-some (count_code v.response_code (some [])) _ h in
      let (errors, e, h₂) = >>=-eq-some (count_code v.response_code a.total.error_map) _ h₁ in
      (errors, e, fields-total (report_counter fl v own) v order _ h₂)

module _ {fl : FloatOps} (μ : UptimeMeasure fl) (order : List UptimeField) where
  abbrev total_number : UptimeReportAggregate → ℕ
  total_number a = μ.get a.total

  resume_uptime-total :
      (o : Option UptimeReportAggregate) (v : UptimeReportData)
      → total_number (resume_uptime o v) ≡ number_in total_number o
  unfolding resume_uptime start_uptime
  resume_uptime-total none v = μ.starts
  resume_uptime-total (some a) v = refl

  add_to_uptime-total :
      (v : UptimeReportData) (a b : UptimeReportAggregate)
      → total_number a < 18446744073709551616
      → add_to_uptime fl order v a ≡ some b
      → total_number b ≡ (total_number a + response_weight μ.weight v) % 18446744073709551616
  unfolding add_to_uptime
  add_to_uptime-total v a b l h = elim (Bool-cases (v.response_code == minus_one)) [
    | inl e ↦
        let kept = ap total_number (some-injective _ b (rw e at h)) in rw (e, ← kept) (omega arith)
    | inr e ↦
        let (errors, c, t) = add_response-total fl order v a (rw e at h) in
        rw (e, t) (μ.adds v a.total errors l c)
  ]

  uptime-AddsByKey :
      AddsByKey
        (λ m. m)
        total_number
        (λ v. not (is_empty v.org_id))
        (λ v. v.org_id)
        (response_weight μ.weight)
        (add_report fl order)
  unfolding add_report
  uptime-AddsByKey = record {
    passes = λ v s s' t h. passes_over v s s' (ground arith) h;
    stores = λ v s s' l t h. takes_in v s s' l (ground arith) h;
  }
    where
      passes_over :
          (v : UptimeReportData) (m m' : Map UptimeReportAggregate)
          → is_empty v.org_id ≡ true
          → add_report fl order v m ≡ some m'
          → m' ≡ m
      passes_over v m m' t h = sym (some-injective m m' (rw t at h))

      takes_in :
          (v : UptimeReportData) (m m' : Map UptimeReportAggregate)
          → number_at total_number v.org_id m < 18446744073709551616
          → is_empty v.org_id ≡ false
          → add_report fl order v m ≡ some m'
          → (a : UptimeReportAggregate) × (m' ≡ insert v.org_id a m)
            × (total_number a
                ≡ (number_at total_number v.org_id m + response_weight μ.weight v)
                  % 18446744073709551616)
      takes_in v m m' l t h =
          let start = resume_uptime-total (lookup v.org_id m) v in
          let (a, e, g) =
            >>=-eq-some (add_to_uptime fl order v (resume_uptime (lookup v.org_id m) v))
              (λ a. some (insert v.org_id a m)) (rw t at h) in
          (
            a,
            sym (some-injective (insert v.org_id a m) m' g),
            add_to_uptime-total v (resume_uptime (lookup v.org_id m) v) a (rw start l) e
                ∙ rw start refl,
          )

  -- After the loop the number of an organisation is the sum of what its reports weigh.
  pub uptime-number_at :
      (org : Text) (reports : List UptimeReportData) (m : Map UptimeReportAggregate)
      → aggregate_uptime_data fl order reports ≡ some m
      → number_at (λ a. μ.get a.total) org m
        ≡ sum_of
            (λ v.
              if not (is_empty v.org_id) && same v.org_id org
              then response_weight μ.weight v
              else 0)
            reports
          % 18446744073709551616
  unfolding aggregate_uptime_data
  uptime-number_at org reports m h = loop-number_at uptime-AddsByKey org reports [] m refl h
