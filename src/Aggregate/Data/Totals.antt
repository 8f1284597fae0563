-- ===== src/Aggregate/Data/Totals.antt =====
-- analytics/aggregate.go: the totals of each organisation after `AggregateData`.
use tyk_pump.Base.{
  ℕ, ◌+◌, ◌%◌, ◌<◌, ◌≡◌, refl, sym, ap, ◌∙◌, ◌⊎◌, Bool, true, false, not, ◌&&◌, ◌||◌, List, [], ◌∷◌,
  Option, none, some, for_each, >>=-eq-some, Text, same, same_iff, Map, lookup, insert,
  lookup-insert, Bool-cases, inl, inr, if◌then◌else◌, arith,
}
use mathlib.Core.Option.{some-injective}
use tyk_pump.Floats.{FloatOps}
use tyk_pump.Analytics.Record.{AnalyticsRecord}
use tyk_pump.Analytics.Fields.{fields}
use tyk_pump.Aggregate.Counter.{Counter}
use tyk_pump.Aggregate.State.{AnalyticsRecordAggregate}
use tyk_pump.Aggregate.Timestamp.{LastTimes}
use tyk_pump.Aggregate.Increment.{increment_aggregate}
use tyk_pump.Aggregate.Increment.Measures.{Measure, increment_aggregate-Measure}
use tyk_pump.Aggregate.Data.{
  Value, analytics, null, is_skipped, Progress, resume, find_or_start, add_record, add_value,
}

-- The value is a record of the organisation that `AggregateData` does not pass over.
abbrev pub belongs : Text → Value → Bool
belongs org (analytics r) = not (is_skipped r) && same r.org_id org
belongs org null = false

-- What the records of an organisation weigh together.
abbrev pub weigh : (AnalyticsRecord → ℕ) → Text → Value → ℕ
weigh w org (analytics r) = if belongs org (analytics r) then w r else 0
weigh w org null = 0

pub total_weight : (AnalyticsRecord → ℕ) → Text → List Value → ℕ
total_weight w org [] = 0
total_weight w org (v ∷ vs) = weigh w org v + total_weight w org vs

-- A number of an organisation's total; 0 where it has no aggregate.
abbrev pub number_of : (Counter → ℕ) → Option AnalyticsRecordAggregate → ℕ
number_of get none = 0
number_of get (some a) = get a.total

abbrev is_some : Option AnalyticsRecordAggregate → Bool
is_some none = false
is_some (some a) = true

-- Whether the organisation has an aggregate.
abbrev pub has_aggregate : Text → Map AnalyticsRecordAggregate → Bool
has_aggregate org m = is_some (lookup org m)

-- The two ways in which a record is taken.
pub add_record_cases :
    (fl : FloatOps) (track_all : Bool) (ignored : List Text) (db : Text) (minutes : ℕ)
    (r : AnalyticsRecord) (s : Progress AnalyticsRecordAggregate)
    {s' : Progress AnalyticsRecordAggregate}
    → add_record fl track_all ignored db minutes r s ≡ some s'
    → (is_skipped r ≡ true) × (s'.0 ≡ s.0)
      ⊎ (is_skipped r ≡ false)
        × ((p : AnalyticsRecordAggregate × Counter) × (increment_aggregate fl fields
                (resume db minutes (lookup r.org_id s.0) r s.1).0
                r
                track_all
                ignored
              ≡ some p)
            × (s'.0 ≡ insert r.org_id p.0 s.0))
unfolding add_record find_or_start
add_record_cases fl track_all ignored db minutes r s h = elim (Bool-cases (is_skipped r)) [
  | inl e ↦ inl (e, ap (λ t. t.0) (sym (some-injective _ _ (rw e at h))))
  | inr e ↦
      let (p, q, g) =
        >>=-eq-some
          (increment_aggregate fl fields (resume db minutes (lookup r.org_id s.0) r s.1).0 r
            track_all ignored)
          (λ p. some (insert r.org_id p.0 s.0, (resume db minutes (lookup r.org_id s.0) r s.1).1))
          (rw e at h) in
      inr (e, (p, q, ap (λ t. t.0) (sym (some-injective _ _ g))))
]

-- An organisation has an aggregate exactly from its first record on.
pub add_record-has_aggregate :
    (fl : FloatOps) (track_all : Bool) (ignored : List Text) (db : Text) (minutes : ℕ) (org : Text)
    (r : AnalyticsRecord) (s : Progress AnalyticsRecordAggregate)
    {s' : Progress AnalyticsRecordAggregate}
    → add_record fl track_all ignored db minutes r s ≡ some s'
    → has_aggregate org s'.0 ≡ (has_aggregate org s.0 || belongs org (analytics r))
add_record-has_aggregate fl track_all ignored db minutes org r s {s'} h =
    elim (add_record_cases fl track_all ignored db minutes r s h) [
      | inl (e, same_map) ↦ rw (same_map, e) (ground arith)
      | inr (e, (p, q, stored)) ↦ rw (stored, lookup-insert r.org_id org p.0 s.0, e) (ground arith)
    ]

module _ {fl : FloatOps} (μ : Measure fl) (track_all : Bool) (ignored : List Text) (db : Text)
    (minutes : ℕ) where
  resume-number :
      (o : Option AnalyticsRecordAggregate) (r : AnalyticsRecord) (last : LastTimes)
      → μ.get (resume db minutes o r last).0.total ≡ number_of μ.get o
  unfolding resume
  resume-number (some a) r last = refl
  resume-number none r last = μ.empty (some [])

  stored_number :
      (org : Text) (r : AnalyticsRecord) (m : Map AnalyticsRecordAggregate)
      (a : AnalyticsRecordAggregate)
      → μ.get a.total ≡ (number_of μ.get (lookup r.org_id m) + μ.weight r) % 18446744073709551616
      → number_of μ.get (lookup org m) < 18446744073709551616
      → number_of μ.get (if same r.org_id org then some a else lookup org m)
        ≡ (number_of μ.get (lookup org m) + (if same r.org_id org then μ.weight r else 0))
          % 18446744073709551616
  stored_number org r m a h b = elim (Bool-cases (same r.org_id org)) [
    | inl e ↦ rw e (
        h
        ∙ ap (λ k. (number_of μ.get (lookup k m) + μ.weight r) % 18446744073709551616)
            ((same_iff r.org_id org).0 e))
    | inr e ↦ rw e (omega arith)
  ]

  add_record-number :
      (org : Text) (r : AnalyticsRecord) (s : Progress AnalyticsRecordAggregate)
      {s' : Progress AnalyticsRecordAggregate}
      → ((k : Text) → number_of μ.get (lookup k s.0) < 18446744073709551616)
      → add_record fl track_all ignored db minutes r s ≡ some s'
      → number_of μ.get (lookup org s'.0)
        ≡ (number_of μ.get (lookup org s.0) + weigh μ.weight org (analytics r))
          % 18446744073709551616
  add_record-number org r s {s'} b h =
      elim (add_record_cases fl track_all ignored db minutes r s h) [
        | inl (e, same_map) ↦ rw (same_map, e) (ground (arith, b org))
        | inr (e, (p, q, stored)) ↦
            let n = resume-number (lookup r.org_id s.0) r s.1 in
            let (total, _) =
              increment_aggregate-Measure μ fields (resume db minutes (lookup r.org_id s.0) r s.1).0
                r track_all ignored (omega (arith, n, b r.org_id)) q in
            rw (stored, lookup-insert r.org_id org p.0 s.0, e)
              (stored_number org r s.0 p.0 (total ∙ rw n) (b org))
      ]

  -- The numbers of an organisation grow by what its records weigh, over any run of the loop.
  pub for_each-number :
      (org : Text) (vs : List Value) (s : Progress AnalyticsRecordAggregate)
      {s' : Progress AnalyticsRecordAggregate}
      → ((k : Text) → number_of μ.get (lookup k s.0) < 18446744073709551616)
      → for_each (add_value fl track_all ignored db minutes) vs s ≡ some s'
      → number_of μ.get (lookup org s'.0)
        ≡ (number_of μ.get (lookup org s.0) + total_weight μ.weight org vs) % 18446744073709551616
  unfolding for_each total_weight add_value
  for_each-number org [] s {s'} b h = rw (← some-injective s s' h) (omega (arith, b org))
  for_each-number org (null ∷ vs) s b h = cc
  for_each-number org (analytics r ∷ vs) s b h =
      let (t, e, g) =
        >>=-eq-some (add_record fl track_all ignored db minutes r s)
          (for_each (add_value fl track_all ignored db minutes) vs) h in
      let first = λ (k : Text). add_record-number k r s b e in
      let rest = for_each-number org vs t (λ k. omega (arith, first k)) g in
      omega (arith, first org, rest)

  -- From no aggregates at all.
  pub from_nothing :
      (org : Text) (vs : List Value) (last : LastTimes) {s' : Progress AnalyticsRecordAggregate}
      → for_each (add_value fl track_all ignored db minutes) vs ([], last) ≡ some s'
      → number_of μ.get (lookup org s'.0) ≡ total_weight μ.weight org vs % 18446744073709551616
  unfolding lookup
  from_nothing org vs last h = omega (arith, for_each-number org vs ([], last) (λ k. omega arith) h)
