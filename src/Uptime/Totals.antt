-- ===== src/Uptime/Totals.antt =====
-- analytics/uptime_data.go: the numbers that `AggregateUptimeData` keeps in the totals.
use tyk_pump.Base.{
  ℕ, ◌+◌, ◌%◌, ◌<◌, ◌≡◌, sym, ap, ◌∙◌, true, false, ◌&&◌, Option, none, some, >>=-eq-some, Text,
  same, itoa, Int64, add64, lt64, le64, Map, same_iff, get_or_zero, get_or_zero-insert, Bool-cases,
  inl, inr, if◌then◌else◌, arith,
}
use mathlib.Core.Option.{some-injective}
use tyk_pump.Aggregate.Counter.{Counter, entries}
use tyk_pump.Aggregate.Increment.{is_success, is_error, count_error}
use tyk_pump.Uptime.Aggregate.{count_code, is_counted}

-- How often the total has counted a code.
abbrev pub code_count : Text → Counter → ℕ
code_count code t = get_or_zero code (entries t.error_map)

count_error-get :
    (code k : Text) (m : Option (Map Int64)) {m' : Option (Map Int64)}
    → count_error code m ≡ some m'
    → get_or_zero k (entries m')
      ≡ (if same code k then add64 (get_or_zero code (entries m)) 1 else get_or_zero k (entries m))
unfolding count_error
count_error-get code k none h = cc
count_error-get code k (some n) {m'} h =
    ap (λ o. get_or_zero k (entries o)) (sym (some-injective _ m' h))
    ∙ get_or_zero-insert code k (add64 (get_or_zero code n) 1) n

count_error-adds :
    (code k : Text) (m : Option (Map Int64)) {m' : Option (Map Int64)}
    → get_or_zero k (entries m) < 18446744073709551616
    → count_error code m ≡ some m'
    → get_or_zero k (entries m')
      ≡ (get_or_zero k (entries m) + (if same code k then 1 else 0)) % 18446744073709551616
unfolding add64
count_error-adds code k m b h = elim (Bool-cases (same code k)) [
  | inl e ↦
      rw (count_error-get code k m h, e)
        (ap (λ j. (get_or_zero j (entries m) + 1) % 18446744073709551616) ((same_iff code k).0 e))
  | inr e ↦ rw (count_error-get code k m h, e) (omega arith)
]

-- No code is an error and a success.
pub not_both : (code : Int64) → is_error code ≡ true → is_success code ≡ false
unfolding le64 lt64
not_both code h = ground arith

pub count_code-get :
    (code : Int64) (k : Text) (m : Option (Map Int64)) {m' : Option (Map Int64)}
    → get_or_zero k (entries m) < 18446744073709551616
    → count_code code m ≡ some m'
    → get_or_zero k (entries m')
      ≡ (get_or_zero k (entries m) + (if is_counted code && same (itoa code) k then 1 else 0))
        % 18446744073709551616
unfolding count_code
count_code-get code k m {m'} b h =
    let (n, e, g) =
      >>=-eq-some (if is_error code then count_error (itoa code) m else some m)
        (λ n. if is_success code then count_error (itoa code) n else some n) h in
    elim (Bool-cases (is_error code)) [
      | inl err ↦
          let made = rw err at e in
          let kept = some-injective n m' (rw (not_both code err) at g) in
          rw (← kept, err) (count_error-adds (itoa code) k m b made)
      | inr ok ↦
          let kept = some-injective m n (rw ok at e) in
          elim (Bool-cases (is_success code)) [
            | inl s ↦
                rw (ok, s, kept) (count_error-adds (itoa code) k n (rw (← kept) b) (rw s at g))
            | inr s ↦ rw (ok, s) (rw (← some-injective n m' (rw s at g), ← kept) (omega arith))
          ]
    ]
