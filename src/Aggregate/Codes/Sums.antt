-- ===== src/Aggregate/Codes/Sums.antt =====
-- analytics/aggregate.go: each column holds the sum of its codes.
use tyk_pump.Base.{
  ℕ, ◌+◌, ◌%◌, ◌<◌, ◌≡◌, refl, ◌∙◌, true, false, List, [], ◌∷◌, map, Option, none, some, for_each,
  Text, text, same, same_iff, Int64, add64, Map, lookup, insert, number_in, sum_of, All, Bool-cases,
  Option-cases, inl, inr, if◌then◌else◌, arith,
}
use tyk_pump.Aggregate.Codes.{
  Code, code_names, zero_code, add_to_class, process_status_code, process_status_codes,
}
use tyk_pump.Aggregate.Codes.Columns.{
  column, is_there, is_field, column_of, IsEntry, is_new, are_new, Ready, insert-column,
  insert-Ready, new-apart, class-apart, add64-small, add64-swap, no_there,
}

-- What one entry does to the columns.
record Adds (e : Text × Int64) (es : Map Int64) (c : Code) : Type 0 where
  after : Code
  returns : process_status_code e c ≡ some after
  ready : Ready es after
  grows :
      (n : Text)
      → is_field n zero_code ≡ true
      → column n after
        ≡ (column n c + (if same (column_of e.0) n then e.1 else 0)) % 18446744073709551616

-- A column that gets `v` more, and the others.
grown :
    (k n : Text) (v w : Int64) (c : Code)
    → column n c < 18446744073709551616
    → w ≡ (column k c + v) % 18446744073709551616
    → (if same k n then w else column n c)
      ≡ (column n c + (if same k n then v else 0)) % 18446744073709551616
grown k n v w c bounded more = elim (Bool-cases (same k n)) [
  | inl s ↦ rw (s, ← (same_iff k n).0 s) more
  | inr s ↦ rw s (omega (arith, bounded))
]

-- A code that has no column and no class changes no column.
unnamed :
    (class n : Text) (v : Int64) (es : Map Int64) (c : Code)
    → Ready es c
    → is_field n zero_code ≡ true
    → lookup class c ≡ none
    → column n c ≡ (column n c + (if same class n then v else 0)) % 18446744073709551616
unnamed class n v es c h f none_there = elim (Bool-cases (same class n)) [
  | inl s ↦
      let class_there : is_field class c ≡ true = h.named class ∙ rw ((same_iff class n).0 s) f in
      absurd (no_there (lookup class c) none_there class_there)
  | inr s ↦ rw s (omega (arith, h.bounded n))
]

own_column :
    (k : Text) (v old : Int64) (es : Map Int64) (c : Code)
    → lookup k c ≡ some old
    → Ready ((k, v) ∷ es) c
    → v < 18446744073709551616
    → is_new k es ≡ true
    → Adds (k, v) es c
unfolding process_status_code
own_column k v old es c found h small fresh =
    let field : is_field k c ≡ true = rw found refl in
    let own : column_of k ≡ k = rw (← h.named k, field) refl in
    record {
      after = insert k v c;
      returns = rw found refl;
      ready =
          insert-Ready k v es c small field (new-apart k es fresh)
            (record { named = h.named; empty = h.empty.1; bounded = h.bounded });
      grows = λ n f.
          rw (own, insert-column k n v c)
            (grown k n v v c (h.bounded n) (rw h.empty.0 (omega arith)));
    }

class_column :
    (d : ℕ) (ds : Text) (v : Int64) (es : Map Int64) (c : Code)
    → lookup (d ∷ ds) c ≡ none
    → Ready ((d ∷ ds, v) ∷ es) c
    → v < 18446744073709551616
    → All IsEntry es
    → Adds (d ∷ ds, v) es c
unfolding process_status_code add_to_class
class_column d ds v es c missing h small entries =
    let class = d ∷ text "x" in
    let no_field : is_field (d ∷ ds) zero_code ≡ false = rw (← h.named (d ∷ ds), missing) refl in
    let of_class : column_of (d ∷ ds) ≡ class = rw no_field refl in
    let rest : Ready es c = record { named = h.named; empty = h.empty.1; bounded = h.bounded } in
    elim (Option-cases (lookup class c)) [
      | inl none_there ↦ record {
        after = c;
        returns = rw (missing, none_there) refl;
        ready = rest;
        grows = λ n f. rw of_class (unnamed class n v es c rest f none_there);
      }
      | inr (old, found) ↦ record {
        after = insert class (add64 v old) c;
        returns = rw (missing, found) refl;
        ready =
            insert-Ready class (add64 v old) es c (add64-small v old) (rw found refl)
              (class-apart (d ∷ ds) es refl entries) rest;
        grows = λ n f.
            rw (of_class, insert-column class n (add64 v old) c)
              (grown class n v (add64 v old) c (h.bounded n) (rw found (add64-swap v old)));
      }
    ]

one_entry :
    (e : Text × Int64) (es : Map Int64) (c : Code)
    → Ready (e ∷ es) c
    → IsEntry e
    → All IsEntry es
    → is_new e.0 es ≡ true
    → Adds e es c
one_entry ([], v) es c h entry entries fresh = absurd (ground (arith, entry.not_empty))
one_entry (d ∷ ds, v) es c h entry entries fresh = elim (Option-cases (lookup (d ∷ ds) c)) [
  | inl missing ↦ class_column d ds v es c missing h entry.small entries
  | inr (old, found) ↦ own_column (d ∷ ds) v old es c found h entry.small fresh
]

entries_sum :
    (es : Map Int64) (c : Code)
    → Ready es c
    → All IsEntry es
    → are_new es ≡ true
    → (c' : Code) × (process_status_codes es c ≡ some c')
      × Ready [] c'
      × ((n : Text)
          → is_field n zero_code ≡ true
          → column n c'
            ≡ (column n c + sum_of (λ e. if same (column_of e.0) n then e.1 else 0) es)
              % 18446744073709551616)
unfolding process_status_codes for_each are_new
entries_sum [] c h entries fresh = (c, refl, h, λ n f. omega (arith, h.bounded n))
entries_sum (e ∷ es) c h entries fresh =
    let one = one_entry e es c h entries.0 entries.1 (ground arith) in
    let (c', returns, ready, sums) = entries_sum es one.after one.ready entries.1 (ground arith) in
    (c', rw one.returns returns, ready, λ n f. omega (arith, one.grows n f, sums n f))

zeros_column : (names : List Text) (n : Text) → column n (map (λ m. (m, 0)) names) ≡ 0
unfolding lookup
zeros_column [] n = refl
zeros_column (m ∷ names) n = elim (Bool-cases (same m n)) [
  | inl e ↦ rw e refl
  | inr e ↦ rw e (zeros_column names n)
]

no_number : (o : Option Int64) → is_there o ≡ false → number_in (λ v. v) o ≡ 0
no_number none h = refl
no_number (some v) h = cc

zero_column : (n : Text) → column n zero_code ≡ 0
zero_column n = zeros_column code_names n

-- From an empty `Code`, on a map of errors whose keys are different response codes in decimal,
-- `ProcessStatusCodes` returns, and each column holds the sum of the numbers of its codes, modulo
-- 2 ^ 64: a code's own column, if there is one, or that of its class.
pub process_status_codes-column :
    (error_map : Map Int64)
    → All IsEntry error_map
    → are_new error_map ≡ true
    → (c : Code) × (process_status_codes error_map zero_code ≡ some c)
      × ((n : Text)
          → column n c ≡ (
              if is_field n zero_code
              then sum_of (λ e. if same (column_of e.0) n then e.1 else 0) error_map
                % 18446744073709551616
              else 0))
process_status_codes-column error_map entries fresh =
    let start : Ready error_map zero_code = record {
      named = λ n. refl;
      empty = all_zero error_map;
      bounded = λ n. rw (zero_column n) (omega arith);
    } in
    let (c, returns, ready, sums) = entries_sum error_map zero_code start entries fresh in
    (c, returns, λ n. by_field n c ready (sums n))
  where
    all_zero : (es : Map Int64) → All (λ e. column e.0 zero_code ≡ 0) es
    all_zero [] = tt
    all_zero (e ∷ es) = (zero_column e.0, all_zero es)

    by_field :
        (n : Text) (c : Code)
        → Ready [] c
        → (is_field n zero_code ≡ true
            → column n c
              ≡ (column n zero_code
                  + sum_of (λ e. if same (column_of e.0) n then e.1 else 0) error_map)
                % 18446744073709551616)
        → column n c ≡ (
            if is_field n zero_code
            then sum_of (λ e. if same (column_of e.0) n then e.1 else 0) error_map
              % 18446744073709551616
            else 0)
    by_field n c ready sums = elim (Bool-cases (is_field n zero_code)) [
      | inl f ↦ rw f (omega (arith, sums f, zero_column n))
      | inr f ↦ rw f (no_number (lookup n c) (ready.named n ∙ f))
    ]
