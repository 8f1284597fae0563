-- ===== src/Aggregate/Counter/Ready.antt =====
-- analytics/aggregate.go: counters whose map of errors is made, to which counters can be added.
use tyk_pump.Base.{
  lookup-AllValues, ◌≡◌, refl, Bool, true, false, [], ◌∷◌, Option, none, some, Yields, bind-Yields,
  ◌>>=◌, ◌≢◌, Text, Map, lookup, insert, Int64, add64, get_or_zero, All,
}
use tyk_pump.Floats.{FloatOps}
use tyk_pump.Aggregate.Counter.{Counter, add_errors, entries, increment_or_set_unit, add_counter}

abbrev pub is_made : Option (Map Int64) → Bool
is_made none = false
is_made (some m) = true

-- The counter's map of errors has been made.
abbrev pub IsReady : Counter → Type 0
IsReady c = is_made c.error_map ≡ true

abbrev pub AllReady : Map Counter → Type 0
AllReady m = All (λ e. IsReady e.1) m

abbrev pub OptReady : Option Counter → Type 0
OptReady none = Unit
OptReady (some c) = IsReady c

pub lookup-OptReady : (k : Text) (m : Map Counter) → AllReady m → OptReady (lookup k m)
lookup-OptReady k m h = lookup-AllValues IsReady OptReady k m tt (λ c r. r) h

pub add_errors-made :
    (es : Map Int64) (m : Option (Map Int64))
    → is_made m ≡ true
    → Yields (λ n. is_made n ≡ true) (add_errors es m)
unfolding add_errors
add_errors-made [] m h = h
add_errors-made (e ∷ es) none h = cc
add_errors-made ((k, v) ∷ es) (some m) h =
    add_errors-made es (some (insert k (add64 (get_or_zero k m) v) m)) refl

-- Adding to no counter, or to a ready one, returns a ready counter.
pub increment_or_set_unit-IsReady :
    (fl : FloatOps) (base : Counter) (o : Option Counter)
    → OptReady o
    → Yields IsReady (increment_or_set_unit fl base o)
unfolding increment_or_set_unit
increment_or_set_unit-IsReady fl base none h = refl
increment_or_set_unit-IsReady fl base (some c) h =
    bind-Yields (λ n. is_made n ≡ true) IsReady (add_errors (entries base.error_map) c.error_map)
      (λ n. some (add_counter fl base c n)) (add_errors-made (entries base.error_map) c.error_map h)
      (λ n h'. h')

-- A counter whose map of errors is nil cannot take an error: the assignment panics.
pub increment_or_set_unit_panics :
    (fl : FloatOps) (base c : Counter)
    → entries base.error_map ≢ []
    → c.error_map ≡ none
    → increment_or_set_unit fl base (some c) ≡ none
unfolding increment_or_set_unit add_errors
increment_or_set_unit_panics fl base c h e = rw e (panic (entries base.error_map) h)
  where
    panic :
        (es : Map Int64)
        → es ≢ []
        → (add_errors es none >>= λ n. some (add_counter fl base c n)) ≡ none
    panic [] h = absurd (h refl)
    panic (e ∷ es) h = refl
