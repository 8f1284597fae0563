-- ===== src/Aggregate/Named.antt =====
-- analytics/: the counters of the GraphQL and MCP dimensions, each with the labels of its key.
use tyk_pump.Base.{
  ℕ, ◌+◌, ◌%◌, ◌<◌, ◌≡◌, refl, sym, ap, true, false, List, Option, none, some, >>=-eq-some,
  for_each, Yields, for_each-Yields, Text, same, Map, lookup, insert, lookup-insert, number_in,
  number_at, number_in-if, sum_of, for_each-sum_of, add64, Bool-cases, inl, inr, if◌then◌else◌,
  arith,
}
use mathlib.Core.Option.{some-injective}
use tyk_pump.Floats.{FloatOps}
use tyk_pump.Aggregate.Counter.{Counter, entries, add_errors, increment_or_set_unit, add_counter}
use tyk_pump.Aggregate.Counter.Ready.{AllReady}
use tyk_pump.Aggregate.Cases.{label, add_unit, write_back}
use tyk_pump.Aggregate.Increment.Ready.{add_unit-AllReady}

-- The hits of the counters of a map.
abbrev pub hits_at : Text → Map Counter → ℕ
hits_at k m = number_at (λ c. c.hits) k m

module _ (fl : FloatOps) where
  -- `c = incrementOrSetUnit(&counter, m[key])`, stored under the key with its labels.
  unfoldable pub add_named : Counter → Text → Text → Map Counter → Option (Map Counter)
  add_named counter key human m = add_unit fl counter key (λ c. true) (label key human) m

  increment_or_set_unit-hits :
      (base : Counter) (o : Option Counter) {c : Counter}
      → base.hits < 18446744073709551616
      → increment_or_set_unit fl base o ≡ some c
      → c.hits ≡ (number_in (λ c. c.hits) o + base.hits) % 18446744073709551616
  unfolding increment_or_set_unit add_counter add64
  increment_or_set_unit-hits base none b h = ground arith
  increment_or_set_unit-hits base (some d) {c} b h =
      let (errors, _, g) =
        >>=-eq-some (add_errors (entries base.error_map) d.error_map)
          (λ n. some (add_counter fl base d n)) h in
      ap (λ e. e.hits) (sym (some-injective _ _ g))

  write_back-lookup :
      (o : Option Counter) (key k : Text) (c : Counter) (m : Map Counter)
      → same key k ≡ false
      → lookup k (write_back o key c m) ≡ lookup k m
  write_back-lookup none key k c m h = refl
  write_back-lookup (some _) key k c m h = rw (lookup-insert key k c m, h) refl

  -- Only the counter at the key gets the hits.
  pub add_named-hits_at :
      (base : Counter) (key human k : Text) (m : Map Counter) {m' : Map Counter}
      → base.hits < 18446744073709551616
      → hits_at k m < 18446744073709551616
      → add_named base key human m ≡ some m'
      → hits_at k m' ≡ (hits_at k m + (if same key k then base.hits else 0)) % 18446744073709551616
  unfolding add_named add_unit
  add_named-hits_at base key human k m b l h =
      let (c, e, g) = >>=-eq-some (increment_or_set_unit fl base (lookup key m)) _ h in
      let stored = write_back (lookup key m) key c m in
      let found : lookup k (insert key (label key human c) stored)
          ≡ (if same key k then some (label key human c) else lookup k m) =
        rw (lookup-insert key k (label key human c) stored) (elim (Bool-cases (same key k)) [
          | inl s ↦ rw s refl
          | inr s ↦ rw s (write_back-lookup (lookup key m) key k c m s)
        ]) in
      rw (← some-injective _ _ g, found)
        (number_in-if (λ c. c.hits) key k (label key human c) m base.hits
          (increment_or_set_unit-hits base (lookup key m) b e) l)

  pub add_named-AllReady :
      (base : Counter) (key human : Text) (m : Map Counter)
      → AllReady m
      → Yields AllReady (add_named base key human m)
  unfolding add_named
  add_named-AllReady base key human m h =
      add_unit-AllReady fl base key (λ c. true) (label key human) m (λ c k. k) h

  -- A loop that adds the counter once for each element.
  pub for_each_named-hits_at :
      (base : Counter) (fs : List Text) (name : Text → Text) (k : Text) (m m' : Map Counter)
      → base.hits < 18446744073709551616
      → hits_at k m < 18446744073709551616
      → for_each (λ f. add_named base (name f) (name f)) fs m ≡ some m'
      → hits_at k m'
        ≡ (hits_at k m + sum_of (λ f. if same (name f) k then base.hits else 0) fs)
          % 18446744073709551616
  for_each_named-hits_at base fs name k m m' b l h =
      (for_each-sum_of (λ n. hits_at k n < 18446744073709551616) (λ n. hits_at k n)
        (λ f. if same (name f) k then base.hits else 0) (λ f. add_named base (name f) (name f))
        (λ f n n' p e.
          let q = add_named-hits_at base (name f) (name f) k n b p e in (omega (arith, q), q))
        fs m m' l l h).1

  pub for_each_named-AllReady :
      (base : Counter) (fs : List Text) (name : Text → Text) (m : Map Counter)
      → AllReady m
      → Yields AllReady (for_each (λ f. add_named base (name f) (name f)) fs m)
  for_each_named-AllReady base fs name m h =
      for_each-Yields AllReady (λ f. add_named base (name f) (name f)) fs m
        (λ f n. add_named-AllReady base (name f) (name f) n) h
