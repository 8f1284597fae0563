-- ===== src/Aggregate/Grouped.antt =====
-- analytics/: numbers of the aggregates that a loop over a batch keeps in a map.
use tyk_pump.Base.{
  ℕ, ◌+◌, ◌%◌, ◌<◌, ◌≡◌, refl, Bool, true, false, ◌&&◌, List, [], Option, some, for_each, Text,
  same, Map, insert, lookup, number_at, insert-number_at, sum_of, for_each-sum_of, Bool-cases, inl,
  inr, if◌then◌else◌, arith,
}

-- A round of the loop passes a value over, or stores an aggregate under its key, in which the number
-- has grown by what the value weighs.
pub record AddsByKey {V S A : Type 0} (aggregates : S → Map A) (get : A → ℕ) (takes : V → Bool)
    (key : V → Text) (weight : V → ℕ) (f : V → S → Option S) : Type 0 where
  pub passes : (v : V) (s s' : S) → takes v ≡ false → f v s ≡ some s' → aggregates s' ≡ aggregates s
  pub stores :
      (v : V) (s s' : S)
      → number_at get (key v) (aggregates s) < 18446744073709551616
      → takes v ≡ true
      → f v s ≡ some s'
      → (a : A) × (aggregates s' ≡ insert (key v) a (aggregates s))
        × (get a ≡ (number_at get (key v) (aggregates s) + weight v) % 18446744073709551616)

module _ {V S A : Type 0} {aggregates : S → Map A} {get : A → ℕ} {takes : V → Bool} {key : V → Text}
    {weight : V → ℕ} {f : V → S → Option S}
    (adds : AddsByKey aggregates get takes key weight f) where
  round-number_at :
      (k : Text) (v : V) (s s' : S)
      → ((j : Text) → number_at get j (aggregates s) < 18446744073709551616)
      → f v s ≡ some s'
      → number_at get k (aggregates s')
        ≡ (number_at get k (aggregates s) + (if takes v && same (key v) k then weight v else 0))
          % 18446744073709551616
  round-number_at k v s s' b h = elim (Bool-cases (takes v)) [
    | inl e ↦
        let (a, stored, grown) = adds.stores v s s' (b (key v)) e h in
        rw (e, stored) (insert-number_at get (key v) k a (aggregates s) (weight v) grown (b k))
    | inr e ↦ rw (e, adds.passes v s s' e h) (omega (arith, b k))
  ]

  -- After the loop the number at a key is the sum of the weights of the key's values.
  pub loop-number_at :
      (k : Text) (vs : List V) (s s' : S)
      → aggregates s ≡ []
      → for_each f vs s ≡ some s'
      → number_at get k (aggregates s')
        ≡ sum_of (λ v. if takes v && same (key v) k then weight v else 0) vs % 18446744073709551616
  unfolding lookup
  loop-number_at k vs s s' none_yet h =
      let total =
        (for_each-sum_of
          (λ (t : S). (j : Text) → number_at get j (aggregates t) < 18446744073709551616)
          (λ s. number_at get k (aggregates s))
          (λ v. if takes v && same (key v) k then weight v else 0) f
          (λ v s t p e. (
            (λ j. let q = round-number_at j v s t p e in omega (arith, q)),
            round-number_at k v s t p e,
          ))
          vs s s' (λ j. rw none_yet (omega arith)) (rw none_yet (omega arith)) h).1 in
      let from_zero : number_at get k (aggregates s) ≡ 0 = rw none_yet refl in
      omega (arith, total, from_zero)
