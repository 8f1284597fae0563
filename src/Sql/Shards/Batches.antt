-- ===== src/Sql/Shards/Batches.antt =====
-- The SQL pumps: the loop by size writes every record of a slice once, in order.
use mathlib.Core.Path.{ap₂}
use tyk_pump.Base.{
  ℕ, zero, suc, ◌+◌, ◌-◌, ◌≤◌, ◌≡◌, refl, sym, ap, ◌∙◌, List, [], ◌∷◌, ◌++◌, All, concat, length,
  length-take-le, take, take_all, ltb, Bool-cases, inl, inr, if◌then◌else◌, arith,
}
use tyk_pump.Sql.Shards.{drop, slice, batches_from, batches}

module _ {A : Type 0} where
  take-drop : (k : ℕ) (xs : List A) → take k xs ++ drop k xs ≡ xs
  take-drop zero xs = refl
  take-drop (suc k) [] = refl
  take-drop (suc k) (x ∷ xs) = ap (λ t. x ∷ t) (take-drop k xs)

  drop_nil : (n : ℕ) → drop {A = A} n [] ≡ []
  drop_nil zero = refl
  drop_nil (suc n) = refl

  drop-drop : (i k : ℕ) (xs : List A) → drop k (drop i xs) ≡ drop (i + k) xs
  drop-drop zero k xs = ap (λ n. drop n xs) (plus_zero k)
    where
      plus_zero : (k : ℕ) → k ≡ 0 + k
      plus_zero k = omega arith
  drop-drop (suc i) k [] = drop_nil k ∙ sym (drop_nil (suc i + k))
  drop-drop (suc i) k (x ∷ xs) = drop-drop i k xs ∙ ap (λ n. drop n (x ∷ xs)) (suc_plus i k)
    where
      suc_plus : (i k : ℕ) → suc (i + k) ≡ suc i + k
      suc_plus i k = omega arith

  length-drop : (i : ℕ) (xs : List A) → length (drop i xs) ≡ length xs - i
  length-drop zero xs = omega arith
  length-drop (suc i) [] = omega arith
  length-drop (suc i) (x ∷ xs) = omega (arith, length-drop i xs)

  drop_all : (i : ℕ) (xs : List A) → length xs ≤ i → drop i xs ≡ []
  drop_all zero [] h = refl
  drop_all zero (x ∷ xs) h = absurd (omega arith)
  drop_all (suc i) [] h = refl
  drop_all (suc i) (x ∷ xs) h = drop_all i xs (omega arith)

  -- A slice of the batch size, cut off at the end.
  slice-take :
      (i k : ℕ) (xs : List A)
      → slice i (if ltb (length xs) (i + k) then length xs else i + k) xs ≡ take k (drop i xs)
  unfolding slice
  slice-take i k xs = elim (Bool-cases (ltb (length xs) (i + k))) [
    | inl e ↦ rw e (
        take_all (length xs - i) (drop i xs) (omega (arith, length-drop i xs))
        ∙ sym (take_all k (drop i xs) (ground (arith, length-drop i xs))))
    | inr e ↦ rw e (ap (λ n. take n (drop i xs)) (minus_plus i k))
  ]
    where
      minus_plus : (i k : ℕ) → i + k - i ≡ k
      minus_plus i k = omega arith

  concat-batches_from :
      (size : ℕ) (xs : List A) (fuel i : ℕ)
      → 1 ≤ size
      → length xs ≤ fuel + i
      → concat (batches_from size xs fuel i) ≡ drop i xs
  unfolding batches_from
  concat-batches_from size xs zero i p f = sym (drop_all i xs (omega arith))
  concat-batches_from size xs (suc fuel) i p f = elim (Bool-cases (ltb i (length xs))) [
    | inl e ↦ rw e (
        ap₂ ◌++◌ (slice-take i size xs)
          (concat-batches_from size xs fuel (i + size) p (omega arith) ∙ sym (drop-drop i size xs))
        ∙ take-drop size (drop i xs))
    | inr e ↦ rw e (sym (drop_all i xs (ground arith)))
  ]

  lengths-batches_from :
      (size : ℕ) (xs : List A) (fuel i : ℕ)
      → All (λ b. length b ≤ size) (batches_from size xs fuel i)
  unfolding batches_from
  lengths-batches_from size xs zero i = tt
  lengths-batches_from size xs (suc fuel) i = elim (Bool-cases (ltb i (length xs))) [
    | inl e ↦ rw e (
      rw (slice-take i size xs) (length-take-le size (drop i xs)),
      lengths-batches_from size xs fuel (i + size),
    )
    | inr e ↦ rw e tt
  ]

  -- With a batch size of 1 or more, the loop by size writes the slice in statements of at most that
  -- size, which together have each of its records once, in order.
  pub batches-concat :
      (size : ℕ) (xs : List A)
      → 1 ≤ size
      → (concat (batches size xs) ≡ xs) × All (λ b. length b ≤ size) (batches size xs)
  unfolding batches
  batches-concat size xs p = (
    concat-batches_from size xs (length xs) 0 p (omega arith),
    lengths-batches_from size xs (length xs) 0,
  )
