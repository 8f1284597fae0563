-- ===== src/Sql/Shards/Runs.antt =====
-- The SQL pumps: the loop by day cuts a batch into its runs of records of one day.
use mathlib.Core.List.{append_assoc, append-nil}
use mathlib.Core.Path.{ap₂}
use tyk_pump.Base.{
  ℕ, suc, ◌+◌, ◌-◌, ◌≡◌, refl, sym, ap, ◌∙◌, true, List, [], ◌∷◌, ◌++◌, Option, some, ◌>>=◌, Text,
  same, same_refl, same_iff, All, All-snoc, length, length-append, map, Bool-cases, inl, inr,
  if_true, ◌≢◌, if◌then◌else◌, arith,
}
use tyk_pump.Sql.Shards.{get, slice, Variant, day_at, shard_rounds, shards}
use tyk_pump.Sql.Shards.Rounds.{
  get-append, last_of, slice-append, day_at-append, round-inside, round-end, rounds_in,
}

module _ {A : Type 0} (date : A → Text) where
  -- The runs of a batch, each with its day: a run goes on while the day is that of its first record.
  unfoldable pub runs_from : A → List A → List A → List (Text × List A)
  runs_from x run [] = (date x, x ∷ run) ∷ []
  runs_from x run (y ∷ ys) =
      if same (date x) (date y)
      then runs_from x (run ++ (y ∷ [])) ys
      else (date x, x ∷ run) ∷ runs_from y [] ys

  unfoldable pub runs : List A → List (Text × List A)
  runs [] = []
  runs (x ∷ xs) = runs_from x [] xs

module _ {A : Type 0} (variant : Variant) (day : A → Option Text) (date : A → Text) where
  -- The table of a run, in the form of the loop.
  abbrev pub to_shard : Text × List A → Option Text × List A
  to_shard p = (some p.0, p.1)

  -- The record has a day that can be read.
  abbrev pub IsDated : A → Type 0
  IsDated x = day x ≡ some (date x)

  -- The end of a run, by the length of what stands before it.
  size_of :
      (pre : List A) (x : A) (run ys : List A)
      → length (pre ++ ((x ∷ run) ++ ys)) ≡ length pre + suc (length run) + length ys
  size_of pre x run ys = omega (arith, length-append pre ((x ∷ run) ++ ys), length-append run ys)

  last_day :
      (pre : List A) (x : A) (run : List A)
      → IsDated x
      → All (λ y. day y ≡ some (date x)) run
      → day_at variant true day (pre ++ ((x ∷ run) ++ [])) (length (pre ++ ((x ∷ run) ++ [])) - 1)
        ≡ some (date x)
  last_day pre x run d a =
      let (l, g, p) = last_of (λ y. day y ≡ some (date x)) x run d a in
      ap (λ o. o >>= day)
        (ap (λ n. get n (pre ++ ((x ∷ run) ++ [])))
            (index_of_last (length pre) (length run) _ (size_of pre x run []))
          ∙ get-append pre ((x ∷ run) ++ []) (length run)
          ∙ ap (λ t. get (length run) t) (append-nil (x ∷ run))
          ∙ g)
      ∙ p
    where
      index_of_last : (m k n : ℕ) → n ≡ m + suc k + 0 → n - 1 ≡ m + k
      index_of_last m k n h = omega arith

  slice_of :
      (pre : List A) (x : A) (run ys : List A)
      → slice (length pre) (length pre + suc (length run)) (pre ++ ((x ∷ run) ++ ys)) ≡ x ∷ run
  slice_of pre x run ys = slice-append pre (x ∷ run) ys

  last_shard :
      (pre : List A) (x : A) (run : List A)
      → (shard_rounds variant true day
            (pre ++ ((x ∷ run) ++ []))
            0
            (suc (length pre + suc (length run)))
            (length pre + suc (length run))
            (length pre + suc (length run))
          >>= λ rest. some (
              (
                some (date x),
                slice (length pre) (length pre + suc (length run)) (pre ++ ((x ∷ run) ++ [])),
              )
              ∷ rest))
        ≡ some (map to_shard ((date x, x ∷ run) ∷ []))
  unfolding shard_rounds
  last_shard pre x run = ap (λ t. some ((some (date x), t) ∷ [])) (slice_of pre x run [])

  -- The data, read from the next record on.
  next_data :
      (pre : List A) (x : A) (run ys : List A) (y : A)
      → pre ++ ((x ∷ run) ++ (y ∷ ys)) ≡ (pre ++ (x ∷ run)) ++ ((y ∷ []) ++ ys)
  next_data pre x run ys y = sym (append_assoc pre (x ∷ run) (y ∷ ys))

  next_index :
      (pre : List A) (x : A) (run : List A)
      → length pre + suc (length run) ≡ length (pre ++ (x ∷ run))
  next_index pre x run = omega (arith, length-append pre (x ∷ run))

  next_day :
      (pre : List A) (x : A) (run ys : List A) (y : A)
      → IsDated y
      → day_at variant true day (pre ++ ((x ∷ run) ++ (y ∷ ys))) (length pre + suc (length run))
        ≡ some (date y)
  next_day pre x run ys y b =
      ap₂ (λ t i. day_at variant true day t i) (next_data pre x run ys y) (next_index pre x run)
      ∙ day_at-append variant day (pre ++ (x ∷ run)) ys y
      ∙ b

  -- The same run, with the next record in it.
  longer_data :
      (pre : List A) (x : A) (run ys : List A) (y : A)
      → pre ++ ((x ∷ run) ++ (y ∷ ys)) ≡ pre ++ ((x ∷ (run ++ (y ∷ []))) ++ ys)
  longer_data pre x run ys y = ap (λ t. pre ++ (x ∷ t)) (sym (append_assoc run (y ∷ []) ys))

  longer_index :
      (pre run : List A) (y : A)
      → suc (length pre + suc (length run)) ≡ length pre + suc (length (run ++ (y ∷ [])))
  longer_index pre run y = omega (arith, length-append run (y ∷ []))

  rounds_from :
      (pre : List A) (x : A) (run ys : List A) (e : ℕ)
      → IsDated x
      → All (λ y. day y ≡ some (date x)) run
      → All IsDated ys
      → shard_rounds variant true day
          (pre ++ ((x ∷ run) ++ ys))
          (suc (length ys))
          (length pre + suc (length run))
          (length pre)
          e
        ≡ some (map to_shard (runs_from date x run ys))
  unfolding runs_from
  rounds_from pre x run [] e d a b =
      rounds_in variant day _ 0 _ _ e (omega (arith, size_of pre x run []))
      ∙ round-end variant day _ _ _ _ e (date x) (ground (arith, size_of pre x run []))
          (day_at-append variant day pre (run ++ []) x ∙ d) (last_day pre x run d a)
      ∙ last_shard pre x run
  rounds_from pre x run (y ∷ ys) e d a b =
      rounds_in variant day _ (suc (length ys)) _ _ e (omega (arith, size_of pre x run (y ∷ ys)))
      ∙ round-inside variant day _ _ _ _ e (date x) (date y)
          (ground (arith, size_of pre x run (y ∷ ys)))
          (day_at-append variant day pre (run ++ (y ∷ ys)) x ∙ d) (next_day pre x run ys y b.0)
      ∙ elim (Bool-cases (same (date x) (date y))) [
        | inl h ↦ rw h (
            ap₂ (λ t i. shard_rounds variant true day t (suc (length ys)) i (length pre) e)
              (longer_data pre x run ys y) (longer_index pre run y)
            ∙ rounds_from pre x (run ++ (y ∷ [])) ys e d
                (All-snoc _ run y a (b.0 ∙ ap some (sym ((same_iff (date x) (date y)).0 h)))) b.1)
        | inr h ↦ rw h (
            ap₂ (λ r t. r >>= λ rest. some ((some (date x), t) ∷ rest))
              (ap₂ (λ t i. shard_rounds variant true day t (suc (length ys)) (suc i) i i)
                  (next_data pre x run ys y) (next_index pre x run)
                ∙ ap
                    (λ i.
                      shard_rounds variant true day ((pre ++ (x ∷ run)) ++ ((y ∷ []) ++ ys))
                        (suc (length ys)) i (length (pre ++ (x ∷ run))) (length (pre ++ (x ∷ run))))
                    (plus_one (length (pre ++ (x ∷ run))))
                ∙ rounds_from (pre ++ (x ∷ run)) y [] ys (length (pre ++ (x ∷ run))) b.0 tt b.1)
              (slice_of pre x run (y ∷ ys)))
      ]
    where
      plus_one : (n : ℕ) → suc n ≡ n + 1
      plus_one n = omega arith

  -- In the first round the loop goes on.
  first_round :
      (x : A) (xs : List A)
      → IsDated x
      → shards variant true day (x ∷ xs)
        ≡ shard_rounds variant true day (x ∷ xs) (suc (length xs)) 1 0 (suc (length xs))
  unfolding shards
  first_round x xs d =
      rounds_in variant day (x ∷ xs) (suc (length xs)) 0 0 (suc (length xs)) (omega arith)
      ∙ round-inside variant day (x ∷ xs)
          (shard_rounds variant true day (x ∷ xs) (suc (length xs)) 1) 0 0 (suc (length xs))
          (date x) (date x) (ground arith) d d
      ∙ if_true _ _ _ (same_refl (date x))

  -- Where tables are sharded and the days of the records can be read, each of the loops by day writes the
  -- batch run by run: a run has the records that follow one another with one day, and goes to the table
  -- of that day.
  pub shards-runs :
      (xs : List A)
      → All IsDated xs
      → xs ≢ []
      → shards variant true day xs ≡ some (map to_shard (runs date xs))
  unfolding runs
  shards-runs [] a h = absurd (h refl)
  shards-runs (x ∷ xs) a h =
      first_round x xs a.0 ∙ rounds_from [] x [] xs (suc (length xs)) a.0 tt a.1
