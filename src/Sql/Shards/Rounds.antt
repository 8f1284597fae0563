-- ===== src/Sql/Shards/Rounds.antt =====
-- The SQL pumps: one round of the loop by day, inside a batch and at its end.
use tyk_pump.Base.{
  ℕ, suc, ◌+◌, ◌-◌, ◌<◌, ◌≡◌, refl, ap, ◌∙◌, Bool, true, false, List, [], ◌∷◌, ◌++◌, Option, some,
  ◌>>=◌, Text, same, All, length, take, ◌==◌, if_true, if◌then◌else◌, arith,
}
use tyk_pump.Sql.Shards.{
  get, drop, slice, Variant, checked, plain, by_last, is_in_range, table_date, Shards, day_at,
  shard_round, shard_rounds,
}

suc_plus : (m k : ℕ) → suc m + k ≡ suc (m + k)
suc_plus m k = omega arith

module _ {A : Type 0} where
  pub get-append : (pre ys : List A) (k : ℕ) → get (length pre + k) (pre ++ ys) ≡ get k ys
  get-append [] ys k = ap (λ n. get n ys) (omega arith)
  get-append (x ∷ pre) ys k =
      ap (λ n. get n (x ∷ (pre ++ ys))) (suc_plus (length pre) k) ∙ get-append pre ys k

  drop-append : (pre ys : List A) → drop (length pre) (pre ++ ys) ≡ ys
  drop-append [] ys = refl
  drop-append (x ∷ pre) ys = drop-append pre ys

  take-append : (mid ys : List A) → take (length mid) (mid ++ ys) ≡ mid
  take-append [] ys = refl
  take-append (x ∷ mid) ys = ap (λ t. x ∷ t) (take-append mid ys)

  pub slice-append :
      (pre mid ys : List A)
      → slice (length pre) (length pre + length mid) (pre ++ (mid ++ ys)) ≡ mid
  unfolding slice
  slice-append pre mid ys =
      ap (λ n. take n (drop (length pre) (pre ++ (mid ++ ys)))) (omega arith)
      ∙ ap (take (length mid)) (drop-append pre (mid ++ ys))
      ∙ take-append mid ys

  pub last_of :
      (P : A → Type 0) (x : A) (run : List A)
      → P x
      → All P run
      → (l : A) × (get (length run) (x ∷ run) ≡ some l) × P l
  last_of P x [] p a = (x, refl, p)
  last_of P x (y ∷ run) p a = last_of P y run a.0 a.1

is_in_range-lt : (variant : Variant) (start n : ℕ) → start < n → is_in_range variant start n ≡ true
unfolding is_in_range
is_in_range-lt checked start n h = ground arith
is_in_range-lt plain start n h = refl
is_in_range-lt by_last start n h = refl

table_date-same : (variant : Variant) (at_end : Bool) (t : Text) → table_date variant at_end t t ≡ t
unfolding table_date
table_date-same checked at_end t = refl
table_date-same plain at_end t = refl
table_date-same by_last true t = refl
table_date-same by_last false t = refl

table_date-inside : (variant : Variant) (t u : Text) → table_date variant false t u ≡ t
unfolding table_date
table_date-inside checked t u = refl
table_date-inside plain t u = refl
table_date-inside by_last t u = refl

module _ {A : Type 0} (variant : Variant) (day : A → Option Text) where
  pub day_at-append :
      (pre ys : List A) (y : A) → day_at variant true day (pre ++ (y ∷ ys)) (length pre) ≡ day y
  day_at-append pre ys y =
      ap (λ o. o >>= day)
        (ap (λ n. get n (pre ++ (y ∷ ys))) (omega arith) ∙ get-append pre (y ∷ ys) 0)

  pub round-inside :
      (data' : List A) (next : ℕ → ℕ → Option (Shards A)) (i start e : ℕ) (t u : Text)
      → (i == length data') ≡ false
      → day_at variant true day data' start ≡ some t
      → day_at variant true day data' i ≡ some u
      → shard_round variant true day data' next i start e ≡ (
          if same t u
          then next start e
          else next i i >>= λ rest. some ((some t, slice start i data') ∷ rest))
  unfolding shard_round
  round-inside data' next i start e t u h d f = rw (h, d, f, table_date-inside variant t u) refl

  pub round-end :
      (data' : List A) (next : ℕ → ℕ → Option (Shards A)) (i start e : ℕ) (t : Text)
      → (i == length data') ≡ true
      → day_at variant true day data' start ≡ some t
      → day_at variant true day data' (length data' - 1) ≡ some t
      → shard_round variant true day data' next i start e
        ≡ (next i i >>= λ rest. some ((some t, slice start i data') ∷ rest))
  unfolding shard_round
  round-end data' next i start e t h d f = rw (h, d, f, table_date-same variant true t) refl

  pub rounds_in :
      (data' : List A) (n i start e : ℕ)
      → start < length data'
      → shard_rounds variant true day data' (suc n) i start e
        ≡ shard_round variant true day data'
            (shard_rounds variant true day data' n (suc i))
            i
            start
            e
  unfolding shard_rounds
  rounds_in data' n i start e h = if_true _ _ _ (is_in_range-lt variant start (length data') h)
