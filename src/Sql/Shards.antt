-- ===== src/Sql/Shards.antt =====
-- pumps/sql.go, sql_aggregate.go, graph_sql.go, graph_sql_aggregate.go, mcp_sql.go, mcp_sql_aggregate.go:
-- the loops over a batch by indices that each `WriteData` has, one by day and one by size.
pub mod Rounds
pub mod Runs
pub mod Batches
use tyk_pump.Base.{
  ℕ, zero, suc, ◌+◌, ◌-◌, ◌<◌, Bool, true, false, not, ◌&&◌, ◌||◌, List, [], ◌∷◌, Option, none,
  some, ◌>>=◌, Text, same, length, take, ltb, ◌==◌, if◌then◌else◌,
}

module _ {A : Type 0} where
  abbrev pub get : ℕ → List A → Option A
  get i [] = none
  get zero (x ∷ xs) = some x
  get (suc i) (x ∷ xs) = get i xs

  abbrev pub drop : ℕ → List A → List A
  drop zero xs = xs
  drop (suc n) [] = []
  drop (suc n) (x ∷ xs) = drop n xs

  -- `xs[start:end]`, within the bounds.
  unfoldable pub slice : ℕ → ℕ → List A → List A
  slice start end_index xs = take (end_index - start) (drop start xs)

-- How the loops by day differ: pumps/sql.go tests the start against the length, and those of GraphQL and
-- of MCP name the last table by the last record.
pub data Variant : Type 0 where
  checked : Variant
  plain : Variant
  by_last : Variant

unfoldable pub is_in_range : Variant → ℕ → ℕ → Bool
is_in_range checked start n = ltb start n
is_in_range plain start n = true
is_in_range by_last start n = true

-- The day that names the table.
unfoldable pub table_date : Variant → (at_end : Bool) → (rec_date next_rec_date : Text) → Text
table_date checked at_end rec_date next_rec_date = rec_date
table_date plain at_end rec_date next_rec_date = rec_date
table_date by_last at_end rec_date next_rec_date = if at_end then next_rec_date else rec_date

-- What is written together: the day of its table, where tables are sharded, and the records.
abbrev pub Shards : Type 0 → Type 0
Shards A = List (Option Text × List A)

-- `day` is the formatted time stamp; `none` is the panic of a type assertion.
module _ {A : Type 0} (variant : Variant) (table_sharding : Bool) (day : A → Option Text)
    (data' : List A) where
  -- The day at an index; an index out of range panics.
  abbrev pub day_at : ℕ → Option Text
  day_at i = get i data' >>= day

  -- A round in which tables are sharded: the slice ends where the day changes, or with the data. `next` is
  -- the rest of the loop, from a start and an end.
  unfoldable pub shard_round :
      (next : ℕ → ℕ → Option (Shards A)) → (i start end_index : ℕ) → Option (Shards A)
  shard_round next i start end_index = do
    let at_end = i == length data'
    rec_date ← day_at start
    next_rec_date ← day_at (if at_end then length data' - 1 else i)
    let cut = next i i >>= λ rest.
        some ((some (table_date variant at_end rec_date next_rec_date), slice start i data') ∷ rest)
    if not at_end && same rec_date next_rec_date then next start end_index else cut

  -- The loop, with the rounds that are left.
  unfoldable pub shard_rounds : ℕ → (i start end_index : ℕ) → Option (Shards A)
  shard_rounds zero i start end_index = some []
  shard_rounds (suc n) i start end_index =
      if table_sharding && is_in_range variant start (length data')
      then shard_round (shard_rounds n (suc i)) i start end_index
      else some ((none, slice start end_index data') ∷ [])

  -- The loop of `WriteData`, from 0 to the length of the data inclusive.
  unfoldable pub shards : Option (Shards A)
  shards = shard_rounds (suc (length data')) 0 0 (length data')

module _ {A : Type 0} (batch_size : ℕ) (recs : List A) where
  -- `for i := 0; i < len(recs); i += BatchSize`, on fuel: what is written in one statement.
  unfoldable pub batches_from : (fuel i : ℕ) → List (List A)
  batches_from zero i = []
  batches_from (suc fuel) i =
      let ends = if ltb (length recs) (i + batch_size) then length recs else i + batch_size in
      let rest = batches_from fuel (i + batch_size) in
      if ltb i (length recs) then slice i ends recs ∷ rest else []

  unfoldable pub batches : List (List A)
  batches = batches_from (length recs) 0
