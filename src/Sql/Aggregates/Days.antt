-- ===== src/Sql/Aggregates/Days.antt =====
-- pumps/sql_aggregate.go, graph_sql_aggregate.go, mcp_sql_aggregate.go: the loop by day.
use tyk_pump.Base.{
  ℕ, zero, suc, ◌-◌, ◌≡◌, ◌≢◌, take_all, refl, sym, ap, ◌∙◌, Bool, true, false, not, ◌&&◌, List, [],
  ◌∷◌, map, Option, none, some, ◌>>=◌, >>=-eq-some, Text, same, length, ◌==◌, All, Bool-cases, inl,
  inr, if_true, if_false, if◌then◌else◌, arith,
}
use tyk_pump.Aggregate.Timestamp.{LastTimes}
use tyk_pump.Sql.Shards.{
  Variant, checked, plain, by_last, Shards, is_in_range, shard_round, shard_rounds, shards, slice,
  table_date, day_at,
}
use tyk_pump.Sql.Shards.Runs.{runs, shards-runs, to_shard, IsDated}
use tyk_pump.Sql.Aggregates.{
  AggregateDatabase, SqlAggregateConf, Kind, unless_error, write_part, write_round, write_rounds,
  write_data,
}

some-eq : {A : Type 0} {x y : A} → some x ≡ some y → x ≡ y
some-eq h = cc

bind_end :
    {S : Type 0} (m : Option (Option Text × S))
    → (m >>= λ p. unless_error p (λ t. some (none, t))) ≡ m
bind_end none = refl
bind_end (some (none, s)) = refl
bind_end (some (some e, s)) = refl

in_range : (v : Variant) (a b : ℕ) → v ≢ checked → is_in_range v a b ≡ true
unfolding is_in_range
in_range checked a b h = absurd (h refl)
in_range plain a b h = refl
in_range by_last a b h = refl

slice_all : {A : Type 0} (xs : List A) → slice 0 (length xs) xs ≡ xs
unfolding slice
slice_all xs = take_all (length xs - 0) xs (omega arith)

module _ {V R A : Type 0} (db : AggregateDatabase R) (conf : SqlAggregateConf)
    (kind : Kind V R A) where
  -- The slices one after the other, each into its table, up to the first error.
  unfoldable pub write_parts :
      Shards V → LastTimes × db.State → Option (Option Text × (LastTimes × db.State))
  write_parts [] t = some (none, t)
  write_parts ((date, values) ∷ parts) t =
      write_part db conf kind date values t >>= λ p. unless_error p (write_parts parts)

  abbrev Loop : Type 0
  Loop = ℕ → ℕ → LastTimes × db.State → Option (Option Text × (LastTimes × db.State))

  module _ (data' : List V) (unchecked : kind.variant ≢ checked) where
    -- The rest of a loop that cuts the data writes what the other one cuts.
    Matches : Loop → (ℕ → ℕ → Option (Shards V)) → Type 0
    Matches write cut =
        (start end_index : ℕ) (t : LastTimes × db.State) (parts : Shards V)
        → cut start end_index ≡ some parts
        → write start end_index t ≡ write_parts parts t

    -- A round whose days are known.
    abbrev after_days :
        Loop
        → (i start end_index : ℕ) → LastTimes × db.State
        → Text
        → Text
        → Option (Option Text × (LastTimes × db.State))
    after_days write i start end_index t rec_date next_rec_date =
        if not (i == length data') && same rec_date next_rec_date
        then write start end_index t
        else (write_part db conf kind
              (some (table_date kind.variant (i == length data') rec_date next_rec_date))
              (slice start i data') t
            >>= λ p. unless_error p (write i i))

    abbrev last_index : ℕ → ℕ
    last_index i = if i == length data' then length data' - 1 else i

    round_known :
        (write : Loop) (i start end_index : ℕ) (t : LastTimes × db.State)
        (rec_date next_rec_date : Text)
        → day_at kind.variant conf.table_sharding kind.day data' start ≡ some rec_date
        → day_at kind.variant conf.table_sharding kind.day data' (last_index i) ≡ some next_rec_date
        → write_round db conf kind data' write i start end_index t
          ≡ after_days write i start end_index t rec_date next_rec_date
    unfolding write_round
    round_known write i start end_index t rec_date next_rec_date e d =
        ap
          (λ o. o >>= λ r.
            day_at kind.variant conf.table_sharding kind.day data' (last_index i)
            >>= after_days write i start end_index t r)
          e
        ∙ ap (λ o. o >>= after_days write i start end_index t rec_date) d

    cut_off :
        {f g : LastTimes × db.State → Option (Option Text × (LastTimes × db.State))}
        → ((u : LastTimes × db.State) → f u ≡ g u)
        → (m : Option (Option Text × (LastTimes × db.State)))
        → (m >>= λ p. unless_error p f) ≡ (m >>= λ p. unless_error p g)
    cut_off h none = refl
    cut_off h (some (none, s)) = h s
    cut_off h (some (some e, s)) = refl

    round-parts :
        (write : Loop) (cut : ℕ → ℕ → Option (Shards V)) (i : ℕ)
        → Matches write cut
        → (start end_index : ℕ) (t : LastTimes × db.State) (parts : Shards V)
        → shard_round kind.variant conf.table_sharding kind.day data' cut i start end_index
          ≡ some parts
        → write_round db conf kind data' write i start end_index t ≡ write_parts parts t
    unfolding shard_round write_round write_parts Matches
    round-parts write cut i m start end_index t parts h =
        let (rec_date, e, g) = >>=-eq-some _ _ h in
        let (next_rec_date, d, f) = >>=-eq-some _ _ g in
        round_known write i start end_index t rec_date next_rec_date e d
        ∙ elim (Bool-cases (not (i == length data') && same rec_date next_rec_date)) [
          | inl c ↦ if_true _ _ _ c ∙ m start end_index t parts (sym (if_true _ _ _ c) ∙ f)
          | inr c ↦
              let (rest, r, q) = >>=-eq-some _ _ (sym (if_false _ _ _ c) ∙ f) in
              if_false _ _ _ c
              ∙ cut_off (λ u. m i i u rest r) (write_part db conf kind _ _ t)
              ∙ ap (λ ps. write_parts ps t) (some-eq q)
        ]

    rounds-parts :
        (n i : ℕ)
        → conf.table_sharding ≡ true
        → Matches
            (write_rounds db conf kind data' n i)
            (shard_rounds kind.variant conf.table_sharding kind.day data' n i)
    unfolding Matches write_rounds shard_rounds write_parts
    rounds-parts zero i s start end_index t parts h = ap (λ ps. write_parts ps t) (some-eq h)
    rounds-parts (suc n) i s start end_index t parts h =
        if_true _ _ _ s
        ∙ round-parts (write_rounds db conf kind data' n (suc i))
            (shard_rounds kind.variant conf.table_sharding kind.day data' n (suc i)) i
            (rounds-parts n (suc i) s) start end_index t parts (sym (if_true _ _ _ goes_on) ∙ h)
      where
        goes_on : (conf.table_sharding && is_in_range kind.variant start (length data')) ≡ true
        goes_on = rw (s, in_range kind.variant start (length data') unchecked) refl

  module _ (date : V → Text) where
    -- What is written together: with tables by day the runs of values of one day, each into the table of
    -- its day, and else the whole batch.
    abbrev pub parts_of : Bool → List V → Shards V
    parts_of true values = map (to_shard kind.variant kind.day date) (runs date values)
    parts_of false [] = []
    parts_of false (v ∷ values) = (none, v ∷ values) ∷ []

    pub write_data-parts :
        (sharding : Bool) (values : List V) (t : LastTimes × db.State)
        → conf.table_sharding ≡ sharding
        → kind.variant ≢ checked
        → All (IsDated kind.variant kind.day date) values
        → write_data db conf kind values t ≡ write_parts (parts_of sharding values) t
    unfolding write_data write_parts runs write_rounds Matches shard_rounds shards
    write_data-parts true [] t s u d = refl
    write_data-parts false [] t s u d = refl
    write_data-parts true (v ∷ vs) t s u d =
        let values = v ∷ vs in
        rounds-parts values u (suc (length values)) 0 s 0 (length values) t _ (
          ap (λ b. shards kind.variant b kind.day values) s
          ∙ shards-runs kind.variant kind.day date values d (λ e. cc))
    write_data-parts false (v ∷ vs) t s u d =
        if_false _ _ _ s
        ∙ ap (λ l. write_part db conf kind none l t) (slice_all (v ∷ vs))
        ∙ sym (bind_end (write_part db conf kind none (v ∷ vs) t))
