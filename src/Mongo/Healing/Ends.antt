-- ===== src/Mongo/Healing/Ends.antt =====
-- pumps/mongo_aggregate.go: the self-healing ends.
use tyk_pump.Base.{
  ℕ, zero, suc, ◌*◌, ◌≤◌, ◌<◌, ◌/◌, ◌≡◌, refl, true, false, ◌&&◌, List, Option, none, some, Text,
  Map, lt64, Int64, ◌==◌, Bool-cases, inl, inr, arith,
}
use tyk_pump.Floats.{FloatOps}
use tyk_pump.Aggregate.State.{AnalyticsRecordAggregate}
use tyk_pump.Aggregate.Timestamp.{LastTimes}
use tyk_pump.Aggregate.Data.{Value}
use tyk_pump.Mongo.{without_mcp}
use tyk_pump.Mongo.Sets.{is_nil}
use tyk_pump.Mongo.Healing.{
  MongoAggregateConf, set_aggregation_time, divide_aggregation_time, is_size_error, Documents,
  Healed, Result, panicked, wrote, out_of_fuel, should_self_heal, write_aggregates, aggregates_of,
  after_writing, write_batch, write_data,
}

-- The run ends, and leaves an aggregation time of 1 minute to `limit`.
abbrev pub EndsWithin : {S : Type 0} → ℕ → Result S → Type 0
EndsWithin limit panicked = Unit
EndsWithin limit (wrote error h) = (1 ≤ h.aggregation_time) × (h.aggregation_time ≤ limit)
EndsWithin limit out_of_fuel = ⊥

EndsWithin-le : {S : Type 0} (m n : ℕ) (r : Result S) → m ≤ n → EndsWithin m r → EndsWithin n r
EndsWithin-le m n panicked h e = tt
EndsWithin-le m n (wrote error s) h e = (e.0, omega (arith, e.1))
EndsWithin-le m n out_of_fuel h e = e

-- The times that fuel is enough for are below this.
abbrev reach : ℕ → ℕ
reach zero = 1
reach (suc n) = 2 * reach n

module _ (conf : MongoAggregateConf) (documents : Documents) where
  heals_less :
      (error : Text) (h : Healed documents.State)
      → 1 ≤ h.aggregation_time
      → (should_self_heal conf documents error h).0 ≡ true
      → (1 ≤ (should_self_heal conf documents error h).1.aggregation_time)
        × (2 * (should_self_heal conf documents error h).1.aggregation_time ≤ h.aggregation_time)
  unfolding should_self_heal divide_aggregation_time
  heals_less error h l e =
      elim (Bool-cases (conf.enable_aggregate_self_healing && is_size_error error)) [
        | inl q ↦ elim (Bool-cases (h.aggregation_time == 1)) [
          | inl p ↦ cc (rw (q, p) at e)
          | inr p ↦ rw (q, p) (halved h.aggregation_time l p)
        ]
        | inr q ↦ cc (rw q at e)
      ]
    where
      halved : (n : ℕ) → 1 ≤ n → (n == 1) ≡ false → (1 ≤ n / 2) × (2 * (n / 2) ≤ n)
      halved n l p = ground arith

  keeps_time :
      (error : Text) (h : Healed documents.State)
      → (should_self_heal conf documents error h).0 ≡ false
      → (should_self_heal conf documents error h).1.aggregation_time ≡ h.aggregation_time
  unfolding should_self_heal
  keeps_time error h e =
      elim (Bool-cases (conf.enable_aggregate_self_healing && is_size_error error)) [
        | inl q ↦ elim (Bool-cases (h.aggregation_time == 1)) [
          | inl p ↦ rw (q, p) refl
          | inr p ↦ cc (rw (q, p) at e)
        ]
        | inr q ↦ rw q refl
      ]

  module _ (fl : FloatOps) (data' : List Value) where
    after-EndsWithin :
        (fuel : ℕ) (w : Option Text × documents.State) (h : Healed documents.State)
        → ((g : Healed documents.State)
            → 1 ≤ g.aggregation_time
            → g.aggregation_time < reach fuel
            → EndsWithin g.aggregation_time (write_data conf documents fl data' fuel g))
        → 1 ≤ h.aggregation_time
        → h.aggregation_time < reach (suc fuel)
        → EndsWithin h.aggregation_time
            (after_writing conf documents fl data' (write_data conf documents fl data' fuel) w h)
    after-EndsWithin fuel (none, s) h ih l m = (l, omega arith)
    after-EndsWithin fuel (some error, s) h ih l m =
        let h' = record h { store = s } in
        elim (Bool-cases (should_self_heal conf documents error h').0) [
          | inl e ↦
              let (l', m') = heals_less error h' l e in
              rw e (
                EndsWithin-le _ _ _ (omega (arith, m'))
                  (ih (should_self_heal conf documents error h').1 l' (omega (arith, m'))))
          | inr e ↦
              rw e (omega (arith, keeps_time error h' e), omega (arith, keeps_time error h' e))
        ]

    batch-EndsWithin :
        (fuel : ℕ) (o : Option (Map AnalyticsRecordAggregate × LastTimes))
        (h : Healed documents.State)
        → ((g : Healed documents.State)
            → 1 ≤ g.aggregation_time
            → g.aggregation_time < reach fuel
            → EndsWithin g.aggregation_time (write_data conf documents fl data' fuel g))
        → 1 ≤ h.aggregation_time
        → h.aggregation_time < reach (suc fuel)
        → EndsWithin h.aggregation_time
            (write_batch conf documents fl data' (write_data conf documents fl data' fuel) o h)
    batch-EndsWithin fuel none h ih l m = tt
    batch-EndsWithin fuel (some (aggregates, last)) h ih l m =
        after-EndsWithin fuel (write_aggregates conf documents aggregates h.store)
          (record h { last_times = last }) ih l m

    write_data-EndsWithin :
        (fuel : ℕ) (h : Healed documents.State)
        → 1 ≤ h.aggregation_time
        → h.aggregation_time < reach fuel
        → EndsWithin h.aggregation_time (write_data conf documents fl data' fuel h)
    unfolding write_data
    write_data-EndsWithin zero h l m = absurd (omega arith)
    write_data-EndsWithin (suc fuel) h l m = elim (Bool-cases (is_nil (without_mcp data'))) [
      | inl e ↦ rw e (l, omega arith)
      | inr e ↦ rw e (
          batch-EndsWithin fuel (aggregates_of conf documents fl data' h) h
            (write_data-EndsWithin fuel) l m)
    ]

    set_aggregation_time-bounds :
        (time : Int64)
        → time < 18446744073709551616
        → (1 ≤ set_aggregation_time conf time) × (set_aggregation_time conf time ≤ 60)
    unfolding set_aggregation_time lt64
    set_aggregation_time-bounds time w = ground arith

    -- `WriteData` of the aggregate pump ends, however often the store finds a document too large: it
    -- begins again at most five times after the aggregation time that `SetAggregationTime` leaves, whatever
    -- the configuration has, and leaves one of a minute to an hour.
    pub write_data_heals :
        (time : Int64) (h : Healed documents.State)
        → time < 18446744073709551616
        → h.aggregation_time ≡ set_aggregation_time conf time
        → EndsWithin 60 (write_data conf documents fl data' 6 h)
    write_data_heals time h w e =
        let (l, m) = set_aggregation_time-bounds time w in
        EndsWithin-le h.aggregation_time 60 _ (omega arith)
          (write_data-EndsWithin 6 h (omega arith) (omega arith))
