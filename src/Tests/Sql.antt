-- ===== src/Tests/Sql.antt =====
-- Tests of the SQL pumps.
use tyk_pump.Base.{
  ◌≡◌, refl, Bool, true, false, Option, none, List, [], ◌∷◌, ◌++◌, map, filter, some, ◌>>=◌, Text,
  text, same, length, if◌then◌else◌, arith,
}
use tyk_pump.Time.{format_day}
use tyk_pump.Analytics.Record.{AnalyticsRecord}
use tyk_pump.Sql.Shards.{checked, plain, shards, slice, batches, batches_from}
use tyk_pump.Sql.Shards.Runs.{runs, to_shard, shards-runs}
use tyk_pump.Sql.Records.{SqlConf, Database, record_day, write_records}
use tyk_pump.Sql.Records.Delivered.{Appends, day_table, write_records-rows}
use tyk_pump.Tests.Samples.{hit, missing, noon}

-- A record of the next day.
abbrev later : AnalyticsRecord
later = record hit { time_stamp = record noon { day = 18 } }

day_example : format_day noon ≡ text "20240517"
unfolding format_day
day_example = refl

abbrev two_days : List AnalyticsRecord
two_days = hit ∷ missing ∷ later ∷ hit ∷ []

shards-runs_example :
    shards plain true (λ r. some (record_day r)) two_days
    ≡ some (map (to_shard plain (λ r. some (record_day r)) record_day) (runs record_day two_days))
shards-runs_example =
    shards-runs plain (λ r. some (record_day r)) record_day two_days
      (refl, (refl, (refl, (refl, tt)))) (λ e. cc)

batches_example : map length (batches 3 two_days) ≡ 3 ∷ 1 ∷ []
unfolding batches batches_from slice
batches_example = refl

abbrev is_there : Option Text → Text → Bool
is_there none u = false
is_there (some t) u = same t u

-- A database as a function from tables to rows.
abbrev tables : Database AnalyticsRecord
tables = record {
  State = Text → List AnalyticsRecord;
  ensure_table = λ t s. (none, s);
  create = λ t rs s. (none, λ u. s u ++ (if is_there t u then rs else []));
}

tables-Appends : Appends tables
tables-Appends = record {
  rows = λ t s. s t;
  ensures = λ t s. refl;
  keeps = λ t u s. refl;
  creates = λ t u rs s. refl;
}

abbrev sharded : SqlConf
sharded = record { table_sharding = true; batch_size = 1000 }

write_records-rows_example :
    (write_records tables sharded checked true
        (text "tyk_analytics")
        (λ r. some (record_day r))
        two_days
        (λ t. [])
      >>= λ p. some (tables-Appends.rows (day_table (text "tyk_analytics") (text "20240517")) p.1))
    ≡ some (
        tables-Appends.rows (day_table (text "tyk_analytics") (text "20240517")) (λ t. [])
        ++ filter (λ r. same (record_day r) (text "20240517")) two_days)
write_records-rows_example =
    write_records-rows tables tables-Appends sharded record_day checked true (text "tyk_analytics")
      (text "20240517") two_days (λ t. []) refl (omega arith)
