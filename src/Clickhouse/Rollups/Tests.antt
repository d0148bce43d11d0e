-- ===== src/Clickhouse/Rollups/Tests.antt =====
-- The theorem on the views at two blocks of rows whose parts are merged.
use bangmod_monitor.Prelude.{ℕ, false, List, [], ◌∷◌, ◌≡◌, refl, Option, none, some}
use bangmod_monitor.Prelude.Int.{pos}
use bangmod_monitor.Prelude.Float.{Float32, Float64}
use bangmod_monitor.Clickhouse.{AgentMetricRow}
use bangmod_monitor.Clickhouse.Rollups.{
  Event, insert_metrics, merge_1m, run, created, rollup_metrics,
}

abbrev reading : ℕ → Float32 → AgentMetricRow
reading t cpu = record {
  timestamp = pos t;
  host_id = "h1";
  hostname = "web";
  region = "th";
  cpu_percent = cpu;
  cpu_cores = 4;
  mem_total = 100;
  mem_used = 50;
  mem_percent = 7;
}

abbrev history : List Event
history =
    insert_metrics (reading 125 1 ∷ reading 130 2 ∷ [])
    ∷ insert_metrics (reading 170 3 ∷ reading 190 4 ∷ [])
    ∷ merge_1m 0
    ∷ []

-- A stand-in for the average: the last value
abbrev last_value : List Float32 → Float64
last_value [] = 0
last_value (x ∷ []) = x
last_value (x ∷ y ∷ xs) = last_value (y ∷ xs)

minutes_seen :
    rollup_metrics last_value some false "h1" 10 (run history created)
    ≡ some (
        (record { timestamp = pos 180; cpu_percent = 4; mem_percent = 7 })
        ∷ (record { timestamp = pos 120; cpu_percent = 3; mem_percent = 7 })
        ∷ [])
unfolding rollup_metrics run created
minutes_seen = refl

-- The driver takes no Float64 into a float32.
abbrev refused : Float64 → Option Float32
refused x = none

no_answer : rollup_metrics last_value refused false "h1" 10 (run history created) ≡ none
unfolding rollup_metrics run created
no_answer = refl
