-- ===== src/Alerter/Metrics.antt =====
-- alerter/storage/clickhouse.go: the queries over the stored metrics. The averages of the
-- database are arguments; the rows that they range over are those of the query's WHERE clause.
pub mod Stats
use bangmod_monitor.Prelude.{
  ℕ, ◌+◌, ◌-◌, String, Bool, true, false, ◌&&◌, Option, none, some, List, [], ◌∷◌, map, str_eq, leb,
  ◌==◌, length, filter, count, if◌then◌else◌, suc,
}
use bangmod_monitor.Prelude.Int.{ℤ, pos, negsuc}
use bangmod_monitor.Prelude.Float.{Float64, Float32, minus_one}

pub record AgentRow : Type 0 where
  pub timestamp : ℕ
  pub host_id : String
  pub cpu_percent : Float32
  pub mem_percent : Float32

pub record ProbeRow : Type 0 where
  pub timestamp : ℕ
  pub target_url : String
  pub response_ms : ℕ
  pub is_up : ℕ

-- The tables that the queries read, and the two averages of the database.
pub record Clickhouse : Type 0 where
  pub agent_metrics : List AgentRow
  pub probe_results : List ProbeRow
  pub avg_float : List Float32 → Float64
  pub avg_int : List ℕ → Float64

-- timestamp >= now() - INTERVAL d SECOND
abbrev is_recent : ℕ → ℤ → ℕ → Bool
is_recent now (pos d) t = leb now (t + d)
is_recent now (negsuc d) t = leb (now + suc d) t

abbrev pub of_host : String → ℕ → ℤ → List AgentRow → List AgentRow
of_host host now d rows = filter (λ r. str_eq r.host_id host && is_recent now d r.timestamp) rows

abbrev average : (List Float32 → Float64) → List Float32 → Float64
average avg [] = minus_one
average avg (x ∷ xs) = avg (x ∷ xs)

-- The average over the recent rows of the host, or -1 without one.
unfoldable pub avg_cpu : Clickhouse → ℕ → String → ℤ → Float64
avg_cpu ch now host d =
    average ch.avg_float (map (λ r. r.cpu_percent) (of_host host now d ch.agent_metrics))

unfoldable pub avg_memory : Clickhouse → ℕ → String → ℤ → Float64
avg_memory ch now host d =
    average ch.avg_float (map (λ r. r.mem_percent) (of_host host now d ch.agent_metrics))

pub record ProbeStats : Type 0 where
  pub total : ℕ
  pub down_count : ℕ
  pub avg_resp_ms : Float64
  pub last_check : ℕ

abbrev latest : ℕ → List ProbeRow → ℕ
latest t [] = t
latest t (r ∷ rs) = latest (if leb t r.timestamp then r.timestamp else t) rs

abbrev pub of_target : String → ℕ → ℤ → List ProbeRow → List ProbeRow
of_target url now d rows = filter (λ r. str_eq r.target_url url && is_recent now d r.timestamp) rows

abbrev pub stats_of : (List ℕ → Float64) → List ProbeRow → ProbeStats
stats_of avg rows = record {
  total = length rows;
  down_count = count (λ r. r.is_up == 0) rows;
  avg_resp_ms = avg (map (λ r. r.response_ms) rows);
  last_check = latest 0 rows;
}

-- `none` is the nil result for a target with no recent row.
unfoldable pub probe_stats : Clickhouse → ℕ → String → ℤ → Option ProbeStats
probe_stats ch now url d =
    let s = stats_of ch.avg_int (of_target url now d ch.probe_results) in
    if s.total == 0 then none else some s
