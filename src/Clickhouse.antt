-- ===== src/Clickhouse.antt =====
-- api/storage/clickhouse.go: the tables of the metrics and the inserts into them. A table is the
-- list of its rows; an insert that reports an error has stored nothing.
pub mod Queries
pub mod Rollups
use bangmod_monitor.Prelude.{ℕ, String, Bool, List, [], ◌∷◌, ◌++◌, if◌then◌else◌}
use bangmod_monitor.Prelude.Int.{ℤ}
use bangmod_monitor.Prelude.Float.{Float32}

pub record AgentMetricRow : Type 0 where
  pub timestamp : ℤ
  pub host_id : String
  pub hostname : String
  pub region : String
  pub cpu_percent : Float32
  pub cpu_cores : ℕ
  pub mem_total : ℕ
  pub mem_used : ℕ
  pub mem_percent : Float32

pub record DiskRow : Type 0 where
  pub timestamp : ℤ
  pub host_id : String
  pub path : String
  pub total_bytes : ℕ
  pub used_bytes : ℕ
  pub use_pct : Float32

pub record NetRow : Type 0 where
  pub timestamp : ℤ
  pub host_id : String
  pub interface : String
  pub bytes_sent : ℕ
  pub bytes_recv : ℕ
  pub packets_sent : ℕ
  pub packets_recv : ℕ

pub record ProbeRow : Type 0 where
  pub timestamp : ℤ
  pub host_id : String
  pub target_url : String
  pub region : String
  pub status_code : ℕ
  pub response_ms : ℕ
  pub is_up : ℕ

pub record Tables : Type 0 where
  pub agent_metrics : List AgentMetricRow
  pub disk_metrics : List DiskRow
  pub net_metrics : List NetRow
  pub probe_results : List ProbeRow

unfoldable pub insert_agent_metric : AgentMetricRow → Tables → Tables
insert_agent_metric r t = record t { agent_metrics = t.agent_metrics ++ r ∷ [] }

-- The batch is sent as a whole, or an error of any of its steps is returned.
unfoldable pub insert_disk_metrics : Bool → List DiskRow → Tables → Tables
insert_disk_metrics fails rows t =
    if fails then t else record t { disk_metrics = t.disk_metrics ++ rows }

unfoldable pub insert_net_metrics : Bool → List NetRow → Tables → Tables
insert_net_metrics fails rows t =
    if fails then t else record t { net_metrics = t.net_metrics ++ rows }

unfoldable pub insert_probe_result : Bool → ProbeRow → Tables → Tables
insert_probe_result fails r t =
    if fails then t else record t { probe_results = t.probe_results ++ r ∷ [] }
