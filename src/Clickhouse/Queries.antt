-- ===== src/Clickhouse/Queries.antt =====
-- The queries of api/storage/clickhouse.go that the API server answers from. Rows of one second
-- may stand in either order in the database; here they stand as they were inserted.
use bangmod_monitor.Prelude.{ℕ, String, Bool, ◌||◌, ◌&&◌, List, map, str_eq, filter, take, ◌==◌}
use bangmod_monitor.Prelude.Int.{ℤ, le_ℤ}
use bangmod_monitor.Prelude.Float.{Float32}
use bangmod_monitor.Prelude.Sort.{sort_by}
use bangmod_monitor.Prelude.Text.{is_empty}
use bangmod_monitor.Clickhouse.{AgentMetricRow, ProbeRow, Tables}

pub record MetricPoint : Type 0 where
  pub timestamp : ℤ
  pub cpu_percent : Float32
  pub mem_percent : Float32

abbrev pub point_of : AgentMetricRow → MetricPoint
point_of r = record {
  timestamp = r.timestamp;
  cpu_percent = r.cpu_percent;
  mem_percent = r.mem_percent;
}

abbrev pub newer_metric : AgentMetricRow → AgentMetricRow → Bool
newer_metric r s = le_ℤ s.timestamp r.timestamp

abbrev pub of_host : String → AgentMetricRow → Bool
of_host host r = str_eq r.host_id host

-- QueryRecentMetrics, where no step of it fails
unfoldable pub recent_metrics : String → ℕ → Tables → List MetricPoint
recent_metrics host limit t =
    map point_of (take limit (sort_by newer_metric (filter (of_host host) t.agent_metrics)))

pub record ProbePoint : Type 0 where
  pub timestamp : ℤ
  pub target_url : String
  pub region : String
  pub status_code : ℕ
  pub response_ms : ℕ
  pub is_up : Bool

abbrev probe_point_of : ProbeRow → ProbePoint
probe_point_of r = record {
  timestamp = r.timestamp;
  target_url = r.target_url;
  region = r.region;
  status_code = r.status_code;
  response_ms = r.response_ms;
  is_up = r.is_up == 1;
}

abbrev newer_probe : ProbeRow → ProbeRow → Bool
newer_probe r s = le_ℤ s.timestamp r.timestamp

-- An empty filter is left out of the query.
abbrev wanted : String → String → ProbeRow → Bool
wanted url region r =
    (is_empty url || str_eq r.target_url url) && (is_empty region || str_eq r.region region)

-- QueryProbeResults, where no step of it fails
unfoldable pub probe_results : String → String → ℕ → Tables → List ProbePoint
probe_results url region limit t =
    map probe_point_of
      (take limit (sort_by newer_probe (filter (wanted url region) t.probe_results)))
