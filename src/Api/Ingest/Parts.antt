-- ===== src/Api/Ingest/Parts.antt =====
-- The parts of the message and the rows that the endpoints build from what an agent reports.
use bangmod_monitor.Prelude.{String, List}
use bangmod_monitor.Prelude.Int.{ℤ}
use bangmod_monitor.Prelude.Float.{Float64, Float32}
use bangmod_monitor.Agent.Metrics.{DiskMetric, NetMetric}
use bangmod_monitor.Clickhouse.{AgentMetricRow, DiskRow, NetRow}
use bangmod_monitor.Mq.{DiskMsg, NetMsg}

abbrev pub msg_disk : (Float64 → Float32) → DiskMetric → DiskMsg
msg_disk float32 d = record {
  path = d.path;
  total_bytes = d.total_bytes;
  used_bytes = d.used_bytes;
  use_pct = float32 d.usage_percent;
}

abbrev pub msg_net : NetMetric → NetMsg
msg_net n = record {
  interface = n.interface;
  bytes_sent = n.bytes_sent;
  bytes_recv = n.bytes_recv;
  packets_sent = n.packets_sent;
  packets_recv = n.packets_recv;
}

abbrev pub disk_row : (Float64 → Float32) → ℤ → String → DiskMetric → DiskRow
disk_row float32 ts host_id d = record {
  timestamp = ts;
  host_id = host_id;
  path = d.path;
  total_bytes = d.total_bytes;
  used_bytes = d.used_bytes;
  use_pct = float32 d.usage_percent;
}

abbrev pub net_row : ℤ → String → NetMetric → NetRow
net_row ts host_id n = record {
  timestamp = ts;
  host_id = host_id;
  interface = n.interface;
  bytes_sent = n.bytes_sent;
  bytes_recv = n.bytes_recv;
  packets_sent = n.packets_sent;
  packets_recv = n.packets_recv;
}

-- The rows of one request.
pub record Rows : Type 0 where
  pub agent : AgentMetricRow
  pub disks : List DiskRow
  pub nets : List NetRow
