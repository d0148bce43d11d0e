-- ===== src/Proto.antt =====
-- gen/bangmod/v1/metrics.pb.go: the messages of the gRPC service. A pointer to a message is an
-- `Option`; the elements of a repeated field are never nil on the wire.
use bangmod_monitor.Prelude.{ℕ, String, Bool, Option, List}
use bangmod_monitor.Prelude.Int.{ℤ}
use bangmod_monitor.Prelude.Float.{Float64}

pub record CpuMetric : Type 0 where
  pub usage_percent : Float64
  pub cores : ℤ

pub record MemoryMetric : Type 0 where
  pub total_bytes : ℕ
  pub used_bytes : ℕ
  pub usage_percent : Float64

pub record DiskMetric : Type 0 where
  pub path : String
  pub total_bytes : ℕ
  pub used_bytes : ℕ
  pub usage_percent : Float64

pub record NetworkMetric : Type 0 where
  pub interface : String
  pub bytes_sent : ℕ
  pub bytes_recv : ℕ
  pub packets_sent : ℕ
  pub packets_recv : ℕ

pub record AppStatus : Type 0 where
  pub nginx : Bool
  pub apache : Bool
  pub mysql : Bool
  pub mariadb : Bool
  pub postgresql : Bool

pub record AgentMetrics : Type 0 where
  pub timestamp : ℤ
  pub hostname : String
  pub cpu : Option CpuMetric
  pub memory : Option MemoryMetric
  pub disks : List DiskMetric
  pub networks : List NetworkMetric
  pub apps : Option AppStatus

pub record IngestRequest : Type 0 where
  pub token : String
  pub metrics : Option AgentMetrics

pub record IngestResponse : Type 0 where
  pub ok : Bool
  pub message : String

pub record ProbeResult : Type 0 where
  pub url : String
  pub status_code : ℤ
  pub response_ms : ℤ
  pub is_up : Bool
  pub error : String

pub record ProbeRequest : Type 0 where
  pub region : String
  pub node_secret : String
  pub results : List ProbeResult
