-- ===== src/Api/Ingest/Arrival/Collected.antt =====
-- The rows of a collection, field by field, and the two ways to them.
use bangmod_monitor.Prelude.{String, ◌≡◌, refl, map}
use bangmod_monitor.Prelude.Int.{to_uint}
use bangmod_monitor.Prelude.Float.{Float64, Float32}
use bangmod_monitor.Agent.Metrics.{Metrics}
use bangmod_monitor.Agent.Convert.{to_proto}
use bangmod_monitor.Api.Ingest.{Rows, http_rows, grpc_rows}
use bangmod_monitor.Api.Ingest.Equivalence.{payload, grpc_stores_http}

-- What the tables should hold of a collection of the host
abbrev pub collected : String → (Float64 → Float32) → String → Metrics → Rows
collected region float32 host_id m = record {
  agent = record {
    timestamp = m.timestamp;
    host_id = host_id;
    hostname = m.hostname;
    region = region;
    cpu_percent = float32 m.cpu.usage_percent;
    cpu_cores = to_uint 8 m.cpu.cores;
    mem_total = m.memory.total_bytes;
    mem_used = m.memory.used_bytes;
    mem_percent = float32 m.memory.usage_percent;
  };
  disks =
      map
        (λ d. record {
          timestamp = m.timestamp;
          host_id = host_id;
          path = d.path;
          total_bytes = d.total_bytes;
          used_bytes = d.used_bytes;
          use_pct = float32 d.usage_percent;
        })
        m.disks;
  nets =
      map
        (λ n. record {
          timestamp = m.timestamp;
          host_id = host_id;
          interface = n.interface;
          bytes_sent = n.bytes_sent;
          bytes_recv = n.bytes_recv;
          packets_sent = n.packets_sent;
          packets_recv = n.packets_recv;
        })
        m.networks;
}

module _ (float32 : Float64 → Float32) (host_id : String) (m : Metrics) where
  pub http_rows-collected :
      http_rows float32 host_id (payload m) ≡ collected "default" float32 host_id m
  http_rows-collected = refl

  pub grpc_rows-collected :
      grpc_rows float32 host_id (to_proto m) ≡ collected "grpc" float32 host_id m
  grpc_rows-collected =
      let (agent, disks, nets) = grpc_stores_http float32 host_id m in rw (agent, disks, nets) refl
