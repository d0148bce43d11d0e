-- ===== src/Api/Ingest.antt =====
-- api/handler/ingest.go and the method IngestMetrics of api/grpcserver/server.go: what becomes of
-- the metrics of an agent. The narrowing of a float is an argument.
mod Parts
pub mod Equivalence
pub mod Arrival
pub mod Pipeline
mod Tests
pub use Parts.{msg_disk, msg_net, disk_row, net_row, Rows}
use bangmod_monitor.Prelude.{
  ℕ, String, Bool, true, false, Option, none, some, List, [], ◌∷◌, map, if◌then◌else◌,
}
use bangmod_monitor.Prelude.Int.{ℤ, to_uint}
use bangmod_monitor.Prelude.Float.{Float64, Float32}
use bangmod_monitor.Prelude.Json.{Bytes}
use bangmod_monitor.Prelude.Text.{is_empty}
use bangmod_monitor.Agent.Metrics.{CpuMetric, MemMetric, DiskMetric, NetMetric}
use bangmod_monitor.Api.Http.{Reply, answer, refuse, broken}
use bangmod_monitor.Api.Agents
use bangmod_monitor.Api.Agents.{check_token}
use bangmod_monitor.Clickhouse.{
  Tables, insert_agent_metric, insert_disk_metrics, insert_net_metrics, AgentMetricRow, DiskRow,
  NetRow,
}
use bangmod_monitor.Mq.{AgentMetricMsg, Producer, publish, marshal_or_empty, topic_agent_metrics}
use bangmod_monitor.Proto

-- What the environment answers while one request is stored.
pub record Env : Type 0 where
  pub agent_fails : Bool
  pub disk_fails : Bool
  pub net_fails : Bool
  pub write_fails : Bool
  pub marshal : AgentMetricMsg → Option Bytes
  pub float32 : Float64 → Float32

pub record State : Type 0 where
  pub tables : Tables
  pub producer : Producer

-- `agentMetrics` of the handler; its parts have the fields of the collector's.
pub record AgentMetrics : Type 0 where
  pub timestamp : ℤ
  pub hostname : String
  pub cpu : CpuMetric
  pub memory : MemMetric
  pub disks : List DiskMetric
  pub networks : List NetMetric

abbrev pub http_message : (Float64 → Float32) → String → AgentMetrics → AgentMetricMsg
http_message float32 host_id m = record {
  timestamp = m.timestamp;
  host_id = host_id;
  hostname = m.hostname;
  region = "default";
  cpu_percent = float32 m.cpu.usage_percent;
  cpu_cores = to_uint 8 m.cpu.cores;
  mem_total = m.memory.total_bytes;
  mem_used = m.memory.used_bytes;
  mem_percent = float32 m.memory.usage_percent;
  disks = map (msg_disk float32) m.disks;
  networks = map msg_net m.networks;
}

abbrev pub http_rows : (Float64 → Float32) → String → AgentMetrics → Rows
http_rows float32 host_id m = record {
  agent = record {
    timestamp = m.timestamp;
    host_id = host_id;
    hostname = m.hostname;
    region = "default";
    cpu_percent = float32 m.cpu.usage_percent;
    cpu_cores = to_uint 8 m.cpu.cores;
    mem_total = m.memory.total_bytes;
    mem_used = m.memory.used_bytes;
    mem_percent = float32 m.memory.usage_percent;
  };
  disks = map (disk_row float32 m.timestamp host_id) m.disks;
  nets = map (net_row m.timestamp host_id) m.networks;
}

-- An empty batch is not sent.
abbrev store_disks : Bool → List DiskRow → Tables → Tables
store_disks fails [] t = t
store_disks fails (r ∷ rows) t = insert_disk_metrics fails (r ∷ rows) t

abbrev store_nets : Bool → List NetRow → Tables → Tables
store_nets fails [] t = t
store_nets fails (r ∷ rows) t = insert_net_metrics fails (r ∷ rows) t

-- The direct writes: an error of the parts' batches is dropped.
store_direct : Env → Rows → State → Option State
store_direct e r s =
    if e.agent_fails
    then none
    else some (record s {
      tables =
          store_nets e.net_fails r.nets
            (store_disks e.disk_fails r.disks (insert_agent_metric r.agent s.tables));
    })

-- The state after the request, or `none` where the row of the agent cannot be stored.
pub store : Env → String → AgentMetricMsg → Rows → State → Option State
unfolding store_direct
store e host_id msg r s =
    if s.producer.enabled
    then some (record s {
      producer =
          publish e.write_fails topic_agent_metrics host_id (marshal_or_empty e.marshal msg)
            s.producer;
    })
    else store_direct e r s

abbrev http_reply : State → Option State → Reply String × State
http_reply s none = (refuse 500 "store failed", s)
http_reply s (some s') = (answer 200 "ok", s')

-- IngestHandler.Handle; `none` is a body that does not decode.
unfoldable pub handle : Env → String → Option AgentMetrics → State → Reply String × State
unfolding store
handle e host_id none s = (broken 400, s)
handle e host_id (some m) s =
    http_reply s
      (store e host_id (http_message e.float32 host_id m) (http_rows e.float32 host_id m) s)

abbrev cpu_cores_of : Option Proto.CpuMetric → ℕ
cpu_cores_of none = 0
cpu_cores_of (some c) = to_uint 8 c.cores

abbrev cpu_percent_of : (Float64 → Float32) → Option Proto.CpuMetric → Float32
cpu_percent_of float32 none = 0
cpu_percent_of float32 (some c) = float32 c.usage_percent

abbrev mem_total_of : Option Proto.MemoryMetric → ℕ
mem_total_of none = 0
mem_total_of (some m) = m.total_bytes

abbrev mem_used_of : Option Proto.MemoryMetric → ℕ
mem_used_of none = 0
mem_used_of (some m) = m.used_bytes

abbrev mem_percent_of : (Float64 → Float32) → Option Proto.MemoryMetric → Float32
mem_percent_of float32 none = 0
mem_percent_of float32 (some m) = float32 m.usage_percent

abbrev metric_of_disk : Proto.DiskMetric → DiskMetric
metric_of_disk d = record {
  path = d.path;
  total_bytes = d.total_bytes;
  used_bytes = d.used_bytes;
  usage_percent = d.usage_percent;
}

abbrev metric_of_network : Proto.NetworkMetric → NetMetric
metric_of_network n = record {
  interface = n.interface;
  bytes_sent = n.bytes_sent;
  bytes_recv = n.bytes_recv;
  packets_sent = n.packets_sent;
  packets_recv = n.packets_recv;
}

abbrev pub grpc_message : (Float64 → Float32) → String → Proto.AgentMetrics → AgentMetricMsg
grpc_message float32 host_id m = record {
  timestamp = m.timestamp;
  host_id = host_id;
  hostname = m.hostname;
  region = "grpc";
  cpu_percent = cpu_percent_of float32 m.cpu;
  cpu_cores = cpu_cores_of m.cpu;
  mem_total = mem_total_of m.memory;
  mem_used = mem_used_of m.memory;
  mem_percent = mem_percent_of float32 m.memory;
  disks = map (λ d. msg_disk float32 (metric_of_disk d)) m.disks;
  networks = map (λ n. msg_net (metric_of_network n)) m.networks;
}

abbrev pub grpc_rows : (Float64 → Float32) → String → Proto.AgentMetrics → Rows
grpc_rows float32 host_id m = record {
  agent = record {
    timestamp = m.timestamp;
    host_id = host_id;
    hostname = m.hostname;
    region = "grpc";
    cpu_percent = cpu_percent_of float32 m.cpu;
    cpu_cores = cpu_cores_of m.cpu;
    mem_total = mem_total_of m.memory;
    mem_used = mem_used_of m.memory;
    mem_percent = mem_percent_of float32 m.memory;
  };
  disks = map (λ d. disk_row float32 m.timestamp host_id (metric_of_disk d)) m.disks;
  nets = map (λ n. net_row m.timestamp host_id (metric_of_network n)) m.networks;
}

-- The result of a gRPC method: a response, or a status.
pub data GrpcReply : Type 0 where
  response : Proto.IngestResponse → GrpcReply
  unauthenticated : String → GrpcReply
  internal : GrpcReply

abbrev grpc_reply : State → Option State → GrpcReply × State
grpc_reply s none = (internal, s)
grpc_reply s (some s') = (response (record { ok = true; message = "stored" }), s')

abbrev ingest_metrics_of : Env → String → Option Proto.AgentMetrics → State → GrpcReply × State
ingest_metrics_of e host_id none s = (response (record { ok = true; message = "" }), s)
ingest_metrics_of e host_id (some m) s =
    grpc_reply s
      (store e host_id (grpc_message e.float32 host_id m) (grpc_rows e.float32 host_id m) s)

abbrev ingest_as :
    Env
    → Proto.IngestRequest
    → Option (String × String)
    → Agents.State
    → State
    → GrpcReply × Agents.State × State
ingest_as e req none a s = (unauthenticated "invalid token", a, s)
ingest_as e req (some (host_id, _)) a s =
    let (r, s') = ingest_metrics_of e host_id req.metrics s in (r, a, s')

-- MetricsServer.IngestMetrics, over the tables and the cache of the tokens and those of the
-- metrics. It looks the token up as the middleware of the HTTP endpoint does.
unfoldable ingest_metrics :
    Agents.Env → Env → Proto.IngestRequest → Agents.State → State → GrpcReply × Agents.State × State
ingest_metrics a_env e req a s =
    let (a', found) = check_token a_env req.token a in
    if is_empty req.token
    then (unauthenticated "missing token", a, s)
    else ingest_as e req found a' s
