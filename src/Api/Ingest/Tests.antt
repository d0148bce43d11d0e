-- ===== src/Api/Ingest/Tests.antt =====
-- The theorems on the ways of a collection at one collection.
use bangmod_monitor.Prelude.{true, false, Option, some, [], ◌∷◌, ◌≡◌, refl}
use bangmod_monitor.Prelude.Int.{pos}
use bangmod_monitor.Prelude.Float.{Float64, Float32}
use bangmod_monitor.Prelude.Json.{Bytes}
use bangmod_monitor.Agent.Metrics.{Metrics}
use bangmod_monitor.Agent.Convert.{to_proto}
use bangmod_monitor.Api.Ingest.{Env, State, http_message, http_rows, grpc_rows, handle}
use bangmod_monitor.Api.Ingest.Equivalence.{
  payload, with_producer, grpc_stores_http, broker_stores_direct,
}
use bangmod_monitor.Mq.{AgentMetricMsg, topic_agent_metrics}
use bangmod_monitor.Consumer

abbrev collection : Metrics
collection = record {
  timestamp = pos 1000;
  hostname = "web";
  cpu = record { usage_percent = 7; cores = pos 4 };
  memory = record { total_bytes = 100; used_bytes = 50; usage_percent = 9 };
  disks = (record { path = "/"; total_bytes = 10; used_bytes = 5; usage_percent = 3 }) ∷ [];
  networks =
      (record {
        interface = "eth0";
        bytes_sent = 1;
        bytes_recv = 2;
        packets_sent = 3;
        packets_recv = 4;
      })
      ∷ [];
  apps = record {
    nginx = true;
    apache = false;
    mysql = false;
    mariadb = false;
    postgresql = false;
  };
  processes = [];
}

abbrev narrow : Float64 → Float32
narrow x = x

grpc_stores_http_example :
    let h = http_rows narrow "h1" (payload collection) in
    let g = grpc_rows narrow "h1" (to_proto collection) in
    (g.agent ≡ record (h.agent) { region = "grpc" }) × (g.disks ≡ h.disks) × (g.nets ≡ h.nets)
grpc_stores_http_example = grpc_stores_http narrow "h1" collection

abbrev text : Bytes
text = 123 ∷ 125 ∷ []

abbrev env : Env
env = record {
  agent_fails = false;
  disk_fails = false;
  net_fails = false;
  write_fails = false;
  marshal = λ msg. some text;
  float32 = narrow;
}

abbrev decode : Bytes → Option AgentMetricMsg
decode b = some (http_message narrow "h1" (payload collection))

abbrev start : State
start = record {
  tables = record { agent_metrics = []; disk_metrics = []; net_metrics = []; probe_results = [] };
  producer = record { enabled = false; broker = [] };
}

broker_stores_direct_example :
    let w =
      Consumer.run decode Consumer.agent_batch Consumer.flush
        (Consumer.message text Consumer.smooth ∷ Consumer.tick Consumer.smooth ∷ [])
        (record { batch = []; tables = start.tables; committed = []; status = Consumer.running }) in
    ((handle env "h1" (some (payload collection)) (with_producer true start)).1.producer.broker
      ≡ (record { topic = topic_agent_metrics; key = "h1"; value = text }) ∷ [])
    × ((handle env "h1" (some (payload collection)) (with_producer false start)).1.tables
        ≡ w.tables)
broker_stores_direct_example =
    broker_stores_direct decode env "h1" (payload collection) start text []
      (record { agent = refl; disk = refl; net = refl }) refl refl refl
