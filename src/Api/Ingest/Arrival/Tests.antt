-- ===== src/Api/Ingest/Arrival/Tests.antt =====
-- The theorems on the ways to the tables at a log of one collection.
use bangmod_monitor.Prelude.{true, false, ◌≡◌, refl, Option, some, none, List, [], ◌∷◌, ◌++◌, All}
use bangmod_monitor.Prelude.Text.{concat}
use bangmod_monitor.Prelude.Json.{Bytes}
use bangmod_monitor.Agent.Convert.{to_proto}
use bangmod_monitor.Agent.Wal.Queue.{Holds, latest}
use bangmod_monitor.Agent.Cycle.{cycle}
use bangmod_monitor.Api.Ingest.Arrival.Collected.{collected}
use bangmod_monitor.Api.Ingest.Arrival.Sample.{collection, codec, agent, agent-Holds, sunny}
use bangmod_monitor.Api.Cache.{get}
use bangmod_monitor.Api.Store.Hosts.{HostRow, host_by_hash}
use bangmod_monitor.Api.Agents
use bangmod_monitor.Api.Agents.Known.{Knows}
use bangmod_monitor.Api.Ingest.{Env, State, grpc_message}
use bangmod_monitor.Api.Ingest.Pipeline.{rows_of, metrics_arrive}
use bangmod_monitor.Mq.{Message, AgentMetricMsg}
use bangmod_monitor.Consumer
use bangmod_monitor.Consumer.{Worker, running, agent_batch, flush}
use bangmod_monitor.Consumer.Delivery.{fetched, then_tick}
use bangmod_monitor.Api.Ingest.Arrival.{IsAccepted, serve_all, with_collections, cycle_arrives}

abbrev agents_env : Agents.Env
agents_env = record {
  db_fails = λ op. false;
  get_fails = false;
  set_fails = false;
  sha256 = λ t. concat "hash-" t;
  random = none;
  uuid = "u";
  now = 1000;
}

abbrev host : HostRow
host = record {
  id = "h1";
  org_id = some "o1";
  name = "web";
  token_hash = "hash-t";
  region = "th";
  created_at = 900;
}

abbrev agents : Agents.State
agents = record {
  maria = record {
    orgs = [];
    users = [];
    hosts = host ∷ [];
    plans = [];
    subscriptions = [];
    org_regions = [];
    invoices = [];
  };
  cache = record { redis = []; enabled = false };
}

agents-Knows : Knows agents_env "t" "h1" "o1" agents
unfolding host_by_hash get
agents-Knows = record { coherent = λ hash host_id org_id h. cc; plain = (refl, tt); found = refl }

abbrev env : Env
env = record {
  agent_fails = false;
  disk_fails = false;
  net_fails = false;
  write_fails = false;
  marshal = λ msg. none;
  float32 = λ x. x;
}

abbrev start : State
start = record {
  tables = record { agent_metrics = []; disk_metrics = []; net_metrics = []; probe_results = [] };
  producer = record { enabled = false; broker = [] };
}

cycle_arrives_example :
    let sent = latest 2000 (collection ∷ []) ++ collection ∷ [] in
    ((cycle codec sunny collection agent).delivered ≡ [] ++ sent)
    × Holds codec (cycle codec sunny collection agent).file []
    × All IsAccepted (serve_all agents_env env "t" sent agents start).0
    × ((serve_all agents_env env "t" sent agents start).2.tables
        ≡ with_collections (collected "grpc" (λ x. x) "h1") sent start.tables)
cycle_arrives_example =
    cycle_arrives codec sunny collection agent (collection ∷ []) agents_env env "t" "h1" "o1" agents
      start (λ n. refl) refl agent-Holds refl refl
      (record { agent = refl; disk = refl; net = refl }) agents-Knows refl

abbrev message_read : Bytes → Option AgentMetricMsg
message_read b = some (grpc_message (λ x. x) "h1" (to_proto collection))

abbrev brokered : State
brokered = record start { producer = record { enabled = true; broker = [] } }

abbrev idle : Worker AgentMetricMsg
idle = record { batch = []; tables = start.tables; committed = []; status = running }

metrics_arrive_example :
    let sent = collection ∷ collection ∷ [] in
    (new : List Message) × All IsAccepted (serve_all agents_env env "t" sent agents brokered).0
    × ((serve_all agents_env env "t" sent agents brokered).2.tables ≡ brokered.tables)
    × ((serve_all agents_env env "t" sent agents brokered).2.producer.broker ≡ [] ++ new)
    × (let w' = Consumer.run message_read agent_batch flush (then_tick (fetched new)) idle in
        (w'.status ≡ running)
        × (w'.tables.agent_metrics
            ≡ (with_collections (rows_of env "h1") sent idle.tables).agent_metrics)
        × (w'.tables.disk_metrics
            ≡ (with_collections (rows_of env "h1") sent idle.tables).disk_metrics)
        × (w'.tables.net_metrics
            ≡ (with_collections (rows_of env "h1") sent idle.tables).net_metrics))
metrics_arrive_example =
    metrics_arrive agents_env env "t" "h1" "o1" (collection ∷ collection ∷ []) agents brokered
      message_read idle refl refl refl agents-Knows refl (refl, (refl, tt)) refl refl
