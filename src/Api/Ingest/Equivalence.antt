-- ===== src/Api/Ingest/Equivalence.antt =====
-- The two endpoints store the same, and the way through the broker stores what the direct one does.
use bangmod_monitor.Prelude.{
  String, Bool, true, false, ◌≡◌, refl, sym, ap, ap₂, ◌∙◌, Option, some, List, [], ◌∷◌, ◌++◌, map,
  arith, append-nil,
}
use bangmod_monitor.Prelude.Int.{ℤ, pos, negsuc, to_uint, to_int}
use bangmod_monitor.Prelude.Float.{Float64, Float32}
use bangmod_monitor.Prelude.Json.{Bytes}
use bangmod_monitor.Agent.Metrics.{Metrics}
use bangmod_monitor.Agent.Convert.{to_proto}
use bangmod_monitor.Api.Ingest.{
  Env, State, AgentMetrics, Rows, http_message, http_rows, grpc_rows, store, store_disks,
  store_nets, handle,
}
use bangmod_monitor.Clickhouse.{
  Tables, DiskRow, NetRow, insert_agent_metric, insert_disk_metrics, insert_net_metrics,
}
use bangmod_monitor.Mq.{AgentMetricMsg, publish, topic_agent_metrics}
use bangmod_monitor.Consumer

-- Narrowing to 32 bits first makes no difference to the low 8 bits.
to_uint-to_int : (x : ℤ) → to_uint 8 (to_int 32 x) ≡ to_uint 8 x
to_uint-to_int (pos n) = ground arith
to_uint-to_int (negsuc n) = ground arith

-- What the handler decodes of the JSON of a collection: the fields that it declares.
abbrev pub payload : Metrics → AgentMetrics
payload m = record {
  timestamp = m.timestamp;
  hostname = m.hostname;
  cpu = m.cpu;
  memory = m.memory;
  disks = m.disks;
  networks = m.networks;
}

pub map_parts {ℓ κ μ} :
    {A : Type ℓ} {B : Type κ} {C : Type μ} (f : B → C) (g : A → B) (h : A → C) (xs : List A)
    → ((x : A) → f (g x) ≡ h x)
    → map f (map g xs) ≡ map h xs
map_parts f g h [] e = refl
map_parts f g h (x ∷ xs) e = ap₂ ◌∷◌ (e x) (map_parts f g h xs e)

-- The rows of a collection do not depend on the protocol that carried it but for the region: what
-- the gRPC method would store of the message of a collection is what the HTTP handler would store
-- of the collection, with "grpc" for "default".
pub grpc_stores_http :
    (float32 : Float64 → Float32) (host_id : String) (m : Metrics)
    → let h = http_rows float32 host_id (payload m) in
      let g = grpc_rows float32 host_id (to_proto m) in
      (g.agent ≡ record (h.agent) { region = "grpc" }) × (g.disks ≡ h.disks) × (g.nets ≡ h.nets)
unfolding to_proto
grpc_stores_http float32 host_id m = (
  ap
      (λ n. record {
        timestamp = m.timestamp;
        host_id = host_id;
        hostname = m.hostname;
        region = "grpc";
        cpu_percent = float32 m.cpu.usage_percent;
        cpu_cores = n;
        mem_total = m.memory.total_bytes;
        mem_used = m.memory.used_bytes;
        mem_percent = float32 m.memory.usage_percent;
      })
      (to_uint-to_int m.cpu.cores),
  map_parts _ _ _ m.disks (λ d. refl),
  map_parts _ _ _ m.networks (λ n. refl),
)

store_disks_all :
    (rows : List DiskRow) (t : Tables)
    → store_disks false rows t ≡ record t { disk_metrics = t.disk_metrics ++ rows }
unfolding insert_disk_metrics
store_disks_all [] t = simp append-nil
store_disks_all (r ∷ rows) t = refl

store_nets_all :
    (rows : List NetRow) (t : Tables)
    → store_nets false rows t ≡ record t { net_metrics = t.net_metrics ++ rows }
unfolding insert_net_metrics
store_nets_all [] t = simp append-nil
store_nets_all (r ∷ rows) t = refl

-- The tables with the rows of one request.
abbrev pub with_rows : Rows → Tables → Tables
with_rows r t = record t {
  agent_metrics = t.agent_metrics ++ r.agent ∷ [];
  disk_metrics = t.disk_metrics ++ r.disks;
  net_metrics = t.net_metrics ++ r.nets;
}

-- No insert fails.
pub record IsStored (e : Env) : Type 0 where
  pub agent : e.agent_fails ≡ false
  pub disk : e.disk_fails ≡ false
  pub net : e.net_fails ≡ false

pub store_tables :
    (e : Env) (host_id : String) (msg : AgentMetricMsg) (r : Rows) (s : State)
    → IsStored e
    → s.producer.enabled ≡ false
    → store e host_id msg r s ≡ some (record s { tables = with_rows r s.tables })
unfolding store insert_agent_metric
store_tables e host_id msg r s ok off =
    simp (off, ok.agent, ok.disk, ok.net, store_disks_all, store_nets_all)

-- The state with the producer enabled or not, as NewProducer leaves it.
abbrev pub with_producer : Bool → State → State
with_producer enabled s = record s { producer = record s.producer { enabled = enabled } }

-- A message that decodes, then a tick: the worker stores its rows.
consumed :
    (unmarshal : Bytes → Option AgentMetricMsg) (value : Bytes) (msg : AgentMetricMsg) (t : Tables)
    (committed : List Bytes)
    → unmarshal value ≡ some msg
    → (Consumer.run unmarshal Consumer.agent_batch Consumer.flush
        (Consumer.message value Consumer.smooth ∷ Consumer.tick Consumer.smooth ∷ [])
        (record {
          batch = [];
          tables = t;
          committed = committed;
          status = Consumer.running;
        })).tables
      ≡ record t {
        agent_metrics = t.agent_metrics ++ Consumer.agent_row msg ∷ [];
        disk_metrics = t.disk_metrics ++ (Consumer.disk_rows msg ++ []);
        net_metrics = t.net_metrics ++ (Consumer.net_rows msg ++ []);
      }
unfolding Consumer.run Consumer.flush
consumed unmarshal value msg t committed u = rw u refl

-- A request that finds the producer enabled, whose write the broker accepts, hands over the text
-- of its message, under the host's key, and writes no table.
published :
    (e : Env) (host_id : String) (m : AgentMetrics) (s : State) (value : Bytes)
    → e.write_fails ≡ false
    → s.producer.enabled ≡ true
    → e.marshal (http_message e.float32 host_id m) ≡ some value
    → (handle e host_id (some m) s).1.producer.broker
      ≡ s.producer.broker
        ++ (record { topic = topic_agent_metrics; key = host_id; value = value }) ∷ []
unfolding handle store publish
published e host_id m s value ok on text = simp (ok, on, text)

-- The way through the broker stores what the direct way does. Where the producer is enabled and
-- the broker accepts the write, an HTTP request hands the text of its message to the broker. If
-- that text decodes to the message, the worker that fetches it and then meets a tick stores the
-- same tables as the request with the producer disabled, while no insert fails.
pub broker_stores_direct :
    (unmarshal : Bytes → Option AgentMetricMsg) (e : Env) (host_id : String) (m : AgentMetrics)
    (s : State) (value : Bytes) (committed : List Bytes)
    → IsStored e
    → e.write_fails ≡ false
    → e.marshal (http_message e.float32 host_id m) ≡ some value
    → unmarshal value ≡ some (http_message e.float32 host_id m)
    → let w =
        Consumer.run unmarshal Consumer.agent_batch Consumer.flush
          (Consumer.message value Consumer.smooth ∷ Consumer.tick Consumer.smooth ∷ [])
          (record {
            batch = [];
            tables = s.tables;
            committed = committed;
            status = Consumer.running;
          }) in
      ((handle e host_id (some m) (with_producer true s)).1.producer.broker
        ≡ s.producer.broker
          ++ (record { topic = topic_agent_metrics; key = host_id; value = value }) ∷ [])
      × ((handle e host_id (some m) (with_producer false s)).1.tables ≡ w.tables)
unfolding handle
broker_stores_direct unmarshal e host_id m s value committed ok written text decodes = (
  published e host_id m (with_producer true s) value written refl text,
  rw
      (store_tables e host_id (http_message e.float32 host_id m) (http_rows e.float32 host_id m)
        (with_producer false s) ok refl)
      (sym (
        consumed unmarshal value (http_message e.float32 host_id m) s.tables committed decodes
        ∙ ap₂
            (λ ds ns. record s.tables {
              agent_metrics = s.tables.agent_metrics ++ (http_rows e.float32 host_id m).agent ∷ [];
              disk_metrics = s.tables.disk_metrics ++ ds;
              net_metrics = s.tables.net_metrics ++ ns;
            })
            (append-nil _ ∙ map_parts _ _ _ m.disks (λ d. refl))
            (append-nil _ ∙ map_parts _ _ _ m.networks (λ n. refl)))),
)
