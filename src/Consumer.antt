-- ===== src/Consumer.antt =====
-- consumer/worker/agent.go and probe.go: the workers that move the messages of a topic into the
-- tables. One round of the loop is one event: what the `select` took and what the calls in it
-- answered. A panic ends the process, the other worker with it. The rows of a batch are appended
-- without an error, whose result the program drops.
pub mod Config
pub mod Batches
pub mod Conservation
pub mod Delivery
pub mod Process
mod Tests
use bangmod_monitor.Prelude.{
  ℕ, suc, ◌+◌, String, Bool, true, false, not, ◌||◌, Option, none, some, List, [], ◌∷◌, ◌++◌, map,
  leb, length, flat_map, if◌then◌else◌,
}
use bangmod_monitor.Prelude.Json.{Bytes}
use bangmod_monitor.Clickhouse.{Tables, AgentMetricRow, DiskRow, NetRow, ProbeRow}
use bangmod_monitor.Mq.{AgentMetricMsg, DiskMsg, NetMsg, ProbeResultMsg}

-- What one call of `flush` meets: which batches cannot be prepared, and which not sent.
pub record Flush : Type 0 where
  pub agent_prepare_fails : Bool
  pub disk_prepare_fails : Bool
  pub net_prepare_fails : Bool
  pub agent_send_fails : Bool
  pub disk_send_fails : Bool
  pub net_send_fails : Bool

abbrev pub smooth : Flush
smooth = record {
  agent_prepare_fails = false;
  disk_prepare_fails = false;
  net_prepare_fails = false;
  agent_send_fails = false;
  disk_send_fails = false;
  net_send_fails = false;
}

-- The tables after a call, and whether it panics.
pub record Flushed : Type 0 where
  pub tables : Tables
  pub panics : Bool

abbrev pub agent_row : AgentMetricMsg → AgentMetricRow
agent_row m = record {
  timestamp = m.timestamp;
  host_id = m.host_id;
  hostname = m.hostname;
  region = m.region;
  cpu_percent = m.cpu_percent;
  cpu_cores = m.cpu_cores;
  mem_total = m.mem_total;
  mem_used = m.mem_used;
  mem_percent = m.mem_percent;
}

abbrev disk_row : AgentMetricMsg → DiskMsg → DiskRow
disk_row m d = record {
  timestamp = m.timestamp;
  host_id = m.host_id;
  path = d.path;
  total_bytes = d.total_bytes;
  used_bytes = d.used_bytes;
  use_pct = d.use_pct;
}

abbrev net_row : AgentMetricMsg → NetMsg → NetRow
net_row m n = record {
  timestamp = m.timestamp;
  host_id = m.host_id;
  interface = n.interface;
  bytes_sent = n.bytes_sent;
  bytes_recv = n.bytes_recv;
  packets_sent = n.packets_sent;
  packets_recv = n.packets_recv;
}

abbrev pub disk_rows : AgentMetricMsg → List DiskRow
disk_rows m = map (disk_row m) m.disks

abbrev pub net_rows : AgentMetricMsg → List NetRow
net_rows m = map (net_row m) m.networks

abbrev is_nil {ℓ} : {A : Type ℓ} → List A → Bool
is_nil [] = true
is_nil (x ∷ xs) = false

-- The three sends, in their order. A batch that was not prepared is a nil interface, whose
-- methods panic.
abbrev send_batches : Flush → List AgentMetricMsg → Tables → Flushed
send_batches f batch t =
    let t1 =
      (if f.agent_send_fails
        then t
        else record t { agent_metrics = t.agent_metrics ++ map agent_row batch }) in
    let t2 =
      (if f.disk_send_fails
        then t1
        else record t1 { disk_metrics = t1.disk_metrics ++ flat_map disk_rows batch }) in
    let t3 =
      (if f.net_send_fails
        then t2
        else record t2 { net_metrics = t2.net_metrics ++ flat_map net_rows batch }) in
    if f.disk_prepare_fails
    then record { tables = t1; panics = true }
    else if f.net_prepare_fails
    then record { tables = t2; panics = true }
    else record { tables = t3; panics = false }

-- The loop over the batch panics where a row has to go into a batch that was not prepared.
abbrev append_panics : Flush → List AgentMetricMsg → Bool
append_panics f batch =
    (if f.disk_prepare_fails then not (is_nil (flat_map disk_rows batch)) else false)
    || (if f.net_prepare_fails then not (is_nil (flat_map net_rows batch)) else false)

-- AgentWorker.flush
unfoldable pub flush : Flush → List AgentMetricMsg → Tables → Flushed
flush f [] t = record { tables = t; panics = false }
flush f (m ∷ batch) t =
    if f.agent_prepare_fails
    then record { tables = t; panics = false }
    else if append_panics f (m ∷ batch)
    then record { tables = t; panics = true }
    else send_batches f (m ∷ batch) t

abbrev pub probe_row : ProbeResultMsg → ProbeRow
probe_row m = record {
  timestamp = m.timestamp;
  host_id = m.host_id;
  target_url = m.target_url;
  region = m.region;
  status_code = m.status_code;
  response_ms = m.response_ms;
  is_up = m.is_up;
}

-- ProbeWorker.flush; its two failures are those of the agent's batch.
pub flush_probes : Flush → List ProbeResultMsg → Tables → Flushed
flush_probes f [] t = record { tables = t; panics = false }
flush_probes f (m ∷ batch) t =
    if f.agent_prepare_fails || f.agent_send_fails
    then record { tables = t; panics = false }
    else record {
      tables = record t { probe_results = t.probe_results ++ map probe_row (m ∷ batch) };
      panics = false;
    }

-- One round of the loop of `Run`. `fetch_error` says whether the context was cancelled.
pub data Event : Type 0 where
  done : Flush → Event
  tick : Flush → Event
  fetch_error : Bool → Event
  -- the value of the message, and what a flush meets if the batch is full
  message : Bytes → Flush → Event

pub data Status : Type 0 where
  running stopped crashed : Status

pub record Worker (M : Type 0) : Type 0 where
  pub batch : List M
  pub tables : Tables
  -- the values committed to the broker
  pub committed : List Bytes
  pub status : Status

module _ {M : Type 0} where
  abbrev after_flush : Worker M → Flushed → Worker M
  after_flush w r =
      if r.panics
      then record w { tables = r.tables; status = crashed }
      else record w { batch = []; tables = r.tables }

  abbrev commit_at : Status → Bytes → Worker M → Worker M
  commit_at running value w = record w { committed = w.committed ++ value ∷ [] }
  commit_at stopped value w = w
  commit_at crashed value w = w

  abbrev commit : Bytes → Worker M → Worker M
  commit value w = commit_at w.status value w

  abbrev stop_at : Status → Worker M → Worker M
  stop_at running w = record w { status = stopped }
  stop_at stopped w = w
  stop_at crashed w = w

  abbrev stop : Worker M → Worker M
  stop w = stop_at w.status w

-- The loop, which both workers share but for the type of the messages, the size of a full batch
-- and the flush.
module _ {M : Type 0} (unmarshal : Bytes → Option M) (full : ℕ)
    (write : Flush → List M → Tables → Flushed) where
  abbrev take : Bytes → Flush → Option M → Worker M → Worker M
  take value f none w = commit value w
  take value f (some m) w =
      let grown = record w { batch = w.batch ++ m ∷ [] } in
      commit value (
        if leb full (length grown.batch)
        then after_flush grown (write f grown.batch grown.tables)
        else grown)

  abbrev handle : Event → Worker M → Worker M
  handle (done f) w = stop (after_flush w (write f w.batch w.tables))
  handle (tick f) w = after_flush w (write f w.batch w.tables)
  handle (fetch_error true) w = record w { status = stopped }
  handle (fetch_error false) w = w
  handle (message value f) w = take value f (unmarshal value) w

  abbrev step_at : Status → Event → Worker M → Worker M
  step_at running e w = handle e w
  step_at stopped e w = w
  step_at crashed e w = w

  -- Nothing is done once the loop has returned or the process is gone.
  pub step : Event → Worker M → Worker M
  step e w = step_at w.status e w

  unfoldable pub run : List Event → Worker M → Worker M
  unfolding step
  run [] w = w
  run (e ∷ es) w = run es (step e w)

abbrev pub agent_batch : ℕ
agent_batch = 200

abbrev pub probe_batch : ℕ
probe_batch = 100
