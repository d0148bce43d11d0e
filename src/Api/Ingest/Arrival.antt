-- ===== src/Api/Ingest/Arrival.antt =====
-- From an agent's log to the tables: what a cycle sends over gRPC, and what the server makes of it.
pub mod Sample
pub mod Collected
use Collected.{collected, grpc_rows-collected}
mod Tests
use bangmod_monitor.Prelude.{
  ℕ, String, Bool, true, false, ◌≡◌, refl, sym, ap, ap₂, ◌∙◌, Option, none, some, List, [], ◌∷◌,
  ◌++◌, map, flat_map, All, append_assoc, append-nil,
}
use bangmod_monitor.Prelude.Float.{Float64, Float32}
use bangmod_monitor.Prelude.Json.{Codec}
use bangmod_monitor.Prelude.Text.{is_empty}
use bangmod_monitor.Agent.Metrics.{Metrics}
use bangmod_monitor.Agent.Convert.{to_proto}
use bangmod_monitor.Agent.Sender.{send_grpc}
use bangmod_monitor.Agent.Wal.{healthy}
use bangmod_monitor.Agent.Wal.Queue.{Holds, latest}
use bangmod_monitor.Agent.Cycle
use bangmod_monitor.Agent.Cycle.{Weather, cycle}
use bangmod_monitor.Agent.Cycle.Delivery.{cycle_up}
use bangmod_monitor.Api.Store.{validate_token}
use bangmod_monitor.Api.Agents
use bangmod_monitor.Api.Agents.{check_token}
use bangmod_monitor.Api.Agents.Known.{Knows, check_token-Knows}
use bangmod_monitor.Api.Ingest.{
  Env, State, Rows, grpc_rows, grpc_message, store, GrpcReply, response, unauthenticated, internal,
  ingest_metrics,
}
use bangmod_monitor.Api.Ingest.Equivalence.{IsStored, with_rows, store_tables}
use bangmod_monitor.Clickhouse.{Tables}
use bangmod_monitor.Proto

-- The answer as the agent's sender gets it
abbrev answer_of : GrpcReply → Option Bool
answer_of (response r) = some r.ok
answer_of (unauthenticated text) = none
answer_of internal = none

abbrev pub IsAccepted : GrpcReply → Type 0
IsAccepted r = send_grpc (answer_of r) ≡ true

abbrev pub request : String → Metrics → Proto.IngestRequest
request token m = record { token = token; metrics = some (to_proto m) }

-- The server's answers to one send after another, and its state after them
abbrev pub serve_all :
    Agents.Env
    → Env
    → String
    → List Metrics
    → Agents.State
    → State
    → List GrpcReply × Agents.State × State
serve_all ae e token [] a s = ([], a, s)
serve_all ae e token (m ∷ ms) a s =
    let (r, a', s') = ingest_metrics ae e (request token m) a s in
    let (rs, a'', s'') = serve_all ae e token ms a' s' in (r ∷ rs, a'', s'')

-- The tables with the rows of the collections behind what they held
abbrev pub with_collections : (Metrics → Rows) → List Metrics → Tables → Tables
with_collections rows ms t = record t {
  agent_metrics = t.agent_metrics ++ map (λ m. (rows m).agent) ms;
  disk_metrics = t.disk_metrics ++ flat_map (λ m. (rows m).disks) ms;
  net_metrics = t.net_metrics ++ flat_map (λ m. (rows m).nets) ms;
}

pub with_collections-cons :
    (rows : Metrics → Rows) (m : Metrics) (ms : List Metrics) (t : Tables)
    → with_collections rows ms (with_rows (rows m) t) ≡ with_collections rows (m ∷ ms) t
with_collections-cons rows m ms t = simp append_assoc

pub with_collections-same :
    (rows rows' : Metrics → Rows) (ms : List Metrics) (t : Tables)
    → ((m : Metrics) → rows m ≡ rows' m)
    → with_collections rows ms t ≡ with_collections rows' ms t
with_collections-same rows rows' ms t same = λ i. with_collections (λ m. same m i) ms t

module _ (ae : Agents.Env) (e : Env) (token host_id org_id : String)
    (filled : is_empty token ≡ false) (answers : ae.db_fails validate_token ≡ false)
    (ok : IsStored e) where
  abbrev rows_of : Metrics → Rows
  rows_of m = grpc_rows e.float32 host_id (to_proto m)

  served_one :
      (m : Metrics) (a : Agents.State) (s : State)
      → Knows ae token host_id org_id a
      → s.producer.enabled ≡ false
      → ingest_metrics ae e (request token m) a s ≡ (
        response (record { ok = true; message = "stored" }),
        (check_token ae token a).0,
        record s { tables = with_rows (rows_of m) s.tables },
      )
  unfolding ingest_metrics
  served_one m a s k off =
      let (known, _) = check_token-Knows ae token a host_id org_id k answers in
      rw
        (
          filled,
          known,
          store_tables e host_id (grpc_message e.float32 host_id (to_proto m)) (rows_of m) s ok off,
        )
        refl

  served_rows :
      (ms : List Metrics) (a : Agents.State) (s : State)
      → Knows ae token host_id org_id a
      → s.producer.enabled ≡ false
      → All IsAccepted (serve_all ae e token ms a s).0
        × ((serve_all ae e token ms a s).2.tables ≡ with_collections rows_of ms s.tables)
  unfolding send_grpc
  served_rows [] a s k off = (tt, simp append-nil)
  served_rows (m ∷ ms) a s k off =
      let (_, still) = check_token-Knows ae token a host_id org_id k answers in
      let (fine, stored) =
        served_rows ms (check_token ae token a).0
          (record s { tables = with_rows (rows_of m) s.tables }) still off in
      rw (served_one m a s k off)
        ((refl, fine), stored ∙ with_collections-cons rows_of m ms s.tables)

-- What an agent had to keep arrives with its next cycle. While the network is up, the agent's disk
-- healthy and its log holds entries, and where the server's table knows the agent's token, its
-- cache does not contradict the table, no id of a host has a colon, it writes to ClickHouse itself
-- and no statement of it fails:
-- a cycle over gRPC sends the last 2000 entries of the log at most and then the new
-- collection, and leaves the log empty; the server accepts each of these sends, and its tables are
-- what they were, followed by the rows of these collections in their order, under the host of the
-- token.
pub cycle_arrives :
    (codec : Codec Metrics) (w : Weather) (m : Metrics) (agent : Cycle.State Metrics)
    (log : List Metrics) (ae : Agents.Env) (e : Env) (token host_id org_id : String)
    (a : Agents.State) (s : State)
    → ((n : ℕ) → w.accepts n ≡ true)
    → w.at_drain ≡ healthy
    → Holds codec agent.file log
    → is_empty token ≡ false
    → ae.db_fails validate_token ≡ false
    → IsStored e
    → Knows ae token host_id org_id a
    → s.producer.enabled ≡ false
    → let sent = latest 2000 log ++ m ∷ [] in
      ((cycle codec w m agent).delivered ≡ agent.delivered ++ sent)
      × Holds codec (cycle codec w m agent).file []
      × All IsAccepted (serve_all ae e token sent a s).0
      × ((serve_all ae e token sent a s).2.tables
          ≡ with_collections (collected "grpc" e.float32 host_id) sent s.tables)
cycle_arrives codec w m agent log ae e token host_id org_id a s up calm holds filled answers ok k
      off =
    let (delivered, empty) = cycle_up codec w up m agent log calm holds in
    let (fine, stored) =
      served_rows ae e token host_id org_id filled answers ok (latest 2000 log ++ m ∷ []) a s k
        off in
    (
      delivered ∙ append_assoc agent.delivered (latest 2000 log) (m ∷ []),
      empty,
      fine,
      stored
          ∙ with_collections-same _ _ (latest 2000 log ++ m ∷ []) s.tables
              (grpc_rows-collected e.float32 host_id),
    )
