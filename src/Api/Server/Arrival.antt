-- ===== src/Api/Server/Arrival.antt =====
-- From an agent's log to the tables over HTTP: what a cycle posts, and what the server's routes
-- make of it.
use bangmod_monitor.Prelude.{
  ℕ, String, true, false, ◌≡◌, refl, sym, ap, subst, ◌∙◌, Option, some, List, [], ◌∷◌, ◌++◌, map,
  All, append_assoc, append-nil,
}
use bangmod_monitor.Prelude.Json.{Bytes, Codec}
use bangmod_monitor.Prelude.Text.{concat}
use bangmod_monitor.Agent.Metrics.{Metrics}
use bangmod_monitor.Agent.Sender.{send_http}
use bangmod_monitor.Agent.Wal.{healthy}
use bangmod_monitor.Agent.Wal.Queue.{Holds, latest}
use bangmod_monitor.Agent.Cycle
use bangmod_monitor.Agent.Cycle.{Weather, cycle}
use bangmod_monitor.Agent.Cycle.Delivery.{cycle_up}
use bangmod_monitor.Api.Http.{Reply, answer, refuse, broken, panics}
use bangmod_monitor.Api.Store.{validate_token}
use bangmod_monitor.Api.Agents.{check_token}
use bangmod_monitor.Api.Agents.Known.{Knows, bearer, check_token-Knows}
use bangmod_monitor.Api.Ingest.{AgentMetrics, Rows, http_rows, http_message, handle}
use bangmod_monitor.Api.Ingest.Equivalence.{IsStored, with_rows, store_tables}
use bangmod_monitor.Api.Ingest.Arrival.{
  with_collections, with_collections-cons, with_collections-same,
}
use bangmod_monitor.Api.Ingest.Arrival.Collected.{collected, http_rows-collected}
use bangmod_monitor.Api.Server.{
  World, Env, Request, agent_report, Response, ingested, agents_state, serve, serve_all,
}

-- The fields of a collection that the handler's type has
abbrev pub received : Metrics → AgentMetrics
received m = record {
  timestamp = m.timestamp;
  hostname = m.hostname;
  cpu = m.cpu;
  memory = m.memory;
  disks = m.disks;
  networks = m.networks;
}

-- The status that the sender reads
abbrev status : Reply String → ℕ
status (answer code body) = code
status (refuse code text) = code
status (broken code) = code
status panics = 500

abbrev pub IsAccepted : Response → Type 0
IsAccepted r =
    (reply : Reply String) × (r ≡ ingested reply) × (send_http (some (status reply)) ≡ true)

-- The posts of an agent as the route gets them; `decode` is the handler's binding of a body.
abbrev pub posts :
    Env
    → (Bytes → Option AgentMetrics)
    → (String → Metrics → Bytes)
    → String
    → List Metrics
    → List (Env × Request)
posts e decode encode token ms =
    map (λ m. (e, agent_report (concat "Bearer " token) (decode (encode token m)))) ms

-- The answers to the requests, one after another
abbrev pub answers : List (Env × Request) → World → List Response
answers [] w = []
answers ((e, r) ∷ rs) w = (serve e r w).0 ∷ answers rs (serve e r w).1

module _ (e : Env) (token host_id org_id : String) (db : e.agents.db_fails validate_token ≡ false)
    (ok : IsStored e.ingest) where
  abbrev rows_of : Metrics → Rows
  rows_of m = http_rows e.ingest.float32 host_id (received m)

  abbrev served : Metrics → World → World
  served m w =
      let s = (check_token e.agents token (agents_state w)).0 in
      record w { maria = s.maria; cache = s.cache; tables = with_rows (rows_of m) w.tables }

  served_one :
      (m : Metrics) (w : World)
      → Knows e.agents token host_id org_id (agents_state w)
      → w.producer.enabled ≡ false
      → serve e (agent_report (concat "Bearer " token) (some (received m))) w
        ≡ (ingested (answer 200 "ok"), served m w)
  unfolding serve handle
  served_one m w k off =
      let (known, _) = check_token-Knows e.agents token (agents_state w) host_id org_id k db in
      rw
        (
          bearer e.agents token (agents_state w),
          known,
          store_tables e.ingest host_id (http_message e.ingest.float32 host_id (received m))
              (rows_of m) (record { tables = w.tables; producer = w.producer }) ok off,
        )
        refl

  served_rows :
      (decode : Bytes → Option AgentMetrics) (encode : String → Metrics → Bytes) (ms : List Metrics)
      (w : World)
      → All (λ c. decode (encode token c) ≡ some (received c)) ms
      → Knows e.agents token host_id org_id (agents_state w)
      → w.producer.enabled ≡ false
      → All IsAccepted (answers (posts e decode encode token ms) w)
        × ((serve_all (posts e decode encode token ms) w).tables
            ≡ with_collections rows_of ms w.tables)
  unfolding serve_all send_http
  served_rows decode encode [] w h k off = (tt, simp append-nil)
  served_rows decode encode (m ∷ ms) w (p, h) k off =
      let (_, still) = check_token-Knows e.agents token (agents_state w) host_id org_id k db in
      let (fine, stored) = served_rows decode encode ms (served m w) h still off in
      let one = served_one m w k off in
      let rest = posts e decode encode token ms in
      rw p (
        (
          (
            (answer 200 "ok", ap (λ (r : Response × World). r.0) one, refl),
            subst (λ (r : Response × World). All IsAccepted (answers rest r.1)) (sym one) fine,
          ),
          ap (λ (r : Response × World). (serve_all rest r.1).tables) one
              ∙ stored
              ∙ with_collections-cons rows_of m ms w.tables,
        ))

-- What an agent had to keep arrives with its next cycle over HTTP, which it uses unless a target
-- for gRPC is set. While the network is up, the agent's disk healthy and its log holds entries, and
-- where the handler binds what the agent marshals of each of these collections, the server's table
-- knows the agent's token, its cache does not contradict the table, no id of a host has a colon, it
-- writes to ClickHouse itself and no statement of it fails: the cycle sends the last 2000 entries of the log at most and
-- then the new collection, and leaves the log empty; the server answers each of these posts so that
-- the sender takes it for delivered, and its tables are what they were, followed by the rows of
-- these collections in their order, under the host of the token.
pub posts_arrive :
    (codec : Codec Metrics) (w : Weather) (m : Metrics) (agent : Cycle.State Metrics)
    (log : List Metrics) (e : Env) (decode : Bytes → Option AgentMetrics)
    (encode : String → Metrics → Bytes) (token host_id org_id : String) (server : World)
    → ((n : ℕ) → w.accepts n ≡ true)
    → w.at_drain ≡ healthy
    → Holds codec agent.file log
    → All (λ c. decode (encode token c) ≡ some (received c)) (latest 2000 log ++ m ∷ [])
    → e.agents.db_fails validate_token ≡ false
    → IsStored e.ingest
    → Knows e.agents token host_id org_id (agents_state server)
    → server.producer.enabled ≡ false
    → let sent = latest 2000 log ++ m ∷ [] in
      let requests = posts e decode encode token sent in
      ((cycle codec w m agent).delivered ≡ agent.delivered ++ sent)
      × Holds codec (cycle codec w m agent).file []
      × All IsAccepted (answers requests server)
      × ((serve_all requests server).tables
          ≡ with_collections (collected "default" e.ingest.float32 host_id) sent server.tables)
posts_arrive codec w m agent log e decode encode token host_id org_id server up calm holds binds db
      ok k off =
    let (delivered, empty) = cycle_up codec w up m agent log calm holds in
    let (fine, stored) =
      served_rows e token host_id org_id db ok decode encode (latest 2000 log ++ m ∷ []) server
        binds k off in
    (
      delivered ∙ append_assoc agent.delivered (latest 2000 log) (m ∷ []),
      empty,
      fine,
      stored
          ∙ with_collections-same _ _ (latest 2000 log ++ m ∷ []) server.tables
              (http_rows-collected e.ingest.float32 host_id),
    )
