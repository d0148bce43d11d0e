-- ===== src/Api/Probes.antt =====
-- api/handler/probe.go and the method IngestProbe of api/grpcserver/server.go: what becomes of the
-- results of a probe node. The calls of one request are numbered from 0.
pub mod Equivalence
pub mod Rows
pub mod Pipeline
mod Tests
use bangmod_monitor.Prelude.{
  ℕ, suc, String, Bool, true, false, not, ◌&&◌, Option, none, some, List, [], ◌∷◌, str_eq, length,
  if◌then◌else◌,
}
use bangmod_monitor.Prelude.Int.{ℤ, to_uint}
use bangmod_monitor.Prelude.Json.{Bytes}
use bangmod_monitor.Prelude.Text.{is_empty}
use bangmod_monitor.Api.Http.{Reply, answer, refuse, broken}
use bangmod_monitor.Clickhouse.{Tables, ProbeRow, insert_probe_result}
use bangmod_monitor.Mq.{ProbeResultMsg, Producer, publish, marshal_or_empty, topic_probe_results}
use bangmod_monitor.Proto

-- What the environment answers in one request, and the secret of the configuration.
pub record Env : Type 0 where
  pub node_secret : String
  pub now : ℤ
  pub write_fails : ℕ → Bool
  pub insert_fails : ℕ → Bool
  pub marshal : ProbeResultMsg → Option Bytes

pub record State : Type 0 where
  pub tables : Tables
  pub producer : Producer

pub record ProbeResult : Type 0 where
  pub url : String
  pub status_code : ℤ
  pub response_ms : ℤ
  pub is_up : Bool
  pub error : String

-- `results` is `none` where the body has none, which its `required` refuses, as an empty region.
pub record ProbePayload : Type 0 where
  pub region : String
  pub results : Option (List ProbeResult)

abbrev flag : Bool → ℕ
flag up = if up then 1 else 0

abbrev pub result_message : ℤ → String → ProbeResult → ProbeResultMsg
result_message now region r = record {
  timestamp = now;
  host_id = "probe";
  target_url = r.url;
  region = region;
  status_code = to_uint 16 r.status_code;
  response_ms = to_uint 32 r.response_ms;
  is_up = flag r.is_up;
}

abbrev pub message_row : ProbeResultMsg → ProbeRow
message_row m = record {
  timestamp = m.timestamp;
  host_id = m.host_id;
  target_url = m.target_url;
  region = m.region;
  status_code = m.status_code;
  response_ms = m.response_ms;
  is_up = m.is_up;
}

abbrev pub to_broker : Env → ℕ → ProbeResultMsg → State → State
to_broker e n msg s = record s {
  producer =
      publish (e.write_fails n) topic_probe_results msg.target_url (marshal_or_empty e.marshal msg)
        s.producer;
}

abbrev pub to_table : Env → ℕ → ProbeResultMsg → State → State
to_table e n msg s = record s {
  tables = insert_probe_result (e.insert_fails n) (message_row msg) s.tables;
}

-- The body of the loop of Ingest.
abbrev store_result : Env → ℕ → ProbeResultMsg → State → State
store_result e n msg s = if s.producer.enabled then to_broker e n msg s else to_table e n msg s

store_results : Env → ℕ → String → List ProbeResult → State → State
store_results e n region [] s = s
store_results e n region (r ∷ rs) s =
    store_results e (suc n) region rs (store_result e n (result_message e.now region r) s)

abbrev pub wrong_secret : Env → String → Bool
wrong_secret e secret = not (is_empty e.node_secret) && not (str_eq secret e.node_secret)

abbrev ingest_payload : Env → String → Option (List ProbeResult) → State → Reply ℕ × State
ingest_payload e region none s = (broken 400, s)
ingest_payload e region (some rs) s =
    if is_empty region
    then (broken 400, s)
    else (answer 200 (length rs), store_results e 0 region rs s)

abbrev ingest_body : Env → Option ProbePayload → State → Reply ℕ × State
ingest_body e none s = (broken 400, s)
ingest_body e (some p) s = ingest_payload e p.region p.results s

-- ProbeHandler.Ingest; the answer says how many results came, and `none` does not decode.
pub ingest : Env → String → Option ProbePayload → State → Reply ℕ × State
unfolding store_results
ingest e secret body s =
    if wrong_secret e secret then (refuse 401 "invalid node secret", s) else ingest_body e body s

-- The answer of IngestProbe: the number in its message, or its status.
pub data GrpcReply : Type 0 where
  stored : ℕ → GrpcReply
  unauthenticated : String → GrpcReply

abbrev proto_row : ℤ → String → Proto.ProbeResult → ProbeRow
proto_row now region r = record {
  timestamp = now;
  host_id = "probe";
  target_url = r.url;
  region = region;
  status_code = to_uint 16 r.status_code;
  response_ms = to_uint 32 r.response_ms;
  is_up = flag r.is_up;
}

insert_results : Env → ℕ → String → List Proto.ProbeResult → Tables → Tables
insert_results e n region [] t = t
insert_results e n region (r ∷ rs) t =
    insert_results e (suc n) region rs
      (insert_probe_result (e.insert_fails n) (proto_row e.now region r) t)

-- MetricsServer.IngestProbe, which does not ask the producer.
pub ingest_probe : Env → Proto.ProbeRequest → Tables → GrpcReply × Tables
unfolding insert_results
ingest_probe e req t =
    if wrong_secret e req.node_secret
    then (unauthenticated "invalid node secret", t)
    else (stored (length req.results), insert_results e 0 req.region req.results t)
