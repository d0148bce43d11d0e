-- ===== src/Probe/Tests.antt =====
-- The theorems on the probe node at two targets.
use bangmod_monitor.Prelude.{
  true, false, some, [], ◌∷◌, map, ◌≡◌, refl, str_eq, if◌then◌else◌, arith,
}
use bangmod_monitor.Prelude.Int.{pos}
use bangmod_monitor.Prelude.Environ.{Environ, list_of}
use bangmod_monitor.Api.Http.{answer}
use bangmod_monitor.Api.Probes as Server
use bangmod_monitor.Api.Probes.{ingest}
use bangmod_monitor.Api.Probes.Rows.{with_rows}
use bangmod_monitor.Probe
use bangmod_monitor.Probe.{
  Config, TcpTarget, Network, responds, fails, Request, posts, run_checks, load_env_list,
  load_tcp_targets, Run, fatal, run,
}
use bangmod_monitor.Probe.Reports.{Wire, read_payload, receive, rows_of, report_stored}

abbrev redis : TcpTarget
redis = record { host = "redis"; port = pos 6379 }

abbrev env : Environ
env key = if str_eq key "PROBE_TCP_TARGETS" then "redis:6379" else ""

-- A host that is an IPv6 address is cut at its first colon, and the target is left out.
ipv6_dropped : load_tcp_targets (λ key. "[::1]:6379,redis:6379") "T" ≡ redis ∷ []
unfolding load_tcp_targets load_env_list list_of
ipv6_dropped = refl

no_secret : run (λ url. true) env [] ≡ fatal "NODE_SECRET is required"
unfolding run
no_secret = refl

abbrev cfg : Config
cfg = record { api_url = "http://api:8080"; node_secret = "s3cret"; region = "th"; interval = 60 }

abbrev net : Network
net = record { get = λ n url. responds 503 12; dial = λ n addr. responds 0 3 }

abbrev wire : Wire
wire = record {
  Body = Probe.Payload;
  marshal = λ p. p;
  decode = λ p. some (read_payload p);
  decode-marshal = λ p. refl;
}

abbrev server : Server.Env
server = record {
  node_secret = "s3cret";
  now = pos 1000;
  write_fails = λ n. false;
  insert_fails = λ n. false;
  marshal = λ m. some [];
}

abbrev before : Server.State
before = record {
  tables = record { agent_metrics = []; disk_metrics = []; net_metrics = []; probe_results = [] };
  producer = record { enabled = false; broker = [] };
}

report_stored_example :
    (r : Request) × (run_checks (λ url. true) cfg ("http://web" ∷ []) (redis ∷ []) net ≡ posts r)
    × (receive wire server r before ≡ (
      answer 200 2,
      with_rows before (rows_of (pos 1000) "th" ("http://web" ∷ []) (redis ∷ []) net),
    ))
report_stored_example =
    report_stored (λ url. true) cfg ("http://web" ∷ []) (redis ∷ []) net wire server before refl
      (omega arith) refl refl refl (λ k. refl)

-- The rows of the example: the HTTP target is down, the TCP target up.
rows_of_example :
    map (λ r. r.is_up) (rows_of (pos 1000) "th" ("http://web" ∷ []) (redis ∷ []) net) ≡ 0 ∷ 1 ∷ []
unfolding rows_of
rows_of_example = refl
