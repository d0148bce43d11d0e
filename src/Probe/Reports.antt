-- ===== src/Probe/Reports.antt =====
-- The report of a probe node at the API server. The JSON of the request is an argument: what the
-- node marshals, `payload, _ := json.Marshal(...)`, and what the server decodes.
use bangmod_monitor.Prelude.{
  ℕ, suc, ◌+◌, String, Bool, true, false, ◌≡◌, refl, ap, ◌∙◌, Option, some, List, [], ◌∷◌, ◌++◌,
  map, map-append, length, if◌then◌else◌, ltb, arith, ap₂, length-append, length-map, ◌%◌, ◌≤◌,
}
use bangmod_monitor.Prelude.Int.{ℤ}
use bangmod_monitor.Prelude.Text.{concat, is_empty}
use bangmod_monitor.Api.Http.{Reply, answer}
use bangmod_monitor.Api.Probes as Server
use bangmod_monitor.Api.Probes.{ingest, wrong_secret}
use bangmod_monitor.Api.Probes.Rows.{result_row, with_rows, ingest-rows}
use bangmod_monitor.Clickhouse.{ProbeRow}
use bangmod_monitor.Probe.{
  Config, TcpTarget, Network, Answer, responds, fails, Result, Payload, Request, posts, address,
  http_result, tcp_result, http_results, tcp_results, report_of, run_checks,
}

-- The fields of a result and of a payload as the server reads them
abbrev read_result : Result → Server.ProbeResult
read_result r = record {
  url = r.url;
  status_code = r.status_code;
  response_ms = r.response_ms;
  is_up = r.is_up;
  error = r.error;
}

abbrev pub read_payload : Payload → Server.ProbePayload
read_payload p = record { region = p.region; results = some (map read_result p.results) }

-- The answers of the network to each target, HTTP before TCP, each with its URL
http_answers : Network → ℕ → List String → List (String × Answer)
http_answers net n [] = []
http_answers net n (url ∷ urls) = (url, net.get n url) ∷ http_answers net (suc n) urls

tcp_answers : Network → ℕ → List TcpTarget → List (String × Answer)
tcp_answers net n [] = []
tcp_answers net n (t ∷ ts) =
    (concat "tcp://" (address t), net.dial n (address t)) ∷ tcp_answers net (suc n) ts

-- The row of an HTTP target: up below status 500
http_row : ℤ → String → String × Answer → ProbeRow
http_row now region (url, responds status ms) = record {
  timestamp = now;
  host_id = "probe";
  target_url = url;
  region = region;
  status_code = status % 65536;
  response_ms = ms % 4294967296;
  is_up = if ltb status 500 then 1 else 0;
}
http_row now region (url, fails error ms) = record {
  timestamp = now;
  host_id = "probe";
  target_url = url;
  region = region;
  status_code = 0;
  response_ms = ms % 4294967296;
  is_up = 0;
}

-- The row of a TCP target: up where the connection was made
tcp_row : ℤ → String → String × Answer → ProbeRow
tcp_row now region (url, responds status ms) = record {
  timestamp = now;
  host_id = "probe";
  target_url = url;
  region = region;
  status_code = 0;
  response_ms = ms % 4294967296;
  is_up = 1;
}
tcp_row now region (url, fails error ms) = record {
  timestamp = now;
  host_id = "probe";
  target_url = url;
  region = region;
  status_code = 0;
  response_ms = ms % 4294967296;
  is_up = 0;
}

-- One row for each target, in the order of the configuration
unfoldable pub rows_of : ℤ → String → List String → List TcpTarget → Network → List ProbeRow
unfolding http_answers tcp_answers http_row tcp_row
rows_of now region urls ts net =
    map (http_row now region) (http_answers net 0 urls)
    ++ map (tcp_row now region) (tcp_answers net 0 ts)

stored-http :
    (now : ℤ) (region : String) (net : Network) (n : ℕ) (urls : List String)
    → map (result_row now region) (map read_result (http_results net n urls))
      ≡ map (http_row now region) (http_answers net n urls)
unfolding http_results http_answers
stored-http now region net n [] = refl
stored-http now region net n (url ∷ urls) =
    ap₂ ◌∷◌ (one (net.get n url)) (stored-http now region net (suc n) urls)
  where
    one :
        (a : Answer)
        → result_row now region (read_result (http_result url a)) ≡ http_row now region (url, a)
    one (responds status ms) = unfold http_row in refl
    one (fails error ms) = unfold http_row in refl

stored-tcp :
    (now : ℤ) (region : String) (net : Network) (n : ℕ) (ts : List TcpTarget)
    → map (result_row now region) (map read_result (tcp_results net n ts))
      ≡ map (tcp_row now region) (tcp_answers net n ts)
unfolding tcp_results tcp_answers
stored-tcp now region net n [] = refl
stored-tcp now region net n (t ∷ ts) =
    ap₂ ◌∷◌ (one (net.dial n (address t))) (stored-tcp now region net (suc n) ts)
  where
    url : String
    url = concat "tcp://" (address t)

    one :
        (a : Answer)
        → result_row now region (read_result (tcp_result url a)) ≡ tcp_row now region (url, a)
    one (responds status ms) = unfold tcp_row in refl
    one (fails error ms) = unfold tcp_row in refl

-- The results of one round
abbrev results_of : List String → List TcpTarget → Network → List Result
results_of urls ts net = http_results net 0 urls ++ tcp_results net 0 ts

stored-results :
    (now : ℤ) (region : String) (urls : List String) (ts : List TcpTarget) (net : Network)
    → map (result_row now region) (map read_result (results_of urls ts net))
      ≡ rows_of now region urls ts net
unfolding rows_of
stored-results now region urls ts net =
    ap (map (result_row now region))
      (map-append read_result (http_results net 0 urls) (tcp_results net 0 ts))
    ∙ map-append (result_row now region) (map read_result (http_results net 0 urls))
        (map read_result (tcp_results net 0 ts))
    ∙ ap₂ ◌++◌ (stored-http now region net 0 urls) (stored-tcp now region net 0 ts)

length-http_results :
    (net : Network) (n : ℕ) (urls : List String) → length (http_results net n urls) ≡ length urls
unfolding http_results
length-http_results net n [] = refl
length-http_results net n (url ∷ urls) = ap suc (length-http_results net (suc n) urls)

length-tcp_results :
    (net : Network) (n : ℕ) (ts : List TcpTarget) → length (tcp_results net n ts) ≡ length ts
unfolding tcp_results
length-tcp_results net n [] = refl
length-tcp_results net n (t ∷ ts) = ap suc (length-tcp_results net (suc n) ts)

length-results :
    (urls : List String) (ts : List TcpTarget) (net : Network)
    → length (results_of urls ts net) ≡ length urls + length ts
length-results urls ts net = omega (
  arith,
  length-append (http_results net 0 urls) (tcp_results net 0 ts),
  length-http_results net 0 urls,
  length-tcp_results net 0 ts,
)

abbrev request_of : Config → List Result → Request
request_of cfg rs = record {
  url = concat cfg.api_url "/api/v1/probe";
  secret = cfg.node_secret;
  payload = record { region = cfg.region; results = rs };
}

posted :
    (parses : String → Bool) (cfg : Config) (rs : List Result)
    → parses (concat cfg.api_url "/api/v1/probe") ≡ true
    → 1 ≤ length rs
    → report_of parses cfg rs ≡ posts (request_of cfg rs)
posted parses cfg [] p h = absurd (omega arith)
posted parses cfg (r ∷ rs) p h = rw p refl

-- The JSON of a payload, and what the server decodes: the same fields.
pub record Wire : Type 1 where
  pub Body : Type 0
  pub marshal : Payload → Body
  pub decode : Body → Option Server.ProbePayload
  pub decode-marshal : (p : Payload) → decode (marshal p) ≡ some (read_payload p)

-- The request at the server
abbrev pub receive : Wire → Server.Env → Request → Server.State → Reply ℕ × Server.State
receive wire e r s = ingest e r.secret (wire.decode (wire.marshal r.payload)) s

-- A round of a node with a target posts a request, if the URL of the API parses. If the server
-- takes the node's secret, the producer is disabled and no insert fails, it answers with the
-- number of the targets, and its table of probes has one row more for each target, in the order
-- of the configuration, HTTP before TCP: an HTTP target is up if it answered below status 500, a
-- TCP target if it took the connection. Nothing else of the server changes.
pub report_stored :
    (parses : String → Bool) (cfg : Config) (urls : List String) (ts : List TcpTarget)
    (net : Network) (wire : Wire) (e : Server.Env) (s : Server.State)
    → parses (concat cfg.api_url "/api/v1/probe") ≡ true
    → 1 ≤ length urls + length ts
    → wrong_secret e cfg.node_secret ≡ false
    → is_empty cfg.region ≡ false
    → s.producer.enabled ≡ false
    → ((k : ℕ) → e.insert_fails k ≡ false)
    → (r : Request) × (run_checks parses cfg urls ts net ≡ posts r)
      × (receive wire e r s ≡ (
        answer 200 (length urls + length ts),
        with_rows s (rows_of e.now cfg.region urls ts net),
      ))
unfolding run_checks
report_stored parses cfg urls ts net wire e s p some_target right named off ok =
    let rs = results_of urls ts net in
    let count = length-results urls ts net in
    (
      request_of cfg rs,
      posted parses cfg rs p (omega (arith, count)),
      ap (λ b. ingest e cfg.node_secret b s)
            (wire.decode-marshal (record { region = cfg.region; results = rs }))
          ∙ ingest-rows e cfg.node_secret cfg.region (map read_result rs) s right named off ok
          ∙ ap₂ (λ k rows. (answer 200 k, with_rows s rows)) (length-map read_result rs ∙ count)
              (stored-results e.now cfg.region urls ts net),
    )
