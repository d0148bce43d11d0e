-- ===== src/Probe.antt =====
-- The probe node (probe/): its configuration, its targets, the two checks of checker/ and what it
-- reports. What the network answers is given for the number of the check within its round, and
-- the times are milliseconds.
pub mod Targets
pub mod Reports
mod Tests
use bangmod_monitor.Prelude.{
  ℕ, suc, String, Bool, true, false, not, ◌&&◌, Option, none, some, List, [], ◌∷◌, ◌++◌, filter_map,
  ltb, length, if◌then◌else◌,
}
use bangmod_monitor.Prelude.Int.{ℤ, pos, atoi}
use bangmod_monitor.Prelude.Decimal.{itoa}
use bangmod_monitor.Prelude.Text.{Cut, whole, parts, concat, split_n, is_empty}
use bangmod_monitor.Prelude.Environ.{Environ, get_env, interval as seconds, list_of, ticker_starts}

pub record Config : Type 0 where
  pub api_url : String
  pub node_secret : String
  pub region : String
  pub interval : ℕ

-- config.Load
unfoldable pub load : Environ → Config
load env = record {
  api_url = get_env env "API_URL" "http://localhost:8080";
  node_secret = get_env env "NODE_SECRET" "";
  region = get_env env "PROBE_REGION" "default";
  interval = seconds env "PROBE_INTERVAL" 60;
}

pub record TcpTarget : Type 0 where
  pub host : String
  pub port : ℤ

pub load_env_list : Environ → String → List String
load_env_list env key = if is_empty (env key) then [] else list_of (env key)

abbrev with_port : String → Option ℤ → Option TcpTarget
with_port host none = none
with_port host (some port) = some (record { host = host; port = port })

abbrev target_of_cut : Cut → Option TcpTarget
target_of_cut (whole s) = none
target_of_cut (parts host port) = with_port host (atoi port)

abbrev target_of : String → Option TcpTarget
target_of s = target_of_cut (split_n b':' s)

pub load_tcp_targets : Environ → String → List TcpTarget
load_tcp_targets env key = filter_map target_of (load_env_list env key)

-- What a check meets: a status or a connection, or an error, and the time that it took.
pub data Answer : Type 0 where
  responds : ℕ → ℕ → Answer
  fails : String → ℕ → Answer

pub record Network : Type 0 where
  pub get : ℕ → String → Answer
  pub dial : ℕ → String → Answer

pub record Result : Type 0 where
  pub url : String
  pub status_code : ℤ
  pub response_ms : ℤ
  pub is_up : Bool
  pub error : String

abbrev http_result : String → Answer → Result
http_result url (fails error ms) = record {
  url = url;
  status_code = pos 0;
  response_ms = pos ms;
  is_up = false;
  error = error;
}
http_result url (responds status ms) = record {
  url = url;
  status_code = pos status;
  response_ms = pos ms;
  is_up = ltb status 500;
  error = "";
}

-- checker.CheckHTTP
check_http : Network → ℕ → String → Result
check_http net n url = http_result url (net.get n url)

abbrev pub address : TcpTarget → String
address t = concat t.host (concat ":" (itoa t.port))

abbrev tcp_result : String → Answer → Result
tcp_result url (fails error ms) = record {
  url = url;
  status_code = pos 0;
  response_ms = pos ms;
  is_up = false;
  error = error;
}
tcp_result url (responds status ms) = record {
  url = url;
  status_code = pos 0;
  response_ms = pos ms;
  is_up = true;
  error = "";
}

-- checker.CheckTCP, with the result that runChecks makes of it
check_tcp : Network → ℕ → TcpTarget → Result
check_tcp net n t = tcp_result (concat "tcp://" (address t)) (net.dial n (address t))

http_results : Network → ℕ → List String → List Result
unfolding check_http
http_results net n [] = []
http_results net n (url ∷ urls) = check_http net n url ∷ http_results net (suc n) urls

tcp_results : Network → ℕ → List TcpTarget → List Result
unfolding check_tcp
tcp_results net n [] = []
tcp_results net n (t ∷ ts) = check_tcp net n t ∷ tcp_results net (suc n) ts

pub record Payload : Type 0 where
  pub region : String
  pub results : List Result

pub record Request : Type 0 where
  pub url : String
  pub secret : String
  pub payload : Payload

-- One round: nothing without a result; a request, whether or not it is answered; or a panic, at
-- the nil request where the URL does not parse.
pub data Report : Type 0 where
  nothing : Report
  posts : Request → Report
  crashes : Report

abbrev report_of : (String → Bool) → Config → List Result → Report
report_of parses cfg [] = nothing
report_of parses cfg (r ∷ rs) =
    let url = concat cfg.api_url "/api/v1/probe" in
    if parses url
    then posts (record {
      url = url;
      secret = cfg.node_secret;
      payload = record { region = cfg.region; results = r ∷ rs };
    })
    else crashes

-- runChecks
pub run_checks : (String → Bool) → Config → List String → List TcpTarget → Network → Report
unfolding http_results tcp_results
run_checks parses cfg urls ts net =
    report_of parses cfg (http_results net 0 urls ++ tcp_results net 0 ts)

-- The ticker's loop: a panic ends it.
run_rounds : (String → Bool) → Config → List String → List TcpTarget → List Network → List Report
unfolding run_checks
run_rounds parses cfg urls ts [] = []
run_rounds parses cfg urls ts (net ∷ nets) =
    let rest = run_rounds parses cfg urls ts nets in
    elim (run_checks parses cfg urls ts net) [
      | crashes ↦ crashes ∷ []
      | nothing ↦ nothing ∷ rest
      | posts r ↦ posts r ∷ rest
    ]

pub data Run : Type 0 where
  fatal : String → Run
  panics : Run
  rounds : List Report → Run

abbrev is_none {ℓ} : {A : Type ℓ} → List A → Bool
is_none [] = true
is_none (x ∷ xs) = false

abbrev run_targets : (String → Bool) → Config → List String → List TcpTarget → List Network → Run
run_targets parses cfg urls ts nets =
    if is_none urls && is_none ts
    then fatal "No targets. Set PROBE_TARGETS and/or PROBE_TCP_TARGETS"
    else if ticker_starts cfg.interval
    then rounds (run_rounds parses cfg urls ts nets)
    else panics

-- main, over the rounds that it comes to; the first starts at once.
unfoldable run : (String → Bool) → Environ → List Network → Run
unfolding load load_env_list load_tcp_targets run_rounds
run parses env nets =
    let cfg = load env in
    if is_empty cfg.node_secret
    then fatal "NODE_SECRET is required"
    else run_targets parses cfg (load_env_list env "PROBE_TARGETS")
        (load_tcp_targets env "PROBE_TCP_TARGETS") nets
