-- ===== src/Alerter/Evaluator.antt =====
-- alerter/evaluator/evaluator.go: one evaluation of the enabled rules. `Run` evaluates them one
-- after another, and an error ends only the evaluation of its own rule.
pub mod Verdicts
pub mod Incidents
pub mod Messages
use bangmod_monitor.Prelude.{
  ℕ, String, Bool, true, false, not, ◌&&◌, Option, none, some, List, [], ◌∷◌, ◌++◌, str_eq, ltb,
  ◌==◌, if◌then◌else◌,
}
use bangmod_monitor.Prelude.Text.{concat, is_empty}
use bangmod_monitor.Prelude.Float.{flt, zero_float}
use bangmod_monitor.Alerter.Store.{
  AlertRule, RuleRow, Details, cpu_avg, memory_avg, is_down, is_slow, Incident, Op, open_incident,
  create_incident, resolve_incident, get_enabled_rules, enabled_rules, find_open, insert_incident,
  resolve,
}
use bangmod_monitor.Alerter.Metrics.{Clickhouse, ProbeStats, avg_cpu, avg_memory, probe_stats}
use bangmod_monitor.Alerter.Notifier.{Notifier, Decoders, Network, new_notifier, delivers}

pub data EvalError : Type 0 where
  requires_host_id requires_target_url unknown_condition_type query_failed : EvalError
  lookup_failed bad_notifier create_failed resolve_failed : EvalError

-- What the environment answers while one rule is evaluated.
pub record Env : Type 0 where
  pub ch : Clickhouse
  pub query_fails : Bool
  pub db_fails : Op → Bool
  pub decoders : Decoders
  pub network : Network
  pub now : ℕ
  pub uuid : String

pub data Body : Type 0 where
  alert_text : Details → ℕ → Body
  back_to_normal : ℕ → Body

-- A message that a channel has accepted.
pub record Message : Type 0 where
  pub to : Notifier
  pub subject : String
  pub body : Body

pub record State : Type 0 where
  pub incidents : List Incident
  pub sent : List Message

-- What the condition of a rule comes to: an error, nothing to say, or whether it fires.
pub data Verdict : Type 0 where
  fails : EvalError → Verdict
  no_data : Verdict
  decided : Bool → Details → Verdict

check_cpu : Env → AlertRule → Verdict
check_cpu e r =
    let val = avg_cpu e.ch e.now r.host_id r.duration_sec in
    if is_empty r.host_id
    then fails requires_host_id
    else if e.query_fails
    then fails query_failed
    else if flt val zero_float
    then no_data
    else decided (flt r.threshold val) (cpu_avg val r.threshold r.duration_sec)

check_memory : Env → AlertRule → Verdict
check_memory e r =
    let val = avg_memory e.ch e.now r.host_id r.duration_sec in
    if is_empty r.host_id
    then fails requires_host_id
    else if e.query_fails
    then fails query_failed
    else if flt val zero_float
    then no_data
    else decided (flt r.threshold val) (memory_avg val r.threshold r.duration_sec)

abbrev down_verdict : AlertRule → Option ProbeStats → Verdict
down_verdict r none = no_data
down_verdict r (some s) =
    decided ((s.down_count == s.total) && ltb 0 s.total)
      (is_down r.target_url s.down_count s.total r.duration_sec)

abbrev slow_verdict : AlertRule → Option ProbeStats → Verdict
slow_verdict r none = no_data
slow_verdict r (some s) =
    decided (flt r.threshold s.avg_resp_ms)
      (is_slow r.target_url s.avg_resp_ms r.threshold r.duration_sec)

check_probe : (AlertRule → Option ProbeStats → Verdict) → Env → AlertRule → Verdict
check_probe verdict e r =
    if is_empty r.target_url
    then fails requires_target_url
    else if e.query_fails
    then fails query_failed
    else verdict r (probe_stats e.ch e.now r.target_url r.duration_sec)

-- the `switch` of evaluate
pub judge : Env → AlertRule → Verdict
unfolding check_cpu check_memory check_probe
judge e r =
    if str_eq r.condition_type "cpu_high"
    then check_cpu e r
    else if str_eq r.condition_type "memory_high"
    then check_memory e r
    else if str_eq r.condition_type "probe_down"
    then check_probe down_verdict e r
    else if str_eq r.condition_type "probe_slow"
    then check_probe slow_verdict e r
    else fails unknown_condition_type

-- A send that fails is logged, and nothing else.
send : Env → Notifier → String → Body → State → State
send e n subject body s =
    if delivers e.network n
    then record s { sent = s.sent ++ (record { to = n; subject = subject; body = body }) ∷ [] }
    else s

abbrev fire : Env → AlertRule → Details → Notifier → State → State × Option EvalError
fire e r d n s = if e.db_fails create_incident then (s, some create_failed) else (
  send e n (concat "ALERT: " r.name) (alert_text d e.now)
      (record s { incidents = insert_incident e.uuid r.id e.now d s.incidents }),
  none,
)

abbrev clear : Env → AlertRule → String → Notifier → State → State × Option EvalError
clear e r open_id n s = if e.db_fails resolve_incident then (s, some resolve_failed) else (
  send e n (concat "RESOLVED: " r.name) (back_to_normal e.now)
      (record s { incidents = resolve open_id e.now s.incidents }),
  none,
)

abbrev with_notifier :
    Env → AlertRule → Bool → Details → String → Option Notifier → State → State × Option EvalError
with_notifier e r firing d open_id none s = (s, some bad_notifier)
with_notifier e r firing d open_id (some n) s =
    if firing && is_empty open_id
    then fire e r d n s
    else if not firing && not (is_empty open_id)
    then clear e r open_id n s
    else (s, none)

pub handle_state : Env → AlertRule → Bool → Details → State → State × Option EvalError
unfolding send
handle_state e r firing d s =
    if e.db_fails open_incident
    then (s, some lookup_failed)
    else with_notifier e r firing d (find_open r.id s.incidents)
        (new_notifier e.decoders r.channel r.channel_config) s

abbrev act : Env → AlertRule → Verdict → State → State × Option EvalError
act e r (fails x) s = (s, some x)
act e r no_data s = (s, none)
act e r (decided firing d) s = handle_state e r firing d s

pub evaluate : Env → AlertRule → State → State × Option EvalError
unfolding judge handle_state
evaluate e r s = act e r (judge e r) s

-- The loop of `Run`, with an environment for each rule.
run_rules : (String → Env) → List AlertRule → State → State
run_rules env [] s = s
run_rules env (r ∷ rs) s = run_rules env rs (evaluate (env r.id) r s).0

pub run : Bool → (String → Env) → List RuleRow → State → State
unfolding run_rules
run fetch_fails env rows s = if fetch_fails then s else run_rules env (enabled_rules rows) s

-- the ticker's loop, with the rules as they are at each tick
pub run_ticks : List (Bool × (String → Env) × List RuleRow) → State → State
run_ticks [] s = s
run_ticks ((fetch_fails, env, rows) ∷ ticks) s = run_ticks ticks (run fetch_fails env rows s)
