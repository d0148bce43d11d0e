-- ===== src/Alerter/Store.antt =====
-- alerter/storage/mariadb.go: the tables of rules and incidents, and the statements over them.
-- A table is the list of its rows. A statement that reports an error has done nothing; which
-- statements fail is an argument of the callers.
pub mod Open
use bangmod_monitor.Prelude.{
  ℕ, String, Bool, true, false, ◌&&◌, Option, none, some, List, [], ◌∷◌, ◌++◌, map, str_eq, filter,
  find, if◌then◌else◌,
}
use bangmod_monitor.Prelude.Int.{ℤ}
use bangmod_monitor.Prelude.Float.{Float64}

pub record AlertRule : Type 0 where
  pub id : String
  pub name : String
  pub host_id : String
  pub condition_type : String
  pub threshold : Float64
  pub duration_sec : ℤ
  pub target_url : String
  pub channel : String
  pub channel_config : String

-- A row of alert_rules, with the two columns that may be NULL.
pub record RuleRow : Type 0 where
  pub id : String
  pub name : String
  pub host_id : Option String
  pub condition_type : String
  pub threshold : Float64
  pub duration_sec : ℤ
  pub target_url : Option String
  pub channel : String
  pub channel_config : String
  pub enabled : Bool

-- What an incident records of the condition. The text is rendered from this by `fmt.Sprintf`.
pub data Details : Type 0 where
  cpu_avg memory_avg : Float64 → Float64 → ℤ → Details
  is_down : String → ℕ → ℕ → ℤ → Details
  is_slow : String → Float64 → Float64 → ℤ → Details

pub record Incident : Type 0 where
  pub id : String
  pub rule_id : String
  pub started_at : ℕ
  pub resolved_at : Option ℕ
  pub details : Details

pub data Op : Type 0 where
  get_enabled_rules open_incident create_incident resolve_incident : Op

-- COALESCE(column, '')
abbrev coalesce : Option String → String
coalesce none = ""
coalesce (some s) = s

scan_rule : RuleRow → AlertRule
scan_rule r = record {
  id = r.id;
  name = r.name;
  host_id = coalesce r.host_id;
  condition_type = r.condition_type;
  threshold = r.threshold;
  duration_sec = r.duration_sec;
  target_url = coalesce r.target_url;
  channel = r.channel;
  channel_config = r.channel_config;
}

unfoldable pub enabled_rules : List RuleRow → List AlertRule
unfolding scan_rule
enabled_rules rows = map scan_rule (filter (λ r. r.enabled) rows)

abbrev is_unresolved : Option ℕ → Bool
is_unresolved none = true
is_unresolved (some _) = false

abbrev pub is_open : String → Incident → Bool
is_open rule_id i = str_eq i.rule_id rule_id && is_unresolved i.resolved_at

abbrev incident_id : Option Incident → String
incident_id none = ""
incident_id (some i) = i.id

-- The id of the open incident of a rule, or "".
pub find_open : String → List Incident → String
find_open rule_id is = incident_id (find (is_open rule_id) is)

pub insert_incident : String → String → ℕ → Details → List Incident → List Incident
insert_incident id rule_id now details is =
    is
    ++ (record {
      id = id;
      rule_id = rule_id;
      started_at = now;
      resolved_at = none;
      details = details;
    })
      ∷ []

abbrev resolve_row : String → ℕ → Incident → Incident
resolve_row id now i = if str_eq i.id id then record i { resolved_at = some now } else i

pub resolve : String → ℕ → List Incident → List Incident
resolve id now is = map (resolve_row id now) is
