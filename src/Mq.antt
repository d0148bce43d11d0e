-- ===== src/Mq.antt =====
-- api/mq/: the messages between the API and the consumer, and the producer. The broker is the list
-- of the messages that it has accepted, oldest first.
use bangmod_monitor.Prelude.{
  ℕ, String, Bool, true, false, not, ◌||◌, Option, none, some, List, [], ◌∷◌, ◌++◌, str_eq,
  if◌then◌else◌,
}
use bangmod_monitor.Prelude.Int.{ℤ}
use bangmod_monitor.Prelude.Float.{Float32}
use bangmod_monitor.Prelude.Json.{Bytes}

abbrev pub topic_agent_metrics : String
topic_agent_metrics = "bangmod.agent-metrics"

abbrev pub topic_probe_results : String
topic_probe_results = "bangmod.probe-results"

pub record DiskMsg : Type 0 where
  pub path : String
  pub total_bytes : ℕ
  pub used_bytes : ℕ
  pub use_pct : Float32

pub record NetMsg : Type 0 where
  pub interface : String
  pub bytes_sent : ℕ
  pub bytes_recv : ℕ
  pub packets_sent : ℕ
  pub packets_recv : ℕ

pub record AgentMetricMsg : Type 0 where
  pub timestamp : ℤ
  pub host_id : String
  pub hostname : String
  pub region : String
  pub cpu_percent : Float32
  pub cpu_cores : ℕ
  pub mem_total : ℕ
  pub mem_used : ℕ
  pub mem_percent : Float32
  pub disks : List DiskMsg
  pub networks : List NetMsg

pub record ProbeResultMsg : Type 0 where
  pub timestamp : ℤ
  pub host_id : String
  pub target_url : String
  pub region : String
  pub status_code : ℕ
  pub response_ms : ℕ
  pub is_up : ℕ

pub record Message : Type 0 where
  pub topic : String
  pub key : String
  pub value : Bytes

pub record Producer : Type 0 where
  pub enabled : Bool
  pub broker : List Message

-- NewProducer, where the dial answers: no broker in the configuration disables it.
unfoldable pub new_producer : List String → Bool → Option Producer
new_producer [] dial_fails = some (record { enabled = false; broker = [] })
new_producer (b ∷ brokers) dial_fails =
    if dial_fails then none else some (record { enabled = true; broker = [] })

abbrev has_writer : String → Bool
has_writer topic = str_eq topic topic_agent_metrics || str_eq topic topic_probe_results

-- An error of the write is logged, and nothing else.
unfoldable pub publish : Bool → String → String → Bytes → Producer → Producer
publish write_fails topic key value p =
    if not p.enabled || not (has_writer topic) || write_fails
    then p
    else record p { broker = p.broker ++ (record { topic = topic; key = key; value = value }) ∷ [] }

abbrev text_or_empty : Option Bytes → Bytes
text_or_empty none = []
text_or_empty (some b) = b

-- `data, _ := mq.Marshal(msg)`
abbrev pub marshal_or_empty {ℓ} : {T : Type ℓ} → (T → Option Bytes) → T → Bytes
marshal_or_empty marshal v = text_or_empty (marshal v)
