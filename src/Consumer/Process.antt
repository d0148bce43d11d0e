-- ===== src/Consumer/Process.antt =====
-- consumer/main.go: the two workers side by side over one database, and the signal that ends them.
-- The scheduler chooses whose round is next. A panic of one worker ends the process; so does the
-- signal, since main returns without waiting for the workers.
pub mod Frame
pub mod Interleaving
use bangmod_monitor.Prelude.{
  Bool, true, false, not, Option, none, some, List, [], ◌∷◌, if◌then◌else◌,
}
use bangmod_monitor.Prelude.Json.{Bytes}
use bangmod_monitor.Clickhouse.{Tables}
use bangmod_monitor.Mq.{AgentMetricMsg, ProbeResultMsg}
use bangmod_monitor.Consumer.{
  Event, Status, running, stopped, crashed, Worker, step, flush, flush_probes, agent_batch,
  probe_batch,
}

-- What a worker has of its own
pub record Local (M : Type 0) : Type 0 where
  pub batch : List M
  pub committed : List Bytes
  pub status : Status

pub record Process : Type 0 where
  pub tables : Tables
  pub agent : Local AgentMetricMsg
  pub probe : Local ProbeResultMsg
  pub exited : Bool

module _ {M : Type 0} where
  abbrev pub worker : Tables → Local M → Worker M
  worker t l = record { batch = l.batch; tables = t; committed = l.committed; status = l.status }

  abbrev pub local : Worker M → Local M
  local w = record { batch = w.batch; committed = w.committed; status = w.status }

abbrev is_crashed : Status → Bool
is_crashed running = false
is_crashed stopped = false
is_crashed crashed = true

pub data Turn : Type 0 where
  agent_turn probe_turn : Event → Turn
  signal : Turn

abbrev pub settle_agent : Process → Worker AgentMetricMsg → Process
settle_agent p w = record p { tables = w.tables; agent = local w; exited = is_crashed w.status }

abbrev pub settle_probe : Process → Worker ProbeResultMsg → Process
settle_probe p w = record p { tables = w.tables; probe = local w; exited = is_crashed w.status }

module _ (read_metrics : Bytes → Option AgentMetricMsg)
    (read_result : Bytes → Option ProbeResultMsg) where
  abbrev pub turn : Turn → Process → Process
  turn (agent_turn e) p =
      settle_agent p (step read_metrics agent_batch flush e (worker p.tables p.agent))
  turn (probe_turn e) p =
      settle_probe p (step read_result probe_batch flush_probes e (worker p.tables p.probe))
  turn signal p = record p { exited = true }

  unfoldable pub run_turns : List Turn → Process → Process
  run_turns [] p = p
  run_turns (t ∷ ts) p = run_turns ts (if p.exited then p else turn t p)

-- How the calls of the start end.
pub record Boot : Type 0 where
  pub parses_dsn : Bool
  pub opens_clickhouse : Bool
  pub pings_clickhouse : Bool

abbrev new_local : {M : Type 0} → Local M
new_local = record { batch = []; committed = []; status = running }

-- The start of main: `none` is one of its calls of log.Fatalf.
unfoldable pub start : Boot → Tables → Option Process
start b t =
    if not b.parses_dsn
    then none
    else if not b.opens_clickhouse
    then none
    else if not b.pings_clickhouse
    then none
    else some (record { tables = t; agent = new_local; probe = new_local; exited = false })
