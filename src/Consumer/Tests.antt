-- ===== src/Consumer/Tests.antt =====
-- The theorems of the workers at one message, whose text is a single byte.
use bangmod_monitor.Prelude.{true, false, Option, none, some, List, [], ◌∷◌, ◌≡◌, refl, arith, inr}
use bangmod_monitor.Prelude.Int.{pos}
use bangmod_monitor.Prelude.Json.{Bytes}
use bangmod_monitor.Clickhouse.{Tables}
use bangmod_monitor.Mq.{AgentMetricMsg, ProbeResultMsg}
use bangmod_monitor.Prelude.{false}
use bangmod_monitor.Consumer.{
  probe_batch, flush_probes, step, smooth, Event, tick, message, Worker, running, run, flush,
  agent_batch,
}
use bangmod_monitor.Consumer.Batches.{IsBounded, run-IsBounded}
use bangmod_monitor.Consumer.Process.{
  Process, worker, Turn, agent_turn, probe_turn, run_turns, start,
}
use bangmod_monitor.Consumer.Process.Interleaving.{AgentSide, ProbeSide, workers_apart}

abbrev msg : AgentMetricMsg
msg = record {
  timestamp = pos 1000;
  host_id = "h1";
  hostname = "web";
  region = "default";
  cpu_percent = 0;
  cpu_cores = 4;
  mem_total = 100;
  mem_used = 50;
  mem_percent = 0;
  disks = (record { path = "/"; total_bytes = 10; used_bytes = 5; use_pct = 0 }) ∷ [];
  networks = [];
}

-- Only a text of one byte is a message.
abbrev decode : Bytes → Option AgentMetricMsg
decode [] = none
decode (c ∷ []) = some msg
decode (c ∷ d ∷ b) = none

abbrev empty_tables : Tables
empty_tables = record {
  agent_metrics = [];
  disk_metrics = [];
  net_metrics = [];
  probe_results = [];
}

abbrev waiting : Worker AgentMetricMsg
waiting = record { batch = msg ∷ []; tables = empty_tables; committed = []; status = running }

abbrev rounds : List Event
rounds =
    message (1 ∷ []) smooth
    ∷ message (1 ∷ 2 ∷ []) smooth
    ∷ tick smooth
    ∷ message (3 ∷ []) smooth
    ∷ []

run-IsBounded_example :
    IsBounded decode agent_batch flush (run decode agent_batch flush rounds waiting)
run-IsBounded_example =
    run-IsBounded decode agent_batch flush (omega arith) rounds waiting (inr (omega arith))

-- A round of each worker while the other has something waiting
abbrev both : Process
both = record {
  tables = empty_tables;
  agent = record { batch = msg ∷ []; committed = []; status = running };
  probe = record { batch = []; committed = []; status = running };
  exited = false;
}

abbrev no_result : Bytes → Option ProbeResultMsg
no_result b = none

abbrev turns : List Turn
turns = probe_turn (message [] smooth) ∷ agent_turn (tick smooth) ∷ probe_turn (tick smooth) ∷ []

turns_live : (run_turns decode no_result turns both).exited ≡ false
unfolding run_turns step flush flush_probes
turns_live = refl

workers_apart_example :
    AgentSide
      (run_turns decode no_result turns both)
      (run decode agent_batch flush (tick smooth ∷ []) (worker empty_tables both.agent))
    × ProbeSide (run_turns decode no_result turns both) (
        run no_result probe_batch flush_probes
          (message [] smooth ∷ tick smooth ∷ [])
          (worker empty_tables both.probe))
workers_apart_example = workers_apart decode no_result turns both refl turns_live

-- The consumer does not start without its database.
no_database :
    start
      (record { parses_dsn = true; opens_clickhouse = true; pings_clickhouse = false })
      empty_tables
    ≡ none
unfolding start
no_database = refl
