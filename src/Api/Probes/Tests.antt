-- ===== src/Api/Probes/Tests.antt =====
-- The theorems on probes at two results.
use bangmod_monitor.Prelude.{
  Option, false, true, some, none, map, if◌then◌else◌, ◌==◌, List, [], ◌∷◌, ◌≡◌, refl,
}
use bangmod_monitor.Prelude.Int.{pos}
use bangmod_monitor.Api.Probes.{Env, State, ProbeResult, ingest}
use bangmod_monitor.Api.Probes.Rows.{result_row}
use bangmod_monitor.Api.Probes.Pipeline.{probe_results_arrive}
use bangmod_monitor.Prelude.Json.{Bytes}
use bangmod_monitor.Mq.{Message, ProbeResultMsg}
use bangmod_monitor.Consumer.{Worker, running, run, probe_batch, flush_probes}
use bangmod_monitor.Consumer.Delivery.{fetched, then_tick}

abbrev env : Env
env = record {
  node_secret = "s3cret";
  now = pos 1000;
  write_fails = λ n. false;
  insert_fails = λ n. false;
  marshal = λ msg. some (1 ∷ []);
}

abbrev results : List ProbeResult
results =
    (record {
      url = "https://example.org";
      status_code = pos 200;
      response_ms = pos 30;
      is_up = true;
      error = "";
    })
    ∷ (record {
      url = "tcp://db:3306";
      status_code = pos 0;
      response_ms = pos 5000;
      is_up = false;
      error = "refused";
    })
    ∷ []

abbrev direct : State
direct = record {
  tables = record { agent_metrics = []; disk_metrics = []; net_metrics = []; probe_results = [] };
  producer = record { enabled = false; broker = [] };
}

abbrev brokered : State
brokered = record direct { producer = record { enabled = true; broker = [] } }

-- The text of a message is the bit that says whether the target is up.
abbrev marshal_bit : ProbeResultMsg → Option Bytes
marshal_bit m = some (m.is_up ∷ [])

abbrev bits : Env
bits = record env { marshal = marshal_bit }

abbrev up : ProbeResultMsg
up = record {
  timestamp = pos 1000;
  host_id = "probe";
  target_url = "https://example.org";
  region = "th";
  status_code = 200;
  response_ms = 30;
  is_up = 1;
}

abbrev down : ProbeResultMsg
down = record up { target_url = "tcp://db:3306"; status_code = 0; response_ms = 5000; is_up = 0 }

abbrev read_bit : Bytes → Option ProbeResultMsg
read_bit [] = none
read_bit (c ∷ b) = if c == 1 then some up else some down

abbrev idle : Worker ProbeResultMsg
idle = record { batch = []; tables = direct.tables; committed = []; status = running }

probe_results_arrive_example :
    (new : List Message) × ((ingest bits "s3cret"
        (some (record { region = "th"; results = some results }))
        brokered).1.producer.broker
      ≡ new)
    × ((run read_bit probe_batch flush_probes (then_tick (fetched new)) idle).tables.probe_results
        ≡ map (result_row (pos 1000) "th") results)
probe_results_arrive_example =
    probe_results_arrive bits "s3cret" "th" results brokered read_bit idle refl refl refl
      (λ k. refl) (refl, (refl, tt)) refl refl
