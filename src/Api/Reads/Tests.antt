-- ===== src/Api/Reads/Tests.antt =====
-- The theorems on the reading handlers at a host with three points.
use bangmod_monitor.Prelude.{ℕ, String, false, some, [], ◌∷◌, ◌≡◌, refl}
use bangmod_monitor.Prelude.Int.{pos}
use bangmod_monitor.Api.Http.{answer}
use bangmod_monitor.Api.Store.{Maria}
use bangmod_monitor.Api.Store.Hosts.{host_of}
use bangmod_monitor.Prelude.{List}
use bangmod_monitor.Clickhouse.{Tables, AgentMetricRow}
use bangmod_monitor.Clickhouse.Queries.{MetricPoint, recent_metrics}
use bangmod_monitor.Prelude.Sort.{sort_by}
use bangmod_monitor.Api.Reads.{Env, host_metrics}
use bangmod_monitor.Api.Reads.Laws.{HasHost, IsNewest, host_metrics_own}

abbrev env : Env
env = record { db_fails = λ op. false; ch_fails = false }

abbrev at_time : ℕ → String → AgentMetricRow
at_time t host = record {
  timestamp = pos t;
  host_id = host;
  hostname = "web";
  region = "th";
  cpu_percent = 0;
  cpu_cores = 4;
  mem_total = 8;
  mem_used = 4;
  mem_percent = 0;
}

abbrev tables : Tables
tables = record {
  agent_metrics = at_time 5 "h1" ∷ at_time 9 "h2" ∷ at_time 7 "h1" ∷ [];
  disk_metrics = [];
  net_metrics = [];
  probe_results = [];
}

abbrev maria : Maria
maria = record {
  orgs = [];
  users = [];
  hosts =
      (record {
        id = "h1";
        org_id = some "o1";
        name = "web";
        token_hash = "x";
        region = "th";
        created_at = 1;
      })
      ∷ [];
  plans = [];
  subscriptions = [];
  org_regions = [];
  invoices = [];
}

abbrev at_seconds : ℕ → MetricPoint
at_seconds t = record { timestamp = pos t; cpu_percent = 0; mem_percent = 0 }

abbrev answered : List MetricPoint
answered = at_seconds 7 ∷ at_seconds 5 ∷ []

newest_first : host_metrics env "o1" "h1" maria tables ≡ answer 200 answered
unfolding host_metrics host_of recent_metrics sort_by
newest_first = refl

host_metrics_own_example : HasHost "h1" "o1" maria.hosts × IsNewest "h1" 100 tables answered
host_metrics_own_example = host_metrics_own env "o1" "h1" maria tables answered newest_first
