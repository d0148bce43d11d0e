-- ===== src/Api/Server/Tests.antt =====
-- The theorems on the whole server at two organisations.
use bangmod_monitor.Prelude.{
  String, true, false, Option, none, some, List, [], ◌∷◌, ◌++◌, All, ◌≡◌, refl, str_eq,
  if◌then◌else◌,
}
use bangmod_monitor.Prelude.Int.{pos}
use bangmod_monitor.Prelude.Text.{concat}
use bangmod_monitor.Api.Store.Hosts.{HostRow}
use bangmod_monitor.Api.Store.Billing.{Subscription, Invoice}
use bangmod_monitor.Api.Billing.{checkout_completed, invoice_paid, invoice_payment_failed}
use bangmod_monitor.Api.Accounts.{Claims}
use bangmod_monitor.Api.Config.{load}
use bangmod_monitor.Mq.{new_producer}
use bangmod_monitor.Api.Accounts.Sessions.{require_auth}
use bangmod_monitor.Api.Server.View.{LooksSame}
use bangmod_monitor.Api.Server.Isolation.{AreApart, serve_all-LooksSame}
use bangmod_monitor.Api.Server.Reading.{others_do_not_show}
use bangmod_monitor.Api.Server.Arrival.{received, posts, answers, IsAccepted, posts_arrive}
use bangmod_monitor.Prelude.Json.{Bytes}
use bangmod_monitor.Agent.Metrics.{Metrics}
use bangmod_monitor.Agent.Wal.Queue.{Holds, latest}
use bangmod_monitor.Agent.Cycle.{cycle}
use bangmod_monitor.Api.Cache.{get}
use bangmod_monitor.Api.Store.Hosts.{host_by_hash}
use bangmod_monitor.Api.Agents.Known.{Knows}
use bangmod_monitor.Api.Ingest.{AgentMetrics}
use bangmod_monitor.Api.Ingest.Arrival.{with_collections}
use bangmod_monitor.Api.Ingest.Arrival.Collected.{collected}
use bangmod_monitor.Api.Ingest.Arrival.Sample.{collection, codec, agent, agent-Holds, sunny}
use bangmod_monitor.Api.Server.{
  World, Env, agents_state, list_hosts, create_host, delete_host, Request, new_account,
  stripe_event, customer, serve, serve_all, boot,
}

abbrev session_of : String → Claims
session_of org = record { user_id = concat "u-" org; org_id = org; email = org; role = "admin" }

-- The token of a session is the organisation's id.
abbrev verify : String → Option Claims
verify token =
    if str_eq token "o1"
    then some (session_of "o1")
    else if str_eq token "o2"
    then some (session_of "o2")
    else none

abbrev env : Env
env = record {
  agents = record {
    db_fails = λ op. false;
    get_fails = false;
    set_fails = false;
    sha256 = concat "#";
    random = some "fresh";
    uuid = "h9";
    now = 5;
  };
  accounts = record {
    db_fails = λ op. false;
    same_email = str_eq;
    is_email = λ s. true;
    rune_count = λ s. 8;
    hash_password = λ p. some (concat "$" p);
    check_password = λ h p. str_eq h (concat "$" p);
    org_id = "o3";
    user_id = "u3";
    sub_id = "s3";
    region_id = "r3";
    now = 5;
    stripe_enabled = false;
    create_customer = λ mail name. none;
    sign = λ now claims. some "jwt";
  };
  ingest = record {
    agent_fails = false;
    disk_fails = false;
    net_fails = false;
    write_fails = false;
    marshal = λ m. some [];
    float32 = λ x. x;
  };
  probes = record {
    node_secret = "";
    now = pos 5;
    write_fails = λ n. false;
    insert_fails = λ n. false;
    marshal = λ m. some [];
  };
  billing = record {
    db_fails = λ op. false;
    uuid = "r9";
    now = 5;
    stripe_enabled = false;
    app_base_url = "http://localhost:3000";
    checkout_session = λ a b. none;
    portal_session = λ a b. none;
  };
  reads = record { db_fails = λ op. false; ch_fails = false };
  verify = verify;
}

abbrev host : String → String → HostRow
host id org = record {
  id = id;
  org_id = some org;
  name = id;
  token_hash = concat "#" id;
  region = "th";
  created_at = 1;
}

-- The subscription at Stripe has the organisation's id with an `s` before it.
abbrev subscription : String → Subscription
subscription org = record {
  id = org;
  org_id = org;
  plan_id = "plan-pro";
  stripe_customer_id = org;
  stripe_subscription_id = concat "s" org;
  status = "active";
  current_period_end = none;
  cancel_at_period_end = false;
}

abbrev invoice : String → String → Invoice
invoice id org = record {
  id = id;
  org_id = org;
  stripe_invoice_id = "in_1";
  amount_cents = pos 4900;
  currency = "usd";
  status = "paid";
  period_start = pos 0;
  period_end = pos 9;
  created_at = 1;
}

abbrev world : World
world = record {
  maria = record {
    orgs = [];
    users = [];
    hosts = host "h1" "o1" ∷ host "h2" "o2" ∷ [];
    plans = [];
    subscriptions = subscription "o1" ∷ subscription "o2" ∷ [];
    org_regions = [];
    invoices = invoice "i1" "o1" ∷ [];
  };
  cache = record { redis = []; enabled = true };
  tables = record { agent_metrics = []; disk_metrics = []; net_metrics = []; probe_results = [] };
  producer = record { enabled = false; broker = [] };
}

-- The second organisation tries to delete a host of the first, deletes its own and creates
-- another; a third one registers; Stripe tells of a payment of the second, of one that failed, and
-- of a checkout.
abbrev traffic : List (Env × Request)
traffic =
    (env, customer "Bearer o2" (delete_host "h1"))
    ∷ (env, customer "Bearer o2" (delete_host "h2"))
    ∷ (env, customer "Bearer o2" (create_host (some (record { name = "db"; region = "sg" }))))
    ∷ (env, customer "no bearer" (delete_host "h1"))
    ∷ (env, new_account (some (record { org_name = "C"; email = "c"; password = "passw0rd" })))
    ∷ (env, stripe_event (some (some (invoice_paid (some ("so2", "o2")) (invoice "" "")))))
    ∷ (env, stripe_event (some (some (invoice_payment_failed (some "so2")))))
    ∷ (env, stripe_event (some (some (checkout_completed (some ("o2", "so2", "active", pos 9))))))
    ∷ []

traffic-AreApart : AreApart "o1" world.maria traffic
unfolding require_auth
traffic-AreApart = (
  refl,
  (
    refl,
    (refl, (tt, (refl, ((refl, (refl, tt), (refl, tt)), ((refl, tt), ((refl, (refl, tt)), tt)))))),
  ),
)

serve_all-LooksSame_example : LooksSame "o1" world.maria (serve_all traffic world).maria
serve_all-LooksSame_example = serve_all-LooksSame "o1" traffic world traffic-AreApart

others_do_not_show_example :
    (serve env (customer "Bearer o1" list_hosts) (serve_all traffic world)).0
    ≡ (serve env (customer "Bearer o1" list_hosts) world).0
unfolding require_auth
others_do_not_show_example =
    others_do_not_show traffic world env "Bearer o1" (session_of "o1") list_hosts traffic-AreApart
      refl tt

world-Knows : Knows env.agents "h1" "h1" "o1" (agents_state world)
unfolding host_by_hash get
world-Knows = record {
  coherent = λ hash host_id org_id h. cc;
  plain = (refl, (refl, tt));
  found = refl;
}

abbrev decode : Bytes → Option AgentMetrics
decode b = some (received collection)

abbrev encode : String → Metrics → Bytes
encode token c = 49 ∷ []

posts_arrive_example :
    let sent = latest 2000 (collection ∷ []) ++ collection ∷ [] in
    let requests = posts env decode encode "h1" sent in
    ((cycle codec sunny collection agent).delivered ≡ [] ++ sent)
    × Holds codec (cycle codec sunny collection agent).file []
    × All IsAccepted (answers requests world)
    × ((serve_all requests world).tables
        ≡ with_collections (collected "default" (λ x. x) "h1") sent world.tables)
posts_arrive_example =
    posts_arrive codec sunny collection agent (collection ∷ []) env decode encode "h1" "h1" "o1"
      world (λ n. refl) refl agent-Holds (refl, (refl, tt)) refl
      (record { agent = refl; disk = refl; net = refl }) world-Knows refl

-- The server does not start without its broker, where one is configured.
no_broker :
    boot
      (record (load (λ key. "")) { redpanda_brokers = "localhost:19092" ∷ [] })
      (record {
        opens_maria = true;
        migrates_maria = true;
        opens_clickhouse = true;
        migrates_clickhouse = true;
        dials_broker = false;
      })
    ≡ none
unfolding boot new_producer
no_broker = refl
