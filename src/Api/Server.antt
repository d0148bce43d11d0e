-- ===== src/Api/Server.antt =====
-- api/main.go: the parts of the API server put together, and its routes. A request comes as the
-- endpoint that gin's router chooses for it, with the header that the endpoint's guard reads and
-- the body as the handler decodes it. The gRPC methods are in Api.Ingest and Api.Probes.
pub mod View
pub mod Registration
pub mod Events
pub mod Isolation
pub mod Arrival
pub mod Reading
mod Tests
use bangmod_monitor.Prelude.{
  ℕ, String, Bool, true, false, not, Option, none, some, List, [], ◌∷◌, if◌then◌else◌,
}
use bangmod_monitor.Prelude.Int.{ℤ}
use bangmod_monitor.Prelude.Text.{is_empty}
use bangmod_monitor.Clickhouse.{Tables}
use bangmod_monitor.Clickhouse.Queries.{MetricPoint, ProbePoint}
use bangmod_monitor.Mq.{Producer, new_producer}
use bangmod_monitor.Api.Http.{Reply}
use bangmod_monitor.Api.Cache.{TokenCache}
use bangmod_monitor.Api.Config.{Config}
use bangmod_monitor.Api.Store.{Maria}
use bangmod_monitor.Api.Store.Billing.{Invoice}
use bangmod_monitor.Api.Store.Reports.{OrgSummary}
use bangmod_monitor.Api.Agents
use bangmod_monitor.Api.Agents.{CreateHostReq, HostReply, auth, list, create, delete, rotate}
use bangmod_monitor.Api.Accounts
use bangmod_monitor.Api.Accounts.{
  Claims, RegisterReq, LoginReq, Session, AccountReply, register, login,
}
use bangmod_monitor.Api.Accounts.Sessions.{require_auth}
use bangmod_monitor.Api.Ingest
use bangmod_monitor.Api.Ingest.{AgentMetrics, handle}
use bangmod_monitor.Api.Probes
use bangmod_monitor.Api.Probes.{ProbePayload, ingest}
use bangmod_monitor.Api.Reads
use bangmod_monitor.Api.Reads.{host_metrics, recent_probes, invoices, list_orgs, stats}
use bangmod_monitor.Api.Billing
use bangmod_monitor.Api.Billing.{
  Event, BillingReply, webhook, get_regions, add_region, remove_region,
}
use bangmod_monitor.Api.Billing.Pages.{overview_page, checkout, portal}

-- What the server keeps.
pub record World : Type 0 where
  pub maria : Maria
  pub cache : TokenCache
  pub tables : Tables
  pub producer : Producer

-- What the environment answers in one request.
pub record Env : Type 0 where
  pub agents : Agents.Env
  pub accounts : Accounts.Env
  pub ingest : Ingest.Env
  pub probes : Probes.Env
  pub billing : Billing.Env
  pub reads : Reads.Env
  -- the check of a session's token
  pub verify : String → Option Claims

-- The group behind RequireAuth
pub data Customer : Type 0 where
  me list_hosts : Customer
  create_host : Option CreateHostReq → Customer
  delete_host rotate_token host_points : String → Customer
  overview : Customer
  new_checkout : Option String → Customer
  new_portal regions : Customer
  enable_region disable_region : String → Customer
  invoice_list admin_orgs admin_stats : Customer

pub data Request : Type 0 where
  health : Request
  new_account : Option RegisterReq → Request
  new_session : Option LoginReq → Request
  stripe_event : Option (Option Event) → Request
  -- the header Authorization, and the body
  agent_report : String → Option AgentMetrics → Request
  -- the header X-Node-Secret, and the body
  probe_report : String → Option ProbePayload → Request
  -- the parameters url and region
  probe_results : String → String → Request
  -- the header Authorization
  customer : String → Customer → Request

pub data Response : Type 0 where
  -- whether the cache is enabled
  healthy : Bool → Response
  account : AccountReply → Response
  billing : BillingReply → Response
  ingested : Reply String → Response
  probed : Reply ℕ → Response
  probe_points : Reply (List ProbePoint) → Response
  -- the 401 of a guard
  unauthorized : Response
  myself : Claims → Response
  hosts : HostReply → Response
  points : Reply (List MetricPoint) → Response
  invoiced : Reply (List Invoice) → Response
  orgs : Reply (List OrgSummary) → Response
  totals : Reply (ℤ × ℕ) → Response

abbrev pub agents_state : World → Agents.State
agents_state w = record { maria = w.maria; cache = w.cache }

abbrev with_maria : World → Maria → World
with_maria w m = record w { maria = m }

abbrev with_agents : World → Agents.State → World
with_agents w s = record w { maria = s.maria; cache = s.cache }

abbrev host_reply : World → HostReply × Agents.State → Response × World
host_reply w (reply, s) = (hosts reply, with_agents w s)

abbrev billing_reply : World → BillingReply × Maria → Response × World
billing_reply w (reply, m) = (billing reply, with_maria w m)

-- The handlers of the group, for the claims of the session
pub serve_customer : Env → Claims → Customer → World → Response × World
serve_customer e c me w = (myself c, w)
serve_customer e c list_hosts w = (hosts (list e.agents c.org_id (agents_state w)), w)
serve_customer e c (create_host req) w =
    host_reply w (create e.agents c.org_id req (agents_state w))
serve_customer e c (delete_host id) w = host_reply w (delete e.agents c.org_id id (agents_state w))
serve_customer e c (rotate_token id) w = host_reply w (rotate e.agents c.org_id id (agents_state w))
serve_customer e c (host_points id) w =
    (points (host_metrics e.reads c.org_id id w.maria w.tables), w)
serve_customer e c overview w = (billing (overview_page e.billing c.org_id w.maria), w)
serve_customer e c (new_checkout plan) w = (billing (checkout e.billing c.org_id plan w.maria), w)
serve_customer e c new_portal w = (billing (portal e.billing c.org_id w.maria), w)
serve_customer e c regions w = (billing (get_regions e.billing c.org_id w.maria), w)
serve_customer e c (enable_region r) w = billing_reply w (add_region e.billing c.org_id r w.maria)
serve_customer e c (disable_region r) w =
    billing_reply w (remove_region e.billing c.org_id r w.maria)
serve_customer e c invoice_list w = (invoiced (invoices e.reads c.org_id w.maria), w)
serve_customer e c admin_orgs w = (orgs (list_orgs e.reads c.role w.maria), w)
serve_customer e c admin_stats w = (totals (stats e.reads c.role w.maria), w)

abbrev pub guarded : Env → Option Claims → Customer → World → Response × World
guarded e none r w = (unauthorized, w)
guarded e (some c) r w = serve_customer e c r w

abbrev pub ingest_guarded :
    Env → Option AgentMetrics → World → Agents.State × Option (String × String) → Response × World
ingest_guarded e body w (s, none) = (unauthorized, with_agents w s)
ingest_guarded e body w (s, some (host_id, org_id)) =
    let (reply, i) =
      handle e.ingest host_id body (record { tables = w.tables; producer = w.producer }) in
    (
      ingested reply,
      record w { maria = s.maria; cache = s.cache; tables = i.tables; producer = i.producer },
    )

abbrev account_reply : World → AccountReply × Maria → Response × World
account_reply w (reply, m) = (account reply, with_maria w m)

abbrev probe_reply : World → Reply ℕ × Probes.State → Response × World
probe_reply w (reply, s) = (probed reply, record w { tables = s.tables; producer = s.producer })

-- The routes of main
pub serve : Env → Request → World → Response × World
unfolding serve_customer
serve e health w = (healthy w.cache.enabled, w)
serve e (new_account req) w = account_reply w (register e.accounts req w.maria)
serve e (new_session req) w = (account (login e.accounts req w.maria), w)
serve e (stripe_event event) w = billing_reply w (webhook e.billing event w.maria)
serve e (agent_report header body) w =
    ingest_guarded e body w (auth e.agents header (agents_state w))
serve e (probe_report secret body) w =
    probe_reply w
      (ingest e.probes secret body (record { tables = w.tables; producer = w.producer }))
serve e (probe_results url region) w = (probe_points (recent_probes e.reads url region w.tables), w)
serve e (customer header r) w = guarded e (require_auth e.verify header) r w

-- The server's life: requests one after another, each in its own environment.
pub serve_all : List (Env × Request) → World → World
serve_all [] w = w
serve_all ((e, r) ∷ rs) w = serve_all rs (serve e r w).1

-- How the steps of the start-up end: whether each succeeds.
pub record Boot : Type 0 where
  pub opens_maria : Bool
  pub migrates_maria : Bool
  pub opens_clickhouse : Bool
  pub migrates_clickhouse : Bool
  pub dials_broker : Bool

-- Which optional parts are on: the cache, Stripe, the broker and gRPC
pub record Parts : Type 0 where
  pub redis : Bool
  pub stripe : Bool
  pub broker : Bool
  pub grpc : Bool

-- The start of main: `none` is one of its calls of log.Fatalf.
abbrev parts_of : Config → Option Producer → Option Parts
parts_of cfg none = none
parts_of cfg (some p) = some (record {
  redis = not (is_empty cfg.redis_addr);
  stripe = not (is_empty cfg.stripe_secret_key);
  broker = p.enabled;
  grpc = not (is_empty cfg.grpc_port);
})

unfoldable boot : Config → Boot → Option Parts
boot cfg b =
    if not b.opens_maria
    then none
    else if not b.migrates_maria
    then none
    else if not b.opens_clickhouse
    then none
    else if not b.migrates_clickhouse
    then none
    else parts_of cfg (new_producer cfg.redpanda_brokers (not b.dials_broker))
