-- ===== src/Api/Server/Isolation.antt =====
-- The tenants of the server against each other: what one organisation asks for, and what agents
-- and probe nodes send, leaves the tables as they look to another.
use bangmod_monitor.Prelude.{
  String, false, Option, none, some, List, [], ◌∷◌, ◌≡◌, refl, ap, str_eq, filter,
}
use bangmod_monitor.Api.Store.{Maria}
use bangmod_monitor.Api.Store.Hosts.Laws.{hosts_in}
use bangmod_monitor.Api.Store.Reports
use bangmod_monitor.Api.Agents
use bangmod_monitor.Api.Agents.{HostReply, create, delete, rotate, auth}
use bangmod_monitor.Api.Agents.Tokens.{hosts_are_separate}
use bangmod_monitor.Api.Agents.Rest.{OnlyHosts, create-rest, delete-rest, rotate-rest, auth-rest}
use bangmod_monitor.Api.Accounts.{Claims}
use bangmod_monitor.Api.Accounts.Sessions.{require_auth}
use bangmod_monitor.Api.Billing
use bangmod_monitor.Api.Billing.Rest.{add_region_keeps, remove_region_keeps}
use bangmod_monitor.Api.Ingest.{AgentMetrics}
use bangmod_monitor.Api.Server.View.{
  LooksSame, LooksSame-refl, LooksSame-trans, regions_in, subscriptions_in, regions_in-insert,
  regions_in-delete,
}
use bangmod_monitor.Api.Server.Registration.{register-same}
use bangmod_monitor.Api.Server.Events.{IsWebhookApart, IsWebhookApart-same, webhook-same}
use bangmod_monitor.Api.Server.{
  World, Env, Customer, me, list_hosts, create_host, delete_host, rotate_token, host_points,
  overview, new_checkout, new_portal, regions, enable_region, disable_region, invoice_list,
  admin_orgs, admin_stats, Request, health, new_account, new_session, stripe_event, agent_report,
  probe_report, probe_results, customer, agents_state, guarded, ingest_guarded, serve_customer,
  serve, serve_all,
}

-- A handler of the hosts that keeps the hosts of `q`
hosts-same :
    (q : String) (s : Agents.State) (r : HostReply × Agents.State)
    → OnlyHosts s r
    → hosts_in q r.1.maria.hosts ≡ hosts_in q s.maria.hosts
    → LooksSame q s.maria r.1.maria
hosts-same q s r rest same = record {
  hosts = same;
  regions = ap (λ (m : Maria). regions_in q m.org_regions) rest;
  subscriptions = ap (λ (m : Maria). subscriptions_in q m.subscriptions) rest;
  invoices = ap (λ (m : Maria). filter (Reports.of_org q) m.invoices) rest;
  plans = ap (λ (m : Maria). m.plans) rest;
}

module _ (q : String) (e : Billing.Env) (org region : String) (m : Maria)
    (ne : str_eq org q ≡ false) where
  add_region-same : LooksSame q m (Billing.add_region e org region m).1
  add_region-same = add_region_keeps (LooksSame q m) e org region m (LooksSame-refl q m) (record {
    hosts = refl;
    regions = regions_in-insert org q ne e.uuid region e.now m.org_regions;
    subscriptions = refl;
    invoices = refl;
    plans = refl;
  })

  remove_region-same : LooksSame q m (Billing.remove_region e org region m).1
  remove_region-same =
      remove_region_keeps (LooksSame q m) e org region m (LooksSame-refl q m) (record {
        hosts = refl;
        regions = regions_in-delete org q ne region m.org_regions;
        subscriptions = refl;
        invoices = refl;
        plans = refl;
      })

customer-same :
    (q : String) (e : Env) (c : Claims) (r : Customer) (w : World)
    → str_eq c.org_id q ≡ false
    → LooksSame q w.maria (serve_customer e c r w).1.maria
unfolding serve_customer
customer-same q e c (create_host req) w ne =
    let s = agents_state w in
    hosts-same q s (create e.agents c.org_id req s) (create-rest e.agents c.org_id req s)
      (hosts_are_separate e.agents c.org_id q "" req s ne).0
customer-same q e c (delete_host id) w ne =
    let s = agents_state w in
    hosts-same q s (delete e.agents c.org_id id s) (delete-rest e.agents c.org_id id s)
      (hosts_are_separate e.agents c.org_id q id none s ne).1
customer-same q e c (rotate_token id) w ne =
    let s = agents_state w in
    hosts-same q s (rotate e.agents c.org_id id s) (rotate-rest e.agents c.org_id id s)
      (hosts_are_separate e.agents c.org_id q id none s ne).2
customer-same q e c (enable_region r) w ne = add_region-same q e.billing c.org_id r w.maria ne
customer-same q e c (disable_region r) w ne = remove_region-same q e.billing c.org_id r w.maria ne
customer-same q e c me w ne = LooksSame-refl q w.maria
customer-same q e c list_hosts w ne = LooksSame-refl q w.maria
customer-same q e c (host_points id) w ne = LooksSame-refl q w.maria
customer-same q e c overview w ne = LooksSame-refl q w.maria
customer-same q e c (new_checkout plan) w ne = LooksSame-refl q w.maria
customer-same q e c new_portal w ne = LooksSame-refl q w.maria
customer-same q e c regions w ne = LooksSame-refl q w.maria
customer-same q e c invoice_list w ne = LooksSame-refl q w.maria
customer-same q e c admin_orgs w ne = LooksSame-refl q w.maria
customer-same q e c admin_stats w ne = LooksSame-refl q w.maria

-- The session is not of `q`: there is none, or it is of another organisation.
abbrev IsForeign : String → Option Claims → Type 0
IsForeign q none = Unit
IsForeign q (some c) = str_eq c.org_id q ≡ false

-- The request is not of `q`, with these tables: it does not register an organisation under the id
-- `q`, it brings no session of `q`, and it brings no event of Stripe for `q`.
abbrev IsApart : String → Maria → Env → Request → Type 0
IsApart q m e health = Unit
IsApart q m e (new_account req) = str_eq e.accounts.org_id q ≡ false
IsApart q m e (new_session req) = Unit
IsApart q m e (stripe_event body) = IsWebhookApart q e.billing m body
IsApart q m e (agent_report header body) = Unit
IsApart q m e (probe_report secret body) = Unit
IsApart q m e (probe_results url region) = Unit
IsApart q m e (customer header r) = IsForeign q (require_auth e.verify header)

IsApart-same :
    (q : String) (e : Env) (r : Request) {m n : Maria}
    → LooksSame q m n
    → IsApart q m e r
    → IsApart q n e r
IsApart-same q e health same h = h
IsApart-same q e (new_account req) same h = h
IsApart-same q e (new_session req) same h = h
IsApart-same q e (stripe_event body) same h = IsWebhookApart-same q e.billing body same h
IsApart-same q e (agent_report header body) same h = h
IsApart-same q e (probe_report secret body) same h = h
IsApart-same q e (probe_results url region) same h = h
IsApart-same q e (customer header r) same h = h

guarded-same :
    (q : String) (e : Env) (o : Option Claims) (r : Customer) (w : World)
    → IsForeign q o
    → LooksSame q w.maria (guarded e o r w).1.maria
guarded-same q e none r w h = LooksSame-refl q w.maria
guarded-same q e (some c) r w h = customer-same q e c r w h

ingest-same :
    (q : String) (e : Env) (body : Option AgentMetrics) (w : World)
    (r : Agents.State × Option (String × String))
    → r.0.maria ≡ w.maria
    → LooksSame q w.maria (ingest_guarded e body w r).1.maria
ingest-same q e body w (s, none) same = rw same (LooksSame-refl q w.maria)
ingest-same q e body w (s, some (host_id, org_id)) same = rw same (LooksSame-refl q w.maria)

serve-same :
    (q : String) (e : Env) (r : Request) (w : World)
    → IsApart q w.maria e r
    → LooksSame q w.maria (serve e r w).1.maria
unfolding serve
serve-same q e health w h = LooksSame-refl q w.maria
serve-same q e (new_account req) w h = register-same q e.accounts req w.maria h
serve-same q e (new_session req) w h = LooksSame-refl q w.maria
serve-same q e (stripe_event body) w h = webhook-same q e.billing body w.maria h
serve-same q e (agent_report header body) w h =
    ingest-same q e body w (auth e.agents header (agents_state w))
      (auth-rest e.agents header (agents_state w))
serve-same q e (probe_report secret body) w h = LooksSame-refl q w.maria
serve-same q e (probe_results url region) w h = LooksSame-refl q w.maria
serve-same q e (customer header r) w h = guarded-same q e (require_auth e.verify header) r w h

-- Each request of the list is apart from `q`, with these tables.
abbrev pub AreApart : String → Maria → List (Env × Request) → Type 0
AreApart q m [] = Unit
AreApart q m ((e, r) ∷ rs) = IsApart q m e r × AreApart q m rs

AreApart-same :
    (q : String) (rs : List (Env × Request)) {m n : Maria}
    → LooksSame q m n
    → AreApart q m rs
    → AreApart q n rs
AreApart-same q [] same h = tt
AreApart-same q ((e, r) ∷ rs) same (p, h) = (IsApart-same q e r same p, AreApart-same q rs same h)

-- Whatever requests come that are not of an organisation, in any order and whatever fails in
-- them, the tables look to it as before: its hosts, its regions, its subscription, its invoices
-- and the plans. Of it are only a registration that draws its id, the requests with a session of
-- it, and some events of Stripe: where its rows, as they were before, have the identifier by which
-- the handler looks for the subscription, which is the empty one for a checkout, or have the
-- identifier of the new invoice; and, if its id is empty, every checkout and every paid invoice.
pub serve_all-LooksSame :
    (q : String) (rs : List (Env × Request)) (w : World)
    → AreApart q w.maria rs
    → LooksSame q w.maria (serve_all rs w).maria
unfolding serve_all
serve_all-LooksSame q [] w h = LooksSame-refl q w.maria
serve_all-LooksSame q ((e, r) ∷ rs) w (p, h) =
    let one = serve-same q e r w p in
    LooksSame-trans one (serve_all-LooksSame q rs (serve e r w).1 (AreApart-same q rs one h))
