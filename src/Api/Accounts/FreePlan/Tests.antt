-- ===== src/Api/Accounts/FreePlan/Tests.antt =====
-- The theorem on a new organisation at one that creates its first host.
use bangmod_monitor.Prelude.{true, false, none, some, [], ◌∷◌, ◌≡◌, refl, str_eq, List}
use bangmod_monitor.Prelude.Text.{concat}
use bangmod_monitor.Api.Http.{answer}
use bangmod_monitor.Api.Store.Users.{user_by_email, insert_org, insert_user}
use bangmod_monitor.Api.Store.Hosts.{HostRow, insert_host}
use bangmod_monitor.Api.Store.Billing.{plan_by_id}
use bangmod_monitor.Api.Store.Migration.{Database, migrate}
use bangmod_monitor.Api.Store.Migration.Reruns.{never}
use bangmod_monitor.Api.Agents
use bangmod_monitor.Api.Agents.{CreateHostReq, create}
use bangmod_monitor.Api.Agents.Limit.{limited}
use bangmod_monitor.Api.Accounts.{Env, RegisterReq, Session, register}
use bangmod_monitor.Api.Accounts.FreePlan.{free_plan_one_host}

abbrev nothing : Database
nothing = record {
  schema = record {
    orgs = false;
    users = false;
    hosts = false;
    probe_targets = false;
    plans = false;
    subscriptions = false;
    org_regions = false;
    invoices = false;
    hosts_org_id = false;
  };
  maria = record {
    orgs = [];
    users = [];
    hosts = [];
    plans = [];
    subscriptions = [];
    org_regions = [];
    invoices = [];
  };
}

abbrev env : Env
env = record {
  db_fails = λ op. false;
  same_email = str_eq;
  is_email = λ s. true;
  rune_count = λ s. 8;
  hash_password = λ p. some (concat "$" p);
  check_password = λ h p. str_eq h (concat "$" p);
  org_id = "o1";
  user_id = "u1";
  sub_id = "s1";
  region_id = "r1";
  now = 1000;
  stripe_enabled = true;
  create_customer = λ mail name. some "cus_1";
  sign = λ now claims. some "jwt";
}

abbrev req : RegisterReq
req = record { org_name = "Example"; email = "a@example.org"; password = "passw0rd" }

abbrev session : Session
session = record { token = "jwt"; user_id = "u1"; org_id = "o1"; email = "a@example.org" }

abbrev agents : Agents.Env
agents = record {
  db_fails = λ op. false;
  get_fails = false;
  set_fails = false;
  sha256 = λ t. concat "hash-" t;
  random = some "new";
  uuid = "h1";
  now = 1000;
}

abbrev web : CreateHostReq
web = record { name = "web"; region = "th" }

abbrev state : Agents.State
state = record {
  maria = (register env (some req) (migrate never nothing).1.maria).1;
  cache = record { redis = []; enabled = false };
}

abbrev stored : List HostRow
stored =
    (record {
      id = "h1";
      org_id = some "o1";
      name = "web";
      token_hash = "hash-new";
      region = "th";
      created_at = 1000;
    })
    ∷ []

migrates : (migrate never nothing).0 ≡ true
unfolding migrate
migrates = refl

no_plan : plan_by_id "plan-free" nothing.maria.plans ≡ none
unfolding plan_by_id
no_plan = refl

registers : (register env (some req) (migrate never nothing).1.maria).0 ≡ answer 201 session
unfolding register migrate user_by_email insert_org insert_user
registers = refl

inserts : insert_host "h1" "o1" "web" "hash-new" "th" 1000 state.maria.hosts ≡ some stored
unfolding register migrate user_by_email insert_org insert_user insert_host
inserts = refl

free_plan_one_host_example :
    create agents "o1" (some web) state ≡ limited 1 agents "o1" web "new" stored state
free_plan_one_host_example =
    free_plan_one_host never nothing env req session agents web "new" stored state migrates no_plan
      registers refl refl refl (λ op. refl) refl refl inserts
