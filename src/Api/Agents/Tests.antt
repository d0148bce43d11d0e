-- ===== src/Api/Agents/Tests.antt =====
-- The theorems on tokens at an organisation with one host.
use bangmod_monitor.Prelude.{true, false, none, some, [], ◌∷◌, ◌≡◌, refl, arith, ◌≤◌}
use bangmod_monitor.Prelude.Text.{concat}
use bangmod_monitor.Api.Http.{answer}
use bangmod_monitor.Api.Cache.{get}
use bangmod_monitor.Api.Store.{Maria}
use bangmod_monitor.Api.Store.Hosts.{HostRow, count_hosts, host_by_hash}
use bangmod_monitor.Api.Store.Billing.{Plan, Subscription, subscription_of, plan_by_id}
use bangmod_monitor.Api.Agents.{Env, State, CreateHostReq, rotated, create, rotate, auth}
use bangmod_monitor.Api.Agents.Auth.{
  IsCoherent, by_table, auth-by_table, auth-IsCoherent, rotated_token_admitted,
}
use bangmod_monitor.Api.Store.Hosts.Table.{IsTable}
use bangmod_monitor.Api.Agents.Directory.{
  Actions, add, remove, renew, directory, act_all, answers, answered_all,
}
use bangmod_monitor.Api.Agents.Refinement.{act_all-directory}
use bangmod_monitor.Api.Agents.Tokens.{create_within_limit, rotate_revokes}

abbrev env : Env
env = record {
  db_fails = λ op. false;
  get_fails = false;
  set_fails = false;
  sha256 = λ t. concat "hash-" t;
  random = some "new";
  uuid = "h2";
  now = 1000;
}

abbrev host : HostRow
host = record {
  id = "h1";
  org_id = some "org1";
  name = "web";
  token_hash = "hash-old";
  region = "th";
  created_at = 900;
}

abbrev plan : Plan
plan = record {
  id = "plan-free";
  name = "Free";
  description = "";
  base_price_cents = 0;
  host_limit = 1;
  regions_included = 1;
  region_price_cents = 1000;
  stripe_price_id = "";
  is_active = true;
}

abbrev sub : Subscription
sub = record {
  id = "s1";
  org_id = "org1";
  plan_id = "plan-free";
  stripe_customer_id = "";
  stripe_subscription_id = "";
  status = "active";
  current_period_end = none;
  cancel_at_period_end = false;
}

abbrev maria : Maria
maria = record {
  orgs = [];
  users = [];
  hosts = host ∷ [];
  plans = plan ∷ [];
  subscriptions = sub ∷ [];
  org_regions = [];
  invoices = [];
}

-- The cache knows nothing.
abbrev cold : State
cold = record { maria = maria; cache = record { redis = []; enabled = true } }

-- The cache knows the token of the host.
abbrev warm : State
warm = record {
  maria = maria;
  cache = record { redis = ("token:hash-old", "h1:org1") ∷ []; enabled = true };
}

abbrev req : CreateHostReq
req = record { name = "db"; region = "sg" }

sub_found : subscription_of "org1" (sub ∷ []) ≡ some sub
unfolding subscription_of
sub_found = refl

plan_found : plan_by_id "plan-free" (plan ∷ []) ≡ some plan
unfolding plan_by_id
plan_found = refl

host_counted : count_hosts "org1" (host ∷ []) ≤ 1
unfolding count_hosts
host_counted = omega arith

create_within_limit_example :
    count_hosts "org1" (create env "org1" (some req) cold).1.maria.hosts ≤ 1
create_within_limit_example =
    create_within_limit env "org1" (some req) cold sub plan sub_found plan_found refl refl refl
      host_counted

rotate_answers :
    (s : State)
    → s.maria.hosts ≡ host ∷ []
    → (rotate env "org1" "h1" s).0 ≡ answer 200 (rotated "new")
unfolding rotate
rotate_answers s e = rw e refl

rotate_revokes_example :
    (host_by_hash "hash-new" (rotate env "org1" "h1" warm).1.maria.hosts ≡ some ("h1", "org1"))
    × (host_by_hash "hash-old" (rotate env "org1" "h1" warm).1.maria.hosts ≡ none)
    × ((rotate env "org1" "h1" warm).1.cache ≡ warm.cache)
rotate_revokes_example =
    rotate_revokes env "org1" "h1" "new" "hash-old" host warm (rotate_answers warm refl) (refl, tt)
      refl refl refl

cold-IsCoherent : IsCoherent cold
unfolding get
cold-IsCoherent hash host_id org_id h = cc

auth-by_table_example : (auth env "Bearer old" cold).1 ≡ by_table env (some "old") maria
auth-by_table_example = auth-by_table env "Bearer old" cold cold-IsCoherent refl

auth-IsCoherent_example : IsCoherent (auth env "Bearer old" cold).0
auth-IsCoherent_example = auth-IsCoherent env "Bearer old" cold cold-IsCoherent (refl, tt)

warm_hit : get false warm.cache "hash-old" ≡ some ("h1", "org1")
unfolding get
warm_hit = refl

rotated_token_admitted_example :
    (auth env "Bearer old" (rotate env "org1" "h1" warm).1).1 ≡ some ("h1", "org1")
rotated_token_admitted_example =
    rotated_token_admitted env env "org1" "h1" "new" "old" "h1" "org1" warm
      (rotate_answers warm refl) refl warm_hit

-- Another organisation fails to delete the host, its own rotates its token and creates a second.
abbrev requests : Actions
requests =
    (env, "org2", remove "h1")
    ∷ (env, "org1", renew "h1")
    ∷ (record env { random = some "third" }, "org1", add (some req))
    ∷ []

act_all-directory_example :
    (directory (act_all requests warm)
      ≡ answered_all requests (answers requests warm) (directory warm))
    × IsTable (act_all requests warm).maria.hosts
act_all-directory_example = act_all-directory requests warm (refl, tt, tt)
