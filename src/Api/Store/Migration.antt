-- ===== src/Api/Store/Migration.antt =====
-- api/storage/mariadb.go: the connection and Migrate, which creates the tables that are missing and
-- seeds the plans. A table that is not created holds no rows.
pub mod Reruns
mod Tests
use bangmod_monitor.Prelude.{
  ℕ, suc, Bool, true, false, Option, none, some, List, [], ◌∷◌, ◌++◌, if◌then◌else◌,
}
use bangmod_monitor.Api.Store.{Maria}
use bangmod_monitor.Api.Store.Billing.{Plan, plan_by_id, seeded_plans}

-- NewMaria: whether it returns a connection. Open reads the address, and the ping asks the server.
unfoldable new_maria : Bool → Bool → Bool
new_maria open_fails ping_fails = if open_fails then false else if ping_fails then false else true

-- Which tables there are
pub record Schema : Type 0 where
  pub orgs : Bool
  pub users : Bool
  pub hosts : Bool
  pub probe_targets : Bool
  pub plans : Bool
  pub subscriptions : Bool
  pub org_regions : Bool
  pub invoices : Bool
  -- the column `org_id` of hosts, which an old installation lacks
  pub hosts_org_id : Bool

pub record Database : Type 0 where
  pub schema : Schema
  pub maria : Maria

pub data Statement : Type 0 where
  create_orgs create_users create_hosts create_probe_targets : Statement
  add_org_id : Statement
  create_plans create_subscriptions create_org_regions create_invoices : Statement
  seed_plans : Statement

-- INSERT IGNORE: a row whose key is taken changes nothing.
abbrev add_missing : Plan → List Plan → Option Plan → List Plan
add_missing p rows none = rows ++ p ∷ []
add_missing p rows (some q) = rows

abbrev pub insert_plan : Plan → List Plan → List Plan
insert_plan p rows = add_missing p rows (plan_by_id p.id rows)

abbrev pub insert_plans : List Plan → List Plan → List Plan
insert_plans [] rows = rows
insert_plans (p ∷ ps) rows = insert_plans ps (insert_plan p rows)

-- CREATE TABLE IF NOT EXISTS makes hosts with its column `org_id`.
abbrev with_hosts : Schema → Schema
with_hosts s = if s.hosts then s else record s { hosts = true; hosts_org_id = true }

unfoldable execute : Statement → Database → Database
execute create_orgs d = record d { schema = record d.schema { orgs = true } }
execute create_users d = record d { schema = record d.schema { users = true } }
execute create_hosts d = record d { schema = with_hosts d.schema }
execute create_probe_targets d = record d { schema = record d.schema { probe_targets = true } }
execute add_org_id d = record d { schema = record d.schema { hosts_org_id = true } }
execute create_plans d = record d { schema = record d.schema { plans = true } }
execute create_subscriptions d = record d { schema = record d.schema { subscriptions = true } }
execute create_org_regions d = record d { schema = record d.schema { org_regions = true } }
execute create_invoices d = record d { schema = record d.schema { invoices = true } }
execute seed_plans d = record d {
  maria = record d.maria { plans = insert_plans seeded_plans d.maria.plans };
}

abbrev statements : List Statement
statements =
    create_orgs ∷ create_users ∷ create_hosts ∷ create_probe_targets ∷ add_org_id ∷ create_plans
    ∷ create_subscriptions ∷ create_org_regions ∷ create_invoices ∷ seed_plans ∷ []

-- The loop of Migrate from its statement number `n`: whether it ends without an error, and the
-- database then. It stops at the first error.
execute_from : (ℕ → Bool) → ℕ → List Statement → Database → Bool × Database
execute_from fails n [] d = (true, d)
execute_from fails n (s ∷ ss) d =
    let rest = execute_from fails (suc n) ss (execute s d) in if fails n then (false, d) else rest

unfoldable pub migrate : (ℕ → Bool) → Database → Bool × Database
unfolding execute_from execute
migrate fails d = execute_from fails 0 statements d
