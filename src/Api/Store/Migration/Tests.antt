-- ===== src/Api/Store/Migration/Tests.antt =====
-- The theorem on migrations at one that stops at its fourth statement.
use bangmod_monitor.Prelude.{ℕ, Bool, true, false, [], ◌≡◌, ◌==◌}
use bangmod_monitor.Api.Store.Migration.{Database, migrate}
use bangmod_monitor.Api.Store.Migration.Reruns.{never, migrated, migrate_reruns}

abbrev nothing : Database
nothing = record {
  schema = record {
    orgs = false;
    users = false;
    hosts = false;
    probe_targets = false;
    plans = false;
    subscriptions = false;
    org_regions = false;
    invoices = false;
    hosts_org_id = false;
  };
  maria = record {
    orgs = [];
    users = [];
    hosts = [];
    plans = [];
    subscriptions = [];
    org_regions = [];
    invoices = [];
  };
}

abbrev third_fails : ℕ → Bool
third_fails n = n == 3

migrate_reruns_example : migrate never (migrate third_fails nothing).1 ≡ (true, migrated nothing)
migrate_reruns_example = migrate_reruns third_fails nothing
