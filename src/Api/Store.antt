-- ===== src/Api/Store.antt =====
-- api/storage/mariadb.go and billing.go: the tables of the API server. A table is the list of its
-- rows in the order of insertion. A statement that reports an error has done nothing; which
-- statements fail is an argument of the handlers. Where a query by row reports an error, some
-- methods return an empty value beside it, which handlers that drop the error go on to use.
mod Fetch
pub mod Users
pub mod Hosts
pub mod Billing
pub mod Reports
pub mod Migration
pub use Fetch.{Fetched, row, missing, unreadable, fetch, coalesce}
use Users.{Org, User}
use Hosts.{HostRow}
use Billing.{Plan, Subscription, OrgRegion, Invoice}
use bangmod_monitor.Prelude.{List}

pub record Maria : Type 0 where
  pub orgs : List Org
  pub users : List User
  pub hosts : List HostRow
  pub plans : List Plan
  pub subscriptions : List Subscription
  pub org_regions : List OrgRegion
  pub invoices : List Invoice

-- The methods, to say which of them meets an error.
pub data Op : Type 0 where
  create_org create_user get_user_by_email : Op
  create_host list_hosts get_host delete_host rotate_token validate_token : Op
  get_plans get_plan create_subscription get_subscription update_subscription_stripe : Op
  update_subscription_status get_subscription_by_stripe_id : Op
  get_org_regions add_org_region remove_org_region count_org_regions : Op
  upsert_invoice list_invoices count_active_hosts list_all_orgs get_revenue_stats : Op
