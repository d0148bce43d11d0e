-- ===== src/Api/Reads.antt =====
-- The handlers that only read: Metrics of api/handler/host.go, Recent of handler/probe.go and of
-- handler/metrics.go (which no route leads to), Invoices of handler/billing.go, and
-- handler/admin.go. A query of ClickHouse fails as a whole.
pub mod Laws
mod Tests
use bangmod_monitor.Prelude.{
  ℕ, String, Bool, true, false, not, ◌&&◌, Option, none, some, List, str_eq, leb, ltb,
  if◌then◌else◌,
}
use bangmod_monitor.Prelude.Int.{ℤ, pos, negsuc, atoi}
use bangmod_monitor.Prelude.Text.{is_empty}
use bangmod_monitor.Api.Http.{Reply, answer, refuse, broken}
use bangmod_monitor.Api.Store.{
  Maria, Op, Fetched, row, missing, unreadable, fetch, get_host, list_invoices, list_all_orgs,
  get_revenue_stats,
}
use bangmod_monitor.Api.Store.Hosts.{HostRow, host_of}
use bangmod_monitor.Api.Store.Billing.{Invoice}
use bangmod_monitor.Api.Store.Reports
use bangmod_monitor.Api.Store.Reports.{OrgSummary}
use bangmod_monitor.Clickhouse.{Tables}
use bangmod_monitor.Clickhouse.Queries.{MetricPoint, ProbePoint, recent_metrics, probe_results}

pub record Env : Type 0 where
  pub db_fails : Op → Bool
  pub ch_fails : Bool

abbrev pub points : Env → String → ℕ → Tables → Reply (List MetricPoint)
points e host limit t = if e.ch_fails then broken 500 else answer 200 (recent_metrics host limit t)

abbrev pub if_found : Fetched HostRow → Reply (List MetricPoint) → Reply (List MetricPoint)
if_found (row h) r = r
if_found missing r = refuse 404 "host not found"
if_found unreadable r = refuse 404 "host not found"

-- HostHandler.Metrics
pub host_metrics : Env → String → String → Maria → Tables → Reply (List MetricPoint)
host_metrics e org id m t =
    if_found (fetch (e.db_fails get_host) (host_of id org m.hosts)) (points e id 100 t)

abbrev limit_from : Option ℤ → ℕ
limit_from none = 100
limit_from (some (negsuc n)) = 100
limit_from (some (pos n)) = if ltb 0 n && leb n 1000 then n else 100

-- The query parameter `limit`, "" where there is none.
pub limit_of_query : String → ℕ
limit_of_query v = if is_empty v then 100 else limit_from (atoi v)

-- MetricsHandler.Recent
unfoldable recent : Env → String → String → Tables → Reply (List MetricPoint)
recent e host limit t = points e host (limit_of_query limit) t

-- ProbeHandler.Recent
unfoldable pub recent_probes : Env → String → String → Tables → Reply (List ProbePoint)
recent_probes e url region t =
    if e.ch_fails then broken 500 else answer 200 (probe_results url region 100 t)

-- BillingHandler.Invoices
unfoldable pub invoices : Env → String → Maria → Reply (List Invoice)
invoices e org m =
    if e.db_fails list_invoices
    then broken 500
    else answer 200 (Reports.list_invoices org 24 m.invoices)

abbrev is_superadmin : String → Bool
is_superadmin role = str_eq role "superadmin"

-- AdminHandler.ListOrgs
unfoldable pub list_orgs : Env → String → Maria → Reply (List OrgSummary)
list_orgs e role m =
    if not (is_superadmin role)
    then refuse 403 "superadmin only"
    else if e.db_fails list_all_orgs
    then broken 500
    else answer 200 (Reports.list_all_orgs m.hosts m.plans m.subscriptions m.org_regions m.orgs)

-- AdminHandler.Stats: the revenue in cents, and the organisations that paid
unfoldable pub stats : Env → String → Maria → Reply (ℤ × ℕ)
stats e role m =
    if not (is_superadmin role)
    then refuse 403 "superadmin only"
    else if e.db_fails get_revenue_stats
    then broken 500
    else answer 200 (Reports.revenue m.invoices, Reports.paid_orgs m.invoices)
