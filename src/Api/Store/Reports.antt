-- ===== src/Api/Store/Reports.antt =====
-- api/storage/billing.go: the queries over invoices and over all organisations.
use bangmod_monitor.Prelude.{
  ℕ, suc, String, Bool, Option, none, some, List, [], ◌∷◌, map, str_eq, leb, find, filter, take,
}
use bangmod_monitor.Prelude.Int.{ℤ, pos, ◌+ℤ◌}
use bangmod_monitor.Prelude.Sort.{sort_by}
use bangmod_monitor.Api.Store.Users.{Org}
use bangmod_monitor.Api.Store.Hosts.{HostRow, count_hosts}
use bangmod_monitor.Api.Store.Billing.{
  Plan, Subscription, OrgRegion, Invoice, plan_by_id, subscription_of, count_regions,
}

abbrev newer_invoice : Invoice → Invoice → Bool
newer_invoice i j = leb j.created_at i.created_at

abbrev pub of_org : String → Invoice → Bool
of_org org i = str_eq i.org_id org

unfoldable pub list_invoices : String → ℕ → List Invoice → List Invoice
list_invoices org limit rows = take limit (sort_by newer_invoice (filter (of_org org) rows))

pub record OrgSummary : Type 0 where
  pub org_id : String
  pub org_name : String
  pub plan_name : String
  pub sub_status : String
  pub host_count : ℕ
  pub region_count : ℕ
  pub created_at : ℕ

abbrev plan_name_of : Option Plan → String
plan_name_of none = "none"
plan_name_of (some p) = p.name

abbrev status_of : Option Subscription → String
status_of none = "none"
status_of (some s) = s.status

abbrev plan_of : List Plan → Option Subscription → Option Plan
plan_of plans none = none
plan_of plans (some s) = plan_by_id s.plan_id plans

abbrev newer_org : Org → Org → Bool
newer_org o p = leb p.created_at o.created_at

module _ (hosts : List HostRow) (plans : List Plan) (subs : List Subscription)
    (regions : List OrgRegion) where
  -- The keys make the joins simple: an organisation has one subscription, a plan and a host one
  -- row, and a region one row for each organisation.
  summary : Org → OrgSummary
  summary o = record {
    org_id = o.id;
    org_name = o.name;
    plan_name = plan_name_of (plan_of plans (subscription_of o.id subs));
    sub_status = status_of (subscription_of o.id subs);
    host_count = count_hosts o.id hosts;
    region_count = count_regions o.id regions;
    created_at = o.created_at;
  }

  unfoldable pub list_all_orgs : List Org → List OrgSummary
  unfolding summary
  list_all_orgs orgs = map summary (sort_by newer_org orgs)

abbrev pub is_paid : Invoice → Bool
is_paid i = str_eq i.status "paid"

abbrev pub sum_cents : List Invoice → ℤ
sum_cents [] = pos 0
sum_cents (i ∷ rows) = i.amount_cents +ℤ sum_cents rows

-- COUNT(DISTINCT org_id)
abbrev count_orgs : List Invoice → ℕ
count_orgs [] = 0
count_orgs (i ∷ rows) =
    let rest = count_orgs rows in
    elim (find (of_org i.org_id) rows) [ none ↦ suc rest | some _ ↦ rest ]

unfoldable pub revenue : List Invoice → ℤ
revenue rows = sum_cents (filter is_paid rows)

unfoldable pub paid_orgs : List Invoice → ℕ
paid_orgs rows = count_orgs (filter is_paid rows)
