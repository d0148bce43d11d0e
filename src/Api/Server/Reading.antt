-- ===== src/Api/Server/Reading.antt =====
-- What the pages of an organisation show: its own view of the tables, and nothing else.
use bangmod_monitor.Prelude.{
  String, Option, none, some, List, [], ◌≡◌, refl, ap, ◌∙◌, if◌then◌else◌,
}
use bangmod_monitor.Prelude.Text.{is_empty}
use bangmod_monitor.Api.Http.{broken}
use bangmod_monitor.Api.Store.{
  Maria, Fetched, row, missing, unreadable, fetch, get_plan, get_subscription, get_org_regions,
}
use bangmod_monitor.Api.Store.Billing.{Plan, Subscription, plan_by_id}
use bangmod_monitor.Api.Agents.{list}
use bangmod_monitor.Api.Accounts.{Claims}
use bangmod_monitor.Api.Accounts.Sessions.{require_auth}
use bangmod_monitor.Api.Billing
use bangmod_monitor.Api.Billing.{my_subscription, regions_or_none, get_regions}
use bangmod_monitor.Api.Billing.Pages.{
  overview_page, overview_with, overview_of, checkout, checkout_plan, portal, portal_for,
}
use bangmod_monitor.Api.Reads.{invoices}
use bangmod_monitor.Api.Server.View.{
  LooksSame, hosts_of-same, subscription_of-same, count_hosts-same, regions_of-same,
  list_invoices-same,
}
use bangmod_monitor.Api.Server.Isolation.{AreApart, serve_all-LooksSame}
use bangmod_monitor.Api.Server.{
  World, Env, Customer, me, list_hosts, create_host, delete_host, rotate_token, host_points,
  overview, new_checkout, new_portal, regions, enable_region, disable_region, invoice_list,
  admin_orgs, admin_stats, Request, customer, serve_customer, serve, serve_all, billing,
}

module _ (q : String) (e : Billing.Env) {m n : Maria} (same : LooksSame q m n) where
  subscription-same : my_subscription e q n ≡ my_subscription e q m
  subscription-same = ap (fetch (e.db_fails get_subscription)) (subscription_of-same q same)

  regions_or_none-same : regions_or_none e q n ≡ regions_or_none e q m
  regions_or_none-same =
      ap (λ rs. if e.db_fails get_org_regions then [] else rs) (regions_of-same q same)

  overview_of-same :
      (sub : Subscription) (f : Fetched Plan) → overview_of e q n sub f ≡ overview_of e q m sub f
  overview_of-same sub missing = refl
  overview_of-same sub (row plan) =
      rw (regions_of-same q same, count_hosts-same q same, same.plans) refl
  overview_of-same sub unreadable =
      rw (regions_of-same q same, count_hosts-same q same, same.plans) refl

  overview_with-same : (f : Fetched Subscription) → overview_with e q n f ≡ overview_with e q m f
  overview_with-same unreadable = refl
  overview_with-same missing = refl
  overview_with-same (row sub) =
      ap (λ ps. overview_of e q n sub (fetch (e.db_fails get_plan) (plan_by_id sub.plan_id ps)))
        same.plans
      ∙ overview_of-same sub (fetch (e.db_fails get_plan) (plan_by_id sub.plan_id m.plans))

  overview_page-same : overview_page e q n ≡ overview_page e q m
  unfolding overview_page
  overview_page-same =
      ap (overview_with e q n) subscription-same ∙ overview_with-same (my_subscription e q m)

  checkout_plan-same : (f : Fetched Plan) → checkout_plan e q n f ≡ checkout_plan e q m f
  checkout_plan-same missing = refl
  checkout_plan-same unreadable = refl
  checkout_plan-same (row plan) = rw (subscription_of-same q same) refl

  checkout-same : (plan : Option String) → checkout e q plan n ≡ checkout e q plan m
  unfolding checkout
  checkout-same none = refl
  checkout-same (some id) =
      ap (λ r. if is_empty id then broken 400 else r)
        (ap (λ ps. checkout_plan e q n (fetch (e.db_fails get_plan) (plan_by_id id ps))) same.plans
          ∙ checkout_plan-same (fetch (e.db_fails get_plan) (plan_by_id id m.plans)))

  portal-same : portal e q n ≡ portal e q m
  unfolding portal
  portal-same = ap (portal_for e) subscription-same

  get_regions-same : get_regions e q n ≡ get_regions e q m
  unfolding get_regions
  get_regions-same = rw (regions_of-same q same) refl

-- The pages of an organisation that the tables of its view answer
abbrev IsPage : Customer → Type 0
IsPage me = Unit
IsPage list_hosts = Unit
IsPage overview = Unit
IsPage (new_checkout plan) = Unit
IsPage new_portal = Unit
IsPage regions = Unit
IsPage invoice_list = Unit
IsPage (create_host req) = ⊥
IsPage (delete_host id) = ⊥
IsPage (rotate_token id) = ⊥
IsPage (host_points id) = ⊥
IsPage (enable_region r) = ⊥
IsPage (disable_region r) = ⊥
IsPage admin_orgs = ⊥
IsPage admin_stats = ⊥

page-same :
    (e : Env) (c : Claims) (r : Customer) (v w : World)
    → IsPage r
    → LooksSame c.org_id v.maria w.maria
    → (serve_customer e c r w).0 ≡ (serve_customer e c r v).0
unfolding serve_customer list invoices
page-same e c me v w p same = refl
page-same e c list_hosts v w p same = rw (hosts_of-same c.org_id same) refl
page-same e c overview v w p same = ap billing (overview_page-same c.org_id e.billing same)
page-same e c (new_checkout plan) v w p same =
    ap billing (checkout-same c.org_id e.billing same plan)
page-same e c new_portal v w p same = ap billing (portal-same c.org_id e.billing same)
page-same e c regions v w p same = ap billing (get_regions-same c.org_id e.billing same)
page-same e c invoice_list v w p same = rw (list_invoices-same c.org_id same 24) refl
page-same e c (create_host req) v w p same = absurd p
page-same e c (delete_host id) v w p same = absurd p
page-same e c (rotate_token id) v w p same = absurd p
page-same e c (host_points id) v w p same = absurd p
page-same e c (enable_region r) v w p same = absurd p
page-same e c (disable_region r) v w p same = absurd p
page-same e c admin_orgs v w p same = absurd p
page-same e c admin_stats v w p same = absurd p

-- What others do does not show: after any requests that are not of an organisation, its pages
-- (its account, the list of its hosts, the overview, the regions, the invoices, and the answers
-- of checkout and portal) are answered to its session as they were before. Not of it are requests
-- without a session of it, registrations that do not draw its id, and events of Stripe that do not
-- name it: the identifier by which the handler looks for the subscription, the empty one for a
-- checkout, is in none of its rows, nor is the identifier of a new invoice, and its id is not empty.
pub others_do_not_show :
    (rs : List (Env × Request)) (w : World) (e : Env) (header : String) (c : Claims) (r : Customer)
    → AreApart c.org_id w.maria rs
    → require_auth e.verify header ≡ some c
    → IsPage r
    → (serve e (customer header r) (serve_all rs w)).0 ≡ (serve e (customer header r) w).0
unfolding serve
others_do_not_show rs w e header c r apart passed page =
    rw passed (page-same e c r w (serve_all rs w) page (serve_all-LooksSame c.org_id rs w apart))
