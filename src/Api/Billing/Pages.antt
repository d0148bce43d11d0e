-- ===== src/Api/Billing/Pages.antt =====
-- The handlers Overview, Checkout and Portal, which change nothing.
use bangmod_monitor.Prelude.{ℕ, String, not, Option, none, some, List, [], length, if◌then◌else◌}
use bangmod_monitor.Prelude.Text.{concat, is_empty}
use bangmod_monitor.Api.Http.{answer, refuse, broken, panics}
use bangmod_monitor.Api.Store.{
  Maria, Fetched, row, missing, unreadable, fetch, get_plan, get_plans, count_active_hosts,
}
use bangmod_monitor.Api.Store.Hosts.{count_hosts}
use bangmod_monitor.Api.Store.Billing.{Plan, empty_plan, Subscription, plan_by_id, active_plans}
use bangmod_monitor.Api.Billing.{
  Env, BillingBody, no_subscription, overview, checkout_url, portal_url, BillingReply,
  regions_or_none, my_subscription,
}

abbrev hosts_or_zero : Env → String → Maria → ℕ
hosts_or_zero e org m = if e.db_fails count_active_hosts then 0 else count_hosts org m.hosts

abbrev plans_or_none : Env → Maria → List Plan
plans_or_none e m = if e.db_fails get_plans then [] else active_plans m.plans

-- `plan.HostLimit` of a nil plan panics.
abbrev pub overview_of : Env → String → Maria → Subscription → Fetched Plan → BillingReply
overview_of e org m sub missing = panics
overview_of e org m sub (row plan) = answer 200 (
    overview sub plan (hosts_or_zero e org m) plan.host_limit (length (regions_or_none e org m))
      (regions_or_none e org m) (plans_or_none e m))
overview_of e org m sub unreadable = answer 200 (
    overview sub empty_plan (hosts_or_zero e org m) 0 (length (regions_or_none e org m))
      (regions_or_none e org m) (plans_or_none e m))

abbrev pub overview_with : Env → String → Maria → Fetched Subscription → BillingReply
overview_with e org m unreadable = broken 500
overview_with e org m missing = answer 200 no_subscription
overview_with e org m (row sub) =
    overview_of e org m sub (fetch (e.db_fails get_plan) (plan_by_id sub.plan_id m.plans))

-- BillingHandler.Overview
unfoldable pub overview_page : Env → String → Maria → BillingReply
overview_page e org m = overview_with e org m (my_subscription e org m)

abbrev session_reply : (String → BillingBody) → Option String → BillingReply
session_reply body none = broken 500
session_reply body (some url) = answer 200 (body url)

abbrev checkout_for : Env → Plan → Fetched Subscription → BillingReply
checkout_for e plan missing = refuse 400 "no subscription record found"
checkout_for e plan unreadable = refuse 400 "no subscription record found"
checkout_for e plan (row sub) =
    if is_empty sub.stripe_customer_id
    then refuse 400 "Stripe not configured — contact support"
    else if not e.stripe_enabled
    then broken 500
    else session_reply checkout_url (e.checkout_session sub.stripe_customer_id plan.stripe_price_id)

abbrev pub checkout_plan : Env → String → Maria → Fetched Plan → BillingReply
checkout_plan e org m missing = refuse 400 "invalid plan or Stripe price not configured"
checkout_plan e org m unreadable = refuse 400 "invalid plan or Stripe price not configured"
checkout_plan e org m (row plan) =
    if is_empty plan.stripe_price_id
    then refuse 400 "invalid plan or Stripe price not configured"
    else checkout_for e plan (my_subscription e org m)

-- BillingHandler.Checkout; `none` is a body that does not decode.
unfoldable pub checkout : Env → String → Option String → Maria → BillingReply
checkout e org none m = broken 400
checkout e org (some plan_id) m =
    if is_empty plan_id
    then broken 400
    else checkout_plan e org m (fetch (e.db_fails get_plan) (plan_by_id plan_id m.plans))

abbrev pub portal_for : Env → Fetched Subscription → BillingReply
portal_for e missing = refuse 400 "no Stripe customer linked"
portal_for e unreadable = refuse 400 "no Stripe customer linked"
portal_for e (row sub) =
    if is_empty sub.stripe_customer_id
    then refuse 400 "no Stripe customer linked"
    else if not e.stripe_enabled
    then broken 500
    else session_reply portal_url
        (e.portal_session sub.stripe_customer_id (concat e.app_base_url "/billing"))

-- BillingHandler.Portal
unfoldable pub portal : Env → String → Maria → BillingReply
portal e org m = portal_for e (my_subscription e org m)
