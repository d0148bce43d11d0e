-- ===== src/Api/Billing.antt =====
-- api/handler/billing.go: the regions of an organisation and the events of Stripe; the pages of
-- Overview, Checkout and Portal are in a child. The verification and the decoding of an event are
-- arguments: an event comes as what the handler reads of it.
pub mod Pages
pub mod Webhook
pub mod Regions
pub mod Rest
pub mod Revenue
mod Tests
use bangmod_monitor.Prelude.{
  ℕ, ◌+◌, String, Bool, true, false, not, ◌||◌, ◌&&◌, Option, none, some, List, [], ◌∷◌, map,
  str_eq, leb, length, if◌then◌else◌,
}
use bangmod_monitor.Prelude.Int.{ℤ}
use bangmod_monitor.Prelude.Text.{concat, is_empty}
use bangmod_monitor.Api.Http.{Reply, answer, refuse, broken, panics}
use bangmod_monitor.Api.Store.{
  Maria, Op, Fetched, row, missing, unreadable, fetch, get_plan, get_plans, get_subscription,
  get_subscription_by_stripe_id, update_subscription_stripe, update_subscription_status,
  get_org_regions, add_org_region, remove_org_region, count_org_regions, upsert_invoice,
  count_active_hosts,
}
use bangmod_monitor.Api.Store.Hosts.{count_hosts}
use bangmod_monitor.Api.Store.Billing.{
  Plan, empty_plan, Subscription, empty_subscription, OrgRegion, Invoice, StripeUpdate, plan_by_id,
  active_plans, subscription_of, subscription_by_stripe_id, update_stripe, update_status,
  insert_region, delete_region, regions_of, count_regions, upsert_row,
}

-- What the environment answers in one request.
pub record Env : Type 0 where
  pub db_fails : Op → Bool
  pub uuid : String
  pub now : ℕ
  pub stripe_enabled : Bool
  pub app_base_url : String
  -- the URL of a session of a customer for a price, or `none` on an error of Stripe
  pub checkout_session : String → String → Option String
  pub portal_session : String → String → Option String

pub data BillingBody : Type 0 where
  no_subscription : BillingBody
  overview : Subscription → Plan → ℕ → ℕ → ℕ → List String → List Plan → BillingBody
  checkout_url portal_url : String → BillingBody
  regions : List (String × Bool) → List String → BillingBody
  region_enabled region_disabled : String → BillingBody
  received : BillingBody

abbrev pub BillingReply : Type 0
BillingReply = Reply BillingBody

abbrev pub regions_or_none : Env → String → Maria → List String
regions_or_none e org m = if e.db_fails get_org_regions then [] else regions_of org m.org_regions

abbrev pub my_subscription : Env → String → Maria → Fetched Subscription
my_subscription e org m = fetch (e.db_fails get_subscription) (subscription_of org m.subscriptions)

pub data Event : Type 0 where
  -- the customer, the subscription, its status and its period's end; `none` without a subscription
  checkout_completed : Option (String × String × String × ℤ) → Event
  -- the subscription, if the invoice has one, with the customer, and the rest of the invoice
  invoice_paid : Option (String × String) → Invoice → Event
  invoice_payment_failed : Option String → Event
  subscription_deleted : String → Event
  -- an event of another type, or one whose object does not decode
  ignored : Event

abbrev pub set_stripe : Env → String → StripeUpdate → Maria → Maria
set_stripe e org u m =
    if e.db_fails update_subscription_stripe
    then m
    else record m { subscriptions = update_stripe org u m.subscriptions }

abbrev pub set_status : Env → String → String → Maria → Maria
set_status e stripe_id status m =
    if e.db_fails update_subscription_status
    then m
    else record m { subscriptions = update_status stripe_id status m.subscriptions }

abbrev pub by_stripe_id : Env → String → Maria → Fetched Subscription
by_stripe_id e stripe_id m =
    fetch (e.db_fails get_subscription_by_stripe_id)
      (subscription_by_stripe_id stripe_id m.subscriptions)

-- The organisation that the handler goes on with; the query's error leaves an empty one.
abbrev pub found_org : Fetched Subscription → Option String
found_org missing = none
found_org (row sub) = some sub.org_id
found_org unreadable = some empty_subscription.org_id

abbrev pub complete_checkout : Env → (String × String × String × ℤ) → Option String → Maria → Maria
complete_checkout e (customer, subscription, status, period_end) none m = m
complete_checkout e (customer, subscription, status, period_end) (some org) m =
    set_stripe e org
      (record {
        customer_id = customer;
        subscription_id = subscription;
        status = status;
        period_end = some period_end;
        cancel_at_end = false;
      })
      m

abbrev pub new_invoice : Env → String → Invoice → Invoice
new_invoice e org inv = record inv {
  id = e.uuid;
  org_id = org;
  status = "paid";
  created_at = e.now;
}

abbrev pub add_invoice : Env → Invoice → Maria → Maria
add_invoice e inv m =
    if e.db_fails upsert_invoice then m else record m { invoices = upsert_row inv m.invoices }

abbrev pub pay_invoice : Env → (String × String) → Invoice → Option String → Maria → Maria
pay_invoice e (subscription, customer) inv none m = m
pay_invoice e (subscription, customer) inv (some org) m = add_invoice e (new_invoice e org inv) (
    set_stripe e org
      (record {
        customer_id = customer;
        subscription_id = subscription;
        status = "active";
        period_end = some inv.period_end;
        cancel_at_end = false;
      })
      m)

-- The `switch` of Webhook. An invoice without a subscription is a nil pointer, which panics.
unfoldable pub handle_event : Env → Event → Maria → BillingReply × Maria
handle_event e (checkout_completed none) m = (answer 200 received, m)
handle_event e (checkout_completed (some session)) m =
    (answer 200 received, complete_checkout e session (found_org (by_stripe_id e "" m)) m)
handle_event e (invoice_paid none inv) m = (panics, m)
handle_event e (invoice_paid (some (subscription, customer)) inv) m = (
  answer 200 received,
  pay_invoice e (subscription, customer) inv (found_org (by_stripe_id e subscription m)) m,
)
handle_event e (invoice_payment_failed none) m = (panics, m)
handle_event e (invoice_payment_failed (some subscription)) m =
    (answer 200 received, set_status e subscription "past_due" m)
handle_event e (subscription_deleted subscription) m =
    (answer 200 received, set_status e subscription "canceled" m)
handle_event e ignored m = (answer 200 received, m)

-- BillingHandler.Webhook: `none` is a body that cannot be read, and the inner `none` a signature
-- that does not verify.
unfoldable pub webhook : Env → Option (Option Event) → Maria → BillingReply × Maria
webhook e none m = (refuse 400 "read body", m)
webhook e (some none) m = (refuse 400 "invalid signature", m)
webhook e (some (some event)) m = handle_event e event m

abbrev pub available_regions : List String
available_regions =
    "th" ∷ "sg" ∷ "hk" ∷ "jp" ∷ "tw" ∷ "de" ∷ "fr" ∷ "uk" ∷ "us-east" ∷ "us-west" ∷ "us-north"
    ∷ "us-south" ∷ []

abbrev pub contains : String → List String → Bool
contains r [] = false
contains r (x ∷ xs) = str_eq x r || contains r xs

-- BillingHandler.GetRegions
unfoldable pub get_regions : Env → String → Maria → BillingReply
get_regions e org m =
    let active = regions_or_none e org m in
    answer 200 (regions (map (λ r. (r, contains r active)) available_regions) active)

-- Whether the plan leaves room for one more region.
abbrev has_room : ℕ → Fetched Plan → Bool
has_room n missing = true
has_room n (row plan) = not (leb (plan.regions_included + 10) n)
has_room n unreadable = not (leb (empty_plan.regions_included + 10) n)

abbrev regions_or_zero : Env → String → Maria → ℕ
regions_or_zero e org m =
    if e.db_fails count_org_regions then 0 else count_regions org m.org_regions

abbrev pub enable_region : Env → String → String → Maria → BillingReply × Maria
enable_region e org region m = if e.db_fails add_org_region then (broken 500, m) else (
  answer 200 (region_enabled region),
  record m { org_regions = insert_region e.uuid org region e.now m.org_regions },
)

abbrev add_with_plan : Env → String → String → Maria → Subscription → BillingReply × Maria
add_with_plan e org region m sub =
    if has_room (regions_or_zero e org m)
      (fetch (e.db_fails get_plan) (plan_by_id sub.plan_id m.plans))
    then enable_region e org region m
    else (refuse 402 "region limit reached for your plan", m)

abbrev add_with : Env → String → String → Maria → Fetched Subscription → BillingReply × Maria
add_with e org region m missing = (refuse 402 "active subscription required", m)
add_with e org region m unreadable = (refuse 402 "active subscription required", m)
add_with e org region m (row sub) =
    if not (str_eq sub.status "active")
    then (refuse 402 "active subscription required", m)
    else add_with_plan e org region m sub

-- BillingHandler.AddRegion
pub add_region : Env → String → String → Maria → BillingReply × Maria
add_region e org region m =
    if not (contains region available_regions)
    then (refuse 400 "unknown region", m)
    else add_with e org region m (my_subscription e org m)

-- BillingHandler.RemoveRegion
pub remove_region : Env → String → String → Maria → BillingReply × Maria
remove_region e org region m = if e.db_fails remove_org_region then (broken 500, m) else (
  answer 200 (region_disabled region),
  record m { org_regions = delete_region org region m.org_regions },
)
