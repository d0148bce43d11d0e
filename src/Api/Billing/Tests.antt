-- ===== src/Api/Billing/Tests.antt =====
-- The theorems on billing at two organisations, one of them without a subscription at Stripe.
use bangmod_monitor.Prelude.{String, true, false, none, some, [], ◌∷◌, ◌≡◌, refl, inl}
use bangmod_monitor.Prelude.Int.{pos}
use bangmod_monitor.Api.Store.{Maria}
use bangmod_monitor.Api.Store.Billing.{
  Plan, Subscription, Invoice, subscription_of, subscription_by_stripe_id,
}
use bangmod_monitor.Api.Billing.{Env, invoice_paid, invoice_payment_failed, handle_event}
use bangmod_monitor.Api.Billing.Regions.{Refused}
use bangmod_monitor.Api.Store.Reports.{revenue}
use bangmod_monitor.Prelude.Int.{◌+ℤ◌}
use bangmod_monitor.Api.Billing.Revenue.{paid_invoice_raises_revenue}
use bangmod_monitor.Api.Billing.Webhook.{plans_of, handle_event-plans_of, lapsed_adds_no_region}

abbrev env : Env
env = record {
  db_fails = λ op. false;
  uuid = "new-id";
  now = 1000;
  stripe_enabled = true;
  app_base_url = "http://localhost";
  checkout_session = λ c p. none;
  portal_session = λ c u. none;
}

abbrev plan : Plan
plan = record {
  id = "plan-pro";
  name = "Pro";
  description = "";
  base_price_cents = 4900;
  host_limit = 50;
  regions_included = 3;
  region_price_cents = 800;
  stripe_price_id = "price_1";
  is_active = true;
}

abbrev sub_at : String → String → String → Subscription
sub_at id org stripe_id = record {
  id = id;
  org_id = org;
  plan_id = "plan-pro";
  stripe_customer_id = "";
  stripe_subscription_id = stripe_id;
  status = "active";
  current_period_end = none;
  cancel_at_period_end = false;
}

abbrev maria : Maria
maria = record {
  orgs = [];
  users = [];
  hosts = [];
  plans = plan ∷ [];
  subscriptions = sub_at "s1" "org1" "" ∷ sub_at "s2" "org2" "sub_2" ∷ [];
  org_regions = [];
  invoices = [];
}

first_found : subscription_of "org1" maria.subscriptions ≡ some (sub_at "s1" "org1" "")
unfolding subscription_of
first_found = refl

second_found : subscription_of "org2" maria.subscriptions ≡ some (sub_at "s2" "org2" "sub_2")
unfolding subscription_of
second_found = refl

linked_found :
    subscription_by_stripe_id "sub_2" maria.subscriptions ≡ some (sub_at "s2" "org2" "sub_2")
unfolding subscription_by_stripe_id
linked_found = refl

lapsed_adds_no_region_example :
    Refused env "org2" "sg" (handle_event env (invoice_payment_failed (some "sub_2")) maria).1
lapsed_adds_no_region_example =
    lapsed_adds_no_region env env "org2" "sg" "sub_2" maria (sub_at "s2" "org2" "sub_2") refl
      second_found refl (invoice_payment_failed (some "sub_2")) (inl refl)

abbrev invoice : Invoice
invoice = record {
  id = "";
  org_id = "";
  stripe_invoice_id = "in_1";
  amount_cents = pos 4900;
  currency = "usd";
  status = "";
  period_start = pos 0;
  period_end = pos 100;
  created_at = 0;
}

handle_event-plans_of_example :
    plans_of (handle_event env (invoice_paid (some ("sub_2", "cus_2")) invoice) maria).1
    ≡ plans_of maria
handle_event-plans_of_example =
    handle_event-plans_of env (invoice_paid (some ("sub_2", "cus_2")) invoice) maria

-- The table has a row for the invoice already.
abbrev paid_before : Maria
paid_before = record maria { invoices = (record invoice { id = "old-id" }) ∷ [] }

paid_invoice_raises_revenue_example :
    let after = (handle_event env (invoice_paid (some ("sub_2", "cus_2")) invoice) paid_before).1 in
    (after.invoices
      ≡ (record invoice { id = "old-id" })
        ∷ (record {
          id = env.uuid;
          org_id = "org2";
          stripe_invoice_id = invoice.stripe_invoice_id;
          amount_cents = invoice.amount_cents;
          currency = invoice.currency;
          status = "paid";
          period_start = invoice.period_start;
          period_end = invoice.period_end;
          created_at = env.now;
        })
        ∷ [])
    × (revenue after.invoices ≡ revenue paid_before.invoices +ℤ invoice.amount_cents)
paid_invoice_raises_revenue_example =
    paid_invoice_raises_revenue env "sub_2" "cus_2" invoice paid_before (sub_at "s2" "org2" "sub_2")
      linked_found refl refl refl
