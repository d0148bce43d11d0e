-- ===== src/Api/Stripe.antt =====
-- api/billing/stripe.go: the service that calls Stripe, whose library's calls are arguments, and
-- the addresses that api/handler/billing.go gives it.
pub mod Links
use bangmod_monitor.Prelude.{ℕ, String, Bool, true, false, not, Option, none, some, if◌then◌else◌}
use bangmod_monitor.Prelude.Text.{concat, is_empty}

pub record StripeService : Type 0 where
  pub secret_key : String
  pub webhook_secret : String
  pub region_price_id : String
  pub enabled : Bool

-- NewStripe, but for the key that it sets in the library
unfoldable new_stripe : String → String → String → StripeService
new_stripe secret_key webhook_secret region_price_id = record {
  secret_key = secret_key;
  webhook_secret = webhook_secret;
  region_price_id = region_price_id;
  enabled = not (is_empty secret_key);
}

-- CreateCustomer: a service that is not enabled gives an empty id, and no error.
unfoldable create_customer :
    StripeService → (String → String → Option String) → String → String → Option String
create_customer svc customer email org_name =
    if not svc.enabled then some "" else customer email org_name

pub record CheckoutParams : Type 0 where
  pub customer : String
  pub mode : String
  pub success_url : String
  pub cancel_url : String
  pub price : String
  pub quantity : ℕ
  -- the metadata `price_id` of the subscription
  pub price_id : String

-- CreateCheckoutSession: the URL of the session
unfoldable create_checkout_session :
    StripeService
    → (CheckoutParams → Option String)
    → String
    → String
    → String
    → String
    → Option String
create_checkout_session svc session customer price success_url cancel_url =
    if not svc.enabled
    then none
    else session (record {
      customer = customer;
      mode = "subscription";
      success_url = concat success_url "?session_id={CHECKOUT_SESSION_ID}";
      cancel_url = cancel_url;
      price = price;
      quantity = 1;
      price_id = price;
    })

-- The call of Checkout in the handler, for the base URL of the dashboard
pub checkout_session :
    StripeService → (CheckoutParams → Option String) → String → String → String → Option String
unfolding create_checkout_session
checkout_session svc session base customer price =
    create_checkout_session svc session customer price (concat base "/billing?success=1")
      (concat base "/billing?canceled=1")

-- CreatePortalSession
unfoldable create_portal_session :
    StripeService → (String → String → Option String) → String → String → Option String
create_portal_session svc session customer return_url =
    if not svc.enabled then none else session customer return_url

-- ConstructWebhookEvent: the library checks the signature of the payload with the secret.
unfoldable construct_webhook_event :
    {E : Type 0}
    → StripeService
    → (String → String → String → Option E)
    → String
    → String
    → Option E
construct_webhook_event svc construct payload signature =
    construct payload signature svc.webhook_secret
