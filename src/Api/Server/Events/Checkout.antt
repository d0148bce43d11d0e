-- ===== src/Api/Server/Events/Checkout.antt =====
-- Whose subscription a completed checkout sets.
use bangmod_monitor.Prelude.{String, false, ◌≡◌, some, str_eq}
use bangmod_monitor.Prelude.Int.{ℤ}
use bangmod_monitor.Api.Store.{Maria, get_subscription_by_stripe_id}
use bangmod_monitor.Api.Store.Billing.{Subscription, subscription_of, subscription_by_stripe_id}
use bangmod_monitor.Api.Billing.{Env, checkout_completed, handle_event}
use bangmod_monitor.Api.Server.View.{subscription_of-same}
use bangmod_monitor.Api.Server.Events.{set_stripe-same}

-- A completed checkout changes the subscription of one organisation at most, the first in the
-- table without a subscription at Stripe, whoever paid: any other organisation, the one that
-- paid included, keeps its subscription as it was.
checkout_misses_payer :
    (e : Env) (session : String × String × String × ℤ) (q : String) (m : Maria)
    (first : Subscription)
    → e.db_fails get_subscription_by_stripe_id ≡ false
    → subscription_by_stripe_id "" m.subscriptions ≡ some first
    → str_eq first.org_id q ≡ false
    → subscription_of q (handle_event e (checkout_completed (some session)) m).1.subscriptions
      ≡ subscription_of q m.subscriptions
unfolding handle_event
checkout_misses_payer e (customer, sub, status, period_end) q m first fine found ne =
    rw (fine, found) (subscription_of-same q (set_stripe-same q e m first.org_id _ ne))
