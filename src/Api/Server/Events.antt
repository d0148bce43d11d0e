-- ===== src/Api/Server/Events.antt =====
-- The events of Stripe that are of other organisations: the webhook leaves the tables as they look
-- to an organisation that they do not name.
mod Rows
mod Checkout
use Rows.{subscriptions_in-status, other-by_stripe_id, invoices_in-upsert}
use bangmod_monitor.Prelude.{
  String, Bool, false, ◌≡◌, refl, sym, subst, Option, none, some, List, [], ◌∷◌, ◌++◌, append-nil,
  filter, filter-append, find, All, All-filter_head, All-filter_tail, map, str_eq, eq_iff, arith,
  Bool-cases, Option-cases, if_both, inl, inr,
}
use bangmod_monitor.Prelude.Int.{ℤ}
use bangmod_monitor.Api.Store.{
  Maria, Fetched, row, missing, unreadable, fetch, upsert_invoice, get_subscription_by_stripe_id,
  update_subscription_stripe, update_subscription_status,
}
use bangmod_monitor.Api.Store.Billing.{
  Subscription, Invoice, StripeUpdate, of_org, with_status, update_stripe, update_status,
  subscription_by_stripe_id, upsert_row, with_invoice_status,
}
use bangmod_monitor.Api.Store.Reports
use bangmod_monitor.Api.Billing.{
  Env, Event, checkout_completed, invoice_paid, invoice_payment_failed, subscription_deleted,
  ignored, webhook, handle_event, complete_checkout, pay_invoice, found_org, by_stripe_id,
  set_stripe, set_status, add_invoice, new_invoice,
}
use bangmod_monitor.Api.Server.View.{
  LooksSame, LooksSame-refl, LooksSame-trans, subscriptions_in, subscriptions_in-update,
}

-- No subscription of `q` has this identifier at Stripe.
abbrev Spares : String → String → Maria → Type 0
Spares q stripe_id m =
    All (λ s. str_eq s.stripe_subscription_id stripe_id ≡ false)
      (subscriptions_in q m.subscriptions)

-- No invoice of `q` has this identifier.
abbrev pub IsFresh : String → String → Maria → Type 0
IsFresh q id m = All (λ i. str_eq i.id id ≡ false) (filter (Reports.of_org q) m.invoices)

-- The organisation that the handler goes on with is not `q`.
abbrev IsOther : String → Option String → Type 0
IsOther q none = Unit
IsOther q (some org) = str_eq org q ≡ false

module _ (q : String) (e : Env) (m : Maria) where
  set_stripe-same :
      (org : String) (u : StripeUpdate)
      → str_eq org q ≡ false
      → LooksSame q m (set_stripe e org u m)
  set_stripe-same org u ne =
      if_both (LooksSame q m) (e.db_fails update_subscription_stripe) (LooksSame-refl q m) (record {
        hosts = refl;
        regions = refl;
        subscriptions = subscriptions_in-update org q ne u m.subscriptions;
        invoices = refl;
        plans = refl;
      })

  set_status-same :
      (stripe_id status : String)
      → Spares q stripe_id m
      → LooksSame q m (set_status e stripe_id status m)
  set_status-same stripe_id status h =
      if_both (LooksSame q m) (e.db_fails update_subscription_status) (LooksSame-refl q m) (record {
        hosts = refl;
        regions = refl;
        subscriptions = subscriptions_in-status q stripe_id status m.subscriptions h;
        invoices = refl;
        plans = refl;
      })

  add_invoice-same :
      (inv : Invoice)
      → str_eq inv.org_id q ≡ false
      → IsFresh q inv.id m
      → LooksSame q m (add_invoice e inv m)
  add_invoice-same inv ne h =
      if_both (LooksSame q m) (e.db_fails upsert_invoice) (LooksSame-refl q m) (record {
        hosts = refl;
        regions = refl;
        subscriptions = refl;
        invoices = invoices_in-upsert q inv m.invoices ne h;
        plans = refl;
      })

  found-IsOther :
      (stripe_id : String)
      → str_eq "" q ≡ false
      → Spares q stripe_id m
      → IsOther q (found_org (by_stripe_id e stripe_id m))
  found-IsOther stripe_id named h = elim (Bool-cases (e.db_fails get_subscription_by_stripe_id)) [
    | inl failed ↦ rw failed named
    | inr fine ↦ elim (Option-cases (subscription_by_stripe_id stripe_id m.subscriptions)) [
      | inl none_found ↦ rw (fine, none_found) tt
      | inr (s, found) ↦ rw (fine, found) (other-by_stripe_id q stripe_id m.subscriptions s h found)
    ]
  ]

-- What spares `q` in its view spares it in any tables that look the same to it.
module _ (q : String) {m n : Maria} (same : LooksSame q m n) where
  Spares-same : (stripe_id : String) → Spares q stripe_id m → Spares q stripe_id n
  Spares-same stripe_id h =
      subst (All (λ s. str_eq s.stripe_subscription_id stripe_id ≡ false)) (sym same.subscriptions)
        h

  IsFresh-same : (id : String) → IsFresh q id m → IsFresh q id n
  IsFresh-same id h = subst (All (λ i. str_eq i.id id ≡ false)) (sym same.invoices) h

-- The event is not of `q`: the subscription at Stripe by which the handler looks for the
-- organisation is of none of its rows, where a checkout is looked for by the empty identifier, and
-- a new invoice gets no identifier of one of its invoices.
abbrev IsEventApart : String → Env → Maria → Event → Type 0
IsEventApart q e m (checkout_completed none) = Unit
IsEventApart q e m (checkout_completed (some session)) = (str_eq "" q ≡ false) × Spares q "" m
IsEventApart q e m (invoice_paid none inv) = Unit
IsEventApart q e m (invoice_paid (some (stripe_id, customer)) inv) =
    (str_eq "" q ≡ false) × Spares q stripe_id m × IsFresh q e.uuid m
IsEventApart q e m (invoice_payment_failed none) = Unit
IsEventApart q e m (invoice_payment_failed (some stripe_id)) = Spares q stripe_id m
IsEventApart q e m (subscription_deleted stripe_id) = Spares q stripe_id m
IsEventApart q e m ignored = Unit

-- The same of the body of a request; one that is not read or not signed is not of `q`.
abbrev pub IsWebhookApart : String → Env → Maria → Option (Option Event) → Type 0
IsWebhookApart q e m none = Unit
IsWebhookApart q e m (some none) = Unit
IsWebhookApart q e m (some (some event)) = IsEventApart q e m event

IsEventApart-same :
    (q : String) (e : Env) {m n : Maria} (event : Event)
    → LooksSame q m n
    → IsEventApart q e m event
    → IsEventApart q e n event
IsEventApart-same q e (checkout_completed none) same h = tt
IsEventApart-same q e (checkout_completed (some session)) same (named, h) =
    (named, Spares-same q same "" h)
IsEventApart-same q e (invoice_paid none inv) same h = tt
IsEventApart-same q e (invoice_paid (some (stripe_id, customer)) inv) same (named, h, fresh) =
    (named, Spares-same q same stripe_id h, IsFresh-same q same e.uuid fresh)
IsEventApart-same q e (invoice_payment_failed none) same h = tt
IsEventApart-same q e (invoice_payment_failed (some stripe_id)) same h =
    Spares-same q same stripe_id h
IsEventApart-same q e (subscription_deleted stripe_id) same h = Spares-same q same stripe_id h
IsEventApart-same q e ignored same h = tt

pub IsWebhookApart-same :
    (q : String) (e : Env) {m n : Maria} (body : Option (Option Event))
    → LooksSame q m n
    → IsWebhookApart q e m body
    → IsWebhookApart q e n body
IsWebhookApart-same q e none same h = tt
IsWebhookApart-same q e (some none) same h = tt
IsWebhookApart-same q e (some (some event)) same h = IsEventApart-same q e event same h

complete_checkout-same :
    (q : String) (e : Env) (session : String × String × String × ℤ) (found : Option String)
    (m : Maria)
    → IsOther q found
    → LooksSame q m (complete_checkout e session found m)
complete_checkout-same q e (customer, sub, status, period_end) none m h = LooksSame-refl q m
complete_checkout-same q e (customer, sub, status, period_end) (some org) m h =
    set_stripe-same q e m org _ h

pay_invoice-same :
    (q : String) (e : Env) (ids : String × String) (inv : Invoice) (found : Option String)
    (m : Maria)
    → IsOther q found
    → IsFresh q e.uuid m
    → LooksSame q m (pay_invoice e ids inv found m)
pay_invoice-same q e (sub, customer) inv none m h fresh = LooksSame-refl q m
pay_invoice-same q e (sub, customer) inv (some org) m h fresh =
    let paid = set_stripe-same q e m org _ h in
    LooksSame-trans paid
      (add_invoice-same q e _ (new_invoice e org inv) h (IsFresh-same q paid e.uuid fresh))

handle_event-same :
    (q : String) (e : Env) (event : Event) (m : Maria)
    → IsEventApart q e m event
    → LooksSame q m (handle_event e event m).1
unfolding handle_event
handle_event-same q e (checkout_completed none) m h = LooksSame-refl q m
handle_event-same q e (checkout_completed (some session)) m (named, h) =
    complete_checkout-same q e session _ m (found-IsOther q e m "" named h)
handle_event-same q e (invoice_paid none inv) m h = LooksSame-refl q m
handle_event-same q e (invoice_paid (some (stripe_id, customer)) inv) m (named, h, fresh) =
    pay_invoice-same q e (stripe_id, customer) inv _ m (found-IsOther q e m stripe_id named h) fresh
handle_event-same q e (invoice_payment_failed none) m h = LooksSame-refl q m
handle_event-same q e (invoice_payment_failed (some stripe_id)) m h =
    set_status-same q e m stripe_id "past_due" h
handle_event-same q e (subscription_deleted stripe_id) m h =
    set_status-same q e m stripe_id "canceled" h
handle_event-same q e ignored m h = LooksSame-refl q m

pub webhook-same :
    (q : String) (e : Env) (body : Option (Option Event)) (m : Maria)
    → IsWebhookApart q e m body
    → LooksSame q m (webhook e body m).1
unfolding webhook
webhook-same q e none m h = LooksSame-refl q m
webhook-same q e (some none) m h = LooksSame-refl q m
webhook-same q e (some (some event)) m h = handle_event-same q e event m h
