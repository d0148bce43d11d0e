-- ===== src/Api/Billing/Webhook.antt =====
-- What the events of Stripe do to the subscriptions and the invoices.
use bangmod_monitor.Prelude.{
  ◌⊎◌, String, Bool, false, ◌≡◌, refl, ap₂, ◌∙◌, Option, none, some, List, [], ◌∷◌, ◌++◌, map,
  arith, str_eq, eq_refl, find, Bool-cases, inl, inr,
}
use bangmod_monitor.Prelude.Int.{ℤ}
use bangmod_monitor.Api.Store.{
  Maria, upsert_invoice, get_subscription_by_stripe_id, update_subscription_stripe,
  update_subscription_status,
}
use bangmod_monitor.Api.Store.Billing.{
  Subscription, Invoice, StripeUpdate, of_org, with_stripe, with_status, update_stripe,
  update_status, subscription_by_stripe_id, upsert_row, subscription_of,
}
use bangmod_monitor.Api.Billing.Regions.{Refused, inactive_adds_no_region}
use bangmod_monitor.Api.Billing.{
  Env, Event, checkout_completed, invoice_paid, invoice_payment_failed, subscription_deleted,
  ignored, handle_event, complete_checkout, pay_invoice, found_org, by_stripe_id, set_stripe,
  set_status, add_invoice, new_invoice,
}

abbrev org_plan : Subscription → String × String
org_plan s = (s.org_id, s.plan_id)

-- The plans of the organisations, in the order of the table.
abbrev pub plans_of : Maria → List (String × String)
plans_of m = map org_plan m.subscriptions

plans-update_stripe :
    (org : String) (u : StripeUpdate) (rows : List Subscription)
    → map org_plan (update_stripe org u rows) ≡ map org_plan rows
unfolding update_stripe
plans-update_stripe org u [] = refl
plans-update_stripe org u (s ∷ rows) = ap₂ ◌∷◌ one (plans-update_stripe org u rows)
  where
    one : org_plan (with_stripe org u s) ≡ org_plan s
    one = elim (Bool-cases (of_org org s)) [ inl e ↦ ground arith | inr e ↦ ground arith ]

plans-update_status :
    (stripe_id status : String) (rows : List Subscription)
    → map org_plan (update_status stripe_id status rows) ≡ map org_plan rows
unfolding update_status
plans-update_status stripe_id status [] = refl
plans-update_status stripe_id status (s ∷ rows) =
    ap₂ ◌∷◌ one (plans-update_status stripe_id status rows)
  where
    one : org_plan (with_status stripe_id status s) ≡ org_plan s
    one = ground arith

plans-set_stripe :
    (e : Env) (org : String) (u : StripeUpdate) (m : Maria)
    → plans_of (set_stripe e org u m) ≡ plans_of m
plans-set_stripe e org u m =
    let same = plans-update_stripe org u m.subscriptions in
    elim (Bool-cases (e.db_fails update_subscription_stripe)) [
      | inl f ↦ ground arith
      | inr f ↦ ground arith
    ]

plans-set_status :
    (e : Env) (stripe_id status : String) (m : Maria)
    → plans_of (set_status e stripe_id status m) ≡ plans_of m
plans-set_status e stripe_id status m =
    let same = plans-update_status stripe_id status m.subscriptions in
    elim (Bool-cases (e.db_fails update_subscription_status)) [
      | inl f ↦ ground arith
      | inr f ↦ ground arith
    ]

plans-add_invoice :
    (e : Env) (inv : Invoice) (m : Maria) → plans_of (add_invoice e inv m) ≡ plans_of m
plans-add_invoice e inv m = elim (Bool-cases (e.db_fails upsert_invoice)) [
  | inl f ↦ ground arith
  | inr f ↦ ground arith
]

plans-complete_checkout :
    (e : Env) (session : String × String × String × ℤ) (found : Option String) (m : Maria)
    → plans_of (complete_checkout e session found m) ≡ plans_of m
plans-complete_checkout e (customer, sub, status, period_end) none m = refl
plans-complete_checkout e (customer, sub, status, period_end) (some org) m =
    plans-set_stripe e org _ m

plans-pay_invoice :
    (e : Env) (ids : String × String) (inv : Invoice) (found : Option String) (m : Maria)
    → plans_of (pay_invoice e ids inv found m) ≡ plans_of m
plans-pay_invoice e (sub, customer) inv none m = refl
plans-pay_invoice e (sub, customer) inv (some org) m =
    plans-add_invoice e (new_invoice e org inv) (set_stripe e org _ m) ∙ plans-set_stripe e org _ m

-- No event of Stripe, a completed checkout and a paid invoice included, changes the plan of an
-- organisation: after the webhook every subscription has the plan it had before.
pub handle_event-plans_of :
    (e : Env) (event : Event) (m : Maria) → plans_of ((handle_event e event m).1) ≡ plans_of m
unfolding handle_event
handle_event-plans_of e (checkout_completed none) m = refl
handle_event-plans_of e (checkout_completed (some session)) m =
    plans-complete_checkout e session (found_org (by_stripe_id e "" m)) m
handle_event-plans_of e (invoice_paid none inv) m = refl
handle_event-plans_of e (invoice_paid (some (sub, customer)) inv) m =
    plans-pay_invoice e (sub, customer) inv (found_org (by_stripe_id e sub m)) m
handle_event-plans_of e (invoice_payment_failed none) m = refl
handle_event-plans_of e (invoice_payment_failed (some sub)) m = plans-set_status e sub "past_due" m
handle_event-plans_of e (subscription_deleted sub) m = plans-set_status e sub "canceled" m
handle_event-plans_of e ignored m = refl

find-map :
    {A : Type 0} (p : A → Bool) (f : A → A) (same : (x : A) → p (f x) ≡ p x) (xs : List A) (x : A)
    → find p xs ≡ some x
    → find p (map f xs) ≡ some (f x)
find-map p f same [] x found = ground arith
find-map p f same (y ∷ ys) x found =
    let s = same y in
    let ih = find-map p f same ys x in
    elim (Bool-cases (p y)) [ inl t ↦ ground arith | inr t ↦ ground arith ]

status-update_status :
    (org stripe_id status : String) (rows : List Subscription) (sub : Subscription)
    → subscription_of org rows ≡ some sub
    → sub.stripe_subscription_id ≡ stripe_id
    → (new : Subscription) × (subscription_of org (update_status stripe_id status rows) ≡ some new)
      × (new.status ≡ status)
unfolding subscription_of update_status
status-update_status org stripe_id status rows sub found same = (
  with_status stripe_id status sub,
  find-map (of_org org) (with_status stripe_id status) (λ s. ground arith) rows sub found,
  ground (arith, same, eq_refl stripe_id),
)

-- After a failed payment, or the deletion, of an organisation's subscription at Stripe, which the
-- database has recorded, a request of the organisation to enable a region is refused, with 402 or
-- with 400 for a region that is not offered, and changes nothing, whatever its queries answer.
pub lapsed_adds_no_region :
    (e e' : Env) (org region stripe_id : String) (m : Maria) (sub : Subscription)
    → e.db_fails update_subscription_status ≡ false
    → subscription_of org m.subscriptions ≡ some sub
    → sub.stripe_subscription_id ≡ stripe_id
    → (event : Event)
    → (event ≡ invoice_payment_failed (some stripe_id)) ⊎ (event ≡ subscription_deleted stripe_id)
    → Refused e' org region (handle_event e event m).1
lapsed_adds_no_region e e' org region stripe_id m sub ok found same event which = elim which [
  | inl failed ↦ rw failed (unfold handle_event in lapsed "past_due" refl)
  | inr gone ↦ rw gone (unfold handle_event in lapsed "canceled" refl)
]
  where
    lapsed :
        (status : String)
        → str_eq status "active" ≡ false
        → Refused e' org region (set_status e stripe_id status m)
    lapsed status inactive =
        let (new, at, has) =
          status-update_status org stripe_id status m.subscriptions sub found same in
        rw ok (
          inactive_adds_no_region e' org region
            (record m { subscriptions = update_status stripe_id status m.subscriptions }) new at
            (rw has inactive))

upsert_row_fresh :
    (inv : Invoice) (rows : List Invoice)
    → find (λ i. str_eq i.id inv.id) rows ≡ none
    → upsert_row inv rows ≡ rows ++ inv ∷ []
unfolding upsert_row
upsert_row_fresh inv rows fresh = rw (upsert_row, fresh) refl

invoices-set_stripe :
    (e : Env) (org : String) (u : StripeUpdate) (m : Maria)
    → (set_stripe e org u m).invoices ≡ m.invoices
invoices-set_stripe e org u m = elim (Bool-cases (e.db_fails update_subscription_stripe)) [
  | inl f ↦ rw f refl
  | inr f ↦ rw f refl
]

-- Every delivery of a paid invoice of a known subscription, whose insert succeeds under an id that
-- no row has, adds a row for the subscription's organisation with the identifier that Stripe gave
-- the invoice, also where the table has a row for that invoice already.
pub paid_invoice_adds_row :
    (e : Env) (stripe_id customer : String) (inv : Invoice) (m : Maria) (sub : Subscription)
    → subscription_by_stripe_id stripe_id m.subscriptions ≡ some sub
    → e.db_fails get_subscription_by_stripe_id ≡ false
    → e.db_fails upsert_invoice ≡ false
    → find (λ i. str_eq i.id e.uuid) m.invoices ≡ none
    → (handle_event e (invoice_paid (some (stripe_id, customer)) inv) m).1.invoices
      ≡ m.invoices ++ new_invoice e sub.org_id inv ∷ []
unfolding handle_event
paid_invoice_adds_row e stripe_id customer inv m sub found fg fu fresh =
    rw (fg, found, fu, invoices-set_stripe e sub.org_id _ m)
      (upsert_row_fresh (new_invoice e sub.org_id inv) m.invoices fresh)
