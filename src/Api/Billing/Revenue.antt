-- ===== src/Api/Billing/Revenue.antt =====
-- What the paid invoices add to the revenue that the administrators see.
use bangmod_monitor.Prelude.{
  String, false, true, ◌≡◌, refl, sym, ap, ◌∙◌, some, none, List, [], ◌∷◌, ◌++◌, str_eq, find,
  filter, filter-append, if◌then◌else◌,
}
use bangmod_monitor.Prelude.Int.{pos, ◌+ℤ◌, +ℤ_assoc, +ℤ_comm, zero-+ℤ}
use bangmod_monitor.Api.Store.{Maria, upsert_invoice, get_subscription_by_stripe_id}
use bangmod_monitor.Api.Store.Billing.{Invoice, Subscription, subscription_by_stripe_id}
use bangmod_monitor.Api.Store.Reports.{is_paid, sum_cents, revenue}
use bangmod_monitor.Api.Billing.{Env, invoice_paid, handle_event, new_invoice}
use bangmod_monitor.Api.Billing.Webhook.{paid_invoice_adds_row}

sum_cents-append : (is js : List Invoice) → sum_cents (is ++ js) ≡ sum_cents is +ℤ sum_cents js
sum_cents-append [] js = sym (zero-+ℤ (sum_cents js))
sum_cents-append (i ∷ is) js =
    ap (λ n. i.amount_cents +ℤ n) (sum_cents-append is js)
    ∙ sym (+ℤ_assoc i.amount_cents (sum_cents is) (sum_cents js))

revenue-paid :
    (rows : List Invoice) (i : Invoice)
    → is_paid i ≡ true
    → revenue (rows ++ i ∷ []) ≡ revenue rows +ℤ i.amount_cents
unfolding revenue
revenue-paid rows i paid =
    ap sum_cents (filter-append is_paid rows (i ∷ []))
    ∙ ap (λ b. sum_cents (filter is_paid rows ++ (if b then i ∷ [] else []))) paid
    ∙ sum_cents-append (filter is_paid rows) (i ∷ [])
    ∙ ap (λ n. sum_cents (filter is_paid rows) +ℤ n)
        (+ℤ_comm i.amount_cents (pos 0) ∙ zero-+ℤ i.amount_cents)

-- Every delivery of a paid invoice of a known subscription, whose insert succeeds under an id that
-- no row has, adds one row: it is for the subscription's organisation, has the identifier that Stripe
-- gave the invoice, its amount, currency and period, and the status "paid". The delivery raises the revenue by the invoice's amount, also where the table has a row for
-- that invoice already.
pub paid_invoice_raises_revenue :
    (e : Env) (stripe_id customer : String) (inv : Invoice) (m : Maria) (sub : Subscription)
    → subscription_by_stripe_id stripe_id m.subscriptions ≡ some sub
    → e.db_fails get_subscription_by_stripe_id ≡ false
    → e.db_fails upsert_invoice ≡ false
    → find (λ i. str_eq i.id e.uuid) m.invoices ≡ none
    → let after = (handle_event e (invoice_paid (some (stripe_id, customer)) inv) m).1 in
      (after.invoices
        ≡ m.invoices
          ++ (record {
            id = e.uuid;
            org_id = sub.org_id;
            stripe_invoice_id = inv.stripe_invoice_id;
            amount_cents = inv.amount_cents;
            currency = inv.currency;
            status = "paid";
            period_start = inv.period_start;
            period_end = inv.period_end;
            created_at = e.now;
          })
            ∷ [])
      × (revenue after.invoices ≡ revenue m.invoices +ℤ inv.amount_cents)
paid_invoice_raises_revenue e stripe_id customer inv m sub found fg fu fresh =
    let row = paid_invoice_adds_row e stripe_id customer inv m sub found fg fu fresh in
    (row, ap revenue row ∙ revenue-paid m.invoices (new_invoice e sub.org_id inv) refl)
