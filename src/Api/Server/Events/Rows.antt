-- ===== src/Api/Server/Events/Rows.antt =====
-- The statements of the webhook over the rows of an organisation that has none of the keys.
use bangmod_monitor.Prelude.{
  String, false, ◌≡◌, refl, some, List, [], ◌∷◌, append-nil, filter, filter-append, find, All,
  All-filter_head, All-filter_tail, map, str_eq, arith, Bool-cases, Option-cases, inl, inr,
}
use bangmod_monitor.Api.Store.Billing.{
  Subscription, Invoice, of_org, update_status, subscription_by_stripe_id, upsert_row,
  with_invoice_status,
}
use bangmod_monitor.Api.Store.Reports
use bangmod_monitor.Api.Server.View.{subscriptions_in}

module _ (q : String) where
  pub subscriptions_in-status :
      (stripe_id status : String) (rows : List Subscription)
      → All (λ s. str_eq s.stripe_subscription_id stripe_id ≡ false) (subscriptions_in q rows)
      → subscriptions_in q (update_status stripe_id status rows) ≡ subscriptions_in q rows
  unfolding update_status
  subscriptions_in-status stripe_id status [] h = refl
  subscriptions_in-status stripe_id status (s ∷ rows) h =
      let ih =
        subscriptions_in-status stripe_id status rows (All-filter_tail _ (of_org q) s rows h) in
      elim (Bool-cases (of_org q s)) [
        | inl own ↦
            let spared = All-filter_head _ (of_org q) s rows own h in rw (spared, own, ih) refl
        | inr other ↦ ground arith
      ]

  pub other-by_stripe_id :
      (stripe_id : String) (rows : List Subscription) (s : Subscription)
      → All (λ s. str_eq s.stripe_subscription_id stripe_id ≡ false) (subscriptions_in q rows)
      → subscription_by_stripe_id stripe_id rows ≡ some s
      → str_eq s.org_id q ≡ false
  unfolding subscription_by_stripe_id
  other-by_stripe_id stripe_id [] s h found = ground arith
  other-by_stripe_id stripe_id (r ∷ rows) s h found =
      let ih = other-by_stripe_id stripe_id rows s (All-filter_tail _ (of_org q) r rows h) in
      elim (Bool-cases (of_org q r)) [
        | inl own ↦ let spared = All-filter_head _ (of_org q) r rows own h in ground arith
        | inr other ↦ ground arith
      ]

  invoices_in-map :
      (inv : Invoice) (rows : List Invoice)
      → All (λ i. str_eq i.id inv.id ≡ false) (filter (Reports.of_org q) rows)
      → filter (Reports.of_org q) (map (with_invoice_status inv) rows)
        ≡ filter (Reports.of_org q) rows
  invoices_in-map inv [] h = refl
  invoices_in-map inv (i ∷ rows) h =
      let ih = invoices_in-map inv rows (All-filter_tail _ (Reports.of_org q) i rows h) in
      elim (Bool-cases (Reports.of_org q i)) [
        | inl own ↦
            let fresh = All-filter_head _ (Reports.of_org q) i rows own h in
            rw (fresh, own, ih) refl
        | inr other ↦ ground arith
      ]

  pub invoices_in-upsert :
      (inv : Invoice) (rows : List Invoice)
      → str_eq inv.org_id q ≡ false
      → All (λ i. str_eq i.id inv.id ≡ false) (filter (Reports.of_org q) rows)
      → filter (Reports.of_org q) (upsert_row inv rows) ≡ filter (Reports.of_org q) rows
  unfolding upsert_row
  invoices_in-upsert inv rows ne h = elim (Option-cases (find (λ i. str_eq i.id inv.id) rows)) [
    | inl new ↦
        rw (upsert_row, new, filter-append (Reports.of_org q) rows, ne)
          (append-nil (filter (Reports.of_org q) rows))
    | inr (i, taken) ↦ rw (upsert_row, taken) (invoices_in-map inv rows h)
  ]
