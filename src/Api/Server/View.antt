-- ===== src/Api/Server/View.antt =====
-- What an organisation can see of the tables, and the statements of others over it.
use bangmod_monitor.Prelude.{
  ℕ, String, false, ◌||◌, List, [], ◌∷◌, ◌≡◌, refl, sym, ap, ◌∙◌, append-nil, filter, filter-append,
  find, find-filter, count-filter, length, str_eq, eq_iff, arith, Option-cases, inl, inr,
}
use bangmod_monitor.Api.Store.{Maria}
use bangmod_monitor.Api.Store.Hosts.{hosts_of, count_hosts}
use bangmod_monitor.Api.Store.Hosts.Laws.{hosts_in}
use bangmod_monitor.Api.Store.Billing.{
  Subscription, StripeUpdate, OrgRegion, subscription_of, of_org, insert_subscription,
  update_stripe, insert_region, delete_region, is_region, regions_of, count_regions,
}
use bangmod_monitor.Api.Accounts.{or_same}
use bangmod_monitor.Api.Store.Reports
use bangmod_monitor.Api.Store.Reports.{list_invoices}

abbrev pub regions_in : String → List OrgRegion → List OrgRegion
regions_in q rows = filter (λ r. str_eq r.org_id q) rows

abbrev pub subscriptions_in : String → List Subscription → List Subscription
subscriptions_in q rows = filter (of_org q) rows

-- To the organisation `q`, the tables `n` look as `m`: its hosts, its regions, its subscription
-- and its invoices are the same rows in the same order, and so are the plans.
pub record LooksSame (q : String) (m n : Maria) : Type 0 where
  pub hosts : hosts_in q n.hosts ≡ hosts_in q m.hosts
  pub regions : regions_in q n.org_regions ≡ regions_in q m.org_regions
  pub subscriptions : subscriptions_in q n.subscriptions ≡ subscriptions_in q m.subscriptions
  pub invoices : filter (Reports.of_org q) n.invoices ≡ filter (Reports.of_org q) m.invoices
  pub plans : n.plans ≡ m.plans

pub LooksSame-refl : (q : String) (m : Maria) → LooksSame q m m
LooksSame-refl q m = record {
  hosts = refl;
  regions = refl;
  subscriptions = refl;
  invoices = refl;
  plans = refl;
}

pub LooksSame-trans :
    {q : String} {l m n : Maria} → LooksSame q l m → LooksSame q m n → LooksSame q l n
LooksSame-trans a b = record {
  hosts = b.hosts ∙ a.hosts;
  regions = b.regions ∙ a.regions;
  subscriptions = b.subscriptions ∙ a.subscriptions;
  invoices = b.invoices ∙ a.invoices;
  plans = b.plans ∙ a.plans;
}

-- Each query of an organisation reads only its view.
module _ (q : String) {m n : Maria} (same : LooksSame q m n) where
  pub hosts_of-same : hosts_of q n.hosts ≡ hosts_of q m.hosts
  unfolding hosts_of
  hosts_of-same = rw same.hosts refl

  pub subscription_of-same : subscription_of q n.subscriptions ≡ subscription_of q m.subscriptions
  unfolding subscription_of
  subscription_of-same =
      sym (find-filter (of_org q) n.subscriptions)
      ∙ ap (find (of_org q)) same.subscriptions
      ∙ find-filter (of_org q) m.subscriptions

  pub count_hosts-same : count_hosts q n.hosts ≡ count_hosts q m.hosts
  unfolding count_hosts
  count_hosts-same = count-filter _ n.hosts ∙ ap length same.hosts ∙ sym (count-filter _ m.hosts)

  pub regions_of-same : regions_of q n.org_regions ≡ regions_of q m.org_regions
  unfolding regions_of
  regions_of-same = rw same.regions refl

  pub count_regions-same : count_regions q n.org_regions ≡ count_regions q m.org_regions
  unfolding count_regions
  count_regions-same =
      count-filter _ n.org_regions ∙ ap length same.regions ∙ sym (count-filter _ m.org_regions)

  pub list_invoices-same : (k : ℕ) → list_invoices q k n.invoices ≡ list_invoices q k m.invoices
  unfolding list_invoices
  list_invoices-same k = rw same.invoices refl

-- The statements of another organisation, over the view of `q`.
module _ (org q : String) (ne : str_eq org q ≡ false) where
  pub regions_in-insert :
      (id region : String) (now : ℕ) (rows : List OrgRegion)
      → regions_in q (insert_region id org region now rows) ≡ regions_in q rows
  unfolding insert_region
  regions_in-insert id region now rows =
      elim (Option-cases (find (λ r. str_eq r.id id || is_region org region r) rows)) [
        | inl fresh ↦
            rw (insert_region, fresh)
              (filter-append (λ r. str_eq r.org_id q) rows
                  ((record { id = id; org_id = org; region = region; added_at = now }) ∷ [])
                ∙ rw ne (append-nil (regions_in q rows)))
        | inr (r, taken) ↦ rw (insert_region, taken) refl
      ]

  pub regions_in-delete :
      (region : String) (rows : List OrgRegion)
      → regions_in q (delete_region org region rows) ≡ regions_in q rows
  unfolding delete_region
  regions_in-delete region [] = refl
  regions_in-delete region (r ∷ rows) =
      ground
        (arith, eq_iff r.org_id org, eq_iff r.org_id q, eq_iff org q, regions_in-delete region rows)

  pub subscriptions_in-insert :
      (id plan : String) (rows : List Subscription)
      → subscriptions_in q (or_same rows (insert_subscription id org plan rows))
        ≡ subscriptions_in q rows
  unfolding insert_subscription
  subscriptions_in-insert id plan rows =
      elim (Option-cases (find (λ s. str_eq s.id id || of_org org s) rows)) [
        | inl fresh ↦
            rw (insert_subscription, fresh, filter-append (of_org q) rows, ne)
              (append-nil (subscriptions_in q rows))
        | inr (s, taken) ↦ rw (insert_subscription, taken) refl
      ]

  pub subscriptions_in-update :
      (u : StripeUpdate) (rows : List Subscription)
      → subscriptions_in q (update_stripe org u rows) ≡ subscriptions_in q rows
  unfolding update_stripe
  subscriptions_in-update u [] = refl
  subscriptions_in-update u (s ∷ rows) =
      ground (
        arith,
        eq_iff s.org_id org,
        eq_iff s.org_id q,
        eq_iff org q,
        subscriptions_in-update u rows,
      )
