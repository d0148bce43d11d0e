-- ===== src/Api/Store/Billing.antt =====
-- api/storage/billing.go: plans, subscriptions, regions and invoices.
use bangmod_monitor.Prelude.{
  ℕ, String, Bool, true, false, not, ◌||◌, ◌&&◌, Option, none, some, List, [], ◌∷◌, ◌++◌, map,
  str_eq, leb, find, count, filter, if◌then◌else◌,
}
use bangmod_monitor.Prelude.Int.{ℤ}
use bangmod_monitor.Prelude.Sort.{sort_by}

pub record Plan : Type 0 where
  pub id : String
  pub name : String
  pub description : String
  pub base_price_cents : ℕ
  pub host_limit : ℕ
  pub regions_included : ℕ
  pub region_price_cents : ℕ
  pub stripe_price_id : String
  pub is_active : Bool

-- `&Plan{}`, which GetPlan returns beside an error
abbrev pub empty_plan : Plan
empty_plan = record {
  id = "";
  name = "";
  description = "";
  base_price_cents = 0;
  host_limit = 0;
  regions_included = 0;
  region_price_cents = 0;
  stripe_price_id = "";
  is_active = false;
}

-- The rows that Migrate seeds
abbrev pub free_plan : Plan
free_plan = record {
  id = "plan-free";
  name = "Free";
  description = "1 host, 1 region";
  base_price_cents = 0;
  host_limit = 1;
  regions_included = 1;
  region_price_cents = 1000;
  stripe_price_id = "";
  is_active = true;
}

abbrev pub paid_plans : List Plan
paid_plans =
    (record {
      id = "plan-starter";
      name = "Starter";
      description = "10 hosts, 1 region";
      base_price_cents = 1900;
      host_limit = 10;
      regions_included = 1;
      region_price_cents = 1000;
      stripe_price_id = "";
      is_active = true;
    })
    ∷ (record {
      id = "plan-pro";
      name = "Pro";
      description = "50 hosts, 3 regions";
      base_price_cents = 4900;
      host_limit = 50;
      regions_included = 3;
      region_price_cents = 800;
      stripe_price_id = "";
      is_active = true;
    })
    ∷ []

unfoldable pub seeded_plans : List Plan
seeded_plans = free_plan ∷ paid_plans

unfoldable pub plan_by_id : String → List Plan → Option Plan
plan_by_id id rows = find (λ p. str_eq p.id id) rows

-- ORDER BY base_price_cents
abbrev cheaper_plan : Plan → Plan → Bool
cheaper_plan p q = leb p.base_price_cents q.base_price_cents

unfoldable pub active_plans : List Plan → List Plan
active_plans rows = sort_by cheaper_plan (filter (λ p. p.is_active) rows)

pub record Subscription : Type 0 where
  pub id : String
  pub org_id : String
  pub plan_id : String
  pub stripe_customer_id : String
  pub stripe_subscription_id : String
  pub status : String
  pub current_period_end : Option ℤ
  pub cancel_at_period_end : Bool

-- `&Subscription{}`, which GetSubscriptionByStripeID returns beside an error
abbrev pub empty_subscription : Subscription
empty_subscription = record {
  id = "";
  org_id = "";
  plan_id = "";
  stripe_customer_id = "";
  stripe_subscription_id = "";
  status = "";
  current_period_end = none;
  cancel_at_period_end = false;
}

abbrev pub of_org : String → Subscription → Bool
of_org org s = str_eq s.org_id org

-- The table with a new active subscription, or `none` where the organisation has one.
unfoldable pub insert_subscription :
    String → String → String → List Subscription → Option (List Subscription)
insert_subscription id org plan rows = elim (find (λ s. str_eq s.id id || of_org org s) rows) [
  | some _ ↦ none
  | none ↦ some (
      rows
      ++ (record {
        id = id;
        org_id = org;
        plan_id = plan;
        stripe_customer_id = "";
        stripe_subscription_id = "";
        status = "active";
        current_period_end = none;
        cancel_at_period_end = false;
      })
        ∷ [])
]

unfoldable pub subscription_of : String → List Subscription → Option Subscription
subscription_of org rows = find (of_org org) rows

unfoldable pub subscription_by_stripe_id : String → List Subscription → Option Subscription
subscription_by_stripe_id stripe_id rows =
    find (λ s. str_eq s.stripe_subscription_id stripe_id) rows

-- What UpdateSubscriptionStripe sets.
pub record StripeUpdate : Type 0 where
  pub customer_id : String
  pub subscription_id : String
  pub status : String
  pub period_end : Option ℤ
  pub cancel_at_end : Bool

abbrev pub with_stripe : String → StripeUpdate → Subscription → Subscription
with_stripe org u s =
    if of_org org s
    then record s {
      stripe_customer_id = u.customer_id;
      stripe_subscription_id = u.subscription_id;
      status = u.status;
      current_period_end = u.period_end;
      cancel_at_period_end = u.cancel_at_end;
    }
    else s

unfoldable pub update_stripe : String → StripeUpdate → List Subscription → List Subscription
update_stripe org u rows = map (with_stripe org u) rows

abbrev pub with_status : String → String → Subscription → Subscription
with_status stripe_id status s =
    if str_eq s.stripe_subscription_id stripe_id then record s { status = status } else s

unfoldable pub update_status : String → String → List Subscription → List Subscription
update_status stripe_id status rows = map (with_status stripe_id status) rows

-- UpdateSubscriptionPlan, which nothing in the repository calls.
unfoldable update_plan : String → String → List Subscription → List Subscription
update_plan org plan rows = map (λ s. if of_org org s then record s { plan_id = plan } else s) rows

pub record OrgRegion : Type 0 where
  pub id : String
  pub org_id : String
  pub region : String
  pub added_at : ℕ

abbrev pub is_region : String → String → OrgRegion → Bool
is_region org region r = str_eq r.org_id org && str_eq r.region region

-- INSERT IGNORE: a row whose key is taken changes nothing, and is no error.
unfoldable pub insert_region : String → String → String → ℕ → List OrgRegion → List OrgRegion
insert_region id org region now rows =
    elim (find (λ r. str_eq r.id id || is_region org region r) rows) [
      | some _ ↦ rows
      | none ↦ rows ++ (record { id = id; org_id = org; region = region; added_at = now }) ∷ []
    ]

unfoldable pub delete_region : String → String → List OrgRegion → List OrgRegion
delete_region org region rows = filter (λ r. not (is_region org region r)) rows

-- ORDER BY added_at
abbrev older_region : OrgRegion → OrgRegion → Bool
older_region r s = leb r.added_at s.added_at

unfoldable pub regions_of : String → List OrgRegion → List String
regions_of org rows =
    map (λ r. r.region) (sort_by older_region (filter (λ r. str_eq r.org_id org) rows))

unfoldable pub count_regions : String → List OrgRegion → ℕ
count_regions org rows = count (λ r. str_eq r.org_id org) rows

pub record Invoice : Type 0 where
  pub id : String
  pub org_id : String
  pub stripe_invoice_id : String
  pub amount_cents : ℤ
  pub currency : String
  pub status : String
  pub period_start : ℤ
  pub period_end : ℤ
  pub created_at : ℕ

abbrev pub with_invoice_status : Invoice → Invoice → Invoice
with_invoice_status inv i = if str_eq i.id inv.id then record i { status = inv.status } else i

-- INSERT ... ON DUPLICATE KEY UPDATE status: the only unique key of the table is `id`.
unfoldable pub upsert_row : Invoice → List Invoice → List Invoice
upsert_row inv rows = elim (find (λ i. str_eq i.id inv.id) rows) [
  | some _ ↦ map (with_invoice_status inv) rows
  | none ↦ rows ++ inv ∷ []
]
