-- ===== src/Api/Billing/Regions.antt =====
-- The regions that an organisation enables and disables.
use bangmod_monitor.Prelude.{
  ℕ, suc, ◌+◌, ◌≤◌, ◌<◌, String, false, not, ◌||◌, ◌≡◌, refl, ◌⊎◌, inl, inr, some, List, [], ◌∷◌,
  arith, str_eq, eq_refl, find, count-append, if◌then◌else◌, Bool-cases, Option-cases, leb,
}
use bangmod_monitor.Api.Http.{refuse}
use bangmod_monitor.Api.Store.{Maria, get_subscription, get_plan, count_org_regions, add_org_region}
use bangmod_monitor.Api.Store.Billing.{
  Subscription, Plan, OrgRegion, subscription_of, plan_by_id, insert_region, count_regions,
  is_region,
}
use bangmod_monitor.Api.Billing.{Env, add_region, enable_region, available_regions, contains}

-- The request to enable the region is refused, and changes nothing.
abbrev pub Refused : Env → String → String → Maria → Type 0
Refused e org region m =
    (add_region e org region m ≡ (refuse 402 "active subscription required", m))
    ⊎ (add_region e org region m ≡ (refuse 400 "unknown region", m))

pub inactive_adds_no_region :
    (e : Env) (org region : String) (m : Maria) (sub : Subscription)
    → subscription_of org m.subscriptions ≡ some sub
    → str_eq sub.status "active" ≡ false
    → Refused e org region m
unfolding add_region
inactive_adds_no_region e org region m sub found inactive =
    elim (Bool-cases (contains region available_regions)) [
      | inr unknown ↦ inr (rw unknown refl)
      | inl known ↦ inl (
          rw known (elim (Bool-cases (e.db_fails get_subscription)) [
            | inl failed ↦ rw failed refl
            | inr fine ↦ rw (fine, found) (rw inactive refl)
          ]))
    ]

count-insert_region :
    (id org region : String) (now : ℕ) (rows : List OrgRegion)
    → count_regions org (insert_region id org region now rows) ≤ suc (count_regions org rows)
unfolding insert_region count_regions
count-insert_region id org region now rows =
    elim (Option-cases (find (λ r. str_eq r.id id || is_region org region r) rows)) [
      | inl fresh ↦
          rw (insert_region, fresh)
            (ground (
              arith,
              eq_refl org,
              count-append (λ r. str_eq r.org_id org) rows
                  ((record { id = id; org_id = org; region = region; added_at = now }) ∷ []),
            ))
      | inr (r, taken) ↦ rw (insert_region, taken) (omega arith)
    ]

-- A request to enable a region, whose queries of the subscription, the plan and the count
-- succeed, leaves an organisation with no more regions than ten above what its plan includes, if
-- it had no more before.
add_region_within_limit :
    (e : Env) (org region : String) (m : Maria) (sub : Subscription) (plan : Plan)
    → subscription_of org m.subscriptions ≡ some sub
    → plan_by_id sub.plan_id m.plans ≡ some plan
    → e.db_fails get_subscription ≡ false
    → e.db_fails get_plan ≡ false
    → e.db_fails count_org_regions ≡ false
    → count_regions org m.org_regions ≤ plan.regions_included + 10
    → count_regions org (add_region e org region m).1.org_regions ≤ plan.regions_included + 10
unfolding add_region
add_region_within_limit e org region m sub plan hs hp fs fp fc h =
    elim (Bool-cases (contains region available_regions)) [
      | inr unknown ↦ rw unknown h
      | inl known ↦ elim (Bool-cases (str_eq sub.status "active")) [
        | inr lapsed ↦ rw (known, fs, hs, lapsed) h
        | inl active ↦ rw (known, fs, hs, active, fp, hp, fc) room
      ]
    ]
  where
    rows : List OrgRegion
    rows = m.org_regions

    enabled :
        count_regions org rows < plan.regions_included + 10
        → count_regions org (enable_region e org region m).1.org_regions
          ≤ plan.regions_included + 10
    enabled lt = elim (Bool-cases (e.db_fails add_org_region)) [
      | inl failed ↦ rw failed h
      | inr fine ↦ rw fine (omega (arith, lt, count-insert_region e.uuid org region e.now rows))
    ]

    room :
        count_regions org
          (if not (leb (plan.regions_included + 10) (count_regions org rows))
            then enable_region e org region m
            else (refuse 402 "region limit reached for your plan", m)).1.org_regions
        ≤ plan.regions_included + 10
    room = elim (Bool-cases (leb (plan.regions_included + 10) (count_regions org rows))) [
      | inl full ↦ rw full h
      | inr free ↦ rw free (enabled (ground (arith, free)))
    ]
