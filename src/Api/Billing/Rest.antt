-- ===== src/Api/Billing/Rest.antt =====
-- What the handlers of the regions can do to the tables.
use bangmod_monitor.Prelude.{String, not, if_both, str_eq}
use bangmod_monitor.Api.Store.{
  Maria, Fetched, row, missing, unreadable, fetch, get_plan, add_org_region, remove_org_region,
}
use bangmod_monitor.Api.Store.Billing.{Subscription, insert_region, delete_region, plan_by_id}
use bangmod_monitor.Api.Billing.{
  Env, BillingReply, add_region, add_with, enable_region, remove_region, contains,
  available_regions, has_room, regions_or_zero, my_subscription,
}

-- What holds of the tables as they are, and with the region, holds after the handler.
module _ (P : Maria → Type 0) (e : Env) (org region : String) (m : Maria) (old : P m) where
  module _
      (more : P
        (record m { org_regions = insert_region e.uuid org region e.now m.org_regions })) where
    enable_keeps : P (enable_region e org region m).1
    enable_keeps =
        if_both (λ (r : BillingReply × Maria). P r.1) (e.db_fails add_org_region) old more

    add_with_keeps : (f : Fetched Subscription) → P (add_with e org region m f).1
    add_with_keeps missing = old
    add_with_keeps unreadable = old
    add_with_keeps (row sub) =
        if_both (λ (r : BillingReply × Maria). P r.1) (not (str_eq sub.status "active")) old
          (if_both (λ (r : BillingReply × Maria). P r.1)
            (has_room (regions_or_zero e org m)
              (fetch (e.db_fails get_plan) (plan_by_id sub.plan_id m.plans)))
            enable_keeps old)

    pub add_region_keeps : P (add_region e org region m).1
    unfolding add_region
    add_region_keeps =
        if_both (λ (r : BillingReply × Maria). P r.1) (not (contains region available_regions)) old
          (add_with_keeps (my_subscription e org m))

  pub remove_region_keeps :
      P (record m { org_regions = delete_region org region m.org_regions })
      → P (remove_region e org region m).1
  unfolding remove_region
  remove_region_keeps less =
      if_both (λ (r : BillingReply × Maria). P r.1) (e.db_fails remove_org_region) old less
