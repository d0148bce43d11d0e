-- ===== src/Api/Server/Registration.antt =====
-- A registration leaves the tables as they look to another organisation.
use bangmod_monitor.Prelude.{
  String, false, Option, none, some, List, ◌≡◌, refl, str_eq, if_both, if◌then◌else◌,
}
use bangmod_monitor.Api.Store.{
  Maria, Fetched, row, missing, unreadable, create_org, create_user, create_subscription,
  add_org_region, update_subscription_stripe,
}
use bangmod_monitor.Api.Store.Users.{Org, User, insert_org, insert_user}
use bangmod_monitor.Api.Accounts
use bangmod_monitor.Api.Accounts.{
  RegisterReq, AccountReply, register, with_existing, with_hash, with_orgs, with_users, set_up,
  subscribe, enable_default_region, link_customer, new_user, find_user, is_refused,
}
use bangmod_monitor.Api.Server.View.{
  LooksSame, LooksSame-refl, LooksSame-trans, regions_in-insert, subscriptions_in-insert,
  subscriptions_in-update,
}

-- A registration, of an organisation with another id
module _ (q : String) (e : Accounts.Env) (req : RegisterReq) (ne : str_eq e.org_id q ≡ false) where
  subscribe-same : (m : Maria) → LooksSame q m (subscribe e m)
  subscribe-same m =
      if_both (LooksSame q m) (e.db_fails create_subscription) (LooksSame-refl q m) (record {
        hosts = refl;
        regions = refl;
        subscriptions = subscriptions_in-insert e.org_id q ne e.sub_id "plan-free" m.subscriptions;
        invoices = refl;
        plans = refl;
      })

  region-same : (m : Maria) → LooksSame q m (enable_default_region e m)
  region-same m = if_both (LooksSame q m) (e.db_fails add_org_region) (LooksSame-refl q m) (record {
    hosts = refl;
    regions = regions_in-insert e.org_id q ne e.region_id "th" e.now m.org_regions;
    subscriptions = refl;
    invoices = refl;
    plans = refl;
  })

  link-same : (o : Option String) (m : Maria) → LooksSame q m (link_customer e o m)
  link-same none m = LooksSame-refl q m
  link-same (some id) m =
      if_both (LooksSame q m) (e.db_fails update_subscription_stripe) (LooksSame-refl q m) (record {
        hosts = refl;
        regions = refl;
        subscriptions = subscriptions_in-update e.org_id q ne _ m.subscriptions;
        invoices = refl;
        plans = refl;
      })

  set_up-same : (m : Maria) → LooksSame q m (set_up e req m)
  set_up-same m =
      LooksSame-trans (LooksSame-trans (subscribe-same m) (region-same (subscribe e m))) (
        link-same (if e.stripe_enabled then e.create_customer req.email req.org_name else none)
          (enable_default_region e (subscribe e m)))

  -- Another table of organisations or of users shows nothing.
  with_users-same :
      (u : User) (m n : Maria) (o : Option (List User))
      → LooksSame q m n
      → LooksSame q m (with_users e req u n o).1
  with_users-same u m n none s = s
  with_users-same u m n (some us) s =
      LooksSame-trans
        (record {
          hosts = s.hosts;
          regions = s.regions;
          subscriptions = s.subscriptions;
          invoices = s.invoices;
          plans = s.plans;
        })
        (set_up-same (record n { users = us }))

  with_orgs-same :
      (u : User) (m : Maria) (o : Option (List Org)) → LooksSame q m (with_orgs e req u m o).1
  with_orgs-same u m none = LooksSame-refl q m
  with_orgs-same u m (some os) =
      with_users-same u m (record m { orgs = os })
        (if e.db_fails create_user then none else insert_user e.same_email u m.users)
        (record {
          hosts = refl;
          regions = refl;
          subscriptions = refl;
          invoices = refl;
          plans = refl;
        })

  with_hash-same : (m : Maria) (o : Option String) → LooksSame q m (with_hash e req m o).1
  with_hash-same m none = LooksSame-refl q m
  with_hash-same m (some hash) =
      with_orgs-same (new_user e req hash) m
        (if e.db_fails create_org then none else insert_org e.org_id req.org_name e.now m.orgs)

  with_existing-same : (m : Maria) (f : Fetched User) → LooksSame q m (with_existing e req m f).1
  with_existing-same m unreadable = LooksSame-refl q m
  with_existing-same m (row u) = LooksSame-refl q m
  with_existing-same m missing = with_hash-same m (e.hash_password req.password)

pub register-same :
    (q : String) (e : Accounts.Env) (req : Option RegisterReq) (m : Maria)
    → str_eq e.org_id q ≡ false
    → LooksSame q m (register e req m).1
unfolding register
register-same q e none m ne = LooksSame-refl q m
register-same q e (some req) m ne =
    if_both (λ (r : AccountReply × Maria). LooksSame q m r.1) (is_refused e req)
      (LooksSame-refl q m) (with_existing-same q e req ne m (find_user e req.email m))
