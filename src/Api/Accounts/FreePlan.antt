-- ===== src/Api/Accounts/FreePlan.antt =====
-- What a new organisation may do under the plan that Migrate seeds and Register gives it.
mod Tests
use bangmod_monitor.Prelude.{
  ℕ, String, Bool, true, false, ◌||◌, ◌≡◌, refl, ap, ap₂, ◌∙◌, Option, none, some, List, [], ◌∷◌,
  ◌++◌, map, str_eq, eq_refl, find, ltb, leb, arith, if◌then◌else◌, Bool-cases, inl, inr,
}
use bangmod_monitor.Prelude.Text.{is_empty}
use bangmod_monitor.Api.Http.{answer}
use bangmod_monitor.Api.Store.{
  Maria, Op, Fetched, row, missing, unreadable, get_subscription, get_plan, count_active_hosts,
  create_subscription, create_host, add_org_region, update_subscription_stripe, fetch,
}
use bangmod_monitor.Api.Store.Users.{Org, User}
use bangmod_monitor.Api.Store.Hosts.{HostRow, insert_host, count_hosts}
use bangmod_monitor.Api.Store.Billing.{
  Plan, Subscription, of_org, seeded_plans, free_plan, paid_plans, plan_by_id, insert_subscription,
  subscription_of, StripeUpdate, with_stripe, update_stripe,
}
use bangmod_monitor.Api.Store.Migration.{Database, migrate, insert_plans}
use bangmod_monitor.Api.Store.Migration.Reruns.{migrated, migrate-ok, insert_plans-new}
use bangmod_monitor.Api.Agents
use bangmod_monitor.Api.Agents.{CreateHostReq, create}
use bangmod_monitor.Api.Agents.Limit.{limited, create-limited}
use bangmod_monitor.Api.Accounts.{
  Env, RegisterReq, Session, register, with_existing, with_hash, with_orgs, with_users, find_user,
  is_refused, set_up, subscribe, enable_default_region, link_customer, new_user,
}

module _ (e : Env) (req : RegisterReq) (x : Session) where
  -- The state is that of a registration that stored an organisation and a user.
  abbrev IsSetUp : Maria → Maria → Type 0
  IsSetUp m m' =
      (orgs : List Org) × (users : List User) × (m'
        ≡ set_up e req (record m { orgs = orgs; users = users }))

  with_users-IsSetUp :
      (u : User) (m : Maria) (o : Option (List User))
      → (with_users e req u m o).0 ≡ answer 201 x
      → (users : List User) × ((with_users e req u m o).1
          ≡ set_up e req (record m { users = users }))
  with_users-IsSetUp u m none h = cc
  with_users-IsSetUp u m (some users) h = (users, refl)

  with_orgs-IsSetUp :
      (u : User) (m : Maria) (o : Option (List Org))
      → (with_orgs e req u m o).0 ≡ answer 201 x
      → IsSetUp m (with_orgs e req u m o).1
  with_orgs-IsSetUp u m none h = cc
  with_orgs-IsSetUp u m (some orgs) h =
      let (users, same) = with_users-IsSetUp u (record m { orgs = orgs }) _ h in (orgs, users, same)

  with_hash-IsSetUp :
      (m : Maria) (o : Option String)
      → (with_hash e req m o).0 ≡ answer 201 x
      → IsSetUp m (with_hash e req m o).1
  with_hash-IsSetUp m none h = cc
  with_hash-IsSetUp m (some hash) h = with_orgs-IsSetUp (new_user e req hash) m _ h

  with_existing-IsSetUp :
      (m : Maria) (f : Fetched User)
      → (with_existing e req m f).0 ≡ answer 201 x
      → IsSetUp m (with_existing e req m f).1
  with_existing-IsSetUp m unreadable h = cc
  with_existing-IsSetUp m (row u) h = cc
  with_existing-IsSetUp m missing h = with_hash-IsSetUp m _ h

  register-IsSetUp :
      (m : Maria)
      → (register e (some req) m).0 ≡ answer 201 x
      → IsSetUp m (register e (some req) m).1
  unfolding register
  register-IsSetUp m h = elim (Bool-cases (is_refused e req)) [
    | inl refused ↦ cc (rw refused at h)
    | inr fine ↦ rw fine (with_existing-IsSetUp m (find_user e req.email m) (rw fine at h))
  ]

-- What Register does beside the rows of the organisation and of its user leaves the plans, and the
-- subscriptions but for what it says of Stripe.
plans-set_up : (e : Env) (req : RegisterReq) (m : Maria) → (set_up e req m).plans ≡ m.plans
plans-set_up e req m =
    linked (if e.stripe_enabled then e.create_customer req.email req.org_name else none)
      (enable_default_region e (subscribe e m))
    ∙ regions (subscribe e m)
    ∙ subscribed
  where
    linked : (o : Option String) (n : Maria) → (link_customer e o n).plans ≡ n.plans
    linked none n = refl
    linked (some customer) n = ground arith

    regions : (n : Maria) → (enable_default_region e n).plans ≡ n.plans
    regions n = ground arith

    subscribed : (subscribe e m).plans ≡ m.plans
    subscribed = ground arith

abbrev HasPlan : String → String → List Subscription → Type 0
HasPlan org plan rows =
    (s : Subscription) × (subscription_of org rows ≡ some s) × (s.plan_id ≡ plan)

find-with_stripe :
    (org org' : String) (u : StripeUpdate) (rows : List Subscription) (s : Subscription)
    → find (of_org org) rows ≡ some s
    → find (of_org org) (map (with_stripe org' u) rows) ≡ some (with_stripe org' u s)
find-with_stripe org org' u [] s h = cc
find-with_stripe org org' u (r ∷ rows) s h = ground (arith, find-with_stripe org org' u rows s)

HasPlan-update_stripe :
    (org org' plan : String) (u : StripeUpdate) (rows : List Subscription)
    → HasPlan org plan rows
    → HasPlan org plan (update_stripe org' u rows)
unfolding subscription_of update_stripe
HasPlan-update_stripe org org' plan u rows (s, found, of_plan) =
    (with_stripe org' u s, find-with_stripe org org' u rows s found, ground (arith, of_plan))

find-new :
    (id org : String) (rows : List Subscription) (s : Subscription)
    → find (λ r. str_eq r.id id || of_org org r) rows ≡ none
    → of_org org s ≡ true
    → find (of_org org) (rows ++ s ∷ []) ≡ some s
find-new id org [] s h own = rw own refl
find-new id org (r ∷ rows) s h own = ground (arith, find-new id org rows s)

module _ (e : Env) (req : RegisterReq) where
  subscribe-HasPlan :
      (m : Maria)
      → e.db_fails create_subscription ≡ false
      → find (λ r. str_eq r.id e.sub_id || of_org e.org_id r) m.subscriptions ≡ none
      → HasPlan e.org_id "plan-free" (subscribe e m).subscriptions
  unfolding insert_subscription subscription_of
  subscribe-HasPlan m stored fresh =
      rw (stored, fresh, insert_subscription)
        (_, find-new e.sub_id e.org_id m.subscriptions _ fresh (eq_refl e.org_id), refl)

  enable-HasPlan :
      (m : Maria)
      → HasPlan e.org_id "plan-free" m.subscriptions
      → HasPlan e.org_id "plan-free" (enable_default_region e m).subscriptions
  enable-HasPlan m h = elim (Bool-cases (e.db_fails add_org_region)) [
    | inl failed ↦ rw failed h
    | inr stored ↦ rw stored h
  ]

  link-HasPlan :
      (o : Option String) (m : Maria)
      → HasPlan e.org_id "plan-free" m.subscriptions
      → HasPlan e.org_id "plan-free" (link_customer e o m).subscriptions
  link-HasPlan none m h = h
  link-HasPlan (some customer) m h = elim (Bool-cases (e.db_fails update_subscription_stripe)) [
    | inl failed ↦ rw failed h
    | inr stored ↦
        rw stored (HasPlan-update_stripe e.org_id e.org_id "plan-free" _ m.subscriptions h)
  ]

  set_up-HasPlan :
      (m : Maria)
      → e.db_fails create_subscription ≡ false
      → find (λ r. str_eq r.id e.sub_id || of_org e.org_id r) m.subscriptions ≡ none
      → HasPlan e.org_id "plan-free" (set_up e req m).subscriptions
  set_up-HasPlan m stored fresh =
      link-HasPlan _ (enable_default_region e (subscribe e m))
        (enable-HasPlan (subscribe e m) (subscribe-HasPlan m stored fresh))

-- A new organisation starts with one host. After a migration that reports no error of a database
-- with no plan "plan-free", and a registration that is answered with a session, where the new
-- subscription is stored and no other has its id or its organisation: a request for a host, whose
-- statements succeed, is refused with 402, the limit of 1 and the number of hosts, and changes
-- nothing, if the organisation has a host; if it has none, the host is created.
pub free_plan_one_host :
    (fails : ℕ → Bool) (d : Database) (e : Env) (req : RegisterReq) (x : Session) (a : Agents.Env)
    (host : CreateHostReq) (plain : String) (rows : List HostRow) (s : Agents.State)
    → (migrate fails d).0 ≡ true
    → plan_by_id "plan-free" d.maria.plans ≡ none
    → (register e (some req) (migrate fails d).1.maria).0 ≡ answer 201 x
    → e.db_fails create_subscription ≡ false
    → find (λ r. str_eq r.id e.sub_id || of_org e.org_id r) d.maria.subscriptions ≡ none
    → s.maria ≡ (register e (some req) (migrate fails d).1.maria).1
    → ((op : Op) → a.db_fails op ≡ false)
    → (is_empty host.name || is_empty host.region) ≡ false
    → a.random ≡ some plain
    → insert_host a.uuid e.org_id host.name (a.sha256 plain) host.region a.now s.maria.hosts
      ≡ some rows
    → create a e.org_id (some host) s ≡ limited 1 a e.org_id host plain rows s
unfolding seeded_plans
free_plan_one_host fails d e req x a host plain rows s done new signed stored fresh now fine given
      drawn inserted =
    let end = migrate-ok fails d done in
    let (orgs, users, left) = register-IsSetUp e req x (migrate fails d).1.maria signed in
    let m = record (migrated d).maria { orgs = orgs; users = users } in
    let there : s.maria ≡ set_up e req m =
      now
      ∙ left
      ∙ ap (λ (b : Database). set_up e req (record b.maria { orgs = orgs; users = users })) end in
    let (sub, found, free) = set_up-HasPlan e req m stored fresh in
    let plan : plan_by_id sub.plan_id s.maria.plans ≡ some free_plan =
      ap (λ (n : Maria). plan_by_id sub.plan_id n.plans) there
      ∙ ap₂ plan_by_id free (plans-set_up e req m)
      ∙ insert_plans-new free_plan paid_plans d.maria.plans new in
    create-limited a e.org_id fine host plain rows s sub free_plan
      (ap (λ (n : Maria). subscription_of e.org_id n.subscriptions) there ∙ found) plan given drawn
      inserted
