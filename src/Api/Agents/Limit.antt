-- ===== src/Api/Agents/Limit.antt =====
-- A request for a host against the plan's limit, where all of its statements succeed.
use bangmod_monitor.Prelude.{
  ℕ, String, false, ◌||◌, ◌≡◌, refl, none, some, List, leb, if◌then◌else◌, Bool-cases, inl, inr,
}
use bangmod_monitor.Prelude.Text.{is_empty}
use bangmod_monitor.Api.Http.{answer}
use bangmod_monitor.Api.Store.{
  Maria, Op, get_subscription, get_plan, count_active_hosts, create_host, fetch,
}
use bangmod_monitor.Api.Store.Hosts.{HostRow, insert_host, count_hosts}
use bangmod_monitor.Api.Store.Billing.{Plan, Subscription, plan_by_id, subscription_of}
use bangmod_monitor.Api.Agents.{
  Env, State, CreateHostReq, HostReply, created, over_limit, over_plan, create,
}

-- The reply and the state at `limit` and below it
abbrev pub limited :
    ℕ → Env → String → CreateHostReq → String → List HostRow → State → HostReply × State
limited limit e org req plain rows s =
    if leb limit (count_hosts org s.maria.hosts)
    then (answer 402 (over_limit limit (count_hosts org s.maria.hosts)), s)
    else (
      answer 201 (
          created
            (record {
              id = e.uuid;
              org_id = org;
              name = req.name;
              region = req.region;
              created_at = 0;
            })
            plain),
      record s { maria = record s.maria { hosts = rows } },
    )

module _ (e : Env) (org : String) (fine : (op : Op) → e.db_fails op ≡ false) where
  over_plan_of :
      (m : Maria) (sub : Subscription) (p : Plan)
      → subscription_of org m.subscriptions ≡ some sub
      → plan_by_id sub.plan_id m.plans ≡ some p
      → over_plan e org m
          (fetch (e.db_fails get_subscription) (subscription_of org m.subscriptions))
        ≡ (if leb p.host_limit (count_hosts org m.hosts) then some p.host_limit else none)
  unfolding over_plan
  over_plan_of m sub p found plan =
      rw (found, fine get_subscription, over_plan, plan, fine get_plan, fine count_active_hosts)
        refl

  pub create-limited :
      (req : CreateHostReq) (plain : String) (rows : List HostRow) (s : State) (sub : Subscription)
      (p : Plan)
      → subscription_of org s.maria.subscriptions ≡ some sub
      → plan_by_id sub.plan_id s.maria.plans ≡ some p
      → (is_empty req.name || is_empty req.region) ≡ false
      → e.random ≡ some plain
      → insert_host e.uuid org req.name (e.sha256 plain) req.region e.now s.maria.hosts ≡ some rows
      → create e org (some req) s ≡ limited p.host_limit e org req plain rows s
  unfolding create
  create-limited req plain rows s sub p found plan given drawn inserted =
      elim (Bool-cases (leb p.host_limit (count_hosts org s.maria.hosts))) [
        | inl full ↦
            rw (given, over_plan_of s.maria sub p found plan, full, fine count_active_hosts) refl
        | inr free ↦
            rw
              (
                given,
                over_plan_of s.maria sub p found plan,
                free,
                drawn,
                inserted,
                fine create_host,
              )
              refl
      ]
