-- ===== src/Api/Agents/Tokens.antt =====
-- The handlers of the hosts: the plan's limit, the separation of the organisations, and what
-- becomes of the tokens.
use bangmod_monitor.Prelude.{
  ℕ, ◌≤◌, ◌<◌, String, true, false, ◌||◌, ◌≡◌, refl, Option, none, some, List, arith, str_eq,
  eq_refl, leb, ◌==◌, find, if◌then◌else◌, Bool-cases, inl, inr,
}
use bangmod_monitor.Prelude.Text.{is_empty}
use bangmod_monitor.Api.Http.{answer}
use bangmod_monitor.Api.Store.{
  get_subscription, get_plan, count_active_hosts, create_host, delete_host, rotate_token, fetch,
}
use bangmod_monitor.Api.Store.Hosts.{
  HostRow, insert_host, is_row, has_hash, host_by_hash, count_hosts, update_hash, clashes, updated,
  deleted,
}
use bangmod_monitor.Api.Store.Hosts.Laws.{
  HasUniqueHashes, hosts_in, hosts_in-insert, hosts_in-delete, hosts_in-update, count_hosts-insert,
  find_hash-update_old, host_by_hash-update_done,
}
use bangmod_monitor.Api.Store.Billing.{Plan, Subscription, plan_by_id, subscription_of}
use bangmod_monitor.Api.Agents.{
  Env, State, CreateHostReq, rotated, create, create_within, issue_host, store_host, over_plan,
  delete, rotate, rotate_with,
}

-- What `create` leaves in the table: what was there, or the row that it stored.
module _ (P : List HostRow → Type 0) (e : Env) (org : String) (req : CreateHostReq)
    (s : State) where
  abbrev Stores : Type 0
  Stores =
      (plain : String) (rows : List HostRow)
      → insert_host e.uuid org req.name (e.sha256 plain) req.region e.now s.maria.hosts ≡ some rows
      → P rows

  store_host_keeps :
      (plain : String) (o : Option (List HostRow))
      → P s.maria.hosts
      → ((rows : List HostRow) → o ≡ some rows → P rows)
      → P (store_host e org req plain s o).1.maria.hosts
  store_host_keeps plain none p q = p
  store_host_keeps plain (some rows) p q = elim (Bool-cases (e.db_fails create_host)) [
    | inl failed ↦ rw failed p
    | inr stored ↦ rw stored (q rows refl)
  ]

  issue_host_keeps :
      (o : Option String) → P s.maria.hosts → Stores → P (issue_host e org req o s).1.maria.hosts
  issue_host_keeps none p q = p
  issue_host_keeps (some plain) p q =
      store_host_keeps plain
        (insert_host e.uuid org req.name (e.sha256 plain) req.region e.now s.maria.hosts) p
        (q plain)

  create_within_keeps :
      (o : Option ℕ)
      → P s.maria.hosts
      → (o ≡ none → Stores)
      → P (create_within e org req s o).1.maria.hosts
  create_within_keeps none p q = issue_host_keeps e.random p (q refl)
  create_within_keeps (some limit) p q = p

abbrev limit_reached : Env → String → State → Option ℕ
limit_reached e org s =
    over_plan e org s.maria
      (fetch (e.db_fails get_subscription) (subscription_of org s.maria.subscriptions))

create_keeps :
    (P : List HostRow → Type 0) (e : Env) (org : String) (req : CreateHostReq) (s : State)
    → P s.maria.hosts
    → (limit_reached e org s ≡ none → Stores P e org req s)
    → P (create e org (some req) s).1.maria.hosts
unfolding create
create_keeps P e org req s p q = elim (Bool-cases (is_empty req.name || is_empty req.region)) [
  | inl bad ↦ rw bad p
  | inr fine ↦ rw fine (create_within_keeps P e org req s (limit_reached e org s) p q)
]

-- The limit of the plan is kept: a request to create a host, whose queries of the subscription,
-- the plan and the count all succeed, leaves an organisation with no more hosts than its plan
-- allows, if it had no more before.
pub create_within_limit :
    (e : Env) (org : String) (req : Option CreateHostReq) (s : State) (sub : Subscription)
    (plan : Plan)
    → subscription_of org s.maria.subscriptions ≡ some sub
    → plan_by_id sub.plan_id s.maria.plans ≡ some plan
    → e.db_fails get_subscription ≡ false
    → e.db_fails get_plan ≡ false
    → e.db_fails count_active_hosts ≡ false
    → count_hosts org s.maria.hosts ≤ plan.host_limit
    → count_hosts org (create e org req s).1.maria.hosts ≤ plan.host_limit
create_within_limit e org none s sub plan hs hp fs fp fc h = unfold create in h
create_within_limit e org (some req) s sub plan hs hp fs fp fc h =
    create_keeps (λ rows. count_hosts org rows ≤ plan.host_limit) e org req s h
      (λ free plain rows stored. ground (
        arith,
        unread free,
        eq_refl org,
        count_hosts-insert e.uuid org req.name (e.sha256 plain) req.region e.now s.maria.hosts org
            stored,
      ))
  where
    unread : limit_reached e org s ≡ none → count_hosts org s.maria.hosts < plan.host_limit
    unread free =
        let at_plan : (if leb plan.host_limit (count_hosts org s.maria.hosts)
              then some plan.host_limit
              else none)
            ≡ none =
          (unfold over_plan in rw (hs, fs, over_plan, hp, fp, fc) at free) in
        ground (arith, at_plan)

deleted_apart :
    (e : Env) (org q id : String) (s : State)
    → str_eq org q ≡ false
    → hosts_in q (delete e org id s).1.maria.hosts ≡ hosts_in q s.maria.hosts
unfolding delete
deleted_apart e org q id s ne = elim (Bool-cases (e.db_fails delete_host)) [
  | inl failed ↦ rw failed refl
  | inr fine ↦ elim (Bool-cases (deleted id org s.maria.hosts == 0)) [
    | inl no_row ↦ rw (fine, no_row) refl
    | inr gone ↦ rw (fine, gone) (hosts_in-delete id org q s.maria.hosts ne)
  ]
]

rotated_apart :
    (e : Env) (org q id : String) (o : Option String) (s : State)
    → str_eq org q ≡ false
    → hosts_in q (rotate_with e org id o s).1.maria.hosts ≡ hosts_in q s.maria.hosts
rotated_apart e org q id none s ne = refl
rotated_apart e org q id (some plain) s ne =
    elim (Bool-cases (e.db_fails rotate_token || clashes id org (e.sha256 plain) s.maria.hosts)) [
      | inl failed ↦ rw failed refl
      | inr fine ↦ elim (Bool-cases (updated id org (e.sha256 plain) s.maria.hosts == 0)) [
        | inl no_row ↦ rw (fine, no_row) refl
        | inr done ↦ rw (fine, done) (hosts_in-update id org q (e.sha256 plain) s.maria.hosts ne)
      ]
    ]

-- No request of one organisation to create, delete or rotate a host adds, removes or changes a
-- host of another, whatever fails and whichever host the request names.
pub hosts_are_separate :
    (e : Env) (org q id : String) (req : Option CreateHostReq) (s : State)
    → str_eq org q ≡ false
    → (hosts_in q (create e org req s).1.maria.hosts ≡ hosts_in q s.maria.hosts)
      × (hosts_in q (delete e org id s).1.maria.hosts ≡ hosts_in q s.maria.hosts)
      × (hosts_in q (rotate e org id s).1.maria.hosts ≡ hosts_in q s.maria.hosts)
hosts_are_separate e org q id req s ne = (
  created_apart req,
  deleted_apart e org q id s ne,
  unfold rotate in rotated_apart e org q id e.random s ne,
)
  where
    created_apart :
        (r : Option CreateHostReq)
        → hosts_in q (create e org r s).1.maria.hosts ≡ hosts_in q s.maria.hosts
    created_apart none = unfold create in refl
    created_apart (some r) =
        create_keeps (λ rows. hosts_in q rows ≡ hosts_in q s.maria.hosts) e org r s refl
          (λ free plain rows stored.
            hosts_in-insert e.uuid org r.name (e.sha256 plain) r.region e.now s.maria.hosts q ne
              stored)

rotate_done :
    (e : Env) (org id plain : String) (o : Option String) (s : State)
    → (rotate_with e org id o s).0 ≡ answer 200 (rotated plain)
    → (o ≡ some plain)
      × (clashes id org (e.sha256 plain) s.maria.hosts ≡ false)
      × ((updated id org (e.sha256 plain) s.maria.hosts == 0) ≡ false)
      × ((rotate_with e org id o s).1 ≡ record s {
        maria = record s.maria { hosts = update_hash id org (e.sha256 plain) s.maria.hosts };
      })
rotate_done e org id plain none s h = cc
rotate_done e org id plain (some p) s h =
    elim (Bool-cases (e.db_fails rotate_token || clashes id org (e.sha256 p) s.maria.hosts)) [
      | inl failed ↦ cc (rw failed at h)
      | inr fine ↦ elim (Bool-cases (updated id org (e.sha256 p) s.maria.hosts == 0)) [
        | inl no_row ↦ cc (rw (fine, no_row) at h)
        | inr done ↦
            let same : p ≡ plain = cc (rw (fine, done) at h) in
            rw (← same) (refl, ground (arith, fine), done, rw (fine, done) refl)
      ]
    ]

-- Where no two hosts have the same hash and the hash of the new token differs from the old one: if
-- the handler answers that a rotation is done, the database knows the host by the hash of the new
-- token, and no host by the hash of the old one; the cache is as it was.
pub rotate_revokes :
    (e : Env) (org id plain old : String) (r : HostRow) (s : State)
    → (rotate e org id s).0 ≡ answer 200 (rotated plain)
    → HasUniqueHashes s.maria.hosts
    → find (has_hash old) s.maria.hosts ≡ some r
    → is_row id org r ≡ true
    → str_eq (e.sha256 plain) old ≡ false
    → (host_by_hash (e.sha256 plain) (rotate e org id s).1.maria.hosts ≡ some (id, org))
      × (host_by_hash old (rotate e org id s).1.maria.hosts ≡ none)
      × ((rotate e org id s).1.cache ≡ s.cache)
unfolding rotate host_by_hash
rotate_revokes e org id plain old r s h u f m ne =
    let (fresh, calm, some_row, after) = rotate_done e org id plain e.random s h in
    rw after (
      host_by_hash-update_done id org (e.sha256 plain) s.maria.hosts calm some_row,
      rw (find_hash-update_old id org (e.sha256 plain) old r s.maria.hosts u ne f m) refl,
      refl,
    )
