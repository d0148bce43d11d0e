-- ===== src/Api/Agents/Rest.antt =====
-- What the handlers of the hosts leave alone: every table but that of the hosts.
use bangmod_monitor.Prelude.{ℕ, String, ◌||◌, ◌≡◌, refl, Option, none, some, List, ◌==◌, if_both}
use bangmod_monitor.Prelude.Text.{is_empty, strip_prefix}
use bangmod_monitor.Api.Cache
use bangmod_monitor.Api.Store.{create_host, delete_host, rotate_token, get_subscription, fetch}
use bangmod_monitor.Api.Store.Hosts.{HostRow, insert_host, deleted, clashes, updated}
use bangmod_monitor.Api.Store.Billing.{subscription_of}
use bangmod_monitor.Api.Agents.{
  Env, State, CreateHostReq, HostReply, create, create_within, issue_host, store_host, over_plan,
  delete, rotate, rotate_with, auth, check_bearer, check_token, fast_or_slow, admit, validate,
}

-- The tables after a handler are those before it but for the hosts.
abbrev pub OnlyHosts : State → HostReply × State → Type 0
OnlyHosts s r = r.1.maria ≡ record s.maria { hosts = r.1.maria.hosts }

module _ (e : Env) (org : String) (req : CreateHostReq) (s : State) where
  store_host-rest :
      (plain : String) (o : Option (List HostRow)) → OnlyHosts s (store_host e org req plain s o)
  store_host-rest plain none = refl
  store_host-rest plain (some rows) = if_both (OnlyHosts s) (e.db_fails create_host) refl refl

  issue_host-rest : (o : Option String) → OnlyHosts s (issue_host e org req o s)
  issue_host-rest none = refl
  issue_host-rest (some plain) =
      store_host-rest plain
        (insert_host e.uuid org req.name (e.sha256 plain) req.region e.now s.maria.hosts)

  create_within-rest : (o : Option ℕ) → OnlyHosts s (create_within e org req s o)
  create_within-rest none = issue_host-rest e.random
  create_within-rest (some limit) = refl

pub create-rest :
    (e : Env) (org : String) (req : Option CreateHostReq) (s : State)
    → OnlyHosts s (create e org req s)
unfolding create
create-rest e org none s = refl
create-rest e org (some req) s =
    if_both (OnlyHosts s) (is_empty req.name || is_empty req.region) refl (
      create_within-rest e org req s (
        over_plan e org s.maria
          (fetch (e.db_fails get_subscription) (subscription_of org s.maria.subscriptions))))

pub delete-rest : (e : Env) (org id : String) (s : State) → OnlyHosts s (delete e org id s)
unfolding delete
delete-rest e org id s =
    if_both (OnlyHosts s) (e.db_fails delete_host) refl
      (if_both (OnlyHosts s) (deleted id org s.maria.hosts == 0) refl refl)

rotate_with-rest :
    (e : Env) (org id : String) (o : Option String) (s : State)
    → OnlyHosts s (rotate_with e org id o s)
rotate_with-rest e org id none s = refl
rotate_with-rest e org id (some plain) s =
    if_both (OnlyHosts s) (e.db_fails rotate_token || clashes id org (e.sha256 plain) s.maria.hosts)
      refl (if_both (OnlyHosts s) (updated id org (e.sha256 plain) s.maria.hosts == 0) refl refl)

pub rotate-rest : (e : Env) (org id : String) (s : State) → OnlyHosts s (rotate e org id s)
unfolding rotate
rotate-rest e org id s = rotate_with-rest e org id e.random s

-- The check of a token changes the cache alone.
pub auth-rest : (e : Env) (header : String) (s : State) → (auth e header s).0.maria ≡ s.maria
unfolding auth check_token
auth-rest e header s = bearer (strip_prefix "Bearer " header)
  where
    admitted : (hash : String) (o : Option (String × String)) → (admit e s hash o).0.maria ≡ s.maria
    admitted hash none = refl
    admitted hash (some (host_id, org_id)) = refl

    looked_up :
        (hash : String) (o : Option (String × String)) → (fast_or_slow e s hash o).0.maria ≡ s.maria
    looked_up hash none = admitted hash (validate e s.maria hash)
    looked_up hash (some hit) = refl

    bearer : (t : Option String) → (check_bearer e t s).0.maria ≡ s.maria
    bearer none = refl
    bearer (some token) =
        looked_up (e.sha256 token) (Cache.get e.get_fails s.cache (e.sha256 token))
