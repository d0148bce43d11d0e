-- ===== src/Api/Agents.antt =====
-- api/middleware/auth.go and api/handler/host.go: the tokens of the agents, from the handlers that
-- create, rotate and delete a host to the check of a request's bearer token. SHA-256, with its
-- result in hexadecimal, is an argument.
pub mod Auth
pub mod Tokens
pub mod Limit
pub mod Known
pub mod Rest
pub mod Directory
pub mod Refinement
mod Tests
use bangmod_monitor.Prelude.{
  ℕ, String, Bool, true, false, not, ◌||◌, ◌&&◌, Option, none, some, List, [], ◌∷◌, ◌++◌, leb, ◌==◌,
  if◌then◌else◌,
}
use bangmod_monitor.Prelude.Text.{concat, is_empty, strip_prefix}
use bangmod_monitor.Api.Http.{Reply, answer, refuse, broken, panics}
use bangmod_monitor.Api.Cache
use bangmod_monitor.Api.Cache.{TokenCache}
use bangmod_monitor.Api.Store.{Maria, Op, Fetched, row, missing, unreadable, fetch, coalesce}
use bangmod_monitor.Api.Store.{
  create_host, list_hosts, get_host, delete_host, rotate_token, validate_token, get_plan,
  get_subscription, count_active_hosts,
}
use bangmod_monitor.Api.Store.Hosts.{
  Host, HostRow, insert_host, hosts_of, host_of, delete_rows, deleted, update_hash, updated,
  clashes, host_by_hash, count_hosts,
}
use bangmod_monitor.Api.Store.Billing.{Plan, empty_plan, Subscription, plan_by_id, subscription_of}

-- What the environment answers in one request.
pub record Env : Type 0 where
  pub db_fails : Op → Bool
  pub get_fails : Bool
  pub set_fails : Bool
  pub sha256 : String → String
  -- 32 random bytes in hexadecimal, or `none` on an error
  pub random : Option String
  pub uuid : String
  pub now : ℕ

pub record State : Type 0 where
  pub maria : Maria
  pub cache : TokenCache

pub validate : Env → Maria → String → Option (String × String)
validate e m hash = if e.db_fails validate_token then none else host_by_hash hash m.hosts

-- The slow path of Auth: the database, and then the cache.
abbrev admit : Env → State → String → Option (String × String) → State × Option (String × String)
admit e s hash none = (s, none)
admit e s hash (some (host_id, org_id)) =
    (record s { cache = Cache.set e.set_fails s.cache hash host_id org_id }, some (host_id, org_id))

abbrev fast_or_slow :
    Env → State → String → Option (String × String) → State × Option (String × String)
fast_or_slow e s hash (some hit) = (s, some hit)
fast_or_slow e s hash none = admit e s hash (validate e s.maria hash)

pub check_token : Env → String → State → State × Option (String × String)
unfolding validate
check_token e token s =
    fast_or_slow e s (e.sha256 token) (Cache.get e.get_fails s.cache (e.sha256 token))

abbrev check_bearer : Env → Option String → State → State × Option (String × String)
check_bearer e none s = (s, none)
check_bearer e (some token) s = check_token e token s

-- The middleware Auth: the host and the organisation that it passes on, or `none` for its 401.
pub auth : Env → String → State → State × Option (String × String)
unfolding check_token
auth e header s = check_bearer e (strip_prefix "Bearer " header) s

pub record CreateHostReq : Type 0 where
  pub name : String
  pub region : String

pub data HostBody : Type 0 where
  hosts : List Host → HostBody
  created : Host → String → HostBody
  status_deleted : HostBody
  rotated : String → HostBody
  over_limit : ℕ → ℕ → HostBody

abbrev pub HostReply : Type 0
HostReply = Reply HostBody

unfoldable pub list : Env → String → State → HostReply
list e org s =
    if e.db_fails list_hosts then broken 500 else answer 200 (hosts (hosts_of org s.maria.hosts))

abbrev limit_of : Env → ℕ → Fetched Plan → Option ℕ
limit_of e n missing = none
limit_of e n (row plan) = if leb plan.host_limit n then some plan.host_limit else none
limit_of e n unreadable = if leb empty_plan.host_limit n then some empty_plan.host_limit else none

-- The plan's limit where it is reached; an error of a query counts as no subscription, as an
-- empty plan, and as no host.
over_plan : Env → String → Maria → Fetched Subscription → Option ℕ
over_plan e org m missing = none
over_plan e org m unreadable = none
over_plan e org m (row sub) =
    limit_of e (if e.db_fails count_active_hosts then 0 else count_hosts org m.hosts)
      (fetch (e.db_fails get_plan) (plan_by_id sub.plan_id m.plans))

abbrev new_host : Env → String → CreateHostReq → Host
new_host e org req = record {
  id = e.uuid;
  org_id = org;
  name = req.name;
  region = req.region;
  created_at = 0;
}

abbrev store_host :
    Env → String → CreateHostReq → String → State → Option (List HostRow) → HostReply × State
store_host e org req plain s none = (broken 500, s)
store_host e org req plain s (some rows) = if e.db_fails create_host then (broken 500, s) else (
  answer 201 (created (new_host e org req) plain),
  record s { maria = record s.maria { hosts = rows } },
)

abbrev issue_host : Env → String → CreateHostReq → Option String → State → HostReply × State
issue_host e org req none s = (refuse 500 "token generation failed", s)
issue_host e org req (some plain) s =
    store_host e org req plain s
      (insert_host e.uuid org req.name (e.sha256 plain) req.region e.now s.maria.hosts)

abbrev create_within : Env → String → CreateHostReq → State → Option ℕ → HostReply × State
create_within e org req s (some limit) = (
  answer 402 (
      over_limit limit
        (if e.db_fails count_active_hosts then 0 else count_hosts org s.maria.hosts)),
  s,
)
create_within e org req s none = issue_host e org req e.random s

-- `none` is a body that does not decode; the fields must not be empty.
pub create : Env → String → Option CreateHostReq → State → HostReply × State
unfolding over_plan
create e org none s = (broken 400, s)
create e org (some req) s =
    if is_empty req.name || is_empty req.region
    then (broken 400, s)
    else create_within e org req s (
        over_plan e org s.maria
          (fetch (e.db_fails get_subscription) (subscription_of org s.maria.subscriptions)))

pub delete : Env → String → String → State → HostReply × State
delete e org id s =
    if e.db_fails delete_host
    then (broken 404, s)
    else if deleted id org s.maria.hosts == 0
    then (broken 404, s)
    else (
      answer 200 status_deleted,
      record s { maria = record s.maria { hosts = delete_rows id org s.maria.hosts } },
    )

abbrev rotate_to : Env → String → String → String → String → State → HostReply × State
rotate_to e org id plain hash s =
    if e.db_fails rotate_token || clashes id org hash s.maria.hosts
    then (broken 404, s)
    else if updated id org hash s.maria.hosts == 0
    then (broken 404, s)
    else (
      answer 200 (rotated plain),
      record s { maria = record s.maria { hosts = update_hash id org hash s.maria.hosts } },
    )

abbrev rotate_with : Env → String → String → Option String → State → HostReply × State
rotate_with e org id none s = (refuse 500 "token generation failed", s)
rotate_with e org id (some plain) s = rotate_to e org id plain (e.sha256 plain) s

pub rotate : Env → String → String → State → HostReply × State
rotate e org id s = rotate_with e org id e.random s

-- invalidateToken, which no handler calls.
pub invalidate_token : Env → String → State → State
invalidate_token e plain s =
    if is_empty plain
    then s
    else record s { cache = Cache.delete e.set_fails s.cache (e.sha256 plain) }
