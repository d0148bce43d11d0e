-- ===== src/Api/Accounts.antt =====
-- api/handler/auth.go: registration and login. The hash of passwords (bcrypt), the signature of
-- tokens (JWT), the validator of e-mail addresses and the collation of the users' table are
-- arguments.
pub mod Login
pub mod Sessions
pub mod Roles
pub mod FreePlan
mod Tests
use bangmod_monitor.Prelude.{
  ℕ, String, Bool, true, false, not, ◌||◌, ◌&&◌, Option, none, some, List, [], ◌∷◌, ltb,
  if◌then◌else◌,
}
use bangmod_monitor.Prelude.Text.{is_empty}
use bangmod_monitor.Api.Http.{Reply, answer, refuse, broken}
use bangmod_monitor.Api.Store.{
  Maria, Op, Fetched, row, missing, unreadable, fetch, get_user_by_email, create_org, create_user,
  create_subscription, add_org_region, update_subscription_stripe,
}
use bangmod_monitor.Api.Store.Users.{Org, User, insert_org, insert_user, user_by_email}
use bangmod_monitor.Api.Store.Billing.{
  Subscription, insert_subscription, insert_region, update_stripe,
}

-- What issueJWT signs, but for the two times.
pub record Claims : Type 0 where
  pub user_id : String
  pub org_id : String
  pub email : String
  pub role : String

-- What the environment answers in one request; the four ids are those that a registration draws.
pub record Env : Type 0 where
  pub db_fails : Op → Bool
  pub same_email : String → String → Bool
  pub is_email : String → Bool
  pub rune_count : String → ℕ
  pub hash_password : String → Option String
  pub check_password : String → String → Bool
  pub org_id : String
  pub user_id : String
  pub sub_id : String
  pub region_id : String
  pub now : ℕ
  pub stripe_enabled : Bool
  pub create_customer : String → String → Option String
  pub sign : ℕ → Claims → Option String

pub record RegisterReq : Type 0 where
  pub org_name : String
  pub email : String
  pub password : String

pub record LoginReq : Type 0 where
  pub email : String
  pub password : String

pub record Session : Type 0 where
  pub token : String
  pub user_id : String
  pub org_id : String
  pub email : String

abbrev pub AccountReply : Type 0
AccountReply = Reply Session

abbrev pub claims_of : User → Claims
claims_of u = record { user_id = u.id; org_id = u.org_id; email = u.email; role = u.role }

abbrev session_of : User → String → Session
session_of u token = record { token = token; user_id = u.id; org_id = u.org_id; email = u.email }

abbrev pub open_session : ℕ → User → Option String → AccountReply
open_session code u none = refuse 500 "token error"
open_session code u (some token) = answer code (session_of u token)

-- issueJWT and the reply
abbrev pub sign_in : Env → ℕ → User → AccountReply
sign_in e code u = open_session code u (e.sign e.now (claims_of u))

abbrev pub or_same : {A : Type 0} → A → Option A → A
or_same a none = a
or_same a (some b) = b

-- The free plan, whose error is dropped.
abbrev pub subscribe : Env → Maria → Maria
subscribe e m = if e.db_fails create_subscription then m else record m {
  subscriptions =
      or_same m.subscriptions (insert_subscription e.sub_id e.org_id "plan-free" m.subscriptions);
}

abbrev pub enable_default_region : Env → Maria → Maria
enable_default_region e m =
    if e.db_fails add_org_region
    then m
    else record m { org_regions = insert_region e.region_id e.org_id "th" e.now m.org_regions }

abbrev pub link_customer : Env → Option String → Maria → Maria
link_customer e none m = m
link_customer e (some customer) m = if e.db_fails update_subscription_stripe then m else record m {
  subscriptions =
      update_stripe e.org_id
        (record {
          customer_id = customer;
          subscription_id = "";
          status = "active";
          period_end = none;
          cancel_at_end = false;
        })
        m.subscriptions;
}

abbrev pub set_up : Env → RegisterReq → Maria → Maria
set_up e req m =
    link_customer e (if e.stripe_enabled then e.create_customer req.email req.org_name else none)
      (enable_default_region e (subscribe e m))

abbrev pub new_user : Env → RegisterReq → String → User
new_user e req hash = record {
  id = e.user_id;
  org_id = e.org_id;
  email = req.email;
  password_hash = hash;
  role = "admin";
}

abbrev pub with_users : Env → RegisterReq → User → Maria → Option (List User) → AccountReply × Maria
with_users e req u m none = (refuse 500 "create user failed", m)
with_users e req u m (some users) = (sign_in e 201 u, set_up e req (record m { users = users }))

abbrev pub with_orgs : Env → RegisterReq → User → Maria → Option (List Org) → AccountReply × Maria
with_orgs e req u m none = (refuse 500 "create org failed", m)
with_orgs e req u m (some orgs) =
    let m' = record m { orgs = orgs } in
    with_users e req u m'
      (if e.db_fails create_user then none else insert_user e.same_email u m.users)

abbrev pub with_hash : Env → RegisterReq → Maria → Option String → AccountReply × Maria
with_hash e req m none = (refuse 500 "hash error", m)
with_hash e req m (some hash) =
    with_orgs e req (new_user e req hash) m
      (if e.db_fails create_org then none else insert_org e.org_id req.org_name e.now m.orgs)

abbrev pub with_existing : Env → RegisterReq → Maria → Fetched User → AccountReply × Maria
with_existing e req m unreadable = (refuse 500 "db error", m)
with_existing e req m (row u) = (refuse 409 "email already registered", m)
with_existing e req m missing = with_hash e req m (e.hash_password req.password)

abbrev pub find_user : Env → String → Maria → Fetched User
find_user e email m =
    fetch (e.db_fails get_user_by_email) (user_by_email e.same_email email m.users)

-- The tags of registerReq: `required`, `email` and `min=8`.
abbrev pub is_refused : Env → RegisterReq → Bool
is_refused e req =
    is_empty req.org_name
    || is_empty req.email
    || not (e.is_email req.email)
    || is_empty req.password
    || ltb (e.rune_count req.password) 8

-- AuthHandler.Register; `none` is a body that does not decode.
unfoldable pub register : Env → Option RegisterReq → Maria → AccountReply × Maria
register e none m = (broken 400, m)
register e (some req) m =
    if is_refused e req then (broken 400, m) else with_existing e req m (find_user e req.email m)

abbrev pub login_as : Env → String → Fetched User → AccountReply
login_as e password unreadable = refuse 500 "db error"
login_as e password missing = refuse 401 "invalid credentials"
login_as e password (row u) =
    if e.check_password u.password_hash password
    then sign_in e 200 u
    else refuse 401 "invalid credentials"

-- AuthHandler.Login
pub login : Env → Option LoginReq → Maria → AccountReply
login e none m = broken 400
login e (some req) m =
    if is_empty req.email || is_empty req.password
    then broken 400
    else login_as e req.password (find_user e req.email m)
