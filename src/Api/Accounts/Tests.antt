-- ===== src/Api/Accounts/Tests.antt =====
-- The theorems on accounts at one registration.
use bangmod_monitor.Prelude.{
  String, true, false, ◌&&◌, Option, none, some, [], ◌∷◌, ◌≡◌, refl, str_eq, eq_iff, arith,
  if◌then◌else◌,
}
use bangmod_monitor.Prelude.Text.{concat}
use bangmod_monitor.Api.Http.{answer, refuse}
use bangmod_monitor.Api.Store.{Maria}
use bangmod_monitor.Api.Store.Users.{user_by_email, insert_org, insert_user}
use bangmod_monitor.Api.Accounts.{Env, Claims, RegisterReq, LoginReq, Session, register, login}
use bangmod_monitor.Api.Accounts.Sessions.{require_auth}
use bangmod_monitor.Api.Accounts.Sessions.Laws.{ReadsBack}
use bangmod_monitor.Api.Accounts.Roles.{register_all, registered_not_superadmin}
use bangmod_monitor.Api.Reads
use bangmod_monitor.Api.Reads.{list_orgs, stats}
use bangmod_monitor.Api.Accounts.Login.{register_then_login}

-- The hash of a password is the password behind a mark.
abbrev env : Env
env = record {
  db_fails = λ op. false;
  same_email = str_eq;
  is_email = λ s. true;
  rune_count = λ s. 8;
  hash_password = λ p. some (concat "$" p);
  check_password = λ h p. str_eq h (concat "$" p);
  org_id = "o1";
  user_id = "u1";
  sub_id = "s1";
  region_id = "r1";
  now = 1000;
  stripe_enabled = true;
  create_customer = λ mail name. some "cus_1";
  sign = λ now claims. some "jwt";
}

abbrev empty_maria : Maria
empty_maria = record {
  orgs = [];
  users = [];
  hosts = [];
  plans = [];
  subscriptions = [];
  org_regions = [];
  invoices = [];
}

abbrev req : RegisterReq
req = record { org_name = "Example"; email = "a@example.org"; password = "passw0rd" }

abbrev session : Session
session = record { token = "jwt"; user_id = "u1"; org_id = "o1"; email = "a@example.org" }

registered : (register env (some req) empty_maria).0 ≡ answer 201 session
unfolding register user_by_email insert_org insert_user
registered = refl

check_hash :
    (hash : String) → some (concat "$" "passw0rd") ≡ some hash → str_eq hash "$passw0rd" ≡ true
check_hash hash e = let same : "$passw0rd" ≡ hash = cc in rw (← same) refl

register_then_login_example :
    login env
      (some (record { email = "a@example.org"; password = "passw0rd" }))
      (register env (some req) empty_maria).1
    ≡ answer 200 session
register_then_login_example =
    register_then_login env req empty_maria session refl check_hash registered

-- A signature that knows the claims of the one user.
abbrev claims : Claims
claims = record { user_id = "u1"; org_id = "o1"; email = "a@example.org"; role = "admin" }

abbrev sign_one : Claims → Option String
sign_one c =
    if str_eq c.user_id "u1"
      && str_eq c.org_id "o1"
      && str_eq c.email "a@example.org"
      && str_eq c.role "admin"
    then some "jwt"
    else none

abbrev verify : String → Option Claims
verify token = if str_eq token "jwt" then some claims else none

abbrev signing : Env
signing = record env { sign = λ now c. sign_one c }

signing-ReadsBack : ReadsBack signing verify
signing-ReadsBack c token h = ground (
  arith,
  eq_iff c.user_id "u1",
  eq_iff c.org_id "o1",
  eq_iff c.email "a@example.org",
  eq_iff c.role "admin",
  eq_iff token "jwt",
)

abbrev credentials : LoginReq
credentials = record { email = "a@example.org"; password = "passw0rd" }

abbrev one_user : Maria
one_user = record empty_maria {
  users =
      (record {
        id = "u1";
        org_id = "o1";
        email = "a@example.org";
        password_hash = "$passw0rd";
        role = "admin";
      })
      ∷ [];
}

logged_in_later :
    login signing (some credentials) (register_all ((env, some req) ∷ []) empty_maria)
    ≡ answer 200 session
unfolding login register register_all user_by_email insert_org insert_user
logged_in_later = refl

abbrev reads : Reads.Env
reads = record { db_fails = λ op. false; ch_fails = false }

registered_not_superadmin_example :
    (c : Claims) × (require_auth verify "Bearer jwt" ≡ some c)
    × (list_orgs reads c.role empty_maria ≡ refuse 403 "superadmin only")
    × (stats reads c.role empty_maria ≡ refuse 403 "superadmin only")
registered_not_superadmin_example =
    registered_not_superadmin ((env, some req) ∷ []) empty_maria signing credentials session verify
      reads empty_maria tt signing-ReadsBack logged_in_later
