-- ===== src/Api/Accounts/Sessions/Laws.antt =====
-- What a session that a login opened is worth at the other endpoints.
use bangmod_monitor.Prelude.{
  String, Bool, true, false, ◌≡◌, refl, Option, none, some, Bool-cases, inl, inr, ◌||◌,
}
use bangmod_monitor.Prelude.Text.{concat, is_empty}
use bangmod_monitor.Api.Http.{answer}
use bangmod_monitor.Api.Store.{Maria, fetch, get_user_by_email}
use bangmod_monitor.Api.Store.Users.{User, user_by_email}
use bangmod_monitor.Api.Accounts.{
  Env, Claims, LoginReq, Session, login, login_as, sign_in, open_session, claims_of,
}
use bangmod_monitor.Api.Accounts.Sessions.{require_auth}

-- The JWT library reads back what it signed: the text of a token gives the claims in it.
abbrev pub ReadsBack : Env → (String → Option Claims) → Type 0
ReadsBack e verify =
    (c : Claims) (token : String) → e.sign e.now c ≡ some token → verify token ≡ some c

signed_session :
    (e : Env) (u : User) (x : Session)
    → sign_in e 200 u ≡ answer 200 x
    → (e.sign e.now (claims_of u) ≡ some x.token) × (x.user_id ≡ u.id) × (x.org_id ≡ u.org_id)
signed_session e u x h = signed (e.sign e.now (claims_of u)) h
  where
    signed :
        (o : Option String)
        → open_session 200 u o ≡ answer 200 x
        → (o ≡ some x.token) × (x.user_id ≡ u.id) × (x.org_id ≡ u.org_id)
    signed none k = cc
    signed (some token) k = (cc, cc, cc)

-- A login that is answered with a session found a user of the table.
logged_in :
    (e : Env) (password : String) (fails : Bool) (o : Option User) (x : Session)
    → login_as e password (fetch fails o) ≡ answer 200 x
    → (u : User) × (o ≡ some u) × (sign_in e 200 u ≡ answer 200 x)
logged_in e password true o x h = cc
logged_in e password false none x h = cc
logged_in e password false (some u) x h =
    elim (Bool-cases (e.check_password u.password_hash password)) [
      | inl right ↦ (u, refl, rw right at h)
      | inr wrong ↦ cc (rw wrong at h)
    ]

login_user :
    (e : Env) (req : LoginReq) (m : Maria) (x : Session)
    → login e (some req) m ≡ answer 200 x
    → (u : User) × (user_by_email e.same_email req.email m.users ≡ some u)
      × (sign_in e 200 u ≡ answer 200 x)
unfolding login
login_user e req m x h = elim (Bool-cases (is_empty req.email || is_empty req.password)) [
  | inl bad ↦ cc (rw bad at h)
  | inr fine ↦
      logged_in e req.password (e.db_fails get_user_by_email)
        (user_by_email e.same_email req.email m.users) x (rw fine at h)
]

-- The token of a session that a login opened passes the check of the other endpoints, as the user
-- and the organisation that the login answered with, and with the role of that user's row, where
-- the JWT library reads back what it signed.
pub login_opens_session :
    (e : Env) (req : LoginReq) (m : Maria) (x : Session) (verify : String → Option Claims)
    → ReadsBack e verify
    → login e (some req) m ≡ answer 200 x
    → (u : User) × (user_by_email e.same_email req.email m.users ≡ some u)
      × (require_auth verify (concat "Bearer " x.token) ≡ some (claims_of u))
      × (x.user_id ≡ u.id)
      × (x.org_id ≡ u.org_id)
unfolding require_auth
login_opens_session e req m x verify back h =
    let (u, found, opened) = login_user e req m x h in
    let (signed, user, org) = signed_session e u x opened in
    (u, found, back (claims_of u) x.token signed, user, org)
