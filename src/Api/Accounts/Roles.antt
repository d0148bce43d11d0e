-- ===== src/Api/Accounts/Roles.antt =====
-- The roles that registrations give, and the pages of the administrators.
use bangmod_monitor.Prelude.{
  String, Bool, ◌≡◌, refl, Option, none, some, List, [], ◌∷◌, ◌++◌, All, if◌then◌else◌, Bool-cases,
  inl, inr,
}
use bangmod_monitor.Prelude.Text.{concat}
use bangmod_monitor.Api.Http.{answer, refuse}
use bangmod_monitor.Api.Store.{Maria, Fetched, row, missing, unreadable, create_org, create_user}
use bangmod_monitor.Api.Store.Users.{User, Org, user_by_email, insert_user, insert_org}
use bangmod_monitor.Api.Accounts.{
  Env, Claims, RegisterReq, LoginReq, Session, login, register, with_existing, with_hash, with_orgs,
  with_users, find_user, is_refused, new_user, claims_of,
}
use bangmod_monitor.Api.Accounts.Login.{users-set_up, inserted}
use bangmod_monitor.Api.Accounts.Sessions.{require_auth}
use bangmod_monitor.Api.Accounts.Sessions.Laws.{ReadsBack, login_opens_session}
use bangmod_monitor.Api.Reads
use bangmod_monitor.Api.Reads.{list_orgs, stats}

-- What holds of the users before a registration, and of them with a new one behind, holds after it.
module _ (P : List User → Type 0) (e : Env) (req : RegisterReq) (m : Maria) (old : P m.users)
    (more : (hash : String) → P (m.users ++ new_user e req hash ∷ [])) where
  with_users_keeps :
      (hash : String) (n : Maria) (o : Option (List User))
      → n.users ≡ m.users
      → ((us : List User) → o ≡ some us → us ≡ m.users ++ new_user e req hash ∷ [])
      → P (with_users e req (new_user e req hash) n o).1.users
  with_users_keeps hash n none s k = rw s old
  with_users_keeps hash n (some us) s k =
      rw (users-set_up e req (record n { users = us }), k us refl) (more hash)

  with_orgs_keeps :
      (hash : String) (o : Option (List Org))
      → P (with_orgs e req (new_user e req hash) m o).1.users
  unfolding insert_user
  with_orgs_keeps hash none = old
  with_orgs_keeps hash (some orgs) =
      with_users_keeps hash (record m { orgs = orgs })
        (if e.db_fails create_user
          then none
          else insert_user e.same_email (new_user e req hash) m.users)
        refl
        (λ us done.
          inserted (e.db_fails create_user) _ (m.users ++ new_user e req hash ∷ []) us done)

  with_hash_keeps : (o : Option String) → P (with_hash e req m o).1.users
  with_hash_keeps none = old
  with_hash_keeps (some hash) =
      with_orgs_keeps hash
        (if e.db_fails create_org then none else insert_org e.org_id req.org_name e.now m.orgs)

  with_existing_keeps : (f : Fetched User) → P (with_existing e req m f).1.users
  with_existing_keeps unreadable = old
  with_existing_keeps (row u) = old
  with_existing_keeps missing = with_hash_keeps (e.hash_password req.password)

  register_keeps : P (register e (some req) m).1.users
  unfolding register
  register_keeps = elim (Bool-cases (is_refused e req)) [
    | inl refused ↦ rw refused old
    | inr fine ↦ rw fine (with_existing_keeps (find_user e req.email m))
  ]

-- Every user has the role "admin".
abbrev HasPlainRoles : List User → Type 0
HasPlainRoles = All (λ u. u.role ≡ "admin")

HasPlainRoles-append :
    (us : List User) (u : User) → HasPlainRoles us → u.role ≡ "admin" → HasPlainRoles (us ++ u ∷ [])
HasPlainRoles-append [] u h r = (r, tt)
HasPlainRoles-append (v ∷ us) u (p, h) r = (p, HasPlainRoles-append us u h r)

-- Registrations, each in its own environment, one after another
unfoldable pub register_all : List (Env × Option RegisterReq) → Maria → Maria
register_all [] m = m
register_all ((e, o) ∷ reqs) m = register_all reqs (register e o m).1

register_all-HasPlainRoles :
    (reqs : List (Env × Option RegisterReq)) (m : Maria)
    → HasPlainRoles m.users
    → HasPlainRoles (register_all reqs m).users
unfolding register_all
register_all-HasPlainRoles [] m h = h
register_all-HasPlainRoles ((e, none) ∷ reqs) m h =
    register_all-HasPlainRoles reqs (register e none m).1 (unfold register in h)
register_all-HasPlainRoles ((e, some req) ∷ reqs) m h =
    register_all-HasPlainRoles reqs (register e (some req) m).1 (
      register_keeps HasPlainRoles e req m h
        (λ hash. HasPlainRoles-append m.users (new_user e req hash) h refl))

found_role :
    (same : String → String → Bool) (email : String) (us : List User) (u : User)
    → HasPlainRoles us
    → user_by_email same email us ≡ some u
    → u.role ≡ "admin"
unfolding user_by_email
found_role same email [] u h f = cc
found_role same email (v ∷ us) u (p, h) f = elim (Bool-cases (same v.email email)) [
  | inl mine ↦ let at : some v ≡ some u = (rw mine at f) in cc
  | inr other ↦ found_role same email us u h (rw other at f)
]

-- Nobody who registers becomes an administrator: after any registrations from a table of users
-- whose roles are all "admin", the session of every login passes the check of sessions, and is
-- refused with 403 at both pages of the administrators, where the JWT library reads back what it
-- signed.
pub registered_not_superadmin :
    (reqs : List (Env × Option RegisterReq)) (m : Maria) (e : Env) (req : LoginReq) (x : Session)
    (verify : String → Option Claims) (reads : Reads.Env) (n : Maria)
    → HasPlainRoles m.users
    → ReadsBack e verify
    → login e (some req) (register_all reqs m) ≡ answer 200 x
    → (c : Claims) × (require_auth verify (concat "Bearer " x.token) ≡ some c)
      × (list_orgs reads c.role n ≡ refuse 403 "superadmin only")
      × (stats reads c.role n ≡ refuse 403 "superadmin only")
unfolding list_orgs stats
registered_not_superadmin reqs m e req x verify reads n h back opened =
    let (u, found, passed, _, _) =
      login_opens_session e req (register_all reqs m) x verify back opened in
    let role =
      found_role e.same_email req.email (register_all reqs m).users u
        (register_all-HasPlainRoles reqs m h) found in
    (claims_of u, passed, rw role refl, rw role refl)
