-- ===== src/Api/Accounts/Login.antt =====
-- What a registration is worth at a login.
use bangmod_monitor.Prelude.{
  String, Bool, true, false, Option, none, some, List, [], ◌∷◌, ◌++◌, ◌≡◌, refl, ap, ◌∙◌, arith,
  if◌then◌else◌, Bool-cases, inl, inr,
}
use bangmod_monitor.Prelude.Text.{is_empty}
use bangmod_monitor.Api.Http.{answer, refuse}
use bangmod_monitor.Api.Store.{
  Maria, get_user_by_email, create_user, create_org, Fetched, row, missing, unreadable, fetch,
}
use bangmod_monitor.Api.Store.Users.{User, Org, user_by_email, insert_user, insert_org}
use bangmod_monitor.Api.Accounts.{
  Env, RegisterReq, Session, register, login, with_existing, with_hash, with_orgs, with_users,
  find_user, is_refused, set_up, subscribe, enable_default_region, link_customer, new_user, sign_in,
  open_session,
}

pub users-set_up : (e : Env) (req : RegisterReq) (m : Maria) → (set_up e req m).users ≡ m.users
users-set_up e req m =
    linked (if e.stripe_enabled then e.create_customer req.email req.org_name else none)
      (enable_default_region e (subscribe e m))
    ∙ regions (subscribe e m)
    ∙ subscribed
  where
    linked : (o : Option String) (n : Maria) → (link_customer e o n).users ≡ n.users
    linked none n = refl
    linked (some customer) n = ground arith

    regions : (n : Maria) → (enable_default_region e n).users ≡ n.users
    regions n = ground arith

    subscribed : (subscribe e m).users ≡ m.users
    subscribed = ground arith

user_by_email-append :
    (same : String → String → Bool) (email : String) (rows : List User) (u : User)
    → user_by_email same email rows ≡ none
    → same u.email email ≡ true
    → user_by_email same email (rows ++ u ∷ []) ≡ some u
unfolding user_by_email
user_by_email-append same email [] u free own = rw own refl
user_by_email-append same email (v ∷ rows) u free own =
    let ih = user_by_email-append same email rows u in
    elim (Bool-cases (same v.email email)) [ inl taken ↦ ground arith | inr other ↦ ground arith ]

pub inserted :
    {A : Type 0} (fails taken : Bool) (rows us : List A)
    → (if fails then none else if taken then none else some rows) ≡ some us
    → us ≡ rows
inserted true taken rows us h = cc
inserted false true rows us h = cc
inserted false false rows us h = cc

module _ (e : Env) (req : RegisterReq) (x : Session) where
  with_users_done :
      (rows : List User) (u : User) (m : Maria) (o : Option (List User))
      → ((us : List User) → o ≡ some us → us ≡ rows ++ u ∷ [])
      → (with_users e req u m o).0 ≡ answer 201 x
      → (sign_in e 201 u ≡ answer 201 x) × ((with_users e req u m o).1.users ≡ rows ++ u ∷ [])
  with_users_done rows u m none k h = cc
  with_users_done rows u m (some us) k h =
      (h, users-set_up e req (record m { users = us }) ∙ k us refl)

  with_orgs_done :
      (u : User) (m : Maria) (o : Option (List Org))
      → (with_orgs e req u m o).0 ≡ answer 201 x
      → (sign_in e 201 u ≡ answer 201 x) × ((with_orgs e req u m o).1.users ≡ m.users ++ u ∷ [])
  unfolding insert_user
  with_orgs_done u m none h = cc
  with_orgs_done u m (some orgs) h =
      with_users_done m.users u (record m { orgs = orgs })
        (if e.db_fails create_user then none else insert_user e.same_email u m.users)
        (λ us done. inserted (e.db_fails create_user) _ (m.users ++ u ∷ []) us done) h

  with_hash_done :
      (m : Maria) (o : Option String)
      → (with_hash e req m o).0 ≡ answer 201 x
      → (hash : String) × (o ≡ some hash)
        × (sign_in e 201 (new_user e req hash) ≡ answer 201 x)
        × ((with_hash e req m o).1.users ≡ m.users ++ new_user e req hash ∷ [])
  with_hash_done m none h = cc
  with_hash_done m (some hash) h =
      let (signed, stored) =
        with_orgs_done (new_user e req hash) m
          (if e.db_fails create_org then none else insert_org e.org_id req.org_name e.now m.orgs)
          h in
      (hash, refl, signed, stored)

  with_existing_done :
      (m : Maria) (f : Fetched User)
      → (with_existing e req m f).0 ≡ answer 201 x
      → (f ≡ missing) × ((with_hash e req m (e.hash_password req.password)).0 ≡ answer 201 x)
  with_existing_done m unreadable h = cc
  with_existing_done m (row u) h = cc
  with_existing_done m missing h = (refl, h)

not_found :
    {A : Type 0} (fails : Bool) (o : Option A)
    → fetch fails o ≡ missing
    → (fails ≡ false) × (o ≡ none)
not_found true o h = cc
not_found false none h = (refl, refl)
not_found false (some a) h = cc

open_again :
    (u : User) (o : Option String) (x : Session)
    → open_session 201 u o ≡ answer 201 x
    → open_session 200 u o ≡ answer 200 x
open_again u none x h = cc
open_again u (some token) x h = cc

login_of_user :
    (e : Env) (email password : String) (m : Maria) (u : User) (x : Session)
    → is_empty email ≡ false
    → is_empty password ≡ false
    → e.db_fails get_user_by_email ≡ false
    → user_by_email e.same_email email m.users ≡ some u
    → e.check_password u.password_hash password ≡ true
    → sign_in e 200 u ≡ answer 200 x
    → login e (some (record { email = email; password = password })) m ≡ answer 200 x
unfolding login
login_of_user e email password m u x some_email some_password fine found right signed =
    rw (some_email, some_password, fine, found, right) signed

fields_given :
    (e : Env) (req : RegisterReq)
    → is_refused e req ≡ false
    → (is_empty req.email ≡ false) × (is_empty req.password ≡ false)
fields_given e req h = (ground (arith, h), ground (arith, h))

-- Who has registered can log in: if a registration is answered with a session, a login with its
-- e-mail address and password, in the state that it left, is answered with the same session, in
-- the same environment, where the collation finds an address equal to itself and bcrypt accepts a
-- password against its own hash.
pub register_then_login :
    (e : Env) (req : RegisterReq) (m : Maria) (x : Session)
    → e.same_email req.email req.email ≡ true
    → ((hash : String)
        → e.hash_password req.password ≡ some hash
        → e.check_password hash req.password ≡ true)
    → (register e (some req) m).0 ≡ answer 201 x
    → login e
        (some (record { email = req.email; password = req.password }))
        (register e (some req) m).1
      ≡ answer 200 x
unfolding register
register_then_login e req m x same right h = elim (Bool-cases (is_refused e req)) [
  | inl refused ↦ cc (rw refused at h)
  | inr fine ↦
      let (absent, done) = with_existing_done e req x m (find_user e req.email m) (rw fine at h) in
      let (answers, free) = not_found (e.db_fails get_user_by_email) _ absent in
      let (hash, hashed, signed, stored) =
        with_hash_done e req x m (e.hash_password req.password) done in
      let (some_email, some_password) = fields_given e req fine in
      rw (fine, absent)
        (login_of_user e req.email req.password (with_hash e req m (e.hash_password req.password)).1
          (new_user e req hash) x some_email some_password answers
          (ap (λ us. user_by_email e.same_email req.email us) stored
            ∙ user_by_email-append e.same_email req.email m.users (new_user e req hash) free same)
          (right hash hashed) (open_again (new_user e req hash) _ x signed))
]

user_by_email-found :
    (same : String → String → Bool) (email : String) (rows : List User) (u : User)
    → same u.email email ≡ true
    → (v : User) × (user_by_email same email (rows ++ u ∷ []) ≡ some v)
unfolding user_by_email
user_by_email-found same email [] u own = (u, rw own refl)
user_by_email-found same email (v ∷ rows) u own =
    let (w, rest) = user_by_email-found same email rows u own in
    elim (Bool-cases (same v.email email)) [
      | inl taken ↦ (v, rw taken refl)
      | inr other ↦ (w, rw other rest)
    ]

stored_user :
    (e : Env) (req : RegisterReq) (m : Maria) (x : Session)
    → (register e (some req) m).0 ≡ answer 201 x
    → (u : User) × (u.email ≡ req.email) × ((register e (some req) m).1.users ≡ m.users ++ u ∷ [])
unfolding register
stored_user e req m x h = elim (Bool-cases (is_refused e req)) [
  | inl refused ↦ cc (rw refused at h)
  | inr fine ↦
      let (absent, done) = with_existing_done e req x m (find_user e req.email m) (rw fine at h) in
      let (hash, hashed, signed, stored) =
        with_hash_done e req x m (e.hash_password req.password) done in
      (new_user e req hash, refl, rw (fine, absent) stored)
]

-- An address is registered once: after a registration that is answered with a session, any other
-- one that passes the checks of its fields, for an address that the collation takes for the same,
-- is refused with 409 and changes nothing, if its query of the users succeeds.
register_once :
    (e e' : Env) (req req' : RegisterReq) (m : Maria) (x : Session)
    → (register e (some req) m).0 ≡ answer 201 x
    → e'.same_email req.email req'.email ≡ true
    → e'.db_fails get_user_by_email ≡ false
    → is_refused e' req' ≡ false
    → register e' (some req') (register e (some req) m).1
      ≡ (refuse 409 "email already registered", (register e (some req) m).1)
register_once e e' req req' m x h same fine accepted =
    let (u, own, stored) = stored_user e req m x h in
    let (v, found) = user_by_email-found e'.same_email req'.email m.users u (rw own same) in
    taken (register e (some req) m).1 v
      (ap (λ us. user_by_email e'.same_email req'.email us) stored ∙ found)
  where
    taken :
        (n : Maria) (v : User)
        → user_by_email e'.same_email req'.email n.users ≡ some v
        → register e' (some req') n ≡ (refuse 409 "email already registered", n)
    taken n v found = unfold register in rw (accepted, fine, found) refl
