-- ===== src/Api/Store/Users.antt =====
-- api/storage/mariadb.go: organisations and users. Texts are compared by the collation of the
-- column, which is an argument.
use bangmod_monitor.Prelude.{
  ℕ, String, Bool, true, false, ◌||◌, Option, none, some, List, [], ◌∷◌, ◌++◌, str_eq, find,
  if◌then◌else◌,
}

pub record Org : Type 0 where
  pub id : String
  pub name : String
  pub created_at : ℕ

pub record User : Type 0 where
  pub id : String
  pub org_id : String
  pub email : String
  pub password_hash : String
  pub role : String

abbrev any {ℓ} : {A : Type ℓ} → (A → Bool) → List A → Bool
any p xs = elim (find p xs) [ none ↦ false | some _ ↦ true ]

-- The table with the new row, or `none` where its primary key is taken.
unfoldable pub insert_org : String → String → ℕ → List Org → Option (List Org)
insert_org id name now rows =
    if any (λ o. str_eq o.id id) rows
    then none
    else some (rows ++ (record { id = id; name = name; created_at = now }) ∷ [])

-- The same for a user, whose email is unique too.
unfoldable pub insert_user : (String → String → Bool) → User → List User → Option (List User)
insert_user same u rows =
    if any (λ v. str_eq v.id u.id || same v.email u.email) rows then none else some (rows ++ u ∷ [])

unfoldable pub user_by_email : (String → String → Bool) → String → List User → Option User
user_by_email same email rows = find (λ u. same u.email email) rows
