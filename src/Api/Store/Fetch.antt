-- ===== src/Api/Store/Fetch.antt =====
-- The results of a query for one row.
use bangmod_monitor.Prelude.{String, Bool, Option, none, some, if◌then◌else◌}

pub data Fetched {ℓ} (A : Type ℓ) : Type ℓ where
  row : A → Fetched A
  missing : Fetched A
  unreadable : Fetched A

abbrev of_found {ℓ} : {A : Type ℓ} → Option A → Fetched A
of_found none = missing
of_found (some a) = row a

-- sql.ErrNoRows is no error of the methods.
abbrev pub fetch {ℓ} : {A : Type ℓ} → Bool → Option A → Fetched A
fetch fails found = if fails then unreadable else of_found found

-- COALESCE(column, '')
abbrev pub coalesce : Option String → String
coalesce none = ""
coalesce (some s) = s
