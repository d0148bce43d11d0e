-- ===== src/Api/Cache.antt =====
-- api/cache/redis.go: the cache of validated agent tokens. Redis is a list of keys and values;
-- an entry that expires is dropped as by a delete.
pub mod Laws
use bangmod_monitor.Prelude.{
  ℕ, String, Bool, true, false, not, ◌||◌, Option, none, some, List, [], ◌∷◌, str_eq, if◌then◌else◌,
}
use bangmod_monitor.Prelude.Text.{concat, Cut, whole, parts, split_n}

abbrev pub Redis : Type 0
Redis = List (String × String)

pub record TokenCache : Type 0 where
  pub redis : Redis
  pub enabled : Bool

abbrev pub lookup : String → Redis → Option String
lookup k [] = none
lookup k ((j, v) ∷ m) = if str_eq j k then some v else lookup k m

-- DEL, and what an expiry does
abbrev pub erase : String → Redis → Redis
erase k [] = []
erase k ((j, v) ∷ m) = let rest = erase k m in if str_eq j k then rest else (j, v) ∷ rest

-- SETEX
abbrev insert : String → String → Redis → Redis
insert k v m = (k, v) ∷ erase k m

pub token_key : String → String
token_key hash = concat "token:" hash

abbrev of_cut : Cut → Option (String × String)
of_cut (whole _) = none
of_cut (parts host_id org_id) = some (host_id, org_id)

abbrev of_value : Option String → Option (String × String)
of_value none = none
of_value (some val) = of_cut (split_n b':' val)

-- The host and the organisation of a token hash; `fails` is an error of Redis.
unfoldable pub get : Bool → TokenCache → String → Option (String × String)
unfolding token_key
get fails c hash =
    if not c.enabled || fails then none else of_value (lookup (token_key hash) c.redis)

pub set : Bool → TokenCache → String → String → String → TokenCache
set fails c hash host_id org_id =
    if not c.enabled || fails
    then c
    else record c { redis = insert (token_key hash) (concat host_id (concat ":" org_id)) c.redis }

unfoldable pub delete : Bool → TokenCache → String → TokenCache
delete fails c hash =
    if not c.enabled || fails then c else record c { redis = erase (token_key hash) c.redis }
