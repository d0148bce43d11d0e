-- ===== src/Api/Agents/Auth.antt =====
-- The check of a bearer token against the cache and the table, and what a rotated or deleted
-- token can still do.
use bangmod_monitor.Prelude.{
  String, Bool, true, false, ◌≡◌, refl, sym, Option, none, some, List, [], ◌∷◌, arith, str_eq,
  eq_iff, if◌then◌else◌, Bool-cases, inl, inr, All,
}
use bangmod_monitor.Prelude.Text.{concat, strip_prefix, is_empty}
use bangmod_monitor.Api.Http.{answer}
use bangmod_monitor.Api.Cache.{get, set}
use bangmod_monitor.Api.Cache.Laws.{lacks, get-set, get-delete_self, get_failed, set_off}
use bangmod_monitor.Api.Store.{Maria, validate_token, coalesce}
use bangmod_monitor.Api.Store.Hosts.{HostRow, has_hash, host_by_hash}
use bangmod_monitor.Api.Agents.{
  Env, State, rotated, status_deleted, validate, admit, fast_or_slow, check_token, check_bearer,
  auth, rotate, rotate_with, delete, invalidate_token,
}

-- Every entry of the cache is what the table says of its hash.
abbrev pub IsCoherent : State → Type 0
IsCoherent s =
    (hash host_id org_id : String)
    → get false s.cache hash ≡ some (host_id, org_id)
    → host_by_hash hash s.maria.hosts ≡ some (host_id, org_id)

-- No host's id has a colon, which separates it from the organisation in the cache.
abbrev pub HasPlainIds : List HostRow → Type 0
HasPlainIds = All (λ r. lacks b':' r.id ≡ true)

id_of_hash :
    (hash : String) (rows : List HostRow) (host_id org_id : String)
    → HasPlainIds rows
    → host_by_hash hash rows ≡ some (host_id, org_id)
    → lacks b':' host_id ≡ true
unfolding host_by_hash
id_of_hash hash [] host_id org_id p h = cc
id_of_hash hash (r ∷ rows) host_id org_id (p, ps) h = elim (Bool-cases (has_hash hash r)) [
  | inl mine ↦
      let same : r.id ≡ host_id =
        (let e : some (r.id, coalesce r.org_id) ≡ some (host_id, org_id) = (rw mine at h) in cc) in
      rw (← same) p
  | inr other ↦ id_of_hash hash rows host_id org_id ps (rw other at h)
]

-- What the agent's token is worth by the table alone.
abbrev pub by_table : Env → Option String → Maria → Option (String × String)
by_table e none m = none
by_table e (some token) m = host_by_hash (e.sha256 token) m.hosts

fast_or_slow_table :
    (e : Env) (s : State) (hash : String) (hit : Option (String × String))
    → ((host_id org_id : String)
        → hit ≡ some (host_id, org_id)
        → host_by_hash hash s.maria.hosts ≡ some (host_id, org_id))
    → e.db_fails validate_token ≡ false
    → (fast_or_slow e s hash hit).1 ≡ host_by_hash hash s.maria.hosts
unfolding validate
fast_or_slow_table e s hash (some (host_id, org_id)) c v = sym (c host_id org_id refl)
fast_or_slow_table e s hash none c v = rw v (admitted (host_by_hash hash s.maria.hosts))
  where
    admitted : (o : Option (String × String)) → (admit e s hash o).1 ≡ o
    admitted none = refl
    admitted (some (host_id, org_id)) = refl

-- With a coherent cache, whether or not Redis answers, the middleware admits exactly the tokens
-- that the table knows, as the host and the organisation that the table gives, while the query of
-- the table succeeds.
pub auth-by_table :
    (e : Env) (header : String) (s : State)
    → IsCoherent s
    → e.db_fails validate_token ≡ false
    → (auth e header s).1 ≡ by_table e (strip_prefix "Bearer " header) s.maria
unfolding auth check_token
auth-by_table e header s c v = bearer (strip_prefix "Bearer " header)
  where
    bearer : (t : Option String) → (check_bearer e t s).1 ≡ by_table e t s.maria
    bearer none = refl
    bearer (some token) =
        fast_or_slow_table e s (e.sha256 token) (get e.get_fails s.cache (e.sha256 token))
          (λ host_id org_id h.
            c (e.sha256 token) host_id org_id (get_failed e.get_fails s.cache (e.sha256 token) h))
          v

set-IsCoherent :
    (s : State) (fails : Bool) (hash host_id org_id : String)
    → IsCoherent s
    → HasPlainIds s.maria.hosts
    → host_by_hash hash s.maria.hosts ≡ some (host_id, org_id)
    → IsCoherent (record s { cache = set fails s.cache hash host_id org_id })
set-IsCoherent s true hash host_id org_id c p h =
    λ k i o g. c k i o (rw (set_off true s.cache hash host_id org_id (inl refl)) at g)
set-IsCoherent s false hash host_id org_id c p h = elim (Bool-cases s.cache.enabled) [
  | inr off ↦ λ k i o g. c k i o (rw (set_off false s.cache hash host_id org_id (inr off)) at g)
  | inl on ↦ λ k i o g.
      let split : (if str_eq hash k then some (host_id, org_id) else get false s.cache k)
          ≡ some (i, o) =
        (rw
          (get-set s.cache hash host_id org_id k on
            (id_of_hash hash s.maria.hosts host_id org_id p h))
          at g) in
      ground (arith, split, h, c k i o, eq_iff hash k)
]

admit-IsCoherent :
    (e : Env) (s : State) (hash : String) (o : Option (String × String))
    → IsCoherent s
    → HasPlainIds s.maria.hosts
    → ((host_id org_id : String)
        → o ≡ some (host_id, org_id)
        → host_by_hash hash s.maria.hosts ≡ some (host_id, org_id))
    → IsCoherent (admit e s hash o).0
admit-IsCoherent e s hash none c p h = c
admit-IsCoherent e s hash (some (host_id, org_id)) c p h =
    set-IsCoherent s e.set_fails hash host_id org_id c p (h host_id org_id refl)

-- The middleware keeps the cache coherent, whatever fails, where no id of a host has a colon, as no
-- UUID has.
pub auth-IsCoherent :
    (e : Env) (header : String) (s : State)
    → IsCoherent s
    → HasPlainIds s.maria.hosts
    → IsCoherent (auth e header s).0
unfolding auth check_token validate
auth-IsCoherent e header s c p = bearer (strip_prefix "Bearer " header)
  where
    looked :
        (token : String) (hit : Option (String × String))
        → IsCoherent (fast_or_slow e s (e.sha256 token) hit).0
    looked token (some hit) = c
    looked token none =
        admit-IsCoherent e s (e.sha256 token) (validate e s.maria (e.sha256 token)) c p
          (λ host_id org_id h. ground (arith, h))

    bearer : (t : Option String) → IsCoherent (check_bearer e t s).0
    bearer none = c
    bearer (some token) = looked token (get e.get_fails s.cache (e.sha256 token))

bearer_of : (token : String) → strip_prefix "Bearer " (concat "Bearer " token) ≡ some token
bearer_of token = refl

-- A token that the cache holds when its host's token is rotated is admitted afterwards all the
-- same, as the host that it was issued for, until the entry leaves the cache.
pub rotated_token_admitted :
    (e later : Env) (org id plain old : String) (host_id org_id : String) (s : State)
    → (rotate e org id s).0 ≡ answer 200 (rotated plain)
    → later.get_fails ≡ false
    → get false s.cache (later.sha256 old) ≡ some (host_id, org_id)
    → (auth later (concat "Bearer " old) (rotate e org id s).1).1 ≡ some (host_id, org_id)
unfolding auth check_token rotate
rotated_token_admitted e later org id plain old host_id org_id s h g c =
    rw (same_cache e.random, g, c) refl
  where
    same_cache : (o : Option String) → (rotate_with e org id o s).1.cache ≡ s.cache
    same_cache none = refl
    same_cache (some p) = ground arith

-- A token that the cache holds when its host is deleted is admitted afterwards all the same, as
-- the host that it was issued for, until the entry leaves the cache.
deleted_token_admitted :
    (e later : Env) (org id old : String) (host_id org_id : String) (s : State)
    → (delete e org id s).0 ≡ answer 200 status_deleted
    → later.get_fails ≡ false
    → get false s.cache (later.sha256 old) ≡ some (host_id, org_id)
    → (auth later (concat "Bearer " old) (delete e org id s).1).1 ≡ some (host_id, org_id)
unfolding auth check_token
deleted_token_admitted e later org id old host_id org_id s h g c = rw (same_cache, g, c) refl
  where
    same_cache : (delete e org id s).1.cache ≡ s.cache
    same_cache = unfold delete in ground arith

-- After `invalidateToken` of a token, on an enabled cache that answers, only the table is asked
-- about it: a token that the table does not know is refused.
invalidated_token_refused :
    (e later : Env) (token : String) (s : State)
    → is_empty token ≡ false
    → s.cache.enabled ≡ true
    → e.set_fails ≡ false
    → later.sha256 token ≡ e.sha256 token
    → host_by_hash (e.sha256 token) s.maria.hosts ≡ none
    → (auth later (concat "Bearer " token) (invalidate_token e token s)).1 ≡ none
unfolding auth check_token invalidate_token validate
invalidated_token_refused e later token s filled on d same gone =
    rw (filled, same, d, get-delete_self later.get_fails s.cache (e.sha256 token) on)
      (ground (arith, gone))
