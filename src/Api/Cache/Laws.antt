-- ===== src/Api/Cache/Laws.antt =====
-- The cache as a map from token hashes to hosts.
use Prim.Native.Char.{code}
use mathlib.Core.Option.{some-injective}
use bangmod_monitor.Prelude.{
  ℕ, String, Bool, true, false, ◌≡◌, refl, sym, ap, none, some, [], ◌∷◌, arith, str_eq, eq_iff,
  eq_refl, ◌==◌, if◌then◌else◌, ◌⊎◌,
}
use bangmod_monitor.Prelude.Text.{concat, strip_prefix, split_n, parts}
use bangmod_monitor.Api.Cache.{TokenCache, Redis, lookup, erase, token_key, get, set, delete}

-- The text has no character of that code.
abbrev pub lacks : ℕ → String → Bool
lacks sep String.[] = true
lacks sep (String.◌∷◌ c s) = if code c == sep then false else lacks sep s

pub split_n-concat :
    (s t : String) → lacks b':' s ≡ true → split_n b':' (concat s (concat ":" t)) ≡ parts s t
split_n-concat String.[] t h = refl
split_n-concat (String.◌∷◌ c s) t h = ground (arith, split_n-concat s t)

same_tests : (p q : Bool) → (p ≡ true → q ≡ true) → (q ≡ true → p ≡ true) → p ≡ q
same_tests true q f g = sym (f refl)
same_tests false true f g = g refl
same_tests false false f g = refl

key-injective : (a b : String) → token_key a ≡ token_key b → a ≡ b
unfolding token_key
key-injective a b e =
    let stripped : some a ≡ some b = ap (strip_prefix "token:") e in some-injective a b stripped

-- Two keys are equal exactly if the hashes are.
token_key-eq : (a b : String) → str_eq (token_key a) (token_key b) ≡ str_eq a b
token_key-eq a b =
    same_tests (str_eq (token_key a) (token_key b)) (str_eq a b)
      (λ e. (eq_iff a b).1 (key-injective a b ((eq_iff (token_key a) (token_key b)).0 e)))
      (λ e. (eq_iff (token_key a) (token_key b)).1 (ap token_key ((eq_iff a b).0 e)))

lookup-erase :
    (k j : String) (m : Redis) → lookup j (erase k m) ≡ (if str_eq k j then none else lookup j m)
lookup-erase k j [] = ground arith
lookup-erase k j ((i, v) ∷ m) =
    ground (arith, lookup-erase k j m, eq_iff i k, eq_iff i j, eq_iff k j)

-- What the cache answers after an entry was set, where Redis answers: the entry for its hash, and
-- what it answered before for any other.
pub get-set :
    (c : TokenCache) (hash host_id org_id k : String)
    → c.enabled ≡ true
    → lacks b':' host_id ≡ true
    → get false (set false c hash host_id org_id) k
      ≡ (if str_eq hash k then some (host_id, org_id) else get false c k)
unfolding get set
get-set c hash host_id org_id k on h = ground (
  arith,
  split_n-concat host_id org_id h,
  token_key-eq hash k,
  lookup-erase (token_key hash) (token_key k) c.redis,
)

-- After a delete that Redis carried out, the hash is not in the cache, and any other is as before.
get-delete :
    (c : TokenCache) (hash k : String)
    → c.enabled ≡ true
    → get false (delete false c hash) k ≡ (if str_eq hash k then none else get false c k)
unfolding get delete
get-delete c hash k on =
    ground (arith, token_key-eq hash k, lookup-erase (token_key hash) (token_key k) c.redis)

-- An answer that comes while Redis may fail is the answer of a Redis that does not.
pub get_failed :
    (fails : Bool) (c : TokenCache) (k : String) {hit : String × String}
    → get fails c k ≡ some hit
    → get false c k ≡ some hit
unfolding get
get_failed fails c k h = ground (arith, h)

-- A set that fails, or on a disabled cache, changes nothing.
pub set_off :
    (fails : Bool) (c : TokenCache) (hash host_id org_id : String)
    → (fails ≡ true) ⊎ (c.enabled ≡ false)
    → set fails c hash host_id org_id ≡ c
unfolding set
set_off fails c hash host_id org_id h = ground (arith, h)

pub get-delete_self :
    (fails : Bool) (c : TokenCache) (hash : String)
    → c.enabled ≡ true
    → get fails (delete false c hash) hash ≡ none
unfolding get delete
get-delete_self fails c hash on =
    ground
      (arith, on, lookup-erase (token_key hash) (token_key hash) c.redis, eq_refl (token_key hash))
