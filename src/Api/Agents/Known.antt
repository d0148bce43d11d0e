-- ===== src/Api/Agents/Known.antt =====
-- A token that the table knows is admitted again and again.
use bangmod_monitor.Prelude.{String, false, ◌≡◌, refl, sym, ap, subst, ◌∙◌, Option, none, some}
use bangmod_monitor.Prelude.Text.{concat}
use bangmod_monitor.Api.Cache.{get}
use bangmod_monitor.Api.Store.{Maria, validate_token}
use bangmod_monitor.Api.Store.Hosts.{host_by_hash}
use bangmod_monitor.Api.Agents.{Env, State, validate, admit, fast_or_slow, check_token, auth}
use bangmod_monitor.Api.Agents.Auth.{IsCoherent, HasPlainIds, auth-by_table, auth-IsCoherent}

-- The table has the token for a host of an organisation, and the cache does not contradict it.
pub record Knows (e : Env) (token host_id org_id : String) (s : State) : Type 0 where
  pub coherent : IsCoherent s
  pub plain : HasPlainIds s.maria.hosts
  pub found : host_by_hash (e.sha256 token) s.maria.hosts ≡ some (host_id, org_id)

module _ (e : Env) (token : String) (s : State) where
  admit_maria :
      (hash : String) (o : Option (String × String)) → (admit e s hash o).0.maria ≡ s.maria
  admit_maria hash none = refl
  admit_maria hash (some (host_id, org_id)) = refl

  looked_maria :
      (hash : String) (o : Option (String × String)) → (fast_or_slow e s hash o).0.maria ≡ s.maria
  looked_maria hash (some hit) = refl
  looked_maria hash none = admit_maria hash (validate e s.maria hash)

  check_token_maria : (check_token e token s).0.maria ≡ s.maria
  unfolding check_token
  check_token_maria = looked_maria (e.sha256 token) (get e.get_fails s.cache (e.sha256 token))

  pub bearer : auth e (concat "Bearer " token) s ≡ check_token e token s
  unfolding auth
  bearer = refl

  pub check_token-Knows :
      (host_id org_id : String)
      → Knows e token host_id org_id s
      → e.db_fails validate_token ≡ false
      → ((check_token e token s).1 ≡ some (host_id, org_id))
        × Knows e token host_id org_id (check_token e token s).0
  check_token-Knows host_id org_id k answers =
      let same = sym check_token_maria in
      (
        ap (λ (r : State × Option (String × String)). r.1) (sym bearer)
            ∙ auth-by_table e (concat "Bearer " token) s k.coherent answers
            ∙ k.found,
        record {
          coherent =
              subst (λ (r : State × Option (String × String)). IsCoherent r.0) bearer
                (auth-IsCoherent e (concat "Bearer " token) s k.coherent k.plain);
          plain = subst (λ (m : Maria). HasPlainIds m.hosts) same k.plain;
          found =
              ap (λ (m : Maria). host_by_hash (e.sha256 token) m.hosts) check_token_maria ∙ k.found;
        },
      )
