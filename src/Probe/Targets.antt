-- ===== src/Probe/Targets.antt =====
-- The targets of the probe node's configuration.
use Prim.Native.Char.{code}
use bangmod_monitor.Prelude.{
  ℕ, ◌<◌, ◌^◌, String, false, ◌≡◌, refl, ap, ◌∙◌, some, List, [], ◌∷◌, map, filter_map, All, arith,
  ◌==◌,
}
use bangmod_monitor.Prelude.Int.{ℤ, pos}
use bangmod_monitor.Prelude.Decimal.{itoa, atoi-itoa}
use bangmod_monitor.Prelude.Text.{join, parts, concat, split_n}
use bangmod_monitor.Prelude.Environ.{Environ, IsItem, list_of, list_of-join, list_of_or_none}
use bangmod_monitor.Probe.{TcpTarget, address, target_of, load_env_list, load_tcp_targets}

-- no colon
abbrev NoColon : String → Type 0
NoColon String.[] = Unit
NoColon (String.◌∷◌ c s) = ((code c == b':') ≡ false) × NoColon s

-- A target that a configuration can name: a host without a colon, and a port that fits an int.
pub record IsTarget (t : TcpTarget) : Type 0 where
  pub plain : NoColon t.host
  pub number : ℕ
  pub is_port : t.port ≡ pos number
  pub fits : number < 2 ^ 63
  pub item : IsItem (address t)

split_n-concat : (s t : String) → NoColon s → split_n b':' (concat s (concat ":" t)) ≡ parts s t
split_n-concat String.[] t h = refl
split_n-concat (String.◌∷◌ c s) t (p, h) = ground (arith, split_n-concat s t h)

target_of-printed :
    (host : String) (port : ℤ) (n : ℕ)
    → NoColon host
    → port ≡ pos n
    → n < 2 ^ 63
    → target_of (concat host (concat ":" (itoa port))) ≡ some (record { host = host; port = port })
target_of-printed host port n plain e fits =
    rw (split_n-concat host (itoa port) plain, e, atoi-itoa n fits) refl

target_of-address : (t : TcpTarget) → IsTarget t → target_of (address t) ≡ some t
target_of-address t h = target_of-printed t.host t.port h.number h.plain h.is_port h.fits

targets_of-addresses :
    (ts : List TcpTarget) → All IsTarget ts → filter_map target_of (map address ts) ≡ ts
targets_of-addresses [] h = refl
targets_of-addresses (t ∷ ts) (p, h) =
    rw (target_of-address t p, filter_map) (ap (λ l. t ∷ l) (targets_of-addresses ts h))

items_of : (ts : List TcpTarget) → All IsTarget ts → All IsItem (map address ts)
items_of [] h = tt
items_of (t ∷ ts) (p, h) = (p.item, items_of ts h)

pub load_env_list-join :
    (env : Environ) (key : String) (xs : List String)
    → env key ≡ join "," xs
    → All IsItem xs
    → load_env_list env key ≡ xs
unfolding load_env_list
load_env_list-join env key xs at h = list_of_or_none (env key) ∙ ap list_of at ∙ list_of-join xs h

-- Where the variable holds the addresses of targets, printed as host:port between commas, the
-- node reads these targets, in their order, if no host has a colon or a comma.
load_tcp_targets-addresses :
    (env : Environ) (key : String) (ts : List TcpTarget)
    → env key ≡ join "," (map address ts)
    → All IsTarget ts
    → load_tcp_targets env key ≡ ts
unfolding load_tcp_targets
load_tcp_targets-addresses env key ts at h =
    ap (filter_map target_of) (load_env_list-join env key (map address ts) at (items_of ts h))
    ∙ targets_of-addresses ts h
