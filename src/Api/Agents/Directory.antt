-- ===== src/Api/Agents/Directory.antt =====
-- The directory of the agents' tokens: which host and organisation the hash of a token belongs to.
-- It is what the handlers of the hosts promise, told by their answers alone.
use bangmod_monitor.Prelude.{String, Option, some, List, [], ◌∷◌, str_eq, if◌then◌else◌}
use bangmod_monitor.Api.Http.{answer, refuse, broken, panics}
use bangmod_monitor.Api.Store.Hosts.{host_by_hash}
use bangmod_monitor.Api.Store.Hosts.Table.{unless}
use bangmod_monitor.Api.Agents.{
  Env, State, CreateHostReq, HostBody, hosts, created, status_deleted, rotated, over_limit,
  HostReply, create, delete, rotate,
}

abbrev pub Directory : Type 0
Directory = String → Option (String × String)

abbrev pub enter : String → String → String → Directory → Directory
enter hash id org d k = if str_eq hash k then some (id, org) else d k

abbrev pub leave : String → String → Directory → Directory
leave id org d k = unless id org (d k)

pub data Action : Type 0 where
  add : Option CreateHostReq → Action
  remove renew : String → Action

-- The id that the request names
abbrev named : Action → String
named (add req) = ""
named (remove id) = id
named (renew id) = id

abbrev by_body : (String → String) → String → Action → HostBody → Directory → Directory
by_body sha256 org a (hosts hs) d = d
by_body sha256 org a (created h token) d = enter (sha256 token) h.id h.org_id d
by_body sha256 org a status_deleted d = leave (named a) org d
by_body sha256 org a (rotated token) d = enter (sha256 token) (named a) org (leave (named a) org d)
by_body sha256 org a (over_limit limit n) d = d

-- What an answer says of the directory: a host that is created enters with its token; one that is
-- deleted leaves; one that is rotated leaves and enters with its new token; an error says that
-- nothing happened.
abbrev pub answered : (String → String) → String → Action → HostReply → Directory → Directory
answered sha256 org a (answer code body) d = by_body sha256 org a body d
answered sha256 org a (refuse code text) d = d
answered sha256 org a (broken code) d = d
answered sha256 org a panics d = d

-- The handler of an action
unfoldable pub act : Env → String → Action → State → HostReply × State
act e org (add req) s = create e org req s
act e org (remove id) s = delete e org id s
act e org (renew id) s = rotate e org id s

-- The directory that a table implements
abbrev pub directory : State → Directory
directory s k = host_by_hash k s.maria.hosts

-- The requests of all organisations, one after another, and what they are answered
abbrev pub Actions : Type 0
Actions = List (Env × String × Action)

unfoldable pub act_all : Actions → State → State
act_all [] s = s
act_all ((e, org, a) ∷ acts) s = act_all acts (act e org a s).1

unfoldable pub answers : Actions → State → List HostReply
answers [] s = []
answers ((e, org, a) ∷ acts) s = (act e org a s).0 ∷ answers acts (act e org a s).1

-- The directory by the answers alone
unfoldable pub answered_all : Actions → List HostReply → Directory → Directory
answered_all [] rs d = d
answered_all ((e, org, a) ∷ acts) [] d = d
answered_all ((e, org, a) ∷ acts) (r ∷ rs) d = answered_all acts rs (answered e.sha256 org a r d)
