-- ===== src/Api/Store/Hosts.antt =====
-- api/storage/mariadb.go: the hosts and their token hashes.
pub mod Laws
pub mod Table
use bangmod_monitor.Prelude.{
  ℕ, suc, String, Bool, true, false, not, ◌||◌, ◌&&◌, Option, none, some, List, [], ◌∷◌, ◌++◌, map,
  str_eq, leb, find, count, filter, if◌then◌else◌,
}
use bangmod_monitor.Prelude.Sort.{sort_by}
use bangmod_monitor.Api.Store.Fetch.{coalesce}

pub record HostRow : Type 0 where
  pub id : String
  pub org_id : Option String
  pub name : String
  pub token_hash : String
  pub region : String
  pub created_at : ℕ

pub record Host : Type 0 where
  pub id : String
  pub org_id : String
  pub name : String
  pub region : String
  pub created_at : ℕ

scan_host : HostRow → Host
scan_host r = record {
  id = r.id;
  org_id = coalesce r.org_id;
  name = r.name;
  region = r.region;
  created_at = r.created_at;
}

-- org_id = ?, which a NULL never meets
abbrev pub has_org : String → HostRow → Bool
has_org org r = elim r.org_id [ none ↦ false | some o ↦ str_eq o org ]

abbrev pub is_row : String → String → HostRow → Bool
is_row id org r = str_eq r.id id && has_org org r

abbrev pub is_taken : String → String → HostRow → Bool
is_taken id hash r = str_eq r.id id || str_eq r.token_hash hash

-- The table with the new row, or `none` where its id or its token hash is taken.
unfoldable pub insert_host :
    String → String → String → String → String → ℕ → List HostRow → Option (List HostRow)
insert_host id org name hash region now rows = elim (find (is_taken id hash) rows) [
  | some _ ↦ none
  | none ↦ some (
      rows
      ++ (record {
        id = id;
        org_id = some org;
        name = name;
        token_hash = hash;
        region = region;
        created_at = now;
      })
        ∷ [])
]

-- ORDER BY created_at DESC
abbrev newer_host : HostRow → HostRow → Bool
newer_host r s = leb s.created_at r.created_at

unfoldable pub hosts_of : String → List HostRow → List Host
unfolding scan_host
hosts_of org rows = map scan_host (sort_by newer_host (filter (has_org org) rows))

unfoldable pub host_of : String → String → List HostRow → Option HostRow
host_of id org rows = find (is_row id org) rows

-- DELETE FROM hosts WHERE id = ? AND org_id = ?, and the number of rows affected
pub delete_rows : String → String → List HostRow → List HostRow
delete_rows id org rows = filter (λ r. not (is_row id org r)) rows

abbrev pub deleted : String → String → List HostRow → ℕ
deleted id org rows = count (is_row id org) rows

abbrev pub with_hash : String → String → String → HostRow → HostRow
with_hash id org hash r = if is_row id org r then record r { token_hash = hash } else r

-- UPDATE hosts SET token_hash = ? WHERE id = ? AND org_id = ?
pub update_hash : String → String → String → List HostRow → List HostRow
update_hash id org hash rows = map (with_hash id org hash) rows

-- The rows affected, which MariaDB counts only where the value changes.
abbrev pub updated : String → String → String → List HostRow → ℕ
updated id org hash rows = count (λ r. is_row id org r && not (str_eq r.token_hash hash)) rows

-- The update meets the unique key if another row has the hash.
abbrev pub clashes : String → String → String → List HostRow → Bool
clashes id org hash rows =
    elim (find (λ r. str_eq r.token_hash hash && not (is_row id org r)) rows) [
      | none ↦ false
      | some _ ↦ not (leb (count (is_row id org) rows) 0)
    ]

abbrev pub has_hash : String → HostRow → Bool
has_hash hash r = str_eq r.token_hash hash

abbrev pub host_and_org : Option HostRow → Option (String × String)
host_and_org none = none
host_and_org (some r) = some (r.id, coalesce r.org_id)

-- The host and the organisation of a token hash.
unfoldable pub host_by_hash : String → List HostRow → Option (String × String)
host_by_hash hash rows = host_and_org (find (has_hash hash) rows)

unfoldable pub count_hosts : String → List HostRow → ℕ
count_hosts org rows = count (has_org org) rows
