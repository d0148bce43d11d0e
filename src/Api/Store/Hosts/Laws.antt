-- ===== src/Api/Store/Hosts/Laws.antt =====
-- The statements over the hosts, as a client of the table sees them.
use mathlib.Core.Option.{some-injective}
use bangmod_monitor.Prelude.{
  ℕ, ◌+◌, ◌≤◌, ◌<◌, String, true, false, not, ◌&&◌, ◌≡◌, refl, ap, Option, none, some, List, [],
  ◌∷◌, ◌++◌, arith, str_eq, eq_iff, eq_refl, find, count, filter, if◌then◌else◌, Bool-cases,
  Option-cases, inl, inr, ◌==◌, count-append, append-nil,
}
use bangmod_monitor.Api.Store.Fetch.{coalesce}
use bangmod_monitor.Api.Store.Hosts.{
  HostRow, insert_host, has_org, is_row, is_taken, has_hash, host_and_org, delete_rows, update_hash,
  host_by_hash, count_hosts, updated, clashes,
}

-- No two hosts have one token hash.
abbrev pub HasUniqueHashes : List HostRow → Type 0
HasUniqueHashes [] = Unit
HasUniqueHashes (r ∷ rows) = (find (has_hash r.token_hash) rows ≡ none) × HasUniqueHashes rows

abbrev pub fresh_row : String → String → String → String → String → ℕ → HostRow
fresh_row id org name hash region now = record {
  id = id;
  org_id = some org;
  name = name;
  token_hash = hash;
  region = region;
  created_at = now;
}

-- An insertion that succeeds adds the row behind the others.
pub insert_host-some :
    (id org name hash region : String) (now : ℕ) (rows : List HostRow) {rows' : List HostRow}
    → insert_host id org name hash region now rows ≡ some rows'
    → (find (is_taken id hash) rows ≡ none)
      × (rows' ≡ rows ++ fresh_row id org name hash region now ∷ [])
unfolding insert_host
insert_host-some id org name hash region now rows h = ground arith

find_hash-append :
    (id org name hash region : String) (now : ℕ) (k : String) (rows : List HostRow)
    → find (is_taken id hash) rows ≡ none
    → host_and_org (find (has_hash k) (rows ++ fresh_row id org name hash region now ∷ []))
      ≡ (if str_eq hash k then some (id, org) else host_and_org (find (has_hash k) rows))
find_hash-append id org name hash region now k [] h = ground arith
find_hash-append id org name hash region now k (r ∷ rows) h = ground (
  arith,
  find_hash-append id org name hash region now k rows,
  eq_iff r.token_hash hash,
  eq_iff r.token_hash k,
  eq_iff hash k,
)

-- A new host is found by its token hash, and every other hash finds what it found before.
pub host_by_hash-insert :
    (id org name hash region : String) (now : ℕ) (rows : List HostRow) {rows' : List HostRow}
    (k : String)
    → insert_host id org name hash region now rows ≡ some rows'
    → host_by_hash k rows' ≡ (if str_eq hash k then some (id, org) else host_by_hash k rows)
unfolding host_by_hash
host_by_hash-insert id org name hash region now rows k h =
    let (free, e) = insert_host-some id org name hash region now rows h in
    rw e (find_hash-append id org name hash region now k rows free)

pub count_hosts-insert :
    (id org name hash region : String) (now : ℕ) (rows : List HostRow) {rows' : List HostRow}
    (q : String)
    → insert_host id org name hash region now rows ≡ some rows'
    → count_hosts q rows' ≡ count_hosts q rows + (if str_eq org q then 1 else 0)
unfolding count_hosts
count_hosts-insert id org name hash region now rows q h =
    rw ((insert_host-some id org name hash region now rows h).1) (rw count-append (ground arith))

find_hash-update_none :
    (id org new k : String) (rows : List HostRow)
    → str_eq new k ≡ false
    → find (has_hash k) rows ≡ none
    → find (has_hash k) (update_hash id org new rows) ≡ none
unfolding update_hash
find_hash-update_none id org new k [] ne h = refl
find_hash-update_none id org new k (r ∷ rows) ne h =
    ground (arith, find_hash-update_none id org new k rows ne)

-- After an update of a host's hash, its old hash finds no host.
pub find_hash-update_old :
    (id org new old : String) (r : HostRow) (rows : List HostRow)
    → HasUniqueHashes rows
    → str_eq new old ≡ false
    → find (has_hash old) rows ≡ some r
    → is_row id org r ≡ true
    → find (has_hash old) (update_hash id org new rows) ≡ none
unfolding update_hash
find_hash-update_old id org new old r [] u ne f h = cc
find_hash-update_old id org new old r (s ∷ rows) (free, u) ne f h =
    elim (Bool-cases (str_eq s.token_hash old)) [
      | inl found ↦
          let head_free : find (has_hash old) rows ≡ none =
            rw (← (eq_iff s.token_hash old).0 found) free in
          let mine : is_row id org s ≡ true =
            (let same : s ≡ r = some-injective s r (rw found at f) in rw same h) in
          rw (mine, ne) (find_hash-update_none id org new old rows ne head_free)
      | inr other ↦ ground (arith, other, find_hash-update_old id org new old r rows u ne)
    ]

row_names :
    (id org : String) (s : HostRow)
    → is_row id org s ≡ true
    → (s.id ≡ id) × (coalesce s.org_id ≡ org)
row_names id org s h = row_names_of s.org_id h
  where
    row_names_of :
        (o : Option String)
        → (str_eq s.id id && (elim o [ none ↦ false | some p ↦ str_eq p org ])) ≡ true
        → (s.id ≡ id) × (coalesce o ≡ org)
    row_names_of none k = ground arith
    row_names_of (some p) k = ground (arith, eq_iff s.id id, eq_iff p org)

-- After an update of a host's hash that meets no other host's, the new hash finds the host.
host_by_hash-update :
    (id org new : String) (rows : List HostRow)
    → find (λ r. str_eq r.token_hash new && not (is_row id org r)) rows ≡ none
    → 0 < count (is_row id org) rows
    → host_by_hash new (update_hash id org new rows) ≡ some (id, org)
unfolding host_by_hash update_hash
host_by_hash-update id org new [] f c = absurd (omega arith)
host_by_hash-update id org new (s ∷ rows) f c = elim (Bool-cases (is_row id org s)) [
  | inl mine ↦
      rw (mine, eq_refl new) (cc ((row_names id org s mine).0, (row_names id org s mine).1))
  | inr other ↦ rw other (ground (arith, other, f, c, host_by_hash-update id org new rows))
]

-- A row of one organisation is not addressed through another.
other_row :
    (id org q : String) (r : HostRow)
    → str_eq org q ≡ false
    → has_org q r ≡ true
    → is_row id org r ≡ false
other_row id org q r ne h = other_org r.org_id h
  where
    other_org :
        (o : Option String)
        → (elim o [ none ↦ false | some p ↦ str_eq p q ]) ≡ true
        → (str_eq r.id id && (elim o [ none ↦ false | some p ↦ str_eq p org ])) ≡ false
    other_org none k = cc
    other_org (some p) k = ground (arith, eq_iff p q, eq_iff p org, eq_iff org q)

-- The hosts of an organisation.
abbrev pub hosts_in : String → List HostRow → List HostRow
hosts_in q rows = filter (has_org q) rows

hosts_in-append :
    (q : String) (xs ys : List HostRow) → hosts_in q (xs ++ ys) ≡ hosts_in q xs ++ hosts_in q ys
hosts_in-append q [] ys = refl
hosts_in-append q (x ∷ xs) ys = elim (Bool-cases (has_org q x)) [
  | inl mine ↦ rw mine (ap (λ l. x ∷ l) (hosts_in-append q xs ys))
  | inr other ↦ rw other (hosts_in-append q xs ys)
]

pub hosts_in-insert :
    (id org name hash region : String) (now : ℕ) (rows : List HostRow) {rows' : List HostRow}
    (q : String)
    → str_eq org q ≡ false
    → insert_host id org name hash region now rows ≡ some rows'
    → hosts_in q rows' ≡ hosts_in q rows
hosts_in-insert id org name hash region now rows q ne h =
    rw ((insert_host-some id org name hash region now rows h).1)
      (rw hosts_in-append (rw ne (append-nil (hosts_in q rows))))

pub hosts_in-delete :
    (id org q : String) (rows : List HostRow)
    → str_eq org q ≡ false
    → hosts_in q (delete_rows id org rows) ≡ hosts_in q rows
unfolding delete_rows
hosts_in-delete id org q [] ne = refl
hosts_in-delete id org q (r ∷ rows) ne = elim (Bool-cases (has_org q r)) [
  | inl theirs ↦
      rw (other_row id org q r ne theirs, theirs)
        (ap (λ l. r ∷ l) (hosts_in-delete id org q rows ne))
  | inr no_one ↦ elim (Bool-cases (is_row id org r)) [
    | inl mine ↦ rw (mine, no_one) (hosts_in-delete id org q rows ne)
    | inr kept ↦ rw (kept, no_one) (hosts_in-delete id org q rows ne)
  ]
]

pub hosts_in-update :
    (id org q new : String) (rows : List HostRow)
    → str_eq org q ≡ false
    → hosts_in q (update_hash id org new rows) ≡ hosts_in q rows
unfolding update_hash
hosts_in-update id org q new [] ne = refl
hosts_in-update id org q new (r ∷ rows) ne = elim (Bool-cases (is_row id org r)) [
  | inl mine ↦ elim (Bool-cases (has_org q r)) [
    | inl theirs ↦ cc (other_row id org q r ne theirs)
    | inr no_one ↦ rw (mine, no_one) (hosts_in-update id org q new rows ne)
  ]
  | inr kept ↦ elim (Bool-cases (has_org q r)) [
    | inl theirs ↦ rw (kept, theirs) (ap (λ l. r ∷ l) (hosts_in-update id org q new rows ne))
    | inr no_one ↦ rw (kept, no_one) (hosts_in-update id org q new rows ne)
  ]
]

pub updated-le :
    (id org hash : String) (rows : List HostRow)
    → updated id org hash rows ≤ count (is_row id org) rows
updated-le id org hash [] = omega arith
updated-le id org hash (r ∷ rows) = ground (arith, updated-le id org hash rows)

-- An update that changes a row and meets no other host's hash makes that hash the host's.
pub host_by_hash-update_done :
    (id org new : String) (rows : List HostRow)
    → clashes id org new rows ≡ false
    → (updated id org new rows == 0) ≡ false
    → host_by_hash new (update_hash id org new rows) ≡ some (id, org)
host_by_hash-update_done id org new rows c n =
    elim (Option-cases (find (λ r. str_eq r.token_hash new && not (is_row id org r)) rows)) [
      | inl free ↦
          host_by_hash-update id org new rows free (ground (arith, n, updated-le id org new rows))
      | inr (r, taken) ↦ absurd (ground (arith, c, taken, n, updated-le id org new rows))
    ]
