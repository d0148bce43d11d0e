-- ===== src/Api/Store/Hosts/Table.antt =====
-- The table of hosts as its keys keep it, and each statement as a change of the directory that
-- says which host and organisation a token hash belongs to.
use bangmod_monitor.Prelude.{
  ℕ, String, true, false, not, ◌&&◌, ◌≡◌, refl, Option, none, some, List, [], ◌∷◌, ◌++◌, arith,
  str_eq, eq_iff, find, if◌then◌else◌, Bool-cases, Option-cases, inl, inr, ◌==◌,
}
use bangmod_monitor.Api.Store.Fetch.{coalesce}
use bangmod_monitor.Api.Store.Hosts.{
  HostRow, insert_host, is_row, is_taken, has_hash, host_and_org, delete_rows, update_hash,
  host_by_hash, clashes, updated,
}
use bangmod_monitor.Api.Store.Hosts.Laws.{fresh_row, insert_host-some, updated-le}

abbrev HasOrg : Option String → Type 0
HasOrg none = ⊥
HasOrg (some org) = Unit

-- No two rows share an id or a token hash, and every row has an organisation.
abbrev pub IsTable : List HostRow → Type 0
IsTable [] = Unit
IsTable (r ∷ rows) =
    (find (is_taken r.id r.token_hash) rows ≡ none) × HasOrg r.org_id × IsTable rows

-- A host and its organisation, if they are not the given ones
abbrev pub unless : String → String → Option (String × String) → Option (String × String)
unless id org none = none
unless id org (some (i, o)) = if str_eq i id && str_eq o org then none else some (i, o)

-- The row is the host of the organisation.
row_names :
    (id org : String) (r : HostRow)
    → HasOrg r.org_id
    → is_row id org r ≡ (str_eq r.id id && str_eq (coalesce r.org_id) org)
row_names id org r h = named r.org_id h
  where
    named :
        (o : Option String)
        → HasOrg o
        → (str_eq r.id id && (elim o [ none ↦ false | some p ↦ str_eq p org ]))
          ≡ (str_eq r.id id && str_eq (coalesce o) org)
    named none k = absurd k
    named (some p) k = refl

free_hash :
    (id hash : String) (rows : List HostRow)
    → find (is_taken id hash) rows ≡ none
    → find (has_hash hash) rows ≡ none
free_hash id hash [] h = refl
free_hash id hash (r ∷ rows) h = ground (arith, free_hash id hash rows)

-- The hash of a row is no other's.
other_hash :
    (k : String) (r : HostRow) (rows : List HostRow)
    → find (is_taken r.id r.token_hash) rows ≡ none
    → has_hash k r ≡ true
    → find (has_hash k) rows ≡ none
other_hash k r rows free h =
    rw (← (eq_iff r.token_hash k).0 h) (free_hash r.id r.token_hash rows free)

module _ (id org : String) where
  unless_row :
      (r : HostRow)
      → HasOrg r.org_id
      → unless id org (host_and_org (some r))
        ≡ (if is_row id org r then none else host_and_org (some r))
  unless_row r h = rw (row_names id org r h) refl

  find_hash-delete :
      (k : String) (rows : List HostRow)
      → IsTable rows
      → host_and_org (find (has_hash k) (delete_rows id org rows))
        ≡ unless id org (host_and_org (find (has_hash k) rows))
  unfolding delete_rows
  find_hash-delete k [] t = refl
  find_hash-delete k (r ∷ rows) (free, has, t) =
      let ih = find_hash-delete k rows t in
      elim (Bool-cases (has_hash k r)) [
        | inl found ↦ elim (Bool-cases (is_row id org r)) [
          | inl mine ↦
              let gone = other_hash k r rows free found in
              rw (mine, found, unless_row r has, mine) (rw gone at ih)
          | inr kept ↦ rw (kept, found, unless_row r has, kept) refl
        ]
        | inr other ↦ elim (Bool-cases (is_row id org r)) [
          | inl mine ↦ rw (mine, other) ih
          | inr kept ↦ rw (kept, other) ih
        ]
      ]

  find_hash-update :
      (new k : String) (rows : List HostRow)
      → IsTable rows
      → str_eq new k ≡ false
      → host_and_org (find (has_hash k) (update_hash id org new rows))
        ≡ unless id org (host_and_org (find (has_hash k) rows))
  unfolding update_hash
  find_hash-update new k [] t ne = refl
  find_hash-update new k (r ∷ rows) (free, has, t) ne =
      let ih = find_hash-update new k rows t ne in
      elim (Bool-cases (has_hash k r)) [
        | inl found ↦ elim (Bool-cases (is_row id org r)) [
          | inl mine ↦
              let gone = other_hash k r rows free found in
              rw (mine, ne, found, unless_row r has, mine) (rw gone at ih)
          | inr kept ↦ rw (kept, found, unless_row r has, kept) refl
        ]
        | inr other ↦ elim (Bool-cases (is_row id org r)) [
          | inl mine ↦ rw (mine, ne, other) ih
          | inr kept ↦ rw (kept, other) ih
        ]
      ]

  pub host_by_hash-delete :
      (k : String) (rows : List HostRow)
      → IsTable rows
      → host_by_hash k (delete_rows id org rows) ≡ unless id org (host_by_hash k rows)
  unfolding host_by_hash
  host_by_hash-delete k rows t = find_hash-delete k rows t

  pub host_by_hash-update_other :
      (new k : String) (rows : List HostRow)
      → IsTable rows
      → str_eq new k ≡ false
      → host_by_hash k (update_hash id org new rows) ≡ unless id org (host_by_hash k rows)
  unfolding host_by_hash
  host_by_hash-update_other new k rows t ne = find_hash-update new k rows t ne

  free-delete :
      (i h : String) (rows : List HostRow)
      → find (is_taken i h) rows ≡ none
      → find (is_taken i h) (delete_rows id org rows) ≡ none
  unfolding delete_rows
  free-delete i h [] f = refl
  free-delete i h (r ∷ rows) f = ground (arith, free-delete i h rows)

  pub delete_rows-IsTable : (rows : List HostRow) → IsTable rows → IsTable (delete_rows id org rows)
  unfolding delete_rows
  delete_rows-IsTable [] t = tt
  delete_rows-IsTable (r ∷ rows) (free, has, t) = elim (Bool-cases (is_row id org r)) [
    | inl mine ↦ rw mine (delete_rows-IsTable rows t)
    | inr kept ↦ rw kept (free-delete r.id r.token_hash rows free, has, delete_rows-IsTable rows t)
  ]

  -- No row but the host's has the hash.
  abbrev IsFresh : String → List HostRow → Type 0
  IsFresh new rows = find (λ r. str_eq r.token_hash new && not (is_row id org r)) rows ≡ none

  free-update :
      (i h new : String) (rows : List HostRow)
      → str_eq new h ≡ false
      → find (is_taken i h) rows ≡ none
      → find (is_taken i h) (update_hash id org new rows) ≡ none
  unfolding update_hash
  free-update i h new [] ne f = refl
  free-update i h new (r ∷ rows) ne f = ground (arith, free-update i h new rows ne)

  -- Where no row has the host's id, the update changes nothing, and the fresh hash is free.
  free-update_new :
      (h new : String) (rows : List HostRow)
      → IsFresh new rows
      → find (is_taken id h) rows ≡ none
      → find (is_taken id new) (update_hash id org new rows) ≡ none
  unfolding update_hash
  free-update_new h new [] fresh f = refl
  free-update_new h new (r ∷ rows) fresh f = ground (arith, free-update_new h new rows)

  is_row-id : (r : HostRow) → is_row id org r ≡ true → r.id ≡ id
  is_row-id r h = ground (arith, eq_iff r.id id)

  pub update_hash-IsTable :
      (new : String) (rows : List HostRow)
      → IsTable rows
      → IsFresh new rows
      → IsTable (update_hash id org new rows)
  unfolding update_hash
  update_hash-IsTable new [] t fresh = tt
  update_hash-IsTable new (r ∷ rows) (free, has, t) fresh = elim (Bool-cases (is_row id org r)) [
    | inl mine ↦
        let rest : IsFresh new rows = ground (arith, mine, fresh) in
        rw mine (
          rw (is_row-id r mine)
              (free-update_new r.token_hash new rows rest (rw (is_row-id r mine) at free)),
          has,
          update_hash-IsTable new rows t rest,
        )
    | inr kept ↦
        let rest : IsFresh new rows = ground (arith, kept, fresh) in
        let ne : str_eq new r.token_hash ≡ false =
          ground (arith, kept, fresh, eq_iff new r.token_hash, eq_iff r.token_hash new) in
        rw kept
          (free-update r.id r.token_hash new rows ne free, has, update_hash-IsTable new rows t rest)
  ]

-- An update that meets no other host's hash changes no row, or its hash is fresh.
pub clashes-IsFresh :
    (id org new : String) (rows : List HostRow)
    → clashes id org new rows ≡ false
    → (updated id org new rows == 0) ≡ false
    → IsFresh id org new rows
clashes-IsFresh id org new rows c n =
    elim (Option-cases (find (λ r. str_eq r.token_hash new && not (is_row id org r)) rows)) [
      | inl free ↦ free
      | inr (r, taken) ↦ absurd (ground (arith, c, taken, n, updated-le id org new rows))
    ]

free-append :
    (i h : String) (rows : List HostRow) (s : HostRow)
    → find (is_taken i h) rows ≡ none
    → is_taken i h s ≡ false
    → find (is_taken i h) (rows ++ s ∷ []) ≡ none
free-append i h [] s f n = rw n refl
free-append i h (r ∷ rows) s f n = ground (arith, free-append i h rows s)

append-IsTable :
    (s : HostRow) (rows : List HostRow)
    → HasOrg s.org_id
    → IsTable rows
    → find (is_taken s.id s.token_hash) rows ≡ none
    → IsTable (rows ++ s ∷ [])
append-IsTable s [] has t f = (refl, has, tt)
append-IsTable s (r ∷ rows) has (free, old, t) f =
    let rest : find (is_taken s.id s.token_hash) rows ≡ none = ground (arith, f) in
    let apart : is_taken r.id r.token_hash s ≡ false = ground (
      arith,
      f,
      eq_iff r.id s.id,
      eq_iff s.id r.id,
      eq_iff r.token_hash s.token_hash,
      eq_iff s.token_hash r.token_hash,
    ) in
    (free-append r.id r.token_hash rows s free apart, old, append-IsTable s rows has t rest)

pub insert_host-IsTable :
    (id org name hash region : String) (now : ℕ) (rows rows' : List HostRow)
    → IsTable rows
    → insert_host id org name hash region now rows ≡ some rows'
    → IsTable rows'
insert_host-IsTable id org name hash region now rows rows' t h =
    let (free, e) = insert_host-some id org name hash region now rows h in
    rw e (append-IsTable (fresh_row id org name hash region now) rows tt t free)
