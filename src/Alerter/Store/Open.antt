-- ===== src/Alerter/Store/Open.antt =====
-- How the statements change the number of open incidents of a rule.
use bangmod_monitor.Prelude.{
  ℕ, ◌+◌, ◌≤◌, ◌<◌, String, true, false, ◌≡◌, refl, List, [], ◌∷◌, arith, count, count-append,
  str_eq, eq_refl, if◌then◌else◌, All,
}
use bangmod_monitor.Prelude.Text.{is_empty}
use bangmod_monitor.Alerter.Store.{
  Incident, Details, is_open, find_open, insert_incident, resolve, resolve_row,
}

-- How many incidents of a rule are open.
abbrev pub open_count : String → List Incident → ℕ
open_count r is = count (is_open r) is

-- Every incident has an id.
abbrev pub HaveIds : List Incident → Type 0
HaveIds = All (λ i. is_empty i.id ≡ false)

pub open_count-insert :
    (id r : String) (now : ℕ) (d : Details) (is : List Incident) (q : String)
    → open_count q (insert_incident id r now d is) ≡ open_count q is + (if str_eq r q then 1 else 0)
unfolding insert_incident
open_count-insert id r now d is q = rw count-append (ground arith)

resolve_row-le :
    (id : String) (now : ℕ) (i : Incident) (q : String)
    → is_open q (resolve_row id now i) ≡ true
    → is_open q i ≡ true
resolve_row-le id now i q h = ground arith

pub open_count-resolve :
    (id : String) (now : ℕ) (is : List Incident) (q : String)
    → open_count q (resolve id now is) ≤ open_count q is
unfolding resolve
open_count-resolve id now [] q = omega arith
open_count-resolve id now (i ∷ is) q = ground (arith, open_count-resolve id now is q)

-- No open incident is found exactly where there is none.
pub find_open-empty :
    (r : String) (is : List Incident)
    → HaveIds is
    → is_empty (find_open r is) ≡ true
    → open_count r is ≡ 0
unfolding find_open
find_open-empty r [] h e = refl
find_open-empty r (i ∷ is) (p, h) e = ground (arith, find_open-empty r is h)

pub find_open-some :
    (r : String) (is : List Incident) → is_empty (find_open r is) ≡ false → 0 < open_count r is
unfolding find_open
find_open-some r [] e = cc
find_open-some r (i ∷ is) e = ground (arith, find_open-some r is)

-- Resolving the incident that was found closes one at least.
pub open_count-resolve_found :
    (r : String) (now : ℕ) (is : List Incident)
    → is_empty (find_open r is) ≡ false
    → open_count r (resolve (find_open r is) now is) < open_count r is
unfolding resolve find_open
open_count-resolve_found r now [] e = cc
open_count-resolve_found r now (i ∷ is) e =
    ground
      (arith, eq_refl i.id, open_count-resolve i.id now is r, open_count-resolve_found r now is)

pub HaveIds-insert :
    (id r : String) (now : ℕ) (d : Details) (is : List Incident)
    → is_empty id ≡ false
    → HaveIds is
    → HaveIds (insert_incident id r now d is)
unfolding insert_incident
HaveIds-insert id r now d [] u h = (u, tt)
HaveIds-insert id r now d (i ∷ is) u (p, h) = (p, HaveIds-insert id r now d is u h)

pub HaveIds-resolve :
    (id : String) (now : ℕ) (is : List Incident) → HaveIds is → HaveIds (resolve id now is)
unfolding resolve
HaveIds-resolve id now [] h = tt
HaveIds-resolve id now (i ∷ is) (p, h) = (ground arith, HaveIds-resolve id now is h)
