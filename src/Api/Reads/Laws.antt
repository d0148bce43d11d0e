-- ===== src/Api/Reads/Laws.antt =====
-- What the reading handlers answer with.
use mathlib.Core.List.{Perm}
use bangmod_monitor.Prelude.{
  ℕ, ◌≤◌, String, Bool, true, false, ◌≡◌, refl, Option, none, some, List, [], ◌∷◌, ◌++◌, ap, str_eq,
  eq_iff, map, filter, arith, if◌then◌else◌, Bool-cases, inl, inr, length, length-map,
  length-take_le, take, drop, take-append-drop,
}
use bangmod_monitor.Prelude.Int.{ℤ, le_ℤ, le_ℤ_total, pos, negsuc, atoi}
use bangmod_monitor.Prelude.Text.{is_empty}
use bangmod_monitor.Prelude.Sort.{sort_by, sort_by-perm, sort_by-IsSorted, IsSorted}
use bangmod_monitor.Api.Http.{answer, broken}
use bangmod_monitor.Api.Store.{Maria, fetch, get_host}
use bangmod_monitor.Api.Store.Hosts.{HostRow, has_org, is_row, host_of}
use bangmod_monitor.Clickhouse.{Tables, AgentMetricRow}
use bangmod_monitor.Clickhouse.Queries.{
  MetricPoint, point_of, newer_metric, of_host, recent_metrics,
}
use bangmod_monitor.Api.Reads.{Env, host_metrics, limit_of_query, limit_from, if_found, points}

-- The points are the newest of the host's rows, at most `limit`: with some rest they are the rows
-- of the host in another order, sorted by time, newest first.
pub record IsNewest (host : String) (limit : ℕ) (t : Tables) (ps : List MetricPoint) : Type 0 where
  pub chosen : List AgentMetricRow
  pub rest : List AgentMetricRow
  pub are_points :
      ps
      ≡ map
          (λ r. record {
            timestamp = r.timestamp;
            cpu_percent = r.cpu_percent;
            mem_percent = r.mem_percent;
          })
          chosen
  pub few : length ps ≤ limit
  pub perm : Perm (chosen ++ rest) (filter (λ r. str_eq r.host_id host) t.agent_metrics)
  pub sorted : IsSorted (λ r s. le_ℤ s.timestamp r.timestamp) (chosen ++ rest)

recent_metrics-IsNewest :
    (host : String) (limit : ℕ) (t : Tables) → IsNewest host limit t (recent_metrics host limit t)
unfolding recent_metrics
recent_metrics-IsNewest host limit t =
    let mine = filter (of_host host) t.agent_metrics in
    let rows = sort_by newer_metric mine in
    record {
      chosen = take limit rows;
      rest = drop limit rows;
      are_points = refl;
      few = omega (arith, length-map point_of (take limit rows), length-take_le limit rows);
      perm = rw (take-append-drop limit rows) (sort_by-perm newer_metric mine);
      sorted =
          rw (take-append-drop limit rows)
            (sort_by-IsSorted newer_metric (λ r s. le_ℤ_total s.timestamp r.timestamp) mine);
    }

-- The table has a host with this id that is of this organisation.
pub record HasHost (id org : String) (rows : List HostRow) : Type 0 where
  pub host : HostRow
  pub before : List HostRow
  pub behind : List HostRow
  pub at : rows ≡ before ++ host ∷ behind
  pub is_id : host.id ≡ id
  pub is_org : host.org_id ≡ some org

is_org-of :
    (org : String) (o : Option String) (r : HostRow)
    → r.org_id ≡ o
    → has_org org r ≡ true
    → o ≡ some org
is_org-of org none r e h = cc (rw e at h)
is_org-of org (some p) r e h = let same : p ≡ org = (eq_iff p org).0 (rw e at h) in rw same refl

HasHost-found :
    (id org : String) (rows : List HostRow) (h : HostRow)
    → host_of id org rows ≡ some h
    → HasHost id org rows
unfolding host_of
HasHost-found id org [] h found = cc
HasHost-found id org (r ∷ rows) h found = elim (Bool-cases (is_row id org r)) [
  | inl own ↦ record {
    host = r;
    before = [];
    behind = rows;
    at = refl;
    is_id = (eq_iff r.id id).0 (ground (arith, own));
    is_org = is_org-of org r.org_id r refl (ground (arith, own));
  }
  | inr other ↦
      let ih = HasHost-found id org rows h (ground (arith, other, found)) in
      record {
        host = ih.host;
        before = r ∷ ih.before;
        behind = ih.behind;
        at = ap (λ l. r ∷ l) ih.at;
        is_id = ih.is_id;
        is_org = ih.is_org;
      }
]

-- The points of a host are answered only to its organisation: where the handler answers with
-- points, the table has a host of that id that is of the organisation, and the points are the
-- newest 100 rows of that host at most, newest first.
pub host_metrics_own :
    (e : Env) (org id : String) (m : Maria) (t : Tables) (ps : List MetricPoint)
    → host_metrics e org id m t ≡ answer 200 ps
    → HasHost id org m.hosts × IsNewest id 100 t ps
unfolding host_metrics
host_metrics_own e org id m t ps h =
    let ((r, found), newest) = own (e.db_fails get_host) (host_of id org m.hosts) h in
    (HasHost-found id org m.hosts r found, newest)
  where
    shown :
        (b : Bool)
        → (if b then broken 500 else answer 200 (recent_metrics id 100 t)) ≡ answer 200 ps
        → IsNewest id 100 t ps
    shown true k = cc
    shown false k =
        let same : recent_metrics id 100 t ≡ ps = cc in
        rw (← same) (recent_metrics-IsNewest id 100 t)

    own :
        (fails : Bool) (o : Option HostRow)
        → if_found (fetch fails o) (points e id 100 t) ≡ answer 200 ps
        → ((r : HostRow) × (o ≡ some r)) × IsNewest id 100 t ps
    own true o k = cc
    own false none k = cc
    own false (some r) k = ((r, refl), shown e.ch_fails k)

-- Whatever the parameter says, the limit is between 1 and 1000.
limit_of_query_bounds : (v : String) → (1 ≤ limit_of_query v) × (limit_of_query v ≤ 1000)
unfolding limit_of_query
limit_of_query_bounds v = elim (Bool-cases (is_empty v)) [
  | inl absent ↦ rw absent (omega arith)
  | inr given ↦ rw given (bounds (atoi v))
]
  where
    bounds : (o : Option ℤ) → (1 ≤ limit_from o) × (limit_from o ≤ 1000)
    bounds none = omega arith
    bounds (some (negsuc n)) = omega arith
    bounds (some (pos n)) = ground arith
