-- ===== src/Clickhouse/Rollups.antt =====
-- api/storage/clickhouse.go: the materialised views that Migrate creates, what an insert writes into
-- them, the merges of their parts in the background, and QueryRollupMetrics. The state of an
-- aggregate is the list of the values that it has seen; the average over it is an argument.
pub mod Groups
pub mod Agreement
mod Tests
use bangmod_monitor.Prelude.{
  ℕ, zero, suc, ◌+◌, ◌*◌, filter, ◌/◌, String, Bool, true, false, ◌&&◌, ◌≡◌, ◌↔◌, Option, none,
  some, List, [], ◌∷◌, ◌++◌, map, take, flat_map, str_eq, eq_iff, arith, ltb, ◌==◌, if◌then◌else◌,
}
use bangmod_monitor.Prelude.Int.{ℤ, pos, negsuc}
use bangmod_monitor.Prelude.Float.{Float32, Float64}
use bangmod_monitor.Clickhouse.{AgentMetricRow, ProbeRow, Tables}
use bangmod_monitor.Clickhouse.Queries.{MetricPoint, recent_metrics}

-- The columns of a view's key beside the time
pub record Key (G : Type 0) : Type 0 where
  pub same : G → G → Bool
  pub same_iff : (a b : G) → (same a b ≡ true) ↔ (a ≡ b)

abbrev pub by_host : Key String
by_host = record { same = str_eq; same_iff = eq_iff }

pub record ViewRow (G V : Type 0) : Type 0 where
  pub group : G
  pub start : ℕ
  pub state : List V

-- A table in its parts, each written by one insert or merged from its neighbours
abbrev pub View : Type 0 → Type 0 → Type 0
View G V = List (List (ViewRow G V))

module _ {G V : Type 0} (k : Key G) where
  -- The states of one key are put together, the earlier values first.
  abbrev pub add_row : ViewRow G V → List (ViewRow G V) → List (ViewRow G V)
  add_row r [] = r ∷ []
  add_row r (s ∷ l) =
      if k.same r.group s.group && r.start == s.start
      then (record s { state = r.state ++ s.state }) ∷ l
      else s ∷ add_row r l

  -- GROUP BY of the views, and the merge of an AggregatingMergeTree
  pub group_rows : List (ViewRow G V) → List (ViewRow G V)
  group_rows [] = []
  group_rows (r ∷ l) = add_row r (group_rows l)

  pub insert_block : List (ViewRow G V) → View G V → View G V
  unfolding group_rows
  insert_block rows v = v ++ group_rows rows ∷ []

  -- The part at the place `n` and the one behind it become one.
  pub merge_parts : ℕ → View G V → View G V
  unfolding group_rows
  merge_parts n [] = []
  merge_parts zero (p ∷ []) = p ∷ []
  merge_parts zero (p ∷ q ∷ v) = group_rows (p ++ q) ∷ v
  merge_parts (suc n) (p ∷ v) = p ∷ merge_parts n v

-- A row of a query with GROUP BY and ORDER BY start DESC
pub record Bucket (V : Type 0) : Type 0 where
  pub start : ℕ
  pub state : List V

module _ {V : Type 0} where
  abbrev pub add_bucket : Bucket V → List (Bucket V) → List (Bucket V)
  add_bucket b [] = b ∷ []
  add_bucket b (c ∷ l) =
      if b.start == c.start
      then (record c { state = b.state ++ c.state }) ∷ l
      else if ltb c.start b.start
      then b ∷ c ∷ l
      else c ∷ add_bucket b l

abbrev pub bucket_of : {G V : Type 0} → ViewRow G V → Bucket V
bucket_of r = record { start = r.start; state = r.state }

module _ {G V : Type 0} (k : Key G) (g : G) where
  abbrev pub add_if : ViewRow G V → List (Bucket V) → List (Bucket V)
  add_if r acc = if k.same r.group g then add_bucket (bucket_of r) acc else acc

  -- The rows of one group, put together by their start, in front of those of `acc`
  abbrev pub merged_into : List (ViewRow G V) → List (Bucket V) → List (Bucket V)
  merged_into [] acc = acc
  merged_into (r ∷ l) acc = add_if r (merged_into l acc)

  abbrev pub merged : List (ViewRow G V) → List (Bucket V)
  merged l = merged_into l []

-- toStartOfMinute and toStartOfHour; a DateTime is not before 1970.
abbrev start_of : ℕ → ℤ → ℕ
start_of width (pos n) = n / width * width
start_of width (negsuc n) = 0

pub record Usage : Type 0 where
  pub cpu : Float32
  pub mem : Float32

-- What one row of agent_metrics adds to the view with buckets of `width` seconds
abbrev pub usage_row : ℕ → AgentMetricRow → ViewRow String Usage
usage_row width r = record {
  group = r.host_id;
  start = start_of width r.timestamp;
  state = (record { cpu = r.cpu_percent; mem = r.mem_percent }) ∷ [];
}

pub record Check : Type 0 where
  pub is_up : ℕ
  pub response_ms : ℕ

pub record Target : Type 0 where
  pub target_url : String
  pub region : String

abbrev same_target : Target → Target → Bool
same_target a b = str_eq a.target_url b.target_url && str_eq a.region b.region

pub same_target_iff : (a b : Target) → (same_target a b ≡ true) ↔ (a ≡ b)
same_target_iff a b = (
  ground (arith, eq_iff a.target_url b.target_url, eq_iff a.region b.region),
  ground (arith, eq_iff a.target_url b.target_url, eq_iff a.region b.region),
)

abbrev pub by_target : Key Target
by_target = record { same = same_target; same_iff = same_target_iff }

abbrev pub check_row : ProbeRow → ViewRow Target Check
check_row r = record {
  group = record { target_url = r.target_url; region = r.region };
  start = start_of 60 r.timestamp;
  state = (record { is_up = r.is_up; response_ms = r.response_ms }) ∷ [];
}

-- The tables and the three views over them
pub record Rolled : Type 0 where
  pub tables : Tables
  pub agent_metrics_1m : View String Usage
  pub agent_metrics_1h : View String Usage
  pub probe_results_1m : View Target Check

-- Blocks of rows that are inserted, merges of two parts of a view, and the removal of what has
-- expired at a time, which ClickHouse makes a part of some merges
pub data Event : Type 0 where
  insert_metrics : List AgentMetricRow → Event
  insert_results : List ProbeRow → Event
  merge_1m merge_1h merge_probes : ℕ → Event
  expire : ℕ → Event

-- The TTLs of the tables, in seconds; a DateTime is not before 1970.
abbrev days : ℕ → ℕ
days n = n * 86400

abbrev is_live : ℕ → ℤ → Bool
is_live now (pos t) = ltb now (t + days 30)
is_live now (negsuc t) = false

abbrev live_rows : {G V : Type 0} → ℕ → ℕ → View G V → View G V
live_rows n now v = map (λ rows. filter (λ r. ltb now (r.start + days n)) rows) v

unfoldable pub step : Event → Rolled → Rolled
unfolding insert_block merge_parts
step (insert_metrics rows) d = record d {
  tables = record d.tables { agent_metrics = d.tables.agent_metrics ++ rows };
  agent_metrics_1m = insert_block by_host (map (usage_row 60) rows) d.agent_metrics_1m;
  agent_metrics_1h = insert_block by_host (map (usage_row 3600) rows) d.agent_metrics_1h;
}
step (insert_results rows) d = record d {
  tables = record d.tables { probe_results = d.tables.probe_results ++ rows };
  probe_results_1m = insert_block by_target (map check_row rows) d.probe_results_1m;
}
step (merge_1m n) d = record d { agent_metrics_1m = merge_parts by_host n d.agent_metrics_1m }
step (merge_1h n) d = record d { agent_metrics_1h = merge_parts by_host n d.agent_metrics_1h }
step (merge_probes n) d = record d { probe_results_1m = merge_parts by_target n d.probe_results_1m }
step (expire now) d = record {
  tables = record {
    agent_metrics = filter (λ r. is_live now r.timestamp) d.tables.agent_metrics;
    disk_metrics = filter (λ r. is_live now r.timestamp) d.tables.disk_metrics;
    net_metrics = filter (λ r. is_live now r.timestamp) d.tables.net_metrics;
    probe_results = filter (λ r. is_live now r.timestamp) d.tables.probe_results;
  };
  agent_metrics_1m = live_rows 90 now d.agent_metrics_1m;
  agent_metrics_1h = live_rows 365 now d.agent_metrics_1h;
  probe_results_1m = live_rows 90 now d.probe_results_1m;
}

unfoldable pub run : List Event → Rolled → Rolled
unfolding step
run [] d = d
run (e ∷ es) d = run es (step e d)

-- What Migrate leaves in an empty database
pub created : Rolled
created = record {
  tables = record { agent_metrics = []; disk_metrics = []; net_metrics = []; probe_results = [] };
  agent_metrics_1m = [];
  agent_metrics_1h = [];
  probe_results_1m = [];
}

-- The average, and the scan of its result into a float32, which the driver may refuse
module _ (avg : List Float32 → Float64) (scan : Float64 → Option Float32) where
  abbrev scan_point : Bucket Usage → Option Float32 → Option Float32 → Option MetricPoint
  scan_point b (some cpu) (some mem) =
      some (record { timestamp = pos b.start; cpu_percent = cpu; mem_percent = mem })
  scan_point b (some cpu) none = none
  scan_point b none mem = none

  abbrev scanned : Option MetricPoint → Option (List MetricPoint) → Option (List MetricPoint)
  scanned (some p) (some ps) = some (p ∷ ps)
  scanned (some p) none = none
  scanned none ps = none

  pub scan_points : List (Bucket Usage) → Option (List MetricPoint)
  scan_points [] = some []
  scan_points (b ∷ bs) =
      scanned
        (scan_point b (scan (avg (map (λ u. u.cpu) b.state)))
          (scan (avg (map (λ u. u.mem) b.state))))
        (scan_points bs)

  abbrev pub or_recent : String → ℕ → Tables → Option (List MetricPoint) → Option (List MetricPoint)
  or_recent host limit t none = none
  or_recent host limit t (some []) = some (recent_metrics host limit t)
  or_recent host limit t (some (p ∷ ps)) = some (p ∷ ps)

  -- QueryRollupMetrics; the query of the raw table does not fail.
  pub rollup_metrics : Bool → String → ℕ → Rolled → Option (List MetricPoint)
  unfolding scan_points
  rollup_metrics query_fails host limit d =
      if query_fails
      then some (recent_metrics host limit d.tables)
      else or_recent host limit d.tables
          (scan_points (take limit (merged by_host host (flat_map (λ p. p) d.agent_metrics_1m))))
