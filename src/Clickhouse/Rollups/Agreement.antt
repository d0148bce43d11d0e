-- ===== src/Clickhouse/Rollups/Agreement.antt =====
-- What QueryRollupMetrics answers is what the raw table says.
use bangmod_monitor.Prelude.{
  ℕ, String, Bool, ◌&&◌, ◌≡◌, ◌≢◌, List, [], ◌∷◌, ◌++◌, map, filter, All, str_eq, ltb, ◌==◌,
  if◌then◌else◌,
}
use bangmod_monitor.Prelude.Sort.{IsSorted}
use bangmod_monitor.Clickhouse.{AgentMetricRow}
use bangmod_monitor.Clickhouse.Rollups.{
  Key, by_host, by_target, ViewRow, View, Bucket, merged_into, merged, start_of, Usage, usage_row,
  check_row, Rolled, Event, insert_metrics, insert_results, merge_1m, merge_1h, merge_probes,
  expire,
}
use bangmod_monitor.Clickhouse.Rollups.Groups.{content}

module _ {V : Type 0} where
  abbrev newest_first : Bucket V → Bucket V → Bool
  newest_first b c = ltb c.start b.start

  abbrev state_at : ℕ → List (Bucket V) → List V
  state_at t [] = []
  state_at t (b ∷ l) = if b.start == t then b.state ++ state_at t l else state_at t l

-- What the rows that a query of one group ranges over say at each start.
abbrev usages : String → ℕ → List AgentMetricRow → List Usage
usages host t rows =
    map (λ r. record { cpu = r.cpu_percent; mem = r.mem_percent })
      (filter (λ r. str_eq r.host_id host && start_of 60 r.timestamp == t) rows)

abbrev minutes_of : String → List AgentMetricRow → List (Bucket Usage)
minutes_of host rows = merged by_host host (map (usage_row 60) rows)

-- The minutes in which the host has rows, the newest first and each once, with the values of all
-- of its rows in that minute
pub record IsGrouped (host : String) (rows : List AgentMetricRow) (bs : List (Bucket Usage))
    : Type 0 where
  pub sorted : IsSorted newest_first bs
  pub filled : All (λ (b : Bucket Usage). b.state ≢ []) bs
  pub complete : (t : ℕ) → state_at t bs ≡ usages host t rows

-- A view says what its raw table says.
abbrev ViewAgrees : {G V R : Type 0} → Key G → (R → ViewRow G V) → List R → View G V → Type 0
ViewAgrees {G} {V} k row_of rows v =
    (g : G) (acc : List (Bucket V)) → content k g v acc ≡ merged_into k g (map row_of rows) acc

pub record Agrees (d : Rolled) : Type 0 where
  pub minutes : ViewAgrees by_host (usage_row 60) d.tables.agent_metrics d.agent_metrics_1m
  pub hours : ViewAgrees by_host (usage_row 3600) d.tables.agent_metrics d.agent_metrics_1h
  pub checks : ViewAgrees by_target check_row d.tables.probe_results d.probe_results_1m

-- Nothing expires in the event.
abbrev IsLasting : Event → Type 0
IsLasting (insert_metrics rows) = Unit
IsLasting (insert_results rows) = Unit
IsLasting (merge_1m n) = Unit
IsLasting (merge_1h n) = Unit
IsLasting (merge_probes n) = Unit
IsLasting (expire now) = ⊥
