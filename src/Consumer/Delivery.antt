-- ===== src/Consumer/Delivery.antt =====
-- When the workers have stored what they fetched: at the latest at the next tick.
use bangmod_monitor.Prelude.{
  ℕ, false, ◌≡◌, refl, ap, ◌∙◌, Option, List, [], ◌∷◌, ◌++◌, map, flat_map, All, append-nil,
}
use bangmod_monitor.Prelude.Json.{Bytes}
use bangmod_monitor.Clickhouse.{Tables}
use bangmod_monitor.Mq.{Message, AgentMetricMsg, ProbeResultMsg}
use bangmod_monitor.Consumer.{
  Flush, smooth, Flushed, flush, agent_row, disk_rows, net_rows, Event, message, tick, running,
  Worker, step, step_at, run, agent_batch, probe_batch, probe_row, flush_probes,
}
use bangmod_monitor.Consumer.Conservation.{
  IsSmooth, decoded, decoded_one, flat_map-append, flush-smooth, flush_probes-smooth,
  agent_worker_keeps, probe_worker_keeps,
}

-- The worker fetches the messages in the order of the broker, and nothing fails.
abbrev pub fetched : List Message → List Event
fetched ms = map (λ m. message m.value smooth) ms

pub fetched-IsSmooth : (ms : List Message) → All IsSmooth (fetched ms)
fetched-IsSmooth [] = tt
fetched-IsSmooth (m ∷ ms) = (refl, fetched-IsSmooth ms)

-- The events, and a tick behind them
abbrev pub then_tick : List Event → List Event
then_tick es = es ++ tick smooth ∷ []

All-then_tick : (es : List Event) → All IsSmooth es → All IsSmooth (then_tick es)
All-then_tick [] h = (refl, tt)
All-then_tick (e ∷ es) (p, h) = (p, All-then_tick es h)

module _ {M : Type 0} (unmarshal : Bytes → Option M) (full : ℕ)
    (write : Flush → List M → Tables → Flushed) where
  run-append :
      (es fs : List Event) (w : Worker M)
      → run unmarshal full write (es ++ fs) w
        ≡ run unmarshal full write fs (run unmarshal full write es w)
  unfolding run
  run-append [] fs w = refl
  run-append (e ∷ es) fs w = run-append es fs (step unmarshal full write e w)

  decoded-then_tick : (es : List Event) → decoded unmarshal (then_tick es) ≡ decoded unmarshal es
  decoded-then_tick es =
      flat_map-append (decoded_one unmarshal) es (tick smooth ∷ [])
      ∙ append-nil (decoded unmarshal es)

  module _ (calm : (b : List M) (t : Tables) → (write smooth b t).panics ≡ false) where
    batch-tick :
        (w : Worker M) → w.status ≡ running → (step unmarshal full write (tick smooth) w).batch ≡ []
    unfolding step
    batch-tick w r =
        ap (λ st. (step_at unmarshal full write st (tick smooth) w).batch) r
        ∙ rw (calm w.batch w.tables) refl

    pub batch-then_tick :
        (es : List Event) (w : Worker M)
        → (run unmarshal full write es w).status ≡ running
        → (run unmarshal full write (then_tick es) w).batch ≡ []
    unfolding run
    batch-then_tick es w r =
        ap (λ (v : Worker M). v.batch) (run-append es (tick smooth ∷ []) w)
        ∙ batch-tick (run unmarshal full write es w) r

-- Everything fetched is stored at the next tick: after any ticks and messages in which nothing
-- fails, and a tick behind them, the agents' worker is running with an empty batch, and the three
-- tables are what they were, followed by the rows of the batch that waited and those of the
-- messages that decode, in the order in which they were fetched.
pub agent_worker_stores :
    (unmarshal : Bytes → Option AgentMetricMsg) (es : List Event) (w : Worker AgentMetricMsg)
    → All IsSmooth es
    → w.status ≡ running
    → let w' = run unmarshal agent_batch flush (then_tick es) w in
      let ms = decoded unmarshal es in
      (w'.status ≡ running)
      × (w'.batch ≡ [])
      × (w'.tables.agent_metrics
          ≡ (w.tables.agent_metrics ++ map agent_row w.batch) ++ map agent_row ms)
      × (w'.tables.disk_metrics
          ≡ (w.tables.disk_metrics ++ flat_map disk_rows w.batch) ++ flat_map disk_rows ms)
      × (w'.tables.net_metrics
          ≡ (w.tables.net_metrics ++ flat_map net_rows w.batch) ++ flat_map net_rows ms)
agent_worker_stores unmarshal es w s r =
    let (up, agents, disks, nets) =
      agent_worker_keeps unmarshal (then_tick es) w (All-then_tick es s) r in
    let (before, _, _, _) = agent_worker_keeps unmarshal es w s r in
    let empty =
      batch-then_tick unmarshal agent_batch flush (λ b t. rw (flush-smooth b t) refl) es w before in
    let same = decoded-then_tick unmarshal agent_batch flush es in
    (
      up,
      empty,
      rw (empty, append-nil, same) at agents,
      rw (empty, append-nil, same) at disks,
      rw (empty, append-nil, same) at nets,
    )

-- The same for the probes' worker and its table.
pub probe_worker_stores :
    (unmarshal : Bytes → Option ProbeResultMsg) (es : List Event) (w : Worker ProbeResultMsg)
    → All IsSmooth es
    → w.status ≡ running
    → let w' = run unmarshal probe_batch flush_probes (then_tick es) w in
      (w'.status ≡ running)
      × (w'.batch ≡ [])
      × (w'.tables.probe_results
          ≡ (w.tables.probe_results ++ map probe_row w.batch)
            ++ map probe_row (decoded unmarshal es))
probe_worker_stores unmarshal es w s r =
    let (up, rows) = probe_worker_keeps unmarshal (then_tick es) w (All-then_tick es s) r in
    let (before, _) = probe_worker_keeps unmarshal es w s r in
    let empty =
      batch-then_tick unmarshal probe_batch flush_probes (λ b t. rw (flush_probes-smooth b t) refl)
        es w before in
    let same = decoded-then_tick unmarshal probe_batch flush_probes es in
    (up, empty, rw (empty, append-nil, same) at rows)
