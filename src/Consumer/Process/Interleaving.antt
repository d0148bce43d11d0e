-- ===== src/Consumer/Process/Interleaving.antt =====
-- The workers do not disturb each other.
use bangmod_monitor.Prelude.{
  true, false, ◌≡◌, refl, sym, ap, ap₂, subst, ◌∙◌, Option, List, [], ◌∷◌, if◌then◌else◌,
  Bool-cases, inl, inr,
}
use bangmod_monitor.Prelude.Json.{Bytes}
use bangmod_monitor.Clickhouse.{Tables}
use bangmod_monitor.Mq.{AgentMetricMsg, ProbeResultMsg}
use bangmod_monitor.Consumer.{
  flush, flush_probes, Event, Worker, step, run, agent_batch, probe_batch,
}
use bangmod_monitor.Consumer.Process.{
  Process, worker, local, Turn, agent_turn, probe_turn, signal, settle_agent, settle_probe, turn,
  run_turns,
}
use bangmod_monitor.Consumer.Process.Frame.{
  with_probes, with_metrics, flush-apart, flush_probes-apart, step-beside,
}

-- What the agents' worker would have by itself, as the process has it
pub record AgentSide (p : Process) (w : Worker AgentMetricMsg) : Type 0 where
  pub own : p.agent ≡ local w
  pub metrics : p.tables ≡ with_probes p.tables.probe_results w.tables

-- The same for the probes' worker
pub record ProbeSide (p : Process) (w : Worker ProbeResultMsg) : Type 0 where
  pub own : p.probe ≡ local w
  pub results : p.tables.probe_results ≡ w.tables.probe_results

-- The rounds of one worker, in their order
abbrev agent_events : List Turn → List Event
agent_events [] = []
agent_events (agent_turn e ∷ ts) = e ∷ agent_events ts
agent_events (probe_turn e ∷ ts) = agent_events ts
agent_events (signal ∷ ts) = agent_events ts

abbrev probe_events : List Turn → List Event
probe_events [] = []
probe_events (agent_turn e ∷ ts) = probe_events ts
probe_events (probe_turn e ∷ ts) = e ∷ probe_events ts
probe_events (signal ∷ ts) = probe_events ts

module _ (read_metrics : Bytes → Option AgentMetricMsg)
    (read_result : Bytes → Option ProbeResultMsg) where
  abbrev agent_step : Event → Worker AgentMetricMsg → Worker AgentMetricMsg
  agent_step e w = step read_metrics agent_batch flush e w

  abbrev probe_step : Event → Worker ProbeResultMsg → Worker ProbeResultMsg
  probe_step e w = step read_result probe_batch flush_probes e w

  module _ (p : Process) (a : Worker AgentMetricMsg) (b : Worker ProbeResultMsg)
      (agents : AgentSide p a) (probes : ProbeSide p b) (e : Event) where
    agent_stepped : agent_step e (worker p.tables p.agent) ≡ (
        let w = agent_step e a in record w { tables = with_probes p.tables.probe_results w.tables })
    agent_stepped =
        ap (agent_step e) (ap₂ worker agents.metrics agents.own)
        ∙ step-beside read_metrics agent_batch flush (with_probes p.tables.probe_results)
            (flush-apart p.tables.probe_results) e a

    agent_turn-sides :
        AgentSide (settle_agent p (agent_step e (worker p.tables p.agent))) (agent_step e a)
        × ProbeSide (settle_agent p (agent_step e (worker p.tables p.agent))) b
    agent_turn-sides =
        let same = ap (λ (w : Worker AgentMetricMsg). w.tables) agent_stepped in
        let kept = ap (λ (t : Tables). t.probe_results) same in
        (
          record {
            own = ap local agent_stepped;
            metrics = same ∙ ap (λ rows. with_probes rows (agent_step e a).tables) (sym kept);
          },
          record { own = probes.own; results = kept ∙ probes.results },
        )

    probe_stepped :
        probe_step e (worker p.tables p.probe)
        ≡ (let w = probe_step e b in record w { tables = with_metrics p.tables w.tables })
    probe_stepped =
        ap (probe_step e)
          (ap₂ worker (ap (λ rows. with_probes rows p.tables) probes.results) probes.own)
        ∙ step-beside read_result probe_batch flush_probes (with_metrics p.tables)
            (flush_probes-apart p.tables) e b

    probe_turn-sides :
        AgentSide (settle_probe p (probe_step e (worker p.tables p.probe))) a
        × ProbeSide (settle_probe p (probe_step e (worker p.tables p.probe))) (probe_step e b)
    probe_turn-sides =
        let same = ap (λ (w : Worker ProbeResultMsg). w.tables) probe_stepped in
        let rows = (probe_step e b).tables.probe_results in
        let stored = ap (λ (t : Tables). t.probe_results) same in
        (
          record {
            own = agents.own;
            metrics =
                same
                ∙ ap (with_probes rows) agents.metrics
                ∙ ap (λ rs. with_probes rs a.tables) (sym stored);
          },
          record { own = ap local probe_stepped; results = stored },
        )

  exited_stays :
      (ts : List Turn) (p : Process)
      → p.exited ≡ true
      → (run_turns read_metrics read_result ts p).exited ≡ true
  unfolding run_turns
  exited_stays [] p h = h
  exited_stays (t ∷ ts) p h =
      ap
        (λ b.
          (run_turns read_metrics read_result ts
            (if b then p else turn read_metrics read_result t p)).exited)
        h
      ∙ exited_stays ts p h

  -- The turn that is taken while the process lives
  taken :
      (t : Turn) (ts : List Turn) (p : Process)
      → p.exited ≡ false
      → run_turns read_metrics read_result (t ∷ ts) p
        ≡ run_turns read_metrics read_result ts (turn read_metrics read_result t p)
  unfolding run_turns
  taken t ts p up =
      ap
        (λ b.
          run_turns read_metrics read_result ts
            (if b then p else turn read_metrics read_result t p))
        up

  sides :
      (ts : List Turn) (p : Process) (a : Worker AgentMetricMsg) (b : Worker ProbeResultMsg)
      → AgentSide p a
      → ProbeSide p b
      → p.exited ≡ false
      → (run_turns read_metrics read_result ts p).exited ≡ false
      → AgentSide
          (run_turns read_metrics read_result ts p)
          (run read_metrics agent_batch flush (agent_events ts) a)
        × ProbeSide
            (run_turns read_metrics read_result ts p)
            (run read_result probe_batch flush_probes (probe_events ts) b)
  unfolding run run_turns
  sides [] p a b agents probes up live = (agents, probes)
  sides (signal ∷ ts) p a b agents probes up live =
      cc (exited_stays ts (record p { exited = true }) refl, taken signal ts p up)
  sides (agent_turn e ∷ ts) p a b agents probes up live =
      let q = turn read_metrics read_result (agent_turn e) p in
      let (agents', probes') = agent_turn-sides p a b agents probes e in
      let same = taken (agent_turn e) ts p up in
      let live' : (run_turns read_metrics read_result ts q).exited ≡ false =
        sym (ap (λ (r : Process). r.exited) same) ∙ live in
      elim (Bool-cases q.exited) [
        | inl gone ↦ cc (exited_stays ts q gone)
        | inr up' ↦
            subst
              (λ r.
                AgentSide r (run read_metrics agent_batch flush (agent_events ts) (agent_step e a))
                × ProbeSide r (run read_result probe_batch flush_probes (probe_events ts) b))
              (sym same) (sides ts q (agent_step e a) b agents' probes' up' live')
      ]
  sides (probe_turn e ∷ ts) p a b agents probes up live =
      let q = turn read_metrics read_result (probe_turn e) p in
      let (agents', probes') = probe_turn-sides p a b agents probes e in
      let same = taken (probe_turn e) ts p up in
      let live' : (run_turns read_metrics read_result ts q).exited ≡ false =
        sym (ap (λ (r : Process). r.exited) same) ∙ live in
      elim (Bool-cases q.exited) [
        | inl gone ↦ cc (exited_stays ts q gone)
        | inr up' ↦
            subst
              (λ r.
                AgentSide r (run read_metrics agent_batch flush (agent_events ts) a)
                × ProbeSide r
                    (run read_result probe_batch flush_probes (probe_events ts) (probe_step e b)))
              (sym same) (sides ts q a (probe_step e b) agents' probes' up' live')
      ]

-- The workers do not disturb each other: in any interleaving of their rounds, whatever fails in
-- them, after which the process lives, the agents' worker has the batch, the commits and the state
-- that it has after its own rounds alone, the tables of the agents' metrics are those of these
-- rounds alone, and so are the probes' worker and the table of probes after its rounds.
pub workers_apart :
    (read_metrics : Bytes → Option AgentMetricMsg) (read_result : Bytes → Option ProbeResultMsg)
    (ts : List Turn) (p : Process)
    → p.exited ≡ false
    → (run_turns read_metrics read_result ts p).exited ≡ false
    → AgentSide
        (run_turns read_metrics read_result ts p)
        (run read_metrics agent_batch flush (agent_events ts) (worker p.tables p.agent))
      × ProbeSide
          (run_turns read_metrics read_result ts p)
          (run read_result probe_batch flush_probes (probe_events ts) (worker p.tables p.probe))
workers_apart read_metrics read_result ts p up live =
    sides read_metrics read_result ts p (worker p.tables p.agent) (worker p.tables p.probe)
      (record { own = refl; metrics = refl }) (record { own = refl; results = refl }) up live
