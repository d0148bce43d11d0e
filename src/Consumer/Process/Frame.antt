-- ===== src/Consumer/Process/Frame.antt =====
-- A round of one worker over tables that differ in what the other one writes.
use bangmod_monitor.Prelude.{
  ℕ, true, false, ◌≡◌, refl, ap, ◌∙◌, Option, none, some, List, [], ◌∷◌, ◌++◌, length, leb, arith,
  Bool-cases, inl, inr,
}
use bangmod_monitor.Prelude.Json.{Bytes}
use bangmod_monitor.Clickhouse.{Tables, ProbeRow}
use bangmod_monitor.Mq.{AgentMetricMsg, ProbeResultMsg}
use bangmod_monitor.Consumer.{
  Flush, Flushed, flush, flush_probes, Event, done, tick, fetch_error, message, Status, running,
  stopped, crashed, Worker, step, step_at, handle, take, after_flush, commit, commit_at, stop,
  stop_at,
}

-- A change of the tables that a worker's flush neither reads nor undoes
module _ {M : Type 0} (unmarshal : Bytes → Option M) (full : ℕ)
    (write : Flush → List M → Tables → Flushed) (other : Tables → Tables)
    (apart : (f : Flush) (b : List M) (t : Tables)
      → write f b (other t)
        ≡ record { tables = other (write f b t).tables; panics = (write f b t).panics }) where
  abbrev beside : Worker M → Worker M
  beside w = record w { tables = other w.tables }

  after_flush-beside :
      (w : Worker M) (r : Flushed)
      → after_flush (beside w) (record { tables = other r.tables; panics = r.panics })
        ≡ beside (after_flush w r)
  after_flush-beside w r = elim (Bool-cases r.panics) [ inl p ↦ rw p refl | inr q ↦ rw q refl ]

  flushed-beside :
      (f : Flush) (w : Worker M)
      → after_flush (beside w) (write f w.batch (other w.tables))
        ≡ beside (after_flush w (write f w.batch w.tables))
  flushed-beside f w =
      ap (after_flush (beside w)) (apart f w.batch w.tables)
      ∙ after_flush-beside w (write f w.batch w.tables)

  commit-beside : (v : Bytes) (w : Worker M) → commit v (beside w) ≡ beside (commit v w)
  commit-beside v w = at w.status
    where
      at : (s : Status) → commit_at s v (beside w) ≡ beside (commit_at s v w)
      at running = refl
      at stopped = refl
      at crashed = refl

  stop-beside : (w : Worker M) → stop (beside w) ≡ beside (stop w)
  stop-beside w = at w.status
    where
      at : (s : Status) → stop_at s (beside w) ≡ beside (stop_at s w)
      at running = refl
      at stopped = refl
      at crashed = refl

  take-beside :
      (v : Bytes) (f : Flush) (o : Option M) (w : Worker M)
      → take unmarshal full write v f o (beside w) ≡ beside (take unmarshal full write v f o w)
  take-beside v f none w = commit-beside v w
  take-beside v f (some m) w = elim (Bool-cases (leb full (length (w.batch ++ m ∷ [])))) [
    | inl at_full ↦ rw at_full (
        ap (commit v) (flushed-beside f (record w { batch = w.batch ++ m ∷ [] }))
        ∙ commit-beside v (
            after_flush (record w { batch = w.batch ++ m ∷ [] })
              (write f (w.batch ++ m ∷ []) w.tables)))
    | inr below ↦ rw below (commit-beside v (record w { batch = w.batch ++ m ∷ [] }))
  ]

  handle-beside :
      (e : Event) (w : Worker M)
      → handle unmarshal full write e (beside w) ≡ beside (handle unmarshal full write e w)
  handle-beside (done f) w =
      ap stop (flushed-beside f w) ∙ stop-beside (after_flush w (write f w.batch w.tables))
  handle-beside (tick f) w = flushed-beside f w
  handle-beside (fetch_error true) w = refl
  handle-beside (fetch_error false) w = refl
  handle-beside (message v f) w = take-beside v f (unmarshal v) w

  pub step-beside :
      (e : Event) (w : Worker M)
      → step unmarshal full write e (beside w) ≡ beside (step unmarshal full write e w)
  unfolding step
  step-beside e w = at w.status
    where
      at :
          (s : Status)
          → step_at unmarshal full write s e (beside w)
            ≡ beside (step_at unmarshal full write s e w)
      at running = handle-beside e w
      at stopped = refl
      at crashed = refl

-- Other results of probes, and other metrics
abbrev pub with_probes : List ProbeRow → Tables → Tables
with_probes rows t = record t { probe_results = rows }

abbrev pub with_metrics : Tables → Tables → Tables
with_metrics u t = record u { probe_results = t.probe_results }

pub flush-apart :
    (rows : List ProbeRow) (f : Flush) (b : List AgentMetricMsg) (t : Tables)
    → flush f b (with_probes rows t)
      ≡ record { tables = with_probes rows (flush f b t).tables; panics = (flush f b t).panics }
unfolding flush
flush-apart rows f [] t = refl
flush-apart rows f (m ∷ b) t = ground arith

pub flush_probes-apart :
    (u : Tables) (f : Flush) (b : List ProbeResultMsg) (t : Tables)
    → flush_probes f b (with_metrics u t) ≡ record {
      tables = with_metrics u (flush_probes f b t).tables;
      panics = (flush_probes f b t).panics;
    }
unfolding flush_probes
flush_probes-apart u f [] t = refl
flush_probes-apart u f (m ∷ b) t = ground arith
