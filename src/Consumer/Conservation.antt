-- ===== src/Consumer/Conservation.antt =====
-- What a worker stores of what it fetched, while nothing fails and while flushes fail.
use bangmod_monitor.Prelude.{
  ℕ, false, ◌≡◌, refl, sym, ap, subst, ◌∙◌, Option, none, some, List, [], ◌∷◌, ◌++◌, map, leb,
  length, flat_map, All, append-nil, append_assoc, Bool-cases, inl, inr,
}
use bangmod_monitor.Prelude.Json.{Bytes}
use bangmod_monitor.Clickhouse.{Tables}
use bangmod_monitor.Mq.{AgentMetricMsg, ProbeResultMsg}
use bangmod_monitor.Consumer.{
  Flush, smooth, Flushed, flush, agent_row, disk_rows, net_rows, Event, done, tick, fetch_error,
  message, running, Worker, step, step_at, run, handle, take, after_flush, commit, agent_batch,
  probe_batch, probe_row, flush_probes,
}

pub flat_map-append :
    {A R : Type 0} (f : A → List R) (xs ys : List A)
    → flat_map f (xs ++ ys) ≡ flat_map f xs ++ flat_map f ys
flat_map-append f [] ys = refl
flat_map-append f (x ∷ xs) ys = simp (flat_map-append f xs ys, append_assoc)

-- A round in which nothing fails and nothing ends: a tick or a message.
abbrev pub IsSmooth : Event → Type 0
IsSmooth (done f) = ⊥
IsSmooth (tick f) = f ≡ smooth
IsSmooth (fetch_error b) = ⊥
IsSmooth (message value f) = f ≡ smooth

abbrev list_of : {M : Type 0} → Option M → List M
list_of none = []
list_of (some m) = m ∷ []

-- The messages that decode, in the order in which they were fetched.
abbrev pub decoded_one : {M : Type 0} → (Bytes → Option M) → Event → List M
decoded_one unmarshal (done f) = []
decoded_one unmarshal (tick f) = []
decoded_one unmarshal (fetch_error b) = []
decoded_one unmarshal (message value f) = list_of (unmarshal value)

abbrev pub decoded : {M : Type 0} → (Bytes → Option M) → List Event → List M
decoded unmarshal es = flat_map (decoded_one unmarshal) es

module _ {M R : Type 0} (unmarshal : Bytes → Option M) (full : ℕ)
    (write : Flush → List M → Tables → Flushed) (table : Tables → List R) (rows : M → List R)
    (calm : (b : List M) (t : Tables) → (write smooth b t).panics ≡ false)
    (stores : (b : List M) (t : Tables)
      → table (write smooth b t).tables ≡ table t ++ flat_map rows b) where
  -- What is stored, and what waits in the batch.
  abbrev content : Worker M → List R
  content w = table w.tables ++ flat_map rows w.batch

  abbrev Grows : Worker M → List M → Worker M → Type 0
  Grows w ms w' = (w'.status ≡ running) × (content w' ≡ content w ++ flat_map rows ms)

  after_flush-Grows :
      (w : Worker M)
      → w.status ≡ running
      → Grows w [] (after_flush w (write smooth w.batch w.tables))
  after_flush-Grows w r =
      rw (calm w.batch w.tables) (r, ap (λ l. l ++ []) (stores w.batch w.tables))

  take-Grows :
      (value : Bytes) (o : Option M) (w : Worker M)
      → w.status ≡ running
      → Grows w (list_of o) (take unmarshal full write value smooth o w)
  take-Grows value none w r = rw r (refl, sym (append-nil (content w)))
  take-Grows value (some m) w r = elim (Bool-cases (leb full (length (w.batch ++ m ∷ [])))) [
    | inl at_full ↦ rw at_full (
        committed_after (after_flush grown (write smooth grown.batch w.tables))
          (after_flush-Grows grown r))
    | inr below ↦ rw below (rw r (refl, grows))
  ]
    where
      grown : Worker M
      grown = record w { batch = w.batch ++ m ∷ [] }

      grows : content grown ≡ content w ++ (rows m ++ [])
      grows =
          rw (flat_map-append rows w.batch (m ∷ []))
            (sym (append_assoc (table w.tables) (flat_map rows w.batch) (rows m ++ [])))

      committed_after : (w' : Worker M) → Grows grown [] w' → Grows w (m ∷ []) (commit value w')
      committed_after w' (up, more) = rw up (refl, more ∙ append-nil (content grown) ∙ grows)

  handle-Grows :
      (e : Event) (w : Worker M)
      → IsSmooth e
      → w.status ≡ running
      → Grows w (decoded_one unmarshal e) (handle unmarshal full write e w)
  handle-Grows (done f) w s r = absurd s
  handle-Grows (tick f) w s r = rw s (after_flush-Grows w r)
  handle-Grows (fetch_error b) w s r = absurd s
  handle-Grows (message value f) w s r = rw s (take-Grows value (unmarshal value) w r)

  step_running :
      (e : Event) (w : Worker M)
      → w.status ≡ running
      → step unmarshal full write e w ≡ handle unmarshal full write e w
  unfolding step
  step_running e w r = ap (λ st. step_at unmarshal full write st e w) r

  run-Grows :
      (es : List Event) (w : Worker M)
      → All IsSmooth es
      → w.status ≡ running
      → Grows w (decoded unmarshal es) (run unmarshal full write es w)
  unfolding run
  run-Grows [] w s r = (r, sym (append-nil (content w)))
  run-Grows (e ∷ es) w (s, ss) r =
      let (up, more) = handle-Grows e w s r in
      let (up', rest) = run-Grows es (handle unmarshal full write e w) ss up in
      subst (λ v. Grows w (decoded unmarshal (e ∷ es)) (run unmarshal full write es v))
        (sym (step_running e w r))
        (
          up',
          rest
              ∙ ap (λ l. l ++ flat_map rows (decoded unmarshal es)) more
              ∙ append_assoc (content w) (flat_map rows (decoded_one unmarshal e))
                  (flat_map rows (decoded unmarshal es))
              ∙ ap (λ l. content w ++ l)
                  (sym (flat_map-append rows (decoded_one unmarshal e) (decoded unmarshal es))),
        )

abbrev wrap {ℓ} : {A : Type ℓ} {B : Type ℓ} → (A → B) → A → List B
wrap f a = f a ∷ []

flat_map-wrap : {A B : Type 0} (f : A → B) (xs : List A) → flat_map (wrap f) xs ≡ map f xs
flat_map-wrap f [] = refl
flat_map-wrap f (x ∷ xs) = ap (λ l. f x ∷ l) (flat_map-wrap f xs)

pub flush-smooth :
    (b : List AgentMetricMsg) (t : Tables)
    → flush smooth b t ≡ record {
      tables = record t {
        agent_metrics = t.agent_metrics ++ map agent_row b;
        disk_metrics = t.disk_metrics ++ flat_map disk_rows b;
        net_metrics = t.net_metrics ++ flat_map net_rows b;
      };
      panics = false;
    }
unfolding flush
flush-smooth [] t = simp append-nil
flush-smooth (m ∷ b) t = refl

-- The agents' worker loses and reorders nothing while nothing fails: after any ticks and messages,
-- the rows of each table followed by those of the waiting batch are what they were, followed by
-- the rows of the messages that decode, in the order in which they were fetched.
pub agent_worker_keeps :
    (unmarshal : Bytes → Option AgentMetricMsg) (es : List Event) (w : Worker AgentMetricMsg)
    → All IsSmooth es
    → w.status ≡ running
    → let w' = run unmarshal agent_batch flush es w in
      let ms = decoded unmarshal es in
      (w'.status ≡ running)
      × (w'.tables.agent_metrics ++ map agent_row w'.batch
          ≡ (w.tables.agent_metrics ++ map agent_row w.batch) ++ map agent_row ms)
      × (w'.tables.disk_metrics ++ flat_map disk_rows w'.batch
          ≡ (w.tables.disk_metrics ++ flat_map disk_rows w.batch) ++ flat_map disk_rows ms)
      × (w'.tables.net_metrics ++ flat_map net_rows w'.batch
          ≡ (w.tables.net_metrics ++ flat_map net_rows w.batch) ++ flat_map net_rows ms)
agent_worker_keeps unmarshal es w s r =
    let agents =
      run-Grows unmarshal agent_batch flush (λ t. t.agent_metrics) (wrap agent_row) quiet
        (λ b t.
          rw (flush-smooth b t) (ap (λ l. t.agent_metrics ++ l) (sym (flat_map-wrap agent_row b))))
        es w s r in
    let disks =
      run-Grows unmarshal agent_batch flush (λ t. t.disk_metrics) disk_rows quiet
        (λ b t. rw (flush-smooth b t) refl) es w s r in
    let nets =
      run-Grows unmarshal agent_batch flush (λ t. t.net_metrics) net_rows quiet
        (λ b t. rw (flush-smooth b t) refl) es w s r in
    (agents.0, simp flat_map-wrap at (agents.1), disks.1, nets.1)
  where
    quiet : (b : List AgentMetricMsg) (t : Tables) → (flush smooth b t).panics ≡ false
    quiet b t = rw (flush-smooth b t) refl

pub flush_probes-smooth :
    (b : List ProbeResultMsg) (t : Tables)
    → flush_probes smooth b t ≡ record {
      tables = record t { probe_results = t.probe_results ++ map probe_row b };
      panics = false;
    }
unfolding flush_probes
flush_probes-smooth [] t = simp append-nil
flush_probes-smooth (m ∷ b) t = refl

-- The probes' worker loses and reorders nothing while nothing fails: after any ticks and messages,
-- the rows of the results followed by those of the waiting batch are what they were, followed by
-- the rows of the messages that decode, in the order in which they were fetched.
pub probe_worker_keeps :
    (unmarshal : Bytes → Option ProbeResultMsg) (es : List Event) (w : Worker ProbeResultMsg)
    → All IsSmooth es
    → w.status ≡ running
    → let w' = run unmarshal probe_batch flush_probes es w in
      (w'.status ≡ running)
      × (w'.tables.probe_results ++ map probe_row w'.batch
          ≡ (w.tables.probe_results ++ map probe_row w.batch)
            ++ map probe_row (decoded unmarshal es))
probe_worker_keeps unmarshal es w s r =
    let rows =
      run-Grows unmarshal probe_batch flush_probes (λ t. t.probe_results) (wrap probe_row) quiet
        (λ b t.
          rw (flush_probes-smooth b t)
            (ap (λ l. t.probe_results ++ l) (sym (flat_map-wrap probe_row b))))
        es w s r in
    (rows.0, simp flat_map-wrap at (rows.1))
  where
    quiet : (b : List ProbeResultMsg) (t : Tables) → (flush_probes smooth b t).panics ≡ false
    quiet b t = rw (flush_probes-smooth b t) refl
