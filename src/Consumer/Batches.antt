-- ===== src/Consumer/Batches.antt =====
-- The bound on a worker's batch, and what its failures lose.
use bangmod_monitor.Prelude.{
  ℕ, ◌<◌, true, false, ◌≡◌, refl, sym, ap, subst, ◌⊎◌, Option, none, some, List, [], ◌∷◌, ◌++◌, leb,
  arith, length, Bool-cases, inl, inr,
}
use bangmod_monitor.Prelude.Json.{Bytes}
use bangmod_monitor.Clickhouse.{Tables}
use bangmod_monitor.Mq.{AgentMetricMsg}
use bangmod_monitor.Consumer.{
  Flush, smooth, Flushed, flush, append_panics, Event, done, tick, fetch_error, message, Status,
  running, stopped, crashed, Worker, step, step_at, run, handle, take, after_flush, commit_at,
  stop_at, agent_batch,
}

module _ {M : Type 0} (unmarshal : Bytes → Option M) (full : ℕ)
    (write : Flush → List M → Tables → Flushed) where
  abbrev pub IsBounded : Worker M → Type 0
  IsBounded w = (w.status ≡ crashed) ⊎ (length w.batch < full)

  module _ (positive : 0 < full) where
    after_flush-IsBounded : (w : Worker M) (r : Flushed) → IsBounded (after_flush w r)
    after_flush-IsBounded w r = elim (Bool-cases r.panics) [
      | inl gone ↦ rw gone (inl refl)
      | inr fine ↦ rw fine (inr positive)
    ]

    commit_at-IsBounded :
        (st : Status) (value : Bytes) (w : Worker M)
        → IsBounded w
        → IsBounded (commit_at st value w)
    commit_at-IsBounded running value w b = b
    commit_at-IsBounded stopped value w b = b
    commit_at-IsBounded crashed value w b = b

    stop_at-IsBounded :
        (st : Status) (w : Worker M) → w.status ≡ st → IsBounded w → IsBounded (stop_at st w)
    stop_at-IsBounded running w e (inl c) = cc
    stop_at-IsBounded running w e (inr h) = inr h
    stop_at-IsBounded stopped w e b = b
    stop_at-IsBounded crashed w e b = b

    take-IsBounded :
        (value : Bytes) (f : Flush) (o : Option M) (w : Worker M)
        → IsBounded w
        → IsBounded (take unmarshal full write value f o w)
    take-IsBounded value f none w b = commit_at-IsBounded w.status value w b
    take-IsBounded value f (some m) w b =
        elim (Bool-cases (leb full (length (w.batch ++ m ∷ [])))) [
          | inl at_full ↦ rw at_full (
              commit_at-IsBounded (after_flush grown (write f grown.batch w.tables)).status value
                (after_flush grown (write f grown.batch w.tables))
                (after_flush-IsBounded grown (write f grown.batch w.tables)))
          | inr below ↦
              rw below (commit_at-IsBounded w.status value grown (inr (ground (arith, below))))
        ]
      where
        grown : Worker M
        grown = record w { batch = w.batch ++ m ∷ [] }

    handle-IsBounded :
        (e : Event) (w : Worker M)
        → length w.batch < full
        → IsBounded (handle unmarshal full write e w)
    handle-IsBounded (done f) w h =
        stop_at-IsBounded (after_flush w (write f w.batch w.tables)).status
          (after_flush w (write f w.batch w.tables)) refl
          (after_flush-IsBounded w (write f w.batch w.tables))
    handle-IsBounded (tick f) w h = after_flush-IsBounded w (write f w.batch w.tables)
    handle-IsBounded (fetch_error true) w h = inr h
    handle-IsBounded (fetch_error false) w h = inr h
    handle-IsBounded (message value f) w h = take-IsBounded value f (unmarshal value) w (inr h)

    step_at-IsBounded :
        (st : Status) (e : Event) (w : Worker M)
        → w.status ≡ st
        → IsBounded w
        → IsBounded (step_at unmarshal full write st e w)
    step_at-IsBounded running e w s (inl c) = cc
    step_at-IsBounded running e w s (inr h) = handle-IsBounded e w h
    step_at-IsBounded stopped e w s b = b
    step_at-IsBounded crashed e w s b = b

    -- Whatever is fetched and whatever fails, a worker that has not crashed holds fewer messages
    -- than a full batch, if it did at the start.
    pub run-IsBounded :
        (es : List Event) (w : Worker M) → IsBounded w → IsBounded (run unmarshal full write es w)
    unfolding run step
    run-IsBounded [] w b = b
    run-IsBounded (e ∷ es) w b =
        run-IsBounded es (step unmarshal full write e w) (step_at-IsBounded w.status e w refl b)

  -- Once the loop has returned nothing changes.
  run_stopped :
      (es : List Event) (w : Worker M) → w.status ≡ stopped → run unmarshal full write es w ≡ w
  unfolding run step
  run_stopped [] w h = refl
  run_stopped (e ∷ es) w h =
      subst (λ v. run unmarshal full write es v ≡ w)
        (sym (ap (λ st. step_at unmarshal full write st e w) h)) (run_stopped es w h)

  -- If the context is cancelled while the worker waits in a fetch, it returns without a flush: the
  -- messages of its batch never reach a table, whatever comes after.
  pub cancelled_fetch_drops :
      (es : List Event) (w : Worker M)
      → w.status ≡ running
      → ((run unmarshal full write (fetch_error true ∷ es) w).tables ≡ w.tables)
        × ((run unmarshal full write (fetch_error true ∷ es) w).status ≡ stopped)
  unfolding run step
  cancelled_fetch_drops es w h =
      subst
        (λ v.
          ((run unmarshal full write es v).tables ≡ w.tables)
          × ((run unmarshal full write es v).status ≡ stopped))
        (sym (ap (λ st. step_at unmarshal full write st (fetch_error true) w) h))
        (rw (run_stopped es (record w { status = stopped }) refl) (refl, refl))

-- An insert that cannot be prepared.
abbrev unprepared : Flush
unprepared = record smooth { agent_prepare_fails = true }

-- A message is committed to the broker before its rows are stored: if the batch cannot be prepared
-- at the next tick, a message that was alone in it is gone from it, stands in no table, and stays
-- committed.
committed_message_lost :
    (unmarshal : Bytes → Option AgentMetricMsg) (value : Bytes) (f : Flush) (m : AgentMetricMsg)
    (t : Tables) (committed : List Bytes)
    → unmarshal value ≡ some m
    → run unmarshal agent_batch flush
        (message value f ∷ tick unprepared ∷ [])
        (record { batch = []; tables = t; committed = committed; status = running })
      ≡ record { batch = []; tables = t; committed = committed ++ value ∷ []; status = running }
unfolding run step flush
committed_message_lost unmarshal value f m t committed u = rw u refl

-- A flush of a batch that is not empty, whose insert of the agents' rows is prepared, panics if
-- the insert of the disks' or of the networks' rows cannot be prepared.
unprepared_part_panics :
    (f : Flush) (m : AgentMetricMsg) (batch : List AgentMetricMsg) (t : Tables)
    → f.agent_prepare_fails ≡ false
    → (f.disk_prepare_fails ≡ true) ⊎ (f.net_prepare_fails ≡ true)
    → (flush f (m ∷ batch) t).panics ≡ true
unfolding flush
unprepared_part_panics f m batch t a p = elim (Bool-cases (append_panics f (m ∷ batch))) [
  | inl early ↦ rw (a, early) refl
  | inr late ↦ rw (a, late) (ground (arith, p))
]
