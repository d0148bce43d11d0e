-- ===== src/Api/Probes/Equivalence.antt =====
-- The two protocols of a probe node against each other, and what the broker gets.
use bangmod_monitor.Prelude.{
  ℕ, suc, String, true, false, some, List, [], ◌∷◌, ◌++◌, ◌≡◌, refl, map, length, if◌then◌else◌,
  Bool-cases, inl, inr, append-nil, append_assoc, ap, ◌∙◌, sym,
}
use bangmod_monitor.Prelude.Text.{is_empty}
use bangmod_monitor.Api.Http.{answer}
use bangmod_monitor.Mq.{Message, ProbeResultMsg, publish, marshal_or_empty, topic_probe_results}
use bangmod_monitor.Proto
use bangmod_monitor.Api.Probes.{
  Env, State, ProbeResult, result_message, to_broker, to_table, store_results, insert_results,
  ingest, ingest_probe, wrong_secret,
}

abbrev on_wire : ProbeResult → Proto.ProbeResult
on_wire r = record {
  url = r.url;
  status_code = r.status_code;
  response_ms = r.response_ms;
  is_up = r.is_up;
  error = r.error;
}

abbrev pub request : String → String → List ProbeResult → Proto.ProbeRequest
request secret region rs = record {
  region = region;
  node_secret = secret;
  results = map on_wire rs;
}

store_results_direct :
    (e : Env) (n : ℕ) (region : String) (rs : List ProbeResult) (s : State)
    → s.producer.enabled ≡ false
    → (store_results e n region rs s).tables ≡ insert_results e n region (map on_wire rs) s.tables
unfolding store_results insert_results
store_results_direct e n region [] s off = refl
store_results_direct e n region (r ∷ rs) s off =
    let msg = result_message e.now region r in
    ap
      (λ b.
        (store_results e (suc n) region rs
          (if b then to_broker e n msg s else to_table e n msg s)).tables)
      off
    ∙ store_results_direct e (suc n) region rs (to_table e n msg s) off

-- The results that a node sends end in the same tables by either protocol, whichever inserts
-- fail and whether or not the secret is right, if the region is not empty and the producer is
-- disabled.
grpc_probe_stores_http :
    (e : Env) (secret region : String) (rs : List ProbeResult) (s : State)
    → is_empty region ≡ false
    → s.producer.enabled ≡ false
    → (ingest e secret (some (record { region = region; results = some rs })) s).1.tables
      ≡ (ingest_probe e (request secret region rs) s.tables).1
unfolding ingest ingest_probe
grpc_probe_stores_http e secret region rs s named off = elim (Bool-cases (wrong_secret e secret)) [
  | inl wrong ↦ rw wrong refl
  | inr right ↦ rw (right, named) (store_results_direct e 0 region rs s off)
]

-- The messages of the results, with the target of each as its key.
abbrev pub probe_messages : Env → String → List ProbeResult → List Message
probe_messages e region rs =
    map
      (λ r. record {
        topic = topic_probe_results;
        key = r.url;
        value = marshal_or_empty e.marshal (result_message e.now region r);
      })
      rs

store_results_published :
    (e : Env) (n : ℕ) (region : String) (rs : List ProbeResult) (s : State)
    → s.producer.enabled ≡ true
    → ((k : ℕ) → e.write_fails k ≡ false)
    → (store_results e n region rs s).producer.broker
      ≡ s.producer.broker ++ probe_messages e region rs
unfolding store_results
store_results_published e n region [] s on ok = sym (append-nil _)
store_results_published e n region (r ∷ rs) s on ok =
    let msg = result_message e.now region r in
    ap
      (λ b.
        (store_results e (suc n) region rs
          (if b then to_broker e n msg s else to_table e n msg s)).producer.broker)
      on
    ∙ ap (λ p. (store_results e (suc n) region rs (record s { producer = p })).producer.broker)
        (publish-probe msg)
    ∙ store_results_published e (suc n) region rs
        (record s { producer = record s.producer { broker = s.producer.broker ++ sent msg ∷ [] } })
        on ok
    ∙ append_assoc s.producer.broker (sent msg ∷ []) (probe_messages e region rs)
  where
    sent : ProbeResultMsg → Message
    sent msg = record {
      topic = topic_probe_results;
      key = msg.target_url;
      value = marshal_or_empty e.marshal msg;
    }

    publish-probe :
        (msg : ProbeResultMsg)
        → publish
            (e.write_fails n)
            topic_probe_results
            msg.target_url
            (marshal_or_empty e.marshal msg)
            s.producer
          ≡ record s.producer { broker = s.producer.broker ++ sent msg ∷ [] }
    publish-probe msg = unfold publish in rw (on, ok n) refl

-- A node whose secret is right, or any node where none is configured, is answered with the number
-- of its results; with the producer enabled and every write accepted, the broker has one message
-- for each result, in their order, behind those it had.
pub ingest_publishes :
    (e : Env) (secret region : String) (rs : List ProbeResult) (s : State)
    → wrong_secret e secret ≡ false
    → is_empty region ≡ false
    → s.producer.enabled ≡ true
    → ((k : ℕ) → e.write_fails k ≡ false)
    → let (reply, s') = ingest e secret (some (record { region = region; results = some rs })) s in
      (reply ≡ answer 200 (length rs))
      × (s'.producer.broker ≡ s.producer.broker ++ probe_messages e region rs)
unfolding ingest
ingest_publishes e secret region rs s right named on ok =
    rw (right, named) (refl, store_results_published e 0 region rs s on ok)
