-- ===== src/Api/Probes/Pipeline.antt =====
-- The results of a probe node on their way through the broker and the consumer's worker.
use bangmod_monitor.Prelude.{
  String, true, false, Option, some, List, [], ◌∷◌, ◌++◌, ◌≡◌, refl, ap, ap₂, ◌∙◌, map, All, ℕ,
  append-nil,
}
use bangmod_monitor.Prelude.Json.{Bytes}
use bangmod_monitor.Prelude.Text.{is_empty}
use bangmod_monitor.Mq.{Message, ProbeResultMsg, marshal_or_empty}
use bangmod_monitor.Consumer.{running, Worker, run, probe_batch, probe_row, flush_probes}
use bangmod_monitor.Consumer.Conservation.{decoded}
use bangmod_monitor.Consumer.Delivery.{fetched, fetched-IsSmooth, then_tick, probe_worker_stores}
use bangmod_monitor.Api.Probes.{Env, State, ProbeResult, result_message, ingest, wrong_secret}
use bangmod_monitor.Api.Probes.Equivalence.{probe_messages, ingest_publishes}
use bangmod_monitor.Api.Probes.Rows.{result_row}

module _ (e : Env) (region : String) (unmarshal : Bytes → Option ProbeResultMsg) where
  -- The worker reads back the message that the server made of the result.
  abbrev pub ReadsBack : ProbeResult → Type 0
  ReadsBack r =
      unmarshal (marshal_or_empty e.marshal (result_message e.now region r))
      ≡ some (result_message e.now region r)

  decoded-messages :
      (rs : List ProbeResult)
      → All ReadsBack rs
      → decoded unmarshal (fetched (probe_messages e region rs))
        ≡ map (result_message e.now region) rs
  decoded-messages [] h = refl
  decoded-messages (r ∷ rs) (p, h) =
      rw p (ap (λ l. result_message e.now region r ∷ l) (decoded-messages rs h))

  rows-messages :
      (rs : List ProbeResult)
      → map probe_row (map (result_message e.now region) rs) ≡ map (result_row e.now region) rs
  rows-messages [] = refl
  rows-messages (r ∷ rs) = ap (λ l. result_row e.now region r ∷ l) (rows-messages rs)

-- Results that a node reports while the producer is enabled and every write accepted arrive: the
-- messages that the request adds to the broker, fetched in their order by a running worker whose
-- batch is empty, and followed by a tick, leave one row for each result behind those of the table
-- of probes, the row that the server itself stores where the producer is disabled; if the worker
-- reads back what the server marshals and nothing fails.
pub probe_results_arrive :
    (e : Env) (secret region : String) (rs : List ProbeResult) (s : State)
    (unmarshal : Bytes → Option ProbeResultMsg) (w : Worker ProbeResultMsg)
    → wrong_secret e secret ≡ false
    → is_empty region ≡ false
    → s.producer.enabled ≡ true
    → ((k : ℕ) → e.write_fails k ≡ false)
    → All (ReadsBack e region unmarshal) rs
    → w.status ≡ running
    → w.batch ≡ []
    → (new : List Message) × ((ingest e secret
          (some (record { region = region; results = some rs }))
          s).1.producer.broker
        ≡ s.producer.broker ++ new)
      × ((run unmarshal probe_batch flush_probes (then_tick (fetched new)) w).tables.probe_results
          ≡ w.tables.probe_results ++ map (result_row e.now region) rs)
probe_results_arrive e secret region rs s unmarshal w right named on ok back up empty =
    let new = probe_messages e region rs in
    let (_, _, stored) = probe_worker_stores unmarshal (fetched new) w (fetched-IsSmooth new) up in
    (
      new,
      (ingest_publishes e secret region rs s right named on ok).1,
      stored
          ∙ ap₂ (λ b ms. (w.tables.probe_results ++ map probe_row b) ++ map probe_row ms) empty
              (decoded-messages e region unmarshal rs back)
          ∙ ap₂ (λ l rows. l ++ rows) (append-nil w.tables.probe_results)
              (rows-messages e region unmarshal rs),
    )
