-- ===== src/Api/Ingest/Pipeline.antt =====
-- From an agent's log to the tables by way of the broker and the consumer's worker.
use bangmod_monitor.Prelude.{
  String, true, false, ◌≡◌, refl, sym, ap, ap₂, ◌∙◌, Option, some, List, [], ◌∷◌, ◌++◌, map,
  flat_map, All, append_assoc, append-nil,
}
use bangmod_monitor.Prelude.Json.{Bytes}
use bangmod_monitor.Prelude.Text.{is_empty}
use bangmod_monitor.Agent.Metrics.{Metrics}
use bangmod_monitor.Agent.Convert.{to_proto}
use bangmod_monitor.Agent.Sender.{send_grpc}
use bangmod_monitor.Api.Store.{validate_token}
use bangmod_monitor.Api.Agents
use bangmod_monitor.Api.Agents.{check_token}
use bangmod_monitor.Api.Agents.Known.{Knows, check_token-Knows}
use bangmod_monitor.Api.Ingest.{
  Env, State, Rows, grpc_rows, grpc_message, store, response, ingest_metrics,
}
use bangmod_monitor.Api.Ingest.Arrival.{IsAccepted, request, serve_all, with_collections}
use bangmod_monitor.Api.Ingest.Equivalence.{map_parts}
use bangmod_monitor.Mq.{Message, AgentMetricMsg, publish, marshal_or_empty, topic_agent_metrics}
use bangmod_monitor.Consumer.{
  running, Worker, run, agent_batch, agent_row, disk_rows, net_rows, flush,
}
use bangmod_monitor.Consumer.Conservation.{decoded}
use bangmod_monitor.Consumer.Delivery.{fetched, fetched-IsSmooth, then_tick, agent_worker_stores}

module _ (e : Env) (host_id : String) where
  abbrev message_of : Metrics → AgentMetricMsg
  message_of m = grpc_message e.float32 host_id (to_proto m)

  abbrev published : Metrics → Message
  published m = record {
    topic = topic_agent_metrics;
    key = host_id;
    value = marshal_or_empty e.marshal (message_of m);
  }

  -- The worker reads back the message that the server made of the collection.
  abbrev pub ReadsBack : (Bytes → Option AgentMetricMsg) → Metrics → Type 0
  ReadsBack unmarshal m =
      unmarshal (marshal_or_empty e.marshal (message_of m)) ≡ some (message_of m)

  decoded-published :
      (unmarshal : Bytes → Option AgentMetricMsg) (ms : List Metrics)
      → All (ReadsBack unmarshal) ms
      → decoded unmarshal (fetched (map published ms)) ≡ map message_of ms
  decoded-published unmarshal [] h = refl
  decoded-published unmarshal (m ∷ ms) (p, h) =
      rw p (ap (λ l. message_of m ∷ l) (decoded-published unmarshal ms h))

  abbrev pub rows_of : Metrics → Rows
  rows_of m = grpc_rows e.float32 host_id (to_proto m)

  disks_of :
      (ms : List Metrics)
      → flat_map disk_rows (map message_of ms) ≡ flat_map (λ m. (rows_of m).disks) ms
  disks_of [] = refl
  disks_of (m ∷ ms) = ap₂ ◌++◌ (map_parts _ _ _ (to_proto m).disks (λ d. refl)) (disks_of ms)

  nets_of :
      (ms : List Metrics)
      → flat_map net_rows (map message_of ms) ≡ flat_map (λ m. (rows_of m).nets) ms
  nets_of [] = refl
  nets_of (m ∷ ms) = ap₂ ◌++◌ (map_parts _ _ _ (to_proto m).networks (λ n. refl)) (nets_of ms)

module _ (ae : Agents.Env) (e : Env) (token host_id org_id : String)
    (filled : is_empty token ≡ false) (answers : ae.db_fails validate_token ≡ false)
    (ok : e.write_fails ≡ false) where
  served_message :
      (m : Metrics) (a : Agents.State) (s : State)
      → Knows ae token host_id org_id a
      → s.producer.enabled ≡ true
      → ingest_metrics ae e (request token m) a s ≡ (
        response (record { ok = true; message = "stored" }),
        (check_token ae token a).0,
        record s {
          producer = record s.producer { broker = s.producer.broker ++ published e host_id m ∷ [] };
        },
      )
  unfolding ingest_metrics store publish
  served_message m a s k on =
      let (known, _) = check_token-Knows ae token a host_id org_id k answers in
      rw (filled, known, on, ok) refl

  served_messages :
      (ms : List Metrics) (a : Agents.State) (s : State)
      → Knows ae token host_id org_id a
      → s.producer.enabled ≡ true
      → All IsAccepted (serve_all ae e token ms a s).0
        × ((serve_all ae e token ms a s).2.producer.broker
            ≡ s.producer.broker ++ map (published e host_id) ms)
        × ((serve_all ae e token ms a s).2.tables ≡ s.tables)
  unfolding send_grpc
  served_messages [] a s k on = (tt, sym (append-nil s.producer.broker), refl)
  served_messages (m ∷ ms) a s k on =
      let (_, still) = check_token-Knows ae token a host_id org_id k answers in
      let after = record s {
        producer = record s.producer { broker = s.producer.broker ++ published e host_id m ∷ [] };
      } in
      let (fine, there, kept) = served_messages ms (check_token ae token a).0 after still on in
      rw (served_message m a s k on) (
        (refl, fine),
        there
            ∙ append_assoc s.producer.broker (published e host_id m ∷ [])
                (map (published e host_id) ms),
        kept,
      )

-- Collections that an agent sends over gRPC while the producer is enabled arrive in the tables.
-- Where the server's table knows the agent's token, its cache does not contradict the table, no id
-- of a host has a colon and every write is accepted, the server accepts each of the sends and stores nothing itself; the
-- messages that they add to the broker, fetched in their order by a running worker whose batch is
-- empty, and followed by a tick, leave the worker running and its tables as they were, followed by
-- the rows of the collections in their order, under the host of the token, which are the rows that
-- the server itself stores where the producer is disabled; if the worker reads back what the server
-- marshals and nothing fails.
pub metrics_arrive :
    (ae : Agents.Env) (e : Env) (token host_id org_id : String) (sent : List Metrics)
    (a : Agents.State) (s : State) (unmarshal : Bytes → Option AgentMetricMsg)
    (w : Worker AgentMetricMsg)
    → is_empty token ≡ false
    → ae.db_fails validate_token ≡ false
    → e.write_fails ≡ false
    → Knows ae token host_id org_id a
    → s.producer.enabled ≡ true
    → All (ReadsBack e host_id unmarshal) sent
    → w.status ≡ running
    → w.batch ≡ []
    → (new : List Message) × All IsAccepted (serve_all ae e token sent a s).0
      × ((serve_all ae e token sent a s).2.tables ≡ s.tables)
      × ((serve_all ae e token sent a s).2.producer.broker ≡ s.producer.broker ++ new)
      × (let w' = run unmarshal agent_batch flush (then_tick (fetched new)) w in
          (w'.status ≡ running)
          × (w'.tables.agent_metrics
              ≡ (with_collections (rows_of e host_id) sent w.tables).agent_metrics)
          × (w'.tables.disk_metrics
              ≡ (with_collections (rows_of e host_id) sent w.tables).disk_metrics)
          × (w'.tables.net_metrics
              ≡ (with_collections (rows_of e host_id) sent w.tables).net_metrics))
metrics_arrive ae e token host_id org_id sent a s unmarshal w filled answers ok k on back up empty =
    let new = map (published e host_id) sent in
    let (fine, there, kept) =
      served_messages ae e token host_id org_id filled answers ok sent a s k on in
    let (still, _, agents, disks, nets) =
      agent_worker_stores unmarshal (fetched new) w (fetched-IsSmooth new) up in
    let read = decoded-published e host_id unmarshal sent back in
    (
      new,
      fine,
      kept,
      there,
      (
        still,
        agents
            ∙ ap₂ (λ b ms. (w.tables.agent_metrics ++ map agent_row b) ++ map agent_row ms) empty
                read
            ∙ ap₂ ◌++◌ (append-nil w.tables.agent_metrics) (map_parts _ _ _ sent (λ m. refl)),
        disks
            ∙ ap₂ (λ b ms. (w.tables.disk_metrics ++ flat_map disk_rows b) ++ flat_map disk_rows ms)
                empty read
            ∙ ap₂ ◌++◌ (append-nil w.tables.disk_metrics) (disks_of e host_id sent),
        nets
            ∙ ap₂ (λ b ms. (w.tables.net_metrics ++ flat_map net_rows b) ++ flat_map net_rows ms)
                empty read
            ∙ ap₂ ◌++◌ (append-nil w.tables.net_metrics) (nets_of e host_id sent),
      ),
    )
