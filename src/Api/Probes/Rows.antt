-- ===== src/Api/Probes/Rows.antt =====
-- The rows that a request of a probe node leaves, where nothing fails.
use bangmod_monitor.Prelude.{
  ℕ, suc, String, false, some, List, [], ◌∷◌, ◌++◌, ◌≡◌, refl, sym, ap, ◌∙◌, map, length,
  if◌then◌else◌, append-nil, append_assoc,
}
use bangmod_monitor.Prelude.Int.{ℤ, to_uint}
use bangmod_monitor.Prelude.Text.{is_empty}
use bangmod_monitor.Api.Http.{answer}
use bangmod_monitor.Mq
use bangmod_monitor.Clickhouse.{ProbeRow, insert_probe_result}
use bangmod_monitor.Api.Probes.{
  Env, State, ProbeResult, result_message, message_row, to_broker, to_table, store_results, ingest,
  wrong_secret,
}

abbrev pub result_row : ℤ → String → ProbeResult → ProbeRow
result_row now region r = record {
  timestamp = now;
  host_id = "probe";
  target_url = r.url;
  region = region;
  status_code = to_uint 16 r.status_code;
  response_ms = to_uint 32 r.response_ms;
  is_up = if r.is_up then 1 else 0;
}

abbrev pub with_rows : State → List ProbeRow → State
with_rows s rows = record s {
  tables = record s.tables { probe_results = s.tables.probe_results ++ rows };
}

store_results-rows :
    (e : Env) (n : ℕ) (region : String) (rs : List ProbeResult) (s : State)
    → s.producer.enabled ≡ false
    → ((k : ℕ) → e.insert_fails k ≡ false)
    → store_results e n region rs s ≡ with_rows s (map (result_row e.now region) rs)
unfolding store_results
store_results-rows e n region [] s off ok =
    ap (λ rows. record s { tables = record s.tables { probe_results = rows } })
      (sym (append-nil s.tables.probe_results))
store_results-rows e n region (r ∷ rs) s off ok =
    let msg = result_message e.now region r in
    ap
      (λ b.
        store_results e (suc n) region rs (if b then to_broker e n msg s else to_table e n msg s))
      off
    ∙ ap (λ t. store_results e (suc n) region rs (record s { tables = t })) (insert-row msg)
    ∙ store_results-rows e (suc n) region rs (with_rows s (result_row e.now region r ∷ [])) off ok
    ∙ ap (λ rows. record s { tables = record s.tables { probe_results = rows } })
        (append_assoc s.tables.probe_results (result_row e.now region r ∷ [])
          (map (result_row e.now region) rs))
  where
    insert-row :
        (msg : Mq.ProbeResultMsg)
        → (to_table e n msg s).tables
          ≡ record s.tables { probe_results = s.tables.probe_results ++ message_row msg ∷ [] }
    insert-row msg = unfold insert_probe_result in rw (ok n) refl

-- With the producer disabled and no insert failing, the rows of the results stand behind those
-- that were there, and nothing else changes.
pub ingest-rows :
    (e : Env) (secret region : String) (rs : List ProbeResult) (s : State)
    → wrong_secret e secret ≡ false
    → is_empty region ≡ false
    → s.producer.enabled ≡ false
    → ((k : ℕ) → e.insert_fails k ≡ false)
    → ingest e secret (some (record { region = region; results = some rs })) s
      ≡ (answer 200 (length rs), with_rows s (map (result_row e.now region) rs))
unfolding ingest
ingest-rows e secret region rs s right named off ok =
    rw (right, named)
      (ap (λ s'. (answer 200 (length rs), s')) (store_results-rows e 0 region rs s off ok))
