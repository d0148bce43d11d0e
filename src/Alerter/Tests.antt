-- ===== src/Alerter/Tests.antt =====
-- The alerter's theorems at a rule for one host and a rule for one site.
use bangmod_monitor.Prelude.{
  ℕ, String, Bool, true, false, none, some, List, [], ◌∷◌, ◌≡◌, refl, arith,
}
use bangmod_monitor.Prelude.Int.{pos}
use bangmod_monitor.Alerter.Store.{AlertRule, RuleRow, Details, is_down}
use bangmod_monitor.Alerter.Store.Open.{open_count}
use bangmod_monitor.Alerter.Metrics.{ProbeRow, Clickhouse}
use bangmod_monitor.Alerter.Notifier.Texts.{mail}
use bangmod_monitor.Alerter.Notifier.Mail.{read_mail, headers, wire, read_mail-mail}
use bangmod_monitor.Alerter.Notifier.{EmailConfig, Notifier, slack, new_notifier}
use bangmod_monitor.Alerter.Evaluator.{Env, State, alert_text, decided, judge, evaluate, run_ticks}
use bangmod_monitor.Alerter.Evaluator.Verdicts.{judge_probe_down}
use bangmod_monitor.Alerter.Evaluator.Incidents.{
  IsSound, IsServed, run_ticks-IsSound, evaluate_tracks,
}
use bangmod_monitor.Alerter.Evaluator.Messages.{evaluate_messages}

abbrev site_rule : AlertRule
site_rule = record {
  id = "r1";
  name = "site down";
  host_id = "";
  condition_type = "probe_down";
  threshold = 0;
  duration_sec = pos 60;
  target_url = "https://example.org";
  channel = "slack";
  channel_config = "{}";
}

abbrev probed : ℕ → ProbeRow
probed up = record {
  timestamp = 990;
  target_url = "https://example.org";
  response_ms = 5000;
  is_up = up;
}

abbrev tables : Clickhouse
tables = record {
  agent_metrics = [];
  probe_results = probed 0 ∷ probed 0 ∷ [];
  avg_float = λ xs. 0;
  avg_int = λ xs. 0;
}

abbrev env : Env
env = record {
  ch = tables;
  query_fails = false;
  db_fails = λ op. false;
  decoders = record {
    slack_config = λ s. some (record { webhook_url = "https://hooks.example.org" });
    discord_config = λ s. none;
    telegram_config = λ s. none;
    email_config = λ s. none;
  };
  network = record { post = λ url. some 200; smtp = λ a. [] };
  now = 1000;
  uuid = "i1";
}

abbrev hook : Notifier
hook = slack "https://hooks.example.org"

abbrev quiet : State
quiet = record { incidents = []; sent = [] }

abbrev both_down : Details
both_down = is_down "https://example.org" 2 2 (pos 60)

judge_probe_down_example : judge env site_rule ≡ decided true both_down
judge_probe_down_example = judge_probe_down env site_rule 60 refl refl refl refl

quiet-IsSound : IsSound quiet
quiet-IsSound = record { ids = tt; single = λ q. omega arith }

site-IsServed : IsServed env site_rule hook
unfolding new_notifier
site-IsServed = record { lookup = refl; creates = refl; resolves = refl; channel = refl }

evaluate_tracks_example : open_count "r1" (evaluate env site_rule quiet).0.incidents ≡ 1
evaluate_tracks_example =
    evaluate_tracks env site_rule true both_down hook quiet quiet-IsSound site-IsServed
      (judge_probe_down env site_rule 60 refl refl refl refl)

evaluate_messages_example :
    (evaluate env site_rule quiet).0.sent
    ≡ (record { to = hook; subject = "ALERT: site down"; body = alert_text both_down 1000 }) ∷ []
evaluate_messages_example =
    evaluate_messages env site_rule true both_down hook quiet quiet-IsSound site-IsServed
      (judge_probe_down env site_rule 60 refl refl refl refl)

abbrev site_row : RuleRow
site_row = record {
  id = "r1";
  name = "site down";
  host_id = none;
  condition_type = "probe_down";
  threshold = 0;
  duration_sec = pos 60;
  target_url = some "https://example.org";
  channel = "slack";
  channel_config = "{}";
  enabled = true;
}

abbrev ticks : List (Bool × (String → Env) × List RuleRow)
ticks = (false, (λ k. env), site_row ∷ []) ∷ (true, (λ k. env), []) ∷ []

run_ticks-IsSound_example : IsSound (run_ticks ticks quiet)
run_ticks-IsSound_example =
    run_ticks-IsSound ticks quiet ((λ k. refl), ((λ k. refl), tt)) quiet-IsSound

abbrev mailbox : EmailConfig
mailbox = record {
  smtp_host = "mail.example.org";
  smtp_port = "";
  username = "u";
  password = "p";
  from = "a@example.org";
  to = "b@example.org";
}

-- The name of the rule has a line break, and its second line is a header of the mail.
read_mail-mail_example :
    read_mail 9 (wire (mail mailbox "Mon" "ALERT: cpu\r\nBcc: c@example.org" "CPU 99%\n\nTime: 9"))
    ≡ (some
        (headers mailbox "Mon" "ALERT: cpu" ("Bcc: c@example.org" ∷ []), "CPU 99%\r\n\r\nTime: 9"))
read_mail-mail_example =
    read_mail-mail mailbox "Mon" "ALERT: cpu" "CPU 99%\n\nTime: 9" ("Bcc: c@example.org" ∷ []) 9
      refl refl refl refl ((refl, refl), tt) (omega arith)
