-- ===== src/Alerter/Evaluator/Messages.antt =====
-- Which messages the evaluation of a rule sends.
use bangmod_monitor.Prelude.{
  ℕ, Bool, true, false, not, ◌&&◌, ◌==◌, ◌≡◌, refl, Option, none, some, List, [], ◌∷◌, ◌++◌, arith,
  append-nil, if◌then◌else◌, ltb,
}
use bangmod_monitor.Prelude.Text.{is_empty, concat}
use bangmod_monitor.Alerter.Store.{AlertRule, Details}
use bangmod_monitor.Alerter.Store.Open.{open_count, find_open-empty, find_open-some}
use bangmod_monitor.Alerter.Notifier.{
  Network, Notifier, slack, discord, telegram, email, delivers, is_delivered, all_succeed,
  join_host_port,
}
use bangmod_monitor.Alerter.Evaluator.{
  Env, State, Message, alert_text, back_to_normal, decided, judge, handle_state, send, evaluate,
}
use bangmod_monitor.Alerter.Evaluator.Incidents.{IsSound, IsServed}

-- The service answers with a status below 300.
abbrev is_success : Option ℕ → Bool
is_success none = false
is_success (some code) = ltb code 300

abbrev no_failure : List Bool → Bool
no_failure [] = true
no_failure (true ∷ steps) = no_failure steps
no_failure (false ∷ steps) = false

-- Whether the channel takes a message: the three services by the status of the POST to their
-- address, a mail where no step of the session with the server fails, at port 587 without another.
abbrev takes : Network → Notifier → Bool
takes net (slack url) = is_success (net.post url)
takes net (discord url) = is_success (net.post url)
takes net (telegram token chat) =
    is_success (net.post (concat "https://api.telegram.org/bot" (concat token "/sendMessage")))
takes net (email c) =
    no_failure
      (net.smtp (join_host_port c.smtp_host (if is_empty c.smtp_port then "587" else c.smtp_port)))

is_success-eq : (o : Option ℕ) → is_delivered o ≡ is_success o
is_success-eq none = refl
is_success-eq (some code) = ground arith

no_failure-eq : (bs : List Bool) → all_succeed bs ≡ no_failure bs
no_failure-eq [] = refl
no_failure-eq (true ∷ bs) = no_failure-eq bs
no_failure-eq (false ∷ bs) = refl

delivers-takes : (net : Network) (n : Notifier) → delivers net n ≡ takes net n
unfolding delivers
delivers-takes net (slack url) = is_success-eq (net.post url)
delivers-takes net (discord url) = is_success-eq (net.post url)
delivers-takes net (telegram token chat) = is_success-eq (net.post _)
delivers-takes net (email c) = no_failure-eq (net.smtp _)

-- The messages that are due: one alert where the rule fires without an open incident, and one notice
-- where it does not fire and has one.
abbrev due : Env → AlertRule → Bool → Details → Notifier → ℕ → List Message
due e r firing d n k =
    if firing && (k == 0)
    then (record { to = n; subject = concat "ALERT: " r.name; body = alert_text d e.now }) ∷ []
    else if not firing && not (k == 0)
    then (record { to = n; subject = concat "RESOLVED: " r.name; body = back_to_normal e.now }) ∷ []
    else []

-- Where every incident has an id and no rule has two open ones, an evaluation that decides and meets
-- no error sends, over the rule's channel and behind what was sent before: one alert, if the rule
-- fires and has no open incident; one notice, if it does not fire and has one; and nothing else. A
-- service gets it where it answers with a status below 300, a mail server where no step fails, and
-- else nothing is sent.
pub evaluate_messages :
    (e : Env) (r : AlertRule) (firing : Bool) (d : Details) (n : Notifier) (s : State)
    → IsSound s
    → IsServed e r n
    → judge e r ≡ decided firing d
    → (evaluate e r s).0.sent
      ≡ s.sent
        ++ (if takes e.network n then due e r firing d n (open_count r.id s.incidents) else [])
unfolding evaluate handle_state send
evaluate_messages e r firing d n s h v j =
    rw (j, v.lookup, v.channel, v.creates, v.resolves, ← delivers-takes e.network n)
      (ground (
        arith,
        append-nil s.sent,
        find_open-empty r.id s.incidents h.ids,
        find_open-some r.id s.incidents,
      ))
