-- ===== src/Alerter/Evaluator/Incidents.antt =====
-- What the evaluation of the rules does to the incidents and the messages.
use bangmod_monitor.Prelude.{
  ◌≤◌, String, Bool, true, false, not, ◌&&◌, ◌≡◌, Option, none, some, List, [], ◌∷◌, arith, eq_iff,
  eq_refl, if◌then◌else◌, All, if_both, Bool-cases, inl, inr,
}
use bangmod_monitor.Prelude.Text.{is_empty}
use bangmod_monitor.Alerter.Store.{
  AlertRule, RuleRow, Details, Incident, create_incident, open_incident, resolve_incident,
  find_open, insert_incident, resolve, enabled_rules,
}
use bangmod_monitor.Alerter.Store.Open.{
  open_count, HaveIds, open_count-insert, open_count-resolve, open_count-resolve_found,
  find_open-empty, find_open-some, HaveIds-insert, HaveIds-resolve,
}
use bangmod_monitor.Alerter.Notifier.{Notifier, new_notifier}
use bangmod_monitor.Alerter.Evaluator.{
  Env, State, Verdict, decided, fails, no_data, judge, with_notifier, handle_state, send, act,
  evaluate, run_rules, run, run_ticks,
}

-- Every incident has an id, and no rule has two open incidents.
pub record IsSound (s : State) : Type 0 where
  pub ids : HaveIds s.incidents
  pub single : (q : String) → open_count q s.incidents ≤ 1

branches-ids :
    (opens kept closes left : Bool) (a b c : List Incident)
    → HaveIds a
    → HaveIds b
    → HaveIds c
    → HaveIds
        (if opens then (if kept then a else b) else if closes then (if left then a else c) else a)
branches-ids true true closes left a b c p q r = p
branches-ids true false closes left a b c p q r = q
branches-ids false kept true true a b c p q r = p
branches-ids false kept true false a b c p q r = r
branches-ids false kept false left a b c p q r = p

module _ (e : Env) (r : AlertRule) (firing : Bool) (d : Details) where
  with_notifier-single :
      (n : Option Notifier) (s : State) (q : String)
      → HaveIds s.incidents
      → open_count q s.incidents ≤ 1
      → open_count q (with_notifier e r firing d (find_open r.id s.incidents) n s).0.incidents ≤ 1
  unfolding send
  with_notifier-single none s q ids h = h
  with_notifier-single (some n) s q ids h = ground (
    arith,
    h,
    open_count-insert e.uuid r.id e.now d s.incidents q,
    open_count-resolve (find_open r.id s.incidents) e.now s.incidents q,
    find_open-empty r.id s.incidents ids,
    eq_iff r.id q,
  )

  with_notifier_incidents :
      (n : Notifier) (s : State)
      → (with_notifier e r firing d (find_open r.id s.incidents) (some n) s).0.incidents ≡ (
          if firing && is_empty (find_open r.id s.incidents)
          then (if e.db_fails create_incident
              then s.incidents
              else insert_incident e.uuid r.id e.now d s.incidents)
          else if not firing && not (is_empty (find_open r.id s.incidents))
          then (if e.db_fails resolve_incident
              then s.incidents
              else resolve (find_open r.id s.incidents) e.now s.incidents)
          else s.incidents)
  unfolding send
  with_notifier_incidents n s = ground arith

  with_notifier-ids :
      (n : Option Notifier) (s : State)
      → is_empty e.uuid ≡ false
      → HaveIds s.incidents
      → HaveIds (with_notifier e r firing d (find_open r.id s.incidents) n s).0.incidents
  with_notifier-ids none s u ids = ids
  with_notifier-ids (some n) s u ids = rw (with_notifier_incidents n s) (
      branches-ids (firing && is_empty (find_open r.id s.incidents)) (e.db_fails create_incident)
        (not firing && not (is_empty (find_open r.id s.incidents))) (e.db_fails resolve_incident)
        s.incidents (insert_incident e.uuid r.id e.now d s.incidents)
        (resolve (find_open r.id s.incidents) e.now s.incidents) ids
        (HaveIds-insert e.uuid r.id e.now d s.incidents u ids)
        (HaveIds-resolve (find_open r.id s.incidents) e.now s.incidents ids))

  handle_state-IsSound :
      (s : State) → is_empty e.uuid ≡ false → IsSound s → IsSound (handle_state e r firing d s).0
  unfolding handle_state
  handle_state-IsSound s u h = elim (Bool-cases (e.db_fails open_incident)) [
    | inl broken ↦ rw broken h
    | inr fine ↦ rw fine (record {
      ids = with_notifier-ids (new_notifier e.decoders r.channel r.channel_config) s u h.ids;
      single = λ q.
          with_notifier-single (new_notifier e.decoders r.channel r.channel_config) s q h.ids
            (h.single q);
    })
  ]

act-IsSound :
    (e : Env) (r : AlertRule) (v : Verdict) (s : State)
    → is_empty e.uuid ≡ false
    → IsSound s
    → IsSound (act e r v s).0
act-IsSound e r (fails x) s u h = h
act-IsSound e r no_data s u h = h
act-IsSound e r (decided firing d) s u h = handle_state-IsSound e r firing d s u h

run_rules-IsSound :
    (env : String → Env) (rs : List AlertRule) (s : State)
    → ((k : String) → is_empty (env k).uuid ≡ false)
    → IsSound s
    → IsSound (run_rules env rs s)
unfolding run_rules evaluate
run_rules-IsSound env [] s u h = h
run_rules-IsSound env (r ∷ rs) s u h =
    run_rules-IsSound env rs (evaluate (env r.id) r s).0 u
      (act-IsSound (env r.id) r (judge (env r.id) r) s (u r.id) h)

-- A tick whose new ids are not empty.
abbrev HasFreshIds : Bool × (String → Env) × List RuleRow → Type 0
HasFreshIds t = (k : String) → is_empty (t.1 k).uuid ≡ false

-- Whatever fails and whatever the conditions are, over any number of ticks no rule ever has two
-- open incidents, if none has at the start and generated ids are not empty.
pub run_ticks-IsSound :
    (ticks : List (Bool × (String → Env) × List RuleRow)) (s : State)
    → All HasFreshIds ticks
    → IsSound s
    → IsSound (run_ticks ticks s)
unfolding run_ticks run
run_ticks-IsSound [] s u h = h
run_ticks-IsSound ((fetch_fails, env, rows) ∷ ticks) s (u, us) h =
    run_ticks-IsSound ticks (run fetch_fails env rows s) us
      (if_both IsSound fetch_fails h (run_rules-IsSound env (enabled_rules rows) s u h))

-- Every call that the evaluation of the rule makes succeeds, but perhaps the send.
pub record IsServed (e : Env) (r : AlertRule) (n : Notifier) : Type 0 where
  pub lookup : e.db_fails open_incident ≡ false
  pub creates : e.db_fails create_incident ≡ false
  pub resolves : e.db_fails resolve_incident ≡ false
  pub channel : new_notifier e.decoders r.channel r.channel_config ≡ some n

-- Where every incident has an id and no rule has two open ones: after an evaluation that decides and meets no error, the rule has exactly one open incident
-- if its condition fires, and none if it does not.
pub evaluate_tracks :
    (e : Env) (r : AlertRule) (firing : Bool) (d : Details) (n : Notifier) (s : State)
    → IsSound s
    → IsServed e r n
    → judge e r ≡ decided firing d
    → open_count r.id (evaluate e r s).0.incidents ≡ (if firing then 1 else 0)
unfolding evaluate handle_state
evaluate_tracks e r firing d n s h v j =
    rw (j, v.lookup, v.channel)
      (rw (with_notifier_incidents e r firing d n s, v.creates, v.resolves)
        (ground (
          arith,
          h.single r.id,
          eq_refl r.id,
          open_count-insert e.uuid r.id e.now d s.incidents r.id,
          open_count-resolve_found r.id e.now s.incidents,
          find_open-empty r.id s.incidents h.ids,
          find_open-some r.id s.incidents,
        )))

-- While a rule that fires has an open incident, its evaluation changes nothing and sends nothing,
-- whether or not the message of that incident was ever delivered.
evaluate_silent :
    (e : Env) (r : AlertRule) (d : Details) (s : State)
    → judge e r ≡ decided true d
    → is_empty (find_open r.id s.incidents) ≡ false
    → (evaluate e r s).0 ≡ s
unfolding evaluate handle_state
evaluate_silent e r d s j o = rw j (ground (arith, o))
