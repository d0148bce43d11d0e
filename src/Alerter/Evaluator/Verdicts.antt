-- ===== src/Alerter/Evaluator/Verdicts.antt =====
-- What the conditions of the rules decide, against the rows that the queries range over.
use bangmod_monitor.Prelude.{
  ℕ, ◌+◌, false, ◌&&◌, leb, filter, ap, ◌∙◌, ◌≡◌, refl, none, some, List, [], ◌∷◌, arith, str_eq,
  length, count, ◌==◌, if◌then◌else◌, ◌⊎◌, inl, inr,
}
use bangmod_monitor.Prelude.Text.{is_empty}
use bangmod_monitor.Prelude.Int.{pos}
use bangmod_monitor.Prelude.Float.{flt}
use bangmod_monitor.Alerter.Store.{AlertRule, is_down}
use bangmod_monitor.Alerter.Metrics.{
  of_target, of_host, ProbeRow, probe_stats, stats_of, avg_cpu, avg_memory,
}
use bangmod_monitor.Alerter.Metrics.Stats.{all_down, counts_agree}
use bangmod_monitor.Alerter.Evaluator.{
  Env, Verdict, decided, no_data, fails, unknown_condition_type, judge, check_probe, down_verdict,
  check_cpu, check_memory,
}

-- The verdict on the rows that probed a target.
abbrev down_by_rows : AlertRule → List ProbeRow → Verdict
down_by_rows r [] = no_data
down_by_rows r (x ∷ xs) =
    decided (all_down (x ∷ xs))
      (is_down r.target_url (count (λ p. p.is_up == 0) (x ∷ xs)) (length (x ∷ xs)) r.duration_sec)

down_verdict_rows :
    (r : AlertRule) (avg : List ℕ → ℕ) (rows : List ProbeRow)
    → down_verdict r (if length rows == 0 then none else some (stats_of avg rows))
      ≡ down_by_rows r rows
down_verdict_rows r avg [] = refl
down_verdict_rows r avg (x ∷ xs) = ground (arith, counts_agree (x ∷ xs))

-- A probe_down rule with a target, over a time of `d` seconds, whose query succeeds, has nothing to
-- say without a row of exactly this target that is no more than `d` seconds old, and else fires
-- exactly if every such row reports the target down; the details count these rows.
pub judge_probe_down :
    (e : Env) (r : AlertRule) (d : ℕ)
    → r.condition_type ≡ "probe_down"
    → is_empty r.target_url ≡ false
    → e.query_fails ≡ false
    → r.duration_sec ≡ pos d
    → judge e r
      ≡ down_by_rows r (
          filter
            (λ p. str_eq p.target_url r.target_url && leb e.now (p.timestamp + d))
            e.ch.probe_results)
unfolding judge check_probe probe_stats
judge_probe_down e r d c u q for =
    simp (c, u, q)
      (down_verdict_rows r e.ch.avg_int
          (of_target r.target_url e.now r.duration_sec e.ch.probe_results)
        ∙ ap (λ t. down_by_rows r (of_target r.target_url e.now t e.ch.probe_results)) for)

-- Without a recent row of its host, a cpu_high or memory_high rule whose query succeeds neither
-- fires nor resolves.
judge_no_rows :
    (e : Env) (r : AlertRule)
    → (r.condition_type ≡ "cpu_high") ⊎ (r.condition_type ≡ "memory_high")
    → is_empty r.host_id ≡ false
    → e.query_fails ≡ false
    → of_host r.host_id e.now r.duration_sec e.ch.agent_metrics ≡ []
    → judge e r ≡ no_data
unfolding judge check_cpu check_memory avg_cpu avg_memory flt
judge_no_rows e r (inl c) h q n = simp (c, h, q, n)
judge_no_rows e r (inr c) h q n = simp (c, h, q, n)

-- A rule whose condition is none of the four is an error in every environment.
judge_unknown :
    (e : Env) (r : AlertRule)
    → str_eq r.condition_type "cpu_high" ≡ false
    → str_eq r.condition_type "memory_high" ≡ false
    → str_eq r.condition_type "probe_down" ≡ false
    → str_eq r.condition_type "probe_slow" ≡ false
    → judge e r ≡ fails unknown_condition_type
unfolding judge
judge_unknown e r a b c d = rw (a, b, c, d) refl
