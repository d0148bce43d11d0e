-- ===== src/Alerter/Process.antt =====
-- alerter/main.go: the start of the alert engine, and its ticks.
use bangmod_monitor.Prelude.{String, Bool, not, Option, none, some, List, if◌then◌else◌}
use bangmod_monitor.Prelude.Environ.{ticker_starts}
use bangmod_monitor.Alerter.Config.{Config}
use bangmod_monitor.Alerter.Store.{RuleRow}
use bangmod_monitor.Alerter.Evaluator.{Env, State, run_ticks}

-- How the calls of the start end.
pub record Boot : Type 0 where
  pub opens_maria : Bool
  pub migrates_maria : Bool
  pub opens_clickhouse : Bool

-- main, with what happens at its ticks: `none` is one of its calls of log.Fatalf, or
-- the panic of NewTicker where the interval overflows.
unfoldable live : Config → Boot → List (Bool × (String → Env) × List RuleRow) → State → Option State
live cfg b ticks s =
    if not b.opens_maria
    then none
    else if not b.migrates_maria
    then none
    else if not b.opens_clickhouse
    then none
    else if not (ticker_starts cfg.eval_interval)
    then none
    else some (run_ticks ticks s)
