-- ===== src/Settings.antt =====
-- The settings that several programs read: the lists between commas, read by splitCSV of
-- api/config/config.go and consumer/config/config.go and by loadEnvList of probe/main.go, and the
-- intervals of the agent, the alerter and the probe node.
mod Tests
use bangmod_monitor.Prelude.{
  ℕ, ◌*◌, ◌≤◌, String, Bool, true, false, List, ◌≡◌, ap, [], ◌∷◌, ◌∙◌, All, arith,
}
use bangmod_monitor.Prelude.Int.{pos}
use bangmod_monitor.Prelude.Text.{join}
use bangmod_monitor.Prelude.Environ.{
  Environ, period, ticker_starts, interval-pos, ticker_starts_small, ticker_starts_wrapped, IsItem,
  list_of, list_of-join, list_of_or_none,
}
use bangmod_monitor.Agent.Config as AgentConfig
use bangmod_monitor.Agent.Config.{System}
use bangmod_monitor.Alerter.Config as AlerterConfig
use bangmod_monitor.Api.Config as ApiConfig
use bangmod_monitor.Consumer.Config as ConsumerConfig
use bangmod_monitor.Probe
use bangmod_monitor.Probe.{load_env_list}
use bangmod_monitor.Probe.Targets.{load_env_list-join}

-- A list between commas is read the same by the API server, the consumer and the probe node: they
-- read back the items that were joined, if none is empty, has a comma or has white space at an
-- end.
lists_agree :
    (env : Environ) (key : String) (xs : List String)
    → env key ≡ join "," xs
    → All IsItem xs
    → (ApiConfig.split_csv (env key) ≡ xs)
      × (ConsumerConfig.split_csv (env key) ≡ xs)
      × (load_env_list env key ≡ xs)
unfolding ApiConfig.split_csv ConsumerConfig.split_csv
lists_agree env key xs at h = (
  list_of_or_none (env key) ∙ ap list_of at ∙ list_of-join xs h,
  ap list_of at ∙ list_of-join xs h,
  load_env_list-join env key xs at h,
)

-- The intervals that the agent, the alerter and the probe node load, in this order
abbrev pub intervals : System → Environ → List ℕ
intervals sys env =
    (AgentConfig.load sys env).interval
    ∷ (AlerterConfig.load env).eval_interval
    ∷ (Probe.load env).interval
    ∷ []

-- The ticker of a program with the interval `n`: `n` seconds long where they fit 64 bits as
-- nanoseconds, and a panic where the product wraps to a negative number.
pub record Ticks (n : ℕ) : Type 0 where
  pub is_pos : 1 ≤ n
  pub runs : n ≤ 9223372036 → (period n ≡ pos (n * 1000000000)) × (ticker_starts n ≡ true)
  pub wraps : 9223372037 ≤ n → n ≤ 18446744073 → ticker_starts n ≡ false

ticks : (n : ℕ) → 1 ≤ n → Ticks n
ticks n h = record { is_pos = h; runs = ticker_starts_small n h; wraps = ticker_starts_wrapped n }

-- Whatever the environment says, each of the three programs has an interval of a second at least.
-- Up to 9223372036 seconds its ticker starts with this period; from 9223372037 to 18446744073
-- seconds the product with a second overflows to a negative duration, and the program panics.
pub intervals_tick : (sys : System) (env : Environ) → All Ticks (intervals sys env)
unfolding AgentConfig.load AlerterConfig.load Probe.load
intervals_tick sys env = (
  ticks _ (interval-pos env "AGENT_INTERVAL" 30 (omega arith)),
  (
    ticks _ (interval-pos env "EVAL_INTERVAL" 60 (omega arith)),
    (ticks _ (interval-pos env "PROBE_INTERVAL" 60 (omega arith)), tt),
  ),
)
