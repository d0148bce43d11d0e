-- ===== src/Settings/Tests.antt =====
-- The theorems on settings at one environment.
use bangmod_monitor.Prelude.{str_eq, All, if◌then◌else◌}
use bangmod_monitor.Prelude.Environ.{Environ}
use bangmod_monitor.Agent.Config.{System}
use bangmod_monitor.Settings.{intervals, Ticks, intervals_tick}

abbrev env : Environ
env key =
    if str_eq key "BROKERS"
    then "a:9092,b:9092"
    else if str_eq key "AGENT_INTERVAL"
    then "9300000000"
    else ""

abbrev sys : System
sys = record { goos = "linux"; temp_dir = "/tmp"; home_dir = "/root"; join_path = λ a b. a }

intervals_tick_example : All Ticks (intervals sys env)
intervals_tick_example = intervals_tick sys env
