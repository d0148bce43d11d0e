-- ===== src/Loadtest/Tests.antt =====
-- The theorems on the load test at one agent that makes one call.
use bangmod_monitor.Prelude.{◌*◌, ◌+◌, ◌≤◌, true, ◌≡◌, refl, ◌⊎◌, List, [], ◌∷◌, length, arith}
use bangmod_monitor.Prelude.Int.{pos}
use bangmod_monitor.Loadtest.{
  Settings, calling, returned, Test, started, Label, deadline, call_started, call_sent,
  latency_added, agent_done, Step, expire, call, send, add, leave, Reach, here, next, all_returned,
  results,
}
use bangmod_monitor.Loadtest.Tally.{results_exact}
use bangmod_monitor.Loadtest.Ending.{calls, steps_left, wait_ends}

abbrev single : Settings
single = record {
  target = "localhost:9090";
  token = "t";
  agents = pos 1;
  duration = pos 30;
  interval = pos 5;
}

abbrev over : Test
over = record { agents = returned ∷ []; expired = true; sent = 1; errors = 0; total_latency = 7 }

abbrev trace : List Label
trace = agent_done ∷ latency_added ∷ deadline ∷ call_sent 7 ∷ call_started ∷ []

trace-Reach : Reach (started single) trace over
unfolding started
trace-Reach =
    next (next (next (next (next here (call 0 refl)) (send 0 7 refl)) (expire refl)) (add 0 7 refl))
      (leave 0 refl refl)

results_exact_example :
    results over ≡ record { sent = pos 1; errors = pos 0; average_latency = pos 7 }
results_exact_example =
    results_exact single trace over trace-Reach refl (omega arith) (omega arith) (omega arith)

-- At the deadline its next call is in flight.
abbrev in_flight : Test
in_flight = record {
  agents = calling ∷ [];
  expired = true;
  sent = 0;
  errors = 0;
  total_latency = 0;
}

abbrev finish : List Label
finish = agent_done ∷ latency_added ∷ call_sent 7 ∷ []

finishing-Reach : Reach in_flight finish over
finishing-Reach = next (next (next here (send 0 7 refl)) (add 0 7 refl)) (leave 0 refl refl)

wait_ends_example :
    (length finish + steps_left over.agents ≤ 3 * length in_flight.agents + 3 * calls finish)
    × ((all_returned over.agents ≡ true)
        ⊎ ((l : Label) × (v : Test) × Step over l v × (calls (l ∷ []) ≡ 0)))
wait_ends_example = wait_ends in_flight over finish finishing-Reach refl
