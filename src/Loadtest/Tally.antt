-- ===== src/Loadtest/Tally.antt =====
-- The counters say what happened, in whatever order the agents went.
use bangmod_monitor.Prelude.{
  ℕ, zero, suc, ◌+◌, ◌/◌, ◌%◌, ◌^◌, ◌<◌, true, ◌≡◌, refl, ap, some, List, [], ◌∷◌, ltb,
  if◌then◌else◌, arith,
}
use bangmod_monitor.Prelude.Int.{pos}
use bangmod_monitor.Loadtest.{
  Agent, selecting, calling, adding, returned, Test, agent_at, set_agent, Settings, started, Label,
  deadline, call_started, call_failed, call_sent, latency_added, agent_done, Step, expire, call,
  fail, send, add, leave, Reach, here, next, all_returned, results, replicate, count_of,
}

abbrev sends : List Label → ℕ
sends [] = 0
sends (call_sent n ∷ ls) = suc (sends ls)
sends (deadline ∷ ls) = sends ls
sends (call_started ∷ ls) = sends ls
sends (call_failed ∷ ls) = sends ls
sends (latency_added ∷ ls) = sends ls
sends (agent_done ∷ ls) = sends ls

abbrev failures : List Label → ℕ
failures [] = 0
failures (call_failed ∷ ls) = suc (failures ls)
failures (deadline ∷ ls) = failures ls
failures (call_started ∷ ls) = failures ls
failures (call_sent n ∷ ls) = failures ls
failures (latency_added ∷ ls) = failures ls
failures (agent_done ∷ ls) = failures ls

abbrev latencies : List Label → ℕ
latencies [] = 0
latencies (call_sent n ∷ ls) = n + latencies ls
latencies (deadline ∷ ls) = latencies ls
latencies (call_started ∷ ls) = latencies ls
latencies (call_failed ∷ ls) = latencies ls
latencies (latency_added ∷ ls) = latencies ls
latencies (agent_done ∷ ls) = latencies ls

-- The latencies that are counted as sent and not added yet
abbrev waiting_of : Agent → ℕ
waiting_of selecting = 0
waiting_of calling = 0
waiting_of (adding n) = n
waiting_of returned = 0

abbrev waiting : List Agent → ℕ
waiting [] = 0
waiting (a ∷ l) = waiting_of a + waiting l

waiting-set_agent :
    (i : ℕ) (a b : Agent) (l : List Agent)
    → agent_at i l ≡ some a
    → waiting (set_agent i b l) + waiting_of a ≡ waiting l + waiting_of b
waiting-set_agent i a b [] h = cc
waiting-set_agent zero a b (c ∷ l) h = let same : c ≡ a = cc in omega (arith, ap waiting_of same)
waiting-set_agent (suc i) a b (c ∷ l) h = omega (arith, waiting-set_agent i a b l h)

record Tallies (ls : List Label) (t : Test) : Type 0 where
  sent : t.sent ≡ sends ls % 2 ^ 64
  errors : t.errors ≡ failures ls % 2 ^ 64
  total : (t.total_latency + waiting t.agents) % 2 ^ 64 ≡ latencies ls % 2 ^ 64
  small : t.total_latency < 2 ^ 64

Step-Tallies :
    {t u : Test} {l : Label} {ls : List Label} → Step t l u → Tallies ls t → Tallies (l ∷ ls) u
Step-Tallies {t} (expire e) h = omega arith
Step-Tallies {t} (call i e) h = omega (arith, waiting-set_agent i selecting calling t.agents e)
Step-Tallies {t} (fail i e) h = omega (arith, waiting-set_agent i calling selecting t.agents e)
Step-Tallies {t} (send i n e) h = omega (arith, waiting-set_agent i calling (adding n) t.agents e)
Step-Tallies {t} (add i n e) h = omega (arith, waiting-set_agent i (adding n) selecting t.agents e)
Step-Tallies {t} (leave i e x) h = omega (arith, waiting-set_agent i selecting returned t.agents e)

waiting-replicate : (n : ℕ) → waiting (replicate n) ≡ 0
waiting-replicate zero = refl
waiting-replicate (suc n) = omega (arith, waiting-replicate n)

started-Tallies : (c : Settings) → Tallies [] (started c)
unfolding started
started-Tallies c = omega (arith, waiting-replicate (count_of c.agents))

Reach-Tallies : (c : Settings) {ls : List Label} {t : Test} → Reach (started c) ls t → Tallies ls t
Reach-Tallies c here = started-Tallies c
Reach-Tallies c (next r s) = Step-Tallies s (Reach-Tallies c r)

waiting-all_returned : (l : List Agent) → all_returned l ≡ true → waiting l ≡ 0
waiting-all_returned [] h = refl
waiting-all_returned (selecting ∷ l) h = cc
waiting-all_returned (calling ∷ l) h = cc
waiting-all_returned (adding n ∷ l) h = cc
waiting-all_returned (returned ∷ l) h = omega (arith, waiting-all_returned l h)

-- The results say what happened. Once all agents have returned, in whatever order their operations
-- went, what main prints is the number of calls that succeeded, the number of those that failed,
-- and the mean of the latencies of the former in whole milliseconds, or 0 without one, where the
-- counts and the sum of the latencies fit an int64.
pub results_exact :
    (c : Settings) (ls : List Label) (t : Test)
    → Reach (started c) ls t
    → all_returned t.agents ≡ true
    → sends ls < 2 ^ 63
    → failures ls < 2 ^ 63
    → latencies ls < 2 ^ 63
    → results t ≡ record {
      sent = pos (sends ls);
      errors = pos (failures ls);
      average_latency = pos (if ltb 0 (sends ls) then latencies ls / sends ls else 0);
    }
unfolding results
results_exact c ls t r over p q w =
    let h = Reach-Tallies c r in
    let none_waits = waiting-all_returned t.agents over in
    let sent : t.sent ≡ sends ls = omega (arith, h.sent) in
    let errors : t.errors ≡ failures ls = omega (arith, h.errors) in
    let total : t.total_latency ≡ latencies ls = omega (arith, h.total, h.small, none_waits) in
    rw (sent, errors, total) (ground arith)
