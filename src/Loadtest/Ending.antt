-- ===== src/Loadtest/Ending.antt =====
-- Main does not wait for ever: after the deadline the agents run out of steps.
use bangmod_monitor.Prelude.{
  ℕ, zero, suc, ◌+◌, ◌*◌, ◌≤◌, true, false, ◌≡◌, refl, ap, ◌⊎◌, inl, inr, some, List, [], ◌∷◌,
  length, arith,
}
use bangmod_monitor.Loadtest.{
  Agent, selecting, calling, adding, returned, Test, agent_at, set_agent, Label, deadline,
  call_started, call_failed, call_sent, latency_added, agent_done, Step, expire, call, fail, send,
  add, leave, Reach, here, next, all_returned,
}

-- The calls that are started in a run
abbrev pub calls : List Label → ℕ
calls [] = 0
calls (call_started ∷ ls) = suc (calls ls)
calls (deadline ∷ ls) = calls ls
calls (call_failed ∷ ls) = calls ls
calls (call_sent n ∷ ls) = calls ls
calls (latency_added ∷ ls) = calls ls
calls (agent_done ∷ ls) = calls ls

-- The steps that an agent has left, at the most, if it starts no further call
abbrev steps_of : Agent → ℕ
steps_of selecting = 1
steps_of calling = 3
steps_of (adding n) = 2
steps_of returned = 0

abbrev pub steps_left : List Agent → ℕ
steps_left [] = 0
steps_left (a ∷ l) = steps_of a + steps_left l

steps_left-le : (l : List Agent) → steps_left l ≤ 3 * length l
steps_left-le [] = omega arith
steps_left-le (selecting ∷ l) = omega (arith, steps_left-le l)
steps_left-le (calling ∷ l) = omega (arith, steps_left-le l)
steps_left-le (adding n ∷ l) = omega (arith, steps_left-le l)
steps_left-le (returned ∷ l) = omega (arith, steps_left-le l)

steps_left-set_agent :
    (i : ℕ) (a b : Agent) (l : List Agent)
    → agent_at i l ≡ some a
    → steps_left (set_agent i b l) + steps_of a ≡ steps_left l + steps_of b
steps_left-set_agent i a b [] h = cc
steps_left-set_agent zero a b (c ∷ l) h = let same : c ≡ a = cc in omega (arith, ap steps_of same)
steps_left-set_agent (suc i) a b (c ∷ l) h = omega (arith, steps_left-set_agent i a b l h)

-- Each step after the deadline leaves one step fewer at least, but the start of a call, which adds
-- two more.
Step-steps_left :
    {t u : Test} {l : Label} (ls : List Label)
    → Step t l u
    → t.expired ≡ true
    → (u.expired ≡ true)
      × (steps_left u.agents + 1 + 3 * calls ls ≤ steps_left t.agents + 3 * calls (l ∷ ls))
Step-steps_left {t} ls (expire e) x = cc
Step-steps_left {t} ls (call i e) x =
    (x, omega (arith, steps_left-set_agent i selecting calling t.agents e))
Step-steps_left {t} ls (fail i e) x =
    (x, omega (arith, steps_left-set_agent i calling selecting t.agents e))
Step-steps_left {t} ls (send i n e) x =
    (x, omega (arith, steps_left-set_agent i calling (adding n) t.agents e))
Step-steps_left {t} ls (add i n e) x =
    (x, omega (arith, steps_left-set_agent i (adding n) selecting t.agents e))
Step-steps_left {t} ls (leave i e y) x =
    (x, omega (arith, steps_left-set_agent i selecting returned t.agents e))

Reach-steps_left :
    {t u : Test} {ls : List Label}
    → Reach t ls u
    → t.expired ≡ true
    → (u.expired ≡ true) × (length ls + steps_left u.agents ≤ steps_left t.agents + 3 * calls ls)
Reach-steps_left here x = (x, omega arith)
Reach-steps_left {ls = l ∷ ls} (next r s) x =
    let (y, left) = Reach-steps_left r x in
    let (z, fewer) = Step-steps_left ls s y in (z, omega (arith, left, fewer))

-- Which agent can go on
can_go :
    (l : List Agent)
    → (all_returned l ≡ true)
      ⊎ ((i : ℕ) × (a : Agent) × (agent_at i l ≡ some a) × (all_returned (a ∷ []) ≡ false))
can_go [] = inl refl
can_go (returned ∷ l) = elim (can_go l) [
  | inl over ↦ inl over
  | inr (i, a, at, on) ↦ inr (suc i, a, at, on)
]
can_go (selecting ∷ l) = inr (0, selecting, refl, refl)
can_go (calling ∷ l) = inr (0, calling, refl, refl)
can_go (adding n ∷ l) = inr (0, adding n, refl, refl)

-- A step of that agent which starts no call
step_of :
    (t : Test) (i : ℕ) (a : Agent)
    → t.expired ≡ true
    → agent_at i t.agents ≡ some a
    → all_returned (a ∷ []) ≡ false
    → (l : Label) × (u : Test) × Step t l u × (calls (l ∷ []) ≡ 0)
step_of t i selecting x at on = (agent_done, _, leave i at x, refl)
step_of t i calling x at on = (call_failed, _, fail i at, refl)
step_of t i (adding n) x at on = (latency_added, _, add i n at, refl)
step_of t i returned x at on = cc

-- What keeps main at its Wait after the deadline is only what the agents start anew. Any run after
-- the deadline, calls in flight and calls that a `select` still starts included, has at most three
-- steps for each agent and three for each call that is started in it; and at each of its states
-- either all agents have returned, so that Wait returns, or an agent can go on without starting a
-- call. A run that starts no further call from some point on thus ends, and then all have returned.
pub wait_ends :
    (t u : Test) (ls : List Label)
    → Reach t ls u
    → t.expired ≡ true
    → (length ls + steps_left u.agents ≤ 3 * length t.agents + 3 * calls ls)
      × ((all_returned u.agents ≡ true)
          ⊎ ((l : Label) × (v : Test) × Step u l v × (calls (l ∷ []) ≡ 0)))
wait_ends t u ls r x =
    let (y, left) = Reach-steps_left r x in
    (
      omega (arith, left, steps_left-le t.agents),
      elim (can_go u.agents) [
        | inl over ↦ inl over
        | inr (i, a, at, on) ↦ inr (step_of u i a y at on)
      ],
    )
