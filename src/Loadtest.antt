-- ===== src/Loadtest.antt =====
-- loadtest/main.go: agents that push metrics side by side until a deadline, the counters that they
-- share, and the results that main prints once all of them have returned. The order of the atomic
-- operations is any; random numbers, clocks and floats are arguments.
pub mod Tally
pub mod Ending
mod Tests
use bangmod_monitor.Prelude.{
  ℕ, zero, suc, ◌+◌, ◌-◌, ◌*◌, ◌/◌, ◌%◌, ◌^◌, String, Bool, true, false, not, ◌||◌, ◌≡◌, Option,
  none, some, List, [], ◌∷◌, ltb, if◌then◌else◌,
}
use bangmod_monitor.Prelude.Int.{ℤ, pos, negsuc, to_int, is_positive, atoi}
use bangmod_monitor.Prelude.Float.{Float64}
use bangmod_monitor.Prelude.Text.{concat}
use bangmod_monitor.Prelude.Decimal.{itoa}
use bangmod_monitor.Prelude.Environ.{Environ, get_env}
use bangmod_monitor.Proto

pub record Settings : Type 0 where
  pub target : String
  pub token : String
  pub agents : ℤ
  pub duration : ℤ
  pub interval : ℤ

-- Atoi, whose error is dropped; what it returns beside an error is an argument.
abbrev number : (String → ℤ) → String → ℤ
number beside_error s = elim (atoi s) [ some n ↦ n | none ↦ beside_error s ]

unfoldable settings : (String → ℤ) → Environ → Settings
settings beside_error env = record {
  target = get_env env "GRPC_TARGET" "localhost:9090";
  token = get_env env "AGENT_TOKEN" "test-token-phase1";
  agents = number beside_error (get_env env "AGENTS" "100");
  duration = number beside_error (get_env env "DURATION_SEC" "30");
  interval = number beside_error (get_env env "INTERVAL_SEC" "5");
}

-- `k * n`, a product of 64-bit integers
abbrev times : ℕ → ℤ → ℤ
times k (pos n) = to_int 64 (pos (k * n))
times k (negsuc n) = to_int 64 (negsuc (k * n + k - 1))

-- Whether an agent panics as it starts: NewTicker and Intn want a positive argument.
abbrev start_panics : Settings → Bool
start_panics c =
    not (is_positive (times 1000000000 c.interval)) || not (is_positive (times 1000 c.interval))

-- What an agent draws for one message
pub record Draw : Type 0 where
  pub now : ℤ
  pub cpu_percent : Float64
  -- rand.Intn(4)
  pub extra : ℕ
  pub mem_percent : Float64

unfoldable pub request : String → ℕ → Draw → Proto.IngestRequest
request token number d = record {
  token = token;
  metrics = some (record {
    timestamp = d.now;
    hostname = concat "loadtest-agent-" (itoa (pos number));
    cpu = some (record { usage_percent = d.cpu_percent; cores = pos 4 });
    memory = some (record {
      total_bytes = 8 * 1024 * 1024 * 1024;
      used_bytes = (4 + d.extra) * 1024 * 1024 * 1024;
      usage_percent = d.mem_percent;
    });
    disks = [];
    networks = [];
    apps = none;
  });
}

-- Where an agent stands: at its `select`, in a call, between the two additions after a call that
-- succeeded, or returned.
pub data Agent : Type 0 where
  selecting : Agent
  calling : Agent
  adding : ℕ → Agent
  returned : Agent

-- The bits of an atomic.Int64
abbrev add64 : ℕ → ℕ → ℕ
add64 a b = (a + b) % 2 ^ 64

pub record Test : Type 0 where
  pub agents : List Agent
  pub expired : Bool
  pub sent : ℕ
  pub errors : ℕ
  pub total_latency : ℕ

abbrev pub agent_at : ℕ → List Agent → Option Agent
agent_at i [] = none
agent_at zero (a ∷ l) = some a
agent_at (suc i) (a ∷ l) = agent_at i l

abbrev pub set_agent : ℕ → Agent → List Agent → List Agent
set_agent i b [] = []
set_agent zero b (a ∷ l) = b ∷ l
set_agent (suc i) b (a ∷ l) = a ∷ set_agent i b l

abbrev replicate : ℕ → List Agent
replicate zero = []
replicate (suc n) = selecting ∷ replicate n

abbrev count_of : ℤ → ℕ
count_of (pos n) = n
count_of (negsuc n) = 0

-- After the loop that starts the agents
pub started : Settings → Test
started c = record {
  agents = replicate (count_of c.agents);
  expired = false;
  sent = 0;
  errors = 0;
  total_latency = 0;
}

-- What happens in one step: the deadline, or an operation of an agent.
pub data Label : Type 0 where
  deadline : Label
  call_started : Label
  call_failed : Label
  call_sent : ℕ → Label
  latency_added : Label
  agent_done : Label

pub data Step (t : Test) : Label → Test → Type 0 where
  expire : t.expired ≡ false → Step t deadline (record t { expired = true })
  -- A tick, before the deadline or after it: `select` takes either of two that are ready.
  call :
      (i : ℕ)
      → agent_at i t.agents ≡ some selecting
      → Step t call_started (record t { agents = set_agent i calling t.agents })
  fail :
      (i : ℕ)
      → agent_at i t.agents ≡ some calling
      → Step t call_failed
          (record t { agents = set_agent i selecting t.agents; errors = add64 t.errors 1 })
  send :
      (i latency : ℕ)
      → agent_at i t.agents ≡ some calling
      → Step t
          (call_sent latency)
          (record t { agents = set_agent i (adding latency) t.agents; sent = add64 t.sent 1 })
  add :
      (i latency : ℕ)
      → agent_at i t.agents ≡ some (adding latency)
      → Step t latency_added (record t {
        agents = set_agent i selecting t.agents;
        total_latency = add64 t.total_latency latency;
      })
  leave :
      (i : ℕ)
      → agent_at i t.agents ≡ some selecting
      → t.expired ≡ true
      → Step t agent_done (record t { agents = set_agent i returned t.agents })

-- The labels of a run, the latest first
pub data Reach (s : Test) : List Label → Test → Type 0 where
  here : Reach s [] s
  next : {l : Label} {ls : List Label} {t u : Test} → Reach s ls t → Step t l u → Reach s (l ∷ ls) u

-- wg.Wait returns.
abbrev pub all_returned : List Agent → Bool
all_returned [] = true
all_returned (returned ∷ l) = all_returned l
all_returned (selecting ∷ l) = false
all_returned (calling ∷ l) = false
all_returned (adding n ∷ l) = false

-- What main prints of the counters; the quotients of floats are left to Printf's arguments.
pub record Results : Type 0 where
  pub sent : ℤ
  pub errors : ℤ
  pub average_latency : ℤ

-- The quotient by a number above 0, cut towards 0
abbrev quotient : ℤ → ℕ → ℤ
quotient (pos a) n = pos (a / n)
quotient (negsuc a) n = elim (suc a / n) [ zero ↦ pos 0 | suc q ↦ negsuc q ]

abbrev average : ℤ → ℤ → ℤ
average total (pos n) = if ltb 0 n then quotient total n else pos 0
average total (negsuc n) = pos 0

pub results : Test → Results
results t = record {
  sent = to_int 64 (pos t.sent);
  errors = to_int 64 (pos t.errors);
  average_latency = average (to_int 64 (pos t.total_latency)) (to_int 64 (pos t.sent));
}
