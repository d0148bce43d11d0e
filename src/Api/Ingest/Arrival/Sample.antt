-- ===== src/Api/Ingest/Arrival/Sample.antt =====
-- An agent whose log holds one collection, and a codec that knows it.
use native.Mathlib.Decide.{ℕ_discrete}
use bangmod_monitor.Prelude.{
  String, true, false, ◌≡◌, refl, Option, some, none, [], ◌∷◌, str_eq, eq_iff, Bool-cases, inl, inr,
  arith,
}
use bangmod_monitor.Prelude.Int.{pos}
use bangmod_monitor.Prelude.Json.{Bytes, IsText, Codec}
use bangmod_monitor.Agent.Metrics.{Metrics}
use bangmod_monitor.Agent.Wal.{healthy}
use bangmod_monitor.Agent.Wal.Queue.{Holds}
use bangmod_monitor.Agent.Cycle
use bangmod_monitor.Agent.Cycle.{Weather}

String-discrete : Discrete String
String-discrete = λ s t. elim (Bool-cases (str_eq s t)) [
  | inl same ↦ yes ((eq_iff s t).0 same)
  | inr other ↦ no (λ p. cc ((eq_iff s t).1 p))
]

Metrics-discrete : Discrete Metrics
Metrics-discrete = hlevel (ℕ_discrete, String-discrete)

abbrev pub collection : Metrics
collection = record {
  timestamp = pos 1000;
  hostname = "web";
  cpu = record { usage_percent = 7; cores = pos 4 };
  memory = record { total_bytes = 100; used_bytes = 50; usage_percent = 9 };
  disks = (record { path = "/"; total_bytes = 10; used_bytes = 5; usage_percent = 3 }) ∷ [];
  networks = [];
  apps = record {
    nginx = true;
    apache = false;
    mysql = false;
    mariadb = false;
    postgresql = false;
  };
  processes = [];
}

-- A codec that knows one collection
abbrev text_if : {v : Metrics} → Dec (v ≡ collection) → Option Bytes
text_if (yes p) = some (49 ∷ [])
text_if (no n) = none

abbrev write : Metrics → Option Bytes
write v = text_if (Metrics-discrete v collection)

write-IsText : {v : Metrics} (d : Dec (v ≡ collection)) (b : Bytes) → text_if d ≡ some b → IsText b
write-IsText (yes p) b e = let same : 49 ∷ [] ≡ b = cc in rw (← same) (omega arith, tt)
write-IsText (no n) b e = cc

read-write :
    {v : Metrics} (d : Dec (v ≡ collection)) (b : Bytes)
    → text_if d ≡ some b
    → some collection ≡ some v
read-write (yes p) b e = cc
read-write (no n) b e = cc

pub codec : Codec Metrics
codec = record {
  marshal = write;
  unmarshal = λ b. some collection;
  marshal_text = λ v. write-IsText (Metrics-discrete v collection);
  unmarshal-marshal = λ v. read-write (Metrics-discrete v collection);
}

writes : (d : Dec (collection ≡ collection)) → text_if d ≡ some (49 ∷ [])
writes (yes p) = refl
writes (no n) = absurd (n refl)

abbrev pub agent : Cycle.State Metrics
agent = record { file = some (49 ∷ 10 ∷ []); delivered = [] }

pub agent-Holds : Holds codec agent.file (collection ∷ [])
unfolding codec
agent-Holds = record {
  lines = (49 ∷ []) ∷ [];
  file_lines = refl;
  written = (writes (Metrics-discrete collection collection), omega arith, tt);
}

abbrev pub sunny : Weather
sunny = record {
  accepts = λ n. true;
  at_drain = healthy;
  at_requeue = healthy;
  at_append = healthy;
}
