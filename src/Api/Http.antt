-- ===== src/Api/Http.antt =====
-- The answers of the handlers (gin). A panic is caught by gin's recovery, which answers 500.
use bangmod_monitor.Prelude.{ℕ, String}

pub data Reply {ℓ} (B : Type ℓ) : Type ℓ where
  -- a status and a body
  answer : ℕ → B → Reply B
  -- a status and an error with a fixed text
  refuse : ℕ → String → Reply B
  -- a status and the text of an error value
  broken : ℕ → Reply B
  panics : Reply B
