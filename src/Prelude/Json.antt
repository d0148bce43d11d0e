-- ===== src/Prelude/Json.antt =====
-- `encoding/json` as an interface: the documented behaviour of Marshal and Unmarshal at one type
-- that the program relies on.
use Prim.Native.Nat.{ℕ, ◌≤◌}
use mathlib.Core.Path.{◌≡◌}
use mathlib.Core.Option.{Option, some}
use mathlib.Core.List.{List}
use bangmod_monitor.Prelude.Lists.{All}

abbrev pub Bytes : Type 0
Bytes = List ℕ

-- no control character
abbrev pub IsText : Bytes → Type 0
IsText = All (λ c. 32 ≤ c)

-- The text of a value holds no control character, since JSON escapes them, and reads back as the
-- value.
pub record Codec (T : Type 0) : Type 0 where
  pub marshal : T → Option Bytes
  pub unmarshal : Bytes → Option T
  pub marshal_text : (v : T) (b : Bytes) → marshal v ≡ some b → IsText b
  pub unmarshal-marshal : (v : T) (b : Bytes) → marshal v ≡ some b → unmarshal b ≡ some v
