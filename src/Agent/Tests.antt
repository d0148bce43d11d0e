-- ===== src/Agent/Tests.antt =====
-- The agent's theorems at a log of readings that are one digit each.
use bangmod_monitor.Prelude.{
  ℕ, zero, suc, Bool, true, false, Option, none, some, List, All, [], ◌∷◌, ◌≡◌, refl, arith, ◌==◌,
  length,
}
use bangmod_monitor.Prelude.Json.{Bytes, IsText, Codec}
use bangmod_monitor.Agent.Wal.{healthy, append, drain, entries, scan, encode, scan-encode}
use bangmod_monitor.Agent.Wal.Queue.{Holds, append-Holds, drain-Holds}
use bangmod_monitor.Agent.Wal.Poison.{
  Call, appends, drains, run_calls, HasFailed, long_entry_poisons,
}
use bangmod_monitor.Agent.Cycle.{Weather, State, cycle, run}
use bangmod_monitor.Agent.Cycle.Delivery.{cycle_up}
use bangmod_monitor.Agent.Cycle.Loss.{Fits, IsSmall, IsCalm, run-IsSmall, cycle_down}

abbrev digit : Bool → ℕ
digit true = 49
digit false = 48

abbrev write_digit : Bool → Option Bytes
write_digit b = some (digit b ∷ [])

abbrev read_digit : Bytes → Option Bool
read_digit [] = none
read_digit (c ∷ b) = some (c == 49)

digit-IsText : (v : Bool) (b : Bytes) → write_digit v ≡ some b → IsText b
digit-IsText true b e = let same : 49 ∷ [] ≡ b = cc in rw (← same) (omega arith, tt)
digit-IsText false b e = let same : 48 ∷ [] ≡ b = cc in rw (← same) (omega arith, tt)

read-write : (v : Bool) (b : Bytes) → write_digit v ≡ some b → read_digit b ≡ some v
read-write true b e = let same : 49 ∷ [] ≡ b = cc in rw (← same) refl
read-write false b e = let same : 48 ∷ [] ≡ b = cc in rw (← same) refl

abbrev digits : Codec Bool
digits = record {
  marshal = write_digit;
  unmarshal = read_digit;
  marshal_text = digit-IsText;
  unmarshal-marshal = read-write;
}

abbrev two_lines : Bytes
two_lines = 49 ∷ 10 ∷ 48 ∷ 10 ∷ []

two_lines-Holds : Holds digits (some two_lines) (true ∷ false ∷ [])
two_lines-Holds = record {
  lines = (49 ∷ []) ∷ (48 ∷ []) ∷ [];
  file_lines = refl;
  written = (refl, omega arith, (refl, omega arith, tt));
}

append-Holds_example :
    ((append digits healthy (some two_lines) true).1 ≡ true)
    × Holds digits (append digits healthy (some two_lines) true).0 (true ∷ false ∷ true ∷ [])
append-Holds_example =
    append-Holds digits (some two_lines) (true ∷ false ∷ []) true (49 ∷ []) two_lines-Holds refl
      (omega arith)

drain-Holds_example :
    ((drain digits healthy (some two_lines)).1 ≡ entries (true ∷ false ∷ []))
    × Holds digits (drain digits healthy (some two_lines)).0 []
drain-Holds_example = drain-Holds digits (some two_lines) (true ∷ false ∷ []) two_lines-Holds

scan-encode_example :
    scan (encode ((49 ∷ []) ∷ (48 ∷ []) ∷ [])) ≡ ((49 ∷ []) ∷ (48 ∷ []) ∷ [], false)
scan-encode_example =
    scan-encode ((49 ∷ []) ∷ (48 ∷ []) ∷ [])
      (((omega arith, tt), omega arith), (((omega arith, tt), omega arith), tt))

abbrev sunny : Weather
sunny = record {
  accepts = λ n. true;
  at_drain = healthy;
  at_requeue = healthy;
  at_append = healthy;
}

abbrev rainy : Weather
rainy = record {
  accepts = λ n. false;
  at_drain = healthy;
  at_requeue = healthy;
  at_append = healthy;
}

abbrev start : State Bool
start = record { file = some two_lines; delivered = [] }

cycle_up_example :
    ((cycle digits sunny true start).delivered ≡ true ∷ false ∷ true ∷ [])
    × Holds digits (cycle digits sunny true start).file []
cycle_up_example =
    cycle_up digits sunny (λ n. refl) true start (true ∷ false ∷ []) refl two_lines-Holds

rainy-IsCalm : IsCalm rainy
rainy-IsCalm = record { at_drain = refl; at_requeue = refl; at_append = refl }

one-Fits : Fits digits true
one-Fits = (49 ∷ [], refl, omega arith)

zero-Fits : Fits digits false
zero-Fits = (48 ∷ [], refl, omega arith)

cycle_down_example :
    ((cycle digits rainy true start).delivered ≡ [])
    × Holds digits (cycle digits rainy true start).file (true ∷ true ∷ [])
cycle_down_example =
    cycle_down digits rainy rainy-IsCalm (λ n. refl) true true start (false ∷ []) two_lines-Holds
      (omega arith) one-Fits one-Fits

two_lines-IsSmall : IsSmall digits (some two_lines)
two_lines-IsSmall = record {
  vs = true ∷ false ∷ [];
  holds = two_lines-Holds;
  fits = (one-Fits, (zero-Fits, tt));
  few = omega arith;
}

run-IsSmall_example :
    IsSmall digits (run digits ((rainy, true) ∷ (rainy, false) ∷ (rainy, true) ∷ []) start).file
run-IsSmall_example =
    run-IsSmall digits ((rainy, true) ∷ (rainy, false) ∷ (rainy, true) ∷ []) start
      ((rainy-IsCalm, one-Fits), ((rainy-IsCalm, zero-Fits), ((rainy-IsCalm, one-Fits), tt)))
      two_lines-IsSmall

fill : ℕ → Bytes
fill zero = []
fill (suc n) = 97 ∷ fill n

fill-IsText : (n : ℕ) → IsText (fill n)
unfolding fill
fill-IsText zero = tt
fill-IsText (suc n) = (omega arith, fill-IsText n)

length-fill : (n : ℕ) → length (fill n) ≡ n
unfolding fill
length-fill zero = refl
length-fill (suc n) = omega (arith, length-fill n)

abbrev write_wide : Bool → Option Bytes
write_wide true = some (fill 65536)
write_wide false = some (48 ∷ [])

abbrev read_wide : Bytes → Option Bool
read_wide [] = none
read_wide (c ∷ b) = some (c == 97)

wide-IsText : (v : Bool) (b : Bytes) → write_wide v ≡ some b → IsText b
wide-IsText true b e = let same : fill 65536 ≡ b = cc in rw (← same) (fill-IsText 65536)
wide-IsText false b e = let same : 48 ∷ [] ≡ b = cc in rw (← same) (omega arith, tt)

read-fill : (n : ℕ) → read_wide (fill (suc n)) ≡ some true
unfolding fill
read-fill n = refl

read-wide : (v : Bool) (b : Bytes) → write_wide v ≡ some b → read_wide b ≡ some v
read-wide true b e = let same : fill 65536 ≡ b = cc in rw (← same) (read-fill 65535)
read-wide false b e = let same : 48 ∷ [] ≡ b = cc in rw (← same) refl

abbrev wide : Codec Bool
wide = record {
  marshal = write_wide;
  unmarshal = read_wide;
  marshal_text = wide-IsText;
  unmarshal-marshal = read-wide;
}

abbrev zero_line : Bytes
zero_line = 48 ∷ 10 ∷ []

zero_line-Holds : Holds wide (some zero_line) (false ∷ [])
zero_line-Holds = record {
  lines = (48 ∷ []) ∷ [];
  file_lines = refl;
  written = (refl, omega arith, tt);
}

abbrev later : List (Call wide)
later = drains healthy ∷ appends healthy false ∷ drains healthy ∷ []

long_entry_poisons_example :
    ((append wide healthy (some zero_line) true).1 ≡ true)
    × All (HasFailed wide) (run_calls wide later (append wide healthy (some zero_line) true).0).1
long_entry_poisons_example =
    long_entry_poisons wide (some zero_line) (false ∷ []) true (fill 65536) later zero_line-Holds
      refl (omega (arith, length-fill 65536))
