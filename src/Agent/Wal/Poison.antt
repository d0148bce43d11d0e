-- ===== src/Agent/Wal/Poison.antt =====
-- A record of 64 KiB or more: the scanner refuses the whole file from then on.
use bangmod_monitor.Prelude.{
  ℕ, Bool, true, false, Option, List, All, length, ◌≤◌, [], ◌∷◌, ◌++◌, ◌≡◌, refl, some, none, arith,
  if◌then◌else◌,
}
use bangmod_monitor.Prelude.Json.{Bytes, Codec}
use bangmod_monitor.Agent.Wal.Queue.{Holds, Written-IsLine, append-healthy}
use bangmod_monitor.Agent.Wal.{
  healthy, scan_long_behind, encode, Drained, entries, File, Disk, append, drain, failed, scan,
  scan_long-append, write, append_line, take_bytes, newline,
}

-- The file has a line that does not fit the scanner's buffer.
abbrev IsPoisoned : File → Type 0
IsPoisoned none = ⊥
IsPoisoned (some b) = (scan b).1 ≡ true

write-IsPoisoned :
    (cut : Option ℕ) (b l : Bytes) → IsPoisoned (some b) → IsPoisoned (write cut (some b) l).0
write-IsPoisoned none b l p = scan_long-append b (l ++ newline ∷ []) p
write-IsPoisoned (some k) b l p = scan_long-append b (take_bytes k (l ++ newline ∷ [])) p

append_line-IsPoisoned :
    (d : Disk) (b : Bytes) (line : Option Bytes)
    → IsPoisoned (some b)
    → IsPoisoned (append_line d (some b) line).0
append_line-IsPoisoned d b none p = p
append_line-IsPoisoned d b (some l) p = open_cases d.open_fails
  where
    open_cases :
        (fails : Bool)
        → IsPoisoned (if fails then (some b, false) else write d.write_fails (some b) l).0
    open_cases true = p
    open_cases false = write-IsPoisoned d.write_fails b l p

module _ {T : Type 0} (codec : Codec T) where
  -- Draining fails, and leaves the file as it is.
  drain-IsPoisoned :
      (d : Disk) (file : File) → IsPoisoned file → drain codec d file ≡ (file, failed)
  unfolding drain
  drain-IsPoisoned d none p = absurd p
  drain-IsPoisoned d (some b) p = ground arith

  append-IsPoisoned :
      (d : Disk) (file : File) (v : T) → IsPoisoned file → IsPoisoned (append codec d file v).0
  unfolding append
  append-IsPoisoned d none v p = absurd p
  append-IsPoisoned d (some b) v p = append_line-IsPoisoned d b (codec.marshal v) p

  -- Calls of the log, each with what the disk does
  pub data Call : Type 0 where
    appends : Disk → T → Call
    drains : Disk → Call

  -- The file after the calls, and what those of Drain returned
  abbrev pub run_calls : List Call → File → File × List (Drained T)
  run_calls [] file = (file, [])
  run_calls (appends d v ∷ cs) file = run_calls cs (append codec d file v).0
  run_calls (drains d ∷ cs) file =
      let (file', es) = run_calls cs (drain codec d file).0 in (file', (drain codec d file).1 ∷ es)

  abbrev pub HasFailed : Drained T → Type 0
  HasFailed (entries es) = ⊥
  HasFailed failed = Unit

  calls_fail :
      (cs : List Call) (file : File) → IsPoisoned file → All HasFailed (run_calls cs file).1
  calls_fail [] file p = tt
  calls_fail (appends d v ∷ cs) file p =
      calls_fail cs (append codec d file v).0 (append-IsPoisoned d file v p)
  calls_fail (drains d ∷ cs) file p = rw (drain-IsPoisoned d file p) (tt, calls_fail cs file p)

  -- An entry whose text has 65536 bytes or more poisons a log that held entries below the limit: with
  -- a healthy disk Append takes it without an error, and after it, whatever is appended and whatever the disk does, no call of Drain yields an entry
  -- again, those of before included.
  pub long_entry_poisons :
      (file : File) (vs : List T) (v : T) (l : Bytes) (cs : List Call)
      → Holds codec file vs
      → codec.marshal v ≡ some l
      → 65536 ≤ length l
      → ((append codec healthy file v).1 ≡ true)
        × All HasFailed (run_calls cs (append codec healthy file v).0).1
  long_entry_poisons file vs v l cs h m long =
      let lines = Written-IsLine codec h.lines vs h.written in
      let too_long = scan_long_behind h.lines l lines (codec.marshal_text v l m) long in
      rw (append-healthy codec file v l m, h.file_lines)
        (refl, calls_fail cs (some (encode h.lines ++ (l ++ newline ∷ []))) too_long)
