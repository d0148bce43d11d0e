-- ===== src/Agent/Wal.antt =====
-- agent/wal/wal.go: the log of metrics that could not be sent. The file is its bytes, or `none`
-- where it does not exist. The lock makes each method one step.
mod Lines
pub mod Queue
pub mod Poison
pub use Lines.{
  newline, max_token, scan, IsShort, IsLine, encode, encode-append, encode-ne-nil, scan-encode,
  scan_long-append, scan_long, scan_long_behind,
}
use bangmod_monitor.Prelude.{
  ℕ, ◌-◌, Bool, true, false, ◌||◌, Option, none, some, List, [], ◌∷◌, ◌++◌, ltb, length, drop,
  filter_map, ◌≡◌, zero, suc, if◌then◌else◌,
}
use bangmod_monitor.Prelude.Json.{Bytes, Codec}

-- What the operating system answers in one call of a method.
pub record Disk : Type 0 where
  pub open_fails : Bool
  pub read_fails : Bool
  -- a write that fails has written so many bytes
  pub write_fails : Option ℕ
  pub truncate_fails : Bool

abbrev pub healthy : Disk
healthy = record {
  open_fails = false;
  read_fails = false;
  write_fails = none;
  truncate_fails = false;
}

abbrev pub File : Type 0
File = Option Bytes

abbrev contents : File → Bytes
contents none = []
contents (some b) = b

abbrev max_entries : ℕ
max_entries = 2000

pub data Drained (T : Type 0) : Type 0 where
  entries : List T → Drained T
  failed : Drained T

abbrev take_bytes : ℕ → Bytes → Bytes
take_bytes zero b = []
take_bytes (suc n) [] = []
take_bytes (suc n) (c ∷ b) = c ∷ take_bytes n b

abbrev pub newest : {T : Type 0} → List T → List T
newest es = if ltb max_entries (length es) then drop (length es - max_entries) es else es

-- `fmt.Fprintf(f, "%s\n", data)`, which may fail after some of the bytes
abbrev write : Option ℕ → File → Bytes → File × Bool
write none file line = (some (contents file ++ (line ++ newline ∷ [])), true)
write (some k) file line = (some (contents file ++ take_bytes k (line ++ newline ∷ [])), false)

abbrev append_line : Disk → File → Option Bytes → File × Bool
append_line d file none = (file, false)
append_line d file (some line) =
    if d.open_fails then (file, false) else write d.write_fails file line

module _ {T : Type 0} (codec : Codec T) where
  open codec use {marshal, unmarshal}

  -- The file after the call, and whether no error is returned.
  pub append : Disk → File → T → File × Bool
  append d file v = append_line d file (marshal v)

  abbrev drain_bytes : Disk → Bytes → File × Drained T
  drain_bytes d b =
      let (lines, too_long) = scan b in
      if too_long || d.read_fails then (some b, failed) else (
        if d.truncate_fails then some b else some [],
        entries (newest (filter_map unmarshal lines)),
      )

  pub drain : Disk → File → File × Drained T
  drain d none = (none, if d.open_fails then failed else entries [])
  drain d (some b) = if d.open_fails then (some b, failed) else drain_bytes d b

pub size : Disk → File → ℕ
size d none = 0
size d (some b) = if d.open_fails then 0 else length (scan b).0
