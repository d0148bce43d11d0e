-- ===== src/Agent/Cycle.antt =====
-- agent/main.go: one cycle of the agent replays the log and then sends a new collection. What the
-- network answers is a function of the number of the send within the cycle, and what the disk
-- answers is given for each call of the log. `none` as the log is a failed `wal.New`.
pub mod Delivery
pub mod Loss
use bangmod_monitor.Prelude.{
  ℕ, suc, ◌+◌, Bool, true, false, Option, none, some, List, [], ◌∷◌, ◌++◌, if◌then◌else◌,
}
use bangmod_monitor.Prelude.Json.{Codec}
use bangmod_monitor.Agent.Wal.{Disk, File, append, drain, Drained, entries, failed}

pub record Weather : Type 0 where
  pub accepts : ℕ → Bool
  pub at_drain : Disk
  pub at_requeue : Disk
  pub at_append : Disk

-- The log's file, and what the server has accepted, oldest first.
pub record State (T : Type 0) : Type 0 where
  pub file : File
  pub delivered : List T

module _ {T : Type 0} (codec : Codec T) where
  -- The loop of replayGRPCWAL and replayHTTPWAL; `n` counts the sends. The result has the number
  -- of sends made.
  replay_from : Weather → ℕ → List T → State T → State T × ℕ
  replay_from w n [] s = (s, n)
  replay_from w n (m ∷ ms) s = elim (w.accepts n) [
    | true ↦ replay_from w (suc n) ms (record s { delivered = s.delivered ++ m ∷ [] })
    | false ↦ (record s { file = (append codec w.at_requeue s.file m).0 }, suc n)
  ]

  abbrev replay_drained : Weather → State T → File × Drained T → State T × ℕ
  replay_drained w s (file, failed) = (record s { file = file }, 0)
  replay_drained w s (file, entries ms) = replay_from w 0 ms (record s { file = file })

  replay : Weather → State T → State T × ℕ
  unfolding replay_from
  replay w s = replay_drained w s (drain codec w.at_drain s.file)

  abbrev send_or_buffer : Weather → T → State T × ℕ → State T
  send_or_buffer w m (s, n) =
      if w.accepts n
      then record s { delivered = s.delivered ++ m ∷ [] }
      else record s { file = (append codec w.at_append s.file m).0 }

  -- `collect`, after the collection of `m`. Both protocols run the same steps.
  pub cycle : Weather → T → State T → State T
  unfolding replay
  cycle w m s = send_or_buffer w m (replay w s)

  -- `collect` with no log: what cannot be sent is dropped.
  unfoldable pub cycle_no_log : Weather → T → State T → State T
  cycle_no_log w m s = if w.accepts 0 then record s { delivered = s.delivered ++ m ∷ [] } else s

  -- the ticker's loop, one collection at each tick
  pub run : List (Weather × T) → State T → State T
  unfolding cycle
  run [] s = s
  run ((w, m) ∷ ticks) s = run ticks (cycle w m s)
