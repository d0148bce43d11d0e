-- ===== src/Agent/Cycle/Delivery.antt =====
-- What a cycle delivers while the network is up.
use bangmod_monitor.Prelude.{ℕ, suc, true, List, [], ◌∷◌, ◌++◌, ◌≡◌, refl, append_assoc, append-nil}
use bangmod_monitor.Prelude.Json.{Codec}
use bangmod_monitor.Agent.Wal.{File, healthy, drain, entries, Drained, failed}
use bangmod_monitor.Agent.Wal.Queue.{Holds, latest, drain-Holds}
use bangmod_monitor.Agent.Cycle.{
  Weather, State, replay_from, replay_drained, replay, send_or_buffer, cycle,
}

module _ {T : Type 0} (codec : Codec T) (w : Weather) (up : (n : ℕ) → w.accepts n ≡ true) where
  replay_from_up :
      (n : ℕ) (ms : List T) (s : State T)
      → (replay_from codec w n ms s).0 ≡ record s { delivered = s.delivered ++ ms }
  unfolding replay_from
  replay_from_up n [] s = simp append-nil
  replay_from_up n (m ∷ ms) s =
      rw (up n, replay_from)
        (rw (replay_from_up (suc n) ms (record s { delivered = s.delivered ++ m ∷ [] }))
          (simp append_assoc))

  cycle_of_drain :
      (m : T) (s : State T) (p : File × Drained T) (es : List T)
      → p.1 ≡ entries es
      → send_or_buffer codec w m (replay_drained codec w s p)
        ≡ record { file = p.0; delivered = (s.delivered ++ es) ++ m ∷ [] }
  cycle_of_drain m s (file, failed) es e = cc
  cycle_of_drain m s (file, entries ms) es e =
      let same : ms ≡ es = cc in
      rw (up (replay_from codec w 0 ms (record s { file = file })).1, same)
        (rw (replay_from_up 0 es (record s { file = file })) refl)

  -- While the network is up and the disk is healthy, a cycle delivers what the log held, its
  -- last 2000 entries at most in their order, then the new collection, and leaves the log empty.
  pub cycle_up :
      (m : T) (s : State T) (vs : List T)
      → w.at_drain ≡ healthy
      → Holds codec s.file vs
      → ((cycle codec w m s).delivered ≡ (s.delivered ++ latest 2000 vs) ++ m ∷ [])
        × Holds codec (cycle codec w m s).file []
  unfolding cycle replay
  cycle_up m s vs calm h = rw calm (
      rw
        (cycle_of_drain m s (drain codec healthy s.file) (latest 2000 vs)
          (drain-Holds codec s.file vs h).0)
        (refl, (drain-Holds codec s.file vs h).1))
