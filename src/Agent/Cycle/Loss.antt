-- ===== src/Agent/Cycle/Loss.antt =====
-- What a cycle loses while the network is down: the log is drained before it is replayed, and of
-- the entries that were not sent only the first goes back.
use bangmod_monitor.Prelude.{
  ℕ, suc, ◌≤◌, false, List, [], ◌∷◌, ◌++◌, ◌≡◌, refl, some, arith, length, All, Bool-cases, inl,
  inr, ap, ◌∙◌, length-append,
}
use bangmod_monitor.Prelude.Json.{Bytes, Codec}
use bangmod_monitor.Agent.Wal.{File, healthy, append, drain, entries, failed, Drained, IsShort}
use bangmod_monitor.Agent.Wal.Queue.{Holds, latest, append-Holds, drain-Holds}
use bangmod_monitor.Agent.Cycle.{
  Weather, State, replay_from, replay_drained, replay, send_or_buffer, cycle, run,
}

latest-short : {T : Type 0} (vs : List T) → length vs ≤ 2000 → latest 2000 vs ≡ vs
latest-short [] h = refl
latest-short (v ∷ vs) h = ground arith

-- The disk answers every call.
pub record IsCalm (w : Weather) : Type 0 where
  pub at_drain : w.at_drain ≡ healthy
  pub at_requeue : w.at_requeue ≡ healthy
  pub at_append : w.at_append ≡ healthy

module _ {T : Type 0} (codec : Codec T) where
  -- The value has a text, and the scanner can read it back.
  abbrev pub Fits : T → Type 0
  Fits m = (l : Bytes) × (codec.marshal m ≡ some l) × IsShort l

  append_fit :
      (file : File) (vs : List T) (v : T)
      → Holds codec file vs
      → Fits v
      → Holds codec (append codec healthy file v).0 (vs ++ v ∷ [])
  append_fit file vs v h (l, m, s) = (append-Holds codec file vs v l h m s).1

  -- The log holds two entries at most.
  pub record IsSmall (file : File) : Type 0 where
    pub vs : List T
    pub holds : Holds codec file vs
    pub fits : All Fits vs
    pub few : length vs ≤ 2

  module _ (w : Weather) (calm : IsCalm w) where
    -- Replaying drained entries puts one of them back at most.
    record IsTiny (file : File) : Type 0 where
      vs : List T
      holds : Holds codec file vs
      fits : All Fits vs
      few : length vs ≤ 1

    requeue-IsTiny :
        (file : File) (m : T)
        → Holds codec file []
        → Fits m
        → IsTiny (append codec w.at_requeue file m).0
    requeue-IsTiny file m h f = rw (calm.at_requeue) (record {
      vs = m ∷ [];
      holds = append_fit file [] m h f;
      fits = (f, tt);
      few = omega arith;
    })

    replay_from-IsTiny :
        (n : ℕ) (ms : List T) (s : State T)
        → Holds codec s.file []
        → All Fits ms
        → IsTiny (replay_from codec w n ms s).0.file
    unfolding replay_from
    replay_from-IsTiny n [] s h fs = record { vs = []; holds = h; fits = tt; few = omega arith }
    replay_from-IsTiny n (m ∷ ms) s h (f, fs) = elim (Bool-cases (w.accepts n)) [
      | inl sent ↦
          rw (sent, replay_from)
            (replay_from-IsTiny (suc n) ms (record s { delivered = s.delivered ++ m ∷ [] }) h fs)
      | inr refused ↦ rw (refused, replay_from) (requeue-IsTiny s.file m h f)
    ]

    replay_drained-IsTiny :
        (s : State T) (p : File × Drained T) (vs : List T)
        → p.1 ≡ entries vs
        → Holds codec p.0 []
        → All Fits vs
        → IsTiny (replay_drained codec w s p).0.file
    replay_drained-IsTiny s (file, failed) vs e h fs = cc
    replay_drained-IsTiny s (file, entries ms) vs e h fs =
        let same : ms ≡ vs = cc in rw same (replay_from-IsTiny 0 vs (record s { file = file }) h fs)

    replay-IsTiny : (s : State T) → IsSmall s.file → IsTiny (replay codec w s).0.file
    unfolding replay
    replay-IsTiny s small = rw (calm.at_drain) (
        replay_drained-IsTiny s (drain codec healthy s.file) small.vs
          ((drain-Holds codec s.file small.vs small.holds).0
            ∙ ap entries (latest-short small.vs (omega (arith, small.few))))
          (drain-Holds codec s.file small.vs small.holds).1 small.fits)

    IsTiny-IsSmall : (file : File) → IsTiny file → IsSmall file
    IsTiny-IsSmall file t = record {
      vs = t.vs;
      holds = t.holds;
      fits = t.fits;
      few = omega (arith, t.few);
    }

    All-concat : (vs : List T) (m : T) → All Fits vs → Fits m → All Fits (vs ++ m ∷ [])
    All-concat [] m fs f = (f, tt)
    All-concat (v ∷ vs) m (g, fs) f = (g, All-concat vs m fs f)

    buffer-IsSmall :
        (file : File) (m : T) → IsTiny file → Fits m → IsSmall (append codec w.at_append file m).0
    buffer-IsSmall file m t f = rw (calm.at_append) (record {
      vs = t.vs ++ m ∷ [];
      holds = append_fit file t.vs m t.holds f;
      fits = All-concat t.vs m t.fits f;
      few = omega (arith, length-append t.vs (m ∷ []), t.few);
    })

    send_or_buffer-IsSmall :
        (m : T) (r : State T × ℕ)
        → IsTiny r.0.file
        → Fits m
        → IsSmall (send_or_buffer codec w m r).file
    send_or_buffer-IsSmall m (s, n) t f = elim (Bool-cases (w.accepts n)) [
      | inl sent ↦ rw sent (IsTiny-IsSmall s.file t)
      | inr refused ↦ rw refused (buffer-IsSmall s.file m t f)
    ]

    cycle-IsSmall :
        (m : T) (s : State T) → IsSmall s.file → Fits m → IsSmall (cycle codec w m s).file
    unfolding cycle
    cycle-IsSmall m s small f =
        send_or_buffer-IsSmall m (replay codec w s) (replay-IsTiny s small) f

  -- A tick with a healthy disk and a collection that the log can hold.
  abbrev IsOrdinary : Weather × T → Type 0
  IsOrdinary (w, m) = IsCalm w × Fits m

  -- From a log of two entries at most, whatever the network does over any number of cycles, the
  -- log never holds more than two entries, while every collection fits the log and the disk is
  -- healthy.
  pub run-IsSmall :
      (ticks : List (Weather × T)) (s : State T)
      → All IsOrdinary ticks
      → IsSmall s.file
      → IsSmall (run codec ticks s).file
  unfolding run
  run-IsSmall [] s o small = small
  run-IsSmall ((w, m) ∷ ticks) s ((calm, f), o) small =
      run-IsSmall ticks (cycle codec w m s) o (cycle-IsSmall w calm m s small f)

  module _ (w : Weather) (calm : IsCalm w) (down : (n : ℕ) → w.accepts n ≡ false) where
    replay_drained_down :
        (s : State T) (p : File × Drained T) (x : T) (xs : List T)
        → p.1 ≡ entries (x ∷ xs)
        → replay_drained codec w s p ≡ (record s { file = (append codec healthy p.0 x).0 }, 1)
    unfolding replay_from
    replay_drained_down s (file, failed) x xs e = cc
    replay_drained_down s (file, entries ms) x xs e =
        let same : ms ≡ x ∷ xs = cc in
        rw same (rw (down 0, replay_from) (rw (calm.at_requeue) refl))

    replay_down :
        (s : State T) (x : T) (xs : List T)
        → Holds codec s.file (x ∷ xs)
        → length (x ∷ xs) ≤ 2000
        → replay codec w s
          ≡ (record s { file = (append codec healthy (drain codec healthy s.file).0 x).0 }, 1)
    unfolding replay
    replay_down s x xs h n = rw (calm.at_drain) (
        replay_drained_down s (drain codec healthy s.file) x xs
          ((drain-Holds codec s.file (x ∷ xs) h).0 ∙ ap entries (latest-short (x ∷ xs) n)))

    -- In a cycle with the network down and a healthy disk, a log of up to 2000 entries keeps its
    -- oldest entry and gains the new collection, if the texts of these two are below the scanner's
    -- limit; every other entry is neither delivered nor kept.
    pub cycle_down :
        (m x : T) (s : State T) (xs : List T)
        → Holds codec s.file (x ∷ xs)
        → length (x ∷ xs) ≤ 2000
        → Fits x
        → Fits m
        → ((cycle codec w m s).delivered ≡ s.delivered)
          × Holds codec (cycle codec w m s).file (x ∷ m ∷ [])
    unfolding cycle
    cycle_down m x s xs h n f g =
        rw (replay_down s x xs h n, down 1, calm.at_append)
          (
            refl,
            append_fit _ (x ∷ []) m (append_fit _ [] x (drain-Holds codec s.file (x ∷ xs) h).1 f) g,
          )
