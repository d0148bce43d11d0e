-- ===== src/Agent/Process.antt =====
-- agent/main.go: the start of the agent, and its life with a log or without.
use bangmod_monitor.Prelude.{
  String, Bool, true, false, not, ◌&&◌, ◌≡◌, refl, sym, ◌∙◌, Option, none, some, List, [], ◌∷◌,
  ◌++◌, append_assoc, append-nil, if◌then◌else◌, Bool-cases, inl, inr,
}
use bangmod_monitor.Prelude.Json.{Codec}
use bangmod_monitor.Prelude.Text.{is_empty}
use bangmod_monitor.Prelude.Environ.{ticker_starts}
use bangmod_monitor.Agent.Config.{Config}
use bangmod_monitor.Agent.Cycle.{State, Weather, cycle_no_log, run}

-- How the calls of the start end: `none` is an error of os.Hostname.
pub record Boot : Type 0 where
  pub hostname : Option String
  pub opens_log : Bool
  pub opens_grpc : Bool

pub data Start : Type 0 where
  -- the two calls of log.Fatal
  no_token no_sender : Start
  -- the panic of NewTicker, where the interval overflows
  no_ticker : Start
  -- the name of the host, whether there is a log, and whether it sends over gRPC
  collecting : String → Bool → Bool → Start

abbrev name_of : Option String → String
name_of none = "unknown"
name_of (some name) = name

unfoldable start : Config → Boot → Start
start cfg b =
    if is_empty cfg.token
    then no_token
    else if cfg.use_grpc && not b.opens_grpc
    then no_sender
    else if not (ticker_starts cfg.interval)
    then no_ticker
    else collecting (name_of b.hostname) b.opens_log cfg.use_grpc

module _ {T : Type 0} (codec : Codec T) where
  -- the ticker's loop with no log
  unfoldable run_no_log : List (Weather × T) → State T → State T
  unfolding cycle_no_log
  run_no_log [] s = s
  run_no_log ((w, m) ∷ ticks) s = run_no_log ticks (cycle_no_log codec w m s)

  -- the collections of the ticks at which the network takes the first send
  abbrev sent_at_once : List (Weather × T) → List T
  sent_at_once [] = []
  sent_at_once ((w, m) ∷ ticks) =
      let rest = sent_at_once ticks in if w.accepts 0 then m ∷ rest else rest

  cycle_no_log-delivered :
      (w : Weather) (m : T) (ticks : List (Weather × T)) (s : State T)
      → ((cycle_no_log codec w m s).delivered ++ sent_at_once ticks
          ≡ s.delivered ++ sent_at_once ((w, m) ∷ ticks))
        × ((cycle_no_log codec w m s).file ≡ s.file)
  unfolding cycle_no_log
  cycle_no_log-delivered w m ticks s = elim (Bool-cases (w.accepts 0)) [
    | inl up ↦ rw up (append_assoc s.delivered (m ∷ []) (sent_at_once ticks), refl)
    | inr down ↦ rw down (refl, refl)
  ]

  -- An agent without a log delivers exactly what it can send at once, in its order, and leaves the
  -- log's file as it is.
  run_no_log-delivered :
      (ticks : List (Weather × T)) (s : State T)
      → ((run_no_log ticks s).delivered ≡ s.delivered ++ sent_at_once ticks)
        × ((run_no_log ticks s).file ≡ s.file)
  unfolding run_no_log
  run_no_log-delivered [] s = (sym (append-nil s.delivered), refl)
  run_no_log-delivered ((w, m) ∷ ticks) s =
      let (there, kept) = run_no_log-delivered ticks (cycle_no_log codec w m s) in
      let (one, same) = cycle_no_log-delivered w m ticks s in (there ∙ one, kept ∙ same)

  -- main, with what happens at its ticks: both ways of sending are the sends of the weather.
  unfoldable live : Start → List (Weather × T) → State T → State T
  live no_token ticks s = s
  live no_sender ticks s = s
  live no_ticker ticks s = s
  live (collecting host true grpc) ticks s = run codec ticks s
  live (collecting host false grpc) ticks s = run_no_log ticks s

  -- An agent whose log cannot be opened delivers what it can send at once, by either way.
  live-no_log :
      (cfg : Config) (b : Boot) (ticks : List (Weather × T)) (s : State T)
      → is_empty cfg.token ≡ false
      → b.opens_grpc ≡ true
      → b.opens_log ≡ false
      → ticker_starts cfg.interval ≡ true
      → (live (start cfg b) ticks s).delivered ≡ s.delivered ++ sent_at_once ticks
  unfolding start live
  live-no_log cfg b ticks s token sender log ticker = elim (Bool-cases cfg.use_grpc) [
    | inl grpc ↦ rw (token, grpc, sender, ticker, log) (run_no_log-delivered ticks s).0
    | inr http ↦ rw (token, http, ticker, log) (run_no_log-delivered ticks s).0
  ]
