-- ===== src/Tests/Rpc.antt =====
-- Requests of the Codex adapter: one is answered, one times out, one is cut off.
use agent_host.Common.{◌≡◌, refl, true, some, none, List, [], ◌∷◌}
use agent_host.Adapters.Rpc.{
  initial, Event, connects, requests, answers, times_out, disconnects_at, run, resolved, timed_out,
  write_failed, disconnected,
}
use agent_host.Adapters.Rpc.Answered.{IsAccounted, run-IsAccounted}

abbrev events : List Event
events =
    connects
    ∷ requests none true
    ∷ requests (some 1) true
    ∷ requests none true
    ∷ answers 1 1 true
    ∷ times_out 2
    ∷ answers 1 2 true
    ∷ requests (some 7) true
    ∷ disconnects_at 1
    ∷ requests none true
    ∷ []

endings :
    (run events initial).settled
    ≡ record { id = 1; outcome = resolved }
      ∷ record { id = 2; outcome = timed_out }
      ∷ record { id = 3; outcome = disconnected }
      ∷ record { id = 4; outcome = write_failed }
      ∷ []
unfolding run
endings = refl

run-IsAccounted_example : IsAccounted (run events initial)
run-IsAccounted_example = run-IsAccounted events
