-- ===== src/Tests/Metrics.antt =====
-- Latencies of two actions, in the buckets of the program.
use agent_host.Common.{String, ◌≡◌, refl, some, List, [], ◌∷◌, get_or}
use agent_host.Common.Maps.{get}
use agent_host.Operations.Metrics.{
  Call, increments, observes, run, initial, normalize_label, Series, series,
}
use agent_host.Operations.Metrics.Summary.{histogram_of}
use agent_host.Operations.Metrics.Counted.{observed_of, counted_of, run-histogram_of}

abbrev name_of : Series → String
name_of s = s.0

abbrev calls : List Call
calls =
    observes "action_latency_ms" 70 (("actionKind", "prompt") ∷ [])
    ∷ observes "action_latency_ms" 7 []
    ∷ increments "unknown" [] 1
    ∷ increments "sse_overflows" [] 2
    ∷ []

other_label : normalize_label "provider" (some "somebody") ≡ "other"
unfolding normalize_label get
other_label = refl

observed : observed_of name_of "action_latency_ms" calls ≡ 70 ∷ 7 ∷ []
unfolding series
observed = refl

run-histogram_of_example :
    (get "action_latency_ms" (run name_of calls initial).observations
      ≡ histogram_of (observed_of name_of "action_latency_ms" calls))
    × (get_or (get "action_latency_ms" (run name_of calls initial).counts) 0
        ≡ counted_of name_of "action_latency_ms" calls)
run-histogram_of_example = run-histogram_of name_of "action_latency_ms" calls
