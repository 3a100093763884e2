-- ===== src/Tests/Circuit.antt =====
-- Circuits with small limits.
use agent_host.Common.{◌≤◌, ◌*◌, ◌≡◌, refl, inl, true, false, List, [], ◌∷◌, min, arith, leb, ◌+◌}
use agent_host.Registry.Circuit.{
  Limits, Circuit, failure, timeout, initial, admit, record_outcome, delay,
}
use agent_host.Registry.Circuit.Laws.{
  Step, admits, reports, discards, run, IsConsistent, run-IsConsistent, admissions, one_probe,
  admit-after_failure, delay_bounds, forced_probes_apart,
}

abbrev limits : Limits
limits = record { base_ms = 100; max_ms = 1000; threshold = 2; forced_probe_min_ms = 50 }

abbrev failed_once : Circuit
failed_once = record initial { consecutive_failures = 1; next_attempt_at = 100 }

abbrev steps : List Step
steps =
    admits 0 false
    ∷ reports 1 false failure
    ∷ admits 2 true
    ∷ reports 3 true timeout
    ∷ discards false
    ∷ []

run-IsConsistent_example : IsConsistent limits (run limits initial steps)
run-IsConsistent_example = run-IsConsistent limits steps (omega arith)

probes : (admit limits 90 true failed_once).1.probe ≡ true
unfolding admit
probes = refl

one_probe_example :
    (admit limits 95 true (
      run limits
        (admit limits 90 true failed_once).0
        (admissions limits ((92, false) ∷ [])))).1.allowed
    ≡ false
one_probe_example = one_probe limits failed_once 90 95 true true ((92, false) ∷ []) probes

admit-after_failure_example :
    (admit limits 250 false (record_outcome limits 100 false failure failed_once).0).1.allowed
    ≡ leb (100 + delay limits 1) 250
admit-after_failure_example =
    admit-after_failure limits failed_once 100 250 false failure (inl refl)

delay_bounds_example :
    (delay limits 0 ≡ limits.base_ms)
    × (limits.base_ms ≤ delay limits 3)
    × (delay limits 3 ≤ limits.max_ms)
    × (delay limits 4 ≡ min limits.max_ms (2 * delay limits 3))
delay_bounds_example = delay_bounds limits 3 (omega arith)

forced_probes_apart_example :
    (admit limits 120 true
      (record_outcome limits 95 true failure (admit limits 90 true failed_once).0).0).1.allowed
    ≡ false
forced_probes_apart_example =
    forced_probes_apart limits failed_once 90 95 120 failure (inl refl) probes (omega arith)
