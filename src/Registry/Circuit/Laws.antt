-- ===== src/Registry/Circuit/Laws.antt =====
-- The states that a circuit goes through.
use agent_host.Common.{
  ℕ, suc, ◌+◌, ◌*◌, ◌^◌, ◌≤◌, ◌<◌, min, ◌≡◌, refl, ap, ◌∙◌, ◌⊎◌, inl, inr, Bool, true, false, List,
  [], ◌∷◌, leb, arith,
}
use native.Mathlib.Nat.{pow-suc, one-le-pow}
use agent_host.Registry.Circuit.{
  Circuit, Limits, half_open, Outcome, success, failure, timeout, reused_timed_out_flight, initial,
  admit, record_outcome, discard_probe, delay, phase_for,
}

-- A circuit outside a probe is open exactly from the threshold of failures on, and half open exactly
-- during a probe; it waits only after a failure.
pub record IsConsistent (l : Limits) (c : Circuit) : Type 0 where
  pub settled : (c.probe_in_flight ≡ true) ⊎ (c.phase ≡ phase_for l c.consecutive_failures)
  pub in_flight : (c.probe_in_flight ≡ false) ⊎ (c.phase ≡ half_open)
  pub waits : (1 ≤ c.consecutive_failures) ⊎ (c.next_attempt_at ≡ 0)

-- A step of the registry for one adapter: it asks for admission, and later reports an outcome or
-- discards the probe.
pub data Step : Type 0 where
  admits : ℕ → Bool → Step
  reports : ℕ → Bool → Outcome → Step
  discards : Bool → Step

module _ (l : Limits) where
  unfoldable pub step : Circuit → Step → Circuit
  step c (admits now force) = (admit l now force c).0
  step c (reports now probe o) = (record_outcome l now probe o c).0
  step c (discards probe) = discard_probe l probe c

  unfoldable pub run : Circuit → List Step → Circuit
  unfolding step
  run c [] = c
  run c (x ∷ xs) = run (step c x) xs

  initial-IsConsistent : 0 < l.threshold → IsConsistent l initial
  initial-IsConsistent h = record {
    settled = inr (ground arith);
    in_flight = inl refl;
    waits = inr refl;
  }

  step-IsConsistent :
      (c : Circuit) (x : Step) → 0 < l.threshold → IsConsistent l c → IsConsistent l (step c x)
  unfolding step admit record_outcome discard_probe
  step-IsConsistent c (admits now force) h v = ground arith
  step-IsConsistent c (reports now probe success) h v = ground arith
  step-IsConsistent c (reports now probe _) h v = ground arith
  step-IsConsistent c (discards probe) h v = ground arith

  run_from-IsConsistent :
      (c : Circuit) (xs : List Step)
      → 0 < l.threshold
      → IsConsistent l c
      → IsConsistent l (run c xs)
  unfolding run
  run_from-IsConsistent c [] h v = v
  run_from-IsConsistent c (x ∷ xs) h v =
      run_from-IsConsistent (step c x) xs h (step-IsConsistent c x h v)

  -- With a positive threshold, whatever admissions, reports and discards an adapter has had: outside
  -- a probe its circuit is open exactly from the threshold of failures on and closed below it, during
  -- a probe it is half open, and without a failure it has nothing to wait for.
  pub run-IsConsistent : (xs : List Step) → 0 < l.threshold → IsConsistent l (run initial xs)
  run-IsConsistent xs h = run_from-IsConsistent initial xs h (initial-IsConsistent h)

  -- Admissions alone.
  abbrev pub admissions : List (ℕ × Bool) → List Step
  admissions [] = []
  admissions ((now, force) ∷ xs) = admits now force ∷ admissions xs

  admit_in_flight :
      (c : Circuit) (now : ℕ) (force : Bool)
      → c.probe_in_flight ≡ true
      → (admit l now force c).0 ≡ c
  unfolding admit
  admit_in_flight c now force h = ground arith

  in_flight_stays :
      (c : Circuit) (xs : List (ℕ × Bool)) → c.probe_in_flight ≡ true → run c (admissions xs) ≡ c
  unfolding run
  in_flight_stays c [] h = refl
  in_flight_stays c ((now, force) ∷ xs) h =
      ap (λ d. run d (admissions xs)) (admit_in_flight c now force h) ∙ in_flight_stays c xs h

  -- Once an admission has started a probe, every later admission, forced or not, is refused until an
  -- outcome is reported or the probe is discarded.
  pub one_probe :
      (c : Circuit) (now later : ℕ) (force again : Bool) (xs : List (ℕ × Bool))
      → (admit l now force c).1.probe ≡ true
      → (admit l later again (run (admit l now force c).0 (admissions xs))).1.allowed ≡ false
  one_probe c now later force again xs h =
      let held : (admit l now force c).0.probe_in_flight ≡ true = unfold admit in ground arith in
      rw (in_flight_stays (admit l now force c).0 xs held) (unfold admit in ground arith)

  -- After a failure or a timeout at the time t, an unforced discovery is admitted exactly from
  -- t + delay on, where the delay counts the failures before.
  pub admit-after_failure :
      (c : Circuit) (t now : ℕ) (probe : Bool) (o : Outcome)
      → (o ≡ failure) ⊎ (o ≡ timeout)
      → (admit l now false (record_outcome l t probe o c).0).1.allowed
        ≡ leb (t + delay l c.consecutive_failures) now
  unfolding admit record_outcome
  admit-after_failure c t now probe success h = ground arith
  admit-after_failure c t now probe reused_timed_out_flight h = ground arith
  admit-after_failure c t now probe _ h = ground arith

  -- With a base that is at most the maximum, the first delay is the base, each further one is twice
  -- the one before, or the maximum where that is less, and all lie between the base and the maximum.
  pub delay_bounds :
      (n : ℕ)
      → l.base_ms ≤ l.max_ms
      → (delay l 0 ≡ l.base_ms)
        × (l.base_ms ≤ delay l n)
        × (delay l n ≤ l.max_ms)
        × (delay l (suc n) ≡ min l.max_ms (2 * delay l n))
  unfolding delay
  delay_bounds n h =
      let positive : 1 ≤ 2 ^ n = one-le-pow n 2 (omega arith) in
      let grows : l.base_ms ≤ l.base_ms * 2 ^ n = grind arith in
      let doubled : 2 ^ suc n ≡ 2 * 2 ^ n = omega (arith, pow-suc 2 n) in
      (omega arith, omega arith, omega arith, rw doubled (omega arith))

  -- A success closes the circuit: the next discovery is admitted at any time, forced or not, and is
  -- no probe.
  pub admit-after_success :
      (c : Circuit) (t now : ℕ) (probe force : Bool)
      → (admit l now force (record_outcome l t probe success c).0).1
        ≡ record { allowed = true; probe = false }
  unfolding admit record_outcome
  admit-after_success c t now probe force = ground arith

  -- Forced probes keep their distance: if a forced probe at the time t fails or times out, a forced
  -- discovery before t + forced_probe_min_ms is refused.
  pub forced_probes_apart :
      (c : Circuit) (t done now : ℕ) (o : Outcome)
      → (o ≡ failure) ⊎ (o ≡ timeout)
      → (admit l t true c).1.probe ≡ true
      → now < t + l.forced_probe_min_ms
      → (admit l now true (record_outcome l done true o (admit l t true c).0).0).1.allowed ≡ false
  unfolding admit record_outcome
  forced_probes_apart c t done now success h p near = ground arith
  forced_probes_apart c t done now reused_timed_out_flight h p near = ground arith
  forced_probes_apart c t done now _ h p near = ground arith
