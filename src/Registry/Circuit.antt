-- ===== src/Registry/Circuit.antt =====
-- The circuit breaker of an adapter: `#admitAdapter`, `#recordCircuitOutcome` and
-- `#discardCircuitProbe`. Times are milliseconds; `none` as the last forced probe is -Infinity.
pub mod Laws
use agent_host.Common.{
  ℕ, suc, ◌+◌, ◌-◌, ◌*◌, ◌^◌, ◌≤◌, ◌<◌, min, Bool, true, false, ◌&&◌, ◌||◌, not, Option, none, some,
  ◌==◌, ltb, leb, if◌then◌else◌,
}

pub data Phase : Type 0 where
  closed open_phase half_open : Phase

pub record Circuit : Type 0 where
  pub phase : Phase
  pub consecutive_failures : ℕ
  pub next_attempt_at : ℕ
  pub probe_in_flight : Bool
  pub last_forced_probe_at : Option ℕ

pub record Limits : Type 0 where
  pub base_ms : ℕ
  pub max_ms : ℕ
  pub threshold : ℕ
  pub forced_probe_min_ms : ℕ

-- The constructor's checks; the defaults are those of the source.
unfoldable pub valid_limits : Limits → Bool
valid_limits l =
    ltb 0 l.base_ms
    && ltb 0 l.max_ms
    && ltb 0 l.threshold
    && ltb 0 l.forced_probe_min_ms
    && leb l.base_ms l.max_ms

abbrev pub default_limits : Limits
default_limits = record {
  base_ms = 1_000;
  max_ms = 60_000;
  threshold = 3;
  forced_probe_min_ms = 1_000;
}

abbrev pub initial : Circuit
initial = record {
  phase = closed;
  consecutive_failures = 0;
  next_attempt_at = 0;
  probe_in_flight = false;
  last_forced_probe_at = none;
}

pub record Admission : Type 0 where
  pub allowed : Bool
  pub probe : Bool

abbrev pub refused : Admission
refused = record { allowed = false; probe = false }

abbrev pub is_closed : Phase → Bool
is_closed closed = true
is_closed _ = false

abbrev pub is_open : Phase → Bool
is_open open_phase = true
is_open _ = false

-- `now - circuit.lastForcedProbeAt < forcedProbeMinMs`, where the clock may have gone back.
abbrev pub forced_too_soon : Limits → ℕ → Option ℕ → Bool
forced_too_soon l now none = false
forced_too_soon l now (some t) = ltb now (t + l.forced_probe_min_ms)

abbrev pub probing : Circuit → Circuit
probing c = record c { phase = half_open; probe_in_flight = true }

-- `#admitAdapter`
unfoldable pub admit : Limits → ℕ → Bool → Circuit → Circuit × Admission
admit l now force c =
    if c.probe_in_flight
    then (c, refused)
    else if force
    then (if ltb 0 c.consecutive_failures && forced_too_soon l now c.last_forced_probe_at
        then (c, refused)
        else if not (is_closed c.phase) || ltb 0 c.consecutive_failures
        then (
          record (probing c) { last_forced_probe_at = some now },
          record { allowed = true; probe = true },
        )
        else (c, record { allowed = true; probe = false }))
    else if ltb now c.next_attempt_at
    then (c, refused)
    else if is_open c.phase
    then (probing c, record { allowed = true; probe = true })
    else (c, record { allowed = true; probe = false })

-- What a discovery came to; a timeout may be that of a flight which had timed out before.
pub data Outcome : Type 0 where
  success failure timeout reused_timed_out_flight : Outcome

abbrev pub phase_for : Limits → ℕ → Phase
phase_for l failures = if leb l.threshold failures then open_phase else closed

-- `Math.min(circuitMaxMs, circuitBaseMs * 2 ** (consecutiveFailures - 1))`, after `n` failures
-- before this one.
unfoldable pub delay : Limits → ℕ → ℕ
delay l n = min l.max_ms (l.base_ms * 2 ^ n)

-- What `#recordCircuitOutcome` counts in the metrics.
pub record Counts : Type 0 where
  pub reconnects : ℕ
  pub failures : ℕ
  pub probes : ℕ

abbrev one_when : Bool → ℕ
one_when b = if b then 1 else 0

-- `#recordCircuitOutcome`
unfoldable pub record_outcome : Limits → ℕ → Bool → Outcome → Circuit → Circuit × Counts
unfolding delay
record_outcome l now probe success c = (
  record c {
    phase = closed;
    consecutive_failures = 0;
    next_attempt_at = 0;
    probe_in_flight = false;
  },
  record {
    reconnects = one_when (ltb 0 c.consecutive_failures);
    failures = 0;
    probes = one_when probe;
  },
)
record_outcome l now probe reused_timed_out_flight c = (
  record c {
    phase = phase_for l c.consecutive_failures;
    probe_in_flight = false;
    last_forced_probe_at = none;
  },
  record { reconnects = 0; failures = 0; probes = 0 },
)
record_outcome l now probe _ c = (
  record c {
    consecutive_failures = suc c.consecutive_failures;
    next_attempt_at = now + delay l c.consecutive_failures;
    phase = phase_for l (suc c.consecutive_failures);
    probe_in_flight = false;
  },
  record { reconnects = 0; failures = 1; probes = one_when probe },
)

-- `#discardCircuitProbe`
unfoldable pub discard_probe : Limits → Bool → Circuit → Circuit
discard_probe l probe c = if not probe then c else record c {
  phase = phase_for l c.consecutive_failures;
  probe_in_flight = false;
  last_forced_probe_at = none;
}
