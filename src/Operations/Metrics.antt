-- ===== src/Operations/Metrics.antt =====
-- src/operations/metrics.js: counters, gauges and histograms. Observed values and levels are whole
-- numbers from 0 on, as at every call in the source (`Math.max(0, ...)` of a difference of clock
-- milliseconds, the size of a queue or of a map). The JSON text of a series is a parameter.
pub mod Summary
pub mod Counted
use agent_host.Common.{
  ℕ, suc, ◌+◌, max, leb, String, Bool, true, false, Option, none, some, List, [], ◌∷◌, ◌=?◌,
  if◌then◌else◌, any, map, get_or, length,
}
use agent_host.Common.Results.{Result, ok, err}
use agent_host.Common.Maps.{Map}
use agent_host.Common.Maps

-- HISTOGRAM_BUCKETS_MS; `none` is Infinity.
abbrev pub histogram_buckets_ms : List (Option ℕ)
histogram_buckets_ms =
    some 10
    ∷ some 50
    ∷ some 100
    ∷ some 250
    ∷ some 500
    ∷ some 1_000
    ∷ some 5_000
    ∷ some 20_000
    ∷ none
    ∷ []

abbrev pub counters : List String
counters =
    "adapter_failures" ∷ "adapter_reconnects" ∷ "circuit_skips" ∷ "circuit_probes"
    ∷ "sse_connections" ∷ "sse_reconnects" ∷ "sse_overflows" ∷ "actions_rejected"
    ∷ "launches_rejected" ∷ []

abbrev pub gauges : List String
gauges = "event_subscribers" ∷ "action_queue_depth" ∷ "launch_queue_depth" ∷ "sse_queue_depth" ∷ []

abbrev pub histograms : List String
histograms = "refresh_duration_ms" ∷ "action_latency_ms" ∷ "launch_latency_ms" ∷ []

abbrev pub labels : Map (List String)
labels =
    ("adapter_failures", "adapter" ∷ [])
    ∷ ("adapter_reconnects", "adapter" ∷ [])
    ∷ ("circuit_skips", "adapter" ∷ [])
    ∷ ("circuit_probes", "adapter" ∷ "outcome" ∷ [])
    ∷ ("sse_reconnects", "transport" ∷ [])
    ∷ ("actions_rejected", "code" ∷ [])
    ∷ ("launches_rejected", "code" ∷ [])
    ∷ ("action_latency_ms", "actionKind" ∷ "outcome" ∷ [])
    ∷ ("launch_latency_ms", "provider" ∷ "outcome" ∷ [])
    ∷ []

abbrev pub label_values : Map (List String)
label_values =
    ("adapter", "codex" ∷ "cursor-sdk" ∷ "herdr" ∷ "process" ∷ "demo" ∷ "other" ∷ [])
    ∷ ("transport", "dashboard_sse" ∷ "codex_rpc" ∷ "other" ∷ [])
    ∷ (
      "actionKind",
      "prompt" ∷ "send-keys" ∷ "approve" ∷ "reject" ∷ "interrupt" ∷ "focus" ∷ "read" ∷ "other" ∷ [],
    )
    ∷ ("provider", "cursor" ∷ "demo" ∷ "other" ∷ [])
    ∷ ("outcome", "success" ∷ "failure" ∷ "timeout" ∷ "other" ∷ [])
    ∷ ("code", "queue_full" ∷ "shutting_down" ∷ "other" ∷ [])
    ∷ []

abbrev pub among : String → List String → Bool
among x xs = any (λ y. y =? x) xs

-- `none` is a label that was not given.
unfoldable pub normalize_label : String → Option String → String
normalize_label key value =
    let candidate = get_or value "other" in
    if among candidate (get_or (Maps.get key label_values) []) then candidate else "other"

-- The name and the labels of a series, in the order of the allowed labels.
abbrev pub Series : Type 0
Series = String × Map {0} String

unfoldable pub series : String → Map {0} String → Series
unfolding normalize_label
series name given = (
  name,
  map (λ key. (key, normalize_label key (Maps.get key given))) (get_or (Maps.get name labels) []),
)

-- `none` is the bound "+Inf".
pub record Bucket : Type 0 where
  pub upper_bound : Option ℕ
  pub count : ℕ

pub record Histogram : Type 0 where
  pub count : ℕ
  pub sum : ℕ
  pub max : ℕ
  pub buckets : List Bucket

pub record Metrics : Type 0 where
  pub counts : Map {0} ℕ
  pub levels : Map {0} ℕ
  pub observations : Map Histogram

abbrev pub empty : Histogram
empty = record {
  count = 0;
  sum = 0;
  max = 0;
  buckets = map (λ b. record { upper_bound = b; count = 0 }) histogram_buckets_ms;
}

abbrev pub is_within : ℕ → Option ℕ → Bool
is_within observed none = true
is_within observed (some bound) = leb observed bound

unfoldable pub observed_in : ℕ → List Bucket → List Bucket
observed_in observed [] = []
observed_in observed (b ∷ bs) =
    (if is_within observed b.upper_bound then record b { count = suc b.count } else b)
    ∷ observed_in observed bs

unfoldable pub added : ℕ → Histogram → Histogram
unfolding observed_in
added observed g = record {
  count = suc g.count;
  sum = g.sum + observed;
  max = max g.max observed;
  buckets = observed_in observed g.buckets;
}

-- The JSON text of a series.
module _ (stringify : Series → String) where
  -- `increment`; `none` is the error of an unknown name.
  unfoldable pub increment : String → Map {0} String → ℕ → Metrics → Option (Metrics)
  unfolding series
  increment name given amount m =
      let key = stringify (series name given) in
      if among name counters
      then some
          (record m { counts = Maps.set key (get_or (Maps.get key m.counts) 0 + amount) m.counts })
      else none

  -- `setGauge` with a finite number.
  unfoldable pub set_gauge : String → ℕ → Map {0} String → Metrics → Option (Metrics)
  unfolding series
  set_gauge name value given m =
      if among name gauges
      then some (record m { levels = Maps.set (stringify (series name given)) value m.levels })
      else none

  -- `observe` of a finite number.
  unfoldable pub observe : String → ℕ → Map {0} String → Metrics → Option (Metrics)
  unfolding series
  observe name observed given m =
      let key = stringify (series name given) in
      if among name histograms
      then some (record m {
        observations =
            Maps.set key (added observed (get_or (Maps.get key m.observations) empty))
              m.observations;
      })
      else none

-- A call with its arguments.
pub data Call : Type 0 where
  increments : String → Map {0} String → ℕ → Call
  sets observes : String → ℕ → Map {0} String → Call

abbrev pub initial : Metrics
initial = record { counts = []; levels = []; observations = [] }

module _ (stringify : Series → String) where
  -- The metrics after a call, whether or not it throws.
  unfoldable pub step : Call → Metrics → Metrics
  unfolding increment set_gauge observe
  step (increments name given amount) m = get_or (increment stringify name given amount m) m
  step (sets name value given) m = get_or (set_gauge stringify name value given m) m
  step (observes name value given) m = get_or (observe stringify name value given m) m

  unfoldable pub run : List (Call) → Metrics → Metrics
  unfolding step
  run [] m = m
  run (c ∷ cs) m = run cs (step c m)
