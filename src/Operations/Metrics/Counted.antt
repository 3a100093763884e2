-- ===== src/Operations/Metrics/Counted.antt =====
-- What the histograms and the counters hold after a history of calls.
use agent_host.Common.{
  ℕ, ◌+◌, String, ◌≡◌, refl, ap, ◌∙◌, ◌&&◌, Option, some, List, [], ◌∷◌, ◌++◌, inl, inr, arith,
  ◌=?◌, eq_iff, if◌then◌else◌, if-cases, get_or, Bool-cases,
}
use agent_host.Common.Maps.{Map, get, set, get-set}
use agent_host.Operations.Metrics.Summary.{histogram_of, after, after-none}
use agent_host.Operations.Metrics.{
  Histogram, Metrics, Series, series, empty, increment, set_gauge, added, observe, Call, increments,
  sets, observes, step, run, initial, among, counters, gauges, histograms,
}

module _ (stringify : Series → String) where
  -- The observations that a history makes of the series with this key, in their order.
  abbrev pub observed_of : String → List Call → List ℕ
  observed_of key [] = []
  observed_of key (observes name value given ∷ cs) =
      if among name histograms && stringify (series name given) =? key
      then value ∷ observed_of key cs
      else observed_of key cs
  observed_of key (_ ∷ cs) = observed_of key cs

  -- What a history adds to the counter with this key.
  abbrev pub counted_of : String → List Call → ℕ
  counted_of key [] = 0
  counted_of key (increments name given amount ∷ cs) =
      if among name counters && stringify (series name given) =? key
      then amount + counted_of key cs
      else counted_of key cs
  counted_of key (_ ∷ cs) = counted_of key cs

  get-added :
      (key k : String) (v : ℕ) (m : Map Histogram)
      → get key (set k (added v (get_or (get k m) empty)) m)
        ≡ after (if k =? key then v ∷ [] else []) (get key m)
  unfolding after
  get-added key k v m =
      let new = added v (get_or (get k m) empty) in
      elim (Bool-cases (k =? key)) [
        | inl same ↦
            let keys : k ≡ key = (eq_iff k key).0 same in
            get-set k key new m ∙ rw same (ap (λ j. some (added v (get_or (get j m) empty))) keys)
        | inr other ↦ get-set k key new m ∙ rw other refl
      ]

  step-observed :
      (key : String) (c : Call) (m : Metrics)
      → get key (step stringify c m).observations
        ≡ after (observed_of key (c ∷ [])) (get key m.observations)
  unfolding step increment set_gauge observe after
  step-observed key (increments name given amount) m =
      let Same =
        λ (o : Option Metrics). get key (get_or o m).observations ≡ get key m.observations in
      if-cases Same (among name counters) _ _ (λ _. refl) λ _. refl
  step-observed key (sets name value given) m =
      let Same =
        λ (o : Option Metrics). get key (get_or o m).observations ≡ get key m.observations in
      if-cases Same (among name gauges) _ _ (λ _. refl) λ _. refl
  step-observed key (observes name value given) m = elim (Bool-cases (among name histograms)) [
    | inl known ↦ rw known (get-added key (stringify (series name given)) value m.observations)
    | inr unknown ↦ rw unknown refl
  ]

  after-append :
      (vs ws : List ℕ) (o : Option Histogram) → after (vs ++ ws) o ≡ after ws (after vs o)
  unfolding after
  after-append [] ws o = refl
  after-append (v ∷ vs) ws o = after-append vs ws _

  observed_of-one :
      (key : String) (c : Call) (cs : List Call)
      → observed_of key (c ∷ cs) ≡ observed_of key (c ∷ []) ++ observed_of key cs
  observed_of-one key (increments name given amount) cs = refl
  observed_of-one key (sets name value given) cs = refl
  observed_of-one key (observes name value given) cs = ground arith

  run-observed :
      (key : String) (cs : List Call) (m : Metrics)
      → get key (run stringify cs m).observations
        ≡ after (observed_of key cs) (get key m.observations)
  unfolding run after
  run-observed key [] m = refl
  run-observed key (c ∷ cs) m =
      rw
        (
          observed_of-one key c cs,
          after-append (observed_of key (c ∷ [])) (observed_of key cs) (get key m.observations),
        )
        (run-observed key cs (step stringify c m)
          ∙ ap (after (observed_of key cs)) (step-observed key c m))

  counts-set :
      (key k : String) (n : ℕ) (m : Map ℕ)
      → get_or (get key (set k (get_or (get k m) 0 + n) m)) 0
        ≡ get_or (get key m) 0 + (if k =? key then n else 0)
  counts-set key k n m = elim (Bool-cases (k =? key)) [
    | inl same ↦
        let keys : k ≡ key = (eq_iff k key).0 same in
        rw (get-set k key (get_or (get k m) 0 + n) m, same) (ap (λ j. get_or (get j m) 0 + n) keys)
    | inr other ↦ rw (get-set k key (get_or (get k m) 0 + n) m, other) (omega arith)
  ]

  step-counted :
      (key : String) (c : Call) (m : Metrics)
      → get_or (get key (step stringify c m).counts) 0
        ≡ get_or (get key m.counts) 0 + counted_of key (c ∷ [])
  unfolding step increment set_gauge observe
  step-counted key (increments name given amount) m =
      let k = stringify (series name given) in
      elim (Bool-cases (among name counters)) [
        | inl known ↦ rw known (counts-set key k amount m.counts ∙ ground arith)
        | inr unknown ↦ rw unknown (omega arith)
      ]
  step-counted key (sets name value given) m =
      let Same = λ (o : Option Metrics).
        get_or (get key (get_or o m).counts) 0 ≡ get_or (get key m.counts) 0 + 0 in
      if-cases Same (among name gauges) _ _ (λ _. omega arith) λ _. omega arith
  step-counted key (observes name value given) m =
      let Same = λ (o : Option Metrics).
        get_or (get key (get_or o m).counts) 0 ≡ get_or (get key m.counts) 0 + 0 in
      if-cases Same (among name histograms) _ _ (λ _. omega arith) λ _. omega arith

  counted_of-one :
      (key : String) (c : Call) (cs : List Call)
      → counted_of key (c ∷ cs) ≡ counted_of key (c ∷ []) + counted_of key cs
  counted_of-one key (increments name given amount) cs = ground arith
  counted_of-one key (sets name value given) cs = omega arith
  counted_of-one key (observes name value given) cs = omega arith

  run-counted :
      (key : String) (cs : List Call) (m : Metrics)
      → get_or (get key (run stringify cs m).counts) 0
        ≡ get_or (get key m.counts) 0 + counted_of key cs
  unfolding run
  run-counted key [] m = omega arith
  run-counted key (c ∷ cs) m = omega (
    arith,
    run-counted key cs (step stringify c m),
    step-counted key c m,
    counted_of-one key c cs,
  )

  -- After every history of new metrics, the histogram of a series is the one of the values that were
  -- observed of it: nine buckets, each with the number of values up to its bound, the last without a
  -- bound, and the number, the sum and the greatest of all values; a series with no value has none. And
  -- the counter of a series is the sum of its increments. Calls of unknown names count for nothing.
  pub run-histogram_of :
      (key : String) (cs : List Call)
      → (get key (run stringify cs initial).observations ≡ histogram_of (observed_of key cs))
        × (get_or (get key (run stringify cs initial).counts) 0 ≡ counted_of key cs)
  unfolding get
  run-histogram_of key cs = (
    run-observed key cs initial ∙ after-none (observed_of key cs),
    omega (arith, run-counted key cs initial),
  )
