-- ===== src/Launch/Coordinator/Serving.antt =====
-- Nothing waits that could run, and nothing starts once the coordinator stops.
use agent_host.Common.{
  ℕ, zero, suc, ◌≤◌, ◌≡◌, refl, sym, ap, ◌∙◌, ◌⊎◌, true, false, ◌||◌, List, [], ◌∷◌, arith,
  if-cases, length, any, inl, inr, Option-cases,
}
use mathlib.Core.Path.{subst}
use agent_host.Common.Maps.{get, has}
use agent_host.Launch.Coordinator.{
  Item, Entry, Coordinator, take_first, is_free, has_room, enqueue, begin_run, pump_loop, pump,
  begin_retirement_run, pump_retirements_loop, pump_retirements, track_retirement, end_run,
  end_retirement_run, stop, Event, enqueues, pumps, stops, run_ends, retirement_ends, retires, step,
  run,
}
use agent_host.Launch.Coordinator.Waiting.{Takes, take_first-Takes}

-- Every place is taken, or every queued launch has a provider that is busy.
abbrev pub IsServed : Coordinator → Type 0
IsServed s =
    (has_room s ≡ false)
    ⊎ (any (λ (i : Item). is_free s.active_providers i.provider) s.queue ≡ false)

pump_loop-IsServed : (n : ℕ) (s : Coordinator) → length s.queue ≤ n → IsServed (pump_loop n s)
unfolding pump_loop begin_run
pump_loop-IsServed zero s le = inr (nothing s.queue le)
  where
    nothing :
        (q : List Item)
        → length q ≤ 0
        → any (λ (i : Item). is_free s.active_providers i.provider) q ≡ false
    nothing [] le = refl
    nothing (i ∷ q) le = absurd (omega arith)
pump_loop-IsServed (suc n) s le =
    if-cases IsServed (has_room s) _ _
      (λ room.
        let fits = λ (i : Item). is_free s.active_providers i.provider in
        elim (Option-cases (take_first fits s.queue)) [
          | inl e ↦ rw e (inr (subst (Takes fits s.queue) e (take_first-Takes fits s.queue)))
          | inr (found, e) ↦
              let t = subst (Takes fits s.queue) e (take_first-Takes fits s.queue) in
              rw e (pump_loop-IsServed n (begin_run found.0 found.1 s) (omega (arith, t.1)))
        ])
      λ full. inl full

-- After #pump of a coordinator that does not drain, all four places are taken or every queued launch
-- has a provider with a run.
pub pump-IsServed : (s : Coordinator) → s.draining ≡ false → IsServed (pump s)
unfolding pump
pump-IsServed s going =
    if-cases IsServed s.draining _ _ (λ draining. absurd (cc))
      λ _. pump_loop-IsServed (length s.queue) s (omega arith)

pump_retirements_loop-draining :
    (n : ℕ) (s : Coordinator) → (pump_retirements_loop n s).draining ≡ s.draining
unfolding pump_retirements_loop begin_retirement_run
pump_retirements_loop-draining zero s = refl
pump_retirements_loop-draining (suc n) s =
    if-cases (λ (v : Coordinator). v.draining ≡ s.draining) (has_room s) _ _
      (λ room.
        elim (Option-cases
          (take_first (λ (e : Entry). is_free s.active_providers e.provider) s.retirement_queue)) [
            | inl e ↦ rw e refl
            | inr (found, e) ↦
                rw e (pump_retirements_loop-draining n (begin_retirement_run found.0 found.1 s))
          ])
      λ full. refl

pub pump_retirements-draining : (s : Coordinator) → (pump_retirements s).draining ≡ s.draining
unfolding pump_retirements
pump_retirements-draining s =
    if-cases (λ (v : Coordinator). v.draining ≡ s.draining) s.draining _ _ (λ _. refl)
      λ _. pump_retirements_loop-draining (length s.retirement_queue) s

-- What a coordinator that drains has begun.
abbrev IsQuiet : Coordinator → Coordinator → Type 0
IsQuiet s v = (v.draining ≡ true) × (v.runs ≡ s.runs) × (v.retirement_runs ≡ s.retirement_runs)

pump_drained : (s : Coordinator) → s.draining ≡ true → (pump s ≡ s) × (pump_retirements s ≡ s)
unfolding pump pump_retirements
pump_drained s d = rw d (refl, refl)

ended-IsQuiet :
    (s v : Coordinator)
    → v.draining ≡ true
    → IsQuiet s v
    → IsQuiet s (pump (pump_retirements v)) × IsQuiet s (pump_retirements (pump v))
ended-IsQuiet s v d quiet =
    let still = pump_drained v d in
    (
      subst (IsQuiet s) (sym (ap pump still.1 ∙ still.0)) quiet,
      subst (IsQuiet s) (sym (ap pump_retirements still.0 ∙ still.1)) quiet,
    )

step-IsQuiet : (e : Event) (s : Coordinator) → s.draining ≡ true → IsQuiet s (step e s)
unfolding step enqueue stop track_retirement end_run end_retirement_run
step-IsQuiet (enqueues item) s d =
    if-cases (IsQuiet s) (s.draining || has item.id s.queued || has item.id s.active) _ _
      (λ _. (d, refl, refl)) λ new. (d, refl, refl)
step-IsQuiet pumps s d = subst (IsQuiet s) (sym (pump_drained s d).0) (d, refl, refl)
step-IsQuiet stops s d =
    if-cases (IsQuiet s) s.draining _ _ (λ _. (d, refl, refl)) λ going. absurd (cc)
step-IsQuiet (run_ends id) s d = elim (Option-cases (get id s.active)) [
  | inl e ↦ rw (step, e) (d, refl, refl)
  | inr (item, e) ↦ rw (step, e) (ended-IsQuiet s _ d (d, refl, refl)).0
]
step-IsQuiet (retirement_ends id) s d = elim (Option-cases (get id s.active_retirements)) [
  | inl e ↦ rw (step, e) (d, refl, refl)
  | inr (entry, e) ↦ rw (step, e) (ended-IsQuiet s _ d (d, refl, refl)).1
]
step-IsQuiet (retires id provider) s d =
    if-cases (IsQuiet s) (s.draining || has id s.retirements) _ _ (λ _. (d, refl, refl))
      λ new. absurd (ground arith)

draining-IsQuiet : (es : List Event) (s : Coordinator) → s.draining ≡ true → IsQuiet s (run es s)
unfolding run
draining-IsQuiet [] s d = (d, refl, refl)
draining-IsQuiet (e ∷ es) s d =
    let one = step-IsQuiet e s d in
    let rest = draining-IsQuiet es (step e s) one.0 in (rest.0, rest.1 ∙ one.1, rest.2 ∙ one.2)

stop-IsQuiet : (s : Coordinator) → IsQuiet s (stop s)
unfolding stop
stop-IsQuiet s = if-cases (IsQuiet s) s.draining _ _ (λ d. (d, refl, refl)) λ _. (refl, refl, refl)

-- After `stop`, whatever happens, no further launch or retirement begins to run.
pub run-stop :
    (es : List Event) (s : Coordinator)
    → ((run es (stop s)).runs ≡ s.runs) × ((run es (stop s)).retirement_runs ≡ s.retirement_runs)
run-stop es s =
    let stopped = stop-IsQuiet s in
    let after = draining-IsQuiet es (stop s) stopped.0 in (after.1 ∙ stopped.1, after.2 ∙ stopped.2)
