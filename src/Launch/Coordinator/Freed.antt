-- ===== src/Launch/Coordinator/Freed.antt =====
-- What the end of a launch's run frees, and that what waits takes it.
use agent_host.Common.{
  ℕ, zero, suc, ◌+◌, String, ◌≡◌, refl, ap, ◌∙◌, ◌⊎◌, false, some, none, List, [], ◌∷◌, arith,
  if-cases, length, any, All, inl, inr, one_if, ◌=?◌, eq_iff, Option-cases,
}
use mathlib.Core.Path.{subst}
use agent_host.Common.Maps.{get, has, delete, AllEntries-get}
use agent_host.Launch.Coordinator.{
  Item, Entry, Coordinator, initial, take_first, is_free, has_room, begin_run, pump_loop, pump,
  begin_retirement_run, pump_retirements_loop, pump_retirements, end_run, Event, run_ends,
  give_back, step, run,
}
use agent_host.Launch.Coordinator.Waiting.{
  Takes, take_first-Takes, has-set, has-delete, has-get-none, has-get-some,
}
use agent_host.Launch.Coordinator.Rounds.{waiting, runs_of, IsScheduled}
use agent_host.Launch.Coordinator.Scheduled.{run-IsScheduled, step-IsScheduled}
use agent_host.Launch.Coordinator.Serving.{IsServed, pump-IsServed, pump_retirements-draining}

-- A launch that neither waits nor runs.
abbrev IsIdle : String → Coordinator → Type 0
IsIdle id s = (waiting id s.queue ≡ 0) × (has id s.active ≡ false)

-- Only a launch that waits begins to run.
pump_loop-IsIdle : (id : String) (n : ℕ) (s : Coordinator) → IsIdle id s → IsIdle id (pump_loop n s)
unfolding pump_loop begin_run
pump_loop-IsIdle id zero s idle = idle
pump_loop-IsIdle id (suc n) s idle =
    if-cases (IsIdle id) (has_room s) _ _
      (λ room.
        let fits = λ (i : Item). is_free s.active_providers i.provider in
        elim (Option-cases (take_first fits s.queue)) [
          | inl e ↦ rw e idle
          | inr (found, e) ↦
              let t = subst (Takes fits s.queue) e (take_first-Takes fits s.queue) in
              let taken = t.2 (λ i. one_if (i.id =? id)) in
              rw e (
                pump_loop-IsIdle id n (begin_run found.0 found.1 s) (
                  ground (arith, taken, idle.0),
                  ground (arith, taken, idle.0, idle.1, has-set (found.0).id id found.0 s.active),
                ))
        ])
      λ full. idle

pump-IsIdle : (id : String) (s : Coordinator) → IsIdle id s → IsIdle id (pump s)
unfolding pump
pump-IsIdle id s idle =
    if-cases (IsIdle id) s.draining _ _ (λ _. idle) λ _. pump_loop-IsIdle id (length s.queue) s idle

pump_retirements_loop-IsIdle :
    (id : String) (n : ℕ) (s : Coordinator) → IsIdle id s → IsIdle id (pump_retirements_loop n s)
unfolding pump_retirements_loop begin_retirement_run
pump_retirements_loop-IsIdle id zero s idle = idle
pump_retirements_loop-IsIdle id (suc n) s idle =
    if-cases (IsIdle id) (has_room s) _ _
      (λ room.
        elim (Option-cases
          (take_first (λ (e : Entry). is_free s.active_providers e.provider) s.retirement_queue)) [
            | inl e ↦ rw e idle
            | inr (found, e) ↦
                rw e
                  (pump_retirements_loop-IsIdle id n (begin_retirement_run found.0 found.1 s) idle)
          ])
      λ full. idle

pump_retirements-IsIdle :
    (id : String) (s : Coordinator) → IsIdle id s → IsIdle id (pump_retirements s)
unfolding pump_retirements
pump_retirements-IsIdle id s idle =
    if-cases (IsIdle id) s.draining _ _ (λ _. idle)
      λ _. pump_retirements_loop-IsIdle id (length s.retirement_queue) s idle

end_run-IsIdle :
    (item : Item) (s : Coordinator)
    → IsScheduled s
    → get item.id s.active ≡ some item
    → IsIdle item.id (end_run item s)
unfolding end_run
end_run-IsIdle item s ok found =
    let freed : Coordinator = record s {
      active = delete item.id s.active;
      active_providers = give_back item.provider s.active_providers;
    } in
    pump-IsIdle item.id (pump_retirements freed) (
      pump_retirements-IsIdle item.id freed (
        omega (arith, ok.once item.id, ap one_if (has-get-some item.id item s.active found)),
        ground (arith, has-delete item.id item.id s.active, eq_iff item.id item.id),
      ))

-- All places are taken, or the provider of every launch that waits has exactly one run.
abbrev pub AllBusy : Coordinator → Type 0
AllBusy s =
    (length s.active + length s.active_retirements ≡ 4)
    ⊎ All (λ (i : Item). runs_of i.provider s.active s.active_retirements ≡ 1) s.queue

served-AllBusy : (s : Coordinator) → IsScheduled s → IsServed s → AllBusy s
served-AllBusy s ok (inl full) = inl (ground (arith, ok.few, full))
served-AllBusy s ok (inr none_fits) = inr (busy s.queue none_fits)
  where
    busy :
        (q : List Item)
        → any (λ (i : Item). is_free s.active_providers i.provider) q ≡ false
        → All (λ (i : Item). runs_of i.provider s.active s.active_retirements ≡ 1) q
    busy [] e = tt
    busy (i ∷ q) e =
        (ground (arith, e, ok.counted i.provider, ok.alone i.provider), busy q (ground (arith, e)))

end_run-IsServed : (item : Item) (s : Coordinator) → s.draining ≡ false → IsServed (end_run item s)
unfolding end_run
end_run-IsServed item s going = pump-IsServed _ (pump_retirements-draining _ ∙ going)

-- Over every history of a new coordinator that does not drain by then, the end of a launch's run leaves
-- that launch without a run, and then all four places are taken, or the provider of every queued launch
-- has exactly one run.
pub step-run_ends :
    (es : List Event) (id : String) (item : Item)
    → (run es initial).draining ≡ false
    → get id (run es initial).active ≡ some item
    → (get id (step (run_ends id) (run es initial)).active ≡ none)
      × AllBusy (step (run_ends id) (run es initial))
unfolding step
step-run_ends es id item going running =
    let s = run es initial in
    let ok = run-IsScheduled es in
    let same : item.id ≡ id =
      AllEntries-get (λ j (i : Item). i.id ≡ j) id item s.active ok.filed running in
    let found : get item.id s.active ≡ some item = ap (λ j. get j s.active) same ∙ running in
    let ends : end_run item s ≡ step (run_ends id) s = rw (step, running) refl in
    let idle =
      subst (λ j. IsIdle j (step (run_ends id) s)) same
        (subst (IsIdle item.id) ends (end_run-IsIdle item s ok found)) in
    let served = subst IsServed ends (end_run-IsServed item s going) in
    (
      has-get-none id (step (run_ends id) s).active idle.1,
      served-AllBusy (step (run_ends id) s) (step-IsScheduled (run_ends id) s ok) served,
    )
