-- ===== src/Launch/Coordinator/Scheduled.antt =====
-- How many launches and retirements run at once, over any history of the coordinator.
use agent_host.Common.{
  ◌+◌, ◌≤◌, String, ◌≡◌, refl, ap, some, List, [], ◌∷◌, ◌∙◌, arith, if-cases, one_if, ◌=?◌, eq_iff,
  inl, inr, Bool-cases, Option-cases, ◌==◌,
}
use agent_host.Common.Maps.{
  Map, get, has, total, total-delete, delete-Keys, AllEntries-get, AllEntries-delete,
}
use agent_host.Launch.Coordinator.{
  Item, Entry, Coordinator, initial, forget, forget_all, end_run, end_retirement_run, stop, Event,
  enqueues, pumps, stops, run_ends, retirement_ends, retires, step, run,
}
use agent_host.Launch.Coordinator.Waiting.{
  in_use-give_back, length-delete_present, has-delete, has-get-some,
}
use agent_host.Launch.Coordinator.Rounds.{
  waiting_retirements, IsScheduled, pump-IsScheduled, pump_retirements-IsScheduled,
  enqueue-IsScheduled, track_retirement-IsScheduled,
}

end_run-IsScheduled :
    (item : Item) (s : Coordinator)
    → IsScheduled s
    → get item.id s.active ≡ some item
    → IsScheduled (end_run item s)
unfolding end_run
end_run-IsScheduled item s ok found = pump-IsScheduled _ (
    pump_retirements-IsScheduled _ record {
      few = omega (arith, length-delete_present item.id item s.active ok.active_keys found, ok.few);
      counted = λ p. omega (
        arith,
        in_use-give_back item.provider p s.active_providers,
        ok.counted p,
        total-delete (λ i. one_if (i.provider =? p)) item.id item s.active ok.active_keys found,
      );
      alone = λ p. omega (arith, in_use-give_back item.provider p s.active_providers, ok.alone p);
      active_keys = delete-Keys item.id s.active ok.active_keys;
      retirement_keys = ok.retirement_keys;
      filed = AllEntries-delete (λ id (i : Item). i.id ≡ id) item.id s.active ok.filed;
      retirements_filed = ok.retirements_filed;
      noted = ok.noted;
      once = λ id. ground (arith, ok.once id, has-delete item.id id s.active);
      retired_once = ok.retired_once;
    })

-- What is forgotten is one entry at most.
has-forget :
    (entry : Entry) (id : String) (m : Map Entry)
    → one_if (has id m) ≤ one_if (has id (forget entry m)) + one_if (entry.id =? id)
unfolding forget
has-forget entry id m = elim (Option-cases (get entry.id m)) [
  | inl e ↦ rw (forget, e) (omega arith)
  | inr (f, e) ↦
      rw (forget, e)
        (elim (Bool-cases (f.number == entry.number)) [
          | inl same ↦ rw same (ground (arith, has-delete entry.id id m))
          | inr other ↦ rw other (omega arith)
        ])
]

has-forget_all :
    (es : List Entry) (id : String) (m : Map Entry)
    → one_if (has id m) ≤ one_if (has id (forget_all es m)) + waiting_retirements id es
unfolding has forget_all
has-forget_all [] id m = omega arith
has-forget_all (e ∷ es) id m = omega (arith, has-forget e id m, has-forget_all es id (forget e m))

end_retirement_run-IsScheduled :
    (entry : Entry) (s : Coordinator)
    → IsScheduled s
    → get entry.id s.active_retirements ≡ some entry
    → IsScheduled (end_retirement_run entry s)
unfolding end_retirement_run
end_retirement_run-IsScheduled entry s ok found = pump_retirements-IsScheduled _ (
    pump-IsScheduled _ record {
      few = omega (
        arith,
        length-delete_present entry.id entry s.active_retirements ok.retirement_keys found,
        ok.few,
      );
      counted = λ p. omega (
        arith,
        in_use-give_back entry.provider p s.active_providers,
        ok.counted p,
        total-delete (λ e. one_if (e.provider =? p)) entry.id entry s.active_retirements
            ok.retirement_keys found,
      );
      alone = λ p. omega (arith, in_use-give_back entry.provider p s.active_providers, ok.alone p);
      active_keys = ok.active_keys;
      retirement_keys = delete-Keys entry.id s.active_retirements ok.retirement_keys;
      filed = ok.filed;
      retirements_filed =
          AllEntries-delete (λ id (e : Entry). e.id ≡ id) entry.id s.active_retirements
            ok.retirements_filed;
      noted = ok.noted;
      once = ok.once;
      retired_once = λ id. ground (
        arith,
        ok.retired_once id,
        has-delete entry.id id s.active_retirements,
        has-forget entry id s.retirements,
        has-get-some entry.id entry s.active_retirements found,
        eq_iff entry.id id,
      );
    })

stop-IsScheduled : (s : Coordinator) → IsScheduled s → IsScheduled (stop s)
unfolding stop has
stop-IsScheduled s ok =
    if-cases IsScheduled s.draining _ _ (λ _. ok)
      λ _. record {
        few = ok.few;
        counted = ok.counted;
        alone = ok.alone;
        active_keys = ok.active_keys;
        retirement_keys = ok.retirement_keys;
        filed = ok.filed;
        retirements_filed = ok.retirements_filed;
        noted = λ id. refl;
        once = λ id. omega (arith, ok.once id);
        retired_once = λ id.
            ground (arith, ok.retired_once id, has-forget_all s.retirement_queue id s.retirements);
      }

run_ends-IsScheduled :
    (id : String) (s : Coordinator) → IsScheduled s → IsScheduled (step (run_ends id) s)
unfolding step
run_ends-IsScheduled id s ok = elim (Option-cases (get id s.active)) [
  | inl e ↦ rw (step, e) ok
  | inr (item, e) ↦
      let same : item.id ≡ id =
        AllEntries-get (λ j (i : Item). i.id ≡ j) id item s.active ok.filed e in
      rw (step, e) (end_run-IsScheduled item s ok (ap (λ j. get j s.active) same ∙ e))
]

retirement_ends-IsScheduled :
    (id : String) (s : Coordinator) → IsScheduled s → IsScheduled (step (retirement_ends id) s)
unfolding step
retirement_ends-IsScheduled id s ok = elim (Option-cases (get id s.active_retirements)) [
  | inl e ↦ rw (step, e) ok
  | inr (entry, e) ↦
      let same : entry.id ≡ id =
        AllEntries-get (λ j (x : Entry). x.id ≡ j) id entry s.active_retirements
          ok.retirements_filed e in
      rw (step, e)
        (end_retirement_run-IsScheduled entry s ok (ap (λ j. get j s.active_retirements) same ∙ e))
]

pub step-IsScheduled : (e : Event) (s : Coordinator) → IsScheduled s → IsScheduled (step e s)
unfolding step
step-IsScheduled (enqueues item) s ok = enqueue-IsScheduled item s ok
step-IsScheduled pumps s ok = pump-IsScheduled s ok
step-IsScheduled stops s ok = stop-IsScheduled s ok
step-IsScheduled (run_ends id) s ok = run_ends-IsScheduled id s ok
step-IsScheduled (retirement_ends id) s ok = retirement_ends-IsScheduled id s ok
step-IsScheduled (retires id provider) s ok = track_retirement-IsScheduled id provider s ok

run-IsScheduled_from : (es : List Event) (s : Coordinator) → IsScheduled s → IsScheduled (run es s)
unfolding run
run-IsScheduled_from [] s ok = ok
run-IsScheduled_from (e ∷ es) s ok = run-IsScheduled_from es (step e s) (step-IsScheduled e s ok)

initial-IsScheduled : IsScheduled initial
unfolding has total
initial-IsScheduled = record {
  few = omega arith;
  counted = λ p. refl;
  alone = λ p. omega arith;
  active_keys = tt;
  retirement_keys = tt;
  filed = tt;
  retirements_filed = tt;
  noted = λ id. refl;
  once = λ id. omega arith;
  retired_once = λ id. omega arith;
}

-- Over every history of a new coordinator at most four launches and retirements run at once, at most
-- one of a provider, as #activeProviders counts exactly, and a launch waits or runs at most once, and so
-- does a retirement.
pub run-IsScheduled : (es : List Event) → IsScheduled (run es initial)
run-IsScheduled es = run-IsScheduled_from es initial initial-IsScheduled
