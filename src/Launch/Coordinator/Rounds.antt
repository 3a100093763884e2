-- ===== src/Launch/Coordinator/Rounds.antt =====
-- The bounds on the runs of the coordinator, and that starting runs and queueing keep them.
use agent_host.Common.{
  ℕ, zero, suc, ◌+◌, ◌≤◌, String, ◌≡◌, refl, true, ◌||◌, none, List, [], ◌∷◌, arith, if-cases,
  length, sum_of, sum_of-append, one_if, ◌=?◌, eq_iff, eq_refl, inl, inr, Option-cases,
}
use mathlib.Core.Path.{subst}
use agent_host.Common.Maps.{
  Map, get, has, Keys, total, total-set_absent, set-Keys, AllEntries, AllEntries-set,
}
use agent_host.Launch.Coordinator.{
  Item, Entry, Coordinator, max_active_global, take_first, in_use, is_free, has_room, enqueue,
  begin_run, pump_loop, pump, begin_retirement_run, pump_retirements_loop, pump_retirements,
  track_retirement,
}
use agent_host.Launch.Coordinator.Waiting.{
  Takes, take_first-Takes, in_use-set, length-set_absent, has-set, has-delete, has-get-none,
}

-- Counts of a launch in the queue, and of a provider among the runs.
abbrev pub waiting : String → List Item → ℕ
waiting id = sum_of (λ i. one_if (i.id =? id))

abbrev pub waiting_retirements : String → List Entry → ℕ
waiting_retirements id = sum_of (λ e. one_if (e.id =? id))

abbrev pub runs_of : String → Map Item → Map Entry → ℕ
runs_of p active retirements =
    total (λ i. one_if (i.provider =? p)) active + total (λ e. one_if (e.provider =? p)) retirements

-- At most four runs, at most one per provider and counted exactly; a launch waits or runs at most once,
-- and so does a retirement.
pub record IsScheduled (s : Coordinator) : Type 0 where
  pub few : length s.active + length s.active_retirements ≤ max_active_global
  pub counted : (p : String) → in_use p s.active_providers ≡ runs_of p s.active s.active_retirements
  pub alone : (p : String) → in_use p s.active_providers ≤ 1
  pub active_keys : Keys s.active
  pub retirement_keys : Keys s.active_retirements
  pub filed : AllEntries (λ id (i : Item). i.id ≡ id) s.active
  pub retirements_filed : AllEntries (λ id (e : Entry). e.id ≡ id) s.active_retirements
  pub noted : (id : String) → waiting id s.queue ≡ one_if (has id s.queued)
  pub once : (id : String) → waiting id s.queue + one_if (has id s.active) ≤ 1
  pub retired_once :
      (id : String)
      → waiting_retirements id s.retirement_queue + one_if (has id s.active_retirements)
        ≤ one_if (has id s.retirements)

-- One round of #pump.
begin_run-IsScheduled :
    (item : Item) (rest : List Item) (s : Coordinator)
    → IsScheduled s
    → has_room s ≡ true
    → is_free s.active_providers item.provider ≡ true
    → ((f : Item → ℕ) → sum_of f s.queue ≡ f item + sum_of f rest)
    → IsScheduled (begin_run item rest s)
unfolding begin_run
begin_run-IsScheduled item rest s ok room free taken =
    let mine : 1 ≤ waiting item.id s.queue =
      ground (arith, taken (λ i. one_if (i.id =? item.id)), eq_refl item.id) in
    let idle : get item.id s.active ≡ none =
      has-get-none item.id s.active (ground (arith, ok.once item.id, mine)) in
    record {
      few = omega (arith, length-set_absent item.id item s.active idle, ground_room s room);
      counted = λ p. omega (
        arith,
        in_use-set item.provider p s.active_providers,
        ok.counted p,
        total-set_absent (λ i. one_if (i.provider =? p)) item.id item s.active idle,
      );
      alone = λ p. ground (
        arith,
        in_use-set item.provider p s.active_providers,
        ok.alone p,
        eq_iff item.provider p,
        free,
      );
      active_keys = set-Keys item.id item s.active ok.active_keys;
      retirement_keys = ok.retirement_keys;
      filed = AllEntries-set (λ id (i : Item). i.id ≡ id) item.id item s.active refl ok.filed;
      retirements_filed = ok.retirements_filed;
      noted = λ id. ground (
        arith,
        taken (λ i. one_if (i.id =? id)),
        ok.noted id,
        ok.once id,
        has-delete item.id id s.queued,
      );
      once = λ id.
          ground
            (arith, taken (λ i. one_if (i.id =? id)), ok.once id, has-set item.id id item s.active);
      retired_once = ok.retired_once;
    }
  where
    ground_room :
        (s : Coordinator)
        → has_room s ≡ true
        → suc (length s.active + length s.active_retirements) ≤ 4
    ground_room s room = ground arith

begin_retirement_run-IsScheduled :
    (entry : Entry) (rest : List Entry) (s : Coordinator)
    → IsScheduled s
    → has_room s ≡ true
    → is_free s.active_providers entry.provider ≡ true
    → ((f : Entry → ℕ) → sum_of f s.retirement_queue ≡ f entry + sum_of f rest)
    → IsScheduled (begin_retirement_run entry rest s)
unfolding begin_retirement_run
begin_retirement_run-IsScheduled entry rest s ok room free taken =
    let mine : 1 ≤ waiting_retirements entry.id s.retirement_queue =
      ground (arith, taken (λ e. one_if (e.id =? entry.id)), eq_refl entry.id) in
    let idle : get entry.id s.active_retirements ≡ none =
      has-get-none entry.id s.active_retirements (ground (arith, ok.retired_once entry.id, mine)) in
    record {
      few = ground (arith, length-set_absent entry.id entry s.active_retirements idle, room);
      counted = λ p. omega (
        arith,
        in_use-set entry.provider p s.active_providers,
        ok.counted p,
        total-set_absent (λ e. one_if (e.provider =? p)) entry.id entry s.active_retirements idle,
      );
      alone = λ p. ground (
        arith,
        in_use-set entry.provider p s.active_providers,
        ok.alone p,
        eq_iff entry.provider p,
        free,
      );
      active_keys = ok.active_keys;
      retirement_keys = set-Keys entry.id entry s.active_retirements ok.retirement_keys;
      filed = ok.filed;
      retirements_filed =
          AllEntries-set (λ id (e : Entry). e.id ≡ id) entry.id entry s.active_retirements refl
            ok.retirements_filed;
      noted = ok.noted;
      once = ok.once;
      retired_once = λ id. ground (
        arith,
        taken (λ e. one_if (e.id =? id)),
        ok.retired_once id,
        has-set entry.id id entry s.active_retirements,
      );
    }

pump_loop-IsScheduled : (n : ℕ) (s : Coordinator) → IsScheduled s → IsScheduled (pump_loop n s)
unfolding pump_loop
pump_loop-IsScheduled zero s ok = ok
pump_loop-IsScheduled (suc n) s ok =
    if-cases IsScheduled (has_room s) _ _
      (λ room.
        let fits = λ (i : Item). is_free s.active_providers i.provider in
        let takes = take_first-Takes fits s.queue in
        elim (Option-cases (take_first fits s.queue)) [
          | inl e ↦ rw e ok
          | inr (found, e) ↦
              let t = subst (Takes fits s.queue) e takes in
              rw e (
                pump_loop-IsScheduled n (begin_run found.0 found.1 s)
                  (begin_run-IsScheduled found.0 found.1 s ok room t.0 t.2))
        ])
      λ full. ok

pump_retirements_loop-IsScheduled :
    (n : ℕ) (s : Coordinator) → IsScheduled s → IsScheduled (pump_retirements_loop n s)
unfolding pump_retirements_loop
pump_retirements_loop-IsScheduled zero s ok = ok
pump_retirements_loop-IsScheduled (suc n) s ok =
    if-cases IsScheduled (has_room s) _ _
      (λ room.
        let fits = λ (e : Entry). is_free s.active_providers e.provider in
        let takes = take_first-Takes fits s.retirement_queue in
        elim (Option-cases (take_first fits s.retirement_queue)) [
          | inl e ↦ rw e ok
          | inr (found, e) ↦
              let t = subst (Takes fits s.retirement_queue) e takes in
              rw e (
                pump_retirements_loop-IsScheduled n (begin_retirement_run found.0 found.1 s)
                  (begin_retirement_run-IsScheduled found.0 found.1 s ok room t.0 t.2))
        ])
      λ full. ok

pub pump-IsScheduled : (s : Coordinator) → IsScheduled s → IsScheduled (pump s)
unfolding pump
pump-IsScheduled s ok =
    if-cases IsScheduled s.draining _ _ (λ _. ok) λ _. pump_loop-IsScheduled (length s.queue) s ok

pub pump_retirements-IsScheduled :
    (s : Coordinator) → IsScheduled s → IsScheduled (pump_retirements s)
unfolding pump_retirements
pump_retirements-IsScheduled s ok =
    if-cases IsScheduled s.draining _ _ (λ _. ok)
      λ _. pump_retirements_loop-IsScheduled (length s.retirement_queue) s ok

pub enqueue-IsScheduled :
    (item : Item) (s : Coordinator) → IsScheduled s → IsScheduled (enqueue item s)
unfolding enqueue
enqueue-IsScheduled item s ok =
    if-cases IsScheduled (s.draining || has item.id s.queued || has item.id s.active) _ _ (λ _. ok)
      λ new. record {
        few = ok.few;
        counted = ok.counted;
        alone = ok.alone;
        active_keys = ok.active_keys;
        retirement_keys = ok.retirement_keys;
        filed = ok.filed;
        retirements_filed = ok.retirements_filed;
        noted = λ id. ground (
          arith,
          sum_of-append (λ (i : Item). one_if (i.id =? id)) s.queue (item ∷ []),
          ok.noted id,
          has-set item.id id tt s.queued,
          eq_iff item.id id,
        );
        once = λ id. ground (
          arith,
          sum_of-append (λ (i : Item). one_if (i.id =? id)) s.queue (item ∷ []),
          ok.noted id,
          ok.once id,
          eq_iff item.id id,
        );
        retired_once = ok.retired_once;
      }

pub track_retirement-IsScheduled :
    (id provider : String) (s : Coordinator)
    → IsScheduled s
    → IsScheduled (track_retirement id provider s)
unfolding track_retirement
track_retirement-IsScheduled id provider s ok =
    let entry : Entry = record { id = id; provider = provider; number = s.entries } in
    if-cases IsScheduled (s.draining || has id s.retirements) _ _ (λ _. ok)
      λ new. pump_retirements-IsScheduled _ record {
        few = ok.few;
        counted = ok.counted;
        alone = ok.alone;
        active_keys = ok.active_keys;
        retirement_keys = ok.retirement_keys;
        filed = ok.filed;
        retirements_filed = ok.retirements_filed;
        noted = ok.noted;
        once = ok.once;
        retired_once = λ j. ground (
          arith,
          sum_of-append (λ (e : Entry). one_if (e.id =? j)) s.retirement_queue (entry ∷ []),
          ok.retired_once j,
          has-set id j entry s.retirements,
          eq_iff id j,
        );
      }
