-- ===== src/Launch/Coordinator.antt =====
-- src/core/launch-coordinator.js: which queued launches and retirements run. A run is the time from the
-- call of #run or #runRetirement to the `finally` that frees its place.
pub mod Waiting
pub mod Rounds
pub mod Scheduled
pub mod Serving
pub mod Freed
pub mod Submit
pub mod Resubmit
pub mod Settle
pub mod Answers
use agent_host.Common.{
  ℕ, zero, suc, ◌+◌, ◌-◌, String, Bool, true, false, ◌||◌, Option, none, some, List, [], ◌∷◌, ◌++◌,
  ltb, ◌==◌, if◌then◌else◌, length, get_or, is_empty,
}
use agent_host.Common.Maps.{Map}
use agent_host.Common.Maps

abbrev pub max_active_global : ℕ
max_active_global = 4

abbrev pub max_active_per_provider : ℕ
max_active_per_provider = 1

pub data Kind : Type 0 where
  create reconcile : Kind

-- An element of #queue.
pub record Item : Type 0 where
  pub id : String
  pub kind : Kind
  pub provider : String

-- An entry of #retirements; `number` tells the objects apart.
pub record Entry : Type 0 where
  pub id : String
  pub provider : String
  pub number : ℕ

-- `runs` is the calls of #run so far, `retirement_runs` those of #runRetirement.
pub record Coordinator : Type 0 where
  pub queue : List Item
  pub queued : Map {0} Unit
  pub active : Map Item
  pub active_providers : Map ℕ
  pub retirements : Map Entry
  pub retirement_queue : List Entry
  pub active_retirements : Map Entry
  pub draining : Bool
  pub entries : ℕ
  pub runs : List Item
  pub retirement_runs : List Entry

abbrev pub initial : Coordinator
initial = record {
  queue = [];
  queued = [];
  active = [];
  active_providers = [];
  retirements = [];
  retirement_queue = [];
  active_retirements = [];
  draining = false;
  entries = 0;
  runs = [];
  retirement_runs = [];
}

-- `findIndex` and `splice`: the first element that passes, and the others.
unfoldable pub take_first : {A : Type 0} → (A → Bool) → List A → Option (A × List A)
take_first p [] = none
take_first p (x ∷ xs) =
    if p x
    then some (x, xs)
    else (elim (take_first p xs) [ none ↦ none | some found ↦ some (found.0, x ∷ found.1) ])

-- `this.#activeProviders.get(provider) ?? 0`
abbrev pub in_use : String → Map ℕ → ℕ
in_use p m = get_or (Maps.get p m) 0

abbrev pub is_free : Map ℕ → String → Bool
is_free m p = ltb (in_use p m) max_active_per_provider

abbrev pub has_room : Coordinator → Bool
has_room s = ltb (length s.active + length s.active_retirements) max_active_global

-- A run that ended gives its provider back.
unfoldable pub give_back : String → Map ℕ → Map ℕ
give_back p m =
    let count = get_or (Maps.get p m) 1 - 1 in
    if count == 0 then Maps.delete p m else Maps.set p count m

-- `#enqueue`
unfoldable pub enqueue : Item → Coordinator → Coordinator
enqueue item s =
    if s.draining || Maps.has item.id s.queued || Maps.has item.id s.active
    then s
    else record s { queue = s.queue ++ item ∷ []; queued = Maps.set item.id tt s.queued }

-- One round of the loop of #pump, for the item found.
unfoldable pub begin_run : Item → List Item → Coordinator → Coordinator
begin_run item rest s = record s {
  queue = rest;
  queued = Maps.delete item.id s.queued;
  active_providers =
      Maps.set item.provider (suc (in_use item.provider s.active_providers)) s.active_providers;
  active = Maps.set item.id item s.active;
  runs = s.runs ++ item ∷ [];
}

-- The loop of `#pump`; every round takes one item from the queue.
unfoldable pub pump_loop : ℕ → Coordinator → Coordinator
unfolding take_first begin_run
pump_loop zero s = s
pump_loop (suc fuel) s =
    if has_room s
    then (elim (take_first (λ (i : Item). is_free s.active_providers i.provider) s.queue) [
      | none ↦ s
      | some found ↦ pump_loop fuel (begin_run found.0 found.1 s)
    ])
    else s

unfoldable pub pump : Coordinator → Coordinator
unfolding pump_loop
pump s = if s.draining then s else pump_loop (length s.queue) s

unfoldable pub begin_retirement_run : Entry → List Entry → Coordinator → Coordinator
begin_retirement_run entry rest s = record s {
  retirement_queue = rest;
  active_retirements = Maps.set entry.id entry s.active_retirements;
  active_providers =
      Maps.set entry.provider (suc (in_use entry.provider s.active_providers)) s.active_providers;
  retirement_runs = s.retirement_runs ++ entry ∷ [];
}

-- The loop of `#pumpRetirements`
unfoldable pub pump_retirements_loop : ℕ → Coordinator → Coordinator
unfolding take_first begin_retirement_run
pump_retirements_loop zero s = s
pump_retirements_loop (suc fuel) s =
    if has_room s
    then (elim (take_first (λ (e : Entry). is_free s.active_providers e.provider)
        s.retirement_queue) [
          | none ↦ s
          | some found ↦ pump_retirements_loop fuel (begin_retirement_run found.0 found.1 s)
        ])
    else s

unfoldable pub pump_retirements : Coordinator → Coordinator
unfolding pump_retirements_loop
pump_retirements s = if s.draining then s else pump_retirements_loop (length s.retirement_queue) s

-- `#trackRetirement`, behind the guards of `retire` and #resumeRetirement that concern it.
unfoldable pub track_retirement : String → String → Coordinator → Coordinator
unfolding pump_retirements
track_retirement id provider s =
    let entry : Entry = record { id = id; provider = provider; number = s.entries } in
    if s.draining || Maps.has id s.retirements
    then s
    else pump_retirements (record s {
      retirements = Maps.set id entry s.retirements;
      retirement_queue = s.retirement_queue ++ entry ∷ [];
      entries = suc s.entries;
    })

-- `this.#retirements.get(id) === entry`, and then its deletion.
unfoldable pub forget : Entry → Map Entry → Map Entry
forget entry m = elim (Maps.get entry.id m) [
  | none ↦ m
  | some e ↦ if e.number == entry.number then Maps.delete entry.id m else m
]

-- The `finally` of a launch's run, and `release` of a retirement's.
unfoldable pub end_run : Item → Coordinator → Coordinator
unfolding give_back pump pump_retirements
end_run item s = pump (
    pump_retirements (record s {
      active = Maps.delete item.id s.active;
      active_providers = give_back item.provider s.active_providers;
    }))

unfoldable pub end_retirement_run : Entry → Coordinator → Coordinator
unfolding forget give_back pump pump_retirements
end_retirement_run entry s = pump_retirements (
    pump (record s {
      retirements = forget entry s.retirements;
      active_retirements = Maps.delete entry.id s.active_retirements;
      active_providers = give_back entry.provider s.active_providers;
    }))

unfoldable pub forget_all : List Entry → Map Entry → Map Entry
unfolding forget
forget_all [] m = m
forget_all (e ∷ es) m = forget_all es (forget e m)

-- The part of `stop` before it waits.
unfoldable pub stop : Coordinator → Coordinator
unfolding forget_all
stop s = if s.draining then s else record s {
  draining = true;
  queue = [];
  queued = [];
  retirement_queue = [];
  retirements = forget_all s.retirement_queue s.retirements;
}

-- What happens to a coordinator.
pub data Event : Type 0 where
  enqueues : Item → Event
  pumps stops : Event
  run_ends retirement_ends : String → Event
  retires : String → String → Event

unfoldable pub step : Event → Coordinator → Coordinator
unfolding enqueue pump stop end_run end_retirement_run track_retirement
step (enqueues item) s = enqueue item s
step pumps s = pump s
step stops s = stop s
step (run_ends id) s = elim (Maps.get id s.active) [ none ↦ s | some item ↦ end_run item s ]
step (retirement_ends id) s = elim (Maps.get id s.active_retirements) [
  | none ↦ s
  | some entry ↦ end_retirement_run entry s
]
step (retires id provider) s = track_retirement id provider s

unfoldable pub run : List Event → Coordinator → Coordinator
unfolding step
run [] s = s
run (e ∷ es) s = run es (step e s)
