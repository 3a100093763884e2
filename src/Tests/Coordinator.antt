-- ===== src/Tests/Coordinator.antt =====
-- A coordinator with launches of two providers, and a service that gets the same request twice.
use agent_host.Common.{
  ◌≡◌, refl, String, true, false, List, [], ◌∷◌, none, some, idempotency_key, safe_hash, safe_id,
}
use agent_host.Common.Results.{ok}
use agent_host.Common.Json.{member, only_keys}
use agent_host.Common.Maps
use agent_host.Launch.Contracts.{
  Request, requested, strip, uuid_id, valid_phase, valid_request, valid_timestamp, before,
  validate_launch_record,
}
use agent_host.Launch.Ledger.{
  done, failed, Ledger, persist, commit, cleanups_exactly_match_scoped_retirements,
}
use agent_host.Launch.Ledger.Reserve.{
  reserve, new_record, find_by_retirement_key_hash, find_retirement_by_key_hash,
  find_retirement_by_creation_key_hash, find_by_key_hash,
}
use agent_host.Launch.Catalog.{launch_view, normalize_launch_request}
use agent_host.Launch.Coordinator.{
  Item, create, reconcile, Coordinator, initial, Event, enqueues, pumps, run_ends, retirement_ends,
  retires, stop, step, run,
}
use agent_host.Launch.Coordinator.Rounds.{IsScheduled}
use agent_host.Launch.Coordinator.Scheduled.{run-IsScheduled}
use agent_host.Launch.Coordinator.Serving.{run-stop}
use agent_host.Launch.Coordinator.Freed.{AllBusy, step-run_ends}
use agent_host.Launch.Coordinator.Submit.{Service, Draw, Shown, current, submit}
use agent_host.Launch.Coordinator.Resubmit.{submit-submit}
use agent_host.Tests.Ledger.{host, id, creation_key}
use agent_host.Tests.Requests.{payload, providers, request}

abbrev first : Item
first = record { id = "launch-1"; kind = create; provider = "codex" }

abbrev second : Item
second = record { id = "launch-2"; kind = create; provider = "codex" }

abbrev third : Item
third = record { id = "launch-3"; kind = reconcile; provider = "cursor" }

abbrev events : List Event
events =
    enqueues first
    ∷ enqueues second
    ∷ pumps
    ∷ enqueues third
    ∷ pumps
    ∷ retires "launch-0" "cursor"
    ∷ run_ends "launch-1"
    ∷ run_ends "launch-3"
    ∷ retirement_ends "launch-0"
    ∷ []

abbrev busy : Coordinator
busy = run events initial

in_turn : busy.runs ≡ first ∷ third ∷ second ∷ []
unfolding run Maps.get Maps.has Maps.set Maps.delete
in_turn = refl

run-IsScheduled_example : IsScheduled (run events initial)
run-IsScheduled_example = run-IsScheduled events

-- Both launches of one provider wait at first; the first one runs and ends.
abbrev waits : List Event
waits = enqueues first ∷ enqueues second ∷ pumps ∷ []

running : Maps.get "launch-1" (run waits initial).active ≡ some first
unfolding run Maps.get Maps.has Maps.set Maps.delete
running = refl

still_going : (run waits initial).draining ≡ false
unfolding run Maps.get Maps.has Maps.set Maps.delete
still_going = refl

step-run_ends_example :
    (Maps.get "launch-1" (step (run_ends "launch-1") (run waits initial)).active ≡ none)
    × AllBusy (step (run_ends "launch-1") (run waits initial))
step-run_ends_example = step-run_ends waits "launch-1" first still_going running

run-stop_example :
    ((run (run_ends "launch-1" ∷ pumps ∷ []) (stop busy)).runs ≡ busy.runs)
    × ((run (run_ends "launch-1" ∷ pumps ∷ []) (stop busy)).retirement_runs ≡ busy.retirement_runs)
run-stop_example = run-stop (run_ends "launch-1" ∷ pumps ∷ []) busy

abbrev opened : Ledger
opened = record {
  opened = true;
  records = [];
  retirements = [];
  cleanups = [];
  compact = false;
  disk = none;
}

abbrev service : Service
service = record {
  ledger = opened;
  coordinator = initial;
  capabilities = providers;
  fences = [];
  started = true;
}

abbrev draw : Draw
draw = record {
  now = "2026-01-01";
  id = id;
  attempt_id = "attempt:00000000-0000-4000-8000-000000000001";
  written = done;
}

abbrev hash : String → String
hash key = creation_key

abbrev sign : Request → String
sign r = creation_key

abbrev shown : Shown
shown = current (record {
  id = id;
  provider = "codex";
  target = "local";
  profile = "default";
  mode = "safe";
  risk = request.risk;
  state = requested;
  agent_id = none;
  error = none;
  requested_at = "2026-01-01";
  updated_at = "2026-01-01";
})

created_one : (submit host hash sign draw payload "key-00000001" service).1 ≡ ok (shown, false)
unfolding submit idempotency_key Maps.has Maps.set Maps.get Maps.delete find_by_retirement_key_hash
    find_retirement_by_key_hash find_retirement_by_creation_key_hash find_by_key_hash
    normalize_launch_request only_keys member safe_id reserve validate_launch_record uuid_id
    safe_hash valid_request valid_phase valid_timestamp before strip commit persist launch_view
    new_record cleanups_exactly_match_scoped_retirements
created_one = refl

submit-submit_example :
    submit host hash sign
      (record draw { now = "2026-01-02"; written = failed })
      payload
      "key-00000001"
      ((submit host hash sign draw payload "key-00000001" service).0)
    ≡ ((submit host hash sign draw payload "key-00000001" service).0, ok (shown, true))
submit-submit_example =
    submit-submit host hash sign draw (record draw { now = "2026-01-02"; written = failed }) payload
      "key-00000001" service shown created_one
