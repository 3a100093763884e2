-- ===== src/Tests/Ledger.antt =====
-- A launch that is reserved, created, owned and fenced for its retirement.
use agent_host.Common.{
  String, ◌⊎◌, ◌≡◌, refl, true, false, none, some, List, [], ◌∷◌, safe_hash, safe_id,
}
use agent_host.Common.Int.{pos}
use agent_host.Common.Results.{ok}
use agent_host.Common.Maps
use agent_host.Launch.Contracts.{
  Request, LaunchRecord, requested, creating, owned, retiring, strip, uuid_id, valid_phase,
  valid_request, valid_timestamp, before, validate_launch_record,
}
use agent_host.Launch.Ledger.{
  Ledger, Host, done, failed, failed_late, write_failed, persist, commit, later_timestamp,
  cleanups_exactly_match_scoped_retirements,
}
use agent_host.Launch.Ledger.Open.{
  Opening, open_ledger, open_document, open_loaded, load, load_records, claim_retirements, distinct,
  own_attempts, own_cleanups, well_formed,
}
use agent_host.Launch.Ledger.Reserve.{
  Reservation, created, existing, conflict, new_record, reserve_new, reserve, patched,
  transition_found, transition,
}
use agent_host.Launch.Ledger.Retire.{begin_retirement, begin_found, fenced, retirement_key_claimed}
use agent_host.Launch.Ledger.Sound.{Sound}
use agent_host.Launch.Ledger.History.{
  Call, reserves, transitions, begins, step, run, run-open-Sound,
}
use agent_host.Launch.Ledger.Atomic.{SameView}
use agent_host.Launch.Ledger.Undo.{failure, write_of, draws_fresh, step-SameView}
use agent_host.Launch.Ledger.Keys.{reserve-reserve, reserve-fenced}

abbrev pub host : Host
host = record {
  date_parse = λ s. some (pos 0);
  document_bytes = λ d. 100;
  entry_bytes = λ t. 10;
  locale_before = λ a b. false;
  legacy_marker = λ d. true;
}

abbrev request : Request
request = record {
  provider = "codex";
  target = "local";
  profile = "default";
  mode = "safe";
  risk = record { local_mutation = true; external_billable = false };
  capability_version = "1";
}

abbrev pub id : String
id = "launch:00000000-0000-4000-8000-000000000001"

abbrev pub creation_key : String
creation_key = "aaaaaaaaaaaaaaaaaaaaaaaaaaaaaaaaaaaaaaaaaaa"

abbrev retirement_key : String
retirement_key = "bbbbbbbbbbbbbbbbbbbbbbbbbbbbbbbbbbbbbbbbbbb"

abbrev pub reservation : Reservation
reservation = record {
  key_hash = creation_key;
  signature = creation_key;
  request = request;
  now = "2026-01-01";
  id = id;
  attempt_id = "attempt:00000000-0000-4000-8000-000000000001";
}

abbrev other_reservation : Reservation
other_reservation = record reservation {
  key_hash = retirement_key;
  id = "launch:00000000-0000-4000-8000-000000000002";
}

abbrev fresh : Ledger
fresh = record {
  opened = false;
  records = [];
  retirements = [];
  cleanups = [];
  compact = false;
  disk = none;
}

abbrev opening : Opening
opening = record { locked = true; readable = true; written = done }

abbrev opened : Ledger
opened = (open_ledger host opening fresh).0

abbrev calls : List Call
calls =
    reserves done reservation
    ∷ transitions done id (requested ∷ [])
        record { state = creating; provider_agent_id = none; agent_id = none; error = none }
        "2026-01-02"
    ∷ transitions done id (creating ∷ [])
        record {
          state = owned;
          provider_agent_id = some (some "agent-1");
          agent_id = some (some "codex:agent-1");
          error = none;
        }
        "2026-01-03"
    ∷ begins done id retirement_key "2026-01-04"
    ∷ []

abbrev fenced_ledger : Ledger
fenced_ledger = run host opened calls

abbrev fenced_record : LaunchRecord
fenced_record = record {
  id = id;
  attempt_id = "attempt:00000000-0000-4000-8000-000000000001";
  key_hash = creation_key;
  signature = creation_key;
  request = request;
  state = retiring;
  provider_agent_id = some "agent-1";
  agent_id = some "codex:agent-1";
  error = none;
  retirement_key_hash = some retirement_key;
  requested_at = "2026-01-01";
  updated_at = "2026-01-04";
}

opens : (open_ledger host opening fresh).1 ≡ ok []
unfolding open_ledger open_document open_loaded load load_records well_formed distinct own_cleanups
    own_attempts claim_retirements cleanups_exactly_match_scoped_retirements
opens = refl

run-open-Sound_example : Sound host (run host opened calls)
run-open-Sound_example = run-open-Sound host opening fresh [] calls refl opens

fenced_found : Maps.get id fenced_ledger.records ≡ some fenced_record
unfolding open_ledger open_document open_loaded load load_records well_formed distinct own_cleanups
    own_attempts claim_retirements cleanups_exactly_match_scoped_retirements run step reserve
    reserve_new new_record transition transition_found patched begin_retirement begin_found fenced
    retirement_key_claimed commit persist validate_launch_record valid_phase valid_request
    valid_timestamp before uuid_id strip later_timestamp safe_hash safe_id Maps.get Maps.set
fenced_found = refl

fenced_open : fenced_ledger.opened ≡ true
unfolding open_ledger open_document open_loaded load load_records well_formed distinct own_cleanups
    own_attempts claim_retirements cleanups_exactly_match_scoped_retirements run step reserve
    reserve_new new_record transition transition_found patched begin_retirement begin_found fenced
    retirement_key_claimed commit persist validate_launch_record valid_phase valid_request
    valid_timestamp before uuid_id strip later_timestamp safe_hash safe_id Maps.get Maps.set
fenced_open = refl

reserve-fenced_example :
    reserve host done other_reservation fenced_ledger ≡ (fenced_ledger, ok conflict)
reserve-fenced_example =
    reserve-fenced host done other_reservation fenced_ledger id fenced_record run-open-Sound_example
      fenced_open fenced_found refl

creates : (reserve host done reservation opened).1 ≡ ok (created (new_record reservation))
unfolding open_ledger open_document open_loaded load load_records well_formed distinct own_cleanups
    own_attempts claim_retirements cleanups_exactly_match_scoped_retirements reserve reserve_new
    new_record commit persist validate_launch_record valid_phase valid_request valid_timestamp
    before uuid_id strip safe_hash safe_id
creates = refl

reserve-reserve_example :
    reserve host failed reservation (reserve host done reservation opened).0
    ≡ ((reserve host done reservation opened).0, ok (existing (new_record reservation)))
reserve-reserve_example =
    reserve-reserve host done failed reservation reservation opened (new_record reservation) refl
      creates

fails : failure host opened (reserves failed reservation) ≡ some write_failed
unfolding failure open_ledger open_document open_loaded load load_records well_formed distinct
    own_cleanups own_attempts claim_retirements cleanups_exactly_match_scoped_retirements reserve
    reserve_new new_record commit persist validate_launch_record valid_phase valid_request
    valid_timestamp before uuid_id strip safe_hash safe_id
fails = refl

draws : draws_fresh opened (reserves failed reservation) ≡ true
unfolding draws_fresh open_ledger open_document open_loaded load load_records well_formed distinct
    own_cleanups own_attempts claim_retirements cleanups_exactly_match_scoped_retirements Maps.has
draws = refl

step-SameView_example :
    SameView (step host opened (reserves failed reservation)) opened
    × (((step host opened (reserves failed reservation)).disk ≡ opened.disk)
        ⊎ (write_of (reserves failed reservation) ≡ failed_late))
step-SameView_example =
    step-SameView host opened (reserves failed reservation) write_failed draws fails
