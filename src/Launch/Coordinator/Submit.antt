-- ===== src/Launch/Coordinator/Submit.antt =====
-- src/core/launch-coordinator.js: submit, over the ledger and the queue. The SHA-256 hashes of a key and
-- of a request are parameters.
use agent_host.Common.{
  String, Bool, true, false, ◌||◌, not, Option, none, some, List, if◌then◌else◌, ◌=?◌, is_some,
  idempotency_key,
}
use agent_host.Common.Results.{Result, ok, err, ◌>>=◌}
use agent_host.Common.Json.{Value}
use agent_host.Common.Maps.{Map, has}
use agent_host.Launch.Contracts.{LaunchRecord, Request, Risk}
use agent_host.Launch.Catalog.{
  Provider, RequestError, LaunchView, launch_view, normalize_launch_request, capabilities_for,
}
use agent_host.Launch.Ledger.{Write, Ledger, LedgerError, Host, Retirement}
use agent_host.Launch.Ledger.Reserve.{
  Reserved, Reservation, created, existing, retired, conflict, full, reserve, find_by_key_hash,
  find_by_retirement_key_hash, find_retirement_by_key_hash, find_retirement_by_creation_key_hash,
}
use agent_host.Launch.Coordinator.{Coordinator, Item, create, enqueue, pump}

pub data SubmitError : Type 0 where
  launch_unavailable shutting_down invalid_idempotency_key idempotency_conflict queue_full :
      SubmitError
  bad_request : RequestError → SubmitError
  ledger_failed : LedgerError → SubmitError

-- `retiredLaunchView`
pub record RetiredLaunchView : Type 0 where
  pub id : String
  pub provider : String
  pub target : String
  pub profile : String
  pub mode : String
  pub risk : Risk
  pub requested_at : String
  pub updated_at : String

unfoldable pub retired_launch_view : Retirement → RetiredLaunchView
retired_launch_view t = record {
  id = t.launch_id;
  provider = t.request.provider;
  target = t.request.target;
  profile = t.request.profile;
  mode = t.request.mode;
  risk = t.request.risk;
  requested_at = t.requested_at;
  updated_at = t.retired_at;
}

pub data Shown : Type 0 where
  current : LaunchView → Shown
  past : RetiredLaunchView → Shown

-- `{ launch, replayed }`
abbrev pub Answer : Type 0
Answer = Result SubmitError (Shown × Bool)

-- `fences` is #retirementAdmissionFences.
pub record Service : Type 0 where
  pub ledger : Ledger
  pub coordinator : Coordinator
  pub capabilities : List Provider
  pub fences : Map {0} String
  pub started : Bool

-- What a call of `submit` draws: the clock, two random identifiers, and whether the write succeeds.
pub record Draw : Type 0 where
  pub now : String
  pub id : String
  pub attempt_id : String
  pub written : Write

-- What the ledger knows of a key.
pub data Prior : Type 0 where
  fenced unknown : Prior
  was_retired : Retirement → Prior
  was_launched : LaunchRecord → Prior

abbrev from_ledger : {A : Type 0} → Result LedgerError A → Result SubmitError A
from_ledger (ok a) = ok a
from_ledger (err e) = err (ledger_failed e)

abbrev choose_prior : Bool → Option Retirement → Option LaunchRecord → Prior
choose_prior true t r = fenced
choose_prior false (some t) r = was_retired t
choose_prior false none (some r) = was_launched r
choose_prior false none none = unknown

unfoldable pub find_prior : String → Service → Result SubmitError Prior
find_prior key s = if has key s.fences then ok fenced else do
  retiring ← from_ledger (find_by_retirement_key_hash key s.ledger)
  retired_under ← from_ledger (find_retirement_by_key_hash key s.ledger)
  tombstone ← from_ledger (find_retirement_by_creation_key_hash key s.ledger)
  launched ← from_ledger (find_by_key_hash key s.ledger)
  ok (choose_prior (is_some retiring || is_some retired_under) tombstone launched)

module _ (h : Host) (key_hash : String → String) (signature : Request → String) where
  -- A request under a key that was used for one before.
  unfoldable pub replay : Value → Request → String → Shown → Answer
  replay payload request signed shown =
      elim (normalize_launch_request payload (capabilities_for request)) [
        | err e ↦ err idempotency_conflict
        | ok again ↦
            if signature again =? signed then ok (shown, true) else err idempotency_conflict
      ]

  unfoldable pub same_request : Request → String → Shown → Answer
  same_request request signed shown =
      if signature request =? signed then ok (shown, true) else err idempotency_conflict

  -- The part behind `reserve`.
  unfoldable pub reserved :
      Request → Service → Ledger × Result LedgerError Reserved → Service × Answer
  unfolding same_request
  reserved request s (l, ok (created r)) =
      let item : Item = record { id = r.id; kind = create; provider = request.provider } in
      (
        record s { ledger = l; coordinator = pump (enqueue item s.coordinator) },
        ok (current (launch_view r), false),
      )
  reserved request s (l, ok (existing r)) =
      (record s { ledger = l }, same_request request r.signature (current (launch_view r)))
  reserved request s (l, ok (retired t)) =
      (record s { ledger = l }, same_request request t.signature (past (retired_launch_view t)))
  reserved request s (l, ok conflict) = (record s { ledger = l }, err idempotency_conflict)
  reserved request s (l, ok full) = (record s { ledger = l }, err queue_full)
  reserved request s (l, err e) = (record s { ledger = l }, err (ledger_failed e))

  abbrev pub reservation : Draw → String → Request → Reservation
  reservation d key request = record {
    key_hash = key;
    signature = signature request;
    request = request;
    now = d.now;
    id = d.id;
    attempt_id = d.attempt_id;
  }

  unfoldable pub submit_new : Draw → Value → String → Service → Service × Answer
  unfolding reserved
  submit_new d payload key s = elim (normalize_launch_request payload s.capabilities) [
    | err e ↦ (s, err (bad_request e))
    | ok request ↦ reserved request s (reserve h d.written (reservation d key request) s.ledger)
  ]

  unfoldable pub submit_prior :
      Draw → Value → String → Service → Result SubmitError Prior → Service × Answer
  unfolding replay submit_new
  submit_prior d payload key s (err e) = (s, err e)
  submit_prior d payload key s (ok fenced) = (s, err idempotency_conflict)
  submit_prior d payload key s (ok (was_retired t)) =
      (s, replay payload t.request t.signature (past (retired_launch_view t)))
  submit_prior d payload key s (ok (was_launched r)) =
      (s, replay payload r.request r.signature (current (launch_view r)))
  submit_prior d payload key s (ok unknown) = submit_new d payload key s

  unfoldable pub submit : Draw → Value → String → Service → Service × Answer
  unfolding find_prior submit_prior
  submit d payload key s =
      if not s.started
      then (s, err launch_unavailable)
      else if s.coordinator.draining
      then (s, err shutting_down)
      else if not (idempotency_key key)
      then (s, err invalid_idempotency_key)
      else submit_prior d payload (key_hash key) s (find_prior (key_hash key) s)
