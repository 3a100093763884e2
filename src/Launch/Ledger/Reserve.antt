-- ===== src/Launch/Ledger/Reserve.antt =====
-- Reserving a launch under its idempotency key, moving a launch from state to state, and the lookups.
use agent_host.Common.{
  String, Bool, ◌||◌, not, Option, none, some, List, leb, if◌then◌else◌, length, any, find,
  count_if, ◌=?◌, get_or,
}
use agent_host.Common.Results.{Result, ok, err}
use agent_host.Common.Maps
use agent_host.Launch.Contracts.{
  LaunchRecord, LaunchError, Request, State, requested, creating, uncertain, ◌=s◌,
  validate_launch_record,
}
use agent_host.Launch.Ledger.{
  Write, Ledger, LedgerError, Host, Retirement, Cleanup, not_open, invalid_record, record_not_found,
  max_pending, max_records, ◌=o◌, commit,
}

-- The lookups; each is refused while the ledger is not open.
abbrev when_open : {A : Type 0} → Ledger → A → Result LedgerError A
when_open s a = if s.opened then ok a else err not_open

unfoldable pub list : Ledger → Result LedgerError (List LaunchRecord)
list s = when_open s (Maps.values s.records)

unfoldable pub get : String → Ledger → Result LedgerError (Option LaunchRecord)
get id s = when_open s (Maps.get id s.records)

unfoldable pub find_by_key_hash : String → Ledger → Result LedgerError (Option LaunchRecord)
find_by_key_hash key s = when_open s (find (λ r. r.key_hash =? key) (Maps.values s.records))

unfoldable pub retirement : String → Ledger → Result LedgerError (Option Retirement)
retirement id s = when_open s (Maps.get id s.retirements)

unfoldable pub find_retirement_by_creation_key_hash :
    String → Ledger → Result LedgerError (Option Retirement)
find_retirement_by_creation_key_hash key s =
    when_open s (find (λ t. t.creation_key_hash =? key) (Maps.values s.retirements))

unfoldable pub find_by_retirement_key_hash :
    String → Ledger → Result LedgerError (Option LaunchRecord)
find_by_retirement_key_hash key s =
    when_open s (find (λ r. r.retirement_key_hash =o some key) (Maps.values s.records))

unfoldable pub find_retirement_by_key_hash :
    String → Ledger → Result LedgerError (Option Retirement)
find_retirement_by_key_hash key s =
    when_open s (find (λ t. t.key_hash =? key) (Maps.values s.retirements))

unfoldable pub retirements : Ledger → Result LedgerError (List Retirement)
retirements s = when_open s (Maps.values s.retirements)

unfoldable pub retirement_cleanups : Ledger → Result LedgerError (List Cleanup)
retirement_cleanups s = when_open s (Maps.values s.cleanups)

pub data Reserved : Type 0 where
  created : LaunchRecord → Reserved
  existing : LaunchRecord → Reserved
  retired : Retirement → Reserved
  conflict full : Reserved

-- `reserve`'s argument, with the two identifiers that `randomUUID` draws.
pub record Reservation : Type 0 where
  pub key_hash : String
  pub signature : String
  pub request : Request
  pub now : String
  pub id : String
  pub attempt_id : String

abbrev pub is_pending : LaunchRecord → Bool
is_pending r = r.state =s requested || r.state =s creating || r.state =s uncertain

unfoldable pub new_record : Reservation → LaunchRecord
new_record v = record {
  id = v.id;
  attempt_id = v.attempt_id;
  key_hash = v.key_hash;
  signature = v.signature;
  request = v.request;
  state = requested;
  provider_agent_id = none;
  agent_id = none;
  error = none;
  retirement_key_hash = none;
  requested_at = v.now;
  updated_at = v.now;
}

-- What a transition changes: `none` leaves a field, `some none` sets it to `undefined`.
pub record Patch : Type 0 where
  pub state : State
  pub provider_agent_id : Option (Option String)
  pub agent_id : Option (Option String)
  pub error : Option (Option LaunchError)

-- `{ ...current, ...patch, updatedAt: now }`
unfoldable pub patched : LaunchRecord → Patch → String → LaunchRecord
patched current p now = record current {
  state = p.state;
  provider_agent_id = get_or p.provider_agent_id current.provider_agent_id;
  agent_id = get_or p.agent_id current.agent_id;
  error = get_or p.error current.error;
  updated_at = now;
}

module _ (h : Host) where
  -- The part for a key that no launch and no tombstone was created under.
  unfoldable pub reserve_new : Write → Reservation → Ledger → Ledger × Result LedgerError Reserved
  unfolding new_record
  reserve_new written v s =
      let next = new_record v in
      if any (λ r. r.retirement_key_hash =o some v.key_hash) (Maps.values s.records)
        || any (λ t. t.key_hash =? v.key_hash) (Maps.values s.retirements)
      then (s, ok conflict)
      else if leb max_pending (count_if is_pending (Maps.values s.records))
      then (s, ok full)
      else if leb max_records (length s.records)
      then (s, ok full)
      else if not (validate_launch_record h.date_parse next)
      then (s, err invalid_record)
      else commit h written (record s { records = Maps.set v.id next s.records })
          (record s { records = Maps.delete v.id (Maps.set v.id next s.records) }) (created next)

  unfoldable pub reserve : Write → Reservation → Ledger → Ledger × Result LedgerError Reserved
  unfolding reserve_new
  reserve written v s =
      if not s.opened
      then (s, err not_open)
      else (elim (find (λ r. r.key_hash =? v.key_hash) (Maps.values s.records)) [
        | some r ↦ (s, ok (existing r))
        | none ↦ elim (find (λ t. t.creation_key_hash =? v.key_hash) (Maps.values s.retirements)) [
          | some t ↦ (s, ok (retired t))
          | none ↦ reserve_new written v s
        ]
      ])

  unfoldable pub transition_found :
      Write
      → String
      → List State
      → Patch
      → String
      → Ledger
      → LaunchRecord
      → Ledger × Result LedgerError LaunchRecord
  unfolding patched
  transition_found written id expected p now s current =
      let next = patched current p now in
      if not (any (λ e. e =s current.state) expected)
      then (s, ok current)
      else if not (validate_launch_record h.date_parse next)
      then (s, err invalid_record)
      else commit h written (record s { records = Maps.set id next s.records })
          (record s { records = Maps.set id current (Maps.set id next s.records) }) next

  unfoldable pub transition :
      Write
      → String
      → List State
      → Patch
      → String
      → Ledger
      → Ledger × Result LedgerError LaunchRecord
  unfolding transition_found
  transition written id expected p now s =
      if not s.opened then (s, err not_open) else (elim (Maps.get id s.records) [
        | none ↦ (s, err record_not_found)
        | some current ↦ transition_found written id expected p now s current
      ])
