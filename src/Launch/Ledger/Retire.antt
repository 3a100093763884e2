-- ===== src/Launch/Ledger/Retire.antt =====
-- The retirement of a launch: fence (`begin_retirement`), tombstone (`complete_retirement`), roll back
-- (`cancel_retirement`), and the end of the cleanup that a tombstone asks for.
use agent_host.Common.{
  suc, ◌+◌, String, Bool, true, false, ◌&&◌, ◌||◌, not, Option, none, some, [], ◌∷◌, ltb, leb,
  safe_hash, if◌then◌else◌, length, any, ◌=?◌, is_some,
}
use agent_host.Common.Results.{Result, ok, err}
use agent_host.Common.Maps
use agent_host.Common.Maps.{Map}
use agent_host.Launch.Contracts.{LaunchRecord, owned, retiring, ◌=s◌, validate_launch_record}
use agent_host.Launch.Ledger.{
  Write, Ledger, LedgerError, Host, Retirement, Cleanup, not_open, invalid_hash, not_owned,
  retirement_cleanup_full, retirement_key_conflict, invalid_record, not_fenced, fence_mismatch,
  max_retirements, max_retirement_cleanups, is_retiring, retiring_count, ◌=o◌, later_timestamp,
  retirement_entry, valid_retirement, retirement_cleanup, cleanup_matches_retirement, commit,
}

-- `activeConflict || completedConflict || creationConflict`
unfoldable pub retirement_key_claimed : String → String → Ledger → Bool
retirement_key_claimed id key s =
    any (λ r. not (r.id =? id) && r.retirement_key_hash =o some key) (Maps.values s.records)
    || any (λ t. t.key_hash =? key) (Maps.values s.retirements)
    || any (λ r. r.key_hash =? key) (Maps.values s.records)
    || any (λ t. t.creation_key_hash =? key) (Maps.values s.retirements)

-- `while (retirements.size > MAX_RETIREMENTS) delete the first`
unfoldable pub evict : Map Retirement → Map Retirement
evict [] = []
evict (e ∷ m) = let rest = evict m in if ltb max_retirements (suc (length m)) then rest else e ∷ m

-- The cleanups once a tombstone is written.
abbrev pub cleanups_after : String → Retirement → Map Cleanup → Map Cleanup
cleanups_after id entry cleanups =
    if is_some entry.cleanup_scope
    then Maps.set id (retirement_cleanup entry) cleanups
    else Maps.delete id cleanups

-- The tombstones once the cleanup `current` is done.
unfoldable pub retirements_after_cleanup : String → Cleanup → Ledger → Map Retirement
retirements_after_cleanup id current s = elim (Maps.get id s.retirements) [
  | none ↦ s.retirements
  | some t ↦
      if s.compact && cleanup_matches_retirement current (some t)
      then Maps.set id (record t { cleanup_scope = none }) s.retirements
      else s.retirements
]

-- The tombstones after the roll back.
abbrev pub retirements_rolled_back : String → Map Retirement → Map Retirement → Map Retirement
retirements_rolled_back id before after = elim (Maps.get id before) [
  | none ↦ after
  | some t ↦ Maps.set id t after
]

module _ (h : Host) where
  unfoldable pub fenced : LaunchRecord → String → String → LaunchRecord
  fenced current key now = record current {
    state = retiring;
    retirement_key_hash = some key;
    updated_at = later_timestamp h current.updated_at now;
  }

  -- The part after the record was found.
  unfoldable pub begin_found :
      Write
      → String
      → String
      → String
      → Ledger
      → LaunchRecord
      → Ledger × Result LedgerError (Option LaunchRecord)
  unfolding fenced
  begin_found written id key now s current =
      let next = fenced current key now in
      if is_retiring current
      then (s, ok (some current))
      else if not (current.state =s owned)
      then (s, err not_owned)
      else if leb max_retirement_cleanups (length s.cleanups + retiring_count s.records)
      then (s, err retirement_cleanup_full)
      else if retirement_key_claimed id key s
      then (s, err retirement_key_conflict)
      else if not (validate_launch_record h.date_parse next)
      then (s, err invalid_record)
      else commit h written (record s { records = Maps.set id next s.records })
          (record s { records = Maps.set id current (Maps.set id next s.records) }) (some next)

  unfoldable pub begin_retirement :
      Write → String → String → String → Ledger → Ledger × Result LedgerError (Option LaunchRecord)
  unfolding begin_found
  begin_retirement written id key now s =
      if not (safe_hash key)
      then (s, err invalid_hash)
      else if not s.opened
      then (s, err not_open)
      else (elim (Maps.get id s.records) [
        | none ↦ (s, ok none)
        | some current ↦ begin_found written id key now s current
      ])

  -- The state after the tombstone replaced the record.
  unfoldable pub completed : String → Retirement → Ledger → Ledger
  completed id entry s = record s {
    records = Maps.delete id s.records;
    retirements = evict (Maps.set id entry s.retirements);
    cleanups = cleanups_after id entry s.cleanups;
  }

  unfoldable pub complete_found :
      Write
      → String
      → String
      → Option String
      → Ledger
      → LaunchRecord
      → Ledger × Result LedgerError Retirement
  unfolding completed
  complete_found written id now scope s current =
      let entry = retirement_entry h current now scope in
      if not (is_retiring current)
      then (s, err not_fenced)
      else if not (valid_retirement h entry)
      then (s, err invalid_record)
      else commit h written (completed id entry s)
          (record s { records = Maps.set id current (Maps.delete id s.records) }) entry

  unfoldable pub complete_retirement :
      Write → String → String → Option String → Ledger → Ledger × Result LedgerError Retirement
  unfolding complete_found
  complete_retirement written id now scope s =
      if not s.opened then (s, err not_open) else (elim (Maps.get id s.records) [
        | none ↦ (s, err not_fenced)
        | some current ↦ complete_found written id now scope s current
      ])

  unfoldable pub cleanup_found :
      Write → String → String → Ledger → Cleanup → Ledger × Result LedgerError Bool
  unfolding retirements_after_cleanup
  cleanup_found written id key s current =
      let retirements = retirements_after_cleanup id current s in
      if not (current.key_hash =? key)
      then (s, err fence_mismatch)
      else commit h written
          (record s { cleanups = Maps.delete id s.cleanups; retirements = retirements })
          (record s {
            cleanups = Maps.set id current (Maps.delete id s.cleanups);
            retirements = retirements_rolled_back id s.retirements retirements;
          })
          true

  unfoldable pub complete_retirement_cleanup :
      Write → String → String → Ledger → Ledger × Result LedgerError Bool
  unfolding cleanup_found
  complete_retirement_cleanup written id key s =
      if not s.opened then (s, err not_open) else (elim (Maps.get id s.cleanups) [
        | none ↦ (s, ok false)
        | some current ↦ cleanup_found written id key s current
      ])

  unfoldable pub released : LaunchRecord → String → LaunchRecord
  released current now = record current {
    state = owned;
    retirement_key_hash = none;
    updated_at = later_timestamp h current.updated_at now;
  }

  unfoldable pub cancel_found :
      Write
      → String
      → String
      → String
      → Ledger
      → LaunchRecord
      → Ledger × Result LedgerError LaunchRecord
  unfolding released
  cancel_found written id key now s current =
      let next = released current now in
      if not (is_retiring current) || not (current.retirement_key_hash =o some key)
      then (s, err fence_mismatch)
      else if not (validate_launch_record h.date_parse next)
      then (s, err invalid_record)
      else commit h written (record s { records = Maps.set id next s.records })
          (record s { records = Maps.set id current (Maps.set id next s.records) }) next

  unfoldable pub cancel_retirement :
      Write → String → String → String → Ledger → Ledger × Result LedgerError LaunchRecord
  unfolding cancel_found
  cancel_retirement written id key now s =
      if not s.opened then (s, err not_open) else (elim (Maps.get id s.records) [
        | none ↦ (s, err fence_mismatch)
        | some current ↦ cancel_found written id key now s current
      ])
