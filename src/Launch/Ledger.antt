-- ===== src/Launch/Ledger.antt =====
-- src/core/launch-ledger.js: the durable store of launches. A ledger is its maps, its flags and the
-- document that its file holds; `persist` is the one way to change the file. `#exclusive` runs one
-- operation at a time, so a call is one step from state to state.
pub mod Retire
pub mod Reserve
pub mod Open
pub mod Sound
pub mod Cleanups
pub mod Keys
pub mod Created
pub mod Atomic
pub mod History
pub mod Undo
pub mod Loaded
pub mod Finish
pub mod Evict
pub mod Complete
pub mod Replace
use agent_host.Common.{
  ℕ, ◌+◌, String, Bool, true, false, ◌&&◌, ◌||◌, not, Option, none, some, List, [], ◌∷◌, ◌++◌, ◌==◌,
  ltb, safe_id, safe_hash, is_alnum, if◌then◌else◌, get_or, length, take, all, count_if, ◌=?◌,
  codes, any,
}
use agent_host.Common.Int.{ℤ}
use agent_host.Common.Results.{Result, ok, err, ◌>>=◌}
use agent_host.Common.Maps
use agent_host.Common.Maps.{Map}
use agent_host.Launch.Contracts.{
  LaunchRecord, Request, State, retiring, requested, ◌=s◌, validate_launch_record, before,
  valid_timestamp, uuid_id,
}

abbrev pub max_ledger_bytes : ℕ
max_ledger_bytes = 1_000_000

abbrev pub max_records : ℕ
max_records = 1_000

abbrev pub max_pending : ℕ
max_pending = 32

abbrev pub max_retirements : ℕ
max_retirements = 100

abbrev pub max_retirement_cleanups : ℕ
max_retirement_cleanups = 1_000

-- The tombstone of a retired launch.
pub record Retirement : Type 0 where
  pub launch_id : String
  pub attempt_id : String
  pub provider : String
  pub key_hash : String
  pub creation_key_hash : String
  pub signature : String
  pub request : Request
  pub requested_at : String
  pub retired_at : String
  pub cleanup_scope : Option String

pub record Cleanup : Type 0 where
  pub launch_id : String
  pub attempt_id : String
  pub provider : String
  pub key_hash : String
  pub cleanup_scope : Option String

-- What the file holds, once parsed.
pub record Document : Type 0 where
  pub schema_version : ℕ
  pub records : List LaunchRecord
  pub retirements : Option (List Retirement)
  pub retirement_cleanups : Option (List Cleanup)

pub record Ledger : Type 0 where
  pub opened : Bool
  pub records : Map LaunchRecord
  pub retirements : Map Retirement
  pub cleanups : Map Cleanup
  pub compact : Bool
  pub disk : Option Document

-- What the host provides: `Date.parse`, the byte lengths of serialized values, the order of
-- `localeCompare`, and whether the text of a version 1 document has the marker that is rewritten.
pub record Host : Type 0 where
  pub date_parse : String → Option ℤ
  pub document_bytes : Document → ℕ
  pub entry_bytes : Retirement → ℕ
  pub locale_before : String → String → Bool
  pub legacy_marker : Document → Bool

pub data LedgerError : Type 0 where
  not_open unavailable malformed duplicate_records duplicate_retirements duplicate_keys :
      LedgerError
  mismatched_cleanups duplicate_attempts duplicate_cleanups cleanup_capacity : LedgerError
  legacy_marker_invalid invalid_hash not_owned retirement_cleanup_full : LedgerError
  retirement_key_conflict invalid_record not_fenced fence_mismatch record_not_found : LedgerError
  too_large no_completion_capacity write_failed lock_failed : LedgerError

-- How writePrivateFileAtomic ends: without an error, with one before the file is replaced, or with one
-- after it (`chmod` and the sync of the directory follow the `rename`).
pub data Write : Type 0 where
  done failed failed_late : Write

abbrev pub is_done : Write → Bool
is_done done = true
is_done failed = false
is_done failed_late = false

abbrev pub is_late : Write → Bool
is_late done = false
is_late failed = false
is_late failed_late = true

abbrev is_write_failed : LedgerError → Bool
is_write_failed write_failed = true
is_write_failed _ = false

unfoldable pub retirement_cleanup : Retirement → Cleanup
retirement_cleanup t = record {
  launch_id = t.launch_id;
  attempt_id = t.attempt_id;
  provider = t.provider;
  key_hash = t.key_hash;
  cleanup_scope = t.cleanup_scope;
}

infix 50 ◌=o◌
-- `===` on optional texts
abbrev pub ◌=o◌ : Option String → Option String → Bool
none =o none = true
none =o some b = false
some a =o none = false
some a =o some b = a =? b

unfoldable pub cleanup_matches_retirement : Cleanup → Option Retirement → Bool
cleanup_matches_retirement c none = false
cleanup_matches_retirement c (some t) =
    c.launch_id =? t.launch_id
    && c.attempt_id =? t.attempt_id
    && c.provider =? t.provider
    && c.key_hash =? t.key_hash
    && c.cleanup_scope =o t.cleanup_scope

-- `/^[A-Za-z0-9_-]{16}$/`
unfoldable pub safe_scope : String → Bool
unfolding is_alnum
safe_scope s = length (codes s) == 16 && all (λ c. is_alnum c || c == b'_' || c == b'-') (codes s)

unfoldable pub valid_retirement_cleanup : Cleanup → Bool
valid_retirement_cleanup c =
    uuid_id "launch:" c.launch_id
    && uuid_id "attempt:" c.attempt_id
    && safe_id c.provider
    && safe_hash c.key_hash
    && safe_scope (get_or c.cleanup_scope "")

abbrev pub is_retiring : LaunchRecord → Bool
is_retiring r = r.state =s retiring

abbrev pub retiring_count : Map LaunchRecord → ℕ
retiring_count m = count_if is_retiring (Maps.values m)

abbrev pub has_scope : Retirement → Bool
has_scope t = elim t.cleanup_scope [ none ↦ false | some s ↦ true ]

unfoldable pub cleanups_exactly_match_scoped_retirements : Map Retirement → Map Cleanup → Bool
cleanups_exactly_match_scoped_retirements retirements cleanups =
    count_if has_scope (Maps.values retirements) == length cleanups
    && all
        (λ t. not (has_scope t) || (elim (Maps.get t.launch_id cleanups) [
          | none ↦ false
          | some c ↦ cleanup_matches_retirement c (some t)
        ]))
        (Maps.values retirements)

unfoldable pub ledger_content : Map LaunchRecord → Map Retirement → Map Cleanup → Bool → Document
unfolding cleanups_exactly_match_scoped_retirements
ledger_content records retirements cleanups compact =
    let bare : Document = record {
      schema_version = 2;
      records = Maps.values records;
      retirements = none;
      retirement_cleanups = none;
    } in
    if ltb 0 (length retirements) || ltb 0 (length cleanups)
    then record bare {
      retirements = some (Maps.values retirements);
      retirement_cleanups =
          if not compact || not (cleanups_exactly_match_scoped_retirements retirements cleanups)
          then some (Maps.values cleanups)
          else none;
    }
    else bare

-- What the file holds after #persist throws: what it held, or the content that replaced it.
abbrev pub left_on_disk : Write → LedgerError → Ledger → Option Document → Option Document
left_on_disk written e next before =
    if is_late written && is_write_failed e
    then some (ledger_content next.records next.retirements next.cleanups next.compact)
    else before

module _ (h : Host) where
  unfoldable pub later_timestamp : String → String → String
  later_timestamp previous candidate =
      if before h.date_parse candidate previous then previous else candidate

  unfoldable pub retirement_entry : LaunchRecord → String → Option String → Retirement
  unfolding later_timestamp
  retirement_entry r now scope = record {
    launch_id = r.id;
    attempt_id = r.attempt_id;
    provider = r.request.provider;
    key_hash = get_or r.retirement_key_hash "";
    creation_key_hash = r.key_hash;
    signature = r.signature;
    request = r.request;
    requested_at = r.requested_at;
    retired_at = later_timestamp r.updated_at now;
    cleanup_scope = scope;
  }

  -- The request is probed as part of a fixed record.
  unfoldable pub valid_retired_request : Request → Bool
  valid_retired_request request = validate_launch_record h.date_parse (record {
    id = "launch:00000000-0000-4000-8000-000000000000";
    attempt_id = "attempt:00000000-0000-4000-8000-000000000000";
    key_hash = "aaaaaaaaaaaaaaaaaaaaaaaaaaaaaaaaaaaaaaaaaaa";
    signature = "bbbbbbbbbbbbbbbbbbbbbbbbbbbbbbbbbbbbbbbbbbb";
    request = request;
    state = requested;
    provider_agent_id = none;
    agent_id = none;
    error = none;
    retirement_key_hash = none;
    requested_at = "2000-01-01T00:00:00.000Z";
    updated_at = "2000-01-01T00:00:00.000Z";
  })

  unfoldable pub valid_retirement : Retirement → Bool
  valid_retirement t =
      uuid_id "launch:" t.launch_id
      && uuid_id "attempt:" t.attempt_id
      && safe_id t.provider
      && safe_hash t.key_hash
      && safe_hash t.creation_key_hash
      && safe_hash t.signature
      && (elim t.cleanup_scope [ none ↦ true | some s ↦ safe_scope s ])
      && valid_retired_request t.request
      && t.provider =? t.request.provider
      && valid_timestamp h.date_parse t.requested_at
      && valid_timestamp h.date_parse t.retired_at

  -- The order of the sort: longer entries first, equal lengths by `localeCompare`.
  abbrev goes_before : Retirement → Retirement → Bool
  goes_before a b =
      ltb (h.entry_bytes b) (h.entry_bytes a)
      || h.entry_bytes a == h.entry_bytes b && h.locale_before a.launch_id b.launch_id

  insert_candidate : Retirement → List Retirement → List Retirement
  insert_candidate t [] = t ∷ []
  insert_candidate t (u ∷ ts) = if goes_before u t then u ∷ insert_candidate t ts else t ∷ u ∷ ts

  sort_candidates : List Retirement → List Retirement
  unfolding insert_candidate
  sort_candidates [] = []
  sort_candidates (t ∷ ts) = insert_candidate t (sort_candidates ts)

  abbrev keyed : List Retirement → Map Retirement → Map Retirement
  keyed [] m = m
  keyed (t ∷ ts) m = keyed ts (Maps.set t.launch_id t m)

  -- The tombstones of the records that are being retired.
  pending_entries : List LaunchRecord → List Retirement
  unfolding retirement_entry
  pending_entries [] = []
  pending_entries (r ∷ rs) =
      if is_retiring r
      then retirement_entry r r.updated_at (some "xxxxxxxxxxxxxxxx") ∷ pending_entries rs
      else pending_entries rs

  abbrev with_cleanups : List Retirement → Map Cleanup → Map Cleanup
  with_cleanups [] m = m
  with_cleanups (t ∷ ts) m = with_cleanups ts (Maps.set t.launch_id (retirement_cleanup t) m)

  abbrev without_retiring : Map LaunchRecord → Map LaunchRecord
  without_retiring [] = []
  without_retiring ((i, r) ∷ m) =
      if is_retiring r then without_retiring m else (i, r) ∷ without_retiring m

  unfoldable pub project_retirement_completions :
      Map LaunchRecord
      → Map Retirement
      → Map Cleanup
      → Map LaunchRecord × Map Retirement × Map Cleanup
  unfolding sort_candidates pending_entries
  project_retirement_completions records retirements cleanups =
      let entries = pending_entries (Maps.values records) in
      (
        without_retiring records,
        keyed (take max_retirements (sort_candidates (Maps.values retirements ++ entries))) [],
        with_cleanups entries cleanups,
      )

  -- `written` is the outcome of the atomic write. An error says nothing of the file: see `left_on_disk`.
  unfoldable pub persist : Write → Ledger → Result LedgerError Ledger
  persist written s =
      let content = ledger_content s.records s.retirements s.cleanups s.compact in
      let (records, retirements, cleanups) =
        project_retirement_completions s.records s.retirements s.cleanups in
      if ltb max_ledger_bytes (h.document_bytes content)
      then err too_large
      else if ltb max_ledger_bytes
          (h.document_bytes (ledger_content records retirements cleanups s.compact))
      then err no_completion_capacity
      else if is_done written
      then ok (record s { disk = some content })
      else err write_failed

  -- `try { await this.#persist() } catch { <roll back>; throw }`
  unfoldable pub commit : {A : Type 0} → Write → Ledger → Ledger → A → Ledger × Result LedgerError A
  commit written next rolled_back a = elim (persist written next) [
    | ok s ↦ (s, ok a)
    | err e ↦ (record rolled_back { disk = left_on_disk written e next rolled_back.disk }, err e)
  ]
