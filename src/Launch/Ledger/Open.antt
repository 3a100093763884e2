-- ===== src/Launch/Ledger/Open.antt =====
-- Opening and closing a ledger: what the file holds is checked as a whole before any of it is used.
use agent_host.Common.{
  String, Bool, true, false, ◌&&◌, ◌||◌, not, Option, none, some, List, [], ◌∷◌, ◌++◌, map, ◌+◌,
  ◌==◌, leb, if◌then◌else◌, length, any, all, filter, ◌=?◌, get_or, is_some,
}
use agent_host.Common.Results.{Result, ok, err, ◌>>=◌}
use agent_host.Common.Maps
use agent_host.Common.Maps.{Map}
use agent_host.Launch.Contracts.{LaunchRecord, validate_launch_record}
use agent_host.Launch.Ledger.{
  Write, is_done, is_late, Ledger, LedgerError, Host, Document, Retirement, Cleanup, unavailable,
  malformed, duplicate_records, duplicate_retirements, duplicate_keys, mismatched_cleanups,
  duplicate_attempts, duplicate_cleanups, cleanup_capacity, legacy_marker_invalid, write_failed,
  lock_failed, max_records, max_retirements, max_retirement_cleanups, has_scope, retiring_count,
  valid_retirement, valid_retirement_cleanup, retirement_cleanup, cleanup_matches_retirement,
}

-- `claimKey`: the keys seen so far, with one more.
unfoldable pub claim_key : String → List String → Option (List String)
claim_key k seen = if any (λ j. j =? k) seen then none else some (k ∷ seen)

unfoldable pub claim_option : Option String → List String → Option (List String)
unfolding claim_key
claim_option none seen = some seen
claim_option (some k) seen = claim_key k seen

-- The keys of one record: the creation key, then the retirement key.
unfoldable pub claim_record : LaunchRecord → List String → Option (List String)
unfolding claim_option
claim_record r seen = elim (claim_key r.key_hash seen) [
  | none ↦ none
  | some more ↦ claim_option r.retirement_key_hash more
]

abbrev continue_with {ℓ} : {A : Type ℓ} → Bool → Option A → Option A
continue_with true o = o
continue_with false o = none

unfoldable pub load_records :
    List LaunchRecord → Map LaunchRecord → List String → Option (Map LaunchRecord × List String)
unfolding claim_record
load_records [] m seen = some (m, seen)
load_records (r ∷ rs) m seen = elim (claim_record r seen) [
  | none ↦ none
  | some more ↦ continue_with (not (Maps.has r.id m)) (load_records rs (Maps.set r.id r m) more)
]

-- `new Set(ids).size === ids.length`
unfoldable pub distinct : List String → Bool
distinct [] = true
distinct (x ∷ xs) = not (any (λ y. y =? x) xs) && distinct xs

unfoldable pub claim_retirements : List Retirement → List String → Option (List String)
unfolding claim_key
claim_retirements [] seen = some seen
claim_retirements (t ∷ ts) seen = elim (claim_key t.creation_key_hash seen) [
  | none ↦ none
  | some more ↦ elim (claim_key t.key_hash more) [
    | none ↦ none
    | some all_more ↦ claim_retirements ts all_more
  ]
]

abbrev pub by_launch_id : List Retirement → Map Retirement
by_launch_id ts = map (λ t. (t.launch_id, t)) ts

abbrev pub cleanup_by_id : List Cleanup → Map Cleanup
cleanup_by_id cs = map (λ c. (c.launch_id, c)) cs

-- `attemptOwners`: who owns each attempt, records first and then tombstones.
unfoldable pub own_attempts : List (String × String) → Map String → Option (Map String)
own_attempts [] owners = some owners
own_attempts ((attempt, owner) ∷ rest) owners =
    continue_with (not (Maps.has attempt owners))
      (own_attempts rest (Maps.set attempt owner owners))

abbrev pub owned_by : String → Option String → Bool
owned_by id none = true
owned_by id (some owner) = owner =? id

unfoldable pub own_cleanups : Map LaunchRecord → List Cleanup → Map String → Bool
own_cleanups records [] owners = true
own_cleanups records (c ∷ cs) owners =
    not (Maps.has c.launch_id records)
    && owned_by c.launch_id (Maps.get c.attempt_id owners)
    && own_cleanups records cs (Maps.set c.attempt_id c.launch_id owners)

abbrev pub attempts_of : List LaunchRecord → List Retirement → List (String × String)
attempts_of rs ts = map (λ r. (r.attempt_id, r.id)) rs ++ map (λ t. (t.attempt_id, t.launch_id)) ts

-- A version 1 document without retirements; a version 2 document without either optional list.
abbrev pub is_legacy : Document → Bool
is_legacy d = d.schema_version == 1 && not (is_some d.retirements)

abbrev pub is_compact : Document → Bool
is_compact d =
    d.schema_version == 2 && not (is_some d.retirements) && not (is_some d.retirement_cleanups)

-- What `open` reads from a document: the records, the tombstones and the cleanups.
pub record Contents : Type 0 where
  pub records : Map LaunchRecord
  pub retirements : Map Retirement
  pub cleanups : Map Cleanup

abbrev check : Bool → LedgerError → Result LedgerError (Unit {0})
check true e = ok tt
check false e = err e

infixl 5 ◌>>◌
abbrev ◌>>◌ :
    {A : Type 0} → Result LedgerError (Unit {0}) → Result LedgerError A → Result LedgerError A
m >> k = m >>= λ _. k

abbrev or_fail : {A : Type 0} → Option A → LedgerError → Result LedgerError A
or_fail none e = err e
or_fail (some a) e = ok a

abbrev pub cleanups_of : Document → List Cleanup
cleanups_of d = elim d.retirement_cleanups [
  | some cs ↦ cs
  | none ↦ map retirement_cleanup (filter has_scope (get_or d.retirements []))
]

module _ (h : Host) where
  -- The check of the schema.
  unfoldable pub well_formed : Document → Bool
  well_formed d =
      (is_legacy d || is_compact d || d.schema_version == 2)
      && leb (length d.records) max_records
      && all (validate_launch_record h.date_parse) d.records
      && (is_legacy d || is_compact d || (elim d.retirements [
        | none ↦ false
        | some ts ↦ leb (length ts) max_retirements && all (valid_retirement h) ts
      ]))
      && (elim d.retirement_cleanups [
        | none ↦ true
        | some cs ↦ leb (length cs) max_retirement_cleanups && all valid_retirement_cleanup cs
      ])

  -- A cleanup beside its tombstone, if that is still there, matches it.
  abbrev pub matches_own : Map Retirement → Cleanup → Bool
  matches_own retirements c = elim (Maps.get c.launch_id retirements) [
    | none ↦ true
    | some t ↦ cleanup_matches_retirement c (some t)
  ]

  unfoldable pub load : Document → Result LedgerError Contents
  unfolding load_records claim_retirements own_attempts own_cleanups well_formed distinct
  load d = do
    check (well_formed d) malformed
    (records, seen) ← or_fail (load_records d.records [] []) duplicate_records
    let ts = get_or d.retirements []
    check (distinct (map (λ t. t.launch_id) ts)) duplicate_retirements
    check (all (λ t. not (Maps.has t.launch_id records)) ts) duplicate_retirements
    _ ← or_fail (claim_retirements ts seen) duplicate_keys
    let retirements = by_launch_id ts
    let cs = cleanups_of d
    check (distinct (map (λ c. c.launch_id) cs)) mismatched_cleanups
    check (all (matches_own retirements) cs) mismatched_cleanups
    owners ← or_fail (own_attempts (attempts_of (Maps.values records) ts) []) duplicate_attempts
    check (own_cleanups records cs owners) duplicate_cleanups
    check (leb (length cs + retiring_count records) max_retirement_cleanups) cleanup_capacity
    ok (record { records = records; retirements = retirements; cleanups = cleanup_by_id cs })

-- `catch`: everything is dropped and the lease released.
unfoldable pub closed : Ledger → Ledger
closed s = record s {
  opened = false;
  records = [];
  retirements = [];
  cleanups = [];
  compact = false;
}

abbrev pub empty_document : Document
empty_document = record {
  schema_version = 2;
  records = [];
  retirements = some [];
  retirement_cleanups = some [];
}

-- What the environment decides during `open`: the writer's lease, whether the file can be read and
-- parsed, and how a write ends.
pub record Opening : Type 0 where
  pub locked : Bool
  pub readable : Bool
  pub written : Write

module _ (h : Host) where
  -- Once the document has been checked.
  unfoldable pub open_loaded :
      Opening → Document → Ledger → Contents → Ledger × Result LedgerError (List LaunchRecord)
  unfolding closed
  open_loaded o d s c =
      let loaded : Ledger = record s {
        opened = true;
        records = c.records;
        retirements = c.retirements;
        cleanups = c.cleanups;
        compact = not (is_legacy d) && not (is_some d.retirement_cleanups);
      } in
      if not (is_legacy d)
      then (loaded, ok (Maps.values c.records))
      else if not (h.legacy_marker d)
      then (closed s, err legacy_marker_invalid)
      else if not (is_done o.written)
      then (
        closed (record s {
          disk = if is_late o.written then some (record d { schema_version = 2 }) else s.disk;
        }),
        err write_failed,
      )
      else (
        record loaded { disk = some (record d { schema_version = 2 }) },
        ok (Maps.values c.records),
      )

  -- Once the document is read, with what the file holds by then.
  unfoldable pub open_document :
      Opening → Document → Ledger → Ledger × Result LedgerError (List LaunchRecord)
  unfolding open_loaded
  open_document o d s = elim (load h d) [ err e ↦ (closed s, err e) | ok c ↦ open_loaded o d s c ]

  unfoldable pub open_ledger : Opening → Ledger → Ledger × Result LedgerError (List LaunchRecord)
  unfolding open_document
  open_ledger o s =
      if s.opened
      then (s, ok (Maps.values s.records))
      else if not o.locked
      then (s, err lock_failed)
      else (elim s.disk [
        | none ↦
            if is_done o.written
            then open_document o empty_document (record s { disk = some empty_document })
            else (
              closed (record s { disk = if is_late o.written then some empty_document else none }),
              err write_failed,
            )
        | some d ↦ if o.readable then open_document o d s else (closed s, err unavailable)
      ])

unfoldable pub close : Ledger → Ledger
unfolding closed
close s = if s.opened then closed s else s
