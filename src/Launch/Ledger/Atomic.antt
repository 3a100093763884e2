-- ===== src/Launch/Ledger/Atomic.antt =====
-- A call that fails changes no lookup by key and no flag, and the file only if its write failed late.
use agent_host.Common.{
  String, ◌≡◌, refl, sym, ◌⊎◌, Bool, true, false, not, Option, none, some, List, ◌=?◌, inl, inr,
  Option-cases, safe_hash, if◌then◌else◌, find,
}
use agent_host.Common.Results.{Result, err, Result-cases}
use agent_host.Common.Maps
use agent_host.Common.Maps.{Map, set-set_back, delete-set_back, get-set_deleted}
use agent_host.Launch.Contracts.{LaunchRecord, State}
use agent_host.Launch.Ledger.{
  Write, done, failed, failed_late, left_on_disk, persist, Document, Ledger, LedgerError, Host,
  Cleanup, commit,
}
use agent_host.Launch.Ledger.Retire.{
  fenced, released, begin_found, begin_retirement, complete_found, complete_retirement,
  cleanup_found, complete_retirement_cleanup, cancel_found, cancel_retirement,
  retirements_after_cleanup, retirements_rolled_back,
}
use agent_host.Launch.Ledger.Reserve.{
  Reservation, Patch, patched, new_record, reserve_new, reserve, transition_found, transition,
}
use agent_host.Launch.Ledger.Finish.{rolled_back_lem}

-- Two ledgers with the same lookups, the same flags and the same file.
record IsRestored (s t : Ledger) : Type 0 where
  pub opened : s.opened ≡ t.opened
  pub records : (k : String) → Maps.get k s.records ≡ Maps.get k t.records
  pub retirements : (k : String) → Maps.get k s.retirements ≡ Maps.get k t.retirements
  pub cleanups : (k : String) → Maps.get k s.cleanups ≡ Maps.get k t.cleanups
  pub compact : s.compact ≡ t.compact
  pub disk : s.disk ≡ t.disk

IsRestored-refl : (s : Ledger) → IsRestored s s
IsRestored-refl s = record {
  opened = refl;
  records = λ k. refl;
  retirements = λ k. refl;
  cleanups = λ k. refl;
  compact = refl;
  disk = refl;
}

-- Two ledgers with the same lookups by key and the same flags.
pub record SameView (s t : Ledger) : Type 0 where
  pub opened : s.opened ≡ t.opened
  pub records : (k : String) → Maps.get k s.records ≡ Maps.get k t.records
  pub retirements : (k : String) → Maps.get k s.retirements ≡ Maps.get k t.retirements
  pub cleanups : (k : String) → Maps.get k s.cleanups ≡ Maps.get k t.cleanups
  pub compact : s.compact ≡ t.compact

-- The outcome of a call on `s` with this write: if it is an error, `s` looks as before, and its file is the
-- same unless the write failed late.
pub record Atomic {A : Type 0} (w : Write) (s : Ledger) (o : Ledger × Result LedgerError A)
    : Type 0 where
  pub on_error :
      (e : LedgerError) → o.1 ≡ err e → SameView o.0 s × ((o.0.disk ≡ s.disk) ⊎ (w ≡ failed_late))

-- A call that does not touch the ledger.
untouched : {A : Type 0} (w : Write) (s : Ledger) (r : Result LedgerError A) → Atomic w s (s, r)
untouched w s r = record {
  on_error = λ e failed. (
    record {
      opened = refl;
      records = λ k. refl;
      retirements = λ k. refl;
      cleanups = λ k. refl;
      compact = refl;
    },
    inl refl,
  );
}

Atomic-if :
    {A : Type 0} (w : Write) (s : Ledger) (b : Bool) (x y : Ledger × Result LedgerError A)
    → Atomic w s x
    → Atomic w s y
    → Atomic w s (if b then x else y)
Atomic-if w s true x y ax ay = ax
Atomic-if w s false x y ax ay = ay

-- Only a write that fails late leaves another file.
left_on_disk_lem :
    (w : Write) (e : LedgerError) (next : Ledger) (before : Option Document)
    → (left_on_disk w e next before ≡ before) ⊎ (w ≡ failed_late)
left_on_disk_lem done e next before = inl refl
left_on_disk_lem failed e next before = inl refl
left_on_disk_lem failed_late e next before = inr refl

module _ (h : Host) where
  commit-Atomic :
      {A : Type 0} (written : Write) (s next back : Ledger) (a : A)
      → IsRestored back s
      → Atomic written s (commit h written next back a)
  unfolding commit
  commit-Atomic written s next back a undone = elim (Result-cases (persist h written next)) [
    | inl (s', e) ↦ rw (e, commit) (record { on_error = λ x bad. absurd (cc) })
    | inr (x, e) ↦
        rw (e, commit)
          (record {
            on_error = λ y failed. (
              record {
                opened = undone.opened;
                records = undone.records;
                retirements = undone.retirements;
                cleanups = undone.cleanups;
                compact = undone.compact;
              },
              rw (sym undone.disk) (left_on_disk_lem written x next back.disk),
            );
          })
  ]

  put_back :
      (s : Ledger) (id : String) (current next : LaunchRecord)
      → Maps.get id s.records ≡ some current
      → IsRestored (record s { records = Maps.set id current (Maps.set id next s.records) }) s
  put_back s id current next found =
      rw (set-set_back id current next s.records found) (IsRestored-refl s)

  put_back_deleted :
      (s : Ledger) (id : String) (current : LaunchRecord)
      → Maps.get id s.records ≡ some current
      → IsRestored (record s { records = Maps.set id current (Maps.delete id s.records) }) s
  put_back_deleted s id current found = record {
    opened = refl;
    records = λ k. get-set_deleted id k current s.records found;
    retirements = λ k. refl;
    cleanups = λ k. refl;
    compact = refl;
    disk = refl;
  }

  cleanup_put_back :
      (s : Ledger) (id : String) (c : Cleanup)
      → Maps.get id s.cleanups ≡ some c
      → IsRestored
          (record s {
            cleanups = Maps.set id c (Maps.delete id s.cleanups);
            retirements =
                retirements_rolled_back id s.retirements (retirements_after_cleanup id c s);
          })
          s
  cleanup_put_back s id c found = record {
    opened = refl;
    records = λ k. refl;
    retirements = λ k. rw (rolled_back_lem id c s);
    cleanups = λ k. get-set_deleted id k c s.cleanups found;
    compact = refl;
    disk = refl;
  }

  new_removed :
      (s : Ledger) (v : Reservation)
      → Maps.get v.id s.records ≡ none
      → IsRestored
          (record s { records = Maps.delete v.id (Maps.set v.id (new_record v) s.records) })
          s
  new_removed s v fresh =
      rw (delete-set_back v.id (new_record v) s.records fresh) (IsRestored-refl s)

  begin_found-Atomic :
      (written : Write) (id key now : String) (s : Ledger) (current : LaunchRecord)
      → Maps.get id s.records ≡ some current
      → Atomic written s (begin_found h written id key now s current)
  unfolding begin_found
  begin_found-Atomic written id key now s current found =
      search
        (
          Atomic-if,
          untouched,
          commit-Atomic,
          put_back s id current (fenced h current key now) found,
        )
        depth 9

  pub begin_retirement-Atomic :
      (written : Write) (id key now : String) (s : Ledger)
      → Atomic written s (begin_retirement h written id key now s)
  unfolding begin_retirement
  begin_retirement-Atomic written id key now s = elim (Option-cases (Maps.get id s.records)) [
    | inl absent ↦ rw (absent, begin_retirement) (search (Atomic-if, untouched))
    | inr (current, found) ↦
        rw (found, begin_retirement)
          (Atomic-if written s (not (safe_hash key)) _ _ (untouched written s _) (
            Atomic-if written s (not s.opened) _ _ (untouched written s _)
              (begin_found-Atomic written id key now s current found)))
  ]

  cancel_found-Atomic :
      (written : Write) (id key now : String) (s : Ledger) (current : LaunchRecord)
      → Maps.get id s.records ≡ some current
      → Atomic written s (cancel_found h written id key now s current)
  unfolding cancel_found
  cancel_found-Atomic written id key now s current found =
      search
        (Atomic-if, untouched, commit-Atomic, put_back s id current (released h current now) found)
        depth 9

  pub cancel_retirement-Atomic :
      (written : Write) (id key now : String) (s : Ledger)
      → Atomic written s (cancel_retirement h written id key now s)
  unfolding cancel_retirement
  cancel_retirement-Atomic written id key now s = elim (Option-cases (Maps.get id s.records)) [
    | inl absent ↦ rw (absent, cancel_retirement) (search (Atomic-if, untouched))
    | inr (current, found) ↦
        rw (found, cancel_retirement)
          (Atomic-if written s (not s.opened) _ _ (untouched written s _)
            (cancel_found-Atomic written id key now s current found))
  ]

  transition_found-Atomic :
      (written : Write) (id : String) (expected : List State) (p : Patch) (now : String)
      (s : Ledger) (current : LaunchRecord)
      → Maps.get id s.records ≡ some current
      → Atomic written s (transition_found h written id expected p now s current)
  unfolding transition_found
  transition_found-Atomic written id expected p now s current found =
      search
        (Atomic-if, untouched, commit-Atomic, put_back s id current (patched current p now) found)
        depth 9

  pub transition-Atomic :
      (written : Write) (id : String) (expected : List State) (p : Patch) (now : String)
      (s : Ledger)
      → Atomic written s (transition h written id expected p now s)
  unfolding transition
  transition-Atomic written id expected p now s = elim (Option-cases (Maps.get id s.records)) [
    | inl absent ↦ rw (absent, transition) (search (Atomic-if, untouched))
    | inr (current, found) ↦
        rw (found, transition)
          (Atomic-if written s (not s.opened) _ _ (untouched written s _)
            (transition_found-Atomic written id expected p now s current found))
  ]

  complete_found-Atomic :
      (written : Write) (id now : String) (scope : Option String) (s : Ledger)
      (current : LaunchRecord)
      → Maps.get id s.records ≡ some current
      → Atomic written s (complete_found h written id now scope s current)
  unfolding complete_found
  complete_found-Atomic written id now scope s current found =
      search (Atomic-if, untouched, commit-Atomic, put_back_deleted s id current found) depth 9

  pub complete_retirement-Atomic :
      (written : Write) (id now : String) (scope : Option String) (s : Ledger)
      → Atomic written s (complete_retirement h written id now scope s)
  unfolding complete_retirement
  complete_retirement-Atomic written id now scope s = elim (Option-cases (Maps.get id s.records)) [
    | inl absent ↦ rw (absent, complete_retirement) (search (Atomic-if, untouched))
    | inr (current, found) ↦
        rw (found, complete_retirement)
          (Atomic-if written s (not s.opened) _ _ (untouched written s _)
            (complete_found-Atomic written id now scope s current found))
  ]

  cleanup_found-Atomic :
      (written : Write) (id key : String) (s : Ledger) (current : Cleanup)
      → Maps.get id s.cleanups ≡ some current
      → Atomic written s (cleanup_found h written id key s current)
  unfolding cleanup_found
  cleanup_found-Atomic written id key s current found =
      search (Atomic-if, untouched, commit-Atomic, cleanup_put_back s id current found) depth 9

  pub complete_retirement_cleanup-Atomic :
      (written : Write) (id key : String) (s : Ledger)
      → Atomic written s (complete_retirement_cleanup h written id key s)
  unfolding complete_retirement_cleanup
  complete_retirement_cleanup-Atomic written id key s =
      elim (Option-cases (Maps.get id s.cleanups)) [
        | inl absent ↦ rw (absent, complete_retirement_cleanup) (search (Atomic-if, untouched))
        | inr (current, found) ↦
            rw (found, complete_retirement_cleanup)
              (Atomic-if written s (not s.opened) _ _ (untouched written s _)
                (cleanup_found-Atomic written id key s current found))
      ]

  reserve_new-Atomic :
      (written : Write) (v : Reservation) (s : Ledger)
      → Maps.get v.id s.records ≡ none
      → Atomic written s (reserve_new h written v s)
  unfolding reserve_new
  reserve_new-Atomic written v s fresh =
      search (Atomic-if, untouched, commit-Atomic, new_removed s v fresh) depth 9

  pub reserve-Atomic :
      (written : Write) (v : Reservation) (s : Ledger)
      → Maps.get v.id s.records ≡ none
      → Atomic written s (reserve h written v s)
  unfolding reserve
  reserve-Atomic written v s fresh =
      elim (Option-cases (find (λ r. r.key_hash =? v.key_hash) (Maps.values s.records))) [
        | inr (r, e) ↦ rw (e, reserve) (search (Atomic-if, untouched))
        | inl new ↦
            elim (Option-cases
              (find (λ t. t.creation_key_hash =? v.key_hash) (Maps.values s.retirements))) [
                | inr (t, e) ↦ rw (new, e, reserve) (search (Atomic-if, untouched))
                | inl unretired ↦
                    rw (new, unretired, reserve)
                      (Atomic-if written s (not s.opened) _ _ (untouched written s _)
                        (reserve_new-Atomic written v s fresh))
              ]
      ]
