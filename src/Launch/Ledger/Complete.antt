-- ===== src/Launch/Ledger/Complete.antt =====
-- The operations that add or remove entries keep the invariant: reserving a launch, replacing a
-- fenced launch by its tombstone, and ending a cleanup.
use agent_host.Common.{
  ◌+◌, ◌≤◌, String, ◌≡◌, refl, sym, ◌∙◌, true, ◌||◌, not, Option, none, some, arith, one_if, length,
  any, ◌=?◌, eq_iff, inl, inr, Bool-cases, Option-cases, leb, count_if, if-cases, any-find, find,
  is_some,
}
use agent_host.Common.Results.{Result}
use agent_host.Common.Maps
use agent_host.Common.Maps.{
  Map, Keys, AllEntries, total, AllEntries-set, AllEntries-get, AllEntries-delete, set-Keys,
  delete-Keys, total-set_present, length-set_present, length-set-le, length-delete-le, total-delete,
  total-set-le, set-set_back, total-any-false, total-add, total-get, length-total,
  total-set_deleted, total-delete-set, set_same, total-count_if,
}
use agent_host.Launch.Contracts.{LaunchRecord, is_retiring-is_some, validate_launch_record}
use agent_host.Launch.Ledger.{
  Write, Ledger, LedgerError, Host, Retirement, Cleanup, is_retiring, ◌=o◌, retirement_entry,
  valid_retirement, retirement_cleanup, max_pending, max_records,
}
use agent_host.Launch.Ledger.Retire.{completed, complete_found, complete_retirement, cleanups_after}
use agent_host.Launch.Ledger.Reserve.{
  Reservation, Reserved, new_record, reserve_new, reserve, is_pending,
}
use agent_host.Launch.Ledger.Cleanups.{cleanups_after-valid}
use agent_host.Launch.Ledger.Sound.{
  record_uses, retirement_uses, uses, RecordOk, RetirementOk, Sound, commit_cases,
}
use agent_host.Launch.Ledger.Evict.{length-evict, total-evict-le, evict-Keys, evict-AllEntries}

module _ (h : Host) where
  abbrev Kept : {A : Type 0} → Ledger × Result LedgerError A → Type 0
  Kept o = Sound h o.0

  -- The tombstone takes over the two keys of the record.
  entry_uses :
      (k now : String) (scope : Option String) (r : LaunchRecord)
      → is_some r.retirement_key_hash ≡ true
      → retirement_uses k (retirement_entry h r now scope) ≡ record_uses k r
  unfolding retirement_entry
  entry_uses k now scope r keyed = ground arith

  cleanups_after-Keys :
      (id : String) (t : Retirement) (m : Map Cleanup) → Keys m → Keys (cleanups_after id t m)
  cleanups_after-Keys id t m keys =
      ground (arith, set-Keys id (retirement_cleanup t) m keys, delete-Keys id m keys)

  length-cleanups_after :
      (id : String) (t : Retirement) (m : Map Cleanup)
      → length (cleanups_after id t m) ≤ length m + 1
  length-cleanups_after id t m =
      ground (arith, length-set-le id (retirement_cleanup t) m, length-delete-le id m)

  completed-Sound :
      (id now : String) (scope : Option String) (s : Ledger) (current : LaunchRecord)
      → Sound h s
      → Maps.get id s.records ≡ some current
      → is_retiring current ≡ true
      → valid_retirement h (retirement_entry h current now scope) ≡ true
      → Sound h (completed h id (retirement_entry h current now scope) s)
  unfolding completed
  completed-Sound id now scope s current sound found phase valid =
      let fits = AllEntries-get (RecordOk h) id current s.records sound.records_valid found in
      let keyed = sym (is_retiring-is_some h.date_parse current fits.1) ∙ phase in
      let entry = retirement_entry h current now scope in
      record {
        record_keys = delete-Keys id s.records sound.record_keys;
        retirement_keys = evict-Keys _ (set-Keys id entry s.retirements sound.retirement_keys);
        cleanup_keys = cleanups_after-Keys id entry s.cleanups sound.cleanup_keys;
        cleanups_valid =
            cleanups_after-valid h id entry s.cleanups (unfold retirement_entry in fits.0) valid
              sound.cleanups_valid;
        records_valid = AllEntries-delete (RecordOk h) id s.records sound.records_valid;
        retirements_valid = evict-AllEntries (RetirementOk h) _ (
            AllEntries-set (RetirementOk h) id entry s.retirements
              (unfold retirement_entry in fits.0, valid) sound.retirements_valid);
        used_once = λ k. omega (
          arith,
          sound.used_once k,
          total-delete (record_uses k) id current s.records sound.record_keys found,
          total-evict-le (retirement_uses k) (Maps.set id entry s.retirements),
          total-set-le (retirement_uses k) id entry s.retirements,
          entry_uses k now scope current keyed,
        );
        few_records = omega (arith, length-delete-le id s.records, sound.few_records);
        few_retirements = length-evict _;
        few_cleanups = ground (
          arith,
          sound.few_cleanups,
          length-cleanups_after id entry s.cleanups,
          total-delete (λ r. one_if (is_retiring r)) id current s.records sound.record_keys found,
        );
      }

  -- A failed write puts the record back, as the last one.
  put_back-Sound :
      (s : Ledger) (id : String) (current : LaunchRecord)
      → Sound h s
      → Maps.get id s.records ≡ some current
      → Sound h (record s { records = Maps.set id current (Maps.delete id s.records) })
  put_back-Sound s id current sound found =
      let m = s.records in
      let keys = sound.record_keys in
      let fits = AllEntries-get (RecordOk h) id current m sound.records_valid found in
      record {
        record_keys = set-Keys id current _ (delete-Keys id m keys);
        retirement_keys = sound.retirement_keys;
        cleanup_keys = sound.cleanup_keys;
        cleanups_valid = sound.cleanups_valid;
        records_valid =
            AllEntries-set (RecordOk h) id current _ fits
              (AllEntries-delete (RecordOk h) id m sound.records_valid);
        retirements_valid = sound.retirements_valid;
        used_once = λ k.
            omega
              (arith, sound.used_once k, total-set_deleted (record_uses k) id current m keys found);
        few_records = omega (
          arith,
          sound.few_records,
          total-set_deleted (λ r. 1) id current m keys found,
          length-total m,
          length-total (Maps.set id current (Maps.delete id m)),
        );
        few_retirements = sound.few_retirements;
        few_cleanups = omega (
          arith,
          sound.few_cleanups,
          total-set_deleted (λ r. one_if (is_retiring r)) id current m keys found,
        );
      }

  complete_found-Sound :
      (written : Write) (id now : String) (scope : Option String) (s : Ledger)
      (current : LaunchRecord)
      → Sound h s
      → Maps.get id s.records ≡ some current
      → Sound h (complete_found h written id now scope s current).0
  unfolding complete_found
  complete_found-Sound written id now scope s current sound found =
      let entry = retirement_entry h current now scope in
      if-cases (Kept {A = Retirement}) (not (is_retiring current)) _ _ (λ _. sound)
        λ e1.
          if-cases (Kept {A = Retirement}) (not (valid_retirement h entry)) _ _ (λ _. sound)
            λ e2.
              commit_cases h (Sound h) written _ _ entry
                (λ d.
                  completed-Sound id now scope s current sound found (ground arith) (ground arith))
                (λ d. put_back-Sound s id current sound found)

  pub complete_retirement-Sound :
      (written : Write) (id now : String) (scope : Option String) (s : Ledger)
      → Sound h s
      → Sound h (complete_retirement h written id now scope s).0
  unfolding complete_retirement
  complete_retirement-Sound written id now scope s sound =
      elim (Option-cases (Maps.get id s.records)) [
        | inl absent ↦ rw (absent, complete_retirement) (ground arith)
        | inr (current, found) ↦
            let kept = complete_found-Sound written id now scope s current sound found in
            rw (found, complete_retirement) (ground arith)
      ]

  -- A new record under a key that nothing uses.
  added-Sound :
      (s : Ledger) (v : Reservation)
      → Sound h s
      → validate_launch_record h.date_parse (new_record v) ≡ true
      → uses v.key_hash s.records s.retirements ≡ 0
      → length s.records + 1 ≤ 1_000
      → Sound h (record s { records = Maps.set v.id (new_record v) s.records })
  unfolding new_record
  added-Sound s v sound valid free room = record {
    record_keys = set-Keys v.id (new_record v) s.records sound.record_keys;
    retirement_keys = sound.retirement_keys;
    cleanup_keys = sound.cleanup_keys;
    cleanups_valid = sound.cleanups_valid;
    records_valid =
        AllEntries-set (RecordOk h) v.id (new_record v) s.records (refl, valid) sound.records_valid;
    retirements_valid = sound.retirements_valid;
    used_once = λ k. elim (Bool-cases (v.key_hash =? k)) [
      | inl same ↦
          rw (← (eq_iff v.key_hash k).0 same)
            (ground (arith, total-set-le (record_uses v.key_hash) v.id (new_record v) s.records))
      | inr other ↦
          ground
            (arith, sound.used_once k, total-set-le (record_uses k) v.id (new_record v) s.records)
    ];
    few_records = omega (arith, room, length-set-le v.id (new_record v) s.records);
    few_retirements = sound.few_retirements;
    few_cleanups = omega (
      arith,
      sound.few_cleanups,
      total-set-le (λ r. one_if (is_retiring r)) v.id (new_record v) s.records,
    );
  }

  removed-Sound :
      (s : Ledger) (id : String) (next : LaunchRecord)
      → Sound h s
      → RecordOk h id next
      → Sound h (record s { records = Maps.delete id (Maps.set id next s.records) })
  removed-Sound s id next sound fits = record {
    record_keys = delete-Keys id _ (set-Keys id next s.records sound.record_keys);
    retirement_keys = sound.retirement_keys;
    cleanup_keys = sound.cleanup_keys;
    cleanups_valid = sound.cleanups_valid;
    records_valid =
        AllEntries-delete (RecordOk h) id _
          (AllEntries-set (RecordOk h) id next s.records fits sound.records_valid);
    retirements_valid = sound.retirements_valid;
    used_once =
        λ k. omega (arith, sound.used_once k, total-delete-set (record_uses k) id next s.records);
    few_records = omega (
      arith,
      sound.few_records,
      total-delete-set (λ r. 1) id next s.records,
      length-total s.records,
      length-total (Maps.delete id (Maps.set id next s.records)),
    );
    few_retirements = sound.few_retirements;
    few_cleanups = omega (
      arith,
      sound.few_cleanups,
      total-delete-set (λ r. one_if (is_retiring r)) id next s.records,
    );
  }

  reserve_new-Sound :
      (written : Write) (v : Reservation) (s : Ledger)
      → Sound h s
      → find (λ r. r.key_hash =? v.key_hash) (Maps.values s.records) ≡ none
      → find (λ t. t.creation_key_hash =? v.key_hash) (Maps.values s.retirements) ≡ none
      → Sound h (reserve_new h written v s).0
  unfolding reserve_new
  reserve_new-Sound written v s sound fresh unretired =
      if-cases (Kept {A = Reserved})
        (any (λ r. r.retirement_key_hash =o some v.key_hash) (Maps.values s.records)
          || any (λ t. t.key_hash =? v.key_hash) (Maps.values s.retirements))
        _ _ (λ _. sound)
        λ e1.
          if-cases (Kept {A = Reserved})
            (leb max_pending (count_if is_pending (Maps.values s.records))) _ _ (λ _. sound)
            λ e2.
              if-cases (Kept {A = Reserved}) (leb max_records (length s.records)) _ _ (λ _. sound)
                λ e3.
                  if-cases (Kept {A = Reserved})
                    (not (validate_launch_record h.date_parse (new_record v))) _ _ (λ _. sound)
                    λ e4.
                      let free : uses v.key_hash s.records s.retirements ≡ 0 = ground (
                        arith,
                        any-find (λ r. r.key_hash =? v.key_hash) (Maps.values s.records),
                        any-find (λ t. t.creation_key_hash =? v.key_hash)
                            (Maps.values s.retirements),
                        total-any-false (λ r. r.retirement_key_hash =o some v.key_hash) s.records,
                        total-any-false (λ t. t.key_hash =? v.key_hash) s.retirements,
                        total-any-false (λ r. r.key_hash =? v.key_hash) s.records,
                        total-any-false (λ t. t.creation_key_hash =? v.key_hash) s.retirements,
                        total-add (λ r. one_if (r.key_hash =? v.key_hash))
                            (λ r. one_if (r.retirement_key_hash =o some v.key_hash)) s.records,
                        total-add (λ t. one_if (t.creation_key_hash =? v.key_hash))
                            (λ t. one_if (t.key_hash =? v.key_hash)) s.retirements,
                      ) in
                      let valid : validate_launch_record h.date_parse (new_record v) ≡ true =
                        ground arith in
                      commit_cases h (Sound h) written _ _ _
                        (λ d. added-Sound s v sound valid free (ground arith))
                        (λ d.
                          removed-Sound s v.id (new_record v) sound
                            (unfold new_record in refl, valid))

  pub reserve-Sound :
      (written : Write) (v : Reservation) (s : Ledger)
      → Sound h s
      → Sound h (reserve h written v s).0
  unfolding reserve
  reserve-Sound written v s sound =
      if-cases (Kept {A = Reserved}) (not s.opened) _ _ (λ _. sound)
        λ e1. elim (Option-cases (find (λ r. r.key_hash =? v.key_hash) (Maps.values s.records))) [
          | inr (r, e) ↦ rw e sound
          | inl fresh ↦
              rw fresh
                (elim (Option-cases
                  (find (λ t. t.creation_key_hash =? v.key_hash) (Maps.values s.retirements))) [
                    | inr (t, e) ↦ rw e sound
                    | inl unretired ↦
                        rw unretired (reserve_new-Sound written v s sound fresh unretired)
                  ])
        ]
