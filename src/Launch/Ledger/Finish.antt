-- ===== src/Launch/Ledger/Finish.antt =====
-- Ending a cleanup keeps the invariant, also where the write fails.
use agent_host.Common.{
  ◌≤◌, String, ◌≡◌, Bool, true, ◌&&◌, not, none, some, arith, length, ◌=?◌, inl, inr, Option-cases,
  if-cases,
}
use agent_host.Common.Results.{Result}
use agent_host.Common.Maps
use agent_host.Common.Maps.{
  Map, Keys, AllEntries, total, AllEntries-set, AllEntries-get, AllEntries-delete, set-Keys,
  delete-Keys, total-set_present, length-set_present, length-delete-le, set-set_back, length-total,
  total-set_deleted, set_same,
}
use agent_host.Launch.Ledger.{
  Write, Ledger, LedgerError, Host, Retirement, Cleanup, valid_retirement,
  cleanup_matches_retirement,
}
use agent_host.Launch.Ledger.Retire.{
  cleanup_found, retirements_after_cleanup, retirements_rolled_back, complete_retirement_cleanup,
}
use agent_host.Launch.Ledger.Sound.{retirement_uses, RetirementOk, CleanupOk, Sound, commit_cases}

abbrev without_scope : Retirement → Retirement
without_scope t = record t { cleanup_scope = none }

-- The tombstones stay as they are, or one loses its scope.
after_cleanup_cases {ℓ} :
    (P : Map Retirement → Type ℓ) (id : String) (c : Cleanup) (s : Ledger)
    → P s.retirements
    → ((t : Retirement)
        → Maps.get id s.retirements ≡ some t
        → P (Maps.set id (without_scope t) s.retirements))
    → P (retirements_after_cleanup id c s)
unfolding retirements_after_cleanup
after_cleanup_cases P id c s same changed = elim (Option-cases (Maps.get id s.retirements)) [
  | inl absent ↦ rw (absent, retirements_after_cleanup) same
  | inr (t, found) ↦
      rw (found, retirements_after_cleanup)
        (if-cases P (s.compact && cleanup_matches_retirement c (some t)) _ _ (λ _. changed t found)
          (λ _. same))
]

-- The roll back restores the tombstones exactly.
pub rolled_back_lem :
    (id : String) (c : Cleanup) (s : Ledger)
    → retirements_rolled_back id s.retirements (retirements_after_cleanup id c s) ≡ s.retirements
rolled_back_lem id c s = elim (Option-cases (Maps.get id s.retirements)) [
  | inl absent ↦
      rw (absent, retirements_rolled_back)
        (unfold retirements_after_cleanup in rw (absent, retirements_after_cleanup))
  | inr (t, found) ↦
      rw (found, retirements_rolled_back)
        (after_cleanup_cases (λ m. Maps.set id t m ≡ s.retirements) id c s
          (set_same id t s.retirements found)
          (λ u e. ground (arith, set-set_back id t (without_scope u) s.retirements)))
]

module _ (h : Host) where
  scope_dropped-valid :
      (t : Retirement) → valid_retirement h t ≡ true → valid_retirement h (without_scope t) ≡ true
  unfolding valid_retirement
  scope_dropped-valid t valid = ground arith

  finished-Sound :
      (s : Ledger) (m : Map Cleanup)
      → Sound h s
      → Keys m
      → AllEntries (CleanupOk h) m
      → length m ≤ length s.cleanups
      → Sound h (record s { cleanups = m })
  finished-Sound s m sound keys all_ok few = record {
    record_keys = sound.record_keys;
    retirement_keys = sound.retirement_keys;
    cleanup_keys = keys;
    cleanups_valid = all_ok;
    records_valid = sound.records_valid;
    retirements_valid = sound.retirements_valid;
    used_once = sound.used_once;
    few_records = sound.few_records;
    few_retirements = sound.few_retirements;
    few_cleanups = omega (arith, sound.few_cleanups);
  }

  unscoped-Sound :
      (s : Ledger) (id : String) (t : Retirement)
      → Sound h s
      → Maps.get id s.retirements ≡ some t
      → Sound h (record s { retirements = Maps.set id (without_scope t) s.retirements })
  unscoped-Sound s id t sound found =
      let fits = AllEntries-get (RetirementOk h) id t s.retirements sound.retirements_valid found in
      record {
        record_keys = sound.record_keys;
        retirement_keys = set-Keys id (without_scope t) s.retirements sound.retirement_keys;
        cleanup_keys = sound.cleanup_keys;
        cleanups_valid = sound.cleanups_valid;
        records_valid = sound.records_valid;
        retirements_valid =
            AllEntries-set (RetirementOk h) id (without_scope t) s.retirements
              (fits.0, scope_dropped-valid t fits.1) sound.retirements_valid;
        used_once = λ k. omega (
          arith,
          sound.used_once k,
          total-set_present (retirement_uses k) id t (without_scope t) s.retirements found,
        );
        few_records = sound.few_records;
        few_retirements = omega (
          arith,
          sound.few_retirements,
          length-set_present id t (without_scope t) s.retirements found,
        );
        few_cleanups = sound.few_cleanups;
      }

  cleanup_found-Sound :
      (written : Write) (id key : String) (s : Ledger) (current : Cleanup)
      → Sound h s
      → Maps.get id s.cleanups ≡ some current
      → Sound h (cleanup_found h written id key s current).0
  unfolding cleanup_found
  cleanup_found-Sound written id key s current sound found =
      let keys = sound.cleanup_keys in
      if-cases (λ (o : Ledger × Result LedgerError Bool). Sound h o.0)
        (not (current.key_hash =? key)) _ _ (λ _. sound)
        λ e1.
          commit_cases h (Sound h) written _ _ _
            (λ d.
              after_cleanup_cases
                (λ m. Sound h (record s { cleanups = Maps.delete id s.cleanups; retirements = m }))
                id current s
                (finished-Sound s _ sound (delete-Keys id s.cleanups keys)
                  (AllEntries-delete (CleanupOk h) id s.cleanups sound.cleanups_valid)
                  (length-delete-le id s.cleanups))
                (λ t e.
                  finished-Sound
                    (record s { retirements = Maps.set id (without_scope t) s.retirements }) _
                    (unscoped-Sound s id t sound e) (delete-Keys id s.cleanups keys)
                    (AllEntries-delete (CleanupOk h) id s.cleanups sound.cleanups_valid)
                    (length-delete-le id s.cleanups)))
            (λ d. rw (rolled_back_lem id current s) (
              finished-Sound s _ sound (set-Keys id current _ (delete-Keys id s.cleanups keys))
                (AllEntries-set (CleanupOk h) id current _
                  (AllEntries-get (CleanupOk h) id current s.cleanups sound.cleanups_valid found)
                  (AllEntries-delete (CleanupOk h) id s.cleanups sound.cleanups_valid))
                (omega (
                  arith,
                  total-set_deleted (λ c. 1) id current s.cleanups keys found,
                  length-total s.cleanups,
                  length-total (Maps.set id current (Maps.delete id s.cleanups)),
                ))))

  pub complete_retirement_cleanup-Sound :
      (written : Write) (id key : String) (s : Ledger)
      → Sound h s
      → Sound h (complete_retirement_cleanup h written id key s).0
  unfolding complete_retirement_cleanup
  complete_retirement_cleanup-Sound written id key s sound =
      elim (Option-cases (Maps.get id s.cleanups)) [
        | inl absent ↦ rw (absent, complete_retirement_cleanup) (ground arith)
        | inr (current, found) ↦
            let kept = cleanup_found-Sound written id key s current sound found in
            rw (found, complete_retirement_cleanup) (ground arith)
      ]
