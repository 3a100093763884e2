-- ===== src/Launch/Ledger/Cleanups.antt =====
-- The cleanups of a ledger are valid: those of its tombstones, and those of the document it reads.
use agent_host.Common.{
  String, ◌≡◌, refl, true, List, [], ◌∷◌, arith, all, filter, map, get_or, is_some, if-cases, inl,
  inr, Bool-cases, Option-cases,
}
use agent_host.Common.Maps.{Map, AllEntries, AllEntries-set, AllEntries-delete}
use agent_host.Launch.Ledger.{
  Host, Document, Retirement, Cleanup, valid_retirement, valid_retirement_cleanup,
  retirement_cleanup, has_scope,
}
use agent_host.Launch.Ledger.Retire.{cleanups_after}
use agent_host.Launch.Ledger.Open.{cleanup_by_id, cleanups_of, well_formed}
use agent_host.Launch.Ledger.Sound.{CleanupOk}

module _ (h : Host) where
  -- The cleanup of a valid tombstone with a scope is valid.
  cleanup-valid :
      (t : Retirement)
      → has_scope t ≡ true
      → valid_retirement h t ≡ true
      → valid_retirement_cleanup (retirement_cleanup t) ≡ true
  unfolding valid_retirement valid_retirement_cleanup retirement_cleanup
  cleanup-valid t scoped valid = elim (Option-cases t.cleanup_scope) [
    | inl e ↦ absurd (let bad = rw (has_scope, e) at scoped in cc)
    | inr (s, e) ↦ ground (arith, e, valid)
  ]

  pub cleanups_after-valid :
      (id : String) (t : Retirement) (m : Map Cleanup)
      → t.launch_id ≡ id
      → valid_retirement h t ≡ true
      → AllEntries (CleanupOk h) m
      → AllEntries (CleanupOk h) (cleanups_after id t m)
  unfolding retirement_cleanup
  cleanups_after-valid id t m same valid all_ok = elim (Option-cases t.cleanup_scope) [
    | inl e ↦ rw (cleanups_after, e) (AllEntries-delete (CleanupOk h) id m all_ok)
    | inr (scope, e) ↦
        let made = cleanup-valid t (rw (has_scope, e) refl) valid in
        if-cases (AllEntries (CleanupOk h)) (is_some t.cleanup_scope) _ _
          (λ _. AllEntries-set (CleanupOk h) id (retirement_cleanup t) m (same, made) all_ok)
          λ _. AllEntries-delete (CleanupOk h) id m all_ok
  ]

  pub cleanup_by_id-valid :
      (cs : List Cleanup)
      → all valid_retirement_cleanup cs ≡ true
      → AllEntries (CleanupOk h) (cleanup_by_id cs)
  cleanup_by_id-valid [] e = tt
  cleanup_by_id-valid (c ∷ cs) e = ((refl, ground arith), cleanup_by_id-valid cs (ground arith))

  derived-valid :
      (ts : List Retirement)
      → all (valid_retirement h) ts ≡ true
      → all valid_retirement_cleanup (map retirement_cleanup (filter has_scope ts)) ≡ true
  derived-valid [] e = refl
  derived-valid (t ∷ ts) e = elim (Bool-cases (has_scope t)) [
    | inl scoped ↦
        rw (scoped, cleanup-valid t scoped (ground arith)) (derived-valid ts (ground arith))
    | inr bare ↦ rw bare (derived-valid ts (ground arith))
  ]

  pub cleanups_of-valid :
      (d : Document)
      → all (valid_retirement h) (get_or d.retirements []) ≡ true
      → well_formed h d ≡ true
      → all valid_retirement_cleanup (cleanups_of d) ≡ true
  unfolding well_formed
  cleanups_of-valid d ts_valid formed = elim (Option-cases d.retirement_cleanups) [
    | inl e ↦ rw e (derived-valid (get_or d.retirements []) ts_valid)
    | inr (cs, e) ↦ rw e (ground (arith, e, formed))
  ]
