-- ===== src/Launch/Ledger/Sound.antt =====
-- The invariant of a ledger that the operations keep: the part of what `open` demands that they preserve.
use agent_host.Common.{
  ℕ, ◌+◌, ◌≤◌, String, ◌≡◌, sym, inl, inr, true, Option, some, arith, one_if, length, ◌=?◌,
}
use mathlib.Core.Path.{subst}
use agent_host.Common.Results.{ok, Result-cases}
use agent_host.Common.Maps.{Map, Keys, AllEntries, total}
use agent_host.Launch.Contracts.{LaunchRecord, validate_launch_record}
use agent_host.Launch.Ledger.{
  valid_retirement_cleanup, Write, left_on_disk, Ledger, Host, Document, Retirement, Cleanup,
  ledger_content, is_retiring, valid_retirement, ◌=o◌, max_records, max_retirements,
  max_retirement_cleanups, commit, persist,
}

-- How often a key hash is in use, by a record or by a tombstone.
abbrev pub record_uses : String → LaunchRecord → ℕ
record_uses k r = one_if (r.key_hash =? k) + one_if (r.retirement_key_hash =o some k)

abbrev pub retirement_uses : String → Retirement → ℕ
retirement_uses k t = one_if (t.creation_key_hash =? k) + one_if (t.key_hash =? k)

abbrev pub uses : String → Map LaunchRecord → Map Retirement → ℕ
uses k records retirements = total (record_uses k) records + total (retirement_uses k) retirements

abbrev pub retiring_total : Map LaunchRecord → ℕ
retiring_total = total (λ r. one_if (is_retiring r))

module _ (h : Host) where
  abbrev pub RecordOk : String → LaunchRecord → Type 0
  RecordOk i r = (r.id ≡ i) × (validate_launch_record h.date_parse r ≡ true)

  abbrev pub RetirementOk : String → Retirement → Type 0
  RetirementOk i t = (t.launch_id ≡ i) × (valid_retirement h t ≡ true)

  abbrev pub CleanupOk : String → Cleanup → Type 0
  CleanupOk i c = (c.launch_id ≡ i) × (valid_retirement_cleanup c ≡ true)

  pub record IsSound (records : Map LaunchRecord) (retirements : Map Retirement)
      (cleanups : Map Cleanup) : Type 0 where
    pub record_keys : Keys records
    pub retirement_keys : Keys retirements
    pub cleanup_keys : Keys cleanups
    pub records_valid : AllEntries RecordOk records
    pub retirements_valid : AllEntries RetirementOk retirements
    pub cleanups_valid : AllEntries CleanupOk cleanups
    pub used_once : (k : String) → uses k records retirements ≤ 1
    pub few_records : length records ≤ max_records
    pub few_retirements : length retirements ≤ max_retirements
    pub few_cleanups : length cleanups + retiring_total records ≤ max_retirement_cleanups

  abbrev pub Sound : Ledger → Type 0
  Sound s = IsSound s.records s.retirements s.cleanups

  abbrev pub written_document : Ledger → Document
  written_document s = ledger_content s.records s.retirements s.cleanups s.compact

  pub persist-disk :
      (w : Write) (next s : Ledger)
      → persist h w next ≡ ok s
      → s ≡ record next { disk = some (written_document next) }
  unfolding persist
  persist-disk w next s e = ground arith

  -- A commit ends in the new state or in the rolled-back one, each with some file.
  pub commit_cases {ℓ} :
      {A : Type 0} (P : Ledger → Type ℓ) (written : Write) (next back : Ledger) (a : A)
      → ((d : Option Document) → P (record next { disk = d }))
      → ((d : Option Document) → P (record back { disk = d }))
      → P (commit h written next back a).0
  unfolding commit persist
  commit_cases P written next back a keep undo = elim (Result-cases (persist h written next)) [
    | inl (s, e) ↦
        rw (e, commit)
          (subst P (sym (persist-disk written next s e)) (keep (some (written_document next))))
    | inr (x, e) ↦ rw (e, commit) (undo (left_on_disk written x next back.disk))
  ]
