-- ===== src/Launch/Ledger/History.antt =====
-- Histories of a ledger: the calls that clients make, one after another.
use agent_host.Common.{
  String, ◌≡◌, false, Option, some, List, [], ◌∷◌, not, if-cases, Option-cases, inl, inr,
}
use agent_host.Common.Results.{Result, ok, Result-cases}
use agent_host.Launch.Contracts.{LaunchRecord, State}
use agent_host.Launch.Ledger.{Write, is_done, Ledger, LedgerError, Host, Document}
use agent_host.Launch.Ledger.Retire.{
  begin_retirement, complete_retirement, complete_retirement_cleanup, cancel_retirement,
}
use agent_host.Launch.Ledger.Reserve.{Reservation, Patch, reserve, transition}
use agent_host.Launch.Ledger.Open.{
  Opening, Contents, is_legacy, open_ledger, open_document, open_loaded, load, empty_document,
}
use agent_host.Launch.Ledger.Sound.{Sound, IsSound}
use agent_host.Launch.Ledger.Loaded.{load-IsSound}
use agent_host.Launch.Ledger.Replace.{
  begin_retirement-Sound, cancel_retirement-Sound, transition-Sound,
}
use agent_host.Launch.Ledger.Complete.{reserve-Sound, complete_retirement-Sound}
use agent_host.Launch.Ledger.Finish.{complete_retirement_cleanup-Sound}

-- Each call with its arguments, and with how its write to the file ends.
pub data Call : Type 0 where
  reserves : Write → Reservation → Call
  transitions : Write → String → List State → Patch → String → Call
  begins : Write → String → String → String → Call
  completes : Write → String → String → Option String → Call
  finishes : Write → String → String → Call
  cancels : Write → String → String → String → Call

module _ (h : Host) where
  unfoldable pub step : Ledger → Call → Ledger
  step s (reserves w v) = (reserve h w v s).0
  step s (transitions w id expected p now) = (transition h w id expected p now s).0
  step s (begins w id key now) = (begin_retirement h w id key now s).0
  step s (completes w id now scope) = (complete_retirement h w id now scope s).0
  step s (finishes w id key) = (complete_retirement_cleanup h w id key s).0
  step s (cancels w id key now) = (cancel_retirement h w id key now s).0

  unfoldable pub run : Ledger → List Call → Ledger
  unfolding step
  run s [] = s
  run s (c ∷ cs) = run (step s c) cs

  pub step-Sound : (s : Ledger) (c : Call) → Sound h s → Sound h (step s c)
  unfolding step
  step-Sound s (reserves w v) sound = reserve-Sound h w v s sound
  step-Sound s (transitions w id expected p now) sound =
      transition-Sound h w id expected p now s sound
  step-Sound s (begins w id key now) sound = begin_retirement-Sound h w id key now s sound
  step-Sound s (completes w id now scope) sound = complete_retirement-Sound h w id now scope s sound
  step-Sound s (finishes w id key) sound = complete_retirement_cleanup-Sound h w id key s sound
  step-Sound s (cancels w id key now) sound = cancel_retirement-Sound h w id key now s sound

  pub run-Sound : (s : Ledger) (cs : List Call) → Sound h s → Sound h (run s cs)
  unfolding run
  run-Sound s [] sound = sound
  run-Sound s (c ∷ cs) sound = run-Sound (step s c) cs (step-Sound s c sound)

  -- What holds of an opening that succeeds.
  abbrev Opens : List LaunchRecord → Ledger × Result LedgerError (List LaunchRecord) → Type 0
  Opens rs o = o.1 ≡ ok rs → Sound h o.0

  open_loaded-Sound :
      (o : Opening) (d : Document) (s : Ledger) (c : Contents) (rs : List LaunchRecord)
      → IsSound h c.records c.retirements c.cleanups
      → Opens rs (open_loaded h o d s c)
  unfolding open_loaded
  open_loaded-Sound o d s c rs sound =
      if-cases (Opens rs) (not (is_legacy d)) _ _ (λ _ _. sound)
        λ e1.
          if-cases (Opens rs) (not (h.legacy_marker d)) _ _ (λ _ e. absurd (cc))
            λ e2.
              if-cases (Opens rs) (not (is_done o.written)) _ _ (λ _ e. absurd (cc)) λ e3 _. sound

  open_document-Sound :
      (o : Opening) (d : Document) (s : Ledger) (rs : List LaunchRecord)
      → Opens rs (open_document h o d s)
  unfolding open_document
  open_document-Sound o d s rs = elim (Result-cases (load h d)) [
    | inr (e, failed) ↦ rw (failed, open_document) (λ e. absurd (cc))
    | inl (c, loaded) ↦
        rw (loaded, open_document) (open_loaded-Sound o d s c rs (load-IsSound h d c loaded))
  ]

  pub open_ledger-Sound :
      (o : Opening) (s : Ledger) (rs : List LaunchRecord)
      → s.opened ≡ false
      → Opens rs (open_ledger h o s)
  unfolding open_ledger
  open_ledger-Sound o s rs shut =
      if-cases (Opens rs) s.opened _ _ (λ e. absurd (cc))
        λ _.
          if-cases (Opens rs) (not o.locked) _ _ (λ _ e. absurd (cc))
            λ _. elim (Option-cases s.disk) [
              | inl missing ↦ rw missing (
                  if-cases (Opens rs) (is_done o.written) _ _
                    (λ _.
                      open_document-Sound o empty_document (record s { disk = some empty_document })
                        rs)
                    (λ _ e. absurd (cc)))
              | inr (d, found) ↦ rw found (
                  if-cases (Opens rs) o.readable _ _ (λ _. open_document-Sound o d s rs)
                    (λ _ e. absurd (cc)))
            ]

  -- From any file that `open` accepts, after any calls, in any order, however their writes end:
  -- no map has a key twice, every record, tombstone and cleanup is valid and stored under its
  -- own identifier, no key hash is used twice by records and tombstones, and there are at most
  -- 1000 records, 100 tombstones, and 1000 cleanups and retiring launches together. It says
  -- nothing of attempts, or of a launch both live and retired.
  pub run-open-Sound :
      (o : Opening) (s : Ledger) (rs : List LaunchRecord) (cs : List Call)
      → s.opened ≡ false
      → (open_ledger h o s).1 ≡ ok rs
      → Sound h (run (open_ledger h o s).0 cs)
  run-open-Sound o s rs cs shut e = run-Sound _ cs (open_ledger-Sound o s rs shut e)
