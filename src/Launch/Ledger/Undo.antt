-- ===== src/Launch/Ledger/Undo.antt =====
-- What a call that fails leaves behind.
use agent_host.Common.{String, ◌≡◌, ◌⊎◌, Bool, true, not, Option, none, some, arith}
use agent_host.Common.Results.{Result, ok, err}
use agent_host.Common.Maps
use agent_host.Launch.Ledger.{Write, failed_late, Ledger, LedgerError, Host}
use agent_host.Launch.Ledger.Reserve.{reserve, transition}
use agent_host.Launch.Ledger.Retire.{
  begin_retirement, complete_retirement, complete_retirement_cleanup, cancel_retirement,
}
use agent_host.Launch.Ledger.History.{
  Call, reserves, transitions, begins, completes, finishes, cancels, step,
}
use agent_host.Launch.Ledger.Atomic.{
  SameView, reserve-Atomic, transition-Atomic, begin_retirement-Atomic, complete_retirement-Atomic,
  complete_retirement_cleanup-Atomic, cancel_retirement-Atomic,
}

-- The error of an outcome.
abbrev pub error_of : {A : Type 0} → Result LedgerError A → Option LedgerError
error_of (ok a) = none
error_of (err e) = some e

-- The identifier that `reserve` draws is one that no record has.
unfoldable pub draws_fresh : Ledger → Call → Bool
draws_fresh s (reserves w v) = not (Maps.has v.id s.records)
draws_fresh s _ = true

-- How the write of a call ends, if it comes to a write.
unfoldable pub write_of : Call → Write
write_of (reserves w v) = w
write_of (transitions w id expected p now) = w
write_of (begins w id key now) = w
write_of (completes w id now scope) = w
write_of (finishes w id key) = w
write_of (cancels w id key now) = w

from_error :
    {A : Type 0} (r : Result LedgerError A) (e : LedgerError) → error_of r ≡ some e → r ≡ err e
from_error (ok a) e f = absurd (cc)
from_error (err x) e f = cc

unseen : (s : Ledger) (k : String) → not (Maps.has k s.records) ≡ true → Maps.get k s.records ≡ none
unfolding Maps.has
unseen s k e = ground arith

module _ (h : Host) where
  unfoldable pub failure : Ledger → Call → Option LedgerError
  failure s (reserves w v) = error_of (reserve h w v s).1
  failure s (transitions w id expected p now) = error_of (transition h w id expected p now s).1
  failure s (begins w id key now) = error_of (begin_retirement h w id key now s).1
  failure s (completes w id now scope) = error_of (complete_retirement h w id now scope s).1
  failure s (finishes w id key) = error_of (complete_retirement_cleanup h w id key s).1
  failure s (cancels w id key now) = error_of (cancel_retirement h w id key now s).1

  -- Every call that changes the ledger is undone in memory when it fails, for whatever reason, a failed
  -- write included: every lookup by key and every flag is what it was before. And the file is what it
  -- was, unless the write failed after it had replaced the file. For `reserve` the drawn identifier is
  -- one that no record has.
  pub step-SameView :
      (s : Ledger) (c : Call) (e : LedgerError)
      → draws_fresh s c ≡ true
      → failure s c ≡ some e
      → SameView (step h s c) s × (((step h s c).disk ≡ s.disk) ⊎ (write_of c ≡ failed_late))
  unfolding failure step draws_fresh write_of
  step-SameView s (reserves w v) e new f =
      (reserve-Atomic h w v s (unseen s v.id new)).on_error e (from_error _ e f)
  step-SameView s (transitions w id expected p now) e new f =
      (transition-Atomic h w id expected p now s).on_error e (from_error _ e f)
  step-SameView s (begins w id key now) e new f =
      (begin_retirement-Atomic h w id key now s).on_error e (from_error _ e f)
  step-SameView s (completes w id now scope) e new f =
      (complete_retirement-Atomic h w id now scope s).on_error e (from_error _ e f)
  step-SameView s (finishes w id key) e new f =
      (complete_retirement_cleanup-Atomic h w id key s).on_error e (from_error _ e f)
  step-SameView s (cancels w id key now) e new f =
      (cancel_retirement-Atomic h w id key now s).on_error e (from_error _ e f)
