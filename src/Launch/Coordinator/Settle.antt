-- ===== src/Launch/Coordinator/Settle.antt =====
-- src/core/launch-coordinator.js: what a run does to its launch, over the ledger. What the provider
-- returns is an argument: `none` is a rejected promise, a timeout or an abort, `some none` is `undefined`.
use agent_host.Common.{
  String, true, false, ◌&&◌, Option, none, some, [], ◌∷◌, if◌then◌else◌, ◌=?◌, get_or, safe_id,
}
use agent_host.Common.Results.{Result, ok, err}
use agent_host.Launch.Contracts.{
  LaunchRecord, requested, creating, owned, failed, uncertain, ◌=s◌, option_all,
}
use agent_host.Launch.Ledger.{Write, Ledger, LedgerError, Host}
use agent_host.Launch.Ledger.Reserve.{Patch, transition}

-- A result object; a field that is not a text is `none`.
pub record ProviderResult : Type 0 where
  pub status : String
  pub provider_agent_id : Option String
  pub agent_id : Option String
  pub code : Option String

-- `normalizeProviderResult`'s results
pub data Settled : Type 0 where
  is_owned : String → String → Settled
  has_failed is_uncertain : String → Settled

-- `safeCode`
unfoldable pub safe_code : Option String → String → String
safe_code none fallback = fallback
safe_code (some v) fallback = if safe_id v then v else fallback

unfoldable pub normalize_provider_result : Option ProviderResult → Settled
unfolding safe_code
normalize_provider_result none = is_uncertain "launch_invalid_result"
normalize_provider_result (some r) =
    if (r.status =? "owned")
      && option_all safe_id r.provider_agent_id
      && option_all safe_id r.agent_id
    then is_owned (get_or r.provider_agent_id "") (get_or r.agent_id "")
    else if r.status =? "failed"
    then has_failed (safe_code r.code "launch_failed")
    else if r.status =? "uncertain"
    then is_uncertain (safe_code r.code "launch_delivery_uncertain")
    else is_uncertain "launch_invalid_result"

-- What `#settle` writes.
unfoldable pub settled_patch : Settled → Patch
unfolding safe_code
settled_patch (is_owned provider_agent_id agent_id) = record {
  state = owned;
  provider_agent_id = some (some provider_agent_id);
  agent_id = some (some agent_id);
  error = some none;
}
settled_patch (has_failed code) = record {
  state = failed;
  provider_agent_id = none;
  agent_id = none;
  error = some (some (record { code = safe_code (some code) "launch_failed"; retryable = false }));
}
settled_patch (is_uncertain code) = record {
  state = uncertain;
  provider_agent_id = none;
  agent_id = none;
  error = some (
      some (record { code = safe_code (some code) "launch_delivery_uncertain"; retryable = true }));
}

abbrev pub raw_uncertain : String → ProviderResult
raw_uncertain code = record {
  status = "uncertain";
  provider_agent_id = none;
  agent_id = none;
  code = some code;
}

module _ (h : Host) where
  -- `#settle`
  unfoldable pub settle :
      Write → String → String → Settled → Ledger → Ledger × Result LedgerError LaunchRecord
  unfolding settled_patch
  settle written now id result s =
      transition h written id (creating ∷ uncertain ∷ []) (settled_patch result) now s

  -- The part of `#create` before the provider is called: the launch it is called for.
  unfoldable pub begin_create : Write → String → String → Ledger → Ledger × Option LaunchRecord
  begin_create written now id s =
      let o =
        transition h written id (requested ∷ [])
          record { state = creating; provider_agent_id = none; agent_id = none; error = some none }
          now s in
      (o.0, (elim o.1 [ ok r ↦ if r.state =s creating then some r else none | err e ↦ none ]))

  -- The part behind it.
  unfoldable pub end_create :
      Write
      → String
      → String
      → Option (Option ProviderResult)
      → Ledger
      → Ledger × Result LedgerError LaunchRecord
  unfolding settle normalize_provider_result
  end_create written now id none s =
      settle written now id
        (normalize_provider_result (some (raw_uncertain "launch_delivery_uncertain"))) s
  end_create written now id (some result) s =
      settle written now id (normalize_provider_result result) s

  -- `#reconcile`, behind the call of the provider, of a record that it read before.
  unfoldable pub end_reconcile :
      Write
      → String
      → LaunchRecord
      → Option (Option ProviderResult)
      → Ledger
      → Ledger × Result LedgerError LaunchRecord
  unfolding settle normalize_provider_result
  end_reconcile written now r none s =
      settle written now r.id
        (normalize_provider_result (some (raw_uncertain "launch_reconciliation_unavailable"))) s
  end_reconcile written now r (some none) s = (s, ok r)
  end_reconcile written now r (some (some result)) s =
      if result.status =? "unsupported"
      then (s, ok r)
      else settle written now r.id (normalize_provider_result (some result)) s
