-- ===== src/Tests/Answers.antt =====
-- A launch that is created and settled.
use agent_host.Common.{◌≡◌, refl, inl, true, false, [], ◌∷◌, some, none, Option, safe_hash, safe_id}
use agent_host.Common.Results.{ok}
use agent_host.Common.Maps
use agent_host.Launch.Contracts.{
  LaunchRecord, requested, creating, owned, strip, uuid_id, valid_phase, valid_request,
  valid_timestamp, before, validate_launch_record,
}
use agent_host.Launch.Ledger.{
  done, failed, Ledger, commit, persist, cleanups_exactly_match_scoped_retirements,
}
use agent_host.Launch.Ledger.Reserve.{patched, new_record, transition}
use agent_host.Launch.Ledger.Sound.{written_document}
use agent_host.Launch.Coordinator.Settle.{
  ProviderResult, is_owned, is_uncertain, normalize_provider_result, settled_patch, settle,
  begin_create,
}
use agent_host.Launch.Coordinator.Answers.{settle-commit, settle-settle, begin_create-asked}
use agent_host.Tests.Ledger.{host, id, reservation}

abbrev asked : LaunchRecord
asked = record (new_record reservation) { state = creating }

abbrev holding : LaunchRecord → Ledger
holding r = record {
  opened = true;
  records = (id, r) ∷ [];
  retirements = [];
  cleanups = [];
  compact = false;
  disk = none;
}

abbrev answer : Option ProviderResult
answer = some (record {
  status = "owned";
  provider_agent_id = some "agent-1";
  agent_id = none;
  code = some "not a code";
})

asked-valid : validate_launch_record host.date_parse asked ≡ true
unfolding validate_launch_record new_record uuid_id safe_hash safe_id valid_request valid_phase
    valid_timestamp before strip
asked-valid = refl

on_time :
    (valid_timestamp host.date_parse "2026-01-03" ≡ true)
    × (before host.date_parse "2026-01-03" asked.requested_at ≡ false)
unfolding valid_timestamp before
on_time = (refl, refl)

found : Maps.get id (holding asked).records ≡ some asked
unfolding Maps.get
found = refl

settle-commit_example :
    let next = patched asked (settled_patch (normalize_provider_result answer)) "2026-01-03" in
    (validate_launch_record host.date_parse next ≡ true)
    × (settle host done "2026-01-03" id (normalize_provider_result answer) (holding asked)
        ≡ commit host done
            (record (holding asked) { records = Maps.set id next (holding asked).records })
            (record (holding asked) {
              records = Maps.set id asked (Maps.set id next (holding asked).records);
            })
            next)
settle-commit_example =
    settle-commit host asked "2026-01-03" asked-valid (inl refl) on_time done id answer
      (holding asked) refl found

abbrev owned_one : LaunchRecord
owned_one = record asked {
  state = owned;
  provider_agent_id = some "agent-1";
  agent_id = some "codex:agent-1";
  updated_at = "2026-01-03";
}

settles :
    (settle host done "2026-01-03" id (is_owned "agent-1" "codex:agent-1") (holding asked)).1
    ≡ ok owned_one
unfolding settle Maps.get Maps.set commit persist validate_launch_record new_record uuid_id
    safe_hash safe_id valid_request valid_phase valid_timestamp before strip
    cleanups_exactly_match_scoped_retirements transition
settles = refl

settle-settle_example :
    settle host failed "2026-01-04" id
      (is_uncertain "late")
      ((settle host done "2026-01-03" id (is_owned "agent-1" "codex:agent-1") (holding asked)).0)
    ≡ (
      (settle host done "2026-01-03" id (is_owned "agent-1" "codex:agent-1") (holding asked)).0,
      ok owned_one,
    )
settle-settle_example =
    settle-settle host failed "2026-01-04" id (is_uncertain "late") done "2026-01-03"
      (is_owned "agent-1" "codex:agent-1") (holding asked) owned_one settles (inl refl)

abbrev reserved_one : LaunchRecord
reserved_one = record asked { state = requested }

begins :
    (begin_create host done "2026-01-02" id (holding reserved_one)).1
    ≡ some (record asked { updated_at = "2026-01-02" })
unfolding begin_create Maps.get Maps.set commit persist validate_launch_record new_record uuid_id
    safe_hash safe_id valid_request valid_phase valid_timestamp before strip
    cleanups_exactly_match_scoped_retirements transition
begins = refl

found_reserved : Maps.get id (holding reserved_one).records ≡ some reserved_one
unfolding Maps.get
found_reserved = refl

begin_create-asked_example :
    let s = (begin_create host done "2026-01-02" id (holding reserved_one)).0 in
    (creating ≡ creating)
    × (Maps.get id s.records ≡ some (record asked { updated_at = "2026-01-02" }))
    × (s.disk ≡ some (written_document host s))
begin_create-asked_example =
    begin_create-asked host id done "2026-01-02" (holding reserved_one) reserved_one
      (record asked { updated_at = "2026-01-02" }) refl found_reserved refl begins
