-- ===== src/Launch/Coordinator/Answers.antt =====
-- Whatever a provider answers, the launch that it settles is a valid one, and the first answer that
-- decides stays.
use agent_host.Common.{
  String, ◌≡◌, refl, sym, ap, ◌∙◌, ◌⊎◌, inl, inr, true, false, ◌&&◌, not, Option, none, some, List,
  [], ◌∷◌, arith, if◌then◌else◌, if-cases, ◌=?◌, safe_id, any, get_or, Option-cases,
}
use mathlib.Core.Path.{subst}
use agent_host.Common.Results.{Result, ok, err, Result-cases}
use agent_host.Common.Maps
use agent_host.Common.Maps.{get-set_here}
use agent_host.Launch.Ledger.Sound.{persist-disk, written_document}
use agent_host.Launch.Contracts.{
  LaunchRecord, State, requested, creating, owned, failed, uncertain, ◌=s◌, option_all,
  validate_launch_record, valid_phase, valid_timestamp, before,
}
use agent_host.Launch.Ledger.{Write, Ledger, LedgerError, Host, commit, persist}
use agent_host.Launch.Ledger.Reserve.{Patch, patched, transition, transition_found}
use agent_host.Launch.Coordinator.Settle.{
  ProviderResult, Settled, is_owned, has_failed, is_uncertain, safe_code, normalize_provider_result,
  settled_patch, settle, begin_create,
}

-- The fallback codes are safe, so every code is.
safe_code-safe_id :
    (c : Option String) (f : String) → safe_id f ≡ true → safe_id (safe_code c f) ≡ true
unfolding safe_code
safe_code-safe_id none f e = e
safe_code-safe_id (some v) f e = if-cases (λ c. safe_id c ≡ true) (safe_id v) _ _ (λ s. s) λ _. e

fallbacks_safe : (safe_id "launch_failed" ≡ true) × (safe_id "launch_delivery_uncertain" ≡ true)
unfolding safe_id
fallbacks_safe = (refl, refl)

-- A normalized result that owns a launch names its agents safely.
Names : Settled → Type 0
Names (is_owned p a) = (safe_id p ≡ true) × (safe_id a ≡ true)
Names (has_failed c) = Unit
Names (is_uncertain c) = Unit

normalize_provider_result-Names : (r : Option ProviderResult) → Names (normalize_provider_result r)
unfolding normalize_provider_result Names
normalize_provider_result-Names none = tt
normalize_provider_result-Names (some r) =
    if-cases Names
      ((r.status =? "owned")
        && option_all safe_id r.provider_agent_id
        && option_all safe_id r.agent_id)
      _ _ (λ both. named r.provider_agent_id r.agent_id (ground arith) (ground arith))
      λ _.
        if-cases Names (r.status =? "failed") _ _ (λ _. tt)
          λ _. if-cases Names (r.status =? "uncertain") _ _ (λ _. tt) λ _. tt
  where
    named :
        (p a : Option String)
        → option_all safe_id p ≡ true
        → option_all safe_id a ≡ true
        → (safe_id (get_or p "") ≡ true) × (safe_id (get_or a "") ≡ true)
    named (some p) (some a) e f = (e, f)
    named none a e f = absurd (cc)
    named (some p) none e f = absurd (cc)

transition-transition_found :
    (h : Host) (w : Write) (id : String) (expected : List State) (p : Patch) (now : String)
    (s : Ledger) (r : LaunchRecord)
    → s.opened ≡ true
    → Maps.get id s.records ≡ some r
    → transition h w id expected p now s ≡ transition_found h w id expected p now s r
unfolding transition
transition-transition_found h w id expected p now s r opened found =
    if-cases (λ z. z ≡ transition_found h w id expected p now s r) (not s.opened) _ _
      (λ shut. absurd (ground arith)) λ _. rw found refl

module _ (h : Host) (current : LaunchRecord) (now : String)
    (valid : validate_launch_record h.date_parse current ≡ true)
    (unsettled : (current.state ≡ creating) ⊎ (current.state ≡ uncertain))
    (timely : (valid_timestamp h.date_parse now ≡ true)
      × (before h.date_parse now current.requested_at ≡ false)) where
  settled-valid :
      (x : Settled)
      → Names x
      → validate_launch_record h.date_parse (patched current (settled_patch x) now) ≡ true
  unfolding validate_launch_record valid_phase patched settled_patch Names
  settled-valid (is_owned p a) n = ground arith
  settled-valid (has_failed c) n =
      ground (arith, safe_code-safe_id (some c) "launch_failed" fallbacks_safe.0)
  settled-valid (is_uncertain c) n =
      ground (arith, safe_code-safe_id (some c) "launch_delivery_uncertain" fallbacks_safe.1)

  -- A provider's answer about a launch that is being created or uncertain, whatever it is, makes a valid
  -- record, if the time is valid and not before the request: settle commits it.
  pub settle-commit :
      (written : Write) (id : String) (r : Option ProviderResult) (s : Ledger)
      → s.opened ≡ true
      → Maps.get id s.records ≡ some current
      → let next = patched current (settled_patch (normalize_provider_result r)) now in
        (validate_launch_record h.date_parse next ≡ true)
        × (settle h written now id (normalize_provider_result r) s
            ≡ commit h written
                (record s { records = Maps.set id next s.records })
                (record s { records = Maps.set id current (Maps.set id next s.records) })
                next)
  unfolding settle transition_found
  settle-commit written id r s opened found =
      let x = normalize_provider_result r in
      let fine = settled-valid x (normalize_provider_result-Names r) in
      let meant : any (λ e. e =s current.state) (creating ∷ uncertain ∷ []) ≡ true = ground arith in
      (
        fine,
        transition-transition_found h written id (creating ∷ uncertain ∷ []) (settled_patch x) now s
              current opened found
            ∙ taken meant fine,
      )
    where
      taken :
          any (λ e. e =s current.state) (creating ∷ uncertain ∷ []) ≡ true
          → validate_launch_record h.date_parse
              (patched current (settled_patch (normalize_provider_result r)) now)
            ≡ true
          → transition_found h written id
              (creating ∷ uncertain ∷ [])
              (settled_patch (normalize_provider_result r))
              now
              s
              current
            ≡ commit h written
                (record s {
                  records =
                      Maps.set id
                        (patched current (settled_patch (normalize_provider_result r)) now)
                        s.records;
                })
                (record s {
                  records = Maps.set id current (
                      Maps.set id
                        (patched current (settled_patch (normalize_provider_result r)) now)
                        s.records);
                })
                (patched current (settled_patch (normalize_provider_result r)) now)
      taken meant fine = rw (meant, fine) refl

-- What a second answer does, if the first one decided.
record Stays (h : Host) (written : Write) (now id : String) (y : Settled)
    (o : Ledger × Result LedgerError LaunchRecord) : Type 0 where
  stays :
      (r : LaunchRecord)
      → o.1 ≡ ok r
      → ((r.state ≡ owned) ⊎ (r.state ≡ failed))
      → settle h written now id y o.0 ≡ (o.0, ok r)

module _ (h : Host) (written : Write) (now id : String) (y : Settled) where
  settle-decided :
      (s : Ledger) (r : LaunchRecord)
      → s.opened ≡ true
      → Maps.get id s.records ≡ some r
      → ((r.state ≡ owned) ⊎ (r.state ≡ failed))
      → settle h written now id y s ≡ (s, ok r)
  unfolding settle transition_found
  settle-decided s r opened found decided =
      let meant : any (λ e. e =s r.state) (creating ∷ uncertain ∷ []) ≡ false = ground arith in
      transition-transition_found h written id (creating ∷ uncertain ∷ []) (settled_patch y) now s r
        opened found
      ∙ rw meant refl

  committed-Stays :
      (w : Write) (s back : Ledger) (next : LaunchRecord)
      → s.opened ≡ true
      → Stays h written now id y
          (commit h w (record s { records = Maps.set id next s.records }) back next)
  unfolding commit
  committed-Stays w s back next opened =
      let changed = record s { records = Maps.set id next s.records } in
      elim (Result-cases (persist h w changed)) [
        | inr (e, failed_write) ↦ rw (failed_write, commit) record { stays = λ r q d. absurd (cc) }
        | inl (s', e) ↦
            rw (e, commit)
              record {
                stays = λ r q d.
                    let same : next ≡ r = cc in
                    let disk = persist-disk h w changed s' e in
                    settle-decided s' r (ap (λ (z : Ledger). z.opened) disk ∙ opened)
                      (ap (λ (z : Ledger). Maps.get id z.records) disk
                        ∙ get-set_here id next s.records
                        ∙ ap (λ z. some z) same)
                      d;
              }
      ]

  found-Stays :
      (w : Write) (now' : String) (x : Settled) (s : Ledger) (current : LaunchRecord)
      → s.opened ≡ true
      → Maps.get id s.records ≡ some current
      → Stays h written now id y
          (transition_found h w id (creating ∷ uncertain ∷ []) (settled_patch x) now' s current)
  unfolding transition_found
  found-Stays w now' x s current opened found =
      let P = Stays h written now id y in
      if-cases P (not (any (λ e. e =s current.state) (creating ∷ uncertain ∷ []))) _ _
        (λ _. record {
          stays = λ r q d.
              let same : current ≡ r = cc in
              settle-decided s r opened (found ∙ ap (λ z. some z) same) d;
        })
        λ _.
          if-cases P
            (not (validate_launch_record h.date_parse (patched current (settled_patch x) now'))) _ _
            (λ _. record { stays = λ r q d. absurd (cc) })
            λ _. committed-Stays w s _ (patched current (settled_patch x) now') opened

  settle-Stays :
      (w : Write) (now' : String) (x : Settled) (s : Ledger)
      → Stays h written now id y (settle h w now' id x s)
  unfolding settle transition
  settle-Stays w now' x s =
      let P = Stays h written now id y in
      if-cases P (not s.opened) _ _ (λ _. record { stays = λ r q d. absurd (cc) })
        λ opened. elim (Option-cases (Maps.get id s.records)) [
          | inl e ↦ rw e record { stays = λ r q d. absurd (cc) }
          | inr (current, e) ↦ rw e (found-Stays w now' x s current (ground arith) e)
        ]

  -- Once an answer settled a launch as owned or failed, a later answer, whatever it is, changes nothing
  -- and is told the same launch.
  pub settle-settle :
      (w : Write) (now' : String) (x : Settled) (s : Ledger) (r : LaunchRecord)
      → (settle h w now' id x s).1 ≡ ok r
      → ((r.state ≡ owned) ⊎ (r.state ≡ failed))
      → settle h written now id y (settle h w now' id x s).0 ≡ ((settle h w now' id x s).0, ok r)
  settle-settle w now' x s r e decided = (settle-Stays w now' x s).stays r e decided

-- A launch that the provider is asked to create.
record Asked (h : Host) (id : String) (o : Ledger × Option LaunchRecord) : Type 0 where
  asked :
      (r : LaunchRecord)
      → o.1 ≡ some r
      → (r.state ≡ creating)
        × (Maps.get id o.0.records ≡ some r)
        × (o.0.disk ≡ some (written_document h o.0))

-- What `begin_create` reads off the transition.
abbrev asked_of : Ledger × Result LedgerError LaunchRecord → Ledger × Option LaunchRecord
asked_of o =
    (o.0, (elim o.1 [ ok r ↦ if r.state =s creating then some r else none | err e ↦ none ]))

module _ (h : Host) (id : String) where
  committed-Asked :
      (w : Write) (s back : Ledger) (next : LaunchRecord)
      → next.state ≡ creating
      → Asked h id
          (asked_of (commit h w (record s { records = Maps.set id next s.records }) back next))
  unfolding commit
  committed-Asked w s back next state =
      let changed = record s { records = Maps.set id next s.records } in
      elim (Result-cases (persist h w changed)) [
        | inr (e, failed_write) ↦ rw (failed_write, commit) record { asked = λ r q. absurd (cc) }
        | inl (s', e) ↦
            let disk = persist-disk h w changed s' e in
            let meant : (next.state =s creating) ≡ true = ground arith in
            rw (e, commit, meant)
              record {
                asked = λ r q.
                    let same : next ≡ r = cc in
                    (
                      sym (ap (λ (z : LaunchRecord). z.state) same) ∙ state,
                      ap (λ (z : Ledger). Maps.get id z.records) disk
                          ∙ get-set_here id next s.records
                          ∙ ap (λ z. some z) same,
                      ap (λ (z : Ledger). z.disk) disk
                          ∙ sym (ap (λ (z : Ledger). some (written_document h z)) disk),
                    );
              }
      ]

  -- The launch of a requested record for which the provider is to be called is held by the ledger as
  -- being created, and the file on disk is that ledger's.
  pub begin_create-asked :
      (w : Write) (now : String) (s : Ledger) (current r : LaunchRecord)
      → s.opened ≡ true
      → Maps.get id s.records ≡ some current
      → current.state ≡ requested
      → (begin_create h w now id s).1 ≡ some r
      → let s' = (begin_create h w now id s).0 in
        (r.state ≡ creating)
        × (Maps.get id s'.records ≡ some r)
        × (s'.disk ≡ some (written_document h s'))
  unfolding begin_create transition_found patched
  begin_create-asked w now s current r opened found fresh e =
      let p : Patch = record {
        state = creating;
        provider_agent_id = none;
        agent_id = none;
        error = some none;
      } in
      let next = patched current p now in
      let unfold_it =
        transition-transition_found h w id (requested ∷ []) p now s current opened found in
      let meant : any (λ e. e =s current.state) (requested ∷ []) ≡ true = ground arith in
      let all_of =
        subst (λ o. Asked h id (asked_of o)) (sym unfold_it)
          (rw meant (
            if-cases (λ o. Asked h id (asked_of o)) (not (validate_launch_record h.date_parse next))
              _ _ (λ _. record { asked = λ r q. absurd (cc) })
              λ _. committed-Asked w s _ next refl)) in
      all_of.asked r e
