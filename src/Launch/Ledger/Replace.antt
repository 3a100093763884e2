-- ===== src/Launch/Ledger/Replace.antt =====
-- The operations that replace one record by another keep the invariant: fencing a launch, rolling
-- the fence back, and moving a launch from state to state.
use agent_host.Common.{
  ◌+◌, ◌≤◌, String, ◌≡◌, refl, sym, ◌∙◌, true, false, ◌||◌, ◌&&◌, not, Option, none, some, List, [],
  ◌∷◌, arith, one_if, length, any, ◌=?◌, eq_iff, inl, inr, Bool-cases, Option-cases, leb, if-cases,
}
use agent_host.Common.Results.{Result}
use agent_host.Common.Maps
use agent_host.Common.Maps.{
  Map, Keys, AllEntries, total, AllEntries-set, AllEntries-get, set-Keys, total-set_present,
  length-set_present, set-set_back, total-any-false, total-count_if, total-add, total-get,
}
use agent_host.Launch.Contracts.{
  LaunchRecord, State, owned, ◌=s◌, is_retiring-is_some, validate_launch_record,
}
use agent_host.Launch.Ledger.{
  Write, Ledger, LedgerError, Host, is_retiring, retiring_count, ◌=o◌, commit,
  max_retirement_cleanups,
}
use agent_host.Launch.Ledger.Retire.{
  retirement_key_claimed, fenced, begin_found, begin_retirement, released, cancel_found,
  cancel_retirement,
}
use agent_host.Launch.Ledger.Reserve.{Patch, patched, transition_found, transition}
use agent_host.Launch.Ledger.Sound.{
  record_uses, uses, retiring_total, RecordOk, Sound, commit_cases,
}

module _ (h : Host) where
  pub replace-Sound :
      (s : Ledger) (id : String) (current next : LaunchRecord)
      → Sound h s
      → Maps.get id s.records ≡ some current
      → RecordOk h id next
      → ((k : String)
          → uses k s.records s.retirements + record_uses k next ≤ 1 + record_uses k current)
      → length s.cleanups + retiring_total s.records + one_if (is_retiring next)
        ≤ 1_000 + one_if (is_retiring current)
      → Sound h (record s { records = Maps.set id next s.records })
  replace-Sound s id current next sound found fits once few = record {
    record_keys = set-Keys id next s.records sound.record_keys;
    retirement_keys = sound.retirement_keys;
    cleanup_keys = sound.cleanup_keys;
    cleanups_valid = sound.cleanups_valid;
    records_valid = AllEntries-set (RecordOk h) id next s.records fits sound.records_valid;
    retirements_valid = sound.retirements_valid;
    used_once = λ k.
        omega (arith, once k, total-set_present (record_uses k) id current next s.records found);
    few_records =
        omega (arith, length-set_present id current next s.records found, sound.few_records);
    few_retirements = sound.few_retirements;
    few_cleanups = omega (
      arith,
      few,
      total-set_present (λ r. one_if (is_retiring r)) id current next s.records found,
    );
  }

  -- If no other record holds the key for its retirement, only the record itself can.
  elsewhere :
      (id key : String) (m : Map LaunchRecord)
      → AllEntries (RecordOk h) m
      → any (λ r. not (r.id =? id) && r.retirement_key_hash =o some key) (Maps.values m) ≡ false
      → Maps.get id m ≡ none
      → total (λ r. one_if (r.retirement_key_hash =o some key)) m ≡ 0
  unfolding total Maps.get
  elsewhere id key [] valid free absent = refl
  elsewhere id key ((i, r) ∷ m) valid free absent =
      ground (arith, elsewhere id key m valid.1, valid.0.0, eq_iff r.id id, eq_iff i id)

  elsewhere_present :
      (id key : String) (current : LaunchRecord) (m : Map LaunchRecord)
      → AllEntries (RecordOk h) m
      → Keys m
      → any (λ r. not (r.id =? id) && r.retirement_key_hash =o some key) (Maps.values m) ≡ false
      → Maps.get id m ≡ some current
      → total (λ r. one_if (r.retirement_key_hash =o some key)) m
        ≡ one_if (current.retirement_key_hash =o some key)
  unfolding total Maps.get
  elsewhere_present id key current [] valid keys free found = absurd (cc)
  elsewhere_present id key current ((i, r) ∷ m) valid keys free found = ground (
    arith,
    elsewhere id key m valid.1,
    elsewhere_present id key current m valid.1 keys.1,
    valid.0.0,
    eq_iff r.id id,
    eq_iff i id,
  )

  -- A claim that fails leaves no use of the key, but by the record itself.
  unclaimed :
      (id key : String) (s : Ledger) (current : LaunchRecord)
      → Sound h s
      → Maps.get id s.records ≡ some current
      → retirement_key_claimed id key s ≡ false
      → uses key s.records s.retirements ≡ one_if (current.retirement_key_hash =o some key)
  unfolding retirement_key_claimed
  unclaimed id key s current sound found free = ground (
    arith,
    elsewhere_present id key current s.records sound.records_valid sound.record_keys,
    total-any-false (λ t. t.key_hash =? key) s.retirements,
    total-any-false (λ r. r.key_hash =? key) s.records,
    total-any-false (λ t. t.creation_key_hash =? key) s.retirements,
    total-add (λ r. one_if (r.key_hash =? key)) (λ r. one_if (r.retirement_key_hash =o some key))
        s.records,
    total-add (λ t. one_if (t.creation_key_hash =? key)) (λ t. one_if (t.key_hash =? key))
        s.retirements,
  )

  -- A commit that replaces one record, with its roll back.
  replace_commit :
      {A : Type 0} (written : Write) (s : Ledger) (id : String) (current next : LaunchRecord)
      (a : A)
      → Sound h s
      → Maps.get id s.records ≡ some current
      → Sound h (record s { records = Maps.set id next s.records })
      → Sound h
          (commit h written
            (record s { records = Maps.set id next s.records })
            (record s { records = Maps.set id current (Maps.set id next s.records) })
            a).0
  replace_commit written s id current next a sound found replaced =
      commit_cases h (Sound h) written _ _ a (λ d. replaced)
        (λ d. rw (set-set_back id current next s.records found) sound)

  abbrev Kept : {A : Type 0} → Ledger × Result LedgerError A → Type 0
  Kept o = Sound h o.0

  -- Fencing uses the key once more, and only if it was free.
  fence_once :
      (id key now : String) (s : Ledger) (current : LaunchRecord) (k : String)
      → Sound h s
      → Maps.get id s.records ≡ some current
      → retirement_key_claimed id key s ≡ false
      → uses k s.records s.retirements + record_uses k (fenced h current key now)
        ≤ 1 + record_uses k current
  unfolding fenced
  fence_once id key now s current k sound found free = elim (Bool-cases (key =? k)) [
    | inl same ↦
        let e : key ≡ k = (eq_iff key k).0 same in
        rw (← e) (
          ground (
            arith,
            unclaimed id key s current sound found free,
            total-get (record_uses key) id current s.records found,
          ))
    | inr other ↦ ground (arith, sound.used_once k)
  ]

  begin_found-Sound :
      (written : Write) (id key now : String) (s : Ledger) (current : LaunchRecord)
      → Sound h s
      → Maps.get id s.records ≡ some current
      → Sound h (begin_found h written id key now s current).0
  unfolding begin_found
  begin_found-Sound written id key now s current sound found =
      let fits = AllEntries-get (RecordOk h) id current s.records sound.records_valid found in
      let next = fenced h current key now in
      if-cases (Kept {A = Option LaunchRecord}) (is_retiring current) _ _ (λ _. sound)
        λ e1.
          if-cases (Kept {A = Option LaunchRecord}) (not (current.state =s owned)) _ _ (λ _. sound)
            λ e2.
              if-cases (Kept {A = Option LaunchRecord})
                (leb max_retirement_cleanups (length s.cleanups + retiring_count s.records)) _ _
                (λ _. sound)
                λ e3.
                  if-cases (Kept {A = Option LaunchRecord}) (retirement_key_claimed id key s) _ _
                    (λ _. sound)
                    λ e4.
                      if-cases (Kept {A = Option LaunchRecord})
                        (not (validate_launch_record h.date_parse next)) _ _ (λ _. sound)
                        λ e5. replace_commit written s id current next _ sound found (
                          replace-Sound s id current next sound found
                            (unfold fenced in (fits.0, ground arith))
                            (λ k. fence_once id key now s current k sound found e4)
                            (unfold fenced in ground (arith, total-count_if is_retiring s.records)))

  pub begin_retirement-Sound :
      (written : Write) (id key now : String) (s : Ledger)
      → Sound h s
      → Sound h (begin_retirement h written id key now s).0
  unfolding begin_retirement
  begin_retirement-Sound written id key now s sound = elim (Option-cases (Maps.get id s.records)) [
    | inl absent ↦ rw (absent, begin_retirement) (ground arith)
    | inr (current, found) ↦
        let kept = begin_found-Sound written id key now s current sound found in
        rw (found, begin_retirement) (ground arith)
  ]

  cancel_found-Sound :
      (written : Write) (id key now : String) (s : Ledger) (current : LaunchRecord)
      → Sound h s
      → Maps.get id s.records ≡ some current
      → Sound h (cancel_found h written id key now s current).0
  unfolding cancel_found
  cancel_found-Sound written id key now s current sound found =
      let fits = AllEntries-get (RecordOk h) id current s.records sound.records_valid found in
      let next = released h current now in
      if-cases (Kept {A = LaunchRecord})
        (not (is_retiring current) || not (current.retirement_key_hash =o some key)) _ _
        (λ _. sound)
        λ e1.
          if-cases (Kept {A = LaunchRecord}) (not (validate_launch_record h.date_parse next)) _ _
            (λ _. sound)
            λ e2. replace_commit written s id current next _ sound found (
              unfold released in
              replace-Sound s id current next sound found (fits.0, ground arith)
                (λ k. ground (arith, sound.used_once k)) (ground (arith, sound.few_cleanups)))

  pub cancel_retirement-Sound :
      (written : Write) (id key now : String) (s : Ledger)
      → Sound h s
      → Sound h (cancel_retirement h written id key now s).0
  unfolding cancel_retirement
  cancel_retirement-Sound written id key now s sound = elim (Option-cases (Maps.get id s.records)) [
    | inl absent ↦ rw (absent, cancel_retirement) (ground arith)
    | inr (current, found) ↦
        let kept = cancel_found-Sound written id key now s current sound found in
        rw (found, cancel_retirement) (ground arith)
  ]

  transition_found-Sound :
      (written : Write) (id : String) (expected : List State) (p : Patch) (now : String)
      (s : Ledger) (current : LaunchRecord)
      → Sound h s
      → Maps.get id s.records ≡ some current
      → Sound h (transition_found h written id expected p now s current).0
  unfolding transition_found
  transition_found-Sound written id expected p now s current sound found =
      let fits = AllEntries-get (RecordOk h) id current s.records sound.records_valid found in
      let next = patched current p now in
      if-cases (Kept {A = LaunchRecord}) (not (any (λ e. e =s current.state) expected)) _ _
        (λ _. sound)
        λ e1.
          if-cases (Kept {A = LaunchRecord}) (not (validate_launch_record h.date_parse next)) _ _
            (λ _. sound)
            λ e2.
              let valid : validate_launch_record h.date_parse next ≡ true = ground arith in
              let phase : is_retiring next ≡ is_retiring current =
                unfold patched in
                is_retiring-is_some h.date_parse next valid
                ∙ sym (is_retiring-is_some h.date_parse current fits.1) in
              replace_commit written s id current next _ sound found (
                replace-Sound s id current next sound found (unfold patched in fits.0, valid)
                  (λ k. unfold patched in ground (arith, sound.used_once k))
                  (rw phase (omega (arith, sound.few_cleanups))))

  pub transition-Sound :
      (written : Write) (id : String) (expected : List State) (p : Patch) (now : String)
      (s : Ledger)
      → Sound h s
      → Sound h (transition h written id expected p now s).0
  unfolding transition
  transition-Sound written id expected p now s sound = elim (Option-cases (Maps.get id s.records)) [
    | inl absent ↦ rw (absent, transition) (ground arith)
    | inr (current, found) ↦
        let kept = transition_found-Sound written id expected p now s current sound found in
        rw (found, transition) (ground arith)
  ]
