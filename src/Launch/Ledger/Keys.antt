-- ===== src/Launch/Ledger/Keys.antt =====
-- What an idempotency key guarantees: a key creates one launch, and a key that retires a launch
-- creates none.
use agent_host.Common.{
  ◌≤◌, String, ◌≡◌, true, ◌||◌, not, none, some, arith, one_if, any, ◌=?◌, eq_iff, inl, inr,
  Option-cases, leb, length, count_if, if-cases, find,
}
use agent_host.Common.Results.{Result, ok}
use agent_host.Common.Maps
use agent_host.Common.Maps.{Map, total, total-find, any-get, find-set, total-get, total-add}
use agent_host.Launch.Contracts.{LaunchRecord, validate_launch_record}
use agent_host.Launch.Ledger.{
  Write, Ledger, LedgerError, Host, Retirement, ◌=o◌, commit, persist, max_pending, max_records,
}
use agent_host.Launch.Ledger.Reserve.{
  Reservation, Reserved, created, existing, conflict, new_record, reserve_new, reserve, is_pending,
}
use agent_host.Launch.Ledger.Sound.{Sound}

module _ (h : Host) where
  -- What a second call finds, if the first one created a launch.
  record Again (w : Write) (v : Reservation) (o : Ledger × Result LedgerError Reserved)
      : Type 0 where
    finds : (r : LaunchRecord) → o.1 ≡ ok (created r) → reserve h w v o.0 ≡ (o.0, ok (existing r))

  -- A launch that was written is found by its key.
  commit-Again :
      (w w' : Write) (v v' : Reservation) (s : Ledger) (back : Ledger)
      → s.opened ≡ true
      → v'.key_hash ≡ v.key_hash
      → find (λ r. r.key_hash =? v.key_hash) (Maps.values s.records) ≡ none
      → Again w' v' (
          commit h w
            (record s { records = Maps.set v.id (new_record v) s.records })
            back
            (created (new_record v)))
  unfolding commit persist reserve new_record
  commit-Again w w' v v' s back open_now same fresh = record {
    finds = λ r e. ground (
      arith,
      same,
      find-set (λ (q : LaunchRecord). q.key_hash =? v'.key_hash) v.id (new_record v) s.records,
      eq_iff v.key_hash v'.key_hash,
    );
  }

  reserve_new-Again :
      (w w' : Write) (v v' : Reservation) (s : Ledger)
      → s.opened ≡ true
      → v'.key_hash ≡ v.key_hash
      → find (λ r. r.key_hash =? v.key_hash) (Maps.values s.records) ≡ none
      → Again w' v' (reserve_new h w v s)
  unfolding reserve_new
  reserve_new-Again w w' v v' s open_now same fresh =
      if-cases (Again w' v')
        (any (λ r. r.retirement_key_hash =o some v.key_hash) (Maps.values s.records)
          || any (λ t. t.key_hash =? v.key_hash) (Maps.values s.retirements))
        _ _ (λ _. record { finds = λ r e. absurd (cc) })
        λ e1.
          if-cases (Again w' v') (leb max_pending (count_if is_pending (Maps.values s.records))) _ _
            (λ _. record { finds = λ r e. absurd (cc) })
            λ e2.
              if-cases (Again w' v') (leb max_records (length s.records)) _ _
                (λ _. record { finds = λ r e. absurd (cc) })
                λ e3.
                  if-cases (Again w' v') (not (validate_launch_record h.date_parse (new_record v)))
                    _ _ (λ _. record { finds = λ r e. absurd (cc) })
                    λ e4. commit-Again w w' v v' s _ open_now same fresh

  reserve-Again :
      (w w' : Write) (v v' : Reservation) (s : Ledger)
      → v'.key_hash ≡ v.key_hash
      → Again w' v' (reserve h w v s)
  unfolding reserve
  reserve-Again w w' v v' s same =
      if-cases (Again w' v') (not s.opened) _ _ (λ _. record { finds = λ r e. absurd (cc) })
        λ e1. elim (Option-cases (find (λ r. r.key_hash =? v.key_hash) (Maps.values s.records))) [
          | inr (q, e) ↦ rw e (record { finds = λ r e. absurd (cc) })
          | inl fresh ↦
              rw fresh
                (elim (Option-cases
                  (find (λ t. t.creation_key_hash =? v.key_hash) (Maps.values s.retirements))) [
                    | inr (t, e) ↦ rw e (record { finds = λ r e. absurd (cc) })
                    | inl unretired ↦
                        rw unretired (reserve_new-Again w w' v v' s (ground arith) same fresh)
                  ])
        ]

  -- If `reserve` creates a launch, then `reserve` under the same key hash, with whatever signature,
  -- request, identifiers and outcome of a write, returns that launch and changes nothing.
  pub reserve-reserve :
      (w w' : Write) (v v' : Reservation) (s : Ledger) (r : LaunchRecord)
      → v'.key_hash ≡ v.key_hash
      → (reserve h w v s).1 ≡ ok (created r)
      → reserve h w' v' (reserve h w v s).0 ≡ ((reserve h w v s).0, ok (existing r))
  reserve-reserve w w' v v' s r same e = (reserve-Again w w' v v' s same).finds r e

  -- A key that retires a launch is used by it alone: no launch and no tombstone was created under it.
  no_creation :
      (s : Ledger) (id key : String) (r : LaunchRecord)
      → Sound h s
      → Maps.get id s.records ≡ some r
      → r.retirement_key_hash ≡ some key
      → (find (λ q. q.key_hash =? key) (Maps.values s.records) ≡ none)
        × (find (λ t. t.creation_key_hash =? key) (Maps.values s.retirements) ≡ none)
  no_creation s id key r sound found held =
      let once = sound.used_once key in
      let sum =
        total-add (λ (q : LaunchRecord). one_if (q.key_hash =? key))
          (λ (q : LaunchRecord). one_if (q.retirement_key_hash =o some key)) s.records in
      let sum' =
        total-add (λ (t : Retirement). one_if (t.creation_key_hash =? key))
          (λ (t : Retirement). one_if (t.key_hash =? key)) s.retirements in
      let mine : 1
          ≤ total (λ (q : LaunchRecord). one_if (q.retirement_key_hash =o some key)) s.records =
        ground (
          arith,
          total-get (λ (q : LaunchRecord). one_if (q.retirement_key_hash =o some key)) id r
              s.records,
          eq_iff key key,
        ) in
      (
        elim (Option-cases
            (find (λ (q : LaunchRecord). q.key_hash =? key) (Maps.values s.records))) [
              | inl none_there ↦ none_there
              | inr (q, e) ↦ absurd (
                  omega
                    (arith, (total-find (λ (q : LaunchRecord). q.key_hash =? key) q s.records e).0))
            ],
        elim (Option-cases
            (find (λ (t : Retirement). t.creation_key_hash =? key) (Maps.values s.retirements))) [
              | inl none_there ↦ none_there
              | inr (t, e) ↦ absurd (
                  omega (
                    arith,
                    (total-find (λ (t : Retirement). t.creation_key_hash =? key) t s.retirements
                        e).0,
                  ))
            ],
      )

  -- In a ledger that satisfies the invariant, a key hash that fences the retirement of some launch
  -- creates nothing: `reserve` reports the conflict and changes nothing.
  pub reserve-fenced :
      (w : Write) (v : Reservation) (s : Ledger) (id : String) (r : LaunchRecord)
      → Sound h s
      → s.opened ≡ true
      → Maps.get id s.records ≡ some r
      → r.retirement_key_hash ≡ some v.key_hash
      → reserve h w v s ≡ (s, ok conflict)
  unfolding reserve reserve_new
  reserve-fenced w v s id r sound open_now found held =
      let (new, unretired) = no_creation s id v.key_hash r sound found held in
      let taken : any (λ q. q.retirement_key_hash =o some v.key_hash) (Maps.values s.records)
          ≡ true =
        any-get (λ (q : LaunchRecord). q.retirement_key_hash =o some v.key_hash) id r s.records
          found (ground (arith, eq_iff v.key_hash v.key_hash)) in
      rw (new, unretired, taken) (ground arith)
