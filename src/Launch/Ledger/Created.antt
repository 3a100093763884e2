-- ===== src/Launch/Ledger/Created.antt =====
-- What a reservation that creates a launch leaves in the ledger.
use agent_host.Common.{
  ◌≡◌, ◌||◌, not, Option, some, if-cases, ◌=?◌, find, any, inl, inr, Option-cases, leb, length,
  count_if,
}
use agent_host.Common.Results.{Result, ok, Result-cases}
use agent_host.Common.Maps
use agent_host.Common.Maps.{Map, has, find-set}
use agent_host.Launch.Contracts.{LaunchRecord, validate_launch_record}
use agent_host.Launch.Ledger.{
  Write, Ledger, LedgerError, Host, Document, ◌=o◌, commit, persist, max_pending, max_records,
}
use agent_host.Launch.Ledger.Sound.{written_document, persist-disk}
use agent_host.Launch.Ledger.Reserve.{
  Reserved, Reservation, created, reserve, reserve_new, new_record, is_pending,
}

module _ (h : Host) where
  -- What a reservation that creates a launch does to the ledger.
  pub record Creates (v : Reservation) (s : Ledger) (o : Ledger × Result LedgerError Reserved)
      : Type 0 where
    pub made :
        (r : LaunchRecord)
        → o.1 ≡ ok (created r)
        → (r ≡ new_record v)
          × ((d : Option Document) × (o.0
                ≡ record s { records = Maps.set v.id (new_record v) s.records; disk = d }))

  commit-Creates :
      (w : Write) (v : Reservation) (s back : Ledger)
      → Creates v s (
          commit h w
            (record s { records = Maps.set v.id (new_record v) s.records })
            back
            (created (new_record v)))
  unfolding commit
  commit-Creates w v s back =
      let next = record s { records = Maps.set v.id (new_record v) s.records } in
      elim (Result-cases (persist h w next)) [
        | inl (s', e) ↦
            rw (e, commit)
              (record {
                made = λ r q. (cc, (some (written_document h next), persist-disk h w next s' e));
              })
        | inr (x, e) ↦ rw (e, commit) (record { made = λ r q. absurd (cc) })
      ]

  reserve_new-Creates :
      (w : Write) (v : Reservation) (s : Ledger) → Creates v s (reserve_new h w v s)
  unfolding reserve_new
  reserve_new-Creates w v s =
      if-cases (Creates v s)
        (any (λ r. r.retirement_key_hash =o some v.key_hash) (Maps.values s.records)
          || any (λ t. t.key_hash =? v.key_hash) (Maps.values s.retirements))
        _ _ (λ _. record { made = λ r e. absurd (cc) })
        λ _.
          if-cases (Creates v s) (leb max_pending (count_if is_pending (Maps.values s.records))) _ _
            (λ _. record { made = λ r e. absurd (cc) })
            λ _.
              if-cases (Creates v s) (leb max_records (length s.records)) _ _
                (λ _. record { made = λ r e. absurd (cc) })
                λ _.
                  if-cases (Creates v s) (not (validate_launch_record h.date_parse (new_record v)))
                    _ _ (λ _. record { made = λ r e. absurd (cc) }) λ _. commit-Creates w v s _

  pub reserve-Creates : (w : Write) (v : Reservation) (s : Ledger) → Creates v s (reserve h w v s)
  unfolding reserve
  reserve-Creates w v s =
      if-cases (Creates v s) (not s.opened) _ _ (λ _. record { made = λ r e. absurd (cc) })
        λ _. elim (Option-cases (find (λ r. r.key_hash =? v.key_hash) (Maps.values s.records))) [
          | inr (q, e) ↦ rw e (record { made = λ r f. absurd (cc) })
          | inl fresh ↦
              rw fresh
                (elim (Option-cases
                  (find (λ t. t.creation_key_hash =? v.key_hash) (Maps.values s.retirements))) [
                    | inr (t, e) ↦ rw e (record { made = λ r f. absurd (cc) })
                    | inl unretired ↦ rw unretired (reserve_new-Creates w v s)
                  ])
        ]
