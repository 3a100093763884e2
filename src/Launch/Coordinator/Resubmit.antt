-- ===== src/Launch/Coordinator/Resubmit.antt =====
-- A request that is submitted again.
use agent_host.Common.{
  String, ◌≡◌, refl, sym, ap, ◌∙◌, Bool, true, false, ◌||◌, not, Option, none, some, [], ◌∷◌, arith,
  if-cases, ◌=?◌, eq_refl, eq_iff, idempotency_key, find, inl, inr, Option-cases, length, suc, zero,
  ℕ,
}
use mathlib.Core.Path.{subst}
use agent_host.Common.Results.{Result, ok, err, Result-cases}
use agent_host.Common.Json.{Value}
use agent_host.Common.Maps
use agent_host.Common.Maps.{Map, has, find-set}
use agent_host.Launch.Contracts.{LaunchRecord, Request}
use agent_host.Launch.Catalog.{normalize_launch_request, capabilities_for, launch_view}
use agent_host.Launch.Catalog.Consent.{normalize_launch_request-capabilities_for}
use agent_host.Launch.Ledger.{Ledger, LedgerError, Host, Document, ◌=o◌}
use agent_host.Launch.Ledger.Reserve.{
  Reserved, Reservation, created, existing, retired, conflict, full, reserve, new_record,
  find_by_key_hash, find_by_retirement_key_hash, find_retirement_by_key_hash,
  find_retirement_by_creation_key_hash,
}
use agent_host.Launch.Ledger.Created.{Creates, reserve-Creates}
use agent_host.Launch.Coordinator.{
  Coordinator, Item, create, enqueue, pump, pump_loop, begin_run, has_room, take_first, is_free,
}
use agent_host.Launch.Coordinator.Submit.{
  SubmitError, Service, Draw, Prior, fenced, unknown, was_retired, was_launched, Shown, current,
  Answer, find_prior, replay, same_request, reserved, reservation, submit_new, submit_prior, submit,
}

-- What `find_prior` looked at for a key that it does not know.
record IsUnknown (key : String) (s : Service) : Type 0 where
  opened : s.ledger.opened ≡ true
  unfenced : has key s.fences ≡ false
  unretiring : find (λ r. r.retirement_key_hash =o some key) (Maps.values s.ledger.records) ≡ none
  unused : find (λ t. t.key_hash =? key) (Maps.values s.ledger.retirements) ≡ none
  uncreated : find (λ t. t.creation_key_hash =? key) (Maps.values s.ledger.retirements) ≡ none
  unlaunched : find (λ r. r.key_hash =? key) (Maps.values s.ledger.records) ≡ none

find_prior-IsUnknown :
    (key : String) (s : Service) → find_prior key s ≡ ok unknown → IsUnknown key s
unfolding find_prior find_by_key_hash find_by_retirement_key_hash find_retirement_by_key_hash
    find_retirement_by_creation_key_hash
find_prior-IsUnknown key s e = record {
  opened = ground arith;
  unfenced = ground arith;
  unretiring = ground arith;
  unused = ground arith;
  uncreated = ground arith;
  unlaunched = ground arith;
}

find-set-none :
    (p : LaunchRecord → Bool) (k : String) (v : LaunchRecord) (m : Map LaunchRecord)
    → find p (Maps.values m) ≡ none
    → p v ≡ false
    → find p (Maps.values (Maps.set k v m)) ≡ none
unfolding Maps.set
find-set-none p k v [] h e = ground arith
find-set-none p k v ((j, w) ∷ m) h e = ground (arith, find-set-none p k v m)

without_key :
    (v : Reservation) (key : String) → ((new_record v).retirement_key_hash =o some key) ≡ false
unfolding new_record
without_key v key = refl

under_key :
    (v : Reservation) (key : String) → v.key_hash ≡ key → ((new_record v).key_hash =? key) ≡ true
unfolding new_record
under_key v key same = (eq_iff v.key_hash key).1 same

find_prior-created :
    (key : String) (s : Service) (v : Reservation) (d : Option Document) (c : Coordinator)
    → IsUnknown key s
    → v.key_hash ≡ key
    → find_prior key (record s {
      ledger = record s.ledger {
        records = Maps.set v.id (new_record v) s.ledger.records;
        disk = d;
      };
      coordinator = c;
    })
      ≡ ok (was_launched (new_record v))
unfolding find_prior find_by_key_hash find_by_retirement_key_hash find_retirement_by_key_hash
    find_retirement_by_creation_key_hash
find_prior-created key s v d c u same =
    rw
      (
        u.unfenced,
        u.opened,
        find-set-none (λ r. r.retirement_key_hash =o some key) v.id (new_record v) s.ledger.records
            u.unretiring (without_key v key),
        u.unused,
        u.uncreated,
        find-set (λ (r : LaunchRecord). r.key_hash =? key) v.id (new_record v) s.ledger.records
            u.unlaunched (under_key v key same),
      )
      refl

-- The queue may start launches; it does not start to drain.
pump_loop-draining : (n : ℕ) (c : Coordinator) → (pump_loop n c).draining ≡ c.draining
unfolding pump_loop begin_run
pump_loop-draining zero c = refl
pump_loop-draining (suc n) c =
    if-cases (λ (v : Coordinator). v.draining ≡ c.draining) (has_room c) _ _
      (λ room.
        elim (Option-cases
          (take_first (λ (i : Item). is_free c.active_providers i.provider) c.queue)) [
            | inl e ↦ rw e refl
            | inr (found, e) ↦ rw e (pump_loop-draining n (begin_run found.0 found.1 c))
          ])
      λ full. refl

pump-enqueue-draining :
    (item : Item) (c : Coordinator) → (pump (enqueue item c)).draining ≡ c.draining
unfolding pump enqueue
pump-enqueue-draining item c =
    let same = λ (b : Coordinator) (e : b.draining ≡ c.draining). pumped b ∙ e in
    if-cases (λ (b : Coordinator). (pump b).draining ≡ c.draining)
      (c.draining || has item.id c.queued || has item.id c.active) c _ (λ _. same c refl)
      λ _. same _ refl
  where
    pumped : (b : Coordinator) → (pump b).draining ≡ b.draining
    pumped b =
        if-cases (λ (v : Coordinator). v.draining ≡ b.draining) b.draining _ _ (λ _. refl)
          λ _. pump_loop-draining (length b.queue) b

module _ (h : Host) (key_hash : String → String) (signature : Request → String) where
  -- What a second call answers, if the first one answered with a new launch.
  record Resubmits (d : Draw) (payload : Value) (key : String) (o : Service × Answer) : Type 0 where
    again :
        (shown : Shown)
        → o.1 ≡ ok (shown, false)
        → submit h key_hash signature d payload key o.0 ≡ (o.0, ok (shown, true))

  -- The service once the launch is in the ledger.
  abbrev launched : Draw → String → Request → Option Document → Coordinator → Service → Service
  launched d key request f c s = record s {
    ledger = record s.ledger {
      records =
          Maps.set d.id (new_record (reservation h key_hash signature d (key_hash key) request))
            s.ledger.records;
      disk = f;
    };
    coordinator = c;
  }

  replay-signed :
      (payload : Value) (request : Request) (shown : Shown)
      → normalize_launch_request payload (capabilities_for request) ≡ ok request
      → replay h key_hash signature payload request (signature request) shown ≡ ok (shown, true)
  unfolding replay
  replay-signed payload request shown e = rw (e, replay, eq_refl (signature request)) refl

  submit-known :
      (d : Draw) (payload : Value) (key : String) (s : Service) (r : LaunchRecord)
      → s.started ≡ true
      → s.coordinator.draining ≡ false
      → idempotency_key key ≡ true
      → find_prior (key_hash key) s ≡ ok (was_launched r)
      → submit h key_hash signature d payload key s
        ≡ (s, replay h key_hash signature payload r.request r.signature (current (launch_view r)))
  unfolding submit submit_prior
  submit-known d payload key s r started going fine known = rw (started, going, fine, known) refl

  submit-launched :
      (d d' : Draw) (payload : Value) (key : String) (s : Service) (request : Request)
      (f : Option Document) (c : Coordinator)
      → s.started ≡ true
      → c.draining ≡ false
      → idempotency_key key ≡ true
      → IsUnknown (key_hash key) s
      → normalize_launch_request payload s.capabilities ≡ ok request
      → submit h key_hash signature d' payload key (launched d key request f c s) ≡ (
        launched d key request f c s,
        ok (
          current (
              launch_view (new_record (reservation h key_hash signature d (key_hash key) request))),
          true,
        ),
      )
  unfolding new_record
  submit-launched d d' payload key s request f c started going fine unknown_key normal =
      let v = reservation h key_hash signature d (key_hash key) request in
      let s' = launched d key request f c s in
      submit-known d' payload key s' (new_record v) started going fine
        (find_prior-created (key_hash key) s v f c unknown_key refl)
      ∙ ap (λ a. (s', a))
          (replay-signed payload request (current (launch_view (new_record v)))
            (normalize_launch_request-capabilities_for payload s.capabilities request normal))

  created-Resubmits :
      (d d' : Draw) (payload : Value) (key : String) (s : Service) (request : Request) (l : Ledger)
      (r : LaunchRecord)
      → s.started ≡ true
      → s.coordinator.draining ≡ false
      → idempotency_key key ≡ true
      → IsUnknown (key_hash key) s
      → normalize_launch_request payload s.capabilities ≡ ok request
      → (r ≡ new_record (reservation h key_hash signature d (key_hash key) request))
        × ((f : Option Document) × (l ≡ (launched d key request f s.coordinator s).ledger))
      → Resubmits d' payload key (reserved h key_hash signature request s (l, ok (created r)))
  unfolding reserved new_record
  created-Resubmits d d' payload key s request l r started going fine unknown_key normal made =
      let v = reservation h key_hash signature d (key_hash key) request in
      let item : Item = record { id = d.id; kind = create; provider = request.provider } in
      let c = pump (enqueue item s.coordinator) in
      let still : c.draining ≡ false = pump-enqueue-draining item s.coordinator ∙ going in
      subst
        (λ q.
          Resubmits d' payload key (reserved h key_hash signature request s (l, ok (created q))))
        (sym made.0)
        (subst
          (λ m.
            Resubmits d' payload key
              (reserved h key_hash signature request s (m, ok (created (new_record v)))))
          (sym made.1.1)
          record {
            again = λ shown e.
                let same : current (launch_view (new_record v)) ≡ shown = cc in
                subst
                  (λ x.
                    submit h key_hash signature d' payload key (launched d key request made.1.0 c s)
                    ≡ (launched d key request made.1.0 c s, ok (x, true)))
                  same
                  (submit-launched d d' payload key s request made.1.0 c started still fine
                    unknown_key normal);
          })

  -- Other answers say that they replay, or are errors.
  replay-Resubmits :
      (d : Draw) (payload : Value) (key : String) (s : Service) (request : Request)
      (signed : String) (x : Shown)
      → Resubmits d payload key (s, replay h key_hash signature payload request signed x)
  unfolding replay
  replay-Resubmits d payload key s request signed x =
      elim (Result-cases (normalize_launch_request payload (capabilities_for request))) [
        | inr (e, bad) ↦ rw (bad, replay) record { again = λ shown f. absurd (cc) }
        | inl (q, good) ↦
            rw (good, replay)
              (if-cases (λ a. Resubmits d payload key (s, a)) (signature q =? signed) _ _
                (λ _. record { again = λ shown f. absurd (cc) })
                λ _. record { again = λ shown f. absurd (cc) })
      ]

  same_request-Resubmits :
      (d : Draw) (payload : Value) (key : String) (s : Service) (request : Request)
      (signed : String) (x : Shown)
      → Resubmits d payload key (s, same_request h key_hash signature request signed x)
  unfolding same_request
  same_request-Resubmits d payload key s request signed x =
      if-cases (λ a. Resubmits d payload key (s, a)) (signature request =? signed) _ _
        (λ _. record { again = λ shown f. absurd (cc) })
        λ _. record { again = λ shown f. absurd (cc) }

  reserved-Resubmits :
      (d d' : Draw) (payload : Value) (key : String) (s : Service) (request : Request)
      (o : Ledger × Result LedgerError Reserved)
      → s.started ≡ true
      → s.coordinator.draining ≡ false
      → idempotency_key key ≡ true
      → IsUnknown (key_hash key) s
      → normalize_launch_request payload s.capabilities ≡ ok request
      → Creates h (reservation h key_hash signature d (key_hash key) request) s.ledger o
      → Resubmits d' payload key (reserved h key_hash signature request s o)
  unfolding reserved
  reserved-Resubmits d d' payload key s request (l, ok (created r)) started going fine u normal c =
      created-Resubmits d d' payload key s request l r started going fine u normal (c.made r refl)
  reserved-Resubmits d d' payload key s request (l, ok (existing r)) started going fine u normal c =
      same_request-Resubmits d' payload key (record s { ledger = l }) request r.signature _
  reserved-Resubmits d d' payload key s request (l, ok (retired t)) started going fine u normal c =
      same_request-Resubmits d' payload key (record s { ledger = l }) request t.signature _
  reserved-Resubmits d d' payload key s request (l, ok conflict) started going fine u normal c =
      record { again = λ shown f. absurd (cc) }
  reserved-Resubmits d d' payload key s request (l, ok full) started going fine u normal c =
      record { again = λ shown f. absurd (cc) }
  reserved-Resubmits d d' payload key s request (l, err e) started going fine u normal c = record {
    again = λ shown f. absurd (cc);
  }

  prior-Resubmits :
      (d d' : Draw) (payload : Value) (key : String) (s : Service) (p : Result SubmitError Prior)
      → s.started ≡ true
      → s.coordinator.draining ≡ false
      → idempotency_key key ≡ true
      → find_prior (key_hash key) s ≡ p
      → Resubmits d' payload key (submit_prior h key_hash signature d payload (key_hash key) s p)
  unfolding submit_prior submit_new
  prior-Resubmits d d' payload key s (err e) started going fine look = record {
    again = λ shown f. absurd (cc);
  }
  prior-Resubmits d d' payload key s (ok fenced) started going fine look = record {
    again = λ shown f. absurd (cc);
  }
  prior-Resubmits d d' payload key s (ok (was_retired t)) started going fine look =
      replay-Resubmits d' payload key s t.request t.signature _
  prior-Resubmits d d' payload key s (ok (was_launched r)) started going fine look =
      replay-Resubmits d' payload key s r.request r.signature _
  prior-Resubmits d d' payload key s (ok unknown) started going fine look =
      elim (Result-cases (normalize_launch_request payload s.capabilities)) [
        | inr (e, bad) ↦ rw (bad, submit_new) record { again = λ shown f. absurd (cc) }
        | inl (request, normal) ↦
            let v = reservation h key_hash signature d (key_hash key) request in
            rw (normal, submit_new)
              (reserved-Resubmits d d' payload key s request (reserve h d.written v s.ledger)
                started going fine (find_prior-IsUnknown (key_hash key) s look) normal
                (reserve-Creates h d.written v s.ledger))
      ]

  submit-Resubmits :
      (d d' : Draw) (payload : Value) (key : String) (s : Service)
      → Resubmits d' payload key (submit h key_hash signature d payload key s)
  unfolding submit
  submit-Resubmits d d' payload key s =
      let P = Resubmits d' payload key in
      if-cases P (not s.started) _ _ (λ _. record { again = λ shown f. absurd (cc) })
        λ started.
          if-cases P s.coordinator.draining _ _ (λ _. record { again = λ shown f. absurd (cc) })
            λ going.
              if-cases P (not (idempotency_key key)) _ _
                (λ _. record { again = λ shown f. absurd (cc) })
                λ fine.
                  prior-Resubmits d d' payload key s (find_prior (key_hash key) s) (ground arith)
                    going (ground arith) refl

  -- If `submit` answers with a new launch, the same payload under the same key, at whatever time and
  -- whether or not a write would succeed, is answered with that launch as a replay, and changes nothing.
  pub submit-submit :
      (d d' : Draw) (payload : Value) (key : String) (s : Service) (shown : Shown)
      → (submit h key_hash signature d payload key s).1 ≡ ok (shown, false)
      → submit h key_hash signature d' payload key (submit h key_hash signature d payload key s).0
        ≡ ((submit h key_hash signature d payload key s).0, ok (shown, true))
  submit-submit d d' payload key s shown e = (submit-Resubmits d d' payload key s).again shown e
