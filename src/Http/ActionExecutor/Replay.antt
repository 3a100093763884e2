-- ===== src/Http/ActionExecutor/Replay.antt =====
-- What a second request with the key of an accepted one gets.
use agent_host.Common.{
  ℕ, ◌≡◌, refl, String, true, false, ◌||◌, not, Option, none, some, List, [], ◌∷◌, arith, leb, ◌=?◌,
  eq_iff, if◌then◌else◌, if-cases, length, get_or, idempotency_key,
}
use agent_host.Common.Maps.{Map, get, get-set_here}
use agent_host.Common.Results.{Result, ok, err}
use agent_host.Http.ActionExecutor.{
  Limits, Item, Entry, Executor, Reply, accepted, replayed, ActionError, idempotency_conflict,
  max_idempotency_entries, expired, sweep, pump, pump_queue, enqueue, admit, execute,
}

pub get-sweep :
    (now : ℕ) (k : String) (e : Entry) (m : Map Entry)
    → get k m ≡ some e
    → expired now e ≡ false
    → get k (sweep now m) ≡ some e
unfolding get sweep
get-sweep now k e [] f live = absurd (cc)
get-sweep now k e ((j, d) ∷ m) f live = ground (arith, get-sweep now k e m)

-- The entry of an action that is still open.
abbrev pub opened : String → ℕ → Entry
opened s n = record { signature = s; promise = n; settled = false; expires_at = 0 }

module _ {P R : Type 0} where
  pub pump_queue-cache :
      (agent : String) (q : Option (List (Item P))) (x : Executor P R)
      → (pump_queue agent q x).cache ≡ x.cache
  unfolding pump_queue
  pump_queue-cache agent none x = refl
  pump_queue-cache agent (some []) x = refl
  pump_queue-cache agent (some (i ∷ r)) x =
      if-cases (λ (y : Executor P R). y.cache ≡ x.cache) (i.started) _ _ (λ _. refl) λ _. refl

  enqueue-cache :
      (s agent action : String) (p : P) (key : String) (x : Executor P R)
      → get key (enqueue s agent action p key x).cache ≡ some (opened s (x.next_id))
  unfolding enqueue pump
  enqueue-cache s agent action p key x =
      rw (pump_queue-cache agent) (get-set_here key (opened s (x.next_id)) x.cache)

  admit_entry :
      (l : Limits) (s agent action : String) (p : P) (key : String) (found : Option Entry) (n : ℕ)
      (x : Executor P R)
      → (admit l s agent action p key found x).1 ≡ ok (accepted n)
      → get key ((admit l s agent action p key found x).0).cache ≡ some (opened s n)
  unfolding admit
  admit_entry l s agent action p key (some e) n x =
      if-cases
        (λ (r : Executor P R × Result ActionError Reply).
          r.1 ≡ ok (accepted n) → get key (r.0).cache ≡ some (opened s n))
        (not (e.signature =? s)) _ _ (λ _ e. absurd (cc)) λ _ e. absurd (cc)
  admit_entry l s agent action p key none n x =
      let Opens = λ (r : Executor P R × Result ActionError Reply).
        r.1 ≡ ok (accepted n) → get key (r.0).cache ≡ some (opened s n) in
      if-cases Opens (x.draining) _ _ (λ _ e. absurd (cc))
        λ _.
          if-cases Opens (leb max_idempotency_entries (length x.cache)) _ _ (λ _ e. absurd (cc))
            λ _.
              if-cases Opens
                (leb (l.per_agent_limit) (length (get_or (get agent x.queues) []))
                  || leb (l.global_limit) x.queued)
                _ _ (λ _ e. absurd (cc)) λ _ e. ground (arith, enqueue-cache s agent action p key x)

module _ {P R : Type 0} (sign : String → String → P → String) (l : Limits) where
  pub execute_entry :
      (now n : ℕ) (agent action : String) (p : P) (key : Option String) (x : Executor P R)
      → (execute sign l now agent action p key x).1 ≡ ok (accepted n)
      → (get (get_or key "") ((execute sign l now agent action p key x).0).cache
          ≡ some (opened (sign agent action p) n))
        × (idempotency_key (get_or key "") ≡ true)
  unfolding execute
  execute_entry now n agent action p key x =
      let text = get_or key "" in
      let swept = record x { cache = sweep now x.cache } in
      if-cases
        (λ (r : Executor P R × Result ActionError Reply).
          r.1 ≡ ok (accepted n)
          → (get text (r.0).cache ≡ some (opened (sign agent action p) n))
            × (idempotency_key text ≡ true))
        (not (idempotency_key text)) _ _ (λ _ e. absurd (cc))
        λ safe e. (
          admit_entry l (sign agent action p) agent action p text (get text (sweep now x.cache)) n
              swept e,
          ground arith,
        )

  -- A key whose entry is still open answers from the entry.
  pub execute_again :
      (now n : ℕ) (s agent action : String) (p : P) (key : Option String) (y : Executor P R)
      → get (get_or key "") y.cache ≡ some (opened s n)
      → idempotency_key (get_or key "") ≡ true
      → execute sign l now agent action p key y ≡ (
        record y { cache = sweep now y.cache },
        if sign agent action p =? s then ok (replayed n) else err idempotency_conflict,
      )
  unfolding execute admit expired
  execute_again now n s agent action p key y e safe =
      rw (safe, get-sweep now (get_or key "") (opened s n) y.cache e refl) ground
        (arith, eq_iff s (sign agent action p), eq_iff (sign agent action p) s)
