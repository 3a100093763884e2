-- ===== src/Http/ActionExecutor/Admission.antt =====
-- What a running executor is, and that every request keeps it running.
use agent_host.Common.{
  ℕ, suc, ◌+◌, ◌≤◌, ◌≡◌, refl, String, true, ◌||◌, not, Option, none, some, List, [], ◌∷◌, arith,
  leb, ◌=?◌, eq_iff, if-cases, length, length-append, get_or, Option-cases, inl, inr,
  idempotency_key, All, All-append, all,
}
use agent_host.Common.Maps.{
  Map, get, total, total-set_present, total-set_absent, get-set, get-set_here, set-set,
  length-set-le,
}
use agent_host.Common.Results.{Result}
use agent_host.Http.ActionExecutor.{
  Limits, Item, Entry, Executor, Reply, ActionError, max_idempotency_entries, sweep, pump,
  pump_queue, enqueue, admit, execute,
}
use agent_host.Http.ActionExecutor.Queues.{
  IsQueues, IsHead, serial, waiting, set-IsQueues, retail-IsHead, fresh-IsHead, get-Lane,
  serial-append, own-append,
}

-- The agents of the queues are distinct, the head of every queue runs and no other item does, no queue
-- is over its limit, every active item is the head of its queue, the count is that of the queued
-- items and within the limit, the cache is within its bound, and the accepted actions are as
-- many as the answered and the queued ones together.
pub record IsRunning {P R : Type 0} (l : Limits) (x : Executor P R) : Type 0 where
  pub lines : IsQueues l x.queues
  pub heads : All (IsHead x.queues) x.active
  pub counted : x.queued ≡ total length x.queues
  pub bounded : x.queued ≤ l.global_limit
  pub cached : length x.cache ≤ max_idempotency_entries
  pub answered : length x.answers + x.queued ≡ x.next_id

length-sweep-le : (now : ℕ) (m : Map Entry) → length (sweep now m) ≤ length m
unfolding sweep
length-sweep-le now [] = omega arith
length-sweep-le now ((k, e) ∷ m) = ground (arith, length-sweep-le now m)

module _ {P R : Type 0} (l : Limits) where
  -- A queue that gets its first item starts it.
  enqueue_first :
      (s agent action : String) (p : P) (key : String) (x : Executor P R)
      → get agent x.queues ≡ none
      → 1 ≤ l.per_agent_limit
      → suc x.queued ≤ l.global_limit
      → suc (length x.cache) ≤ max_idempotency_entries
      → IsRunning l x
      → IsRunning l (enqueue s agent action p key x)
  unfolding enqueue pump pump_queue serial waiting
  enqueue_first s agent action p key x e one room cache h =
      rw
        (
          e,
          get-set {V = List (Item P)} agent agent,
          (eq_iff agent agent).1 refl,
          set-set {V = List (Item P)} agent,
        )
        record {
          lines =
              set-IsQueues l agent _ x.queues
                record { one_runs = refl; own = ground (arith, eq_iff agent agent); short = one }
                h.lines;
          heads =
              All-append _ x.active _ (fresh-IsHead agent _ x.queues x.active e h.heads)
                record { behind = []; found = get-set_here agent _ x.queues };
          counted = omega (arith, h.counted, total-set_absent length agent _ x.queues e);
          bounded = room;
          cached = omega (arith, length-set-le key _ x.cache);
          answered = omega (arith, h.answered);
        }

  -- A queue with items gets one more.
  enqueue_more :
      (s agent action : String) (p : P) (key : String) (x : Executor P R) (i : Item P)
      (r : List (Item P))
      → get agent x.queues ≡ some (i ∷ r)
      → i.started ≡ true
      → waiting r ≡ true
      → all (λ j. j.agent_id =? agent) (i ∷ r) ≡ true
      → suc (length (i ∷ r)) ≤ l.per_agent_limit
      → suc x.queued ≤ l.global_limit
      → suc (length x.cache) ≤ max_idempotency_entries
      → IsRunning l x
      → IsRunning l (enqueue s agent action p key x)
  unfolding enqueue pump pump_queue serial
  enqueue_more s agent action p key x i r e runs waits own one room cache h =
      rw (e, get-set {V = List (Item P)} agent agent, (eq_iff agent agent).1 refl)
        (if-cases (IsRunning l) (i.started) _ _
          (λ _. record {
            lines =
                set-IsQueues l agent _ x.queues
                  record {
                    one_runs = serial-append i r _ runs waits refl;
                    own = own-append agent (i ∷ r) _ own ((eq_iff agent agent).1 refl);
                    short = omega (arith, length-append r);
                  }
                  h.lines;
            heads = retail-IsHead agent i r _ x.queues x.active e h.heads;
            counted = omega (
              arith,
              h.counted,
              total-set_present length agent (i ∷ r) _ x.queues e,
              length-append r,
            );
            bounded = room;
            cached = omega (arith, length-set-le key _ x.cache);
            answered = omega (arith, h.answered);
          })
          λ no. absurd (ground arith))

  module _ (one : 1 ≤ l.per_agent_limit) where
    admit-IsRunning :
        (s agent action : String) (p : P) (key : String) (found : Option Entry) (x : Executor P R)
        → IsRunning l x
        → IsRunning l ((admit l s agent action p key found x).0)
    unfolding admit
    admit-IsRunning s agent action p key (some e) x h =
        let Runs = λ (r : Executor P R × Result ActionError Reply). IsRunning l (r.0) in
        if-cases Runs (not (e.signature =? s)) _ _ (λ _. h) λ _. h
    admit-IsRunning s agent action p key none x h =
        let Runs = λ (r : Executor P R × Result ActionError Reply). IsRunning l (r.0) in
        if-cases Runs (x.draining) _ _ (λ _. h)
          λ _.
            if-cases Runs (leb max_idempotency_entries (length x.cache)) _ _ (λ _. h)
              λ fits.
                if-cases Runs
                  (leb (l.per_agent_limit) (length (get_or (get agent x.queues) []))
                    || leb (l.global_limit) x.queued)
                  _ _ (λ _. h)
                  λ room. elim (Option-cases (get agent x.queues)) [
                    | inl e ↦
                        enqueue_first s agent action p key x e one (ground arith) (ground arith) h
                    | inr (q, e) ↦
                        let lane = get-Lane l agent q x.queues h.lines e in
                        let full = rw lane.found at room in
                        enqueue_more s agent action p key x lane.head lane.behind lane.found
                          lane.runs lane.waits lane.own (ground (arith, full))
                          (ground (arith, full)) (ground arith) h
                  ]

    pub execute-IsRunning :
        (sign : String → String → P → String) (now : ℕ) (agent action : String) (p : P)
        (key : Option String) (x : Executor P R)
        → IsRunning l x
        → IsRunning l ((execute sign l now agent action p key x).0)
    unfolding execute
    execute-IsRunning sign now agent action p key x h =
        let Runs = λ (r : Executor P R × Result ActionError Reply). IsRunning l (r.0) in
        let text = get_or key "" in
        if-cases Runs (not (idempotency_key (get_or key ""))) _ _ (λ _. h)
          λ _.
            admit-IsRunning (sign agent action p) agent action p text (get text (sweep now x.cache))
              (record x { cache = sweep now x.cache })
              record {
                lines = h.lines;
                heads = h.heads;
                counted = h.counted;
                bounded = h.bounded;
                cached = omega (arith, length-sweep-le now x.cache, h.cached);
                answered = h.answered;
              }
