-- ===== src/Http/ActionExecutor/Ending.antt =====
-- The ends of actions, a shutdown and the end of its grace keep an executor running.
use agent_host.Common.{
  ◌∙◌, ℕ, suc, ◌+◌, ◌-◌, ◌≤◌, ◌≡◌, refl, true, not, some, List, [], ◌∷◌, ◌++◌, arith, ◌==◌, ◌=?◌,
  eq_iff, if-cases, length, length-append, filter, ==_iff, All-append, all, filter,
}
use agent_host.Common.Maps.{
  Map, get, set, total-set_present, total-delete, get-set, get-set_here, get-delete,
  get-delete_here, set-set,
}
use agent_host.Http.ActionExecutor.{
  Limits, Item, Entry, Race, Executor, settle, shifted, pump, pump_queue, release, finish, answer,
  aborts, label, pending_items, rejected, settle_items, shutdown, abort_active,
}
use agent_host.Http.ActionExecutor.Kept.{kept-IsQueues, kept-IsHead, kept-counts, length-rejected}
use agent_host.Http.ActionExecutor.Queues.{
  head_facts, IsHead, serial, waiting, set-IsQueues, delete-IsQueues, drop-IsHead,
}
use agent_host.Http.ActionExecutor.Admission.{IsRunning}

length-settle : (id expires : ℕ) (m : Map Entry) → length (settle id expires m) ≡ length m
unfolding settle
length-settle id expires [] = refl
length-settle id expires ((k, e) ∷ m) = omega (arith, length-settle id expires m)

length-settle_items :
    {P : Type 0} (q : List (Item P)) (expires : ℕ) (m : Map Entry)
    → length (settle_items q expires m) ≡ length m
unfolding settle_items
length-settle_items [] expires m = refl
length-settle_items (i ∷ r) expires m =
    length-settle i.id expires (settle_items r expires m) ∙ length-settle_items r expires m

module _ {P R : Type 0} (l : Limits) where
  -- An action that was alone in its queue ends.
  finish_last :
      (ttl now : ℕ) (i : Item P) (race : Race R) (x : Executor P R)
      → get (i.agent_id) x.queues ≡ some (i ∷ [])
      → IsRunning l x
      → IsRunning l (finish ttl now i race x)
  unfolding finish release shifted pump pump_queue
  finish_last ttl now i race x e h =
      let agent = i.agent_id in
      let fewer = total-delete length agent (i ∷ []) x.queues h.lines.keys e in
      rw (e, (==_iff (i.id) (i.id)).1 refl, get-delete_here {V = List (Item P)} agent)
        record {
          lines = delete-IsQueues l agent x.queues h.lines;
          heads =
              drop-IsHead agent i [] x.queues _ x.active e
                (λ k f. ground (arith, get-delete {V = List (Item P)} agent k x.queues)) h.heads;
          counted = omega (arith, h.counted, fewer);
          bounded = omega (arith, h.bounded);
          cached = omega (arith, length-settle (i.id) (now + ttl) x.cache, h.cached);
          answered = omega (arith, h.answered, h.counted, fewer, length-append x.answers);
        }

  -- An action ends and the next one of its queue starts.
  finish_next :
      (ttl now : ℕ) (i : Item P) (race : Race R) (x : Executor P R) (j : Item P) (r : List (Item P))
      → get (i.agent_id) x.queues ≡ some (i ∷ j ∷ r)
      → waiting (j ∷ r) ≡ true
      → all (λ k. k.agent_id =? i.agent_id) (j ∷ r) ≡ true
      → suc (suc (length r)) ≤ l.per_agent_limit
      → IsRunning l x
      → IsRunning l (finish ttl now i race x)
  unfolding finish release shifted pump pump_queue waiting serial
  finish_next ttl now i race x j r e waits own short h =
      let agent = i.agent_id in
      let fewer =
        total-set_present length agent (i ∷ j ∷ r) (record j { started = true } ∷ r) x.queues e in
      let y : Executor P R = record x {
        active = filter (λ k. not (k.id == i.id)) x.active;
        queues = set agent (j ∷ r) x.queues;
        queued = x.queued - 1;
        answers = x.answers ++ (i.id, answer race) ∷ [];
        aborted = x.aborted ++ aborts race (i.id);
        latencies = x.latencies ++ label race ∷ [];
        cache = settle (i.id) (now + ttl) x.cache;
      } in
      let started : IsRunning l (pump agent y) =
        rw
          (
            get-set_here {V = List (Item P)} agent (j ∷ r) x.queues,
            set-set {V = List (Item P)} agent (record j { started = true } ∷ r) (j ∷ r) x.queues,
          )
          (if-cases (IsRunning l) (j.started) _ _ (λ no. absurd (ground arith))
            λ _. record {
              lines =
                  set-IsQueues l agent _ x.queues
                    record { one_runs = ground arith; own = own; short = omega (arith, short) }
                    h.lines;
              heads =
                  All-append _ _ _
                    (drop-IsHead agent i (j ∷ r) x.queues _ x.active e
                      (λ k f. ground (
                        arith,
                        get-set {V = List (Item P)} agent k (record j { started = true } ∷ r)
                            x.queues,
                      ))
                      h.heads)
                    record {
                      behind = r;
                      found = ground (
                        arith,
                        own,
                        get-set {V = List (Item P)} agent (j.agent_id)
                            (record j { started = true } ∷ r) x.queues,
                        eq_iff (j.agent_id) agent,
                        eq_iff agent (j.agent_id),
                      );
                    };
              counted = omega (arith, h.counted, fewer);
              bounded = omega (arith, h.bounded);
              cached = omega (arith, length-settle (i.id) (now + ttl) x.cache, h.cached);
              answered = omega (arith, h.answered, h.counted, fewer, length-append x.answers);
            }) in
      rw (e, (==_iff (i.id) (i.id)).1 refl) started

  finish_behind :
      (ttl now : ℕ) (i : Item P) (race : Race R) (x : Executor P R) (r : List (Item P))
      → get (i.agent_id) x.queues ≡ some (i ∷ r)
      → IsRunning l x
      → IsRunning l (finish ttl now i race x)
  finish_behind ttl now i race x [] e h = finish_last ttl now i race x e h
  finish_behind ttl now i race x (j ∷ r) e h =
      let (waits, own, short) = head_facts l (i.agent_id) i (j ∷ r) x.queues h.lines e in
      finish_next ttl now i race x j r e waits own short h

  -- Whichever item is active, its end keeps the executor running.
  pub finish-IsRunning :
      (ttl now : ℕ) (i : Item P) (race : Race R) (x : Executor P R)
      → IsHead x.queues i
      → IsRunning l x
      → IsRunning l (finish ttl now i race x)
  finish-IsRunning ttl now i race x head h =
      finish_behind ttl now i race x (head.behind) (head.found) h

  pub shutdown-IsRunning :
      (ttl now : ℕ) (x : Executor P R) → IsRunning l x → IsRunning l (shutdown ttl now x)
  unfolding shutdown
  shutdown-IsRunning ttl now x h =
      let counts = kept-counts x.queues in
      record {
        lines = kept-IsQueues l x.queues h.lines;
        heads = kept-IsHead l x.queues x.active h.lines h.heads;
        counted = omega (arith, counts, h.counted);
        bounded = omega (arith, h.bounded);
        cached =
            omega
              (arith, h.cached, length-settle_items (pending_items x.queues) (now + ttl) x.cache);
        answered = omega (
          arith,
          h.answered,
          h.counted,
          counts,
          length-append x.answers (rejected (pending_items x.queues)),
          length-rejected R (pending_items x.queues),
        );
      }

  pub abort_active-IsRunning : (x : Executor P R) → IsRunning l x → IsRunning l (abort_active x)
  unfolding abort_active
  abort_active-IsRunning x h = record {
    lines = h.lines;
    heads = h.heads;
    counted = h.counted;
    bounded = h.bounded;
    cached = h.cached;
    answered = h.answered;
  }
