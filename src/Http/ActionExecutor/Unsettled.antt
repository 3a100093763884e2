-- ===== src/Http/ActionExecutor/Unsettled.antt =====
-- A key keeps its action until that action has an answer, whatever else happens.
use agent_host.Common.{
  ℕ, ◌+◌, ◌≡◌, refl, sym, ◌⊎◌, ap, ◌∙◌, String, true, false, not, Option, none, some, List, [], ◌∷◌,
  ◌++◌, arith, ◌==◌, ◌=?◌, if◌then◌else◌, if-cases, get_or, find, idempotency_key, inl, inr,
  Bool-cases,
}
use agent_host.Common.Maps.{get}
use agent_host.Common.Results.{Result, ok, err}
use agent_host.Http.ActionExecutor.{
  Limits, Item, Race, Executor, Reply, accepted, replayed, ActionError, idempotency_conflict,
  expired, sweep, settle, answer, pending_items, rejected, finish, shutdown, abort_active, execute,
}
use agent_host.Http.ActionExecutor.Queues.{
  Event, executes, finishes, shuts_down, grace_ends, finish_found, step, run,
}
use agent_host.Http.ActionExecutor.Replay.{get-sweep, opened, execute_entry, execute_again}
use agent_host.Http.ActionExecutor.Entries.{
  is_answered, is_answered-append, get-settle, get-settle_items, admit-Leaves, admit-answers,
  release-Leaves, Leaves,
}

module _ {P R : Type 0} (sign : String → String → P → String) (l : Limits) where
  execute-Leaves :
      (k s : String) (n now : ℕ) (agent action : String) (p : P) (key : Option String)
      (x : Executor P R)
      → get k x.cache ≡ some (opened s n)
      → Leaves k s n x (execute sign l now agent action p key x).0
  unfolding execute expired
  execute-Leaves k s n now agent action p key x e =
      let text = get_or key "" in
      let swept : Executor P R = record x { cache = sweep now x.cache } in
      let kept = get-sweep now k (opened s n) x.cache e refl in
      if-cases (λ (r : Executor P R × Result ActionError Reply). Leaves k s n x r.0)
        (not (idempotency_key text)) _ _ (λ _. (e, refl))
        λ _.
          admit-Leaves l k s n (sign agent action p) agent action p text (get text swept.cache)
            swept kept refl

  finish_lem :
      (now : ℕ) (i : Item P) (race : Race R) (x : Executor P R)
      → ((finish l.ttl_ms now i race x).cache ≡ settle i.id (now + l.ttl_ms) x.cache)
        × ((finish l.ttl_ms now i race x).answers ≡ x.answers ++ (i.id, answer race) ∷ [])
  unfolding finish
  finish_lem now i race x = release-Leaves i _

  -- One event: an action that has no answer after it keeps its entry, and had none before.
  abbrev Holds : String → String → ℕ → Executor P R → Executor P R → Type 0
  Holds k s n x y =
      (is_answered n y.answers ≡ true)
      ⊎ ((get k y.cache ≡ some (opened s n)) × (is_answered n x.answers ≡ false))

  same-Holds : (k s : String) (n : ℕ) (x y : Executor P R) → Leaves k s n x y → Holds k s n x y
  same-Holds k s n x y (e, same) = elim (Bool-cases (is_answered n y.answers)) [
    | inl answered ↦ inl answered
    | inr not_yet ↦ inr (e, rw (sym same) not_yet)
  ]

  step-Holds :
      (k s : String) (n : ℕ) (x : Executor P R) (e : Event P R)
      → get k x.cache ≡ some (opened s n)
      → Holds k s n x (step sign l x e)
  unfolding step shutdown abort_active
  step-Holds k s n x (executes now agent action p key) found =
      same-Holds k s n x (execute sign l now agent action p key x).0
        (execute-Leaves k s n now agent action p key x found)
  step-Holds k s n x (finishes now id race) found = ends (find (λ i. i.id == id) x.active)
    where
      ends : (o : Option (Item P)) → Holds k s n x (finish_found l now race o x)
      ends none = same-Holds k s n x x (found, refl)
      ends (some i) =
          let (cache, answers) = finish_lem now i race x in
          let grown = is_answered-append n x.answers ((i.id, answer race) ∷ []) in
          let all = ap (is_answered n) answers ∙ grown in
          elim (Bool-cases (is_answered n (finish l.ttl_ms now i race x).answers)) [
            | inl answered ↦ inl answered
            | inr not_yet ↦ inr (
              ap (get k) cache
                  ∙ get-settle k s n i.id (now + l.ttl_ms) x.cache found
                      (ground (arith, all, not_yet)),
              ground (arith, all, not_yet),
            )
          ]
  step-Holds k s n x (shuts_down now) found =
      let gone = pending_items x.queues in
      let grown = is_answered-append n x.answers (rejected {P = P} {R = R} gone) in
      elim (Bool-cases (is_answered n (x.answers ++ rejected {P = P} {R = R} gone))) [
        | inl answered ↦ inl answered
        | inr not_yet ↦ inr (
          get-settle_items R k s n (now + l.ttl_ms) gone x.cache found
              (ground (arith, grown, not_yet)),
          ground (arith, grown, not_yet),
        )
      ]
  step-Holds k s n x grace_ends found = same-Holds k s n x (abort_active x) (found, refl)

  -- Answers are never taken back.
  execute-answers :
      (now : ℕ) (agent action : String) (p : P) (key : Option String) (x : Executor P R)
      → (execute sign l now agent action p key x).0.answers ≡ x.answers
  unfolding execute
  execute-answers now agent action p key x =
      let text = get_or key "" in
      let swept : Executor P R = record x { cache = sweep now x.cache } in
      if-cases (λ (r : Executor P R × Result ActionError Reply). r.0.answers ≡ x.answers)
        (not (idempotency_key text)) _ _ (λ _. refl)
        λ _. admit-answers l (sign agent action p) agent action p text (get text swept.cache) swept

  step-answered :
      (n : ℕ) (x : Executor P R) (e : Event P R)
      → is_answered n x.answers ≡ true
      → is_answered n (step sign l x e).answers ≡ true
  unfolding step shutdown abort_active
  step-answered n x (executes now agent action p key) answered =
      rw (execute-answers now agent action p key x) answered
  step-answered n x (finishes now id race) answered = ends (find (λ i. i.id == id) x.active)
    where
      ends : (o : Option (Item P)) → is_answered n (finish_found l now race o x).answers ≡ true
      ends none = answered
      ends (some i) =
          let (_, answers) = finish_lem now i race x in
          let grown = is_answered-append n x.answers ((i.id, answer race) ∷ []) in
          ap (is_answered n) answers ∙ ground (arith, grown, answered)
  step-answered n x (shuts_down now) answered =
      let gone = pending_items x.queues in
      ground (arith, is_answered-append n x.answers (rejected {P = P} {R = R} gone), answered)
  step-answered n x grace_ends answered = answered

  run-answered :
      (n : ℕ) (es : List (Event P R)) (x : Executor P R)
      → is_answered n x.answers ≡ true
      → is_answered n (run sign l x es).answers ≡ true
  unfolding run
  run-answered n [] x answered = answered
  run-answered n (e ∷ es) x answered =
      run-answered n es (step sign l x e) (step-answered n x e answered)

  run-unanswered :
      (k s : String) (n : ℕ) (es : List (Event P R)) (x : Executor P R)
      → get k x.cache ≡ some (opened s n)
      → is_answered n (run sign l x es).answers ≡ false
      → get k (run sign l x es).cache ≡ some (opened s n)
  unfolding run
  run-unanswered k s n [] x found not_yet = found
  run-unanswered k s n (e ∷ es) x found not_yet = elim (step-Holds k s n x e found) [
    | inl answered ↦ absurd (let all = run-answered n es (step sign l x e) answered in cc)
    | inr still ↦ run-unanswered k s n es (step sign l x e) still.0 not_yet
  ]

  -- A request was accepted as action `n`, and then anything happened, but that action has no answer
  -- yet. Then a request with the same key starts nothing: it gets the promise of action `n` when its
  -- agent, action and payload have the same signature, a conflict otherwise, and only expired entries
  -- leave the cache.
  pub execute-execute :
      (now later n : ℕ) (agent action agent' action' : String) (p p' : P) (key : Option String)
      (x y : Executor P R) (es : List (Event P R))
      → execute sign l now agent action p key x ≡ (y, ok (accepted n))
      → is_answered n (run sign l y es).answers ≡ false
      → execute sign l later agent' action' p' key (run sign l y es) ≡ (
        record (run sign l y es) { cache = sweep later (run sign l y es).cache },
        if sign agent' action' p' =? sign agent action p
            then ok (replayed n)
            else err idempotency_conflict,
      )
  execute-execute now later n agent action agent' action' p p' key x y es e not_yet =
      let (entry, safe) = execute_entry sign l now n agent action p key x (ap (λ r. r.1) e) in
      execute_again sign l later n (sign agent action p) agent' action' p' key (run sign l y es)
        (run-unanswered (get_or key "") (sign agent action p) n es y (rw e at entry) not_yet) safe
