-- ===== src/Http/ActionExecutor/Serial.antt =====
-- Over any history the queues of the executor are serial, its counts exact and its bounds kept.
use agent_host.Common.{
  ℕ, ◌≤◌, ◌≡◌, String, some, List, [], ◌∷◌, ◌==◌, find, Option-cases, inl, inr, Bool-cases, All,
}
use agent_host.Common.Maps.{Map}
use agent_host.Http.ActionExecutor.{Limits, Item, Race, Executor}
use mathlib.Core.Path.{subst}
use agent_host.Http.ActionExecutor.Queues.{
  Event, executes, finishes, shuts_down, grace_ends, finish_found, step, run, IsHead,
}
use agent_host.Http.ActionExecutor.Admission.{IsRunning, execute-IsRunning}
use agent_host.Http.ActionExecutor.Ending.{
  finish-IsRunning, shutdown-IsRunning, abort_active-IsRunning,
}

find-IsHead :
    {P : Type 0} (id : ℕ) (i : Item P) (m : Map (List (Item P))) (act : List (Item P))
    → All (IsHead m) act
    → find (λ j. j.id == id) act ≡ some i
    → IsHead m i
find-IsHead id i m [] h e = absurd (cc)
find-IsHead id i m (j ∷ act) h e = elim (Bool-cases (j.id == id)) [
  | inl f ↦ subst (IsHead m) (let here : some j ≡ some i = rw f at e in cc) h.0
  | inr f ↦ find-IsHead id i m act h.1 (rw f at e)
]

module _ {P R : Type 0} (sign : String → String → P → String) (l : Limits) where
  finishes-IsRunning :
      (now id : ℕ) (race : Race R) (x : Executor P R)
      → IsRunning l x
      → IsRunning l (finish_found l now race (find (λ i. i.id == id) x.active) x)
  finishes-IsRunning now id race x h = elim (Option-cases (find (λ i. i.id == id) x.active)) [
    | inl e ↦ rw e h
    | inr (i, e) ↦ rw e (
        finish-IsRunning l (l.ttl_ms) now i race x (find-IsHead id i x.queues x.active h.heads e) h)
  ]

  -- From any state of which it holds, as the initial one, over any history of requests, ends of
  -- actions, shutdowns and ends of grace, with a positive limit per agent: the head of each agent's queue runs and nothing else of it does, every active
  -- action is the head of its agent's queue, queues, total and cache stay within their limits, the
  -- queue count is exact, and the accepted actions are as many as the answered and the queued ones.
  pub run-IsRunning :
      (es : List (Event P R)) (x : Executor P R)
      → 1 ≤ l.per_agent_limit
      → IsRunning l x
      → IsRunning l (run sign l x es)
  unfolding run step
  run-IsRunning [] x one h = h
  run-IsRunning (executes now agent action p key ∷ es) x one h =
      run-IsRunning es _ one (execute-IsRunning l one sign now agent action p key x h)
  run-IsRunning (finishes now id race ∷ es) x one h =
      run-IsRunning es _ one (finishes-IsRunning now id race x h)
  run-IsRunning (shuts_down now ∷ es) x one h =
      run-IsRunning es _ one (shutdown-IsRunning l l.ttl_ms now x h)
  run-IsRunning (grace_ends ∷ es) x one h = run-IsRunning es _ one (abort_active-IsRunning l x h)
