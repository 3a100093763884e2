-- ===== src/Tests/Http.antt =====
-- An event-stream client with room for two payloads, and an executor with two actions of one agent.
use agent_host.Common.{
  ℕ, ◌≡◌, refl, inl, inr, String, true, false, some, List, [], ◌∷◌, arith, idempotency_key,
  if◌then◌else◌, ◌=?◌,
}
use agent_host.Common.Maps.{total, get, set, delete}
use agent_host.Common.Results.{ok, err}
use agent_host.Http.SseClient
use agent_host.Http.SseClient.{Client, drain}
use agent_host.Http.SseClient.Laws.{
  Event, sends, drains, closes, IsBounded, IsInOrder, run-IsBounded,
}
use agent_host.Http.SseClient.Delivery.{run-IsInOrder}
use agent_host.Http.SseClient.Laws
use agent_host.Http.ActionExecutor
use agent_host.Http.ActionExecutor.{
  Executor, accepted, replayed, idempotency_conflict, execute, sweep, returned,
}
use agent_host.Http.ActionExecutor.Queues.{executes, finishes, shuts_down}
use agent_host.Http.ActionExecutor.Queues
use agent_host.Http.ActionExecutor.Admission.{IsRunning}
use agent_host.Http.ActionExecutor.Serial.{run-IsRunning}
use agent_host.Http.ActionExecutor.Entries.{is_answered}
use agent_host.Http.ActionExecutor.Unsettled.{execute-execute}

abbrev small : SseClient.Limits
small = record { max_events = 2; max_bytes = 10 }

abbrev size : ℕ → ℕ
size n = n

initial-IsBounded : IsBounded size small (SseClient.initial {A = ℕ})
initial-IsBounded = record {
  counted = refl;
  few = omega arith;
  small = omega arith;
  waits = inr refl;
  finished = inl refl;
}

abbrev events : List (Event ℕ)
events =
    sends false 1 false
    ∷ sends true 4 false
    ∷ sends true 5 true
    ∷ drains (λ n. true)
    ∷ sends true 3 false
    ∷ closes
    ∷ []

run-IsBounded_example : IsBounded size small (Laws.run size small (SseClient.initial, []) events).0
run-IsBounded_example = run-IsBounded size small events SseClient.initial [] initial-IsBounded

run-IsInOrder_example :
    IsInOrder size small
      (Laws.run size small (SseClient.initial, []) events).0
      (Laws.run size small (SseClient.initial, []) events).1
run-IsInOrder_example =
    run-IsInOrder size small events SseClient.initial [] initial-IsBounded
      record { lost = []; order = refl; kept = inl refl }

abbrev sign : String → String → ℕ → String
sign agent action payload = action

abbrev limits : ActionExecutor.Limits
limits = record { ttl_ms = 1000; per_agent_limit = 2; global_limit = 3 }

abbrev idle : Executor ℕ ℕ
idle = ActionExecutor.initial

idle-IsRunning : IsRunning limits idle
unfolding total
idle-IsRunning = record {
  lines = record { keys = tt; each = tt };
  heads = tt;
  counted = refl;
  bounded = omega arith;
  cached = omega arith;
  answered = refl;
}

abbrev history : List (Queues.Event ℕ ℕ)
history =
    executes 0 "agent" "prompt" 1 (some "key-00001")
    ∷ executes 1 "agent" "focus" 2 (some "key-00002")
    ∷ finishes 2 0 (returned true 7)
    ∷ shuts_down 3
    ∷ []

run-IsRunning_example : IsRunning limits (Queues.run sign limits idle history)
run-IsRunning_example = run-IsRunning sign limits history idle (omega arith) idle-IsRunning

abbrev after_one : Executor ℕ ℕ
after_one = (execute sign limits 0 "agent" "prompt" 1 (some "key-00001") idle).0

accepts :
    execute sign limits 0 "agent" "prompt" 1 (some "key-00001") idle ≡ (after_one, ok (accepted 0))
unfolding execute idempotency_key get
accepts = refl

-- Meanwhile another agent's action is accepted and ends.
abbrev meanwhile : List (Queues.Event ℕ ℕ)
meanwhile = executes 1 "other" "prompt" 2 (some "key-00003") ∷ finishes 2 1 (returned true 7) ∷ []

no_answer : is_answered 0 (Queues.run sign limits after_one meanwhile).answers ≡ false
unfolding execute idempotency_key get set delete ActionExecutor.expired ActionExecutor.finish
    Queues.run
no_answer = refl

execute-execute_example :
    execute sign limits 5 "agent" "focus" 1
      (some "key-00001")
      (Queues.run sign limits after_one meanwhile)
    ≡ (
      record (Queues.run sign limits after_one meanwhile) {
        cache = sweep 5 (Queues.run sign limits after_one meanwhile).cache;
      },
      if sign "agent" "focus" 1 =? sign "agent" "prompt" 1
          then ok (replayed 0)
          else err idempotency_conflict,
    )
execute-execute_example =
    execute-execute sign limits 0 5 0 "agent" "prompt" "agent" "focus" 1 1 (some "key-00001") idle
      after_one meanwhile accepts no_answer
