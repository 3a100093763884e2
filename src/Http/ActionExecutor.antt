-- ===== src/Http/ActionExecutor.antt =====
-- src/http/action-executor.js: the per-agent action queues and the idempotency cache. A promise is the
-- number of the action that made it, in the order of the accepted ones; `answers` lists the calls of
-- `resolve` and `reject`, `aborted` those of `controller.abort`. The SHA-256 of the JSON text of a
-- request is a function of the host, and `registry.action` a `Race` that an event brings.
pub mod Queues
pub mod Kept
pub mod Admission
pub mod Ending
pub mod Serial
pub mod Replay
pub mod Entries
pub mod Unsettled
use agent_host.Common.{
  ℕ, suc, ◌+◌, ◌-◌, String, Bool, true, false, ◌||◌, ◌&&◌, not, Option, none, some, List, [], ◌∷◌,
  ◌++◌, map, leb, ◌==◌, ◌=?◌, if◌then◌else◌, length, is_empty, filter, get_or, idempotency_key,
}
use agent_host.Common.Maps.{Map, get, set, delete}
use agent_host.Common.Results.{Result, ok, err}

abbrev pub max_idempotency_entries : ℕ
max_idempotency_entries = 1000

pub record Limits : Type 0 where
  pub ttl_ms : ℕ
  pub per_agent_limit : ℕ
  pub global_limit : ℕ

abbrev pub default_limits : Limits
default_limits = record { ttl_ms = 300_000; per_agent_limit = 32; global_limit = 256 }

pub record Item (P : Type 0) : Type 0 where
  pub id : ℕ
  pub agent_id : String
  pub action : String
  pub payload : P
  pub started : Bool

pub record Entry : Type 0 where
  pub signature : String
  pub promise : ℕ
  pub settled : Bool
  pub expires_at : ℕ

pub data ActionError : Type 0 where
  invalid_idempotency_key idempotency_conflict shutting_down : ActionError
  idempotency_cache_full queue_full action_timeout adapter_error : ActionError

-- What ends an action: its result with its `ok` flag, an exception of the registry, or the deadline.
pub data Race (R : Type 0) : Type 0 where
  returned : Bool → R → Race R
  threw : Race R
  deadline : Race R

-- The `outcome` label of the latency metric.
pub data Label : Type 0 where
  success failure timeout : Label

pub data Reply : Type 0 where
  accepted replayed : ℕ → Reply

pub record Executor (P R : Type 0) : Type 0 where
  pub cache : Map Entry
  pub queues : Map (List (Item P))
  pub active : List (Item P)
  pub queued : ℕ
  pub draining : Bool
  pub next_id : ℕ
  pub answers : List (ℕ × Result ActionError R)
  pub aborted : List ℕ
  pub latencies : List Label

abbrev pub initial : {P R : Type 0} → Executor P R
initial = record {
  cache = [];
  queues = [];
  active = [];
  queued = 0;
  draining = false;
  next_id = 0;
  answers = [];
  aborted = [];
  latencies = [];
}

-- The loop that forgets settled entries whose time is over.
unfoldable pub expired : ℕ → Entry → Bool
expired now e = e.settled && leb (e.expires_at) now

unfoldable pub sweep : ℕ → Map Entry → Map Entry
sweep now [] = []
sweep now ((k, e) ∷ m) = if expired now e then sweep now m else (k, e) ∷ sweep now m

-- The `promise.finally` callback of an entry.
unfoldable pub settle : ℕ → ℕ → Map Entry → Map Entry
settle id expires [] = []
settle id expires ((k, e) ∷ m) =
    (k, if e.promise == id then record e { settled = true; expires_at = expires } else e)
    ∷ settle id expires m

-- The entries of items that are rejected together.
unfoldable pub settle_items : {P : Type 0} → List (Item P) → ℕ → Map Entry → Map Entry
unfolding settle
settle_items [] expires m = m
settle_items (i ∷ r) expires m = settle i.id expires (settle_items r expires m)

unfoldable pub shifted : {P : Type 0} → ℕ → List (Item P) → List (Item P)
shifted id [] = []
shifted id (i ∷ r) = if i.id == id then r else i ∷ r

unfoldable pub answer : {R : Type 0} → Race R → Result ActionError R
answer (returned fine r) = ok r
answer threw = err adapter_error
answer deadline = err action_timeout

unfoldable pub label : {R : Type 0} → Race R → Label
label (returned fine r) = if fine then success else failure
label threw = failure
label deadline = timeout

unfoldable pub aborts : {R : Type 0} → Race R → ℕ → List ℕ
aborts (returned fine r) id = []
aborts threw id = []
aborts deadline id = id ∷ []

-- `shutdown` up to its wait: what has not started is rejected, queue by queue.
unfoldable pub kept_queues : {P : Type 0} → Map (List (Item P)) → Map (List (Item P))
kept_queues [] = []
kept_queues ((agent, q) ∷ m) =
    let rest = filter (λ i. i.started) q in
    if is_empty rest then kept_queues m else (agent, rest) ∷ kept_queues m

unfoldable pub pending_items : {P : Type 0} → Map (List (Item P)) → List (Item P)
pending_items [] = []
pending_items ((agent, q) ∷ m) = filter (λ i. not i.started) q ++ pending_items m

module _ {P R : Type 0} where
  unfoldable pub pump_queue : String → Option (List (Item P)) → Executor P R → Executor P R
  pump_queue agent none x = x
  pump_queue agent (some []) x = x
  pump_queue agent (some (i ∷ r)) x = if i.started then x else record x {
    queues = set agent (record i { started = true } ∷ r) x.queues;
    active = x.active ++ record i { started = true } ∷ [];
  }

  unfoldable pub pump : String → Executor P R → Executor P R
  unfolding pump_queue
  pump agent x = pump_queue agent (get agent x.queues) x

  -- The `finally` of a started action.
  unfoldable pub release : Item P → Executor P R → Executor P R
  unfolding pump shifted
  release i x =
      let current = shifted (i.id) (get_or (get (i.agent_id) x.queues) []) in
      pump (i.agent_id) record x {
        active = filter (λ j. not (j.id == i.id)) x.active;
        queues =
            if is_empty current
            then delete (i.agent_id) x.queues
            else set (i.agent_id) current x.queues;
        queued = x.queued - 1;
      }

  -- The end of a started action: its answer, the entry that settles, and the `finally` above.
  unfoldable pub finish : ℕ → ℕ → Item P → Race R → Executor P R → Executor P R
  unfolding answer label aborts settle release
  finish ttl now i race x = release i record x {
    answers = x.answers ++ (i.id, answer race) ∷ [];
    aborted = x.aborted ++ aborts race (i.id);
    latencies = x.latencies ++ label race ∷ [];
    cache = settle (i.id) (now + ttl) x.cache;
  }

  unfoldable pub rejected : List (Item P) → List (ℕ × Result ActionError R)
  rejected [] = []
  rejected (i ∷ r) = (i.id, err shutting_down) ∷ rejected r

  unfoldable pub shutdown : ℕ → ℕ → Executor P R → Executor P R
  unfolding kept_queues pending_items rejected settle_items
  shutdown ttl now x = record x {
    draining = true;
    queues = kept_queues x.queues;
    queued = x.queued - length (pending_items x.queues);
    answers = x.answers ++ rejected (pending_items x.queues);
    cache = settle_items (pending_items x.queues) (now + ttl) x.cache;
  }

  -- `shutdown` when its grace time is over.
  unfoldable pub abort_active : Executor P R → Executor P R
  abort_active x = record x { aborted = x.aborted ++ map (λ i. i.id) x.active }

  -- An action that passed every check.
  unfoldable pub enqueue : String → String → String → P → String → Executor P R → Executor P R
  unfolding pump
  enqueue signature agent action payload key x =
      let item : Item P = record {
        id = x.next_id;
        agent_id = agent;
        action = action;
        payload = payload;
        started = false;
      } in
      pump agent record x {
        queues = set agent (get_or (get agent x.queues) [] ++ item ∷ []) x.queues;
        queued = suc x.queued;
        next_id = suc x.next_id;
        cache =
            set key
              record { signature = signature; promise = x.next_id; settled = false; expires_at = 0 }
              x.cache;
      }

  unfoldable pub admit :
      Limits
      → String
      → String
      → String
      → P
      → String
      → Option Entry
      → Executor P R
      → Executor P R × Result ActionError Reply
  unfolding enqueue
  admit l signature agent action payload key (some e) x =
      if not (e.signature =? signature)
      then (x, err idempotency_conflict)
      else (x, ok (replayed e.promise))
  admit l signature agent action payload key none x =
      if x.draining
      then (x, err shutting_down)
      else if leb max_idempotency_entries (length x.cache)
      then (x, err idempotency_cache_full)
      else if leb (l.per_agent_limit) (length (get_or (get agent x.queues) []))
          || leb (l.global_limit) x.queued
      then (x, err queue_full)
      else (enqueue signature agent action payload key x, ok (accepted x.next_id))

  unfoldable pub execute :
      (String → String → P → String)
      → Limits
      → ℕ
      → String
      → String
      → P
      → Option String
      → Executor P R
      → Executor P R × Result ActionError Reply
  unfolding sweep admit
  execute sign l now agent action payload key x =
      let text = get_or key "" in
      let swept = record x { cache = sweep now x.cache } in
      if not (idempotency_key text)
      then (x, err invalid_idempotency_key)
      else admit l (sign agent action payload) agent action payload text (get text swept.cache)
          swept
