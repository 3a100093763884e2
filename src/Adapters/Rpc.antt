-- ===== src/Adapters/Rpc.antt =====
-- src/adapters/codex-rpc.js: the table of requests that wait for an answer. The process, its streams and
-- the JSON texts are not modelled: a message that arrives is the number in the identifier that it names.
pub mod Answered
use agent_host.Common.{
  ℕ, suc, ◌+◌, ◌≤◌, Bool, true, false, ◌&&◌, ◌||◌, not, Option, none, some, List, [], ◌∷◌, ◌++◌,
  ◌==◌, leb, ltb, if◌then◌else◌, filter, map, any, is_some,
}

pub record Pending : Type 0 where
  pub id : ℕ
  pub generation : ℕ

-- How the promise of a request ended.
pub data Outcome : Type 0 where
  resolved failed timed_out aborted write_failed disconnected : Outcome

pub record Settlement : Type 0 where
  pub id : ℕ
  pub outcome : Outcome

-- `settled` is how the promises ended, `disconnects` how often that state was emitted.
pub record Client : Type 0 where
  pub pending : List Pending
  pub next_id : ℕ
  pub started : Bool
  pub writable : Bool
  pub generation : ℕ
  pub settled : List Settlement
  pub disconnects : ℕ

abbrev pub initial : Client
initial = record {
  pending = [];
  next_id = 1;
  started = false;
  writable = false;
  generation = 0;
  settled = [];
  disconnects = 0;
}

-- `pending.delete(id)` with the promise's end, if the request still waits.
unfoldable pub settle : ℕ → Outcome → Client → Client
settle id outcome c =
    if any (λ (p : Pending). p.id == id) c.pending
    then record c {
      pending = filter (λ (p : Pending). not (p.id == id)) c.pending;
      settled = c.settled ++ record { id = id; outcome = outcome } ∷ [];
    }
    else c

-- `request` of a started client: whether the connection is the one expected, and whether the write throws.
unfoldable pub request : Option ℕ → Bool → Client → Client
unfolding settle
request expected writes c =
    if (elim expected [ none ↦ false | some g ↦ not c.started || not (c.generation == g) ])
    then c
    else (let waiting = record c {
      next_id = suc c.next_id;
      pending = c.pending ++ record { id = c.next_id; generation = c.generation } ∷ [];
    } in
        if c.writable && writes then waiting else settle c.next_id write_failed waiting)

-- The answer part of `#handleLine`.
unfoldable pub answer : ℕ → ℕ → Bool → Client → Client
unfolding settle
answer generation id succeeds c =
    if not (generation == c.generation)
      || not (any (λ (p : Pending). p.id == id && p.generation == generation) c.pending)
    then c
    else settle id (if succeeds then resolved else failed) c

abbrev pub all_settled : List Pending → List Settlement
all_settled [] = []
all_settled (p ∷ ps) = record { id = p.id; outcome = disconnected } ∷ all_settled ps

-- `#disconnect`
unfoldable pub disconnect : ℕ → Client → Client
disconnect generation c = if not (generation == c.generation) then c else record c {
  started = false;
  writable = false;
  pending = filter (λ (p : Pending). not (p.generation == generation)) c.pending;
  settled =
      c.settled ++ all_settled (filter (λ (p : Pending). p.generation == generation) c.pending);
  disconnects = if c.started then suc c.disconnects else c.disconnects;
}

-- `#startInternal`, when the process was spawned and its transport is ready.
unfoldable pub connect : Client → Client
connect c =
    if c.started
    then c
    else record c { generation = suc c.generation; writable = true; started = true }

pub data Event : Type 0 where
  connects : Event
  requests : Option ℕ → Bool → Event
  answers : ℕ → ℕ → Bool → Event
  times_out aborts disconnects_at : ℕ → Event

unfoldable pub step : Event → Client → Client
unfolding connect request answer settle disconnect
step connects c = connect c
step (requests expected writes) c = request expected writes c
step (answers generation id succeeds) c = answer generation id succeeds c
step (times_out id) c = settle id timed_out c
step (aborts id) c = settle id aborted c
step (disconnects_at generation) c = disconnect generation c

unfoldable pub run : List Event → Client → Client
unfolding step
run [] c = c
run (e ∷ es) c = run es (step e c)
