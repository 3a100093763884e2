-- ===== src/Http/SseClient.antt =====
-- src/http/sse-client.js: one client of the event stream, with a bounded buffer behind a response
-- that may refuse more data. Whether `response.write` returns true is the environment's choice: an
-- argument of `send`, and a function of the number of writes so far for `#drain`.
pub mod Laws
pub mod Delivery
use agent_host.Common.{
  ℕ, suc, ◌+◌, ◌-◌, ◌*◌, Bool, true, false, ◌||◌, not, List, [], ◌∷◌, ◌++◌, ltb, leb, if◌then◌else◌,
  length,
}

abbrev pub max_sse_pending_events : ℕ
max_sse_pending_events = 64

abbrev pub max_sse_pending_bytes : ℕ
max_sse_pending_bytes = 256 * 1024

pub record Limits : Type 0 where
  pub max_events : ℕ
  pub max_bytes : ℕ

abbrev pub default_limits : Limits
default_limits = record { max_events = 64; max_bytes = 262_144 }

-- `written` is what `response.write` was given, `depth` the last number passed to `onDepth`.
pub record Client (A : Type 0) : Type 0 where
  pub pending : List A
  pub pending_bytes : ℕ
  pub blocked : Bool
  pub closed : Bool
  pub written : List A
  pub ended : Bool
  pub depth : ℕ
  pub overflows : ℕ

abbrev pub initial : {A : Type 0} → Client A
initial = record {
  pending = [];
  pending_bytes = 0;
  blocked = false;
  closed = false;
  written = [];
  ended = false;
  depth = 0;
  overflows = 0;
}

-- What the drain loop comes to.
pub record Drained (A : Type 0) : Type 0 where
  pub out : List A
  pub rest : List A
  pub bytes : ℕ
  pub stuck : Bool

-- `Buffer.byteLength` of a payload is the host's.
module _ {A : Type 0} (byte_length : A → ℕ) (l : Limits) where
  unfoldable pub close : Client A → Client A
  close c =
      if c.closed
      then c
      else record c { closed = true; pending = []; pending_bytes = 0; depth = 0; ended = true }

  unfoldable pub send : Bool → A → Bool → Client A → Client A × Bool
  unfolding close
  send writable payload heartbeat c =
      if c.closed
      then (c, false)
      else if not c.blocked
      then (record c { written = c.written ++ payload ∷ []; blocked = not writable }, true)
      else if heartbeat
      then (c, false)
      else if leb l.max_events (length c.pending)
          || ltb l.max_bytes (c.pending_bytes + byte_length payload)
      then (close (record c { overflows = suc c.overflows }), false)
      else (
        record c {
          pending = c.pending ++ payload ∷ [];
          pending_bytes = c.pending_bytes + byte_length payload;
          depth = suc (length c.pending);
        },
        true,
      )

  -- The `while` loop of `#drain`, after `n` writes.
  unfoldable pub drain_loop : (ℕ → Bool) → ℕ → List A → ℕ → Drained A
  drain_loop writable n [] bytes = record { out = []; rest = []; bytes = bytes; stuck = false }
  drain_loop writable n (p ∷ ps) bytes =
      let more = drain_loop writable (suc n) ps (bytes - byte_length p) in
      if writable n
      then record more { out = p ∷ more.out }
      else record { out = p ∷ []; rest = ps; bytes = bytes - byte_length p; stuck = true }

  unfoldable pub drain : (ℕ → Bool) → Client A → Client A
  unfolding drain_loop
  drain writable c =
      let d = drain_loop writable 0 c.pending c.pending_bytes in
      if c.closed then c else record c {
        blocked = d.stuck;
        pending = d.rest;
        pending_bytes = d.bytes;
        written = c.written ++ d.out;
        depth = length d.rest;
      }
