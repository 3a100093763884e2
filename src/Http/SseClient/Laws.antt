-- ===== src/Http/SseClient/Laws.antt =====
-- The buffer of an event-stream client over any history of sends, drains and closes.
use agent_host.Common.{
  ℕ, suc, ◌+◌, ◌-◌, ◌≤◌, ◌≡◌, refl, ap, ◌⊎◌, inl, inr, Bool, true, false, ◌||◌, not, List, [], ◌∷◌,
  ◌++◌, ltb, leb, arith, if◌then◌else◌, length, length-append, sum_of, sum_of-append, if-cases,
}
use agent_host.Http.SseClient.{Client, Limits, Drained, close, send, drain, drain_loop}

-- What happens to a client: a send with its heartbeat flag, the socket draining, a close.
pub data Event (A : Type 0) : Type 0 where
  sends : Bool → A → Bool → Event A
  drains : (ℕ → Bool) → Event A
  closes : Event A

module _ {A : Type 0} (byte_length : A → ℕ) (l : Limits) where
  -- The byte count is exact, the buffer is within both limits, only a blocked client buffers, and a
  -- closed one holds nothing and has ended its response.
  pub record IsBounded (c : Client A) : Type 0 where
    pub counted : c.pending_bytes ≡ sum_of byte_length c.pending
    pub few : length c.pending ≤ l.max_events
    pub small : c.pending_bytes ≤ l.max_bytes
    pub waits : (c.blocked ≡ true) ⊎ (c.pending ≡ [])
    pub finished : (c.closed ≡ false) ⊎ ((c.pending ≡ []) × (c.ended ≡ true))

  -- What was written and what is buffered is what was accepted, in its order, but for what a close
  -- gave up.
  pub record IsInOrder (c : Client A) (accepted : List A) : Type 0 where
    pub lost : List A
    pub order : (c.written ++ c.pending) ++ lost ≡ accepted
    pub kept : (lost ≡ []) ⊎ ((c.closed ≡ true) × (c.pending ≡ []))

  -- The client after an event, and the payloads that it accepted so far.
  unfoldable pub step : Client A × List A → Event A → Client A × List A
  step (c, accepted) (sends w p heartbeat) =
      let (c', taken) = send byte_length l w p heartbeat c in
      (c', if taken then accepted ++ p ∷ [] else accepted)
  step (c, accepted) (drains w) = (drain byte_length l w c, accepted)
  step (c, accepted) closes = (close byte_length l c, accepted)

  unfoldable pub run : Client A × List A → List (Event A) → Client A × List A
  unfolding step
  run s [] = s
  run s (e ∷ es) = run (step s e) es

  -- What the drain loop leaves of a buffer.
  pub record IsDrained (ps : List A) (bytes : ℕ) (d : Drained A) : Type 0 where
    pub split : d.out ++ d.rest ≡ ps
    pub counts : d.bytes ≡ sum_of byte_length (d.rest)
    pub shorter : length (d.rest) ≤ length ps
    pub smaller : d.bytes ≤ bytes
    pub waiting : (d.stuck ≡ true) ⊎ (d.rest ≡ [])

  pub drain_loop-IsDrained :
      (w : ℕ → Bool) (n : ℕ) (ps : List A) (bytes : ℕ)
      → bytes ≡ sum_of byte_length ps
      → IsDrained ps bytes (drain_loop byte_length l w n ps bytes)
  unfolding drain_loop
  drain_loop-IsDrained w n [] bytes e = record {
    split = refl;
    counts = e;
    shorter = omega arith;
    smaller = omega arith;
    waiting = inr refl;
  }
  drain_loop-IsDrained w n (p ∷ ps) bytes e =
      let ih = drain_loop-IsDrained w (suc n) ps (bytes - byte_length p) (ground arith) in
      if-cases (IsDrained (p ∷ ps) bytes) (w n) _ _
        (λ _. record {
          split = ap (λ z. p ∷ z) ih.split;
          counts = ih.counts;
          shorter = ground arith;
          smaller = ground arith;
          waiting = ih.waiting;
        })
        λ _. record {
          split = refl;
          counts = ground arith;
          shorter = ground arith;
          smaller = ground arith;
          waiting = inl refl;
        }

  pub close-IsBounded : (c : Client A) → IsBounded c → IsBounded (close byte_length l c)
  unfolding close
  close-IsBounded c b =
      if-cases IsBounded (c.closed) c _ (λ _. b)
        λ _. record {
          counted = refl;
          few = omega arith;
          small = omega arith;
          waits = inr refl;
          finished = inr (refl, refl);
        }

  pub send-IsBounded :
      (w : Bool) (p : A) (heartbeat : Bool) (c : Client A)
      → IsBounded c
      → IsBounded ((send byte_length l w p heartbeat c).0)
  unfolding send
  send-IsBounded w p heartbeat c b =
      let Kept = λ (r : Client A × Bool). IsBounded (r.0) in
      if-cases Kept (c.closed) _ _ (λ _. b)
        λ alive.
          if-cases Kept (not (c.blocked)) _ _
            (λ e. record {
              counted = b.counted;
              few = b.few;
              small = b.small;
              waits = ground arith;
              finished = b.finished;
            })
            λ e.
              if-cases Kept heartbeat _ _ (λ _. b)
                λ _.
                  if-cases Kept
                    (leb (l.max_events) (length (c.pending))
                      || ltb (l.max_bytes) (c.pending_bytes + byte_length p))
                    _ _
                    (λ _. close-IsBounded _ record {
                      counted = b.counted;
                      few = b.few;
                      small = b.small;
                      waits = b.waits;
                      finished = b.finished;
                    })
                    λ fits. record {
                      counted = ground (arith, sum_of-append byte_length (c.pending) (p ∷ []));
                      few = ground (arith, length-append (c.pending) (p ∷ []));
                      small = ground arith;
                      waits = inl (ground arith);
                      finished = inl alive;
                    }

  pub drain-IsBounded :
      (w : ℕ → Bool) (c : Client A) → IsBounded c → IsBounded (drain byte_length l w c)
  unfolding drain
  drain-IsBounded w c b =
      let d = drain_loop-IsDrained w 0 (c.pending) (c.pending_bytes) (b.counted) in
      if-cases IsBounded (c.closed) _ _ (λ _. b)
        λ alive. record {
          counted = d.counts;
          few = ground arith;
          small = ground arith;
          waits = d.waiting;
          finished = inl alive;
        }

  -- From a client of which it holds, as the initial one: whatever the socket accepts and whenever it
  -- drains, fails or closes, a client never buffers more
  -- than `max_events` payloads or `max_bytes` bytes, its byte count is the size of what it buffers, it
  -- buffers only while it is blocked, and once closed it buffers nothing and its response has ended.
  pub run-IsBounded :
      (es : List (Event A)) (c : Client A) (accepted : List A)
      → IsBounded c
      → IsBounded ((run (c, accepted) es).0)
  unfolding run step
  run-IsBounded [] c accepted b = b
  run-IsBounded (sends w p h ∷ es) c accepted b = run-IsBounded es _ _ (send-IsBounded w p h c b)
  run-IsBounded (drains w ∷ es) c accepted b = run-IsBounded es _ _ (drain-IsBounded w c b)
  run-IsBounded (closes ∷ es) c accepted b = run-IsBounded es _ _ (close-IsBounded c b)
