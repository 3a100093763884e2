-- ===== src/Http/SseClient/Delivery.antt =====
-- What an event-stream client writes is what it accepted, in order.
use agent_host.Common.{
  ℕ, ◌+◌, ◌≡◌, refl, sym, ap, ◌∙◌, inl, inr, Bool, ◌||◌, not, List, [], ◌∷◌, ◌++◌, ltb, leb, arith,
  if◌then◌else◌, length, if-cases,
}
use mathlib.Core.List.{append_assoc, append-nil}
use agent_host.Http.SseClient.{Client, Limits, close, send, drain}
use agent_host.Http.SseClient.Laws.{
  Event, sends, drains, closes, step, run, IsBounded, IsInOrder, drain_loop-IsDrained,
  send-IsBounded, drain-IsBounded, close-IsBounded,
}

module _ {A : Type 0} (byte_length : A → ℕ) (l : Limits) where
  close-IsInOrder :
      (c : Client A) (xs : List A)
      → IsInOrder byte_length l c xs
      → IsInOrder byte_length l (close byte_length l c) xs
  unfolding close
  close-IsInOrder c xs b =
      if-cases (λ c'. IsInOrder byte_length l c' xs) (c.closed) c _ (λ _. b)
        λ _. record {
          lost = c.pending ++ b.lost;
          order =
              ap (λ z. z ++ (c.pending ++ b.lost)) (append-nil (c.written))
              ∙ sym (append_assoc (c.written) (c.pending) (b.lost))
              ∙ b.order;
          kept = inr (refl, refl);
        }

  write_one :
      (ws ps lost xs : List A) (p : A)
      → ps ≡ []
      → lost ≡ []
      → (ws ++ ps) ++ lost ≡ xs
      → ((ws ++ p ∷ []) ++ ps) ++ lost ≡ xs ++ p ∷ []
  write_one ws ps lost xs p e f g = grind (
    arith,
    append-nil ws,
    append-nil (ws ++ ps),
    append-nil (ws ++ p ∷ []),
    append-nil ((ws ++ p ∷ []) ++ ps),
  )

  buffer_one :
      (ws ps lost xs : List A) (p : A)
      → lost ≡ []
      → (ws ++ ps) ++ lost ≡ xs
      → (ws ++ (ps ++ p ∷ [])) ++ lost ≡ xs ++ p ∷ []
  buffer_one ws ps lost xs p e g =
      grind (
        arith,
        append-nil (ws ++ ps),
        append-nil (ws ++ (ps ++ p ∷ [])),
        append_assoc ws ps (p ∷ []),
      )

  send-IsInOrder :
      (w : Bool) (p : A) (heartbeat : Bool) (c : Client A) (xs : List A)
      → IsBounded byte_length l c
      → IsInOrder byte_length l c xs
      → IsInOrder byte_length l
          ((step byte_length l (c, xs) (sends w p heartbeat)).0)
          ((step byte_length l (c, xs) (sends w p heartbeat)).1)
  unfolding step send
  send-IsInOrder w p heartbeat c xs ok b =
      let Kept =
        λ (r : Client A × Bool). IsInOrder byte_length l (r.0) (if r.1 then xs ++ p ∷ [] else xs) in
      if-cases Kept (c.closed) _ _ (λ _. b)
        λ alive.
          if-cases Kept (not (c.blocked)) _ _
            (λ e. record {
              lost = b.lost;
              order =
                  write_one (c.written) (c.pending) (b.lost) xs p (ground arith) (ground arith)
                    b.order;
              kept = inl (ground arith);
            })
            λ e.
              if-cases Kept heartbeat _ _ (λ _. b)
                λ _.
                  if-cases Kept
                    (leb (l.max_events) (length (c.pending))
                      || ltb (l.max_bytes) (c.pending_bytes + byte_length p))
                    _ _
                    (λ _.
                      close-IsInOrder _ xs record { lost = b.lost; order = b.order; kept = b.kept })
                    λ fits. record {
                      lost = b.lost;
                      order =
                          buffer_one (c.written) (c.pending) (b.lost) xs p (ground arith) b.order;
                      kept = inl (ground arith);
                    }

  drain-IsInOrder :
      (w : ℕ → Bool) (c : Client A) (xs : List A)
      → IsBounded byte_length l c
      → IsInOrder byte_length l c xs
      → IsInOrder byte_length l (drain byte_length l w c) xs
  unfolding drain
  drain-IsInOrder w c xs ok b =
      let d = drain_loop-IsDrained byte_length l w 0 (c.pending) (c.pending_bytes) (ok.counted) in
      if-cases (λ c'. IsInOrder byte_length l c' xs) (c.closed) _ _ (λ _. b)
        λ alive. record {
          lost = b.lost;
          order =
              ap (λ z. z ++ b.lost)
                (append_assoc (c.written) _ _ ∙ ap (λ z. c.written ++ z) d.split)
              ∙ b.order;
          kept = inl (ground arith);
        }

  -- From a client that is within its limits and in order, as the initial one: over any history of
  -- sends, drains and closes, what was written followed by what is buffered is
  -- exactly what `send` accepted, in that order, except for payloads that were buffered when the client
  -- closed: no payload is reordered, repeated or dropped while the client is open.
  pub run-IsInOrder :
      (es : List (Event A)) (c : Client A) (accepted : List A)
      → IsBounded byte_length l c
      → IsInOrder byte_length l c accepted
      → IsInOrder byte_length l
          ((run byte_length l (c, accepted) es).0)
          ((run byte_length l (c, accepted) es).1)
  unfolding run step
  run-IsInOrder [] c xs ok b = b
  run-IsInOrder (sends w p h ∷ es) c xs ok b =
      run-IsInOrder es _ _ (send-IsBounded byte_length l w p h c ok)
        (send-IsInOrder w p h c xs ok b)
  run-IsInOrder (drains w ∷ es) c xs ok b =
      run-IsInOrder es _ _ (drain-IsBounded byte_length l w c ok) (drain-IsInOrder w c xs ok b)
  run-IsInOrder (closes ∷ es) c xs ok b =
      run-IsInOrder es _ _ (close-IsBounded byte_length l c ok) (close-IsInOrder c xs b)
