-- ===== src/Adapters/Wire/Ended.antt =====
-- When the loop on the frames ends, and what a closed wire still does.
use agent_host.Common.{
  ℕ, ◌≤◌, ◌≡◌, refl, sym, ap, ◌∙◌, ◌⊎◌, inl, inr, List, [], ◌∷◌, arith, length, String,
}
use mathlib.Core.Path.{subst}
use agent_host.Adapters.Wire.{WireError, running, closed, Wire, Host, fail, finish, wait, parse}
use agent_host.Adapters.Wire.Receive.{
  Event, starting, closing, receiving, sending, failing, step, run, receive, start, send, close,
  consume_frames, consume_open, while_running,
}
use agent_host.Adapters.Wire.Chunks.{live, settle, consume_frames-fuel}

-- What a wire has told its owner and the socket.
abbrev pub Outward : Type 0
Outward = List (List ℕ) × List String × List WireError × ℕ

abbrev pub outward : Wire → Outward
outward w = (w.written, w.messages, w.errors, w.closes)

module _ (h : Host) where
  ends_at :
      (x : List ℕ) (w : Wire)
      → let v = consume_open h (live x w) in
        (v.phase ≡ closed) ⊎ (parse h.max_payload_bytes v.fragment_bytes v.buffer ≡ wait)
  unfolding consume_open while_running
  ends_at x w = elim (settle h (length x) x w (omega arith)) [
    | inl s ↦ inr (
        subst (λ (v : Wire). parse h.max_payload_bytes v.fragment_bytes v.buffer ≡ wait)
          (sym s.is_live) s.more_wanted)
    | inr s ↦ inl (ap (λ (v : Wire). v.phase) s.is_dead)
  ]

  -- On an open wire the loop on the frames ends within as many rounds as there are bytes, more rounds
  -- change nothing, and then the wire is closed or what is left is no whole frame.
  pub consume_frames-ends :
      (n : ℕ) (w : Wire)
      → w.phase ≡ running
      → length w.buffer ≤ n
      → (consume_frames h n w ≡ consume_open h w)
        × (((consume_open h w).phase ≡ closed)
            ⊎ (parse h.max_payload_bytes (consume_open h w).fragment_bytes (consume_open h w).buffer
                ≡ wait))
  unfolding consume_open while_running
  consume_frames-ends n w r le =
      let open_wire : w ≡ live w.buffer w = ap (λ p. record w { phase = p }) r in
      subst
        (λ (z : Wire).
          (consume_frames h n z ≡ consume_open h z)
          × (((consume_open h z).phase ≡ closed)
              ⊎ (parse h.max_payload_bytes (consume_open h z).fragment_bytes
                    (consume_open h z).buffer
                  ≡ wait)))
        (sym open_wire)
        (consume_frames-fuel h n (length w.buffer) w.buffer w le (omega arith), ends_at w.buffer w)

  closed_step :
      (e : Event) (w : Wire)
      → let w' = record w { phase = closed } in
        ((step h e w').phase ≡ closed) × (outward (step h e w') ≡ outward w')
  unfolding step start send close receive fail finish
  closed_step starting w = (refl, refl)
  closed_step closing w = (refl, refl)
  closed_step (receiving chunk) w = (refl, refl)
  closed_step (sending payload) w = (refl, refl)
  closed_step (failing e) w = (refl, refl)

  -- A closed wire stays closed: whatever happens, it writes nothing, delivers no message and reports
  -- neither an error nor an end.
  pub run-closed :
      (es : List Event) (w : Wire)
      → w.phase ≡ closed
      → ((run h es w).phase ≡ closed) × (outward (run h es w) ≡ outward w)
  unfolding run
  run-closed [] w c = (c, refl)
  run-closed (e ∷ es) w c =
      let closed_wire : w ≡ record w { phase = closed } = ap (λ p. record w { phase = p }) c in
      let one =
        subst (λ (z : Wire). ((step h e z).phase ≡ closed) × (outward (step h e z) ≡ outward z))
          (sym closed_wire) (closed_step e w) in
      let rest = run-closed es (step h e w) one.0 in (rest.0, rest.1 ∙ one.1)
