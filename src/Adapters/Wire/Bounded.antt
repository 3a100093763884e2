-- ===== src/Adapters/Wire/Bounded.antt =====
-- What a wire holds of an unfinished message, over any history.
use agent_host.Common.{
  ℕ, zero, suc, ◌+◌, ◌≡◌, refl, inl, inr, List, [], ◌∷◌, ◌++◌, arith, length, ltb, if-cases,
  Option-cases, take,
}
use mathlib.Core.Path.{subst}
use agent_host.Common.Results.{Result, ok, err}
use agent_host.Adapters.Wire.{
  WireError, Phase, running, closed, idle, handshake, Wire, Host, finish, send_frame,
  max_handshake_bytes, handshake_too_large, parse, handle_frame, initial,
}
use agent_host.Adapters.Wire.Handshake.{check_response, index_of}
use agent_host.Adapters.Wire.Receive.{
  Event, starting, closing, receiving, sending, failing, step, run, receive, start, send, close,
  consume_frames, consume_open, consume_handshake, finish_handshake, while_running, after_frame,
}
use agent_host.Adapters.Wire.Parse.{Parsed-cases}
use agent_host.Adapters.Wire.Held.{
  HoldsWithin, Fits, parse-Fits, Good, fail-HoldsWithin, running_bounded, handle_frame-Good,
}

module _ (h : Host) where
  after_frame-HoldsWithin :
      (w : Wire) (r : Result WireError Wire)
      → HoldsWithin h w
      → Good h r
      → HoldsWithin h (after_frame h w r)
  unfolding after_frame
  after_frame-HoldsWithin w (ok w') b g = g
  after_frame-HoldsWithin w (err e) b g = fail-HoldsWithin h e w b

  while_running-HoldsWithin :
      (f : Wire → Wire) (w : Wire)
      → HoldsWithin h w
      → ((v : Wire) → v.phase ≡ running → HoldsWithin h v → HoldsWithin h (f v))
      → HoldsWithin h (while_running h f w)
  unfolding while_running
  while_running-HoldsWithin f w b g = at_phase w.phase b
    where
      at_phase :
          (p : Phase)
          → HoldsWithin h (record w { phase = p })
          → HoldsWithin h (while_running h f (record w { phase = p }))
      at_phase running b = g (record w { phase = running }) refl b
      at_phase closed b = b
      at_phase idle b = b
      at_phase handshake b = b

  consume_frames-HoldsWithin :
      (n : ℕ) (w : Wire)
      → w.phase ≡ running
      → HoldsWithin h w
      → HoldsWithin h (consume_frames h n w)
  unfolding consume_frames
  consume_frames-HoldsWithin zero w r b = b
  consume_frames-HoldsWithin (suc n) w r b =
      let read = parse h.max_payload_bytes w.fragment_bytes w.buffer in
      elim (Parsed-cases read) [
        | inl e ↦ rw (consume_frames, e) b
        | inr (inl (why, e)) ↦ rw (consume_frames, e) (fail-HoldsWithin h why w b)
        | inr (inr (opcode, fin, payload, rest, e)) ↦
            let fits =
              subst (Fits h.max_payload_bytes w.fragment_bytes) e
                (parse-Fits h.max_payload_bytes w.fragment_bytes w.buffer) in
            let w' = record w { buffer = rest } in
            let b' = running_bounded h w' r b.counted b.within in
            rw (consume_frames, e)
              (while_running-HoldsWithin (consume_frames h n)
                (after_frame h w' (handle_frame h opcode fin payload w'))
                (after_frame-HoldsWithin w' (handle_frame h opcode fin payload w') b'
                  (handle_frame-Good h opcode fin payload w' r b' fits.0 fits.1))
                (consume_frames-HoldsWithin n))
      ]

  consume_open-HoldsWithin : (w : Wire) → HoldsWithin h w → HoldsWithin h (consume_open h w)
  unfolding consume_open
  consume_open-HoldsWithin w b =
      while_running-HoldsWithin (consume_frames h (length w.buffer)) w b
        (consume_frames-HoldsWithin (length w.buffer))

  finish_handshake-HoldsWithin :
      (at : ℕ) (w : Wire) → HoldsWithin h w → HoldsWithin h (finish_handshake h at w)
  unfolding finish_handshake
  finish_handshake-HoldsWithin at w b =
      elim (Option-cases (check_response h (h.to_codes (take at w.buffer)))) [
        | inl e ↦
            rw (finish_handshake, e)
              record { counted = b.counted; within = b.within; released = tt }
        | inr (why, e) ↦ rw (finish_handshake, e) (fail-HoldsWithin h why w b)
      ]

  consume_handshake-HoldsWithin :
      (w : Wire) → HoldsWithin h w → HoldsWithin h (consume_handshake h w)
  unfolding consume_handshake
  consume_handshake-HoldsWithin w b =
      elim (Option-cases (index_of (13 ∷ 10 ∷ 13 ∷ 10 ∷ []) 0 w.buffer)) [
        | inl e ↦
            rw (consume_handshake, e)
              (if-cases (HoldsWithin h) (ltb max_handshake_bytes (length w.buffer)) _ _
                (λ _. fail-HoldsWithin h handshake_too_large w b) λ _. b)
        | inr (at, e) ↦
            rw (consume_handshake, e)
              (if-cases (HoldsWithin h) (ltb max_handshake_bytes (at + 4)) _ _
                (λ _. fail-HoldsWithin h handshake_too_large w b)
                λ _. finish_handshake-HoldsWithin at w b)
      ]

  receive-HoldsWithin :
      (chunk : List ℕ) (w : Wire) → HoldsWithin h w → HoldsWithin h (receive h chunk w)
  unfolding receive
  receive-HoldsWithin chunk w b = at_phase w.phase b
    where
      at_phase :
          (p : Phase)
          → HoldsWithin h (record w { phase = p })
          → HoldsWithin h (receive h chunk (record w { phase = p }))
      at_phase closed b = b
      at_phase idle b =
          consume_open-HoldsWithin (record w { phase = idle; buffer = w.buffer ++ chunk })
            record { counted = b.counted; within = b.within; released = tt }
      at_phase handshake b =
          let w' = record w { phase = handshake; buffer = w.buffer ++ chunk } in
          consume_open-HoldsWithin (consume_handshake h w') (
            consume_handshake-HoldsWithin w'
              record { counted = b.counted; within = b.within; released = tt })
      at_phase running b =
          consume_open-HoldsWithin (record w { phase = running; buffer = w.buffer ++ chunk })
            record { counted = b.counted; within = b.within; released = tt }

  step-HoldsWithin : (e : Event) (w : Wire) → HoldsWithin h w → HoldsWithin h (step h e w)
  unfolding step start send close send_frame finish
  step-HoldsWithin (receiving chunk) w b = receive-HoldsWithin chunk w b
  step-HoldsWithin (failing e) w b = fail-HoldsWithin h e w b
  step-HoldsWithin starting w b = at_phase w.phase b
    where
      at_phase :
          (p : Phase)
          → HoldsWithin h (record w { phase = p })
          → HoldsWithin h ((start h (record w { phase = p })).0)
      at_phase idle b = record { counted = b.counted; within = b.within; released = tt }
      at_phase handshake b = b
      at_phase running b = b
      at_phase closed b = b
  step-HoldsWithin (sending payload) w b = at_phase w.phase b
    where
      at_phase :
          (p : Phase)
          → HoldsWithin h (record w { phase = p })
          → HoldsWithin h ((send h payload (record w { phase = p })).0)
      at_phase running b = record { counted = b.counted; within = b.within; released = tt }
      at_phase handshake b = b
      at_phase idle b = b
      at_phase closed b = b
  step-HoldsWithin closing w b = at_phase w.phase b
    where
      at_phase :
          (p : Phase)
          → HoldsWithin h (record w { phase = p })
          → HoldsWithin h (close h (record w { phase = p }))
      at_phase closed b = record { counted = b.counted; within = b.within; released = b.released }
      at_phase running b = record { counted = refl; within = omega arith; released = (refl, refl) }
      at_phase idle b = record { counted = refl; within = omega arith; released = (refl, refl) }
      at_phase handshake b = record {
        counted = refl;
        within = omega arith;
        released = (refl, refl);
      }

  run-HoldsWithin_from : (es : List Event) (w : Wire) → HoldsWithin h w → HoldsWithin h (run h es w)
  unfolding run
  run-HoldsWithin_from [] w b = b
  run-HoldsWithin_from (e ∷ es) w b = run-HoldsWithin_from es (step h e w) (step-HoldsWithin e w b)

  -- Over every history of a new wire the bytes of the fragments are counted exactly and are within the
  -- bound, and a closed wire holds neither bytes nor fragments.
  pub run-HoldsWithin : (es : List Event) → HoldsWithin h (run h es initial)
  run-HoldsWithin es =
      run-HoldsWithin_from es initial record { counted = refl; within = omega arith; released = tt }
