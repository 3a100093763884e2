-- ===== src/Adapters/Wire/Receive.antt =====
-- src/adapters/codex-websocket-wire.js: what the wire does with the bytes it is given, and its public
-- operations.
use agent_host.Common.{
  ℕ, zero, suc, ◌+◌, Option, none, some, List, [], ◌∷◌, ◌++◌, ltb, if◌then◌else◌, length, take,
  drop,
}
use agent_host.Common.Results.{Result, ok, err}
use agent_host.Adapters.Wire.{
  max_handshake_bytes, WireError, handshake_too_large, closed_in_handshake, not_open,
  already_started, idle, handshake, running, closed, pending, resolved, Wire, Host, fail, finish,
  reject, parse, wait, bad, frame, handle_frame, send_frame,
}
use agent_host.Adapters.Wire.Handshake.{index_of, check_response}

-- What happens to a wire: its owner calls `start`, `send` and `close`; the stream gives it bytes; the
-- stream ends or fails, or the handshake takes too long.
pub data Event : Type 0 where
  starting closing : Event
  receiving sending : List ℕ → Event
  failing : WireError → Event

module _ (h : Host) where
  -- `#consumeHandshake`, when the response ends at a byte.
  unfoldable pub finish_handshake : ℕ → Wire → Wire
  unfolding check_response
  finish_handshake at w = elim (check_response h (h.to_codes (take at w.buffer))) [
    | some e ↦ fail e w
    | none ↦ record w { buffer = drop (at + 4) w.buffer; phase = running; started = resolved }
  ]

  unfoldable pub consume_handshake : Wire → Wire
  unfolding index_of finish_handshake
  consume_handshake w = elim (index_of (13 ∷ 10 ∷ 13 ∷ 10 ∷ []) 0 w.buffer) [
    | none ↦ if ltb max_handshake_bytes (length w.buffer) then fail handshake_too_large w else w
    | some at ↦
        if ltb max_handshake_bytes (at + 4)
        then fail handshake_too_large w
        else finish_handshake at w
  ]

  -- The outcome of a frame, and whether the loop goes on.
  unfoldable pub after_frame : Wire → Result WireError Wire → Wire
  after_frame w (ok w') = w'
  after_frame w (err e) = fail e w

  -- `if (this.#state === "open")`, before something is done.
  unfoldable pub while_running : (Wire → Wire) → Wire → Wire
  while_running f w = elim w.phase [ running ↦ f w | _ ↦ w ]

  -- `#consumeFrames`, on fuel.
  unfoldable pub consume_frames : ℕ → Wire → Wire
  unfolding parse handle_frame after_frame while_running
  consume_frames zero w = w
  consume_frames (suc fuel) w = elim (parse h.max_payload_bytes w.fragment_bytes w.buffer) [
    | wait ↦ w
    | bad e ↦ fail e w
    | frame opcode fin payload rest ↦
        let w' = record w { buffer = rest } in
        while_running (consume_frames fuel) (after_frame w' (handle_frame h opcode fin payload w'))
  ]

  -- The frames of an open wire; each one takes two bytes at least.
  unfoldable pub consume_open : Wire → Wire
  unfolding consume_frames while_running
  consume_open w = while_running (consume_frames (length w.buffer)) w

  -- `#receive`
  unfoldable pub receive : List ℕ → Wire → Wire
  unfolding consume_handshake consume_open
  receive chunk w = elim w.phase [
    | closed ↦ w
    | handshake ↦ consume_open (consume_handshake (record w { buffer = w.buffer ++ chunk }))
    | _ ↦ consume_open (record w { buffer = w.buffer ++ chunk })
  ]

  unfoldable pub start : Wire → Wire × Option WireError
  start w = elim w.phase [
    | idle ↦ (
      record w {
        phase = handshake;
        started = pending;
        drawn = suc w.drawn;
        written = w.written ++ h.upgrade_request ∷ [];
      },
      none,
    )
    | _ ↦ (w, some already_started)
  ]

  unfoldable pub send : List ℕ → Wire → Wire × Option WireError
  unfolding send_frame
  send payload w = elim w.phase [
    | running ↦ (send_frame h 1 payload w, none)
    | _ ↦ (w, some not_open)
  ]

  unfoldable pub close : Wire → Wire
  unfolding send_frame
  close w =
      let said = elim w.phase as (λ _. Wire) [ running ↦ send_frame h 8 [] w | _ ↦ w ] in
      record (finish said) { started = reject closed_in_handshake w.started }

  unfoldable pub step : Event → Wire → Wire
  unfolding start send close receive
  step starting w = (start w).0
  step closing w = close w
  step (receiving chunk) w = receive chunk w
  step (sending payload) w = (send payload w).0
  step (failing e) w = fail e w

  unfoldable pub run : List Event → Wire → Wire
  unfolding step
  run [] w = w
  run (e ∷ es) w = run es (step e w)
