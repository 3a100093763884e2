-- ===== src/Tests/Wire.antt =====
-- Runs of the WebSocket wire of the Codex adapter.
use agent_host.Common.{
  ℕ, ◌+◌, ◌*◌, ◌≡◌, refl, ◌⊎◌, true, some, none, List, [], ◌∷◌, ◌++◌, arith, if◌then◌else◌,
  is_empty,
}
use agent_host.Adapters.Wire.{running, closed, Wire, Host, initial, parse, frame, wait, send_frame}
use agent_host.Adapters.Wire.Receive.{
  starting, closing, receiving, sending, run, receive, consume_frames, consume_open,
}
use agent_host.Adapters.Wire.Reading.{receive-append}
use agent_host.Adapters.Wire.Frames.{server_frame, parse-server_frame, read_client, send_frame-read}
use agent_host.Adapters.Wire.Messages.{message_frames, between, receive-message_frames}
use agent_host.Adapters.Wire.Held.{HoldsWithin}
use agent_host.Adapters.Wire.Bounded.{run-HoldsWithin}
use agent_host.Adapters.Wire.Ended.{consume_frames-ends, outward, run-closed}

abbrev host : Host
host = record {
  max_payload_bytes = 1000;
  random = λ draw index. 3 + draw + 50 * index;
  decode = λ bytes. if is_empty bytes then none else some "text";
  to_codes = λ bytes. bytes;
  trim = λ codes. codes;
  lower = λ codes. codes;
  accept_key = 65 ∷ [];
  upgrade_request = 71 ∷ 69 ∷ 84 ∷ [];
}

abbrev opened : Wire
opened = record initial { phase = running }

abbrev hello : List ℕ
hello = 129 ∷ 2 ∷ 104 ∷ 105 ∷ []

a_message : (receive host hello opened).messages ≡ "text" ∷ []
unfolding receive
a_message = refl

receive-append_example :
    receive host (2 ∷ 104 ∷ 105 ∷ []) (receive host (129 ∷ []) opened)
    ≡ receive host (129 ∷ 2 ∷ 104 ∷ 105 ∷ []) opened
receive-append_example = receive-append host (129 ∷ []) (2 ∷ 104 ∷ 105 ∷ []) opened

parse-server_frame_example :
    parse 1000 0 (server_frame true 1 (104 ∷ 105 ∷ []) ++ (137 ∷ []))
    ≡ frame 1 true (104 ∷ 105 ∷ []) (137 ∷ [])
parse-server_frame_example =
    parse-server_frame 1000 0 1 true (104 ∷ 105 ∷ []) (137 ∷ []) (omega arith) (omega arith)
      (omega arith)

send_frame-read_example :
    (bytes : List ℕ) × ((send_frame host 1 (104 ∷ 105 ∷ []) opened).written ≡ [] ++ bytes ∷ [])
    × (read_client bytes ≡ some (1, 104 ∷ 105 ∷ []))
send_frame-read_example = send_frame-read host 1 (104 ∷ 105 ∷ []) opened (omega arith) (omega arith)

receive-message_frames_example :
    receive host (message_frames (104 ∷ []) ((105 ∷ []) ∷ (33 ∷ []) ∷ [])) (between opened)
    ≡ record opened { messages = "text" ∷ [] }
receive-message_frames_example =
    receive-message_frames host (omega arith) (104 ∷ []) ((105 ∷ []) ∷ (33 ∷ []) ∷ []) opened "text"
      refl (omega arith)

run-HoldsWithin_example :
    HoldsWithin host (run host (starting ∷ receiving hello ∷ closing ∷ []) initial)
run-HoldsWithin_example = run-HoldsWithin host (starting ∷ receiving hello ∷ closing ∷ [])

consume_frames-ends_example :
    let w = record opened { buffer = hello ++ (137 ∷ []) } in
    (consume_frames host 9 w ≡ consume_open host w)
    × (((consume_open host w).phase ≡ closed)
        ⊎ (parse 1000 (consume_open host w).fragment_bytes (consume_open host w).buffer ≡ wait))
consume_frames-ends_example =
    consume_frames-ends host 9 (record opened { buffer = hello ++ (137 ∷ []) }) refl (omega arith)

run-closed_example :
    let w = receive host (136 ∷ 0 ∷ []) opened in
    ((run host (receiving hello ∷ sending (104 ∷ []) ∷ []) w).phase ≡ closed)
    × (outward (run host (receiving hello ∷ sending (104 ∷ []) ∷ []) w) ≡ outward w)
unfolding receive
run-closed_example =
    run-closed host (receiving hello ∷ sending (104 ∷ []) ∷ []) (receive host (136 ∷ 0 ∷ []) opened)
      refl
