-- ===== src/Adapters/Wire/Messages.antt =====
-- A text message that the server sends in fragments reaches onMessage whole.
use agent_host.Common.{
  ℕ, suc, ◌+◌, ◌≤◌, ◌<◌, ◌≡◌, refl, sym, ap, ◌∙◌, Bool, true, false, String, some, List, [], ◌∷◌,
  ◌++◌, arith, length, is_empty,
}
use mathlib.Core.List.{append_assoc, append-nil}
use agent_host.Common.Results.{ok}
use agent_host.Adapters.Wire.{Wire, Host, parse, frame, handle_frame, deliver, concat}
use agent_host.Adapters.Wire.Receive.{
  consume_frames, consume_open, while_running, after_frame, receive,
}
use agent_host.Adapters.Wire.Chunks.{live, no_bytes}
use agent_host.Adapters.Wire.Reading.{receive-append}
use agent_host.Adapters.Wire.Frames.{server_frame, parse-server_frame, length_bytes}

abbrev total_length : List (List ℕ) → ℕ
total_length [] = 0
total_length (p ∷ ps) = length p + total_length ps

-- The frames of a message behind its first one, and all of them; the last one has the FIN bit.
unfoldable pub continuation : List (List ℕ) → List ℕ
continuation [] = []
continuation (p ∷ ps) = server_frame (is_empty ps) 0 p ++ continuation ps

unfoldable pub message_frames : List ℕ → List (List ℕ) → List ℕ
unfolding continuation
message_frames p ps = server_frame (is_empty ps) 1 p ++ continuation ps

-- The wire when the fragments were delivered, while some are held, and when it holds none.
abbrev pub told : String → Wire → Wire
told text w = record w { fragments = []; fragment_bytes = 0; messages = w.messages ++ text ∷ [] }

abbrev holding : List ℕ → List (List ℕ) → ℕ → Wire → Wire
holding f fs n w = record w { fragments = f ∷ fs; fragment_bytes = n }

abbrev pub between : Wire → Wire
between w = live [] (record w { fragments = []; fragment_bytes = 0 })

module _ (h : Host) (below : h.max_payload_bytes < 18_446_744_073_709_551_616) where
  one_round :
      (n : ℕ) (b rest payload : List ℕ) (opcode : ℕ) (fin : Bool) (w u : Wire)
      → parse h.max_payload_bytes w.fragment_bytes b ≡ frame opcode fin payload rest
      → handle_frame h opcode fin payload (live rest w) ≡ ok (live rest u)
      → consume_frames h (suc n) (live b w) ≡ consume_frames h n (live rest u)
  unfolding consume_frames while_running after_frame
  one_round n b rest payload opcode fin w u read e = rw (read, e) refl

  -- A whole frame is handled, when no byte was left before.
  one_frame :
      (fin : Bool) (opcode : ℕ) (payload : List ℕ) (w u : Wire)
      → opcode < 16
      → w.fragment_bytes + length payload ≤ h.max_payload_bytes
      → handle_frame h opcode fin payload (live [] w) ≡ ok (live [] u)
      → receive h (server_frame fin opcode payload) (live [] w) ≡ live [] u
  unfolding receive consume_open while_running server_frame
  one_frame fin opcode payload w u small p e =
      let max = h.max_payload_bytes in
      let read =
        parse-server_frame max w.fragment_bytes opcode fin payload [] p small (omega arith) in
      let whole : parse max w.fragment_bytes (server_frame fin opcode payload)
          ≡ frame opcode fin payload [] =
        ap (parse max w.fragment_bytes) (sym (append-nil (server_frame fin opcode payload)))
        ∙ read in
      one_round (length (length_bytes (length payload) ++ payload))
        (server_frame fin opcode payload) [] payload opcode fin w u whole e
      ∙ no_bytes h (length (length_bytes (length payload) ++ payload)) u

  -- What a data frame does to the fragments.
  first_held :
      (p : List ℕ) (w : Wire)
      → handle_frame h 1 false p (live [] (record w { fragments = [] }))
        ≡ ok (live [] (holding p [] (length p) w))
  unfolding handle_frame deliver
  first_held p w = refl

  first_told :
      (p : List ℕ) (w : Wire) (text : String)
      → h.decode (concat (p ∷ [])) ≡ some text
      → handle_frame h 1 true p (live [] (record w { fragments = [] })) ≡ ok (live [] (told text w))
  unfolding handle_frame deliver
  first_told p w text e = rw e refl

  next_held :
      (f p : List ℕ) (fs : List (List ℕ)) (n : ℕ) (w : Wire)
      → handle_frame h 0 false p (live [] (holding f fs n w))
        ≡ ok (live [] (holding f (fs ++ p ∷ []) (n + length p) w))
  unfolding handle_frame deliver
  next_held f p fs n w = refl

  next_told :
      (f p : List ℕ) (fs : List (List ℕ)) (n : ℕ) (w : Wire) (text : String)
      → h.decode (concat (f ∷ (fs ++ p ∷ []))) ≡ some text
      → handle_frame h 0 true p (live [] (holding f fs n w)) ≡ ok (live [] (told text w))
  unfolding handle_frame deliver
  next_told f p fs n w text e = rw e refl

  receive-continuation :
      (f p : List ℕ) (fs ps : List (List ℕ)) (n : ℕ) (w : Wire) (text : String)
      → h.decode (concat (f ∷ (fs ++ p ∷ ps))) ≡ some text
      → n + (length p + total_length ps) ≤ h.max_payload_bytes
      → receive h (continuation (p ∷ ps)) (live [] (holding f fs n w)) ≡ live [] (told text w)
  unfolding continuation
  receive-continuation f p fs [] n w text e le =
      ap (λ z. receive h z (live [] (holding f fs n w))) (append-nil (server_frame true 0 p))
      ∙ one_frame true 0 p (holding f fs n w) (told text w) (omega arith) (omega arith)
          (next_told f p fs n w text e)
  receive-continuation f p fs (q ∷ qs) n w text e le =
      let grown = holding f (fs ++ p ∷ []) (n + length p) w in
      let text' : h.decode (concat (f ∷ ((fs ++ p ∷ []) ++ q ∷ qs))) ≡ some text =
        ap (λ z. h.decode (concat (f ∷ z))) (append_assoc fs (p ∷ []) (q ∷ qs)) ∙ e in
      sym (
        receive-append h (server_frame false 0 p) (continuation (q ∷ qs))
          (live [] (holding f fs n w)))
      ∙ ap (receive h (continuation (q ∷ qs))) (
          one_frame false 0 p (holding f fs n w) grown (omega arith) (omega arith)
            (next_held f p fs n w))
      ∙ receive-continuation f q (fs ++ p ∷ []) qs (n + length p) w text text' (omega arith)

  -- A text that the server sends in any number of fragments, within a bound below 2^64, reaches onMessage
  -- once and whole, when the open wire holds neither bytes nor fragments, and leaves it holding none.
  pub receive-message_frames :
      (p : List ℕ) (ps : List (List ℕ)) (w : Wire) (text : String)
      → h.decode (concat (p ∷ ps)) ≡ some text
      → total_length (p ∷ ps) ≤ h.max_payload_bytes
      → receive h (message_frames p ps) (between w) ≡ live [] (told text w)
  unfolding message_frames continuation
  receive-message_frames p [] w text e le =
      ap (λ z. receive h z (between w)) (append-nil (server_frame true 1 p))
      ∙ one_frame true 1 p (between w) (told text w) (omega arith) (omega arith)
          (first_told p (between w) text e)
  receive-message_frames p (q ∷ qs) w text e le =
      sym (receive-append h (server_frame false 1 p) (continuation (q ∷ qs)) (between w))
      ∙ ap (receive h (continuation (q ∷ qs))) (
          one_frame false 1 p (between w) (holding p [] (length p) w) (omega arith) (omega arith)
            (first_held p (between w)))
      ∙ receive-continuation p q [] qs (length p) w text e (omega arith)
