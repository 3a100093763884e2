-- ===== src/Adapters/Wire.antt =====
-- src/adapters/codex-websocket-wire.js: the WebSocket client over a pipe. A Buffer is a list of
-- bytes; `first & 0x80` and the like are comparisons, quotients and remainders of the byte. The random
-- bytes, the UTF-8 decoders, the SHA-1 of the key, trim and toLowerCase are the host's.
pub mod Handshake
pub mod Receive
pub mod Parse
pub mod Frames
pub mod Chunks
pub mod Boundary
pub mod Reading
pub mod Messages
pub mod Held
pub mod Bounded
pub mod Ended
use agent_host.Common.{
  ℕ, zero, suc, ◌+◌, ◌-◌, ◌*◌, ◌/◌, ◌%◌, ◌^◌, String, Bool, true, false, ◌&&◌, ◌||◌, not, Option,
  none, some, List, [], ◌∷◌, ◌++◌, ltb, leb, ◌==◌, if◌then◌else◌, length, take, drop, is_empty,
  codes, any, find, bit_xor,
}
use agent_host.Common.Results.{Result, ok, err, ◌>>=◌}

abbrev pub max_handshake_bytes : ℕ
max_handshake_bytes = 16 * 1024

abbrev pub default_max_payload_bytes : ℕ
default_max_payload_bytes = 16 * 1024 * 1024

pub data WireError : Type 0 where
  handshake_too_large upgrade_rejected header_invalid accept_invalid : WireError
  extensions_unsupported upgrade_invalid connection_invalid : WireError
  rsv_bits masked_frame payload_too_large control_invalid control_unsupported : WireError
  binary_unsupported fragments_overlap no_initial_frame data_unsupported not_text : WireError
  input_ended timed_out closed_in_handshake not_open already_started : WireError

pub data Phase : Type 0 where
  idle handshake running closed : Phase

-- The promise of `start`, before it is made and after.
pub data Started : Type 0 where
  unasked pending resolved : Started
  rejected : WireError → Started

-- `written` is what the socket was given, `messages`, `errors` and `closes` are the calls of onMessage,
-- onError and onClose, `drawn` is how often random bytes were drawn.
pub record Wire : Type 0 where
  pub phase : Phase
  pub buffer : List ℕ
  pub fragments : List (List ℕ)
  pub fragment_bytes : ℕ
  pub drawn : ℕ
  pub started : Started
  pub written : List (List ℕ)
  pub messages : List String
  pub errors : List WireError
  pub closes : ℕ

pub record Host : Type 0 where
  pub max_payload_bytes : ℕ
  -- The byte of a draw at an index below 4.
  pub random : ℕ → ℕ → ℕ
  -- `new TextDecoder("utf-8", { fatal: true }).decode`
  pub decode : List ℕ → Option String
  -- `toString("utf8")`, as code points, and the texts made from them
  pub to_codes : List ℕ → List ℕ
  pub trim : List ℕ → List ℕ
  pub lower : List ℕ → List ℕ
  -- What `sec-websocket-accept` must be, and the bytes of the upgrade request.
  pub accept_key : List ℕ
  pub upgrade_request : List ℕ

abbrev pub initial : Wire
initial = record {
  phase = idle;
  buffer = [];
  fragments = [];
  fragment_bytes = 0;
  drawn = 0;
  started = unasked;
  written = [];
  messages = [];
  errors = [];
  closes = 0;
}

-- `writeUInt16BE` and `writeBigUInt64BE`: the lowest bytes of a number, the highest first.
unfoldable pub big_endian : ℕ → ℕ → List ℕ
big_endian zero n = []
big_endian (suc k) n = (n / 256 ^ k % 256) ∷ big_endian k n

-- `readUInt16BE` and `readBigUInt64BE` of the first bytes.
unfoldable pub read_be : ℕ → ℕ → List ℕ → ℕ
read_be zero acc bs = acc
read_be (suc k) acc [] = acc
read_be (suc k) acc (b ∷ bs) = read_be k (acc * 256 + b) bs

abbrev concat : List (List ℕ) → List ℕ
concat [] = []
concat (p ∷ ps) = p ++ concat ps

-- The loop that masks, from an index on.
unfoldable pub masked : (ℕ → ℕ) → ℕ → List ℕ → List ℕ
masked mask i [] = []
masked mask i (b ∷ bs) = bit_xor b (mask (i % 4)) ∷ masked mask (suc i) bs

-- The header of a frame to the server, `0x80 |` of numbers below 128 as a sum.
unfoldable pub frame_header : ℕ → ℕ → List ℕ
unfolding big_endian
frame_header opcode n =
    if ltb n 126
    then (128 + opcode) ∷ (128 + n) ∷ []
    else if leb n 65_535
    then (128 + opcode) ∷ (128 + 126) ∷ big_endian 2 n
    else (128 + opcode) ∷ (128 + 127) ∷ big_endian 8 n

-- `#finish`
unfoldable pub finish : Wire → Wire
finish w = elim w.phase [
  | closed ↦ w
  | _ ↦ record w { phase = closed; buffer = []; fragments = []; fragment_bytes = 0 }
]

abbrev reject : WireError → Started → Started
reject e pending = rejected e
reject e s = s

-- `#fail`
unfoldable pub fail : WireError → Wire → Wire
unfolding finish
fail e w = elim w.phase [
  | closed ↦ w
  | _ ↦ let w' = finish w in record w' { started = reject e w.started; errors = w.errors ++ e ∷ [] }
]

-- One round of the frame loop: more bytes are needed, the frame is refused, or its parts and the rest.
pub data Parsed : Type 0 where
  wait : Parsed
  bad : WireError → Parsed
  frame : ℕ → Bool → List ℕ → List ℕ → Parsed

-- The part from the length of the payload and the offset where it starts.
unfoldable pub parse_payload : ℕ → ℕ → ℕ → Bool → ℕ → List ℕ → Parsed
parse_payload max held opcode fin n body =
    if ltb max n || (leb opcode 2 && ltb max (held + n))
    then bad payload_too_large
    else if ltb (length body) n
    then wait
    else frame opcode fin (take n body) (drop n body)

unfoldable pub parse_length : ℕ → ℕ → ℕ → Bool → ℕ → List ℕ → Parsed
unfolding parse_payload read_be
parse_length max held opcode fin n body =
    if n == 126
    then (if ltb (length body) 2
        then wait
        else parse_payload max held opcode fin (read_be 2 0 body) (drop 2 body))
    else if n == 127
    then (if ltb (length body) 8
        then wait
        else if ltb max (read_be 8 0 body)
        then bad payload_too_large
        else parse_payload max held opcode fin (read_be 8 0 body) (drop 8 body))
    else parse_payload max held opcode fin n body

unfoldable pub parse : ℕ → ℕ → List ℕ → Parsed
unfolding parse_length
parse max held [] = wait
parse max held (first ∷ []) = wait
parse max held (first ∷ second ∷ body) =
    if not (first / 16 % 8 == 0)
    then bad rsv_bits
    else if leb 128 second
    then bad masked_frame
    else parse_length max held (first % 16) (leb 128 first) (second % 128) body

module _ (h : Host) where
  -- `#sendFrame`
  unfoldable pub send_frame : ℕ → List ℕ → Wire → Wire
  unfolding frame_header masked
  send_frame opcode payload w =
      let mask = h.random w.drawn in
      record w {
        drawn = suc w.drawn;
        written =
            w.written
            ++ (frame_header opcode (length payload)
                ++ (mask 0 ∷ mask 1 ∷ mask 2 ∷ mask 3 ∷ [])
                ++ masked mask 0 payload)
              ∷ [];
      }

  -- The end of a message.
  unfoldable pub deliver : Bool → Wire → Result WireError Wire
  deliver fin w = if not fin then ok w else (elim (h.decode (concat w.fragments)) [
    | none ↦ err not_text
    | some text ↦
        ok (record w { fragments = []; fragment_bytes = 0; messages = w.messages ++ text ∷ [] })
  ])

  unfoldable pub handle_control : ℕ → List ℕ → Wire → Result WireError Wire
  unfolding send_frame finish
  handle_control opcode payload w =
      if opcode == 8
      then (let w' = finish (send_frame 8 payload w) in ok (record w' { closes = suc w.closes }))
      else if opcode == 9
      then ok (send_frame 10 payload w)
      else if opcode == 10
      then ok w
      else err control_unsupported

  -- `#handleFrame`
  unfoldable pub handle_frame : ℕ → Bool → List ℕ → Wire → Result WireError Wire
  unfolding handle_control deliver
  handle_frame opcode fin payload w =
      if leb 8 opcode
      then (if not fin || ltb 125 (length payload)
          then err control_invalid
          else handle_control opcode payload w)
      else if opcode == 2
      then err binary_unsupported
      else if opcode == 1
      then (if not (is_empty w.fragments)
          then err fragments_overlap
          else deliver fin (record w { fragments = payload ∷ []; fragment_bytes = length payload }))
      else if opcode == 0
      then (if is_empty w.fragments
          then err no_initial_frame
          else deliver fin (record w {
            fragments = w.fragments ++ payload ∷ [];
            fragment_bytes = w.fragment_bytes + length payload;
          }))
      else err data_unsupported
