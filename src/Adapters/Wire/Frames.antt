-- ===== src/Adapters/Wire/Frames.antt =====
-- The frames of RFC 6455 as its text lays them out, written here for both directions, and that the wire
-- reads the server's and that a server reads the wire's.
use agent_host.Common.{
  ℕ, suc, ◌+◌, ◌-◌, ◌/◌, ◌%◌, ◌≤◌, ◌<◌, ◌≡◌, refl, ap, ◌∙◌, inl, inr, Bool, true, false, ◌||◌,
  Option, some, none, List, [], ◌∷◌, ◌++◌, arith, ltb, leb, ◌==◌, if◌then◌else◌, length, take, drop,
  length-append, bit_xor, Bool-cases, if-cases,
}
use agent_host.Common.Xor.{bit_xor_undone}
use agent_host.Adapters.Wire.{
  big_endian, read_be, masked, frame_header, parse, parse_length, parse_payload, frame, Wire, Host,
  send_frame,
}

-- The length of a payload, in one byte, three or nine.
unfoldable pub length_bytes : ℕ → List ℕ
unfolding big_endian
length_bytes n =
    if ltb n 126
    then n ∷ []
    else if ltb n 65_536
    then 126 ∷ big_endian 2 n
    else 127 ∷ big_endian 8 n

-- A frame from the server: the byte with the FIN bit and the opcode, the length, the payload.
unfoldable pub server_frame : Bool → ℕ → List ℕ → List ℕ
unfolding length_bytes
server_frame fin opcode payload =
    (if fin then 128 + opcode else opcode) ∷ (length_bytes (length payload) ++ payload)

take-length : (xs ys : List ℕ) → take (length xs) (xs ++ ys) ≡ xs
take-length [] ys = refl
take-length (x ∷ xs) ys = ap (λ z. x ∷ z) (take-length xs ys)

drop-length : (xs ys : List ℕ) → drop (length xs) (xs ++ ys) ≡ ys
drop-length [] ys = refl
drop-length (x ∷ xs) ys = drop-length xs ys

two_bytes : (n : ℕ) (bs : List ℕ) → n < 65_536 → read_be 2 0 (big_endian 2 n ++ bs) ≡ n
unfolding read_be big_endian
two_bytes n bs p = omega arith

eight_bytes :
    (n : ℕ) (bs : List ℕ) → n < 18_446_744_073_709_551_616 → read_be 8 0 (big_endian 8 n ++ bs) ≡ n
unfolding read_be big_endian
eight_bytes n bs p = omega arith

-- The payload is within the bound, and with the fragments held if the frame is of data.
pub payload_read :
    (max held opcode : ℕ) (fin : Bool) (payload rest : List ℕ)
    → held + length payload ≤ max
    → parse_payload max held opcode fin (length payload) (payload ++ rest)
      ≡ frame opcode fin payload rest
unfolding parse_payload
payload_read max held opcode fin payload rest p =
    ground (arith, length-append payload rest, take-length payload rest, drop-length payload rest)

abbrev first_byte : Bool → ℕ → ℕ
first_byte fin opcode = if fin then 128 + opcode else opcode

-- The two header bytes, read back.
header_read :
    (max held second : ℕ) (fin : Bool) (opcode : ℕ) (body : List ℕ)
    → opcode < 16
    → second < 128
    → parse max held (first_byte fin opcode ∷ second ∷ body)
      ≡ parse_length max held opcode fin second body
unfolding parse
header_read max held second true opcode body p q =
    let a : ((128 + opcode) / 16 % 8 == 0) ≡ true = ground arith in
    let b : leb 128 second ≡ false = ground arith in
    let c : (128 + opcode) % 16 ≡ opcode = omega arith in
    let d : leb 128 (128 + opcode) ≡ true = ground arith in
    let e : second % 128 ≡ second = omega arith in rw (a, b, c, d, e) refl
header_read max held second false opcode body p q =
    let a : (opcode / 16 % 8 == 0) ≡ true = ground arith in
    let b : leb 128 second ≡ false = ground arith in
    let c : opcode % 16 ≡ opcode = omega arith in
    let d : leb 128 opcode ≡ false = ground arith in
    let e : second % 128 ≡ second = omega arith in rw (a, b, c, d, e) refl

big_endian-rest :
    (n : ℕ) (bs : List ℕ)
    → (drop 2 (big_endian 2 n ++ bs) ≡ bs) × (drop 8 (big_endian 8 n ++ bs) ≡ bs)
unfolding big_endian
big_endian-rest n bs = (refl, refl)

big_endian-length :
    (n : ℕ) (bs : List ℕ)
    → (length (big_endian 2 n ++ bs) ≡ 2 + length bs)
      × (length (big_endian 8 n ++ bs) ≡ 8 + length bs)
unfolding big_endian
big_endian-length n bs = (omega arith, omega arith)

module _ (max held opcode : ℕ) (fin : Bool) (payload rest : List ℕ)
    (fits : held + length payload ≤ max) where
  short_read :
      length payload < 126
      → parse_length max held opcode fin (length payload) (payload ++ rest)
        ≡ frame opcode fin payload rest
  unfolding parse_length
  short_read p = ground (arith, payload_read max held opcode fin payload rest fits)

  two_read :
      length payload < 65_536
      → parse_length max held opcode fin 126 (big_endian 2 (length payload) ++ (payload ++ rest))
        ≡ frame opcode fin payload rest
  unfolding parse_length
  two_read p =
      let n = length payload in
      let some_bytes : ltb (length (big_endian 2 n ++ (payload ++ rest))) 2 ≡ false =
        ground (arith, (big_endian-length n (payload ++ rest)).0) in
      rw (some_bytes, two_bytes n (payload ++ rest) p, (big_endian-rest n (payload ++ rest)).0)
        (payload_read max held opcode fin payload rest fits)

  eight_read :
      length payload < 18_446_744_073_709_551_616
      → parse_length max held opcode fin 127 (big_endian 8 (length payload) ++ (payload ++ rest))
        ≡ frame opcode fin payload rest
  unfolding parse_length
  eight_read p =
      let n = length payload in
      let some_bytes : ltb (length (big_endian 8 n ++ (payload ++ rest))) 8 ≡ false =
        ground (arith, (big_endian-length n (payload ++ rest)).1) in
      rw (some_bytes, eight_bytes n (payload ++ rest) p, (big_endian-rest n (payload ++ rest)).1)
        (if-cases (λ r. r ≡ frame opcode fin payload rest) (ltb max n) _ _
          (λ over. absurd (ground arith)) λ _. payload_read max held opcode fin payload rest fits)

  -- The bytes of a frame with a four-bit opcode whose payload is below 2^64 bytes and within the bound,
  -- fragments held included, are read back as that frame, and the bytes behind them are left over.
  pub parse-server_frame :
      opcode < 16
      → length payload < 18_446_744_073_709_551_616
      → parse max held (server_frame fin opcode payload ++ rest) ≡ frame opcode fin payload rest
  unfolding server_frame length_bytes big_endian
  parse-server_frame small p = elim (Bool-cases (ltb (length payload) 126)) [
    | inl one ↦ rw one (
        header_read max held (length payload) fin opcode (payload ++ rest) small (ground arith)
        ∙ short_read (ground arith))
    | inr more ↦ rw more (elim (Bool-cases (ltb (length payload) 65_536)) [
      | inl two ↦ rw two (
          header_read max held 126 fin opcode (big_endian 2 (length payload) ++ (payload ++ rest))
            small (omega arith)
          ∙ two_read (ground arith))
      | inr eight ↦ rw eight (
          header_read max held 127 fin opcode (big_endian 8 (length payload) ++ (payload ++ rest))
            small (omega arith)
          ∙ eight_read p)
    ])
  ]

-- A frame from a client, as a server reads it: the mask bit is set, and the payload is unmasked, the
-- four bytes of the mask in turn.
unfoldable pub unmask : ℕ → ℕ → ℕ → ℕ → List ℕ → List ℕ
unmask a b c d [] = []
unmask a b c d (x ∷ xs) = bit_xor x a ∷ unmask b c d a xs

unfoldable pub unmask_payload : ℕ → ℕ → List ℕ → Option (ℕ × List ℕ)
unfolding unmask
unmask_payload opcode n (a ∷ b ∷ c ∷ d ∷ body) =
    if length body == n then some (opcode, unmask a b c d body) else none
unmask_payload opcode n _ = none

unfoldable pub read_client : List ℕ → Option (ℕ × List ℕ)
unfolding unmask_payload read_be
read_client (first ∷ second ∷ body) =
    if ltb first 128 || ltb second 128
    then none
    else if second == 254
    then unmask_payload (first - 128) (read_be 2 0 body) (drop 2 body)
    else if second == 255
    then unmask_payload (first - 128) (read_be 8 0 body) (drop 8 body)
    else unmask_payload (first - 128) (second - 128) body
read_client _ = none

unmask-masked :
    (mask : ℕ → ℕ) (i : ℕ) (bs : List ℕ)
    → unmask
        (mask (i % 4))
        (mask (suc i % 4))
        (mask (suc (suc i) % 4))
        (mask (suc (suc (suc i)) % 4))
        (masked mask i bs)
      ≡ bs
unfolding unmask masked
unmask-masked mask i [] = refl
unmask-masked mask i (b ∷ bs) =
    let again : suc (suc (suc (suc i))) % 4 ≡ i % 4 = omega arith in
    let rest = rw again at (unmask-masked mask (suc i) bs) in
    rw (bit_xor_undone b (mask (i % 4))) (ap (λ z. b ∷ z) rest)

length-masked : (mask : ℕ → ℕ) (i : ℕ) (bs : List ℕ) → length (masked mask i bs) ≡ length bs
unfolding masked
length-masked mask i [] = refl
length-masked mask i (b ∷ bs) = omega (arith, length-masked mask (suc i) bs)

masked_payload :
    (mask : ℕ → ℕ) (opcode : ℕ) (payload : List ℕ)
    → unmask_payload opcode
        (length payload)
        (mask 0 ∷ mask 1 ∷ mask 2 ∷ mask 3 ∷ masked mask 0 payload)
      ≡ some (opcode, payload)
unfolding unmask_payload
masked_payload mask opcode payload =
    ground (arith, length-masked mask 0 payload, unmask-masked mask 0 payload)

-- The bytes of a frame to the server.
sent_bytes : (ℕ → ℕ) → ℕ → List ℕ → List ℕ
sent_bytes mask opcode payload =
    frame_header opcode (length payload)
    ++ (mask 0 ∷ mask 1 ∷ mask 2 ∷ mask 3 ∷ [])
    ++ masked mask 0 payload

read_client-sent :
    (mask : ℕ → ℕ) (opcode : ℕ) (payload : List ℕ)
    → opcode < 16
    → length payload < 18_446_744_073_709_551_616
    → read_client (sent_bytes mask opcode payload) ≡ some (opcode, payload)
unfolding read_client sent_bytes frame_header
read_client-sent mask opcode payload p q =
    let n = length payload in
    let body = mask 0 ∷ mask 1 ∷ mask 2 ∷ mask 3 ∷ masked mask 0 payload in
    let back : (128 + opcode) - 128 ≡ opcode = omega arith in
    let bit : ltb (128 + opcode) 128 ≡ false = ground arith in
    elim (Bool-cases (ltb n 126)) [
      | inl one ↦
          let a : ltb (128 + n) 128 ≡ false = ground arith in
          let b : (128 + n == 254) ≡ false = ground arith in
          let c : (128 + n == 255) ≡ false = ground arith in
          let d : (128 + n) - 128 ≡ n = omega arith in
          rw (one, bit, a, b, c, d, back) (masked_payload mask opcode payload)
      | inr more ↦ elim (Bool-cases (leb n 65_535)) [
        | inl two ↦
            rw (more, two, bit, two_bytes n body (ground arith), back)
              (masked_payload mask opcode payload)
        | inr eight ↦
            rw (more, eight, bit, eight_bytes n body q, back) (masked_payload mask opcode payload)
      ]
    ]

-- A frame with a four-bit opcode and a payload below 2^64 bytes adds one write, from which a server
-- reads the opcode and the unmasked payload back.
pub send_frame-read :
    (h : Host) (opcode : ℕ) (payload : List ℕ) (w : Wire)
    → opcode < 16
    → length payload < 18_446_744_073_709_551_616
    → (bytes : List ℕ) × ((send_frame h opcode payload w).written ≡ w.written ++ bytes ∷ [])
      × (read_client bytes ≡ some (opcode, payload))
unfolding send_frame sent_bytes
send_frame-read h opcode payload w p q = (
  sent_bytes (h.random w.drawn) opcode payload,
  refl,
  read_client-sent (h.random w.drawn) opcode payload p q,
)
