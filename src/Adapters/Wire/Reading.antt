-- ===== src/Adapters/Wire/Reading.antt =====
-- How the bytes from the server are cut into chunks makes no difference to a wire.
use agent_host.Common.{
  ℕ, suc, ◌+◌, ◌≤◌, ◌≡◌, refl, sym, ap, ◌∙◌, inl, inr, List, [], ◌∷◌, ◌++◌, arith, length,
  length-append, take, drop, Option, some, none, Option-cases, Bool-cases, ltb, true, false,
}
use mathlib.Core.List.{append_assoc}
use agent_host.Adapters.Wire.{
  WireError, Phase, running, closed, idle, handshake, resolved, Wire, Host, fail, finish,
  max_handshake_bytes, handshake_too_large,
}
use agent_host.Adapters.Wire.Handshake.{index_of, check_response}
use agent_host.Adapters.Wire.Receive.{
  consume_open, while_running, consume_handshake, finish_handshake, receive,
}
use agent_host.Adapters.Wire.Chunks.{live, settle, consume_frames-fuel}
use agent_host.Adapters.Wire.Parse.{take-append, drop-append}
use agent_host.Adapters.Wire.Boundary.{index_of-append, index_of-inside, index_of-append_late}

abbrev crlf_crlf : List ℕ
crlf_crlf = 13 ∷ 10 ∷ 13 ∷ 10 ∷ []

later_ltb :
    (at n : ℕ)
    → suc (0 + n) ≤ at + 4
    → ltb max_handshake_bytes n ≡ true
    → ltb max_handshake_bytes (at + 4) ≡ true
later_ltb at n late large = ground arith

module _ (h : Host) where
  receive-open :
      (x b : List ℕ) (w : Wire)
      → receive h b (consume_open h (live x w)) ≡ consume_open h (live (x ++ b) w)
  unfolding receive consume_open while_running
  receive-open x b w = elim (settle h (length x) x w (omega arith)) [
    | inl s ↦
        ap (receive h b) s.is_live
        ∙ consume_frames-fuel h (length (s.left ++ b)) (length (x ++ b)) (s.left ++ b) s.settled
            (omega arith) (omega (arith, length-append s.left b, length-append x b, s.shorter))
        ∙ sym (s.resumes b (length (x ++ b)) (omega arith))
    | inr s ↦ ap (receive h b) s.is_dead ∙ sym (s.stays b (length (x ++ b)) (omega arith))
  ]

  -- A wire that waits for the response.
  abbrev asked : List ℕ → Wire → Wire
  asked x w = record w { phase = handshake; buffer = x }

  -- What becomes of it: it is refused, it is open with the bytes behind the response, or it waits on.
  refused : WireError → Wire → Wire
  refused why w = fail why (asked [] w)

  accepted : (at : ℕ) (x : List ℕ) → Wire → Wire
  accepted at x w = live (drop (at + 4) x) (record w { started = resolved })

  abbrev check_of : ℕ → List ℕ → Option WireError
  check_of at x = check_response h (h.to_codes (take at x))

  shake_accepted :
      (at : ℕ) (x : List ℕ) (w : Wire)
      → index_of crlf_crlf 0 x ≡ some at
      → ltb max_handshake_bytes (at + 4) ≡ false
      → check_of at x ≡ none
      → consume_handshake h (asked x w) ≡ accepted at x w
  unfolding consume_handshake finish_handshake accepted
  shake_accepted at x w e fits c = rw (e, fits, finish_handshake, c) refl

  shake_refused :
      (at : ℕ) (x : List ℕ) (w : Wire) (why : WireError)
      → index_of crlf_crlf 0 x ≡ some at
      → ltb max_handshake_bytes (at + 4) ≡ false
      → check_of at x ≡ some why
      → consume_handshake h (asked x w) ≡ refused why w
  unfolding consume_handshake finish_handshake refused fail finish
  shake_refused at x w why e fits c = rw (e, fits, finish_handshake, c) refl

  shake_late :
      (at : ℕ) (x : List ℕ) (w : Wire)
      → index_of crlf_crlf 0 x ≡ some at
      → ltb max_handshake_bytes (at + 4) ≡ true
      → consume_handshake h (asked x w) ≡ refused handshake_too_large w
  unfolding consume_handshake refused fail finish
  shake_late at x w e large = rw (e, large) refl

  shake_long :
      (x : List ℕ) (w : Wire)
      → index_of crlf_crlf 0 x ≡ none
      → ltb max_handshake_bytes (length x) ≡ true
      → consume_handshake h (asked x w) ≡ refused handshake_too_large w
  unfolding consume_handshake refused fail finish
  shake_long x w e large = rw (e, large) refl

  shake_waits :
      (x : List ℕ) (w : Wire)
      → index_of crlf_crlf 0 x ≡ none
      → ltb max_handshake_bytes (length x) ≡ false
      → consume_handshake h (asked x w) ≡ asked x w
  unfolding consume_handshake
  shake_waits x w e fits = rw (e, fits) refl

  -- A refused wire takes nothing more.
  receive-refused :
      (b : List ℕ) (why : WireError) (w : Wire)
      → receive h b (consume_open h (refused why w)) ≡ consume_open h (refused why w)
  unfolding receive consume_open while_running refused fail finish
  receive-refused b why w = refl

  receive-asked :
      (x b : List ℕ) (w : Wire)
      → receive h b (consume_open h (asked x w))
        ≡ consume_open h (consume_handshake h (asked (x ++ b) w))
  unfolding receive consume_open while_running
  receive-asked x b w = refl

  -- When both the first bytes and all of them are refused for the same reason.
  both_refused :
      (x b : List ℕ) (why : WireError) (w : Wire)
      → consume_handshake h (asked x w) ≡ refused why w
      → consume_handshake h (asked (x ++ b) w) ≡ refused why w
      → receive h b (consume_open h (consume_handshake h (asked x w)))
        ≡ consume_open h (consume_handshake h (asked (x ++ b) w))
  both_refused x b why w e f =
      ap (λ u. receive h b (consume_open h u)) e
      ∙ receive-refused b why w
      ∙ sym (ap (λ u. consume_open h u) f)

  receive-found :
      (x b : List ℕ) (w : Wire) (at : ℕ)
      → index_of crlf_crlf 0 x ≡ some at
      → receive h b (consume_open h (consume_handshake h (asked x w)))
        ≡ consume_open h (consume_handshake h (asked (x ++ b) w))
  unfolding accepted
  receive-found x b w at e =
      let inside : at + 4 ≤ length x = omega (arith, index_of-inside crlf_crlf 0 x at e) in
      let e' = index_of-append crlf_crlf 0 x b at e in
      let same : check_of at (x ++ b) ≡ check_of at x =
        ap (λ z. check_response h (h.to_codes z)) (take-append at x b (omega arith)) in
      elim (Bool-cases (ltb max_handshake_bytes (at + 4))) [
        | inl large ↦
            both_refused x b handshake_too_large w (shake_late at x w e large)
              (shake_late at (x ++ b) w e' large)
        | inr fits ↦ elim (Option-cases (check_of at x)) [
          | inl c ↦
              ap (λ u. receive h b (consume_open h u)) (shake_accepted at x w e fits c)
              ∙ receive-open (drop (at + 4) x) b (record w { started = resolved })
              ∙ ap (λ z. consume_open h (live z (record w { started = resolved })))
                  (sym (drop-append (at + 4) x b inside))
              ∙ ap (λ u. consume_open h u) (sym (shake_accepted at (x ++ b) w e' fits (same ∙ c)))
          | inr (why, c) ↦
              both_refused x b why w (shake_refused at x w why e fits c)
                (shake_refused at (x ++ b) w why e' fits (same ∙ c))
        ]
      ]

  -- Bytes that are too many without the end of the response stay too many.
  long_refused :
      (x b : List ℕ) (w : Wire)
      → index_of crlf_crlf 0 x ≡ none
      → ltb max_handshake_bytes (length x) ≡ true
      → consume_handshake h (asked (x ++ b) w) ≡ refused handshake_too_large w
  long_refused x b w e large = elim (Option-cases (index_of crlf_crlf 0 (x ++ b))) [
    | inl f ↦ shake_long (x ++ b) w f (ground (arith, length-append x b))
    | inr (at, f) ↦
        let late = index_of-append_late 13 (10 ∷ 13 ∷ 10 ∷ []) 0 x b at e f in
        shake_late at (x ++ b) w f (later_ltb at (length x) late large)
  ]

  receive-handshake :
      (x b : List ℕ) (w : Wire)
      → receive h b (consume_open h (consume_handshake h (asked x w)))
        ≡ consume_open h (consume_handshake h (asked (x ++ b) w))
  receive-handshake x b w = elim (Option-cases (index_of crlf_crlf 0 x)) [
    | inr (at, e) ↦ receive-found x b w at e
    | inl e ↦ elim (Bool-cases (ltb max_handshake_bytes (length x))) [
      | inl large ↦
          both_refused x b handshake_too_large w (shake_long x w e large)
            (long_refused x b w e large)
      | inr fits ↦
          ap (λ u. receive h b (consume_open h u)) (shake_waits x w e fits) ∙ receive-asked x b w
    ]
  ]

  receive_at :
      (p : Phase) (a b : List ℕ) (w : Wire)
      → receive h b (receive h a (record w { phase = p }))
        ≡ receive h (a ++ b) (record w { phase = p })
  unfolding receive
  receive_at idle a b w =
      ap (λ z. consume_open h (record w { phase = idle; buffer = z })) (append_assoc w.buffer a b)
  receive_at handshake a b w =
      receive-handshake (w.buffer ++ a) b w
      ∙ ap (λ z. consume_open h (consume_handshake h (asked z w))) (append_assoc w.buffer a b)
  receive_at running a b w =
      receive-open (w.buffer ++ a) b w
      ∙ ap (λ z. consume_open h (live z w)) (append_assoc w.buffer a b)
  receive_at closed a b w = refl

  -- In every phase, to receive two chunks one after the other leaves the wire as to receive the bytes of
  -- both at once does.
  pub receive-append :
      (a b : List ℕ) (w : Wire) → receive h b (receive h a w) ≡ receive h (a ++ b) w
  receive-append a b w = receive_at w.phase a b w
