-- ===== src/Adapters/Wire/Chunks.antt =====
-- How the bytes are cut into chunks makes no difference to an open wire.
use agent_host.Common.{
  ℕ, zero, suc, ◌+◌, ◌≤◌, ◌≡◌, refl, sym, ◌∙◌, ◌⊎◌, inl, inr, Bool, true, false, List, [], ◌∷◌,
  ◌++◌, arith, leb, ltb, ◌==◌, if◌then◌else◌, length, length-append, is_empty, not, ◌||◌, ◌-◌,
  Option-cases,
}
use agent_host.Common.Results.{Result, ok, err}
use agent_host.Adapters.Wire.{
  WireError, running, closed, Wire, Host, fail, finish, send_frame, parse, wait, bad, frame,
  handle_frame, handle_control, deliver, concat, not_text, control_invalid, control_unsupported,
  binary_unsupported, fragments_overlap, no_initial_frame, data_unsupported,
}
use agent_host.Adapters.Wire.Receive.{after_frame, consume_frames, while_running}
use agent_host.Adapters.Wire.Parse.{Parsed-cases, parse-rest, parse-append, parse-append_bad}

-- An open wire with the given bytes to read, and a closed one.
abbrev pub live : List ℕ → Wire → Wire
live b w = record w { phase = running; buffer = b }

abbrev pub dead : Wire → Wire
dead w = record w { phase = closed; buffer = [] }

le_append :
    (rest b c : List ℕ) (m : ℕ)
    → length rest ≤ length b - 2
    → length (b ++ c) ≤ m
    → length (rest ++ c) ≤ m
le_append rest b c m less p = omega (arith, length-append rest c, length-append b c)

module _ (h : Host) where
  -- The outcome of a frame does not depend on the bytes behind it.
  abbrev Effect : Wire → (List ℕ → Result WireError Wire) → Type 0
  Effect w x =
      ((u : Wire) × ((b : List ℕ) → after_frame h (live b w) (x b) ≡ live b u))
      ⊎ ((u : Wire) × ((b : List ℕ) → after_frame h (live b w) (x b) ≡ dead u))

  if-Effect :
      (w : Wire) (t : Bool) (x y : List ℕ → Result WireError Wire)
      → Effect w x
      → Effect w y
      → Effect w (λ b. if t then x b else y b)
  if-Effect w true x y ex ey = ex
  if-Effect w false x y ex ey = ey

  err-Effect : (w : Wire) (e : WireError) → Effect w (λ b. err e)
  unfolding after_frame fail finish
  err-Effect w e = inr (fail e (live [] w), λ b. refl)

  deliver-Effect : (w v : Wire) (fin : Bool) → Effect w (λ b. deliver h fin (live b v))
  unfolding deliver after_frame
  deliver-Effect w v fin =
      if-Effect w (not fin) (λ b. ok (live b v)) _ (inl (v, λ b. refl))
        (elim (Option-cases (h.decode (concat v.fragments))) [
          | inl e ↦ rw e (err-Effect w not_text)
          | inr (text, e) ↦ rw e (
              inl (
                record v { fragments = []; fragment_bytes = 0; messages = v.messages ++ text ∷ [] },
                λ b. refl,
              ))
        ])

  control-Effect :
      (w : Wire) (opcode : ℕ) (payload : List ℕ)
      → Effect w (λ b. handle_control h opcode payload (live b w))
  unfolding handle_control after_frame send_frame finish
  control-Effect w opcode payload =
      let said = send_frame h 8 payload w in
      if-Effect w (opcode == 8) _ _
        (inr (record (finish (live [] said)) { closes = suc w.closes }, λ b. refl))
        (if-Effect w (opcode == 9) _ _ (inl (send_frame h 10 payload w, λ b. refl))
          (if-Effect w (opcode == 10) _ _ (inl (w, λ b. refl)) (err-Effect w control_unsupported)))

  frame-Effect :
      (w : Wire) (opcode : ℕ) (fin : Bool) (payload : List ℕ)
      → Effect w (λ b. handle_frame h opcode fin payload (live b w))
  unfolding handle_frame
  frame-Effect w opcode fin payload =
      let begun = record w { fragments = payload ∷ []; fragment_bytes = length payload } in
      let more = record w {
        fragments = w.fragments ++ payload ∷ [];
        fragment_bytes = w.fragment_bytes + length payload;
      } in
      if-Effect w (leb 8 opcode) _ _
        (if-Effect w (not fin || ltb 125 (length payload)) _ _ (err-Effect w control_invalid)
          (control-Effect w opcode payload))
        (if-Effect w (opcode == 2) _ _ (err-Effect w binary_unsupported) (
          if-Effect w (opcode == 1) _ _
            (if-Effect w (not (is_empty w.fragments)) _ _ (err-Effect w fragments_overlap)
              (deliver-Effect w begun fin))
            (if-Effect w (opcode == 0) _ _
              (if-Effect w (is_empty w.fragments) _ _ (err-Effect w no_initial_frame)
                (deliver-Effect w more fin))
              (err-Effect w data_unsupported))))

  -- A closed wire reads nothing.
  closed_frames : (n : ℕ) (w : Wire) → consume_frames h n (dead w) ≡ dead w
  unfolding consume_frames parse
  closed_frames zero w = refl
  closed_frames (suc n) w = refl

  no_frame : (w : Wire) → parse h.max_payload_bytes w.fragment_bytes [] ≡ wait
  unfolding parse
  no_frame w = refl

  pub no_bytes : (n : ℕ) (w : Wire) → consume_frames h n (live [] w) ≡ live [] w
  unfolding consume_frames parse
  no_bytes zero w = refl
  no_bytes (suc n) w = refl

  -- More fuel than the bytes ask for changes nothing.
  pub consume_frames-fuel :
      (n m : ℕ) (b : List ℕ) (w : Wire)
      → length b ≤ n
      → length b ≤ m
      → consume_frames h n (live b w) ≡ consume_frames h m (live b w)
  unfolding consume_frames while_running
  consume_frames-fuel n m [] w p q = no_bytes n w ∙ sym (no_bytes m w)
  consume_frames-fuel zero m (x ∷ b) w p q = absurd (omega arith)
  consume_frames-fuel n zero (x ∷ b) w p q = absurd (omega arith)
  consume_frames-fuel (suc n) (suc m) (x ∷ b) w p q =
      let max = h.max_payload_bytes in
      elim (Parsed-cases (parse max w.fragment_bytes (x ∷ b))) [
        | inl e ↦ rw e refl
        | inr (inl (why, e)) ↦ rw e refl
        | inr (inr (opcode, fin, payload, rest, e)) ↦
            let less = parse-rest max w.fragment_bytes (x ∷ b) opcode fin payload rest e in
            rw e (elim (frame-Effect w opcode fin payload) [
              | inr (u, after) ↦ rw (after rest) refl
              | inl (u, after) ↦
                  rw (after rest) (consume_frames-fuel n m rest u (omega arith) (omega arith))
            ])
      ]

  -- What the loop leaves of the bytes `b`: an open wire that waits for more, from which reading any further
  -- bytes gives what reading all of them at once gives, or a closed one.
  pub record Waits (b : List ℕ) (w v : Wire) : Type 0 where
    pub left : List ℕ
    pub settled : Wire
    pub is_live : v ≡ live left settled
    pub shorter : length left ≤ length b
    pub more_wanted : parse h.max_payload_bytes settled.fragment_bytes left ≡ wait
    pub resumes :
        (c : List ℕ) (m : ℕ)
        → length (b ++ c) ≤ m
        → consume_frames h m (live (b ++ c) w) ≡ consume_frames h m (live (left ++ c) settled)

  pub record Ended (b : List ℕ) (w v : Wire) : Type 0 where
    pub ended : Wire
    pub is_dead : v ≡ dead ended
    pub stays :
        (c : List ℕ) (m : ℕ)
        → length (b ++ c) ≤ m
        → consume_frames h m (live (b ++ c) w) ≡ dead ended

  -- One frame is read, and the loop goes on from the bytes behind it.
  one_frame :
      (w u : Wire) (b rest payload : List ℕ) (opcode : ℕ) (fin : Bool)
      → parse h.max_payload_bytes w.fragment_bytes b ≡ frame opcode fin payload rest
      → ((r : List ℕ)
          → after_frame h (live r w) (handle_frame h opcode fin payload (live r w)) ≡ live r u)
      → (c : List ℕ) (m : ℕ) → length (b ++ c) ≤ m
      → consume_frames h m (live (b ++ c) w) ≡ consume_frames h m (live (rest ++ c) u)
  unfolding consume_frames while_running parse
  one_frame w u [] rest payload opcode fin e after c m p = absurd (cc)
  one_frame w u (x ∷ b) rest payload opcode fin e after c zero p = absurd (omega arith)
  one_frame w u (x ∷ b) rest payload opcode fin e after c (suc m) p =
      let more =
        parse-append h.max_payload_bytes w.fragment_bytes (x ∷ b) c opcode fin payload rest e in
      let less =
        parse-rest h.max_payload_bytes w.fragment_bytes (x ∷ b) opcode fin payload rest e in
      rw (more, after (rest ++ c))
        (consume_frames-fuel m (suc m) (rest ++ c) u
          (omega (arith, length-append rest c, length-append b c))
          (omega (arith, length-append rest c, length-append b c)))

  last_frame :
      (w u : Wire) (b rest payload : List ℕ) (opcode : ℕ) (fin : Bool)
      → parse h.max_payload_bytes w.fragment_bytes b ≡ frame opcode fin payload rest
      → ((r : List ℕ)
          → after_frame h (live r w) (handle_frame h opcode fin payload (live r w)) ≡ dead u)
      → (c : List ℕ) (m : ℕ) → length (b ++ c) ≤ m
      → consume_frames h m (live (b ++ c) w) ≡ dead u
  unfolding consume_frames while_running parse
  last_frame w u [] rest payload opcode fin e after c m p = absurd (cc)
  last_frame w u (x ∷ b) rest payload opcode fin e after c zero p = absurd (omega arith)
  last_frame w u (x ∷ b) rest payload opcode fin e after c (suc m) p =
      let more =
        parse-append h.max_payload_bytes w.fragment_bytes (x ∷ b) c opcode fin payload rest e in
      rw (more, after (rest ++ c)) refl

  bad_frame :
      (w : Wire) (b : List ℕ) (why : WireError)
      → parse h.max_payload_bytes w.fragment_bytes b ≡ bad why
      → (c : List ℕ) (m : ℕ) → length (b ++ c) ≤ m
      → consume_frames h m (live (b ++ c) w) ≡ fail why (live [] w)
  unfolding consume_frames parse fail finish
  bad_frame w [] why e c m p = absurd (cc)
  bad_frame w (x ∷ b) why e c zero p = absurd (omega arith)
  bad_frame w (x ∷ b) why e c (suc m) p =
      rw (parse-append_bad h.max_payload_bytes w.fragment_bytes (x ∷ b) c why e) refl

  pub settle :
      (n : ℕ) (b : List ℕ) (w : Wire)
      → length b ≤ n
      → Waits b w (consume_frames h n (live b w)) ⊎ Ended b w (consume_frames h n (live b w))
  unfolding consume_frames while_running fail finish
  settle n [] w p = inl record {
    left = [];
    settled = w;
    is_live = no_bytes n w;
    shorter = omega arith;
    more_wanted = no_frame w;
    resumes = λ c m q. refl;
  }
  settle zero (x ∷ b) w p = absurd (omega arith)
  settle (suc n) (x ∷ b) w p =
      let max = h.max_payload_bytes in
      elim (Parsed-cases (parse max w.fragment_bytes (x ∷ b))) [
        | inl e ↦ rw e (
            inl record {
              left = x ∷ b;
              settled = w;
              is_live = refl;
              shorter = omega arith;
              more_wanted = e;
              resumes = λ c m q. refl;
            })
        | inr (inl (why, e)) ↦ rw e (
            inr record {
              ended = fail why (live [] w);
              is_dead = refl;
              stays = bad_frame w (x ∷ b) why e;
            })
        | inr (inr (opcode, fin, payload, rest, e)) ↦
            let less = parse-rest max w.fragment_bytes (x ∷ b) opcode fin payload rest e in
            rw e (elim (frame-Effect w opcode fin payload) [
              | inr (u, after) ↦ rw (after rest) (
                  inr record {
                    ended = u;
                    is_dead = refl;
                    stays = last_frame w u (x ∷ b) rest payload opcode fin e after;
                  })
              | inl (u, after) ↦
                  let go = one_frame w u (x ∷ b) rest payload opcode fin e after in
                  let inside = λ (c : List ℕ) (m : ℕ) (q : length (x ∷ b ++ c) ≤ m).
                    le_append rest (x ∷ b) c m less q in
                  rw (after rest) (elim (settle n rest u (omega arith)) [
                    | inl s ↦ inl record {
                      left = s.left;
                      settled = s.settled;
                      is_live = s.is_live;
                      shorter = omega (arith, s.shorter);
                      more_wanted = s.more_wanted;
                      resumes = λ c m q. go c m q ∙ s.resumes c m (inside c m q);
                    }
                    | inr s ↦ inr record {
                      ended = s.ended;
                      is_dead = s.is_dead;
                      stays = λ c m q. go c m q ∙ s.stays c m (inside c m q);
                    }
                  ])
            ])
      ]
