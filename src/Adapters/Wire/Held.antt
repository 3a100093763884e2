-- ===== src/Adapters/Wire/Held.antt =====
-- What a wire holds of an unfinished message, and that handling a frame keeps it within the bound.
use agent_host.Common.{
  ℕ, ◌+◌, ◌≤◌, ◌%◌, ◌/◌, ◌≡◌, refl, sym, inl, inr, Bool, true, List, [], ◌∷◌, ◌++◌, arith, length,
  leb, ltb, ◌==◌, if-cases, Option-cases, not, ◌||◌, is_empty, drop, sum_of, sum_of-append,
  length-take-le,
}
use mathlib.Core.Path.{subst}
use agent_host.Common.Results.{Result, ok, err}
use agent_host.Adapters.Wire.{
  WireError, Phase, running, closed, idle, handshake, Wire, Host, fail, finish, send_frame, Parsed,
  wait, bad, frame, parse, parse_length, parse_payload, handle_frame, handle_control, deliver,
  concat, read_be,
}

-- The bytes of the fragments are counted, and are within the bound; a closed wire holds nothing.
abbrev pub Released : Phase → List ℕ → List (List ℕ) → Type 0
Released closed b fs = (b ≡ []) × (fs ≡ [])
Released _ b fs = Unit

pub record HoldsWithin (h : Host) (w : Wire) : Type 0 where
  pub counted : w.fragment_bytes ≡ sum_of length w.fragments
  pub within : w.fragment_bytes ≤ h.max_payload_bytes
  pub released : Released w.phase w.buffer w.fragments

-- A data frame that is read fits with what is held.
abbrev pub Fits : ℕ → ℕ → Parsed → Type 0
Fits max held wait = Unit
Fits max held (bad e) = Unit
Fits max held (frame opcode fin payload rest) =
    (length payload ≤ max) × (leb opcode 2 ≡ true → held + length payload ≤ max)

parse_payload-Fits :
    (max held opcode : ℕ) (fin : Bool) (n : ℕ) (body : List ℕ)
    → Fits max held (parse_payload max held opcode fin n body)
unfolding parse_payload
parse_payload-Fits max held opcode fin n body = ground (arith, length-take-le n body)

pub parse-Fits : (max held : ℕ) (bs : List ℕ) → Fits max held (parse max held bs)
unfolding parse parse_length
parse-Fits max held [] = tt
parse-Fits max held (first ∷ []) = tt
parse-Fits max held (first ∷ second ∷ body) =
    let F = Fits max held in
    let op = first % 16 in
    let fin = leb 128 first in
    if-cases F (not (first / 16 % 8 == 0)) _ _ (λ _. tt)
      λ _.
        if-cases F (leb 128 second) _ _ (λ _. tt)
          λ _.
            if-cases F (second % 128 == 126) _ _
              (λ _.
                if-cases F (ltb (length body) 2) _ _ (λ _. tt)
                  λ _. parse_payload-Fits max held op fin (read_be 2 0 body) (drop 2 body))
              λ _.
                if-cases F (second % 128 == 127) _ _
                  (λ _.
                    if-cases F (ltb (length body) 8) _ _ (λ _. tt)
                      λ _.
                        if-cases F (ltb max (read_be 8 0 body)) _ _ (λ _. tt)
                          λ _. parse_payload-Fits max held op fin (read_be 8 0 body) (drop 8 body))
                  λ _. parse_payload-Fits max held op fin (second % 128) body

module _ (h : Host) where
  pub finish-HoldsWithin : (w : Wire) → HoldsWithin h w → HoldsWithin h (finish w)
  unfolding finish
  finish-HoldsWithin w b = at_phase w.phase b
    where
      at_phase :
          (p : Phase)
          → HoldsWithin h (record w { phase = p })
          → HoldsWithin h (finish (record w { phase = p }))
      at_phase closed b = b
      at_phase idle b = record { counted = refl; within = omega arith; released = (refl, refl) }
      at_phase handshake b = record {
        counted = refl;
        within = omega arith;
        released = (refl, refl);
      }
      at_phase running b = record { counted = refl; within = omega arith; released = (refl, refl) }

  pub fail-HoldsWithin : (e : WireError) (w : Wire) → HoldsWithin h w → HoldsWithin h (fail e w)
  unfolding fail finish
  fail-HoldsWithin e w b = at_phase w.phase b
    where
      at_phase :
          (p : Phase)
          → HoldsWithin h (record w { phase = p })
          → HoldsWithin h (fail e (record w { phase = p }))
      at_phase closed b = b
      at_phase idle b = record { counted = refl; within = omega arith; released = (refl, refl) }
      at_phase handshake b = record {
        counted = refl;
        within = omega arith;
        released = (refl, refl);
      }
      at_phase running b = record { counted = refl; within = omega arith; released = (refl, refl) }

  abbrev pub Good : Result WireError Wire → Type 0
  Good (ok w) = HoldsWithin h w
  Good (err e) = Unit

  pub running_bounded :
      (w : Wire)
      → w.phase ≡ running
      → w.fragment_bytes ≡ sum_of length w.fragments
      → w.fragment_bytes ≤ h.max_payload_bytes
      → HoldsWithin h w
  running_bounded w r c l = record {
    counted = c;
    within = l;
    released = subst (λ p. Released p w.buffer w.fragments) (sym r) tt;
  }

  deliver-Good :
      (fin : Bool) (w : Wire)
      → w.phase ≡ running
      → w.fragment_bytes ≡ sum_of length w.fragments
      → w.fragment_bytes ≤ h.max_payload_bytes
      → Good (deliver h fin w)
  unfolding deliver
  deliver-Good fin w r c l =
      if-cases Good (not fin) _ _ (λ _. running_bounded w r c l)
        λ _. elim (Option-cases (h.decode (concat w.fragments))) [
          | inl e ↦ rw e tt
          | inr (text, e) ↦ rw e (
              running_bounded
                (record w {
                  fragments = [];
                  fragment_bytes = 0;
                  messages = w.messages ++ text ∷ [];
                })
                r refl (omega arith))
        ]

  handle_control-Good :
      (opcode : ℕ) (payload : List ℕ) (w : Wire)
      → HoldsWithin h w
      → Good (handle_control h opcode payload w)
  unfolding handle_control send_frame
  handle_control-Good opcode payload w b =
      let said = send_frame h 8 payload w in
      let closed' =
        finish-HoldsWithin said
          record { counted = b.counted; within = b.within; released = b.released } in
      if-cases Good (opcode == 8) _ _
        (λ _. record {
          counted = closed'.counted;
          within = closed'.within;
          released = closed'.released;
        })
        λ _.
          if-cases Good (opcode == 9) _ _
            (λ _. record { counted = b.counted; within = b.within; released = b.released })
            λ _. if-cases Good (opcode == 10) _ _ (λ _. b) λ _. tt

  pub handle_frame-Good :
      (opcode : ℕ) (fin : Bool) (payload : List ℕ) (w : Wire)
      → w.phase ≡ running
      → HoldsWithin h w
      → length payload ≤ h.max_payload_bytes
      → (leb opcode 2 ≡ true → w.fragment_bytes + length payload ≤ h.max_payload_bytes)
      → Good (handle_frame h opcode fin payload w)
  unfolding handle_frame
  handle_frame-Good opcode fin payload w r b one both =
      if-cases Good (leb 8 opcode) _ _
        (λ _.
          if-cases Good (not fin || ltb 125 (length payload)) _ _ (λ _. tt)
            λ _. handle_control-Good opcode payload w b)
        λ _.
          if-cases Good (opcode == 2) _ _ (λ _. tt)
            λ _.
              if-cases Good (opcode == 1) _ _
                (λ _.
                  if-cases Good (not (is_empty w.fragments)) _ _ (λ _. tt)
                    λ _.
                      deliver-Good fin
                        (record w { fragments = payload ∷ []; fragment_bytes = length payload }) r
                        (omega arith) one)
                λ _.
                  if-cases Good (opcode == 0) _ _
                    (λ zero_op.
                      if-cases Good (is_empty w.fragments) _ _ (λ _. tt)
                        λ _.
                          deliver-Good fin
                            (record w {
                              fragments = w.fragments ++ payload ∷ [];
                              fragment_bytes = w.fragment_bytes + length payload;
                            })
                            r
                            (omega
                              (arith, sum_of-append length w.fragments (payload ∷ []), b.counted))
                            (both (ground arith)))
                    λ _. tt
