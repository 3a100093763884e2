-- ===== src/Adapters/Wire/Parse.antt =====
-- The reader of one frame: what it takes from the bytes, and that later bytes change nothing it has
-- decided.
use agent_host.Common.{
  ℕ, zero, suc, ◌+◌, ◌≤◌, ◌≡◌, refl, Bool, true, false, not, List, [], ◌∷◌, ◌++◌, arith, ltb, leb,
  ◌==◌, if◌then◌else◌, length, take, drop, length-append, length-drop, inl, inr, ◌⊎◌, if-cases,
  Bool-cases, ap, ◌*◌, ◌/◌, ◌%◌, ◌-◌,
}
use mathlib.Core.Path.{subst}
use agent_host.Adapters.Wire.{
  WireError, read_be, Parsed, wait, bad, frame, parse, parse_length, parse_payload,
  payload_too_large,
}

-- A frame leaves fewer bytes than it was read from.
abbrev pub Shrinks : ℕ → Parsed → Type 0
Shrinks n wait = Unit
Shrinks n (bad e) = Unit
Shrinks n (frame opcode fin payload rest) = length rest ≤ n

pub parse_payload-Shrinks :
    (max held opcode : ℕ) (fin : Bool) (n : ℕ) (body : List ℕ)
    → Shrinks (length body) (parse_payload max held opcode fin n body)
unfolding parse_payload
parse_payload-Shrinks max held opcode fin n body = ground (arith, length-drop n body)

Shrinks-weaken : (m n : ℕ) (p : Parsed) → m ≤ n → Shrinks m p → Shrinks n p
Shrinks-weaken m n wait le s = tt
Shrinks-weaken m n (bad e) le s = tt
Shrinks-weaken m n (frame opcode fin payload rest) le s = omega arith

drop-Shrinks :
    (k max held opcode : ℕ) (fin : Bool) (n : ℕ) (body : List ℕ)
    → Shrinks (length body) (parse_payload max held opcode fin n (drop k body))
drop-Shrinks k max held opcode fin n body =
    Shrinks-weaken (length (drop k body)) (length body)
      (parse_payload max held opcode fin n (drop k body)) (omega (arith, length-drop k body))
      (parse_payload-Shrinks max held opcode fin n (drop k body))

parse_length-Shrinks :
    (max held opcode : ℕ) (fin : Bool) (n : ℕ) (body : List ℕ)
    → Shrinks (length body) (parse_length max held opcode fin n body)
unfolding parse_length
parse_length-Shrinks max held opcode fin n body = ground (
  arith,
  drop-Shrinks 2 max held opcode fin (read_be 2 0 body) body,
  drop-Shrinks 8 max held opcode fin (read_be 8 0 body) body,
  parse_payload-Shrinks max held opcode fin n body,
)

-- A frame takes two bytes at least.
pub parse-Shrinks : (max held : ℕ) (bs : List ℕ) → Shrinks (length bs - 2) (parse max held bs)
unfolding parse
parse-Shrinks max held [] = tt
parse-Shrinks max held (first ∷ []) = tt
parse-Shrinks max held (first ∷ second ∷ body) =
    let s = parse_length-Shrinks max held (first % 16) (leb 128 first) (second % 128) body in
    let Less = Shrinks (length (first ∷ second ∷ body) - 2) in
    if-cases Less (not (first / 16 % 8 == 0)) _ _ (λ _. tt)
      λ _.
        if-cases Less (leb 128 second) _ _ (λ _. tt)
          λ _. Shrinks-weaken (length body) (length (first ∷ second ∷ body) - 2) _ (omega arith) s

-- What reading with further bytes behind gives: the same, but for the bytes left over.
abbrev pub Extends : List ℕ → Parsed → Parsed → Type 0
Extends c wait q = Unit
Extends c (bad e) q = q ≡ bad e
Extends c (frame opcode fin payload rest) q = q ≡ frame opcode fin payload (rest ++ c)

pub take-append : (n : ℕ) (bs c : List ℕ) → n ≤ length bs → take n (bs ++ c) ≡ take n bs
take-append zero bs c le = refl
take-append (suc n) [] c le = absurd (omega arith)
take-append (suc n) (b ∷ bs) c le = ap (λ z. b ∷ z) (take-append n bs c (omega arith))

pub drop-append : (n : ℕ) (bs c : List ℕ) → n ≤ length bs → drop n (bs ++ c) ≡ drop n bs ++ c
drop-append zero bs c le = refl
drop-append (suc n) [] c le = absurd (omega arith)
drop-append (suc n) (b ∷ bs) c le = drop-append n bs c (omega arith)

read_be-append :
    (n acc : ℕ) (bs c : List ℕ) → n ≤ length bs → read_be n acc (bs ++ c) ≡ read_be n acc bs
unfolding read_be
read_be-append zero acc bs c le = refl
read_be-append (suc n) acc [] c le = absurd (omega arith)
read_be-append (suc n) acc (b ∷ bs) c le = read_be-append n (acc * 256 + b) bs c (omega arith)

parse_payload-Extends :
    (max held opcode : ℕ) (fin : Bool) (n : ℕ) (body c : List ℕ)
    → Extends c
        (parse_payload max held opcode fin n body)
        (parse_payload max held opcode fin n (body ++ c))
unfolding parse_payload
parse_payload-Extends max held opcode fin n body c =
    ground (arith, length-append body c, take-append n body c, drop-append n body c)

-- The payload behind a length of `k` bytes.
long_payload-Extends :
    (k max held opcode : ℕ) (fin : Bool) (body c : List ℕ)
    → leb k (length body) ≡ true
    → Extends c
        (parse_payload max held opcode fin (read_be k 0 body) (drop k body))
        (parse_payload max held opcode fin (read_be k 0 (body ++ c)) (drop k (body ++ c)))
long_payload-Extends k max held opcode fin body c le =
    rw (read_be-append k 0 body c (ground arith), drop-append k body c (ground arith))
      (parse_payload-Extends max held opcode fin (read_be k 0 body) (drop k body) c)

longer-ltb :
    (k : ℕ) (body c : List ℕ) → ltb (length body) k ≡ false → ltb (length (body ++ c)) k ≡ false
longer-ltb k body c many = ground (arith, length-append body c)

-- A length of two bytes, and one of eight that is compared before its payload is looked at.
short_branch-Extends :
    (max held opcode : ℕ) (fin : Bool) (body c : List ℕ)
    → Extends c
        (if ltb (length body) 2
          then wait
          else parse_payload max held opcode fin (read_be 2 0 body) (drop 2 body))
        (if ltb (length (body ++ c)) 2
          then wait
          else parse_payload max held opcode fin (read_be 2 0 (body ++ c)) (drop 2 (body ++ c)))
short_branch-Extends max held opcode fin body c =
    ground (arith, length-append body c, long_payload-Extends 2 max held opcode fin body c)

long_branch-Extends :
    (max held opcode : ℕ) (fin : Bool) (body c : List ℕ)
    → Extends c
        (if ltb (length body) 8
          then wait
          else if ltb max (read_be 8 0 body)
          then bad payload_too_large
          else parse_payload max held opcode fin (read_be 8 0 body) (drop 8 body))
        (if ltb (length (body ++ c)) 8
          then wait
          else if ltb max (read_be 8 0 (body ++ c))
          then bad payload_too_large
          else parse_payload max held opcode fin (read_be 8 0 (body ++ c)) (drop 8 (body ++ c)))
long_branch-Extends max held opcode fin body c = elim (Bool-cases (ltb (length body) 8)) [
  | inl few ↦ rw few tt
  | inr many ↦
      rw (many, longer-ltb 8 body c many, read_be-append 8 0 body c (ground arith))
        (elim (Bool-cases (ltb max (read_be 8 0 body))) [
          | inl large ↦ rw large refl
          | inr fits ↦ rw fits (
              rw (read_be-append 8 0 body c (ground arith)) at
                (long_payload-Extends 8 max held opcode fin body c (ground arith)))
        ])
]

parse_length-Extends :
    (max held opcode : ℕ) (fin : Bool) (n : ℕ) (body c : List ℕ)
    → Extends c
        (parse_length max held opcode fin n body)
        (parse_length max held opcode fin n (body ++ c))
unfolding parse_length
parse_length-Extends max held opcode fin n body c = elim (Bool-cases (n == 126)) [
  | inl two ↦ rw two (short_branch-Extends max held opcode fin body c)
  | inr other ↦ rw other (elim (Bool-cases (n == 127)) [
    | inl eight ↦ rw eight (long_branch-Extends max held opcode fin body c)
    | inr short ↦ rw short (parse_payload-Extends max held opcode fin n body c)
  ])
]

pub parse-Extends :
    (max held : ℕ) (bs c : List ℕ) → Extends c (parse max held bs) (parse max held (bs ++ c))
unfolding parse
parse-Extends max held [] c = tt
parse-Extends max held (first ∷ []) c = tt
parse-Extends max held (first ∷ second ∷ body) c =
    let s = parse_length-Extends max held (first % 16) (leb 128 first) (second % 128) body c in
    ground (arith, s)

-- To split on what was read and keep the equation.
pub Parsed-cases :
    (p : Parsed)
    → (p ≡ wait)
      ⊎ (((e : WireError) × (p ≡ bad e))
          ⊎ ((opcode : ℕ) × (fin : Bool) × (payload : List ℕ) × (rest : List ℕ) × (p
                ≡ frame opcode fin payload rest)))
Parsed-cases wait = inl refl
Parsed-cases (bad e) = inr (inl (e, refl))
Parsed-cases (frame opcode fin payload rest) = inr (inr (opcode, fin, payload, rest, refl))

-- The bytes behind a frame.
pub parse-rest :
    (max held : ℕ) (bs : List ℕ) (opcode : ℕ) (fin : Bool) (payload rest : List ℕ)
    → parse max held bs ≡ frame opcode fin payload rest
    → length rest ≤ length bs - 2
parse-rest max held bs opcode fin payload rest e =
    subst (Shrinks (length bs - 2)) e (parse-Shrinks max held bs)

pub parse-append :
    (max held : ℕ) (bs c : List ℕ) (opcode : ℕ) (fin : Bool) (payload rest : List ℕ)
    → parse max held bs ≡ frame opcode fin payload rest
    → parse max held (bs ++ c) ≡ frame opcode fin payload (rest ++ c)
parse-append max held bs c opcode fin payload rest e =
    subst (λ p. Extends c p (parse max held (bs ++ c))) e (parse-Extends max held bs c)

pub parse-append_bad :
    (max held : ℕ) (bs c : List ℕ) (e : WireError)
    → parse max held bs ≡ bad e
    → parse max held (bs ++ c) ≡ bad e
parse-append_bad max held bs c e q =
    subst (λ p. Extends c p (parse max held (bs ++ c))) q (parse-Extends max held bs c)
