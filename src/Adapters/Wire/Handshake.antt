-- ===== src/Adapters/Wire/Handshake.antt =====
-- src/adapters/codex-websocket-wire.js: the check of the server's response to the upgrade request.
-- Texts are lists of code points.
use agent_host.Common.{
  ℕ, zero, suc, ◌-◌, Bool, true, false, ◌&&◌, ◌||◌, not, Option, none, some, List, [], ◌∷◌, ◌++◌,
  ◌==◌, if◌then◌else◌, length, take, drop, is_empty, codes, any, starts, is_blank,
}
use agent_host.Common.Results.{Result, ok, err, ◌>>=◌}
use agent_host.Adapters.Wire.{
  WireError, upgrade_rejected, header_invalid, accept_invalid, extensions_unsupported,
  upgrade_invalid, connection_invalid, Host,
}

-- `indexOf`, counted from `i`.
unfoldable pub index_of : List ℕ → ℕ → List ℕ → Option ℕ
unfolding starts
index_of p i [] = none
index_of p i (c ∷ s) = if starts p (c ∷ s) then some i else index_of p (suc i) s

-- `split`, with the piece so far.
unfoldable pub split : List ℕ → ℕ → List ℕ → List ℕ → List (List ℕ)
unfolding starts
split sep skip piece [] = piece ∷ []
split sep (suc skip) piece (c ∷ s) = split sep skip piece s
split sep zero piece (c ∷ s) =
    let rest = split sep (length sep - 1) [] s in
    if starts sep (c ∷ s) then piece ∷ rest else split sep zero (piece ++ c ∷ []) s

abbrev pub same_codes : List ℕ → List ℕ → Bool
same_codes a b = length a == length b && starts a b

abbrev pub crlf : List ℕ
crlf = 13 ∷ 10 ∷ []

-- `/^HTTP\/1\.1 101(?:\s|$)/`
unfoldable pub accepts_upgrade : List ℕ → Bool
unfolding starts
accepts_upgrade line =
    let after = drop 12 line in
    starts (codes "HTTP/1.1 101") line && (is_empty after || any is_blank (take 1 after))

module _ (h : Host) where
  -- The name and the value of a header line.
  unfoldable pub read_header : List ℕ → Result WireError (List ℕ × List ℕ)
  unfolding index_of
  read_header line = elim (index_of (58 ∷ []) 0 line) [
    | none ↦ err header_invalid
    | some at ↦
        if at == 0
        then err header_invalid
        else ok (h.lower (h.trim (take at line)), h.trim (drop (suc at) line))
  ]

  unfoldable pub read_headers : List (List ℕ) → Result WireError (List (List ℕ × List ℕ))
  unfolding read_header
  read_headers [] = ok []
  read_headers (line ∷ lines) = do
    one ← read_header line
    rest ← read_headers lines
    ok (one ∷ rest)

-- `headers.get`: of two lines with one name the later one counts.
unfoldable pub header : List ℕ → List (List ℕ × List ℕ) → Option (List ℕ)
header name [] = none
header name ((n, v) ∷ rest) = elim (header name rest) [
  | some later ↦ some later
  | none ↦ if same_codes n name then some v else none
]

abbrev has_codes : Option (List ℕ) → List ℕ → Bool
has_codes none s = false
has_codes (some v) s = same_codes v s

abbrev is_given : Option (List ℕ) → Bool
is_given none = false
is_given (some v) = true

abbrev lowered : (List ℕ → List ℕ) → Option (List ℕ) → Option (List ℕ)
lowered f none = none
lowered f (some v) = some (f v)

module _ (h : Host) where
  abbrev mentions_upgrade : Option (List ℕ) → Bool
  mentions_upgrade none = false
  mentions_upgrade (some v) =
      any (λ piece. same_codes (h.trim piece) (codes "upgrade")) (split (44 ∷ []) 0 [] (h.lower v))

  -- The response of the server, without the line that ends it.
  unfoldable pub check_response : List ℕ → Option WireError
  unfolding split accepts_upgrade read_headers header
  check_response text =
      let lines = split crlf 0 [] text in
      if not (accepts_upgrade (elim lines [ [] ↦ [] | l ∷ ls ↦ l ]))
      then some upgrade_rejected
      else (elim (read_headers h (drop 1 lines)) [
        | err e ↦ some e
        | ok headers ↦
            if not (has_codes (header (codes "sec-websocket-accept") headers) h.accept_key)
            then some accept_invalid
            else if is_given (header (codes "sec-websocket-extensions") headers)
            then some extensions_unsupported
            else if not
                (has_codes (lowered h.lower (header (codes "upgrade") headers)) (codes "websocket"))
            then some upgrade_invalid
            else if not (mentions_upgrade (header (codes "connection") headers))
            then some connection_invalid
            else none
      ])
