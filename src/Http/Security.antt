-- ===== src/Http/Security.antt =====
-- src/http/security.js: the checks of a request's host, origin, token and content type, and
-- src/http/server.js: which of them a request meets. A header is a text
-- or missing; the URL parser, UTF-8, trim and toLowerCase are the host's.
pub mod Admission
use agent_host.Common.{
  ℕ, ◌+◌, String, Bool, true, false, ◌&&◌, ◌||◌, not, Option, none, some, List, [], ◌∷◌, ◌==◌, leb,
  ◌=?◌, if◌then◌else◌, codes, any, all, is_empty, length, drop, get_or, starts, is_blank,
}
use agent_host.Common.Results.{Result, ok, err, ◌>>=◌}

pub data SecurityError : Type 0 where
  invalid_host origin_not_allowed authentication_required invalid_token : SecurityError
  unsupported_media_type origin_required cors_method_not_allowed cors_headers_not_allowed :
      SecurityError

pub record Url : Type 0 where
  pub protocol : String
  pub hostname : String
  pub port : String
  pub origin : String

pub record Host : Type 0 where
  -- `new URL(value)`; `none` is that it throws.
  pub parse_url : String → Option Url
  -- `http://${value}`
  pub with_scheme : String → String
  -- `Buffer.from` of code points
  pub utf8 : List ℕ → List ℕ
  -- `String(value).split(";", 1)[0].trim().toLowerCase()`
  pub media_type : String → String
  -- `toUpperCase`, and the texts between commas, trimmed and in lower case
  pub upper : String → String
  pub names : String → List String

pub record Security : Type 0 where
  pub api_token : String
  pub allowed_origins : List String
  pub allowed_hosts : List String

-- What is read of a request: its method, the path of its URL as code points, and its headers, of which
-- `requested_method` and `requested_headers` are those of a preflight.
pub record Request : Type 0 where
  pub method : String
  pub path : List ℕ
  pub host : Option String
  pub origin : Option String
  pub authorization : Option String
  pub requested_method : Option String
  pub requested_headers : Option String

-- A preflight is answered for its origin; another request is handled, with the origin it may answer to.
pub data Admitted : Type 0 where
  answers : String → Admitted
  handles : Option String → Admitted

-- The path without the prefix "/agent-host".
unfoldable pub routed : List ℕ → List ℕ
unfolding starts
routed path =
    let rest = drop (length (codes "/agent-host")) path in
    if starts (codes "/agent-host") path && is_empty rest
    then codes "/"
    else if starts (codes "/agent-host/") path
    then rest
    else path

unfoldable pub asks_api : List ℕ → Bool
unfolding starts
asks_api path =
    starts (codes "/v1") path && is_empty (drop (length (codes "/v1")) path)
    || starts (codes "/v1/") path

abbrev pub default_hosts : List String
default_hosts = "127.0.0.1" ∷ "localhost" ∷ "[::1]" ∷ []

abbrev pub allowed_cors_headers : List String
allowed_cors_headers = "authorization" ∷ "content-type" ∷ "idempotency-key" ∷ []

abbrev pub allowed_cors_methods : List String
allowed_cors_methods = "GET" ∷ "POST" ∷ []

abbrev pub includes : List String → String → Bool
includes xs x = any (λ y. y =? x) xs

-- `/^Bearer /i`, against the lower case, and what follows.
unfoldable pub after_bearer : List ℕ → List ℕ → Option (List ℕ)
after_bearer [] s = some s
after_bearer (p ∷ ps) [] = none
after_bearer (p ∷ ps) (c ∷ s) =
    if p == c || leb 65 c && leb c 90 && p == c + 32 then after_bearer ps s else none

-- The token of `/^Bearer ([^\s]+)$/i`
unfoldable pub bearer_token : String → Option (List ℕ)
unfolding after_bearer
bearer_token authorization = elim (after_bearer (codes "bearer ") (codes authorization)) [
  | none ↦ none
  | some token ↦ if is_empty token || any is_blank token then none else some token
]

-- `timingSafeEqual` of buffers of one length
unfoldable pub same_bytes : List ℕ → List ℕ → Bool
same_bytes [] [] = true
same_bytes (a ∷ xs) (b ∷ ys) = a == b && same_bytes xs ys
same_bytes xs ys = false

module _ (h : Host) where
  unfoldable pub safe_equal : List ℕ → List ℕ → Bool
  unfolding same_bytes
  safe_equal actual expected =
      let a = h.utf8 actual in
      let e = h.utf8 expected in
      let comparable = if length a == length e then a else map_zero e in
      same_bytes comparable e && length a == length e
    where
      map_zero : List ℕ → List ℕ
      map_zero [] = []
      map_zero (x ∷ xs) = 0 ∷ map_zero xs

  unfoldable pub authenticate : Security → Option String → Result SecurityError Bool
  unfolding bearer_token safe_equal
  authenticate s none = err authentication_required
  authenticate s (some authorization) =
      if authorization =? ""
      then err authentication_required
      else (elim (bearer_token authorization) [
        | none ↦ err invalid_token
        | some token ↦ if safe_equal token (codes s.api_token) then ok true else err invalid_token
      ])

  unfoldable pub normalize_origin : String → Result SecurityError String
  normalize_origin value =
      if value =? "null" then err origin_not_allowed else (elim (h.parse_url value) [
        | none ↦ err origin_not_allowed
        | some url ↦
            if not ((url.protocol =? "http:") || (url.protocol =? "https:"))
              || not (url.origin =? value)
            then err origin_not_allowed
            else ok url.origin
      ])

  unfoldable pub validate_origin :
      Security → Option String → String → Result SecurityError (Option String)
  unfolding normalize_origin
  validate_origin s none request_origin = ok none
  validate_origin s (some raw) request_origin = do
    origin ← normalize_origin raw
    (if not (origin =? request_origin) && not (includes s.allowed_origins origin)
        then err origin_not_allowed
        else ok (some origin))

  -- `port` is the text of the port that the server listens on.
  unfoldable pub validate_host : Security → Option String → String → Result SecurityError String
  validate_host s none port = err invalid_host
  validate_host s (some raw) port =
      if raw =? "" then err invalid_host else (elim (h.parse_url (h.with_scheme raw)) [
        | none ↦ err invalid_host
        | some url ↦
            if not (includes s.allowed_hosts url.hostname)
              || not ((if url.port =? "" then "80" else url.port) =? port)
            then err invalid_host
            else ok url.origin
      ])

  -- What a preflight may be answered with; `none` is a missing header.
  unfoldable pub preflight :
      Option String → Option String → Option String → Result SecurityError String
  preflight none method headers = err origin_required
  preflight (some origin) method headers =
      if not (includes allowed_cors_methods (h.upper (get_or method "")))
      then err cors_method_not_allowed
      else if any (λ x. not (x =? "") && not (includes allowed_cors_headers x))
          (h.names (get_or headers ""))
      then err cors_headers_not_allowed
      else ok origin

  unfoldable pub require_json : Option String → Result SecurityError Bool
  require_json content_type =
      if h.media_type (get_or content_type "") =? "application/json"
      then ok true
      else err unsupported_media_type

  -- What src/http/server.js asks of a request before it handles it: a preflight is answered, and the API
  -- needs the token.
  unfoldable pub enter : Security → Request → Option String → Result SecurityError Admitted
  unfolding authenticate preflight routed asks_api
  enter s r origin =
      if r.method =? "OPTIONS"
      then (do
        answered ← preflight origin r.requested_method r.requested_headers
        ok (answers answered))
      else if asks_api (routed r.path)
      then (do known ← authenticate s r.authorization; ok (handles origin))
      else ok (handles origin)

  unfoldable pub admit : Security → Request → String → Result SecurityError Admitted
  unfolding validate_host validate_origin enter
  admit s r port = do
    request_origin ← validate_host s r.host port
    origin ← validate_origin s r.origin request_origin
    enter s r origin
