-- ===== src/Http/Security/Admission.antt =====
-- What an admitted request has shown.
use agent_host.Common.{
  ℕ, String, get_or, any, ◌&&◌, ◌≡◌, refl, sym, ap, ◌∙◌, ◌⊎◌, inl, inr, Bool, true, ◌||◌, not,
  Option, none, some, List, [], ◌∷◌, ◌++◌, arith, ◌==◌, ◌=?◌, eq_iff, if◌then◌else◌, if-cases,
  codes, starts, length, Option-cases, Bool-cases,
}
use mathlib.Core.Path.{subst}
use agent_host.Common.Results.{Result, ok, Result-cases}
use agent_host.Http.Security.{
  Host, Url, Security, SecurityError, includes, allowed_cors_methods, allowed_cors_headers,
  bearer_token, same_bytes, safe_equal, authenticate, normalize_origin, validate_origin,
  validate_host, preflight, admit, Request, Admitted, answers, handles, routed, asks_api, enter,
}

same_bytes-eq : (xs ys : List ℕ) → same_bytes xs ys ≡ true → xs ≡ ys
unfolding same_bytes
same_bytes-eq [] [] e = refl
same_bytes-eq [] (y ∷ ys) e = absurd (cc)
same_bytes-eq (x ∷ xs) [] e = absurd (cc)
same_bytes-eq (x ∷ xs) (y ∷ ys) e = ground (arith, same_bytes-eq xs ys)

-- The paths of the API: /v1 and those under it, as they stand or after /agent-host.
abbrev pub AsksApi : List ℕ → Type 0
AsksApi path =
    (before : List ℕ) × (after : List ℕ) × (path ≡ before ++ codes "/v1" ++ after)
    × ((before ≡ []) ⊎ (before ≡ codes "/agent-host"))
    × ((after ≡ []) ⊎ ((rest : List ℕ) × (after ≡ codes "/" ++ rest)))

asks_api-AsksApi : (path : List ℕ) → AsksApi path → asks_api (routed path) ≡ true
unfolding asks_api routed starts
asks_api-AsksApi path (b, a, e, inl none_before, inl bare) = rw (e, none_before, bare) refl
asks_api-AsksApi path (b, a, e, inr prefixed, inl bare) = rw (e, prefixed, bare) refl
asks_api-AsksApi path (b, a, e, inl none_before, inr (rest, under)) =
    rw (e, none_before, under) refl
asks_api-AsksApi path (b, a, e, inr prefixed, inr (rest, under)) = rw (e, prefixed, under) refl

module _ (h : Host) where
  safe_equal-eq :
      (actual expected : List ℕ)
      → safe_equal h actual expected ≡ true
      → h.utf8 actual ≡ h.utf8 expected
  unfolding safe_equal
  safe_equal-eq actual expected e =
      elim (Bool-cases (length (h.utf8 actual) == length (h.utf8 expected))) [
        | inl same ↦ same_bytes-eq (h.utf8 actual) (h.utf8 expected) (ground (arith, e, same))
        | inr other ↦ absurd (ground (arith, e, other))
      ]

  -- The header carries a token with the bytes of the configured one.
  abbrev pub Bears : Security → Option String → Type 0
  Bears s authorization =
      (header : String) × (token : List ℕ) × (authorization ≡ some header)
      × (bearer_token header ≡ some token)
      × (h.utf8 token ≡ h.utf8 (codes s.api_token))

  authenticate-Bears :
      (s : Security) (authorization : Option String) (known : Bool)
      → authenticate h s authorization ≡ ok known
      → Bears s authorization
  unfolding authenticate
  authenticate-Bears s none known = λ e. absurd (cc)
  authenticate-Bears s (some header) known =
      let P = λ (r : Result SecurityError Bool). r ≡ ok known → Bears s (some header) in
      if-cases P (header =? "") _ _ (λ _ e. absurd (cc))
        λ _. elim (Option-cases (bearer_token header)) [
          | inl missing ↦ rw (missing, authenticate) (λ e. absurd (cc))
          | inr (token, found) ↦
              rw (found, authenticate)
                (if-cases P (safe_equal h token (codes s.api_token)) _ _
                  (λ equal e.
                    (header, token, refl, found, safe_equal-eq token (codes s.api_token) equal))
                  λ _ e. absurd (cc))
        ]

  -- The request comes from no page, from the host itself, or from an origin that was configured.
  abbrev pub Comes : Security → Option String → String → Option String → Type 0
  Comes s raw request_origin origin =
      ((raw ≡ none) × (origin ≡ none))
      ⊎ ((o : String) × (raw ≡ some o)
          × (origin ≡ some o)
          × ((o ≡ request_origin) ⊎ (includes s.allowed_origins o ≡ true)))

  normalize_origin-same :
      (value origin : String) → normalize_origin h value ≡ ok origin → origin ≡ value
  unfolding normalize_origin
  normalize_origin-same value origin =
      let P = λ (r : Result SecurityError String). r ≡ ok origin → origin ≡ value in
      if-cases P (value =? "null") _ _ (λ _ e. absurd (cc))
        λ _. elim (Option-cases (h.parse_url value)) [
          | inl bad ↦ rw bad (λ e. absurd (cc))
          | inr (url, parsed) ↦ rw parsed (
              if-cases P
                (not ((url.protocol =? "http:") || (url.protocol =? "https:"))
                  || not (url.origin =? value))
                _ _ (λ _ e. absurd (cc))
                λ fine e.
                  let first : url.origin ≡ origin = cc in
                  sym first ∙ (eq_iff url.origin value).0 (ground arith))
        ]

  validate_origin-Comes :
      (s : Security) (raw : Option String) (request_origin : String) (origin : Option String)
      → validate_origin h s raw request_origin ≡ ok origin
      → Comes s raw request_origin origin
  unfolding validate_origin
  validate_origin-Comes s none request_origin origin e = inl (refl, cc)
  validate_origin-Comes s (some raw) request_origin origin e =
      elim (Result-cases (normalize_origin h raw)) [
        | inr (x, bad) ↦ absurd (let f = rw (bad, validate_origin) at e in cc)
        | inl (o, fine) ↦
            let same = normalize_origin-same raw o fine in
            let rest = rw (fine, validate_origin) at e in
            elim (Bool-cases (o =? request_origin)) [
              | inl own ↦ inr (
                o,
                ap (λ z. some z) (sym same),
                ground (arith, rest, own),
                inl ((eq_iff o request_origin).0 own),
              )
              | inr other ↦ elim (Bool-cases (includes s.allowed_origins o)) [
                | inl known ↦
                    inr (
                      o,
                      ap (λ z. some z) (sym same),
                      ground (arith, rest, other, known),
                      inr known,
                    )
                | inr unknown ↦ absurd (ground (arith, rest, other, unknown))
              ]
            ]
      ]

  -- The host header names an allowed host at the port of the server.
  abbrev pub Reaches : Security → Option String → String → String → Type 0
  Reaches s raw port origin =
      (header : String) × (url : Url) × (raw ≡ some header)
      × (h.parse_url (h.with_scheme header) ≡ some url)
      × (includes s.allowed_hosts url.hostname ≡ true)
      × ((if url.port =? "" then "80" else url.port) ≡ port)
      × (url.origin ≡ origin)

  validate_host-Reaches :
      (s : Security) (raw : Option String) (port origin : String)
      → validate_host h s raw port ≡ ok origin
      → Reaches s raw port origin
  unfolding validate_host
  validate_host-Reaches s none port origin = λ e. absurd (cc)
  validate_host-Reaches s (some raw) port origin =
      let P =
        λ (r : Result SecurityError String). r ≡ ok origin → Reaches s (some raw) port origin in
      if-cases P (raw =? "") _ _ (λ _ e. absurd (cc))
        λ _. elim (Option-cases (h.parse_url (h.with_scheme raw))) [
          | inl bad ↦ rw (bad, validate_host) (λ e. absurd (cc))
          | inr (url, parsed) ↦
              let actual = if url.port =? "" then "80" else url.port in
              rw (parsed, validate_host)
                (if-cases P (not (includes s.allowed_hosts url.hostname) || not (actual =? port)) _
                  _ (λ _ e. absurd (cc))
                  λ fine e. (
                    raw,
                    url,
                    refl,
                    parsed,
                    ground arith,
                    (eq_iff actual port).0 (ground arith),
                    cc,
                  ))
        ]

  -- What an admitted request has shown: the origin it comes from is `origin`.
  abbrev pub Shows : Security → Request → Admitted → Option String → Type 0
  Shows s r (answers o) origin = (r.method ≡ "OPTIONS") × (origin ≡ some o)
  Shows s r (handles o) origin = (origin ≡ o) × (¬ AsksApi r.path ⊎ Bears s r.authorization)

  preflight-origin :
      (origin method headers : Option String) (x : String)
      → preflight h origin method headers ≡ ok x
      → origin ≡ some x
  unfolding preflight
  preflight-origin none method headers x = λ e. absurd (cc)
  preflight-origin (some o) method headers x =
      let P = λ (r : Result SecurityError String). r ≡ ok x → some o ≡ some x in
      if-cases P (not (includes allowed_cors_methods (h.upper (get_or method "")))) _ _
        (λ _ e. absurd (cc))
        λ _.
          if-cases P
            (any (λ y. not (y =? "") && not (includes allowed_cors_headers y))
              (h.names (get_or headers "")))
            _ _ (λ _ e. absurd (cc)) λ _ e. cc

  enter-Shows :
      (s : Security) (r : Request) (origin : Option String) (a : Admitted)
      → enter h s r origin ≡ ok a
      → Shows s r a origin
  unfolding enter
  enter-Shows s r origin a =
      let P = λ (x : Result SecurityError Admitted). x ≡ ok a → Shows s r a origin in
      if-cases P (r.method =? "OPTIONS") _ _
        (λ options.
          elim (Result-cases (preflight h origin r.requested_method r.requested_headers)) [
            | inl (x, answered) ↦ rw answered (λ e.
                let same : answers x ≡ a = cc in
                subst (λ b. Shows s r b origin) same
                  (
                    (eq_iff r.method "OPTIONS").0 options,
                    preflight-origin origin r.requested_method r.requested_headers x answered,
                  ))
            | inr (x, bad) ↦ rw bad (λ e. absurd (cc))
          ])
        λ _.
          if-cases P (asks_api (routed r.path)) _ _
            (λ api. elim (Result-cases (authenticate h s r.authorization)) [
              | inl (known, bore) ↦ rw bore (λ e.
                  let same : handles origin ≡ a = cc in
                  subst (λ b. Shows s r b origin) same
                    (refl, inr (authenticate-Bears s r.authorization known bore)))
              | inr (x, bad) ↦ rw bad (λ e. absurd (cc))
            ])
            (λ other e.
              let same : handles origin ≡ a = cc in
              subst (λ b. Shows s r b origin) same
                (refl, inl (λ asks. let api = asks_api-AsksApi r.path asks in absurd (cc))))

  -- An admitted request reaches an allowed host at the port of the server, and comes from no page, from
  -- that host's origin or from a configured one. If it is answered as a preflight, its method is OPTIONS
  -- and it names an origin. If it is handled and its path is /v1 or under /v1/, plain or after
  -- /agent-host, it bears the token.
  pub admit-Shows :
      (s : Security) (r : Request) (port : String) (a : Admitted)
      → admit h s r port ≡ ok a
      → (request_origin : String) × (origin : Option String) × (Reaches s r.host port
          request_origin)
        × (Comes s r.origin request_origin origin)
        × (Shows s r a origin)
  unfolding admit
  admit-Shows s r port a e = elim (Result-cases (validate_host h s r.host port)) [
    | inr (x, bad) ↦ absurd (let f = rw bad at e in cc)
    | inl (ro, reached) ↦
        let e1 = rw reached at e in
        elim (Result-cases (validate_origin h s r.origin ro)) [
          | inr (x, bad) ↦ absurd (let f = rw bad at e1 in cc)
          | inl (o, came) ↦
              let e2 = rw came at e1 in
              (
                ro,
                o,
                validate_host-Reaches s r.host port ro reached,
                validate_origin-Comes s r.origin ro o came,
                enter-Shows s r o a e2,
              )
        ]
  ]
