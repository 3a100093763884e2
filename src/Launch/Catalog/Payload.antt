-- ===== src/Launch/Catalog/Payload.antt =====
-- What a launch payload that is read says, on its JSON fields.
use agent_host.Common.{[], ◌∷◌, ◌≡◌, refl, ap, Bool, Option, none, some, String, if-cases, safe_id}
use mathlib.Core.Path.{subst}
use agent_host.Common.Json.{
  Value, object, array, string, boolean, number, null, Fields, member, only_keys, as_object,
  as_boolean,
}
use agent_host.Common.Results.{Result, ok, err, ◌>>=◌}
use agent_host.Launch.Catalog.{
  Draft, RequestError, invalid_launch_request, invalid_launch_confirmations, checked, required,
  safe_text, read_draft,
}

-- The payload is an object whose members are these texts, and whose confirmations are an object with
-- these two members.
abbrev pub Writes : Value → Draft → Type 0
Writes payload d =
    (fields : Fields) × (given : Fields) × (payload ≡ object fields)
    × (member "provider" fields ≡ some (string d.provider))
    × (member "target" fields ≡ some (string d.target))
    × (member "profile" fields ≡ some (string d.profile))
    × (member "mode" fields ≡ some (string d.mode))
    × (member "confirmations" fields ≡ some (object given))
    × (member "localMutation" given ≡ some (boolean d.confirmations.local_mutation))
    × (member "externalBillable" given ≡ some (boolean d.confirmations.external_billable))

bind-ok :
    {A B : Type 0} (x : Result RequestError A) (f : A → Result RequestError B) (b : B)
    → (x >>= f) ≡ ok b
    → (a : A) × (x ≡ ok a) × (f a ≡ ok b)
bind-ok (ok a) f b e = (a, refl, e)
bind-ok (err x) f b e = absurd (cc)

required-some :
    {A : Type 0} (x : RequestError) (o : Option A) (a : A) → required x o ≡ ok a → o ≡ some a
unfolding required
required-some x none a e = absurd (cc)
required-some x (some b) a e = ap (λ z. some z) cc

safe_text-string : (o : Option Value) (s : String) → safe_text o ≡ some s → o ≡ some (string s)
unfolding safe_text
safe_text-string none s = λ e. absurd (cc)
safe_text-string (some (string t)) s =
    if-cases (λ (o : Option String). o ≡ some s → some (string t) ≡ some (string s)) (safe_id t) _ _
      (λ _ e. cc) λ _ e. absurd (cc)
safe_text-string (some null) s = λ e. absurd (cc)
safe_text-string (some (boolean b)) s = λ e. absurd (cc)
safe_text-string (some (number n)) s = λ e. absurd (cc)
safe_text-string (some (array xs)) s = λ e. absurd (cc)
safe_text-string (some (object fs)) s = λ e. absurd (cc)

as_boolean-boolean : (o : Option Value) (b : Bool) → as_boolean o ≡ some b → o ≡ some (boolean b)
as_boolean-boolean none s e = absurd (cc)
as_boolean-boolean (some (string t)) s e = absurd (cc)
as_boolean-boolean (some null) s e = absurd (cc)
as_boolean-boolean (some (boolean b)) s e = cc
as_boolean-boolean (some (number n)) s e = absurd (cc)
as_boolean-boolean (some (array xs)) s e = absurd (cc)
as_boolean-boolean (some (object fs)) s e = absurd (cc)

as_object-object : (o : Option Value) (fs : Fields) → as_object o ≡ some fs → o ≡ some (object fs)
as_object-object none s e = absurd (cc)
as_object-object (some (string t)) s e = absurd (cc)
as_object-object (some null) s e = absurd (cc)
as_object-object (some (boolean b)) s e = absurd (cc)
as_object-object (some (number n)) s e = absurd (cc)
as_object-object (some (array xs)) s e = absurd (cc)
as_object-object (some (object fs)) s e = cc

some_inj : {A : Type 0} {a b : A} → some a ≡ some b → a ≡ b
some_inj e = cc

pub ok_inj : {E A : Type 0} {a b : A} → ◌≡◌ {A = Result E A} (ok a) (ok b) → a ≡ b
ok_inj e = cc

pub read_draft-Writes : (payload : Value) (d : Draft) → read_draft payload ≡ ok d → Writes payload d
unfolding read_draft
read_draft-Writes payload d e =
    let (fields, f, e1) =
      bind-ok (required invalid_launch_request (as_object (some payload))) _ d e in
    let (_, _, e2) =
      bind-ok
        (checked invalid_launch_request
          (only_keys ("provider" ∷ "target" ∷ "profile" ∷ "mode" ∷ "confirmations" ∷ []) fields))
        _ d e1 in
    let (provider, p, e3) =
      bind-ok (required invalid_launch_request (safe_text (member "provider" fields))) _ d e2 in
    let (target, t, e4) =
      bind-ok (required invalid_launch_request (safe_text (member "target" fields))) _ d e3 in
    let (profile, r, e5) =
      bind-ok (required invalid_launch_request (safe_text (member "profile" fields))) _ d e4 in
    let (mode, m, e6) =
      bind-ok (required invalid_launch_request (safe_text (member "mode" fields))) _ d e5 in
    let (given, g, e7) =
      bind-ok (required invalid_launch_confirmations (as_object (member "confirmations" fields))) _
        d e6 in
    let (_, _, e8) =
      bind-ok
        (checked invalid_launch_confirmations
          (only_keys ("localMutation" ∷ "externalBillable" ∷ []) given))
        _ d e7 in
    let (mutates, x, e9) =
      bind-ok (required invalid_launch_confirmations (as_boolean (member "localMutation" given))) _
        d e8 in
    let (bills, y, e10) =
      bind-ok (required invalid_launch_confirmations (as_boolean (member "externalBillable" given)))
        _ d e9 in
    subst (Writes payload) (ok_inj e10) (
      fields,
      given,
      some_inj (as_object-object (some payload) fields (required-some _ _ fields f)),
      safe_text-string _ provider (required-some _ _ provider p),
      safe_text-string _ target (required-some _ _ target t),
      safe_text-string _ profile (required-some _ _ profile r),
      safe_text-string _ mode (required-some _ _ mode m),
      as_object-object _ given (required-some _ _ given g),
      as_boolean-boolean _ mutates (required-some _ _ mutates x),
      as_boolean-boolean _ bills (required-some _ _ bills y),
    )
