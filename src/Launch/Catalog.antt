-- ===== src/Launch/Catalog.antt =====
-- src/core/launch-contracts.js: what the adapters offer to launch, and the request that a payload
-- makes of an offer; src/core/launch-coordinator.js: the offer that a stored request stands for.
pub mod Payload
pub mod Consent
use agent_host.Common.{
  ℕ, String, Bool, true, false, ◌&&◌, ◌||◌, not, Option, none, some, List, [], ◌∷◌, ◌=?◌,
  if◌then◌else◌, any, find, take, filter, is_empty, is_some, get_or, safe_id,
}
use agent_host.Common.Json.{
  Value, object, array, string, boolean, Fields, member, only_keys, as_object, as_array, as_boolean,
  as_string,
}
use agent_host.Common.Results.{Result, ok, err, ◌>>=◌}
use agent_host.Launch.Contracts.{Request, Risk, LaunchRecord, State, LaunchError}

pub record Mode : Type 0 where
  pub id : String
  pub enabled : Bool
  pub risk : Risk

pub record Target : Type 0 where
  pub id : String
  pub profiles : List String
  pub modes : List Mode

pub record Provider : Type 0 where
  pub provider : String
  pub capability_version : String
  pub targets : List Target

-- `value.key` of any value: only an object has properties.
abbrev pub prop : String → Value → Option Value
prop k (object fs) = member k fs
prop k _ = none

-- `safeId(value) ? value : undefined`
unfoldable pub safe_text : Option Value → Option String
safe_text (some (string s)) = if safe_id s then some s else none
safe_text _ = none

unfoldable pub filter_map : {A B : Type 0} → (A → Option B) → List A → List B
filter_map f [] = []
filter_map f (x ∷ xs) = elim (f x) [ none ↦ filter_map f xs | some y ↦ y ∷ filter_map f xs ]

-- The loops keep the first element of each key: an element that is not read leaves no key.
unfoldable pub dedupe : {A : Type 0} → (A → String) → List String → List A → List A
dedupe key seen [] = []
dedupe key seen (x ∷ xs) =
    if any (λ s. s =? key x) seen then dedupe key seen xs else x ∷ dedupe key (key x ∷ seen) xs

unfoldable pub read_mode : Value → Option Mode
unfolding safe_text
read_mode v = elim (safe_text (prop "id" v)) [
  | none ↦ none
  | some id ↦ elim (as_boolean (prop "localMutation" v)) [
    | none ↦ none
    | some mutates ↦ elim (as_boolean (prop "externalBillable" v)) [
      | none ↦ none
      | some bills ↦ some record {
        id = id;
        enabled = get_or (as_boolean (prop "enabled" v)) false;
        risk = record { local_mutation = mutates; external_billable = bills };
      }
    ]
  ]
]

unfoldable pub read_target : Value → Option Target
unfolding read_mode dedupe filter_map safe_text
read_target v = elim (safe_text (prop "id" v)) [
  | none ↦ none
  | some id ↦ elim (as_array (prop "profiles" v)) [
    | none ↦ none
    | some raw_profiles ↦ elim (as_array (prop "modes" v)) [
      | none ↦ none
      | some raw_modes ↦
          let profiles =
            take 20 (dedupe (λ p. p) [] (filter_map (λ p. safe_text (some p)) raw_profiles)) in
          let modes = dedupe (λ m. m.id) [] (filter_map read_mode (take 20 raw_modes)) in
          if is_empty profiles || is_empty modes
          then none
          else some record { id = id; profiles = profiles; modes = modes }
    ]
  ]
]

unfoldable pub read_provider : Value → Option Provider
unfolding read_target dedupe filter_map safe_text
read_provider v = elim (safe_text (prop "provider" v)) [
  | none ↦ none
  | some provider ↦ elim (safe_text (prop "capabilityVersion" v)) [
    | none ↦ none
    | some version ↦ elim (as_array (prop "targets" v)) [
      | none ↦ none
      | some raw_targets ↦
          let targets = dedupe (λ t. t.id) [] (filter_map read_target (take 20 raw_targets)) in
          if is_empty targets
          then none
          else some record { provider = provider; capability_version = version; targets = targets }
    ]
  ]
]

unfoldable pub normalize_launch_capabilities : List Value → List Provider
unfolding read_provider dedupe filter_map
normalize_launch_capabilities raw = dedupe (λ p. p.provider) [] (filter_map read_provider raw)

-- The errors of a launch request, by their codes.
pub data RequestError : Type 0 where
  invalid_launch_request invalid_launch_confirmations : RequestError
  launch_option_not_found launch_confirmation_mismatch : RequestError

-- A payload that has the right form.
pub record Draft : Type 0 where
  pub provider : String
  pub target : String
  pub profile : String
  pub mode : String
  pub confirmations : Risk

unfoldable pub required : {A : Type 0} → RequestError → Option A → Result RequestError A
required e none = err e
required e (some x) = ok x

abbrev pub checked : RequestError → Bool → Result RequestError Bool
checked e b = if b then ok true else err e

unfoldable pub read_draft : Value → Result RequestError Draft
unfolding required safe_text
read_draft payload = do
  fields ← required invalid_launch_request (as_object (some payload))
  known ←
      checked invalid_launch_request
        (only_keys ("provider" ∷ "target" ∷ "profile" ∷ "mode" ∷ "confirmations" ∷ []) fields)
  provider ← required invalid_launch_request (safe_text (member "provider" fields))
  target ← required invalid_launch_request (safe_text (member "target" fields))
  profile ← required invalid_launch_request (safe_text (member "profile" fields))
  mode ← required invalid_launch_request (safe_text (member "mode" fields))
  given ← required invalid_launch_confirmations (as_object (member "confirmations" fields))
  exact ←
      checked invalid_launch_confirmations
        (only_keys ("localMutation" ∷ "externalBillable" ∷ []) given)
  mutates ← required invalid_launch_confirmations (as_boolean (member "localMutation" given))
  bills ← required invalid_launch_confirmations (as_boolean (member "externalBillable" given))
  ok record {
    provider = provider;
    target = target;
    profile = profile;
    mode = mode;
    confirmations = record { local_mutation = mutates; external_billable = bills };
  }

infix 50 ◌=b◌
abbrev pub ◌=b◌ : Bool → Bool → Bool
true =b b = b
false =b b = not b

unfoldable pub select : Draft → Provider → Target → Option Mode → Result RequestError Request
select d p t none = err launch_option_not_found
select d p t (some m) =
    if not (any (λ s. s =? d.profile) t.profiles)
    then err launch_option_not_found
    else if (d.confirmations.local_mutation =b m.risk.local_mutation)
        && (d.confirmations.external_billable =b m.risk.external_billable)
    then ok record {
      provider = p.provider;
      target = t.id;
      profile = d.profile;
      mode = m.id;
      risk = m.risk;
      capability_version = p.capability_version;
    }
    else err launch_confirmation_mismatch

unfoldable pub choose_target : Draft → Provider → Option Target → Result RequestError Request
unfolding select
choose_target d p none = err launch_option_not_found
choose_target d p (some t) = select d p t (find (λ m. (m.id =? d.mode) && m.enabled) t.modes)

unfoldable pub choose_provider : Draft → Option Provider → Result RequestError Request
unfolding choose_target
choose_provider d none = err launch_option_not_found
choose_provider d (some p) = choose_target d p (find (λ t. t.id =? d.target) p.targets)

unfoldable pub normalize_launch_request : Value → List Provider → Result RequestError Request
unfolding read_draft choose_provider
normalize_launch_request payload providers = do
  d ← read_draft payload
  choose_provider d (find (λ p. p.provider =? d.provider) providers)

-- capabilitiesForRecord and capabilitiesForRetirement, of the stored request
unfoldable pub capabilities_for : Request → List Provider
capabilities_for r =
    record {
      provider = r.provider;
      capability_version = r.capability_version;
      targets =
          record {
            id = r.target;
            profiles = r.profile ∷ [];
            modes = record { id = r.mode; enabled = true; risk = r.risk } ∷ [];
          }
          ∷ [];
    }
    ∷ []

-- launchView; `idempotencyKey` and the hashes stay out of it.
pub record LaunchView : Type 0 where
  pub id : String
  pub provider : String
  pub target : String
  pub profile : String
  pub mode : String
  pub risk : Risk
  pub state : State
  pub agent_id : Option String
  pub error : Option LaunchError
  pub requested_at : String
  pub updated_at : String

unfoldable pub launch_view : LaunchRecord → LaunchView
launch_view r = record {
  id = r.id;
  provider = r.request.provider;
  target = r.request.target;
  profile = r.request.profile;
  mode = r.request.mode;
  risk = r.request.risk;
  state = r.state;
  agent_id = r.agent_id;
  error = r.error;
  requested_at = r.requested_at;
  updated_at = r.updated_at;
}
