-- ===== src/Launch/Contracts.antt =====
-- src/core/launch-contracts.js: launch records and their validation. A record of the program is a
-- JavaScript object whose shape this record type gives: the checks for unknown keys and for the
-- type of a field hold by it, and `none` is `undefined`.
use agent_host.Common.{
  ℕ, String, ◌≡◌, arith, Bool, true, false, ◌&&◌, ◌||◌, not, Option, none, some, List, [], ◌∷◌,
  ◌==◌, leb, codes, safe_id, safe_hash, if◌then◌else◌, is_some, length, all,
}
use agent_host.Common.Int.{ℤ, ltb_ℤ}

-- LAUNCH_STATES
pub data State : Type 0 where
  requested creating owned retiring failed uncertain : State

abbrev state_code : State → ℕ
state_code requested = 0
state_code creating = 1
state_code owned = 2
state_code retiring = 3
state_code failed = 4
state_code uncertain = 5

infix 50 ◌=s◌
abbrev pub ◌=s◌ : State → State → Bool
a =s b = state_code a == state_code b

pub record Risk : Type 0 where
  pub local_mutation : Bool
  pub external_billable : Bool

pub record Request : Type 0 where
  pub provider : String
  pub target : String
  pub profile : String
  pub mode : String
  pub risk : Risk
  pub capability_version : String

pub record LaunchError : Type 0 where
  pub code : String
  pub retryable : Bool

pub record LaunchRecord : Type 0 where
  pub id : String
  pub attempt_id : String
  pub key_hash : String
  pub signature : String
  pub request : Request
  pub state : State
  pub provider_agent_id : Option String
  pub agent_id : Option String
  pub error : Option LaunchError
  pub retirement_key_hash : Option String
  pub requested_at : String
  pub updated_at : String

-- What follows a prefix.
unfoldable pub strip : List ℕ → List ℕ → Option (List ℕ)
strip [] s = some s
strip (p ∷ ps) [] = none
strip (p ∷ ps) (c ∷ s) = if p == c then strip ps s else none

-- `/^<prefix>[0-9a-f-]{36}$/`
unfoldable pub uuid_id : String → String → Bool
unfolding strip
uuid_id prefix s = elim (strip (codes prefix) (codes s)) [
  | none ↦ false
  | some r ↦
      length r == 36
      && all (λ c. leb b'0' c && leb c b'9' || leb b'a' c && leb c b'f' || c == b'-') r
]

abbrev pub option_all : (String → Bool) → Option String → Bool
option_all p none = false
option_all p (some s) = p s

abbrev is_finished_badly : State → Bool
is_finished_badly s = s =s failed || s =s uncertain

-- `record.error` in the state failed or uncertain.
abbrev valid_error : State → Option LaunchError → Bool
valid_error s none = false
valid_error s (some e) = safe_id e.code && (if s =s uncertain then e.retryable else not e.retryable)

-- The part of the validation that depends on the state.
unfoldable pub valid_phase :
    State → Option String → Option String → Option LaunchError → Option String → Bool
valid_phase s provider_agent_id agent_id error retirement_key_hash =
    (if s =s owned || s =s retiring
      then option_all safe_id provider_agent_id
        && option_all safe_id agent_id
        && not (is_some error)
      else not (is_some provider_agent_id) && not (is_some agent_id))
    && (if s =s retiring
        then option_all safe_hash retirement_key_hash
        else not (is_some retirement_key_hash))
    && (if is_finished_badly s then valid_error s error else not (is_some error))

unfoldable pub valid_request : Request → Bool
valid_request r =
    safe_id r.provider
    && safe_id r.target
    && safe_id r.profile
    && safe_id r.mode
    && safe_id r.capability_version

-- `Date.parse` is the host's: `none` is NaN.
module _ (date_parse : String → Option ℤ) where
  unfoldable pub valid_timestamp : String → Bool
  valid_timestamp s = is_some (date_parse s)

  -- `Date.parse(left) < Date.parse(right)`, false where one is NaN.
  unfoldable pub before : String → String → Bool
  before left right = elim (date_parse left) [
    | none ↦ false
    | some a ↦ elim (date_parse right) [ none ↦ false | some b ↦ ltb_ℤ a b ]
  ]

  unfoldable pub validate_launch_record : LaunchRecord → Bool
  validate_launch_record r =
      uuid_id "launch:" r.id
      && uuid_id "attempt:" r.attempt_id
      && safe_hash r.key_hash
      && safe_hash r.signature
      && valid_request r.request
      && valid_timestamp r.requested_at
      && valid_timestamp r.updated_at
      && not (before r.updated_at r.requested_at)
      && valid_phase r.state r.provider_agent_id r.agent_id r.error r.retirement_key_hash

-- A valid record has a retirement key exactly while it is being retired.
pub is_retiring-is_some :
    (date_parse : String → Option ℤ) (r : LaunchRecord)
    → validate_launch_record date_parse r ≡ true
    → (r.state =s retiring) ≡ is_some r.retirement_key_hash
unfolding validate_launch_record valid_phase
is_retiring-is_some date_parse r h = ground arith
