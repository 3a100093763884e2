-- ===== src/Associations.antt =====
-- src/core/repository-associations.js: what the host publishes of an adapter's repository context.
-- The case mapping of texts, the URL parser, the ISO round trip of a date, the integers behind number
-- literals, JSON.stringify and the order of the sort keys are functions of the JavaScript host. An
-- exception of a reader is `err invalid`.
mod Wording
pub mod Context
pub mod Justified
unfoldable pub use Wording.*
use agent_host.Common.{
  ℕ, suc, ◌+◌, String, Bool, true, false, ◌&&◌, ◌||◌, not, Option, none, some, List, [], ◌∷◌, ◌=?◌,
  ◌==◌, leb, if◌then◌else◌, any, all, codes, is_alnum, sum_of, is_some, is_empty,
}
use agent_host.Common.Json.{Value, object, number, member, as_object, as_string, Fields}
use agent_host.Common.Results.{Result, ok, err, ◌>>=◌}

pub data Invalid : Type 0 where
  invalid : Invalid

pub data Coordinates : Type 0 where
  named : String → String → Coordinates
  opaque : String → Coordinates

pub record Repository : Type 0 where
  pub forge : String
  pub host : String
  pub coordinates : Coordinates
  pub web_url : String
  pub repository_id : Option String
  pub visibility : Option String

pub record Provenance : Type 0 where
  pub source : String
  pub confidence : String

pub record Checkout : Type 0 where
  pub branch : Option String
  pub worktree : Option String

pub record PullRequest : Type 0 where
  pub number : ℕ
  pub web_url : Option String

pub record Association : Type 0 where
  pub kind : String
  pub repository : Repository
  pub provenance : Provenance
  pub checkout : Option Checkout
  pub reason : Option String
  pub pull_request : Option PullRequest

-- A URL that the host parsed.
pub record Url : Type 0 where
  pub protocol : String
  pub hostname : String
  pub username : String
  pub password : String
  pub search : String
  pub hash : String
  pub text : String

pub record Host : Type 0 where
  pub lower : String → String
  pub parse_url : String → Option Url
  pub is_iso : String → Bool
  pub safe_integer : String → Option ℕ
  pub stringify : Association → String
  pub key_before : Association → Association → Bool

unfoldable pub need : {A : Type 0} → Option A → Result Invalid A
need none = err invalid
need (some x) = ok x

abbrev pub check : Bool → Result Invalid Bool
check b = if b then ok true else err invalid

unfoldable pub bounded_string : Option Value → ℕ → Result Invalid String
unfolding need
bounded_string v max_length = do
  s ← need (as_string v)
  within ← check (leb 1 (utf16_length s) && leb (utf16_length s) max_length)
  ok s

-- A member that may be missing.
unfoldable pub optional :
    {A : Type 0} → (Value → Result Invalid A) → Option Value → Result Invalid (Option A)
optional read none = ok none
optional read (some v) = read v >>= λ x. ok (some x)

unfoldable pub normalize_coordinates : Option Value → Result Invalid Coordinates
unfolding need bounded_string safe_coordinate
normalize_coordinates input = do
  fields ← need (as_object input)
  kind ← need (as_string (member "kind" fields))
  if kind =? "named"
      then (do
        owner ← bounded_string (member "owner" fields) 160
        name ← bounded_string (member "name" fields) 100
        fine ← check (safe_coordinate owner true && safe_coordinate name false)
        ok (named owner name))
      else (do
        known ← check (kind =? "opaque")
        value ← bounded_string (member "value" fields) 200
        fine ← check (safe_coordinate value true)
        ok (opaque value))

unfoldable pub normalize_provenance : Option Value → String → Result Invalid Provenance
unfolding need
normalize_provenance input kind = do
  fields ← need (as_object input)
  source ← need (as_string (member "source" fields))
  confidence ← need (as_string (member "confidence" fields))
  known ← check (
      one_of ("adapter-authoritative" ∷ "user-declared" ∷ "adapter-heuristic" ∷ []) source
      && one_of ("low" ∷ "medium" ∷ "high" ∷ []) confidence)
  confirmed ← check (
      not
        ((kind =? "confirmed") && ((source =? "adapter-heuristic") || not (confidence =? "high"))))
  candidate ← check (not ((kind =? "candidate") && (confidence =? "high")))
  ok record { source = source; confidence = confidence }

unfoldable pub normalize_worktree : Value → Result Invalid String
unfolding need bounded_string is_alnum
normalize_worktree v = do
  fields ← need (as_object (some v))
  id ← bounded_string (member "id" fields) 128
  fine ← check (all (λ c. is_alnum c || c == b'.' || c == b'_' || c == b'-') (codes id))
  ok id

unfoldable pub normalize_checkout : Value → Result Invalid Checkout
unfolding need optional bounded_string normalize_worktree
normalize_checkout v = do
  fields ← need (as_object (some v))
  branch ← optional (λ b. bounded_string (some b) 255) (member "branch" fields)
  worktree ← optional normalize_worktree (member "worktree" fields)
  some_field ← check (is_some branch || is_some worktree)
  ok record { branch = branch; worktree = worktree }

unfoldable pub literal : Option Value → Result Invalid String
literal (some (number n)) = ok n
literal _ = err invalid

-- The visibility is one of the known ones, if it is given.
unfoldable pub visibility_fine : Option String → Bool
visibility_fine none = true
visibility_fine (some v) = one_of ("public" ∷ "private" ∷ "internal" ∷ "unknown" ∷ []) v

-- Whether the checkout has a branch.
unfoldable pub has_branch : Option Checkout → Bool
has_branch none = false
has_branch (some c) = is_some c.branch

module _ (h : Host) where
  unfoldable pub https_url : Option Value → String → Result Invalid String
  unfolding need bounded_string
  https_url value host = do
    text ← bounded_string value 500
    url ← need (h.parse_url text)
    canonical ← check (
        (url.protocol =? "https:")
        && (h.lower url.hostname =? host)
        && (url.username =? "")
        && (url.password =? "")
        && (url.search =? "")
        && (url.hash =? ""))
    ok url.text

  unfoldable pub normalize_repository : Option Value → Result Invalid Repository
  unfolding need bounded_string is_forge is_host normalize_coordinates https_url optional
      visibility_fine
  normalize_repository input = do
    fields ← need (as_object input)
    raw_forge ← bounded_string (member "forge" fields) 32
    forge_fine ← check (is_forge (codes (h.lower raw_forge)))
    raw_host ← bounded_string (member "host" fields) 253
    host_fine ← check (is_host (codes (h.lower raw_host)))
    coordinates ← normalize_coordinates (member "coordinates" fields)
    web_url ← https_url (member "webUrl" fields) (h.lower raw_host)
    repository_id ← optional (λ v. bounded_string (some v) 128) (member "repositoryId" fields)
    visibility ← optional (λ v. need (as_string (some v))) (member "visibility" fields)
    visible ← check (visibility_fine visibility)
    ok record {
      forge = h.lower raw_forge;
      host = h.lower raw_host;
      coordinates = coordinates;
      web_url = web_url;
      repository_id = repository_id;
      visibility = visibility;
    }

  unfoldable pub normalize_pull_request : String → Value → Result Invalid PullRequest
  unfolding need literal https_url optional
  normalize_pull_request host v = do
    fields ← need (as_object (some v))
    written ← literal (member "number" fields)
    n ← need (h.safe_integer written)
    positive ← check (leb 1 n)
    web_url ← optional (λ u. https_url (some u) host) (member "webUrl" fields)
    ok record { number = n; web_url = web_url }

  -- The end of the reader, by the kind of the association.
  unfoldable pub assemble :
      Fields → String → Repository → Provenance → Option Checkout → Result Invalid Association
  assemble fields kind repository provenance checkout =
      if kind =? "candidate"
      then (do
        reason ← need (as_string (member "reason" fields))
        explained ←
            check (one_of ("repository_match" ∷ "branch_match" ∷ "adapter_heuristic" ∷ []) reason)
        branched ← check (not ((reason =? "branch_match") && not (has_branch checkout)))
        no_pull_request ← check (not (is_some (member "pullRequest" fields)))
        ok record {
          kind = kind;
          repository = repository;
          provenance = provenance;
          checkout = checkout;
          reason = some reason;
          pull_request = none;
        })
      else (do
        pull_request ←
            optional (normalize_pull_request repository.host) (member "pullRequest" fields)
        ok record {
          kind = kind;
          repository = repository;
          provenance = provenance;
          checkout = checkout;
          reason = none;
          pull_request = pull_request;
        })

  unfoldable pub normalize_association : Value → Result Invalid Association
  normalize_association v = do
    fields ← need (as_object (some v))
    kind ← need (as_string (member "kind" fields))
    known ← check (one_of ("confirmed" ∷ "candidate" ∷ []) kind)
    repository ← normalize_repository (member "repository" fields)
    provenance ← normalize_provenance (member "provenance" fields) kind
    checkout ← optional normalize_checkout (member "checkout" fields)
    assemble fields kind repository provenance checkout
