-- ===== src/Associations/Context.antt =====
-- src/core/repository-associations.js: the whole context of an agent, with what was left out of it
-- counted.
use agent_host.Common.{
  ℕ, suc, ◌+◌, ◌-◌, String, Bool, true, false, ◌&&◌, not, Option, none, some, List, [], ◌∷◌, ◌=?◌,
  ◌==◌, if◌then◌else◌, any, length, take, get_or, is_some,
}
use agent_host.Common.Json.{Value, null, Fields, member, as_object, as_array, as_boolean, as_string}
use agent_host.Common.Results.{Result, ok, err, ◌>>=◌}
use agent_host.Associations.{
  Host, Association, Invalid, one_of, bounded_string, normalize_association, check,
}

abbrev pub max_associations : ℕ
max_associations = 100

abbrev pub max_raw_associations : ℕ
max_raw_associations = 200

-- `context.error` of a partial context.
pub record Partial : Type 0 where
  pub retryable : Bool
  pub rejected_count : ℕ
  pub overflow_count : ℕ

pub record Ready : Type 0 where
  pub freshness : String
  pub complete : Bool
  pub associations : List Association
  pub error : Option Partial
  pub observed_at : Option String

pub data Context : Type 0 where
  unsupported : Context
  unavailable : Bool → Context
  ready : Ready → Context

-- The state of the loop over the raw associations.
pub record Gathered : Type 0 where
  pub rejected : ℕ
  pub seen : List String
  pub normalized : List Association

-- `input.error?.retryable` is exactly the given value.
unfoldable pub error_retryable : Bool → Fields → Bool
error_retryable b input = elim (as_object (member "error" input)) [
  | none ↦ false
  | some e ↦ elim (as_boolean (member "retryable" e)) [
    | none ↦ false
    | some r ↦ if b then r else not r
  ]
]

unfoldable pub partial_context : ℕ → Context
partial_context rejected = ready record {
  freshness = "current";
  complete = false;
  associations = [];
  error = some record { retryable = false; rejected_count = rejected; overflow_count = 0 };
  observed_at = none;
}

module _ (h : Host) where
  unfoldable pub gather_one : Result Invalid Association → Gathered → Gathered
  gather_one (err e) g = record g { rejected = suc g.rejected }
  gather_one (ok a) g =
      if any (λ k. k =? h.stringify a) g.seen
      then g
      else record g { seen = h.stringify a ∷ g.seen; normalized = a ∷ g.normalized }

  -- The loop; `normalized` is in reverse.
  unfoldable pub gather : List Value → Gathered → Gathered
  unfolding gather_one
  gather [] g = g
  gather (v ∷ vs) g = gather vs (gather_one (normalize_association h v) g)

  -- The sort by compareAssociations.
  unfoldable pub insert : Association → List Association → List Association
  insert a [] = a ∷ []
  insert a (b ∷ bs) = if h.key_before a b then a ∷ b ∷ bs else b ∷ insert a bs

  unfoldable pub sort_associations : List Association → List Association
  unfolding insert
  sort_associations [] = []
  sort_associations (a ∷ rest) = insert a (sort_associations rest)

  unfoldable pub iso_timestamp : Option Value → Result Invalid String
  unfolding bounded_string
  iso_timestamp v = bounded_string v 40 >>= λ s. check (h.is_iso s) >>= λ _. ok s

  -- The optional members `observedAt` and `freshness`, each with the rejection that it may add.
  unfoldable pub read_observed_at : Option Value → Option String × ℕ
  unfolding iso_timestamp
  read_observed_at none = (none, 0)
  read_observed_at (some v) = elim (iso_timestamp (some v)) [
    | err e ↦ (none, 1)
    | ok s ↦ (some s, 0)
  ]

  unfoldable pub read_freshness : Option Value → String × ℕ
  read_freshness none = ("current", 0)
  read_freshness (some v) = elim (as_string (some v)) [
    | none ↦ ("current", 1)
    | some s ↦ if one_of ("current" ∷ "stale" ∷ []) s then (s, 0) else ("current", 1)
  ]

  unfoldable pub ready_context : Fields → Context
  unfolding gather sort_associations read_observed_at read_freshness error_retryable
  ready_context input =
      let source = get_or (as_array (member "associations" input)) [] in
      let misses : ℕ = if is_some (as_array (member "associations" input)) then 0 else 1 in
      let g =
        gather (take max_raw_associations source)
          record { rejected = misses; seen = []; normalized = [] } in
      let observed = read_observed_at (member "observedAt" input) in
      let fresh = read_freshness (member "freshness" input) in
      let rejected = g.rejected + observed.1 + fresh.1 in
      let overflow =
        (length g.normalized - max_associations) + (length source - max_raw_associations) in
      let complete =
        get_or (as_boolean (member "complete" input)) true && rejected == 0 && overflow == 0 in
      ready record {
        freshness = fresh.0;
        complete = complete;
        associations = take max_associations (sort_associations g.normalized);
        error =
            if complete
            then none
            else some record {
              retryable = error_retryable true input;
              rejected_count = rejected;
              overflow_count = overflow;
            };
        observed_at = observed.0;
      }

  unfoldable pub stated_context : Fields → String → Context
  unfolding ready_context partial_context error_retryable
  stated_context input state =
      if state =? "unsupported"
      then unsupported
      else if state =? "unavailable"
      then unavailable (not (error_retryable false input))
      else if state =? "ready"
      then ready_context input
      else partial_context 1

  unfoldable pub normalize_object : Option Fields → Context
  unfolding stated_context partial_context
  normalize_object none = partial_context 1
  normalize_object (some fields) = elim (as_string (member "state" fields)) [
    | none ↦ partial_context 1
    | some state ↦ stated_context fields state
  ]

  unfoldable pub normalize_repository_context : Option Value → Context
  unfolding normalize_object
  normalize_repository_context none = unsupported
  normalize_repository_context (some null) = unsupported
  normalize_repository_context (some v) = normalize_object (as_object (some v))
