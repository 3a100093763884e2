-- ===== src/Discovery.antt =====
-- src/core/discovery.js: which of the discovered agents are shown, and in which order. A `pid` is the
-- text of a process id that is set. Date.parse and `<` on texts are functions of the JavaScript host.
pub mod Shown
pub mod Ranking
use Prim.Native.String.{◌++◌ as text_append}
use agent_host.Common.{
  ℕ, String, Bool, true, false, ◌&&◌, ◌||◌, not, Option, none, some, List, [], ◌∷◌, ◌++◌, ltb, ◌=?◌,
  if◌then◌else◌, any, is_some, one_if, get_or,
}
use agent_host.Common.Maps.{Map, get, set}
use agent_host.Common.Int.{ℤ, ltb_ℤ}

pub record Discovery : Type 0 where
  pub kind : String
  pub visibility : Option String
  pub duplicate_of : Option String

pub record Agent : Type 0 where
  pub id : String
  pub provider : String
  pub status : String
  pub pid : Option String
  pub discovery : Option Discovery
  pub capabilities : List Bool
  pub last_activity_at : Option String

abbrev pub is_process : Agent → Bool
is_process a = elim a.discovery [ none ↦ false | some d ↦ d.kind =? "process" ]

abbrev pub visibility_of : Agent → Option String
visibility_of a = elim a.discovery [ none ↦ none | some d ↦ d.visibility ]

abbrev pub is_raw : Agent → Bool
is_raw a = get_or (visibility_of a) "" =? "raw"

-- The key of an agent and a process: the provider, a colon and the process id.
abbrev pub process_key : Agent → String → String
process_key a pid = text_append a.provider (text_append ":" pid)

unfoldable pub rich_by_process : List Agent → Map String → Map String
rich_by_process [] m = m
rich_by_process (a ∷ rest) m = elim a.pid [
  | none ↦ rich_by_process rest m
  | some pid ↦ rich_by_process rest (if is_process a then m else set (process_key a pid) a.id m)
]

-- A duplicate in the raw view.
abbrev marked : Agent → String → Option Discovery → Agent
marked a of none = a
marked a of (some d) = record a {
  discovery = some (record d { visibility = some "raw"; duplicate_of = some of });
}

-- An empty identifier counts as no duplicate.
unfoldable pub against : Bool → Agent → Option String → List Agent
against include a none = a ∷ []
against include a (some of) =
    if of =? "" then a ∷ [] else if include then marked a of a.discovery ∷ [] else []

unfoldable pub reconciled : Bool → Map String → Agent → List Agent
unfolding against
reconciled include rich a =
    if not include && is_raw a then [] else if not (is_process a) then a ∷ [] else (elim a.pid [
      | none ↦ a ∷ []
      | some pid ↦ against include a (get (process_key a pid) rich)
    ])

unfoldable pub flat_reconciled : Bool → Map String → List Agent → List Agent
unfolding reconciled
flat_reconciled include rich [] = []
flat_reconciled include rich (a ∷ rest) =
    reconciled include rich a ++ flat_reconciled include rich rest

unfoldable pub reconcile_agents : List Agent → Bool → List Agent
unfolding rich_by_process flat_reconciled
reconcile_agents agents include = flat_reconciled include (rich_by_process agents []) agents

abbrev is_active_status : String → Bool
is_active_status s = (s =? "working") || (s =? "blocked")

unfoldable pub matches_view : Agent → String → Bool
matches_view a view =
    let visibility =
      get_or (visibility_of a) (if is_active_status a.status then "active" else "recent") in
    if view =? "active"
    then visibility =? "active"
    else if view =? "historical"
    then visibility =? "historical"
    else if view =? "raw"
    then true
    else (visibility =? "active") || (visibility =? "recent")

-- The sign of a comparator's result.
pub data Order : Type 0 where
  before same after : Order

abbrev pub then_by : Order → Order → Order
then_by before r = before
then_by after r = after
then_by same r = r

abbrev pub by_number : ℕ → ℕ → Order
by_number a b = if ltb a b then before else if ltb b a then after else same

unfoldable pub status_rank : String → ℕ
status_rank s =
    if s =? "blocked"
    then 0
    else if s =? "working"
    then 1
    else if s =? "idle"
    then 2
    else if s =? "unknown"
    then 3
    else if s =? "done"
    then 4
    else if s =? "error"
    then 5
    else 6

abbrev pub has_action : Agent → Bool
has_action a = any (λ c. c) a.capabilities

abbrev pub visibility_rank : Agent → ℕ
visibility_rank a = if get_or (visibility_of a) "" =? "active" then 0 else 1

pub record Host : Type 0 where
  pub date_parse : String → Option ℤ
  pub text_before : String → String → Bool

module _ (h : Host) where
  abbrev pub by_text : String → String → Order
  by_text a b = if h.text_before a b then before else if h.text_before b a then after else same

  -- The later activity goes first, and a time that is none goes last.
  unfoldable pub by_time : Option ℤ → Option ℤ → Order → Order
  by_time (some a) (some b) texts = if ltb_ℤ a b then after else if ltb_ℤ b a then before else same
  by_time (some a) none texts = before
  by_time none (some b) texts = after
  by_time none none texts = texts

  unfoldable pub compare_activity : Option String → Option String → Order
  unfolding by_time
  compare_activity left right =
      by_time (h.date_parse (get_or left "")) (h.date_parse (get_or right ""))
        (by_text (get_or right "") (get_or left ""))

  unfoldable pub compare_agents : Agent → Agent → Order
  unfolding status_rank compare_activity
  compare_agents a b = then_by (by_number (status_rank a.status) (status_rank b.status)) (
      then_by (by_number (one_if (has_action b)) (one_if (has_action a))) (
        then_by (by_number (visibility_rank a) (visibility_rank b))
          (then_by (compare_activity a.last_activity_at b.last_activity_at) (by_text a.id b.id))))
