-- ===== src/Discovery/Shown.antt =====
-- What reconciliation shows: everything with duplicates, and without them no process twice.
use agent_host.Common.{
  String, ◌≡◌, refl, ap, ◌∙◌, Bool, true, false, ◌&&◌, ◌||◌, not, Option, none, some, List, [], ◌∷◌,
  ◌++◌, map, arith, ◌=?◌, eq_iff, if◌then◌else◌, if-cases, any, all, Option-cases, Bool-cases, inl,
  inr,
}
use agent_host.Common.Maps.{Map, get, set, get-set}
use agent_host.Discovery.{
  Agent, Discovery, is_process, is_raw, process_key, rich_by_process, marked, against, reconciled,
  flat_reconciled, reconcile_agents,
}

map-append : {A B : Type 0} (f : A → B) (xs ys : List A) → map f (xs ++ ys) ≡ map f xs ++ map f ys
map-append f [] ys = refl
map-append f (x ∷ xs) ys = ap (λ z. f x ∷ z) (map-append f xs ys)

marked-id : (a : Agent) (of : String) (d : Option Discovery) → (marked a of d).id ≡ a.id
marked-id a of none = refl
marked-id a of (some d) = refl

against-id :
    (a : Agent) (found : Option String) → map (λ b. b.id) (against true a found) ≡ a.id ∷ []
unfolding against
against-id a none = refl
against-id a (some of) =
    if-cases (λ (l : List Agent). map (λ b. b.id) l ≡ a.id ∷ []) (of =? "") _ _ (λ _. refl)
      λ _. ap (λ i. i ∷ []) (marked-id a of a.discovery)

reconciled-id : (m : Map String) (a : Agent) → map (λ b. b.id) (reconciled true m a) ≡ a.id ∷ []
unfolding reconciled
reconciled-id m a =
    if-cases (λ (l : List Agent). map (λ b. b.id) l ≡ a.id ∷ []) (not (is_process a)) _ _
      (λ _. refl)
      λ _. elim (Option-cases a.pid) [
        | inl e ↦ rw e refl
        | inr (pid, e) ↦ rw e (against-id a (get (process_key a pid) m))
      ]

flat-id :
    (m : Map String) (agents : List Agent)
    → map (λ b. b.id) (flat_reconciled true m agents) ≡ map (λ b. b.id) agents
unfolding flat_reconciled
flat-id m [] = refl
flat-id m (a ∷ rest) =
    map-append (λ b. b.id) (reconciled true m a) (flat_reconciled true m rest)
    ∙ ap (λ z. z ++ map (λ b. b.id) (flat_reconciled true m rest)) (reconciled-id m a)
    ∙ ap (λ z. a.id ∷ z) (flat-id m rest)

-- With duplicates, reconciliation hides and reorders nothing: the identifiers are those of the
-- agents, in their order.
pub reconcile_agents-id :
    (agents : List Agent) → map (λ b. b.id) (reconcile_agents agents true) ≡ map (λ b. b.id) agents
unfolding reconcile_agents
reconcile_agents-id agents = flat-id (rich_by_process agents []) agents

-- An agent of a process that is known by more than its process.
unfoldable pub is_rich : String → Agent → Bool
is_rich key b =
    not (is_process b) && elim b.pid [ none ↦ false | some pid ↦ process_key b pid =? key ]

-- A bare process that one of the agents is known to run.
unfoldable pub is_twin : List Agent → Agent → Bool
unfolding is_rich
is_twin agents a =
    is_process a
    && elim a.pid [ none ↦ false | some pid ↦ any (is_rich (process_key a pid)) agents ]

abbrev names : Option String → Bool
names none = false
names (some s) = not (s =? "")

rich-names :
    (key : String) (agents : List Agent) (m : Map String)
    → all (λ b. not (b.id =? "")) agents ≡ true
    → (any (is_rich key) agents || names (get key m)) ≡ true
    → names (get key (rich_by_process agents m)) ≡ true
unfolding rich_by_process is_rich
rich-names key [] m ids e = e
rich-names key (a ∷ rest) m ids e = elim (Option-cases a.pid) [
  | inl f ↦ rw (f, rich_by_process) (rich-names key rest m (ground arith) (ground (arith, f)))
  | inr (pid, f) ↦
      let m' = if is_process a then m else set (process_key a pid) a.id m in
      rw (f, rich_by_process)
        (rich-names key rest m' (ground arith) (
          ground
            (arith, f, get-set (process_key a pid) key a.id m, eq_iff (process_key a pid) key)))
]

shown-against :
    (agents : List Agent) (a : Agent) (found : Option String)
    → is_raw a ≡ false
    → (not (is_twin agents a) || names found) ≡ true
    → all (λ b. not (is_raw b) && not (is_twin agents b)) (against false a found) ≡ true
unfolding against
shown-against agents a none raw e = ground arith
shown-against agents a (some of) raw e = ground arith

twin-names :
    (agents : List Agent) (a : Agent) (pid : String)
    → all (λ b. not (b.id =? "")) agents ≡ true
    → a.pid ≡ some pid
    → (not (is_twin agents a) || names (get (process_key a pid) (rich_by_process agents []))) ≡ true
unfolding is_twin
twin-names agents a pid ids e = elim (Bool-cases (any (is_rich (process_key a pid)) agents)) [
  | inl known ↦
      let named = rich-names (process_key a pid) agents [] ids (ground (arith, known)) in
      ground (arith, named)
  | inr unknown ↦ rw (e, unknown) (ground arith)
]

shown-reconciled :
    (agents : List Agent) (a : Agent)
    → all (λ b. not (b.id =? "")) agents ≡ true
    → all
        (λ b. not (is_raw b) && not (is_twin agents b))
        (reconciled false (rich_by_process agents []) a)
      ≡ true
unfolding reconciled is_twin
shown-reconciled agents a ids =
    let Shown = λ (l : List Agent). all (λ b. not (is_raw b) && not (is_twin agents b)) l ≡ true in
    if-cases Shown (is_raw a) _ _ (λ _. refl)
      λ raw.
        if-cases Shown (not (is_process a)) _ _ (λ p. ground arith)
          λ p. elim (Option-cases a.pid) [
            | inl e ↦ rw (e) (ground (arith, raw, e))
            | inr (pid, e) ↦ rw (e) (
                shown-against agents a (get (process_key a pid) (rich_by_process agents [])) raw
                  (twin-names agents a pid ids e))
          ]

all-append :
    {A : Type 0} (p : A → Bool) (xs ys : List A)
    → all p xs ≡ true
    → all p ys ≡ true
    → all p (xs ++ ys) ≡ true
all-append p [] ys e f = f
all-append p (x ∷ xs) ys e f = ground (arith, all-append p xs ys)

shown-flat :
    (agents rest : List Agent)
    → all (λ b. not (b.id =? "")) agents ≡ true
    → all
        (λ b. not (is_raw b) && not (is_twin agents b))
        (flat_reconciled false (rich_by_process agents []) rest)
      ≡ true
unfolding flat_reconciled
shown-flat agents [] ids = refl
shown-flat agents (a ∷ rest) ids =
    all-append (λ b. not (is_raw b) && not (is_twin agents b))
      (reconciled false (rich_by_process agents []) a)
      (flat_reconciled false (rich_by_process agents []) rest) (shown-reconciled agents a ids)
      (shown-flat agents rest ids)

-- Without duplicates, and with agents that all have an identifier, no shown agent is in the raw view
-- or a bare process that another of the agents is known to run.
pub reconcile_agents-is_twin :
    (agents : List Agent)
    → all (λ b. not (b.id =? "")) agents ≡ true
    → all (λ b. not (is_raw b) && not (is_twin agents b)) (reconcile_agents agents false) ≡ true
unfolding reconcile_agents
reconcile_agents-is_twin agents ids = shown-flat agents agents ids
