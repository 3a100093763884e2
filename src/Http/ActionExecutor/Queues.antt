-- ===== src/Http/ActionExecutor/Queues.antt =====
-- The queues of the executor over any history of requests, ends of actions and a shutdown.
use agent_host.Common.{
  ℕ, suc, ◌≤◌, ◌≡◌, refl, ap, ◌∙◌, String, Bool, true, false, ◌&&◌, not, Option, none, some, List,
  [], ◌∷◌, ◌++◌, arith, ◌==◌, ◌=?◌, eq_iff, if-cases, length, filter, all, find, inl, inr,
  Bool-cases, ==_iff, All,
}
use agent_host.Common.Maps.{
  Map, get, set, delete, Keys, AllEntries, AllEntries-get, AllEntries-set, AllEntries-delete,
  set-Keys, delete-Keys, get-set,
}
use agent_host.Http.ActionExecutor.{
  Limits, Item, Race, Executor, finish, shutdown, abort_active, execute,
}

-- What happens to an executor.
pub data Event (P R : Type 0) : Type 0 where
  executes : ℕ → String → String → P → Option String → Event P R
  finishes : ℕ → ℕ → Race R → Event P R
  shuts_down : ℕ → Event P R
  grace_ends : Event P R

-- An action can only end while it is active.
abbrev pub finish_found :
    {P R : Type 0} → Limits → ℕ → Race R → Option (Item P) → Executor P R → Executor P R
finish_found l now race none x = x
finish_found l now race (some i) x = finish (l.ttl_ms) now i race x

module _ {P R : Type 0} (sign : String → String → P → String) (l : Limits) where
  unfoldable pub step : Executor P R → Event P R → Executor P R
  step x (executes now agent action payload key) = (execute sign l now agent action payload key x).0
  step x (finishes now id race) = finish_found l now race (find (λ i. i.id == id) x.active) x
  step x (shuts_down now) = shutdown l.ttl_ms now x
  step x grace_ends = abort_active x

  unfoldable pub run : Executor P R → List (Event P R) → Executor P R
  unfolding step
  run x [] = x
  run x (e ∷ es) = run (step x e) es

-- The queue of one agent: its head runs, nothing else does, its items are that agent's, and it is no
-- longer than the limit.
unfoldable pub waiting : {P : Type 0} → List (Item P) → Bool
waiting [] = true
waiting (i ∷ r) = not i.started && waiting r

unfoldable pub serial : {P : Type 0} → List (Item P) → Bool
unfolding waiting
serial [] = false
serial (i ∷ r) = i.started && waiting r

pub record IsSerial {P : Type 0} (l : Limits) (agent : String) (q : List (Item P)) : Type 0 where
  pub one_runs : serial q ≡ true
  pub own : all (λ i. i.agent_id =? agent) q ≡ true
  pub short : length q ≤ l.per_agent_limit

-- The agents of the queues are distinct and each queue is as above.
pub record IsQueues {P : Type 0} (l : Limits) (queues : Map (List (Item P))) : Type 0 where
  pub keys : Keys queues
  pub each : AllEntries (IsSerial l) queues

-- An item at the head of its agent's queue.
pub record IsHead {P : Type 0} (queues : Map (List (Item P))) (i : Item P) : Type 0 where
  pub behind : List (Item P)
  pub found : get (i.agent_id) queues ≡ some (i ∷ behind)

module _ {P : Type 0} where
  pub set-IsQueues :
      (l : Limits) (agent : String) (q : List (Item P)) (m : Map (List (Item P)))
      → IsSerial l agent q
      → IsQueues l m
      → IsQueues l (set agent q m)
  set-IsQueues l agent q m s v = record {
    keys = set-Keys agent q m v.keys;
    each = AllEntries-set (IsSerial l) agent q m s v.each;
  }

  pub delete-IsQueues :
      (l : Limits) (agent : String) (m : Map (List (Item P)))
      → IsQueues l m
      → IsQueues l (delete agent m)
  delete-IsQueues l agent m v = record {
    keys = delete-Keys agent m v.keys;
    each = AllEntries-delete (IsSerial l) agent m v.each;
  }

  -- A longer or shorter tail keeps every head.
  pub retail-IsHead :
      (agent : String) (i : Item P) (r r' : List (Item P)) (m : Map (List (Item P)))
      (act : List (Item P))
      → get agent m ≡ some (i ∷ r)
      → All (IsHead m) act
      → All (IsHead (set agent (i ∷ r') m)) act
  retail-IsHead agent i r r' m [] e h = tt
  retail-IsHead agent i r r' m (j ∷ js) e h =
      let looked = get-set agent (j.agent_id) (i ∷ r') m in
      (
        elim (Bool-cases (agent =? j.agent_id)) [
          | inl f ↦ record {
            behind = r';
            found = ground (arith, h.0.found, eq_iff agent (j.agent_id));
          }
          | inr f ↦ record { behind = h.0.behind; found = ground (arith, h.0.found) }
        ],
        retail-IsHead agent i r r' m js e h.1,
      )

  -- A queue for an agent that had none keeps every head.
  pub fresh-IsHead :
      (agent : String) (q : List (Item P)) (m : Map (List (Item P))) (act : List (Item P))
      → get agent m ≡ none
      → All (IsHead m) act
      → All (IsHead (set agent q m)) act
  fresh-IsHead agent q m [] e h = tt
  fresh-IsHead agent q m (j ∷ js) e h = (
    record {
      behind = h.0.behind;
      found = ground (arith, h.0.found, get-set agent (j.agent_id) q m, eq_iff agent (j.agent_id));
    },
    fresh-IsHead agent q m js e h.1,
  )

  pub own-append :
      (agent : String) (r : List (Item P)) (j : Item P)
      → all (λ i. i.agent_id =? agent) r ≡ true
      → (j.agent_id =? agent) ≡ true
      → all (λ i. i.agent_id =? agent) (r ++ j ∷ []) ≡ true
  own-append agent [] j e f = ground arith
  own-append agent (i ∷ r) j e f = ground (arith, own-append agent r j)

  -- When a head leaves, the heads of the others stay.
  pub drop-IsHead :
      (agent : String) (i : Item P) (r : List (Item P)) (m m' : Map (List (Item P)))
      (act : List (Item P))
      → get agent m ≡ some (i ∷ r)
      → ((k : String) → (agent =? k) ≡ false → get k m' ≡ get k m)
      → All (IsHead m) act
      → All (IsHead m') (filter (λ j. not (j.id == i.id)) act)
  drop-IsHead agent i r m m' [] e others h = tt
  drop-IsHead agent i r m m' (j ∷ js) e others h =
      let rest = drop-IsHead agent i r m m' js e others h.1 in
      if-cases (All (IsHead m')) (not (j.id == i.id)) _ _
        (λ f. (
          record {
            behind = h.0.behind;
            found = ground (
              arith,
              h.0.found,
              eq_iff agent (j.agent_id),
              ==_iff (j.id) (i.id),
              others (j.agent_id),
            );
          },
          rest,
        ))
        λ f. rest

  -- A queue that serves its items one by one has a head that runs.
  serial-cons :
      (q : List (Item P))
      → serial q ≡ true
      → (i : Item P) × (r : List (Item P)) × (q ≡ i ∷ r) × (i.started ≡ true) × (waiting r ≡ true)
  unfolding serial
  serial-cons [] s = absurd (ground arith)
  serial-cons (i ∷ r) s = (i, r, refl, ground arith, ground arith)

  waiting-append :
      (r : List (Item P)) (i : Item P)
      → waiting r ≡ true
      → i.started ≡ false
      → waiting (r ++ i ∷ []) ≡ true
  unfolding waiting
  waiting-append [] i w e = ground arith
  waiting-append (j ∷ r) i w e = ground (arith, waiting-append r i)

  pub serial-append :
      (i : Item P) (r : List (Item P)) (j : Item P)
      → i.started ≡ true
      → waiting r ≡ true
      → j.started ≡ false
      → serial (i ∷ (r ++ j ∷ [])) ≡ true
  unfolding serial
  serial-append i r j runs w e = ground (arith, waiting-append r j w e)

  pub waiting-started : (r : List (Item P)) → waiting r ≡ true → filter (λ i. i.started) r ≡ []
  unfolding waiting
  waiting-started [] w = refl
  waiting-started (j ∷ r) w = ground (arith, waiting-started r)

-- The queue that an agent has, as the invariant knows it.
pub record Lane {P : Type 0} (l : Limits) (agent : String) (queues : Map (List (Item P)))
    : Type 0 where
  pub head : Item P
  pub behind : List (Item P)
  pub found : get agent queues ≡ some (head ∷ behind)
  pub runs : head.started ≡ true
  pub waits : waiting behind ≡ true
  pub own : (head.agent_id =? agent) && all (λ i. i.agent_id =? agent) behind ≡ true
  pub short : suc (length behind) ≤ l.per_agent_limit

pub get-Lane :
    {P : Type 0} (l : Limits) (agent : String) (q : List (Item P)) (m : Map (List (Item P)))
    → IsQueues l m
    → get agent m ≡ some q
    → Lane l agent m
get-Lane l agent q m v e =
    let s = AllEntries-get (IsSerial l) agent q m v.each e in
    let (i, r, same, runs, waits) = serial-cons q s.one_runs in
    record {
      head = i;
      behind = r;
      found = e ∙ ap some same;
      runs = runs;
      waits = waits;
      own = rw same at s.own;
      short = omega (arith, ap length same, s.short);
    }

pub head_facts :
    {P : Type 0} (l : Limits) (agent : String) (i : Item P) (r : List (Item P))
    (m : Map (List (Item P)))
    → IsQueues l m
    → get agent m ≡ some (i ∷ r)
    → (waiting r ≡ true)
      × (all (λ j. j.agent_id =? agent) r ≡ true)
      × (suc (length r) ≤ l.per_agent_limit)
unfolding serial
head_facts l agent i r m v e =
    let s = AllEntries-get (IsSerial l) agent (i ∷ r) m v.each e in
    (ground (arith, s.one_runs), ground (arith, s.own), s.short)
