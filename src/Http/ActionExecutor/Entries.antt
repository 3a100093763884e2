-- ===== src/Http/ActionExecutor/Entries.antt =====
-- What each operation leaves of the entry of an open action, and of the answers.
use agent_host.Common.{
  ℕ, ◌≡◌, refl, sym, ap, ◌∙◌, String, Bool, false, ◌||◌, not, Option, none, some, List, [], ◌∷◌,
  ◌++◌, arith, leb, ◌==◌, ◌=?◌, eq_iff, if-cases, length, get_or, any, inl, inr, Bool-cases,
}
use agent_host.Common.Maps.{Map, get, set, get-set}
use agent_host.Common.Results.{Result}
use agent_host.Http.ActionExecutor.{
  Limits, Item, Entry, Executor, Reply, ActionError, max_idempotency_entries, settle, settle_items,
  rejected, pump, pump_queue, release, enqueue, admit,
}
use agent_host.Http.ActionExecutor.Replay.{opened, pump_queue-cache}

-- Whether an action has got its answer.
abbrev pub is_answered : {R : Type 0} → ℕ → List (ℕ × Result ActionError R) → Bool
is_answered n answers = any (λ a. a.0 == n) answers

pub is_answered-append :
    {R : Type 0} (n : ℕ) (xs ys : List (ℕ × Result ActionError R))
    → is_answered n (xs ++ ys) ≡ (is_answered n xs || is_answered n ys)
is_answered-append n [] ys = refl
is_answered-append n (x ∷ xs) ys = ground (arith, is_answered-append n xs ys)

-- The end of an action leaves the entries of the others.
pub get-settle :
    (k : String) (s : String) (n id expires : ℕ) (m : Map Entry)
    → get k m ≡ some (opened s n)
    → (id == n) ≡ false
    → get k (settle id expires m) ≡ some (opened s n)
unfolding get settle
get-settle k s n id expires [] e other = absurd (cc)
get-settle k s n id expires ((j, d) ∷ m) e other = elim (Bool-cases (j =? k)) [
  | inl same ↦
      let here : some d ≡ some (opened s n) = rw same at e in
      let is_it : d ≡ opened s n = cc in
      let apart : (n == id) ≡ false = ground (arith, other) in rw (same, is_it, apart) refl
  | inr differs ↦ rw differs (get-settle k s n id expires m (rw differs at e) other)
]

pub get-settle_items :
    {P : Type 0} (R : Type 0) (k s : String) (n expires : ℕ) (is : List (Item P)) (m : Map Entry)
    → get k m ≡ some (opened s n)
    → is_answered n (rejected {P = P} {R = R} is) ≡ false
    → get k (settle_items is expires m) ≡ some (opened s n)
unfolding settle_items rejected
get-settle_items R k s n expires [] m e none_of = e
get-settle_items R k s n expires (i ∷ is) m e none_of =
    get-settle k s n i.id expires (settle_items is expires m)
      (get-settle_items R k s n expires is m e (ground arith)) (ground arith)

-- An entry for another key leaves it.
get-set_other :
    (k key : String) (d e : Entry) (m : Map Entry)
    → get k m ≡ some e
    → get key m ≡ none
    → get k (set key d m) ≡ some e
get-set_other k key d e m found new = elim (Bool-cases (key =? k)) [
  | inl same ↦
      let keys : key ≡ k = (eq_iff key k).0 same in
      let gone : get k m ≡ none = ap (λ j. get j m) (sym keys) ∙ new in absurd (cc)
  | inr differs ↦ get-set key k d m ∙ rw differs found
]

module _ {P R : Type 0} where
  pump_queue-answers :
      (agent : String) (q : Option (List (Item P))) (x : Executor P R)
      → (pump_queue agent q x).answers ≡ x.answers
  unfolding pump_queue
  pump_queue-answers agent none x = refl
  pump_queue-answers agent (some []) x = refl
  pump_queue-answers agent (some (i ∷ r)) x =
      if-cases (λ (y : Executor P R). y.answers ≡ x.answers) (i.started) _ _ (λ _. refl) λ _. refl

  -- What a request leaves of an open entry, and of the answers.
  abbrev pub Leaves : String → String → ℕ → Executor P R → Executor P R → Type 0
  Leaves k s n x y = (get k y.cache ≡ some (opened s n)) × (y.answers ≡ x.answers)

  enqueue-Leaves :
      (k s : String) (n : ℕ) (s' agent action : String) (p : P) (key : String) (x : Executor P R)
      → get k x.cache ≡ some (opened s n)
      → get key x.cache ≡ none
      → Leaves k s n x (enqueue s' agent action p key x)
  unfolding enqueue pump
  enqueue-Leaves k s n s' agent action p key x e new = (
    rw (pump_queue-cache agent)
        (get-set_other k key (opened s' x.next_id) (opened s n) x.cache e new),
    rw (pump_queue-answers agent) refl,
  )

  pub admit-Leaves :
      (l : Limits) (k s : String) (n : ℕ) (s' agent action : String) (p : P) (key : String)
      (found : Option Entry) (x : Executor P R)
      → get k x.cache ≡ some (opened s n)
      → get key x.cache ≡ found
      → Leaves k s n x (admit l s' agent action p key found x).0
  unfolding admit
  admit-Leaves l k s n s' agent action p key (some d) x e same =
      if-cases (λ (r : Executor P R × Result ActionError Reply). Leaves k s n x r.0)
        (not (d.signature =? s')) _ _ (λ _. (e, refl)) λ _. (e, refl)
  admit-Leaves l k s n s' agent action p key none x e new =
      let Fine = λ (r : Executor P R × Result ActionError Reply). Leaves k s n x r.0 in
      if-cases Fine (x.draining) _ _ (λ _. (e, refl))
        λ _.
          if-cases Fine (leb max_idempotency_entries (length x.cache)) _ _ (λ _. (e, refl))
            λ _.
              if-cases Fine
                (leb (l.per_agent_limit) (length (get_or (get agent x.queues) []))
                  || leb (l.global_limit) x.queued)
                _ _ (λ _. (e, refl)) λ _. enqueue-Leaves k s n s' agent action p key x e new

  pub admit-answers :
      (l : Limits) (s agent action : String) (p : P) (key : String) (found : Option Entry)
      (x : Executor P R)
      → (admit l s agent action p key found x).0.answers ≡ x.answers
  unfolding admit enqueue pump
  admit-answers l s agent action p key (some d) x =
      if-cases (λ (r : Executor P R × Result ActionError Reply). r.0.answers ≡ x.answers)
        (not (d.signature =? s)) _ _ (λ _. refl) λ _. refl
  admit-answers l s agent action p key none x =
      let Same = λ (r : Executor P R × Result ActionError Reply). r.0.answers ≡ x.answers in
      if-cases Same (x.draining) _ _ (λ _. refl)
        λ _.
          if-cases Same (leb max_idempotency_entries (length x.cache)) _ _ (λ _. refl)
            λ _.
              if-cases Same
                (leb (l.per_agent_limit) (length (get_or (get agent x.queues) []))
                  || leb (l.global_limit) x.queued)
                _ _ (λ _. refl) λ _. pump_queue-answers agent _ _

  pub release-Leaves :
      (i : Item P) (x : Executor P R)
      → ((release i x).cache ≡ x.cache) × ((release i x).answers ≡ x.answers)
  unfolding release pump
  release-Leaves i x = (pump_queue-cache _ _ _, pump_queue-answers _ _ _)
