-- ===== src/Http/ActionExecutor/Kept.antt =====
-- What `shutdown` leaves of the queues: of each one, its head.
use agent_host.Common.{
  suc, ◌+◌, ◌≡◌, refl, ap, String, true, not, none, some, List, [], ◌∷◌, arith, if◌then◌else◌,
  is_empty, length, length-append, length-filter, filter, All,
}
use agent_host.Common.Maps.{Map, get, total, Keys, AllEntries}
use agent_host.Http.ActionExecutor.{Limits, Item, kept_queues, pending_items, rejected}
use agent_host.Http.ActionExecutor.Queues.{
  IsQueues, IsSerial, IsHead, serial, waiting, waiting-started,
}

pub length-rejected :
    {P : Type 0} (R : Type 0) (q : List (Item P)) → length (rejected {R = R} q) ≡ length q
unfolding rejected
length-rejected R [] = refl
length-rejected R (i ∷ q) = ap suc (length-rejected R q)

module _ {P : Type 0} where
  total-rest :
      (a : String) (q : List (Item P)) (m : Map (List (Item P)))
      → total length (if is_empty q then m else (a, q) ∷ m) ≡ length q + total length m
  unfolding total
  total-rest a [] m = omega arith
  total-rest a (i ∷ q) m = omega arith

  pub kept-counts :
      (m : Map (List (Item P)))
      → total length (kept_queues m) + length (pending_items m) ≡ total length m
  unfolding total kept_queues pending_items
  kept-counts [] = refl
  kept-counts ((a, q) ∷ m) =
      let ih = kept-counts m in
      let both = length-filter (λ i. i.started) q in
      omega (
        arith,
        ih,
        both,
        total-rest a (filter (λ i. i.started) q) (kept_queues m),
        length-append (filter (λ i. not i.started) q) (pending_items m),
      )

  get-kept : (k : String) (m : Map (List (Item P))) → get k m ≡ none → get k (kept_queues m) ≡ none
  unfolding get kept_queues
  get-kept k [] e = refl
  get-kept k ((a, q) ∷ m) e = ground (arith, get-kept k m)

  -- A queue that serves its items one by one keeps its head.
  serial-kept :
      (i : Item P) (r : List (Item P))
      → serial (i ∷ r) ≡ true
      → filter (λ j. j.started) (i ∷ r) ≡ i ∷ []
  unfolding serial
  serial-kept i r s = ground (arith, waiting-started r)

  kept-cons :
      (l : Limits) (a : String) (q : List (Item P)) (m : Map (List (Item P)))
      → IsSerial l a q
      → (i : Item P) × (r : List (Item P)) × (q ≡ i ∷ r)
        × (IsSerial l a (i ∷ []))
        × (kept_queues ((a, q) ∷ m) ≡ (a, i ∷ []) ∷ kept_queues m)
  unfolding kept_queues serial waiting
  kept-cons l a [] m s = absurd (ground (arith, s.one_runs))
  kept-cons l a (i ∷ r) m s = (
    i,
    r,
    refl,
    record {
      one_runs = ground (arith, s.one_runs);
      own = ground (arith, s.own);
      short = omega (arith, s.short);
    },
    rw (serial-kept i r s.one_runs) refl,
  )

  kept-Keys :
      (l : Limits) (m : Map (List (Item P)))
      → AllEntries (IsSerial l) m
      → Keys m
      → Keys (kept_queues m)
  unfolding kept_queues
  kept-Keys l [] v k = tt
  kept-Keys l ((a, q) ∷ m) v k =
      let (i, r, same, s, e) = kept-cons l a q m v.0 in
      rw e (get-kept a m k.0, kept-Keys l m v.1 k.1)

  kept-AllEntries :
      (l : Limits) (m : Map (List (Item P)))
      → AllEntries (IsSerial l) m
      → AllEntries (IsSerial l) (kept_queues m)
  unfolding kept_queues
  kept-AllEntries l [] v = tt
  kept-AllEntries l ((a, q) ∷ m) v =
      let (i, r, same, s, e) = kept-cons l a q m v.0 in rw e (s, kept-AllEntries l m v.1)

  pub kept-IsQueues :
      (l : Limits) (m : Map (List (Item P))) → IsQueues l m → IsQueues l (kept_queues m)
  kept-IsQueues l m v = record {
    keys = kept-Keys l m v.each v.keys;
    each = kept-AllEntries l m v.each;
  }

  get-kept_head :
      (l : Limits) (k : String) (m : Map (List (Item P))) (j : Item P) (b : List (Item P))
      → AllEntries (IsSerial l) m
      → get k m ≡ some (j ∷ b)
      → get k (kept_queues m) ≡ some (j ∷ [])
  unfolding get
  get-kept_head l k [] j b v e = absurd (cc)
  get-kept_head l k ((a, q) ∷ m) j b v e =
      let (i, r, same, s, f) = kept-cons l a q m v.0 in
      let ih = get-kept_head l k m j b v.1 in rw f (ground (arith, same, ih))

  pub kept-IsHead :
      (l : Limits) (m : Map (List (Item P))) (act : List (Item P))
      → IsQueues l m
      → All (IsHead m) act
      → All (IsHead (kept_queues m)) act
  kept-IsHead l m [] v h = tt
  kept-IsHead l m (j ∷ act) v h = (
    record { behind = []; found = get-kept_head l (j.agent_id) m j h.0.behind v.each h.0.found },
    kept-IsHead l m act v h.1,
  )
