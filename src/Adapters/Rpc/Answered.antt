-- ===== src/Adapters/Rpc/Answered.antt =====
-- Every request ends at most once, and waits until it does.
use agent_host.Common.{
  ℕ, suc, ◌+◌, ◌≤◌, ◌≡◌, refl, Bool, true, false, ◌&&◌, ◌||◌, not, Option, none, some, List, [],
  ◌∷◌, ◌++◌, arith, ◌==◌, leb, ltb, if◌then◌else◌, if-cases, one_if, filter, any, sum_of,
  sum_of-append,
}
use agent_host.Adapters.Rpc.{
  Pending, Outcome, write_failed, resolved, failed, timed_out, aborted, Settlement, Client, initial,
  settle, request, answer, all_settled, disconnect, connect, Event, connects, requests, answers,
  times_out, aborts, disconnects_at, step, run,
}

abbrev pub waiting : ℕ → List Pending → ℕ
waiting id = sum_of (λ (p : Pending). one_if (p.id == id))

abbrev pub ended : ℕ → List Settlement → ℕ
ended id = sum_of (λ (s : Settlement). one_if (s.id == id))

-- A request that was made waits or has ended, once; none other does.
pub record IsAccounted (c : Client) : Type 0 where
  pub numbered : 1 ≤ c.next_id
  pub once :
      (id : ℕ) → waiting id c.pending + ended id c.settled ≡ one_if (leb 1 id && ltb id c.next_id)

waiting-filter :
    (id j : ℕ) (ps : List Pending)
    → waiting j (filter (λ (p : Pending). not (p.id == id)) ps)
      ≡ (if id == j then 0 else waiting j ps)
waiting-filter id j [] = ground arith
waiting-filter id j (p ∷ ps) = ground (arith, waiting-filter id j ps)

waiting-any :
    (id : ℕ) (ps : List Pending) → any (λ (p : Pending). p.id == id) ps ≡ true → 1 ≤ waiting id ps
waiting-any id [] e = absurd (cc)
waiting-any id (p ∷ ps) e = ground (arith, waiting-any id ps)

settle-IsAccounted :
    (id : ℕ) (o : Outcome) (c : Client) → IsAccounted c → IsAccounted (settle id o c)
unfolding settle
settle-IsAccounted id o c ok =
    if-cases IsAccounted (any (λ (p : Pending). p.id == id) c.pending) _ _
      (λ waits. record {
        numbered = ok.numbered;
        once = λ j. ground (
          arith,
          waiting-filter id j c.pending,
          waiting-any id c.pending waits,
          sum_of-append (λ (s : Settlement). one_if (s.id == j)) c.settled
              (record { id = id; outcome = o } ∷ []),
          ok.once j,
          ok.once id,
        );
      })
      λ _. ok

split_generation :
    (g j : ℕ) (ps : List Pending)
    → waiting j (filter (λ (p : Pending). not (p.generation == g)) ps)
        + ended j (all_settled (filter (λ (p : Pending). p.generation == g) ps))
      ≡ waiting j ps
split_generation g j [] = refl
split_generation g j (p ∷ ps) = ground (arith, split_generation g j ps)

disconnect-IsAccounted : (g : ℕ) (c : Client) → IsAccounted c → IsAccounted (disconnect g c)
unfolding disconnect
disconnect-IsAccounted g c ok =
    if-cases IsAccounted (not (g == c.generation)) _ _ (λ _. ok)
      λ _. record {
        numbered = ok.numbered;
        once = λ j. omega (
          arith,
          split_generation g j c.pending,
          sum_of-append (λ (s : Settlement). one_if (s.id == j)) c.settled
              (all_settled (filter (λ (p : Pending). p.generation == g) c.pending)),
          ok.once j,
        );
      }

request-IsAccounted :
    (expected : Option ℕ) (writes : Bool) (c : Client)
    → IsAccounted c
    → IsAccounted (request expected writes c)
unfolding request
request-IsAccounted expected writes c ok =
    let added : Pending = record { id = c.next_id; generation = c.generation } in
    let waits : IsAccounted
        (record c { next_id = suc c.next_id; pending = c.pending ++ added ∷ [] }) =
      record {
        numbered = omega arith;
        once = λ j. ground (
          arith,
          sum_of-append (λ (p : Pending). one_if (p.id == j)) c.pending (added ∷ []),
          ok.once j,
          ok.numbered,
        );
      } in
    if-cases IsAccounted
      (elim expected [ none ↦ false | some g ↦ not c.started || not (c.generation == g) ]) _ _
      (λ _. ok)
      λ _.
        if-cases IsAccounted (c.writable && writes) _ _ (λ _. waits)
          λ _. settle-IsAccounted c.next_id write_failed _ waits

step-IsAccounted : (e : Event) (c : Client) → IsAccounted c → IsAccounted (step e c)
unfolding step connect answer
step-IsAccounted connects c ok =
    if-cases IsAccounted c.started _ _ (λ _. ok)
      λ _. record { numbered = ok.numbered; once = ok.once }
step-IsAccounted (requests expected writes) c ok = request-IsAccounted expected writes c ok
step-IsAccounted (answers g id succeeds) c ok =
    if-cases IsAccounted
      (not (g == c.generation)
        || not (any (λ (p : Pending). p.id == id && p.generation == g) c.pending))
      _ _ (λ _. ok) λ _. settle-IsAccounted id (if succeeds then resolved else failed) c ok
step-IsAccounted (times_out id) c ok = settle-IsAccounted id timed_out c ok
step-IsAccounted (aborts id) c ok = settle-IsAccounted id aborted c ok
step-IsAccounted (disconnects_at g) c ok = disconnect-IsAccounted g c ok

run-IsAccounted_from : (es : List Event) (c : Client) → IsAccounted c → IsAccounted (run es c)
unfolding run
run-IsAccounted_from [] c ok = ok
run-IsAccounted_from (e ∷ es) c ok = run-IsAccounted_from es (step e c) (step-IsAccounted e c ok)

-- Over every history of a new client, a request that was made waits for its answer or its promise ended
-- exactly once, and no other promise ended.
pub run-IsAccounted : (es : List Event) → IsAccounted (run es initial)
run-IsAccounted es =
    run-IsAccounted_from es initial record { numbered = omega arith; once = λ j. ground arith }
