-- ===== src/Associations/Justified.antt =====
-- What a published repository context promises whatever the adapter handed over.
use agent_host.Common.{
  ℕ, suc, ◌≤◌, ◌≡◌, refl, String, Bool, true, false, ◌&&◌, ◌||◌, not, Option, none, some, List, [],
  ◌∷◌, arith, ◌=?◌, leb, zero, eq_iff, if◌then◌else◌, if-cases, any, all, length, take,
  length-take-le, is_some, get_or, inl, inr, Bool-cases, Option-cases,
}
use agent_host.Common.Json.{Value, null, Fields, member, as_object, as_array, as_string}
use agent_host.Common.Results.{ok, Result-cases}
use agent_host.Associations.{
  Host, Association, Checkout, Provenance, one_of, need, optional, has_branch, Repository, assemble,
  normalize_repository, normalize_checkout, normalize_provenance, normalize_association,
}
use agent_host.Associations.Context.{
  Context, ready, Partial, Gathered, gather, gather_one, insert, sort_associations, ready_context,
  stated_context, normalize_object, partial_context, normalize_repository_context, max_associations,
  max_raw_associations,
}

-- A confirmed association is of high confidence, from no heuristic, and gives no reason; a candidate is
-- not of high confidence, identifies no pull request and gives a reason, and it has a branch when
-- the branch is its reason.
unfoldable pub is_justified : Association → Bool
is_justified a =
    if a.kind =? "confirmed"
    then (a.provenance.confidence =? "high")
      && not (a.provenance.source =? "adapter-heuristic")
      && not (is_some a.reason)
    else (a.kind =? "candidate")
      && not (a.provenance.confidence =? "high")
      && not (is_some a.pull_request)
      && is_some a.reason
      && (not (get_or a.reason "" =? "branch_match") || has_branch a.checkout)

provenance_lem :
    (v : Option Value) (kind : String) (p : Provenance)
    → normalize_provenance v kind ≡ ok p
    → (not (
          (kind =? "confirmed")
          && ((p.source =? "adapter-heuristic") || not (p.confidence =? "high")))
        ≡ true)
      × (not ((kind =? "candidate") && (p.confidence =? "high")) ≡ true)
unfolding normalize_provenance need
provenance_lem v kind p e = ground arith

assemble-is_justified :
    (h : Host) (fs : Fields) (kind : String) (r : Repository) (p : Provenance) (c : Option Checkout)
    (a : Association)
    → one_of ("confirmed" ∷ "candidate" ∷ []) kind ≡ true
    → (not (
          (kind =? "confirmed")
          && ((p.source =? "adapter-heuristic") || not (p.confidence =? "high")))
        ≡ true)
    → (not ((kind =? "candidate") && (p.confidence =? "high")) ≡ true)
    → assemble h fs kind r p c ≡ ok a
    → is_justified a ≡ true
unfolding assemble need is_justified
assemble-is_justified h fs kind r p c a one confirmed candidate e = ground (
  arith,
  eq_iff kind "confirmed",
  eq_iff kind "candidate",
  eq_iff "confirmed" kind,
  eq_iff "candidate" kind,
)

-- Every association that the reader lets through is justified.
normalize_association-is_justified :
    (h : Host) (v : Value) (a : Association)
    → normalize_association h v ≡ ok a
    → is_justified a ≡ true
unfolding normalize_association
normalize_association-is_justified h v a e0 = elim (Result-cases (need (as_object (some v)))) [
  | inr (x, f) ↦ absurd (let bad = rw f at e0 in cc)
  | inl (fs, f) ↦
      let e1 = rw f at e0 in
      elim (Result-cases (need (as_string (member "kind" fs)))) [
        | inr (x, f) ↦ absurd (let bad = rw f at e1 in cc)
        | inl (kind, f) ↦
            let e2 = rw f at e1 in
            elim (Bool-cases (one_of ("confirmed" ∷ "candidate" ∷ []) kind)) [
              | inr unknown ↦ absurd (let bad = rw unknown at e2 in cc)
              | inl one ↦
                  let e3 = rw one at e2 in
                  elim (Result-cases (normalize_repository h (member "repository" fs))) [
                    | inr (x, f) ↦ absurd (let bad = rw f at e3 in cc)
                    | inl (r, f) ↦
                        let e4 = rw f at e3 in
                        elim (Result-cases (normalize_provenance (member "provenance" fs) kind)) [
                          | inr (x, f) ↦ absurd (let bad = rw f at e4 in cc)
                          | inl (p, g) ↦
                              let e5 = rw g at e4 in
                              elim (Result-cases
                                (optional normalize_checkout (member "checkout" fs))) [
                                  | inr (x, f) ↦ absurd (let bad = rw f at e5 in cc)
                                  | inl (c, f) ↦
                                      let (confirmed, candidate) =
                                        provenance_lem (member "provenance" fs) kind p g in
                                      assemble-is_justified h fs kind r p c a one confirmed
                                        candidate (rw f at e5)
                                ]
                        ]
                  ]
            ]
      ]
]

gather_one-is_justified :
    (h : Host) (v : Value) (g : Gathered)
    → all is_justified g.normalized ≡ true
    → all is_justified (gather_one h (normalize_association h v) g).normalized ≡ true
unfolding gather_one
gather_one-is_justified h v g s = elim (Result-cases (normalize_association h v)) [
  | inr (x, f) ↦ rw f s
  | inl (a, f) ↦ rw f (
      if-cases (λ (g' : Gathered). all is_justified g'.normalized ≡ true)
        (any (λ k. k =? h.stringify a) g.seen) _ _ (λ _. s)
        λ _. rw (normalize_association-is_justified h v a f) s)
]

gather-is_justified :
    (h : Host) (vs : List Value) (g : Gathered)
    → all is_justified g.normalized ≡ true
    → all is_justified (gather h vs g).normalized ≡ true
unfolding gather
gather-is_justified h [] g s = s
gather-is_justified h (v ∷ vs) g s = gather-is_justified h vs _ (gather_one-is_justified h v g s)

insert-all :
    (h : Host) (p : Association → Bool) (a : Association) (xs : List Association)
    → p a ≡ true
    → all p xs ≡ true
    → all p (insert h a xs) ≡ true
unfolding insert
insert-all h p a [] e f = ground arith
insert-all h p a (b ∷ bs) e f = ground (arith, insert-all h p a bs)

sort-all :
    (h : Host) (p : Association → Bool) (xs : List Association)
    → all p xs ≡ true
    → all p (sort_associations h xs) ≡ true
unfolding sort_associations
sort-all h p [] e = refl
sort-all h p (a ∷ rest) e =
    insert-all h p a (sort_associations h rest) (ground arith) (sort-all h p rest (ground arith))

take-all :
    {A : Type 0} (p : A → Bool) (n : ℕ) (xs : List A) → all p xs ≡ true → all p (take n xs) ≡ true
take-all p zero xs e = refl
take-all p (suc n) [] e = refl
take-all p (suc n) (x ∷ xs) e = ground (arith, take-all p n xs)

-- What a context shows: nothing but justified associations, no more than the bound, and complete exactly
-- when it carries no error.
unfoldable pub is_publishable : Context → Bool
is_publishable (ready r) =
    all is_justified r.associations
    && leb (length r.associations) max_associations
    && (if r.complete then not (is_some r.error) else is_some r.error)
is_publishable _ = true

ready-is_publishable :
    (f : String) (c : Bool) (xs : List Association) (p : Partial) (o : Option String)
    → all is_justified xs ≡ true
    → length xs ≤ max_associations
    → is_publishable (
        ready record {
          freshness = f;
          complete = c;
          associations = xs;
          error = if c then none else some p;
          observed_at = o;
        })
      ≡ true
unfolding is_publishable
ready-is_publishable f true xs p o s n = ground arith
ready-is_publishable f false xs p o s n = ground arith

ready_context-is_publishable : (h : Host) (fs : Fields) → is_publishable (ready_context h fs) ≡ true
unfolding ready_context
ready_context-is_publishable h fs =
    let source = take max_raw_associations (get_or (as_array (member "associations" fs)) []) in
    let start : Gathered = record {
      rejected = if is_some (as_array (member "associations" fs)) then 0 else 1;
      seen = [];
      normalized = [];
    } in
    let found = (gather h source start).normalized in
    ready-is_publishable _ _ _ _ _
      (take-all is_justified max_associations (sort_associations h found)
        (sort-all h is_justified found (gather-is_justified h source start refl)))
      (length-take-le max_associations (sort_associations h found))

stated_context-is_publishable :
    (h : Host) (fs : Fields) (state : String) → is_publishable (stated_context h fs state) ≡ true
unfolding stated_context is_publishable partial_context
stated_context-is_publishable h fs state =
    let Fine = λ (c : Context). is_publishable c ≡ true in
    if-cases Fine (state =? "unsupported") _ _ (λ _. refl)
      λ _.
        if-cases Fine (state =? "unavailable") _ _ (λ _. refl)
          λ _.
            if-cases Fine (state =? "ready") _ _ (λ _. ready_context-is_publishable h fs) λ _. refl

object-is_publishable :
    (h : Host) (o : Option Fields) → is_publishable (normalize_object h o) ≡ true
unfolding normalize_object is_publishable partial_context
object-is_publishable h none = refl
object-is_publishable h (some fs) = elim (Option-cases (as_string (member "state" fs))) [
  | inl e ↦ rw (e, is_publishable) refl
  | inr (state, e) ↦ rw (e, is_publishable) (stated_context-is_publishable h fs state)
]

-- Whatever an adapter hands over as its repository context, each association that the normalized
-- context shows is either confirmed, with high confidence, from no heuristic and without a
-- reason, or a candidate, without high confidence and without a pull request, with a reason, and
-- with a branch if the branch is the reason; at most 100 are shown, and the context is complete
-- exactly when it carries no error.
pub normalize_repository_context-is_publishable :
    (h : Host) (v : Option Value) → is_publishable (normalize_repository_context h v) ≡ true
unfolding normalize_repository_context is_publishable
normalize_repository_context-is_publishable h none = refl
normalize_repository_context-is_publishable h (some null) = refl
normalize_repository_context-is_publishable h (some v) =
    object-is_publishable h (as_object (some v))
