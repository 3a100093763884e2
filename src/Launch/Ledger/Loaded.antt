-- ===== src/Launch/Ledger/Loaded.antt =====
-- A document that `open` accepts satisfies the invariant.
use agent_host.Common.{
  ℕ, ◌+◌, ◌≤◌, String, ◌≡◌, refl, true, false, Option, none, some, List, [], ◌∷◌, arith, one_if,
  get_or, length, ◌=?◌, eq_iff, inl, inr, Option-cases, count_if, any, all, map,
}
use agent_host.Common.Results.{ok}
use agent_host.Common.Maps
use agent_host.Common.Maps.{
  Map, Keys, AllEntries, total, AllEntries-set, set-Keys, total-set_absent, length-total,
  total-count_if,
}
use agent_host.Launch.Contracts.{LaunchRecord, validate_launch_record}
use agent_host.Launch.Ledger.{
  Host, Document, Retirement, Cleanup, valid_retirement, ◌=o◌, is_retiring, retiring_count,
}
use agent_host.Launch.Ledger.Open.{
  Contents, load, well_formed, cleanup_by_id, cleanups_of, claim_key, claim_option, claim_record,
  load_records, distinct, claim_retirements, by_launch_id,
}
use agent_host.Launch.Ledger.Cleanups.{cleanup_by_id-valid, cleanups_of-valid}
use agent_host.Launch.Ledger.Sound.{record_uses, retirement_uses, RecordOk, RetirementOk, IsSound}

-- How often a key was seen.
abbrev occurs : String → List String → ℕ
occurs k = count_if (λ j. j =? k)

occurs-any : (k : String) (xs : List String) → any (λ j. j =? k) xs ≡ false → occurs k xs ≡ 0
occurs-any k [] h = refl
occurs-any k (x ∷ xs) h = ground (arith, occurs-any k xs)

abbrev AtMostOnce : List String → Type 0
AtMostOnce seen = (k : String) → occurs k seen ≤ 1

-- A key is claimed once.
claim_key-occurs :
    (k j : String) (seen more : List String)
    → claim_key k seen ≡ some more
    → AtMostOnce seen
    → (occurs j more ≡ occurs j seen + one_if (k =? j)) × (occurs j more ≤ 1)
unfolding claim_key
claim_key-occurs k j seen more e once = ground (arith, occurs-any k seen, once j, eq_iff k j)

-- One more claim after a first one.
abbrev Claims : (String → ℕ) → List String → List String → Type 0
Claims f seen more = (j : String) → (occurs j more ≡ occurs j seen + f j) × (occurs j more ≤ 1)

claim_option-Claims :
    (o : Option String) (seen more : List String)
    → claim_option o seen ≡ some more
    → AtMostOnce seen
    → Claims (λ j. one_if (o =o some j)) seen more
unfolding claim_option
claim_option-Claims none seen more e once j = ground (arith, once j)
claim_option-Claims (some k) seen more e once j = claim_key-occurs k j seen more e once

claim_record-Claims :
    (r : LaunchRecord) (seen more : List String)
    → claim_record r seen ≡ some more
    → AtMostOnce seen
    → Claims (λ j. record_uses j r) seen more
unfolding claim_record
claim_record-Claims r seen more e once j = elim (Option-cases (claim_key r.key_hash seen)) [
  | inl refused ↦ absurd (ground arith)
  | inr (mid, first) ↦
      let once' : AtMostOnce mid = λ k. (claim_key-occurs r.key_hash k seen mid first once).1 in
      let last : claim_option r.retirement_key_hash mid ≡ some more = ground arith in
      omega (
        arith,
        claim_key-occurs r.key_hash j seen mid first once,
        claim_option-Claims r.retirement_key_hash mid more last once' j,
      )
]

claim_retirements-Claims :
    (ts : List Retirement) (seen more : List String)
    → claim_retirements ts seen ≡ some more
    → AtMostOnce seen
    → Claims (λ j. total (retirement_uses j) (by_launch_id ts)) seen more
unfolding claim_retirements total
claim_retirements-Claims [] seen more e once j = ground (arith, once j)
claim_retirements-Claims (t ∷ ts) seen more e once j =
    elim (Option-cases (claim_key t.creation_key_hash seen)) [
      | inl refused ↦ absurd (ground arith)
      | inr (mid, first) ↦ elim (Option-cases (claim_key t.key_hash mid)) [
        | inl refused ↦ absurd (ground arith)
        | inr (mid', second) ↦
            let once1 : AtMostOnce mid =
              λ k. (claim_key-occurs t.creation_key_hash k seen mid first once).1 in
            let once2 : AtMostOnce mid' =
              λ k. (claim_key-occurs t.key_hash k mid mid' second once1).1 in
            let last : claim_retirements ts mid' ≡ some more = ground arith in
            omega (
              arith,
              claim_key-occurs t.creation_key_hash j seen mid first once,
              claim_key-occurs t.key_hash j mid mid' second once1,
              claim_retirements-Claims ts mid' more last once2 j,
            )
      ]
    ]

-- What the loop over the records has built.
record Loads (h : Host) (m : Map LaunchRecord) (seen : List String) : Type 0 where
  keys : Keys m
  valid : AllEntries (RecordOk h) m
  counted : (j : String) → occurs j seen ≡ total (record_uses j) m
  once : AtMostOnce seen

Loads-step :
    (h : Host) (r : LaunchRecord) (m : Map LaunchRecord) (seen more : List String)
    → Loads h m seen
    → validate_launch_record h.date_parse r ≡ true
    → claim_record r seen ≡ some more
    → Maps.get r.id m ≡ none
    → Loads h (Maps.set r.id r m) more
Loads-step h r m seen more l ok_record claimed new = record {
  keys = set-Keys r.id r m l.keys;
  valid = AllEntries-set (RecordOk h) r.id r m (refl, ok_record) l.valid;
  counted = λ j. omega (
    arith,
    claim_record-Claims r seen more claimed l.once j,
    l.counted j,
    total-set_absent (record_uses j) r.id r m new,
  );
  once = λ j. (claim_record-Claims r seen more claimed l.once j).1;
}

load_records-Loads :
    (h : Host) (rs : List LaunchRecord) (m : Map LaunchRecord) (seen : List String)
    (m' : Map LaunchRecord) (seen' : List String)
    → Loads h m seen
    → all (validate_launch_record h.date_parse) rs ≡ true
    → load_records rs m seen ≡ some (m', seen')
    → Loads h m' seen' × (length m' ≡ length m + length rs)
unfolding load_records
load_records-Loads h [] m seen m' seen' l valid e =
    let e1 : m ≡ m' = cc in let e2 : seen ≡ seen' = cc in (rw (← e1, ← e2) l, ground arith)
load_records-Loads h (r ∷ rs) m seen m' seen' l valid e =
    elim (Option-cases (claim_record r seen)) [
      | inl refused ↦ absurd (ground arith)
      | inr (more, claimed) ↦ elim (Option-cases (Maps.get r.id m)) [
        | inr (q, taken) ↦ absurd (unfold Maps.has in ground arith)
        | inl new ↦
            let rest : load_records rs (Maps.set r.id r m) more ≡ some (m', seen') =
              unfold Maps.has in ground arith in
            let (loads, size) =
              load_records-Loads h rs (Maps.set r.id r m) more m' seen'
                (Loads-step h r m seen more l (ground arith) claimed new) (ground arith) rest in
            (
              loads,
              omega (
                arith,
                size,
                total-set_absent (λ x. 1) r.id r m new,
                length-total m,
                length-total (Maps.set r.id r m),
              ),
            )
      ]
    ]

length-by_launch_id : (ts : List Retirement) → length (by_launch_id ts) ≡ length ts
length-by_launch_id [] = refl
length-by_launch_id (t ∷ ts) = ground (arith, length-by_launch_id ts)

length-cleanup_by_id : (cs : List Cleanup) → length (cleanup_by_id cs) ≡ length cs
length-cleanup_by_id [] = refl
length-cleanup_by_id (c ∷ cs) = ground (arith, length-cleanup_by_id cs)

get-by_launch_id :
    (k : String) (ts : List Retirement)
    → any (λ y. y =? k) (map (λ t. t.launch_id) ts) ≡ false
    → Maps.get k (by_launch_id ts) ≡ none
unfolding Maps.get
get-by_launch_id k [] h = refl
get-by_launch_id k (t ∷ ts) h = ground (arith, get-by_launch_id k ts)

by_launch_id-Keys :
    (ts : List Retirement) → distinct (map (λ t. t.launch_id) ts) ≡ true → Keys (by_launch_id ts)
unfolding distinct
by_launch_id-Keys [] h = tt
by_launch_id-Keys (t ∷ ts) h =
    (get-by_launch_id t.launch_id ts (ground arith), by_launch_id-Keys ts (ground arith))

get-cleanup_by_id :
    (k : String) (cs : List Cleanup)
    → any (λ y. y =? k) (map (λ c. c.launch_id) cs) ≡ false
    → Maps.get k (cleanup_by_id cs) ≡ none
unfolding Maps.get
get-cleanup_by_id k [] h = refl
get-cleanup_by_id k (c ∷ cs) h = ground (arith, get-cleanup_by_id k cs)

cleanup_by_id-Keys :
    (cs : List Cleanup) → distinct (map (λ c. c.launch_id) cs) ≡ true → Keys (cleanup_by_id cs)
unfolding distinct
cleanup_by_id-Keys [] h = tt
cleanup_by_id-Keys (c ∷ cs) h =
    (get-cleanup_by_id c.launch_id cs (ground arith), cleanup_by_id-Keys cs (ground arith))

module _ (h : Host) where
  by_launch_id-valid :
      (ts : List Retirement)
      → all (valid_retirement h) ts ≡ true
      → AllEntries (RetirementOk h) (by_launch_id ts)
  by_launch_id-valid [] e = tt
  by_launch_id-valid (t ∷ ts) e = ((refl, ground arith), by_launch_id-valid ts (ground arith))

  -- The tombstones of a well-formed document are valid and few, also where there are none.
  tombstones :
      (d : Document)
      → well_formed h d ≡ true
      → (all (valid_retirement h) (get_or d.retirements []) ≡ true)
        × (length (get_or d.retirements []) ≤ 100)
        × (all (validate_launch_record h.date_parse) d.records ≡ true)
        × (length d.records ≤ 1_000)
  unfolding well_formed
  tombstones d e = ground arith

  empty-Loads : Loads h [] []
  unfolding total
  empty-Loads = record { keys = tt; valid = tt; counted = λ j. refl; once = λ j. omega arith }

  loaded-IsSound :
      (d : Document) (m : Map LaunchRecord) (seen more : List String)
      → well_formed h d ≡ true
      → load_records d.records [] [] ≡ some (m, seen)
      → claim_retirements (get_or d.retirements []) seen ≡ some more
      → distinct (map (λ t. t.launch_id) (get_or d.retirements [])) ≡ true
      → distinct (map (λ c. c.launch_id) (cleanups_of d)) ≡ true
      → length (cleanups_of d) + retiring_count m ≤ 1_000
      → IsSound h m (by_launch_id (get_or d.retirements [])) (cleanup_by_id (cleanups_of d))
  loaded-IsSound d m seen more formed loaded claimed once_ts once_cs few =
      let ts = get_or d.retirements [] in
      let (ts_valid, ts_few, rs_valid, rs_few) = tombstones d formed in
      let (loads, size) = load_records-Loads h d.records [] [] m seen empty-Loads rs_valid loaded in
      record {
        record_keys = loads.keys;
        retirement_keys = by_launch_id-Keys ts once_ts;
        cleanup_keys = cleanup_by_id-Keys (cleanups_of d) once_cs;
        cleanups_valid =
            cleanup_by_id-valid h (cleanups_of d) (cleanups_of-valid h d ts_valid formed);
        records_valid = loads.valid;
        retirements_valid = by_launch_id-valid ts ts_valid;
        used_once = λ k.
            omega
              (arith, claim_retirements-Claims ts seen more claimed loads.once k, loads.counted k);
        few_records = omega (arith, size, rs_few);
        few_retirements = omega (arith, ts_few, length-by_launch_id ts);
        few_cleanups =
            omega (arith, few, length-cleanup_by_id (cleanups_of d), total-count_if is_retiring m);
      }

  -- Whatever document `open` accepts, what it loads satisfies the invariant.
  pub load-IsSound :
      (d : Document) (c : Contents) → load h d ≡ ok c → IsSound h c.records c.retirements c.cleanups
  unfolding load
  load-IsSound d c e = elim (Option-cases (load_records d.records [] [])) [
    | inl refused ↦ absurd (ground arith)
    | inr ((m, seen), loaded) ↦
        elim (Option-cases (claim_retirements (get_or d.retirements []) seen)) [
          | inl refused ↦ absurd (ground arith)
          | inr (more, claimed) ↦
              let e1 : c.records ≡ m = ground arith in
              let e2 : c.retirements ≡ by_launch_id (get_or d.retirements []) = ground arith in
              let e3 : c.cleanups ≡ cleanup_by_id (cleanups_of d) = ground arith in
              rw (e1, e2, e3)
                (loaded-IsSound d m seen more (ground arith) loaded claimed (ground arith)
                  (ground arith) (ground arith))
        ]
  ]
