-- ===== src/Launch/Coordinator/Waiting.antt =====
-- What taking the first fitting element does to a queue, and the counts of runs per provider.
use agent_host.Common.{
  ℕ, suc, ◌+◌, ◌-◌, String, ◌≡◌, refl, Bool, true, false, Option, none, some, List, [], ◌∷◌, arith,
  if◌then◌else◌, length, any, sum_of, one_if, ◌==◌, ◌=?◌, eq_iff, inl, inr, Bool-cases,
  Option-cases,
}
use agent_host.Common.Maps.{
  Map, get, set, delete, has, Keys, get-set, get-delete, total-set_absent, total-delete,
  length-total,
}
use agent_host.Launch.Coordinator.{take_first, in_use, give_back}

module _ {A : Type 0} (p : A → Bool) where
  -- What was taken passes the test, and it is the one element that is missing.
  abbrev pub Takes : List A → Option (A × List A) → Type 0
  Takes xs none = any p xs ≡ false
  Takes xs (some found) =
      (p found.0 ≡ true)
      × (suc (length found.1) ≡ length xs)
      × ((f : A → ℕ) → sum_of f xs ≡ f found.0 + sum_of f found.1)

  Takes-later :
      (x : A) (xs : List A) (r : Option (A × List A))
      → p x ≡ false
      → Takes xs r
      → Takes (x ∷ xs) (elim r [ none ↦ none | some found ↦ some (found.0, x ∷ found.1) ])
  Takes-later x xs none e t = ground arith
  Takes-later x xs (some found) e t = (t.0, omega (arith, t.1), λ f. omega (arith, t.2 f))

  pub take_first-Takes : (xs : List A) → Takes xs (take_first p xs)
  unfolding take_first
  take_first-Takes [] = refl
  take_first-Takes (x ∷ xs) = elim (Bool-cases (p x)) [
    | inl fits ↦ rw fits (fits, refl, λ f. refl)
    | inr other ↦ rw other (Takes-later x xs (take_first p xs) other (take_first-Takes xs))
  ]

-- A run more, and a run less.
pub in_use-set :
    (p q : String) (m : Map ℕ)
    → in_use q (set p (suc (in_use p m)) m) ≡ in_use q m + one_if (p =? q)
in_use-set p q m = ground (arith, get-set p q (suc (in_use p m)) m, eq_iff p q)

pub in_use-give_back :
    (p q : String) (m : Map ℕ) → in_use q (give_back p m) ≡ in_use q m - one_if (p =? q)
unfolding give_back
in_use-give_back p q m = elim (Option-cases (get p m)) [
  | inl e ↦ rw e (ground (arith, get-delete p q m, eq_iff p q))
  | inr (n, e) ↦ rw e (elim (Bool-cases (n - 1 == 0)) [
    | inl last ↦ rw last (ground (arith, get-delete p q m, eq_iff p q))
    | inr more ↦ rw more (ground (arith, get-set p q (n - 1) m, eq_iff p q))
  ])
]

module _ {V : Type 0} where
  pub length-set_absent :
      (k : String) (v : V) (m : Map V) → get k m ≡ none → length (set k v m) ≡ suc (length m)
  length-set_absent k v m e =
      omega (arith, total-set_absent (λ w. 1) k v m e, length-total (set k v m), length-total m)

  pub length-delete_present :
      (k : String) (v : V) (m : Map V)
      → Keys m
      → get k m ≡ some v
      → suc (length (delete k m)) ≡ length m
  length-delete_present k v m u e =
      omega (arith, total-delete (λ w. 1) k v m u e, length-total (delete k m), length-total m)

  pub has-set :
      (k j : String) (v : V) (m : Map V) → has j (set k v m) ≡ (if k =? j then true else has j m)
  unfolding has
  has-set k j v m = ground (arith, get-set k j v m)

  pub has-delete :
      (k j : String) (m : Map V) → has j (delete k m) ≡ (if k =? j then false else has j m)
  unfolding has
  has-delete k j m = ground (arith, get-delete k j m)

  pub has-get-none : (k : String) (m : Map V) → has k m ≡ false → get k m ≡ none
  unfolding has
  has-get-none k m e = ground arith

  pub has-get-some : (k : String) (v : V) (m : Map V) → get k m ≡ some v → has k m ≡ true
  unfolding has
  has-get-some k v m e = rw e refl
