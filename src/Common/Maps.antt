-- ===== src/Common/Maps.antt =====
-- A JavaScript Map with string keys: an association list in insertion order. `set` on a present key
-- keeps its place, `delete` followed by `set` moves it to the end.
use agent_host.Common.{
  ℕ, suc, ◌+◌, ◌≤◌, String, ◌≡◌, refl, sym, Bool, true, false, Option, none, some, List, [], ◌∷◌,
  ◌++◌, map, arith, if◌then◌else◌, ◌=?◌, eq_iff, is_some, sum_of, count_if, find, length, any,
  one_if, inl, inr, Bool-cases,
}
use mathlib.Core.Path.{subst}

abbrev pub Map {ℓ} : Type ℓ → Type ℓ
Map V = List (String × V)

module _ {ℓ} {V : Type ℓ} where
  unfoldable pub get : String → Map V → Option V
  get k [] = none
  get k ((j, v) ∷ m) = if j =? k then some v else get k m

  unfoldable pub has : String → Map V → Bool
  unfolding get
  has k m = is_some (get k m)

  unfoldable pub set : String → V → Map V → Map V
  set k v [] = (k, v) ∷ []
  set k v ((j, w) ∷ m) = if j =? k then (j, v) ∷ m else (j, w) ∷ set k v m

  unfoldable pub delete : String → Map V → Map V
  delete k [] = []
  delete k ((j, w) ∷ m) = if j =? k then delete k m else (j, w) ∷ delete k m

  abbrev pub values : Map V → List V
  values m = map (λ e. e.1) m

  -- The keys of a Map are distinct.
  abbrev pub Keys : Map V → Type ℓ
  Keys [] = Unit
  Keys ((j, v) ∷ m) = (get j m ≡ none) × Keys m

  -- A measure of the values, summed up.
  unfoldable pub total : (V → ℕ) → Map V → ℕ
  total f [] = 0
  total f ((j, v) ∷ m) = f v + total f m

  pub get-set :
      (k j : String) (v : V) (m : Map V) → get j (set k v m) ≡ (if k =? j then some v else get j m)
  unfolding get set
  get-set k j v [] = refl
  get-set k j v ((i, w) ∷ m) = ground (arith, eq_iff k j, eq_iff i k, eq_iff i j, get-set k j v m)

  pub get-set_here : (k : String) (v : V) (m : Map V) → get k (set k v m) ≡ some v
  get-set_here k v m = ground (arith, get-set k k v m, eq_iff k k)

  pub get-delete :
      (k j : String) (m : Map V) → get j (delete k m) ≡ (if k =? j then none else get j m)
  unfolding get delete
  get-delete k j [] = ground arith
  get-delete k j ((i, w) ∷ m) = ground (arith, eq_iff k j, eq_iff i k, eq_iff i j, get-delete k j m)

  pub get-delete_here : (k : String) (m : Map V) → get k (delete k m) ≡ none
  get-delete_here k m = ground (arith, get-delete k k m, eq_iff k k)

  pub set-Keys : (k : String) (v : V) (m : Map V) → Keys m → Keys (set k v m)
  unfolding set get
  set-Keys k v [] h = (refl, tt)
  set-Keys k v ((i, w) ∷ m) h =
      ground (arith, eq_iff i k, eq_iff k i, get-set k i v m, set-Keys k v m h.1)

  pub delete-Keys : (k : String) (m : Map V) → Keys m → Keys (delete k m)
  unfolding delete get
  delete-Keys k [] h = tt
  delete-Keys k ((i, w) ∷ m) h = ground (arith, get-delete k i m, delete-Keys k m h.1)

  -- `set` at a present key replaces one value.
  pub total-set_present :
      (f : V → ℕ) (k : String) (v w : V) (m : Map V)
      → get k m ≡ some v
      → total f (set k w m) + f v ≡ total f m + f w
  unfolding get set total
  total-set_present f k v w [] h = absurd (cc)
  total-set_present f k v w ((i, x) ∷ m) h = ground (arith, total-set_present f k v w m)

  pub total-set_absent :
      (f : V → ℕ) (k : String) (w : V) (m : Map V)
      → get k m ≡ none
      → total f (set k w m) ≡ total f m + f w
  unfolding get set total
  total-set_absent f k w [] h = omega arith
  total-set_absent f k w ((i, x) ∷ m) h = ground (arith, total-set_absent f k w m)

  pub delete_absent : (k : String) (m : Map V) → get k m ≡ none → delete k m ≡ m
  unfolding get delete
  delete_absent k [] h = refl
  delete_absent k ((i, x) ∷ m) h = ground (arith, delete_absent k m)

  pub total-delete :
      (f : V → ℕ) (k : String) (v : V) (m : Map V)
      → Keys m
      → get k m ≡ some v
      → total f (delete k m) + f v ≡ total f m
  unfolding get delete total
  total-delete f k v [] u h = absurd (cc)
  total-delete f k v ((i, x) ∷ m) u h =
      ground (arith, eq_iff i k, total-delete f k v m u.1, delete_absent k m)

  -- A value that the Map holds counts in the total.
  pub total-get : (f : V → ℕ) (k : String) (v : V) (m : Map V) → get k m ≡ some v → f v ≤ total f m
  unfolding get total
  total-get f k v [] h = absurd (cc)
  total-get f k v ((i, x) ∷ m) h = ground (arith, total-get f k v m)

  pub total-append : (f : V → ℕ) (m n : Map V) → total f (m ++ n) ≡ total f m + total f n
  unfolding total
  total-append f [] n = omega arith
  total-append f ((j, v) ∷ m) n = omega (arith, total-append f m n)

  pub total-sum_of : (f : V → ℕ) (m : Map V) → total f m ≡ sum_of f (values m)
  unfolding total
  total-sum_of f [] = refl
  total-sum_of f ((j, v) ∷ m) = omega (arith, total-sum_of f m)

  -- A predicate of every entry.
  abbrev pub AllEntries {κ} : (String → V → Type κ) → Map V → Type κ
  AllEntries P [] = Unit
  AllEntries P ((j, v) ∷ m) = P j v × AllEntries P m

  pub AllEntries-get {κ} :
      (P : String → V → Type κ) (k : String) (v : V) (m : Map V)
      → AllEntries P m
      → get k m ≡ some v
      → P k v
  unfolding get
  AllEntries-get P k v [] h e = absurd (cc)
  AllEntries-get P k v ((i, x) ∷ m) h e = elim (Bool-cases (i =? k)) [
    | inl same ↦
        let here : some x ≡ some v = rw same at e in
        let value : x ≡ v = cc in
        let key : i ≡ k = (eq_iff i k).0 same in subst (P k) value (subst (λ j. P j x) key h.0)
    | inr other ↦ AllEntries-get P k v m h.1 (rw other at e)
  ]

  pub AllEntries-set {κ} :
      (P : String → V → Type κ) (k : String) (v : V) (m : Map V)
      → P k v
      → AllEntries P m
      → AllEntries P (set k v m)
  unfolding set
  AllEntries-set P k v [] p h = (p, tt)
  AllEntries-set P k v ((i, x) ∷ m) p h = elim (Bool-cases (i =? k)) [
    | inl same ↦ rw same (subst (λ j. P j v) (sym ((eq_iff i k).0 same)) p, h.1)
    | inr other ↦ rw other (h.0, AllEntries-set P k v m p h.1)
  ]

  pub AllEntries-delete {κ} :
      (P : String → V → Type κ) (k : String) (m : Map V)
      → AllEntries P m
      → AllEntries P (delete k m)
  unfolding delete
  AllEntries-delete P k [] h = tt
  AllEntries-delete P k ((i, x) ∷ m) h = elim (Bool-cases (i =? k)) [
    | inl same ↦ rw same (AllEntries-delete P k m h.1)
    | inr other ↦ rw other (h.0, AllEntries-delete P k m h.1)
  ]

  -- Setting a value back leaves the Map as it was.
  pub set-set_back : (k : String) (v w : V) (m : Map V) → get k m ≡ some v → set k v (set k w m) ≡ m
  unfolding get set
  set-set_back k v w [] h = absurd (cc)
  set-set_back k v w ((i, x) ∷ m) h = ground (arith, set-set_back k v w m)

  -- So does deleting what was added.
  pub delete-set_back : (k : String) (w : V) (m : Map V) → get k m ≡ none → delete k (set k w m) ≡ m
  unfolding get set delete
  delete-set_back k w [] h = ground (arith, eq_iff k k)
  delete-set_back k w ((i, x) ∷ m) h = ground (arith, delete-set_back k w m)

  pub length-total : (m : Map V) → total (λ v. 1) m ≡ length m
  unfolding total
  length-total [] = refl
  length-total ((j, v) ∷ m) = omega (arith, length-total m)

  pub total_mono : (f g : V → ℕ) (m : Map V) → ((v : V) → f v ≤ g v) → total f m ≤ total g m
  unfolding total
  total_mono f g [] h = omega arith
  total_mono f g ((j, v) ∷ m) h = omega (arith, h v, total_mono f g m h)

  -- A test that no value passes counts nothing.
  pub total-any-false :
      (p : V → Bool) (m : Map V) → any p (values m) ≡ false → total (λ v. one_if (p v)) m ≡ 0
  unfolding total
  total-any-false p [] h = refl
  total-any-false p ((j, v) ∷ m) h = ground (arith, total-any-false p m)

  pub total-add : (f g : V → ℕ) (m : Map V) → total (λ v. f v + g v) m ≡ total f m + total g m
  unfolding total
  total-add f g [] = refl
  total-add f g ((j, v) ∷ m) = omega (arith, total-add f g m)

  pub length-set_present :
      (k : String) (v w : V) (m : Map V) → get k m ≡ some v → length (set k w m) ≡ length m
  unfolding get set
  length-set_present k v w [] h = absurd (cc)
  length-set_present k v w ((i, x) ∷ m) h = ground (arith, length-set_present k v w m)

  pub length-set-le : (k : String) (w : V) (m : Map V) → length (set k w m) ≤ suc (length m)
  unfolding set
  length-set-le k w [] = omega arith
  length-set-le k w ((i, x) ∷ m) = ground (arith, length-set-le k w m)

  pub length-delete-le : (k : String) (m : Map V) → length (delete k m) ≤ length m
  unfolding delete
  length-delete-le k [] = omega arith
  length-delete-le k ((i, x) ∷ m) = ground (arith, length-delete-le k m)

  pub total-delete-le : (f : V → ℕ) (k : String) (m : Map V) → total f (delete k m) ≤ total f m
  unfolding delete total
  total-delete-le f k [] = omega arith
  total-delete-le f k ((i, x) ∷ m) = ground (arith, total-delete-le f k m)

  pub total-set-le :
      (f : V → ℕ) (k : String) (w : V) (m : Map V) → total f (set k w m) ≤ total f m + f w
  unfolding set total
  total-set-le f k w [] = omega arith
  total-set-le f k w ((i, x) ∷ m) = ground (arith, total-set-le f k w m)

  pub total-count_if :
      (p : V → Bool) (m : Map V) → total (λ v. one_if (p v)) m ≡ count_if p (values m)
  unfolding total
  total-count_if p [] = refl
  total-count_if p ((j, v) ∷ m) = omega (arith, total-count_if p m)

  pub set_same : (k : String) (v : V) (m : Map V) → get k m ≡ some v → set k v m ≡ m
  unfolding get set
  set_same k v [] h = absurd (cc)
  set_same k v ((i, x) ∷ m) h = ground (arith, set_same k v m)

  -- Deleting what was set leaves no more than there was.
  pub total-delete-set :
      (f : V → ℕ) (k : String) (w : V) (m : Map V) → total f (delete k (set k w m)) ≤ total f m
  unfolding set delete total
  total-delete-set f k w [] = ground (arith, eq_iff k k)
  total-delete-set f k w ((i, x) ∷ m) =
      ground (arith, total-delete-set f k w m, total-delete-le f k m)

  -- Deleting an entry and setting it again keeps every total.
  pub total-set_deleted :
      (f : V → ℕ) (k : String) (v : V) (m : Map V)
      → Keys m
      → get k m ≡ some v
      → total f (set k v (delete k m)) ≡ total f m
  total-set_deleted f k v m keys found = omega (
    arith,
    total-delete f k v m keys found,
    total-set_absent f k v (delete k m) (ground (arith, get-delete k k m, eq_iff k k)),
  )

  -- And every lookup.
  pub get-set_deleted :
      (k j : String) (v : V) (m : Map V) → get k m ≡ some v → get j (set k v (delete k m)) ≡ get j m
  get-set_deleted k j v m found =
      ground (arith, get-set k j v (delete k m), get-delete k j m, eq_iff k j)

  pub total-find :
      (p : V → Bool) (v : V) (m : Map V)
      → find p (values m) ≡ some v
      → (1 ≤ total (λ w. one_if (p w)) m) × (p v ≡ true)
  unfolding total
  total-find p v [] h = absurd (cc)
  total-find p v ((j, w) ∷ m) h = ground (arith, total-find p v m)

  pub any-get :
      (p : V → Bool) (k : String) (v : V) (m : Map V)
      → get k m ≡ some v
      → p v ≡ true
      → any p (values m) ≡ true
  unfolding get
  any-get p k v [] h e = absurd (cc)
  any-get p k v ((j, w) ∷ m) h e = ground (arith, any-get p k v m)

  -- The one value that passes a test is found again.
  pub find-set :
      (p : V → Bool) (k : String) (v : V) (m : Map V)
      → find p (values m) ≡ none
      → p v ≡ true
      → find p (values (set k v m)) ≡ some v
  unfolding set
  find-set p k v [] h e = ground arith
  find-set p k v ((j, w) ∷ m) h e = ground (arith, find-set p k v m)

  pub set-set : (k : String) (v w : V) (m : Map V) → set k v (set k w m) ≡ set k v m
  unfolding set
  set-set k v w [] = ground (arith, eq_iff k k)
  set-set k v w ((i, x) ∷ m) = ground (arith, set-set k v w m)
