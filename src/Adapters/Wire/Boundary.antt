-- ===== src/Adapters/Wire/Boundary.antt =====
-- Where the server's response ends: found in a part of the bytes it is found in all of them, and not
-- found in a part it ends behind that part.
use agent_host.Common.{
  starts, ℕ, suc, ◌+◌, ◌≤◌, ◌≡◌, refl, true, false, some, none, List, [], ◌∷◌, ◌++◌, arith, length,
}
use agent_host.Adapters.Wire.Handshake.{index_of}

starts-append : (p s c : List ℕ) → starts p s ≡ true → starts p (s ++ c) ≡ true
unfolding starts
starts-append [] s c e = refl
starts-append (q ∷ p) [] c e = absurd (cc)
starts-append (q ∷ p) (x ∷ s) c e = ground (arith, starts-append p s c)

starts-length : (p s : List ℕ) → starts p s ≡ true → length p ≤ length s
unfolding starts
starts-length [] s e = omega arith
starts-length (q ∷ p) [] e = absurd (cc)
starts-length (q ∷ p) (x ∷ s) e = ground (arith, starts-length p s)

starts-append_late :
    (p s c : List ℕ) → starts p s ≡ false → starts p (s ++ c) ≡ true → suc (length s) ≤ length p
unfolding starts
starts-append_late [] s c e t = absurd (cc)
starts-append_late (q ∷ p) [] c e t = omega arith
starts-append_late (q ∷ p) (x ∷ s) c e t = ground (arith, starts-append_late p s c)

index_of-le : (p : List ℕ) (i : ℕ) (s : List ℕ) (at : ℕ) → index_of p i s ≡ some at → i ≤ at
unfolding index_of
index_of-le p i [] at e = absurd (cc)
index_of-le p i (x ∷ s) at e = ground (arith, index_of-le p (suc i) s at)

pub index_of-inside :
    (p : List ℕ) (i : ℕ) (s : List ℕ) (at : ℕ)
    → index_of p i s ≡ some at
    → at + length p ≤ i + length s
unfolding index_of
index_of-inside p i [] at e = absurd (cc)
index_of-inside p i (x ∷ s) at e =
    ground (arith, starts-length p (x ∷ s), index_of-inside p (suc i) s at)

pub index_of-append :
    (p : List ℕ) (i : ℕ) (s c : List ℕ) (at : ℕ)
    → index_of p i s ≡ some at
    → index_of p i (s ++ c) ≡ some at
unfolding index_of
index_of-append p i [] c at e = absurd (cc)
index_of-append p i (x ∷ s) c at e = ground (
  arith,
  starts-append p (x ∷ s) c,
  starts-append_late p (x ∷ s) c,
  index_of-inside p (suc i) s at,
  index_of-le p (suc i) s at,
  index_of-append p (suc i) s c at,
)

pub index_of-append_late :
    (q : ℕ) (p : List ℕ) (i : ℕ) (s c : List ℕ) (at : ℕ)
    → index_of (q ∷ p) i s ≡ none
    → index_of (q ∷ p) i (s ++ c) ≡ some at
    → suc (i + length s) ≤ at + length (q ∷ p)
unfolding index_of
index_of-append_late q p i [] c at e t = omega (arith, index_of-le (q ∷ p) i c at t)
index_of-append_late q p i (x ∷ s) c at e t =
    ground (arith, starts-append_late (q ∷ p) (x ∷ s) c, index_of-append_late q p (suc i) s c at)
