-- ===== src/Common/Xor.antt =====
-- Exclusive or, by the lowest binary digit: to apply the same number twice undoes it.
use Prim.Native.Nat.{bit_xor, bit_xor-bitwise, digits, differ}
use agent_host.Common.{ℕ, zero, suc, ◌+◌, ◌*◌, ◌/◌, ◌%◌, ◌≤◌, ◌≡◌, refl, arith}

-- One digit per step, while there is enough of the count.
enough : (n m a b : ℕ) → a ≤ n → a ≤ m → digits (λ y. y) differ n a b ≡ digits (λ y. y) differ m a b
enough zero zero a b p q = refl
enough zero (suc m) zero b p q = refl
enough (suc n) zero zero b p q = refl
enough (suc n) (suc m) zero b p q = refl
enough zero (suc m) (suc a) b p q = absurd (omega arith)
enough (suc n) zero (suc a) b p q = absurd (omega arith)
enough (suc n) (suc m) (suc a) b p q =
    omega (arith, enough n m (suc a / 2) (b / 2) (omega arith) (omega arith))

differ_zero : (b : ℕ) → differ 0 b ≡ b
differ_zero b = refl

lowest_digit : (a b : ℕ) → bit_xor a b ≡ bit_xor (a / 2) (b / 2) * 2 + differ (a % 2) (b % 2)
lowest_digit zero b = simp bit_xor-bitwise (omega arith)
lowest_digit (suc a) b =
    simp bit_xor-bitwise
      (omega (arith, enough a (suc a / 2) (suc a / 2) (b / 2) (omega arith) (omega arith)))

differ_digits : (x y : ℕ) → x ≤ 1 → y ≤ 1 → (differ x y ≤ 1) × (differ (differ x y) y ≡ x)
differ_digits zero zero p q = (omega arith, refl)
differ_digits zero (suc zero) p q = (omega arith, refl)
differ_digits (suc zero) zero p q = (omega arith, refl)
differ_digits (suc zero) (suc zero) p q = (omega arith, refl)
differ_digits zero (suc (suc y)) p q = absurd (omega arith)
differ_digits (suc zero) (suc (suc y)) p q = absurd (omega arith)
differ_digits (suc (suc x)) y p q = absurd (omega arith)

undone : (n a b : ℕ) → a ≤ n → b ≤ n → bit_xor (bit_xor a b) b ≡ a
undone zero zero zero p q = refl
undone zero (suc a) b p q = absurd (omega arith)
undone zero zero (suc b) p q = absurd (omega arith)
undone (suc n) a b p q =
    let low = differ_digits (a % 2) (b % 2) (omega arith) (omega arith) in
    let first = lowest_digit a b in
    let half : bit_xor a b / 2 ≡ bit_xor (a / 2) (b / 2) = omega (arith, first, low.0) in
    let digit : bit_xor a b % 2 ≡ differ (a % 2) (b % 2) = omega (arith, first, low.0) in
    let again = rw (half, digit) at (lowest_digit (bit_xor a b) b) in
    omega (arith, again, low.1, undone n (a / 2) (b / 2) (omega arith) (omega arith))

pub bit_xor_undone : (a b : ℕ) → bit_xor (bit_xor a b) b ≡ a
bit_xor_undone a b = undone (a + b) a b (omega arith) (omega arith)
