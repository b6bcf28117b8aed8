-- ===== src/Base/Bits.antt =====
-- `&` on numbers, digit by digit.
use Prim.Native.Nat.{ℕ, zero, suc, ◌+◌, ◌*◌, ◌/◌, ◌%◌, ◌≤◌, min, bit_and, digits, bit_and-bitwise}
use mathlib.Core.Path.{◌≡◌, refl}
use native.Mathlib.Omega.{arith}

-- The digits of `a & b` with fuel for the digits of `a`.
abbrev and_of : ℕ → ℕ → ℕ → ℕ
and_of fuel a b = digits (λ d. zero) min fuel a b

and_of-enough : (f h a b : ℕ) → a ≤ f → a ≤ h → and_of f a b ≡ and_of h a b
and_of-enough zero zero a b p q = refl
and_of-enough zero (suc h) zero b p q = refl
and_of-enough (suc f) zero zero b p q = refl
and_of-enough (suc f) (suc h) zero b p q = refl
and_of-enough zero h (suc a) b p q = absurd (omega arith)
and_of-enough (suc f) zero (suc a) b p q = absurd (omega arith)
and_of-enough (suc f) (suc h) (suc a) b p q =
    omega (arith, and_of-enough f h (suc a / 2) (b / 2) (omega arith) (omega arith))

-- The lowest digit of `a & b` is the smaller of the two.
low_digit : (a b : ℕ) → bit_and a b ≡ bit_and (a / 2) (b / 2) * 2 + min (a % 2) (b % 2)
low_digit zero b = omega (arith, bit_and-bitwise 0 b, bit_and-bitwise 0 (b / 2))
low_digit (suc a) b = omega (
  arith,
  bit_and-bitwise (suc a) b,
  bit_and-bitwise (suc a / 2) (b / 2),
  and_of-enough a (suc a / 2) (suc a / 2) (b / 2) (omega arith) (omega arith),
)

bit_and-le_below : (f a b : ℕ) → a ≤ f → bit_and a b ≤ a
bit_and-le_below f zero b h = omega (arith, bit_and-bitwise 0 b)
bit_and-le_below zero (suc a) b h = absurd (omega arith)
bit_and-le_below (suc f) (suc a) b h =
    omega (arith, low_digit (suc a) b, bit_and-le_below f (suc a / 2) (b / 2) (omega arith))

pub bit_and-le : (a b : ℕ) → bit_and a b ≤ a
bit_and-le a b = bit_and-le_below a a b (omega arith)

bit_and_self_below : (f a : ℕ) → a ≤ f → bit_and a a ≡ a
bit_and_self_below f zero h = omega (arith, bit_and-bitwise 0 0)
bit_and_self_below zero (suc a) h = absurd (omega arith)
bit_and_self_below (suc f) (suc a) h =
    omega (arith, low_digit (suc a) (suc a), bit_and_self_below f (suc a / 2) (omega arith))

pub bit_and_self : (a : ℕ) → bit_and a a ≡ a
bit_and_self a = bit_and_self_below a a (omega arith)
