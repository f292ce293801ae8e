-- ===== src/Base/Bits/Step.antt =====
-- One binary digit of `&`, `|` and `^`: the native operations unfold to a digit recursion on fuel,
-- and here each gets its equation for the lowest digit.
use Prim.Native.Nat.{ℕ, zero, suc, ◌+◌, ◌*◌, ◌/◌, ◌%◌, ◌≤◌, ◌<◌, min, max, digits}
use Prim.Native.Nat.{bit_and, bit_or, bit_xor, bit_and-bitwise, bit_or-bitwise, bit_xor-bitwise}
use Prim.Native.Nat.{bitwise, differ}
use mathlib.Core.Path.{◌≡◌, refl}
use native.Mathlib.Omega.{arith}

module _ (base : ℕ → ℕ) (op : ℕ → ℕ → ℕ) where
  -- Any two amounts of fuel that cover the first operand agree.
  fuel_irrelevant : (p q x y : ℕ) → x ≤ p → x ≤ q → digits base op p x y ≡ digits base op q x y
  fuel_irrelevant p q zero y hp hq = at_zero p q y
    where
      at_zero : (p q y : ℕ) → digits base op p zero y ≡ digits base op q zero y
      at_zero zero zero y = refl
      at_zero zero (suc q) y = refl
      at_zero (suc p) zero y = refl
      at_zero (suc p) (suc q) y = refl
  fuel_irrelevant zero q (suc x) y hp hq = absurd (omega arith)
  fuel_irrelevant (suc p) zero (suc x) y hp hq = absurd (omega arith)
  fuel_irrelevant (suc p) (suc q) (suc x) y hp hq =
      rw (fuel_irrelevant p q (suc x / 2) (y / 2) (omega arith) (omega arith))

  low_digit :
      (x y : ℕ)
      → bitwise base op (suc x) y ≡ bitwise base op (suc x / 2) (y / 2) * 2 + op (suc x % 2) (y % 2)
  low_digit x y =
      omega (arith, fuel_irrelevant x (suc x / 2) (suc x / 2) (y / 2) (omega arith) (omega arith))

pub bit_or_step : (x y : ℕ) → bit_or x y ≡ bit_or (x / 2) (y / 2) * 2 + max (x % 2) (y % 2)
bit_or_step zero y = simp bit_or-bitwise (omega arith)
bit_or_step (suc x) y = simp bit_or-bitwise (low_digit (λ b. b) max x y)

pub bit_and_step : (x y : ℕ) → bit_and x y ≡ bit_and (x / 2) (y / 2) * 2 + min (x % 2) (y % 2)
bit_and_step zero y = simp bit_and-bitwise (omega arith)
bit_and_step (suc x) y = simp bit_and-bitwise (low_digit (λ b. 0) min x y)

differ-lt_two : (a b : ℕ) → a < 2 → b < 2 → differ a b ≡ (a + b) % 2
differ-lt_two zero b ha hb = omega arith
differ-lt_two (suc zero) zero ha hb = refl
differ-lt_two (suc zero) (suc zero) ha hb = refl
differ-lt_two (suc zero) (suc (suc b)) ha hb = absurd (omega arith)
differ-lt_two (suc (suc a)) b ha hb = absurd (omega arith)

pub bit_xor_step : (x y : ℕ) → bit_xor x y ≡ bit_xor (x / 2) (y / 2) * 2 + (x + y) % 2
bit_xor_step zero y = simp bit_xor-bitwise (omega arith)
bit_xor_step (suc x) y = simp bit_xor-bitwise (
    omega (
      arith,
      low_digit (λ b. b) differ x y,
      differ-lt_two (suc x % 2) (y % 2) (omega arith) (omega arith),
    ))
