-- ===== src/Base/Bits/And.antt =====
-- `&` does not mind the order of its operands.
use Prim.Native.Nat.{ℕ, zero, suc, ◌+◌, ◌/◌, ◌≤◌, bit_and}
use mathlib.Core.Path.{◌≡◌, refl}
use native.Mathlib.Omega.{arith}
use sdk_cp.Base.Bits.Step.{bit_and_step}

comm_below : (n x y : ℕ) → x ≤ n → y ≤ n → bit_and x y ≡ bit_and y x
comm_below zero zero zero hx hy = refl
comm_below zero zero (suc y) hx hy = absurd (omega arith)
comm_below zero (suc x) y hx hy = absurd (omega arith)
comm_below (suc n) x y hx hy = omega (
  arith,
  bit_and_step x y,
  bit_and_step y x,
  comm_below n (x / 2) (y / 2) (omega arith) (omega arith),
)

pub bit_and_comm : (x y : ℕ) → bit_and x y ≡ bit_and y x
bit_and_comm x y = comm_below (x + y) x y (omega arith) (omega arith)
