-- ===== src/Base/Bits/Xor.antt =====
-- Laws of `^` that unmasking rests on.
use Prim.Native.Nat.{ℕ, zero, suc, ◌+◌, ◌/◌, ◌^◌, ◌≤◌, ◌<◌, bit_xor}
use mathlib.Core.Path.{◌≡◌, refl, sym, ap, ◌∙◌}
use native.Mathlib.Nat.{pow-suc}
use native.Mathlib.Omega.{arith}
use sdk_cp.Base.Bits.Step.{bit_xor_step}

cancel_below : (n x k : ℕ) → x ≤ n → k ≤ n → bit_xor (bit_xor x k) k ≡ x
cancel_below zero zero zero hx hk = refl
cancel_below zero zero (suc k) hx hk = absurd (omega arith)
cancel_below zero (suc x) k hx hk = absurd (omega arith)
cancel_below (suc n) x k hx hk = omega (
  arith,
  bit_xor_step x k,
  bit_xor_step (bit_xor x k) k,
  ap (λ (t : ℕ). bit_xor t (k / 2)) half,
  cancel_below n (x / 2) (k / 2) (omega arith) (omega arith),
)
  where
    half : bit_xor x k / 2 ≡ bit_xor (x / 2) (k / 2)
    half = omega (arith, bit_xor_step x k)

-- A key applied twice gives the byte back.
pub bit_xor_cancel : (x k : ℕ) → bit_xor (bit_xor x k) k ≡ x
bit_xor_cancel x k = cancel_below (x + k) x k (omega arith) (omega arith)

-- `^` of two words of a width stays within it.
pub bit_xor-lt : (w x y : ℕ) → x < 2 ^ w → y < 2 ^ w → bit_xor x y < 2 ^ w
bit_xor-lt zero zero zero hx hy = omega arith
bit_xor-lt zero zero (suc y) hx hy = absurd (omega arith)
bit_xor-lt zero (suc x) y hx hy = absurd (omega arith)
bit_xor-lt (suc w) x y hx hy = omega (
  arith,
  bit_xor_step x y,
  pow-suc 2 w,
  bit_xor-lt w (x / 2) (y / 2) (omega (arith, pow-suc 2 w)) (omega (arith, pow-suc 2 w)),
)

comm_below : (n x y : ℕ) → x ≤ n → y ≤ n → bit_xor x y ≡ bit_xor y x
comm_below zero zero zero hx hy = refl
comm_below zero zero (suc y) hx hy = absurd (omega arith)
comm_below zero (suc x) y hx hy = absurd (omega arith)
comm_below (suc n) x y hx hy = omega (
  arith,
  bit_xor_step x y,
  bit_xor_step y x,
  comm_below n (x / 2) (y / 2) (omega arith) (omega arith),
)

-- A state and its exclusive or with a value determine the value.
pub bit_xor_left_injective : (k x y : ℕ) → bit_xor k x ≡ bit_xor k y → x ≡ y
bit_xor_left_injective k x y e =
    sym (bit_xor_cancel x k)
    ∙ ap (λ t. bit_xor t k)
        (comm_below (x + k) x k (omega arith) (omega arith)
          ∙ e
          ∙ comm_below (y + k) k y (omega arith) (omega arith))
    ∙ bit_xor_cancel y k

pub bit_xor_right_injective : (k x y : ℕ) → bit_xor x k ≡ bit_xor y k → x ≡ y
bit_xor_right_injective k x y e =
    sym (bit_xor_cancel x k) ∙ ap (λ t. bit_xor t k) e ∙ bit_xor_cancel y k
