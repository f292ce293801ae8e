-- ===== src/Base/Bits/Digits.antt =====
-- The binary digit of a number at a position, and what `&`, `|`, `~` and a mask of ones do to it.
use Prim.Native.Nat.{
  ℕ, zero, suc, ◌+◌, ◌-◌, ◌*◌, ◌/◌, ◌%◌, ◌^◌, ◌≤◌, ◌<◌, min, max, bit_and, bit_or, bit_and-bitwise,
}
use mathlib.Core.Path.{◌≡◌, refl, ap, ap₂}
use native.Mathlib.Nat.{pow-suc, one-le-pow}
use native.Mathlib.Omega.{arith}
use sdk_cp.Base.Bits.Step.{bit_and_step, bit_or_step}

-- The digit of `x` at `i`, by the digits of the halves.
unfoldable pub bit : ℕ → ℕ → ℕ
bit zero x = x % 2
bit (suc i) x = bit i (x / 2)

pub bit-lt_two : (i x : ℕ) → bit i x < 2
unfolding bit
bit-lt_two zero x = omega arith
bit-lt_two (suc i) x = bit-lt_two i (x / 2)

pub bit-bit_and : (i x y : ℕ) → bit i (bit_and x y) ≡ min (bit i x) (bit i y)
unfolding bit
bit-bit_and zero x y = omega (arith, bit_and_step x y)
bit-bit_and (suc i) x y = rw (half) (bit-bit_and i (x / 2) (y / 2))
  where
    half : bit_and x y / 2 ≡ bit_and (x / 2) (y / 2)
    half = omega (arith, bit_and_step x y)

pub bit-bit_or : (i x y : ℕ) → bit i (bit_or x y) ≡ max (bit i x) (bit i y)
unfolding bit
bit-bit_or zero x y = omega (arith, bit_or_step x y)
bit-bit_or (suc i) x y = rw (half) (bit-bit_or i (x / 2) (y / 2))
  where
    half : bit_or x y / 2 ≡ bit_or (x / 2) (y / 2)
    half = omega (arith, bit_or_step x y)

-- `~x` in a word of `w` bits.
pub bit_complement : (w i x : ℕ) → i < w → x < 2 ^ w → bit i (2 ^ w - 1 - x) ≡ 1 - bit i x
unfolding bit
bit_complement zero i x inside small = absurd (omega arith)
bit_complement (suc w) zero x inside small = omega (arith, pow-suc 2 w)
bit_complement (suc w) (suc i) x inside small =
    rw (half) (bit_complement w i (x / 2) (omega arith) (omega (arith, pow-suc 2 w)))
  where
    half : (2 ^ suc w - 1 - x) / 2 ≡ 2 ^ w - 1 - x / 2
    half = omega (arith, pow-suc 2 w, one-le-pow w 2)

pub bit-below : (n i : ℕ) → i < n → bit i (2 ^ n - 1) ≡ 1
unfolding bit
bit-below zero i inside = absurd (omega arith)
bit-below (suc n) zero inside = omega (arith, pow-suc 2 n, one-le-pow n 2)
bit-below (suc n) (suc i) inside = rw (half) (bit-below n i (omega arith))
  where
    half : (2 ^ suc n - 1) / 2 ≡ 2 ^ n - 1
    half = omega (arith, pow-suc 2 n, one-le-pow n 2)

pub bit_above : (n i : ℕ) → n ≤ i → bit i (2 ^ n - 1) ≡ 0
unfolding bit
bit_above zero zero outside = refl
bit_above zero (suc i) outside = bit_above zero i (omega arith)
bit_above (suc n) zero outside = absurd (omega arith)
bit_above (suc n) (suc i) outside = rw (half) (bit_above n i (omega arith))
  where
    half : (2 ^ suc n - 1) / 2 ≡ 2 ^ n - 1
    half = omega (arith, pow-suc 2 n, one-le-pow n 2)

pub bit_and-le : (n x y : ℕ) → x ≤ n → bit_and x y ≤ x
bit_and-le zero zero y small = omega (arith, bit_and-bitwise 0 y)
bit_and-le zero (suc x) y small = absurd (omega arith)
bit_and-le (suc n) x y small =
    omega (arith, bit_and_step x y, bit_and-le n (x / 2) (y / 2) (omega arith))

pub bit_or-lt : (n x y : ℕ) → x < 2 ^ n → y < 2 ^ n → bit_or x y < 2 ^ n
bit_or-lt zero x y hx hy = omega (arith, ap₂ bit_or none_x none_y)
  where
    none_x : x ≡ 0
    none_x = omega arith

    none_y : y ≡ 0
    none_y = omega arith
bit_or-lt (suc n) x y hx hy = omega (
  arith,
  pow-suc 2 n,
  bit_or_step x y,
  bit_or-lt n (x / 2) (y / 2) (omega (arith, pow-suc 2 n)) (omega (arith, pow-suc 2 n)),
)

twice_pow : (q k : ℕ) → q * 2 ^ suc k ≡ 2 * (q * 2 ^ k)
twice_pow q k = omega (arith, ap (λ (t : ℕ). q * t) (pow-suc 2 k))

-- `x & ((x | (x - 1)) + 1)` drops the lowest run of ones: when the `j` lowest bits of `x` are 0,
-- one more is 0 in it.
pub drop_run_clears :
    (j x q : ℕ) → x ≡ q * 2 ^ j → (r : ℕ) × (bit_and x (bit_or x (x - 1) + 1) ≡ r * 2 ^ suc j)
drop_run_clears zero x q e = (
  bit_and x (bit_or x (x - 1) + 1) / 2,
  omega (arith, bit_and_step x (bit_or x (x - 1) + 1), bit_or_step x (x - 1)),
)
drop_run_clears (suc j) zero q e = (0, omega (arith, bit_and-bitwise 0 (bit_or 0 (0 - 1) + 1)))
drop_run_clears (suc j) (suc x) q e =
    let (r, ih) = drop_run_clears j (suc x / 2) q (omega (arith, e, twice_pow q j)) in
    (
      r,
      omega (
        arith,
        ih,
        even,
        twice_pow r (suc j),
        bit_and_step (suc x) (bit_or (suc x) (suc x - 1) + 1),
        ap (λ (y : ℕ). bit_and (suc x / 2) y) next,
      ),
    )
  where
    even : suc x % 2 ≡ 0
    even = omega (arith, e, twice_pow q j)

    half : (suc x - 1) / 2 ≡ suc x / 2 - 1
    half = omega (arith, even)

    next : (bit_or (suc x) (suc x - 1) + 1) / 2 ≡ bit_or (suc x / 2) (suc x / 2 - 1) + 1
    next =
        omega
          (arith, even, bit_or_step (suc x) (suc x - 1), ap (λ (y : ℕ). bit_or (suc x / 2) y) half)
