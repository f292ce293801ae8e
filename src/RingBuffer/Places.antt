-- ===== src/RingBuffer/Places.antt =====
-- The arithmetic of indices, offsets and sizes in the ring.
use sdk_cp.Base.{
  ℕ, zero, suc, ◌+◌, ◌-◌, ◌*◌, ◌/◌, ◌%◌, ◌^◌, ◌≤◌, ◌<◌, ◌≡◌, ◌≢◌, ◌⊎◌, inl, inr, refl, sym, ap, ◌∙◌,
  subst, arith, dec_lt, bit_and, u32, sub32, ◌==◌, ==_ne, if◌then◌else◌,
}
use sdk_cp.Base.Bits.{bit_and_mask, bit_and_comm}
use Prim.Native.Nat.{◌∣◌}
use native.Mathlib.Nat.{
  one-le-pow, pow-le-pow_right, mul-le-mul_right, suc-mul, div-add-mod', mod-lt, mod-eq_of_lt,
  div-eq_of_lt, div-le_self, mod_self, add-mul-div_right, add-mul-mod_self_right, pow-suc, dvd_refl,
  dvd-mul_right_of_dvd, dvd-mul_left,
}
use sdk_cp.RingBuffer.{overhead, slot, padded, end_block}

-- A number by its quotient and rest.
pub div_of : (s q t : ℕ) → t < s → (q * s + t) / s ≡ q
div_of s q t h =
    ap (λ x. x / s) swap ∙ add-mul-div_right t q (omega arith) ∙ omega (arith, div-eq_of_lt h)
  where
    swap : q * s + t ≡ t + q * s
    swap = omega arith

pub mod_of : (s q t : ℕ) → t < s → (q * s + t) % s ≡ t
mod_of s q t h = ap (λ x. x % s) swap ∙ add-mul-mod_self_right t q s ∙ mod-eq_of_lt h
  where
    swap : q * s + t ≡ t + q * s
    swap = omega arith

pub slot-mod : (k a x : ℕ) → slot k a x ≡ x % 2 ^ k
slot-mod k a x = bit_and_mask k x

-- Two stretches of indices, one behind the other within one turn of the ring and neither across
-- the end of the memory, have offsets apart.
pub apart :
    (s x m y n : ℕ)
    → 0 < s
    → x + m ≤ y
    → y + n ≤ x + s
    → x % s + m ≤ s
    → y % s + n ≤ s
    → (x % s + m ≤ y % s) ⊎ (y % s + n ≤ x % s)
apart s x m y n pos behind within mx ny = elim (dec_lt (y / s) (x / s)) [
  | yes lt ↦
      absurd (omega (arith, lx, ly, mod-lt y {m = s} pos, suc-mul (y / s) s, mul-le-mul_right s lt))
  | no ge ↦ elim (dec_lt (x / s) (y / s)) [
    | no le ↦ inl (omega (arith, lx, ly, same (omega arith)))
    | yes gt ↦ elim (dec_lt (suc (x / s)) (y / s)) [
      | yes far ↦ absurd (
          omega (
            arith,
            lx,
            ly,
            mod-lt x {m = s} pos,
            suc-mul (x / s) s,
            suc-mul (suc (x / s)) s,
            mul-le-mul_right s far,
          ))
      | no next ↦ inr (omega (arith, lx, ly, suc-mul (x / s) s, ap (λ q. q * s) (one_more next gt)))
    ]
  ]
]
  where
    lx : x / s * s + x % s ≡ x
    lx = div-add-mod' x s

    ly : y / s * s + y % s ≡ y
    ly = div-add-mod' y s

    same : x / s ≡ y / s → x / s * s ≡ y / s * s
    same e = ap (λ q. q * s) e

    one_more : ¬ (suc (x / s) < y / s) → x / s < y / s → suc (x / s) ≡ y / s
    one_more f g = omega (arith, f, g)

-- The overhead of a block, from alignment 8 on, is one unit of alignment.
pub overhead-eq : (k a : ℕ) → 3 ≤ a → a ≤ 7 → overhead k a ≡ 2 ^ a
unfolding overhead
overhead-eq k zero low high = absurd (omega arith)
overhead-eq k (suc zero) low high = absurd (omega arith)
overhead-eq k (suc (suc zero)) low high = absurd (omega arith)
overhead-eq k (suc (suc (suc zero))) low high = refl
overhead-eq k (suc (suc (suc (suc zero)))) low high = refl
overhead-eq k (suc (suc (suc (suc (suc zero))))) low high = refl
overhead-eq k (suc (suc (suc (suc (suc (suc zero)))))) low high = refl
overhead-eq k (suc (suc (suc (suc (suc (suc (suc zero))))))) low high = refl
overhead-eq k (suc (suc (suc (suc (suc (suc (suc (suc a)))))))) low high = absurd (omega arith)

rest_test : (x : ℕ) → x ≢ 0 → bit_and 1 (if x == 0 then 1 else 0) ≡ 0
rest_test x ne = rw (==_ne x 0 ne)

-- The block in which a stretch ends: that of its beginning, unless it crosses into the next one.
module _ (k a w c : ℕ) (some_bytes : 0 < c) (small : w + c < 2 ^ 64) where
  by_parts : w / 2 ^ k * 2 ^ k + w % 2 ^ k ≡ w
  by_parts = div-add-mod' w (2 ^ k)

  inside : w % 2 ^ k + c < 2 ^ k → end_block k a (w + c) ≡ w / 2 ^ k
  unfolding end_block
  inside h =
      rw (bit_and_mask k (w + c), rest, rest_test (w % 2 ^ k + c) (λ e. omega arith), quotient)
        (omega (arith, div-le_self w (2 ^ k)))
    where
      split : w + c ≡ w / 2 ^ k * 2 ^ k + (w % 2 ^ k + c)
      split = omega (arith, by_parts)

      rest : (w + c) % 2 ^ k ≡ w % 2 ^ k + c
      rest = ap (λ x. x % 2 ^ k) split ∙ mod_of (2 ^ k) (w / 2 ^ k) (w % 2 ^ k + c) h

      quotient : (w + c) / 2 ^ k ≡ w / 2 ^ k
      quotient = ap (λ x. x / 2 ^ k) split ∙ div_of (2 ^ k) (w / 2 ^ k) (w % 2 ^ k + c) h

  up_to_end : w % 2 ^ k + c ≡ 2 ^ k → end_block k a (w + c) ≡ w / 2 ^ k
  unfolding end_block
  up_to_end h = rw (bit_and_mask k (w + c), rest, quotient) (omega (arith, div-le_self w (2 ^ k)))
    where
      next : w + c ≡ suc (w / 2 ^ k) * 2 ^ k + 0
      next = omega (arith, by_parts, h, suc-mul (w / 2 ^ k) (2 ^ k))

      rest : (w + c) % 2 ^ k ≡ 0
      rest =
          ap (λ x. x % 2 ^ k) next
          ∙ mod_of (2 ^ k) (suc (w / 2 ^ k)) 0 (one-le-pow k 2 (omega arith))

      quotient : (w + c) / 2 ^ k ≡ suc (w / 2 ^ k)
      quotient =
          ap (λ x. x / 2 ^ k) next
          ∙ div_of (2 ^ k) (suc (w / 2 ^ k)) 0 (one-le-pow k 2 (omega arith))

  pub end_block-here : w % 2 ^ k + c ≤ 2 ^ k → end_block k a (w + c) ≡ w / 2 ^ k
  end_block-here h = elim (dec_lt (w % 2 ^ k + c) (2 ^ k)) [
    | yes lt ↦ inside lt
    | no ge ↦ up_to_end (omega arith)
  ]

  pub end_block-next : 2 ^ k < w % 2 ^ k + c → c < 2 ^ k → end_block k a (w + c) ≡ suc (w / 2 ^ k)
  unfolding end_block
  end_block-next h less =
      rw
        (
          bit_and_mask k (w + c),
          rest,
          rest_test (w % 2 ^ k + c - 2 ^ k) (λ e. omega arith),
          quotient,
        )
        (omega (arith, quotient, div-le_self (w + c) (2 ^ k)))
    where
      low : w % 2 ^ k < 2 ^ k
      low = mod-lt w (one-le-pow k 2 (omega arith))

      next : w + c ≡ suc (w / 2 ^ k) * 2 ^ k + (w % 2 ^ k + c - 2 ^ k)
      next = omega (arith, by_parts, h, suc-mul (w / 2 ^ k) (2 ^ k))

      rest : (w + c) % 2 ^ k ≡ w % 2 ^ k + c - 2 ^ k
      rest =
          ap (λ x. x % 2 ^ k) next
          ∙ mod_of (2 ^ k) (suc (w / 2 ^ k)) (w % 2 ^ k + c - 2 ^ k) (omega (arith, low))

      quotient : (w + c) / 2 ^ k ≡ suc (w / 2 ^ k)
      quotient =
          ap (λ x. x / 2 ^ k) next
          ∙ div_of (2 ^ k) (suc (w / 2 ^ k)) (w % 2 ^ k + c - 2 ^ k) (omega (arith, low))

-- The padded size is the next multiple of the alignment.
padded_lem :
    (k a size : ℕ) → a ≤ 7 → size < 2 ^ 31 → padded k a size ≡ size + (2 ^ a - size % 2 ^ a) % 2 ^ a
unfolding padded
padded_lem k a size small low =
    ap (λ t. u32 (size + t)) filling
    ∙ omega (arith, unit, mod-lt (2 ^ a - size % 2 ^ a) (one-le-pow a 2 (omega arith)))
  where
    unit : 2 ^ a ≤ 2 ^ 7
    unit = pow-le-pow_right (omega arith) small

    rest : size % 2 ^ a < 2 ^ a
    rest = mod-lt size (one-le-pow a 2 (omega arith))

    filling :
        bit_and (2 ^ a - 1) (sub32 (2 ^ a) (bit_and size (2 ^ a - 1)))
        ≡ (2 ^ a - size % 2 ^ a) % 2 ^ a
    filling =
        bit_and_comm (2 ^ a - 1) (sub32 (2 ^ a) (bit_and size (2 ^ a - 1)))
        ∙ bit_and_mask a (sub32 (2 ^ a) (bit_and size (2 ^ a - 1)))
        ∙ ap (λ t. sub32 (2 ^ a) t % 2 ^ a) (bit_and_mask a size)
        ∙ ap (λ t. t % 2 ^ a) exact
      where
        exact : sub32 (2 ^ a) (size % 2 ^ a) ≡ 2 ^ a - size % 2 ^ a
        exact = omega (arith, unit, rest)

pub padded_bounds :
    (k a size : ℕ)
    → a ≤ 7
    → size < 2 ^ 31
    → (size ≤ padded k a size) × (padded k a size < size + 2 ^ a) × (2 ^ a ∣ padded k a size)
padded_bounds k a size small low = elim (dec_lt 0 (size % 2 ^ a)) [
  | yes over ↦ (
    omega (arith, padded_lem k a size small low),
    omega (arith, padded_lem k a size small low, filled over, over, mod-lt size unit),
    subst (λ x. 2 ^ a ∣ x) (sym (next over)) (dvd-mul_left (2 ^ a) (suc (size / 2 ^ a))),
  )
  | no exact ↦ (
    omega (arith, padded_lem k a size small low),
    omega (arith, padded_lem k a size small low, whole exact, unit),
    subst (λ x. 2 ^ a ∣ x) (sym (same exact)) (dvd-mul_left (2 ^ a) (size / 2 ^ a)),
  )
]
  where
    unit : 1 ≤ 2 ^ a
    unit = one-le-pow a 2 (omega arith)

    parts : size / 2 ^ a * 2 ^ a + size % 2 ^ a ≡ size
    parts = div-add-mod' size (2 ^ a)

    filled : 0 < size % 2 ^ a → (2 ^ a - size % 2 ^ a) % 2 ^ a ≡ 2 ^ a - size % 2 ^ a
    filled h = mod-eq_of_lt (omega (arith, unit))

    whole : ¬ (0 < size % 2 ^ a) → (2 ^ a - size % 2 ^ a) % 2 ^ a ≡ 0
    whole h = ap (λ t. t % 2 ^ a) full ∙ mod_self (2 ^ a)
      where
        full : 2 ^ a - size % 2 ^ a ≡ 2 ^ a
        full = omega (arith, h)

    next : 0 < size % 2 ^ a → padded k a size ≡ suc (size / 2 ^ a) * 2 ^ a
    next h = omega (
      arith,
      padded_lem k a size small low,
      filled h,
      parts,
      suc-mul (size / 2 ^ a) (2 ^ a),
      mod-lt size unit,
    )

    same : ¬ (0 < size % 2 ^ a) → padded k a size ≡ size / 2 ^ a * 2 ^ a
    same h = omega (arith, padded_lem k a size small low, whole h, parts, h)

-- The alignment divides the size.
dvd_power : (d a : ℕ) → 2 ^ a ∣ 2 ^ (d + a)
dvd_power zero a = subst (λ k. 2 ^ a ∣ 2 ^ k) none (dvd_refl (2 ^ a))
  where
    none : a ≡ 0 + a
    none = omega arith
dvd_power (suc d) a = subst (λ t. 2 ^ a ∣ t) next (dvd-mul_right_of_dvd (2 ^ a) (dvd_power d a) 2)
  where
    next : 2 ^ (d + a) * 2 ≡ 2 ^ (suc d + a)
    next = sym (pow-suc 2 (d + a)) ∙ ap (λ k. 2 ^ k) more
      where
        more : suc (d + a) ≡ suc d + a
        more = omega arith

pub unit-dvd-size : (k a : ℕ) → a ≤ k → 2 ^ a ∣ 2 ^ k
unit-dvd-size k a h = subst (λ t. 2 ^ a ∣ 2 ^ t) whole (dvd_power (k - a) a)
  where
    whole : k - a + a ≡ k
    whole = omega arith
