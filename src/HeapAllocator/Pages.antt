-- ===== src/HeapAllocator/Pages.antt =====
-- The free pages that the blocks stand for, and the masks of a block by their bits.
use sdk_cp.Base.{
  ℕ, ◌+◌, ◌-◌, ◌^◌, ◌<◌, ◌≡◌, min, max, refl, ap, ◌∙◌, arith, bit_and, bit_or, sub64, Bool, true,
  false, ◌&&◌, ltb, leb, lt→ltb, le→ltb, le→leb, lt→leb, dec_lt, dec_le, if◌then◌else◌, List, [],
  ◌∷◌,
}
use sdk_cp.Base.Bits.Digits.{
  bit, bit-lt_two, bit-bit_and, bit-bit_or, bit_complement, bit-below, bit_above, bit_and-le,
}
use native.Mathlib.Nat.{one-le-pow, pow-le-pow_right}
use sdk_cp.HeapAllocator.{complement, bound_mask, block_mask, reset_block}

-- Whether page `i` is free: the bit at `i` of the blocks, 1 or 0, and 0 behind them.
unfoldable pub page : ℕ → List ℕ → ℕ
page i [] = 0
page i (block ∷ blocks) = if ltb i 64 then bit i block else page (i - 64) blocks

pub page_here : (i block : ℕ) (blocks : List ℕ) → i < 64 → page i (block ∷ blocks) ≡ bit i block
unfolding page
page_here i block blocks inside = rw (lt→ltb i 64 inside) refl

pub page_there : (j block : ℕ) (blocks : List ℕ) → page (64 + j) (block ∷ blocks) ≡ page j blocks
unfolding page
page_there j block blocks =
    rw (le→ltb (64 + j) 64 (omega arith)) (ap (λ (t : ℕ). page t blocks) (omega arith))

-- Page `i` lies in the run of `count` pages at `from`.
abbrev pub in_run : ℕ → ℕ → ℕ → Bool
in_run from count i = leb from i && ltb i (from + count)

pub bit-bound_mask : (i e0 : ℕ) → i < 64 → bit i (bound_mask e0) ≡ (if ltb i e0 then 1 else 0)
unfolding bound_mask
bit-bound_mask i e0 inside = elim (dec_lt i e0) [
  | yes below ↦ elim (dec_lt e0 64) [
    | yes short ↦ rw (lt→ltb i e0 below, plain short) (bit-below e0 i below)
    | no long ↦ rw (lt→ltb i e0 below, whole long) (bit-below 64 i inside)
  ]
  | no above ↦
      rw (le→ltb i e0 (omega arith), plain (omega (arith, above))) (bit_above e0 i (omega arith))
]
  where
    plain : e0 < 64 → sub64 (if leb 64 e0 then 0 else 2 ^ e0) 1 ≡ 2 ^ e0 - 1
    plain short =
        ground (arith, one-le-pow e0 2, pow-le-pow_right {n = 2} (omega arith) {i = e0} {j = 63})

    whole : ¬ (e0 < 64) → sub64 (if leb 64 e0 then 0 else 2 ^ e0) 1 ≡ 2 ^ 64 - 1
    whole long = ground arith

-- The bits of `blockMask`: those from `position` and below `e0`.
pub bit-block_mask :
    (i position e0 : ℕ)
    → i < 64
    → position < 64
    → bit i (block_mask position e0) ≡ (if leb position i && ltb i e0 then 1 else 0)
unfolding block_mask
bit-block_mask i position e0 inside start = elim (dec_le position i) [
  | yes behind ↦
      rw (ends, le→leb position i behind, bit_above position i behind, bit-bound_mask i e0 inside)
        (min_one (ltb i e0))
  | no before ↦
      rw (ends, lt→leb position i (omega arith), bit-below position i (omega arith)) (omega arith)
]
  where
    small : 2 ^ position - 1 < 2 ^ 64
    small =
        omega (arith, pow-le-pow_right {n = 2} (omega arith) {i = position} {j = 64} (omega arith))

    ends :
        bit i (bit_and (complement (2 ^ position - 1)) (bound_mask e0))
        ≡ min (1 - bit i (2 ^ position - 1)) (bit i (bound_mask e0))
    ends =
        bit-bit_and i (complement (2 ^ position - 1)) (bound_mask e0)
        ∙ ap (λ (t : ℕ). min t (bit i (bound_mask e0)))
            (bit_complement 64 i (2 ^ position - 1) inside small)

    min_one : (b : Bool) → min (1 - 0) (if b then 1 else 0) ≡ (if true && b then 1 else 0)
    min_one true = refl
    min_one false = refl

block_mask_small : (position e0 : ℕ) → block_mask position e0 < 2 ^ 64
unfolding block_mask
block_mask_small position e0 = omega (
  arith,
  bit_and-le (complement (2 ^ position - 1)) (complement (2 ^ position - 1)) (bound_mask e0)
      (omega arith),
)

-- What a loop over a run of pages does to one block: `v` on the run, and the rest as before.
abbrev pub Writes : (ℕ → ℕ → ℕ) → ℕ → Type 0
Writes update v =
    (i block position e0 : ℕ)
    → i < 64
    → position < 64
    → bit i (update block (block_mask position e0))
      ≡ (if leb position i && ltb i e0 then v else bit i block)

pub reset_block-Writes : Writes reset_block 0
reset_block-Writes i block position e0 inside start =
    bit-bit_and i block (complement (block_mask position e0))
    ∙ (ap (min (bit i block))
          (bit_complement 64 i (block_mask position e0) inside (block_mask_small position e0))
        ∙ (ap (λ (t : ℕ). min (bit i block) (1 - t)) (bit-block_mask i position e0 inside start)
            ∙ cleared (leb position i && ltb i e0)))
  where
    cleared :
        (b : Bool) → min (bit i block) (1 - (if b then 1 else 0)) ≡ (if b then 0 else bit i block)
    cleared true = omega arith
    cleared false = omega (arith, bit-lt_two i block)

pub bit_or-Writes : Writes bit_or 1
bit_or-Writes i block position e0 inside start =
    bit-bit_or i block (block_mask position e0)
    ∙ (ap (max (bit i block)) (bit-block_mask i position e0 inside start)
        ∙ added (leb position i && ltb i e0))
  where
    added : (b : Bool) → max (bit i block) (if b then 1 else 0) ≡ (if b then 1 else bit i block)
    added true = omega (arith, bit-lt_two i block)
    added false = omega arith
