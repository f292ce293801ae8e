-- ===== src/HeapAllocator/Streams.antt =====
-- `_resetBitStream` and `_setBitStream` write a run of pages, over the bounds of the blocks.
use mathlib.Core.Option
use sdk_cp.Base.{
  ℕ, zero, suc, ◌+◌, ◌-◌, ◌*◌, ◌/◌, ◌%◌, ◌^◌, ◌≤◌, ◌<◌, ◌≡◌, min, ◌⊎◌, inl, inr, refl, ap, subst,
  arith, bit_and, bit_or, u32, sub32, false, dec_lt, ==_ne, if◌then◌else◌, ◌>>>◌, Option, some,
  List, [], ◌∷◌, length,
}
use sdk_cp.Base.Bits.{bit_and_mask}
use sdk_cp.HeapAllocator.{
  k_h_val, block_mask, stream_loop, stream_from, reset_block, reset_bit_stream, set_bit_stream,
}
use sdk_cp.HeapAllocator.Pages.{
  page, page_here, page_there, in_run, Writes, reset_block-Writes, bit_or-Writes,
}

-- The answer is blocks of the same number, in which the pages of the run are `v` and all others as before.
abbrev pub Marks : ℕ → ℕ → ℕ → List ℕ → Option (List ℕ) → Type 0
Marks v from count blocks answer =
    (blocks' : List ℕ) × (answer ≡ some blocks')
    × (length blocks' ≡ length blocks)
    × ((i : ℕ) → page i blocks' ≡ (if in_run from count i then v else page i blocks))

-- What stands in the first block, and behind it.
page_split : (i : ℕ) → (i < 64) ⊎ ((j : ℕ) × (i ≡ 64 + j))
page_split i = elim (dec_lt i 64) [ yes here ↦ inl here | no there ↦ inr (i - 64, omega arith) ]

no_run : (from i : ℕ) → in_run from 0 i ≡ false
no_run from i = ground arith

in_run_shift :
    (position remains rest j : ℕ)
    → position < 64
    → 0 < remains
    → rest ≡ position + remains - 64
    → in_run position remains (64 + j) ≡ in_run 0 rest j
in_run_shift position remains rest j start some_left e = ground arith

module _ (update : ℕ → ℕ → ℕ) (v : ℕ) (writes : Writes update v) where
  -- One block of the run, and the blocks behind it.
  marked_block :
      (i block position remains rest : ℕ) (blocks l : List ℕ)
      → position < 64
      → 0 < remains
      → rest ≡ position + remains - 64
      → ((j : ℕ) → page j l ≡ (if in_run 0 rest j then v else page j blocks))
      → (i < 64) ⊎ ((j : ℕ) × (i ≡ 64 + j))
      → page i (update block (block_mask position (position + remains)) ∷ l)
        ≡ (if in_run position remains i then v else page i (block ∷ blocks))
  marked_block i block position remains rest blocks l start more e behind (inl here) =
      rw
        (
          page_here i (update block (block_mask position (position + remains))) l here,
          page_here i block blocks here,
        )
        (writes i block position (position + remains) here start)
  marked_block i block position remains rest blocks l start more e behind (inr (j, at)) =
      rw
        (
          at,
          page_there j (update block (block_mask position (position + remains))) l,
          page_there j block blocks,
          in_run_shift position remains rest j start more e,
        )
        (behind j)

  marked_blocks :
      (block position remains rest : ℕ) (blocks : List ℕ) (answer : Option (List ℕ))
      → position < 64
      → 0 < remains
      → rest ≡ position + remains - 64
      → Marks v 0 rest blocks answer
      → Marks v position remains (block ∷ blocks) (
          Option.map
            (λ (l : List ℕ). update block (block_mask position (position + remains)) ∷ l)
            answer)
  marked_blocks block position remains rest blocks answer start more e (l, is_some, same, behind) =
      (
        update block (block_mask position (position + remains)) ∷ l,
        rw (is_some) refl,
        ap suc same,
        λ (i : ℕ).
            marked_block i block position remains rest blocks l start more e behind (page_split i),
      )

  stream_loop-Marks :
      (blocks : List ℕ) (position remains : ℕ)
      → position < 64
      → position + remains ≤ 64 * length blocks
      → 64 * length blocks < 2 ^ 32
      → Marks v position remains blocks (stream_loop update position remains blocks)
  unfolding stream_loop
  stream_loop-Marks [] position remains start fits small =
      ([], rw (none_left) refl, refl, λ (i : ℕ). rw (none_left, no_run position i) refl)
    where
      none_left : remains ≡ 0
      none_left = omega arith
  stream_loop-Marks (block ∷ blocks) position remains start fits small = elim (dec_lt 0 remains) [
    | no done ↦ (
      block ∷ blocks,
      rw (empty done) refl,
      refl,
      λ (i : ℕ). rw (empty done, no_run position i) refl,
    )
    | yes more ↦
        rw (==_ne remains 0 (omega arith), plain, left)
          (marked_blocks block position remains (position + remains - 64) blocks
            (stream_loop update 0 (position + remains - 64) blocks) start more refl
            (stream_loop-Marks blocks 0 (position + remains - 64) (omega arith) (omega arith)
              (omega arith)))
  ]
    where
      empty : ¬ (0 < remains) → remains ≡ 0
      empty h = omega (arith, h)

      plain : u32 (position + remains) ≡ position + remains
      plain = omega arith

      left :
          sub32 remains (sub32 (min (position + remains) k_h_val) position)
          ≡ position + remains - 64
      left = omega arith

  -- A block before the run.
  kept_block :
      (i block from count : ℕ) (blocks l : List ℕ)
      → ((j : ℕ) → page j l ≡ (if in_run from count j then v else page j blocks))
      → (i < 64) ⊎ ((j : ℕ) × (i ≡ 64 + j))
      → page i (block ∷ l) ≡ (if in_run (64 + from) count i then v else page i (block ∷ blocks))
  kept_block i block from count blocks l behind (inl here) =
      rw (page_here i block l here, page_here i block blocks here, before) refl
    where
      before : in_run (64 + from) count i ≡ false
      before = ground arith
  kept_block i block from count blocks l behind (inr (j, at)) =
      rw (at, page_there j block l, page_there j block blocks, same) (behind j)
    where
      same : in_run (64 + from) count (64 + j) ≡ in_run from count j
      same = ground arith

  kept_blocks :
      (block from count : ℕ) (blocks : List ℕ) (answer : Option (List ℕ))
      → Marks v from count blocks answer
      → Marks v (64 + from) count (block ∷ blocks) (Option.map (λ (l : List ℕ). block ∷ l) answer)
  kept_blocks block from count blocks answer (l, is_some, same, behind) = (
    block ∷ l,
    rw (is_some) refl,
    ap suc same,
    λ (i : ℕ). kept_block i block from count blocks l behind (page_split i),
  )

  stream_from-Marks :
      (block_ix : ℕ) (blocks : List ℕ) (position count : ℕ)
      → position < 64
      → block_ix * 64 + position + count ≤ 64 * length blocks
      → 64 * length blocks < 2 ^ 32
      → Marks v
          (block_ix * 64 + position)
          count
          blocks
          (stream_from update block_ix position count blocks)
  unfolding stream_from
  stream_from-Marks zero blocks position count start fits small =
      subst (λ (from : ℕ). Marks v from count blocks (stream_loop update position count blocks))
        (omega arith) (stream_loop-Marks blocks position count start (omega arith) small)
  stream_from-Marks (suc block_ix) [] position count start fits small = absurd (omega arith)
  stream_from-Marks (suc block_ix) (block ∷ blocks) position count start fits small =
      subst
        (λ (from : ℕ).
          Marks v from count (block ∷ blocks)
            (stream_from update (suc block_ix) position count (block ∷ blocks)))
        (omega arith)
        (kept_blocks block (block_ix * 64 + position) count blocks
          (stream_from update block_ix position count blocks)
          (stream_from-Marks block_ix blocks position count start (omega arith) (omega arith)))

  stream-Marks :
      (from count : ℕ) (blocks : List ℕ)
      → from + count ≤ 64 * length blocks
      → 64 * length blocks < 2 ^ 32
      → Marks v from count blocks
          (stream_from update (from >>> 6) (bit_and from (k_h_val - 1)) count blocks)
  stream-Marks from count blocks fits small = rw (bit_and_mask 6 from) (
      subst
        (λ (t : ℕ).
          Marks v t count blocks (stream_from update (from / 2 ^ 6) (from % 2 ^ 6) count blocks))
        (omega arith)
        (stream_from-Marks (from / 2 ^ 6) blocks (from % 2 ^ 6) count (omega arith) (omega arith)
          small))

-- `_resetBitStream` clears the bits of the `count` pages at `from`, `_setBitStream` sets them, both
-- leave every other bit and stay within the blocks, when the pages lie within the blocks and these
-- have fewer than 2 ^ 32 pages.
pub bit_stream-Marks :
    (from count : ℕ) (blocks : List ℕ)
    → from + count ≤ 64 * length blocks
    → 64 * length blocks < 2 ^ 32
    → Marks 0 from count blocks (reset_bit_stream from count blocks)
      × Marks 1 from count blocks (set_bit_stream from count blocks)
unfolding reset_bit_stream set_bit_stream
bit_stream-Marks from count blocks fits small = (
  stream-Marks reset_block 0 reset_block-Writes from count blocks fits small,
  stream-Marks bit_or 1 bit_or-Writes from count blocks fits small,
)
