-- ===== src/HeapAllocator.antt =====
-- tools/heap_allocator.hpp: the bit stream of the free pages. A page is free while its bit is set in
-- the blocks of 64 bits.
pub mod Pages
pub mod Streams
pub mod Search
pub mod Allocator
mod Tests
use mathlib.Core.Option
use sdk_cp.Base.{
  ℕ, zero, suc, ◌+◌, ◌-◌, ◌*◌, ◌/◌, ◌%◌, ◌^◌, min, bit_and, bit_or, ◌>>>◌, u32, sub32, add64, sub64,
  Bool, ltb, leb, ◌==◌, if◌then◌else◌, Option, none, some, List, [], ◌∷◌,
}

abbrev pub k_h_val : ℕ
k_h_val = 64

abbrev pub invalid_page_ix : ℕ
invalid_page_ix = 2 ^ 32 - 1

-- `~x` of a `block_type`.
abbrev pub complement : ℕ → ℕ
complement x = 2 ^ 64 - 1 - x

-- The ones below a position, or all of them when it lies behind the block.
unfoldable pub bound_mask : ℕ → ℕ
bound_mask e0 = sub64 (if leb k_h_val e0 then 0 else 2 ^ e0) 1

-- `blockMask` of `_resetBitStream` and `_setBitStream`.
unfoldable pub block_mask : ℕ → ℕ → ℕ
block_mask position e0 = bit_and (complement (2 ^ position - 1)) (bound_mask e0)

-- The loop of both; writing behind the last block is `none`.
unfoldable pub stream_loop : (ℕ → ℕ → ℕ) → ℕ → ℕ → List ℕ → Option (List ℕ)
stream_loop update position remains [] = if remains == 0 then some [] else none
stream_loop update position remains (block ∷ blocks) =
    let e0 = u32 (position + remains) in
    let rest = stream_loop update 0 (sub32 remains (sub32 (min e0 k_h_val) position)) blocks in
    if remains == 0
    then some (block ∷ blocks)
    else Option.map (λ (l : List ℕ). update block (block_mask position e0) ∷ l) rest

-- The loop starts at block `block_ix`.
unfoldable pub stream_from : (ℕ → ℕ → ℕ) → ℕ → ℕ → ℕ → List ℕ → Option (List ℕ)
stream_from update zero position count blocks = stream_loop update position count blocks
stream_from update (suc block_ix) position count [] = if count == 0 then some [] else none
stream_from update (suc block_ix) position count (block ∷ blocks) =
    Option.map (λ (l : List ℕ). block ∷ l) (stream_from update block_ix position count blocks)

-- `_resetBitStream`: `*block &= ~blockMask`.
abbrev pub reset_block : ℕ → ℕ → ℕ
reset_block block mask = bit_and block (complement mask)

unfoldable pub reset_bit_stream : ℕ → ℕ → List ℕ → Option (List ℕ)
reset_bit_stream from count blocks =
    stream_from reset_block (from >>> 6) (bit_and from (k_h_val - 1)) count blocks

-- `_setBitStream`: `*block |= blockMask`.
unfoldable pub set_bit_stream : ℕ → ℕ → List ℕ → Option (List ℕ)
set_bit_stream from count blocks =
    stream_from bit_or (from >>> 6) (bit_and from (k_h_val - 1)) count blocks

-- `block &= b3`: the block without its lowest run of ones.
abbrev pub drop_run : ℕ → ℕ
drop_run block = bit_and block (add64 (bit_or block (sub64 block 1)) 1)

-- What a block leads to: the pages still to find, and the page that the run starts at.
abbrev pub Scan : Type 0
Scan = ℕ × ℕ

-- `st_mask[position]`; a read behind the table is `none`.
abbrev pub st_mask : ℕ → Option ℕ
st_mask position = if ltb position 64 then some (complement (2 ^ position - 1)) else none

-- `(block & mask) == mask`.
abbrev pub has_all : ℕ → ℕ → Bool
has_all block mask = bit_and block mask == mask

-- A run that starts in the block: it fits, or is dropped for the next.
abbrev pub starts_at : (ℕ → Option Scan) → ℕ → ℕ → ℕ → ℕ → Option ℕ → Option Scan
starts_at again block_ix block position remains none = none
starts_at again block_ix block position remains (some start_mask) =
    let end_position = u32 (position + remains) in
    if has_all block (bit_and start_mask (bound_mask end_position))
    then some (
      sub32 remains (sub32 (min end_position k_h_val) position),
      u32 (block_ix * 2 ^ 6 + position),
    )
    else again (drop_run block)

-- The next block, or the end of the search when the loop is stuck.
abbrev pub scan_next : (ℕ → ℕ → Option ℕ) → Option Scan → Option ℕ
scan_next rest none = none
scan_next rest (some (remains, start_page)) = rest remains start_page

-- `_getBitScanStreamRevWord`, where `ctz` is `__builtin_ctzll`.
module _ (ctz : ℕ → ℕ) (number_of_set_bits : ℕ) where
  -- The inner loop on a block. The fuel bounds its rounds, of which each drops a run of ones.
  unfoldable pub scan_block : ℕ → ℕ → ℕ → ℕ → ℕ → Option Scan
  scan_block zero block_ix block remains start_page = none
  scan_block (suc n) block_ix block remains start_page =
      let again = λ (b : ℕ). scan_block n block_ix b number_of_set_bits invalid_page_ix in
      let same = λ (b : ℕ). scan_block n block_ix b remains start_page in
      if block == 0
      then some (number_of_set_bits, invalid_page_ix)
      else if start_page == invalid_page_ix
      then starts_at same block_ix block (ctz block) remains (st_mask (ctz block))
      else if has_all block (bound_mask remains)
      then some (sub32 remains (min remains k_h_val), start_page)
      else again (drop_run block)

  -- The outer loop, and the answer behind it.
  unfoldable pub scan_blocks : ℕ → List ℕ → ℕ → ℕ → Option ℕ
  scan_blocks block_ix [] remains start_page =
      some (if remains == 0 then start_page else invalid_page_ix)
  scan_blocks block_ix (block ∷ blocks) remains start_page =
      let rest = λ (m p : ℕ). scan_blocks (suc block_ix) blocks m p in
      if remains == 0
      then some start_page
      else scan_next rest (scan_block 65 block_ix block remains start_page)

  unfoldable pub get_bit_scan_stream : List ℕ → Option ℕ
  get_bit_scan_stream blocks = scan_blocks 0 blocks number_of_set_bits invalid_page_ix
