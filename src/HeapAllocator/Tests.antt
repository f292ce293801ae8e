-- ===== src/HeapAllocator/Tests.antt =====
-- The bit stream of free pages: runs at fixed blocks, and the theorems.
use sdk_cp.Base.{
  ℕ, zero, suc, ◌-◌, ◌^◌, ◌<◌, ◌≡◌, ◌/◌, ◌%◌, ◌==◌, inl, inr, Bool-cases, if◌then◌else◌, refl,
  arith, some, List, [], ◌∷◌,
}
use sdk_cp.HeapAllocator.{
  bound_mask, block_mask, stream_loop, stream_from, reset_bit_stream, set_bit_stream, scan_block,
  scan_blocks, get_bit_scan_stream,
}
use mathlib.Core.Option
use sdk_cp.Base.{replicate, Option, none, Bool}
use sdk_cp.HeapAllocator.Allocator.{
  HeapAllocator, rounded, last_page_usage, pages_count, at_pages, has_room, allocate_pages,
  allocate_small, allocate_rounded, allocate, release_page, release_pages, release_sized, release,
}
use sdk_cp.HeapAllocator.Streams.{Marks, bit_stream-Marks}
use sdk_cp.HeapAllocator.Search.{Finds, get_bit_scan_stream-Finds}

-- The number of zeros below the lowest one.
abbrev zeros_below : ℕ → ℕ → ℕ
zeros_below zero b = 0
zeros_below (suc n) b = let rest = zeros_below n (b / 2) in if b % 2 == 1 then 0 else suc rest

abbrev ctz : ℕ → ℕ
ctz b = zeros_below 63 b

ctz_in_word : (b : ℕ) → 0 < b → b < 2 ^ 64 → ctz b < 64
ctz_in_word b some_bit word = zeros_below_bound 63 b
  where
    zeros_below_bound : (n b : ℕ) → zeros_below n b < suc n
    zeros_below_bound zero b = omega arith
    zeros_below_bound (suc n) b = elim (Bool-cases (b % 2 == 1)) [
      | inl one ↦ rw one (omega arith)
      | inr none_here ↦ rw none_here (omega (arith, zeros_below_bound n (b / 2)))
    ]

abbrev two_blocks : List ℕ
two_blocks = 2 ^ 63 ∷ (2 ^ 64 - 2) ∷ []

-- Pages 63 and 65 to 127 are free; a run of one page is found, and none of two.
finds_one : get_bit_scan_stream ctz 1 two_blocks ≡ some 63
unfolding get_bit_scan_stream scan_blocks scan_block bound_mask
finds_one = refl

misses_two : get_bit_scan_stream ctz 2 two_blocks ≡ some (2 ^ 32 - 1)
unfolding get_bit_scan_stream scan_blocks scan_block bound_mask
misses_two = refl

resets_across :
    reset_bit_stream 62 4 ((2 ^ 64 - 1) ∷ (2 ^ 64 - 1) ∷ [])
    ≡ some ((2 ^ 62 - 1) ∷ (2 ^ 64 - 4) ∷ [])
unfolding reset_bit_stream stream_from stream_loop block_mask bound_mask
resets_across = refl

bit_stream-Marks_example :
    Marks 0 62 4 two_blocks (reset_bit_stream 62 4 two_blocks)
    × Marks 1 62 4 two_blocks (set_bit_stream 62 4 two_blocks)
bit_stream-Marks_example = bit_stream-Marks 62 4 two_blocks (omega arith) (omega arith)

get_bit_scan_stream-Finds_example : Finds 1 two_blocks (get_bit_scan_stream ctz 1 two_blocks)
get_bit_scan_stream-Finds_example =
    get_bit_scan_stream-Finds 1 two_blocks ctz ctz_in_word (omega arith) (omega arith)
      (omega arith, omega arith) (omega arith)

-- 64 pages of 2048 bytes, all free.
abbrev fresh : HeapAllocator
fresh = record {
  blocks = (2 ^ 64 - 1) ∷ [];
  pages_info = replicate 64 0;
  mem = λ (j : ℕ). 0;
  active_position = none;
  active_page = none;
}

abbrev pointer : Option (Option ℕ × HeapAllocator) → Option ℕ
pointer none = none
pointer (some (p, h)) = p

abbrev again : ℕ → Option (Option ℕ × HeapAllocator) → Option (Option ℕ × HeapAllocator)
again size none = none
again size (some (p, h)) = allocate 11 1 ctz size h

abbrev released : Option (Option ℕ × HeapAllocator) → Option (List ℕ)
released none = none
released (some (p, h)) = Option.map (λ (r : Bool × HeapAllocator). r.1.blocks) (release 11 1 p h)

allocates_first : pointer (allocate 11 1 ctz 100 fresh) ≡ some 16
unfolding allocate rounded allocate_rounded allocate_small allocate_pages at_pages last_page_usage
    pages_count get_bit_scan_stream scan_blocks scan_block bound_mask reset_bit_stream stream_from
    stream_loop block_mask
allocates_first = refl

allocates_behind : pointer (again 100 (allocate 11 1 ctz 100 fresh)) ≡ some 144
unfolding allocate rounded allocate_rounded allocate_small allocate_pages has_room at_pages
    last_page_usage pages_count get_bit_scan_stream scan_blocks scan_block bound_mask
    reset_bit_stream stream_from stream_loop block_mask
allocates_behind = refl

releases_all : released (allocate 11 1 ctz 5000 fresh) ≡ some ((2 ^ 64 - 1) ∷ [])
unfolding allocate rounded allocate_rounded allocate_pages at_pages last_page_usage pages_count
    get_bit_scan_stream scan_blocks scan_block bound_mask reset_bit_stream set_bit_stream
    stream_from stream_loop block_mask release release_sized release_pages release_page
releases_all = refl
