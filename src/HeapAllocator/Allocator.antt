-- ===== src/HeapAllocator/Allocator.antt =====
-- `allocate` and `release` of tools/heap_allocator.hpp over the bit stream. A pointer is an offset
-- from `_mem_ptr`, and none when it is null.
use mathlib.Core.Option
use sdk_cp.Base.{
  ℕ, ◌+◌, ◌-◌, ◌*◌, ◌/◌, ◌^◌, bit_and, bit_or, ◌>>>◌, u16, u32, sub32, add64, Bool, true, false,
  ◌>>=◌, ltb, leb, ◌==◌, ◌&&◌, if◌then◌else◌, Option, none, some, List, get_or, set,
}
use sdk_cp.Base.Memory.{Memory, load, store}
use sdk_cp.Ws.Bytes.{le_bytes, le_value}
use sdk_cp.HeapAllocator.{
  k_h_val, invalid_page_ix, get_bit_scan_stream, reset_bit_stream, set_bit_stream,
}

-- `heap_allocator`: the blocks, the usage of each page, and the page that small requests go to.
pub record HeapAllocator : Type 0 where
  pub blocks : List ℕ
  pub pages_info : List ℕ
  pub mem : Memory
  pub active_position : Option ℕ
  pub active_page : Option ℕ

-- The size of an `alloc_header`.
abbrev pub header_size : ℕ
header_size = 16

-- The size rounded up to `SDK_CP_ALIGNMENT`.
unfoldable pub rounded : ℕ → ℕ
rounded size = u32 (size + bit_and 15 (16 - bit_and size 15))

abbrev pub inactive : HeapAllocator → HeapAllocator
inactive h = record {
  blocks = h.blocks;
  pages_info = h.pages_info;
  mem = h.mem;
  active_position = none;
  active_page = none;
}

abbrev pub with_usage : ℕ → ℕ → HeapAllocator → HeapAllocator
with_usage position usage h = record {
  blocks = h.blocks;
  pages_info = set h.pages_info position usage;
  mem = h.mem;
  active_position = h.active_position;
  active_page = h.active_page;
}

-- `__page_size` is 2 ^ k, and `__num_blocks` is nb.
module _ (k nb : ℕ) where
  abbrev pub num_pages : ℕ
  num_pages = nb * 2 ^ 6

  abbrev pub get_page : ℕ → Option ℕ
  get_page ix = if ltb ix num_pages then some (u32 (2 ^ k * ix)) else none

  abbrev pub get_page_index : Option ℕ → ℕ
  get_page_index none = invalid_page_ix
  get_page_index (some mem) = u32 (mem / 2 ^ k)

  unfoldable pub last_page_usage : ℕ → ℕ
  last_page_usage need =
      let usage = bit_and need (2 ^ k - 1) in u16 (usage + (if usage == 0 then 2 ^ k else 0))

  unfoldable pub pages_count : ℕ → ℕ
  pages_count need = u32 (u32 (need / 2 ^ k) + (if bit_and need (2 ^ k - 1) == 0 then 0 else 1))

  -- The header at the first page, and the last page for small requests when there is none.
  abbrev pub placed :
      ℕ → ℕ → ℕ → HeapAllocator → Option ℕ → Option ℕ → Option ℕ → Option (Option ℕ × HeapAllocator)
  placed size position need h (some start) (some last) none =
      Option.map
        (λ (blocks' : List ℕ). (
          some (start + header_size),
          record {
            blocks = blocks';
            pages_info = h.pages_info;
            mem = store start (le_bytes 8 size) h.mem;
            active_position = some (last + last_page_usage need);
            active_page = some last;
          },
        ))
        (reset_bit_stream position (pages_count need) h.blocks)
  placed size position need h (some start) (some last) (some active) =
      Option.map
        (λ (blocks' : List ℕ). (
          some (start + header_size),
          record {
            blocks = blocks';
            pages_info = h.pages_info;
            mem = store start (le_bytes 8 size) h.mem;
            active_position = some active;
            active_page = h.active_page;
          },
        ))
        (reset_bit_stream position (pages_count need) h.blocks)
  placed size position need h (some start) none active = some (none, h)
  placed size position need h none last active = some (none, h)

  -- The pages found at `position`; a usage is written out of bounds of the pages as `none`.
  unfoldable pub at_pages : ℕ → ℕ → ℕ → HeapAllocator → Option (Option ℕ × HeapAllocator)
  at_pages size need position h =
      let last = sub32 (position + pages_count need) 1 in
      if ltb last num_pages
      then placed size position need (with_usage last (last_page_usage need) h) (get_page position)
          (get_page last) h.active_position
      else none

  -- A request that fits behind the active position.
  abbrev pub in_page : ℕ → ℕ → ℕ → HeapAllocator → Option ℕ × HeapAllocator
  in_page size need position h = (
    some (position + header_size),
    record {
      blocks = h.blocks;
      pages_info =
          set h.pages_info (get_page_index h.active_page)
            (u16 (get_or h.pages_info (get_page_index h.active_page) 0 + u16 need));
      mem = store position (le_bytes 8 size) h.mem;
      active_position = some (position + need);
      active_page = h.active_page;
    },
  )

  -- Whether the active page has `need` bytes left.
  unfoldable pub has_room : ℕ → ℕ → ℕ → Bool
  has_room need position page =
      leb need (sub32 (2 ^ k) (u32 (position - page))) && ltb (get_page_index (some page)) num_pages

  module _ (ctz : ℕ → ℕ) where
    abbrev pub found_pages : ℕ → ℕ → HeapAllocator → Option ℕ → Option (Option ℕ × HeapAllocator)
    found_pages size need h none = none
    found_pages size need h (some position) =
        if position == invalid_page_ix then some (none, h) else at_pages size need position h

    unfoldable pub allocate_pages : ℕ → ℕ → HeapAllocator → Option (Option ℕ × HeapAllocator)
    allocate_pages size need h =
        found_pages size need h (get_bit_scan_stream ctz (pages_count need) h.blocks)

    unfoldable pub allocate_small :
        ℕ → ℕ → Option ℕ → Option ℕ → HeapAllocator → Option (Option ℕ × HeapAllocator)
    allocate_small size need (some position) (some page) h =
        if has_room need position page
        then some (in_page size need position h)
        else allocate_pages size need (inactive h)
    allocate_small size need (some position) none h = allocate_pages size need h
    allocate_small size need none page h = allocate_pages size need h

    unfoldable pub allocate_rounded : ℕ → HeapAllocator → Option (Option ℕ × HeapAllocator)
    allocate_rounded size h =
        if size == 0
        then some (none, h)
        else if u32 ((size + header_size) / 2 ^ k) == 0
        then allocate_small size (size + header_size) h.active_position h.active_page h
        else allocate_pages size (size + header_size) h

    -- `allocate(size)`.
    unfoldable pub allocate : ℕ → HeapAllocator → Option (Option ℕ × HeapAllocator)
    allocate size h = allocate_rounded (rounded size) h

  -- `_usage` of the page taken down by `need`; at 0 the page is free, and not the active one any more.
  abbrev pub free_page : ℕ → HeapAllocator → HeapAllocator
  free_page position h =
      let is_active = get_page_index h.active_page == position in
      record {
        blocks =
            set h.blocks (position >>> 6)
              (bit_or (get_or h.blocks (position >>> 6) 0) (2 ^ bit_and position (k_h_val - 1)));
        pages_info = h.pages_info;
        mem = h.mem;
        active_position = if is_active then none else h.active_position;
        active_page = if is_active then none else h.active_page;
      }

  unfoldable pub release_page : ℕ → ℕ → HeapAllocator → Option HeapAllocator
  release_page position need h =
      let usage = u16 (sub32 (get_or h.pages_info position 0) (u16 need)) in
      if leb num_pages position
      then none
      else if usage == 0
      then some (free_page position (with_usage position usage h))
      else some (with_usage position usage h)

  -- A block of more than a page: all its pages but the last are free.
  unfoldable pub release_pages : ℕ → ℕ → HeapAllocator → Option HeapAllocator
  release_pages position need h =
      set_bit_stream position (sub32 (pages_count need) 1) h.blocks >>= λ (blocks' : List ℕ).
      release_page (sub32 (position + pages_count need) 1) (last_page_usage need) (record {
        blocks = blocks';
        pages_info = h.pages_info;
        mem = h.mem;
        active_position = h.active_position;
        active_page = h.active_page;
      })

  unfoldable pub release_sized : ℕ → ℕ → HeapAllocator → Option HeapAllocator
  release_sized position size h =
      if size == 0
      then some h
      else if ltb (2 ^ k) (add64 size header_size)
      then release_pages position (add64 size header_size) h
      else release_page position (add64 size header_size) h

  -- `release(mem)`; a pointer below `_mem_ptr`, which it refuses, is no offset.
  unfoldable pub release : Option ℕ → HeapAllocator → Option (Bool × HeapAllocator)
  release none h = some (false, h)
  release (some mem) h =
      if leb num_pages (get_page_index (some mem))
      then some (false, h)
      else Option.map (λ (h' : HeapAllocator). (true, h'))
          (release_sized (get_page_index (some mem)) (le_value (load 8 (mem - header_size) h.mem))
            h)
