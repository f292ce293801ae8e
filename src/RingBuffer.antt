-- ===== src/RingBuffer.antt =====
-- tools/ring_buffer.hpp: blocks of bytes from writers to one reader, in a ring. The build is the one
-- without `__USE_GUARD__` on a platform whose `unsigned long` has 64 bits. An offset counts from
-- `_mem_ptr`.
pub mod Places
pub mod Entries
pub mod Writing
pub mod Allocation
pub mod Marking
pub mod Reading
mod Tests
use sdk_cp.Base.{
  ℕ, zero, suc, ◌+◌, ◌-◌, ◌*◌, ◌/◌, ◌^◌, bit_and, ◌>>>◌, u32, add64, sub64, sub32, Bool, true,
  false, ◌||◌, ltb, ◌==◌, if◌then◌else◌, Option, none, some, List,
}
use sdk_cp.Base.Memory.{Memory, load, store}
use sdk_cp.Ws.Bytes.{le_bytes, le_value}

-- `ring_buffer`: the memory behind `_mem_ptr`, and the indices.
pub record RingBuffer : Type 0 where
  pub mem : Memory
  pub ix_read : ℕ
  pub ix_write : ℕ

-- The states of a `prefix`.
abbrev pub busy : ℕ
busy = 0

abbrev pub fake : ℕ
fake = 1

abbrev pub commited : ℕ
commited = 2

abbrev pub skipped : ℕ
skipped = 3

-- The fields of a `prefix` at an offset: a `uint32_t` and a `uint16_t`.
abbrev pub prefix_size : ℕ → Memory → ℕ
prefix_size off mem = le_value (load 4 off mem)

abbrev pub prefix_state : ℕ → Memory → ℕ
prefix_state off mem = le_value (load 2 (off + 4) mem)

abbrev pub set_state : ℕ → ℕ → Memory → Memory
set_state off state mem = store (off + 4) (le_bytes 2 state) mem

abbrev pub set_prefix : ℕ → ℕ → ℕ → Memory → Memory
set_prefix off size state mem = set_state off state (store off (le_bytes 4 size) mem)

-- `allocate` answers null, or waits in a loop for the reader, or gives an offset and a handle.
pub data Grant : Type 0 where
  refused : Grant
  waits : Grant
  granted : ℕ → ℕ → Grant

-- `_get_first_block` returns a block's offset and size, or null, or waits for a busy block.
pub data First : Type 0 where
  block_at : ℕ → ℕ → First
  passed : First
  still_busy : First

-- `peek` and `free`: the block found or freed, null, or a wait.
pub data Look : Type 0 where
  found : ℕ → ℕ → Look
  nothing : Look
  blocked : Look

abbrev pub k_invalid_handle : ℕ
k_invalid_handle = 2 ^ 32 - 1

-- What follows a test that fails.
abbrev pub gives_up : Bool → Grant
gives_up true = refused
gives_up false = waits

-- `_ix_read += readIx - _ix_read`.
abbrev pub advance_to : ℕ → RingBuffer → RingBuffer
advance_to read_ix r = record {
  mem = r.mem;
  ix_read = add64 r.ix_read (sub64 read_ix r.ix_read);
  ix_write = r.ix_write;
}

-- One round of the loop of `peek`, with the rounds that follow.
abbrev pub peek_round :
    (ℕ → Option (Look × RingBuffer)) → RingBuffer → First × ℕ → Option (Look × RingBuffer)
peek_round rest r (block_at ptr size, ix) = some (found ptr size, r)
peek_round rest r (passed, ix) = rest ix
peek_round rest r (still_busy, ix) = some (blocked, r)

abbrev pub free_round :
    (ℕ → Option (Look × RingBuffer)) → RingBuffer → First × ℕ → Option (Look × RingBuffer)
free_round rest r (block_at ptr size, ix) = some (found ptr size, advance_to ix r)
free_round rest r (passed, ix) = rest ix
free_round rest r (still_busy, ix) = some (blocked, r)

-- `__size` is 2 ^ k and `__alignment` is 2 ^ a.
module _ (k a : ℕ) where
  -- `k_padding_size`, which is `sizeof(prefix)` and `k_overhead`.
  unfoldable pub overhead : ℕ
  overhead = ((6 >>> a) + (if bit_and 6 (2 ^ a - 1) == 0 then 0 else 1)) * 2 ^ a

  -- The offset of an index.
  abbrev pub slot : ℕ → ℕ
  slot ix = bit_and ix (2 ^ k - 1)

  -- The size rounded up to the alignment.
  unfoldable pub padded : ℕ → ℕ
  padded size = u32 (size + bit_and (2 ^ a - 1) (sub32 (2 ^ a) (bit_and size (2 ^ a - 1))))

  -- `_update_block_state`, by `commit` and `skip`.
  unfoldable pub update_block_state : ℕ → ℕ → RingBuffer → RingBuffer
  update_block_state handle state r = if handle == k_invalid_handle then r else record {
    mem = set_state (slot handle) state r.mem;
    ix_read = r.ix_read;
    ix_write = r.ix_write;
  }

  abbrev pub commit : ℕ → RingBuffer → RingBuffer
  commit handle r = update_block_state handle commited r

  abbrev pub skip : ℕ → RingBuffer → RingBuffer
  skip handle r = update_block_state handle skipped r

  -- The end of `allocate`: the wait for the space, and the block at `pos`.
  unfoldable pub place : Bool → ℕ → ℕ → ℕ → ℕ → ℕ → RingBuffer → Grant × RingBuffer
  place no_wait data_size pos beg_ix end_ix commit_size r =
      if ltb (2 ^ k) (sub64 end_ix r.ix_read) then (gives_up no_wait, r) else (
        granted (pos + overhead) (u32 beg_ix),
        record {
          mem = set_prefix pos data_size busy r.mem;
          ix_read = r.ix_read;
          ix_write = add64 r.ix_write commit_size;
        },
      )

  -- The block number in which an end lies.
  unfoldable pub end_block : ℕ → ℕ
  end_block end_ix =
      sub64 (end_ix >>> k) (bit_and 1 (if bit_and end_ix (2 ^ k - 1) == 0 then 1 else 0))

  -- A block that would cross the end of the memory goes to its front, behind a fake one.
  unfoldable pub place_around : Bool → ℕ → ℕ → RingBuffer → Grant × RingBuffer
  place_around no_wait data_size commit_size r =
      let pos = slot r.ix_write in
      let remains = 2 ^ k - pos in
      if ltb (2 ^ k) (sub64 (add64 r.ix_write overhead) r.ix_read)
      then (gives_up no_wait, r)
      else place no_wait data_size 0 (add64 r.ix_write remains)
          (add64 (add64 r.ix_write commit_size) remains) (add64 commit_size remains)
          (record {
            mem = set_prefix pos remains fake r.mem;
            ix_read = r.ix_read;
            ix_write = r.ix_write;
          })

  unfoldable pub allocate_padded : Bool → ℕ → RingBuffer → Grant × RingBuffer
  allocate_padded no_wait data_size r =
      let commit_size = u32 (data_size + overhead) in
      let end_ix = add64 r.ix_write commit_size in
      if end_block end_ix == (r.ix_write >>> k)
      then place no_wait data_size (slot r.ix_write) r.ix_write end_ix commit_size r
      else place_around no_wait data_size commit_size r

  -- `allocate(size, handle, no_wait)`.
  unfoldable pub allocate : Bool → ℕ → RingBuffer → Grant × RingBuffer
  allocate no_wait size r =
      if (size == 0) || ltb ((2 ^ k) >>> 2) size
      then (refused, r)
      else allocate_padded no_wait (padded size) r

  -- `_get_first_block(readIx, size)`, and the index behind the block.
  unfoldable pub get_first_block : ℕ → RingBuffer → First × ℕ
  get_first_block read_ix r =
      let off = slot read_ix in
      let state = prefix_state off r.mem in
      let size = prefix_size off r.mem in
      let behind = add64 read_ix (u32 (overhead + size)) in
      if state == fake
      then (passed, add64 read_ix size)
      else if state == busy
      then (still_busy, read_ix)
      else if state == commited
      then (block_at (off + overhead) size, behind)
      else (passed, behind)

  unfoldable pub peek_loop : ℕ → ℕ → RingBuffer → Option (Look × RingBuffer)
  peek_loop zero read_ix r = none
  peek_loop (suc n) read_ix r =
      let rest = λ (ix : ℕ). peek_loop n ix r in
      if r.ix_write == read_ix
      then some (nothing, advance_to read_ix r)
      else peek_round rest r (get_first_block read_ix r)

  -- `peek(size)`; the fuel is one round more than the ring has bytes.
  unfoldable pub peek : RingBuffer → Option (Look × RingBuffer)
  peek r = peek_loop (suc (2 ^ k)) r.ix_read r

  unfoldable pub free_loop : ℕ → ℕ → RingBuffer → Option (Look × RingBuffer)
  free_loop zero read_ix r = none
  free_loop (suc n) read_ix r =
      let rest = λ (ix : ℕ). free_loop n ix r in
      if r.ix_write == read_ix
      then some (blocked, r)
      else free_round rest r (get_first_block read_ix r)

  -- `free()`.
  unfoldable pub free : RingBuffer → Option (Look × RingBuffer)
  free r = free_loop (suc (2 ^ k)) r.ix_read r
