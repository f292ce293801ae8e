-- ===== src/RingBuffer/Tests.antt =====
-- The ring at 64 bytes with an alignment of 16: a run of calls, and the theorems.
use sdk_cp.Base.{ℕ, ◌≡◌, refl, arith, true, List, [], ◌∷◌, replicate, some}
use sdk_cp.Base.Memory.{Memory}
use native.Mathlib.Nat.{dvd-mul_left}
use sdk_cp.RingBuffer.{
  RingBuffer, busy, commited, set_prefix, granted, refused, found, overhead, padded, place,
  end_block, place_around, allocate_padded, allocate, update_block_state, commit, get_first_block,
  peek_loop, peek, free,
}
use sdk_cp.RingBuffer.Entries.{IsShape, IsRing, block, pending, ready}
use sdk_cp.RingBuffer.Writing.{Appends}
use sdk_cp.RingBuffer.Allocation.{allocate-Appends}
use sdk_cp.RingBuffer.Marking.{update_block_state-marks}
use sdk_cp.RingBuffer.Reading.{Peeks, peek-Peeks, Frees, free-Frees}

abbrev empty_memory : Memory
empty_memory j = 0

-- A ring that has been written and read up to 48.
abbrev read_out : RingBuffer
read_out = record { mem = empty_memory; ix_read = 48; ix_write = 48 }

-- A block that crosses the end goes to the front: 16 bytes at 0, behind a fake block of 16.
allocate-around : (allocate 6 4 true 5 read_out).0 ≡ granted 16 64
unfolding allocate allocate_padded padded overhead end_block place_around place
allocate-around = refl

allocate-full : (allocate 6 4 true 17 read_out).0 ≡ refused
unfolding allocate
allocate-full = refl

-- The run of a writer and the reader.
abbrev written : RingBuffer
written = commit 6 4 64 (allocate 6 4 true 5 read_out).1

sent : (r : RingBuffer) × (peek 6 4 written ≡ some (found 16 16, r))
unfolding allocate allocate_padded padded overhead end_block place_around place update_block_state
    peek peek_loop get_first_block
sent = (written, refl)

shape : IsShape 6 4
shape = (omega arith, omega arith, omega arith, omega arith)

allocate-Appends_example : Appends 6 4 [] 5 (allocate 6 4 true 5 read_out)
allocate-Appends_example =
    allocate-Appends 6 4 true [] read_out 5 shape (refl, omega arith, dvd-mul_left 16 3)
      (omega arith)

abbrev zeros : List ℕ
zeros = replicate 16 0

abbrev one_block : ℕ → RingBuffer
one_block state = record { mem = set_prefix 0 16 state empty_memory; ix_read = 0; ix_write = 32 }

pending-IsRing : IsRing 6 4 (one_block busy) (block pending zeros ∷ [])
pending-IsRing = (((refl, refl, refl, omega arith), refl), omega arith, dvd-mul_left 16 2)

ready-IsRing : IsRing 6 4 (one_block commited) (block ready zeros ∷ [])
ready-IsRing = (((refl, refl, refl, omega arith), refl), omega arith, dvd-mul_left 16 2)

update_block_state-marks_example :
    IsRing 6 4 (update_block_state 6 4 0 commited (one_block busy)) (block ready zeros ∷ [])
update_block_state-marks_example =
    update_block_state-marks 6 4 (one_block busy) [] [] pending ready zeros 0 shape pending-IsRing
      refl

peek-Peeks_example :
    Peeks 6 4 (block ready zeros ∷ []) (one_block commited) (peek 6 4 (one_block commited))
peek-Peeks_example =
    peek-Peeks 6 4 (block ready zeros ∷ []) (one_block commited) shape ready-IsRing (omega arith)

free-Frees_example :
    Frees 6 4 (block ready zeros ∷ []) (one_block commited) (free 6 4 (one_block commited))
free-Frees_example =
    free-Frees 6 4 (block ready zeros ∷ []) (one_block commited) shape ready-IsRing (omega arith)
