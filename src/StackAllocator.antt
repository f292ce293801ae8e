-- ===== src/StackAllocator.antt =====
-- tools/stack_allocator.hpp: memory handed out from one block, front to back, and given back as a
-- whole. An address is a word of 64 bits, and no address is the null pointer.
pub mod Blocks
mod Tests
use sdk_cp.Base.{
  ℕ, ◌+◌, ◌-◌, ◌*◌, ◌/◌, ◌%◌, ◌^◌, bit_and, add64, sub64, Bool, true, false, ◌&&◌, ltb, leb, ◌==◌,
  if◌then◌else◌, Option, none, some, List, [], ◌∷◌,
}

-- `stack_allocator`.
pub record StackAllocator : Type 0 where
  pub mem_ptr : ℕ
  pub end_ptr : ℕ
  pub cur_ptr : ℕ

-- The constructor, of what `malloc` answers: an address, or 0.
abbrev pub stack_allocator_new : ℕ → ℕ → StackAllocator
stack_allocator_new size mem = record {
  mem_ptr = mem;
  end_ptr = add64 mem (if mem == 0 then 0 else size);
  cur_ptr = mem;
}

-- `SDK_CP_ALIGN_MEM(mem, base)` on a `uintptr_t`.
unfoldable pub align_mem : ℕ → ℕ → ℕ
align_mem mem base = bit_and (add64 mem (base - 1)) (2 ^ 64 - 1 - (base - 1))

-- The test and the answer, once the pointer is aligned.
abbrev pub place : ℕ → ℕ → StackAllocator → Option ℕ × StackAllocator
place ptr size s =
    if ltb s.end_ptr (add64 ptr size)
    then (none, s)
    else (some ptr, record { mem_ptr = s.mem_ptr; end_ptr = s.end_ptr; cur_ptr = add64 ptr size })

-- `allocate<align>(size)`.
unfoldable pub stack_allocate : ℕ → ℕ → StackAllocator → Option ℕ × StackAllocator
stack_allocate align size s = place (align_mem s.cur_ptr align) size s

abbrev pub contains : ℕ → StackAllocator → Bool
contains ptr s = leb s.mem_ptr ptr && ltb ptr s.end_ptr

abbrev pub clear : StackAllocator → StackAllocator
clear s = record { mem_ptr = s.mem_ptr; end_ptr = s.end_ptr; cur_ptr = s.mem_ptr }

abbrev pub stack_size : StackAllocator → ℕ
stack_size s = sub64 s.cur_ptr s.mem_ptr

abbrev pub remains : StackAllocator → ℕ
remains s = sub64 s.end_ptr s.cur_ptr
