-- ===== src/StackAllocator/Tests.antt =====
-- The theorem on the stack allocator at 64 bytes and three requests, the last of which is refused.
use sdk_cp.Base.{◌-◌, ◌^◌, ◌≡◌, refl, arith, some, List, [], ◌∷◌}
use sdk_cp.StackAllocator.{StackAllocator, stack_allocator_new, stack_allocate, align_mem}
use sdk_cp.StackAllocator.Blocks.{Request, run, ArePacked, IsStack, run-ArePacked}

abbrev fresh_stack : StackAllocator
fresh_stack = stack_allocator_new 64 0x1004

abbrev requests : List Request
requests = (4, 10) ∷ (3, 16) ∷ (0, 64) ∷ []

run-requests : (run requests fresh_stack).0 ≡ (0x1010, (4, 10)) ∷ (0x1020, (3, 16)) ∷ []
unfolding stack_allocate align_mem
run-requests = refl

-- The end of the memory wraps into the test, so that a size near 2 ^ 64 is granted.
stack_allocate_wraps :
    (stack_allocate 1 (2 ^ 64 - 4) fresh_stack)
    ≡ (some 0x1004, record { mem_ptr = 0x1004; end_ptr = 0x1044; cur_ptr = 0x1000 })
unfolding stack_allocate align_mem
stack_allocate_wraps = refl

run-ArePacked_example :
    ArePacked fresh_stack.cur_ptr (run requests fresh_stack).0 (run requests fresh_stack).1.cur_ptr
    × IsStack (run requests fresh_stack).1
run-ArePacked_example =
    run-ArePacked requests fresh_stack
      ((omega arith, omega arith), ((omega arith, omega arith), ((omega arith, omega arith), tt)))
      (omega arith, omega arith, omega arith)
