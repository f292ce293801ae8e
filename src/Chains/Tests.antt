-- ===== src/Chains/Tests.antt =====
-- The theorems on chains at a pool in which one task has been put in under the key 7.
use sdk_cp.Base.{◌⊎◌, ℕ, ◌+◌, ◌≤◌, ◌≡◌, refl, arith, [], ◌++◌}
use sdk_cp.Base.Counts.{count}
use sdk_cp.Chains.{held, ChainPool, start, looked_up, put_in, look_up, put, Reach, begin, later}
use sdk_cp.Chains.Turns.{Reach-load, Reach-of_chain}
use sdk_cp.Chains.Lives.{of_chain}

abbrev one_task : ChainPool ℕ
one_task = put_in 0 5 [] (looked_up 7 5 (start 1))

one_task-Reach : Reach one_task
one_task-Reach = later (later (begin 1 (omega arith)) (look_up 7 5)) (put [] [] 0 5 refl)

Reach-load_example :
    count 0 one_task.owing + (count 0 one_task.syncro.ready2work_list + count 0 one_task.working)
    ≤ 1
Reach-load_example = Reach-load 0 one_task-Reach

Reach-of_chain_example :
    (of_chain 0 one_task.entered
      ≡ (of_chain 0 one_task.taken ++ of_chain 0 one_task.destroyed)
        ++ (one_task.syncro.heap 0).tasks)
    × ((held 0 one_task ≡ 0) ⊎ (of_chain 0 one_task.destroyed ≡ []))
Reach-of_chain_example = Reach-of_chain 0 one_task-Reach
