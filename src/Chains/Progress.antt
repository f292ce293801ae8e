-- ===== src/Chains/Progress.antt =====
-- A task of a chain that is held can be executed next, whatever the threads have done before.
use sdk_cp.Base.{ℕ, List, Option}

abbrev answer : Option ℕ → List ℕ → Option ℕ × List ℕ
answer o l = (o, l)
