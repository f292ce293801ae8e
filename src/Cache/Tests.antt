-- ===== src/Cache/Tests.antt =====
-- The theorem on the cache at one object that has come out, gone back and come out again.
use sdk_cp.Base.{refl, [], ◌∷◌}
use sdk_cp.Cache.{Objects, get, put, Reach, begin, later}
use sdk_cp.Cache.Owners.{IsOwned, Reach-IsOwned}

abbrev handed_again : Objects
handed_again = record { cache = []; out = 64 ∷ [] }

handed_again-Reach : Reach 1 handed_again
handed_again-Reach =
    later (later (later begin (get 64 (λ h. refl))) (put [] [] 64 refl))
      (get 0 (λ h. absurd (h refl)))

Reach-IsOwned_example : IsOwned 1 handed_again 64
Reach-IsOwned_example = Reach-IsOwned 64 handed_again-Reach
