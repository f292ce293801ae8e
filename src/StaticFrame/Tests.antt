-- ===== src/StaticFrame/Tests.antt =====
-- The theorems on the window at a frame of two items at most, which holds one.
use sdk_cp.Base.{ℕ, suc, ◌<◌, ◌≡◌, refl, arith, some, [], ◌∷◌, ◌>>=◌}
use sdk_cp.StaticFrame.{StaticFrame, get_from_first, set_first, move_fwd}
use sdk_cp.StaticFrame.Window.{IsFrame, move_fwd-set_first}

abbrev one_item : StaticFrame ℕ
one_item = record { cells = 10 ∷ 20 ∷ 30 ∷ []; iterator = 2; stored = 1 }

move_fwd-set_first_example :
    (s' : StaticFrame ℕ) × ((move_fwd 2 (λ x. 0) one_item >>= set_first 2 40) ≡ some s')
    × IsFrame 2 s'
    × (get_from_first 2 0 s' ≡ some 40)
    × ((k : ℕ) → suc k < 2 → get_from_first 2 (suc k) s' ≡ get_from_first 2 k one_item)
    × (s'.stored ≡ 2)
move_fwd-set_first_example =
    move_fwd-set_first 2 one_item (refl, (omega arith, omega arith)) (omega arith) (omega arith)
      (λ x. 0) 40

abbrev two_items : StaticFrame ℕ
two_items = record { cells = 10 ∷ 20 ∷ 30 ∷ []; iterator = 2; stored = 2 }
