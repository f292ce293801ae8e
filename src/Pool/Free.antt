-- ===== src/Pool/Free.antt =====
-- The stack of free positions, by how often each position stands on it.
use sdk_cp.Base.{
  ℕ, zero, suc, ◌+◌, ◌-◌, ◌≡◌, arith, ◌∙◌, if◌then◌else◌, ltb, leb, ◌&&◌, ◌==◌, List, [], ◌∷◌,
}
use sdk_cp.Pool.{push_positions}

abbrev pub count : ℕ → List ℕ → ℕ
count i [] = 0
count i (j ∷ js) = (if j == i then 1 else 0) + count i js

-- Whether a position is one of the `k` from `begin` on.
abbrev pub within : ℕ → ℕ → ℕ → ℕ
within begin k i = if leb begin i && ltb i (begin + k) then 1 else 0

-- The loop pushes every position of the new chunk once.
pub count-push_positions :
    (k ix last begin i : ℕ) (stack : List ℕ)
    → ix + k ≡ last + 1
    → count i (push_positions k ix last begin stack) ≡ within begin k i + count i stack
count-push_positions zero ix last begin i stack h = ground arith
count-push_positions (suc k) ix last begin i stack h =
    count-push_positions k (ix + 1) last begin i ((last - ix + begin) ∷ stack) (omega arith)
    ∙ counted (last - ix + begin) (omega arith)
  where
    counted :
        (top : ℕ)
        → top ≡ begin + k
        → within begin k i + count i (top ∷ stack) ≡ within begin (suc k) i + count i stack
    counted top e = ground arith
