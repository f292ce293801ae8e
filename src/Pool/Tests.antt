-- ===== src/Pool/Tests.antt =====
-- The theorems on the pool at a pool of one chunk of two slots, the first of which holds 7.
use sdk_cp.Base.{
  ℕ, ◌/◌, ◌+◌, ◌≡◌, refl, arith, true, false, if◌then◌else◌, ◌==◌, some, none, [], ◌∷◌, leb, zero,
  suc,
}
use sdk_cp.Pool.{Pool, thrown, allocate, deallocate, size, foreach, slot}
use sdk_cp.Pool.Contents.{IsConsistent, contents, free_at}
use sdk_cp.Pool.Allocation.{Inserts, Removes, allocate-Inserts, deallocate-Removes}
use sdk_cp.Pool.Size.{size-live, allocate_throws}
use sdk_cp.Pool.Visits.{foreach-visited}

abbrev pub half_full : Pool ℕ
half_full = record { chunks = some (some 7 ∷ none ∷ []) ∷ []; empty_objs = 1 ∷ [] }

pub half_full-IsConsistent : IsConsistent 2 half_full
half_full-IsConsistent = ((refl, tt), counted)
  where
    counted : (i : ℕ) → (if 1 == i then 1 else 0) + 0 ≡ free_at (slot 2 half_full.chunks i)
    counted zero = refl
    counted (suc zero) = refl
    counted (suc (suc i)) = rw past (ground arith)
      where
        past : suc (suc i) / 2 ≡ suc (i / 2)
        past = omega arith

allocate-Inserts_example : Inserts 2 half_full 9 (allocate 2 true 9 half_full)
allocate-Inserts_example = allocate-Inserts 2 9 half_full (omega arith) half_full-IsConsistent

deallocate-Removes_example : Removes 2 half_full 0 (deallocate 2 0 half_full)
deallocate-Removes_example = deallocate-Removes 2 half_full 0 7 half_full-IsConsistent refl

size-live_example : size 2 half_full ≡ 1
size-live_example = size-live 2 (omega arith) half_full half_full-IsConsistent (omega arith)

abbrev full : Pool ℕ
full = record { chunks = some (some 7 ∷ some 8 ∷ []) ∷ []; empty_objs = [] }

allocate_throws_example :
    (p' : Pool ℕ) × (allocate 2 false 9 full ≡ thrown p')
    × (size 2 p' ≡ size 2 full + 2)
    × ((i : ℕ) → contents 2 p' i ≡ contents 2 full i)
allocate_throws_example = allocate_throws 2 (omega arith) 9 full.chunks (omega arith)

foreach-visited_example :
    foreach (λ x. leb x 7) (some (some 7 ∷ some 8 ∷ []) ∷ some (some 9 ∷ none ∷ []) ∷ [])
    ≡ some (7 ∷ 8 ∷ [])
foreach-visited_example =
    foreach-visited 2 (λ x. leb x 7) (some (some 7 ∷ some 8 ∷ []) ∷ some (some 9 ∷ none ∷ []) ∷ [])
      (refl, (refl, tt))
