-- ===== src/LinearMap/Tests.antt =====
-- The theorems on the linear map at a map of one key, 5, whose object is 7.
use sdk_cp.Base.{
  ℕ, ◌≡◌, sym, ap, ◌∙◌, arith, Bool, true, if◌then◌else◌, ◌==◌, ==_iff, some_eq, none≢some,
  Bool-cases, inl, inr, Option, some, none, [], ◌∷◌,
}
use sdk_cp.Pool.Contents.{contents}
use sdk_cp.Pool.Tests.{half_full, half_full-IsConsistent}
use sdk_cp.LinearMap.{LinearHashMap, find_position, index, erase}
use sdk_cp.LinearMap.Refinement.{IsLinked, Indexes, index-Indexes}
use sdk_cp.LinearMap.Erasure.{Erases, erase-Erases}

abbrev one_key : LinearHashMap ℕ ℕ
one_key = record { pool = half_full; keys = (5, 0) ∷ [] }

abbrev equal : ℕ → ℕ → Bool
equal a b = a == b

only : (k i : ℕ) → find_position equal k one_key.keys ≡ some i → (5 ≡ k) × (0 ≡ i)
only k i e = elim (Bool-cases (5 == k)) [
  | inl t ↦ ((==_iff 5 k).0 t, some_eq (ap (λ b. position b) (sym t) ∙ e))
  | inr f ↦ absurd (none≢some (ap (λ b. position b) (sym f) ∙ e))
]
  where
    position : Bool → Option ℕ
    position b = if b then some 0 else none

one_key-IsLinked : IsLinked equal 2 one_key
one_key-IsLinked = (
  half_full-IsConsistent,
  (λ k i e. (7, ap (contents 2 half_full) (sym (only k i e).1))),
  (λ k k' i e f. sym (only k i e).0 ∙ (only k' i f).0),
)

index-Indexes_example : Indexes equal 2 0 6 one_key (index equal 2 true 0 6 one_key)
index-Indexes_example =
    index-Indexes equal 2 0 6 one_key (λ a b. ==_iff a b) (omega arith) one_key-IsLinked

erase-Erases_example : Erases equal 2 5 one_key (erase equal 2 5 one_key)
erase-Erases_example = erase-Erases equal 2 5 one_key (λ a b. ==_iff a b) one_key-IsLinked
