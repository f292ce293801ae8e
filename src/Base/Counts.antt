-- ===== src/Base/Counts.antt =====
-- How often a number stands in a list.
use Prim.Native.Nat.{ℕ, ◌+◌}
use mathlib.Core.Path.{◌≡◌, ap}
use mathlib.Core.Logic.{◌≢◌, ◌⊎◌, inl, inr}
use mathlib.Core.List.{List, [], ◌∷◌, ◌++◌}
use native.Mathlib.Omega.{arith}
use native.Mathlib.Decide.{ℕ_discrete}
use sdk_cp.Base.Tests.{◌==◌, ==_ne, ==_refl, if◌then◌else◌}

abbrev pub one : ℕ → ℕ → ℕ
one j i = if i == j then 1 else 0

abbrev pub count : ℕ → List ℕ → ℕ
count j [] = 0
count j (i ∷ l) = one j i + count j l

pub one_self : (i : ℕ) → one i i ≡ 1
one_self i = rw (==_refl i)

pub one_ne : (j i : ℕ) → i ≢ j → one j i ≡ 0
one_ne j i ne = rw (==_ne i j ne)

pub count-append : (j : ℕ) (xs ys : List ℕ) → count j (xs ++ ys) ≡ count j xs + count j ys
count-append j [] ys = omega arith
count-append j (x ∷ xs) ys = omega (arith, count-append j xs ys)

-- One occurrence taken out of the middle.
pub count_middle :
    (j i : ℕ) (l xs ys : List ℕ) → l ≡ xs ++ (i ∷ ys) → count j l ≡ one j i + count j (xs ++ ys)
count_middle j i l xs ys e =
    omega (arith, ap (count j) e, count-append j xs (i ∷ ys), count-append j xs ys)

pub one_or_none : (j i : ℕ) → (i ≡ j) ⊎ ((i ≢ j) × (one j i ≡ 0))
one_or_none j i = elim (ℕ_discrete i j) [ yes e ↦ inl e | no ne ↦ inr (ne, one_ne j i ne) ]
