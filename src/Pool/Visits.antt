-- ===== src/Pool/Visits.antt =====
-- `foreach` visits the objects in the order of their positions.
use sdk_cp.Base.{
  ℕ, ◌≡◌, refl, ap, Bool, true, ◌&&◌, if◌then◌else◌, Bool-cases, inl, inr, Option, none, some, List,
  [], ◌∷◌, ◌++◌, All,
}
use sdk_cp.Pool.{Chunk, foreach_chunk, foreach}
use sdk_cp.Pool.Contents.{Shaped}

module _ {ℓ} {A : Type ℓ} where
  abbrev pub objects_in : List (Option A) → List A
  objects_in [] = []
  objects_in (none ∷ l) = objects_in l
  objects_in (some a ∷ l) = a ∷ objects_in l

  -- All objects, by position.
  abbrev pub objects : List (Chunk A) → List A
  objects [] = []
  objects (none ∷ cs) = objects cs
  objects (some l ∷ cs) = objects_in l ++ objects cs

  -- The elements up to the first that the visitor refuses, which is the last it sees.
  abbrev pub visited : (A → Bool) → List A → List A
  visited f [] = []
  visited f (a ∷ xs) = a ∷ (if f a then visited f xs else [])

  accepted : (A → Bool) → List A → Bool
  accepted f [] = true
  accepted f (a ∷ xs) = f a && accepted f xs

  foreach_chunk-visited :
      (f : A → Bool) (l : List (Option A))
      → foreach_chunk f l ≡ (accepted f (objects_in l), visited f (objects_in l))
  unfolding foreach_chunk accepted
  foreach_chunk-visited f [] = refl
  foreach_chunk-visited f (none ∷ l) = foreach_chunk-visited f l
  foreach_chunk-visited f (some a ∷ l) = elim (Bool-cases (f a)) [
    | inl go ↦ rw (foreach_chunk-visited f l, go)
    | inr stop ↦ rw stop
  ]

  visited-append :
      (f : A → Bool) (xs ys : List A)
      → visited f (xs ++ ys)
        ≡ (if accepted f xs then visited f xs ++ visited f ys else visited f xs)
  unfolding accepted
  visited-append f [] ys = refl
  visited-append f (a ∷ xs) ys = elim (Bool-cases (f a)) [
    | inl go ↦ elim (Bool-cases (accepted f xs)) [
      | inl all ↦ rw (go, visited-append f xs ys, all)
      | inr some_not ↦ rw (go, visited-append f xs ys, some_not)
    ]
    | inr stop ↦ rw stop
  ]

  -- On a pool whose chunks are all there, `foreach` is defined for every visitor: it sees the objects
  -- in the order of their positions, up to and including the first that it refuses.
  pub foreach-visited :
      (n : ℕ) (f : A → Bool) (cs : List (Chunk A))
      → All (Shaped n) cs
      → foreach f cs ≡ some (visited f (objects cs))
  unfolding foreach
  foreach-visited n f [] h = refl
  foreach-visited n f (none ∷ cs) h = absurd h.0
  foreach-visited n f (some l ∷ cs) h = elim (Bool-cases (accepted f (objects_in l))) [
    | inl all ↦ rw (
      foreach,
      foreach_chunk-visited f l,
      visited-append f (objects_in l) (objects cs),
      all,
      foreach-visited n f cs h.1,
      ap (λ (r : Bool × List A). r.1) (foreach_chunk-visited f l),
    )
    | inr some_not ↦ rw (
      foreach,
      foreach_chunk-visited f l,
      visited-append f (objects_in l) (objects cs),
      some_not,
      ap (λ (r : Bool × List A). r.1) (foreach_chunk-visited f l),
    )
  ]
