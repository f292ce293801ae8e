-- ===== src/LinearMap/Refinement.antt =====
-- The linear map as a finite map from keys to values.
use sdk_cp.Base.{
  ℕ, ◌<◌, Bool, true, false, if◌then◌else◌, ==_refl, ==_ne, ◌∷◌, Option, none, some, ◌≡◌, ◌⊎◌, sym,
  ap, ◌∙◌, subst, inl, inr, some_eq, none≢some, Bool-cases, Option-cases, ℕ_discrete,
}
use sdk_cp.Pool
use sdk_cp.Pool.{Pool}
use sdk_cp.Pool.Contents.{IsConsistent, contents}
use sdk_cp.Pool.Allocation.{Inserts, allocate-Inserts, live_slot}
use sdk_cp.LinearMap.Keys.{Reflects}
use sdk_cp.LinearMap.{
  LinearHashMap, Outcome, done, find_position, deref, after_allocate, index_at, index,
}

-- The value that is there, or the value to fall back on.
abbrev pub value_or {ℓ} : {A : Type ℓ} → A → Option A → A
value_or fresh none = fresh
value_or fresh (some a) = a

module _ {ℓ κ} {K : Type ℓ} {A : Type κ} (same : K → K → Bool) (n : ℕ) where
  abbrev pub viewed : Pool A → Option ℕ → Option A
  viewed p none = none
  viewed p (some i) = contents n p i

  -- The finite map.
  abbrev pub view : LinearHashMap K A → K → Option A
  view m k = viewed m.pool (find_position same k m.keys)

  -- The pool is consistent, every key has an object, and no two keys the same.
  abbrev pub IsLinked : LinearHashMap K A → Type (ℓ ⊔ κ)
  IsLinked m =
      IsConsistent n m.pool
      × ((k : K) (i : ℕ)
          → find_position same k m.keys ≡ some i
          → (a : A) × (contents n m.pool i ≡ some a))
      × ((k k' : K) (i : ℕ)
          → find_position same k m.keys ≡ some i
          → find_position same k' m.keys ≡ some i
          → k ≡ k')

  deref_live :
      (i : ℕ) (a : A) (m : LinearHashMap K A)
      → contents n m.pool i ≡ some a
      → deref i m (Pool.find n i m.pool) ≡ done i m
  unfolding Pool.find
  deref_live i a m e = rw (live_slot n (Pool.slot n m.pool.chunks i) a e)

  -- The view at a key that has no position, or one that has.
  pub view-none :
      (m : LinearHashMap K A) (k : K) → find_position same k m.keys ≡ none → view m k ≡ none
  view-none m k e = ap (viewed m.pool) e

  pub view-some :
      (m : LinearHashMap K A) (k : K) (i : ℕ)
      → find_position same k m.keys ≡ some i
      → view m k ≡ contents n m.pool i
  view-some m k i e = ap (viewed m.pool) e

  -- What `operator[]` promises of its answer: the position of the key's object, which is the one
  -- that the key had, or the fresh one; the views of the other keys stay.
  abbrev pub Indexes : A → K → LinearHashMap K A → Outcome K A ℕ → Type (ℓ ⊔ κ)
  Indexes fresh key m o =
      (i : ℕ) × (m' : LinearHashMap K A) × (o ≡ done i m')
      × (contents n m'.pool i ≡ some (value_or fresh (view m key)))
      × ((k : K)
          → view m' k ≡ (if same key k then some (value_or fresh (view m key)) else view m k))
      × IsLinked m'

  index-found :
      (fresh : A) (key : K) (m : LinearHashMap K A) (i : ℕ)
      → Reflects same
      → IsLinked m
      → find_position same key m.keys ≡ some i
      → Indexes fresh key m (deref i m (Pool.find n i m.pool))
  index-found fresh key m i r (cons, live, apart) e =
      let (a, at) = live key i e in
      let had : view m key ≡ some a = view-some m key i e ∙ at in
      (
        i,
        m,
        deref_live i a m at,
        at ∙ ap (λ o. some (value_or fresh o)) (sym had),
        (λ k. views k a had (Bool-cases (same key k))),
        (cons, live, apart),
      )
    where
      views :
          (k : K) (a : A)
          → view m key ≡ some a
          → (same key k ≡ true) ⊎ (same key k ≡ false)
          → view m k ≡ (if same key k then some (value_or fresh (view m key)) else view m k)
      views k a had (inl f) =
          ap (view m) (sym ((r key k).0 f))
          ∙ had
          ∙ rw (f) (ap (λ o. some (value_or fresh o)) (sym had))
      views k a had (inr f) = rw (f)

  index-made :
      (fresh : A) (key : K) (m : LinearHashMap K A)
      → Reflects same
      → 0 < n
      → IsLinked m
      → find_position same key m.keys ≡ none
      → Inserts n m.pool fresh (Pool.allocate n true fresh m.pool)
      → Indexes fresh key m (after_allocate same n key m (Pool.allocate n true fresh m.pool))
  index-made fresh key m r pos (cons, live, apart) e (i, p, made, vacant, holds, cons') = (
    i,
    m',
    ap (after_allocate same n key m) made ∙ deref_live i fresh m' at,
    at ∙ ap (λ o. some (value_or fresh o)) (sym gone),
    (λ k. views k (Bool-cases (same key k))),
    (
      cons',
      (λ k j f. lives k j (Bool-cases (same key k)) f),
      (λ k k' j f g. differ k k' j (Bool-cases (same key k)) (Bool-cases (same key k')) f g),
    ),
  )
    where
      m' : LinearHashMap K A
      m' = record { pool = p; keys = (key, i) ∷ m.keys }

      gone : view m key ≡ none
      gone = view-none m key e

      at : contents n p i ≡ some fresh
      at = holds i ∙ rw (==_refl i)

      -- A position that another key has is not the new one.
      kept :
          (k : K) (j : ℕ)
          → find_position same k m.keys ≡ some j
          → contents n p j ≡ contents n m.pool j
      kept k j f = elim (ℕ_discrete i j) [
        | yes eq ↦ absurd (none≢some (sym vacant ∙ ap (contents n m.pool) eq ∙ (live k j f).1))
        | no ne ↦ holds j ∙ rw (==_ne i j ne)
      ]

      views :
          (k : K)
          → (same key k ≡ true) ⊎ (same key k ≡ false)
          → view m' k ≡ (if same key k then some (value_or fresh (view m key)) else view m k)
      views k (inl f) = rw (f) (at ∙ ap (λ o. some (value_or fresh o)) (sym gone))
      views k (inr f) = rw (f) (old (Option-cases (find_position same k m.keys)))
        where
          old :
              (find_position same k m.keys ≡ none)
                ⊎ ((j : ℕ) × (find_position same k m.keys ≡ some j))
              → viewed p (find_position same k m.keys) ≡ view m k
          old (inl g) = ap (viewed p) g ∙ sym (view-none m k g)
          old (inr (j, g)) = ap (viewed p) g ∙ kept k j g ∙ sym (view-some m k j g)

      looked :
          (k : K) (b : Bool) (j : ℕ)
          → same key k ≡ b
          → find_position same k m'.keys ≡ some j
          → (if b then some i else find_position same k m.keys) ≡ some j
      looked k b j f g = ap (λ c. if c then some i else find_position same k m.keys) (sym f) ∙ g

      lives :
          (k : K) (j : ℕ)
          → (same key k ≡ true) ⊎ (same key k ≡ false)
          → find_position same k m'.keys ≡ some j
          → (a : A) × (contents n p j ≡ some a)
      lives k j (inl f) g = (fresh, ap (contents n p) (sym (some_eq (looked k true j f g))) ∙ at)
      lives k j (inr f) g =
          let (a, old) = live k j (looked k false j f g) in
          (a, kept k j (looked k false j f g) ∙ old)

      new_one : (k : K) (j : ℕ) → i ≡ j → find_position same k m.keys ≡ some j → ⊥
      new_one k j eq f = none≢some (sym vacant ∙ ap (contents n m.pool) eq ∙ (live k j f).1)

      differ :
          (k k' : K) (j : ℕ)
          → (same key k ≡ true) ⊎ (same key k ≡ false)
          → (same key k' ≡ true) ⊎ (same key k' ≡ false)
          → find_position same k m'.keys ≡ some j
          → find_position same k' m'.keys ≡ some j
          → k ≡ k'
      differ k k' j (inl f) (inl f') g g' = sym ((r key k).0 f) ∙ (r key k').0 f'
      differ k k' j (inl f) (inr f') g g' =
          absurd (new_one k' j (some_eq (looked k true j f g)) (looked k' false j f' g'))
      differ k k' j (inr f) (inl f') g g' =
          absurd (new_one k j (some_eq (looked k' true j f' g')) (looked k false j f g))
      differ k k' j (inr f) (inr f') g g' =
          apart k k' j (looked k false j f g) (looked k' false j f' g')

  -- `operator[]` on a linked map is defined and answers the position of the key's object; where
  -- the key had none, that is a fresh object, for which the pool gets memory. It changes no other
  -- key and leaves the map linked. The chunk size is not 0, and `__key_eq` is equality.
  pub index-Indexes :
      (fresh : A) (key : K) (m : LinearHashMap K A)
      → Reflects same
      → 0 < n
      → IsLinked m
      → Indexes fresh key m (index same n true fresh key m)
  unfolding index
  index-Indexes fresh key m r pos linked = elim (Option-cases (find_position same key m.keys)) [
    | inl e ↦
        subst (λ o. Indexes fresh key m (index_at same n true fresh key m o)) (sym e)
          (index-made fresh key m r pos linked e (allocate-Inserts n fresh m.pool pos linked.0))
    | inr (i, e) ↦
        subst (λ o. Indexes fresh key m (index_at same n true fresh key m o)) (sym e)
          (index-found fresh key m i r linked e)
  ]
