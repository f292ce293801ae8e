-- ===== src/LinearMap/Erasure.antt =====
-- `erase` and `find` of the linear map, on the finite map that it stands for.
use sdk_cp.Base.{
  ℕ, Bool, true, false, if◌then◌else◌, ==_ne, none, some, ◌≡◌, ◌≢◌, ◌⊎◌, refl, sym, ap, ◌∙◌, subst,
  arith, inl, inr, none≢some, Bool-cases, Option-cases,
}
use sdk_cp.Pool
use sdk_cp.Pool.{Pool}
use sdk_cp.Pool.Contents.{contents}
use sdk_cp.Pool.Allocation.{Removes, deallocate-Removes, live_slot}
use sdk_cp.LinearMap.Keys.{Reflects, find_position-erase_position}
use sdk_cp.LinearMap.Refinement.{viewed, view, IsLinked, view-none, view-some}
use sdk_cp.LinearMap.{
  LinearHashMap, Outcome, done, find_position, erase_position, after_deallocate, erase_at, erase,
  find_at, find_key,
}

module _ {ℓ κ} {K : Type ℓ} {A : Type κ} (same : K → K → Bool) (n : ℕ) where
  -- What `erase` promises.
  abbrev pub Erases : K → LinearHashMap K A → Outcome K A (Unit {0}) → Type (ℓ ⊔ κ)
  Erases key m o =
      (m' : LinearHashMap K A) × (o ≡ done tt m')
      × ((k : K) → view same n m' k ≡ (if same key k then none else view same n m k))
      × IsLinked same n m'

  erase-missing :
      (key : K) (m : LinearHashMap K A)
      → Reflects same
      → IsLinked same n m
      → find_position same key m.keys ≡ none
      → Erases key m (done tt m)
  erase-missing key m r linked e = (m, refl, (λ k. views k (Bool-cases (same key k))), linked)
    where
      views :
          (k : K)
          → (same key k ≡ true) ⊎ (same key k ≡ false)
          → view same n m k ≡ (if same key k then none else view same n m k)
      views k (inl f) = ap (view same n m) (sym ((r key k).0 f)) ∙ view-none same n m key e ∙ rw (f)
      views k (inr f) = rw (f)

  erase-found :
      (key : K) (m : LinearHashMap K A) (i : ℕ)
      → Reflects same
      → IsLinked same n m
      → find_position same key m.keys ≡ some i
      → Removes n m.pool i (Pool.deallocate n i m.pool)
      → Erases key m (after_deallocate same n key m (Pool.deallocate n i m.pool))
  erase-found key m i r (cons, live, apart) e (p, made, holds, cons') = (
    m',
    ap (after_deallocate same n key m) made,
    (λ k. views k (Bool-cases (same key k))),
    (
      cons',
      (λ k j f. let (a, at) = live k j (before k j f) in (a, kept k j f ∙ at)),
      (λ k k' j f g. apart k k' j (before k j f) (before k' j g)),
    ),
  )
    where
      m' : LinearHashMap K A
      m' = record { pool = p; keys = erase_position same key m.keys }

      erased :
          (k : K)
          → find_position same k m'.keys
            ≡ (if same key k then none else find_position same k m.keys)
      erased k = find_position-erase_position same key k m.keys r

      -- A key that is left is another one, and had the position before.
      not_key : (k : K) (j : ℕ) → find_position same k m'.keys ≡ some j → same key k ≡ false
      not_key k j f = elim (Bool-cases (same key k)) [
        | inl g ↦ absurd (
            none≢some (
              ap (λ b. if b then none else find_position same k m.keys) (sym g)
              ∙ sym (erased k)
              ∙ f))
        | inr g ↦ g
      ]

      before :
          (k : K) (j : ℕ)
          → find_position same k m'.keys ≡ some j
          → find_position same k m.keys ≡ some j
      before k j f =
          ap (λ b. if b then none else find_position same k m.keys) (sym (not_key k j f))
          ∙ sym (erased k)
          ∙ f

      other : (k : K) (j : ℕ) → same key k ≡ false → find_position same k m.keys ≡ some j → i ≢ j
      other k j f g eq = differ (sym f ∙ (r key k).1 (apart key k j (e ∙ ap (λ x. some x) eq) g))
        where
          differ : false ≢ true
          differ h = ground arith

      elsewhere : (j : ℕ) → i ≢ j → contents n p j ≡ contents n m.pool j
      elsewhere j ne = holds j ∙ rw (==_ne i j ne)

      kept :
          (k : K) (j : ℕ)
          → find_position same k m'.keys ≡ some j
          → contents n p j ≡ contents n m.pool j
      kept k j f = elsewhere j (other k j (not_key k j f) (before k j f))

      views :
          (k : K)
          → (same key k ≡ true) ⊎ (same key k ≡ false)
          → view same n m' k ≡ (if same key k then none else view same n m k)
      views k (inl f) = ap (viewed same n p) (erased k) ∙ rw (f)
      views k (inr f) =
          ap (viewed same n p) (erased k)
          ∙ rw (f) (old (Option-cases (find_position same k m.keys)))
        where
          old :
              (find_position same k m.keys ≡ none)
                ⊎ ((j : ℕ) × (find_position same k m.keys ≡ some j))
              → viewed same n p (find_position same k m.keys) ≡ view same n m k
          old (inl g) = ap (viewed same n p) g ∙ sym (view-none same n m k g)
          old (inr (j, g)) =
              ap (viewed same n p) g ∙ elsewhere j (other k j f g) ∙ sym (view-some same n m k j g)

  -- `erase` on a linked map is defined, removes the key and its object, changes no other key and
  -- leaves the map linked, whether or not the key was there. `__key_eq` is equality.
  pub erase-Erases :
      (key : K) (m : LinearHashMap K A)
      → Reflects same
      → IsLinked same n m
      → Erases key m (erase same n key m)
  unfolding erase
  erase-Erases key m r linked = elim (Option-cases (find_position same key m.keys)) [
    | inl e ↦
        subst (λ o. Erases key m (erase_at same n key m o)) (sym e) (erase-missing key m r linked e)
    | inr (i, e) ↦
        let (a, at) = linked.1 key i e in
        subst (λ o. Erases key m (erase_at same n key m o)) (sym e)
          (erase-found key m i r linked e (deallocate-Removes n m.pool i a linked.0 at))
  ]

  -- `find` on a linked map is defined, and points to the key's object, or is null where the key has
  -- none.
  pub find_key-view :
      (key : K) (m : LinearHashMap K A)
      → IsLinked same n m
      → find_key same n key m ≡ some (view same n m key)
  unfolding find_key Pool.find
  find_key-view key m linked = elim (Option-cases (find_position same key m.keys)) [
    | inl e ↦ ap (find_at same n m) e ∙ ap (λ o. some o) (sym (view-none same n m key e))
    | inr (i, e) ↦
        let (a, at) = linked.1 key i e in
        ap (find_at same n m) e
        ∙ live_slot n (Pool.slot n m.pool.chunks i) a at
        ∙ ap (λ o. some o) (sym (view-some same n m key i e ∙ at))
  ]
