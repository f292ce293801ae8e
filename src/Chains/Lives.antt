-- ===== src/Chains/Lives.antt =====
-- A chain is destroyed at most once: without a shared pointer it never gets one again.
use sdk_cp.Base.{
  ℕ, ◌<◌, ◌==◌, ==_ne, if◌then◌else◌, Bool, true, false, List, [], ◌∷◌, ◌++◌, Option, none, some,
  map, append-nil, ltb→lt, ◌≡◌, ◌≢◌, ◌⊎◌, refl, ap, ◌∙◌, subst, arith, inl, inr, Bool-cases,
}
use sdk_cp.Base.Counts.{one, count, one_or_none, count_middle}
use sdk_cp.Chains.{
  find_key, get_task, pop_chain, ChainPool, TaskChain, add_task, chain_at, with_own, held, alive,
  popped, got, Step, look_up, put, make_ready, pop, take, destroy, remove, halt, leave, Reach,
  begin, later,
}
use sdk_cp.Chains.Owners.{count_keys-erase_key, count_tasks_middle, one_le_find_key, pop_chain-some}

-- The tasks of one chain in a log.
abbrev pub of_chain {ℓ} : {T : Type ℓ} → ℕ → List (ℕ × T) → List T
of_chain j [] = []
of_chain j ((i, t) ∷ l) = if i == j then t ∷ of_chain j l else of_chain j l

pub of_chain-append {ℓ} :
    {T : Type ℓ} (j : ℕ) (xs ys : List (ℕ × T))
    → of_chain j (xs ++ ys) ≡ of_chain j xs ++ of_chain j ys
of_chain-append j [] ys = refl
of_chain-append j ((i, t) ∷ xs) ys = elim (Bool-cases (i == j)) [
  | inl e ↦ rw (e) (ap (λ l. t ∷ l) (of_chain-append j xs ys))
  | inr e ↦ rw (e) (of_chain-append j xs ys)
]

pub of_chain_none {ℓ} :
    {T : Type ℓ} (i j : ℕ) (ts : List T) → i ≢ j → of_chain j (map (λ (t : T). (i, t)) ts) ≡ []
of_chain_none i j [] ne = refl
of_chain_none i j (t ∷ ts) ne = rw (==_ne i j ne) (of_chain_none i j ts ne)

owing_other :
    (j i : ℕ) (b : Bool) (l : List ℕ) → one j i ≡ 0 → count j (if b then i ∷ l else l) ≡ count j l
owing_other j i true l z = omega (arith, z)
owing_other j i false l z = refl

module _ {ℓ} {T : Type ℓ} where
  -- A chain that has been made and has no shared pointer.
  abbrev IsDead : ChainPool T → ℕ → Type 0
  IsDead p j = (held j p ≡ 0) × (j < p.syncro.made)

  with_own-IsDead :
      (p : ChainPool T) (v : T) (key : ℕ) (o : Option ℕ) (j : ℕ)
      → find_key key p.syncro.chains_list ≡ o
      → IsDead p j
      → IsDead (with_own v p (chain_at key p.syncro o)) j
  with_own-IsDead p v key (some i) j e (dead, made) =
      (omega (arith, dead, one_le_find_key j key p.syncro.chains_list i e), made)
  with_own-IsDead p v key none j e (dead, made) = elim (one_or_none j p.syncro.made) [
    | inl same ↦ absurd (omega (arith, same, made))
    | inr (ne, z) ↦ (omega (arith, dead, z), omega (arith, made))
  ]

  popped-IsDead :
      (p : ChainPool T) (r : Option ℕ × List ℕ) (j : ℕ)
      → pop_chain (alive p) p.syncro.ready2work_list ≡ r
      → IsDead p j
      → IsDead (popped r p) j
  popped-IsDead p (none, rest) j e dead = dead
  popped-IsDead p (some i, rest) j e (dead, made) = elim (one_or_none j i) [
    | inl same ↦ absurd (
        omega (
          arith,
          dead,
          ltb→lt 0 (held i p) (pop_chain-some (alive p) p.syncro.ready2work_list i rest j e).1,
          ap (λ k. held k p) same,
        ))
    | inr (ne, z) ↦ (omega (arith, dead, z), made)
  ]

  got-IsDead :
      (p : ChainPool T) (xs ys : List ℕ) (i j : ℕ) (r : Option T × TaskChain T)
      → p.working ≡ xs ++ (i ∷ ys)
      → IsDead p j
      → IsDead (got i (xs ++ ys) r p) j
  got-IsDead p xs ys i j (some t, c) e dead = dead
  got-IsDead p xs ys i j (none, c) e (dead, made) =
      (omega (arith, dead, count_middle j i p.working xs ys e), made)

  Step-IsDead : {p q : ChainPool T} (j : ℕ) → Step p q → IsDead p j → IsDead q j
  Step-IsDead {p} j (look_up key v) dead =
      with_own-IsDead p v key (find_key key p.syncro.chains_list) j refl dead
  Step-IsDead {p} j (put xs ys i v e) (dead, made) =
      let less = count_tasks_middle j i v p.entering xs ys e in
      (
        omega (
          arith,
          dead,
          less,
          owing_other j i (add_task v (p.syncro.heap i)).0 p.owing (omega (arith, dead, less)),
        ),
        made,
      )
  Step-IsDead {p} j (make_ready xs ys i e) (dead, made) =
      (omega (arith, dead, count_middle j i p.owing xs ys e), made)
  Step-IsDead {p} j (pop free) dead =
      popped-IsDead p (pop_chain (alive p) p.syncro.ready2work_list) j refl dead
  Step-IsDead {p} j (take xs ys i e) dead =
      got-IsDead p xs ys i j (get_task (p.syncro.heap i)) e dead
  Step-IsDead {p} j (destroy i gone here) dead = dead
  Step-IsDead {p} j (remove key) (dead, made) =
      (omega (arith, dead, count_keys-erase_key j key p.syncro.chains_list), made)
  Step-IsDead {p} j halt dead = dead
  Step-IsDead {p} j (leave xs ys i e halted) (dead, made) =
      (omega (arith, dead, count_middle j i p.working xs ys e), made)

  -- Nothing of the chain has been destroyed, unless it is dead.
  abbrev pub IsWhole : ChainPool T → ℕ → Type ℓ
  IsWhole p j = IsDead p j ⊎ (of_chain j p.destroyed ≡ [])

  pub held-IsWhole :
      (p : ChainPool T) (j : ℕ) → IsWhole p j → 0 < held j p → of_chain j p.destroyed ≡ []
  held-IsWhole p j (inl (dead, made)) holds = absurd (omega (arith, dead, holds))
  held-IsWhole p j (inr whole) holds = whole

  pub held_or_destroyed :
      (p : ChainPool T) (j : ℕ) → IsWhole p j → (held j p ≡ 0) ⊎ (of_chain j p.destroyed ≡ [])
  held_or_destroyed p j (inl (dead, made)) = inl dead
  held_or_destroyed p j (inr whole) = inr whole

  with_own_destroyed :
      (p : ChainPool T) (v : T) (key : ℕ) (o : Option ℕ)
      → (with_own v p (chain_at key p.syncro o)).destroyed ≡ p.destroyed
  with_own_destroyed p v key (some i) = refl
  with_own_destroyed p v key none = refl

  popped_destroyed :
      (p : ChainPool T) (r : Option ℕ × List ℕ) → (popped r p).destroyed ≡ p.destroyed
  popped_destroyed p (none, rest) = refl
  popped_destroyed p (some i, rest) = refl

  got_destroyed :
      (p : ChainPool T) (i : ℕ) (others : List ℕ) (r : Option T × TaskChain T)
      → (got i others r p).destroyed ≡ p.destroyed
  got_destroyed p i others (some t, c) = refl
  got_destroyed p i others (none, c) = refl

  Step-destroyed :
      {p q : ChainPool T} (j : ℕ) → Step p q → of_chain j p.destroyed ≡ [] → IsWhole q j
  Step-destroyed {p} j (look_up key v) whole =
      inr (ap (of_chain j) (with_own_destroyed p v key (find_key key p.syncro.chains_list)) ∙ whole)
  Step-destroyed j (put xs ys i v e) whole = inr whole
  Step-destroyed j (make_ready xs ys i e) whole = inr whole
  Step-destroyed {p} j (pop free) whole =
      inr (
        ap (of_chain j) (popped_destroyed p (pop_chain (alive p) p.syncro.ready2work_list)) ∙ whole)
  Step-destroyed {p} j (take xs ys i e) whole =
      inr (ap (of_chain j) (got_destroyed p i (xs ++ ys) (get_task (p.syncro.heap i))) ∙ whole)
  Step-destroyed {p} j (destroy i gone here) whole = elim (one_or_none j i) [
    | inl same ↦ inl (subst (λ k. (held k p ≡ 0) × (k < p.syncro.made)) same (gone, here))
    | inr (ne, z) ↦ inr (
        of_chain-append j p.destroyed (map (λ (t : T). (i, t)) (p.syncro.heap i).tasks)
        ∙ ap (λ l. of_chain j p.destroyed ++ l) (of_chain_none i j (p.syncro.heap i).tasks ne)
        ∙ append-nil (of_chain j p.destroyed)
        ∙ whole)
  ]
  Step-destroyed j (remove key) whole = inr whole
  Step-destroyed j halt whole = inr whole
  Step-destroyed j (leave xs ys i e halted) whole = inr whole

  Step-IsWhole : {p q : ChainPool T} (j : ℕ) → Step p q → IsWhole p j → IsWhole q j
  Step-IsWhole j s (inl dead) = inl (Step-IsDead j s dead)
  Step-IsWhole j s (inr whole) = Step-destroyed j s whole

  pub Reach-IsWhole : {p : ChainPool T} → Reach p → (j : ℕ) → IsWhole p j
  Reach-IsWhole (begin n some_threads) j = inr refl
  Reach-IsWhole (later r s) j = Step-IsWhole j s (Reach-IsWhole r j)
