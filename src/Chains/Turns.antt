-- ===== src/Chains/Turns.antt =====
-- One worker to a chain, and the tasks of a chain in the order in which they were put in.
use sdk_cp.Base.{
  Bool, true, false, map, ◌⊎◌, length, ℕ, ◌+◌, ◌≤◌, ◌==◌, ==_ne, ==_refl, List, [], ◌∷◌, ◌++◌,
  Option, none, some, append_assoc, append-nil, ◌≡◌, ◌≢◌, refl, sym, ap, ap₂, ◌∙◌, subst, arith,
  inl, inr, Bool-cases,
}
use sdk_cp.Base.Counts.{count_middle, one_self, count, one_or_none}
use sdk_cp.Chains.{
  TaskChain, new_chain, add_task, get_task_of, find_key, update, chain_at, pop_chain, ChainPool,
  alive, with_own, put_in, popped, got, Step, look_up, put, dropped, destroy, held, make_ready, pop,
  take, remove, halt, leave, Reach, begin, later,
}
use sdk_cp.Chains.Invariant.{bit_le, IsSound}
use sdk_cp.Chains.Kept.{Reach-IsSound}
use sdk_cp.Chains.Lives.{
  of_chain, of_chain-append, of_chain_none, IsWhole, held-IsWhole, held_or_destroyed, Reach-IsWhole,
}

-- In every reachable state of the pool, at most one of the threads and notices is at a chain:
-- no two workers, and no worker on a chain that stands in the ready list.
pub Reach-load {ℓ} :
    {T : Type ℓ} {p : ChainPool T} (i : ℕ)
    → Reach p
    → count i p.owing + (count i p.syncro.ready2work_list + count i p.working) ≤ 1
Reach-load {p = p} i r = omega (arith, (Reach-IsSound r i).0, bit_le (p.syncro.heap i).is_pending)

of_chain_snoc {ℓ} :
    {T : Type ℓ} (i j : ℕ) (t : T) (l : List (ℕ × T))
    → i ≡ j
    → of_chain j (l ++ ((i, t) ∷ [])) ≡ of_chain j l ++ (t ∷ [])
of_chain_snoc i j t l same = of_chain-append j l ((i, t) ∷ []) ∙ rw (same, ==_refl j)

of_chain_other {ℓ} :
    {T : Type ℓ} (i j : ℕ) (t : T) (l : List (ℕ × T))
    → i ≢ j
    → of_chain j (l ++ ((i, t) ∷ [])) ≡ of_chain j l
of_chain_other i j t l ne =
    of_chain-append j l ((i, t) ∷ []) ∙ rw (==_ne i j ne) (append-nil (of_chain j l))

of_chain_all {ℓ} :
    {T : Type ℓ} (i j : ℕ) (ts : List T) → i ≡ j → of_chain j (map (λ (t : T). (i, t)) ts) ≡ ts
of_chain_all i j [] same = refl
of_chain_all i j (t ∷ ts) same =
    rw (ap (λ (k : ℕ). k == j) same, ==_refl j) (ap (λ l. t ∷ l) (of_chain_all i j ts same))

module _ {ℓ} {T : Type ℓ} where
  update_self : (heap : ℕ → TaskChain T) (i j : ℕ) (c : TaskChain T) → i ≡ j → update heap i c j ≡ c
  update_self heap i j c same = rw (same, ==_refl j)

  update_other :
      (heap : ℕ → TaskChain T) (i j : ℕ) (c : TaskChain T) → i ≢ j → update heap i c j ≡ heap j
  update_other heap i j c ne = rw (==_ne j i (λ e. ne (sym e)))

  -- The tasks of a chain that workers have taken, and those destroyed with it.
  abbrev spent : ChainPool T → ℕ → List T
  spent p j = of_chain j p.taken ++ of_chain j p.destroyed

  abbrev IsInOrder : ChainPool T → ℕ → Type ℓ
  IsInOrder p j = of_chain j p.entered ≡ spent p j ++ (p.syncro.heap j).tasks

  with_own-IsInOrder :
      (p : ChainPool T) (v : T) (key : ℕ) (o : Option ℕ) (j : ℕ)
      → IsSound p p.syncro.made
      → IsInOrder p j
      → IsInOrder (with_own v p (chain_at key p.syncro o)) j
  with_own-IsInOrder p v key (some i) j sound order = order
  with_own-IsInOrder p v key none j (few, empty, exact, fresh) order =
      elim (one_or_none j p.syncro.made) [
        | inl same ↦ order ∙ ap (λ l. spent p j ++ l) (was_empty same ∙ sym (now_empty same))
        | inr (ne, z) ↦
            order
            ∙ ap (λ (c : TaskChain T). spent p j ++ c.tasks)
                (sym (update_other p.syncro.heap p.syncro.made j new_chain ne))
      ]
    where
      was_empty : p.syncro.made ≡ j → (p.syncro.heap j).tasks ≡ []
      was_empty same =
          subst (λ k. (p.syncro.heap k).tasks ≡ []) same (empty (fresh (omega arith)).1)

      now_empty : p.syncro.made ≡ j → (update p.syncro.heap p.syncro.made new_chain j).tasks ≡ []
      now_empty same =
          ap (λ (c : TaskChain T). c.tasks)
            (update_self p.syncro.heap p.syncro.made j new_chain same)

  add_task_tasks : (v : T) (c : TaskChain T) → (add_task v c).1.tasks ≡ c.tasks ++ (v ∷ [])
  add_task_tasks v c = elim (Bool-cases c.is_pending) [ inl t ↦ rw (t) | inr f ↦ rw (f) ]

  put_in-IsInOrder :
      (p : ChainPool T) (i : ℕ) (v : T) (others : List (ℕ × T)) (j : ℕ)
      → IsInOrder p j
      → IsInOrder (put_in i v others p) j
  put_in-IsInOrder p i v others j order = elim (one_or_none j i) [
    | inl same ↦
        of_chain_snoc i j v p.entered same
        ∙ ap (λ l. l ++ (v ∷ [])) order
        ∙ append_assoc (spent p j) (p.syncro.heap j).tasks (v ∷ [])
        ∙ ap (λ l. spent p j ++ l) (sym (tasks_now same))
    | inr (ne, z) ↦
        of_chain_other i j v p.entered ne
        ∙ order
        ∙ ap (λ (c' : TaskChain T). spent p j ++ c'.tasks)
            (sym (update_other p.syncro.heap i j c ne))
  ]
    where
      c : TaskChain T
      c = (add_task v (p.syncro.heap i)).1

      tasks_now : i ≡ j → (update p.syncro.heap i c j).tasks ≡ (p.syncro.heap j).tasks ++ (v ∷ [])
      tasks_now same =
          ap (λ (c' : TaskChain T). c'.tasks) (update_self p.syncro.heap i j c same)
          ∙ add_task_tasks v (p.syncro.heap i)
          ∙ ap (λ k. (p.syncro.heap k).tasks ++ (v ∷ [])) same

  got-IsInOrder :
      (p : ChainPool T) (i : ℕ) (others : List ℕ) (ts : List T) (b : Bool) (j : ℕ)
      → (p.syncro.heap i).tasks ≡ ts
      → (p.syncro.heap i).is_pending ≡ b
      → IsSound p i
      → of_chain i p.destroyed ≡ []
      → IsInOrder p j
      → IsInOrder (got i others (get_task_of ts b) p) j
  got-IsInOrder p i others [] b j e flag sound whole order = elim (one_or_none j i) [
    | inl same ↦
        order
        ∙ ap (λ l. spent p j ++ l)
            (ap (λ k. (p.syncro.heap k).tasks) (sym same)
              ∙ e
              ∙ ap (λ (c : TaskChain T). c.tasks)
                  (sym (update_self p.syncro.heap i j new_chain same)))
    | inr (ne, z) ↦
        order
        ∙ ap (λ (c : TaskChain T). spent p j ++ c.tasks)
            (sym (update_other p.syncro.heap i j new_chain ne))
  ]
  got-IsInOrder p i others (t ∷ ts) false j e off sound whole order =
      absurd (omega (arith, ap (λ (l : List T). length l) (sym e ∙ sound.1 off)))
  got-IsInOrder p i others (t ∷ ts) true j e on sound whole order = elim (one_or_none j i) [
    | inl same ↦
        order
        ∙ ap (λ l. spent p j ++ l) (ap (λ k. (p.syncro.heap k).tasks) (sym same) ∙ e)
        ∙ ap (λ l. (of_chain j p.taken ++ l) ++ (t ∷ ts)) (kept same)
        ∙ ap (λ l. l ++ (t ∷ ts)) (append-nil (of_chain j p.taken))
        ∙ sym (append_assoc (of_chain j p.taken) (t ∷ []) ts)
        ∙ ap (λ l. l ++ ts) (sym (append-nil (of_chain j p.taken ++ (t ∷ []))))
        ∙ ap (λ l. ((of_chain j p.taken ++ (t ∷ [])) ++ l) ++ ts) (sym (kept same))
        ∙ ap₂ (λ (l : List T) (c' : TaskChain T). (l ++ of_chain j p.destroyed) ++ c'.tasks)
            (sym (of_chain_snoc i j t p.taken same)) (sym (update_self p.syncro.heap i j c same))
    | inr (ne, z) ↦
        order
        ∙ ap₂ (λ (l : List T) (c' : TaskChain T). (l ++ of_chain j p.destroyed) ++ c'.tasks)
            (sym (of_chain_other i j t p.taken ne)) (sym (update_other p.syncro.heap i j c ne))
  ]
    where
      c : TaskChain T
      c = record { tasks = ts; is_pending = true }

      kept : i ≡ j → of_chain j p.destroyed ≡ []
      kept same = subst (λ k. of_chain k p.destroyed ≡ []) same whole

  dropped-IsInOrder : (p : ChainPool T) (i j : ℕ) → IsInOrder p j → IsInOrder (dropped i p) j
  dropped-IsInOrder p i j order = elim (one_or_none j i) [
    | inl same ↦
        order
        ∙ append_assoc (of_chain j p.taken) (of_chain j p.destroyed) (p.syncro.heap j).tasks
        ∙ ap (λ l. of_chain j p.taken ++ l)
            (ap (λ l. of_chain j p.destroyed ++ l) (sym (gone_self same))
              ∙ sym (of_chain-append j p.destroyed log))
        ∙ sym (append-nil (of_chain j p.taken ++ of_chain j (p.destroyed ++ log)))
        ∙ ap
            (λ (c' : TaskChain T).
              (of_chain j p.taken ++ of_chain j (p.destroyed ++ log)) ++ c'.tasks)
            (sym (update_self p.syncro.heap i j c same))
    | inr (ne, z) ↦
        order
        ∙ ap₂ (λ (l : List T) (c' : TaskChain T). (of_chain j p.taken ++ l) ++ c'.tasks)
            (sym (append-nil (of_chain j p.destroyed))
              ∙ ap (λ l. of_chain j p.destroyed ++ l)
                  (sym (of_chain_none i j (p.syncro.heap i).tasks ne))
              ∙ sym (of_chain-append j p.destroyed log))
            (sym (update_other p.syncro.heap i j c ne))
  ]
    where
      c : TaskChain T
      c = record { tasks = []; is_pending = (p.syncro.heap i).is_pending }

      log : List (ℕ × T)
      log = map (λ (t : T). (i, t)) (p.syncro.heap i).tasks

      gone_self : i ≡ j → of_chain j log ≡ (p.syncro.heap j).tasks
      gone_self same =
          of_chain_all i j (p.syncro.heap i).tasks same ∙ ap (λ k. (p.syncro.heap k).tasks) same

  popped-IsInOrder :
      (p : ChainPool T) (r : Option ℕ × List ℕ) (j : ℕ) → IsInOrder p j → IsInOrder (popped r p) j
  popped-IsInOrder p (none, rest) j order = order
  popped-IsInOrder p (some i, rest) j order = order

  Step-IsInOrder :
      {p q : ChainPool T} (j : ℕ)
      → Step p q
      → ((i : ℕ) → IsSound p i)
      → ((i : ℕ) → IsWhole p i)
      → IsInOrder p j
      → IsInOrder q j
  Step-IsInOrder {p} j (look_up key v) sound whole order =
      with_own-IsInOrder p v key (find_key key p.syncro.chains_list) j (sound p.syncro.made) order
  Step-IsInOrder {p} j (put xs ys i v e) sound whole order =
      put_in-IsInOrder p i v (xs ++ ys) j order
  Step-IsInOrder {p} j (make_ready xs ys i e) sound whole order = order
  Step-IsInOrder {p} j (pop free) sound whole order =
      popped-IsInOrder p (pop_chain (alive p) p.syncro.ready2work_list) j order
  Step-IsInOrder {p} j (take xs ys i e) sound whole order =
      got-IsInOrder p i (xs ++ ys) (p.syncro.heap i).tasks (p.syncro.heap i).is_pending j refl refl
        (sound i)
        (held-IsWhole p i (whole i) (omega (arith, count_middle i i p.working xs ys e, one_self i)))
        order
  Step-IsInOrder {p} j (destroy i dead here) sound whole order = dropped-IsInOrder p i j order
  Step-IsInOrder {p} j (remove key) sound whole order = order
  Step-IsInOrder {p} j halt sound whole order = order
  Step-IsInOrder {p} j (leave xs ys i e halted) sound whole order = order

  Reach-IsInOrder : {p : ChainPool T} (i : ℕ) → Reach p → IsInOrder p i
  Reach-IsInOrder i (begin n some_threads) = refl
  Reach-IsInOrder i (later {p} r s) =
      Step-IsInOrder i s (Reach-IsSound r) (Reach-IsWhole r) (Reach-IsInOrder i r)

-- In every reachable state, the tasks put into a chain are, in their order, those that workers
-- have taken from it, those destroyed with it, and those it still has: none is repeated or
-- overtaken. None is lost while the chain is held: with a shared pointer to it, none of its tasks
-- has been destroyed.
pub Reach-of_chain {ℓ} :
    {T : Type ℓ} {p : ChainPool T} (i : ℕ)
    → Reach p
    → (of_chain i p.entered
        ≡ (of_chain i p.taken ++ of_chain i p.destroyed) ++ (p.syncro.heap i).tasks)
      × ((held i p ≡ 0) ⊎ (of_chain i p.destroyed ≡ []))
Reach-of_chain {p = p} i r = (Reach-IsInOrder i r, held_or_destroyed p i (Reach-IsWhole r i))
