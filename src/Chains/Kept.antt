-- ===== src/Chains/Kept.antt =====
-- The steps of the workers keep the invariant, so that it holds in every reachable state.
use sdk_cp.Base.{
  Bool, false, true≢false, ℕ, ◌+◌, ltb→lt, lt→ltb, true, List, [], ◌∷◌, ◌++◌, Option, none, some,
  ◌≡◌, refl, sym, ap, ◌∙◌, subst, arith, inl, inr, length,
}
use sdk_cp.Base.Counts.{one, count, one_self, one_or_none, count-append, count_middle}
use sdk_cp.Chains.{
  new_chain, get_task_of, find_key, pop_chain, remove_chain, ChainPool, held, load, alive,
  TaskChain, made_ready, popped, got, dropped, destroy, Step, look_up, put, make_ready, pop, take,
  remove, halt, leave, Reach, begin, later,
}
use sdk_cp.Chains.Owners.{count_keys-erase_key, pop_chain-some, pop_chain-none}
use sdk_cp.Chains.Invariant.{
  bit_le, IsSoundAt, bit, IsSound, same_chain, at_self, at_other, start-IsSound, with_own-IsSound,
  put_in-IsSound,
}

module _ {ℓ} {T : Type ℓ} where
  made_ready-IsSound :
      (p : ChainPool T) (xs ys : List ℕ) (i : ℕ)
      → p.owing ≡ xs ++ (i ∷ ys)
      → ((j : ℕ) → IsSound p j)
      → (j : ℕ) → IsSound (made_ready i (xs ++ ys) p) j
  made_ready-IsSound p xs ys i e sound j =
      let q = made_ready i (xs ++ ys) p in
      let less = count_middle j i p.owing xs ys e in
      let more = count-append j p.syncro.ready2work_list (i ∷ []) in
      same_chain (load j p) (held j p) (load j q) (held j q) (p.syncro.heap j) p.stop p.syncro.made
        j (omega (arith, less, more)) (λ h. omega (arith, less, h))
        (λ run h. omega (arith, less, more)) (sound j)

  popped-IsSound :
      (p : ChainPool T) (r : Option ℕ × List ℕ)
      → pop_chain (alive p) p.syncro.ready2work_list ≡ r
      → ((j : ℕ) → IsSound p j)
      → (j : ℕ) → IsSound (popped r p) j
  popped-IsSound p (none, rest) e sound j =
      let (below, same) = pop_chain-none (alive p) p.syncro.ready2work_list rest j e in
      let q = popped (none, rest) p in
      same_chain (load j p) (held j p) (load j q) (held j q) (p.syncro.heap j) p.stop p.syncro.made
        j (omega (arith, below)) (λ h. h) (λ run h. omega (arith, same (lt→ltb 0 (held j p) h)))
        (sound j)
  popped-IsSound p (some i, rest) e sound j =
      let (below, lives, same) = pop_chain-some (alive p) p.syncro.ready2work_list i rest j e in
      let q = popped (some i, rest) p in
      same_chain (load j p) (held j p) (load j q) (held j q) (p.syncro.heap j) p.stop p.syncro.made
        j (omega (arith, below)) (λ h. omega (arith, h, not_dead lives h))
        (λ run h. omega (arith, same (lt→ltb 0 (held j p) h))) (sound j)
    where
      not_dead : alive p i ≡ true → held j p ≡ 0 → one j i ≡ 0
      not_dead lives h = elim (one_or_none j i) [
        | inl eq ↦ absurd (omega (arith, h, ltb→lt 0 (held i p) lives, ap (λ k. held k p) eq))
        | inr (ne, z) ↦ z
      ]

  -- What `get_task` leaves of a chain.
  got-IsSound :
      (p : ChainPool T) (xs ys : List ℕ) (i : ℕ) (ts : List T) (b : Bool)
      → p.working ≡ xs ++ (i ∷ ys)
      → (p.syncro.heap i).tasks ≡ ts
      → (p.syncro.heap i).is_pending ≡ b
      → ((j : ℕ) → IsSound p j)
      → (j : ℕ) → IsSound (got i (xs ++ ys) (get_task_of ts b) p) j
  got-IsSound p xs ys i (t ∷ ts) false e eq off sound j =
      absurd (omega (arith, ap (λ (l : List T). length l) (sym eq ∙ (sound i).1 off)))
  got-IsSound p xs ys i (t ∷ ts) true e eq on sound j = elim (one_or_none j i) [
    | inl same ↦
        at_self p.syncro.heap i (record { tasks = ts; is_pending = true }) (load j p) (held j p)
          p.stop p.syncro.made j same
          (subst
            (λ k.
              IsSoundAt (load k p) (held k p) (record { tasks = ts; is_pending = true }) p.stop
                p.syncro.made k)
            same
            (
              omega (arith, (sound i).0, ap bit on),
              λ f. absurd (true≢false f),
              λ run h. (sound i).2 run h ∙ ap bit on,
              λ h. absurd (true≢false (sym on ∙ ((sound i).3 h).1)),
            ))
    | inr (ne, z) ↦
        at_other p.syncro.heap i (record { tasks = ts; is_pending = true }) (load j p) (held j p)
          p.stop p.syncro.made j ne (sound j)
  ]
  got-IsSound p xs ys i [] b e eq flag sound j = elim (one_or_none j i) [
    | inl same ↦
        at_self p.syncro.heap i new_chain (load j q) (held j q) p.stop p.syncro.made j same
          (own same (sound j))
    | inr (ne, z) ↦
        at_other p.syncro.heap i new_chain (load j q) (held j q) p.stop p.syncro.made j ne (
          same_chain (load j p) (held j p) (load j q) (held j q) (p.syncro.heap j) p.stop
            p.syncro.made j (omega (arith, less)) (λ h. omega (arith, less, h))
            (λ run h. omega (arith, less, z)) (sound j))
  ]
    where
      q : ChainPool T
      q = got i (xs ++ ys) (get_task_of [] b) p

      less : count j p.working ≡ one j i + count j (xs ++ ys)
      less = count_middle j i p.working xs ys e

      own :
          i ≡ j
          → IsSound p j
          → IsSoundAt {T = T} (load j q) (held j q) new_chain p.stop p.syncro.made j
      own same (few, empty, exact, fresh) = (
        omega (arith, few, less, mine, bit_le (p.syncro.heap j).is_pending),
        λ f. refl,
        λ run h. omega (arith, few, less, mine, bit_le (p.syncro.heap j).is_pending),
        λ h. absurd (omega (arith, (fresh h).0, less, mine)),
      )
        where
          mine : one j i ≡ 1
          mine = ap (one j) same ∙ one_self j

  dropped-IsSound :
      (p : ChainPool T) (i : ℕ) → ((j : ℕ) → IsSound p j) → (j : ℕ) → IsSound (dropped i p) j
  dropped-IsSound p i sound j = elim (one_or_none j i) [
    | inl same ↦ at_self p.syncro.heap i c (load j p) (held j p) p.stop p.syncro.made j same (
        subst (λ k. IsSoundAt (load k p) (held k p) c p.stop p.syncro.made k) same
          ((sound i).0, λ f. refl, (sound i).2, (sound i).3))
    | inr (ne, z) ↦
        at_other p.syncro.heap i c (load j p) (held j p) p.stop p.syncro.made j ne (sound j)
  ]
    where
      c : TaskChain T
      c = record { tasks = []; is_pending = (p.syncro.heap i).is_pending }

  Step-IsSound : {p q : ChainPool T} → Step p q → ((j : ℕ) → IsSound p j) → (j : ℕ) → IsSound q j
  Step-IsSound {p} (look_up key v) sound j =
      with_own-IsSound p key v (find_key key p.syncro.chains_list) refl sound j
  Step-IsSound {p} (put xs ys i v e) sound j = put_in-IsSound p xs ys i v e sound j
  Step-IsSound {p} (make_ready xs ys i e) sound j = made_ready-IsSound p xs ys i e sound j
  Step-IsSound {p} (pop free) sound j =
      popped-IsSound p (pop_chain (alive p) p.syncro.ready2work_list) refl sound j
  Step-IsSound {p} (take xs ys i e) sound j =
      got-IsSound p xs ys i (p.syncro.heap i).tasks (p.syncro.heap i).is_pending e refl refl sound j
  Step-IsSound {p} (destroy i dead here) sound j = dropped-IsSound p i sound j
  Step-IsSound {p} (remove key) sound j =
      let q : ChainPool T = record p { syncro = remove_chain key p.syncro } in
      let less = count_keys-erase_key j key p.syncro.chains_list in
      same_chain (load j p) (held j p) (load j q) (held j q) (p.syncro.heap j) p.stop p.syncro.made
        j (omega arith) (λ h. omega (arith, less, h)) (λ run h. refl) (sound j)
  Step-IsSound {p} halt sound j =
      ((sound j).0, (sound j).1, λ run h. absurd (true≢false run), (sound j).3)
  Step-IsSound {p} (leave xs ys i e halted) sound j =
      let q : ChainPool T = record p { working = xs ++ ys } in
      let less = count_middle j i p.working xs ys e in
      same_chain (load j p) (held j p) (load j q) (held j q) (p.syncro.heap j) p.stop p.syncro.made
        j (omega (arith, less)) (λ h. omega (arith, less, h))
        (λ run h. absurd (true≢false (sym halted ∙ run))) (sound j)

  pub Reach-IsSound : {p : ChainPool T} → Reach p → (j : ℕ) → IsSound p j
  Reach-IsSound (begin n some_threads) j = start-IsSound n j
  Reach-IsSound (later r s) j = Step-IsSound s (λ k. Reach-IsSound r k) j
