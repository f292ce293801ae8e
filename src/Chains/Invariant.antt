-- ===== src/Chains/Invariant.antt =====
-- The invariant of the pool of chains, chain by chain, and that `add_task` keeps it.
use sdk_cp.Base.{
  true≢false, ℕ, suc, ◌+◌, ◌≤◌, ◌<◌, ==_ne, ==_refl, dec_lt, if◌then◌else◌, Bool, true, false, List,
  [], ◌∷◌, ◌++◌, Option, none, some, ◌≡◌, ◌≢◌, refl, sym, ap, ◌∙◌, subst, arith, inl, inr,
  Bool-cases,
}
use sdk_cp.Base.Counts.{one, count, one_self, one_or_none}
use sdk_cp.Chains.{
  TaskChain, new_chain, add_task, find_key, update, chain_at, count_tasks, ChainPool, held, load,
  start, with_own, put_in,
}
use sdk_cp.Chains.Owners.{one_le_find_key, count_tasks_middle}

abbrev pub bit : Bool → ℕ
bit true = 1
bit false = 0

pub bit_le : (b : Bool) → bit b ≤ 1
bit_le true = omega arith
bit_le false = omega arith

count_owing :
    (j i : ℕ) (b : Bool) (l : List ℕ)
    → ((i ≡ j) → count j (if b then i ∷ l else l) ≡ bit b + count j l)
      × (one j i ≡ 0 → count j (if b then i ∷ l else l) ≡ count j l)
count_owing j i true l = (λ e. omega (arith, one_self j, ap (one j) e), λ z. omega (arith, z))
count_owing j i false l = (λ e. omega arith, λ z. refl)

module _ {ℓ} {T : Type ℓ} where
  -- Of a chain with so many threads and notices and so many shared pointers: it is pending if it
  -- has one of the former, has none of them or tasks unless pending, has one if it is held and
  -- pending in a running pool, and nothing holds it before it is made.
  abbrev pub IsSoundAt : ℕ → ℕ → TaskChain T → Bool → ℕ → ℕ → Type ℓ
  IsSoundAt loads holds c stop made j =
      (loads ≤ bit c.is_pending)
      × (c.is_pending ≡ false → c.tasks ≡ [])
      × (stop ≡ false → 0 < holds → loads ≡ bit c.is_pending)
      × (made ≤ j → (holds ≡ 0) × (c.is_pending ≡ false))

  abbrev pub IsSound : ChainPool T → ℕ → Type ℓ
  IsSound p j = IsSoundAt (load j p) (held j p) (p.syncro.heap j) p.stop p.syncro.made j

  -- The owners change and the chain does not.
  pub same_chain :
      (loads holds loads' holds' : ℕ) (c : TaskChain T) (stop : Bool) (made j : ℕ)
      → loads' ≤ loads
      → (holds ≡ 0 → holds' ≡ 0)
      → (stop ≡ false → 0 < holds → loads' ≡ loads)
      → IsSoundAt loads holds c stop made j
      → IsSoundAt loads' holds' c stop made j
  same_chain loads holds loads' holds' c stop made j fewer dead kept (few, empty, exact, fresh) = (
    omega (arith, few),
    empty,
    λ run h. elim (dec_lt 0 holds) [
      | yes pos ↦ omega (arith, kept run pos, exact run pos)
      | no n ↦ absurd (omega (arith, dead (omega arith)))
    ],
    λ h. (dead (fresh h).0, (fresh h).1),
  )

  pub start-IsSound : (n j : ℕ) → IsSound (start n) j
  start-IsSound n j = (omega arith, λ e. refl, λ run h. absurd (omega arith), λ h. (refl, refl))

  -- A chain replaced in the heap, seen from it and from another.
  pub at_self :
      (heap : ℕ → TaskChain T) (i : ℕ) (c : TaskChain T) (loads holds : ℕ) (stop : Bool)
      (made j : ℕ)
      → i ≡ j
      → IsSoundAt loads holds c stop made j
      → IsSoundAt loads holds (update heap i c j) stop made j
  at_self heap i c loads holds stop made j same sound =
      subst (λ c'. IsSoundAt loads holds c' stop made j) (sym self) sound
    where
      self : update heap i c j ≡ c
      self = rw (same, ==_refl j)

  pub at_other :
      (heap : ℕ → TaskChain T) (i : ℕ) (c : TaskChain T) (loads holds : ℕ) (stop : Bool)
      (made j : ℕ)
      → i ≢ j
      → IsSoundAt loads holds (heap j) stop made j
      → IsSoundAt loads holds (update heap i c j) stop made j
  at_other heap i c loads holds stop made j ne sound =
      subst (λ c'. IsSoundAt loads holds c' stop made j) (sym other) sound
    where
      other : update heap i c j ≡ heap j
      other = rw (==_ne j i (λ e. ne (sym e)))

  pub with_own-IsSound :
      (p : ChainPool T) (key : ℕ) (v : T) (o : Option ℕ)
      → find_key key p.syncro.chains_list ≡ o
      → ((j : ℕ) → IsSound p j)
      → (j : ℕ) → IsSound (with_own v p (chain_at key p.syncro o)) j
  with_own-IsSound p key v (some i) e sound j =
      let q = with_own v p (i, p.syncro) in
      let found = one_le_find_key j key p.syncro.chains_list i e in
      same_chain (load j p) (held j p) (load j q) (held j q) (p.syncro.heap j) p.stop p.syncro.made
        j (omega arith) (λ h. omega (arith, found, h)) (λ run h. refl) (sound j)
  with_own-IsSound p key v none e sound j = elim (one_or_none j p.syncro.made) [
    | inl same ↦
        at_self p.syncro.heap p.syncro.made new_chain (load j q) (held j q) p.stop
          (suc p.syncro.made) j same
          (
            omega (arith, unused same),
            λ h. refl,
            λ run h. omega (arith, unused same),
            λ h. absurd (omega (arith, same)),
          )
    | inr (ne, z) ↦
        at_other p.syncro.heap p.syncro.made new_chain (load j q) (held j q) p.stop
          (suc p.syncro.made) j ne (later_made ne z (sound j))
  ]
    where
      q : ChainPool T
      q = with_own v p (chain_at key p.syncro none)

      unused : p.syncro.made ≡ j → load j p ≡ 0
      unused same =
          let (few, empty, exact, fresh) = sound j in
          omega (arith, few, ap bit (fresh (omega (arith, same))).1)

      later_made :
          p.syncro.made ≢ j
          → one j p.syncro.made ≡ 0
          → IsSound p j
          → IsSoundAt (load j q) (held j q) (p.syncro.heap j) p.stop (suc p.syncro.made) j
      later_made ne z (few, empty, exact, fresh) = (
        few,
        empty,
        λ run h. exact run (omega (arith, z, h)),
        λ h. (omega (arith, z, (fresh (omega (arith, h))).0), (fresh (omega (arith, h))).1),
      )

  -- `add_task` answers whether the chain was not pending, and leaves it pending.
  add_task_bits :
      (v : T) (c : TaskChain T)
      → (bit (add_task v c).0 + bit c.is_pending ≡ 1) × ((add_task v c).1.is_pending ≡ true)
  add_task_bits v c = elim (Bool-cases c.is_pending) [
    | inl t ↦ rw (t) (refl, refl)
    | inr f ↦ rw (f) (refl, refl)
  ]

  pub put_in-IsSound :
      (p : ChainPool T) (xs ys : List (ℕ × T)) (i : ℕ) (v : T)
      → p.entering ≡ xs ++ ((i, v) ∷ ys)
      → ((j : ℕ) → IsSound p j)
      → (j : ℕ) → IsSound (put_in i v (xs ++ ys) p) j
  put_in-IsSound p xs ys i v e sound j = elim (one_or_none j i) [
    | inl same ↦ at_self p.syncro.heap i c (load j q) (held j q) p.stop p.syncro.made j same (
        own same (sound j) (
          subst (λ k. bit b + bit (p.syncro.heap k).is_pending ≡ 1) same
            (add_task_bits v (p.syncro.heap i)).0))
    | inr (ne, z) ↦ at_other p.syncro.heap i c (load j q) (held j q) p.stop p.syncro.made j ne (
        same_chain (load j p) (held j p) (load j q) (held j q) (p.syncro.heap j) p.stop
          p.syncro.made j (omega (arith, owes.1 z)) (λ h. omega (arith, owes.1 z, less, z, h))
          (λ run h. omega (arith, owes.1 z)) (sound j))
  ]
    where
      q : ChainPool T
      q = put_in i v (xs ++ ys) p

      b : Bool
      b = (add_task v (p.syncro.heap i)).0

      c : TaskChain T
      c = (add_task v (p.syncro.heap i)).1

      less : count_tasks j p.entering ≡ one j i + count_tasks j (xs ++ ys)
      less = count_tasks_middle j i v p.entering xs ys e

      owes :
          ((i ≡ j) → count j (if b then i ∷ p.owing else p.owing) ≡ bit b + count j p.owing)
          × (one j i ≡ 0 → count j (if b then i ∷ p.owing else p.owing) ≡ count j p.owing)
      owes = count_owing j i b p.owing

      pending : c.is_pending ≡ true
      pending = (add_task_bits v (p.syncro.heap i)).1

      own :
          i ≡ j
          → IsSound p j
          → bit b + bit (p.syncro.heap j).is_pending ≡ 1
          → IsSoundAt (load j q) (held j q) c p.stop p.syncro.made j
      own same (few, empty, exact, fresh) sum = (
        omega (arith, few, sum, owes.0 same, ap bit pending),
        λ f. absurd (true≢false (sym pending ∙ f)),
        λ run h.
            omega (arith, exact run (omega (arith, less, mine)), sum, owes.0 same, ap bit pending),
        λ h. absurd (omega (arith, (fresh h).0, less, mine)),
      )
        where
          mine : one j i ≡ 1
          mine = ap (one j) same ∙ one_self j
