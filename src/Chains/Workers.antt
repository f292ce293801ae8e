-- ===== src/Chains/Workers.antt =====
-- Workers on other chains come to their end, so that a thread is free for a chain.
use sdk_cp.Base.{
  ℕ, zero, suc, ◌≤◌, ◌<◌, dec_lt, Bool, true, false, List, [], ◌∷◌, ◌++◌, Option, none, some, ◌≡◌,
  ◌≢◌, ap₂, append_assoc, append-nil, ==_ne, ==_refl, refl, sym, ap, ◌∙◌, arith, inl, inr,
  Bool-cases, length,
}
use sdk_cp.Base.Counts.{one, count, one_self, one_or_none}
use sdk_cp.Chains.{TaskChain, update, get_task_of, get_task, count_keys, ChainPool, got, Step, take}
use sdk_cp.Chains.Lives.{of_chain, of_chain-append}

-- Steps one after another.
pub data Steps {ℓ} {T : Type ℓ} : ChainPool T → ChainPool T → Type ℓ where
  arrived : {p : ChainPool T} → Steps p p
  onward : {p q r : ChainPool T} → Step p q → Steps q r → Steps p r

-- Some steps lead to where the task `t` of the chain `i` has been taken, before any other of `i`.
abbrev pub CanTake {ℓ} : {T : Type ℓ} → ChainPool T → ℕ → T → Type ℓ
CanTake {T = T} p i t =
    (q : ChainPool T) × (others : List (ℕ × T)) × Steps p q
    × (q.taken ≡ p.taken ++ (others ++ ((i, t) ∷ [])))
    × (of_chain i others ≡ [])

pub split_at :
    (i : ℕ) (l : List ℕ) → 0 < count i l → (xs : List ℕ) × (ys : List ℕ) × (l ≡ xs ++ (i ∷ ys))
split_at i [] h = absurd (omega arith)
split_at i (x ∷ l) h = elim (one_or_none i x) [
  | inl same ↦ ([], l, ap (λ k. k ∷ l) same)
  | inr (ne, z) ↦
      let (xs, ys, e) = split_at i l (omega (arith, z)) in (x ∷ xs, ys, ap (λ m. x ∷ m) e)
]

module _ {ℓ} {T : Type ℓ} (i : ℕ) (t : T) (ts : List T) where
  -- The chain `i` is pending and has the task `t` next.
  abbrev pub IsNext : ChainPool T → Type ℓ
  IsNext p =
      ((p.syncro.heap i).tasks ≡ t ∷ ts)
      × ((p.syncro.heap i).is_pending ≡ true)
      × (0 < count_keys i p.syncro.chains_list)
      × (0 < p.threads)

  pub from_working : (p : ChainPool T) → 0 < count i p.working → IsNext p → CanTake p i t
  from_working p h (tasks, on, keyed, some_threads) =
      let (xs, ys, at) = split_at i p.working h in
      (
        got i (xs ++ ys) (get_task (p.syncro.heap i)) p,
        [],
        onward (take xs ys i at) arrived,
        logged (xs ++ ys),
        refl,
      )
    where
      logged :
          (others : List ℕ)
          → (got i others (get_task (p.syncro.heap i)) p).taken ≡ p.taken ++ ((i, t) ∷ [])
      logged others = ap₂ (λ l b. (got i others (get_task_of l b) p).taken) tasks on

  -- A step that takes no task of the chain comes first.
  after :
      (p q : ChainPool T) (first : List (ℕ × T))
      → Step p q
      → q.taken ≡ p.taken ++ first
      → of_chain i first ≡ []
      → CanTake q i t
      → CanTake p i t
  after p q first s e none_yet (r, others, path, log, none_since) = (
    r,
    first ++ others,
    onward s path,
    log
        ∙ ap (λ l. l ++ (others ++ ((i, t) ∷ []))) e
        ∙ append_assoc p.taken first (others ++ ((i, t) ∷ []))
        ∙ ap (λ l. p.taken ++ l) (sym (append_assoc first others ((i, t) ∷ []))),
    of_chain-append i first others ∙ ap₂ (λ l m. l ++ m) none_yet none_since,
  )

  pub after_none :
      (p q : ChainPool T) → Step p q → q.taken ≡ p.taken → CanTake q i t → CanTake p i t
  after_none p q s e next = after p q [] s (e ∙ sym (append-nil p.taken)) refl next

  -- What a worker on another chain leaves of the pool, while it works and when it leaves the chain.
  abbrev pub Keeps : ChainPool T → ChainPool T → Type ℓ
  Keeps p q =
      IsNext q × (q.syncro.ready2work_list ≡ p.syncro.ready2work_list) × (q.threads ≡ p.threads)

  got-IsNext :
      (p : ChainPool T) (k : ℕ) (others : List ℕ) (r : Option T × TaskChain T)
      → i ≢ k
      → IsNext p
      → Keeps p (got k others r p)
  got-IsNext p k others (some v, c) ne (tasks, on, keyed, some_threads) = (
    (
      ap (λ (d : TaskChain T). d.tasks) other ∙ tasks,
      ap (λ (d : TaskChain T). d.is_pending) other ∙ on,
      keyed,
      some_threads,
    ),
    refl,
    refl,
  )
    where
      other : update p.syncro.heap k c i ≡ p.syncro.heap i
      other = rw (==_ne i k ne)
  got-IsNext p k others (none, c) ne (tasks, on, keyed, some_threads) = (
    (
      ap (λ (d : TaskChain T). d.tasks) other ∙ tasks,
      ap (λ (d : TaskChain T). d.is_pending) other ∙ on,
      keyed,
      some_threads,
    ),
    refl,
    refl,
  )
    where
      other : update p.syncro.heap k c i ≡ p.syncro.heap i
      other = rw (==_ne i k ne)

  -- A worker on another chain takes all its tasks and leaves it.
  finish :
      (ws : List T) (p : ChainPool T) (xs ys : List ℕ) (k : ℕ)
      → p.working ≡ xs ++ (k ∷ ys)
      → (p.syncro.heap k).tasks ≡ ws
      → i ≢ k
      → IsNext p
      → ((q : ChainPool T) → Keeps p q → q.working ≡ xs ++ ys → CanTake q i t)
      → CanTake p i t
  finish [] p xs ys k at tasks ne next again =
      after_none p (got k (xs ++ ys) (get_task (p.syncro.heap k)) p) (take xs ys k at)
        (ap (λ l. (got k (xs ++ ys) (get_task_of l (p.syncro.heap k).is_pending) p).taken) tasks)
        (again (got k (xs ++ ys) (get_task (p.syncro.heap k)) p)
          (got-IsNext p k (xs ++ ys) (get_task (p.syncro.heap k)) ne next)
          (ap (λ l. (got k (xs ++ ys) (get_task_of l (p.syncro.heap k).is_pending) p).working)
            tasks))
  finish (w ∷ ws) p xs ys k at tasks ne next again =
      elim (Bool-cases (p.syncro.heap k).is_pending) [
        | inr off ↦
            after_none p q (take xs ys k at)
              (ap (λ c. (got k (xs ++ ys) c p).taken) (answers false off))
              (again q (got-IsNext p k (xs ++ ys) (get_task (p.syncro.heap k)) ne next)
                (ap (λ c. (got k (xs ++ ys) c p).working) (answers false off)))
        | inl on ↦
            after p q ((k, w) ∷ []) (take xs ys k at)
              (ap (λ c. (got k (xs ++ ys) c p).taken) (answers true on))
              (rw (==_ne k i (λ e. ne (sym e))))
              (finish ws q xs ys k (ap (λ c. (got k (xs ++ ys) c p).working) (answers true on) ∙ at)
                (ap (λ c. ((got k (xs ++ ys) c p).syncro.heap k).tasks) (answers true on)
                  ∙ rw (==_refl k))
                ne (kept.0)
                (λ (r : ChainPool T) (keeps : Keeps q r) (w' : r.working ≡ xs ++ ys).
                  again r (keeps.0, keeps.1 ∙ kept.1, keeps.2 ∙ kept.2) w'))
      ]
    where
      q : ChainPool T
      q = got k (xs ++ ys) (get_task (p.syncro.heap k)) p

      kept : Keeps p q
      kept = got-IsNext p k (xs ++ ys) (get_task (p.syncro.heap k)) ne next

      answers :
          (b : Bool)
          → (p.syncro.heap k).is_pending ≡ b
          → get_task (p.syncro.heap k) ≡ get_task_of (w ∷ ws) b
      answers b e = ap₂ get_task_of tasks e

  leave_first :
      (p : ChainPool T) (l : List ℕ)
      → p.working ≡ l
      → 0 < length l
      → IsNext p
      → ((q : ChainPool T) → Keeps p q → suc (length q.working) ≡ length p.working → CanTake q i t)
      → CanTake p i t
  leave_first p [] e some_work next again = absurd (omega arith)
  leave_first p (x ∷ l) e some_work next again = elim (one_or_none i x) [
    | inl same ↦ from_working p (omega (arith, ap (count i) e, ap (one i) same, one_self i)) next
    | inr (ne, z) ↦
        finish (p.syncro.heap x).tasks p [] l x e refl (λ same. ne (sym same)) next
          (λ (q : ChainPool T) (keeps : Keeps p q) (w : q.working ≡ l).
            again q keeps
              (omega (arith, ap (λ (m : List ℕ). length m) w, ap (λ (m : List ℕ). length m) e)))
  ]

  -- Workers leave their chains until one of the threads is at none.
  pub make_room :
      (n : ℕ) (p : ChainPool T)
      → length p.working ≤ n
      → IsNext p
      → ((q : ChainPool T) → Keeps p q → length q.working < q.threads → CanTake q i t)
      → CanTake p i t
  make_room zero p short next again = again p (next, refl, refl) (omega (arith, next.3))
  make_room (suc n) p short next again = elim (dec_lt (length p.working) p.threads) [
    | yes free ↦ again p (next, refl, refl) free
    | no full ↦
        leave_first p p.working refl (omega (arith, full, next.3)) next
          (λ (q : ChainPool T) (keeps : Keeps p q)
              (fewer : suc (length q.working) ≡ length p.working).
            make_room n q (omega arith) keeps.0 (λ (r : ChainPool T) (keeps' : Keeps q r).
              again r (keeps'.0, keeps'.1 ∙ keeps.1, keeps'.2 ∙ keeps.2)))
  ]
