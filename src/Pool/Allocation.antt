-- ===== src/Pool/Allocation.antt =====
-- `allocate` and `deallocate` as operations on the finite map of a pool.
use sdk_cp.Base.{
  none≢some, ℕ, ◌+◌, ◌*◌, ◌<◌, ◌≡◌, refl, arith, ap, sym, ◌∙◌, if◌then◌else◌, ◌==◌, true, List, [],
  ◌∷◌, Option, none, some, length, ℕ_discrete, ==_refl, ==_ne,
}
use sdk_cp.Pool.{Pool, Chunk, Result, ok, slot, set_slot, take_back, allocate, deallocate, grow}
use sdk_cp.Pool.Slots.{slot-set_slot}
use sdk_cp.Pool.Free.{count}
use sdk_cp.Pool.Growth.{grown, grown-IsConsistent, contents-grown, count-grown}
use sdk_cp.Pool.Contents.{object, free_at, IsConsistent, contents, set_slot-some, set_slot-Shaped}

module _ {ℓ} {A : Type ℓ} (n : ℕ) where
  -- What `allocate` promises of its answer: a position that held nothing, which now holds the object,
  -- with every other position as it was.
  abbrev pub Inserts : Pool A → A → Result A ℕ → Type ℓ
  Inserts p v r =
      (i : ℕ) × (p' : Pool A) × (r ≡ ok i p')
      × (contents n p i ≡ none)
      × ((j : ℕ) → contents n p' j ≡ (if i == j then some v else contents n p j))
      × IsConsistent n p'

  -- A write moves the objects and the free positions accordingly.
  object-set_slot :
      (cs cs' : List (Chunk A)) (i j : ℕ) (x : Option A)
      → set_slot n cs i x ≡ some cs'
      → object (slot n cs' j) ≡ (if i == j then x else object (slot n cs j))
  object-set_slot cs cs' i j x e = elim (ℕ_discrete i j) [
    | yes same ↦ rw (slot-set_slot n cs i x cs' j e, same, ==_refl j)
    | no other ↦ rw (slot-set_slot n cs i x cs' j e, ==_ne i j other)
  ]

  free_at-set_slot :
      (cs cs' : List (Chunk A)) (i j : ℕ) (x : Option A)
      → set_slot n cs i x ≡ some cs'
      → free_at (slot n cs' j) ≡ (if i == j then free_at (some x) else free_at (slot n cs j))
  free_at-set_slot cs cs' i j x e = elim (ℕ_discrete i j) [
    | yes same ↦ rw (slot-set_slot n cs i x cs' j e, same, ==_refl j)
    | no other ↦ rw (slot-set_slot n cs i x cs' j e, ==_ne i j other)
  ]

  free_slot : (o : Option (Option A)) → 0 < free_at o → o ≡ some none
  free_slot none h = absurd (omega arith)
  free_slot (some none) h = refl
  free_slot (some (some a)) h = absurd (omega arith)

  take_back-set_slot :
      (v : A) (cs cs' : List (Chunk A)) (t : ℕ) (rest : List ℕ)
      → set_slot n cs t (some v) ≡ some cs'
      → take_back n v (record { chunks = cs; empty_objs = t ∷ rest })
        ≡ ok t (record { chunks = cs'; empty_objs = rest })
  unfolding take_back
  take_back-set_slot v cs cs' t rest e = rw (e, take_back)

  -- What is left after position `t` is taken.
  taken-IsConsistent :
      (v : A) (cs cs' : List (Chunk A)) (t : ℕ) (rest : List ℕ)
      → IsConsistent n (record { chunks = cs; empty_objs = t ∷ rest })
      → set_slot n cs t (some v) ≡ some cs'
      → slot n cs t ≡ some none
      → IsConsistent n (record { chunks = cs'; empty_objs = rest })
  taken-IsConsistent v cs cs' t rest (shaped, counted) e empty = (
    set_slot-Shaped n cs t (some v) cs' e shaped,
    λ j.
        counts j (count j rest) (free_at (slot n cs j)) (free_at (slot n cs' j)) (counted j)
          (free_at-set_slot cs cs' t j (some v) e)
          (λ same. ap free_at (ap (slot n cs) (sym same) ∙ empty)),
  )
    where
      counts :
          (j k before after : ℕ)
          → (if t == j then 1 else 0) + k ≡ before
          → after ≡ (if t == j then 0 else before)
          → (t ≡ j → before ≡ 1)
          → k ≡ after
      counts j k before after h1 h2 h3 = ground (arith, h3)

  take_back-Inserts :
      (v : A) (cs : List (Chunk A)) (t : ℕ) (rest : List ℕ)
      → IsConsistent n (record { chunks = cs; empty_objs = t ∷ rest })
      → Inserts
          (record { chunks = cs; empty_objs = t ∷ rest })
          v
          (take_back n v (record { chunks = cs; empty_objs = t ∷ rest }))
  take_back-Inserts v cs t rest (shaped, counted) =
      let empty : slot n cs t ≡ some none = free_slot (slot n cs t) (ground (arith, counted t)) in
      let (cs', e) = set_slot-some n cs t (some v) none empty in
      (
        t,
        record { chunks = cs'; empty_objs = rest },
        take_back-set_slot v cs cs' t rest e,
        ap object empty,
        (λ j. object-set_slot cs cs' t j (some v) e),
        taken-IsConsistent v cs cs' t rest (shaped, counted) e empty,
      )

  -- On a stack that is not empty.
  take_back-count :
      (v : A) (cs : List (Chunk A)) (stack : List ℕ) (i : ℕ)
      → IsConsistent n (record { chunks = cs; empty_objs = stack })
      → 0 < count i stack
      → Inserts
          (record { chunks = cs; empty_objs = stack })
          v
          (take_back n v (record { chunks = cs; empty_objs = stack }))
  take_back-count v cs [] i h some_free = absurd (omega arith)
  take_back-count v cs (t ∷ rest) i h some_free = take_back-Inserts v cs t rest h

  allocate-grow :
      (v : A) (cs : List (Chunk A)) (pos : 0 < n)
      → allocate n true v (record { chunks = cs; empty_objs = [] }) ≡ take_back n v (grown n pos cs)
  unfolding allocate grow
  allocate-grow v cs pos = refl

  allocate-stack :
      (v : A) (cs : List (Chunk A)) (stack : List ℕ)
      → 0 < n
      → IsConsistent n (record { chunks = cs; empty_objs = stack })
      → Inserts
          (record { chunks = cs; empty_objs = stack })
          v
          (allocate n true v (record { chunks = cs; empty_objs = stack }))
  unfolding allocate
  allocate-stack v cs [] pos h =
      let (i, p', e, was, now, inv) =
        take_back-count v (grown n pos cs).chunks (grown n pos cs).empty_objs (length cs * n)
          (grown-IsConsistent n pos cs h) (count-grown n pos cs) in
      (
        i,
        p',
        allocate-grow v cs pos ∙ e,
        sym (contents-grown n pos cs i) ∙ was,
        (λ j. now j ∙ ap (λ o. if i == j then some v else o) (contents-grown n pos cs j)),
        inv,
      )
  allocate-stack v cs (t ∷ rest) pos h = take_back-Inserts v cs t rest h

  -- While memory lasts, `allocate` on a pool whose invariant holds is defined, answers a position that
  -- held no object, puts the object there, leaves every other position as it was, and keeps the
  -- invariant: every chunk is there, and the stack holds each free position once and no other. The
  -- chunk size is not 0.
  pub allocate-Inserts :
      (v : A) (p : Pool A) → 0 < n → IsConsistent n p → Inserts p v (allocate n true v p)
  allocate-Inserts v p pos h = allocate-stack v p.chunks p.empty_objs pos h

  -- What `deallocate` promises.
  abbrev pub Removes : Pool A → ℕ → Result A (Unit {0}) → Type ℓ
  Removes p i r =
      (p' : Pool A) × (r ≡ ok tt p')
      × ((j : ℕ) → contents n p' j ≡ (if i == j then none else contents n p j))
      × IsConsistent n p'

  deallocate-set_slot :
      (p : Pool A) (i : ℕ) (cs' : List (Chunk A))
      → set_slot n p.chunks i none ≡ some cs'
      → deallocate n i p ≡ ok tt (record { chunks = cs'; empty_objs = i ∷ p.empty_objs })
  unfolding deallocate
  deallocate-set_slot p i cs' e = rw (e, deallocate)

  pub live_slot : (o : Option (Option A)) (a : A) → object o ≡ some a → o ≡ some (some a)
  live_slot none a e = absurd (none≢some e)
  live_slot (some x) a e = ap some e

  given_back-IsConsistent :
      (p : Pool A) (i : ℕ) (a : A) (cs' : List (Chunk A))
      → IsConsistent n p
      → set_slot n p.chunks i none ≡ some cs'
      → slot n p.chunks i ≡ some (some a)
      → IsConsistent n (record { chunks = cs'; empty_objs = i ∷ p.empty_objs })
  given_back-IsConsistent p i a cs' (shaped, counted) e live = (
    set_slot-Shaped n p.chunks i none cs' e shaped,
    λ j.
        counts j (count j p.empty_objs) (free_at (slot n p.chunks j)) (free_at (slot n cs' j))
          (counted j) (free_at-set_slot p.chunks cs' i j none e)
          (λ same. ap free_at (ap (slot n p.chunks) (sym same) ∙ live)),
  )
    where
      counts :
          (j k before after : ℕ)
          → k ≡ before
          → after ≡ (if i == j then 1 else before)
          → (i ≡ j → before ≡ 0)
          → (if i == j then 1 else 0) + k ≡ after
      counts j k before after h1 h2 h3 = ground (arith, h3)

  -- `deallocate` of a position that holds an object, on a pool whose invariant holds, is defined,
  -- removes that object alone, and keeps the invariant.
  pub deallocate-Removes :
      (p : Pool A) (i : ℕ) (a : A)
      → IsConsistent n p
      → contents n p i ≡ some a
      → Removes p i (deallocate n i p)
  deallocate-Removes p i a h e =
      let live : slot n p.chunks i ≡ some (some a) = live_slot (slot n p.chunks i) a e in
      let (cs', made) = set_slot-some n p.chunks i none (some a) live in
      (
        record { chunks = cs'; empty_objs = i ∷ p.empty_objs },
        deallocate-set_slot p i cs' made,
        (λ j. object-set_slot p.chunks cs' i j none made),
        given_back-IsConsistent p i a cs' h made live,
      )
