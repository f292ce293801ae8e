-- ===== src/Pool/Size.antt =====
-- `size` counts the objects of a pool whose invariant holds.
use sdk_cp.Base.{
  ℕ, zero, suc, ◌+◌, ◌*◌, ◌/◌, ◌%◌, ◌^◌, ◌<◌, ◌≡◌, refl, arith, ap, ap₂, ◌∙◌, if◌then◌else◌, ◌==◌,
  false, List, [], ◌∷◌, ◌++◌, Option, none, some, get_elem?, get_elem?_lt, length, All, ◌>>=◌,
  dec_lt, ==_refl, ℕ_discrete, get_elem?-append_left, length-append, inl, inr, Option-cases,
}
use native.Mathlib.Nat.{
  div-lt_iff_lt-mul, suc-mul, div-eq_of_lt, mod-eq_of_lt, add-mod_left, add-div_left,
}
use sdk_cp.Pool.{Pool, Chunk, thrown, slot, size, capacity, allocate, grow}
use sdk_cp.Pool.Free.{count}
use sdk_cp.Pool.Growth.{get_elem?_past, get_elem?-append_last, get_elem?-append_past}
use sdk_cp.Pool.Contents.{free_at, Shaped, IsConsistent, contents, object}

-- `f 0 + ... + f (k - 1)`.
abbrev pub sum : (ℕ → ℕ) → ℕ → ℕ
sum f zero = 0
sum f (suc k) = f 0 + sum (λ i. f (suc i)) k

sum-add : (f g : ℕ → ℕ) (k : ℕ) → sum (λ i. f i + g i) k ≡ sum f k + sum g k
sum-add f g zero = refl
sum-add f g (suc k) = omega (arith, sum-add (λ i. f (suc i)) (λ i. g (suc i)) k)

sum-eq : (f g : ℕ → ℕ) (k : ℕ) → ((i : ℕ) → i < k → f i ≡ g i) → sum f k ≡ sum g k
sum-eq f g zero h = refl
sum-eq f g (suc k) h =
    ap₂ ◌+◌ (h 0 (omega arith))
      (sum-eq (λ i. f (suc i)) (λ i. g (suc i)) k (λ i lt. h (suc i) (omega arith)))

-- A sum in two parts, the index moved by `a` in the second.
sum-split :
    (f g : ℕ → ℕ) (a b : ℕ) → ((i : ℕ) → f (a + i) ≡ g i) → sum f (a + b) ≡ sum f a + sum g b
sum-split f g zero b h =
    ap (sum f) {x = 0 + b} {y = b} (omega arith)
    ∙ (sum-eq f g b (λ i lt. ap f (omega arith) ∙ h i) ∙ omega arith)
sum-split f g (suc a) b h =
    ap (sum f) {x = suc a + b} {y = suc (a + b)} (omega arith)
    ∙ omega (arith, sum-split (λ i. f (suc i)) g a b (λ i. ap f (omega arith) ∙ h i))

sum-zero : (k : ℕ) → sum (λ i. 0) k ≡ 0
sum-zero zero = refl
sum-zero (suc k) = omega (arith, sum-zero k)

-- One position among the first `k`.
sum-point : (j k : ℕ) → j < k → sum (λ i. if j == i then 1 else 0) k ≡ 1
sum-point j zero h = absurd (omega arith)
sum-point zero (suc k) h =
    omega (
      arith,
      sum-eq (λ i. if 0 == suc i then 1 else 0) (λ i. 0) k (λ i lt. ground arith),
      sum-zero k,
    )
sum-point (suc j) (suc k) h = ground (
  arith,
  sum-eq (λ i. if suc j == suc i then 1 else 0) (λ i. if j == i then 1 else 0) k
      (λ i lt. ground arith),
  sum-point j k (omega arith),
)

-- Every entry of a stack counts once.
sum-count :
    (js : List ℕ) (k : ℕ) → ((i : ℕ) → 0 < count i js → i < k) → sum (λ i. count i js) k ≡ length js
sum-count [] k h = sum-zero k
sum-count (j ∷ js) k h =
    sum-add (λ i. if j == i then 1 else 0) (λ i. count i js) k
    ∙ omega (
      arith,
      sum-point j k (h j (rw (==_refl j) (omega arith))),
      sum-count js k (λ i pos. h i (omega arith)),
    )

module _ {ℓ} {A : Type ℓ} where
  -- The objects in the slots of a chunk, and of all chunks.
  abbrev pub live_in : List (Option A) → ℕ
  live_in [] = 0
  live_in (none ∷ l) = live_in l
  live_in (some a ∷ l) = suc (live_in l)

  abbrev pub live : List (Chunk A) → ℕ
  live [] = 0
  live (none ∷ cs) = live cs
  live (some l ∷ cs) = live_in l + live cs

  -- The slots of a chunk are free or hold an object.
  live_in-sum :
      (l : List (Option A)) → sum (λ i. free_at (get_elem? l i)) (length l) + live_in l ≡ length l
  live_in-sum [] = omega arith
  live_in-sum (none ∷ l) = omega (arith, live_in-sum l)
  live_in-sum (some a ∷ l) = omega (arith, live_in-sum l)

module _ {ℓ} {A : Type ℓ} (n : ℕ) (pos : 0 < n) where
  slot_first :
      (l : List (Option A)) (cs : List (Chunk A)) (i : ℕ)
      → i < n
      → slot n (some l ∷ cs) i ≡ get_elem? l i
  slot_first l cs i h = rw (div-eq_of_lt h, mod-eq_of_lt h)

  slot_later : (c : Chunk A) (cs : List (Chunk A)) (i : ℕ) → slot n (c ∷ cs) (n + i) ≡ slot n cs i
  slot_later c cs i =
      ap₂ (λ (q r : ℕ). get_elem? (c ∷ cs) q >>= λ d. d >>= λ l. get_elem? l r) next
        (add-mod_left n i)
    where
      next : (n + i) / n ≡ suc (i / n)
      next = omega (arith, add-div_left i pos)

  -- Free slots and objects make up the capacity.
  live-sum :
      (cs : List (Chunk A))
      → All (Shaped n) cs
      → sum (λ i. free_at (slot n cs i)) (length cs * n) + live cs ≡ length cs * n
  live-sum [] h = omega (arith, sum-zero (0 * n))
  live-sum (none ∷ cs) h = absurd h.0
  live-sum (some l ∷ cs) h =
      let size : length l ≡ n = h.0 in
      ap (λ k. sum (λ i. free_at (slot n (some l ∷ cs) i)) k + (live_in l + live cs)) split
      ∙ omega (
        arith,
        split,
        sum-split (λ i. free_at (slot n (some l ∷ cs) i)) (λ i. free_at (slot n cs i)) n
            (length cs * n) (λ i. ap free_at (slot_later (some l) cs i)),
        sum-eq (λ i. free_at (slot n (some l ∷ cs) i)) (λ i. free_at (get_elem? l i)) n
            (λ i lt. ap free_at (slot_first l cs i lt)),
        ap (sum (λ i. free_at (get_elem? l i))) size,
        live_in-sum l,
        live-sum cs h.1,
        size,
      )
    where
      split : suc (length cs) * n ≡ n + length cs * n
      split = omega (arith, suc-mul (length cs) n)

  -- A position on the stack is one of the pool's.
  free_at_in : (cs : List (Chunk A)) (i : ℕ) → 0 < free_at (slot n cs i) → i < length cs * n
  free_at_in cs i h = elim (Option-cases (get_elem? cs (i / n))) [
    | inl missing ↦ absurd (
        omega (
          arith,
          ap (λ (c : Option (Chunk A)). free_at (c >>= λ d. d >>= λ l. get_elem? l (i % n)))
              missing,
        ))
    | inr (c, found) ↦ (div-lt_iff_lt-mul pos).0 (get_elem?_lt cs (i / n) found)
  ]

  -- On a pool whose invariant holds, `size` is the number of its objects, while the capacity fits a
  -- `size_t`. The chunk size is not 0.
  pub size-live :
      (p : Pool A) → IsConsistent n p → length p.chunks * n < 2 ^ 64 → size n p ≡ live p.chunks
  unfolding size capacity
  size-live p (shaped, counted) h = omega (
    arith,
    sum-count p.empty_objs (length p.chunks * n)
        (λ i pos_count. free_at_in p.chunks i (omega (arith, counted i))),
    sum-eq (λ i. count i p.empty_objs) (λ i. free_at (slot n p.chunks i)) (length p.chunks * n)
        (λ i lt. counted i),
    live-sum p.chunks shaped,
  )

  slot-null : (cs : List (Chunk A)) (i : ℕ) → slot n (cs ++ (none ∷ [])) i ≡ slot n cs i
  slot-null cs i = elim (dec_lt (i / n) (length cs)) [
    | yes old ↦ rw (get_elem?-append_left cs (none ∷ []) (i / n) old)
    | no ge ↦ elim (ℕ_discrete (i / n) (length cs)) [
      | yes new ↦
          rw (new, get_elem?-append_last cs (none), get_elem?_past cs (length cs) (omega arith))
      | no ne ↦ rw (
        get_elem?-append_past cs none (i / n) (omega arith),
        get_elem?_past cs (i / n) (omega arith),
      )
    ]
  ]

  -- When a pool with no free position cannot get a chunk, `allocate` throws and leaves a null chunk
  -- behind: `size` then counts `n` objects more than before, although no position holds another
  -- object. The capacity fits a `size_t`.
  pub allocate_throws :
      (v : A) (cs : List (Chunk A))
      → suc (length cs) * n < 2 ^ 64
      → (p' : Pool A) × (allocate n false v (record { chunks = cs; empty_objs = [] }) ≡ thrown p')
        × (size n p' ≡ size n (record { chunks = cs; empty_objs = [] }) + n)
        × ((i : ℕ) → contents n p' i ≡ contents n (record { chunks = cs; empty_objs = [] }) i)
  unfolding allocate grow size capacity
  allocate_throws v cs h = (
    record { chunks = cs ++ (none ∷ []); empty_objs = [] },
    refl,
    omega (arith, suc-mul (length cs) n, ap (λ k. k * n) (length-append cs (none ∷ []))),
    λ i. ap object (slot-null cs i),
  )
