-- ===== src/Pool.antt =====
-- tools/pool_allocator.hpp: objects in chunks of `__chunk_size` slots, with a stack of the positions
-- that are free. The allocator behind it is a parameter: `memory` is its answer to a request for a
-- chunk. A constructor or destructor of the elements does nothing to the pool.
pub mod Slots
pub mod Free
pub mod Contents
pub mod Growth
pub mod Allocation
pub mod Size
pub mod Visits
pub mod Tests
use sdk_cp.Base.{
  ℕ, zero, suc, ◌+◌, ◌-◌, ◌*◌, ◌/◌, ◌%◌, Bool, true, false, if◌then◌else◌, ltb, Option, none, some,
  List, [], ◌∷◌, ◌++◌, length, get_elem?, set, replicate, ◌>>=◌, sub64,
}

-- `pool_chunk`: null, or its slots; a slot whose flag is not active holds no object.
abbrev pub Chunk {ℓ} : Type ℓ → Type ℓ
Chunk A = Option (List (Option A))

-- `pool_allocator`: `_data`, and `_empty_objs` with its back first.
pub record Pool {ℓ} (A : Type ℓ) : Type ℓ where
  pub chunks : List (Chunk A)
  pub empty_objs : List ℕ

-- What a call ends in. `thrown` is the exception of `allocate`, with the pool that it leaves;
-- `fault` is an access through a null or missing chunk.
pub data Result {ℓ κ} (A : Type ℓ) (B : Type κ) : Type (ℓ ⊔ κ) where
  ok : B → Pool A → Result A B
  thrown : Pool A → Result A B
  fault : Result A B

abbrev pub empty_pool {ℓ} : {A : Type ℓ} → Pool A
empty_pool = record { chunks = []; empty_objs = [] }

-- The loop that pushes the positions of a new chunk, on the rounds left from `ix`.
abbrev pub push_positions : ℕ → ℕ → ℕ → ℕ → List ℕ → List ℕ
push_positions zero ix last begin stack = stack
push_positions (suc k) ix last begin stack =
    push_positions k (ix + 1) last begin ((last - ix + begin) ∷ stack)

module _ {ℓ} {A : Type ℓ} (chunk_size : ℕ) where
  -- The slot of a position, `_data[position / __chunk_size]` at `position % __chunk_size`.
  abbrev pub slot : List (Chunk A) → ℕ → Option (Option A)
  slot chunks i = get_elem? chunks (i / chunk_size) >>= λ c. c >>= λ l. get_elem? l (i % chunk_size)

  -- `pool_chunk::insert` and `pool_chunk::remove` in that place.
  abbrev pub set_slot : List (Chunk A) → ℕ → Option A → Option (List (Chunk A))
  set_slot chunks i x = get_elem? chunks (i / chunk_size) >>= λ c. c >>= λ l.
      if ltb (i % chunk_size) (length l)
      then some (set chunks (i / chunk_size) (some (set l (i % chunk_size) x)))
      else none

  -- `_data.emplace_back()`, then `initialize()`; if that fails the empty chunk stays behind.
  unfoldable pub grow : Bool → Pool A → Result A (Unit {0})
  grow memory p =
      let begin = length p.chunks * chunk_size in
      if memory
      then ok tt (record p {
        chunks = p.chunks ++ (some (replicate chunk_size none) ∷ []);
        empty_objs = push_positions chunk_size begin (begin + chunk_size - 1) begin p.empty_objs;
      })
      else thrown (record p { chunks = p.chunks ++ (none ∷ []) })

  -- `_empty_objs.back()`, `insert` into its slot, `_empty_objs.pop_back()`.
  unfoldable pub take_back : A → Pool A → Result A ℕ
  take_back v p = elim p.empty_objs [
    | [] ↦ fault
    | target ∷ rest ↦ elim (set_slot p.chunks target (some v)) [
      | none ↦ fault
      | some chunks' ↦ ok target (record { chunks = chunks'; empty_objs = rest })
    ]
  ]

  unfoldable pub allocate : Bool → A → Pool A → Result A ℕ
  allocate memory v p = elim p.empty_objs [
    | _ ∷ _ ↦ take_back v p
    | [] ↦ elim (grow memory p) [ ok _ p' ↦ take_back v p' | thrown p' ↦ thrown p' | fault ↦ fault ]
  ]

  -- `deallocate(position)`; nothing in a release build checks that the position is in use.
  unfoldable pub deallocate : ℕ → Pool A → Result A (Unit {0})
  deallocate i p = elim (set_slot p.chunks i none) [
    | none ↦ fault
    | some chunks' ↦ ok tt (record { chunks = chunks'; empty_objs = i ∷ p.empty_objs })
  ]

  -- `find(position)`: the object, or a null pointer; the outer option is an access out of range.
  unfoldable pub find : ℕ → Pool A → Option (Option A)
  find i p = slot p.chunks i

  unfoldable pub capacity : Pool A → ℕ
  capacity p = length p.chunks * chunk_size

  -- `capacity() - _empty_objs.size()`, on `size_t`.
  unfoldable pub size : Pool A → ℕ
  unfolding capacity
  size p = sub64 (capacity p) (length p.empty_objs)

-- `pool_chunk::foreach`: whether every active object was accepted, and what was visited.
unfoldable pub foreach_chunk {ℓ} : {A : Type ℓ} → (A → Bool) → List (Option A) → Bool × List A
foreach_chunk f [] = (true, [])
foreach_chunk f (none ∷ l) = foreach_chunk f l
foreach_chunk f (some a ∷ l) =
    let (go, seen) = foreach_chunk f l in if f a then (go, a ∷ seen) else (false, a ∷ [])

-- `foreach(f)` over the chunks; a null chunk is walked from a null pointer, which is `none`.
unfoldable pub foreach {ℓ} : {A : Type ℓ} → (A → Bool) → List (Chunk A) → Option (List A)
unfolding foreach_chunk
foreach f [] = some []
foreach f (none ∷ cs) = none
foreach f (some l ∷ cs) =
    let (go, seen) = foreach_chunk f l in
    elim go [ false ↦ some seen | true ↦ (foreach f cs >>= λ more. some (seen ++ more)) ]
