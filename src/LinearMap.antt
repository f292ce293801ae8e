-- ===== src/LinearMap.antt =====
-- tools/linear_hash_map.hpp: a map whose values stand in a pool, with the position of each by key.
-- The unordered map of the positions is an association list; `same` is the parameter `__key_eq`.
pub mod Keys
pub mod Refinement
pub mod Erasure
mod Tests
use sdk_cp.Base.{
  ℕ, ◌+◌, Bool, true, false, if◌then◌else◌, ◌==◌, List, [], ◌∷◌, Option, none, some, ◌≡◌, ◌↔◌,
}
use sdk_cp.Pool
use sdk_cp.Pool.{Pool, Result}

-- `linear_hash_map`: `_data` and `_keys`.
pub record LinearHashMap {ℓ κ} (K : Type ℓ) (A : Type κ) : Type (ℓ ⊔ κ) where
  pub pool : Pool A
  pub keys : List (K × ℕ)

-- What a call ends in: its answer, an exception of the pool, or a null pointer that is followed.
pub data Outcome {ℓ κ ι} (K : Type ℓ) (A : Type κ) (B : Type ι) : Type (ℓ ⊔ κ ⊔ ι) where
  done : B → LinearHashMap K A → Outcome K A B
  raised : LinearHashMap K A → Outcome K A B
  broken : Outcome K A B

module _ {ℓ} {K : Type ℓ} (same : K → K → Bool) where
  -- `_keys.find(key)` and `_keys.erase(key)`.
  abbrev pub find_position : K → List (K × ℕ) → Option ℕ
  find_position key [] = none
  find_position key ((k, i) ∷ l) = if same k key then some i else find_position key l

  abbrev pub erase_position : K → List (K × ℕ) → List (K × ℕ)
  erase_position key [] = []
  erase_position key ((k, i) ∷ l) =
      if same k key then erase_position key l else (k, i) ∷ erase_position key l

module _ {ℓ κ} {K : Type ℓ} {A : Type κ} where
  -- `*ptr`, of the pool's answer for a position: the reference is the position.
  abbrev pub deref : ℕ → LinearHashMap K A → Option (Option A) → Outcome K A ℕ
  deref i m none = broken
  deref i m (some none) = broken
  deref i m (some (some a)) = done i m

module _ {ℓ κ} {K : Type ℓ} {A : Type κ} (same : K → K → Bool) (chunk_size : ℕ) where
  abbrev pub after_allocate : K → LinearHashMap K A → Result A ℕ → Outcome K A ℕ
  after_allocate key m (Pool.ok i p) =
      deref i (record { pool = p; keys = (key, i) ∷ m.keys }) (Pool.find chunk_size i p)
  after_allocate key m (Pool.thrown p) = raised (record { pool = p; keys = m.keys })
  after_allocate key m Pool.fault = broken

  abbrev pub index_at : Bool → A → K → LinearHashMap K A → Option ℕ → Outcome K A ℕ
  index_at memory fresh key m (some i) = deref i m (Pool.find chunk_size i m.pool)
  index_at memory fresh key m none =
      after_allocate key m (Pool.allocate chunk_size memory fresh m.pool)

  -- `operator[](key)`; `fresh` is `value_type()`.
  unfoldable pub index : Bool → A → K → LinearHashMap K A → Outcome K A ℕ
  index memory fresh key m = index_at memory fresh key m (find_position same key m.keys)

  abbrev pub after_deallocate : K → LinearHashMap K A → Result A (Unit {0}) → Outcome K A (Unit {0})
  after_deallocate key m (Pool.ok u p) =
      done tt (record { pool = p; keys = erase_position same key m.keys })
  after_deallocate key m (Pool.thrown p) = raised (record { pool = p; keys = m.keys })
  after_deallocate key m Pool.fault = broken

  abbrev pub erase_at : K → LinearHashMap K A → Option ℕ → Outcome K A (Unit {0})
  erase_at key m none = done tt m
  erase_at key m (some i) = after_deallocate key m (Pool.deallocate chunk_size i m.pool)

  -- `erase(key)`.
  unfoldable pub erase : K → LinearHashMap K A → Outcome K A (Unit {0})
  erase key m = erase_at key m (find_position same key m.keys)

  abbrev pub find_at : LinearHashMap K A → Option ℕ → Option (Option A)
  find_at m none = some none
  find_at m (some i) = Pool.find chunk_size i m.pool

  -- `find(key)`: the object pointed to, or a null pointer.
  unfoldable pub find_key : K → LinearHashMap K A → Option (Option A)
  find_key key m = find_at m (find_position same key m.keys)

  -- `size()` and `empty()`.
  unfoldable pub map_size : LinearHashMap K A → ℕ
  map_size m = Pool.size chunk_size m.pool

  unfoldable pub map_empty : LinearHashMap K A → Bool
  unfolding map_size
  map_empty m = map_size m == 0

-- `swap(c)`.
abbrev pub swap {ℓ κ} :
    {K : Type ℓ} {A : Type κ}
    → LinearHashMap K A
    → LinearHashMap K A
    → LinearHashMap K A × LinearHashMap K A
swap m c = (record { pool = c.pool; keys = c.keys }, record { pool = m.pool; keys = m.keys })
