-- ===== src/Cache.antt =====
-- tools/cache.hpp: objects given back are kept, up to a number, and handed out again. An object is
-- its address, and 0 the null pointer. Each function is one critical section of `_cache_blocker`.
pub mod Owners
mod Tests
use sdk_cp.Base.{
  ℕ, ◌+◌, ◌<◌, ◌==◌, ltb, if◌then◌else◌, List, [], ◌∷◌, ◌++◌, length, Option, none, some, ◌≡◌, ◌≢◌,
}
use sdk_cp.Base.Counts.{count}

-- `_get_raw_ptr()`: the front of `_cache`, or what the allocator answers.
abbrev pub get_raw_ptr : ℕ → List ℕ → ℕ × List ℕ
get_raw_ptr fresh [] = (fresh, [])
get_raw_ptr fresh (ptr ∷ cache) = (ptr, cache)

-- `_set_raw_ptr(ptr)`: the cache, and the object that is deallocated.
abbrev pub set_raw_ptr : ℕ → ℕ → List ℕ → Option ℕ × List ℕ
set_raw_ptr max ptr cache =
    if ptr == 0
    then (none, cache)
    else if ltb (length cache) max
    then (none, ptr ∷ cache)
    else (some ptr, cache)

-- The cache and the objects that its clients have.
pub record Objects : Type 0 where
  pub cache : List ℕ
  pub out : List ℕ

-- An object comes out, and one that a client has goes back; the allocator's answer is null or the
-- address of no other object.
abbrev pub handed_out : ℕ × List ℕ → Objects → Objects
handed_out (ptr, cache) s = record { cache = cache; out = if ptr == 0 then s.out else ptr ∷ s.out }

pub data Step (max : ℕ) (s : Objects) : Objects → Type 0 where
  get :
      (fresh : ℕ)
      → (fresh ≢ 0 → count fresh s.cache + count fresh s.out ≡ 0)
      → Step max s (handed_out (get_raw_ptr fresh s.cache) s)
  put :
      (xs ys : List ℕ) (ptr : ℕ)
      → s.out ≡ xs ++ (ptr ∷ ys)
      → Step max s (record { cache = (set_raw_ptr max ptr s.cache).1; out = xs ++ ys })

pub data Reach (max : ℕ) : Objects → Type 0 where
  begin : Reach max (record { cache = []; out = [] })
  later : {s t : Objects} → Reach max s → Step max s t → Reach max t
