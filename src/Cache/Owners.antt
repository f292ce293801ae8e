-- ===== src/Cache/Owners.antt =====
-- An object of the cache has one owner.
use sdk_cp.Base.{
  ℕ, ◌+◌, ◌≤◌, ◌==◌, ==_ne, ==_refl, dec_lt, lt→ltb, le→ltb, if◌then◌else◌, List, [], ◌∷◌, ◌++◌,
  length, ◌≡◌, ◌≢◌, ap, arith, ℕ_discrete,
}
use sdk_cp.Base.Counts.{one, count, count_middle}
use sdk_cp.Cache.{get_raw_ptr, set_raw_ptr, Objects, handed_out, get, put, Reach, begin, later}

-- No more objects in the cache than it may keep, and every address in it or out, once.
abbrev pub IsOwned : ℕ → Objects → ℕ → Type 0
IsOwned max s j = (length s.cache ≤ max) × (count j s.cache + count j s.out ≤ 1)

out_le :
    (j ptr : ℕ) (l : List ℕ) → count j (if ptr == 0 then l else ptr ∷ l) ≤ one j ptr + count j l
out_le j ptr l = elim (ℕ_discrete ptr 0) [
  | yes e ↦ rw (e) (omega arith)
  | no ne ↦ rw (==_ne ptr 0 ne) (omega arith)
]

handed_out-IsOwned :
    (max fresh : ℕ) (cache out : List ℕ) (j : ℕ)
    → (fresh ≢ 0 → count fresh cache + count fresh out ≡ 0)
    → IsOwned max (record { cache = cache; out = out }) j
    → IsOwned max (handed_out (get_raw_ptr fresh cache) (record { cache = cache; out = out })) j
handed_out-IsOwned max fresh (ptr ∷ cache) out j h (few, once) =
    (omega (arith, few), omega (arith, once, out_le j ptr out))
handed_out-IsOwned max fresh [] out j h (few, once) = elim (ℕ_discrete fresh 0) [
  | yes e ↦ rw (e) (few, once)
  | no ne ↦ rw (==_ne fresh 0 ne) (few, alone ne (ℕ_discrete fresh j))
]
  where
    alone : fresh ≢ 0 → Dec (fresh ≡ j) → 0 + (one j fresh + count j out) ≤ 1
    alone ne (yes e) = rw (e, ==_refl j) (omega (arith, h ne, ap (λ k. count k out) e))
    alone ne (no other) = rw (==_ne fresh j other) (omega (arith, once))

put-IsOwned :
    (max : ℕ) (s : Objects) (xs ys : List ℕ) (ptr j : ℕ)
    → s.out ≡ xs ++ (ptr ∷ ys)
    → IsOwned max s j
    → IsOwned max (record { cache = (set_raw_ptr max ptr s.cache).1; out = xs ++ ys }) j
put-IsOwned max s xs ys ptr j e (few, once) = elim (ℕ_discrete ptr 0) [
  | yes z ↦ rw (z) (few, omega (arith, once, less))
  | no nz ↦ elim (dec_lt (length s.cache) max) [
    | yes room ↦
        rw (==_ne ptr 0 nz, lt→ltb (length s.cache) max room)
          (omega (arith, room), omega (arith, once, less))
    | no full ↦
        rw (==_ne ptr 0 nz, le→ltb (length s.cache) max (omega arith))
          (few, omega (arith, once, less))
  ]
]
  where
    less : count j s.out ≡ one j ptr + count j (xs ++ ys)
    less = count_middle j ptr s.out xs ys e

-- In every reachable state of a cache of at most `max` objects, it has no more than these, and no
-- object is twice in it, twice with clients, or both: none is handed out while a client has it. The
-- clients give back what they have, and the allocator answers no address that is in use.
pub Reach-IsOwned : {max : ℕ} {s : Objects} (j : ℕ) → Reach max s → IsOwned max s j
Reach-IsOwned j begin = (omega arith, omega arith)
Reach-IsOwned {max = max} j (later {s} r (get fresh h)) =
    handed_out-IsOwned max fresh s.cache s.out j h (Reach-IsOwned j r)
Reach-IsOwned {max = max} j (later {s} r (put xs ys ptr e)) =
    put-IsOwned max s xs ys ptr j e (Reach-IsOwned j r)
