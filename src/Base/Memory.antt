-- ===== src/Base/Memory.antt =====
-- A region of memory as a function from offsets to bytes.
use Prim.Native.Nat.{ℕ, zero, suc, ◌+◌, ◌≤◌, ◌<◌}
use mathlib.Core.Path.{◌≡◌, refl, ap, ap₂, ◌∙◌}
use mathlib.Core.Logic.{◌⊎◌, inl, inr}
use mathlib.Core.List.{List, [], ◌∷◌}
use native.Mathlib.Omega.{arith}
use sdk_cp.Base.Tests.{◌==◌, ==_ne, ==_refl, if◌then◌else◌}
use sdk_cp.Base.Lists.{length}

abbrev pub Memory : Type 0
Memory = ℕ → ℕ

-- The bytes from an offset on, and bytes stored there.
abbrev pub load : ℕ → ℕ → Memory → List ℕ
load zero off mem = []
load (suc n) off mem = mem off ∷ load n (suc off) mem

abbrev pub poke : ℕ → ℕ → Memory → Memory
poke off b mem j = if j == off then b else mem j

abbrev pub store : ℕ → List ℕ → Memory → Memory
store off [] mem = mem
store off (b ∷ bytes) mem = poke off b (store (suc off) bytes mem)

pub length-load : (n off : ℕ) (mem : Memory) → length (load n off mem) ≡ n
length-load zero off mem = refl
length-load (suc n) off mem = ap suc (length-load n (suc off) mem)

-- Two memories that differ at most in `n` bytes from an offset on.
abbrev pub Agrees : ℕ → ℕ → Memory → Memory → Type 0
Agrees off n mem mem' = (j : ℕ) → (j < off) ⊎ (off + n ≤ j) → mem' j ≡ mem j

pub Agrees-refl : (off n : ℕ) (mem : Memory) → Agrees off n mem mem
Agrees-refl off n mem j h = refl

pub Agrees-trans :
    (off n : ℕ) (mem mem' mem'' : Memory)
    → Agrees off n mem mem'
    → Agrees off n mem' mem''
    → Agrees off n mem mem''
Agrees-trans off n mem mem' mem'' f g j h = g j h ∙ f j h

pub Agrees-wider :
    (off n off' n' : ℕ) (mem mem' : Memory)
    → off' ≤ off
    → off + n ≤ off' + n'
    → Agrees off n mem mem'
    → Agrees off' n' mem mem'
Agrees-wider off n off' n' mem mem' low high f j (inl h) = f j (inl (omega arith))
Agrees-wider off n off' n' mem mem' low high f j (inr h) = f j (inr (omega arith))

pub store-Agrees :
    (off : ℕ) (bytes : List ℕ) (mem : Memory) → Agrees off (length bytes) mem (store off bytes mem)
store-Agrees off [] mem j h = refl
store-Agrees off (b ∷ bytes) mem j (inl h) =
    rw (==_ne j off (λ e. omega arith)) (store-Agrees (suc off) bytes mem j (inl (omega arith)))
store-Agrees off (b ∷ bytes) mem j (inr h) =
    rw (==_ne j off (λ e. omega arith)) (store-Agrees (suc off) bytes mem j (inr (omega arith)))

-- Bytes that lie outside of what differs.
pub load-Agrees :
    (n at off m : ℕ) (mem mem' : Memory)
    → (at + n ≤ off) ⊎ (off + m ≤ at)
    → Agrees off m mem mem'
    → load n at mem' ≡ load n at mem
load-Agrees zero at off m mem mem' h f = refl
load-Agrees (suc n) at off m mem mem' (inl h) f =
    ap₂ (λ b bs. b ∷ bs) (f at (inl (omega arith)))
      (load-Agrees n (suc at) off m mem mem' (inl (omega arith)) f)
load-Agrees (suc n) at off m mem mem' (inr h) f =
    ap₂ (λ b bs. b ∷ bs) (f at (inr h))
      (load-Agrees n (suc at) off m mem mem' (inr (omega arith)) f)

-- What is stored is loaded.
pub load-store :
    (off : ℕ) (bytes : List ℕ) (mem : Memory)
    → load (length bytes) off (store off bytes mem) ≡ bytes
load-store off [] mem = refl
load-store off (b ∷ bytes) mem =
    ap₂ (λ c cs. c ∷ cs) (rw (==_refl off))
      (load-Agrees (length bytes) (suc off) off 1 (store (suc off) bytes mem)
          (poke off b (store (suc off) bytes mem)) (inr (omega arith))
          (store-Agrees off (b ∷ []) (store (suc off) bytes mem))
        ∙ load-store (suc off) bytes mem)
