-- ===== src/RingBuffer/Entries.antt =====
-- The ring as a queue: the entries from the read index to the write index.
use sdk_cp.Base.{
  ℕ, ◌+◌, ◌%◌, ◌^◌, ◌≤◌, ◌≡◌, ◌⊎◌, inl, inr, refl, sym, ◌∙◌, subst, arith, List, [], ◌∷◌, ◌++◌,
  length,
}
use sdk_cp.Base.Memory.{
  Memory, load, store, Agrees, Agrees-trans, Agrees-wider, store-Agrees, load-Agrees, load-store,
}
use sdk_cp.Ws.Bytes.{le_bytes}
use Prim.Native.Nat.{◌∣◌}
use native.Mathlib.Nat.{one-le-pow}
use sdk_cp.RingBuffer.{RingBuffer, busy, fake, commited, skipped, set_state, set_prefix}
use sdk_cp.RingBuffer.Places.{apart}

-- What the owner of a block has said of it: nothing yet, `commit`, or `skip`.
pub data Status : Type 0 where
  pending : Status
  ready : Status
  dropped : Status

abbrev pub code : Status → ℕ
code pending = busy
code ready = commited
code dropped = skipped

-- A fake block with its size, or a block with its bytes.
pub data Entry : Type 0 where
  filler : ℕ → Entry
  block : Status → List ℕ → Entry

-- The sizes for which the ring is meant, with `__size` 2 ^ k and `__alignment` 2 ^ a.
abbrev pub IsShape : ℕ → ℕ → Type 0
IsShape k a = (3 ≤ a) × (a ≤ 7) × (a + 2 ≤ k) × (k ≤ 31)

module _ (k a : ℕ) where
  abbrev pub extent : Entry → ℕ
  extent (filler n) = n
  extent (block st bytes) = 2 ^ a + length bytes

  -- The memory at an index holds the entry, which does not cross the end of the memory.
  abbrev pub IsAt : Memory → ℕ → Entry → Type 0
  IsAt mem x (filler n) =
      (load 4 (x % 2 ^ k) mem ≡ le_bytes 4 n)
      × (load 2 (x % 2 ^ k + 4) mem ≡ le_bytes 2 fake)
      × (x % 2 ^ k + n ≡ 2 ^ k)
      × (2 ^ a ≤ n)
  IsAt mem x (block st bytes) =
      (load 4 (x % 2 ^ k) mem ≡ le_bytes 4 (length bytes))
      × (load 2 (x % 2 ^ k + 4) mem ≡ le_bytes 2 (code st))
      × (load (length bytes) (x % 2 ^ k + 2 ^ a) mem ≡ bytes)
      × (x % 2 ^ k + (2 ^ a + length bytes) ≤ 2 ^ k)

  -- The entries lie one behind the other between two indices.
  abbrev pub Holds : Memory → ℕ → List Entry → ℕ → Type 0
  Holds mem x [] y = x ≡ y
  Holds mem x (e ∷ es) y = IsAt mem x e × Holds mem (x + extent e) es y

  abbrev pub IsRing : RingBuffer → List Entry → Type 0
  IsRing r es =
      Holds r.mem r.ix_read es r.ix_write × (r.ix_write ≤ r.ix_read + 2 ^ k) × (2 ^ a ∣ r.ix_write)

  pub IsAt-fits :
      (mem : Memory) (x : ℕ) (e : Entry)
      → IsAt mem x e
      → (x % 2 ^ k + extent e ≤ 2 ^ k) × (2 ^ a ≤ extent e)
  IsAt-fits mem x (filler n) (size, state, exact, wide) = (omega arith, wide)
  IsAt-fits mem x (block st bytes) (size, state, content, fits) = (fits, omega arith)

  pub Holds-le : (mem : Memory) (x : ℕ) (es : List Entry) (y : ℕ) → Holds mem x es y → x ≤ y
  Holds-le mem x [] y h = omega (arith, h)
  Holds-le mem x (e ∷ es) y (at, h) = omega (arith, Holds-le mem (x + extent e) es y h)

  pub Holds-append :
      (mem : Memory) (x : ℕ) (es es' : List Entry) (y z : ℕ)
      → Holds mem x es y
      → Holds mem y es' z
      → Holds mem x (es ++ es') z
  Holds-append mem x [] es' y z h h' = subst (λ t. Holds mem t es' z) (sym h) h'
  Holds-append mem x (e ∷ es) es' y z (at, h) h' =
      (at, Holds-append mem (x + extent e) es es' y z h h')

  pub Holds-split :
      (mem : Memory) (x : ℕ) (es es' : List Entry) (z : ℕ)
      → Holds mem x (es ++ es') z
      → (y : ℕ) × Holds mem x es y × Holds mem y es' z
  Holds-split mem x [] es' z h = (x, refl, h)
  Holds-split mem x (e ∷ es) es' z (at, h) =
      let (y, before, behind) = Holds-split mem (x + extent e) es es' z h in
      (y, (at, before), behind)

  -- Bytes that change outside of an entry.
  pub IsAt-Agrees :
      (mem mem' : Memory) (x off m : ℕ) (e : Entry)
      → 8 ≤ 2 ^ a
      → Agrees off m mem mem'
      → (x % 2 ^ k + extent e ≤ off) ⊎ (off + m ≤ x % 2 ^ k)
      → IsAt mem x e
      → IsAt mem' x e
  IsAt-Agrees mem mem' x off m (filler n) unit f (inl h) (size, state, exact, wide) = (
    load-Agrees 4 (x % 2 ^ k) off m mem mem' (inl (omega arith)) f ∙ size,
    load-Agrees 2 (x % 2 ^ k + 4) off m mem mem' (inl (omega arith)) f ∙ state,
    exact,
    wide,
  )
  IsAt-Agrees mem mem' x off m (filler n) unit f (inr h) (size, state, exact, wide) = (
    load-Agrees 4 (x % 2 ^ k) off m mem mem' (inr (omega arith)) f ∙ size,
    load-Agrees 2 (x % 2 ^ k + 4) off m mem mem' (inr (omega arith)) f ∙ state,
    exact,
    wide,
  )
  IsAt-Agrees mem mem' x off m (block st bytes) unit f (inl h) (size, state, content, fits) = (
    load-Agrees 4 (x % 2 ^ k) off m mem mem' (inl (omega arith)) f ∙ size,
    load-Agrees 2 (x % 2 ^ k + 4) off m mem mem' (inl (omega arith)) f ∙ state,
    load-Agrees (length bytes) (x % 2 ^ k + 2 ^ a) off m mem mem' (inl (omega arith)) f ∙ content,
    fits,
  )
  IsAt-Agrees mem mem' x off m (block st bytes) unit f (inr h) (size, state, content, fits) = (
    load-Agrees 4 (x % 2 ^ k) off m mem mem' (inr (omega arith)) f ∙ size,
    load-Agrees 2 (x % 2 ^ k + 4) off m mem mem' (inr (omega arith)) f ∙ state,
    load-Agrees (length bytes) (x % 2 ^ k + 2 ^ a) off m mem mem' (inr (omega arith)) f ∙ content,
    fits,
  )

  -- Bytes of a stretch behind the entries, within one turn of the ring.
  pub Holds-behind :
      (mem mem' : Memory) (x : ℕ) (es : List Entry) (y b m : ℕ)
      → 8 ≤ 2 ^ a
      → Agrees (b % 2 ^ k) m mem mem'
      → y ≤ b
      → b + m ≤ x + 2 ^ k
      → b % 2 ^ k + m ≤ 2 ^ k
      → Holds mem x es y
      → Holds mem' x es y
  Holds-behind mem mem' x [] y b m unit f behind turn fits h = h
  Holds-behind mem mem' x (e ∷ es) y b m unit f behind turn fits (at, h) = (
    IsAt-Agrees mem mem' x (b % 2 ^ k) m e unit f
        (apart (2 ^ k) x (extent e) b m (one-le-pow k 2 (omega arith))
          (omega (arith, Holds-le mem (x + extent e) es y h)) turn (IsAt-fits mem x e at).0 fits)
        at,
    Holds-behind mem mem' (x + extent e) es y b m unit f behind (omega arith) fits h,
  )

  -- Bytes of a stretch before them.
  pub Holds-before :
      (mem mem' : Memory) (x : ℕ) (es : List Entry) (y b m : ℕ)
      → 8 ≤ 2 ^ a
      → Agrees (b % 2 ^ k) m mem mem'
      → b + m ≤ x
      → y ≤ b + 2 ^ k
      → b % 2 ^ k + m ≤ 2 ^ k
      → Holds mem x es y
      → Holds mem' x es y
  Holds-before mem mem' x [] y b m unit f before turn fits h = h
  Holds-before mem mem' x (e ∷ es) y b m unit f before turn fits (at, h) = (
    IsAt-Agrees mem mem' x (b % 2 ^ k) m e unit f
        (flip (
          apart (2 ^ k) b m x (extent e) (one-le-pow k 2 (omega arith)) before
            (omega (arith, Holds-le mem (x + extent e) es y h)) fits (IsAt-fits mem x e at).0))
        at,
    Holds-before mem mem' (x + extent e) es y b m unit f (omega arith) turn fits h,
  )
    where
      flip :
          (b % 2 ^ k + m ≤ x % 2 ^ k) ⊎ (x % 2 ^ k + extent e ≤ b % 2 ^ k)
          → (x % 2 ^ k + extent e ≤ b % 2 ^ k) ⊎ (b % 2 ^ k + m ≤ x % 2 ^ k)
      flip (inl h') = inr h'
      flip (inr h') = inl h'

-- A prefix that is written, and the bytes around it.
pub set_state-Agrees :
    (off state : ℕ) (mem : Memory) → Agrees (off + 4) 2 mem (set_state off state mem)
set_state-Agrees off state mem = store-Agrees (off + 4) (le_bytes 2 state) mem

pub set_prefix-Agrees :
    (off size state : ℕ) (mem : Memory) → Agrees off 6 mem (set_prefix off size state mem)
set_prefix-Agrees off size state mem =
    Agrees-trans off 6 mem (store off (le_bytes 4 size) mem) (set_prefix off size state mem)
      (Agrees-wider off 4 off 6 mem (store off (le_bytes 4 size) mem) (omega arith) (omega arith)
        (store-Agrees off (le_bytes 4 size) mem))
      (Agrees-wider (off + 4) 2 off 6 (store off (le_bytes 4 size) mem)
        (set_prefix off size state mem) (omega arith) (omega arith)
        (set_state-Agrees off state (store off (le_bytes 4 size) mem)))

pub set_prefix_loads :
    (off size state : ℕ) (mem : Memory)
    → (load 4 off (set_prefix off size state mem) ≡ le_bytes 4 size)
      × (load 2 (off + 4) (set_prefix off size state mem) ≡ le_bytes 2 state)
set_prefix_loads off size state mem = (
  load-Agrees 4 off (off + 4) 2 (store off (le_bytes 4 size) mem) (set_prefix off size state mem)
        (inl (omega arith)) (set_state-Agrees off state (store off (le_bytes 4 size) mem))
      ∙ load-store off (le_bytes 4 size) mem,
  load-store (off + 4) (le_bytes 2 state) (store off (le_bytes 4 size) mem),
)
